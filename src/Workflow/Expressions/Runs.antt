-- ===== src/Workflow/Expressions/Runs.antt =====
-- The parts of `_evaluate_simple_expression` come to an end where the calls on shorter texts do.
use Prim.Native.String.{[] as empty_text, ◌∷◌ as ◌▸◌}
use alharistech_platform.Base.{
  ℕ, ◌≤◌, ◌<◌, String, Bool, true, false, not, ◌||◌, Option, none, some, List, [], ◌∷◌, IsSome,
  OnSome, OnSome-of, All, ◌==◌, string_eq, if◌then◌else◌, arith,
}
use alharistech_platform.Base.Blank.{strip}
use alharistech_platform.Base.Blank.Sizes.{size-strip}
use alharistech_platform.Base.Split.{size, split_once, split_all, after_prefix, all_but_last}
use alharistech_platform.Base.Split.Sizes.{
  All-map, size-split_all, size-after_prefix, size-all_but_last,
}
use alharistech_platform.Value.{ℤ, Value, bool, int, truthy}
use alharistech_platform.Exception.{unmodelled, Result, ok, err}
use alharistech_platform.Workflow.Inputs.{
  NumberText, whole, not_number, unknown, number_text, lowers_to,
}
use alharistech_platform.Workflow.Expressions.Operators.{
  has_part, int_text, Comparison, comparisons,
}
use alharistech_platform.Workflow.Expressions.Paths.{resolve_dot_path}
use alharistech_platform.Workflow.Expressions.Simple.{
  Eval, ◌⟫◌, give, unwrap, is_quoted, wrapped_in, word_span, call_argument, named_filter, filter_by,
  piped, both_sides, parted, evaluate_items, evaluate_list, word_or_path, literal, compare_by,
  negation, conjunction, disjunction, evaluate_stripped, apply_filter,
}
use alharistech_platform.Workflow.Expressions.Sizes.{
  OnSome-map, word_span-RestWithin, call_argument-Shorter, BothWithin, HasFirst,
  split_once-BothWithin_of,
}

pub runs-bind :
    {A B : Type 0} (x : Eval A) (f : A → Eval B)
    → IsSome x
    → ((a : A) → IsSome (f a))
    → IsSome (x ⟫ f)
runs-bind (some (ok a)) f h g = g a
runs-bind (some (err e)) f h g = tt
runs-bind none f h g = h

runs-if : {A : Type 0} (b : Bool) (x y : Eval A) → IsSome x → IsSome y → IsSome (if b then x else y)
runs-if true x y hx hy = hx
runs-if false x y hx hy = hy

runs-option :
    {A B : Type 0} (P : A → Type 0) (o : Option A) (y : Eval B) (f : A → Eval B)
    → OnSome P o
    → IsSome y
    → ((a : A) → P a → IsSome (f a))
    → IsSome (elim o as (λ o. Eval B) [ none ↦ y | some a ↦ f a ])
runs-option P none y f h hy hf = hy
runs-option P (some a) y f h hy hf = hf a h

module _ (parse_json : String → Option Value) (namespace : Value) (n : ℕ)
    (evaluate : String → Eval Value) (runs : (s : String) → size s < n → IsSome (evaluate s)) where
  runs-strip : (s : String) → size s < n → IsSome (evaluate (strip s))
  runs-strip s h = runs (strip s) (omega (arith, h, size-strip s))

  runs-named_filter :
      (value : Value) (expr name : String) (o : Option String)
      → OnSome (λ t. size t < n) o
      → IsSome (named_filter parse_json namespace evaluate value expr name o)
  unfolding named_filter
  runs-named_filter value expr name none h = tt
  runs-named_filter value expr name (some arg) h =
      runs-bind (evaluate (strip arg)) (λ v. some (apply_filter expr name value v))
        (runs-strip arg h) (λ v. tt)

  runs-filter_by :
      (value : Value) (expr : String) (o : Option (String × String))
      → OnSome (λ p. size p.1 < n) o
      → IsSome (filter_by parse_json namespace evaluate value expr o)
  unfolding filter_by
  runs-filter_by value expr none h = tt
  runs-filter_by value expr (some (name, rest)) h =
      runs-if (name == "from_json") _ _ (runs-if (expr == "from_json") _ _ tt tt) (
        runs-named_filter value expr name (call_argument name rest) (
          OnSome-map _ _ (call_argument name rest) (λ t k. omega (arith, k, h))
            (call_argument-Shorter name rest)))

  runs-piped :
      (left right : String)
      → size left < n
      → size right < n
      → IsSome (piped parse_json namespace evaluate left right)
  unfolding piped
  runs-piped left right h k = runs-bind (evaluate (strip left)) _ (runs-strip left h) (λ value.
      runs-filter_by value (strip right) (word_span (strip right)) (
        OnSome-map _ _ (word_span (strip right)) (λ p q. omega (arith, q, k, size-strip right))
          (word_span-RestWithin (strip right))))

  runs-both_sides :
      (f : Value → Value → Result Value) (p : String × String)
      → BothWithin n p
      → IsSome (both_sides parse_json namespace evaluate f p.0 p.1)
  unfolding both_sides
  runs-both_sides f (left, right) (h, k) =
      runs-bind (evaluate (strip left)) _ (runs-strip left h)
        (λ a. runs-bind (evaluate (strip right)) _ (runs-strip right k) (λ b. tt))

  runs-evaluate_items :
      (parts : List String)
      → All (λ part. size part < n) parts
      → IsSome (evaluate_items parse_json namespace evaluate parts)
  unfolding evaluate_items
  runs-evaluate_items [] h = tt
  runs-evaluate_items (part ∷ parts) (h, k) =
      runs-bind (evaluate (strip part)) _ (runs-strip part h) (λ v.
        runs-bind (evaluate_items parse_json namespace evaluate parts) _
          (runs-evaluate_items parts k) (λ vs. tt))

  runs-evaluate_list :
      (inner : String) → size inner < n → IsSome (evaluate_list parse_json namespace evaluate inner)
  unfolding evaluate_list
  runs-evaluate_list inner h = runs-if (inner == "") _ _ tt (
      runs-bind (evaluate_items parse_json namespace evaluate (split_all b',' inner)) _
        (runs-evaluate_items (split_all b',' inner) (
          All-map (split_all b',' inner) (λ part k. omega (arith, k, h))
            (size-split_all b',' inner)))
        (λ vs. tt))

  -- What stands between brackets is shorter than the whole.
  runs-brackets :
      (expr : String)
      → size expr ≤ n
      → IsSome (
          if wrapped_in b'[' b']' expr
          then evaluate_list parse_json namespace evaluate (strip (unwrap expr))
          else some (resolve_dot_path namespace expr))
  unfolding unwrap size wrapped_in
  runs-brackets empty_text h = tt
  runs-brackets (c ▸ s) h =
      runs-if (wrapped_in b'[' b']' (c ▸ s)) _ _
        (runs-evaluate_list (strip (all_but_last s))
          (omega (arith, h, size-strip (all_but_last s), size-all_but_last s)))
        tt

  runs-word_or_path :
      (expr : String) → size expr ≤ n → IsSome (word_or_path parse_json namespace evaluate expr)
  unfolding word_or_path
  runs-word_or_path expr h = runs-if (lowers_to expr "true") _ _ tt (
      runs-if (lowers_to expr "false") _ _ tt
        (runs-if (lowers_to expr "none" || lowers_to expr "null") _ _ tt (runs-brackets expr h)))

  runs-literal :
      (expr : String) → size expr ≤ n → IsSome (literal parse_json namespace evaluate expr)
  unfolding literal
  runs-literal expr h =
      runs-if (has_part "." expr) _ _
        (by_number (number_text expr) (λ z. some (err unmodelled)) (λ z. tt))
        (by_number (int_text expr) (λ z. give (int z)) (λ z. tt))
    where
      by_number :
          (t : NumberText) (f : ℤ → Eval Value)
          → ((z : ℤ) → IsSome (f z))
          → IsSome (elim t as (λ t. Eval Value) [
            | whole z ↦ f z
            | not_number ↦ word_or_path parse_json namespace evaluate expr
            | unknown ↦ some (err unmodelled)
          ])
      by_number (whole z) f g = g z
      by_number not_number f g = runs-word_or_path expr h
      by_number unknown f g = tt

  runs-parted :
      (f : Value → Value → Result Value) (p s : String)
      → HasFirst p
      → size s ≤ n
      → (other : Eval Value) → IsSome other
      → IsSome (parted parse_json namespace evaluate f other (split_once p s))
  runs-parted f p s a h other g = by_split (split_once p s) (split_once-BothWithin_of p s n a h)
    where
      by_split :
          (o : Option (String × String))
          → OnSome (BothWithin n) o
          → IsSome (parted parse_json namespace evaluate f other o)
      by_split none k = g
      by_split (some (left, right)) k = runs-both_sides f (left, right) k

  runs-compare_by :
      (ops : List (String × Comparison)) (expr : String)
      → All (λ op. HasFirst op.0) ops
      → size expr ≤ n
      → IsSome (compare_by parse_json namespace evaluate ops expr)
  unfolding compare_by
  runs-compare_by [] expr a h = runs-literal expr h
  runs-compare_by ((symbol, op) ∷ ops) expr (a, b) h =
      runs-parted _ symbol expr a h _ (runs-compare_by ops expr b h)

  runs-negation :
      (expr : String) → size expr ≤ n → IsSome (negation parse_json namespace evaluate expr)
  unfolding negation comparisons size
  runs-negation expr h = by_prefix (after_prefix "not " expr) (
      OnSome-of (λ inner. size inner < n) (after_prefix "not " expr)
        (λ inner e. omega (arith, size-after_prefix "not " expr inner e, h)))
    where
      by_prefix :
          (o : Option String)
          → OnSome (λ inner. size inner < n) o
          → IsSome (elim o as (λ o. Eval Value) [
            | some inner ↦ evaluate (strip inner) ⟫ λ v. give (bool (not (truthy v)))
            | none ↦ compare_by parse_json namespace evaluate comparisons expr
          ])
      by_prefix (some inner) k = runs-bind (evaluate (strip inner)) _ (runs-strip inner k) (λ v. tt)
      by_prefix none k =
          runs-compare_by comparisons expr (tt, (tt, (tt, (tt, (tt, (tt, (tt, (tt, tt)))))))) h

  runs-conjunction :
      (expr : String) → size expr ≤ n → IsSome (conjunction parse_json namespace evaluate expr)
  unfolding conjunction
  runs-conjunction expr h = runs-parted _ " and " expr tt h _ (runs-negation expr h)

  runs-disjunction :
      (expr : String) → size expr ≤ n → IsSome (disjunction parse_json namespace evaluate expr)
  unfolding disjunction
  runs-disjunction expr h = runs-parted _ " or " expr tt h _ (runs-conjunction expr h)

  runs-pipe :
      (expr : String)
      → size expr ≤ n
      → IsSome (elim (split_once "|" expr) as (λ o. Eval Value) [
        | some (left, right) ↦ piped parse_json namespace evaluate left right
        | none ↦ disjunction parse_json namespace evaluate expr
      ])
  runs-pipe expr h = by_split (split_once "|" expr) (split_once-BothWithin_of "|" expr n tt h)
    where
      by_split :
          (o : Option (String × String))
          → OnSome (BothWithin n) o
          → IsSome (elim o as (λ o. Eval Value) [
            | some (left, right) ↦ piped parse_json namespace evaluate left right
            | none ↦ disjunction parse_json namespace evaluate expr
          ])
      by_split none k = runs-disjunction expr h
      by_split (some (left, right)) k = runs-piped left right k.0 k.1

  pub runs-evaluate_stripped :
      (expr : String)
      → size expr ≤ n
      → IsSome (evaluate_stripped parse_json namespace evaluate expr)
  unfolding evaluate_stripped
  runs-evaluate_stripped expr h = runs-if (is_quoted expr) _ _ tt (runs-pipe expr h)
