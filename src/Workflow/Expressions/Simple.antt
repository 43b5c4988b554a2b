-- ===== src/Workflow/Expressions/Simple.antt =====
-- `_evaluate_simple_expression` of workflows/expressions.py. The recursion is on fuel: every call is on
-- a shorter text.
use Prim.Native.Char.{Char, code}
use Prim.Native.String.{[] as empty_text, ◌∷◌ as ◌▸◌}
use alharistech_platform.Base.{
  ℕ, zero, suc, String, Bool, true, false, not, ◌&&◌, ◌||◌, Option, none, some, List, [], ◌∷◌, leb,
  ◌==◌, string_eq, if◌then◌else◌,
}
use alharistech_platform.Base.Blank.{strip}
use alharistech_platform.Base.Split.{
  size, split_once, split_all, after_prefix, is_char, ends_in, all_but_last,
}
use alharistech_platform.Value.{Value, null, bool, int, str, list, Items, nil, cons, truthy}
use alharistech_platform.Exception.{unmodelled, value_error, Result, ok, err}
use alharistech_platform.Workflow.Inputs.{whole, not_number, unknown, number_text, lowers_to}
use alharistech_platform.Workflow.Expressions.Filters.{
  filter_default, filter_join, filter_map, filter_contains, filter_from_json,
}
use alharistech_platform.Workflow.Expressions.Operators.{
  has_part, int_text, Comparison, compare_values, comparisons,
}
use alharistech_platform.Workflow.Expressions.Paths.{is_word, resolve_dot_path}

-- `none`: the fuel has run out.
abbrev pub Eval : Type 0 → Type 0
Eval A = Option (Result A)

infixl 5 ◌⟫◌
abbrev pub ◌⟫◌ : {A B : Type 0} → Eval A → (A → Eval B) → Eval B
none ⟫ f = none
some (err e) ⟫ f = some (err e)
some (ok a) ⟫ f = f a

abbrev pub give : {A : Type 0} → A → Eval A
give a = some (ok a)

-- `expr[1:-1]`
unfoldable pub unwrap : String → String
unfolding all_but_last
unwrap empty_text = empty_text
unwrap (c ▸ s) = all_but_last s

unfoldable pub wrapped_in : ℕ → ℕ → String → Bool
unfolding ends_in
wrapped_in a b empty_text = false
wrapped_in a b (c ▸ s) = is_char a c && ends_in b (c ▸ s)

unfoldable pub is_quoted : String → Bool
unfolding wrapped_in
is_quoted s = wrapped_in b'\'' b'\'' s || wrapped_in b'"' b'"' s

abbrev pub put_word : Char → Option (String × String) → Option (String × String)
put_word c none = none
put_word c (some (w, rest)) = some (c ▸ w, rest)

-- `\w+` at the start of a text, and the rest; `none` where it may go on in another script.
unfoldable pub word_span : String → Option (String × String)
unfolding is_word
word_span empty_text = some (empty_text, empty_text)
word_span (c ▸ s) =
    let rest = word_span s in
    if leb 128 (code c)
    then none
    else if is_word (code c)
    then put_word c rest
    else some (empty_text, c ▸ s)

-- What stands before the last ")" of the first line.
unfoldable pub before_last_paren : String → Option String
before_last_paren empty_text = none
before_last_paren (c ▸ s) =
    let rest = before_last_paren s in
    if is_char b'\n' c then none else elim rest [
      | some t ↦ some (c ▸ t)
      | none ↦ if is_char b')' c then some empty_text else none
    ]

abbrev pub non_empty : Option String → Option String
non_empty (some (c ▸ s)) = some (c ▸ s)
non_empty _ = none

-- The argument that `(\w+)\((.+)\)` finds, after the word.
unfoldable pub call_argument : String → String → Option String
unfolding before_last_paren
call_argument w empty_text = none
call_argument w (c ▸ s) =
    if not (w == "") && is_char b'(' c then non_empty (before_last_paren s) else none

unfoldable pub bare_filter : String → Value → Value
unfolding filter_default
bare_filter expr value = if expr == "default" then filter_default value (str "") else value

unfoldable pub apply_filter : String → String → Value → Value → Result Value
unfolding filter_join filter_map filter_contains bare_filter
apply_filter expr name value arg =
    if name == "default"
    then ok (filter_default value arg)
    else if name == "join"
    then filter_join value arg
    else if name == "map"
    then filter_map value arg
    else if name == "contains"
    then filter_contains value arg
    else ok (bare_filter expr value)

module _ (parse_json : String → Option Value) (namespace : Value) where
  module _ (evaluate : String → Eval Value) where
    unfoldable pub named_filter : Value → String → String → Option String → Eval Value
    unfolding apply_filter bare_filter strip
    named_filter value expr name none = give (bare_filter expr value)
    named_filter value expr name (some arg) =
        evaluate (strip arg) ⟫ λ v. some (apply_filter expr name value v)

    -- `from_json` stands alone.
    unfoldable pub filter_by : Value → String → Option (String × String) → Eval Value
    unfolding filter_from_json call_argument named_filter
    filter_by value expr none = some (err unmodelled)
    filter_by value expr (some (name, rest)) =
        let other = named_filter value expr name (call_argument name rest) in
        if name == "from_json"
        then (if expr == "from_json"
            then some (filter_from_json parse_json value)
            else some (err (value_error "from_json: expected no arguments or trailing tokens")))
        else other

    unfoldable pub piped : String → String → Eval Value
    unfolding filter_by word_span strip
    piped left right =
        evaluate (strip left) ⟫ λ value. filter_by value (strip right) (word_span (strip right))

    unfoldable pub both_sides : (Value → Value → Result Value) → String → String → Eval Value
    unfolding strip
    both_sides f left right =
        evaluate (strip left) ⟫ λ a. evaluate (strip right) ⟫ λ b. some (f a b)

    -- The two sides of an operator, or else what comes where the text has none.
    abbrev pub parted :
        (Value → Value → Result Value) → Eval Value → Option (String × String) → Eval Value
    parted f other none = other
    parted f other (some (left, right)) = both_sides f left right

    unfoldable pub evaluate_items : List String → Eval Items
    unfolding strip
    evaluate_items [] = give nil
    evaluate_items (item ∷ rest) =
        evaluate (strip item) ⟫ λ v. evaluate_items rest ⟫ λ vs. give (cons v vs)

    unfoldable pub evaluate_list : String → Eval Value
    unfolding evaluate_items split_all
    evaluate_list inner =
        let items = evaluate_items (split_all b',' inner) in
        if inner == "" then give (list nil) else (items ⟫ λ vs. give (list vs))

    -- A Boolean, `None`, a list, or else a path.
    unfoldable pub word_or_path : String → Eval Value
    unfolding lowers_to evaluate_list unwrap strip resolve_dot_path wrapped_in
    word_or_path expr =
        let items = evaluate_list (strip (unwrap expr)) in
        if lowers_to expr "true"
        then give (bool true)
        else if lowers_to expr "false"
        then give (bool false)
        else if lowers_to expr "none" || lowers_to expr "null"
        then give null
        else if wrapped_in b'[' b']' expr
        then items
        else some (resolve_dot_path namespace expr)

    unfoldable pub literal : String → Eval Value
    unfolding split_once int_text number_text word_or_path
    literal expr =
        let other = word_or_path expr in
        if has_part "." expr
        then elim (number_text expr) [ not_number ↦ other | _ ↦ some (err unmodelled) ]
        else elim (int_text expr) [
          | whole z ↦ give (int z)
          | not_number ↦ other
          | unknown ↦ some (err unmodelled)
        ]

    abbrev boolean : Result Bool → Result Value
    boolean (ok b) = ok (bool b)
    boolean (err e) = err e

    -- The first of the operators that the text has.
    unfoldable pub compare_by : List (String × Comparison) → String → Eval Value
    unfolding split_once both_sides compare_values literal
    compare_by [] expr = literal expr
    compare_by ((symbol, op) ∷ rest) expr =
        parted (λ a b. boolean (compare_values op a b)) (compare_by rest expr)
          (split_once symbol expr)

    abbrev either : Value → Value → Result Value
    either a b = ok (bool (truthy a || truthy b))

    abbrev both : Value → Value → Result Value
    both a b = ok (bool (truthy a && truthy b))

    unfoldable pub negation : String → Eval Value
    unfolding after_prefix compare_by comparisons strip
    negation expr = elim (after_prefix "not " expr) [
      | some inner ↦ evaluate (strip inner) ⟫ λ v. give (bool (not (truthy v)))
      | none ↦ compare_by comparisons expr
    ]

    unfoldable pub conjunction : String → Eval Value
    unfolding split_once both_sides negation
    conjunction expr = parted both (negation expr) (split_once " and " expr)

    unfoldable pub disjunction : String → Eval Value
    unfolding split_once both_sides conjunction
    disjunction expr = parted either (conjunction expr) (split_once " or " expr)

    -- An expression without blanks around it.
    unfoldable pub evaluate_stripped : String → Eval Value
    unfolding is_quoted unwrap split_once piped disjunction
    evaluate_stripped expr =
        let rest : Eval Value = elim (split_once "|" expr) [
          | some (left, right) ↦ piped left right
          | none ↦ disjunction expr
        ] in
        if is_quoted expr then give (str (unwrap expr)) else rest

  unfoldable pub evaluate_simple : ℕ → String → Eval Value
  unfolding evaluate_stripped strip
  evaluate_simple zero expr = none
  evaluate_simple (suc fuel) expr = evaluate_stripped (evaluate_simple fuel) (strip expr)

  -- `_evaluate_simple_expression`
  unfoldable pub evaluate_simple_expression : String → Eval Value
  unfolding evaluate_simple size
  evaluate_simple_expression expr = evaluate_simple (suc (size expr)) expr
