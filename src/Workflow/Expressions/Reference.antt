-- ===== src/Workflow/Expressions/Reference.antt =====
-- Templates that are one path, such as `{{ inputs.name }}`.
use Prim.Native.Char.{Char, code}
use Prim.Native.String.{[] as empty_text, ◌∷◌ as ◌▸◌}
use alharistech_platform.Base.{
  All, all_chars, ℕ, suc, String, ◌⧺◌, Bool, true, false, not, ◌&&◌, ◌||◌, Option, none, some, List,
  [], ◌∷◌, leb, ◌==◌, eq_of_==, string_eq, if◌then◌else◌, ◌≡◌, refl, ap, ◌∙◌, arith, Bool-cases,
  inl, inr,
}
use alharistech_platform.Base.Blank.{strip, is_space}
use alharistech_platform.Base.Blank.Plain.{and_left, and_right, no_space}
use alharistech_platform.Base.Split.{split_once, split_all, after_prefix, size}
use alharistech_platform.Base.Split.Absent.{split_once-absent, split_all-absent, split_all-part}
use alharistech_platform.Value.{Value, null, bool, int, truthy, str, list, dict, get_or}
use alharistech_platform.Exception.{unmodelled, Result, ok, err}
use alharistech_platform.Workflow.Expressions.Filters.{follow}
use alharistech_platform.Workflow.Expressions.Operators.{Comparison, comparisons}
use alharistech_platform.Workflow.Expressions.Paths.{
  is_word, is_key_char, resolve_dot_path, walk, Part, key_only, part_of, part_of_split, step_into,
}
use alharistech_platform.Workflow.Expressions.Simple.{
  Eval, ◌⟫◌, give, parted, piped, compare_by, negation, conjunction, disjunction, literal,
  evaluate_stripped, is_quoted,
}

-- A character of a path of keys: a letter, a digit, "_", "-" or ".".
unfoldable pub is_path_char : ℕ → Bool
unfolding is_word
is_path_char c = is_word c || leb b'-' c && leb c b'-' || leb b'.' c && leb c b'.'

pub path_char-no_space : (c : ℕ) → is_path_char c ≡ true → no_space c ≡ true
unfolding is_path_char is_word is_space
path_char-no_space c h = ground (arith, h)

module _ (parse_json : String → Option Value) (namespace : Value) (evaluate : String → Eval Value)
    (expr : String) (path : all_chars is_path_char expr ≡ true) where
  absent : (c : Char) (q : String) → is_path_char (code c) ≡ false → split_once (c ▸ q) expr ≡ none
  absent c q h = split_once-absent is_path_char c q expr h path

  parted-none :
      (f : Value → Value → Result Value) (other : Eval Value) (o : Option (String × String))
      → o ≡ none
      → parted parse_json namespace evaluate f other o ≡ other
  parted-none f other o h = ap (parted parse_json namespace evaluate f other) h

  compare_by-absent :
      (ops : List (String × Comparison))
      → All (λ op. split_once op.0 expr ≡ none) ops
      → compare_by parse_json namespace evaluate ops expr
        ≡ literal parse_json namespace evaluate expr
  unfolding compare_by
  compare_by-absent [] h = refl
  compare_by-absent ((symbol, op) ∷ ops) (h, k) =
      parted-none _ _ (split_once symbol expr) h ∙ compare_by-absent ops k

  -- No operator stands in a path.
  disjunction-path :
      after_prefix "not " expr ≡ none
      → disjunction parse_json namespace evaluate expr ≡ literal parse_json namespace evaluate expr
  unfolding disjunction conjunction negation comparisons is_path_char is_word
  disjunction-path h =
      parted-none _ _ (split_once " or " expr) (absent " " "or " refl)
      ∙ parted-none _ _ (split_once " and " expr) (absent " " "and " refl)
      ∙ no_prefix (after_prefix "not " expr) h
      ∙ compare_by-absent comparisons (
        absent "!" "=" refl,
        (
          absent "=" "=" refl,
          (
            absent ">" "=" refl,
            (
              absent "<" "=" refl,
              (
                absent ">" "" refl,
                (absent "<" "" refl, (absent " " "not in " refl, (absent " " "in " refl, tt))),
              ),
            ),
          ),
        ),
      )
    where
      no_prefix :
          (o : Option String)
          → o ≡ none
          → elim o as (λ o. Eval Value) [
            | some inner ↦ evaluate (strip inner) ⟫ λ v. give (bool (not (truthy v)))
            | none ↦ compare_by parse_json namespace evaluate comparisons expr
          ]
            ≡ compare_by parse_json namespace evaluate comparisons expr
      no_prefix (some inner) h = ground (arith, h)
      no_prefix none h = refl

  pub evaluate_stripped-path :
      is_quoted expr ≡ false
      → after_prefix "not " expr ≡ none
      → evaluate_stripped parse_json namespace evaluate expr
        ≡ literal parse_json namespace evaluate expr
  unfolding evaluate_stripped is_path_char is_word
  evaluate_stripped-path h k =
      rw h (no_pipe (split_once "|" expr) (absent "|" "" refl) ∙ disjunction-path k)
    where
      no_pipe :
          (o : Option (String × String))
          → o ≡ none
          → elim o as (λ o. Eval Value) [
            | some (left, right) ↦ piped parse_json namespace evaluate left right
            | none ↦ disjunction parse_json namespace evaluate expr
          ]
            ≡ disjunction parse_json namespace evaluate expr
      no_pipe (some (left, right)) h = ground (arith, h)
      no_pipe none h = refl

not_zero : (n : ℕ) → suc n ≡ 0 → ⊥
not_zero n h = omega (arith, h)

-- A text that begins with a character is not empty.
cons_nonempty : (c : Char) (s : String) → (c ▸ s == "") ≡ false
unfolding size
cons_nonempty c s = elim (Bool-cases (c ▸ s == "")) [
  | inl e ↦ elim (not_zero (size s) (ap size (eq_of_== (c ▸ s) "" e))) [ ]
  | inr e ↦ e
]

pub literal-inputs :
    (parse_json : String → Option Value) (namespace : Value) (evaluate : String → Eval Value)
    (rest : String)
    → literal parse_json namespace evaluate ("inputs." ⧺ rest)
      ≡ some (resolve_dot_path namespace ("inputs." ⧺ rest))
unfolding literal
literal-inputs parse_json namespace evaluate rest = rw (cons_nonempty "i" ("nputs." ⧺ rest)) refl

pub literal-steps :
    (parse_json : String → Option Value) (namespace : Value) (evaluate : String → Eval Value)
    (rest : String)
    → literal parse_json namespace evaluate ("steps." ⧺ rest)
      ≡ some (resolve_dot_path namespace ("steps." ⧺ rest))
unfolding literal
literal-steps parse_json namespace evaluate rest = rw (cons_nonempty "s" ("teps." ⧺ rest)) refl

pub key_char-path_char : (c : ℕ) → is_key_char c ≡ true → is_path_char c ≡ true
unfolding is_key_char is_path_char
key_char-path_char c h = ground (arith, h)

pub all_chars-map :
    (p q : ℕ → Bool) (s : String)
    → ((c : ℕ) → p c ≡ true → q c ≡ true)
    → all_chars p s ≡ true
    → all_chars q s ≡ true
all_chars-map p q empty_text f h = refl
all_chars-map p q (c ▸ s) f h =
    rw (f (code c) (and_left (p (code c)) _ h), all_chars-map p q s f (and_right (p (code c)) _ h))
      refl

-- A path of keys.
abbrev pub dotted : String → List String → String
dotted key [] = key
dotted key (k ∷ ks) = key ⧺ "." ⧺ dotted k ks

split_all-dotted :
    (key : String) (keys : List String)
    → all_chars is_key_char key ≡ true
    → All (λ k. all_chars is_key_char k ≡ true) keys
    → split_all b'.' (dotted key keys) ≡ key ∷ keys
unfolding is_key_char is_word
split_all-dotted key [] h k = split_all-absent is_key_char b'.' key refl h
split_all-dotted key (j ∷ keys) h (k, l) =
    split_all-part is_key_char "." key (dotted j keys) refl h
    ∙ ap (λ parts. key ∷ parts) (split_all-dotted j keys k l)

follow-null : (keys : List String) → follow keys null ≡ null
unfolding follow
follow-null [] = refl
follow-null (key ∷ keys) = refl

part_of-key : (key : String) → all_chars is_key_char key ≡ true → part_of key ≡ ok (key_only key)
unfolding part_of is_key_char is_word
part_of-key key h = no_index (split_once "[" key) (split_once-absent is_key_char "[" "" key refl h)
  where
    no_index :
        (o : Option (String × String))
        → o ≡ none
        → elim o as (λ o. Result Part) [
          | none ↦ ok (key_only key)
          | some (name, rest) ↦
              if all_chars (λ c. leb c 127) key
              then ok (part_of_split key name rest)
              else err unmodelled
        ]
          ≡ ok (key_only key)
    no_index none h = refl
    no_index (some (name, rest)) h = ground (arith, h)

walk-follow :
    (keys : List String) (v : Value)
    → All (λ k. all_chars is_key_char k ≡ true) keys
    → walk keys v ≡ ok (follow keys v)
unfolding walk follow step_into
walk-follow [] v h = refl
walk-follow (key ∷ keys) null h = refl
walk-follow (key ∷ keys) (dict fs) (h, k) =
    rw (part_of-key key h) (walk-follow keys (get_or fs key null) k)
walk-follow (key ∷ keys) (bool b) (h, k) =
    rw (part_of-key key h) (walk-follow keys null k ∙ ap ok (follow-null keys))
walk-follow (key ∷ keys) (int n) (h, k) =
    rw (part_of-key key h) (walk-follow keys null k ∙ ap ok (follow-null keys))
walk-follow (key ∷ keys) (str s) (h, k) =
    rw (part_of-key key h) (walk-follow keys null k ∙ ap ok (follow-null keys))
walk-follow (key ∷ keys) (list xs) (h, k) =
    rw (part_of-key key h) (walk-follow keys null k ∙ ap ok (follow-null keys))

-- `_resolve_dot_path` follows the keys one after the other, and comes to `None` where one is missing
-- or the value is no dict, for keys of letters, digits, "_" and "-".
pub resolve_dot_path-follow :
    (v : Value) (key : String) (keys : List String)
    → All (λ k. all_chars is_key_char k ≡ true) (key ∷ keys)
    → resolve_dot_path v (dotted key keys) ≡ ok (follow (key ∷ keys) v)
unfolding resolve_dot_path
resolve_dot_path-follow v key keys h =
    ap (λ parts. walk parts v) (split_all-dotted key keys h.0 h.1) ∙ walk-follow (key ∷ keys) v h
