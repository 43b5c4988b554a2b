-- ===== src/Workflow/Expressions/Operators.antt =====
-- The comparisons of workflows/expressions.py, `_safe_compare`, and what Python makes of a text that
-- may be a number.
use Prim.Native.Char.{Char, code}
use Prim.Native.String.{[] as empty_text, ◌∷◌ as ◌▸◌}
use alharistech_platform.Base.{
  String, Bool, true, false, not, ◌&&◌, ◌||◌, Option, none, some, List, [], ◌∷◌, leb, ltb, ◌==◌,
  string_eq, if◌then◌else◌,
}
use alharistech_platform.Base.Blank.{strip}
use alharistech_platform.Base.Split.{split_once, is_char}
use alharistech_platform.Value.{ℤ, Value, null, bool, int, str, list, dict, find}
use alharistech_platform.Value.Compare.{equal, has_item}
use alharistech_platform.Exception.{type_error, unmodelled, Result, ok, err, ◌>>=◌}
use alharistech_platform.Workflow.Inputs.{
  NumberText, whole, not_number, unknown, signed, number_text,
}
use alharistech_platform.Workflow.Expressions.Filters.{has_text}

-- `part in text`, read off the split at the first one.
abbrev pub has_part : String → String → Bool
has_part p s = elim (split_once p s) [ none ↦ false | some _ ↦ true ]

-- A character that can stand in the text of an `int`: digits, signs, `_`, blanks and other scripts.
int_char : Char → Bool
int_char c =
    leb (code c) 32
    || leb 128 (code c)
    || leb b'0' (code c) && leb (code c) b'9'
    || is_char b'_' c
    || is_char b'+' c
    || is_char b'-' c

unfoldable pub all_int_chars : String → Bool
unfolding int_char
all_int_chars empty_text = true
all_int_chars (c ▸ s) = int_char c && all_int_chars s

-- What `int(text)` is.
unfoldable pub int_text : String → NumberText
unfolding signed strip all_int_chars
int_text s = if s == "" then not_number else elim (signed (strip s)) [
  | some z ↦ whole z
  | none ↦ if all_int_chars s then unknown else not_number
]

-- `float(s) if "." in s else int(s)`; a float is not modelled.
unfoldable pub number_of_text : String → NumberText
unfolding split_once int_text number_text
number_of_text s =
    if has_part "." s
    then elim (number_text s) [ not_number ↦ not_number | _ ↦ unknown ]
    else int_text s

pub data Order : Type 0 where
  greater less at_least at_most : Order

unfoldable pub below : ℤ → ℤ → Bool
below (ℤ.pos m) (ℤ.pos n) = ltb m n
below (ℤ.pos m) (ℤ.negsuc n) = false
below (ℤ.negsuc m) (ℤ.pos n) = true
below (ℤ.negsuc m) (ℤ.negsuc n) = ltb n m

unfoldable pub ordered : Order → ℤ → ℤ → Bool
unfolding below
ordered greater a b = below b a
ordered less a b = below a b
ordered at_least a b = not (below a b)
ordered at_most a b = not (below b a)

-- An operand of a comparison, after the coercion of a text: a number, a list, which compares with
-- lists, or a value that compares with nothing; `none` is a text that is no number.
pub data Operand : Type 0 where
  number : ℤ → Operand
  sequence incomparable : Operand

abbrev bit : Bool → ℤ
bit true = ℤ.pos 1
bit false = ℤ.pos 0

operand : Value → Result (Option Operand)
unfolding number_of_text
operand (str s) = elim (number_of_text s) [
  | whole z ↦ ok (some (number z))
  | not_number ↦ ok none
  | unknown ↦ err unmodelled
]
operand (bool b) = ok (some (number (bit b)))
operand (int z) = ok (some (number z))
operand (list xs) = ok (some sequence)
operand _ = ok (some incomparable)

compare_operands : Order → Operand → Operand → Result Bool
unfolding ordered
compare_operands order (number a) (number b) = ok (ordered order a b)
compare_operands order sequence sequence = err unmodelled
compare_operands order _ _ = ok false

compare_to : Order → Option Operand → Operand → Result Bool
unfolding compare_operands
compare_to order none a = ok false
compare_to order (some b) a = compare_operands order a b

compare_from : Order → Value → Option Operand → Result Bool
unfolding operand compare_to
compare_from order right none = ok false
compare_from order right (some a) = operand right >>= λ b. compare_to order b a

-- `_safe_compare`
unfoldable pub safe_compare : Order → Value → Value → Result Bool
unfolding operand compare_from
safe_compare order left right = operand left >>= compare_from order right

-- `left in right`, with `None` for a right that holds nothing
unfoldable pub is_in : Value → Value → Result Bool
unfolding has_item find
is_in left null = ok false
is_in (str s) (str t) = ok (has_text s t)
is_in left (str t) = err type_error
is_in left (list xs) = ok (has_item xs left)
is_in (str s) (dict fs) = ok (elim (find fs s) [ none ↦ false | some _ ↦ true ])
is_in (list xs) (dict fs) = err type_error
is_in (dict gs) (dict fs) = err type_error
is_in left (dict fs) = ok false
is_in left _ = err type_error

pub data Comparison : Type 0 where
  differs equals is_member is_no_member : Comparison
  by_order : Order → Comparison

unfoldable pub compare_values : Comparison → Value → Value → Result Bool
unfolding equal safe_compare is_in
compare_values differs left right = ok (not (equal left right))
compare_values equals left right = ok (equal left right)
compare_values (by_order order) left right = safe_compare order left right
compare_values is_member left right = is_in left right
compare_values is_no_member left right = is_in left right >>= λ b. ok (not b)

-- The operators, in the order in which they are looked for.
unfoldable pub comparisons : List (String × Comparison)
comparisons =
    ("!=", differs)
    ∷ ("==", equals)
    ∷ (">=", by_order at_least)
    ∷ ("<=", by_order at_most)
    ∷ (">", by_order greater)
    ∷ ("<", by_order less)
    ∷ (" not in ", is_no_member)
    ∷ (" in ", is_member)
    ∷ []
