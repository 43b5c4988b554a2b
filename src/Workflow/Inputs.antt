-- ===== src/Workflow/Inputs.antt =====
-- `_resolve_inputs`, `_resolve_default` and `_coerce_input` of workflows/engine.py. There are no
-- floats: a number whose float is not a small whole number is not modelled.
pub mod Coerced
use Prim.Native.Char.{Char, code}
use Prim.Native.Nat.{◌^◌}
use Prim.Native.String.{[] as empty_text, ◌∷◌ as ◌▸◌}
use alharistech_platform.Base.{
  ℕ, zero, suc, ◌+◌, ◌-◌, ◌*◌, String, Bool, true, false, ◌&&◌, ◌||◌, Option, none, some, ltb, leb,
  ◌==◌, string_eq, if◌then◌else◌, ◌≡◌, refl,
}
use alharistech_platform.Value.{
  ℤ, Value, null, bool, int, str, list, dict, Items, nil, Fields, end, field, truthy, find, get_or,
  or_default, set,
}
use alharistech_platform.Value.Compare.{has_item}
use alharistech_platform.Workflow.Model.{
  Exn, attribute_error, type_error, unmodelled, value_error, Result, ok, err, ◌>>=◌,
}
use alharistech_platform.Workflow.Definition.{Definition}

is_code : ℕ → ℕ → Bool
is_code a b = leb a b && leb b a

lower : ℕ → ℕ
lower c = if leb b'A' c && leb c b'Z' then c + 32 else c

-- `s.lower() == word`, for a word of small ASCII letters and digits other than "i" and "k"
unfoldable pub lowers_to : String → String → Bool
unfolding is_code lower
lowers_to empty_text empty_text = true
lowers_to (c ▸ s) (d ▸ t) = is_code (lower (code c)) (code d) && lowers_to s t
lowers_to _ _ = false

-- What `float(text)` is.
pub data NumberText : Type 0 where
  whole : ℤ → NumberText
  not_number unknown : NumberText

digits_value : ℕ → String → Option ℕ
digits_value n empty_text = some n
digits_value n (c ▸ s) =
    let d = code c in
    if leb b'0' d && leb d b'9' then digits_value (n * 10 + (d - b'0')) s else none

abbrev negative : ℕ → ℤ
negative zero = ℤ.pos 0
negative (suc n) = ℤ.negsuc n

-- An optional sign and digits, at least one.
unfoldable pub signed : String → Option ℤ
unfolding digits_value is_code
signed empty_text = none
signed (c ▸ empty_text) = elim (digits_value 0 (c ▸ empty_text)) [
  | none ↦ none
  | some n ↦ some (ℤ.pos n)
]
signed (c ▸ s) =
    if is_code (code c) b'-'
    then elim (digits_value 0 s) [ none ↦ none | some n ↦ some (negative n) ]
    else if is_code (code c) b'+'
    then elim (digits_value 0 s) [ none ↦ none | some n ↦ some (ℤ.pos n) ]
    else elim (digits_value 0 (c ▸ s)) [ none ↦ none | some n ↦ some (ℤ.pos n) ]

one_of : ℕ → String → Bool
unfolding is_code
one_of c empty_text = false
one_of c (d ▸ s) = is_code c (code d) || one_of c s

-- A character that can stand in the text of a float: digits, signs, the letters of "inf", "nan",
-- "infinity" and "e", blanks, and other scripts' digits among the rest of Unicode.
float_char : ℕ → Bool
unfolding one_of
float_char c = leb c 32 || leb 128 c || one_of c "0123456789+-._einfatyEINFATY"

all_float_chars : String → Bool
unfolding float_char
all_float_chars empty_text = true
all_float_chars (c ▸ s) = float_char (code c) && all_float_chars s

-- The whole numbers up to 2 ^ 53, which a float holds exactly.
unfoldable pub is_exact : ℤ → Bool
is_exact (ℤ.pos n) = leb n (2 ^ 53)
is_exact (ℤ.negsuc n) = leb (suc n) (2 ^ 53)

unfoldable pub number_text : String → NumberText
unfolding signed all_float_chars
number_text s = if s == "" then not_number else elim (signed s) [
  | some z ↦ whole z
  | none ↦ if all_float_chars s then unknown else not_number
]

-- `float(value)`, and `int` of it if it is whole
unfoldable pub coerce_number : Value → Result Value
unfolding is_exact
coerce_number (bool b) = err (value_error "expected a number")
coerce_number (int n) = if is_exact n then ok (int n) else err unmodelled
coerce_number (str s) = elim (number_text s) [
  | whole n ↦ if is_exact n then ok (int n) else err unmodelled
  | not_number ↦ err (value_error "expected a number")
  | unknown ↦ err unmodelled
]
coerce_number _ = err (value_error "expected a number")

unfoldable pub coerce_boolean : Value → Result Value
coerce_boolean (str s) =
    if lowers_to s "true" || lowers_to s "1" || lowers_to s "yes"
    then ok (bool true)
    else if lowers_to s "false" || lowers_to s "0" || lowers_to s "no"
    then ok (bool false)
    else err (value_error "expected a boolean")
coerce_boolean (bool b) = ok (bool b)
coerce_boolean _ = err (value_error "expected a boolean")

unfoldable pub coerce_string : Value → Result Value
coerce_string (str s) = ok (str s)
coerce_string _ = err (value_error "expected a string")

-- The three declared types; a value of any other declared type is taken as it is.
unfoldable pub coerce_type : Value → Value → Result Value
coerce_type (str t) v =
    if t == "number"
    then coerce_number v
    else if t == "boolean"
    then coerce_boolean v
    else if t == "string"
    then coerce_string v
    else ok v
coerce_type _ v = ok v

-- `if enum_values is not None and value not in enum_values: raise`
unfoldable pub check_enum : Value → Value → Result Value
unfolding has_item
check_enum null v = ok v
check_enum (list xs) v =
    if has_item xs v then ok v else err (value_error "value not in allowed values")
check_enum (str s) v = err unmodelled
check_enum (dict fs) v = err unmodelled
check_enum _ v = err type_error

-- `_coerce_input`
unfoldable pub coerce_input : Value → Fields → Result Value
unfolding find
coerce_input v spec =
    coerce_type (get_or spec "type" (str "string")) v >>= check_enum (get_or spec "enum" null)

-- `{k: v for k, v in d.items() if k != key}`
unfoldable pub without : String → Fields → Fields
without key end = end
without key (field k v fs) = let rest = without key fs in if key == k then rest else field k v rest

abbrev pub is_auto : String → Value → Bool
is_auto name (str s) = name == "integration" && s == "auto"
is_auto name _ = false

-- `_resolve_default`; the second argument is what `.specify/integration.json` names.
unfoldable pub resolve_default : String → Option String → Value → Value
resolve_default name project v =
    if is_auto name v then elim project [ none ↦ v | some key ↦ str key ] else v

-- The definition that a value is coerced by: "auto" need not be in the enumeration.
unfoldable pub coerce_spec : String → Value → Fields → Fields
unfolding without
coerce_spec name v spec = if is_auto name v then without "enum" spec else spec

-- The value for one input: provided, or else the default. `none` is `continue`.
unfoldable pub chosen_value : Fields → Option String → String → Fields → Result (Option Value)
unfolding find
chosen_value provided project name spec = elim (find provided name) [
  | some v ↦ ok (some (resolve_default name project v))
  | none ↦ elim (find spec "default") [
    | some v ↦ ok (some (resolve_default name project v))
    | none ↦
        if truthy (get_or spec "required" (bool false))
        then err (value_error "Required input not provided")
        else ok none
  ]
]

unfoldable pub store_input : String → Fields → Fields → Option Value → Result Fields
unfolding set
store_input name spec resolved none = ok resolved
store_input name spec resolved (some v) =
    coerce_input v (coerce_spec name v spec) >>= λ w. ok (set resolved name w)

unfoldable pub one_input : Fields → Option String → String → Value → Fields → Result Fields
unfolding store_input
one_input provided project name (dict spec) resolved =
    chosen_value provided project name spec >>= store_input name spec resolved
one_input provided project name _ resolved = ok resolved

unfoldable pub resolve_fields : Fields → Option String → Fields → Fields → Result Fields
unfolding one_input
resolve_fields provided project end resolved = ok resolved
resolve_fields provided project (field name spec rest) resolved =
    one_input provided project name spec resolved >>= resolve_fields provided project rest

-- `_resolve_inputs`
unfoldable pub resolve_inputs : Option String → Value → Fields → Result Fields
unfolding resolve_fields
resolve_inputs project (dict specs) provided = resolve_fields provided project specs end
resolve_inputs project _ provided = err attribute_error
