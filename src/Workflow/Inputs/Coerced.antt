-- ===== src/Workflow/Inputs/Coerced.antt =====
-- What `_coerce_input` lets through.
use alharistech_platform.Base.{
  Bool, true, false, ◌≡◌, refl, subst, arith, ◌==◌, string_eq, if◌then◌else◌,
}
use alharistech_platform.Value.{Value, null, bool, int, str, list, dict, Fields, get_or}
use alharistech_platform.Value.Compare.{has_item}
use alharistech_platform.Exception.{unmodelled, value_error, Result, ok, err, ◌>>=◌}
use alharistech_platform.Workflow.Inputs.{
  NumberText, whole, not_number, unknown, number_text, is_exact, coerce_number, coerce_boolean,
  coerce_string, coerce_type, check_enum, coerce_input,
}

abbrev pub is_number : Value → Bool
is_number (int n) = true
is_number v = false

abbrev pub is_boolean : Value → Bool
is_boolean (bool b) = true
is_boolean v = false

abbrev pub is_string : Value → Bool
is_string (str s) = true
is_string v = false

-- A value of a declared type; a type that is none of the three admits every value.
abbrev pub is_of_type : Value → Value → Bool
is_of_type (str t) v =
    if t == "number"
    then is_number v
    else if t == "boolean"
    then is_boolean v
    else if t == "string"
    then is_string v
    else true
is_of_type _ v = true

-- The values that an enumeration allows; `None` allows every value.
abbrev pub is_allowed : Value → Value → Bool
is_allowed (list xs) v = has_item xs v
is_allowed _ v = true

exact_number :
    (n w : Value) (b : Bool)
    → is_number n ≡ true
    → (if b then ok n else err unmodelled) ≡ ok w
    → is_number w ≡ true
exact_number n w true e h = ground (arith, h, e)
exact_number n w false e h = ground (arith, h)

coerce_number-is_number : (v w : Value) → coerce_number v ≡ ok w → is_number w ≡ true
unfolding coerce_number
coerce_number-is_number null w h = ground (arith, h)
coerce_number-is_number (bool b) w h = ground (arith, h)
coerce_number-is_number (int n) w h = exact_number (int n) w (is_exact n) refl h
coerce_number-is_number (str s) w h = by_text (number_text s) h
  where
    by_text :
        (t : NumberText)
        → elim t as (λ t. Result Value) [
          | whole n ↦ if is_exact n then ok (int n) else err unmodelled
          | not_number ↦ err (value_error "expected a number")
          | unknown ↦ err unmodelled
        ]
          ≡ ok w
        → is_number w ≡ true
    by_text (NumberText.whole n) k = exact_number (int n) w (is_exact n) refl k
    by_text NumberText.not_number k = ground (arith, k)
    by_text NumberText.unknown k = ground (arith, k)
coerce_number-is_number (list xs) w h = ground (arith, h)
coerce_number-is_number (dict fs) w h = ground (arith, h)

coerce_boolean-is_boolean : (v w : Value) → coerce_boolean v ≡ ok w → is_boolean w ≡ true
unfolding coerce_boolean
coerce_boolean-is_boolean null w h = ground (arith, h)
coerce_boolean-is_boolean (bool b) w h = ground (arith, h)
coerce_boolean-is_boolean (int n) w h = ground (arith, h)
coerce_boolean-is_boolean (str s) w h = ground (arith, h)
coerce_boolean-is_boolean (list xs) w h = ground (arith, h)
coerce_boolean-is_boolean (dict fs) w h = ground (arith, h)

coerce_string-is_string : (v w : Value) → coerce_string v ≡ ok w → is_string w ≡ true
unfolding coerce_string
coerce_string-is_string null w h = ground (arith, h)
coerce_string-is_string (bool b) w h = ground (arith, h)
coerce_string-is_string (int n) w h = ground (arith, h)
coerce_string-is_string (str s) w h = ground (arith, h)
coerce_string-is_string (list xs) w h = ground (arith, h)
coerce_string-is_string (dict fs) w h = ground (arith, h)

coerce_type-is_of_type : (t v w : Value) → coerce_type t v ≡ ok w → is_of_type t w ≡ true
unfolding coerce_type
coerce_type-is_of_type null v w h = refl
coerce_type-is_of_type (bool b) v w h = refl
coerce_type-is_of_type (int n) v w h = refl
coerce_type-is_of_type (str t) v w h = ground (
  arith,
  h,
  coerce_number-is_number v w,
  coerce_boolean-is_boolean v w,
  coerce_string-is_string v w,
)
coerce_type-is_of_type (list xs) v w h = refl
coerce_type-is_of_type (dict fs) v w h = refl

check_enum-is_allowed : (e v w : Value) → check_enum e v ≡ ok w → (v ≡ w) × (is_allowed e w ≡ true)
unfolding check_enum
check_enum-is_allowed null v w h = (ground (arith, h), refl)
check_enum-is_allowed (bool b) v w h = ground (arith, h)
check_enum-is_allowed (int n) v w h = ground (arith, h)
check_enum-is_allowed (str s) v w h = ground (arith, h)
check_enum-is_allowed (list xs) v w h = (ground (arith, h), ground (arith, h))
check_enum-is_allowed (dict fs) v w h = ground (arith, h)

-- A value that `_coerce_input` returns is of the declared type, "string" where none is declared, and is
-- one of the allowed values where the definition has a list of them.
pub coerce_input-is_of_type :
    (v w : Value) (spec : Fields)
    → coerce_input v spec ≡ ok w
    → (is_of_type (get_or spec "type" (str "string")) w ≡ true)
      × (is_allowed (get_or spec "enum" null) w ≡ true)
unfolding coerce_input
coerce_input-is_of_type v w spec h =
    by_type (coerce_type (get_or spec "type" (str "string")) v) refl h
  where
    by_type :
        (o : Result Value)
        → coerce_type (get_or spec "type" (str "string")) v ≡ o
        → (o >>= check_enum (get_or spec "enum" null)) ≡ ok w
        → (is_of_type (get_or spec "type" (str "string")) w ≡ true)
          × (is_allowed (get_or spec "enum" null) w ≡ true)
    by_type (err e) k l = ground (arith, l)
    by_type (ok u) k l =
        let checked = check_enum-is_allowed (get_or spec "enum" null) u w l in
        (
          coerce_type-is_of_type (get_or spec "type" (str "string")) v w
              (subst (λ x. coerce_type (get_or spec "type" (str "string")) v ≡ ok x) checked.0 k),
          checked.1,
        )
