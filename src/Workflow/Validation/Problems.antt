-- ===== src/Workflow/Validation/Problems.antt =====
-- The problems that `validate_workflow` reports, and those outside the steps: the schema version, the
-- id, the version and the inputs.
use Prim.Native.Char.{code}
use Prim.Native.String.{[] as empty_text, ◌∷◌ as ◌▸◌}
use alharistech_platform.Base.{
  all_chars, ℕ, String, Bool, true, false, not, ◌&&◌, ◌||◌, Option, none, some, List, [], ◌∷◌, ◌++◌,
  leb, ◌==◌, string_eq, if◌then◌else◌,
}
use alharistech_platform.Value.{Value, null, str, dict, Fields, end, field, truthy, find, get_or}
use alharistech_platform.Workflow.Model.{
  type_error, unmodelled, value_error, Result, ok, err, ◌>>=◌,
}
use alharistech_platform.Workflow.Definition.{Definition}
use alharistech_platform.Workflow.Inputs.{coerce_input, coerce_spec}
use alharistech_platform.Workflow.Steps.Validate.{StepProblem, when}

-- The messages.
pub data Problem : Type 0 where
  unsupported_schema : Value → Problem
  missing_id missing_name missing_version : Problem
  bad_id bad_version : String → Problem
  inputs_not_a_mapping steps_not_a_list no_steps : Problem
  input_not_a_mapping : String → Problem
  bad_input_type : String → Value → Problem
  bad_default : String → String → Problem
  step_not_a_mapping step_without_id : Problem
  reserved_colon duplicate_id : String → Problem
  bad_step_type : String → Value → Problem
  bad_continue_on_error : String → Problem
  in_step : StepProblem → Problem

-- `^[a-z0-9][a-z0-9-]*[a-z0-9]$|^[a-z0-9]$`, where `$` also matches before a newline that ends the text.
unfoldable pub is_slug_char : ℕ → Bool
is_slug_char c = leb b'a' c && leb c b'z' || leb b'0' c && leb c b'9'

is_char : ℕ → ℕ → Bool
is_char a b = leb a b && leb b a

slug_tail : String → Bool
unfolding is_slug_char is_char
slug_tail empty_text = false
slug_tail (c ▸ empty_text) = is_slug_char (code c)
slug_tail (c ▸ d ▸ empty_text) =
    is_slug_char (code c) && (is_slug_char (code d) || is_char b'\n' (code d))
    || is_char b'-' (code c) && is_slug_char (code d)
slug_tail (c ▸ s) = (is_slug_char (code c) || is_char b'-' (code c)) && slug_tail s

unfoldable pub matches_id_pattern : String → Bool
unfolding slug_tail
matches_id_pattern empty_text = false
matches_id_pattern (c ▸ empty_text) = is_slug_char (code c)
matches_id_pattern (c ▸ d ▸ empty_text) =
    is_slug_char (code c) && (is_slug_char (code d) || is_char b'\n' (code d))
matches_id_pattern (c ▸ s) = is_slug_char (code c) && slug_tail s

-- What is left of a text after its leading digits, and whether there was one.
after_digits : Bool → String → Option String
after_digits found empty_text = if found then some empty_text else none
after_digits found (c ▸ s) =
    let rest = after_digits true s in
    if leb b'0' (code c) && leb (code c) b'9' then rest else if found then some (c ▸ s) else none

after_dot : String → Option String
unfolding is_char
after_dot empty_text = none
after_dot (c ▸ s) = if is_char b'.' (code c) then some s else none

abbrev chain : Option String → (String → Option String) → Option String
chain none f = none
chain (some s) f = f s

abbrev ends_here : Option String → Bool
ends_here none = false
ends_here (some s) = s == "" || s == "\n"

-- `^\d+\.\d+\.\d+$`; the digits of other scripts, which `\d` matches too, are not modelled.
unfoldable pub matches_version : String → Result Bool
unfolding after_digits after_dot
matches_version s =
    if all_chars (λ c. leb c 127) s
    then ok (
        ends_here (
          chain
            (chain (chain (chain (after_digits false s) after_dot) (after_digits false)) after_dot)
            (after_digits false)))
    else err unmodelled

-- `definition.schema_version not in ("1.0", "1")`
abbrev pub schema_problems : Value → List Problem
schema_problems (str s) = when (not (s == "1.0" || s == "1")) (unsupported_schema (str s))
schema_problems v = unsupported_schema v ∷ []

unfoldable pub workflow_id_problems : Value → Result (List Problem)
unfolding matches_id_pattern
workflow_id_problems (str s) =
    if s == "" then ok (missing_id ∷ []) else ok (when (not (matches_id_pattern s)) (bad_id s))
workflow_id_problems v = if truthy v then err type_error else ok (missing_id ∷ [])

unfoldable pub version_problems : Value → Result (List Problem)
unfolding matches_version
version_problems (str s) =
    if s == ""
    then ok (missing_version ∷ [])
    else matches_version s >>= (λ matches. ok (when (not matches) (bad_version s)))
version_problems v = if truthy v then err type_error else ok (missing_version ∷ [])

abbrev pub is_input_type : Value → Bool
is_input_type (str t) = t == "string" || t == "number" || t == "boolean"
is_input_type _ = false

-- `except ValueError`
abbrev pub default_problems : String → Result Value → Result (List Problem)
default_problems name (ok v) = ok []
default_problems name (err (value_error text)) = ok (bad_default name text ∷ [])
default_problems name (err e) = err e

abbrev pub check_default : String → Fields → Option Value → Result (List Problem)
check_default name spec none = ok []
check_default name spec (some v) = default_problems name (coerce_input v (coerce_spec name v spec))

unfoldable pub input_problems : String → Value → Result (List Problem)
unfolding find coerce_input coerce_spec
input_problems name (dict spec) =
    let declared = get_or spec "type" null in
    check_default name spec (find spec "default") >>= λ problems. ok (
      when (truthy declared && not (is_input_type declared)) (bad_input_type name declared)
      ++ problems)
input_problems name v = ok (input_not_a_mapping name ∷ [])

unfoldable pub each_input : Fields → Result (List Problem)
unfolding input_problems
each_input end = ok []
each_input (field name spec rest) =
    input_problems name spec >>= λ problems. each_input rest >>= λ more. ok (problems ++ more)

unfoldable pub inputs_problems : Value → Result (List Problem)
unfolding each_input
inputs_problems (dict inputs) = each_input inputs
inputs_problems v = ok (inputs_not_a_mapping ∷ [])

-- What is wrong above the steps.
unfoldable pub head_problems : Definition → Result (List Problem)
unfolding workflow_id_problems version_problems inputs_problems
head_problems d = workflow_id_problems d.id >>= λ id. version_problems d.version >>= λ version.
    inputs_problems d.inputs >>= λ inputs. ok (
      schema_problems d.schema_version
      ++ id
      ++ when (not (truthy d.name)) missing_name
      ++ version
      ++ inputs)
