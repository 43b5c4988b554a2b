-- ===== src/Workflow/Validation/Examples.antt =====
-- The theorems on validation at a workflow with nested steps, and what validation says of others.
use alharistech_platform.Base.{ℕ, arith, String, true, ◌≡◌, refl, none, some, [], ◌∷◌, string_eq}
use alharistech_platform.Value.{
  ℤ, Value, null, bool, int, str, list, dict, Items, nil, cons, Fields, end, field, find,
}
use alharistech_platform.Value.Depth.{depth_items}
use alharistech_platform.Workflow.Model.{type_error, attribute_error, ok}
use alharistech_platform.Workflow.Definition.{Definition}
use alharistech_platform.Workflow.Inputs.{coerce_type, coerce_string, check_enum, resolve_inputs}
use alharistech_platform.Workflow.Steps.Validate.{
  builtin_validators, validate_if, validate_shell, validate_gate, validate_fan_out,
}
use alharistech_platform.Workflow.Validation.{going, raised, validate_workflow, duplicate_id}
use alharistech_platform.Workflow.Validation.Sound.{StepsValid, Passes, validate_workflow-Valid}
use alharistech_platform.Workflow.Validation.Ids.{AreDifferent}
use alharistech_platform.Workflow.Validation.Distinct.{step_ids, validate_workflow-AreDifferent}
use alharistech_platform.Value.Depth.{depth}
use alharistech_platform.Workflow.State.{new_run_state, validate_run_id, matches_run_id_pattern}
use alharistech_platform.Workflow.Run.{Ended, execute, effective_run_id}
use alharistech_platform.Workflow.Run.Final.{Recorded, created}
use alharistech_platform.Workflow.Run.Ends.{execute-ends}
use alharistech_platform.Workflow.Steps.External.Shrinking.{builtin_host-IsShrinking}
use alharistech_platform.Workflow.Demo
use alharistech_platform.Workflow.Validation.Total.{HasEnded, validate_workflow-HasEnded}
use alharistech_platform.Workflow.Validation.Defaults.{validate_workflow-resolves}

abbrev shell : String → Value
shell id = dict (field "id" (str id) (field "type" (str "shell") (field "run" (str "make") end)))

abbrev steps_with : Items → Items
steps_with more =
    cons
      (dict (
        field "id" (str "check") (
          field "type" (str "if")
            (field "condition" (bool true) (field "then" (list (cons (shell "build") nil)) end)))))
      more

abbrev fan : Value
fan = dict (
    field "id" (str "each") (
      field "type" (str "fan-out")
        (field "items" (str "{{ inputs.files }}") (field "step" (shell "build") end))))

abbrev gate : Items → Value
gate options = dict (
    field "id" (str "review") (
      field "type" (str "gate")
        (field "message" (str "Go on?") (field "options" (list options) end))))

abbrev inputs : Fields
inputs = field "where" (dict (field "type" (str "string") (field "default" (str "here") end))) end

abbrev defined : Items → Definition
defined steps = record {
  data_ = end;
  id = str "demo";
  name = str "Demo";
  version = str "1.10.0";
  author = str "";
  description = str "";
  schema_version = str "1.0";
  default_integration = null;
  default_model = null;
  default_options = end;
  requires = dict end;
  inputs = dict inputs;
  steps = list steps;
}

abbrev plain : Definition
plain = defined (steps_with (cons fan nil))

passes : Passes (validate_workflow builtin_validators plain)
unfolding validate_workflow string_eq coerce_type coerce_string check_enum builtin_validators
    depth_items validate_if validate_shell validate_fan_out
passes = ("each" ∷ "build" ∷ "check" ∷ [], refl)

validate_workflow-Valid_example : StepsValid builtin_validators plain.steps
validate_workflow-Valid_example = validate_workflow-Valid builtin_validators plain passes

validate_workflow-AreDifferent_example : AreDifferent (step_ids (steps_with (cons fan nil)))
validate_workflow-AreDifferent_example =
    validate_workflow-AreDifferent builtin_validators plain _ _ refl passes

validate_workflow-HasEnded_example : HasEnded (validate_workflow builtin_validators plain)
validate_workflow-HasEnded_example = validate_workflow-HasEnded builtin_validators plain

validate_workflow-resolves_example :
    (resolved : Fields) × (resolve_inputs none (dict inputs) end ≡ ok resolved)
unfolding find string_eq
validate_workflow-resolves_example = validate_workflow-resolves builtin_validators plain passes refl

-- An id that is used twice, once below another step.
used_twice :
    validate_workflow builtin_validators (defined (steps_with (cons (shell "build") nil)))
    ≡ going (record { seen = "build" ∷ "build" ∷ "check" ∷ []; errors = duplicate_id "build" ∷ [] })
unfolding validate_workflow string_eq coerce_type coerce_string check_enum builtin_validators
    depth_items validate_if validate_shell
used_twice = refl

-- A step whose id is a number, and a gate with an option that is no text, raise.
number_id :
    validate_workflow builtin_validators
      (defined (cons (dict (field "id" (int (ℤ.pos 1)) end)) nil))
    ≡ raised type_error
unfolding validate_workflow string_eq coerce_type coerce_string check_enum
number_id = refl

number_option :
    validate_workflow builtin_validators (defined (cons (gate (cons (int (ℤ.pos 1)) nil)) nil))
    ≡ raised attribute_error
unfolding validate_workflow string_eq coerce_type coerce_string check_enum builtin_validators
    validate_gate
number_option = refl

made : created Demo.engine 5 plain end none Demo.empty_disk 0 ≡ ok Demo.created_state
unfolding effective_run_id new_run_state validate_run_id matches_run_id_pattern string_eq
made = refl

execute-ends_example :
    (x : Ended ℕ) × (execute Demo.engine 5 plain end none Demo.empty_disk 0 ≡ some x)
    × Recorded "a1b2c3d4" x.result x.disk
unfolding find string_eq
execute-ends_example =
    execute-ends builtin_validators Demo.engine 5 plain none Demo.empty_disk 0 Demo.created_state
      (builtin_host-IsShrinking Demo.services) refl passes refl (unfold depth in omega arith) made
