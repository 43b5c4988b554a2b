-- ===== src/Workflow/Engine/Parts.antt =====
-- What `_execute_steps` computes from a step and its result, and how it ends a run.
use alharistech_platform.Base.{
  ℕ, zero, suc, String, ◌<>◌, Bool, false, ◌||◌, Option, none, some, ◌==◌, string_eq, decimal,
  if◌then◌else◌,
}
use alharistech_platform.Base.Dict
use alharistech_platform.Value.{
  ℤ, Value, null, bool, int, str, list, dict, Items, nil, Fields, end, truthy, or_else, find,
  get_or, set, to_text,
}
use alharistech_platform.Workflow.Model.{
  RunStatus, StepData, StepContext, StepResult, type_error, attribute_error, unmodelled, Result, ok,
  err, StepImpl,
}
use alharistech_platform.Workflow.State.{Event, step_error}
use alharistech_platform.Workflow.Engine.Effects.{
  Action, ◌⨾◌, leave, update, saved, logged, with_status,
}

-- What the engine takes from outside `_execute_steps`: the step registry and the evaluator of
-- conditions.
pub record Host (World : Type 0) : Type 0 where
  pub registry : String → Option (StepImpl World)
  pub evaluate_condition : Value → StepContext → Result Bool

-- The value of a mapping's key as a step id: `step_config.get("id", default)`. An id that is no
-- text is not modelled.
unfoldable pub id_of : Fields → String → Option String
unfolding find
id_of cfg default = elim (find cfg "id") [
  | none ↦ some default
  | some v ↦ elim v [ str s ↦ some s | _ ↦ none ]
]

-- The elements of what a `for` runs over. Of a text or a dict the engine would take the characters
-- or keys, and fail at `.get`.
abbrev pub elements : Value → Result Items
elements (list xs) = ok xs
elements (str s) = if s == "" then ok nil else err attribute_error
elements (dict end) = ok nil
elements (dict _) = err attribute_error
elements _ = err type_error

-- `registry.get(step_type)`: a list or dict as a key raises, and other values find nothing.
abbrev pub implementation :
    {W : Type 0} → (String → Option (StepImpl W)) → Value → Result (Option (StepImpl W))
implementation registry (str t) = ok (registry t)
implementation registry (list _) = err type_error
implementation registry (dict _) = err type_error
implementation registry _ = ok none

-- `step_data`
abbrev pub step_data : Fields → StepContext → StepResult → StepData
step_data cfg ctx r = record {
  integration =
      or_else (or_else (get_or r.output "integration" null) (get_or cfg "integration" null))
        ctx.default_integration;
  model =
      or_else (or_else (get_or r.output "model" null) (get_or cfg "model" null)) ctx.default_model;
  options = or_else (get_or r.output "options" null) (get_or cfg "options" (dict end));
  input = or_else (get_or r.output "input" null) (get_or cfg "input" (dict end));
  output = r.output;
  status = r.status;
}

-- `max_iters`: a whole number that is at least 1, and 10 otherwise. `True` is the number 1.
unfoldable pub max_iterations_of : Fields → ℕ
unfolding find
max_iterations_of cfg = elim (find cfg "max_iterations") [
  | none ↦ 10
  | some v ↦ elim v [
    | bool b ↦ if b then 1 else 10
    | int n ↦ elim n [ ℤ.pos k ↦ elim k [ zero ↦ 10 | suc j ↦ suc j ] | ℤ.negsuc k ↦ 10 ]
    | _ ↦ 10
  ]
]

abbrev pub is_loop : Value → Bool
is_loop (str t) = t == "while" || t == "do-while"
is_loop _ = false

abbrev pub is_fan_out : Value → Bool
is_fan_out (str t) = t == "fan-out"
is_fan_out _ = false

abbrev pub is_true : Value → Bool
is_true (bool b) = b
is_true _ = false

-- `ns.get("id")` of a step in a loop's body, if it is truthy.
abbrev pub text_id : Value → Result (Option String)
text_id (str s) = ok (some s)
text_id _ = err unmodelled

unfoldable pub original_id : Fields → Result (Option String)
unfolding find
original_id ns = let v = get_or ns "id" null in if truthy v then text_id v else ok none

-- f"{step_id}:{base_id}:{n}"
unfoldable pub nested_key : String → String → ℕ → String
unfolding decimal
nested_key parent base n = parent <> ":" <> base <> ":" <> decimal n

-- The copy of a fan-out's template for one item, and its id.
unfoldable pub item_step : String → Value → ℕ → Result (Fields × String)
unfolding to_text nested_key find set
item_step parent (dict t) i = elim (to_text (get_or t "id" (str "item"))) [
  | none ↦ err unmodelled
  | some base ↦ let key = nested_key parent base i in ok (set t "id" (str key), key)
]
item_step parent _ i = err unmodelled

abbrev pub fan_elements : Value → Result Items
fan_elements (list xs) = ok xs
fan_elements (str s) = err unmodelled
fan_elements (dict fs) = err unmodelled
fan_elements _ = err type_error

-- `context.steps.get(key, {}).get("output", {})`
unfoldable pub output_of : StepContext → String → Value
output_of ctx key = elim (Dict.get ctx.steps key) [ none ↦ dict end | some d ↦ dict d.output ]

module _ {D W : Type 0} where
  -- A new status that ends the run, its log entry, `save()` and `return`.
  unfoldable pub halt_with : RunStatus → Event → Action D W
  halt_with st e = update (with_status st) ⨾ update (logged e) ⨾ update saved ⨾ leave

  -- The three answers to a failed step.
  unfoldable pub abort_run : String → Action D W
  unfolding halt_with
  abort_run id = halt_with RunStatus.aborted (Event.workflow_aborted id)

  unfoldable pub pass_failure : String → StepResult → Action D W
  pass_failure id r = update (logged (Event.step_continue_on_error id r.error)) ⨾ update saved

  unfoldable pub fail_run : String → StepResult → Action D W
  unfolding halt_with
  fail_run id r = halt_with RunStatus.failed (Event.step_failed id (step_error r.error))
