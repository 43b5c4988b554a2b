-- ===== src/Workflow/State/Document.antt =====
-- The table of step results as a document, and its parts read back: what `RunState.save` of
-- workflows/engine.py hands to `json.dump`, and `RunState.load` gets from `json.load`.
use alharistech_platform.Base.{
  ℕ, String, Option, none, some, [], ◌∷◌, ◌==◌, string_eq, if◌then◌else◌, ◌≡◌, refl,
}
use alharistech_platform.Base.Dict.{Dict}
use alharistech_platform.Value.{ℤ, Value, null, int, str, dict, Fields, end, field, find, get_or}
use alharistech_platform.Exception.{
  key_error, type_error, attribute_error, value_error, unmodelled, Result, ok, err, ◌>>=◌,
}
use alharistech_platform.Workflow.Model.{
  StepStatus, RunStatus, step_status_value, run_status_value, StepData,
}

-- `step_data` in `_execute_steps`
unfoldable pub step_value : StepData → Value
unfolding step_status_value
step_value d = dict (
    field "integration" d.integration (
      field "model" d.model (
        field "options" d.options (
          field "input" d.input (
            field "output" (dict d.output)
              (field "status" (str (step_status_value d.status)) end))))))

unfoldable pub step_values : Dict String StepData → Fields
unfolding step_value
step_values [] = end
step_values ((id, d) ∷ steps) = field id (step_value d) (step_values steps)

-- `data[key]`
unfoldable pub required : Value → String → Result Value
unfolding find
required (dict fs) key = elim (find fs key) [ none ↦ err key_error | some v ↦ ok v ]
required v key = err type_error

-- `data.get(key, default)`
unfoldable pub optional : Value → String → Value → Result Value
unfolding find
optional (dict fs) key default = ok (get_or fs key default)
optional v key default = err attribute_error

-- `RunStatus(value)`
unfoldable pub run_status_of : Value → Result RunStatus
run_status_of (str s) =
    if s == "created"
    then ok RunStatus.created
    else if s == "running"
    then ok RunStatus.running
    else if s == "completed"
    then ok RunStatus.completed
    else if s == "paused"
    then ok RunStatus.paused
    else if s == "failed"
    then ok RunStatus.failed
    else if s == "aborted"
    then ok RunStatus.aborted
    else err (value_error "not a valid RunStatus")
run_status_of v = err (value_error "not a valid RunStatus")

-- The code takes over what stands in the rest of a document as it is; here it is read, and what the
-- engine does not write is not modelled.
unfoldable pub step_status_of : Value → Result StepStatus
step_status_of (str s) =
    if s == "pending"
    then ok StepStatus.pending
    else if s == "running"
    then ok StepStatus.running
    else if s == "completed"
    then ok StepStatus.completed
    else if s == "failed"
    then ok StepStatus.failed
    else if s == "skipped"
    then ok StepStatus.skipped
    else if s == "paused"
    then ok StepStatus.paused
    else err unmodelled
step_status_of v = err unmodelled

abbrev pub fields_of : Value → Result Fields
fields_of (dict fs) = ok fs
fields_of v = err unmodelled

unfoldable pub step_data_of : Value → Result StepData
unfolding required step_status_of
step_data_of v = required v "integration" >>= λ integration. required v "model" >>= λ model.
    required v "options" >>= λ options. required v "input" >>= λ input.
    required v "output" >>= fields_of >>= λ output.
    required v "status" >>= step_status_of >>= λ status. ok (record {
      integration = integration;
      model = model;
      options = options;
      input = input;
      output = output;
      status = status;
    })

unfoldable pub step_results_of : Fields → Result (Dict String StepData)
unfolding step_data_of
step_results_of end = ok []
step_results_of (field id v rest) =
    step_data_of v >>= λ d. step_results_of rest >>= λ ds. ok ((id, d) ∷ ds)

abbrev pub index_of : Value → Result ℕ
index_of (int (ℤ.pos n)) = ok n
index_of v = err unmodelled

abbrev pub step_id_of : Value → Result (Option String)
step_id_of null = ok none
step_id_of (str s) = ok (some s)
step_id_of v = err unmodelled

pub run_status_of-run_status_value :
    (st : RunStatus) → run_status_of (str (run_status_value st)) ≡ ok st
unfolding run_status_of run_status_value string_eq
run_status_of-run_status_value RunStatus.created = refl
run_status_of-run_status_value RunStatus.running = refl
run_status_of-run_status_value RunStatus.paused = refl
run_status_of-run_status_value RunStatus.completed = refl
run_status_of-run_status_value RunStatus.failed = refl
run_status_of-run_status_value RunStatus.aborted = refl

step_status_of-step_status_value :
    (st : StepStatus) → step_status_of (str (step_status_value st)) ≡ ok st
unfolding step_status_of step_status_value string_eq
step_status_of-step_status_value StepStatus.pending = refl
step_status_of-step_status_value StepStatus.running = refl
step_status_of-step_status_value StepStatus.completed = refl
step_status_of-step_status_value StepStatus.failed = refl
step_status_of-step_status_value StepStatus.skipped = refl
step_status_of-step_status_value StepStatus.paused = refl

step_data_of-step_value : (d : StepData) → step_data_of (step_value d) ≡ ok d
unfolding step_data_of step_value required find string_eq
step_data_of-step_value d = rw (step_status_of-step_status_value d.status) refl

pub step_results_of-step_values :
    (steps : Dict String StepData) → step_results_of (step_values steps) ≡ ok steps
unfolding step_results_of step_values
step_results_of-step_values [] = refl
step_results_of-step_values ((id, d) ∷ steps) =
    rw (step_data_of-step_value d, step_results_of-step_values steps) refl

pub step_id_of-text :
    (o : Option String)
    → step_id_of (elim o as (λ _. Value) [ none ↦ null | some id ↦ str id ]) ≡ ok o
step_id_of-text none = refl
step_id_of-text (some id) = refl
