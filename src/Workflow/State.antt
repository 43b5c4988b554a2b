-- ===== src/Workflow/State.antt =====
-- `RunState` of workflows/engine.py, and the run directories on disk that it writes.
pub mod Document
pub mod Laws
use Prim.Native.Char.{Char, code}
use Prim.Native.String.{[] as empty_text, ◌∷◌ as ◌▸◌}
use alharistech_platform.Base.{
  ℕ, String, Bool, true, false, ◌&&◌, ◌||◌, Option, none, some, List, [], ◌∷◌, ◌++◌, leb, ◌==◌,
  string_eq, if◌then◌else◌,
}
use alharistech_platform.Base.Dict
use alharistech_platform.Base.Dict.{Dict}
use alharistech_platform.Value.{ℤ, Value, null, int, str, dict, Fields, end, field}
use alharistech_platform.Workflow.Model.{
  StepStatus, RunStatus, run_status_value, StepData, Exn, unmodelled, value_error, file_not_found,
  Result, ok, err, ◌>>=◌,
}
use alharistech_platform.Workflow.State.Document.{
  step_values, required, optional, run_status_of, fields_of, step_results_of, index_of, step_id_of,
}

-- What a `step_failed` entry reports.
pub data Failure : Type 0 where
  unknown_step_type : Value → Failure
  step_error : Value → Failure

-- The entries of the run log, without their timestamps.
pub data Event : Type 0 where
  step_started : String → Value → Event
  step_failed : String → Failure → Event
  step_completed : String → StepStatus → Event
  workflow_aborted : String → Event
  step_continue_on_error : String → Value → Event
  workflow_interrupted : Event
  workflow_failed : Exn → Event
  resume_failed : Exn → Event
  workflow_finished : RunStatus → Event

pub record RunState : Type 0 where
  pub run_id : String
  pub workflow_id : Value
  pub status : RunStatus
  pub current_step_index : ℕ
  pub current_step_id : Option String
  pub step_results : Dict String StepData
  pub inputs : Fields
  pub log_entries : List Event

-- A directory `.specify/workflows/runs/<run_id>`: state.json, inputs.json, log.jsonl, workflow.yml.
-- The first two hold what `json.load` reads from them; `W` stands for the workflow documents.
pub record RunFiles (W : Type 0) : Type 0 where
  pub snapshot : Option Value
  pub inputs : Option Value
  pub log : List Event
  pub workflow : Option W

abbrev pub Disk : Type 0 → Type 0
Disk W = Dict String (RunFiles W)

is_letter_or_digit : ℕ → Bool
is_letter_or_digit c =
    (leb b'a' c && leb c b'z') || (leb b'A' c && leb c b'Z') || (leb b'0' c && leb c b'9')

is_run_id_char : ℕ → Bool
unfolding is_letter_or_digit
is_run_id_char c = is_letter_or_digit c || leb c b'-' && leb b'-' c || leb c b'_' && leb b'_' c

-- `^[a-zA-Z0-9][a-zA-Z0-9_-]*$`, where `$` also matches before a newline that ends the text.
id_tail : String → Bool
unfolding is_run_id_char
id_tail empty_text = true
id_tail (c ▸ empty_text) = is_run_id_char (code c) || leb (code c) 10 && leb 10 (code c)
id_tail (c ▸ s) = is_run_id_char (code c) && id_tail s

unfoldable pub matches_run_id_pattern : String → Bool
unfolding id_tail
matches_run_id_pattern empty_text = false
matches_run_id_pattern (c ▸ s) = is_letter_or_digit (code c) && id_tail s

unfoldable pub validate_run_id : String → Result (Unit {0})
validate_run_id run_id =
    if matches_run_id_pattern run_id then ok tt else err (value_error "Invalid run_id")

-- `RunState(run_id, workflow_id)`; `fresh` is the text that uuid4 yields.
unfoldable pub new_run_state : String → Option String → Value → Result RunState
new_run_state fresh run_id workflow_id =
    let id : String = elim run_id [ none ↦ fresh | some r ↦ r ] in
    validate_run_id id >>= λ _. ok (record {
      run_id = id;
      workflow_id = workflow_id;
      status = RunStatus.created;
      current_step_index = 0;
      current_step_id = none;
      step_results = [];
      inputs = end;
      log_entries = [];
    })

-- `state_data` of `save`, without the timestamps
unfoldable pub state_document : RunState → Value
unfolding step_values run_status_value
state_document s = dict (
    field "run_id" (str s.run_id) (
      field "workflow_id" s.workflow_id (
        field "status" (str (run_status_value s.status)) (
          field "current_step_index" (int (ℤ.pos s.current_step_index)) (
            field "current_step_id" (elim s.current_step_id [ none ↦ null | some id ↦ str id ])
              (field "step_results" (dict (step_values s.step_results)) end))))))

-- `inputs_data` of `save`
abbrev pub inputs_document : RunState → Value
inputs_document s = dict (field "inputs" (dict s.inputs) end)

-- `_validate_run_id` on what the document holds. `None` would make a new id; that is not modelled.
unfoldable pub stored_run_id : Value → Result String
stored_run_id null = err unmodelled
stored_run_id (str s) = validate_run_id s >>= λ _. ok s
stored_run_id v = err (value_error "Invalid run_id")

-- `RunStatus(state_data["status"])`
unfoldable pub stored_status : Value → Result RunStatus
unfolding required run_status_of
stored_status doc = required doc "status" >>= run_status_of

-- `inputs_data.get("inputs", {})`, where inputs.json is there
unfoldable pub stored_inputs : Option Value → Result Fields
unfolding optional
stored_inputs none = ok end
stored_inputs (some doc) = optional doc "inputs" (dict end) >>= fields_of

unfoldable pub state_of : Value → Option Value → Result RunState
unfolding required optional stored_run_id stored_status stored_inputs step_results_of
state_of doc inputs_doc = required doc "run_id" >>= λ id.
    required doc "workflow_id" >>= λ workflow_id. stored_run_id id >>= λ run_id.
    stored_status doc >>= λ status.
    optional doc "current_step_index" (int (ℤ.pos 0)) >>= index_of >>= λ index.
    optional doc "current_step_id" null >>= step_id_of >>= λ step_id.
    optional doc "step_results" (dict end) >>= fields_of >>= step_results_of >>= λ results.
    stored_inputs inputs_doc >>= λ inputs. ok (record {
      run_id = run_id;
      workflow_id = workflow_id;
      status = status;
      current_step_index = index;
      current_step_id = step_id;
      step_results = results;
      inputs = inputs;
      log_entries = [];
    })

module _ {W : Type 0} where
  abbrev pub no_files : RunFiles W
  no_files = record { snapshot = none; inputs = none; log = []; workflow = none }

  -- What stands in a run's directory; `mkdir(parents=True, exist_ok=True)` makes an empty one.
  unfoldable pub files_of : Disk W → String → RunFiles W
  files_of d run_id = elim (Dict.get d run_id) [ none ↦ no_files | some f ↦ f ]

  abbrev pub write_state : RunState → RunFiles W → RunFiles W
  write_state s f = record f {
    snapshot = some (state_document s);
    inputs = some (inputs_document s);
  }

  abbrev pub write_log : Event → RunFiles W → RunFiles W
  write_log e f = record f { log = f.log ++ e ∷ [] }

  -- `state.save()`: writes state.json and inputs.json.
  unfoldable pub save : RunState → Disk W → Disk W
  save s d = Dict.put d s.run_id (write_state s (files_of d s.run_id))

  -- `state.append_log(entry)`: in memory, and at the end of log.jsonl.
  unfoldable pub append_log : Event → RunState → Disk W → RunState × Disk W
  append_log e s d = (
    record s { log_entries = s.log_entries ++ e ∷ [] },
    Dict.put d s.run_id (write_log e (files_of d s.run_id)),
  )

  -- `RunState.load(run_id)`: the id is checked before any path is built from it.
  unfoldable pub load : String → Disk W → Result RunState
  unfolding state_of
  load run_id d = validate_run_id run_id >>= λ _.
      let f = files_of d run_id in
      elim f.snapshot [ none ↦ err file_not_found | some p ↦ state_of p f.inputs ]
