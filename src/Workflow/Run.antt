-- ===== src/Workflow/Run.antt =====
-- `WorkflowEngine.execute`, `resume` and `load_workflow` of workflows/engine.py.
pub mod Final
pub mod Ends
pub mod Resume
use mathlib.Core.Option
use alharistech_platform.Base.{
  ℕ, String, Bool, true, false, ◌||◌, Option, none, some, List, [], ◌==◌, string_eq, if◌then◌else◌,
}
use alharistech_platform.Base.Dict
use alharistech_platform.Value.{
  Value, null, bool, int, str, list, dict, Items, nil, Fields, end, field, truthy, drop_items,
  merge,
}
use alharistech_platform.Workflow.Model.{
  RunStatus, StepContext, StepData, Exn, type_error, attribute_error, unmodelled, value_error,
  file_not_found, Result, ok, err,
}
use alharistech_platform.Workflow.State.{
  RunState, Event, Disk, RunFiles, files_of, new_run_state, load,
}
use alharistech_platform.Workflow.Definition.{Definition, definition_of_document}
use alharistech_platform.Workflow.Inputs.{resolve_inputs}
use alharistech_platform.Workflow.Engine.{Host, elements, execute_steps}
use alharistech_platform.Workflow.Engine.Effects.{
  Machine, Flow, next, stop, raised, interrupted, Outcome, saved, logged, with_status,
}

-- What one call of the engine takes from its surroundings: the step registry and the evaluator, the
-- id that uuid4 would give, the environment's run id without blanks, the project's integration,
-- and the documents of `load_workflow`.
pub record Engine (W : Type 0) : Type 0 where
  pub host : Host W
  pub fresh_id : String
  pub env_run_id : String
  pub project_integration : Option String
  pub installed : Value → Result Value
  pub project_root : String

-- The result of a call, with the disk and the world that it leaves.
pub record Ended (W : Type 0) : Type 0 where
  pub result : Result RunState
  pub disk : Disk Value
  pub world : W

-- `if run_id is None: ... os.environ.get(...)`
unfoldable pub effective_run_id : Option String → String → Option String
effective_run_id (some r) env = some r
effective_run_id none env = if env == "" then none else some env

unfoldable pub context_of : {W : Type 0} → Engine W → Definition → RunState → StepContext
context_of eng d s = record {
  inputs = s.inputs;
  steps = s.step_results;
  item = null;
  fan_in = dict end;
  default_integration = d.default_integration;
  default_model = d.default_model;
  default_options = d.default_options;
  project_root = eng.project_root;
  run_id = s.run_id;
}

-- The copy of the workflow document in the run's directory.
unfoldable pub store_workflow : String → Value → Disk Value → Disk Value
store_workflow run_id doc d = Dict.put d run_id (record (files_of d run_id) { workflow = some doc })

-- `_execute_steps` on the steps of a definition, inside the `try`.
unfoldable pub run_from :
    {W : Type 0} → Engine W → ℕ → Result Items → ℕ → Machine Value W → Outcome Value W
run_from eng f (err e) index m = some (raised e, m)
run_from eng f (ok steps) index m = execute_steps eng.host f steps (some index) m

abbrev pub completed_status : RunStatus → RunStatus
completed_status RunStatus.running = RunStatus.completed
completed_status st = st

-- `definition.steps[index:]` for a list; a slice of a text is not modelled.
unfoldable pub slice_steps : ℕ → Value → Result Items
slice_steps index (list xs) = ok (drop_items index xs)
slice_steps index (str s) = err unmodelled
slice_steps index _ = err type_error

abbrev pub resumable : RunStatus → Bool
resumable RunStatus.paused = true
resumable RunStatus.failed = true
resumable _ = false

module _ {W : Type 0} where
  abbrev pub ended : Result RunState → Machine Value W → Ended W
  ended r m = record { result = r; disk = m.disk; world = m.world }

  -- The end of a call after a normal return, after KeyboardInterrupt, and after an exception.
  unfoldable pub close : Machine Value W → Machine Value W
  close m =
      let closed = with_status (completed_status m.state.status) m in
      saved (logged (Event.workflow_finished closed.state.status) closed)

  unfoldable pub close_interrupted : Machine Value W → Machine Value W
  close_interrupted m = saved (logged Event.workflow_interrupted (with_status RunStatus.paused m))

  unfoldable pub close_failed : Event → Machine Value W → Machine Value W
  close_failed event m = saved (logged event (with_status RunStatus.failed m))

  unfoldable pub finish_run : (Exn → Event) → Flow → Machine Value W → Ended W
  finish_run event next m = ended (ok (close m).state) (close m)
  finish_run event stop m = ended (ok (close m).state) (close m)
  finish_run event interrupted m = ended (ok (close_interrupted m).state) (close_interrupted m)
  finish_run event (raised e) m = ended (err e) (close_failed (event e) m)

  unfoldable pub finish_outcome : (Exn → Event) → Outcome Value W → Option (Ended W)
  finish_outcome event none = none
  finish_outcome event (some (fl, m)) = some (finish_run event fl m)

  abbrev pub refused : Exn → Disk Value → W → Option (Ended W)
  refused e d w = some (record { result = err e; disk = d; world = w })

  -- The run from a state whose inputs are resolved: RUNNING, saved, and its steps run.
  unfoldable pub start_machine : Engine W → Definition → RunState → Disk Value → W → Machine Value W
  unfolding context_of
  start_machine eng d s disk w = saved (record {
    context = context_of eng d s;
    state = record s { status = RunStatus.running };
    disk = disk;
    world = w;
  })

  execute_resolved :
      Engine W → ℕ → Definition → RunState → Disk Value → W → Result Fields → Option (Ended W)
  execute_resolved eng f d s disk w (err e) = refused e disk w
  execute_resolved eng f d s disk w (ok inputs) = finish_outcome Event.workflow_failed (
      run_from eng f (elements d.steps) 0
        (start_machine eng d (record s { inputs = inputs }) disk w))

  execute_created :
      Engine W → ℕ → Definition → Fields → Disk Value → W → Result RunState → Option (Ended W)
  unfolding execute_resolved
  execute_created eng f d inputs disk w (err e) = refused e disk w
  execute_created eng f d inputs disk w (ok s) =
      execute_resolved eng f d s (store_workflow s.run_id (dict d.data_) disk) w
        (resolve_inputs eng.project_integration d.inputs inputs)

  -- `execute(definition, inputs, run_id)`. The fuel is that of `execute_steps`.
  unfoldable pub execute :
      Engine W → ℕ → Definition → Fields → Option String → Disk Value → W → Option (Ended W)
  unfolding execute_created
  execute eng f d inputs run_id disk w =
      execute_created eng f d inputs disk w
        (new_run_state eng.fresh_id (effective_run_id run_id eng.env_run_id) d.id)

  resume_sliced :
      Engine W → ℕ → Definition → RunState → Disk Value → W → Result Items → Option (Ended W)
  resume_sliced eng f d s disk w (err e) = refused e (start_machine eng d s disk w).disk w
  resume_sliced eng f d s disk w (ok steps) =
      finish_outcome Event.resume_failed
        (run_from eng f (ok steps) s.current_step_index (start_machine eng d s disk w))

  resume_with :
      Engine W → ℕ → Definition → RunState → Disk Value → W → Result Fields → Option (Ended W)
  resume_with eng f d s disk w (err e) = refused e disk w
  resume_with eng f d s disk w (ok inputs) =
      resume_sliced eng f d (record s { inputs = inputs }) disk w
        (slice_steps s.current_step_index d.steps)

  -- `if inputs: ... {**state.inputs, **inputs}`
  unfoldable pub updated_inputs : Engine W → Definition → RunState → Fields → Result Fields
  updated_inputs eng d s end = ok s.inputs
  updated_inputs eng d s given =
      resolve_inputs eng.project_integration d.inputs (merge s.inputs given)

  resume_defined :
      Engine W → ℕ → Fields → RunState → Disk Value → W → Result Definition → Option (Ended W)
  resume_defined eng f inputs s disk w (err e) = refused e disk w
  resume_defined eng f inputs s disk w (ok d) =
      resume_with eng f d s disk w (updated_inputs eng d s inputs)

  -- The document: the run's own copy, or else that of `load_workflow`.
  unfoldable pub document_of : Engine W → RunState → Option Value → Result Definition
  unfolding definition_of_document
  document_of eng s (some doc) = definition_of_document doc
  document_of eng s none = elim (eng.installed s.workflow_id) [
    | err e ↦ err e
    | ok doc ↦ definition_of_document doc
  ]

  resume_loaded :
      Engine W → ℕ → String → Fields → Disk Value → W → Result RunState → Option (Ended W)
  resume_loaded eng f run_id inputs disk w (err e) = refused e disk w
  resume_loaded eng f run_id inputs disk w (ok s) =
      if resumable s.status
      then resume_defined eng f inputs s disk w (document_of eng s (files_of disk run_id).workflow)
      else refused (value_error "Cannot resume run") disk w

  -- `resume(run_id, inputs)`
  pub resume : Engine W → ℕ → String → Fields → Disk Value → W → Option (Ended W)
  resume eng f run_id inputs disk w = resume_loaded eng f run_id inputs disk w (load run_id disk)
