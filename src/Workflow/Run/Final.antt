-- ===== src/Workflow/Run/Final.antt =====
-- How a run ends: its status, what is on disk, and what a later resume starts from.
use alharistech_platform.Base.{
  ℕ, String, ◌≡◌, refl, subst, ◌⊎◌, inr, true, Option, none, some, arith, string_eq,
}
use alharistech_platform.Value.{Value, Items, Fields, dict}
use alharistech_platform.Workflow.Model.{RunStatus, Exn, Result, ok, err}
use alharistech_platform.Workflow.State.{
  RunState, Event, Disk, files_of, state_document, inputs_document, stored_status, new_run_state,
  append_log,
}
use alharistech_platform.Workflow.State.Laws.{files_of-save, stored_status-state_document}
use alharistech_platform.Workflow.Definition.{Definition}
use alharistech_platform.Workflow.Inputs.{resolve_inputs}
use alharistech_platform.Workflow.Engine.{elements}
use alharistech_platform.Workflow.Engine.Effects.{
  Machine, Flow, next, stop, raised, interrupted, is_halted, saved, logged, with_status, Outcome,
}
use alharistech_platform.Workflow.Engine.Status.{StatusAfter, execute_steps-StatusAfter}
use alharistech_platform.Workflow.Engine.Frame.{execute_steps-SameFrame}
use alharistech_platform.Workflow.Run.{
  Engine, Ended, run_from, close, close_interrupted, close_failed, finish_run, finish_outcome,
  start_machine, execute, execute_created, execute_resolved, store_workflow, effective_run_id,
  completed_status,
}

-- The statuses with which `execute` and `resume` return.
abbrev pub IsFinal : RunStatus → Type 0
IsFinal st = (st ≡ RunStatus.completed) ⊎ (is_halted st ≡ true)

-- What a call that ended says of the run: on a return, a final status, and on disk exactly the
-- returned state; on an exception, FAILED on disk.
abbrev pub Recorded : String → Result RunState → Disk Value → Type 0
Recorded run_id (ok s) disk =
    IsFinal s.status
    × (s.run_id ≡ run_id)
    × ((files_of disk run_id).snapshot ≡ some (state_document s))
    × ((files_of disk run_id).inputs ≡ some (inputs_document s))
Recorded run_id (err e) disk =
    (p : Value) × ((files_of disk run_id).snapshot ≡ some p)
    × (stored_status p ≡ ok RunStatus.failed)

IsFinal-completed_status :
    (st : RunStatus)
    → (st ≡ RunStatus.running) ⊎ (is_halted st ≡ true)
    → IsFinal (completed_status st)
IsFinal-completed_status st h = ground arith

module _ {W : Type 0} where
  saved_files :
      (m : Machine Value W) (run_id : String)
      → m.state.run_id ≡ run_id
      → ((files_of (saved m).disk run_id).snapshot ≡ some (state_document m.state))
        × ((files_of (saved m).disk run_id).inputs ≡ some (inputs_document m.state))
  unfolding saved
  saved_files m run_id e = ground (arith, files_of-save m.state m.disk run_id)

  Recorded-saved :
      (m : Machine Value W) (run_id : String)
      → m.state.run_id ≡ run_id
      → IsFinal m.state.status
      → Recorded run_id (ok m.state) (saved m).disk
  Recorded-saved m run_id e final =
      (final, e, (saved_files m run_id e).0, (saved_files m run_id e).1)

  Recorded-close :
      (m : Machine Value W) (run_id : String)
      → m.state.run_id ≡ run_id
      → (m.state.status ≡ RunStatus.running) ⊎ (is_halted m.state.status ≡ true)
      → Recorded run_id (ok (close m).state) (close m).disk
  unfolding close saved logged append_log with_status
  Recorded-close m run_id e h =
      Recorded-saved
        (logged (Event.workflow_finished (completed_status m.state.status))
          (with_status (completed_status m.state.status) m))
        run_id e (IsFinal-completed_status m.state.status h)

  Recorded-interrupted :
      (m : Machine Value W) (run_id : String)
      → m.state.run_id ≡ run_id
      → Recorded run_id (ok (close_interrupted m).state) (close_interrupted m).disk
  unfolding close_interrupted saved logged append_log with_status
  Recorded-interrupted m run_id e =
      Recorded-saved (logged Event.workflow_interrupted (with_status RunStatus.paused m)) run_id e
        (inr refl)

  Recorded-failed :
      (m : Machine Value W) (event : Event) (e : Exn) (run_id : String)
      → m.state.run_id ≡ run_id
      → Recorded run_id (err e) (close_failed event m).disk
  unfolding close_failed logged append_log with_status
  Recorded-failed m event e run_id eq =
      let m' = logged event (with_status RunStatus.failed m) in
      (state_document m'.state, (saved_files m' run_id eq).0, stored_status-state_document m'.state)

  Recorded-finish_run :
      (event : Exn → Event) (fl : Flow) (m : Machine Value W) (run_id : String)
      → m.state.run_id ≡ run_id
      → StatusAfter fl m.state.status
      → Recorded run_id (finish_run event fl m).result (finish_run event fl m).disk
  unfolding finish_run
  Recorded-finish_run event next m run_id e h = Recorded-close m run_id e h
  Recorded-finish_run event stop m run_id e h = Recorded-close m run_id e (inr h)
  Recorded-finish_run event interrupted m run_id e h = Recorded-interrupted m run_id e
  Recorded-finish_run event (raised x) m run_id e h = Recorded-failed m (event x) x run_id e

  Recorded-finish_outcome :
      (event : Exn → Event) (o : Outcome Value W) (run_id : String) (x : Ended W)
      → ((fl : Flow) (m : Machine Value W)
          → o ≡ some (fl, m)
          → (m.state.run_id ≡ run_id) × StatusAfter fl m.state.status)
      → finish_outcome event o ≡ some x
      → Recorded run_id x.result x.disk
  unfolding finish_outcome
  Recorded-finish_outcome event none run_id x h e = absurd (cc)
  Recorded-finish_outcome event (some (fl, m)) run_id x h e =
      let k = h fl m refl in
      let e' : finish_run event fl m ≡ x = ground arith in
      subst (λ y. Recorded run_id y.result y.disk) e'
        (Recorded-finish_run event fl m run_id k.0 k.1)

  -- The run of the steps of a definition, from a RUNNING state.
  run_from-status :
      (eng : Engine W) (f : ℕ) (o : Result Items) (i : ℕ) (m m' : Machine Value W) (fl : Flow)
      → m.state.status ≡ RunStatus.running
      → run_from eng f o i m ≡ some (fl, m')
      → (m'.state.run_id ≡ m.state.run_id) × StatusAfter fl m'.state.status
  unfolding run_from
  run_from-status eng f (err x) i m m' fl h e = ground arith
  run_from-status eng f (ok steps) i m m' fl h e = (
    (execute_steps-SameFrame eng.host f steps (some i) m m' fl e).run_id,
    execute_steps-StatusAfter eng.host f steps (some i) m m' fl h e,
  )

  Recorded-run :
      (event : Exn → Event) (eng : Engine W) (f : ℕ) (d : Definition) (s : RunState)
      (disk : Disk Value) (w : W) (o : Result Items) (i : ℕ) (x : Ended W)
      → finish_outcome event (run_from eng f o i (start_machine eng d s disk w)) ≡ some x
      → Recorded s.run_id x.result x.disk
  unfolding start_machine saved
  Recorded-run event eng f d s disk w o i x e =
      Recorded-finish_outcome event _ s.run_id x
        (λ fl m' e'. run_from-status eng f o i (start_machine eng d s disk w) m' fl refl e') e

module _ {W : Type 0} (eng : Engine W) (f : ℕ) (d : Definition) (inputs : Fields)
    (run_id : Option String) (disk : Disk Value) (w : W) where
  -- The machine on which `execute` runs the steps of a run `s` with resolved inputs.
  abbrev pub first_machine : RunState → Fields → Machine Value W
  first_machine s ins =
      start_machine eng d (record s { inputs = ins }) (store_workflow s.run_id (dict d.data_) disk)
        w

  abbrev pub created : Result RunState
  created = new_run_state eng.fresh_id (effective_run_id run_id eng.env_run_id) d.id

  -- When the id and the inputs are accepted, `execute` returns only with COMPLETED, PAUSED, FAILED or
  -- ABORTED, and state.json and inputs.json then hold exactly the state returned; when it raises,
  -- state.json says FAILED.
  pub execute-Recorded :
      (s : RunState) (ins : Fields) (x : Ended W)
      → created ≡ ok s
      → resolve_inputs eng.project_integration d.inputs inputs ≡ ok ins
      → execute eng f d inputs run_id disk w ≡ some x
      → Recorded s.run_id x.result x.disk
  unfolding execute execute_created execute_resolved
  execute-Recorded s ins x made resolved e =
      Recorded-run Event.workflow_failed eng f d (record s { inputs = ins })
        (store_workflow s.run_id (dict d.data_) disk) w (elements d.steps) 0 x
        (rw (made, execute_created, resolved, execute_resolved) at e)
