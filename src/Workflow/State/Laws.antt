-- ===== src/Workflow/State/Laws.antt =====
-- `RunState.load` after `RunState.save`.
use alharistech_platform.Base.{
  String, ◌≡◌, true, some, refl, [], arith, ◌==◌, string_eq, if◌then◌else◌,
}
use alharistech_platform.Base.Dict
use alharistech_platform.Value.{find}
use alharistech_platform.Workflow.Model.{ok}
use alharistech_platform.Workflow.State.Document.{
  required, optional, run_status_of-run_status_value, step_id_of-text, step_results_of-step_values,
}
use alharistech_platform.Workflow.State.{
  state_document, inputs_document, state_of, stored_run_id, stored_status, stored_inputs, RunState,
  Event, Disk, files_of, save, append_log, load, matches_run_id_pattern, validate_run_id,
  write_state, write_log,
}

pub stored_status-state_document : (s : RunState) → stored_status (state_document s) ≡ ok s.status
unfolding stored_status required find string_eq state_document
stored_status-state_document s = run_status_of-run_status_value s.status

-- What `save` writes is read back.
pub state_of-state_document :
    (s : RunState)
    → matches_run_id_pattern s.run_id ≡ true
    → state_of (state_document s) (some (inputs_document s)) ≡ ok (record s { log_entries = [] })
unfolding state_of stored_run_id stored_status stored_inputs required optional find validate_run_id
    string_eq state_document
state_of-state_document s h =
    rw
      (
        h,
        run_status_of-run_status_value s.status,
        step_id_of-text s.current_step_id,
        step_results_of-step_values s.step_results,
      )
      refl

module _ {W : Type 0} where
  pub files_of-save :
      (s : RunState) (d : Disk W) (id : String)
      → files_of (save s d) id
        ≡ (if id == s.run_id then write_state s (files_of d s.run_id) else files_of d id)
  unfolding files_of save
  files_of-save s d id =
      ground (arith, Dict.get-put d s.run_id id (write_state s (files_of d s.run_id)))

  pub files_of-append_log :
      (e : Event) (s : RunState) (d : Disk W) (id : String)
      → files_of (append_log e s d).1 id
        ≡ (if id == s.run_id then write_log e (files_of d s.run_id) else files_of d id)
  unfolding files_of append_log
  files_of-append_log e s d id =
      ground (arith, Dict.get-put d s.run_id id (write_log e (files_of d s.run_id)))

  -- A run with a well-formed id that is saved and loaded again is the same run, with an empty log
  -- in memory; what stood on disk before, the other runs included, does not matter.
  pub load-save :
      (s : RunState) (d : Disk W)
      → matches_run_id_pattern s.run_id ≡ true
      → load s.run_id (save s d) ≡ ok (record s { log_entries = [] })
  unfolding load validate_run_id
  load-save s d h = ground (arith, files_of-save s d s.run_id, state_of-state_document s h)
