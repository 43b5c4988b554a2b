-- ===== src/Workflow/Engine/Failure.antt =====
-- The three answers of the engine to a failed step.
use alharistech_platform.Base.{String, Bool, true, false, some, ◌≡◌, refl, ap, ◌∙◌, if◌then◌else◌}
use alharistech_platform.Value.{Value, null, Items, Fields, truthy, get_or}
use alharistech_platform.Workflow.Model.{StepStatus, StepResult, RunStatus, Reply}
use alharistech_platform.Workflow.State.{Event}
use alharistech_platform.Workflow.Engine.{
  Host, is_true, step_data, step_error, conclude, finish, resolve, handle_failure, abort_run,
  pass_failure, fail_run, halt_with,
}
use alharistech_platform.Workflow.Engine.Effects.{
  Machine, Action, Flow, next, stop, update, recorded, logged, with_status, saved, leave, ◌⨾◌,
}

module _ {D W : Type 0} where
  -- The state once a finished step is recorded and logged.
  abbrev pub recorded_step : Fields → String → StepResult → Machine D W → Machine D W
  recorded_step cfg id r m =
      logged (Event.step_completed id r.status) (recorded id (step_data cfg m.context r) m)

  -- The state that each of the three answers leaves.
  abbrev pub aborted_by : String → StepResult → Machine D W → Machine D W
  aborted_by id r m = saved (logged (Event.workflow_aborted id) (with_status RunStatus.aborted m))

  abbrev pub passed_by : String → StepResult → Machine D W → Machine D W
  passed_by id r m = saved (logged (Event.step_continue_on_error id r.error) m)

  abbrev pub failed_by : String → StepResult → Machine D W → Machine D W
  failed_by id r m =
      saved (logged (Event.step_failed id (step_error r.error)) (with_status RunStatus.failed m))

  -- By whether the step aborts, and whether it may fail: where its list of steps goes on, and in what
  -- state.
  abbrev pub failure_end : Bool → Bool → String → StepResult → Machine D W → Flow × Machine D W
  failure_end true go_on id r m = (stop, aborted_by id r m)
  failure_end false true id r m = (next, passed_by id r m)
  failure_end false false id r m = (stop, failed_by id r m)

module _ {D W : Type 0} (host : Host W) (nested : Items → Action D W) where
  answered :
      (aborts go_on : Bool) (id : String) (r : StepResult) (m : Machine D W)
      → (if aborts then abort_run id else if go_on then pass_failure id r else fail_run id r) m
        ≡ some (failure_end aborts go_on id r m)
  unfolding abort_run pass_failure fail_run halt_with ◌⨾◌ update leave
  answered true go_on id r m = refl
  answered false true id r m = refl
  answered false false id r m = refl

  resolve-failed :
      (cfg : Fields) (id : String) (type : Value) (r : StepResult) (st : StepStatus)
      (m : Machine D W)
      → st ≡ StepStatus.failed
      → resolve host nested cfg id type r st m ≡ handle_failure host nested cfg id r m
  unfolding resolve
  resolve-failed cfg id type r st m h = rw h

  -- A failed step is recorded and logged. If its output is marked `aborted`, the run becomes ABORTED and
  -- the caller returns; else, if its config has `continue_on_error: true`, the caller goes on with the
  -- next step, and no nested step is executed; else the run becomes FAILED and the caller returns.
  -- What happens is logged, and the state is saved.
  conclude-failed :
      (cfg : Fields) (id : String) (type : Value) (r : StepResult) (m : Machine D W)
      → r.status ≡ StepStatus.failed
      → conclude host nested cfg id type (Reply.returned r) m
        ≡ some (
            failure_end
              (truthy (get_or r.output "aborted" null))
              (is_true (get_or cfg "continue_on_error" null))
              id
              r
              (recorded_step cfg id r m))
  unfolding conclude finish handle_failure ◌⨾◌ update
  conclude-failed cfg id type r m h =
      resolve-failed cfg id type r r.status (recorded_step cfg id r m) h
      ∙ answered (truthy (get_or r.output "aborted" null))
          (is_true (get_or cfg "continue_on_error" null)) id r (recorded_step cfg id r m)

  pub conclude-aborted :
      (cfg : Fields) (id : String) (type : Value) (r : StepResult) (m : Machine D W)
      → r.status ≡ StepStatus.failed
      → truthy (get_or r.output "aborted" null) ≡ true
      → conclude host nested cfg id type (Reply.returned r) m
        ≡ some (stop, aborted_by id r (recorded_step cfg id r m))
  conclude-aborted cfg id type r m h a =
      conclude-failed cfg id type r m h
      ∙ ap
          (λ b. some (
            failure_end b (is_true (get_or cfg "continue_on_error" null)) id r
              (recorded_step cfg id r m)))
          a
