-- ===== src/Workflow/Engine/Status.antt =====
-- The status of the run when a list of steps ends.
use alharistech_platform.Base.{ℕ, ◌≡◌, true, ◌⊎◌, Option, some, arith}
use alharistech_platform.Value.{Items, count_items}
use alharistech_platform.Workflow.Model.{RunStatus}
use alharistech_platform.Workflow.State.{append_log}
use alharistech_platform.Workflow.Engine.{Host, execute_steps}
use alharistech_platform.Workflow.Engine.Effects.{
  Machine, Flow, Outcome, next, stop, raised, interrupted, is_halted, position, saved, logged,
  with_status, with_item, with_world, recorded, output_set,
}
use alharistech_platform.Workflow.Engine.Frame.{everywhere}
use alharistech_platform.Workflow.Engine.Rules.{Laws, Either, Within}
use alharistech_platform.Workflow.Engine.Preserves.{Within-execute_steps}

module _ {D W : Type 0} where
  abbrev IsRunning : Machine D W → Type 0
  IsRunning m = m.state.status ≡ RunStatus.running

  abbrev IsHalted : Machine D W → Type 0
  IsHalted m = is_halted m.state.status ≡ true

  status_laws : Laws IsRunning IsHalted IsRunning (λ _. Unit {0})
  unfolding with_status position saved logged append_log with_world with_item recorded output_set
  status_laws = record {
    running_of = λ m h no_halt. ground arith;
    halted_of = λ m h halt. halt;
    broken_of = λ m h. h;
    halts = λ st m e h. e;
    at_position = λ id m h. h;
    at_index = λ id i m _ h. h;
    at_saved = λ m h. h;
    at_saved_halted = λ m h. h;
    at_logged = λ e m h. h;
    at_logged_halted = λ e m h. h;
    at_world = λ w m h. h;
    at_item = λ v m h. h;
    at_item_halted = λ v m h. h;
    at_recorded = λ k d m h. h;
    at_output = λ k o m h. h;
    at_output_halted = λ k o m h. h;
  }

-- What a caller of `_execute_steps` may rely on, by the way in which it ended.
abbrev pub StatusAfter : Flow → RunStatus → Type 0
StatusAfter next st = (st ≡ RunStatus.running) ⊎ (is_halted st ≡ true)
StatusAfter stop st = is_halted st ≡ true
StatusAfter interrupted st = st ≡ RunStatus.running
StatusAfter (raised e) st = st ≡ RunStatus.running

Status-of_Within :
    {D W : Type 0} (fl : Flow) (m : Machine D W)
    → Within (status_laws {D = D} {W = W}) (Either status_laws) (some (fl, m))
    → StatusAfter fl m.state.status
Status-of_Within next m h = h
Status-of_Within stop m h = h
Status-of_Within interrupted m h = h
Status-of_Within (raised e) m h = h

Status-of_outcome :
    {D W : Type 0} (o : Outcome D W) (fl : Flow) (m : Machine D W)
    → Within (status_laws {D = D} {W = W}) (Either status_laws) o
    → o ≡ some (fl, m)
    → StatusAfter fl m.state.status
Status-of_outcome o fl m h e = Status-of_Within fl m (rw e at h)

-- A list of steps that starts RUNNING ends RUNNING, PAUSED, FAILED or ABORTED, and never COMPLETED;
-- where an exception or an interrupt ends it, the status is still RUNNING.
pub execute_steps-StatusAfter :
    {D W : Type 0} (host : Host W) (f : ℕ) (steps : Items) (offset : Option ℕ) (m m' : Machine D W)
    (fl : Flow)
    → m.state.status ≡ RunStatus.running
    → execute_steps host f steps offset m ≡ some (fl, m')
    → StatusAfter fl m'.state.status
execute_steps-StatusAfter host f steps offset m m' fl h e =
    Status-of_outcome _ fl m'
      (Within-execute_steps status_laws host f steps offset m
        (everywhere offset 0 (count_items steps)) h)
      e
