-- ===== src/Workflow/Model.antt =====
-- workflows/base.py: the statuses, the context that a step is given and the result that it returns.
use alharistech_platform.Base.{String}
use alharistech_platform.Base.Dict.{Dict}
use alharistech_platform.Value.{Value, Fields}
pub use alharistech_platform.Exception.{
  Exn, type_error, attribute_error, key_error, file_not_found, unmodelled, value_error,
  bundler_error, os_error, Result, ok, err, ◌>>=◌,
}

pub data StepStatus : Type 0 where
  pending running completed failed skipped paused : StepStatus

pub data RunStatus : Type 0 where
  created running paused completed failed aborted : RunStatus

-- `StepStatus.value` and `RunStatus.value`
unfoldable pub step_status_value : StepStatus → String
step_status_value StepStatus.pending = "pending"
step_status_value StepStatus.running = "running"
step_status_value StepStatus.completed = "completed"
step_status_value StepStatus.failed = "failed"
step_status_value StepStatus.skipped = "skipped"
step_status_value StepStatus.paused = "paused"

unfoldable pub run_status_value : RunStatus → String
run_status_value RunStatus.created = "created"
run_status_value RunStatus.running = "running"
run_status_value RunStatus.paused = "paused"
run_status_value RunStatus.completed = "completed"
run_status_value RunStatus.failed = "failed"
run_status_value RunStatus.aborted = "aborted"

-- What the engine records of a step: `step_data` in `_execute_steps`.
pub record StepData : Type 0 where
  pub integration : Value
  pub model : Value
  pub options : Value
  pub input : Value
  pub output : Fields
  pub status : StepStatus

pub record StepContext : Type 0 where
  pub inputs : Fields
  pub steps : Dict String StepData
  pub item : Value
  pub fan_in : Value
  pub default_integration : Value
  pub default_model : Value
  pub default_options : Fields
  pub project_root : String
  pub run_id : String

pub record StepResult : Type 0 where
  pub status : StepStatus
  pub output : Fields
  pub next_steps : Value
  pub error : Value

-- How a step's `execute` ends; `interrupted` is KeyboardInterrupt.
pub data Reply : Type 0 where
  returned : StepResult → Reply
  raised : Exn → Reply
  interrupted : Reply

-- A step implementation: the config and the context, and a world of which it sees and changes what
-- lies outside the program (terminal, subprocesses, files).
abbrev pub StepImpl : Type 0 → Type 0
StepImpl World = Fields → StepContext → World → Reply × World
