-- ===== src/Workflow/Demo.antt =====
-- A small workflow, for examples: a step with nested steps, a gate on no terminal, and one more step.
use alharistech_platform.Base.{ℕ, ◌+◌, String, true, false, Option, none, some, [], ◌∷◌}
use alharistech_platform.Value.{
  ℤ, Value, null, bool, str, list, dict, Items, nil, cons, Fields, end, field,
}
use alharistech_platform.Workflow.Model.{RunStatus, StepContext, value_error, Result, ok, err}
use alharistech_platform.Workflow.State.{RunState, Disk}
use alharistech_platform.Workflow.Definition.{Definition}
use alharistech_platform.Workflow.Engine.Effects.{Machine, Flow, Outcome, stop}
use alharistech_platform.Workflow.Engine.{Host}
use alharistech_platform.Workflow.Run.{Engine, Ended}
use alharistech_platform.Workflow.Steps.{Services, exited}
use alharistech_platform.Workflow.Steps.External.{builtin_host}

-- Expressions stand for themselves, there is no terminal, and the world counts the shell's calls.
abbrev pub services : Services ℕ
services = record {
  evaluate_expression = λ v ctx. ok v;
  parse_json = λ s. none;
  is_tty = λ w. false;
  ask = λ message show_file options w. (str "approve", w);
  run_shell = λ cmd root w. (exited (ℤ.pos 0) cmd "", w + 1);
  run_command = λ command integration model args root w. (none, w);
  run_prompt = λ prompt integration model root w. (none, w);
  current_directory = λ w. "/project";
  scan_directory = λ root w. some ((".specify", true) ∷ []);
  can_enter = λ root w. true;
  invoke_init = λ argv root w.
      (record { exit_code = ℤ.pos 0; output = "done"; stderr = some ""; exception = none }, w + 1);
}

abbrev pub host : Host ℕ
host = builtin_host services

abbrev shell : String → Fields
shell id = field "id" (str id) (field "type" (str "shell") (field "run" (str id) end))

abbrev pub check : Fields
check = field "id" (str "check") (
    field "type" (str "if")
      (field "condition" (bool true) (field "then" (list (cons (dict (shell "build")) nil)) end)))

abbrev pub steps : Items
steps = cons (dict check) (
    cons (dict (field "id" (str "review") (field "type" (str "gate") end)))
      (cons (dict (shell "ship")) nil))

abbrev pub document : Fields
document = field "workflow" (dict (field "id" (str "demo") end)) (field "steps" (list steps) end)

abbrev pub definition : Definition
definition = record {
  data_ = document;
  id = str "demo";
  name = str "";
  version = str "0.0.0";
  author = str "";
  description = str "";
  schema_version = str "1.0";
  default_integration = null;
  default_model = null;
  default_options = end;
  requires = dict end;
  inputs = dict end;
  steps = list steps;
}

abbrev pub engine : Engine ℕ
engine = record {
  host = host;
  fresh_id = "a1b2c3d4";
  env_run_id = "";
  project_integration = none;
  installed = λ id. err (value_error "not installed");
  project_root = "/project";
}

-- A new run of the workflow.
abbrev pub created_state : RunState
created_state = record {
  run_id = "a1b2c3d4";
  workflow_id = str "demo";
  status = RunStatus.created;
  current_step_index = 0;
  current_step_id = none;
  step_results = [];
  inputs = end;
  log_entries = [];
}

abbrev pub running_state : RunState
running_state = record created_state { status = RunStatus.running }

abbrev pub context : StepContext
context = record {
  inputs = end;
  steps = [];
  item = null;
  fan_in = dict end;
  default_integration = null;
  default_model = null;
  default_options = end;
  project_root = "/project";
  run_id = "a1b2c3d4";
}

abbrev pub empty_disk : Disk Value
empty_disk = []

abbrev pub machine : Machine Value ℕ
machine = record { context = context; state = running_state; disk = empty_disk; world = 0 }

-- The machine that an action leaves, and how it ended.
abbrev pub machine_after : Outcome Value ℕ → Machine Value ℕ
machine_after none = machine
machine_after (some (fl, m)) = m

abbrev pub flow_after : Outcome Value ℕ → Flow
flow_after none = stop
flow_after (some (fl, m)) = fl

abbrev pub end_of : Option (Ended ℕ) → Ended ℕ
end_of none = record { result = err (value_error "no fuel"); disk = []; world = 0 }
end_of (some x) = x

abbrev pub state_in : Result RunState → RunState
state_in (ok s) = s
state_in (err e) = created_state
