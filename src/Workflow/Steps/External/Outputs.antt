-- ===== src/Workflow/Steps/External/Outputs.antt =====
-- The outputs of the steps that act on the world.
use alharistech_platform.Base.{
  zero, String, Bool, true, false, ◌||◌, Option, none, some, ◌==◌, string_eq, if◌then◌else◌,
}
use alharistech_platform.Value.{
  ℤ, Value, null, bool, int, str, list, dict, nil, cons, Fields, end, field, truthy, or_else, set,
  merge, to_text,
}
use alharistech_platform.Workflow.Model.{StepStatus, StepResult, unmodelled, Result, ok, err}
use alharistech_platform.Workflow.Steps.{CliResult, completed, ended_with}

abbrev pub is_text : Value → String → Bool
is_text (str s) t = s == t
is_text _ t = false

abbrev pub is_zero : ℤ → Bool
is_zero (ℤ.pos zero) = true
is_zero _ = false

-- `output` of a gate, without and with the choice
abbrev pub gate_output : Value → Value → Value → Value → Value → Fields
gate_output message options on_reject show_file choice = field "message" message (
    field "options" options
      (field "on_reject" on_reject (field "show_file" show_file (field "choice" choice end))))

abbrev pub is_rejection : Value → Bool
is_rejection v = is_text v "reject" || is_text v "abort"

unfoldable pub gate_result : Value → Value → Value → Value → Value → StepResult
unfolding set
gate_result message options on_reject show_file choice =
    let output = gate_output message options on_reject show_file choice in
    if is_rejection choice
    then if is_text on_reject "abort"
      then ended_with StepStatus.failed (set output "aborted" (bool true))
          (str "Gate rejected by user")
      else if is_text on_reject "retry"
      then ended_with StepStatus.paused output null
      else completed output (list nil)
    else completed output (list nil)

-- `str(show_file)`, unless it is `None`
abbrev pub show_file_text : Value → Result Value
show_file_text null = ok null
show_file_text v = elim (to_text v) [ none ↦ err unmodelled | some s ↦ ok (str s) ]

abbrev pub default_options : Value
default_options = list (cons (str "approve") (cons (str "reject") nil))

unfoldable pub shell_output : ℤ → String → String → Fields
shell_output code stdout stderr =
    field "exit_code" (int code) (field "stdout" (str stdout) (field "stderr" (str stderr) end))

-- The result of a dispatch, added to the step's output.
unfoldable pub cli_result : Fields → Option CliResult → StepResult
unfolding set
cli_result output none =
    ended_with StepStatus.failed
      (set (set output "exit_code" (int (ℤ.pos 1))) "dispatched" (bool false))
      (str "Cannot dispatch")
cli_result output (some r) =
    let output' =
      set (set (set (set output "exit_code" (int r.exit_code)) "stdout" r.stdout) "stderr" r.stderr)
        "dispatched" (bool true) in
    if is_zero r.exit_code
    then completed output' (list nil)
    else ended_with StepStatus.failed output' (or_else r.stderr (str "Command exited"))

-- A command's input, integration, model and options.
pub data Prepared : Type 0 where
  prepared : Fields → Value → Value → Fields → Prepared

-- `dict(default_options)`, updated by the step's options if there are any
unfoldable pub merged_options : Fields → Value → Result Fields
unfolding merge
merged_options defaults (dict fs) = ok (merge defaults fs)
merged_options defaults v = if truthy v then err unmodelled else ok defaults

unfoldable pub no_dispatch : {W : Type 0} → W → Option CliResult × W
no_dispatch w = (none, w)
