-- ===== src/Workflow/Steps/External.antt =====
-- The steps that act on the world: `gate`, `shell`, `command` and `prompt` of workflows/steps/; and
-- the registry of the built-in steps, workflows/__init__.py.
mod Outputs
pub mod Shrinking
pub mod Gate
unfoldable pub use Outputs.*
use alharistech_platform.Base.{
  ℕ, zero, suc, String, Bool, true, false, ◌&&◌, ◌||◌, Option, none, some, ◌==◌, string_eq,
  if◌then◌else◌,
}
use alharistech_platform.Value.{
  ℤ, Value, null, bool, int, str, list, dict, Items, nil, cons, Fields, end, field, truthy, or_else,
  find, get_or, set, merge, to_text,
}
use alharistech_platform.Workflow.Model.{
  StepStatus, StepContext, StepResult, Exn, attribute_error, unmodelled, Result, ok, err, ◌>>=◌,
  Reply, StepImpl,
}
use alharistech_platform.Workflow.Engine.{Host}
use alharistech_platform.Workflow.Steps.Init.{init_step, text_or_unmodelled}
use alharistech_platform.Workflow.Steps.{
  Services, ShellOutcome, exited, timed_out, not_started, broke, CliResult, completed, ended_with,
  reply_of, render, if_step, while_step, do_while_step, switch_step, fan_out_step, fan_in_step,
  evaluate_condition,
}

module _ {W : Type 0} (services : Services W) where
  gate_prompt : Fields → Value → Result Value → W → Reply × W
  gate_prompt cfg message (err e) w = (Reply.raised e, w)
  gate_prompt cfg message (ok show_file) w =
      let options = get_or cfg "options" default_options in
      let on_reject = get_or cfg "on_reject" (str "abort") in
      if services.is_tty w
      then (let (choice, w') = services.ask message show_file options w in
          (Reply.returned (gate_result message options on_reject show_file choice), w'))
      else (
        Reply.returned (
            ended_with StepStatus.paused (gate_output message options on_reject show_file null)
              null),
        w,
      )

  gate_message : Fields → StepContext → Result Value → W → Reply × W
  gate_message cfg ctx (err e) w = (Reply.raised e, w)
  gate_message cfg ctx (ok message) w =
      gate_prompt cfg message
        (render services.evaluate_expression (get_or cfg "show_file" null) ctx >>= show_file_text) w

  unfoldable pub gate_step : StepImpl W
  unfolding gate_message gate_prompt find
  gate_step cfg ctx w =
      gate_message cfg ctx
        (render services.evaluate_expression (get_or cfg "message" (str "Review required.")) ctx) w

  shell_exit : Fields → ℤ → String → String → StepResult
  unfolding shell_output find set
  shell_exit cfg code stdout stderr =
      let output = shell_output code stdout stderr in
      if is_zero code
      then if is_text (get_or cfg "output_format" null) "json"
        then elim (services.parse_json stdout) [
          | none ↦ ended_with StepStatus.failed output (str "stdout is not valid JSON")
          | some v ↦ completed (set output "data" v) (list nil)
        ]
        else completed output (list nil)
      else ended_with StepStatus.failed output (str "Shell command exited")

  shell_reply : Fields → ShellOutcome → Reply
  unfolding shell_exit
  shell_reply cfg (exited code stdout stderr) = Reply.returned (shell_exit cfg code stdout stderr)
  shell_reply cfg timed_out = Reply.returned (
      ended_with StepStatus.failed (shell_output (ℤ.negsuc 0) "" "timeout")
        (str "Shell command timed out after 300 seconds."))
  shell_reply cfg (not_started reason) = Reply.returned (
      ended_with StepStatus.failed (shell_output (ℤ.negsuc 0) "" reason)
        (str "Shell command failed"))
  shell_reply cfg (broke e) = Reply.raised e

  shell_start : Fields → StepContext → Option String → W → Reply × W
  unfolding shell_reply
  shell_start cfg ctx none w = (Reply.raised unmodelled, w)
  shell_start cfg ctx (some cmd) w =
      let (outcome, w') =
        services.run_shell cmd (if ctx.project_root == "" then "." else ctx.project_root) w in
      (shell_reply cfg outcome, w')

  shell_run : Fields → StepContext → Result Value → W → Reply × W
  unfolding shell_start
  shell_run cfg ctx (err e) w = (Reply.raised e, w)
  shell_run cfg ctx (ok v) w = shell_start cfg ctx (to_text v) w

  unfoldable pub shell_step : StepImpl W
  unfolding shell_run find
  shell_step cfg ctx w =
      shell_run cfg ctx (render services.evaluate_expression (get_or cfg "run" (str "")) ctx) w

  -- `{key: evaluate_expression(value) ...}`
  evaluate_fields : StepContext → Fields → Result Fields
  evaluate_fields ctx end = ok end
  evaluate_fields ctx (field k v rest) = services.evaluate_expression v ctx >>= λ w.
      evaluate_fields ctx rest >>= λ ws. ok (field k w ws)

  evaluate_input : StepContext → Value → Result Fields
  unfolding evaluate_fields
  evaluate_input ctx (dict fs) = evaluate_fields ctx fs
  evaluate_input ctx _ = err attribute_error

  command_dispatch :
      Fields → StepContext → Value → Value → Fields → Fields → Option String → W → Reply × W
  command_dispatch cfg ctx integration model input options none w = (Reply.raised unmodelled, w)
  command_dispatch cfg ctx integration model input options (some args) w =
      let command = get_or cfg "command" (str "") in
      let (r, w') =
        (if truthy integration
          then services.run_command command integration model args ctx.project_root w
          else no_dispatch w) in
      (
        Reply.returned (
            cli_result
              (field "command" command (
                field "integration" integration (
                  field "model" model
                    (field "options" (dict options) (field "input" (dict input) end)))))
              r),
        w',
      )

  prepare_command : Fields → StepContext → Result Prepared
  unfolding find evaluate_input merged_options
  prepare_command cfg ctx = evaluate_input ctx (get_or cfg "input" (dict end)) >>= λ input.
      render services.evaluate_expression
        (or_else (get_or cfg "integration" null) ctx.default_integration) ctx
      >>= λ integration.
          render services.evaluate_expression (or_else (get_or cfg "model" null) ctx.default_model)
            ctx
          >>= λ model.
              merged_options ctx.default_options (get_or cfg "options" (dict end)) >>= λ options.
              ok (prepared input integration model options)

  command_run : Fields → StepContext → Result Prepared → W → Reply × W
  unfolding command_dispatch no_dispatch
  command_run cfg ctx (err e) w = (Reply.raised e, w)
  command_run cfg ctx (ok (prepared input integration model options)) w =
      command_dispatch cfg ctx integration model input options
        (to_text (get_or input "args" (str ""))) w

  unfoldable pub command_step : StepImpl W
  unfolding command_run prepare_command
  command_step cfg ctx w = command_run cfg ctx (prepare_command cfg ctx) w

  prompt_dispatch : StepContext → String → Value → Value → W → Reply × W
  prompt_dispatch ctx prompt integration model w =
      let (r, w') =
        (if truthy integration && truthy (str prompt)
          then services.run_prompt prompt integration model ctx.project_root w
          else no_dispatch w) in
      (
        Reply.returned (
            cli_result
              (field "prompt" (str prompt)
                (field "integration" integration (field "model" model end)))
              r),
        w',
      )

  prompt_run : StepContext → Result (String × Value × Value) → W → Reply × W
  unfolding prompt_dispatch no_dispatch
  prompt_run ctx (err e) w = (Reply.raised e, w)
  prompt_run ctx (ok (prompt, integration, model)) w =
      prompt_dispatch ctx prompt integration model w

  prepare_prompt : Fields → StepContext → Result (String × Value × Value)
  unfolding find
  prepare_prompt cfg ctx = services.evaluate_expression (get_or cfg "prompt" (str "")) ctx >>= λ v.
      text_or_unmodelled v >>= λ prompt.
      render services.evaluate_expression
        (or_else (get_or cfg "integration" null) ctx.default_integration) ctx
      >>= λ integration.
          render services.evaluate_expression (or_else (get_or cfg "model" null) ctx.default_model)
            ctx
          >>= λ model. ok (prompt, integration, model)

  unfoldable pub prompt_step : StepImpl W
  unfolding prompt_run prepare_prompt
  prompt_step cfg ctx w = prompt_run ctx (prepare_prompt cfg ctx) w

  -- A step that leaves the world alone.
  abbrev pub pure_step : (Fields → StepContext → Result StepResult) → StepImpl W
  pure_step step cfg ctx w = (reply_of (step cfg ctx), w)

  -- `STEP_REGISTRY` with the built-in steps.
  unfoldable pub builtin_registry : String → Option (StepImpl W)
  builtin_registry t =
      let evaluate = services.evaluate_expression in
      if t == "command"
      then some command_step
      else if t == "do-while"
      then some (pure_step do_while_step)
      else if t == "fan-in"
      then some (pure_step (fan_in_step evaluate))
      else if t == "fan-out"
      then some (pure_step (fan_out_step evaluate))
      else if t == "gate"
      then some gate_step
      else if t == "if"
      then some (pure_step (if_step evaluate))
      else if t == "init"
      then some (init_step services)
      else if t == "prompt"
      then some prompt_step
      else if t == "shell"
      then some shell_step
      else if t == "switch"
      then some (pure_step (switch_step evaluate))
      else if t == "while"
      then some (pure_step (while_step evaluate))
      else none

  abbrev pub builtin_host : Host W
  builtin_host = record {
    registry = builtin_registry;
    evaluate_condition = evaluate_condition services.evaluate_expression;
  }
