-- ===== src/Workflow/Steps.antt =====
-- The built-in step types, workflows/steps/: `if`, `switch`, `while`, `do-while`, `fan-out`, `fan-in`,
-- `gate`, `shell`, `command`, `prompt` and `init`; and `evaluate_condition` of workflows/expressions.py. The
-- evaluator of expressions and what lies outside the program are parameters.
pub mod Init
pub mod External
pub mod Validate
pub mod Nesting
mod Examples
use text.Mathlib.Text.{find?}
use alharistech_platform.Base.{
  ℕ, zero, suc, String, Bool, true, false, not, ◌&&◌, ◌||◌, Option, none, some, List, ◌==◌,
  string_eq, if◌then◌else◌,
}
use alharistech_platform.Base.Dict
use alharistech_platform.Value.{
  ℤ, Value, null, bool, int, str, list, dict, Items, nil, cons, Fields, end, field, truthy, or_else,
  find, get_or, set, merge, append_item, count_items, to_text,
}
use alharistech_platform.Workflow.Model.{
  StepStatus, StepContext, StepResult, Exn, attribute_error, type_error, unmodelled, Result, ok,
  err, ◌>>=◌, Reply, StepImpl,
}
use alharistech_platform.Workflow.Inputs.{lowers_to}
use alharistech_platform.Workflow.Engine.{output_of}

-- How a shell command ends: `not_started` is an OSError, and `broke` an exception that is neither that
-- nor a timeout, such as output that cannot be decoded.
pub data ShellOutcome : Type 0 where
  exited : ℤ → String → String → ShellOutcome
  timed_out : ShellOutcome
  not_started : String → ShellOutcome
  broke : Exn → ShellOutcome

-- What an integration's command line gives back.
pub record CliResult : Type 0 where
  pub exit_code : ℤ
  pub stdout : Value
  pub stderr : Value

-- What `CliRunner.invoke` gives back. `stderr` is `none` where it is mixed into the output; the
-- exception is its type and its text.
pub record InvokeResult : Type 0 where
  pub exit_code : ℤ
  pub output : String
  pub stderr : Option String
  pub exception : Option String

-- The evaluator, `json.loads`, and the actions on the world: the terminal of a gate, the shell, the
-- integrations' command lines (`none`: it cannot be dispatched), the working directory, the entries of
-- a directory, each with whether it is one itself (`none`: an OSError), whether `os.chdir` enters a
-- directory, and the program's own command line, run with arguments in a directory.
pub record Services (W : Type 0) : Type 0 where
  pub evaluate_expression : Value → StepContext → Result Value
  pub parse_json : String → Option Value
  pub is_tty : W → Bool
  pub ask : Value → Value → Value → W → Value × W
  pub run_shell : String → String → W → ShellOutcome × W
  pub run_command : Value → Value → Value → String → String → W → Option CliResult × W
  pub run_prompt : String → Value → Value → String → W → Option CliResult × W
  pub current_directory : W → String
  pub scan_directory : String → W → Option (List (String × Bool))
  pub can_enter : String → W → Bool
  pub invoke_init : List String → String → W → InvokeResult × W

-- A finished step with an output, nested steps and no error.
abbrev pub completed : Fields → Value → StepResult
completed output next_steps = record {
  status = StepStatus.completed;
  output = output;
  next_steps = next_steps;
  error = null;
}

abbrev pub ended_with : StepStatus → Fields → Value → StepResult
ended_with st output error = record {
  status = st;
  output = output;
  next_steps = list nil;
  error = error;
}

abbrev pub reply_of : Result StepResult → Reply
reply_of (ok r) = Reply.returned r
reply_of (err e) = Reply.raised e

abbrev pub has_template : String → Bool
has_template s = elim (find? s "{{") [ none ↦ false | some _ ↦ true ]

-- `bool(result)`, with "true" and "false" in any letter case read as booleans
unfoldable pub condition_value : Value → Bool
unfolding lowers_to
condition_value (str s) =
    if lowers_to s "false" then false else if lowers_to s "true" then true else truthy (str s)
condition_value v = truthy v

abbrev pub max_or_default : Fields → Value
max_or_default cfg = elim (get_or cfg "max_iterations" null) [ null ↦ int (ℤ.pos 10) | v ↦ v ]

unfoldable pub do_while_step : Fields → StepContext → Result StepResult
unfolding find
do_while_step cfg ctx = ok (
    completed
      (field "condition" (get_or cfg "condition" (str "false"))
        (field "max_iterations" (max_or_default cfg) (field "loop_type" (str "do-while") end)))
      (get_or cfg "steps" (list nil)))

-- `str(value) if value is not None else ""`
abbrev pub switch_text : Value → Option String
switch_text null = some ""
switch_text v = to_text v

-- The steps of the first case whose key is the text.
unfoldable pub matching_case : Fields → String → Option Value
matching_case end s = none
matching_case (field key steps rest) s = if key == s then some steps else matching_case rest s

abbrev pub switch_result : String → Value → Value → StepResult
switch_result matched v steps =
    completed (field "matched_case" (str matched) (field "expression_value" v end)) steps

unfoldable pub switch_on : Fields → Value → Value → Option String → Result StepResult
unfolding find matching_case
switch_on cfg v cases none = err unmodelled
switch_on cfg v (dict cases) (some text) = elim (matching_case cases text) [
  | some steps ↦ ok (switch_result text v steps)
  | none ↦ ok (switch_result "__default__" v (get_or cfg "default" (list nil)))
]
switch_on cfg v _ (some text) = err attribute_error

unfoldable pub fan_out_result : Fields → Value → Result StepResult
unfolding find count_items
fan_out_result cfg (list items) = ok (
    completed
      (field "items" (list items) (
        field "max_concurrency" (get_or cfg "max_concurrency" (int (ℤ.pos 1))) (
          field "step_template" (get_or cfg "step" (dict end))
            (field "item_count" (int (ℤ.pos (count_items items))) end))))
      (list nil))
fan_out_result cfg _ = ok (
    ended_with StepStatus.failed
      (field "items" (list nil) (
        field "max_concurrency" (get_or cfg "max_concurrency" (int (ℤ.pos 1))) (
          field "step_template" (get_or cfg "step" (dict end))
            (field "item_count" (int (ℤ.pos 0)) end))))
      (str "'items' must resolve to a list"))

-- The outputs of the steps that a fan-in names; a name that is no text finds nothing, or raises.
unfoldable pub collect_outputs : StepContext → Items → Result Items
unfolding output_of
collect_outputs ctx nil = ok nil
collect_outputs ctx (cons (str id) rest) =
    collect_outputs ctx rest >>= λ os. ok (cons (output_of ctx id) os)
collect_outputs ctx (cons (list xs) rest) = err type_error
collect_outputs ctx (cons (dict fs) rest) = err type_error
collect_outputs ctx (cons _ rest) = collect_outputs ctx rest >>= λ os. ok (cons (dict end) os)

abbrev pub elements_of : Value → Result Items
elements_of (list xs) = ok xs
elements_of (str s) = err unmodelled
elements_of (dict fs) = err unmodelled
elements_of _ = err type_error

-- A dict, or an empty one: `config.get(k) or {}` with `{}` in place of another value.
abbrev pub mapping_or_empty : Value → Fields
mapping_or_empty (dict fs) = fs
mapping_or_empty _ = end

module _ (evaluate_expression : Value → StepContext → Result Value) where
  unfoldable pub evaluate_condition : Value → StepContext → Result Bool
  unfolding condition_value
  evaluate_condition condition ctx =
      evaluate_expression condition ctx >>= λ v. ok (condition_value v)

  -- A text with a template in it is evaluated; any other value stands for itself.
  unfoldable pub render : Value → StepContext → Result Value
  render (str s) ctx = if has_template s then evaluate_expression (str s) ctx else ok (str s)
  render v ctx = ok v

  unfoldable pub if_step : Fields → StepContext → Result StepResult
  unfolding find
  if_step cfg ctx = evaluate_condition (get_or cfg "condition" (bool false)) ctx >>= λ result. ok (
      completed (field "condition_result" (bool result) end)
        (if result then get_or cfg "then" (list nil) else get_or cfg "else" (list nil)))

  unfoldable pub while_step : Fields → StepContext → Result StepResult
  unfolding find
  while_step cfg ctx = evaluate_condition (get_or cfg "condition" (bool false)) ctx >>= λ result.
      ok (
        completed
          (field "condition_result" (bool result)
            (field "max_iterations" (max_or_default cfg) (field "loop_type" (str "while") end)))
          (if result then get_or cfg "steps" (list nil) else list nil))

  unfoldable pub switch_step : Fields → StepContext → Result StepResult
  unfolding find switch_on
  switch_step cfg ctx = evaluate_expression (get_or cfg "expression" (str "")) ctx >>= λ v.
      switch_on cfg v (get_or cfg "cases" (dict end)) (switch_text v)

  unfoldable pub fan_out_step : Fields → StepContext → Result StepResult
  unfolding find fan_out_result
  fan_out_step cfg ctx =
      evaluate_expression (get_or cfg "items" (str "[]")) ctx >>= fan_out_result cfg

  -- The output entries of a fan-in, evaluated with its results in the context.
  render_fields : StepContext → Fields → Fields → Result Fields
  unfolding render set
  render_fields ctx acc end = ok acc
  render_fields ctx acc (field k v rest) =
      render v ctx >>= λ w. render_fields ctx (set acc k w) rest

  -- `_evaluate_output` of a fan-in
  unfoldable pub fan_in_output : Fields → StepContext → Items → Result StepResult
  unfolding find render_fields
  fan_in_output cfg ctx results =
      render_fields (record ctx { fan_in = dict (field "results" (list results) end) })
        (field "results" (list results) end)
        (mapping_or_empty (or_else (get_or cfg "output" null) (dict end)))
      >>= λ output. ok (completed output (list nil))

  unfoldable pub fan_in_step : Fields → StepContext → Result StepResult
  unfolding find fan_in_output collect_outputs
  fan_in_step cfg ctx = elements_of (get_or cfg "wait_for" (list nil)) >>= λ ids.
      collect_outputs ctx ids >>= fan_in_output cfg ctx
