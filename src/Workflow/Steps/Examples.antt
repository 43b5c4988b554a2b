-- ===== src/Workflow/Steps/Examples.antt =====
-- The theorems on failed steps, gates and inputs at concrete inputs.
use alharistech_platform.Base.{
  String, ℕ, true, false, ◌≡◌, refl, none, some, List, [], ◌∷◌, string_eq,
}
use alharistech_platform.Value.{
  ℤ, Value, null, bool, int, str, list, Items, nil, cons, Fields, end, field, truthy, find, get_or,
}
use alharistech_platform.Value.Compare.{has_item}
use alharistech_platform.Workflow.Model.{StepStatus, StepResult, Reply, ok}
use alharistech_platform.Workflow.Inputs.{
  coerce_input, coerce_type, coerce_boolean, check_enum, lowers_to,
}
use alharistech_platform.Workflow.Inputs.Coerced.{is_of_type, is_allowed, coerce_input-is_of_type}
use alharistech_platform.Workflow.Engine.{conclude, execute_steps}
use alharistech_platform.Workflow.Engine.Effects.{Action, stop}
use alharistech_platform.Workflow.Engine.Failure.{recorded_step, aborted_by}
use alharistech_platform.Workflow.Steps.Init.{init_step, init_output, engine_only}
use alharistech_platform.Workflow.Steps.{ended_with, completed}
use alharistech_platform.Workflow.Steps.External.{gate_result}
use alharistech_platform.Workflow.Steps.External.Gate.{gate_result-aborts}
use alharistech_platform.Workflow.Demo

abbrev nested : Items → Action Value ℕ
nested body = execute_steps Demo.host 4 body none

-- A failed shell step that may fail.
abbrev lenient : Fields
lenient = field "continue_on_error" (bool true) end

abbrev failure : StepResult
failure = ended_with StepStatus.failed (field "exit_code" (int (ℤ.pos 2)) end) (str "exit code 2")

gate_result-aborts_example :
    conclude Demo.host nested lenient "review"
      (str "gate")
      (Reply.returned (gate_result (str "Ship?") (list nil) (str "abort") null (str "reject")))
      Demo.machine
    ≡ some (
      stop,
      aborted_by "review" (gate_result (str "Ship?") (list nil) (str "abort") null (str "reject")) (
          recorded_step lenient "review"
            (gate_result (str "Ship?") (list nil) (str "abort") null (str "reject"))
            Demo.machine),
    )
unfolding string_eq
gate_result-aborts_example =
    gate_result-aborts Demo.host nested lenient "review" (str "gate") (str "Ship?") (list nil) null
      (str "reject") Demo.machine refl

-- A boolean input, of two allowed values.
abbrev switch_input : Fields
switch_input =
    field "type" (str "boolean")
      (field "enum" (list (cons (bool false) (cons (bool true) nil))) end)

coerced : coerce_input (str "YES") switch_input ≡ ok (bool true)
unfolding coerce_input coerce_type coerce_boolean check_enum find string_eq lowers_to has_item
coerced = refl

coerce_input-is_of_type_example :
    (is_of_type (get_or switch_input "type" (str "string")) (bool true) ≡ true)
    × (is_allowed (get_or switch_input "enum" null) (bool true) ≡ true)
coerce_input-is_of_type_example =
    coerce_input-is_of_type (str "YES") (bool true) switch_input coerced

-- An init step in a directory that holds only the engine's files, which `--force` is added for.
abbrev init_here : Fields
init_here = field "id" (str "setup") (field "type" (str "init") (field "here" (str " Yes ") end))

abbrev init_words : List String
init_words =
    "init" ∷ "--here" ∷ "--integration" ∷ "copilot" ∷ "--ignore-agent-tools" ∷ "--force" ∷ []

initialized : init_step Demo.services init_here Demo.context 0 ≡ (
  Reply.returned (
      completed
        (init_output
          (record {
            project = null;
            here = true;
            integration = str "copilot";
            integration_options = null;
            script = null;
            preset = null;
            force = true;
            ignore_agent_tools = true;
          })
          init_words
          (ℤ.pos 0)
          "done"
          "")
        (list nil)),
  1,
)
unfolding init_step alharistech_platform.Workflow.Steps.render string_eq
    alharistech_platform.Value.to_text
initialized = refl

not_empty : engine_only ((".specify", true) ∷ ("README.md", false) ∷ []) false ≡ none
unfolding engine_only string_eq
not_empty = refl
