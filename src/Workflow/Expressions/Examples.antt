-- ===== src/Workflow/Expressions/Examples.antt =====
-- What templates come to.
use alharistech_platform.Base.{
  all_chars, IsSome, if◌then◌else◌, ◌<>◌, true, false, ◌≡◌, refl, none, [], ◌∷◌, string_eq,
}
use alharistech_platform.Value.{
  ℤ, null, bool, int, str, list, dict, nil, cons, Fields, end, field, find, get_or,
}
use alharistech_platform.Workflow.Model.{StepContext, StepData, StepStatus, ok}
use alharistech_platform.Workflow.Expressions.Template.{evaluate_expression}
use alharistech_platform.Workflow.Expressions.Simple.{give}
use alharistech_platform.Workflow.Expressions.Filters.{follow}
use alharistech_platform.Workflow.Expressions.Paths.{is_key_char, value_at, resolve_dot_path}
use alharistech_platform.Workflow.Expressions.Total.{evaluate_expression-IsSome}
use alharistech_platform.Workflow.Expressions.Reference.{dotted, resolve_dot_path-follow}
use alharistech_platform.Workflow.Expressions.Variables.{
  evaluate_expression-input, evaluate_expression-output,
}
use alharistech_platform.Workflow.Expressions.Evaluator.{evaluator, if_step-input}
use alharistech_platform.Workflow.Engine.{output_of}
use alharistech_platform.Workflow.Steps.{completed, condition_value, if_step}

abbrev built_data : StepData
built_data = record {
  integration = null;
  model = null;
  options = null;
  input = null;
  output = field "count" (int (ℤ.pos 2)) end;
  status = StepStatus.completed;
}

abbrev context : StepContext
context = record {
  inputs = field "name" (str "demo") (
      field "count" (int (ℤ.pos 3))
        (field "files" (list (cons (str "a") (cons (str "b") nil))) end));
  steps = [];
  item = null;
  fan_in = null;
  default_integration = null;
  default_model = null;
  default_options = end;
  project_root = ".";
  run_id = "a1b2";
}

one : evaluate_expression (λ s. none) (str " {{ inputs.count }} ") context ≡ give (int (ℤ.pos 3))
unfolding evaluate_expression string_eq
one = refl

two :
    evaluate_expression (λ s. none) (str "{{ inputs.count > 2 and inputs.name == 'demo' }}") context
    ≡ give (bool true)
unfolding evaluate_expression string_eq
two = refl

three :
    evaluate_expression
      (λ s. none)
      (str "run {{ context.run_id }} of {{ inputs.files | join('+') }}!")
      context
    ≡ give (str "run a1b2 of a+b!")
unfolding evaluate_expression string_eq
three = refl

four : evaluate_expression (λ s. none) (str "{{ inputs.files[1] }}") context ≡ give (str "b")
unfolding evaluate_expression string_eq
four = refl

-- Two expressions at the two ends of a text are read as one, whose path leads nowhere.
five :
    evaluate_expression (λ s. none) (str "{{ inputs.name }}-{{ inputs.count }}") context ≡ give null
unfolding evaluate_expression string_eq
five = refl

-- A comparison of two quoted texts is read as one quoted text.
six : evaluate_expression (λ s. none) (str "{{ 'a' == 'b' }}") context ≡ give (str "a' == 'b")
unfolding evaluate_expression
six = refl

-- A second filter is read as a part of the argument of the first.
seven :
    evaluate_expression (λ s. none) (str "{{ inputs.files | join('+') | default('x') }}") context
    ≡ give (str "a+') | default('xb")
unfolding evaluate_expression string_eq
seven = refl

-- An operator inside quotes parts the expression.
eight :
    evaluate_expression
      (λ s. none)
      (str "{{ inputs.name == 'this or that' }}")
      (record context { inputs = field "name" (str "this or that") end })
    ≡ give (bool false)
unfolding evaluate_expression string_eq
eight = refl

file_key : all_chars is_key_char "count" ≡ true
unfolding is_key_char
file_key = refl

evaluate_expression-IsSome_example :
    IsSome (evaluate_expression (λ s. none) (str "{{ inputs.count }}") context)
evaluate_expression-IsSome_example =
    evaluate_expression-IsSome (λ s. none) (str "{{ inputs.count }}") context

evaluate_expression-input_example :
    evaluate_expression (λ s. none) (str ("{{ inputs." <> "count" <> " }}")) context
    ≡ give (get_or context.inputs "count" null)
evaluate_expression-input_example = evaluate_expression-input (λ s. none) context "count" file_key

abbrev built : StepContext
built = record context { steps = ("build", built_data) ∷ [] }

evaluate_expression-output_example :
    evaluate_expression
      (λ s. none)
      (str ("{{ steps." <> "build" <> ".output." <> "count" <> " }}"))
      built
    ≡ give (value_at (output_of built "build") "count")
unfolding is_key_char
evaluate_expression-output_example =
    evaluate_expression-output (λ s. none) built "build" "count" refl file_key

resolve_dot_path-follow_example :
    resolve_dot_path (dict context.inputs) (dotted "count" ("count" ∷ []))
    ≡ ok (follow ("count" ∷ "count" ∷ []) (dict context.inputs))
resolve_dot_path-follow_example =
    resolve_dot_path-follow (dict context.inputs) "count" ("count" ∷ []) (file_key, (file_key, tt))

abbrev choice : Fields
choice = field "condition" (str "{{ inputs.count }}") (field "then" (list nil) end)

if_step-input_example :
    if_step (evaluator (λ s. none)) choice context
    ≡ ok (
        completed
          (field "condition_result"
            (bool (condition_value (get_or context.inputs "count" null)))
            end)
          (if condition_value (get_or context.inputs "count" null)
            then get_or choice "then" (list nil)
            else get_or choice "else" (list nil)))
unfolding find string_eq
if_step-input_example = if_step-input (λ s. none) choice context "count" file_key refl
