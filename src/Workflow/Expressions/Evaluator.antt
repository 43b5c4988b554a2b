-- ===== src/Workflow/Expressions/Evaluator.antt =====
-- The evaluator as the steps call it, and what a step makes of a template that names an input.
use alharistech_platform.Base.{
  all_chars, IsSome, String, ◌<>◌, true, false, Option, none, some, ◌≡◌, refl, if◌then◌else◌, arith,
}
use alharistech_platform.Value.{Value, null, bool, str, list, nil, Fields, end, field, get_or}
use alharistech_platform.Workflow.Model.{StepContext, Result, ok}
use alharistech_platform.Workflow.Steps.{completed, condition_value, evaluate_condition, if_step}
use alharistech_platform.Workflow.Expressions.Paths.{is_key_char}
use alharistech_platform.Workflow.Expressions.Template.{evaluate_expression}
use alharistech_platform.Workflow.Expressions.Total.{evaluate_expression-IsSome}
use alharistech_platform.Workflow.Expressions.Variables.{evaluate_expression-input}

abbrev value_of : {A : Type 0} (o : Option A) → IsSome o → A
value_of none h = elim h [ ]
value_of (some a) h = a

-- `evaluate_expression`, which never runs out of fuel.
unfoldable pub evaluator : (String → Option Value) → Value → StepContext → Result Value
evaluator parse_json template ctx =
    value_of (evaluate_expression parse_json template ctx)
      (evaluate_expression-IsSome parse_json template ctx)

value_of-some : {A : Type 0} (o : Option A) (h : IsSome o) (a : A) → o ≡ some a → value_of o h ≡ a
value_of-some none h a e = elim h [ ]
value_of-some (some b) h a e = ground (arith, e)

evaluator-input :
    (parse_json : String → Option Value) (ctx : StepContext) (name : String)
    → all_chars is_key_char name ≡ true
    → evaluator parse_json (str ("{{ inputs." <> name <> " }}")) ctx
      ≡ ok (get_or ctx.inputs name null)
unfolding evaluator
evaluator-input parse_json ctx name h =
    value_of-some _ _ _ (evaluate_expression-input parse_json ctx name h)

-- An `if` step whose condition is `{{ inputs.<name> }}`, for a name of letters, digits, "_" and "-",
-- takes the steps under `then` where the input is true as a condition, and those under `else` where it
-- is not.
pub if_step-input :
    (parse_json : String → Option Value) (cfg : Fields) (ctx : StepContext) (name : String)
    → all_chars is_key_char name ≡ true
    → get_or cfg "condition" (bool false) ≡ str ("{{ inputs." <> name <> " }}")
    → let result = condition_value (get_or ctx.inputs name null) in
      if_step (evaluator parse_json) cfg ctx
      ≡ ok (
          completed
            (field "condition_result" (bool result) end)
            (if result then get_or cfg "then" (list nil) else get_or cfg "else" (list nil)))
unfolding if_step evaluate_condition
if_step-input parse_json cfg ctx name h e = rw (e, evaluator-input parse_json ctx name h) refl
