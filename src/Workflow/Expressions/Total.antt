-- ===== src/Workflow/Expressions/Total.antt =====
-- The fuel of `_evaluate_simple_expression`: every text that it is called on is shorter.
use Prim.Native.String.{[] as empty_text, ◌∷◌ as ◌▸◌}
use alharistech_platform.Base.{
  ℕ, zero, suc, ◌+◌, ◌<◌, String, ◌<>◌, Option, none, some, IsSome, string_eq, arith,
}
use alharistech_platform.Base.Blank.{strip}
use alharistech_platform.Base.Blank.Sizes.{size-strip}
use alharistech_platform.Base.Split.{size}
use alharistech_platform.Value.{Value, null, bool, int, str, list, dict}
use alharistech_platform.Workflow.Model.{StepContext}
use alharistech_platform.Workflow.Expressions.Paths.{build_namespace}
use alharistech_platform.Workflow.Expressions.Simple.{
  Eval, ◌⟫◌, give, evaluate_simple, evaluate_simple_expression,
}
use alharistech_platform.Workflow.Expressions.Template.{
  substitute, evaluate_text, evaluate_expression, match_here, full_match, replacement,
}
use alharistech_platform.Workflow.Expressions.Runs.{runs-bind, runs-evaluate_stripped}

runs-evaluate_simple :
    (parse_json : String → Option Value) (namespace : Value) (fuel : ℕ) (expr : String)
    → size expr < fuel
    → IsSome (evaluate_simple parse_json namespace fuel expr)
unfolding evaluate_simple
runs-evaluate_simple parse_json namespace zero expr h = omega (arith, h)
runs-evaluate_simple parse_json namespace (suc fuel) expr h =
    runs-evaluate_stripped parse_json namespace fuel (evaluate_simple parse_json namespace fuel)
      (λ s k. runs-evaluate_simple parse_json namespace fuel s k) (strip expr)
      (omega (arith, h, size-strip expr))

module _ (evaluate : String → Eval Value) (runs : (s : String) → IsSome (evaluate s)) where
  runs-substitute : (skip : ℕ) (s : String) → IsSome (substitute evaluate skip s)
  unfolding substitute
  runs-substitute skip empty_text = tt
  runs-substitute (suc skip) (c ▸ s) = runs-substitute skip s
  runs-substitute zero (c ▸ s) = by_match (match_here (c ▸ s)) (λ skip. runs-substitute skip s)
    where
      by_match :
          (o : Option (String × String))
          → ((skip : ℕ) → IsSome (substitute evaluate skip s))
          → IsSome (elim o as (λ o. Eval String) [
            | none ↦ substitute evaluate zero s ⟫ λ t. give (c ▸ t)
            | some (inner, rest) ↦ evaluate (strip inner) ⟫ λ v. some (replacement v) ⟫ λ text.
                substitute evaluate (size inner + 3) s ⟫ λ t. give (text <> t)
          ])
      by_match none k = runs-bind (substitute evaluate 0 s) _ (k 0) (λ t. tt)
      by_match (some (inner, rest)) k =
          runs-bind (evaluate (strip inner)) _ (runs (strip inner)) (λ v.
            runs-bind (some (replacement v)) _ tt (λ text.
              runs-bind (substitute evaluate (size inner + 3) s) _ (k (size inner + 3)) (λ t. tt)))

  runs-evaluate_text : (template : String) → IsSome (evaluate_text evaluate template)
  unfolding evaluate_text
  runs-evaluate_text template = by_match (full_match (strip template))
    where
      by_match :
          (o : Option String)
          → IsSome (elim o as (λ o. Eval Value) [
            | some inner ↦ evaluate (strip inner)
            | none ↦ substitute evaluate 0 template ⟫ λ s. give (str s)
          ])
      by_match (some inner) = runs (strip inner)
      by_match none =
          runs-bind (substitute evaluate 0 template) _ (runs-substitute 0 template) (λ s. tt)

-- `evaluate_expression` always ends, on every template and in every context: the fuel that it gives
-- its recursion, one more than the length of the expression, is enough.
pub evaluate_expression-IsSome :
    (parse_json : String → Option Value) (template : Value) (ctx : StepContext)
    → IsSome (evaluate_expression parse_json template ctx)
unfolding evaluate_expression evaluate_simple_expression
evaluate_expression-IsSome parse_json (str s) ctx =
    runs-evaluate_text _
      (λ expr.
        runs-evaluate_simple parse_json (dict (build_namespace ctx)) (suc (size expr)) expr
          (omega arith))
      s
evaluate_expression-IsSome parse_json null ctx = tt
evaluate_expression-IsSome parse_json (bool b) ctx = tt
evaluate_expression-IsSome parse_json (int z) ctx = tt
evaluate_expression-IsSome parse_json (list xs) ctx = tt
evaluate_expression-IsSome parse_json (dict fs) ctx = tt
