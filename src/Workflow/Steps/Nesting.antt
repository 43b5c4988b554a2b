-- ===== src/Workflow/Steps/Nesting.antt =====
-- The depth of the nested steps and templates that the steps of Workflow/Steps return.
use alharistech_platform.Base.{
  suc, ◌≤◌, String, ◌≡◌, refl, Bool, true, false, Option, none, some, arith, string_eq,
  if◌then◌else◌,
}
use alharistech_platform.Value.{
  Value, null, bool, int, str, list, dict, Items, nil, Fields, end, field, truthy, find, get_or,
  or_else, or_default,
}
use alharistech_platform.Value.Depth.{depth, depth_fields, depth-find}
use alharistech_platform.Workflow.Model.{StepContext, StepResult, Result, ok, err, ◌>>=◌, Reply}
use alharistech_platform.Workflow.Engine.Terminates.{Shrinks}
use alharistech_platform.Workflow.Steps.{
  completed, reply_of, if_step, while_step, do_while_step, switch_step, switch_on, matching_case,
  fan_out_step, fan_out_result, fan_in_step, fan_in_output, render_fields, evaluate_condition,
  switch_text, collect_outputs, elements_of, mapping_or_empty,
}

depth-get_or :
    (cfg : Fields) (k : String) (d : Value)
    → depth d ≤ 0
    → depth (get_or cfg k d) ≤ depth_fields cfg
depth-get_or cfg k d h = found (find cfg k) refl
  where
    found : (o : Option Value) → find cfg k ≡ o → depth (or_default o d) ≤ depth_fields cfg
    found none e = omega arith
    found (some v) e = depth-find cfg k v e

-- The nested steps are no deeper than the configuration.
abbrev pub Bounded : Fields → Reply → Type 0
Bounded cfg (Reply.returned r) = depth r.next_steps ≤ depth_fields cfg
Bounded cfg _ = Unit

pub Bounded-bind {ℓ} :
    {A : Type ℓ} (cfg : Fields) (o : Result A) (k : A → Result StepResult)
    → ((a : A) → o ≡ ok a → Bounded cfg (reply_of (k a)))
    → Bounded cfg (reply_of (o >>= k))
Bounded-bind cfg (ok a) k h = h a refl
Bounded-bind cfg (err e) k h = tt

pub no_steps : (cfg : Fields) → depth (list nil) ≤ depth_fields cfg
unfolding depth
no_steps cfg = omega arith

-- A choice between small results.
module _ (cfg : Fields) where
  pub Bounded-if :
      (b : Bool) (x y : StepResult)
      → Bounded cfg (Reply.returned x)
      → Bounded cfg (Reply.returned y)
      → Bounded cfg (Reply.returned (if b then x else y))
  Bounded-if true x y hx hy = hx
  Bounded-if false x y hx hy = hy

  pub Bounded-if_world :
      {W : Type 0} (b : Bool) (x y : Reply × W)
      → Bounded cfg x.0
      → Bounded cfg y.0
      → Bounded cfg (if◌then◌else◌ {A = Reply × W} b x y).0
  Bounded-if_world true x y hx hy = hx
  Bounded-if_world false x y hx hy = hy

module _ (evaluate : Value → StepContext → Result Value) (cfg : Fields) (ctx : StepContext) where
  pub Bounded-if_step : Bounded cfg (reply_of (if_step evaluate cfg ctx))
  unfolding if_step
  Bounded-if_step = Bounded-bind cfg (evaluate_condition evaluate _ ctx) _ (λ b _. branch b)
    where
      branch :
          (b : Bool)
          → depth (if b then get_or cfg "then" (list nil) else get_or cfg "else" (list nil))
            ≤ depth_fields cfg
      branch true = depth-get_or cfg "then" (list nil) (unfold depth in omega arith)
      branch false = depth-get_or cfg "else" (list nil) (unfold depth in omega arith)

  pub Bounded-while_step : Bounded cfg (reply_of (while_step evaluate cfg ctx))
  unfolding while_step
  Bounded-while_step = Bounded-bind cfg (evaluate_condition evaluate _ ctx) _ (λ b _. branch b)
    where
      branch :
          (b : Bool)
          → depth (if b then get_or cfg "steps" (list nil) else list nil) ≤ depth_fields cfg
      branch true = depth-get_or cfg "steps" (list nil) (unfold depth in omega arith)
      branch false = no_steps cfg

  pub Bounded-do_while_step : Bounded cfg (reply_of (do_while_step cfg ctx))
  unfolding do_while_step
  Bounded-do_while_step = depth-get_or cfg "steps" (list nil) (unfold depth in omega arith)

  depth-matching_case :
      (cases : Fields) (s : String) (v : Value)
      → matching_case cases s ≡ some v
      → depth v ≤ depth_fields cases
  unfolding matching_case depth
  depth-matching_case end s v e = ground arith
  depth-matching_case (field k w rest) s v e = ground (arith, depth-matching_case rest s v)

  shallower :
      (cases : Fields)
      → depth (dict cases) ≤ suc (depth_fields cfg)
      → depth_fields cases ≤ depth_fields cfg
  unfolding depth
  shallower cases h = omega arith

  pub Bounded-switch_on :
      (v cases : Value) (t : Option String)
      → depth cases ≤ suc (depth_fields cfg)
      → Bounded cfg (reply_of (switch_on cfg v cases t))
  unfolding switch_on
  Bounded-switch_on v (dict cases) (some t) h = chosen (matching_case cases t) refl
    where
      chosen :
          (o : Option Value)
          → matching_case cases t ≡ o
          → Bounded cfg (
              reply_of (elim o [
                | some steps ↦ ok (
                    completed (field "matched_case" (str t) (field "expression_value" v end)) steps)
                | none ↦ ok (
                    completed
                      (field "matched_case" (str "__default__") (field "expression_value" v end))
                      (get_or cfg "default" (list nil)))
              ]))
      chosen none e = depth-get_or cfg "default" (list nil) (unfold depth in omega arith)
      chosen (some steps) e = omega (arith, depth-matching_case cases t steps e, shallower cases h)
  Bounded-switch_on v cases none h = tt
  Bounded-switch_on v _ (some t) h = tt

  depth-cases : depth (get_or cfg "cases" (dict end)) ≤ suc (depth_fields cfg)
  unfolding depth
  depth-cases = found (find cfg "cases") refl
    where
      found :
          (o : Option Value)
          → find cfg "cases" ≡ o
          → depth (or_default o (dict end)) ≤ suc (depth_fields cfg)
      found none e = omega arith
      found (some v) e = omega (arith, depth-find cfg "cases" v e)

  pub Bounded-switch_step : Bounded cfg (reply_of (switch_step evaluate cfg ctx))
  unfolding switch_step
  Bounded-switch_step =
      Bounded-bind cfg (evaluate _ ctx) _
        (λ v _. Bounded-switch_on v (get_or cfg "cases" (dict end)) (switch_text v) depth-cases)

  pub Bounded-fan_out_step : Bounded cfg (reply_of (fan_out_step evaluate cfg ctx))
  unfolding fan_out_step fan_out_result
  Bounded-fan_out_step = Bounded-bind cfg (evaluate _ ctx) _ (λ v _. by_value v)
    where
      by_value : (v : Value) → Bounded cfg (reply_of (fan_out_result cfg v))
      by_value null = no_steps cfg
      by_value (bool b) = no_steps cfg
      by_value (int n) = no_steps cfg
      by_value (str s) = no_steps cfg
      by_value (list xs) = no_steps cfg
      by_value (dict fs) = no_steps cfg

  pub Bounded-fan_in_output :
      (results : Items) → Bounded cfg (reply_of (fan_in_output evaluate cfg ctx results))
  unfolding fan_in_output
  Bounded-fan_in_output results =
      Bounded-bind cfg
        (render_fields evaluate (record ctx { fan_in = dict (field "results" (list results) end) })
          (field "results" (list results) end)
          (mapping_or_empty (or_else (get_or cfg "output" null) (dict end))))
        (λ output. ok (completed output (list nil))) (λ output _. no_steps cfg)

  pub Bounded-fan_in_step : Bounded cfg (reply_of (fan_in_step evaluate cfg ctx))
  unfolding fan_in_step
  Bounded-fan_in_step =
      Bounded-bind cfg (elements_of (get_or cfg "wait_for" (list nil)))
        (λ ids. collect_outputs ctx ids >>= fan_in_output evaluate cfg ctx)
        (λ ids _.
          Bounded-bind cfg (collect_outputs ctx ids) (fan_in_output evaluate cfg ctx)
            (λ results _. Bounded-fan_in_output results))

  depth-template :
      truthy (get_or cfg "step" (dict end)) ≡ true
      → depth (get_or cfg "step" (dict end)) ≤ depth_fields cfg
  depth-template h = found (find cfg "step") refl
    where
      found :
          (o : Option Value)
          → find cfg "step" ≡ o
          → depth (or_default o (dict end)) ≤ depth_fields cfg
      found none e = ground (arith, e)
      found (some v) e = depth-find cfg "step" v e

  pub Shrinks-fan_out_result :
      (v : Value) → Shrinks (str "fan-out") cfg (reply_of (fan_out_result cfg v))
  unfolding fan_out_result find string_eq
  Shrinks-fan_out_result null = (no_steps cfg, λ _ h. depth-template h)
  Shrinks-fan_out_result (bool b) = (no_steps cfg, λ _ h. depth-template h)
  Shrinks-fan_out_result (int n) = (no_steps cfg, λ _ h. depth-template h)
  Shrinks-fan_out_result (str s) = (no_steps cfg, λ _ h. depth-template h)
  Shrinks-fan_out_result (list xs) = (no_steps cfg, λ _ h. depth-template h)
  Shrinks-fan_out_result (dict fs) = (no_steps cfg, λ _ h. depth-template h)

  pub Shrinks-fan_out_step : Shrinks (str "fan-out") cfg (reply_of (fan_out_step evaluate cfg ctx))
  unfolding fan_out_step
  Shrinks-fan_out_step = evaluated (evaluate (get_or cfg "items" (str "[]")) ctx)
    where
      evaluated :
          (o : Result Value) → Shrinks (str "fan-out") cfg (reply_of (o >>= fan_out_result cfg))
      evaluated (ok v) = Shrinks-fan_out_result v
      evaluated (err e) = tt
