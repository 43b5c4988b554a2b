-- ===== src/Workflow/Validation/Total.antt =====
-- The fuel of `_validate_steps`.
use alharistech_platform.Base.{
  ℕ, zero, suc, ◌≤◌, ◌<◌, String, Bool, true, false, ◌≡◌, refl, Option, none, some, List, [], ◌++◌,
  arith, contains, ◌==◌, string_eq, if◌then◌else◌,
}
use alharistech_platform.Base.Dict.{Dict}
use alharistech_platform.Value.{
  Value, null, bool, int, str, list, dict, Items, nil, cons, Fields, end, field, truthy, find,
  get_or, or_default,
}
use alharistech_platform.Value.Depth.{depth, depth_items, depth_fields, depth-find}
use alharistech_platform.Workflow.Model.{Result, ok, err}
use alharistech_platform.Workflow.Definition.{Definition}
use alharistech_platform.Workflow.Steps.Validate.{Validator, StepProblem}
use alharistech_platform.Workflow.Validation.{
  Problem, Ledger, Check, going, raised, out_of_fuel, ◌⨟◌, report, in_steps, valid_step_types,
  continue_problems, problems_of_type, check_value, check_cases, check_switch, check_template,
  check_nested, check_typed, check_type, check_identified, check_id, check_step, check_all,
  validate_steps, steps_check, head_problems, validate_workflow,
}

-- The fuel has not run out.
abbrev pub HasEnded : Check → Type 0
HasEnded out_of_fuel = ⊥
HasEnded _ = Unit

abbrev Ends : (Ledger → Check) → Type 0
Ends f = (l : Ledger) → HasEnded (f l)

Ends-seq : (f g : Ledger → Check) → Ends f → Ends g → Ends (λ l. f l ⨟ g)
Ends-seq f g hf hg l = bound (f l) (hf l)
  where
    bound : (c : Check) → HasEnded c → HasEnded (c ⨟ g)
    bound (going m) h = hg m
    bound (raised e) h = tt
    bound out_of_fuel h = h

Ends-if : (b : Bool) (f g : Ledger → Check) → Ends f → Ends g → Ends (λ l. if b then f l else g l)
Ends-if true f g hf hg = hf
Ends-if false f g hf hg = hg

depth-get_or : (cfg : Fields) (k : String) → depth (get_or cfg k null) ≤ depth_fields cfg
unfolding depth
depth-get_or cfg k = by_found (find cfg k) refl
  where
    by_found : (o : Option Value) → find cfg k ≡ o → depth (or_default o null) ≤ depth_fields cfg
    by_found none e = omega arith
    by_found (some v) e = depth-find cfg k v e

module _ (registry : Dict String Validator) (n : ℕ) (check : Items → Ledger → Check)
    (ends : (steps : Items) → depth_items steps < n → Ends (check steps)) where
  check_value-Ends : (v : Value) → depth v < n → Ends (check_value check v)
  unfolding depth
  check_value-Ends null h = λ l. tt
  check_value-Ends (bool b) h = λ l. tt
  check_value-Ends (int m) h = λ l. tt
  check_value-Ends (str s) h = λ l. tt
  check_value-Ends (dict fs) h = λ l. tt
  check_value-Ends (list xs) h = ends xs h

  check_cases-Ends : (cases : Fields) → depth_fields cases < n → Ends (check_cases check cases)
  unfolding check_cases depth
  check_cases-Ends end h = λ l. tt
  check_cases-Ends (field key v rest) h =
      Ends-seq (check_value check v) (check_cases check rest)
        (check_value-Ends v (omega (arith, h))) (check_cases-Ends rest (omega (arith, h)))

  check_switch-Ends : (v : Value) → depth v < n → Ends (check_switch check v)
  unfolding check_switch depth
  check_switch-Ends null h = λ l. tt
  check_switch-Ends (bool b) h = λ l. tt
  check_switch-Ends (int m) h = λ l. tt
  check_switch-Ends (str s) h = λ l. tt
  check_switch-Ends (list xs) h = λ l. tt
  check_switch-Ends (dict cases) h = check_cases-Ends cases (omega (arith, h))

  check_template-Ends : (v : Value) → depth v < n → Ends (check_template check v)
  unfolding depth
  check_template-Ends null h = λ l. tt
  check_template-Ends (bool b) h = λ l. tt
  check_template-Ends (int m) h = λ l. tt
  check_template-Ends (str s) h = λ l. tt
  check_template-Ends (list xs) h = λ l. tt
  check_template-Ends (dict t) h = λ l.
      own l (check (cons (dict t) nil) (record { seen = []; errors = [] }))
        (ends (cons (dict t) nil) (omega (arith, h)) _)
    where
      own :
          (l : Ledger) (c : Check) → HasEnded c → HasEnded (c ⨟ λ own. going (report own.errors l))
      own l (going m) h = tt
      own l (raised e) h = tt
      own l out_of_fuel h = h

  check_nested-Ends : (cfg : Fields) → depth_fields cfg < n → Ends (check_nested check cfg)
  unfolding check_nested
  check_nested-Ends cfg h =
      let v : String → Value = λ k. get_or cfg k null in
      let visit : String → Ledger → Check = λ k. check_value check (v k) in
      let bound : (k : String) → depth (v k) < n = λ k. omega (arith, h, depth-get_or cfg k) in
      let at : (k : String) → Ends (visit k) = λ k. check_value-Ends (v k) (bound k) in
      Ends-seq _ (check_template check (v "step"))
        (Ends-seq _ (visit "default")
          (Ends-seq _ (check_switch check (v "cases"))
            (Ends-seq _ (visit "steps")
              (Ends-seq (visit "then") (visit "else") (at "then") (at "else")) (at "steps"))
            (check_switch-Ends (v "cases") (bound "cases")))
          (at "default"))
        (check_template-Ends (v "step") (bound "step"))

  check_typed-Ends :
      (cfg : Fields) (id t : String)
      → depth_fields cfg < n
      → Ends (check_typed registry check cfg id t)
  unfolding check_typed
  check_typed-Ends cfg id t h l = by_problems (problems_of_type registry t cfg)
    where
      by_problems :
          (r : Result (List StepProblem))
          → HasEnded (elim r [
            | err e ↦ raised e
            | ok problems ↦ check_nested check cfg (
                report (in_steps problems ++ continue_problems id (find cfg "continue_on_error")) l)
          ])
      by_problems (err e) = tt
      by_problems (ok problems) = check_nested-Ends cfg h _

  check_type-Ends :
      (cfg : Fields) (id : String) (v : Value)
      → depth_fields cfg < n
      → Ends (check_type registry check cfg id v)
  unfolding check_type
  check_type-Ends cfg id (str t) h =
      Ends-if (contains (valid_step_types registry) t) _ _ (check_typed-Ends cfg id t h) (λ l. tt)
  check_type-Ends cfg id (list xs) h = λ l. tt
  check_type-Ends cfg id (dict fs) h = λ l. tt
  check_type-Ends cfg id null h = λ l. tt
  check_type-Ends cfg id (bool b) h = λ l. tt
  check_type-Ends cfg id (int m) h = λ l. tt

  check_identified-Ends :
      (cfg : Fields) (id : String)
      → depth_fields cfg < n
      → Ends (check_identified registry check cfg id)
  unfolding check_identified
  check_identified-Ends cfg id h l = check_type-Ends cfg id _ h _

  check_id-Ends :
      (cfg : Fields) (v : Value) → depth_fields cfg < n → Ends (check_id registry check cfg v)
  unfolding check_id
  check_id-Ends cfg (str id) h = Ends-if (id == "") _ _ (λ l. tt) (check_identified-Ends cfg id h)
  check_id-Ends cfg null h = λ l. tt
  check_id-Ends cfg (bool b) h = Ends-if b _ _ (λ l. tt) (λ l. tt)
  check_id-Ends cfg (int m) h = Ends-if (truthy (int m)) _ _ (λ l. tt) (λ l. tt)
  check_id-Ends cfg (list xs) h = Ends-if (truthy (list xs)) _ _ (λ l. tt) (λ l. tt)
  check_id-Ends cfg (dict fs) h = Ends-if (truthy (dict fs)) _ _ (λ l. tt) (λ l. tt)

  check_step-Ends : (step : Value) → depth step < suc n → Ends (check_step registry check step)
  unfolding check_step depth
  check_step-Ends (dict cfg) h = check_id-Ends cfg (get_or cfg "id" null) (omega (arith, h))
  check_step-Ends null h = λ l. tt
  check_step-Ends (bool b) h = λ l. tt
  check_step-Ends (int m) h = λ l. tt
  check_step-Ends (str s) h = λ l. tt
  check_step-Ends (list xs) h = λ l. tt

  check_all-Ends :
      (steps : Items) → depth_items steps < suc n → Ends (check_all registry check steps)
  unfolding check_all depth
  check_all-Ends nil h = λ l. tt
  check_all-Ends (cons step rest) h =
      Ends-seq (check_step registry check step) (check_all registry check rest)
        (check_step-Ends step (omega (arith, h))) (check_all-Ends rest (omega (arith, h)))

validate_steps-Ends :
    (registry : Dict String Validator) (fuel : ℕ) (steps : Items)
    → depth_items steps < fuel
    → Ends (validate_steps registry fuel steps)
unfolding validate_steps
validate_steps-Ends registry zero steps h = omega (arith, h)
validate_steps-Ends registry (suc fuel) steps h =
    check_all-Ends registry fuel (validate_steps registry fuel) (validate_steps-Ends registry fuel)
      steps h

steps_check-HasEnded :
    (registry : Dict String Validator) (v : Value) (errors : List Problem)
    → HasEnded (steps_check registry v errors)
unfolding steps_check
steps_check-HasEnded registry (list (cons x xs)) errors =
    validate_steps-Ends registry (suc (depth_items (cons x xs))) (cons x xs) (omega arith) _
steps_check-HasEnded registry (list nil) errors = tt
steps_check-HasEnded registry null errors = tt
steps_check-HasEnded registry (bool b) errors = tt
steps_check-HasEnded registry (int n) errors = tt
steps_check-HasEnded registry (str s) errors = tt
steps_check-HasEnded registry (dict fs) errors = tt

-- `validate_workflow` always ends, however deep the steps nest: with a list of errors, or with an
-- exception; the fuel that it gives itself is enough.
pub validate_workflow-HasEnded :
    (registry : Dict String Validator) (d : Definition) → HasEnded (validate_workflow registry d)
unfolding validate_workflow
validate_workflow-HasEnded registry d = by_head (head_problems d)
  where
    by_head :
        (r : Result (List Problem))
        → HasEnded (elim r [ err e ↦ raised e | ok errors ↦ steps_check registry d.steps errors ])
    by_head (err e) = tt
    by_head (ok errors) = steps_check-HasEnded registry d.steps errors
