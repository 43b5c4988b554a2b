-- ===== src/Workflow/Validation/Sound.antt =====
-- What a workflow without problems is like.
use alharistech_platform.Base.{
  ℕ, zero, suc, String, Bool, true, false, ◌≡◌, refl, ap, subst, ◌∙◌, inl, inr, Option, none, some,
  List, [], ◌∷◌, ◌++◌, arith, contains, ◌==◌, string_eq,
}
use alharistech_platform.Base.Dict.{Dict}
use alharistech_platform.Value.{
  Value, null, bool, int, str, list, dict, Items, nil, cons, Fields, truthy, find, get_or,
}
use alharistech_platform.Value.Depth.{depth_items}
use alharistech_platform.Workflow.Model.{Result, ok, err}
use alharistech_platform.Workflow.Definition.{Definition}
use alharistech_platform.Workflow.Steps.Validate.{Validator, StepProblem, when}
use alharistech_platform.Workflow.Validation.Rules.{
  Shows, Static, Shows-map, Static-report, Static-fails, Static-if, Static-map, Static-seq,
  Static-going, append-nil_left, append-nil_right,
}
use alharistech_platform.Workflow.Validation.{
  Problem, Ledger, Check, going, raised, report, mark, in_steps, has_colon, valid_step_types,
  continue_problems, id_problems, problems_of_type, check_nested, check_typed, check_type,
  check_identified, check_id, check_step, check_all, validate_steps, reserved_colon, steps_check,
  head_problems, validate_workflow,
}
use alharistech_platform.Workflow.Validation.Below.{check_nested-Static}
use alharistech_platform.Workflow.Validation.Valid.{
  BelowValid, IsGood, Valid, no_more, one_more, ContinueIsBool,
}

pub when-nil : {A : Type 0} (b : Bool) (p : A) → when b p ≡ [] → b ≡ false
when-nil true p e = ground (arith, e)
when-nil false p e = refl

in_steps-nil : (ps : List StepProblem) → in_steps ps ≡ [] → ps ≡ []
in_steps-nil [] e = refl
in_steps-nil (p ∷ ps) e = ground (arith, e)

continue_problems-nil :
    (id : String) (o : Option Value) → continue_problems id o ≡ [] → ContinueIsBool o
continue_problems-nil id none e = inl refl
continue_problems-nil id (some (bool b)) e = inr (b, refl)
continue_problems-nil id (some null) e = ground (arith, e)
continue_problems-nil id (some (int n)) e = ground (arith, e)
continue_problems-nil id (some (str s)) e = ground (arith, e)
continue_problems-nil id (some (list xs)) e = ground (arith, e)
continue_problems-nil id (some (dict fs)) e = ground (arith, e)

module _ (registry : Dict String Validator) (check : Items → Ledger → Check)
    (sound : (steps : Items) → Static (Valid registry steps) (check steps)) where
  abbrev Typed : Fields → String → Type 0
  Typed cfg t =
      (problems_of_type registry t cfg ≡ ok [])
      × ContinueIsBool (find cfg "continue_on_error")
      × BelowValid registry cfg

  check_typed-Static :
      (cfg : Fields) (id t : String) → Static (Typed cfg t) (check_typed registry check cfg id t)
  unfolding check_typed
  check_typed-Static cfg id t = by_problems (problems_of_type registry t cfg) refl
    where
      by_problems :
          (r : Result (List StepProblem))
          → problems_of_type registry t cfg ≡ r
          → Static (Typed cfg t) (λ l. elim r [
            | err e ↦ raised e
            | ok problems ↦ check_nested check cfg (
                report (in_steps problems ++ continue_problems id (find cfg "continue_on_error")) l)
          ])
      by_problems (err e) same = λ l. tt
      by_problems (ok problems) same =
          let found = in_steps problems ++ continue_problems id (find cfg "continue_on_error") in
          Static-map
            (((problems ≡ []) × ContinueIsBool (find cfg "continue_on_error"))
              × BelowValid registry cfg)
            (Typed cfg t) (λ l. check_nested check cfg (report found l))
            (λ h. (same ∙ ap ok h.0.0, h.0.1, h.1))
            (Static-seq ((problems ≡ []) × ContinueIsBool (find cfg "continue_on_error"))
              (BelowValid registry cfg) (λ l. going (report found l)) (check_nested check cfg)
              (Static-report ((problems ≡ []) × ContinueIsBool (find cfg "continue_on_error")) found
                (λ e. (
                  in_steps-nil problems (append-nil_left (in_steps problems) _ e),
                  continue_problems-nil id _ (append-nil_right (in_steps problems) _ e),
                )))
              (check_nested-Static registry check sound cfg))

  -- What `check_type` finds of a step whose type is a value.
  abbrev TypeGood : Fields → Value → Type 0
  TypeGood cfg v =
      (t : String) × (v ≡ str t) × (contains (valid_step_types registry) t ≡ true) × Typed cfg t

  check_type-Static :
      (cfg : Fields) (id : String) (v : Value)
      → Static (TypeGood cfg v) (check_type registry check cfg id v)
  unfolding check_type
  check_type-Static cfg id (str t) =
      Static-if _ (contains (valid_step_types registry) t) _ _
        (λ known.
          Static-map _ _ (check_typed registry check cfg id t) (λ h. (t, refl, known, h))
            (check_typed-Static cfg id t))
        (λ unknown. Static-fails _ _)
  check_type-Static cfg id (list xs) = λ l. tt
  check_type-Static cfg id (dict fs) = λ l. tt
  check_type-Static cfg id null = Static-fails _ _
  check_type-Static cfg id (bool b) = Static-fails _ _
  check_type-Static cfg id (int n) = Static-fails _ _

  check_identified-Static :
      (cfg : Fields) (id : String)
      → Static
          ((has_colon id ≡ false) × TypeGood cfg (get_or cfg "type" (str "command")))
          (check_identified registry check cfg id)
  unfolding check_identified
  check_identified-Static cfg id =
      Static-seq (has_colon id ≡ false) _ (λ l. going (mark id (report (id_problems id l.seen) l)))
        _
        (λ l e. (
          append-nil_left l.errors _ e,
          when-nil (has_colon id) _ (
              append-nil_left (when (has_colon id) (reserved_colon id)) _
                (append-nil_right l.errors _ e)),
        ))
        (check_type-Static cfg id (get_or cfg "type" (str "command")))

  check_id-Static :
      (cfg : Fields) (v : Value)
      → get_or cfg "id" null ≡ v
      → Static (IsGood registry cfg × BelowValid registry cfg) (check_id registry check cfg v)
  unfolding check_id
  check_id-Static cfg (str id) same =
      Static-if _ (id == "") _ _ (λ e. Static-fails _ _)
        (λ filled.
          Static-map _ _ (check_identified registry check cfg id)
            (λ h. (
              record {
                id = id;
                id_is = same;
                id_filled = filled;
                id_plain = h.0;
                type = h.1.0;
                type_is = h.1.1;
                type_known = h.1.2;
                accepted = h.1.3.0;
                continue_is_bool = h.1.3.1;
              },
              h.1.3.2,
            ))
            (check_identified-Static cfg id))
  check_id-Static cfg null same = Static-fails _ _
  check_id-Static cfg (bool b) same = Static-if _ b _ _ (λ e l. tt) (λ e. Static-fails _ _)
  check_id-Static cfg (int n) same =
      Static-if _ (truthy (int n)) _ _ (λ e l. tt) (λ e. Static-fails _ _)
  check_id-Static cfg (list xs) same =
      Static-if _ (truthy (list xs)) _ _ (λ e l. tt) (λ e. Static-fails _ _)
  check_id-Static cfg (dict fs) same =
      Static-if _ (truthy (dict fs)) _ _ (λ e l. tt) (λ e. Static-fails _ _)

  check_step-Static :
      (step : Value) (rest : Items)
      → Static
          (Valid registry rest → Valid registry (cons step rest))
          (check_step registry check step)
  unfolding check_step
  check_step-Static (dict cfg) rest =
      Static-map _ _ (check_id registry check cfg (get_or cfg "id" null))
        (λ h valid. one_more cfg rest h.0 h.1 valid)
        (check_id-Static cfg (get_or cfg "id" null) refl)
  check_step-Static null rest = Static-fails _ _
  check_step-Static (bool b) rest = Static-fails _ _
  check_step-Static (int n) rest = Static-fails _ _
  check_step-Static (str s) rest = Static-fails _ _
  check_step-Static (list xs) rest = Static-fails _ _

  check_all-Static :
      (steps : Items) → Static (Valid registry steps) (check_all registry check steps)
  unfolding check_all
  check_all-Static nil = Static-going _ no_more
  check_all-Static (cons step rest) =
      Static-map _ _ (check_all registry check (cons step rest)) (λ h. h.0 h.1)
        (Static-seq _ _ (check_step registry check step) (check_all registry check rest)
          (check_step-Static step rest) (check_all-Static rest))

validate_steps-Static :
    (registry : Dict String Validator) (fuel : ℕ) (steps : Items)
    → Static (Valid registry steps) (validate_steps registry fuel steps)
unfolding validate_steps
validate_steps-Static registry zero steps = λ l. tt
validate_steps-Static registry (suc fuel) steps =
    check_all-Static registry (validate_steps registry fuel) (validate_steps-Static registry fuel)
      steps

-- What `steps` is worth to a workflow: a list of steps, at least one.
abbrev pub StepsValid : Dict String Validator → Value → Type 0
StepsValid registry v =
    (step : Value) × (rest : Items) × (v ≡ list (cons step rest)) × Valid registry (cons step rest)

steps_check-Shows :
    (registry : Dict String Validator) (v : Value) (errors : List Problem)
    → Shows (λ m. (errors ≡ []) × StepsValid registry v) (steps_check registry v errors)
unfolding steps_check
steps_check-Shows registry (list (cons x xs)) errors =
    Shows-map (λ m. (errors ≡ []) × Valid registry (cons x xs))
      (λ m. (errors ≡ []) × StepsValid registry (list (cons x xs)))
      (validate_steps registry (suc (depth_items (cons x xs))) (cons x xs)
        (record { seen = []; errors = errors }))
      (λ m h. (h.0, (x, xs, refl, h.1)))
      (validate_steps-Static registry (suc (depth_items (cons x xs))) (cons x xs)
        (record { seen = []; errors = errors }))
steps_check-Shows registry (list nil) errors = λ e. ground (arith, append-nil_right errors _ e)
steps_check-Shows registry null errors = λ e. ground (arith, append-nil_right errors _ e)
steps_check-Shows registry (bool b) errors = λ e. ground (arith, append-nil_right errors _ e)
steps_check-Shows registry (int n) errors = λ e. ground (arith, append-nil_right errors _ e)
steps_check-Shows registry (str s) errors = λ e. ground (arith, append-nil_right errors _ e)
steps_check-Shows registry (dict fs) errors = λ e. ground (arith, append-nil_right errors _ e)

-- The check of a definition ends without errors.
abbrev pub Passes : Check → Type 0
Passes c = (seen : List String) × (c ≡ going (record { seen = seen; errors = [] }))

pub validate_workflow-Shows :
    (registry : Dict String Validator) (d : Definition)
    → Shows
        (λ m. (head_problems d ≡ ok []) × StepsValid registry d.steps)
        (validate_workflow registry d)
unfolding validate_workflow
validate_workflow-Shows registry d = by_head (head_problems d) refl
  where
    by_head :
        (r : Result (List Problem))
        → head_problems d ≡ r
        → Shows
            (λ m. (head_problems d ≡ ok []) × StepsValid registry d.steps)
            (elim r [ err e ↦ raised e | ok errors ↦ steps_check registry d.steps errors ])
    by_head (err e) same = tt
    by_head (ok errors) same =
        Shows-map (λ m. (errors ≡ []) × StepsValid registry d.steps)
          (λ m. (head_problems d ≡ ok []) × StepsValid registry d.steps)
          (steps_check registry d.steps errors) (λ m h. (same ∙ ap ok h.0, h.1))
          (steps_check-Shows registry d.steps errors)

-- If `validate_workflow` finds no problem, `steps` is a list with at least one step, and every step,
-- however deep, has a text that is not empty and has no ":" as its id, a known type whose own
-- validation accepts it, and no `continue_on_error` but a boolean.
pub validate_workflow-Valid :
    (registry : Dict String Validator) (d : Definition)
    → Passes (validate_workflow registry d)
    → StepsValid registry d.steps
validate_workflow-Valid registry d passes =
    (subst (Shows (λ m. (head_problems d ≡ ok []) × StepsValid registry d.steps)) passes.1
      (validate_workflow-Shows registry d) refl).1
