-- ===== src/Workflow/Validation/Distinct.antt =====
-- The ids of the steps that `_validate_steps` comes across.
use alharistech_platform.Base.{
  ℕ, zero, suc, String, ◌≡◌, refl, subst, List, [], ◌∷◌, ◌++◌, contains, ◌==◌, string_eq,
}
use alharistech_platform.Base.Dict.{Dict}
use alharistech_platform.Value.{
  Value, null, bool, int, str, list, dict, Items, nil, cons, Fields, end, field, truthy, find,
  get_or,
}
use alharistech_platform.Value.Depth.{depth_items}
use alharistech_platform.Workflow.Model.{Result, ok, err}
use alharistech_platform.Workflow.Definition.{Definition}
use alharistech_platform.Workflow.Steps.Validate.{Validator, StepProblem, when}
use alharistech_platform.Workflow.Validation.{
  Problem, Ledger, Check, going, raised, out_of_fuel, ◌⨟◌, report, mark, in_steps, has_colon,
  valid_step_types, continue_problems, id_problems, problems_of_type, check_value, check_cases,
  check_switch, check_template, check_nested, check_typed, check_type, check_identified, check_id,
  check_step, check_all, validate_steps, reserved_colon, duplicate_id, steps_check, head_problems,
  validate_workflow,
}
use alharistech_platform.Workflow.Validation.Rules.{
  Shows, Sound, Shows-map, append-nil_left, append-nil_right,
}
use alharistech_platform.Workflow.Validation.Sound.{Passes, when-nil}
use alharistech_platform.Workflow.Validation.Ids.{
  AreDifferent, ids_below, ids_in_cases, ids_in_switch, ids_in_step, put_id, ids_of_step,
  ids_of_all, ids_within, Sees, Sound-then, Sound-still, Sound-noted, Sound-fails, Sound-if,
}

module _ (registry : Dict String Validator) (ids : Items → List String → List String)
    (check : Items → Ledger → Check)
    (sound : (steps : Items) → Sound (Sees (ids steps)) (check steps)) where
  check_value-Sound : (v : Value) → Sound (Sees (ids_below ids v)) (check_value check v)
  check_value-Sound null = Sound-still
  check_value-Sound (bool b) = Sound-still
  check_value-Sound (int n) = Sound-still
  check_value-Sound (str s) = Sound-still
  check_value-Sound (dict fs) = Sound-still
  check_value-Sound (list xs) = sound xs

  check_cases-Sound :
      (cases : Fields) → Sound (Sees (ids_in_cases ids cases)) (check_cases check cases)
  unfolding check_cases ids_in_cases
  check_cases-Sound end = Sound-still
  check_cases-Sound (field key v rest) =
      Sound-then (ids_below ids v) (ids_in_cases ids rest) (check_value check v)
        (check_cases check rest) (check_value-Sound v) (check_cases-Sound rest)

  check_switch-Sound : (v : Value) → Sound (Sees (ids_in_switch ids v)) (check_switch check v)
  unfolding check_switch ids_in_switch
  check_switch-Sound null = Sound-still
  check_switch-Sound (bool b) = Sound-still
  check_switch-Sound (int n) = Sound-still
  check_switch-Sound (str s) = Sound-still
  check_switch-Sound (list xs) = Sound-still
  check_switch-Sound (dict cases) = check_cases-Sound cases

  check_template-Sound : (v : Value) → Sound (Sees (λ acc. acc)) (check_template check v)
  check_template-Sound null = Sound-still
  check_template-Sound (bool b) = Sound-still
  check_template-Sound (int n) = Sound-still
  check_template-Sound (str s) = Sound-still
  check_template-Sound (list xs) = Sound-still
  check_template-Sound (dict t) =
      λ l. own l (check (cons (dict t) nil) (record { seen = []; errors = [] }))
    where
      own :
          (l : Ledger) (c : Check)
          → Shows
              (λ m. (l.errors ≡ []) × Sees (λ acc. acc) l m)
              (c ⨟ λ own. going (report own.errors l))
      own l (going m) = Sound-noted m.errors l
      own l (raised e) = tt
      own l out_of_fuel = tt

  check_nested-Sound : (cfg : Fields) → Sound (Sees (ids_in_step ids cfg)) (check_nested check cfg)
  unfolding check_nested ids_in_step
  check_nested-Sound cfg =
      let v : String → Value = λ k. get_or cfg k null in
      let below : String → List String → List String = λ k. ids_below ids (v k) in
      let visit : String → Ledger → Check = λ k. check_value check (v k) in
      let sound_at : (k : String) → Sound (Sees (below k)) (visit k) =
        λ k. check_value-Sound (v k) in
      Sound-then (ids_in_step ids cfg) (λ acc. acc) _ (check_template check (v "step"))
        (Sound-then _ (below "default") _ (visit "default")
          (Sound-then _ (ids_in_switch ids (v "cases")) _ (check_switch check (v "cases"))
            (Sound-then _ (below "steps") _ (visit "steps")
              (Sound-then (below "then") (below "else") (visit "then") (visit "else")
                (sound_at "then") (sound_at "else"))
              (sound_at "steps"))
            (check_switch-Sound (v "cases")))
          (sound_at "default"))
        (check_template-Sound (v "step"))

  check_typed-Sound :
      (cfg : Fields) (id t : String)
      → Sound (Sees (ids_in_step ids cfg)) (check_typed registry check cfg id t)
  unfolding check_typed
  check_typed-Sound cfg id t = by_problems (problems_of_type registry t cfg)
    where
      by_problems :
          (r : Result (List StepProblem))
          → Sound (Sees (ids_in_step ids cfg)) (λ l. elim r [
            | err e ↦ raised e
            | ok problems ↦ check_nested check cfg (
                report (in_steps problems ++ continue_problems id (find cfg "continue_on_error")) l)
          ])
      by_problems (err e) = λ l. tt
      by_problems (ok problems) =
          let found = in_steps problems ++ continue_problems id (find cfg "continue_on_error") in
          Sound-then (λ acc. acc) (ids_in_step ids cfg) (λ l. going (report found l))
            (check_nested check cfg) (Sound-noted found) (check_nested-Sound cfg)

  check_type-Sound :
      (cfg : Fields) (id : String) (v : Value)
      → Sound (Sees (ids_in_step ids cfg)) (check_type registry check cfg id v)
  unfolding check_type
  check_type-Sound cfg id (str t) =
      Sound-if _ (contains (valid_step_types registry) t) _ _ (check_typed-Sound cfg id t)
        (Sound-fails (ids_in_step ids cfg) _)
  check_type-Sound cfg id (list xs) = λ l. tt
  check_type-Sound cfg id (dict fs) = λ l. tt
  check_type-Sound cfg id null = Sound-fails (ids_in_step ids cfg) _
  check_type-Sound cfg id (bool b) = Sound-fails (ids_in_step ids cfg) _
  check_type-Sound cfg id (int n) = Sound-fails (ids_in_step ids cfg) _

  -- The id is new, or a problem is reported.
  marks-Sound :
      (id : String)
      → Sound (Sees (λ acc. id ∷ acc)) (λ l. going (mark id (report (id_problems id l.seen) l)))
  marks-Sound id l e = (
    append-nil_left l.errors _ e,
    (
      refl,
      λ d. (
        when-nil (contains l.seen id) (duplicate_id id) (
            append-nil_right (when (has_colon id) (reserved_colon id)) _
              (append-nil_right l.errors _ e)),
        d,
      ),
    ),
  )

  check_identified-Sound :
      (cfg : Fields) (id : String)
      → Sound
          (Sees (λ acc. ids_in_step ids cfg (id ∷ acc)))
          (check_identified registry check cfg id)
  unfolding check_identified
  check_identified-Sound cfg id =
      let t = get_or cfg "type" (str "command") in
      Sound-then (λ acc. id ∷ acc) (ids_in_step ids cfg)
        (λ l. going (mark id (report (id_problems id l.seen) l)))
        (check_type registry check cfg id t) (marks-Sound id) (check_type-Sound cfg id t)

  check_id-Sound :
      (cfg : Fields) (v : Value)
      → Sound (Sees (λ acc. ids_in_step ids cfg (put_id v acc))) (check_id registry check cfg v)
  unfolding check_id
  check_id-Sound cfg (str id) =
      Sound-if _ (id == "") _ _ (Sound-fails (λ acc. ids_in_step ids cfg (id ∷ acc)) _)
        (check_identified-Sound cfg id)
  check_id-Sound cfg null = Sound-fails (ids_in_step ids cfg) _
  check_id-Sound cfg (bool b) = Sound-if _ b _ _ (λ l. tt) (Sound-fails (ids_in_step ids cfg) _)
  check_id-Sound cfg (int n) =
      Sound-if _ (truthy (int n)) _ _ (λ l. tt) (Sound-fails (ids_in_step ids cfg) _)
  check_id-Sound cfg (list xs) =
      Sound-if _ (truthy (list xs)) _ _ (λ l. tt) (Sound-fails (ids_in_step ids cfg) _)
  check_id-Sound cfg (dict fs) =
      Sound-if _ (truthy (dict fs)) _ _ (λ l. tt) (Sound-fails (ids_in_step ids cfg) _)

  check_step-Sound :
      (step : Value) → Sound (Sees (ids_of_step ids step)) (check_step registry check step)
  unfolding check_step ids_of_step
  check_step-Sound (dict cfg) = check_id-Sound cfg (get_or cfg "id" null)
  check_step-Sound null = Sound-fails (λ acc. acc) _
  check_step-Sound (bool b) = Sound-fails (λ acc. acc) _
  check_step-Sound (int n) = Sound-fails (λ acc. acc) _
  check_step-Sound (str s) = Sound-fails (λ acc. acc) _
  check_step-Sound (list xs) = Sound-fails (λ acc. acc) _

  check_all-Sound :
      (steps : Items) → Sound (Sees (ids_of_all ids steps)) (check_all registry check steps)
  unfolding check_all ids_of_all
  check_all-Sound nil = Sound-still
  check_all-Sound (cons step rest) =
      Sound-then (ids_of_step ids step) (ids_of_all ids rest) (check_step registry check step)
        (check_all registry check rest) (check_step-Sound step) (check_all-Sound rest)

validate_steps-Sound :
    (registry : Dict String Validator) (fuel : ℕ) (steps : Items)
    → Sound (Sees (ids_within fuel steps)) (validate_steps registry fuel steps)
unfolding validate_steps ids_within
validate_steps-Sound registry zero steps = λ l. tt
validate_steps-Sound registry (suc fuel) steps =
    check_all-Sound registry (ids_within fuel) (validate_steps registry fuel)
      (validate_steps-Sound registry fuel) steps

-- The ids of the steps of a workflow, as deep as they nest.
abbrev pub step_ids : Items → List String
step_ids steps = ids_within (suc (depth_items steps)) steps []

validate_workflow-Shows_ids :
    (registry : Dict String Validator) (d : Definition) (step : Value) (rest : Items)
    → d.steps ≡ list (cons step rest)
    → Shows
        (λ m. (m.seen ≡ step_ids (cons step rest)) × AreDifferent m.seen)
        (validate_workflow registry d)
unfolding validate_workflow steps_check
validate_workflow-Shows_ids registry d step rest same = rw same (by_head (head_problems d))
  where
    steps : Items
    steps = cons step rest

    by_head :
        (r : Result (List Problem))
        → Shows
            (λ m. (m.seen ≡ step_ids steps) × AreDifferent m.seen)
            (elim r [ err e ↦ raised e | ok errors ↦ steps_check registry (list steps) errors ])
    by_head (err e) = tt
    by_head (ok errors) =
        let l : Ledger = record { seen = []; errors = errors } in
        Shows-map (λ m. (l.errors ≡ []) × Sees (ids_within (suc (depth_items steps)) steps) l m)
          (λ m. (m.seen ≡ step_ids steps) × AreDifferent m.seen)
          (validate_steps registry (suc (depth_items steps)) steps l) (λ m h. (h.1.0, h.1.1 tt))
          (validate_steps-Sound registry (suc (depth_items steps)) steps l)

-- If `validate_workflow` finds no problem in a workflow with these steps, the ids of the steps and of
-- all steps below them, apart from the templates of fan-outs, are all different.
pub validate_workflow-AreDifferent :
    (registry : Dict String Validator) (d : Definition) (step : Value) (rest : Items)
    → d.steps ≡ list (cons step rest)
    → Passes (validate_workflow registry d)
    → AreDifferent (step_ids (cons step rest))
validate_workflow-AreDifferent registry d step rest same passes =
    let h =
      subst (Shows (λ m. (m.seen ≡ step_ids (cons step rest)) × AreDifferent m.seen)) passes.1
        (validate_workflow-Shows_ids registry d step rest same) refl in
    subst AreDifferent h.0 h.1
