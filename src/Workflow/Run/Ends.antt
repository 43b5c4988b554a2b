-- ===== src/Workflow/Run/Ends.antt =====
-- That a run ends, on fuel above the depth of the definition's steps.
use alharistech_platform.Base.{
  ℕ, ◌<◌, String, true, Option, none, some, IsSome, ◌==◌, string_eq, ◌≡◌, refl, subst, arith,
  Bool-cases, inl, inr,
}
use alharistech_platform.Base.Dict.{Dict}
use alharistech_platform.Value.{
  Value, null, bool, int, str, list, dict, Items, nil, Fields, end, field,
}
use alharistech_platform.Value.Depth.{depth, depth_items}
use alharistech_platform.Workflow.Model.{Exn, Result, ok, err}
use alharistech_platform.Workflow.State.{RunState, Event, Disk}
use alharistech_platform.Workflow.Definition.{Definition}
use alharistech_platform.Workflow.Engine.{elements}
use alharistech_platform.Workflow.Engine.Effects.{Machine, Outcome}
use alharistech_platform.Workflow.Engine.Terminates.{IsShrinking}
use alharistech_platform.Workflow.Engine.Terminates.Enough.{execute_steps-IsSome}
use alharistech_platform.Workflow.Inputs.{resolve_inputs}
use alharistech_platform.Workflow.Steps.Validate.{Validator}
use alharistech_platform.Workflow.Validation.{validate_workflow}
use alharistech_platform.Workflow.Validation.Sound.{Passes}
use alharistech_platform.Workflow.Validation.Defaults.{
  all_can_be_left_out, validate_workflow-resolves,
}
use alharistech_platform.Workflow.Run.Final.{Recorded, created, execute-Recorded}
use alharistech_platform.Workflow.Run.{
  Engine, Ended, run_from, finish_outcome, execute_resolved, execute_created, execute,
}

ok_eq : (xs ys : Items) → ok xs ≡ ok ys → xs ≡ ys
ok_eq xs ys e = ground (arith, e)

module _ {W : Type 0} (eng : Engine W) (shrinks : IsShrinking eng.host) (f : ℕ) where
  ends-finish :
      (event : Exn → Event) (o : Outcome Value W) → IsSome o → IsSome (finish_outcome event o)
  unfolding finish_outcome
  ends-finish event none h = h
  ends-finish event (some (fl, m)) h = tt

  ends-steps :
      (r : Result Items) (index : ℕ) (m : Machine Value W)
      → ((steps : Items) → r ≡ ok steps → depth_items steps < f)
      → IsSome (run_from eng f r index m)
  unfolding run_from
  ends-steps (err e) index m h = tt
  ends-steps (ok steps) index m h =
      execute_steps-IsSome eng.host f steps (some index) m shrinks (h steps refl)

  elements-depth :
      (v : Value) (steps : Items) → depth v < f → elements v ≡ ok steps → depth_items steps < f
  unfolding depth
  elements-depth (list xs) steps h e = subst (λ ys. depth_items ys < f) (ok_eq xs steps e) h
  elements-depth (str s) steps h e = elim (Bool-cases (s == "")) [
    | inl t ↦ subst (λ ys. depth_items ys < f) (ok_eq nil steps (rw t at e)) h
    | inr t ↦ ground (arith, rw t at e)
  ]
  elements-depth (dict end) steps h e =
      subst (λ ys. depth_items ys < f) (ok_eq nil steps e) (omega (arith, h))
  elements-depth (dict (field k v fs)) steps h e = ground (arith, e)
  elements-depth null steps h e = ground (arith, e)
  elements-depth (bool b) steps h e = ground (arith, e)
  elements-depth (int n) steps h e = ground (arith, e)

  module _ (d : Definition) (bound : depth d.steps < f) where
    ends-resolved :
        (s : RunState) (disk : Disk Value) (w : W) (r : Result Fields)
        → IsSome (execute_resolved eng f d s disk w r)
    unfolding execute_resolved
    ends-resolved s disk w (err e) = tt
    ends-resolved s disk w (ok inputs) =
        ends-finish _ _
          (ends-steps (elements d.steps) 0 _ (λ steps e. elements-depth d.steps steps bound e))

    ends-created :
        (inputs : Fields) (disk : Disk Value) (w : W) (r : Result RunState)
        → IsSome (execute_created eng f d inputs disk w r)
    unfolding execute_created
    ends-created inputs disk w (err e) = tt
    ends-created inputs disk w (ok s) = ends-resolved s _ w _

    execute-IsSome :
        (inputs : Fields) (run_id : Option String) (disk : Disk Value) (w : W)
        → IsSome (execute eng f d inputs run_id disk w)
    unfolding execute
    execute-IsSome inputs run_id disk w = ends-created inputs disk w _

-- The result of a call that has ended.
result_of : {A : Type 0} (o : Option A) → IsSome o → (a : A) × (o ≡ some a)
result_of none h = elim h [ ]
result_of (some a) h = (a, refl)

-- A workflow in which `validate_workflow` finds no problem and whose required inputs have defaults, run
-- without inputs under an accepted id, in a project that names no integration, on a host whose steps
-- return nothing deeper than their configuration, and with fuel above the depth of its steps: `execute`
-- ends, and it returns with COMPLETED, PAUSED, FAILED or ABORTED and the state that it returns on disk,
-- or it raises and the disk says FAILED.
pub execute-ends :
    {W : Type 0} (registry : Dict String Validator) (eng : Engine W) (f : ℕ) (d : Definition)
    (run_id : Option String) (disk : Disk Value) (w : W) (s : RunState)
    → IsShrinking eng.host
    → eng.project_integration ≡ none
    → Passes (validate_workflow registry d)
    → all_can_be_left_out d.inputs ≡ true
    → depth d.steps < f
    → created eng f d end run_id disk w ≡ ok s
    → (x : Ended W) × (execute eng f d end run_id disk w ≡ some x)
      × Recorded s.run_id x.result x.disk
execute-ends registry eng f d run_id disk w s shrinks no_project passes free bound made =
    let (x, ends) = result_of _ (execute-IsSome eng shrinks f d bound end run_id disk w) in
    let (ins, resolved) = validate_workflow-resolves registry d passes free in
    let accepted : resolve_inputs eng.project_integration d.inputs end ≡ ok ins =
      rw no_project resolved in
    (x, ends, execute-Recorded eng f d end run_id disk w s ins x made accepted ends)
