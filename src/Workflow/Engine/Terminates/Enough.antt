-- ===== src/Workflow/Engine/Terminates/Enough.antt =====
-- The fuel of `execute_steps` that is enough.

use alharistech_platform.Base.{
  IsSome, ℕ, zero, suc, ◌≤◌, ◌<◌, String, ◌≡◌, Bool, true, false, ◌&&◌, refl, Option, none, some,
  arith, if◌then◌else◌,
}
use alharistech_platform.Value.{
  Value, null, str, list, dict, Items, nil, cons, Fields, end, truthy, get_or, set,
}
use alharistech_platform.Value.Depth.{depth, depth_items, depth_fields}
use alharistech_platform.Workflow.Model.{
  StepStatus, RunStatus, StepResult, StepContext, Result, ok, err, Reply, StepImpl, attribute_error,
  unmodelled,
}
use alharistech_platform.Workflow.Engine.{
  Host, implementation, is_true, is_fan_out, fan_elements, nested_part, fan_items, fan_done,
  fan_over, fan_out_part, handle_failure, resolve, finish, conclude, invoke, dispatch,
  run_identified, run_step, run_steps, execute_steps, id_of, abort_run, pass_failure, fail_run,
  step_data,
}
use alharistech_platform.Workflow.Engine.Effects.{
  Machine, Flow, Outcome, Action, next, stop, raised, interrupted, ◌⨾◌, after, call, update, skip,
  leave, fault, interrupt, with_status, with_world, with_item, halt_check, recorded, output_set,
}
use alharistech_platform.Workflow.Engine.Effects
use alharistech_platform.Workflow.Engine.Terminates
use alharistech_platform.Workflow.Engine.Terminates.{
  Shrinks, IsShrinking, IsTotal, Total-seq, Total-if, Total-if_true, Total-update, Total-skip,
  Total-fault, Total-interrupt, Total-halt_check, Total-halt_with,
}

module _ {D W : Type 0} (host : Host W) (shrinks : IsShrinking host) (limit : ℕ)
    (nested : Items → Action D W)
    (nested_total : (body : Items) → depth_items body < limit → IsTotal (nested body)) where
  Total-fan_done :
      (id : String) (r : StepResult) (results : Items) (fl : Flow)
      → IsTotal (fan_done host nested id r results fl)
  unfolding fan_done
  Total-fan_done id r results (raised e) = Total-fault e
  Total-fan_done id r results interrupted = Total-interrupt
  Total-fan_done id r results _ =
      Total-seq _ _ (Total-update _) (Total-seq _ _ (Total-update _) Total-halt_check)

  Total-fan_over :
      (id : String) (template : Value) (r : StepResult) (o : Result Items)
      → depth template < limit
      → IsTotal (fan_over host nested id template r o)
  unfolding fan_over
  Total-fan_over id template r (err e) h m = tt
  Total-fan_over id template r (ok items) h m =
      done (fan_items host nested id template items 0 nil m) (
        Terminates.Some-fan_items host shrinks limit nested nested_total id template items 0 nil m
          h)
    where
      done :
          (o : Option (Flow × Items × Machine D W))
          → IsSome o
          → IsSome {A = Flow × Machine D W} (elim o [
            | none ↦ none
            | some (fl, results, m') ↦ fan_done host nested id r results fl m'
          ])
      done none h' = h'
      done (some (fl, results, m')) h' = Total-fan_done id r results fl m'

  -- The template is run only if it is truthy.
  Total-fan_out_part :
      (id : String) (type : Value) (r : StepResult)
      → (is_fan_out type ≡ true
          → truthy (get_or r.output "step_template" (dict end)) ≡ true
          → depth (get_or r.output "step_template" (dict end)) < limit)
      → IsTotal (fan_out_part host nested id type r)
  unfolding fan_out_part
  Total-fan_out_part id type r h =
      Total-if_true (is_fan_out type) _ _
        (λ fans.
          chosen (truthy (get_or r.output "step_template" (dict end)))
            (truthy (get_or r.output "items" (list nil))) (h fans))
        Total-skip
    where
      chosen :
          (a b : Bool)
          → (a ≡ true → depth (get_or r.output "step_template" (dict end)) < limit)
          → IsTotal (
              if a && b
              then fan_over host nested id
                  (get_or r.output "step_template" (dict end))
                  r
                  (fan_elements (get_or r.output "items" (list nil)))
              else update (output_set id (set r.output "results" (list nil))))
      chosen true true g = Total-fan_over id _ r _ (g refl)
      chosen true false g = Total-update _
      chosen false true g = Total-update _
      chosen false false g = Total-update _

  Total-handle_failure :
      (cfg : Fields) (id : String) (r : StepResult) → IsTotal (handle_failure host nested cfg id r)
  unfolding handle_failure abort_run pass_failure fail_run
  Total-handle_failure cfg id r =
      Total-if (truthy (get_or r.output "aborted" null)) _ _ (Total-halt_with RunStatus.aborted _) (
        Total-if (is_true (get_or cfg "continue_on_error" null)) (pass_failure id r) (fail_run id r)
          (Total-seq _ _ (Total-update _) (Total-update _)) (Total-halt_with RunStatus.failed _))

  Total-control :
      (cfg : Fields) (id : String) (type : Value) (r : StepResult)
      → suc (depth_fields cfg) ≤ limit
      → Shrinks type cfg (Reply.returned r)
      → IsTotal (nested_part host nested cfg id type r ⨾ fan_out_part host nested id type r)
  Total-control cfg id type r h s =
      Total-seq _ _
        (Terminates.Total-nested_part host shrinks limit nested nested_total cfg id type r
          (omega (arith, s.0)))
        (Total-fan_out_part id type r (λ fans e. omega (arith, s.1 fans e)))

  Total-resolve :
      (cfg : Fields) (id : String) (type : Value) (r : StepResult) (st : StepStatus)
      → suc (depth_fields cfg) ≤ limit
      → Shrinks type cfg (Reply.returned r)
      → IsTotal (resolve host nested cfg id type r st)
  unfolding resolve ◌⨾◌ update leave
  Total-resolve cfg id type r StepStatus.paused h s m = tt
  Total-resolve cfg id type r StepStatus.failed h s m = Total-handle_failure cfg id r m
  Total-resolve cfg id type r _ h s m = Total-control cfg id type r h s m

  Total-conclude :
      (cfg : Fields) (id : String) (type : Value) (o : Reply)
      → suc (depth_fields cfg) ≤ limit
      → Shrinks type cfg o
      → IsTotal (conclude host nested cfg id type o)
  unfolding conclude finish
  Total-conclude cfg id type (Reply.returned r) h s m =
      Total-seq _ _ (Total-update (recorded id (step_data cfg m.context r)))
        (Total-seq _ _ (Total-update _) (Total-resolve cfg id type r r.status h s)) m
  Total-conclude cfg id type (Reply.raised e) h s m = Total-fault e m
  Total-conclude cfg id type Reply.interrupted h s m = Total-interrupt m

  Total-dispatch :
      (cfg : Fields) (id : String) (type : Value) (o : Result (Option (StepImpl W)))
      → suc (depth_fields cfg) ≤ limit
      → ((impl : StepImpl W) (ctx : StepContext) (w : W)
          → o ≡ ok (some impl)
          → Shrinks type cfg (impl cfg ctx w).0)
      → IsTotal (dispatch host nested cfg id type o)
  unfolding dispatch invoke
  Total-dispatch cfg id type (err e) h s m = Total-fault e m
  Total-dispatch cfg id type (ok none) h s m = Total-halt_with RunStatus.failed _ m
  Total-dispatch cfg id type (ok (some impl)) h s m =
      Total-conclude cfg id type (impl cfg m.context m.world).0 h (s impl m.context m.world refl) _

  registered :
      (type : Value) (impl : StepImpl W) (cfg : Fields) (ctx : StepContext) (w : W)
      → implementation host.registry type ≡ ok (some impl)
      → Shrinks type cfg (impl cfg ctx w).0
  registered (str t) impl cfg ctx w e = shrinks t impl cfg ctx w (ground arith)
  registered _ impl cfg ctx w e = absurd (cc)

  Total-run_step :
      (v : Value) (i : ℕ) (offset : Option ℕ)
      → depth v ≤ limit
      → IsTotal (run_step host nested v i offset)
  unfolding run_step depth
  Total-run_step (dict cfg) i offset h = identified (id_of cfg _)
    where
      identified : (o : Option String) → IsTotal (run_identified host nested cfg i offset o)
      identified none = unfold run_identified in Total-fault unmodelled
      identified (some id) =
          unfold run_identified in
          Total-seq _ _ (Total-update _) (
            Total-seq _ _ (Total-update _) (
              Total-seq _ _ (Total-update _)
                (Total-dispatch cfg id _ _ h (λ impl ctx w e. registered _ impl cfg ctx w e))))
  Total-run_step _ i offset h = Total-fault attribute_error

  Total-run_steps :
      (steps : Items) (i : ℕ) (offset : Option ℕ)
      → depth_items steps ≤ limit
      → IsTotal (run_steps host nested steps i offset)
  unfolding run_steps depth
  Total-run_steps nil i offset h = Total-skip
  Total-run_steps (cons v vs) i offset h =
      Total-seq _ _ (Total-run_step v i offset (omega arith))
        (Total-run_steps vs (suc i) offset (omega arith))

Total-call : {D W : Type 0} (p : Action D W) → IsTotal p → IsTotal (call p)
unfolding call
Total-call {D} {W} p h m = returns (p m) (h m)
  where
    returns :
        (o : Outcome D W)
        → IsSome o
        → IsSome {A = Flow × Machine D W}
            (elim o [ none ↦ none | some (fl, m') ↦ some (Effects.returned fl, m') ])
    returns none h' = h'
    returns (some r) h' = tt

-- Fuel above the depth of the steps is enough: the run ends, for every host whose steps return
-- nested steps and templates no deeper than their own configuration.
pub execute_steps-IsSome :
    {D W : Type 0} (host : Host W) (f : ℕ) (steps : Items) (offset : Option ℕ) (m : Machine D W)
    → IsShrinking host
    → depth_items steps < f
    → IsSome (execute_steps host f steps offset m)
unfolding execute_steps
execute_steps-IsSome host zero steps offset m s h = absurd (omega arith)
execute_steps-IsSome host (suc f) steps offset m s h =
    Total-call _
      (Total-run_steps host s f (λ body. execute_steps host f body none)
        (λ body h' m'. execute_steps-IsSome host f body none m' s h') steps 0 offset (omega arith))
      m
