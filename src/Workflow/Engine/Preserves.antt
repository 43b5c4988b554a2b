-- ===== src/Workflow/Engine/Preserves.antt =====
-- From assertions about the assignments of the engine to the whole of `_execute_steps`.
use mathlib.Core.Option
use alharistech_platform.Base.{
  ℕ, zero, suc, ◌+◌, ◌≤◌, ◌<◌, String, ◌≡◌, true, refl, Option, none, some, arith,
}
use alharistech_platform.Value.{
  Value, null, dict, Items, nil, cons, Fields, truthy, get_or, count_items,
}
use alharistech_platform.Workflow.Model.{
  StepStatus, RunStatus, StepResult, Exn, Result, ok, err, Reply, StepImpl, attribute_error,
  unmodelled,
}
use alharistech_platform.Workflow.State.{Event}
use alharistech_platform.Workflow.Engine.{
  Host, halt_with, abort_run, pass_failure, fail_run, is_true, handle_failure, resolve, finish,
  step_data, nested_part, fan_out_part, conclude, invoke, dispatch, run_identified, run_step,
  run_steps, execute_steps,
}
use alharistech_platform.Workflow.Engine.Effects.{
  is_halted, Machine, Action, ◌⨾◌, update, leave, fault, with_world, position,
}
use alharistech_platform.Workflow.Engine.Rules.{Laws, Either, Within, Within-call}
use alharistech_platform.Workflow.Engine.Invariant
use alharistech_platform.Workflow.Engine.Invariant.{Keeps}

-- The stored index is allowed at each place of the list of steps.
abbrev pub Placed : (ℕ → Type 0) → Option ℕ → ℕ → ℕ → Type 0
Placed Place none i n = Unit
Placed Place (some o) i n = (j : ℕ) → i ≤ j → j < i + n → Place (o + j)

module _ {D W : Type 0} {Running Halted Broken : Machine D W → Type 0} {Place : ℕ → Type 0}
    (laws : Laws Running Halted Broken Place) (host : Host W) where
  module _ (nested : Items → Action D W)
      (nested_keeps : (body : Items) (m : Machine D W)
        → Running m
        → Within laws (Either laws) (nested body m)) where
    abbrev Kept : Action D W → Type 0
    Kept = Keeps laws host nested nested_keeps

    Kept-seq : (p q : Action D W) → Kept p → Kept q → Kept (p ⨾ q)
    Kept-seq = Invariant.Keeps-seq laws host nested nested_keeps

    Kept-update :
        (f : Machine D W → Machine D W)
        → ((m : Machine D W) → Running m → Running (f m))
        → Kept (update f)
    Kept-update = Invariant.Keeps-update laws host nested nested_keeps

    Kept-fault : (e : Exn) → Kept (fault e)
    Kept-fault = Invariant.Keeps-fault laws host nested nested_keeps

    Kept-halt_with : (st : RunStatus) (e : Event) → is_halted st ≡ true → Kept (halt_with st e)
    unfolding halt_with ◌⨾◌ update leave
    Kept-halt_with st e eq m h =
        laws.at_saved_halted _ (laws.at_logged_halted e _ (laws.halts st m eq h))

    Kept-abort_run : (id : String) → Kept (abort_run id)
    unfolding abort_run
    Kept-abort_run id = Kept-halt_with RunStatus.aborted _ refl

    Kept-pass_failure : (id : String) (r : StepResult) → Kept (pass_failure id r)
    unfolding pass_failure
    Kept-pass_failure id r =
        Kept-seq _ _ (Kept-update _ (laws.at_logged _)) (Kept-update _ laws.at_saved)

    Kept-fail_run : (id : String) (r : StepResult) → Kept (fail_run id r)
    unfolding fail_run
    Kept-fail_run id r = Kept-halt_with RunStatus.failed _ refl

    Kept-handle_failure :
        (cfg : Fields) (id : String) (r : StepResult) → Kept (handle_failure host nested cfg id r)
    unfolding handle_failure
    Kept-handle_failure cfg id r =
        Invariant.Keeps-if laws host nested nested_keeps (truthy (get_or r.output "aborted" null)) _
          _ (Kept-abort_run id)
          (Invariant.Keeps-if laws host nested nested_keeps
            (is_true (get_or cfg "continue_on_error" null)) (pass_failure id r) (fail_run id r)
            (Kept-pass_failure id r) (Kept-fail_run id r))

    Kept-control :
        (cfg : Fields) (id : String) (type : Value) (r : StepResult)
        → Kept (nested_part host nested cfg id type r ⨾ fan_out_part host nested id type r)
    Kept-control cfg id type r =
        Kept-seq _ _ (Invariant.Keeps-nested_part laws host nested nested_keeps cfg id type r)
          (Invariant.Keeps-fan_out_part laws host nested nested_keeps id type r)

    Kept-resolve :
        (cfg : Fields) (id : String) (type : Value) (r : StepResult) (st : StepStatus)
        → Kept (resolve host nested cfg id type r st)
    unfolding resolve ◌⨾◌ update leave
    Kept-resolve cfg id type r StepStatus.paused =
        λ m h. laws.at_saved_halted _ (laws.halts RunStatus.paused m refl h)
    Kept-resolve cfg id type r StepStatus.failed = Kept-handle_failure cfg id r
    Kept-resolve cfg id type r _ = Kept-control cfg id type r

    Kept-finish :
        (cfg : Fields) (id : String) (type : Value) (r : StepResult)
        → Kept (finish host nested cfg id type r)
    unfolding finish
    Kept-finish cfg id type r m =
        Kept-seq _ _ (Kept-update _ (laws.at_recorded id (step_data cfg m.context r)))
          (Kept-seq _ _ (Kept-update _ (laws.at_logged _)) (Kept-resolve cfg id type r r.status)) m

    Kept-conclude :
        (cfg : Fields) (id : String) (type : Value) (o : Reply)
        → Kept (conclude host nested cfg id type o)
    unfolding conclude
    Kept-conclude cfg id type (Reply.returned r) = Kept-finish cfg id type r
    Kept-conclude cfg id type (Reply.raised e) = Kept-fault e
    Kept-conclude cfg id type Reply.interrupted =
        Invariant.Keeps-interrupt laws host nested nested_keeps

    Kept-dispatch :
        (cfg : Fields) (id : String) (type : Value) (o : Result (Option (StepImpl W)))
        → Kept (dispatch host nested cfg id type o)
    unfolding dispatch invoke
    Kept-dispatch cfg id type (err e) = Kept-fault e
    Kept-dispatch cfg id type (ok none) = Kept-halt_with RunStatus.failed _ refl
    Kept-dispatch cfg id type (ok (some impl)) = λ m h.
        let (reply, w) = impl cfg m.context m.world in
        Kept-conclude cfg id type reply (with_world w m) (laws.at_world w m h)

    Running-position :
        (id : String) (i n : ℕ) (offset : Option ℕ) (m : Machine D W)
        → Placed Place offset i (suc n)
        → Running m
        → Running (position id (Option.map (λ o. o + i) offset) m)
    Running-position id i n none m p h = laws.at_position id m h
    Running-position id i n (some o) m p h =
        laws.at_index id (o + i) m (p i (omega arith) (omega arith)) h

    Kept-run_identified :
        (cfg : Fields) (i n : ℕ) (offset : Option ℕ) (o : Option String)
        → Placed Place offset i (suc n)
        → Kept (run_identified host nested cfg i offset o)
    unfolding run_identified
    Kept-run_identified cfg i n offset none p = Kept-fault unmodelled
    Kept-run_identified cfg i n offset (some id) p =
        Kept-seq _ _ (Kept-update _ (λ m. Running-position id i n offset m p)) (
          Kept-seq _ _ (Kept-update _ laws.at_saved)
            (Kept-seq _ _ (Kept-update _ (laws.at_logged _)) (Kept-dispatch cfg id _ _)))

    Kept-run_step :
        (v : Value) (i n : ℕ) (offset : Option ℕ)
        → Placed Place offset i (suc n)
        → Kept (run_step host nested v i offset)
    unfolding run_step
    Kept-run_step (dict cfg) i n offset p = Kept-run_identified cfg i n offset _ p
    Kept-run_step _ i n offset p = Kept-fault attribute_error

    Placed-suc :
        (offset : Option ℕ) (i n : ℕ)
        → Placed Place offset i (suc n)
        → Placed Place offset (suc i) n
    Placed-suc none i n p = tt
    Placed-suc (some o) i n p = λ j lo hi. p j (omega arith) (omega arith)

    Kept-run_steps :
        (steps : Items) (i : ℕ) (offset : Option ℕ)
        → Placed Place offset i (count_items steps)
        → Kept (run_steps host nested steps i offset)
    unfolding run_steps count_items
    Kept-run_steps nil i offset p = Invariant.Keeps-skip laws host nested nested_keeps
    Kept-run_steps (cons v vs) i offset p =
        Kept-seq _ _ (Kept-run_step v i (count_items vs) offset p)
          (Kept-run_steps vs (suc i) offset (Placed-suc offset i (count_items vs) p))

  -- The rule for `_execute_steps`.
  pub Within-execute_steps :
      (f : ℕ) (steps : Items) (offset : Option ℕ) (m : Machine D W)
      → Placed Place offset 0 (count_items steps)
      → Running m
      → Within laws (Either laws) (execute_steps host f steps offset m)
  unfolding execute_steps
  Within-execute_steps zero steps offset m p h = tt
  Within-execute_steps (suc f) steps offset m p h = Within-call laws _ m (
      Kept-run_steps (λ body. execute_steps host f body none)
        (λ body m' h'. Within-execute_steps f body none m' tt h') steps 0 offset p m h)
