-- ===== src/Workflow/Engine/Terminates.antt =====
-- The fuel of `_execute_steps`, for steps whose nested steps shrink.
pub mod Enough
use alharistech_platform.Base.{
  IsSome, ℕ, zero, suc, ◌+◌, ◌-◌, ◌≤◌, ◌<◌, String, ◌≡◌, ◌≢◌, Bool, true, false, refl, Option, none,
  some, arith, Bool-cases, inl, inr, max, if◌then◌else◌,
}
use alharistech_platform.Value.{
  Value, null, bool, int, str, list, dict, Items, nil, cons, Fields, end, field, truthy, get_or,
  find, set, append_item, to_text,
}
use alharistech_platform.Value.Depth.{depth, depth_items, depth_fields, depth_fields-set_str}
use alharistech_platform.Workflow.Model.{
  StepStatus, RunStatus, StepResult, StepContext, Exn, Result, ok, err, Reply, StepImpl, type_error,
  attribute_error, unmodelled,
}
use alharistech_platform.Workflow.State.{Event}
use alharistech_platform.Workflow.Engine.{
  Host, elements, implementation, is_true, is_loop, is_fan_out, original_id, item_step,
  fan_elements, output_of, alias_back, body_step, run_body, rounds, nested_body, nested_part,
  repeat_body, fan_items, fan_done, fan_over, fan_out_part, handle_failure, resolve, finish,
  conclude, invoke, dispatch, run_identified, run_step, run_steps, execute_steps, id_of, halt_with,
  abort_run, pass_failure, fail_run, step_data, nested_key,
}
use alharistech_platform.Workflow.Engine.Effects.{
  Machine, Flow, Outcome, Action, next, stop, raised, interrupted, ◌⨾◌, after, call, update, skip,
  leave, fault, interrupt, with_status, with_world, with_item, halt_check, is_halted,
}

-- What a step of a type returns nests no deeper than its configuration; of a fan-out the template
-- counts too.
abbrev pub Shrinks : Value → Fields → Reply → Type 0
Shrinks type cfg (Reply.returned r) =
    (depth r.next_steps ≤ depth_fields cfg)
    × (is_fan_out type ≡ true
        → truthy (get_or r.output "step_template" (dict end)) ≡ true
        → depth (get_or r.output "step_template" (dict end)) ≤ depth_fields cfg)
Shrinks type cfg _ = Unit

abbrev pub IsShrinking : {W : Type 0} → Host W → Type 0
IsShrinking {W} host =
    (t : String) (impl : StepImpl W) (cfg : Fields) (ctx : StepContext) (w : W)
    → host.registry t ≡ some impl
    → Shrinks (str t) cfg (impl cfg ctx w).0

module _ {D W : Type 0} where
  abbrev pub IsTotal : Action D W → Type 0
  IsTotal p = (m : Machine D W) → IsSome (p m)

  pub Total-seq : (p q : Action D W) → IsTotal p → IsTotal q → IsTotal (p ⨾ q)
  unfolding ◌⨾◌
  Total-seq p q hp hq m = bound (p m) (hp m)
    where
      bound :
          (o : Outcome D W)
          → IsSome o
          → IsSome (elim o [ none ↦ none | some (fl, m') ↦ after fl m' q ])
      bound none h = h
      bound (some (next, m')) h = hq m'
      bound (some (stop, m')) h = tt
      bound (some (interrupted, m')) h = tt
      bound (some (raised e, m')) h = tt

  pub Total-if :
      (b : Bool) (p q : Action D W) → IsTotal p → IsTotal q → IsTotal (if b then p else q)
  Total-if true p q hp hq = hp
  Total-if false p q hp hq = hq

  pub Total-if_true :
      (b : Bool) (p q : Action D W)
      → (b ≡ true → IsTotal p)
      → IsTotal q
      → IsTotal (if b then p else q)
  Total-if_true true p q hp hq = hp refl
  Total-if_true false p q hp hq = hq

  pub Total-update : (f : Machine D W → Machine D W) → IsTotal (update f)
  unfolding update
  Total-update f m = tt

  pub Total-skip : IsTotal skip
  unfolding skip
  Total-skip m = tt

  pub Total-fault : (e : Exn) → IsTotal (fault e)
  unfolding fault
  Total-fault e m = tt

  pub Total-interrupt : IsTotal interrupt
  unfolding interrupt
  Total-interrupt m = tt

  pub Total-halt_check : IsTotal halt_check
  unfolding halt_check
  Total-halt_check m = elim (Bool-cases (is_halted m.state.status)) [
    | inl e ↦ rw e tt
    | inr e ↦ rw e tt
  ]

  pub Total-halt_with : (st : RunStatus) (e : Event) → IsTotal (halt_with st e)
  unfolding halt_with ◌⨾◌ update leave
  Total-halt_with st e m = tt

elements-depth : (v : Value) (body : Items) → elements v ≡ ok body → depth_items body ≤ depth v
unfolding depth
elements-depth v body e = ground arith

item_step-depth :
    (parent : String) (t : Value) (i : ℕ) (step : Fields) (key : String)
    → item_step parent t i ≡ ok (step, key)
    → suc (depth_fields step) ≤ depth t
unfolding item_step depth
item_step-depth parent (dict t) i step key e = ground (arith, depth_fields-set_str t "id" key)
item_step-depth parent _ i step key e = cc

module _ {D W : Type 0} (host : Host W) (shrinks : IsShrinking host) (limit : ℕ)
    (nested : Items → Action D W)
    (nested_total : (body : Items) → depth_items body < limit → IsTotal (nested body)) where
  Total-single :
      (step : Fields) → suc (depth_fields step) < limit → IsTotal (nested (cons (dict step) nil))
  Total-single step h = nested_total _ (unfold depth in omega arith)

  Total-alias_back : (o : Option String) (key : String) → IsTotal (alias_back host nested o key)
  unfolding alias_back
  Total-alias_back none key = Total-skip
  Total-alias_back (some orig) key = Total-update _

  Total-body_step :
      (parent : String) (round i : ℕ) (ns : Fields) (o : Result (Option String))
      → suc (depth_fields ns) < limit
      → IsTotal (body_step host nested parent round i ns o)
  unfolding body_step
  Total-body_step parent round i ns (err e) h = Total-fault e
  Total-body_step parent round i ns (ok o) h =
      Total-seq _ _
        (Total-single (set ns "id" (str _)) (omega (arith, depth_fields-set_str ns "id" _)))
        (Total-seq _ _ Total-halt_check (Total-alias_back o _))

  Total-run_body :
      (parent : String) (round i : ℕ) (body : Items)
      → depth_items body < limit
      → IsTotal (run_body host nested parent round i body)
  unfolding run_body depth
  Total-run_body parent round i nil h = Total-skip
  Total-run_body parent round i (cons (dict ns) rest) h =
      Total-seq _ _ (Total-body_step parent round i ns (original_id ns) (omega arith))
        (Total-run_body parent round (suc i) rest (omega arith))
  Total-run_body parent round i (cons _ rest) h = Total-fault type_error

  Total-rounds :
      (condition : Value) (parent : String) (body : Items) (k round : ℕ)
      → depth_items body < limit
      → IsTotal (rounds host nested condition parent body k round)
  unfolding rounds
  Total-rounds condition parent body zero round h m = tt
  Total-rounds condition parent body (suc k) round h m =
      tested (Total-rounds condition parent body k (suc round) h)
        (host.evaluate_condition condition m.context)
    where
      tested :
          IsTotal (rounds host nested condition parent body k (suc round))
          → (o : Result Bool)
          → IsSome {A = Flow × Machine D W} (elim o [
            | err e ↦ some (raised e, m)
            | ok go ↦ elim go [
              | true ↦
                  (run_body host nested parent round 0 body
                      ⨾ rounds host nested condition parent body k (suc round))
                    m
              | false ↦ some (next, m)
            ]
          ])
      tested ih (err e) = tt
      tested ih (ok true) = Total-seq _ _ (Total-run_body parent round 0 body h) ih m
      tested ih (ok false) = tt

  Total-nested_body :
      (cfg : Fields) (id : String) (type : Value) (o : Result Items)
      → ((body : Items) → o ≡ ok body → depth_items body < limit)
      → IsTotal (nested_body host nested cfg id type o)
  unfolding nested_body repeat_body
  Total-nested_body cfg id type (err e) h = Total-fault e
  Total-nested_body cfg id type (ok body) h = Total-seq _ _ (nested_total body (h body refl)) (
      Total-seq _ _ Total-halt_check
        (Total-if (is_loop type) _ _ (Total-rounds _ id body _ 1 (h body refl)) Total-skip))

  pub Total-nested_part :
      (cfg : Fields) (id : String) (type : Value) (r : StepResult)
      → depth r.next_steps < limit
      → IsTotal (nested_part host nested cfg id type r)
  unfolding nested_part
  Total-nested_part cfg id type r h =
      Total-if (truthy r.next_steps) _ _
        (Total-nested_body cfg id type (elements r.next_steps)
          (λ body e. omega (arith, elements-depth r.next_steps body e)))
        Total-skip

  pub Some-fan_items :
      (parent : String) (template : Value) (items : Items) (i : ℕ) (results : Items)
      (m : Machine D W)
      → depth template < limit
      → IsSome (fan_items host nested parent template items i results m)
  unfolding fan_items
  Some-fan_items parent template nil i results m h = tt
  Some-fan_items parent template (cons v vs) i results m h =
      item (λ results' m'. Some-fan_items parent template vs (suc i) results' m' h)
        (item_step parent template i) refl
    where
      again : Items → Machine D W → Option (Flow × Items × Machine D W)
      again = fan_items host nested parent template vs (suc i)

      collected :
          ((results' : Items) (m' : Machine D W) → IsSome (again results' m'))
          → (key : String) (o : Outcome D W) → IsSome o
          → IsSome (elim o [
            | none ↦ none
            | some (fl, m') ↦ elim fl [
              | raised e ↦ some (raised e, results, m')
              | interrupted ↦ some (interrupted, results, m')
              | _ ↦
                  let results' = append_item results (output_of m'.context key) in
                  elim (is_halted m'.state.status) [
                    | true ↦ some (stop, results', m')
                    | false ↦ again results' m'
                  ]
            ]
          ])
      collected ih key none h' = h'
      collected ih key (some (next, m')) h' = elim (Bool-cases (is_halted m'.state.status)) [
        | inl e ↦ rw e tt
        | inr e ↦ rw e (ih _ m')
      ]
      collected ih key (some (stop, m')) h' = elim (Bool-cases (is_halted m'.state.status)) [
        | inl e ↦ rw e tt
        | inr e ↦ rw e (ih _ m')
      ]
      collected ih key (some (interrupted, m')) h' = tt
      collected ih key (some (raised e, m')) h' = tt

      item :
          ((results' : Items) (m' : Machine D W) → IsSome (again results' m'))
          → (o : Result (Fields × String)) → item_step parent template i ≡ o
          → IsSome (elim o [
            | err e ↦ some (raised e, results, with_item v m)
            | ok (step, key) ↦ elim (nested (cons (dict step) nil) (with_item v m)) [
              | none ↦ none
              | some (fl, m') ↦ elim fl [
                | raised e ↦ some (raised e, results, m')
                | interrupted ↦ some (interrupted, results, m')
                | _ ↦
                    let results' = append_item results (output_of m'.context key) in
                    elim (is_halted m'.state.status) [
                      | true ↦ some (stop, results', m')
                      | false ↦ again results' m'
                    ]
              ]
            ]
          ])
      item ih (err e) eq = tt
      item ih (ok (step, key)) eq =
          collected ih key _
            (Total-single step (omega (arith, item_step-depth parent template i step key eq)) _)
