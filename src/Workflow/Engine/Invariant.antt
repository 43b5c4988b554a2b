-- ===== src/Workflow/Engine/Invariant.antt =====
-- From assertions about the assignments of the engine to a step's loop and fan-out.
use alharistech_platform.Base.{
  ℕ, zero, suc, String, ◌≡◌, Bool, true, false, inl, inr, refl, Option, none, some, if◌then◌else◌,
}
use alharistech_platform.Value.{Value, dict, Items, nil, cons, Fields, truthy, append_item}
use alharistech_platform.Workflow.Model.{StepResult, Exn, Result, ok, err}
use alharistech_platform.Workflow.Engine.{
  Host, elements, is_loop, is_fan_out, original_id, item_step, output_of, alias_back, body_step,
  run_body, rounds, repeat_body, nested_body, nested_part, fan_items, fan_done, fan_over,
  fan_out_part,
}
use alharistech_platform.Workflow.Engine.Effects.{
  Machine, Flow, Outcome, Action, next, stop, raised, interrupted, ◌⨾◌, is_halted, update, skip,
  fault, interrupt, with_item, output_set, halt_check,
}
use alharistech_platform.Workflow.Engine.Rules.{
  Laws, Either, Within, Within-seq, Within-halt_check, Running-aliased,
}

module _ {D W : Type 0} {Running Halted Broken : Machine D W → Type 0} {Place : ℕ → Type 0}
    (laws : Laws Running Halted Broken Place) (host : Host W) (nested : Items → Action D W)
    (nested_keeps : (body : Items) (m : Machine D W)
      → Running m
      → Within laws (Either laws) (nested body m)) where
  abbrev pub Keeps : Action D W → Type 0
  Keeps p = (m : Machine D W) → Running m → Within laws Running (p m)

  pub Keeps-seq : (p q : Action D W) → Keeps p → Keeps q → Keeps (p ⨾ q)
  Keeps-seq p q hp hq m h = Within-seq laws Running Running p q m (hp m h) hq

  pub Keeps-skip : Keeps skip
  unfolding skip
  Keeps-skip m h = h

  pub Keeps-fault : (e : Exn) → Keeps (fault e)
  unfolding fault
  Keeps-fault e m h = laws.broken_of m h

  pub Keeps-interrupt : Keeps interrupt
  unfolding interrupt
  Keeps-interrupt m h = laws.broken_of m h

  pub Keeps-if : (b : Bool) (p q : Action D W) → Keeps p → Keeps q → Keeps (if b then p else q)
  Keeps-if true p q hp hq = hp
  Keeps-if false p q hp hq = hq

  pub Keeps-update :
      (f : Machine D W → Machine D W)
      → ((m : Machine D W) → Running m → Running (f m))
      → Keeps (update f)
  unfolding update
  Keeps-update f hf = hf

  Keeps-nested : (body : Items) → Keeps (nested body ⨾ halt_check)
  Keeps-nested body m h =
      Within-seq laws (Either laws) Running (nested body) halt_check m (nested_keeps body m h)
        (Within-halt_check laws)

  Keeps-nested_then :
      (body : Items) (q : Action D W) → Keeps q → Keeps (nested body ⨾ halt_check ⨾ q)
  Keeps-nested_then body q hq m h =
      Within-seq laws (Either laws) Running (nested body) (halt_check ⨾ q) m (nested_keeps body m h)
        λ m' h'. Within-seq laws Running Running halt_check q m' (Within-halt_check laws m' h') hq

  Keeps-alias_back : (o : Option String) (key : String) → Keeps (alias_back host nested o key)
  unfolding alias_back update
  Keeps-alias_back none key = Keeps-skip
  Keeps-alias_back (some orig) key = Running-aliased laws orig key

  Keeps-body_step :
      (parent : String) (round i : ℕ) (ns : Fields) (o : Result (Option String))
      → Keeps (body_step host nested parent round i ns o)
  unfolding body_step
  Keeps-body_step parent round i ns (err e) = Keeps-fault e
  Keeps-body_step parent round i ns (ok o) = Keeps-nested_then _ _ (Keeps-alias_back o _)

  Keeps-run_body :
      (parent : String) (round i : ℕ) (body : Items)
      → Keeps (run_body host nested parent round i body)
  unfolding run_body
  Keeps-run_body parent round i nil = Keeps-skip
  Keeps-run_body parent round i (cons (dict ns) rest) =
      Keeps-seq _ _ (Keeps-body_step parent round i ns (original_id ns))
        (Keeps-run_body parent round (suc i) rest)
  Keeps-run_body parent round i (cons _ rest) = Keeps-fault Exn.type_error

  Keeps-rounds :
      (condition : Value) (parent : String) (body : Items) (k round : ℕ)
      → Keeps (rounds host nested condition parent body k round)
  unfolding rounds
  Keeps-rounds condition parent body zero round m h = h
  Keeps-rounds condition parent body (suc k) round m h =
      tested (Keeps-rounds condition parent body k (suc round))
        (host.evaluate_condition condition m.context)
    where
      tested :
          Keeps (rounds host nested condition parent body k (suc round))
          → (o : Result Bool)
          → Within laws Running (elim o [
            | err e ↦ some (raised e, m)
            | ok go ↦ elim go [
              | true ↦
                  (run_body host nested parent round 0 body
                      ⨾ rounds host nested condition parent body k (suc round))
                    m
              | false ↦ some (next, m)
            ]
          ])
      tested ih (err e) = laws.broken_of m h
      tested ih (ok true) = Keeps-seq _ _ (Keeps-run_body parent round 0 body) ih m h
      tested ih (ok false) = h

  pub Keeps-nested_part :
      (cfg : Fields) (id : String) (type : Value) (r : StepResult)
      → Keeps (nested_part host nested cfg id type r)
  unfolding nested_part nested_body repeat_body
  Keeps-nested_part cfg id type r =
      Keeps-if (truthy r.next_steps) _ _ (body_keeps (elements r.next_steps)) Keeps-skip
    where
      body_keeps : (o : Result Items) → Keeps (nested_body host nested cfg id type o)
      body_keeps (err e) = Keeps-fault e
      body_keeps (ok body) =
          Keeps-nested_then body _
            (Keeps-if (is_loop type) _ _ (Keeps-rounds _ id body _ 1) Keeps-skip)

  -- The same of the loop over a fan-out's items, which hands on the collected outputs.
  abbrev FanWithin : Option (Flow × Items × Machine D W) → Type 0
  FanWithin none = Unit
  FanWithin (some (fl, results, m)) = Within laws Running (some (fl, m))

  FanWithin-fan_items :
      (parent : String) (template : Value) (items : Items) (i : ℕ) (results : Items)
      (m : Machine D W)
      → Running m
      → FanWithin (fan_items host nested parent template items i results m)
  unfolding fan_items
  FanWithin-fan_items parent template nil i results m h = h
  FanWithin-fan_items parent template (cons v vs) i results m h =
      item (FanWithin-fan_items parent template vs (suc i)) (item_step parent template i)
    where
      again : Items → Machine D W → Option (Flow × Items × Machine D W)
      again = fan_items host nested parent template vs (suc i)

      AgainKeeps : Type 0
      AgainKeeps =
          (results' : Items) (m' : Machine D W) → Running m' → FanWithin (again results' m')

      checked :
          AgainKeeps
          → (results' : Items) (m' : Machine D W) (b : Bool) → Either laws m'
          → is_halted m'.state.status ≡ b
          → FanWithin (elim b [ true ↦ some (stop, results', m') | false ↦ again results' m' ])
      checked ih results' m' true h' e = laws.halted_of m' h' e
      checked ih results' m' false h' e = ih results' m' (laws.running_of m' h' e)

      collected :
          AgainKeeps
          → (key : String) (o : Outcome D W) → Within laws (Either laws) o
          → FanWithin (elim o [
            | none ↦ none
            | some (fl, m') ↦ elim fl [
              | raised e ↦ some (raised e, results, m')
              | interrupted ↦ some (interrupted, results, m')
              | _ ↦
                  let results' = append_item results (output_of m'.context key) in
                  elim (is_halted m'.state.status) [
                    | true ↦ some (stop, results', m')
                    | false ↦ again results' m'
                  ]
            ]
          ])
      collected ih key none h' = tt
      collected ih key (some (next, m')) h' = checked ih _ m' (is_halted m'.state.status) h' refl
      collected ih key (some (stop, m')) h' =
          checked ih _ m' (is_halted m'.state.status) (inr h') refl
      collected ih key (some (interrupted, m')) h' = h'
      collected ih key (some (raised e, m')) h' = h'

      item :
          AgainKeeps
          → (o : Result (Fields × String))
          → FanWithin (elim o [
            | err e ↦ some (raised e, results, with_item v m)
            | ok (step, key) ↦ elim (nested (cons (dict step) nil) (with_item v m)) [
              | none ↦ none
              | some (fl, m') ↦ elim fl [
                | raised e ↦ some (raised e, results, m')
                | interrupted ↦ some (interrupted, results, m')
                | _ ↦
                    let results' = append_item results (output_of m'.context key) in
                    elim (is_halted m'.state.status) [
                      | true ↦ some (stop, results', m')
                      | false ↦ again results' m'
                    ]
              ]
            ]
          ])
      item ih (err e) = laws.broken_of _ (laws.at_item v m h)
      item ih (ok (step, key)) =
          collected ih key _ (nested_keeps (cons (dict step) nil) _ (laws.at_item v m h))

  Either-item : (v : Value) (m : Machine D W) → Either laws m → Either laws (with_item v m)
  Either-item v m (inl h) = inl (laws.at_item v m h)
  Either-item v m (inr h) = inr (laws.at_item_halted v m h)

  Either-output :
      (k : String) (o : Fields) (m : Machine D W) → Either laws m → Either laws (output_set k o m)
  Either-output k o m (inl h) = inl (laws.at_output k o m h)
  Either-output k o m (inr h) = inr (laws.at_output_halted k o m h)

  Within-fan_done :
      (id : String) (r : StepResult) (results : Items) (fl : Flow) (m : Machine D W)
      → Within laws Running (some (fl, m))
      → Within laws Running (fan_done host nested id r results fl m)
  unfolding fan_done ◌⨾◌ update fault interrupt
  Within-fan_done id r results (raised e) m h = h
  Within-fan_done id r results interrupted m h = h
  Within-fan_done id r results next m h =
      Within-halt_check laws _ (Either-output id _ _ (Either-item Value.null m (inl h)))
  Within-fan_done id r results stop m h =
      Within-halt_check laws _ (Either-output id _ _ (Either-item Value.null m (inr h)))

  Keeps-fan_over :
      (id : String) (template : Value) (r : StepResult) (o : Result Items)
      → Keeps (fan_over host nested id template r o)
  unfolding fan_over
  Keeps-fan_over id template r (err e) m h = laws.broken_of m h
  Keeps-fan_over id template r (ok items) m h =
      done (fan_items host nested id template items 0 nil m)
        (FanWithin-fan_items id template items 0 nil m h)
    where
      done :
          (o : Option (Flow × Items × Machine D W))
          → FanWithin o
          → Within laws Running (elim o [
            | none ↦ none
            | some (fl, results, m') ↦ fan_done host nested id r results fl m'
          ])
      done none h' = tt
      done (some (fl, results, m')) h' = Within-fan_done id r results fl m' h'

  pub Keeps-fan_out_part :
      (id : String) (type : Value) (r : StepResult) → Keeps (fan_out_part host nested id type r)
  unfolding fan_out_part
  Keeps-fan_out_part id type r =
      Keeps-if (is_fan_out type) _ _
        (Keeps-if _ _ _ (Keeps-fan_over id _ r _) (Keeps-update _ (laws.at_output id _))) Keeps-skip
