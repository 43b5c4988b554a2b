-- ===== src/Workflow/Engine/Rules.antt =====
-- Assertions about actions: what holds when an action goes on, returns early, or is cut short.
use alharistech_platform.Base.{
  ℕ, String, ◌≡◌, true, false, ◌⊎◌, inl, inr, none, some, Bool-cases, Option, string_eq,
}
use alharistech_platform.Base.Dict
use alharistech_platform.Value.{Value, Fields}
use alharistech_platform.Workflow.Model.{RunStatus, StepData}
use alharistech_platform.Workflow.State.{Event}
use alharistech_platform.Workflow.Engine.Effects
use alharistech_platform.Workflow.Engine.Effects.{
  Machine, Flow, Outcome, Action, next, stop, raised, interrupted, ◌⨾◌, after, call, is_halted,
  position, saved, logged, with_status, with_item, with_world, recorded, aliased, output_set,
  halt_check, update,
}

-- `Running` holds while the steps run, `Halted` after an early return, `Broken` where an exception
-- passes; `Place` says which indices the engine may store. The laws say that the engine's
-- assignments keep them.
pub record Laws {D W : Type 0} (Running Halted Broken : Machine D W → Type 0) (Place : ℕ → Type 0)
    : Type 0 where
  pub running_of :
      (m : Machine D W) → Running m ⊎ Halted m → is_halted m.state.status ≡ false → Running m
  pub halted_of :
      (m : Machine D W) → Running m ⊎ Halted m → is_halted m.state.status ≡ true → Halted m
  pub broken_of : (m : Machine D W) → Running m → Broken m
  pub halts :
      (st : RunStatus) (m : Machine D W)
      → is_halted st ≡ true
      → Running m
      → Halted (with_status st m)
  pub at_position : (id : String) (m : Machine D W) → Running m → Running (position id none m)
  pub at_index :
      (id : String) (i : ℕ) (m : Machine D W)
      → Place i
      → Running m
      → Running (position id (some i) m)
  pub at_saved : (m : Machine D W) → Running m → Running (saved m)
  pub at_saved_halted : (m : Machine D W) → Halted m → Halted (saved m)
  pub at_logged : (e : Event) (m : Machine D W) → Running m → Running (logged e m)
  pub at_logged_halted : (e : Event) (m : Machine D W) → Halted m → Halted (logged e m)
  pub at_world : (w : W) (m : Machine D W) → Running m → Running (with_world w m)
  pub at_item : (v : Value) (m : Machine D W) → Running m → Running (with_item v m)
  pub at_item_halted : (v : Value) (m : Machine D W) → Halted m → Halted (with_item v m)
  pub at_recorded :
      (k : String) (d : StepData) (m : Machine D W) → Running m → Running (recorded k d m)
  pub at_output :
      (k : String) (o : Fields) (m : Machine D W) → Running m → Running (output_set k o m)
  pub at_output_halted :
      (k : String) (o : Fields) (m : Machine D W) → Halted m → Halted (output_set k o m)

module _ {D W : Type 0} {Running Halted Broken : Machine D W → Type 0} {Place : ℕ → Type 0}
    (laws : Laws Running Halted Broken Place) where
  -- What a called function leaves behind: the caller looks at the status to tell which.
  abbrev pub Either : Machine D W → Type 0
  Either m = Running m ⊎ Halted m

  -- `Next` holds where the action goes on.
  abbrev pub Within : (Machine D W → Type 0) → Outcome D W → Type 0
  Within Next none = Unit
  Within Next (some (next, m)) = Next m
  Within Next (some (stop, m)) = Halted m
  Within Next (some (interrupted, m)) = Broken m
  Within Next (some (raised e, m)) = Broken m

  Within-after :
      (Mid Next : Machine D W → Type 0) (q : Action D W) (fl : Flow) (m : Machine D W)
      → ((m' : Machine D W) → Mid m' → Within Next (q m'))
      → Within Mid (some (fl, m))
      → Within Next (after fl m q)
  Within-after Mid Next q next m hq h = hq m h
  Within-after Mid Next q stop m hq h = h
  Within-after Mid Next q interrupted m hq h = h
  Within-after Mid Next q (raised e) m hq h = h

  Within-bind :
      (Mid Next : Machine D W → Type 0) (o : Outcome D W) (q : Action D W)
      → ((m' : Machine D W) → Mid m' → Within Next (q m'))
      → Within Mid o
      → Within Next (elim o [ none ↦ none | some (fl, m') ↦ after fl m' q ])
  Within-bind Mid Next none q hq h = tt
  Within-bind Mid Next (some (fl, m)) q hq h = Within-after Mid Next q fl m hq h

  pub Within-seq :
      (Mid Next : Machine D W → Type 0) (p q : Action D W) (m : Machine D W)
      → Within Mid (p m)
      → ((m' : Machine D W) → Mid m' → Within Next (q m'))
      → Within Next ((p ⨾ q) m)
  unfolding ◌⨾◌
  Within-seq Mid Next p q m hp hq = Within-bind Mid Next (p m) q hq hp

  pub Within-call :
      (p : Action D W) (m : Machine D W) → Within Running (p m) → Within Either (call p m)
  unfolding call
  Within-call p m = returns (p m)
    where
      returns :
          (o : Outcome D W)
          → Within Running o
          → Within Either (elim o [ none ↦ none | some (fl, m') ↦ some (Effects.returned fl, m') ])
      returns none h = tt
      returns (some (next, m')) h = inl h
      returns (some (stop, m')) h = inr h
      returns (some (interrupted, m')) h = h
      returns (some (raised e, m')) h = h

  pub Within-halt_check : (m : Machine D W) → Either m → Within Running (halt_check m)
  unfolding halt_check
  Within-halt_check m h = elim (Bool-cases (is_halted m.state.status)) [
    | inl yes_halted ↦ rw yes_halted (laws.halted_of m h yes_halted)
    | inr not_halted ↦ rw not_halted (laws.running_of m h not_halted)
  ]

  pub Running-aliased : (j k : String) (m : Machine D W) → Running m → Running (aliased j k m)
  unfolding aliased
  Running-aliased j k m h = found (Dict.get m.context.steps k)
    where
      found : (o : Option StepData) → Running (elim o [ none ↦ m | some d ↦ recorded j d m ])
      found none = h
      found (some d) = laws.at_recorded j d m h
