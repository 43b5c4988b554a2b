-- ===== src/Workflow/Engine/Stable.antt =====
-- Assertions that hold all through a run, whatever the status is.
use alharistech_platform.Base.{ℕ, String, ◌≡◌, ◌⊎◌, inl, inr, Option, none, some}
use alharistech_platform.Value.{Value, Items, Fields, count_items}
use alharistech_platform.Workflow.Model.{RunStatus, StepData}
use alharistech_platform.Workflow.State.{Event}
use alharistech_platform.Workflow.Engine.{Host, execute_steps}
use alharistech_platform.Workflow.Engine.Effects.{
  Machine, Flow, Outcome, next, stop, raised, interrupted, position, saved, logged, with_status,
  with_item, with_world, recorded, output_set,
}
use alharistech_platform.Workflow.Engine.Rules.{Laws, Either, Within}
use alharistech_platform.Workflow.Engine.Preserves.{Placed, Within-execute_steps}

pub record Stable {D W : Type 0} (J : Machine D W → Type 0) (Place : ℕ → Type 0) : Type 0 where
  pub at_status : (st : RunStatus) (m : Machine D W) → J m → J (with_status st m)
  pub at_position : (id : String) (m : Machine D W) → J m → J (position id none m)
  pub at_index :
      (id : String) (i : ℕ) (m : Machine D W) → Place i → J m → J (position id (some i) m)
  pub at_saved : (m : Machine D W) → J m → J (saved m)
  pub at_logged : (e : Event) (m : Machine D W) → J m → J (logged e m)
  pub at_world : (w : W) (m : Machine D W) → J m → J (with_world w m)
  pub at_item : (v : Value) (m : Machine D W) → J m → J (with_item v m)
  pub at_recorded : (k : String) (d : StepData) (m : Machine D W) → J m → J (recorded k d m)
  pub at_output : (k : String) (o : Fields) (m : Machine D W) → J m → J (output_set k o m)

module _ {D W : Type 0} {J : Machine D W → Type 0} {Place : ℕ → Type 0}
    (stable : Stable J Place) where
  same : (m : Machine D W) → J m ⊎ J m → J m
  same m (inl h) = h
  same m (inr h) = h

  abbrev laws : Laws J J J Place
  laws = record {
    running_of = λ m h _. same m h;
    halted_of = λ m h _. same m h;
    broken_of = λ m h. h;
    halts = λ st m _ h. stable.at_status st m h;
    at_position = stable.at_position;
    at_index = stable.at_index;
    at_saved = stable.at_saved;
    at_saved_halted = stable.at_saved;
    at_logged = stable.at_logged;
    at_logged_halted = stable.at_logged;
    at_world = stable.at_world;
    at_item = stable.at_item;
    at_item_halted = stable.at_item;
    at_recorded = stable.at_recorded;
    at_output = stable.at_output;
    at_output_halted = stable.at_output;
  }

  of_Within : (fl : Flow) (m : Machine D W) → Within laws (Either laws) (some (fl, m)) → J m
  of_Within next m h = same m h
  of_Within stop m h = h
  of_Within interrupted m h = h
  of_Within (raised e) m h = h

  ends :
      (o : Outcome D W) (fl : Flow) (m : Machine D W)
      → Within laws (Either laws) o
      → o ≡ some (fl, m)
      → J m
  ends o fl m h e = of_Within fl m (rw e at h)

  pub execute_steps-Stable :
      (host : Host W) (f : ℕ) (steps : Items) (offset : Option ℕ) (m m' : Machine D W) (fl : Flow)
      → Placed Place offset 0 (count_items steps)
      → J m
      → execute_steps host f steps offset m ≡ some (fl, m')
      → J m'
  execute_steps-Stable host f steps offset m m' fl p h e =
      ends _ fl m' (Within-execute_steps laws host f steps offset m p h) e
