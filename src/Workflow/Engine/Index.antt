-- ===== src/Workflow/Engine/Index.antt =====
-- `current_step_index`, from which a run is resumed.
use alharistech_platform.Base.{ℕ, ◌+◌, ◌≤◌, ◌<◌, ◌≡◌, refl, ◌⊎◌, inl, inr, none, some, arith}
use alharistech_platform.Value.{Items, count_items}
use alharistech_platform.Workflow.State.{append_log}
use alharistech_platform.Workflow.Engine.{Host, execute_steps}
use alharistech_platform.Workflow.Engine.Effects.{
  Machine, Flow, position, saved, logged, with_status, with_item, with_world, recorded, output_set,
}
use alharistech_platform.Workflow.Engine.Stable.{Stable, execute_steps-Stable}

module _ {D W : Type 0} (index : ℕ) (Place : ℕ → Type 0) where
  abbrev AtPlace : Machine D W → Type 0
  AtPlace m = (m.state.current_step_index ≡ index) ⊎ Place m.state.current_step_index

  AtPlace-Stable : Stable AtPlace Place
  unfolding with_status position saved logged append_log with_world with_item recorded output_set
  AtPlace-Stable = record {
    at_status = λ st m h. h;
    at_position = λ id m h. h;
    at_index = λ id i m p _. inr p;
    at_saved = λ m h. h;
    at_logged = λ e m h. h;
    at_world = λ w m h. h;
    at_item = λ v m h. h;
    at_recorded = λ k d m h. h;
    at_output = λ k o m h. h;
  }

module _ {D W : Type 0} (host : Host W) (f : ℕ) (steps : Items) where
  -- Steps that run below another step never move the index.
  pub index-nested :
      (m m' : Machine D W) (fl : Flow)
      → execute_steps host f steps none m ≡ some (fl, m')
      → m'.state.current_step_index ≡ m.state.current_step_index
  index-nested m m' fl e = only (
      execute_steps-Stable (AtPlace-Stable m.state.current_step_index (λ _. ⊥)) host f steps none m
        m' fl tt (inl refl) e)
    where
      only :
          AtPlace {D = D} {W = W} m.state.current_step_index (λ _. ⊥) m'
          → m'.state.current_step_index ≡ m.state.current_step_index
      only (inl h) = h
      only (inr h) = absurd h

  -- Steps that run at top level from `offset` leave the index at one of their own places, or where
  -- it was.
  pub index-top_level :
      (offset : ℕ) (m m' : Machine D W) (fl : Flow)
      → execute_steps host f steps (some offset) m ≡ some (fl, m')
      → (m'.state.current_step_index ≡ m.state.current_step_index)
        ⊎ (offset ≤ m'.state.current_step_index)
          × (m'.state.current_step_index < offset + count_items steps)
  index-top_level offset m m' fl e =
      execute_steps-Stable
        (AtPlace-Stable m.state.current_step_index
          (λ i. (offset ≤ i) × (i < offset + count_items steps)))
        host f steps (some offset) m m' fl (λ j lo hi. omega arith) (inl refl) e
