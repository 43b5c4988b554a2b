-- ===== src/Workflow/Engine/History.antt =====
-- The run log, in memory and in log.jsonl.
use alharistech_platform.Base.{
  ℕ, ◌≡◌, refl, sym, ap, ◌∙◌, Option, some, List, [], ◌∷◌, ◌++◌, arith, string_eq,
}
use mathlib.Core.List.{append-nil, append_assoc}
use alharistech_platform.Value.{Items, count_items}
use alharistech_platform.Workflow.State.{Event, files_of, append_log}
use alharistech_platform.Workflow.State.Laws.{files_of-save, files_of-append_log}
use alharistech_platform.Workflow.Engine.{Host, execute_steps}
use alharistech_platform.Workflow.Engine.Effects.{
  Machine, Flow, position, saved, logged, with_status, with_item, with_world, recorded, output_set,
}
use alharistech_platform.Workflow.Engine.Frame.{everywhere}
use alharistech_platform.Workflow.Engine.Stable.{Stable, execute_steps-Stable}

-- Since `start` the same entries were added to both logs.
pub record Logged {D W : Type 0} (start m : Machine D W) : Type 0 where
  pub run_id : m.state.run_id ≡ start.state.run_id
  pub added : List Event
  pub in_memory : m.state.log_entries ≡ start.state.log_entries ++ added
  pub on_disk :
      (files_of m.disk start.state.run_id).log
      ≡ (files_of start.disk start.state.run_id).log ++ added

module _ {D W : Type 0} (start : Machine D W) where
  keep :
      (m m' : Machine D W)
      → m'.state.run_id ≡ m.state.run_id
      → m'.state.log_entries ≡ m.state.log_entries
      → (files_of m'.disk start.state.run_id).log ≡ (files_of m.disk start.state.run_id).log
      → Logged start m
      → Logged start m'
  keep m m' e₁ e₂ e₃ h = record {
    run_id = e₁ ∙ h.run_id;
    added = h.added;
    in_memory = e₂ ∙ h.in_memory;
    on_disk = e₃ ∙ h.on_disk;
  }

  log-saved :
      (m : Machine D W)
      → (files_of (saved m).disk start.state.run_id).log ≡ (files_of m.disk start.state.run_id).log
  unfolding saved
  log-saved m = ground (arith, files_of-save m.state m.disk start.state.run_id)

  at_logged : (e : Event) (m : Machine D W) → Logged start m → Logged start (logged e m)
  unfolding logged append_log
  at_logged e m h = record {
    run_id = h.run_id;
    added = h.added ++ e ∷ [];
    in_memory = ap (λ l. l ++ e ∷ []) h.in_memory ∙ append_assoc _ h.added (e ∷ []);
    on_disk = log_added ∙ ap (λ l. l ++ e ∷ []) h.on_disk ∙ append_assoc _ h.added (e ∷ []);
  }
    where
      log_added :
          (files_of (append_log e m.state m.disk).1 start.state.run_id).log
          ≡ (files_of m.disk start.state.run_id).log ++ e ∷ []
      log_added = ground (arith, h.run_id, files_of-append_log e m.state m.disk start.state.run_id)

  Logged-Stable : Stable (Logged start) (λ _. Unit {0})
  unfolding with_status position with_world with_item recorded output_set
  Logged-Stable = record {
    at_status = λ st m h. keep m _ refl refl refl h;
    at_position = λ id m h. keep m _ refl refl refl h;
    at_index = λ id i m _ h. keep m _ refl refl refl h;
    at_saved = λ m h. keep m _ (unfold saved in refl) (unfold saved in refl) (log-saved m) h;
    at_logged = at_logged;
    at_world = λ w m h. keep m _ refl refl refl h;
    at_item = λ v m h. keep m _ refl refl refl h;
    at_recorded = λ k d m h. keep m _ refl refl refl h;
    at_output = λ k o m h. keep m _ refl refl refl h;
  }

-- However a list of steps ends, with fuel left, no log entry is lost or changed, and what was added
-- to the log in memory was added to log.jsonl, in the same order.
pub execute_steps-Logged :
    {D W : Type 0} (host : Host W) (f : ℕ) (steps : Items) (offset : Option ℕ) (m m' : Machine D W)
    (fl : Flow)
    → execute_steps host f steps offset m ≡ some (fl, m')
    → Logged m m'
execute_steps-Logged host f steps offset m m' fl e =
    execute_steps-Stable (Logged-Stable m) host f steps offset m m' fl
      (everywhere offset 0 (count_items steps))
      (record {
        run_id = refl;
        added = [];
        in_memory = sym (append-nil _);
        on_disk = sym (append-nil _);
      })
      e
