-- ===== src/Workflow/Engine/Frame.antt =====
-- The frame of a list of steps: the run's name and inputs, and the other runs' directories.
use alharistech_platform.Base.{ℕ, String, ◌≡◌, ◌≢◌, refl, ◌∙◌, Option, none, some, arith, string_eq}
use alharistech_platform.Value.{Items, count_items}
use alharistech_platform.Workflow.State.{Event, files_of, append_log}
use alharistech_platform.Workflow.State.Laws.{files_of-save, files_of-append_log}
use alharistech_platform.Workflow.Engine.{Host, execute_steps}
use alharistech_platform.Workflow.Engine.Effects.{
  Machine, Flow, position, saved, logged, with_status, with_item, with_world, recorded, output_set,
}
use alharistech_platform.Workflow.Engine.Preserves.{Placed}
use alharistech_platform.Workflow.Engine.Stable.{Stable, execute_steps-Stable}

module _ {D W : Type 0} (start : Machine D W) where
  -- The run's name and inputs, the context that the steps share, and the other directories.
  pub record SameFrame (m : Machine D W) : Type 0 where
    pub run_id : m.state.run_id ≡ start.state.run_id
    pub workflow_id : m.state.workflow_id ≡ start.state.workflow_id
    pub state_inputs : m.state.inputs ≡ start.state.inputs
    pub inputs : m.context.inputs ≡ start.context.inputs
    pub default_integration : m.context.default_integration ≡ start.context.default_integration
    pub default_model : m.context.default_model ≡ start.context.default_model
    pub default_options : m.context.default_options ≡ start.context.default_options
    pub workflow :
        (files_of m.disk start.state.run_id).workflow
        ≡ (files_of start.disk start.state.run_id).workflow
    pub others :
        (id : String) → id ≢ start.state.run_id → files_of m.disk id ≡ files_of start.disk id

pub SameFrame-self : {D W : Type 0} (m : Machine D W) → SameFrame m m
SameFrame-self m = record {
  run_id = refl;
  workflow_id = refl;
  state_inputs = refl;
  inputs = refl;
  default_integration = refl;
  default_model = refl;
  default_options = refl;
  workflow = refl;
  others = λ id n. refl;
}

module _ {D W : Type 0} (start : Machine D W) where
  at_saved : (m : Machine D W) → SameFrame start m → SameFrame start (saved m)
  unfolding saved
  at_saved m h = record {
    run_id = h.run_id;
    workflow_id = h.workflow_id;
    state_inputs = h.state_inputs;
    inputs = h.inputs;
    default_integration = h.default_integration;
    default_model = h.default_model;
    default_options = h.default_options;
    workflow =
        ground (arith, h.run_id, h.workflow, files_of-save m.state m.disk start.state.run_id);
    others = λ id n. ground (arith, h.run_id, h.others id, files_of-save m.state m.disk id);
  }

  at_logged : (e : Event) (m : Machine D W) → SameFrame start m → SameFrame start (logged e m)
  unfolding logged append_log
  at_logged e m h = record {
    run_id = h.run_id;
    workflow_id = h.workflow_id;
    state_inputs = h.state_inputs;
    inputs = h.inputs;
    default_integration = h.default_integration;
    default_model = h.default_model;
    default_options = h.default_options;
    workflow =
        ground
          (arith, h.run_id, h.workflow, files_of-append_log e m.state m.disk start.state.run_id);
    others = λ id n. ground (arith, h.run_id, h.others id, files_of-append_log e m.state m.disk id);
  }

  keep :
      (m m' : Machine D W)
      → m'.state.run_id ≡ m.state.run_id
      → m'.state.workflow_id ≡ m.state.workflow_id
      → m'.state.inputs ≡ m.state.inputs
      → m'.context.inputs ≡ m.context.inputs
      → m'.context.default_integration ≡ m.context.default_integration
      → m'.context.default_model ≡ m.context.default_model
      → m'.context.default_options ≡ m.context.default_options
      → m'.disk ≡ m.disk
      → SameFrame start m
      → SameFrame start m'
  keep m m' e₁ e₂ e₃ e₄ e₅ e₆ e₇ e₈ h = record {
    run_id = e₁ ∙ h.run_id;
    workflow_id = e₂ ∙ h.workflow_id;
    state_inputs = e₃ ∙ h.state_inputs;
    inputs = e₄ ∙ h.inputs;
    default_integration = e₅ ∙ h.default_integration;
    default_model = e₆ ∙ h.default_model;
    default_options = e₇ ∙ h.default_options;
    workflow = cc (e₈, h.workflow);
    others = λ id n. cc (e₈, h.others id n);
  }

  SameFrame-Stable : Stable (SameFrame start) (λ _. Unit {0})
  unfolding with_status position with_world with_item recorded output_set
  SameFrame-Stable = record {
    at_status = λ st m h. keep m _ refl refl refl refl refl refl refl refl h;
    at_position = λ id m h. keep m _ refl refl refl refl refl refl refl refl h;
    at_index = λ id i m _ h. keep m _ refl refl refl refl refl refl refl refl h;
    at_saved = at_saved;
    at_logged = at_logged;
    at_world = λ w m h. keep m _ refl refl refl refl refl refl refl refl h;
    at_item = λ v m h. keep m _ refl refl refl refl refl refl refl refl h;
    at_recorded = λ k d m h. keep m _ refl refl refl refl refl refl refl refl h;
    at_output = λ k o m h. keep m _ refl refl refl refl refl refl refl refl h;
  }

pub everywhere : (offset : Option ℕ) (i n : ℕ) → Placed (λ _. Unit {0}) offset i n
everywhere none i n = tt
everywhere (some o) i n = λ j lo hi. tt

-- However a list of steps ends, with fuel left, the run keeps its name, inputs and defaults, its
-- copy of the workflow document stays, and no other run's directory has changed.
pub execute_steps-SameFrame :
    {D W : Type 0} (host : Host W) (f : ℕ) (steps : Items) (offset : Option ℕ) (m m' : Machine D W)
    (fl : Flow)
    → execute_steps host f steps offset m ≡ some (fl, m')
    → SameFrame m m'
execute_steps-SameFrame host f steps offset m m' fl e =
    execute_steps-Stable (SameFrame-Stable m) host f steps offset m m' fl
      (everywhere offset 0 (count_items steps)) (SameFrame-self m) e
