-- ===== src/Workflow/Engine/Mirror.antt =====
-- The two tables of step results, `context.steps` and `state.step_results`.
use alharistech_platform.Base.{ℕ, ◌≡◌, Option, some, ap, string_eq}
use alharistech_platform.Base.Dict
use alharistech_platform.Value.{Items, count_items}
use alharistech_platform.Workflow.State.{append_log}
use alharistech_platform.Workflow.Engine.{Host, execute_steps}
use alharistech_platform.Workflow.Engine.Effects.{
  Machine, Flow, position, saved, logged, with_status, with_item, with_world, recorded, output_set,
  with_output,
}
use alharistech_platform.Workflow.Engine.Frame.{everywhere}
use alharistech_platform.Workflow.Engine.Stable.{Stable, execute_steps-Stable}

abbrev pub Mirrored : {D W : Type 0} → Machine D W → Type 0
Mirrored m = m.context.steps ≡ m.state.step_results

Mirrored-Stable : {D W : Type 0} → Stable (Mirrored {D = D} {W = W}) (λ _. Unit {0})
unfolding with_status position saved logged append_log with_world with_item recorded output_set
Mirrored-Stable = record {
  at_status = λ st m h. h;
  at_position = λ id m h. h;
  at_index = λ id i m _ h. h;
  at_saved = λ m h. h;
  at_logged = λ e m h. h;
  at_world = λ w m h. h;
  at_item = λ v m h. h;
  at_recorded = λ k d m h. ap (λ t. Dict.put t k d) h;
  at_output = λ k o m h. ap (λ t. Dict.adjust t k (with_output o)) h;
}

-- If the results that expressions read are those that are persisted when a list of steps starts,
-- they are so however it ends, loops and fan-outs included.
pub execute_steps-Mirrored :
    {D W : Type 0} (host : Host W) (f : ℕ) (steps : Items) (offset : Option ℕ) (m m' : Machine D W)
    (fl : Flow)
    → Mirrored m
    → execute_steps host f steps offset m ≡ some (fl, m')
    → Mirrored m'
execute_steps-Mirrored host f steps offset m m' fl h e =
    execute_steps-Stable Mirrored-Stable host f steps offset m m' fl
      (everywhere offset 0 (count_items steps)) h e
