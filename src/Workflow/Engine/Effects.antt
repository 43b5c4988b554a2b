-- ===== src/Workflow/Engine/Effects.antt =====
-- The engine's state, and actions on it. An action ends by going on, by an early return, or by an
-- exception; `none` means that the fuel ran out.
use alharistech_platform.Base.{
  ℕ, String, Bool, true, false, Option, none, some, string_eq, if◌then◌else◌,
}
use alharistech_platform.Base.Dict
use alharistech_platform.Value.{Value, Fields}
use alharistech_platform.Workflow.Model.{RunStatus, StepData, StepContext, Exn}
use alharistech_platform.Workflow.State.{RunState, Event, Disk, save, append_log}

-- The run's context and state, which the Python code shares by reference, the disk and the world.
-- `D` stands for the workflow documents that the disk holds.
pub record Machine (D W : Type 0) : Type 0 where
  pub context : StepContext
  pub state : RunState
  pub disk : Disk D
  pub world : W

pub data Flow : Type 0 where
  next stop interrupted : Flow
  raised : Exn → Flow

abbrev pub Outcome : Type 0 → Type 0 → Type 0
Outcome D W = Option (Flow × Machine D W)

abbrev pub Action : Type 0 → Type 0 → Type 0
Action D W = Machine D W → Outcome D W

abbrev pub returned : Flow → Flow
returned next = next
returned stop = next
returned interrupted = interrupted
returned (raised e) = raised e

abbrev pub with_output : Fields → StepData → StepData
with_output out d = record d { output = out }

abbrev pub is_halted : RunStatus → Bool
is_halted RunStatus.paused = true
is_halted RunStatus.failed = true
is_halted RunStatus.aborted = true
is_halted _ = false

module _ {D W : Type 0} where
  abbrev pub after : Flow → Machine D W → Action D W → Outcome D W
  after next m q = q m
  after stop m q = some (stop, m)
  after interrupted m q = some (interrupted, m)
  after (raised e) m q = some (raised e, m)

  -- `p`, and then `q` if `p` went on.
  infixr 20 ◌⨾◌
  unfoldable pub ◌⨾◌ : Action D W → Action D W → Action D W
  ◌⨾◌ p q m = elim (p m) [ none ↦ none | some (fl, m') ↦ after fl m' q ]

  -- A call of a function: its early return is no early return of the caller.
  unfoldable pub call : Action D W → Action D W
  call p m = elim (p m) [ none ↦ none | some (fl, m') ↦ some (returned fl, m') ]

  unfoldable pub skip : Action D W
  skip m = some (next, m)

  unfoldable pub leave : Action D W
  leave m = some (stop, m)

  unfoldable pub fault : Exn → Action D W
  fault e m = some (raised e, m)

  unfoldable pub interrupt : Action D W
  interrupt m = some (interrupted, m)

  unfoldable pub update : (Machine D W → Machine D W) → Action D W
  update f m = some (next, f m)

  -- The assignments of the engine, each as a function on the machine.
  unfoldable pub position : String → Option ℕ → Machine D W → Machine D W
  position id index m = record m {
    state = record m.state {
      current_step_id = some id;
      current_step_index = elim index [ none ↦ m.state.current_step_index | some i ↦ i ];
    };
  }

  unfoldable pub saved : Machine D W → Machine D W
  saved m = record m { disk = save m.state m.disk }

  unfoldable pub logged : Event → Machine D W → Machine D W
  logged e m = let (s, d) = append_log e m.state m.disk in record m { state = s; disk = d }

  unfoldable pub with_status : RunStatus → Machine D W → Machine D W
  with_status st m = record m { state = record m.state { status = st } }

  unfoldable pub with_item : Value → Machine D W → Machine D W
  with_item v m = record m { context = record m.context { item = v } }

  unfoldable pub with_world : W → Machine D W → Machine D W
  with_world w m = record m { world = w }

  -- `context.steps[k] = d; state.step_results[k] = d`
  unfoldable pub recorded : String → StepData → Machine D W → Machine D W
  recorded k d m = record m {
    context = record m.context { steps = Dict.put m.context.steps k d };
    state = record m.state { step_results = Dict.put m.state.step_results k d };
  }

  -- `if k in context.steps: context.steps[j] = context.steps[k]; state.step_results[j] = ...`
  unfoldable pub aliased : String → String → Machine D W → Machine D W
  aliased j k m = elim (Dict.get m.context.steps k) [ none ↦ m | some d ↦ recorded j d m ]

  -- `context.steps[k]["output"] = out; state.step_results[k]["output"] = out`
  unfoldable pub output_set : String → Fields → Machine D W → Machine D W
  output_set k out m = record m {
    context = record m.context { steps = Dict.adjust m.context.steps k (with_output out) };
    state = record m.state { step_results = Dict.adjust m.state.step_results k (with_output out) };
  }

  -- `if state.status in (PAUSED, FAILED, ABORTED): return`
  unfoldable pub halt_check : Action D W
  halt_check m = if is_halted m.state.status then some (stop, m) else some (next, m)
