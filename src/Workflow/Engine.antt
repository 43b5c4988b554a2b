-- ===== src/Workflow/Engine.antt =====
-- `WorkflowEngine._execute_steps` of workflows/engine.py.
mod Parts
pub mod Effects
pub mod Rules
pub mod Invariant
pub mod Preserves
pub mod Stable
pub mod Frame
pub mod History
pub mod Index
pub mod Mirror
pub mod Status
pub mod Failure
pub mod Terminates
unfoldable pub use Parts.*
use alharistech_platform.Base.{
  ℕ, zero, suc, ◌+◌, ◌-◌, String, ◌<>◌, Bool, true, false, ◌||◌, ◌&&◌, Option, none, some, ◌==◌,
  string_eq, decimal, if◌then◌else◌,
}
use mathlib.Core.Option
use alharistech_platform.Base.Dict
use alharistech_platform.Value.{
  ℤ, Value, null, bool, int, str, list, dict, Items, nil, cons, Fields, end, field, truthy, or_else,
  find, get_or, set, append_item, to_text,
}
use alharistech_platform.Workflow.Model.{
  StepStatus, RunStatus, StepData, StepContext, StepResult, Exn, type_error, attribute_error,
  unmodelled, Result, ok, err, Reply, StepImpl,
}
use alharistech_platform.Workflow.State.{Event, unknown_step_type, step_error}
use Effects.{
  Machine, Flow, Outcome, Action, next, stop, raised, interrupted, ◌⨾◌, is_halted, call, skip,
  leave, fault, interrupt, update, with_world, position, saved, logged, with_status, with_item,
  recorded, aliased, output_set, halt_check,
}

-- The step's code with the recursive call, `self._execute_steps(steps, ..., step_offset=-1)`, as a
-- parameter.
module _ {D W : Type 0} (host : Host W) (nested : Items → Action D W) where
  unfoldable pub alias_back : Option String → String → Action D W
  alias_back none key = skip
  alias_back (some orig) key = update (aliased orig key)

  unfoldable pub body_step : String → ℕ → ℕ → Fields → Result (Option String) → Action D W
  body_step parent round i ns (err e) = fault e
  body_step parent round i ns (ok orig) =
      let base : String = elim orig [ none ↦ "step-" <> decimal i | some s ↦ s ] in
      let key = nested_key parent base round in
      nested (cons (dict (set ns "id" (str key))) nil) ⨾ halt_check ⨾ alias_back orig key

  -- One more round of a loop's body, step by step.
  unfoldable pub run_body : String → ℕ → ℕ → Items → Action D W
  run_body parent round i nil = skip
  run_body parent round i (cons (dict ns) rest) =
      body_step parent round i ns (original_id ns) ⨾ run_body parent round (suc i) rest
  run_body parent round i (cons _ rest) = fault type_error

  -- The rounds of `while` and `do-while` after the first: at most `k`.
  unfoldable pub rounds : Value → String → Items → ℕ → ℕ → Action D W
  rounds condition parent body zero round m = some (next, m)
  rounds condition parent body (suc k) round m =
      elim (host.evaluate_condition condition m.context) [
        | err e ↦ some (raised e, m)
        | ok go ↦ elim go [
          | true ↦ (run_body parent round 0 body ⨾ rounds condition parent body k (suc round)) m
          | false ↦ some (next, m)
        ]
      ]

  unfoldable pub repeat_body : Fields → String → Value → Items → Action D W
  repeat_body cfg id type body =
      if is_loop type
      then rounds (get_or cfg "condition" (bool false)) id body (max_iterations_of cfg - 1) 1
      else skip

  unfoldable pub nested_body : Fields → String → Value → Result Items → Action D W
  nested_body cfg id type (err e) = fault e
  nested_body cfg id type (ok body) = nested body ⨾ halt_check ⨾ repeat_body cfg id type body

  unfoldable pub nested_part : Fields → String → Value → StepResult → Action D W
  nested_part cfg id type r =
      if truthy r.next_steps then nested_body cfg id type (elements r.next_steps) else skip

  -- The items of a fan-out, with the outputs collected so far.
  unfoldable pub fan_items :
      String → Value → Items → ℕ → Items → Machine D W → Option (Flow × Items × Machine D W)
  fan_items parent template nil i results m = some (next, results, m)
  fan_items parent template (cons v vs) i results m = elim (item_step parent template i) [
    | err e ↦ some (raised e, results, with_item v m)
    | ok (step, key) ↦ elim (nested (cons (dict step) nil) (with_item v m)) [
      | none ↦ none
      | some (fl, m') ↦ elim fl [
        | raised e ↦ some (raised e, results, m')
        | interrupted ↦ some (interrupted, results, m')
        | _ ↦
            let results' = append_item results (output_of m'.context key) in
            elim (is_halted m'.state.status) [
              | true ↦ some (stop, results', m')
              | false ↦ fan_items parent template vs (suc i) results' m'
            ]
      ]
    ]
  ]

  unfoldable pub fan_done : String → StepResult → Items → Flow → Action D W
  fan_done id r results (raised e) = fault e
  fan_done id r results interrupted = interrupt
  fan_done id r results _ =
      update (with_item null)
      ⨾ update (output_set id (set r.output "results" (list results)))
      ⨾ halt_check

  unfoldable pub fan_over : String → Value → StepResult → Result Items → Action D W
  fan_over id template r (err e) m = some (raised e, m)
  fan_over id template r (ok items) m = elim (fan_items id template items 0 nil m) [
    | none ↦ none
    | some (fl, results, m') ↦ fan_done id r results fl m'
  ]

  unfoldable pub fan_out_part : String → Value → StepResult → Action D W
  fan_out_part id type r =
      let items = get_or r.output "items" (list nil) in
      let template = get_or r.output "step_template" (dict end) in
      if is_fan_out type
      then if truthy template && truthy items
        then fan_over id template r (fan_elements items)
        else update (output_set id (set r.output "results" (list nil)))
      else skip

  unfoldable pub handle_failure : Fields → String → StepResult → Action D W
  handle_failure cfg id r =
      if truthy (get_or r.output "aborted" null)
      then abort_run id
      else if is_true (get_or cfg "continue_on_error" null)
      then pass_failure id r
      else fail_run id r

  unfoldable pub resolve : Fields → String → Value → StepResult → StepStatus → Action D W
  resolve cfg id type r StepStatus.paused =
      update (with_status RunStatus.paused) ⨾ update saved ⨾ leave
  resolve cfg id type r StepStatus.failed = handle_failure cfg id r
  resolve cfg id type r _ = nested_part cfg id type r ⨾ fan_out_part id type r

  unfoldable pub finish : Fields → String → Value → StepResult → Action D W
  finish cfg id type r m =
      (update (recorded id (step_data cfg m.context r))
          ⨾ update (logged (Event.step_completed id r.status))
          ⨾ resolve cfg id type r r.status)
        m

  unfoldable pub conclude : Fields → String → Value → Reply → Action D W
  conclude cfg id type (Reply.returned r) = finish cfg id type r
  conclude cfg id type (Reply.raised e) = fault e
  conclude cfg id type Reply.interrupted = interrupt

  unfoldable pub invoke : Fields → String → Value → StepImpl W → Action D W
  invoke cfg id type impl m =
      let (reply, w) = impl cfg m.context m.world in conclude cfg id type reply (with_world w m)

  unfoldable pub dispatch : Fields → String → Value → Result (Option (StepImpl W)) → Action D W
  dispatch cfg id type (err e) = fault e
  dispatch cfg id type (ok none) =
      halt_with RunStatus.failed (Event.step_failed id (unknown_step_type type))
  dispatch cfg id type (ok (some impl)) = invoke cfg id type impl

  unfoldable pub run_identified : Fields → ℕ → Option ℕ → Option String → Action D W
  run_identified cfg i offset none = fault unmodelled
  run_identified cfg i offset (some id) =
      let type = get_or cfg "type" (str "command") in
      update (position id (Option.map (λ o. o + i) offset))
      ⨾ update saved
      ⨾ update (logged (Event.step_started id type))
      ⨾ dispatch cfg id type (implementation host.registry type)

  -- The body of the loop over the steps, at place `i`; a negative `step_offset` is `none`.
  unfoldable pub run_step : Value → ℕ → Option ℕ → Action D W
  run_step (dict cfg) i offset = run_identified cfg i offset (id_of cfg ("step-" <> decimal i))
  run_step _ i offset = fault attribute_error

  unfoldable pub run_steps : Items → ℕ → Option ℕ → Action D W
  run_steps nil i offset = skip
  run_steps (cons v vs) i offset = run_step v i offset ⨾ run_steps vs (suc i) offset

-- `_execute_steps`. The fuel bounds how deep the calls nest.
unfoldable pub execute_steps : {D W : Type 0} → Host W → ℕ → Items → Option ℕ → Action D W
execute_steps host zero steps offset m = none
execute_steps host (suc f) steps offset m =
    call (run_steps host (λ body. execute_steps host f body none) steps 0 offset) m
