-- ===== src/Workflow/Examples.antt =====
-- The theorems on workflows at concrete inputs.
use alharistech_platform.Base.{
  String, ◌∷◌, IsSome, ℕ, true, ◌≡◌, refl, none, some, [], arith, ◌+◌, ◌≤◌, ◌<◌, ◌⊎◌,
}
use alharistech_platform.Value.{Value, null, bool, str, dict, end, field, count_items}
use alharistech_platform.Value.Depth.{depth}
use alharistech_platform.Workflow.Model.{StepStatus, RunStatus, value_error, ok, err, StepImpl}
use alharistech_platform.Workflow.State.{RunState, Event, load, save, state_of}
use alharistech_platform.Base.Dict.{get, put}
use alharistech_platform.Base.{string_eq, decimal}
use alharistech_platform.Value.{find, set, to_text}
use alharistech_platform.Workflow.State.{
  new_run_state, validate_run_id, matches_run_id_pattern, files_of, append_log,
}
use alharistech_platform.Workflow.Inputs.{resolve_inputs}
use alharistech_platform.Workflow.Engine.{
  id_of, halt_with, nested_body, nested_part, repeat_body, fan_out_part, resolve, finish, conclude,
  invoke, dispatch, run_identified, run_step, run_steps, execute_steps,
}
use alharistech_platform.Workflow.Engine.Effects.{
  ◌⨾◌, call, skip, leave, update, position, saved, logged, with_status, with_world, recorded,
  halt_check,
}
use alharistech_platform.Workflow.Run.{
  effective_run_id, context_of, store_workflow, run_from, close, finish_run, finish_outcome,
  start_machine,
}
use alharistech_platform.Workflow.Steps.{if_step, evaluate_condition, condition_value, render}
use alharistech_platform.Workflow.Steps.External.{
  builtin_registry, shell_step, gate_step, pure_step,
}
use alharistech_platform.Workflow.Engine.Effects.{Machine, Flow}
use alharistech_platform.Workflow.Run.{Ended, execute}
use alharistech_platform.Workflow.Run.Final.{Recorded, created, execute-Recorded}
use alharistech_platform.Workflow.Run.Resume.{resume-execute}
use alharistech_platform.Workflow.Run.{resume, resumable, refused}
use alharistech_platform.Workflow.Definition.{definition_of}
use alharistech_platform.Value.{drop_items}
use alharistech_platform.Base.{if◌then◌else◌}
use alharistech_platform.Workflow.Engine.Terminates.{Shrinks}
use alharistech_platform.Workflow.Engine.Terminates.Enough.{execute_steps-IsSome}
use alharistech_platform.Workflow.Steps.External.Shrinking.{builtin_host-IsShrinking}
use alharistech_platform.Workflow.Engine.Index.{index-top_level, index-nested}
use alharistech_platform.Workflow.Engine.History.{Logged, execute_steps-Logged}
use alharistech_platform.Workflow.Engine.Mirror.{Mirrored, execute_steps-Mirrored}
use alharistech_platform.Workflow.Engine.Status.{StatusAfter, execute_steps-StatusAfter}
use alharistech_platform.Workflow.Engine.Frame.{SameFrame, execute_steps-SameFrame}
use alharistech_platform.Workflow.State.Laws.{load-save}
use alharistech_platform.Workflow.Demo

abbrev ended : Ended ℕ
unfolding execute
ended = Demo.end_of (execute Demo.engine 5 Demo.definition end none Demo.empty_disk 0)

abbrev after_steps : Machine Value ℕ
unfolding execute_steps
after_steps = Demo.machine_after (execute_steps Demo.host 5 Demo.steps (some 0) Demo.machine)

ran_steps :
    execute_steps Demo.host 5 Demo.steps (some 0) Demo.machine ≡ some (Flow.next, after_steps)
unfolding execute_steps run_steps run_step run_identified dispatch invoke conclude finish resolve
    nested_part nested_body repeat_body fan_out_part halt_with ◌⨾◌ call skip leave update position
    saved logged with_status with_world recorded halt_check id_of find set get put string_eq decimal
    save files_of append_log builtin_registry shell_step gate_step if_step evaluate_condition
    condition_value render to_text
ran_steps = refl

abbrev after_nested : Machine Value ℕ
unfolding execute_steps
after_nested = Demo.machine_after (execute_steps Demo.host 5 Demo.steps none Demo.machine)

ran_nested : execute_steps Demo.host 5 Demo.steps none Demo.machine ≡ some (Flow.next, after_nested)
unfolding execute_steps run_steps run_step run_identified dispatch invoke conclude finish resolve
    nested_part nested_body repeat_body fan_out_part halt_with ◌⨾◌ call skip leave update position
    saved logged with_status with_world recorded halt_check id_of find set get put string_eq decimal
    save files_of append_log builtin_registry shell_step gate_step if_step evaluate_condition
    condition_value render to_text
ran_nested = refl

ran : execute Demo.engine 5 Demo.definition end none Demo.empty_disk 0 ≡ some ended
unfolding execute_steps run_steps run_step run_identified dispatch invoke conclude finish resolve
    nested_part nested_body repeat_body fan_out_part halt_with ◌⨾◌ call skip leave update position
    saved logged with_status with_world recorded halt_check id_of find set get put string_eq decimal
    save files_of append_log builtin_registry shell_step gate_step if_step evaluate_condition
    condition_value render to_text execute effective_run_id new_run_state validate_run_id
    matches_run_id_pattern resolve_inputs store_workflow start_machine context_of run_from
    finish_outcome finish_run close
ran = refl

abbrev paused_state : RunState
paused_state = Demo.state_in ended.result

gave : ended.result ≡ ok paused_state
unfolding execute_steps run_steps run_step run_identified dispatch invoke conclude finish resolve
    nested_part nested_body repeat_body fan_out_part halt_with ◌⨾◌ call skip leave update position
    saved logged with_status with_world recorded halt_check id_of find set get put string_eq decimal
    save files_of append_log builtin_registry shell_step gate_step if_step evaluate_condition
    condition_value render to_text execute effective_run_id new_run_state validate_run_id
    matches_run_id_pattern resolve_inputs store_workflow start_machine context_of run_from
    finish_outcome finish_run close
gave = refl

made : created Demo.engine 5 Demo.definition end none Demo.empty_disk 0 ≡ ok Demo.created_state
unfolding effective_run_id new_run_state validate_run_id matches_run_id_pattern string_eq
made = refl

resolved : resolve_inputs none (dict end) end ≡ ok end
unfolding resolve_inputs
resolved = refl

execute-Recorded_example : Recorded "a1b2c3d4" ended.result ended.disk
execute-Recorded_example =
    execute-Recorded Demo.engine 5 Demo.definition end none Demo.empty_disk 0 Demo.created_state end
      ended made resolved ran

definition_read : definition_of Demo.document ≡ ok Demo.definition
unfolding definition_of find string_eq
definition_read = refl

resume-execute_example : resume Demo.engine 5 paused_state.run_id end ended.disk 7 ≡ (
    if resumable paused_state.status
    then finish_outcome Event.resume_failed (
        run_from Demo.engine 5
          (ok (drop_items paused_state.current_step_index Demo.steps))
          paused_state.current_step_index
          (start_machine Demo.engine Demo.definition
            (record paused_state { log_entries = [] })
            ended.disk
            7))
    else refused (value_error "Cannot resume run") ended.disk 7)
resume-execute_example =
    resume-execute Demo.engine 5 Demo.definition end none Demo.empty_disk 0 Demo.created_state
      paused_state end ended Demo.steps made resolved ran gave definition_read refl Demo.engine 5 7

execute_steps-IsSome_example : IsSome (execute_steps Demo.host 5 Demo.steps (some 0) Demo.machine)
execute_steps-IsSome_example =
    execute_steps-IsSome Demo.host 5 Demo.steps (some 0) Demo.machine
      (builtin_host-IsShrinking Demo.services) (unfold depth in omega arith)

if_impl : StepImpl ℕ
unfolding builtin_registry
if_impl = pure_step Demo.services (if_step Demo.services.evaluate_expression)

if_found : builtin_registry Demo.services "if" ≡ some if_impl
unfolding builtin_registry string_eq if_impl
if_found = refl

builtin_host-IsShrinking_example :
    Shrinks (str "if") Demo.check (if_impl Demo.check Demo.context 0).0
builtin_host-IsShrinking_example =
    builtin_host-IsShrinking Demo.services "if" if_impl Demo.check Demo.context 0 if_found

index-top_level_example :
    (after_steps.state.current_step_index ≡ 0)
    ⊎ (0 ≤ after_steps.state.current_step_index)
      × (after_steps.state.current_step_index < 0 + count_items Demo.steps)
index-top_level_example =
    index-top_level Demo.host 5 Demo.steps 0 Demo.machine after_steps Flow.next ran_steps

index-nested_example : after_nested.state.current_step_index ≡ 0
index-nested_example =
    index-nested Demo.host 5 Demo.steps Demo.machine after_nested Flow.next ran_nested

execute_steps-Logged_example : Logged Demo.machine after_steps
execute_steps-Logged_example =
    execute_steps-Logged Demo.host 5 Demo.steps (some 0) Demo.machine after_steps Flow.next
      ran_steps

execute_steps-Mirrored_example : Mirrored after_steps
execute_steps-Mirrored_example =
    execute_steps-Mirrored Demo.host 5 Demo.steps (some 0) Demo.machine after_steps Flow.next refl
      ran_steps

execute_steps-StatusAfter_example : StatusAfter Flow.next after_steps.state.status
execute_steps-StatusAfter_example =
    execute_steps-StatusAfter Demo.host 5 Demo.steps (some 0) Demo.machine after_steps Flow.next
      refl ran_steps

execute_steps-SameFrame_example : SameFrame Demo.machine after_steps
execute_steps-SameFrame_example =
    execute_steps-SameFrame Demo.host 5 Demo.steps (some 0) Demo.machine after_steps Flow.next
      ran_steps

good_id : matches_run_id_pattern "a1b2c3d4" ≡ true
unfolding matches_run_id_pattern
good_id = refl

-- A run that has stopped at its second step.
abbrev stored_state : RunState
stored_state = record Demo.running_state {
  status = RunStatus.paused;
  current_step_index = 1;
  current_step_id = some "review";
  step_results =
      (
        "check",
        record {
          integration = null;
          model = null;
          options = dict end;
          input = dict end;
          output = field "condition_result" (bool true) end;
          status = StepStatus.completed;
        },
      )
      ∷ [];
  inputs = field "name" (str "demo") end;
}

load-save_example : load "a1b2c3d4" (save stored_state Demo.empty_disk) ≡ ok stored_state
load-save_example = load-save stored_state Demo.empty_disk good_id

refused_id : load {W = Value} "../x" [] ≡ err (value_error "Invalid run_id")
unfolding load validate_run_id matches_run_id_pattern
refused_id = refl

-- A state.json without the keys that may be missing, and one with a status that is none.
abbrev short_document : String → Value
short_document status = dict (
    field "run_id" (str "a1b2c3d4")
      (field "workflow_id" (str "demo") (field "status" (str status) end)))

defaults :
    state_of (short_document "failed") none
    ≡ ok (record {
      run_id = "a1b2c3d4";
      workflow_id = str "demo";
      status = RunStatus.failed;
      current_step_index = 0;
      current_step_id = none;
      step_results = [];
      inputs = end;
      log_entries = [];
    })
unfolding state_of string_eq validate_run_id matches_run_id_pattern
defaults = refl

no_status : state_of (short_document "FAILED") none ≡ err (value_error "not a valid RunStatus")
unfolding state_of string_eq validate_run_id matches_run_id_pattern
no_status = refl
