-- ===== src/Workflow/Steps/External/Gate.antt =====
-- The end of a run at a gate that is rejected.
use alharistech_platform.Base.{String, true, some, ◌≡◌, ap, string_eq}
use alharistech_platform.Value.{
  Value, bool, null, str, end, Items, Fields, field, set, find, get_or, truthy,
}
use alharistech_platform.Workflow.Model.{StepStatus, Reply}
use alharistech_platform.Workflow.Engine.{Host, conclude}
use alharistech_platform.Workflow.Engine.Effects.{Machine, Action, stop}
use alharistech_platform.Workflow.Engine.Failure.{recorded_step, aborted_by, conclude-aborted}
use alharistech_platform.Workflow.Steps.{ended_with}
use alharistech_platform.Workflow.Steps.External.{gate_result, is_rejection}

-- The output of a rejected gate.
abbrev rejected_output : Value → Value → Value → Value → Fields
rejected_output message options show_file choice = field "message" message (
    field "options" options (
      field "on_reject" (str "abort")
        (field "show_file" show_file (field "choice" choice (field "aborted" (bool true) end)))))

gate_result-rejected :
    (message options show_file choice : Value)
    → is_rejection choice ≡ true
    → gate_result message options (str "abort") show_file choice
      ≡ ended_with StepStatus.failed
          (rejected_output message options show_file choice)
          (str "Gate rejected by user")
unfolding gate_result set string_eq
gate_result-rejected message options show_file choice h = rw h

module _ {D W : Type 0} (host : Host W) (nested : Items → Action D W) where
  -- A gate that the user rejects, with `on_reject` left at "abort", ends the run: the gate's output is
  -- recorded, the status becomes ABORTED, the abort is logged and the state saved, and the caller
  -- returns, so that no later step is executed. That does not depend on the step's `continue_on_error`.
  pub gate_result-aborts :
      (cfg : Fields) (id : String) (type message options show_file choice : Value) (m : Machine D W)
      → is_rejection choice ≡ true
      → conclude host nested cfg id type
          (Reply.returned (gate_result message options (str "abort") show_file choice))
          m
        ≡ some (
          stop,
          aborted_by id
              (gate_result message options (str "abort") show_file choice)
              (recorded_step cfg id (gate_result message options (str "abort") show_file choice) m),
        )
  unfolding gate_result set string_eq find
  gate_result-aborts cfg id type message options show_file choice m h =
      conclude-aborted host nested cfg id type
        (gate_result message options (str "abort") show_file choice) m
        (ap (λ r. r.status) (gate_result-rejected message options show_file choice h))
        (ap (λ r. truthy (get_or r.output "aborted" null))
          (gate_result-rejected message options show_file choice h))
