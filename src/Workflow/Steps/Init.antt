-- ===== src/Workflow/Steps/Init.antt =====
-- `InitStep.execute` of workflows/steps/init/__init__.py, which runs the program's own `specify init`.
pub mod Small
use alharistech_platform.Base.{
  zero, String, ◌<>◌, Bool, true, false, not, ◌&&◌, ◌||◌, Option, none, some, List, [], ◌∷◌, ◌++◌,
  ◌==◌, string_eq, if◌then◌else◌,
}
use alharistech_platform.Base.Blank.{strip}
use alharistech_platform.Value.{
  ℤ, Value, null, bool, int, str, list, dict, Items, nil, cons, Fields, end, field, truthy, or_else,
  find, get_or, to_text,
}
use alharistech_platform.Workflow.Model.{
  StepStatus, StepContext, StepResult, unmodelled, Result, ok, err, ◌>>=◌, Reply, StepImpl,
}
use alharistech_platform.Workflow.Inputs.{lowers_to}
use alharistech_platform.Workflow.Steps.{Services, InvokeResult, completed, ended_with, render}

-- The resolved configuration.
pub record InitOptions : Type 0 where
  pub project : Value
  pub here : Bool
  pub integration : Value
  pub integration_options : Value
  pub script : Value
  pub preset : Value
  pub force : Bool
  pub ignore_agent_tools : Bool

-- `_resolve_bool`, of a value that is resolved
unfoldable pub flag : Value → Bool
unfolding strip lowers_to
flag (str s) = lowers_to (strip s) "true" || lowers_to (strip s) "1" || lowers_to (strip s) "yes"
flag v = truthy v

abbrev pub text_or_unmodelled : Value → Result String
text_or_unmodelled v = elim (to_text v) [ none ↦ err unmodelled | some s ↦ ok s ]

-- An option's name and its value, if there is one.
unfoldable pub option_words : String → Value → Result (List String)
option_words name v = if truthy v then (text_or_unmodelled v >>= λ s. ok (name ∷ s ∷ [])) else ok []

unfoldable pub target : InitOptions → Result String
target o =
    if o.here
    then ok "--here"
    else if truthy o.project
    then text_or_unmodelled o.project
    else ok "."

-- `argv`, without `--force`
unfoldable pub init_argv : InitOptions → Result (List String)
unfolding option_words target
init_argv o = target o >>= λ place. option_words "--integration" o.integration >>= λ integration.
    option_words "--integration-options" o.integration_options >>= λ options.
    option_words "--script" o.script >>= λ script. option_words "--preset" o.preset >>= λ preset.
    ok (
      "init" ∷ place ∷ integration
      ++ options
      ++ script
      ++ preset
      ++ (if o.ignore_agent_tools then "--ignore-agent-tools" ∷ [] else []))

-- `here or not project or str(project) == "."`
unfoldable pub targets_current_dir : InitOptions → Bool
targets_current_dir o =
    o.here
    || not (truthy o.project)
    || elim (to_text o.project) [ none ↦ false | some s ↦ s == "." ]

-- What the scan of a directory finds: `none` for an entry that is not the engine's, and else whether
-- there is a directory of the engine.
unfoldable pub engine_only : List (String × Bool) → Bool → Option Bool
engine_only [] found = some found
engine_only ((name, is_dir) ∷ rest) found =
    let others = engine_only rest true in if name == ".specify" && is_dir then others else none

abbrev pub texts : List String → Items
texts [] = nil
texts (s ∷ ss) = cons (str s) (texts ss)

abbrev pub init_output : InitOptions → List String → ℤ → String → String → Fields
init_output o argv code stdout stderr = field "argv" (list (texts argv)) (
    field "project" o.project (
      field "here" (bool o.here) (
        field "integration" o.integration (
          field "integration_options" o.integration_options (
            field "script" o.script (
              field "preset" o.preset (
                field "force" (bool o.force) (
                  field "ignore_agent_tools" (bool o.ignore_agent_tools) (
                    field "exit_code" (int code)
                      (field "stdout" (str stdout) (field "stderr" (str stderr) end)))))))))))

abbrev pub is_success : ℤ → Bool
is_success (ℤ.pos zero) = true
is_success _ = false

-- The standard error that `_run_init` returns, with the exception where the command has failed.
unfoldable pub init_stderr : InvokeResult → String
unfolding strip
init_stderr r =
    let captured : String = elim r.stderr [
      | some s ↦ s
      | none ↦ if is_success r.exit_code then "" else r.output
    ] in
    if is_success r.exit_code then captured else elim r.exception [
      | none ↦ captured
      | some detail ↦ if captured == "" then detail else strip (captured <> "\n" <> detail)
    ]

unfoldable pub init_result : InitOptions → List String → ℤ → String → String → StepResult
unfolding strip
init_result o argv code stdout stderr =
    if is_success code
    then completed (init_output o argv code stdout stderr) (list nil)
    else ended_with StepStatus.failed (init_output o argv code stdout stderr)
        (or_else (str (strip stderr)) (or_else (str (strip stdout)) (str "specify init exited")))

abbrev pub init_refused : InitOptions → List String → String → StepResult
init_refused o argv message =
    ended_with StepStatus.failed (init_output o argv (ℤ.pos 1) "" message) (str message)

abbrev pub with_force : InitOptions → List String → List String
with_force o argv = if o.force then argv ++ "--force" ∷ [] else argv

module _ {W : Type 0} (services : Services W) where
  resolve_flag : Value → StepContext → Result Bool
  unfolding flag
  resolve_flag v ctx = render services.evaluate_expression v ctx >>= λ r. ok (flag r)

  -- The step's integration, the workflow's, or the default one.
  integration_of : Fields → StepContext → Result Value
  unfolding find
  integration_of cfg ctx =
      render services.evaluate_expression (get_or cfg "integration" null) ctx >>= λ own.
      if truthy own
      then ok own
      else (render services.evaluate_expression ctx.default_integration ctx >>= λ v.
          ok (or_else v (str "copilot")))

  unfoldable pub prepare_init : Fields → StepContext → Result InitOptions
  unfolding find resolve_flag integration_of
  prepare_init cfg ctx =
      render services.evaluate_expression (get_or cfg "project" null) ctx >>= λ project.
      resolve_flag (get_or cfg "here" null) ctx >>= λ here.
      integration_of cfg ctx >>= λ integration.
      render services.evaluate_expression (get_or cfg "integration_options" null) ctx
      >>= λ integration_options.
          render services.evaluate_expression (get_or cfg "script" null) ctx >>= λ script.
          render services.evaluate_expression (get_or cfg "preset" null) ctx >>= λ preset.
          resolve_flag (get_or cfg "force" null) ctx >>= λ force.
          resolve_flag (get_or cfg "ignore_agent_tools" (bool true)) ctx >>= λ ignore_agent_tools.
          ok (record {
            project = project;
            here = here;
            integration = integration;
            integration_options = integration_options;
            script = script;
            preset = preset;
            force = force;
            ignore_agent_tools = ignore_agent_tools;
          })

  -- `_run_init`, and the result of the step
  unfoldable pub init_run : StepContext → InitOptions → List String → W → Reply × W
  unfolding init_result init_stderr
  init_run ctx o argv w =
      let words = with_force o argv in
      let (r, w') = services.invoke_init words ctx.project_root w in
      if not (ctx.project_root == "") && not (services.can_enter ctx.project_root w)
      then (Reply.returned (init_result o words (ℤ.pos 1) "" "Cannot enter project root"), w)
      else (Reply.returned (init_result o words r.exit_code r.output (init_stderr r)), w')

  unfoldable pub init_checked :
      StepContext → InitOptions → List String → Option Bool → W → Reply × W
  unfolding init_run
  init_checked ctx o argv none w =
      (Reply.returned (init_refused o argv "Target directory is not empty"), w)
  init_checked ctx o argv (some found) w = init_run ctx (record o { force = found }) argv w

  unfoldable pub init_scanned :
      StepContext → InitOptions → List String → Option (List (String × Bool)) → W → Reply × W
  unfolding init_checked engine_only
  init_scanned ctx o argv none w =
      (Reply.returned (init_refused o argv "Cannot inspect target directory"), w)
  init_scanned ctx o argv (some entries) w = init_checked ctx o argv (engine_only entries false) w

  -- With `force` unset, a target that is the current directory is looked at first.
  unfoldable pub init_start : StepContext → InitOptions → Result (List String) → W → Reply × W
  unfolding init_run init_scanned targets_current_dir
  init_start ctx o (err e) w = (Reply.raised e, w)
  init_start ctx o (ok argv) w =
      let base =
        if ctx.project_root == "" then services.current_directory w else ctx.project_root in
      if targets_current_dir o && not o.force
      then init_scanned ctx o argv (services.scan_directory base w) w
      else init_run ctx o argv w

  unfoldable pub init_prepared : StepContext → Result InitOptions → W → Reply × W
  unfolding init_start init_argv
  init_prepared ctx (err e) w = (Reply.raised e, w)
  init_prepared ctx (ok o) w = init_start ctx o (init_argv o) w

  unfoldable pub init_step : StepImpl W
  unfolding init_prepared prepare_init
  init_step cfg ctx w = init_prepared ctx (prepare_init cfg ctx) w
