-- ===== src/Workflow/Steps/Init/Small.antt =====
-- The init step has no nested steps, however it ends.
use alharistech_platform.Base.{String, Bool, not, ◌&&◌, Option, none, some, List, ◌==◌, string_eq}
use alharistech_platform.Value.{ℤ, Fields}
use alharistech_platform.Workflow.Model.{StepContext, Result, ok, err, Reply}
use alharistech_platform.Workflow.Steps.{Services}
use alharistech_platform.Workflow.Steps.Init.{
  InitOptions, prepare_init, with_force, init_stderr, init_result, init_run, init_checked,
  init_scanned, init_start, init_prepared, init_step, targets_current_dir, is_success,
}
use alharistech_platform.Workflow.Steps.Nesting.{Bounded, no_steps, Bounded-if, Bounded-if_world}

module _ (cfg : Fields) where
  Bounded-init_result :
      (o : InitOptions) (argv : List String) (code : ℤ) (stdout stderr : String)
      → Bounded cfg (Reply.returned (init_result o argv code stdout stderr))
  unfolding init_result
  Bounded-init_result o argv code stdout stderr =
      Bounded-if cfg (is_success code) _ _ (no_steps cfg) (no_steps cfg)

  module _ {W : Type 0} (services : Services W) (ctx : StepContext) (w : W) where
    Bounded-init_run :
        (o : InitOptions) (argv : List String) → Bounded cfg (init_run services ctx o argv w).0
    unfolding init_run
    Bounded-init_run o argv =
        let words = with_force o argv in
        let r = (services.invoke_init words ctx.project_root w).0 in
        Bounded-if_world cfg
          (not (ctx.project_root == "") && not (services.can_enter ctx.project_root w)) _ _
          (Bounded-init_result o words (ℤ.pos 1) "" "Cannot enter project root")
          (Bounded-init_result o words r.exit_code r.output (init_stderr r))

    Bounded-init_checked :
        (o : InitOptions) (argv : List String) (found : Option Bool)
        → Bounded cfg (init_checked services ctx o argv found w).0
    unfolding init_checked
    Bounded-init_checked o argv none = no_steps cfg
    Bounded-init_checked o argv (some found) = Bounded-init_run _ argv

    Bounded-init_scanned :
        (o : InitOptions) (argv : List String) (scan : Option (List (String × Bool)))
        → Bounded cfg (init_scanned services ctx o argv scan w).0
    unfolding init_scanned
    Bounded-init_scanned o argv none = no_steps cfg
    Bounded-init_scanned o argv (some entries) = Bounded-init_checked o argv _

    Bounded-init_start :
        (o : InitOptions) (argv : Result (List String))
        → Bounded cfg (init_start services ctx o argv w).0
    unfolding init_start
    Bounded-init_start o (err e) = tt
    Bounded-init_start o (ok argv) =
        Bounded-if_world cfg (targets_current_dir o && not o.force) _ _
          (Bounded-init_scanned o argv _) (Bounded-init_run o argv)

    Bounded-init_prepared :
        (o : Result InitOptions) → Bounded cfg (init_prepared services ctx o w).0
    unfolding init_prepared
    Bounded-init_prepared (err e) = tt
    Bounded-init_prepared (ok o) = Bounded-init_start o _

    pub Bounded-init_step : Bounded cfg (init_step services cfg ctx w).0
    unfolding init_step
    Bounded-init_step = Bounded-init_prepared (prepare_init services cfg ctx)
