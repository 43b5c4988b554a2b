-- ===== src/Workflow/Steps/External/Shrinking.antt =====
-- The depth of the nested steps that the built-in steps return, by the chain of their registry.
use alharistech_platform.Base.{
  String, ◌≡◌, refl, sym, ap, subst, true, false, Option, none, some, arith, Bool-cases, inl, inr,
  ◌==◌, eq_of_==, string_eq, if◌then◌else◌,
}
use alharistech_platform.Value.{ℤ, Value, null, str, list, nil, Fields, get_or, set, to_text}
use alharistech_platform.Workflow.Model.{StepStatus, StepContext, Result, ok, err, Reply, StepImpl}
use alharistech_platform.Workflow.Engine.Terminates.{Shrinks, IsShrinking}
use alharistech_platform.Workflow.Steps.{
  Services, ShellOutcome, exited, timed_out, not_started, broke, CliResult, completed, reply_of,
  if_step, while_step, do_while_step, switch_step, fan_out_step, fan_in_step, ended_with,
}
use alharistech_platform.Workflow.Steps.External.{
  gate_step, gate_message, gate_prompt, gate_result, shell_step, shell_start, shell_run,
  shell_reply, shell_exit, command_step, command_run, command_dispatch, prompt_step, prompt_run,
  prompt_dispatch, cli_result, is_text, is_zero, is_rejection, shell_output, builtin_registry,
  builtin_host, pure_step, Prepared, prepared,
}
use alharistech_platform.Workflow.Steps.Init.{init_step}
use alharistech_platform.Workflow.Steps.Init.Small.{Bounded-init_step}
use alharistech_platform.Workflow.Steps.Nesting.{
  Bounded, no_steps, Bounded-if, Bounded-if_world, Bounded-if_step, Bounded-while_step,
  Bounded-do_while_step, Bounded-switch_step, Bounded-fan_in_step, Shrinks-fan_out_step,
}

module _ (cfg : Fields) where
  Bounded-gate_result :
      (message options on_reject show_file choice : Value)
      → Bounded cfg (Reply.returned (gate_result message options on_reject show_file choice))
  unfolding gate_result
  Bounded-gate_result message options on_reject show_file choice =
      Bounded-if cfg (is_rejection choice) _ _
        (Bounded-if cfg (is_text on_reject "abort") _ _ (no_steps cfg)
          (Bounded-if cfg (is_text on_reject "retry") _ _ (no_steps cfg) (no_steps cfg)))
        (no_steps cfg)

  Bounded-cli_result :
      (output : Fields) (o : Option CliResult) → Bounded cfg (Reply.returned (cli_result output o))
  unfolding cli_result
  Bounded-cli_result output none = no_steps cfg
  Bounded-cli_result output (some r) =
      Bounded-if cfg (is_zero r.exit_code) _ _ (no_steps cfg) (no_steps cfg)

  module _ {W : Type 0} (services : Services W) (ctx : StepContext) (w : W) where
    Bounded-gate_prompt :
        (message : Value) (o : Result Value) → Bounded cfg (gate_prompt services cfg message o w).0
    unfolding gate_prompt
    Bounded-gate_prompt message (err e) = tt
    Bounded-gate_prompt message (ok show_file) =
        Bounded-if_world cfg (services.is_tty w) _ _ (Bounded-gate_result _ _ _ _ _) (no_steps cfg)

    Bounded-gate_message : (o : Result Value) → Bounded cfg (gate_message services cfg ctx o w).0
    unfolding gate_message
    Bounded-gate_message (err e) = tt
    Bounded-gate_message (ok message) = Bounded-gate_prompt message _

    Bounded-gate_step : Bounded cfg (gate_step services cfg ctx w).0
    unfolding gate_step
    Bounded-gate_step = Bounded-gate_message _

    Bounded-shell_exit :
        (code : ℤ) (out error : String)
        → Bounded cfg (Reply.returned (shell_exit services cfg code out error))
    unfolding shell_exit
    Bounded-shell_exit code out error =
        Bounded-if cfg (is_zero code) _ _
          (Bounded-if cfg (is_text (get_or cfg "output_format" null) "json") _ _
            (parsed (services.parse_json out)) (no_steps cfg))
          (no_steps cfg)
      where
        parsed :
            (o : Option Value)
            → Bounded cfg (
                Reply.returned (elim o [
                  | none ↦
                      ended_with StepStatus.failed
                        (shell_output code out error)
                        (str "stdout is not valid JSON")
                  | some v ↦ completed (set (shell_output code out error) "data" v) (list nil)
                ]))
        parsed none = no_steps cfg
        parsed (some v) = no_steps cfg

    Bounded-shell_reply : (o : ShellOutcome) → Bounded cfg (shell_reply services cfg o)
    unfolding shell_reply
    Bounded-shell_reply (exited code out error) = Bounded-shell_exit code out error
    Bounded-shell_reply timed_out = no_steps cfg
    Bounded-shell_reply (not_started reason) = no_steps cfg
    Bounded-shell_reply (broke e) = tt

    Bounded-shell_start : (o : Option String) → Bounded cfg (shell_start services cfg ctx o w).0
    unfolding shell_start
    Bounded-shell_start none = tt
    Bounded-shell_start (some cmd) = Bounded-shell_reply _

    Bounded-shell_run : (o : Result Value) → Bounded cfg (shell_run services cfg ctx o w).0
    unfolding shell_run
    Bounded-shell_run (err e) = tt
    Bounded-shell_run (ok v) = Bounded-shell_start _

    Bounded-shell_step : Bounded cfg (shell_step services cfg ctx w).0
    unfolding shell_step
    Bounded-shell_step = Bounded-shell_run _

    Bounded-command_run : (o : Result Prepared) → Bounded cfg (command_run services cfg ctx o w).0
    unfolding command_run command_dispatch
    Bounded-command_run (err e) = tt
    Bounded-command_run (ok (prepared input integration model options)) =
        dispatched (to_text (get_or input "args" (str "")))
      where
        dispatched :
            (o : Option String)
            → Bounded cfg (command_dispatch services cfg ctx integration model input options o w).0
        dispatched none = tt
        dispatched (some args) = Bounded-cli_result _ _

    Bounded-command_step : Bounded cfg (command_step services cfg ctx w).0
    unfolding command_step
    Bounded-command_step = Bounded-command_run _

    Bounded-prompt_run :
        (o : Result (String × Value × Value)) → Bounded cfg (prompt_run services ctx o w).0
    unfolding prompt_run prompt_dispatch
    Bounded-prompt_run (err e) = tt
    Bounded-prompt_run (ok (prompt, integration, model)) = Bounded-cli_result _ _

    Bounded-prompt_step : Bounded cfg (prompt_step services cfg ctx w).0
    unfolding prompt_step
    Bounded-prompt_step = Bounded-prompt_run _

-- A step whose type is not `fan-out` only has to keep its nested steps small.
Shrinks-plain :
    (t : String) (cfg : Fields) (r : Reply)
    → (t == "fan-out") ≡ false
    → Bounded cfg r
    → Shrinks (str t) cfg r
Shrinks-plain t cfg (Reply.returned r) h b = (b, λ f. ground arith)
Shrinks-plain t cfg (Reply.raised e) h b = tt
Shrinks-plain t cfg Reply.interrupted h b = tt

-- The bound on what a step implementation of a type returns.
abbrev ShrinksAs : {W : Type 0} → String → StepImpl W → Type 0
ShrinksAs {W} t impl =
    (cfg : Fields) (ctx : StepContext) (w : W) → Shrinks (str t) cfg (impl cfg ctx w).0

module _ {W : Type 0} (t : String) (impl : StepImpl W) where
  -- One `if` of the registry's chain.
  registered :
      (P : StepImpl W → Type 0) (s : String) (a : StepImpl W) (rest : Option (StepImpl W))
      → (if t == s then some a else rest) ≡ some impl
      → ((t == s) ≡ true → P a)
      → (rest ≡ some impl → P impl)
      → P impl
  registered P s a rest h here there = elim (Bool-cases (t == s)) [
    | inl e ↦ subst P (same (a_is_impl e)) (here e)
    | inr e ↦ there (rw e at h)
  ]
    where
      a_is_impl : (t == s) ≡ true → some a ≡ some impl
      a_is_impl e = rw e at h

      same : some a ≡ some impl → a ≡ impl
      same p = ap (λ (o : Option (StepImpl W)). elim o [ none ↦ a | some b ↦ b ]) p

  other_type : (s : String) → (s == "fan-out") ≡ false → (t == s) ≡ true → (t == "fan-out") ≡ false
  other_type s h e = subst (λ x. (x == "fan-out") ≡ false) (sym (eq_of_== t s e)) h

  -- How a type that is not `fan-out` gets what the registry's chain asks.
  plain :
      (s : String) (a : StepImpl W)
      → (s == "fan-out") ≡ false
      → ((cfg : Fields) (ctx : StepContext) (w : W) → Bounded cfg (a cfg ctx w).0)
      → (t == s) ≡ true
      → ShrinksAs t a
  plain s a differs bounded e cfg ctx w =
      Shrinks-plain t cfg _ (other_type s differs e) (bounded cfg ctx w)

module _ {W : Type 0} (services : Services W) (t : String) (impl : StepImpl W) where
  ShrinksAs-fan_out :
      (t == "fan-out") ≡ true
      → ShrinksAs t (pure_step services (fan_out_step services.evaluate_expression))
  ShrinksAs-fan_out e cfg ctx w =
      subst
        (λ x. Shrinks (str x) cfg (reply_of (fan_out_step services.evaluate_expression cfg ctx)))
        (sym (eq_of_== t "fan-out" e)) (Shrinks-fan_out_step services.evaluate_expression cfg ctx)

  ShrinksAs-builtin : builtin_registry services t ≡ some impl → ShrinksAs t impl
  unfolding builtin_registry string_eq
  ShrinksAs-builtin h =
      let ev = services.evaluate_expression in
      let P = ShrinksAs t in
      registered t impl P "command" _ _ h
        (plain t impl "command" (command_step services) refl
          (λ cfg ctx w. Bounded-command_step cfg services ctx w))
        (λ h.
          registered t impl P "do-while" _ _ h
            (plain t impl "do-while" (pure_step services do_while_step) refl
              (λ cfg ctx w. Bounded-do_while_step ev cfg ctx))
            (λ h.
              registered t impl P "fan-in" _ _ h
                (plain t impl "fan-in" (pure_step services (fan_in_step ev)) refl
                  (λ cfg ctx w. Bounded-fan_in_step ev cfg ctx))
                (λ h. registered t impl P "fan-out" _ _ h ShrinksAs-fan_out (λ h.
                  registered t impl P "gate" _ _ h
                    (plain t impl "gate" (gate_step services) refl
                      (λ cfg ctx w. Bounded-gate_step cfg services ctx w))
                    (λ h.
                      registered t impl P "if" _ _ h
                        (plain t impl "if" (pure_step services (if_step ev)) refl
                          (λ cfg ctx w. Bounded-if_step ev cfg ctx))
                        (λ h.
                          registered t impl P "init" _ _ h
                            (plain t impl "init" (init_step services) refl
                              (λ cfg ctx w. Bounded-init_step cfg services ctx w))
                            (λ h.
                              registered t impl P "prompt" _ _ h
                                (plain t impl "prompt" (prompt_step services) refl
                                  (λ cfg ctx w. Bounded-prompt_step cfg services ctx w))
                                (λ h.
                                  registered t impl P "shell" _ _ h
                                    (plain t impl "shell" (shell_step services) refl
                                      (λ cfg ctx w. Bounded-shell_step cfg services ctx w))
                                    (λ h.
                                      registered t impl P "switch" _ _ h
                                        (plain t impl "switch" (pure_step services (switch_step ev))
                                          refl (λ cfg ctx w. Bounded-switch_step ev cfg ctx))
                                        (λ h.
                                          registered t impl P "while" _ _ h
                                            (plain t impl "while"
                                              (pure_step services (while_step ev)) refl
                                              (λ cfg ctx w. Bounded-while_step ev cfg ctx))
                                            (λ h. ground (arith, h))))))))))))

-- Each built-in step returns nested steps that are no deeper than its own configuration is, and the
-- template of a fan-out that has one is no deeper either.
pub builtin_host-IsShrinking :
    {W : Type 0} (services : Services W) → IsShrinking (builtin_host services)
builtin_host-IsShrinking services t impl cfg ctx w h = ShrinksAs-builtin services t impl h cfg ctx w
