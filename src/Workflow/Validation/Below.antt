-- ===== src/Workflow/Validation/Below.antt =====
-- What the checks of the nested steps of a step show: every list below it is valid.
use alharistech_platform.Base.{String, ◌≡◌, subst, sym, inl, inr, List, [], arith, string_eq}
use alharistech_platform.Base.Dict.{Dict}
use alharistech_platform.Value.{
  Value, null, bool, int, str, list, dict, Items, nil, cons, Fields, end, field, get_or,
}
use alharistech_platform.Workflow.Steps.Validate.{Validator}
use alharistech_platform.Workflow.Validation.Rules.{
  Shows, Static, Static-map, Static-seq, Static-going, append-nil_left, append-nil_right,
}
use alharistech_platform.Workflow.Validation.{
  Problem, Ledger, Check, going, raised, out_of_fuel, ◌⨟◌, report, check_value, check_cases,
  check_switch, check_template, check_nested,
}
use alharistech_platform.Workflow.Validation.Valid.{
  BelowValid, IsCase, in_then, in_else, in_body, in_case, in_default, in_template, items_eq,
  fields_eq, Valid,
}

module _ (registry : Dict String Validator) (check : Items → Ledger → Check)
    (sound : (steps : Items) → Static (Valid registry steps) (check steps)) where
  abbrev ListValid : Value → Type 0
  ListValid v = (steps : Items) → v ≡ list steps → Valid registry steps

  check_value-Static : (v : Value) → Static (ListValid v) (check_value check v)
  check_value-Static null = Static-going _ (λ steps e. ground (arith, e))
  check_value-Static (bool b) = Static-going _ (λ steps e. ground (arith, e))
  check_value-Static (int n) = Static-going _ (λ steps e. ground (arith, e))
  check_value-Static (str s) = Static-going _ (λ steps e. ground (arith, e))
  check_value-Static (dict fs) = Static-going _ (λ steps e. ground (arith, e))
  check_value-Static (list xs) =
      Static-map _ _ (check xs) (λ valid steps e. subst (Valid registry) (items_eq e) valid)
        (sound xs)

  abbrev CasesValid : Fields → Type 0
  CasesValid cases = (steps : Items) → IsCase cases steps → Valid registry steps

  check_cases-Static : (cases : Fields) → Static (CasesValid cases) (check_cases check cases)
  unfolding check_cases
  check_cases-Static end = Static-going _ (λ steps c. elim c [ ])
  check_cases-Static (field key v rest) =
      Static-map _ _ (check_cases check (field key v rest))
        (λ valid steps c. elim c [ inl e ↦ valid.0 steps e | inr d ↦ valid.1 steps d ])
        (Static-seq (ListValid v) (CasesValid rest) (check_value check v) (check_cases check rest)
          (check_value-Static v) (check_cases-Static rest))

  abbrev SwitchValid : Value → Type 0
  SwitchValid v = (cases : Fields) → v ≡ dict cases → CasesValid cases

  check_switch-Static : (v : Value) → Static (SwitchValid v) (check_switch check v)
  unfolding check_switch
  check_switch-Static null = Static-going _ (λ steps e. ground (arith, e))
  check_switch-Static (bool b) = Static-going _ (λ steps e. ground (arith, e))
  check_switch-Static (int n) = Static-going _ (λ steps e. ground (arith, e))
  check_switch-Static (str s) = Static-going _ (λ steps e. ground (arith, e))
  check_switch-Static (list xs) = Static-going _ (λ steps e. ground (arith, e))
  check_switch-Static (dict cases) =
      Static-map _ _ (check_cases check cases) (λ valid cs e. subst CasesValid (fields_eq e) valid)
        (check_cases-Static cases)

  abbrev no_problems : List Problem
  no_problems = []

  abbrev TemplateValid : Value → Type 0
  TemplateValid v =
      (template : Fields) → v ≡ dict template → Valid registry (cons (dict template) nil)

  check_template-Static : (v : Value) → Static (TemplateValid v) (check_template check v)
  check_template-Static null = Static-going _ (λ steps e. ground (arith, e))
  check_template-Static (bool b) = Static-going _ (λ steps e. ground (arith, e))
  check_template-Static (int n) = Static-going _ (λ steps e. ground (arith, e))
  check_template-Static (str s) = Static-going _ (λ steps e. ground (arith, e))
  check_template-Static (list xs) = Static-going _ (λ steps e. ground (arith, e))
  check_template-Static (dict t) =
      λ l. own l (check (cons (dict t) nil) (record { seen = []; errors = [] })) (sound _ _)
    where
      own :
          (l : Ledger) (c : Check)
          → Shows (λ m. (no_problems ≡ []) × Valid registry (cons (dict t) nil)) c
          → Shows
              (λ m. (l.errors ≡ []) × TemplateValid (dict t))
              (c ⨟ λ own. going (report own.errors l))
      own l (going m) h = λ e. (
        append-nil_left l.errors m.errors e,
        λ u same.
            subst (λ x. Valid registry (cons (dict x) nil)) (fields_eq same)
              (h (append-nil_right l.errors m.errors e)).1,
      )
      own l (raised e) h = tt
      own l out_of_fuel h = tt

  pub check_nested-Static :
      (cfg : Fields) → Static (BelowValid registry cfg) (check_nested check cfg)
  unfolding check_nested
  check_nested-Static cfg = Static-map _ _ (check_nested check cfg) below (
      Static-seq _ _ _ _
        (Static-seq _ _ _ _
          (Static-seq _ _ _ _
            (Static-seq _ _ _ _
              (Static-seq _ _ (check_value check _) (check_value check _)
                (check_value-Static (get_or cfg "then" null))
                (check_value-Static (get_or cfg "else" null)))
              (check_value-Static (get_or cfg "steps" null)))
            (check_switch-Static (get_or cfg "cases" null)))
          (check_value-Static (get_or cfg "default" null)))
        (check_template-Static (get_or cfg "step" null)))
    where
      below :
          ((((ListValid (get_or cfg "then" null) × ListValid (get_or cfg "else" null))
                  × ListValid (get_or cfg "steps" null))
                × SwitchValid (get_or cfg "cases" null))
              × ListValid (get_or cfg "default" null))
            × TemplateValid (get_or cfg "step" null)
          → BelowValid registry cfg
      below h steps (in_then e) = h.0.0.0.0.0 steps e
      below h steps (in_else e) = h.0.0.0.0.1 steps e
      below h steps (in_body e) = h.0.0.0.1 steps e
      below h steps (in_case cases e c) = h.0.0.1 cases e steps c
      below h steps (in_default e) = h.0.1 steps e
      below h steps (in_template t e same) = subst (Valid registry) (sym same) (h.1 t e)
