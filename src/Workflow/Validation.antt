-- ===== src/Workflow/Validation.antt =====
-- `validate_workflow` and `_validate_steps` of workflows/engine.py. The list of errors and the set of
-- ids, which the code changes in place, are a ledger that is passed on.
mod Problems
pub mod Rules
pub mod Valid
pub mod Below
pub mod Ids
pub mod Sound
mod Examples
pub mod Defaults
pub mod Total
pub mod Distinct
unfoldable pub use Problems.*
use Prim.Native.Char.{Char, code}
use Prim.Native.String.{[] as empty_text, ◌∷◌ as ◌▸◌}
use text.Mathlib.Text.{find?}
use alharistech_platform.Base.{
  all_chars, ℕ, zero, suc, String, Bool, true, false, not, ◌&&◌, ◌||◌, Option, none, some, List, [],
  ◌∷◌, ◌++◌, leb, contains, ◌==◌, string_eq, if◌then◌else◌,
}
use alharistech_platform.Base.Dict.{Dict, get, keys}
use alharistech_platform.Value.{
  Value, null, bool, str, list, dict, Items, nil, cons, Fields, end, field, truthy, find, get_or,
}
use alharistech_platform.Value.Depth.{depth_items}
use alharistech_platform.Workflow.Model.{
  Exn, type_error, unmodelled, value_error, Result, ok, err, ◌>>=◌,
}
use alharistech_platform.Workflow.Definition.{Definition}
use alharistech_platform.Workflow.Inputs.{coerce_input, coerce_spec}
use alharistech_platform.Workflow.Steps.Validate.{StepProblem, Validator, when, has_field}

pub record Ledger : Type 0 where
  pub seen : List String
  pub errors : List Problem

-- How a check ends.
pub data Check : Type 0 where
  going : Ledger → Check
  raised : Exn → Check
  out_of_fuel : Check

infixl 5 ◌⨟◌
abbrev pub ◌⨟◌ : Check → (Ledger → Check) → Check
going l ⨟ f = f l
raised e ⨟ f = raised e
out_of_fuel ⨟ f = out_of_fuel

abbrev pub report : List Problem → Ledger → Ledger
report problems l = record l { errors = l.errors ++ problems }

abbrev pub mark : String → Ledger → Ledger
mark id l = record l { seen = id ∷ l.seen }

abbrev pub in_steps : List StepProblem → List Problem
in_steps [] = []
in_steps (p ∷ ps) = in_step p ∷ in_steps ps

abbrev pub has_colon : String → Bool
has_colon s = elim (find? s ":") [ none ↦ false | some _ ↦ true ]

-- The step types for which the registry has no entry at all are the fallback of an empty registry.
unfoldable pub valid_step_types : Dict String Validator → List String
unfolding keys
valid_step_types [] =
    "command" ∷ "shell" ∷ "prompt" ∷ "gate" ∷ "if" ∷ "init" ∷ "switch" ∷ "while" ∷ "do-while"
    ∷ "fan-out" ∷ "fan-in" ∷ []
valid_step_types registry = keys registry

-- `isinstance(v, bool)`
abbrev pub is_bool : Value → Bool
is_bool (bool b) = true
is_bool _ = false

abbrev pub continue_problems : String → Option Value → List Problem
continue_problems id none = []
continue_problems id (some v) = when (not (is_bool v)) (bad_continue_on_error id)

-- What the colon and a second use of an id are worth.
abbrev pub id_problems : String → List String → List Problem
id_problems id seen =
    when (has_colon id) (reserved_colon id) ++ when (contains seen id) (duplicate_id id)

-- The steps of a list that stands under a key, and nothing where no list does.
abbrev pub check_value : (Items → Ledger → Check) → Value → Ledger → Check
check_value check (list xs) l = check xs l
check_value check _ l = going l

unfoldable pub check_cases : (Items → Ledger → Check) → Fields → Ledger → Check
check_cases check end l = going l
check_cases check (field key steps rest) l = check_value check steps l ⨟ check_cases check rest

unfoldable pub check_switch : (Items → Ledger → Check) → Value → Ledger → Check
unfolding check_cases
check_switch check (dict cases) l = check_cases check cases l
check_switch check _ l = going l

-- The template of a fan-out, with ids of its own.
abbrev pub check_template : (Items → Ledger → Check) → Value → Ledger → Check
check_template check (dict template) l =
    check (cons (dict template) nil) (record { seen = []; errors = [] }) ⨟ λ own.
    going (report own.errors l)
check_template check _ l = going l

-- The nested steps of a step, in the order of the code.
unfoldable pub check_nested : (Items → Ledger → Check) → Fields → Ledger → Check
unfolding find check_switch
check_nested check cfg l =
    check_value check (get_or cfg "then" null) l
    ⨟ check_value check (get_or cfg "else" null)
    ⨟ check_value check (get_or cfg "steps" null)
    ⨟ check_switch check (get_or cfg "cases" null)
    ⨟ check_value check (get_or cfg "default" null)
    ⨟ check_template check (get_or cfg "step" null)

module _ (registry : Dict String Validator) where
  -- `step_impl.validate(step_config)`, where the registry has the type
  abbrev pub problems_of_type : String → Validator
  problems_of_type t cfg = elim (get registry t) [ none ↦ ok [] | some validate ↦ validate cfg ]

  -- A step of a registered type.
  unfoldable pub check_typed : (Items → Ledger → Check) → Fields → String → String → Ledger → Check
  unfolding find get check_nested
  check_typed check cfg id t l = elim (problems_of_type t cfg) [
    | err e ↦ raised e
    | ok problems ↦
        check_nested check cfg
          (report (in_steps problems ++ continue_problems id (find cfg "continue_on_error")) l)
  ]

  -- A step with an id; a list or a dict for its type cannot be looked up in a set.
  unfoldable pub check_type : (Items → Ledger → Check) → Fields → String → Value → Ledger → Check
  unfolding check_typed valid_step_types
  check_type check cfg id (str t) l =
      if contains (valid_step_types registry) t
      then check_typed check cfg id t l
      else going (report (bad_step_type id (str t) ∷ []) l)
  check_type check cfg id (list xs) l = raised type_error
  check_type check cfg id (dict fs) l = raised type_error
  check_type check cfg id v l = going (report (bad_step_type id v ∷ []) l)

  unfoldable pub check_identified : (Items → Ledger → Check) → Fields → String → Ledger → Check
  unfolding find check_type
  check_identified check cfg id l =
      check_type check cfg id (get_or cfg "type" (str "command"))
        (mark id (report (id_problems id l.seen) l))

  -- An id that is false in a test is missing; `":" in step_id` and `step_id in seen_ids` raise for any
  -- other id that is no text.
  unfoldable pub check_id : (Items → Ledger → Check) → Fields → Value → Ledger → Check
  unfolding check_identified
  check_id check cfg (str id) l =
      if id == "" then going (report (step_without_id ∷ []) l) else check_identified check cfg id l
  check_id check cfg v l =
      if truthy v then raised type_error else going (report (step_without_id ∷ []) l)

  unfoldable pub check_step : (Items → Ledger → Check) → Value → Ledger → Check
  unfolding find check_id
  check_step check (dict cfg) l = check_id check cfg (get_or cfg "id" null) l
  check_step check v l = going (report (step_not_a_mapping ∷ []) l)

  unfoldable pub check_all : (Items → Ledger → Check) → Items → Ledger → Check
  unfolding check_step
  check_all check nil l = going l
  check_all check (cons step rest) l = check_step check step l ⨟ check_all check rest

  -- `_validate_steps`; the fuel bounds how deep the calls nest.
  unfoldable pub validate_steps : ℕ → Items → Ledger → Check
  unfolding check_all
  validate_steps zero steps l = out_of_fuel
  validate_steps (suc fuel) steps l = check_all (validate_steps fuel) steps l

module _ (registry : Dict String Validator) where
  unfoldable pub steps_check : Value → List Problem → Check
  unfolding validate_steps
  steps_check (list nil) errors = going (record { seen = []; errors = errors ++ no_steps ∷ [] })
  steps_check (list steps) errors =
      validate_steps registry (suc (depth_items steps)) steps
        (record { seen = []; errors = errors })
  steps_check v errors = going (record { seen = []; errors = errors ++ steps_not_a_list ∷ [] })

  -- `validate_workflow`: the ledger's errors are what it returns.
  unfoldable pub validate_workflow : Definition → Check
  unfolding head_problems steps_check
  validate_workflow d = elim (head_problems d) [
    | err e ↦ raised e
    | ok errors ↦ steps_check d.steps errors
  ]
