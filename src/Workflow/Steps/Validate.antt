-- ===== src/Workflow/Steps/Validate.antt =====
-- `validate` of the steps: workflows/base.py and workflows/steps/. Each gives the list of what is wrong
-- with a step's configuration, in the order in which the code appends its messages.
use alharistech_platform.Base.{
  zero, String, Bool, true, false, not, ◌&&◌, ◌||◌, none, some, List, [], ◌∷◌, ◌++◌, ◌==◌,
  string_eq, if◌then◌else◌,
}
use alharistech_platform.Base.Dict.{Dict}
use alharistech_platform.Value.{
  ℤ, Value, null, bool, int, str, list, dict, Items, nil, cons, Fields, end, field, truthy, find,
  get_or,
}
use alharistech_platform.Workflow.Model.{attribute_error, Result, ok, err, ◌>>=◌}
use alharistech_platform.Workflow.Inputs.{lowers_to}
use alharistech_platform.Workflow.Steps.{has_template}

-- The messages; `custom` is the message of a step type that is not built in.
pub data StepProblem : Type 0 where
  missing_field not_a_list not_a_mapping not_non_empty_list : String → StepProblem
  case_not_a_list : String → StepProblem
  options_not_texts no_reject_choice : StepProblem
  bad_max_iterations bad_on_reject bad_output_format bad_script : StepProblem
  custom : String → StepProblem

abbrev pub has_field : Fields → String → Bool
has_field cfg k = elim (find cfg k) [ none ↦ false | some _ ↦ true ]

-- `if test: errors.append(...)`
abbrev pub when {ℓ} : {A : Type ℓ} → Bool → A → List A
when b problem = if b then problem ∷ [] else []

unfoldable pub missing : Fields → String → List StepProblem
unfolding find
missing cfg k = when (not (has_field cfg k)) (missing_field k)

abbrev pub is_list : Value → Bool
is_list (list xs) = true
is_list _ = false

abbrev pub is_mapping : Value → Bool
is_mapping (dict fs) = true
is_mapping _ = false

abbrev pub is_none : Value → Bool
is_none null = true
is_none _ = false

-- `isinstance(v, list) and v`
abbrev is_non_empty_list : Value → Bool
is_non_empty_list (list (cons x xs)) = true
is_non_empty_list _ = false

-- `isinstance(v, int) and v >= 1`: `True` counts as 1.
abbrev pub is_positive_int : Value → Bool
is_positive_int (bool b) = b
is_positive_int (int (ℤ.pos zero)) = false
is_positive_int (int (ℤ.pos n)) = true
is_positive_int _ = false

-- `StepBase.validate`
unfoldable pub validate_base : Fields → List StepProblem
unfolding missing
validate_base cfg = missing cfg "id"

unfoldable pub validate_if : Fields → List StepProblem
unfolding validate_base missing find
validate_if cfg =
    let otherwise = get_or cfg "else" (list nil) in
    validate_base cfg
    ++ missing cfg "condition"
    ++ missing cfg "then"
    ++ when (not (is_list (get_or cfg "then" (list nil)))) (not_a_list "then")
    ++ when (truthy otherwise && not (is_list otherwise)) (not_a_list "else")

validate_cases : Fields → List StepProblem
validate_cases end = []
validate_cases (field key steps rest) =
    when (not (is_list steps)) (case_not_a_list key) ++ validate_cases rest

unfoldable pub validate_switch_cases : Value → List StepProblem
unfolding validate_cases
validate_switch_cases (dict cases) = validate_cases cases
validate_switch_cases _ = not_a_mapping "cases" ∷ []

unfoldable pub validate_switch : Fields → List StepProblem
unfolding validate_base missing find validate_switch_cases
validate_switch cfg =
    let default = get_or cfg "default" null in
    validate_base cfg
    ++ missing cfg "expression"
    ++ validate_switch_cases (get_or cfg "cases" (dict end))
    ++ when (not (is_none default) && not (is_list default)) (not_a_list "default")

-- The same for `while` and `do-while`.
unfoldable pub validate_loop : Fields → List StepProblem
unfolding validate_base missing find
validate_loop cfg =
    let max_iterations = get_or cfg "max_iterations" null in
    validate_base cfg
    ++ missing cfg "condition"
    ++ when (not (is_none max_iterations) && not (is_positive_int max_iterations))
        bad_max_iterations
    ++ when (not (is_list (get_or cfg "steps" (list nil)))) (not_a_list "steps")

unfoldable pub validate_fan_out : Fields → List StepProblem
unfolding validate_base missing find
validate_fan_out cfg =
    let step = get_or cfg "step" null in
    validate_base cfg
    ++ missing cfg "items"
    ++ missing cfg "step"
    ++ when (not (is_none step) && not (is_mapping step)) (not_a_mapping "step")

unfoldable pub validate_fan_in : Fields → List StepProblem
unfolding validate_base find
validate_fan_in cfg =
    validate_base cfg
    ++ when (not (is_non_empty_list (get_or cfg "wait_for" (list nil))))
        (not_non_empty_list "wait_for")

abbrev is_str : Value → Bool
is_str (str s) = true
is_str _ = false

unfoldable pub all_texts : Items → Bool
all_texts nil = true
all_texts (cons x xs) = is_str x && all_texts xs

validate_options : Value → List StepProblem
unfolding all_texts
validate_options (list (cons x xs)) = when (not (all_texts (cons x xs))) options_not_texts
validate_options _ = not_non_empty_list "options" ∷ []

-- `any(o.lower() in {"reject", "abort"} for o in options)`
unfoldable pub has_reject_choice : Items → Result Bool
unfolding lowers_to
has_reject_choice nil = ok false
has_reject_choice (cons (str s) rest) =
    let found = has_reject_choice rest in
    if lowers_to s "reject" || lowers_to s "abort" then ok true else found
has_reject_choice (cons _ rest) = err attribute_error

abbrev is_one : String → Value → Bool
is_one t (str s) = s == t
is_one t _ = false

-- The last check of a gate's options: a way to reject, where a rejection matters.
reject_choice : Value → Value → Result (List StepProblem)
unfolding has_reject_choice
reject_choice on_reject (list options) =
    if is_one "abort" on_reject || is_one "retry" on_reject
    then has_reject_choice options >>= (λ found. ok (when (not found) no_reject_choice))
    else ok []
reject_choice on_reject _ = ok []

abbrev default_options : Value
default_options = list (cons (str "approve") (cons (str "reject") nil))

unfoldable pub validate_gate : Fields → Result (List StepProblem)
unfolding validate_base missing find validate_options reject_choice
validate_gate cfg =
    let options = get_or cfg "options" default_options in
    let on_reject = get_or cfg "on_reject" (str "abort") in
    let known = is_one "abort" on_reject || is_one "skip" on_reject || is_one "retry" on_reject in
    reject_choice on_reject options >>= λ last. ok (
      validate_base cfg
      ++ missing cfg "message"
      ++ validate_options options
      ++ when (not known) bad_on_reject
      ++ last)

unfoldable pub validate_shell : Fields → List StepProblem
unfolding validate_base missing find
validate_shell cfg =
    let output_format = get_or cfg "output_format" null in
    validate_base cfg
    ++ missing cfg "run"
    ++ when (not (is_none output_format) && not (is_one "json" output_format)) bad_output_format

unfoldable pub validate_command : Fields → List StepProblem
unfolding validate_base missing
validate_command cfg = validate_base cfg ++ missing cfg "command"

unfoldable pub validate_prompt : Fields → List StepProblem
unfolding validate_base missing
validate_prompt cfg = validate_base cfg ++ missing cfg "prompt"

validate_script : Value → List StepProblem
validate_script null = []
validate_script (str s) = when (not (has_template s) && not (s == "sh" || s == "ps")) bad_script
validate_script _ = bad_script ∷ []

unfoldable pub validate_init : Fields → List StepProblem
unfolding validate_base find validate_script
validate_init cfg = validate_base cfg ++ validate_script (get_or cfg "script" null)

abbrev pub Validator : Type 0
Validator = Fields → Result (List StepProblem)

abbrev pure_validator : (Fields → List StepProblem) → Validator
pure_validator f cfg = ok (f cfg)

-- `STEP_REGISTRY` with the built-in steps, of which validation asks for `validate`.
unfoldable pub builtin_validators : Dict String Validator
builtin_validators =
    ("command", pure_validator validate_command)
    ∷ ("do-while", pure_validator validate_loop)
    ∷ ("fan-in", pure_validator validate_fan_in)
    ∷ ("fan-out", pure_validator validate_fan_out)
    ∷ ("gate", validate_gate)
    ∷ ("if", pure_validator validate_if)
    ∷ ("init", pure_validator validate_init)
    ∷ ("prompt", pure_validator validate_prompt)
    ∷ ("shell", pure_validator validate_shell)
    ∷ ("switch", pure_validator validate_switch)
    ∷ ("while", pure_validator validate_loop)
    ∷ []
