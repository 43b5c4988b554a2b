-- ===== src/Workflow/Validation/Defaults.antt =====
-- The inputs of a workflow without problems: their defaults, and what resolves from them.
use alharistech_platform.Base.{
  String, Bool, true, false, not, ◌&&◌, ◌||◌, ◌≡◌, refl, sym, ap, ◌∙◌, subst, Option, none, some,
  List, [], ◌++◌, arith, string_eq, if◌then◌else◌, Bool-cases, inl, inr,
}
use alharistech_platform.Base.Dict.{Dict}
use alharistech_platform.Value.{
  Value, null, bool, int, str, list, dict, Fields, end, field, truthy, find, get_or, set,
}
use alharistech_platform.Workflow.Model.{
  value_error, Result, ok, err, ◌>>=◌, type_error, attribute_error, key_error, file_not_found,
  unmodelled, bundler_error, os_error,
}
use alharistech_platform.Workflow.Definition.{Definition}
use alharistech_platform.Workflow.Inputs.{
  coerce_input, coerce_spec, resolve_inputs, resolve_fields, one_input, chosen_value, store_input,
  resolve_default, is_auto,
}
use alharistech_platform.Workflow.Steps.Validate.{Validator, has_field, when}
use alharistech_platform.Workflow.Validation.{
  Problem, default_problems, check_default, input_problems, each_input, inputs_problems,
  head_problems, workflow_id_problems, version_problems, validate_workflow, missing_name,
  schema_problems,
}
use alharistech_platform.Workflow.Validation.Rules.{Shows, append-nil_left, append-nil_right}
use alharistech_platform.Workflow.Validation.Sound.{Passes, StepsValid, validate_workflow-Shows}

-- The default of an input is of its type and among its allowed values, where it has one.
abbrev DefaultCoerces : String → Fields → Option Value → Type 0
DefaultCoerces name spec none = Unit
DefaultCoerces name spec (some v) = (w : Value) × (coerce_input v (coerce_spec name v spec) ≡ ok w)

abbrev InputsGood : Fields → Type 0
InputsGood end = Unit
InputsGood (field name spec rest) =
    ((fs : Fields) × (spec ≡ dict fs) × DefaultCoerces name fs (find fs "default"))
    × InputsGood rest

-- What is left of a chain of results that comes to no problems.
both-nil :
    (r s : Result (List Problem))
    → (r >>= λ xs. s >>= λ ys. ok (xs ++ ys)) ≡ ok []
    → (r ≡ ok []) × (s ≡ ok [])
both-nil (ok xs) (ok ys) h =
    let e : xs ++ ys ≡ [] = ground (arith, h) in
    (ap ok (append-nil_left xs ys e), ap ok (append-nil_right xs ys e))
both-nil (ok xs) (err e) h = ground (arith, h)
both-nil (err e) s h = ground (arith, h)

default_problems-nil :
    (name : String) (r : Result Value) → default_problems name r ≡ ok [] → (w : Value) × (r ≡ ok w)
default_problems-nil name (ok w) h = (w, refl)
default_problems-nil name (err (value_error t)) h = ground (arith, h)
default_problems-nil name (err (bundler_error t)) h = ground (arith, h)
default_problems-nil name (err (os_error t)) h = ground (arith, h)
default_problems-nil name (err type_error) h = ground (arith, h)
default_problems-nil name (err attribute_error) h = ground (arith, h)
default_problems-nil name (err key_error) h = ground (arith, h)
default_problems-nil name (err file_not_found) h = ground (arith, h)
default_problems-nil name (err unmodelled) h = ground (arith, h)

check_default-coerces :
    (name : String) (spec : Fields) (o : Option Value)
    → check_default name spec o ≡ ok []
    → DefaultCoerces name spec o
check_default-coerces name spec none h = tt
check_default-coerces name spec (some v) h = default_problems-nil name _ h

after-nil :
    (xs : List Problem) (r : Result (List Problem))
    → (r >>= λ ys. ok (xs ++ ys)) ≡ ok []
    → r ≡ ok []
after-nil xs r h = (both-nil (ok xs) r h).1

input_problems-good :
    (name : String) (v : Value)
    → input_problems name v ≡ ok []
    → (fs : Fields) × (v ≡ dict fs) × DefaultCoerces name fs (find fs "default")
unfolding input_problems
input_problems-good name (dict fs) h =
    (fs, refl, check_default-coerces name fs (find fs "default") (after-nil _ _ h))
input_problems-good name null h = ground (arith, h)
input_problems-good name (bool b) h = ground (arith, h)
input_problems-good name (int n) h = ground (arith, h)
input_problems-good name (str s) h = ground (arith, h)
input_problems-good name (list xs) h = ground (arith, h)

each_input-good : (inputs : Fields) → each_input inputs ≡ ok [] → InputsGood inputs
unfolding each_input
each_input-good end h = tt
each_input-good (field name spec rest) h =
    let e = both-nil (input_problems name spec) (each_input rest) h in
    (input_problems-good name spec e.0, each_input-good rest e.1)

-- An input that is required has a default.
abbrev can_be_left_out : Value → Bool
can_be_left_out (dict spec) =
    has_field spec "default" || not (truthy (get_or spec "required" (bool false)))
can_be_left_out _ = true

abbrev pub all_can_be_left_out : Value → Bool
all_can_be_left_out (dict end) = true
all_can_be_left_out (dict (field name spec rest)) =
    can_be_left_out spec && all_can_be_left_out (dict rest)
all_can_be_left_out _ = false

resolve_default-none : (name : String) (v : Value) → resolve_default name none v ≡ v
unfolding resolve_default
resolve_default-none name v = elim (Bool-cases (is_auto name v)) [ inl e ↦ rw e | inr e ↦ rw e ]

-- The value that is chosen for an input, given its default.
abbrev chosen_from : String → Fields → Option Value → Result (Option Value)
chosen_from name spec (some v) = ok (some (resolve_default name none v))
chosen_from name spec none =
    if truthy (get_or spec "required" (bool false))
    then err (value_error "Required input not provided")
    else ok none

chosen_value-nothing :
    (name : String) (spec : Fields)
    → chosen_value end none name spec ≡ chosen_from name spec (find spec "default")
unfolding chosen_value
chosen_value-nothing name spec = by_default (find spec "default")
  where
    by_default :
        (o : Option Value)
        → elim o [
          | some v ↦ ok (some (resolve_default name none v))
          | none ↦
              if truthy (get_or spec "required" (bool false))
              then err (value_error "Required input not provided")
              else ok none
        ]
          ≡ chosen_from name spec o
    by_default none = refl
    by_default (some v) = refl

abbrev is_there : Option Value → Bool
is_there none = false
is_there (some v) = true

stores :
    (name : String) (spec acc : Fields) (o : Option Value)
    → DefaultCoerces name spec o
    → (is_there o || not (truthy (get_or spec "required" (bool false)))) ≡ true
    → (after : Fields) × ((chosen_from name spec o >>= store_input name spec acc) ≡ ok after)
unfolding store_input
stores name spec acc none good free =
    elim (Bool-cases (truthy (get_or spec "required" (bool false)))) [
      | inl e ↦ ground (arith, free, e)
      | inr e ↦ (acc, rw e refl)
    ]
stores name spec acc (some v) (w, coerces) free =
    (set acc name w, rw (resolve_default-none name v, coerces) refl)

has_field-is_there : (spec : Fields) → has_field spec "default" ≡ is_there (find spec "default")
has_field-is_there spec = by_found (find spec "default")
  where
    by_found : (o : Option Value) → elim o [ none ↦ false | some _ ↦ true ] ≡ is_there o
    by_found none = refl
    by_found (some v) = refl

stores_input :
    (name : String) (spec : Value) (acc : Fields)
    → (fs : Fields) × (spec ≡ dict fs) × DefaultCoerces name fs (find fs "default")
    → can_be_left_out spec ≡ true
    → (after : Fields) × (one_input end none name spec acc ≡ ok after)
unfolding one_input
stores_input name spec acc (fs, same, good) free =
    let free_fs = subst (λ v. can_be_left_out v ≡ true) same free in
    let stored = stores name fs acc (find fs "default") good (
      ap (λ b. b || not (truthy (get_or fs "required" (bool false)))) (sym (has_field-is_there fs))
      ∙ free_fs) in
    (stored.0, rw (same, chosen_value-nothing name fs) stored.1)

resolves :
    (inputs acc : Fields)
    → InputsGood inputs
    → all_can_be_left_out (dict inputs) ≡ true
    → (after : Fields) × (resolve_fields end none inputs acc ≡ ok after)
unfolding resolve_fields
resolves end acc good free = (acc, refl)
resolves (field name spec rest) acc (good, others) free =
    let first : can_be_left_out spec ≡ true = ground (arith, free) in
    let later : all_can_be_left_out (dict rest) ≡ true = ground (arith, free) in
    let stored = stores_input name spec acc good first in
    let done = resolves rest stored.0 others later in (done.0, rw stored.1 done.1)

-- The inputs are what the chain of `validate_workflow` comes to last.
last-nil :
    (f : List Problem → List Problem → List Problem) (r s t : Result (List Problem))
    → (r >>= λ xs. s >>= λ ys. t >>= λ zs. ok (f xs ys ++ zs)) ≡ ok []
    → t ≡ ok []
last-nil f (ok xs) (ok ys) t h = after-nil (f xs ys) t h
last-nil f (ok xs) (err e) t h = ground (arith, h)
last-nil f (err e) s t h = ground (arith, h)

head-inputs : (d : Definition) → head_problems d ≡ ok [] → inputs_problems d.inputs ≡ ok []
unfolding head_problems
head-inputs d h =
    last-nil
      (λ id version.
        schema_problems d.schema_version
        ++ id
        ++ when (not (truthy d.name)) missing_name
        ++ version)
      (workflow_id_problems d.id) (version_problems d.version) (inputs_problems d.inputs) h

resolve_inputs-nothing :
    (v : Value)
    → inputs_problems v ≡ ok []
    → all_can_be_left_out v ≡ true
    → (resolved : Fields) × (resolve_inputs none v end ≡ ok resolved)
unfolding inputs_problems resolve_inputs
resolve_inputs-nothing (dict specs) good free = resolves specs end (each_input-good specs good) free
resolve_inputs-nothing null good free = ground (arith, free)
resolve_inputs-nothing (bool b) good free = ground (arith, free)
resolve_inputs-nothing (int n) good free = ground (arith, free)
resolve_inputs-nothing (str s) good free = ground (arith, free)
resolve_inputs-nothing (list xs) good free = ground (arith, free)

-- If `validate_workflow` finds no problem, and each input that is required has a default, then
-- `_resolve_inputs` accepts a run that provides no inputs, in a project that names no integration.
pub validate_workflow-resolves :
    (registry : Dict String Validator) (d : Definition)
    → Passes (validate_workflow registry d)
    → all_can_be_left_out d.inputs ≡ true
    → (resolved : Fields) × (resolve_inputs none d.inputs end ≡ ok resolved)
validate_workflow-resolves registry d passes free =
    let shown =
      subst (Shows (λ m. (head_problems d ≡ ok []) × StepsValid registry d.steps)) passes.1
        (validate_workflow-Shows registry d) refl in
    resolve_inputs-nothing d.inputs (head-inputs d shown.0) free
