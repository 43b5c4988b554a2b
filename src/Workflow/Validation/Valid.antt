-- ===== src/Workflow/Validation/Valid.antt =====
-- What `validate_workflow` asks of the steps of a workflow.
use alharistech_platform.Base.{
  String, Bool, true, false, ◌≡◌, ◌⊎◌, Option, none, some, [], arith, contains, ◌==◌, string_eq,
}
use alharistech_platform.Base.Dict.{Dict}
use alharistech_platform.Value.{
  Value, null, bool, str, list, dict, Items, nil, cons, Fields, end, field, find, get_or,
}
use alharistech_platform.Workflow.Model.{ok}
use alharistech_platform.Workflow.Steps.Validate.{Validator}
use alharistech_platform.Workflow.Validation.{has_colon, valid_step_types, problems_of_type}

-- A list of steps among the cases of a switch.
abbrev pub IsCase : Fields → Items → Type 0
IsCase end steps = ⊥
IsCase (field key v rest) steps = (v ≡ list steps) ⊎ IsCase rest steps

-- The lists of steps that stand directly in a step; a template is a list of one.
pub data Nested (cfg : Fields) (steps : Items) : Type 0 where
  in_then : get_or cfg "then" null ≡ list steps → Nested cfg steps
  in_else : get_or cfg "else" null ≡ list steps → Nested cfg steps
  in_body : get_or cfg "steps" null ≡ list steps → Nested cfg steps
  in_case :
      (cases : Fields)
      → get_or cfg "cases" null ≡ dict cases
      → IsCase cases steps
      → Nested cfg steps
  in_default : get_or cfg "default" null ≡ list steps → Nested cfg steps
  in_template :
      (template : Fields)
      → get_or cfg "step" null ≡ dict template
      → steps ≡ cons (dict template) nil
      → Nested cfg steps

pub items_eq : {xs ys : Items} → list xs ≡ list ys → xs ≡ ys
items_eq e = ground (arith, e)

pub fields_eq : {fs gs : Fields} → dict fs ≡ dict gs → fs ≡ gs
fields_eq e = ground (arith, e)

-- What is asked of a step apart from its nested steps.
pub record IsGood (registry : Dict String Validator) (cfg : Fields) : Type 0 where
  pub id : String
  pub id_is : get_or cfg "id" null ≡ str id
  pub id_filled : (id == "") ≡ false
  pub id_plain : has_colon id ≡ false
  pub type : String
  pub type_is : get_or cfg "type" (str "command") ≡ str type
  pub type_known : contains (valid_step_types registry) type ≡ true
  pub accepted : problems_of_type registry type cfg ≡ ok []
  pub continue_is_bool :
      (find cfg "continue_on_error" ≡ none)
      ⊎ ((b : Bool) × (find cfg "continue_on_error" ≡ some (bool b)))

-- Every step is a mapping that is good, and so is every step below it.
pub data Valid (registry : Dict String Validator) : Items → Type 0 where
  no_more : Valid registry nil
  one_more :
      (cfg : Fields) (rest : Items)
      → IsGood registry cfg
      → ((steps : Items) → Nested cfg steps → Valid registry steps)
      → Valid registry rest
      → Valid registry (cons (dict cfg) rest)

abbrev pub ContinueIsBool : Option Value → Type 0
ContinueIsBool o = (o ≡ none) ⊎ ((b : Bool) × (o ≡ some (bool b)))

-- Every list of steps that stands directly in a step is valid.
abbrev pub BelowValid : Dict String Validator → Fields → Type 0
BelowValid registry cfg = (steps : Items) → Nested cfg steps → Valid registry steps
