-- ===== src/Workflow/Definition.antt =====
-- `WorkflowDefinition` of workflows/engine.py: the fields that are read from a document.
use alharistech_platform.Value.{
  Value, null, str, list, dict, nil, Fields, end, or_else, find, get_or,
}
use alharistech_platform.Workflow.Model.{attribute_error, value_error, Result, ok, err}

pub record Definition : Type 0 where
  pub data_ : Fields
  pub id : Value
  pub name : Value
  pub version : Value
  pub author : Value
  pub description : Value
  pub schema_version : Value
  pub default_integration : Value
  pub default_model : Value
  pub default_options : Fields
  pub requires : Value
  pub inputs : Value
  pub steps : Value

-- A dict, or an empty one in place of anything else.
abbrev pub dict_or_empty : Value → Fields
dict_or_empty (dict fs) = fs
dict_or_empty _ = end

unfoldable pub with_workflow : Fields → Value → Result Definition
unfolding find
with_workflow doc (dict w) = ok (record {
  data_ = doc;
  id = get_or w "id" (str "");
  name = get_or w "name" (str "");
  version = get_or w "version" (str "0.0.0");
  author = get_or w "author" (str "");
  description = get_or w "description" (str "");
  schema_version = get_or doc "schema_version" (str "1.0");
  default_integration = get_or w "integration" null;
  default_model = get_or w "model" null;
  default_options = dict_or_empty (or_else (get_or w "options" null) (dict end));
  requires = get_or doc "requires" (dict end);
  inputs = get_or doc "inputs" (dict end);
  steps = get_or doc "steps" (list nil);
})
with_workflow doc _ = err attribute_error

-- `WorkflowDefinition(data)`
unfoldable pub definition_of : Fields → Result Definition
unfolding with_workflow
definition_of doc = with_workflow doc (get_or doc "workflow" (dict end))

-- `from_yaml` and `from_string`, after `yaml.safe_load`
unfoldable pub definition_of_document : Value → Result Definition
definition_of_document (dict doc) = definition_of doc
definition_of_document _ = err (value_error "Workflow YAML must be a mapping")
