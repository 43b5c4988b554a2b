-- ===== src/Bundle/Manifest.antt =====
-- `BundleManifest` of bundler/models/manifest.py: reading a manifest out of a document, and its
-- structural errors. `is_semver` of bundler/lib, which the repository does not hold, is a parameter.
pub mod Sound
use Prim.Native.Char.{code}
use Prim.Native.String.{[] as empty_text, ◌∷◌ as ◌▸◌}
use alharistech_platform.Base.{
  ℕ, String, ◌<>◌, Bool, true, false, not, ◌&&◌, ◌||◌, Option, none, some, List, [], ◌∷◌, ◌++◌, leb,
  contains, ◌==◌, string_eq, if◌then◌else◌,
}
use alharistech_platform.Base.Blank.{strip}
use alharistech_platform.Value.{
  ℤ, Value, null, bool, int, str, list, dict, Items, nil, cons, Fields, end, truthy, or_else, find,
  get_or, or_default,
}
use alharistech_platform.Exception.{Exn, bundler_error, Result, ok, err, ◌>>=◌}
use alharistech_platform.Bundle.Component.{
  ComponentRef, text_of, stripped, optional_text, parse_priority,
}

pub record Requires : Type 0 where
  pub speckit_version : String
  pub tools : List String
  pub mcp : List String

pub record BundleMeta : Type 0 where
  pub id : String
  pub name : String
  pub version : String
  pub role : String
  pub description : String
  pub author : String
  pub license : String

-- `IntegrationRef` is its id.
pub record BundleManifest : Type 0 where
  pub schema_version : String
  pub bundle : BundleMeta
  pub requires : Requires
  pub integration : Option String
  pub extensions : List ComponentRef
  pub presets : List ComponentRef
  pub steps : List ComponentRef
  pub workflows : List ComponentRef
  pub tags : List String

unfoldable pub components : BundleManifest → List ComponentRef
components m = m.extensions ++ m.presets ++ m.steps ++ m.workflows

texts_of : Items → Result (List String)
texts_of nil = ok []
texts_of (cons v vs) = text_of v >>= λ s. texts_of vs >>= λ rest. ok (s ∷ rest)

-- `_parse_str_list`
unfoldable pub parse_str_list : Value → Result (List String)
unfolding texts_of
parse_str_list null = ok []
parse_str_list (list vs) = texts_of vs
parse_str_list _ = err (bundler_error "must be a list of strings when present")

-- `str(item[k]).strip() if item.get(k) else None`
optional_stripped : Fields → String → Result (Option String)
unfolding optional_text strip
optional_stripped d k =
    optional_text d k >>= λ o. ok (elim o [ none ↦ none | some s ↦ some (strip s) ])

parse_ref : String → Value → Result ComponentRef
unfolding find parse_priority stripped optional_stripped
parse_ref kind (dict item) = parse_priority (get_or item "priority" null) >>= λ priority.
    stripped item "id" >>= λ id. optional_stripped item "version" >>= λ version.
    optional_stripped item "source" >>= λ source. optional_stripped item "strategy" >>= λ strategy.
    ok (record {
      kind = kind;
      id = id;
      version = version;
      source = source;
      priority = priority;
      strategy = strategy;
    })
parse_ref kind _ = err (bundler_error "Each provides entry must be a mapping.")

parse_ref_list : String → Items → Result (List ComponentRef)
unfolding parse_ref
parse_ref_list kind nil = ok []
parse_ref_list kind (cons v vs) =
    parse_ref kind v >>= λ r. parse_ref_list kind vs >>= λ rest. ok (r ∷ rest)

-- `_parse_refs`
unfoldable pub parse_refs : String → Value → Result (List ComponentRef)
unfolding parse_ref_list
parse_refs kind null = ok []
parse_refs kind (list vs) = parse_ref_list kind vs
parse_refs kind _ = err (bundler_error "provides must be a list when present")

parse_meta : Value → Result BundleMeta
unfolding stripped
parse_meta (dict d) = stripped d "id" >>= λ id. stripped d "name" >>= λ name.
    stripped d "version" >>= λ version. stripped d "role" >>= λ role.
    stripped d "description" >>= λ description. stripped d "author" >>= λ author.
    stripped d "license" >>= λ license. ok (record {
      id = id;
      name = name;
      version = version;
      role = role;
      description = description;
      author = author;
      license = license;
    })
parse_meta _ = err (bundler_error "Manifest is missing the required 'bundle' mapping.")

parse_requires : Value → Result Requires
unfolding find stripped parse_str_list
parse_requires (dict d) = stripped d "speckit_version" >>= λ speckit_version.
    parse_str_list (get_or d "tools" null) >>= λ tools.
    parse_str_list (get_or d "mcp" null) >>= λ mcp.
    ok (record { speckit_version = speckit_version; tools = tools; mcp = mcp })
parse_requires _ = err (bundler_error "'requires' must be a mapping when present.")

parse_integration : Value → Result (Option String)
unfolding find strip
parse_integration (dict d) =
    let v = get_or d "id" null in
    if truthy v then (text_of v >>= λ s. ok (some (strip s))) else ok none
parse_integration _ = ok none

mapping : Value → Result Fields
mapping (dict d) = ok d
mapping _ = err (bundler_error "'provides' must be a mapping when present.")

parse_fields : Fields → Result BundleManifest
unfolding find stripped parse_meta parse_requires parse_integration mapping parse_refs
    parse_str_list
parse_fields d = stripped d "schema_version" >>= λ schema_version.
    parse_meta (get_or d "bundle" null) >>= λ bundle.
    parse_requires (or_else (get_or d "requires" null) (dict end)) >>= λ requires.
    parse_integration (get_or d "integration" null) >>= λ integration.
    mapping (or_else (get_or d "provides" null) (dict end)) >>= λ provides.
    parse_str_list (get_or d "tags" null) >>= λ tags.
    parse_refs "extensions" (get_or provides "extensions" null) >>= λ extensions.
    parse_refs "presets" (get_or provides "presets" null) >>= λ presets.
    parse_refs "steps" (get_or provides "steps" null) >>= λ steps.
    parse_refs "workflows" (get_or provides "workflows" null) >>= λ workflows. ok (record {
      schema_version = schema_version;
      bundle = bundle;
      requires = requires;
      integration = integration;
      extensions = extensions;
      presets = presets;
      steps = steps;
      workflows = workflows;
      tags = tags;
    })

-- `BundleManifest.from_dict`
unfoldable pub from_dict : Value → Result BundleManifest
unfolding parse_fields
from_dict (dict d) = parse_fields d
from_dict _ = err (bundler_error "Manifest must be a YAML mapping at the top level.")

slug_end : ℕ → Bool
slug_end c = (leb b'a' c && leb c b'z') || (leb b'0' c && leb c b'9')

slug_char : ℕ → Bool
unfolding slug_end
slug_char c = slug_end c || (leb b'-' c && leb c b'.') || (leb b'_' c && leb c b'_')

-- The end of the text; `$` also matches before a newline that ends it.
abbrev at_end : String → Bool
at_end s = s == "" || s == "\n"

-- `[a-z0-9._-]*[a-z0-9]$`
slug_tail : String → Bool
unfolding slug_char
slug_tail empty_text = false
slug_tail (c ▸ s) = slug_char (code c) && (at_end s && slug_end (code c) || slug_tail s)

-- `_SAFE_BUNDLE_ID`: `^[a-z0-9](?:[a-z0-9._-]*[a-z0-9])?$`
unfoldable pub is_safe_bundle_id : String → Bool
unfolding slug_tail
is_safe_bundle_id empty_text = false
is_safe_bundle_id (c ▸ s) = slug_end (code c) && (at_end s || slug_tail s)

-- The messages of `structural_errors`, with the parts of the manifest that they name.
pub data ManifestError : Type 0 where
  unsupported_schema : ManifestError
  missing_field : String → ManifestError
  invalid_version invalid_id : ManifestError
  missing_ref_id unpinned invalid_ref_version : ComponentRef → ManifestError
  missing_priority invalid_strategy : ComponentRef → ManifestError

-- `if test: errors.append(error)`
abbrev pub report : Bool → ManifestError → List ManifestError
report test e = if test then e ∷ [] else []

-- The truth of a text, and of a text or `None`.
abbrev pub is_empty : String → Bool
is_empty s = s == ""

abbrev pub absent : Option String → Bool
absent none = true
absent (some s) = is_empty s

abbrev pub preset_strategies : List String
preset_strategies = "replace" ∷ "prepend" ∷ "append" ∷ "wrap" ∷ []

abbrev pub has_strategy : Option String → Bool
has_strategy none = false
has_strategy (some s) = contains preset_strategies s

abbrev pub is_none : {A : Type 0} → Option A → Bool
is_none none = true
is_none (some _) = false

-- The `required` dict.
abbrev pub required_fields : BundleManifest → List (String × String)
required_fields m =
    ("bundle.id", m.bundle.id)
    ∷ ("bundle.name", m.bundle.name)
    ∷ ("bundle.version", m.bundle.version)
    ∷ ("bundle.role", m.bundle.role)
    ∷ ("bundle.description", m.bundle.description)
    ∷ ("bundle.author", m.bundle.author)
    ∷ ("bundle.license", m.bundle.license)
    ∷ ("requires.speckit_version", m.requires.speckit_version)
    ∷ []

-- The errors of every member of a list.
abbrev pub each : {A : Type 0} → (A → List ManifestError) → List A → List ManifestError
each f [] = []
each f (x ∷ xs) = f x ++ each f xs

abbrev pub field_errors : String × String → List ManifestError
field_errors (path, value) = report (is_empty value) (missing_field path)

abbrev pub preset_errors : ComponentRef → List ManifestError
preset_errors r =
    report (is_none r.priority) (missing_priority r)
    ++ report (not (has_strategy r.strategy)) (invalid_strategy r)

abbrev pub has_version : (String → Bool) → Option String → Bool
has_version is_semver none = true
has_version is_semver (some s) = is_empty s || is_semver s

module _ (is_semver : String → Bool) where
  abbrev pub ref_errors : ComponentRef → List ManifestError
  ref_errors r =
      report (is_empty r.id) (missing_ref_id r)
      ++ report (not (r.kind == "steps") && absent r.version) (unpinned r)
      ++ report (not (has_version is_semver r.version)) (invalid_ref_version r)

  unfoldable pub structural_errors : BundleManifest → List ManifestError
  unfolding components is_safe_bundle_id
  structural_errors m =
      report (not (m.schema_version == "1.0")) unsupported_schema
      ++ each field_errors (required_fields m)
      ++ report (not (is_empty m.bundle.version || is_semver m.bundle.version)) invalid_version
      ++ report (not (is_empty m.bundle.id || is_safe_bundle_id m.bundle.id)) invalid_id
      ++ each ref_errors (components m)
      ++ each preset_errors m.presets
