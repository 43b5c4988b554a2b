-- ===== src/Bundle/Catalog.antt =====
-- bundler/models/catalog.py: catalog sources and entries, as they are read from documents.
use alharistech_platform.Base.{
  String, Bool, false, Option, none, some, List, [], ◌∷◌, ◌==◌, string_eq, if◌then◌else◌,
}
use alharistech_platform.Base.Blank.{strip}
use alharistech_platform.Base.Dict
use alharistech_platform.Base.Dict.{Dict}
use alharistech_platform.Value.{
  ℤ, Value, null, bool, str, list, dict, Items, nil, cons, Fields, end, field, find, get_or,
  or_else,
}
use alharistech_platform.Exception.{bundler_error, Result, ok, err, ◌>>=◌}
use alharistech_platform.Bundle.Component.{text_of, stripped, optional_text, parse_priority}

pub data InstallPolicy : Type 0 where
  install_allowed discovery_only : InstallPolicy

pub data Scope : Type 0 where
  project user built_in : Scope

pub record CatalogSource : Type 0 where
  pub id : String
  pub url : String
  pub priority : ℤ
  pub install_policy : InstallPolicy
  pub scope : Scope

-- `InstallPolicy.parse`
unfoldable pub parse_policy : Value → Result InstallPolicy
unfolding strip
parse_policy v = text_of (or_else v (str "")) >>= λ s.
    if strip s == "install-allowed"
    then ok install_allowed
    else if strip s == "discovery-only"
    then ok discovery_only
    else err (bundler_error "Invalid install_policy")

abbrev required_priority : Option ℤ → Result ℤ
required_priority none = err (bundler_error "A catalog source is missing its 'priority'")
required_priority (some n) = ok n

abbrev pub refuse_if : Bool → String → Result (Unit {0})
refuse_if b message = if b then err (bundler_error message) else ok tt

unfoldable pub source_of_fields : Scope → Fields → Result CatalogSource
unfolding stripped find parse_priority parse_policy
source_of_fields scope d = stripped d "id" >>= λ id. stripped d "url" >>= λ url.
    refuse_if (id == "") "A catalog source is missing its 'id'" >>= λ _.
    refuse_if (url == "") "A catalog source is missing its 'url'" >>= λ _.
    parse_priority (get_or d "priority" null) >>= required_priority >>= λ priority.
    parse_policy (get_or d "install_policy" null) >>= λ policy.
    ok (record { id = id; url = url; priority = priority; install_policy = policy; scope = scope })

-- `CatalogSource.from_dict`
unfoldable pub source_from_dict : Scope → Value → Result CatalogSource
unfolding source_of_fields
source_from_dict scope (dict d) = source_of_fields scope d
source_from_dict scope v = err (bundler_error "Each catalog source must be a mapping")

pub record CatalogEntry : Type 0 where
  pub id : String
  pub name : String
  pub version : String
  pub role : String
  pub description : String
  pub author : String
  pub license : String
  pub download_url : String
  pub requires_speckit_version : String
  pub provides : Fields
  pub repository : Option String
  pub tags : List String
  pub verified : Bool
  pub source_id : Option String
  pub source_policy : Option InstallPolicy

texts_of : Items → Result (List String)
texts_of nil = ok []
texts_of (cons v vs) = text_of v >>= λ s. texts_of vs >>= λ rest. ok (s ∷ rest)

unfoldable pub parse_tags : Value → Result (List String)
unfolding texts_of
parse_tags null = ok []
parse_tags (list tags) = texts_of tags
parse_tags v = err (bundler_error "'tags' must be a list of strings")

unfoldable pub parse_verified : Value → Result Bool
parse_verified (bool b) = ok b
parse_verified v = err (bundler_error "'verified' must be a boolean")

-- `data.get(key) or {}`, which must be a mapping
unfoldable pub mapping_of : Value → Result Fields
mapping_of v = elim (or_else v (dict end)) [
  | dict fs ↦ ok fs
  | _ ↦ err (bundler_error "must be a mapping when present")
]

unfoldable pub entry_of_fields : Fields → Result CatalogEntry
unfolding stripped find mapping_of optional_text parse_tags parse_verified
entry_of_fields d = stripped d "id" >>= λ id. mapping_of (get_or d "requires" null) >>= λ requires.
    mapping_of (get_or d "provides" null) >>= λ provides. stripped d "name" >>= λ name.
    stripped d "version" >>= λ version. stripped d "role" >>= λ role.
    stripped d "description" >>= λ description. stripped d "author" >>= λ author.
    stripped d "license" >>= λ license. stripped d "download_url" >>= λ download_url.
    stripped requires "speckit_version" >>= λ speckit_version.
    optional_text d "repository" >>= λ repository. parse_tags (get_or d "tags" null) >>= λ tags.
    parse_verified (get_or d "verified" (bool false)) >>= λ verified. ok (record {
      id = id;
      name = name;
      version = version;
      role = role;
      description = description;
      author = author;
      license = license;
      download_url = download_url;
      requires_speckit_version = speckit_version;
      provides = provides;
      repository = repository;
      tags = tags;
      verified = verified;
      source_id = none;
      source_policy = none;
    })

-- `CatalogEntry.from_dict`
unfoldable pub entry_from_dict : Value → Result CatalogEntry
unfolding entry_of_fields
entry_from_dict (dict d) = entry_of_fields d
entry_from_dict v = err (bundler_error "Each catalog entry must be a mapping")

abbrev pub with_provenance : CatalogEntry → CatalogSource → CatalogEntry
with_provenance entry source = record entry {
  source_id = some source.id;
  source_policy = some source.install_policy;
}

-- An entry's own id is the key under which it stands.
unfoldable pub check_entry_id : String → CatalogEntry → Result CatalogEntry
check_entry_id key entry =
    if entry.id == ""
    then err (bundler_error "Catalog entry is missing its 'id' field")
    else if entry.id == key
    then ok entry
    else err (bundler_error "Catalog entry id mismatch")

unfoldable pub entries_of_fields :
    Fields → Dict String CatalogEntry → Result (Dict String CatalogEntry)
unfolding entry_from_dict check_entry_id
entries_of_fields end entries = ok entries
entries_of_fields (field key raw rest) entries =
    entry_from_dict raw >>= check_entry_id key >>= λ entry.
    entries_of_fields rest (Dict.put entries key entry)

abbrev bundles_of : Value → Result (Dict String CatalogEntry)
unfolding entries_of_fields
bundles_of (dict bundles) = entries_of_fields bundles []
bundles_of v = err (bundler_error "Catalog payload is missing a 'bundles' object")

unfoldable pub load_catalog_payload : Value → Result (Dict String CatalogEntry)
unfolding bundles_of find
load_catalog_payload (dict payload) = bundles_of (get_or payload "bundles" null)
load_catalog_payload v = err (bundler_error "Catalog payload must be a JSON object")
