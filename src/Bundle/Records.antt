-- ===== src/Bundle/Records.antt =====
-- bundler/models/records.py: the records of the installed bundles, and their file. The parts of
-- bundler/lib that read and write files, which the repository does not hold, are the parameters of
-- `RecordsIo`; the time of day is a parameter too.
pub mod Laws
pub mod Refines
pub mod Roundtrip
use Prim.Native.Char.{code}
use Prim.Native.String.{[] as empty_text, ◌∷◌ as ◌▸◌}
use alharistech_platform.Base.{
  String, Bool, true, false, not, ◌&&◌, ◌||◌, Option, none, some, List, [], ◌∷◌, ◌++◌, leb,
  contains, select, ◌==◌, string_eq, if◌then◌else◌,
}
use alharistech_platform.Base.Blank.{strip}
use alharistech_platform.Value.{
  ℤ, Value, null, bool, int, str, list, dict, Items, nil, cons, Fields, end, field, truthy, or_else,
  find, get_or, or_default, to_text,
}
use alharistech_platform.Exception.{Exn, bundler_error, Result, ok, err, ◌>>=◌}
use alharistech_platform.Bundle.Component.{
  ComponentRef, component_kinds, text_of, stripped, optional_text, parse_priority,
}

pub record InstalledBundleRecord : Type 0 where
  pub bundle_id : String
  pub version : String
  pub contributed_components : List ComponentRef
  pub installed_at : String

-- `InstalledBundleRecord.create`
unfoldable pub create :
    String → String → String → List ComponentRef → Option String → InstalledBundleRecord
create now bundle_id version components installed_at = record {
  bundle_id = bundle_id;
  version = version;
  contributed_components = components;
  installed_at = elim installed_at [ none ↦ now | some t ↦ if t == "" then now else t ];
}

abbrev pub with_text : String → Option String → Fields → Fields
with_text k none d = d
with_text k (some s) d = field k (str s) d

abbrev pub with_number : String → Option ℤ → Fields → Fields
with_number k none d = d
with_number k (some n) d = field k (int n) d

-- `_component_to_dict`
unfoldable pub component_to_dict : ComponentRef → Value
component_to_dict r = dict (
    field "kind" (str r.kind) (
      field "id" (str r.id) (
        with_text "version" r.version (
          with_text "source" r.source
            (with_number "priority" r.priority (with_text "strategy" r.strategy end))))))

component_of_fields : Fields → String → String → Result ComponentRef
unfolding find optional_text parse_priority
component_of_fields d kind id = optional_text d "version" >>= λ version.
    optional_text d "source" >>= λ source. parse_priority (get_or d "priority" null) >>= λ priority.
    optional_text d "strategy" >>= λ strategy. ok (record {
      kind = kind;
      id = id;
      version = version;
      source = source;
      priority = priority;
      strategy = strategy;
    })

checked_component : Fields → String → String → Result ComponentRef
unfolding component_of_fields
checked_component d kind id =
    if not (contains component_kinds kind)
    then err (bundler_error "Corrupt records file: component 'kind'")
    else if id == ""
    then err (bundler_error "Corrupt records file: a contributed component is missing its 'id'.")
    else component_of_fields d kind id

-- `_component_from_dict`
unfoldable pub component_from_dict : Value → Result ComponentRef
unfolding stripped checked_component
component_from_dict (dict d) =
    stripped d "kind" >>= λ kind. stripped d "id" >>= checked_component d kind
component_from_dict _ = err (bundler_error "Each contributed component must be a mapping.")

unfoldable pub components_to_list : List ComponentRef → Items
unfolding component_to_dict
components_to_list [] = nil
components_to_list (c ∷ cs) = cons (component_to_dict c) (components_to_list cs)

unfoldable pub components_from_list : Items → Result (List ComponentRef)
unfolding component_from_dict
components_from_list nil = ok []
components_from_list (cons v vs) =
    component_from_dict v >>= λ c. components_from_list vs >>= λ cs. ok (c ∷ cs)

-- `InstalledBundleRecord.to_dict`
unfoldable pub record_to_dict : InstalledBundleRecord → Value
unfolding components_to_list
record_to_dict r = dict (
    field "bundle_id" (str r.bundle_id) (
      field "version" (str r.version) (
        field "installed_at" (str r.installed_at) (
          field "contributed_components" (list (components_to_list r.contributed_components))
            end))))

record_of_fields : Fields → Items → String → String → Result InstalledBundleRecord
unfolding stripped components_from_list
record_of_fields d components bundle_id version =
    if bundle_id == ""
    then err (bundler_error "Corrupt records file: a record is missing its 'bundle_id'.")
    else if version == ""
    then err (bundler_error "Corrupt records file: a record is missing its 'version'.")
    else stripped d "installed_at" >>= λ installed_at. components_from_list components >>= λ cs.
        ok (record {
          bundle_id = bundle_id;
          version = version;
          contributed_components = cs;
          installed_at = installed_at;
        })

record_of_components : Fields → Value → Result InstalledBundleRecord
unfolding record_of_fields
record_of_components d (list components) = stripped d "bundle_id" >>= λ bundle_id.
    stripped d "version" >>= record_of_fields d components bundle_id
record_of_components d _ =
    err (bundler_error "Corrupt record: 'contributed_components' must be a list.")

-- `InstalledBundleRecord.from_dict`
unfoldable pub record_from_dict : Value → Result InstalledBundleRecord
unfolding record_of_components find
record_from_dict (dict d) =
    record_of_components d (or_else (get_or d "contributed_components" null) (list nil))
record_from_dict _ = err (bundler_error "Each installed-bundle record must be a mapping.")

unfoldable pub records_to_list : List InstalledBundleRecord → Items
unfolding record_to_dict
records_to_list [] = nil
records_to_list (r ∷ rs) = cons (record_to_dict r) (records_to_list rs)

unfoldable pub records_from_list : Items → Result (List InstalledBundleRecord)
unfolding record_from_dict
records_from_list nil = ok []
records_from_list (cons v vs) =
    record_from_dict v >>= λ r. records_from_list vs >>= λ rs. ok (r ∷ rs)

-- `text.split(".")[0]`
unfoldable pub major : String → String
major empty_text = empty_text
major (c ▸ s) = if leb b'.' (code c) && leb (code c) b'.' then "" else c ▸ major s

-- `_check_schema_version` with `required=True`
unfoldable pub check_schema_version : Value → Result (Unit {0})
unfolding strip major to_text
check_schema_version null = err (bundler_error "Corrupt records file: missing 'schema_version'.")
check_schema_version v = text_of v >>= λ s.
    if major (strip s) == "1"
    then ok tt
    else err (bundler_error "Unsupported records schema version")

records_of_bundles : Value → Result (List InstalledBundleRecord)
unfolding records_from_list
records_of_bundles (list items) = records_from_list items
records_of_bundles _ = err (bundler_error "Corrupt records file: 'bundles' must be a list.")

records_of_document : Value → Result (List InstalledBundleRecord)
unfolding check_schema_version records_of_bundles find
records_of_document (dict d) = check_schema_version (get_or d "schema_version" null) >>= λ _.
    records_of_bundles (or_else (get_or d "bundles" null) (list nil))
records_of_document _ = err (bundler_error "Corrupt records file")

-- The file of the records: `ensure_within`, `exists`, `load_json` and `dump_json`, which succeeds.
pub record RecordsIo (File : Type 0) : Type 0 where
  pub ensure_within : File → Result (Unit {0})
  pub exists : File → Bool
  pub load_json : File → Result Value
  pub dump_json : Value → File → File

module _ {File : Type 0} (io : RecordsIo File) where
  unfoldable pub load_records : File → Result (List InstalledBundleRecord)
  unfolding records_of_document
  load_records f = io.ensure_within f >>= λ _.
      if io.exists f then io.load_json f >>= records_of_document else ok []

  unfoldable pub save_records : String → List InstalledBundleRecord → File → File
  unfolding records_to_list
  save_records now records f =
      io.dump_json
        (dict (
          field "schema_version" (str "1.0")
            (field "updated_at" (str now) (field "bundles" (list (records_to_list records)) end))))
        f

unfoldable pub find_record : List InstalledBundleRecord → String → Option InstalledBundleRecord
find_record [] bundle_id = none
find_record (r ∷ rs) bundle_id =
    if r.bundle_id == bundle_id then some r else find_record rs bundle_id

unfoldable pub remove_record : List InstalledBundleRecord → String → List InstalledBundleRecord
remove_record rs bundle_id = select (λ r. not (r.bundle_id == bundle_id)) rs

unfoldable pub upsert_record :
    List InstalledBundleRecord → InstalledBundleRecord → List InstalledBundleRecord
upsert_record rs r = select (λ s. not (s.bundle_id == r.bundle_id)) rs ++ (r ∷ [])

-- The key `(kind, id)` of a component, and the keys of a list.
abbrev pub same_key : ComponentRef → ComponentRef → Bool
same_key a b = a.kind == b.kind && a.id == b.id

abbrev pub has_key : List ComponentRef → ComponentRef → Bool
has_key [] c = false
has_key (d ∷ ds) c = same_key c d || has_key ds c

-- `(kind, id) in components_still_needed(records, exclude)`
unfoldable pub still_needed : List InstalledBundleRecord → String → ComponentRef → Bool
still_needed [] exclude c = false
still_needed (r ∷ rs) exclude c =
    (not (r.bundle_id == exclude) && has_key r.contributed_components c)
    || still_needed rs exclude c
