-- ===== src/Bundle/Records/Roundtrip.antt =====
-- Reading a record, and the file of records, that was written.
use alharistech_platform.Base.{
  String, true, false, Option, none, some, List, [], ◌∷◌, All, contains, ◌==◌, string_eq, ◌≡◌, refl,
  arith, ==-refl, ap, ◌∙◌,
}
use alharistech_platform.Base.Blank.{strip}
use alharistech_platform.Value.{
  ℤ, get_or, or_else, or_default, Value, null, str, list, Items, nil, cons, Fields, field, end,
  find, to_text,
}
use alharistech_platform.Exception.{ok}
use alharistech_platform.Bundle.Component.{
  ComponentRef, component_kinds, optional_text, parse_priority,
}
use alharistech_platform.Bundle.Records.{
  InstalledBundleRecord, RecordsIo, with_text, with_number, component_of_fields, component_to_dict,
  component_from_dict, components_to_list, components_from_list, record_to_dict, record_from_dict,
  records_to_list, records_from_list, load_records, save_records,
}

-- A text that `str(...).strip()` may have given, and that is not empty.
abbrev pub IsName : String → Type 0
IsName s = (strip s ≡ s) × ((s == "") ≡ false)

abbrev pub IsPresent : Option String → Type 0
IsPresent none = Unit
IsPresent (some s) = (s == "") ≡ false

pub record IsComponent (c : ComponentRef) : Type 0 where
  pub kind : contains component_kinds c.kind ≡ true
  pub kind_stripped : strip c.kind ≡ c.kind
  pub id : IsName c.id
  pub version : IsPresent c.version
  pub source : IsPresent c.source
  pub strategy : IsPresent c.strategy

pub record IsRecord (r : InstalledBundleRecord) : Type 0 where
  pub bundle_id : IsName r.bundle_id
  pub version : IsName r.version
  pub installed_at : strip r.installed_at ≡ r.installed_at
  pub contributed_components : All IsComponent r.contributed_components

find-with_text :
    (j k : String) (o : Option String) (d : Fields)
    → (k == j) ≡ false
    → find (with_text j o d) k ≡ find d k
unfolding find
find-with_text j k none d h = refl
find-with_text j k (some s) d h = ground (arith, h)

find-with_number :
    (j k : String) (o : Option ℤ) (d : Fields)
    → (k == j) ≡ false
    → find (with_number j o d) k ≡ find d k
unfolding find
find-with_number j k none d h = refl
find-with_number j k (some n) d h = ground (arith, h)

optional_text-with_text :
    (k : String) (o : Option String) (d : Fields)
    → find d k ≡ none
    → IsPresent o
    → optional_text (with_text k o d) k ≡ ok o
unfolding optional_text find to_text
optional_text-with_text k none d h p = simp h
optional_text-with_text k (some s) d h p = simp (==-refl k, p)

parse_priority-with_number :
    (k : String) (o : Option ℤ) (d : Fields)
    → find d k ≡ none
    → parse_priority (get_or (with_number k o d) k null) ≡ ok o
unfolding parse_priority find
parse_priority-with_number k none d h = simp h
parse_priority-with_number k (some n) d h = simp (==-refl k)

optional_text-find :
    (k : String) (d e : Fields) → find d k ≡ find e k → optional_text d k ≡ optional_text e k
unfolding optional_text
optional_text-find k d e h = rw h

parse_priority-find :
    (k : String) (d e : Fields)
    → find d k ≡ find e k
    → parse_priority (get_or d k null) ≡ parse_priority (get_or e k null)
parse_priority-find k d e h = ap (λ o. parse_priority (or_default o null)) h

module _ (s t : Option String) (p : Option ℤ) where
  abbrev after_priority : Fields
  after_priority = with_text "strategy" t end

  abbrev after_source : Fields
  after_source = with_number "priority" p after_priority

  abbrev after_version : Fields
  after_version = with_text "source" s after_source

  find-version : find after_version "version" ≡ none
  unfolding find string_eq
  find-version =
      find-with_text "source" "version" s after_source refl
      ∙ find-with_number "priority" "version" p after_priority refl
      ∙ find-with_text "strategy" "version" t end refl

  find-source : find after_source "source" ≡ none
  unfolding find string_eq
  find-source =
      find-with_number "priority" "source" p after_priority refl
      ∙ find-with_text "strategy" "source" t end refl

  find-priority : find after_priority "priority" ≡ none
  unfolding find string_eq
  find-priority = find-with_text "strategy" "priority" t end refl

module _ (c : ComponentRef) (h : IsComponent c) where
  abbrev fields : Fields
  fields = field "kind" (str c.kind) (
      field "id" (str c.id)
        (with_text "version" c.version (after_version c.source c.strategy c.priority)))

  -- The entries from `strategy`, `priority`, `source` and `version` on.
  abbrev from_strategy : Fields
  from_strategy = after_priority c.source c.strategy c.priority

  abbrev from_priority : Fields
  from_priority = after_source c.source c.strategy c.priority

  abbrev from_source : Fields
  from_source = after_version c.source c.strategy c.priority

  abbrev from_version : Fields
  from_version = with_text "version" c.version from_source

  to_priority :
      (k : String)
      → (k == "version") ≡ false
      → (k == "source") ≡ false
      → find from_version k ≡ find from_priority k
  to_priority k e f =
      find-with_text "version" k c.version from_source e
      ∙ find-with_text "source" k c.source from_priority f

  component_of_fields-fields : component_of_fields fields c.kind c.id ≡ ok c
  unfolding component_of_fields string_eq find
  component_of_fields-fields = rw (version, source, priority, strategy)
    where
      version : optional_text fields "version" ≡ ok c.version
      version =
          optional_text-with_text "version" c.version from_source
            (find-version c.source c.strategy c.priority) h.version

      source : optional_text fields "source" ≡ ok c.source
      source =
          optional_text-find "source" from_version from_source
            (find-with_text "version" "source" c.version from_source refl)
          ∙ optional_text-with_text "source" c.source from_priority
              (find-source c.source c.strategy c.priority) h.source

      priority : parse_priority (get_or fields "priority" null) ≡ ok c.priority
      priority =
          parse_priority-find "priority" from_version from_priority
            (to_priority "priority" refl refl)
          ∙ parse_priority-with_number "priority" c.priority from_strategy
              (find-priority c.source c.strategy c.priority)

      strategy : optional_text fields "strategy" ≡ ok c.strategy
      strategy =
          optional_text-find "strategy" from_version from_strategy (
            to_priority "strategy" refl refl
            ∙ find-with_number "priority" "strategy" c.priority from_strategy refl)
          ∙ optional_text-with_text "strategy" c.strategy end refl h.strategy

  component_from_dict-component_to_dict : component_from_dict (component_to_dict c) ≡ ok c
  unfolding component_from_dict component_to_dict string_eq find to_text
  component_from_dict-component_to_dict =
      rw (h.kind_stripped, h.id.0, h.kind, h.id.1, component_of_fields-fields)

components_from_list-components_to_list :
    (cs : List ComponentRef)
    → All IsComponent cs
    → components_from_list (components_to_list cs) ≡ ok cs
unfolding components_from_list components_to_list
components_from_list-components_to_list [] h = refl
components_from_list-components_to_list (c ∷ cs) h =
    rw (component_from_dict-component_to_dict c h.0, components_from_list-components_to_list cs h.1)

or_else-list : (xs : Items) → or_else (list xs) (list nil) ≡ list xs
or_else-list nil = refl
or_else-list (cons x xs) = refl

record_from_dict-record_to_dict :
    (r : InstalledBundleRecord) → IsRecord r → record_from_dict (record_to_dict r) ≡ ok r
unfolding record_from_dict record_to_dict string_eq find to_text components_to_list
record_from_dict-record_to_dict r h = rw (
  or_else-list (components_to_list r.contributed_components),
  h.bundle_id.0,
  h.version.0,
  h.bundle_id.1,
  h.version.1,
  h.installed_at,
  components_from_list-components_to_list r.contributed_components h.contributed_components,
)

records_from_list-records_to_list :
    (rs : List InstalledBundleRecord)
    → All IsRecord rs
    → records_from_list (records_to_list rs) ≡ ok rs
unfolding records_from_list records_to_list
records_from_list-records_to_list [] h = refl
records_from_list-records_to_list (r ∷ rs) h =
    rw (record_from_dict-record_to_dict r h.0, records_from_list-records_to_list rs h.1)

-- What the file of the records is relied on for: a written document is there, and is read back.
pub record IsFaithful {File : Type 0} (io : RecordsIo File) : Type 0 where
  pub within : (v : Value) (f : File) → io.ensure_within (io.dump_json v f) ≡ io.ensure_within f
  pub there : (v : Value) (f : File) → io.exists (io.dump_json v f) ≡ true
  pub reads : (v : Value) (f : File) → io.load_json (io.dump_json v f) ≡ ok v

-- Well-formed records that are saved, into a file inside the project that reads back what is written,
-- are what is loaded again.
pub load_records-save_records :
    {File : Type 0} (io : RecordsIo File) (faithful : IsFaithful io) (now : String)
    (rs : List InstalledBundleRecord) (f : File)
    → All IsRecord rs
    → io.ensure_within f ≡ ok tt
    → load_records io (save_records io now rs f) ≡ ok rs
unfolding load_records save_records string_eq find strip
load_records-save_records io faithful now rs f h inside = rw (
  faithful.within _ f,
  inside,
  faithful.there _ f,
  faithful.reads _ f,
  or_else-list (records_to_list rs),
  records_from_list-records_to_list rs h,
)
