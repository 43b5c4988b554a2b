-- ===== src/Bundle/CatalogStack.antt =====
-- The stack of catalog sources: `load_source_stack` of bundler/models/catalog.py, and `CatalogStack` of
-- bundler/services/catalog_stack.py.
pub mod Order
pub mod Sorted
pub mod Precedence
mod Examples
use Prim.Native.Char.{Char, code}
use Prim.Native.String.{[] as empty_text, ◌∷◌ as ◌▸◌}
use alharistech_platform.Base.{
  String, Bool, true, false, ◌&&◌, ◌||◌, Option, none, some, List, [], ◌∷◌, ltb, leb, ◌==◌,
  string_eq, if◌then◌else◌,
}
use alharistech_platform.Base.Dict
use alharistech_platform.Base.Dict.{Dict}
use alharistech_platform.Value.{
  ℤ, Value, null, bool, int, str, list, dict, Items, nil, cons, Fields, end, field, truthy, find,
  get_or,
}
use alharistech_platform.Value.Compare.{same_number}
use alharistech_platform.Exception.{Exn, bundler_error, type_error, Result, ok, err, ◌>>=◌}
use alharistech_platform.Bundle.Catalog.{
  InstallPolicy, install_allowed, discovery_only, Scope, project, user, built_in, CatalogSource,
  source_from_dict, CatalogEntry, with_provenance, load_catalog_payload,
}

-- `s < t` of texts, by the numbers of their characters
unfoldable pub text_below : String → String → Bool
text_below s empty_text = false
text_below empty_text (d ▸ t) = true
text_below (c ▸ s) (d ▸ t) =
    let rest = text_below s t in
    ltb (code c) (code d) || leb (code c) (code d) && leb (code d) (code c) && rest

unfoldable pub below : ℤ → ℤ → Bool
below (ℤ.pos m) (ℤ.pos n) = ltb m n
below (ℤ.pos m) (ℤ.negsuc n) = false
below (ℤ.negsuc m) (ℤ.pos n) = true
below (ℤ.negsuc m) (ℤ.negsuc n) = ltb n m

-- `(a.priority, a.id) < (b.priority, b.id)`
unfoldable pub precedes : CatalogSource → CatalogSource → Bool
unfolding below text_below
precedes a b =
    below a.priority b.priority || same_number a.priority b.priority && text_below a.id b.id

unfoldable pub insert : CatalogSource → List CatalogSource → List CatalogSource
unfolding precedes
insert a [] = a ∷ []
insert a (b ∷ bs) = let rest = insert a bs in if precedes b a then b ∷ rest else a ∷ b ∷ bs

-- `sorted(sources, key=lambda s: (s.priority, s.id))`
unfoldable pub sort : List CatalogSource → List CatalogSource
unfolding insert
sort [] = []
sort (a ∷ sources) = insert a (sort sources)

abbrev default_source : CatalogSource
default_source = record {
  id = "default";
  url = "builtin://default";
  priority = ℤ.pos 1;
  install_policy = install_allowed;
  scope = built_in;
}

abbrev community_source : CatalogSource
community_source = record {
  id = "community";
  url = "builtin://community";
  priority = ℤ.pos 2;
  install_policy = discovery_only;
  scope = built_in;
}

-- `BUILTIN_DEFAULT_STACK`, by id
abbrev pub builtin_sources : Dict String CatalogSource
builtin_sources = ("default", default_source) ∷ ("community", community_source) ∷ []

merge_items : Scope → Items → Dict String CatalogSource → Result (Dict String CatalogSource)
merge_items scope nil by_id = ok by_id
merge_items scope (cons raw rest) by_id = source_from_dict scope raw >>= λ source.
    merge_items scope rest (Dict.put by_id source.id source)

-- What a `for` runs over: of a text the characters and of a dict the keys, none of which is a mapping.
merge_catalogs : Scope → Value → Dict String CatalogSource → Result (Dict String CatalogSource)
unfolding merge_items
merge_catalogs scope (list catalogs) by_id = merge_items scope catalogs by_id
merge_catalogs scope (str s) by_id = err (bundler_error "Each catalog source must be a mapping")
merge_catalogs scope (dict fs) by_id = err (bundler_error "Each catalog source must be a mapping")
merge_catalogs scope v by_id = err type_error

abbrev catalogs_of : Value → Value
catalogs_of (dict fs) = get_or fs "catalogs" null
catalogs_of v = null

-- `_merge_config`, of what reading the file gives; `none` for a file that is not there
unfoldable pub merge_config :
    Scope → Option (Result Value) → Dict String CatalogSource → Result (Dict String CatalogSource)
unfolding merge_catalogs find
merge_config scope none by_id = ok by_id
merge_config scope (some read) by_id = read >>= λ doc.
    if truthy (catalogs_of doc) then merge_catalogs scope (catalogs_of doc) by_id else ok by_id

abbrev values_of : Dict String CatalogSource → List CatalogSource
values_of [] = []
values_of ((_, source) ∷ rest) = source ∷ values_of rest

-- `load_source_stack`; `within` is what `ensure_within` says of the project's file.
unfoldable pub load_source_stack :
    Option (Result Value) → Result (Unit {0}) → Option (Result Value) → Result (List CatalogSource)
unfolding merge_config sort
load_source_stack user_config within project_config =
    merge_config user user_config builtin_sources >>= λ by_id.
    elim project_config as (λ o. Result (Unit {0})) [ none ↦ ok tt | some _ ↦ within ] >>= λ _.
    merge_config project project_config by_id >>= λ by_id. ok (sort (values_of by_id))

pub record ResolvedBundle : Type 0 where
  pub entry : CatalogEntry
  pub source : CatalogSource

-- The payloads by source id, as they have been read.
abbrev pub Payloads : Type 0
Payloads = Dict String (Dict String CatalogEntry)

module _ (fetch : CatalogSource → Result Value) where
  -- The fetcher, whose own exceptions become bundler errors, and the payload that it gives.
  unfoldable pub read_payload : CatalogSource → Result (Dict String CatalogEntry)
  unfolding load_catalog_payload
  read_payload source = elim (fetch source) [
    | ok raw ↦ load_catalog_payload raw
    | err (bundler_error message) ↦ err (bundler_error message)
    | err e ↦ err (bundler_error "Failed to load catalog")
  ]

  abbrev store_payload :
      CatalogSource
      → Result (Dict String CatalogEntry)
      → Payloads
      → Result (Dict String CatalogEntry) × Payloads
  store_payload source (ok entries) payloads = (ok entries, Dict.put payloads source.id entries)
  store_payload source (err e) payloads = (err e, payloads)

  -- `_entries_for`
  unfoldable pub entries_for :
      CatalogSource → Payloads → Result (Dict String CatalogEntry) × Payloads
  unfolding read_payload
  entries_for source payloads = elim (Dict.get payloads source.id) [
    | some entries ↦ (ok entries, payloads)
    | none ↦ store_payload source (read_payload source) payloads
  ]

  -- `CatalogStack.resolve`, with the payloads that it leaves
  unfoldable pub resolve : List CatalogSource → String → Payloads → Result ResolvedBundle × Payloads
  unfolding entries_for
  resolve [] bundle_id payloads = (err (bundler_error "Bundle was not found"), payloads)
  resolve (source ∷ rest) bundle_id payloads =
      let answer = entries_for source payloads in
      let later = resolve rest bundle_id answer.1 in
      elim answer.0 [
        | err e ↦ (err e, answer.1)
        | ok entries ↦ elim (Dict.get entries bundle_id) [
          | some entry ↦
              (ok (record { entry = with_provenance entry source; source = source }), answer.1)
          | none ↦ later
        ]
      ]
