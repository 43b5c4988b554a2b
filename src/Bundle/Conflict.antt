-- ===== src/Bundle/Conflict.antt =====
-- bundler/services/conflict.py: the clash of a bundle's integration with the project's, and the
-- components that other bundles already provide.
use alharistech_platform.Base.{
  String, Bool, true, false, not, ◌&&◌, Option, none, some, List, [], ◌∷◌, ◌==◌, string_eq,
  if◌then◌else◌,
}
use alharistech_platform.Bundle.Component.{ComponentRef}
use alharistech_platform.Bundle.Manifest.{BundleManifest, components}
use alharistech_platform.Bundle.Records.{InstalledBundleRecord, has_key}

-- An integration clash names both integrations; an overlap, the component and its owner.
pub record ConflictReport : Type 0 where
  pub integration_clash : Option (String × String)
  pub overlaps : List (ComponentRef × String)

abbrev pub has_blocking_conflict : ConflictReport → Bool
has_blocking_conflict r = elim r.integration_clash [ none ↦ false | some _ ↦ true ]

-- The truth of `active_integration`, a text or `None`.
abbrev pub is_set : Option String → Bool
is_set none = false
is_set (some s) = not (s == "")

abbrev pub clash : Option String → Option String → Option (String × String)
clash (some required) (some active) =
    if not (active == "") && not (required == active) then some (required, active) else none
clash _ _ = none

-- `already.get((kind, id))`: the last record that has the component.
unfoldable pub owner : List InstalledBundleRecord → ComponentRef → Option String
owner [] c = none
owner (r ∷ rs) c = elim (owner rs c) [
  | some o ↦ some o
  | none ↦ if has_key r.contributed_components c then some r.bundle_id else none
]

abbrev pub overlap : String → ComponentRef → Option String → List (ComponentRef × String)
overlap bundle_id c none = []
overlap bundle_id c (some o) = if not (o == "") && not (o == bundle_id) then (c, o) ∷ [] else []

abbrev pub overlaps_of :
    String → List InstalledBundleRecord → List ComponentRef → List (ComponentRef × String)
overlaps_of bundle_id installed [] = []
overlaps_of bundle_id installed (c ∷ cs) = elim (overlap bundle_id c (owner installed c)) [
  | [] ↦ overlaps_of bundle_id installed cs
  | x ∷ _ ↦ x ∷ overlaps_of bundle_id installed cs
]

unfoldable pub detect_conflicts :
    BundleManifest → Option String → List InstalledBundleRecord → ConflictReport
unfolding owner components
detect_conflicts manifest active_integration installed = record {
  integration_clash = clash manifest.integration active_integration;
  overlaps = overlaps_of manifest.bundle.id installed (components manifest);
}
