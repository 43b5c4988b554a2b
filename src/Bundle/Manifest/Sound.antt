-- ===== src/Bundle/Manifest/Sound.antt =====
-- What a manifest without structural errors is.
use alharistech_platform.Base.{
  String, Bool, true, false, not, ◌&&◌, ◌||◌, List, [], ◌∷◌, ◌++◌, All, ◌≡◌, refl, arith, ◌==◌,
  string_eq,
}
use alharistech_platform.Bundle.Component.{ComponentRef}
use alharistech_platform.Bundle.Manifest.{
  BundleManifest, ManifestError, components, structural_errors, report, each, is_empty, absent,
  is_none, has_strategy, has_version, required_fields, field_errors, ref_errors, preset_errors,
  is_safe_bundle_id,
}

-- A component has an id, is pinned unless it is a step, and its version is a semantic one.
pub record IsRef (is_semver : String → Bool) (r : ComponentRef) : Type 0 where
  pub id : is_empty r.id ≡ false
  pub pinned : (r.kind == "steps" || not (absent r.version)) ≡ true
  pub version : has_version is_semver r.version ≡ true

pub record IsPreset (r : ComponentRef) : Type 0 where
  pub priority : is_none r.priority ≡ false
  pub strategy : has_strategy r.strategy ≡ true

abbrev pub IsFilled : String × String → Type 0
IsFilled (path, value) = is_empty value ≡ false

pub record IsWellFormed (is_semver : String → Bool) (m : BundleManifest) : Type 0 where
  pub schema_version : (m.schema_version == "1.0") ≡ true
  pub filled : All IsFilled (required_fields m)
  pub version : is_semver m.bundle.version ≡ true
  pub id : is_safe_bundle_id m.bundle.id ≡ true
  pub refs : All (IsRef is_semver) (components m)
  pub presets : All IsPreset m.presets

nil-append : (xs ys : List ManifestError) → xs ++ ys ≡ [] → (xs ≡ []) × (ys ≡ [])
nil-append [] ys h = (refl, h)
nil-append (x ∷ xs) ys h = ground (arith, h)

report-nil : (b : Bool) (e : ManifestError) → report b e ≡ [] → b ≡ false
report-nil b e h = ground (arith, h)

All-each :
    {A : Type 0} (P : A → Type 0) (f : A → List ManifestError)
    → ((a : A) → f a ≡ [] → P a)
    → (xs : List A) → each f xs ≡ []
    → All P xs
All-each P f sound [] h = tt
All-each P f sound (x ∷ xs) h = (
  sound x (nil-append (f x) (each f xs) h).0,
  All-each P f sound xs (nil-append (f x) (each f xs) h).1,
)

of_not : (b : Bool) → not b ≡ false → b ≡ true
of_not b h = ground (arith, h)

of_either : (a b : Bool) → a ≡ false → not (a || b) ≡ false → b ≡ true
of_either a b h k = ground (arith, h, k)

pinned_of : (step gone : Bool) → (not step && gone) ≡ false → (step || not gone) ≡ true
pinned_of step gone h = ground (arith, h)

module _ (is_semver : String → Bool) where
  IsRef-ref_errors : (r : ComponentRef) → ref_errors is_semver r ≡ [] → IsRef is_semver r
  IsRef-ref_errors r h =
      let unpinned : Bool = not (r.kind == "steps") && absent r.version in
      let first : List ManifestError = report (is_empty r.id) (ManifestError.missing_ref_id r) in
      let second : List ManifestError = report unpinned (ManifestError.unpinned r) in
      let third : List ManifestError =
        report (not (has_version is_semver r.version)) (ManifestError.invalid_ref_version r) in
      let b = nil-append (first ++ second) third h in
      let a = nil-append first second b.0 in
      let c =
        report-nil (not (has_version is_semver r.version)) (ManifestError.invalid_ref_version r)
          b.1 in
      record {
        id = report-nil (is_empty r.id) (ManifestError.missing_ref_id r) a.0;
        pinned =
            pinned_of (r.kind == "steps") (absent r.version)
              (report-nil unpinned (ManifestError.unpinned r) a.1);
        version = of_not (has_version is_semver r.version) c;
      }

  IsPreset-preset_errors : (r : ComponentRef) → preset_errors r ≡ [] → IsPreset r
  IsPreset-preset_errors r h =
      let a =
        nil-append (report (is_none r.priority) (ManifestError.missing_priority r))
          (report (not (has_strategy r.strategy)) (ManifestError.invalid_strategy r)) h in
      record {
        priority = report-nil (is_none r.priority) (ManifestError.missing_priority r) a.0;
        strategy =
            of_not (has_strategy r.strategy)
              (report-nil (not (has_strategy r.strategy)) (ManifestError.invalid_strategy r) a.1);
      }

  -- A manifest without structural errors is well formed: its schema is the supported one, every required
  -- field is filled, its version is semantic, its id is a safe slug, every component has an id, a version
  -- that is semantic where there is one, and one at all unless it is a step, and every preset has a
  -- priority and a known strategy.
  pub structural_errors-IsWellFormed :
      (m : BundleManifest) → structural_errors is_semver m ≡ [] → IsWellFormed is_semver m
  unfolding structural_errors
  structural_errors-IsWellFormed m h =
      let no_version : Bool = not (is_empty m.bundle.version || is_semver m.bundle.version) in
      let no_id : Bool = not (is_empty m.bundle.id || is_safe_bundle_id m.bundle.id) in
      let of_refs : List ManifestError = each (ref_errors is_semver) (components m) in
      let of_schema : List ManifestError =
        report (not (m.schema_version == "1.0")) ManifestError.unsupported_schema in
      let of_fields : List ManifestError = each field_errors (required_fields m) in
      let of_version : List ManifestError = report no_version ManifestError.invalid_version in
      let of_id : List ManifestError = report no_id ManifestError.invalid_id in
      let f =
        nil-append (of_schema ++ of_fields ++ of_version ++ of_id ++ of_refs)
          (each preset_errors m.presets) h in
      let e = nil-append (of_schema ++ of_fields ++ of_version ++ of_id) of_refs f.0 in
      let d = nil-append (of_schema ++ of_fields ++ of_version) of_id e.0 in
      let c = nil-append (of_schema ++ of_fields) of_version d.0 in
      let b = nil-append of_schema of_fields c.0 in
      let filled =
        All-each IsFilled field_errors
          (λ f k. report-nil (is_empty f.1) (ManifestError.missing_field f.0) k) (required_fields m)
          b.1 in
      record {
        schema_version =
            of_not (m.schema_version == "1.0") (report-nil _ ManifestError.unsupported_schema b.0);
        filled = filled;
        version =
            of_either (is_empty m.bundle.version) (is_semver m.bundle.version) filled.1.1.0
              (report-nil no_version ManifestError.invalid_version c.1);
        id =
            of_either (is_empty m.bundle.id) (is_safe_bundle_id m.bundle.id) filled.0
              (report-nil no_id ManifestError.invalid_id d.1);
        refs =
            All-each (IsRef is_semver) (ref_errors is_semver) IsRef-ref_errors (components m) e.1;
        presets = All-each IsPreset preset_errors IsPreset-preset_errors m.presets f.1;
      }
