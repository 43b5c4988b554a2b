-- ===== src/Bundle/Resolver.antt =====
-- bundler/services/resolver.py: a manifest becomes an install plan, if it passes the gates.
-- `is_semver` and `satisfies` of bundler/lib, which the repository does not hold, are parameters.
pub mod Gates
mod Examples
use alharistech_platform.Base.{
  ℕ, String, Bool, true, false, not, ◌&&◌, ◌||◌, Option, none, some, List, [], ◌∷◌, ◌++◌, ◌≡◌, refl,
  length, ◌==◌, string_eq, if◌then◌else◌, arith, ◌≢◌, ◌⊎◌, inl, inr, Bool-cases, eq_of_==,
}
use alharistech_platform.Exception.{Exn, bundler_error, Result, ok, err, ◌>>=◌}
use alharistech_platform.Bundle.Component.{ComponentRef}
use alharistech_platform.Bundle.Manifest.{
  BundleManifest, ManifestError, components, structural_errors, is_empty,
}

pub data Warning : Type 0 where
  requires_tools requires_mcp : List String → Warning

pub record InstallPlan : Type 0 where
  pub bundle_id : String
  pub version : String
  pub role : String
  pub effective_integration : Option String
  pub components : List ComponentRef
  pub warnings : List Warning

pub record Request : Type 0 where
  pub speckit_version : String
  pub active_integration : Option String
  pub integration_explicit : Bool
  pub enforce_version : Bool

abbrev pub warn : (List String → Warning) → List String → List Warning
warn w [] = []
warn w (x ∷ xs) = w (x ∷ xs) ∷ []

-- FR-019: the integration that the plan is for.
unfoldable pub effective : Option String → Option String → Bool → Result (Option String)
effective none active explicit = ok active
effective (some required) none explicit =
    if not explicit
    then err (bundler_error "active integration could not be determined")
    else ok (some required)
effective (some required) (some active) explicit =
    if not (active == "") && not (required == active)
    then err (bundler_error "targets another integration")
    else ok (some required)

module _ (is_semver : String → Bool) (satisfies : String → String → Bool) where
  abbrev pub version_gate : BundleManifest → Request → Bool
  version_gate m q =
      not (q.enforce_version && not (is_empty m.requires.speckit_version))
      || satisfies q.speckit_version m.requires.speckit_version

  abbrev plan_for : BundleManifest → Option String → InstallPlan
  plan_for m integration = record {
    bundle_id = m.bundle.id;
    version = m.bundle.version;
    role = m.bundle.role;
    effective_integration = integration;
    components = components m;
    warnings =
        warn Warning.requires_tools m.requires.tools ++ warn Warning.requires_mcp m.requires.mcp;
  }

  plan_of_valid : BundleManifest → Request → Result InstallPlan
  unfolding effective
  plan_of_valid m q =
      if version_gate m q
      then (effective m.integration q.active_integration q.integration_explicit >>= λ integration.
          ok (plan_for m integration))
      else err (bundler_error "requires another Spec Kit version")

  plan_after : BundleManifest → Request → List ManifestError → Result InstallPlan
  unfolding plan_of_valid
  plan_after m q [] = plan_of_valid m q
  plan_after m q (e ∷ es) = err (bundler_error "Cannot resolve an invalid manifest")

  unfoldable pub resolve_install_plan : BundleManifest → Request → Result InstallPlan
  unfolding plan_after structural_errors
  resolve_install_plan m q = plan_after m q (structural_errors is_semver m)
