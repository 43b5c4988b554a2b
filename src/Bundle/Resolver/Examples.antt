-- ===== src/Bundle/Resolver/Examples.antt =====
-- The theorems on manifests and on the resolver at concrete inputs.
use alharistech_platform.Base.{
  String, Bool, true, false, not, some, [], ◌∷◌, ◌≡◌, refl, ◌==◌, string_eq,
}
use alharistech_platform.Value.{ℤ}
use alharistech_platform.Exception.{Result, ok, err}
use alharistech_platform.Bundle.Manifest.{BundleManifest, structural_errors}
use alharistech_platform.Bundle.Manifest.Sound.{IsWellFormed, structural_errors-IsWellFormed}
use alharistech_platform.Bundle.Resolver.{InstallPlan, Request, resolve_install_plan}
use alharistech_platform.Bundle.Resolver.Gates.{
  HasPassed, resolve_install_plan-HasPassed, resolve_install_plan-is_blocked,
}
use alharistech_platform.Bundle.Installer.{is_blocked}
use alharistech_platform.Bundle.Demo

-- A manifest that pins an integration.
abbrev manifest : BundleManifest
manifest = record {
  schema_version = "1.0";
  bundle = record {
    id = "team-kit";
    name = "Team";
    version = "2.0.0";
    role = "developer";
    description = "A kit";
    author = "A team";
    license = "MIT";
  };
  requires = record { speckit_version = ">=0.9"; tools = "git" ∷ []; mcp = [] };
  integration = some "claude";
  extensions = Demo.component "extensions" "docs" ∷ [];
  presets =
      record (Demo.component "presets" "style") {
        priority = some (ℤ.pos 5);
        strategy = some "append";
      }
      ∷ [];
  steps = [];
  workflows = [];
  tags = [];
}

abbrev is_semver : String → Bool
is_semver s = not (s == "latest")

abbrev satisfies : String → String → Bool
satisfies version specifier = not (version == "0.1.0")

no_errors : structural_errors is_semver manifest ≡ []
unfolding structural_errors string_eq
no_errors = refl

structural_errors-IsWellFormed_example : IsWellFormed is_semver manifest
structural_errors-IsWellFormed_example = structural_errors-IsWellFormed is_semver manifest no_errors

abbrev request : Request
request = record {
  speckit_version = "0.9.5";
  active_integration = some "claude";
  integration_explicit = false;
  enforce_version = true;
}

abbrev resolved_plan : Result InstallPlan → InstallPlan
resolved_plan (ok p) = p
resolved_plan (err e) = Demo.plan_with "docs"

abbrev team_plan : InstallPlan
unfolding resolve_install_plan
team_plan = resolved_plan (resolve_install_plan is_semver satisfies manifest request)

resolves : resolve_install_plan is_semver satisfies manifest request ≡ ok team_plan
unfolding resolve_install_plan string_eq
resolves = refl

resolve_install_plan-HasPassed_example : HasPassed is_semver satisfies manifest request team_plan
resolve_install_plan-HasPassed_example =
    resolve_install_plan-HasPassed is_semver satisfies manifest request team_plan resolves

resolve_install_plan-is_blocked_example :
    is_blocked (some manifest) team_plan.effective_integration (Demo.base ∷ []) ≡ false
resolve_install_plan-is_blocked_example =
    resolve_install_plan-is_blocked is_semver satisfies manifest request team_plan (Demo.base ∷ [])
      resolves
