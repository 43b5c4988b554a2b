-- ===== src/Bundle/Resolver/Gates.antt =====
-- The gates that a resolved plan has passed.
use alharistech_platform.Base.{
  String, Bool, true, false, Option, none, some, List, [], ◌∷◌, ◌≡◌, refl, ◌⊎◌, inl, inr, ap, subst,
  arith, ◌==◌, string_eq, eq_of_==, ==-refl, if◌then◌else◌,
}
use alharistech_platform.Exception.{bundler_error, Result, ok, err, ◌>>=◌}
use alharistech_platform.Bundle.Manifest.{
  BundleManifest, ManifestError, components, structural_errors,
}
use alharistech_platform.Bundle.Records.{InstalledBundleRecord}
use alharistech_platform.Bundle.Conflict.{clash, detect_conflicts}
use alharistech_platform.Bundle.Installer.{is_blocked}
use alharistech_platform.Bundle.Resolver.{
  InstallPlan, Request, effective, version_gate, plan_for, plan_of_valid, plan_after,
  resolve_install_plan,
}

-- The integration is the bundle's, if the bundle pins one.
abbrev pub IsPinned : Option String → Option String → Type 0
IsPinned none effective = Unit
IsPinned (some required) effective = effective ≡ some required

-- The integration is the active one, if that is a text that is not empty.
abbrev pub IsUnchanged : Option String → Option String → Type 0
IsUnchanged none effective = Unit
IsUnchanged (some active) effective = ((active == "") ≡ true) ⊎ (effective ≡ some active)

-- How the integration of a plan stands to the bundle's and the project's.
pub record IsCompatible (required active effective : Option String) : Type 0 where
  pub pinned : IsPinned required effective
  pub unchanged : IsUnchanged active effective

IsCompatible-effective :
    (required active : Option String) (explicit : Bool) (o : Option String)
    → effective required active explicit ≡ ok o
    → IsCompatible required active o
unfolding effective
IsCompatible-effective none none explicit o h = record { pinned = tt; unchanged = tt }
IsCompatible-effective none (some active) explicit o h = record {
  pinned = tt;
  unchanged = inr (ground (arith, h));
}
IsCompatible-effective (some required) none explicit o h = record {
  pinned = ground (arith, h);
  unchanged = tt;
}
IsCompatible-effective (some required) (some active) explicit o h = record {
  pinned = ground (arith, h);
  unchanged = by_case (active == "") refl;
}
  where
    by_case : (b : Bool) → (active == "") ≡ b → ((active == "") ≡ true) ⊎ (o ≡ some active)
    by_case true e = inl e
    by_case false e = inr (ground (arith, h, e, eq_of_== required active))

module _ (is_semver : String → Bool) (satisfies : String → String → Bool) where
  pub record HasPassed (m : BundleManifest) (q : Request) (plan : InstallPlan) : Type 0 where
    pub valid : structural_errors is_semver m ≡ []
    pub version : version_gate is_semver satisfies m q ≡ true
    pub components : plan.components ≡ components m
    pub integration : IsCompatible m.integration q.active_integration plan.effective_integration

  abbrev Passed : BundleManifest → Request → Result InstallPlan → Type 0
  Passed m q (err e) = Unit
  Passed m q (ok plan) = HasPassed m q plan

  Passed-effective :
      (m : BundleManifest) (q : Request) (o : Result (Option String))
      → structural_errors is_semver m ≡ []
      → version_gate is_semver satisfies m q ≡ true
      → effective m.integration q.active_integration q.integration_explicit ≡ o
      → Passed m q (o >>= λ i. ok (plan_for is_semver satisfies m i))
  Passed-effective m q (err e) v g h = tt
  Passed-effective m q (ok i) v g h = record {
    valid = v;
    version = g;
    components = refl;
    integration =
        IsCompatible-effective m.integration q.active_integration q.integration_explicit i h;
  }

  Passed-plan_of_valid :
      (m : BundleManifest) (q : Request) (b : Bool)
      → structural_errors is_semver m ≡ []
      → version_gate is_semver satisfies m q ≡ b
      → Passed m q (
          if b
          then (effective m.integration q.active_integration q.integration_explicit >>= λ i.
              ok (plan_for is_semver satisfies m i))
          else err (bundler_error "requires another Spec Kit version"))
  Passed-plan_of_valid m q false v g = tt
  Passed-plan_of_valid m q true v g = Passed-effective m q _ v g refl

  Passed-plan_after :
      (m : BundleManifest) (q : Request) (es : List ManifestError)
      → structural_errors is_semver m ≡ es
      → Passed m q (plan_after is_semver satisfies m q es)
  unfolding plan_after plan_of_valid
  Passed-plan_after m q [] h =
      Passed-plan_of_valid m q (version_gate is_semver satisfies m q) h refl
  Passed-plan_after m q (e ∷ es) h = tt

  Passed-resolve_install_plan :
      (m : BundleManifest) (q : Request) → Passed m q (resolve_install_plan is_semver satisfies m q)
  unfolding resolve_install_plan
  Passed-resolve_install_plan m q = Passed-plan_after m q (structural_errors is_semver m) refl

  -- A plan is only resolved from a manifest without structural errors whose version requirement, where
  -- it is enforced, is satisfied. It has the manifest's components; its integration is the one that the
  -- bundle pins, if it pins one, and is the project's active one, if that is a text that is not empty.
  pub resolve_install_plan-HasPassed :
      (m : BundleManifest) (q : Request) (plan : InstallPlan)
      → resolve_install_plan is_semver satisfies m q ≡ ok plan
      → HasPassed m q plan
  resolve_install_plan-HasPassed m q plan h = subst (Passed m q) h (Passed-resolve_install_plan m q)

clash_self :
    (required effective : Option String)
    → IsPinned required effective
    → clash required effective ≡ none
clash_self none e h = refl
clash_self (some r) none h = refl
clash_self (some r) (some e) h = ground (arith, h, ==-refl r)

-- The installation of a resolved plan is never refused for an integration clash with its manifest.
pub resolve_install_plan-is_blocked :
    (is_semver : String → Bool) (satisfies : String → String → Bool) (m : BundleManifest)
    (q : Request) (plan : InstallPlan) (records : List InstalledBundleRecord)
    → resolve_install_plan is_semver satisfies m q ≡ ok plan
    → is_blocked (some m) plan.effective_integration records ≡ false
unfolding detect_conflicts
resolve_install_plan-is_blocked is_semver satisfies m q plan records h =
    ap (λ (o : Option (String × String)). elim o [ none ↦ false | some _ ↦ true ])
      (clash_self m.integration plan.effective_integration
        (resolve_install_plan-HasPassed is_semver satisfies m q plan h).integration.pinned)
