-- ===== src/Bundle/Installer.antt =====
-- bundler/services/installer.py: applying an install plan, with its rollback, and removing a bundle.
-- The installer of the components, a protocol in the source, is a parameter.
mod Results
pub mod Lawful
pub mod Rollback
pub mod Install
pub mod Remove
pub mod Attributed
pub mod Undo
pub mod Present
unfoldable pub use Results.*
use alharistech_platform.Base.{
  String, Bool, true, false, not, ◌&&◌, ◌||◌, Option, none, some, List, [], ◌∷◌, ◌++◌, ◌==◌,
  string_eq, if◌then◌else◌,
}
use alharistech_platform.Exception.{Exn, bundler_error, Result, ok, err, ◌>>=◌}
use alharistech_platform.Bundle.Component.{ComponentRef}
use alharistech_platform.Bundle.Manifest.{BundleManifest}
use alharistech_platform.Bundle.Records.{
  InstalledBundleRecord, RecordsIo, create, load_records, save_records, find_record, remove_record,
  upsert_record, has_key, still_needed,
}
use alharistech_platform.Bundle.Conflict.{detect_conflicts, has_blocking_conflict, clash}
use alharistech_platform.Bundle.Resolver.{InstallPlan}

module _ {W : Type 0} (installer : PrimitiveInstaller W) where
  abbrev pub refresh_by :
      Option (ComponentRef → W → Result (Unit {0}) × W) → ComponentRef → W → Result (Unit {0}) × W
  refresh_by none c w = installer.install c w
  refresh_by (some op) c w = op c w

  -- `_refresh_component`
  unfoldable pub refresh_component : ComponentRef → W → Result (Unit {0}) × W
  refresh_component c w = refresh_by installer.refresh c w

  -- `_rollback(reversed(done))`, on a list that is reversed already
  unfoldable pub rollback : List ComponentRef → W → W
  rollback [] w = w
  rollback (c ∷ cs) w = rollback cs (installer.remove c w).1

  abbrev pub present_one : Bool → Bool → ComponentRef → Progress W → LoopEnd × Progress W
  present_one refresh owned c p =
      if refresh && owned
      then refreshed_one c (refresh_component c p.world) p
      else (finished, attributed owned c (skip_component c p))

  -- One component of the plan; `owned` is whether this bundle or another one owns it.
  unfoldable pub install_one :
      Bool → Bool → ComponentRef → Result Bool → Progress W → LoopEnd × Progress W
  unfolding refresh_component
  install_one refresh owned c (err e) p = (failed e, p)
  install_one refresh owned c (ok true) p = present_one refresh owned c p
  install_one refresh owned c (ok false) p = installed_one c (installer.install c p.world) p

  unfoldable pub install_components :
      Bool → (ComponentRef → Bool) → List ComponentRef → Progress W → LoopEnd × Progress W
  unfolding install_one
  install_components refresh owned [] p = (finished, p)
  install_components refresh owned (c ∷ cs) p =
      let (loop_end, p') = install_one refresh (owned c) c (installer.is_installed c p.world) p in
      either_way loop_end p' (install_components refresh owned cs p')

-- The loop of `remove_bundle` over the components of the removed bundle.
module _ {W : Type 0} (installer : PrimitiveInstaller W) where
  abbrev pub remove_present :
      ComponentRef → Result Bool → InstallResult → W → Result InstallResult × W
  remove_present c (err e) r w = (err e, w)
  remove_present c (ok true) r w = uninstalled_one c (installer.remove c w) r
  remove_present c (ok false) r w = (ok (record r { skipped = r.skipped ++ (c ∷ []) }), w)

  -- One component of the removed bundle.
  unfoldable pub remove_one : Bool → ComponentRef → InstallResult → W → Result InstallResult × W
  remove_one needed c r w =
      if needed
      then (ok (record r { skipped = r.skipped ++ (c ∷ []) }), w)
      else remove_present c (installer.is_installed c w) r w

  unfoldable pub remove_components :
      (ComponentRef → Bool) → List ComponentRef → InstallResult → W → Result InstallResult × W
  unfolding remove_one
  remove_components needed [] r w = (ok r, w)
  remove_components needed (c ∷ cs) r w =
      let (o, w') = remove_one (needed c) c r w in
      after_one o w' (λ r'. remove_components needed cs r' w')

abbrev pub prior_components : Option InstalledBundleRecord → List ComponentRef
prior_components none = []
prior_components (some r) = r.contributed_components

abbrev pub prior_time : Option InstalledBundleRecord → Option String
prior_time none = none
prior_time (some r) = some r.installed_at

-- `key in prior_ours or key in other_tracked`
unfoldable pub is_owned : List InstalledBundleRecord → String → ComponentRef → Bool
unfolding find_record still_needed
is_owned records bundle_id c =
    has_key (prior_components (find_record records bundle_id)) c || still_needed records bundle_id c

abbrev pub is_blocked : Option BundleManifest → Option String → List InstalledBundleRecord → Bool
is_blocked none active records = false
is_blocked (some m) active records = has_blocking_conflict (detect_conflicts m active records)

-- `reversed(done)`
abbrev pub backwards : List ComponentRef → List ComponentRef
backwards [] = []
backwards (c ∷ cs) = backwards cs ++ (c ∷ [])

-- The exception that leaves `install_bundle`: any other than a BundlerError is wrapped in one.
abbrev pub wrapped : Exn → Exn
wrapped (Exn.bundler_error s) = Exn.bundler_error s
wrapped _ = Exn.bundler_error "Failed to install bundle"

module _ {File W : Type 0} (io : RecordsIo File) (now : String)
    (installer : PrimitiveInstaller W) where
  -- The code after the loop.
  abbrev pub recorded_for :
      InstallPlan
      → List InstalledBundleRecord
      → LoopEnd × Progress W
      → Project File W
      → Result InstallResult × Project File W
  recorded_for plan records (failed e, p) s =
      (err (wrapped e), record s { world = rollback installer (backwards p.done) p.world })
  recorded_for plan records (finished, p) s = (
    ok p.result,
    record {
      file =
          save_records io now
            (upsert_record records (
              create now plan.bundle_id plan.version p.contributed
                (prior_time (find_record records plan.bundle_id))))
            s.file;
      world = p.world;
    },
  )

  abbrev pub install_after :
      InstallPlan
      → Option BundleManifest
      → Bool
      → Result (List InstalledBundleRecord)
      → Project File W
      → Result InstallResult × Project File W
  install_after plan manifest refresh (err e) s = (err e, s)
  install_after plan manifest refresh (ok records) s =
      if is_blocked manifest plan.effective_integration records
      then (err (bundler_error "integration clash"), s)
      else recorded_for plan records
          (install_components installer refresh (is_owned records plan.bundle_id) plan.components
            (first_progress plan.bundle_id s.world))
          s

  unfoldable pub install_bundle :
      InstallPlan
      → Option BundleManifest
      → Bool
      → Project File W
      → Result InstallResult × Project File W
  unfolding install_components rollback is_owned load_records save_records find_record upsert_record
      create detect_conflicts
  install_bundle plan manifest refresh s =
      install_after plan manifest refresh (load_records io s.file) s

  abbrev pub removed_from :
      String
      → List InstalledBundleRecord
      → Result InstallResult × W
      → Project File W
      → Result InstallResult × Project File W
  removed_from bundle_id records (err e, w) s = (err e, record s { world = w })
  removed_from bundle_id records (ok r, w) s = (
    ok r,
    record { file = save_records io now (remove_record records bundle_id) s.file; world = w },
  )

  abbrev pub remove_target :
      String
      → List InstalledBundleRecord
      → Option InstalledBundleRecord
      → Project File W
      → Result InstallResult × Project File W
  remove_target bundle_id records none s = (err (bundler_error "Bundle is not installed."), s)
  remove_target bundle_id records (some target) s =
      removed_from bundle_id records
        (remove_components installer (still_needed records bundle_id) target.contributed_components
          (no_result bundle_id) s.world)
        s

  abbrev pub remove_after :
      String
      → Result (List InstalledBundleRecord)
      → Project File W
      → Result InstallResult × Project File W
  remove_after bundle_id (err e) s = (err e, s)
  remove_after bundle_id (ok records) s =
      remove_target bundle_id records (find_record records bundle_id) s

  unfoldable pub remove_bundle : String → Project File W → Result InstallResult × Project File W
  unfolding remove_components still_needed find_record remove_record load_records save_records
  remove_bundle bundle_id s = remove_after bundle_id (load_records io s.file) s
