-- ===== src/Bundle/Installer/Install.antt =====
-- `install_bundle`: what an installation leaves behind, when it fails and when it succeeds.
use alharistech_platform.Base.{
  String, Bool, true, false, Option, List, ◌≡◌, refl, sym, ◌∙◌, subst, arith, if◌then◌else◌,
  string_eq,
}
use alharistech_platform.Exception.{Exn, bundler_error, Result, ok, err}
use alharistech_platform.Bundle.Component.{ComponentRef}
use alharistech_platform.Bundle.Manifest.{BundleManifest}
use alharistech_platform.Bundle.Records.{
  InstalledBundleRecord, RecordsIo, same_key, load_records, save_records, find_record,
  upsert_record, create,
}
use alharistech_platform.Bundle.Records.Laws.{has_key-same, still_needed-same}
use alharistech_platform.Bundle.Resolver.{InstallPlan}
use alharistech_platform.Bundle.Installer.{
  InstallResult, PrimitiveInstaller, Progress, LoopEnd, finished, failed, Project,
  install_components, is_owned, prior_components, prior_time, is_blocked, recorded_for,
  first_progress, install_after, install_bundle,
}
use alharistech_platform.Bundle.Installer.Lawful.{IsLawful, CanRemove}
use alharistech_platform.Bundle.Installer.Rollback.{
  Accounted, Accounted-install_components, rollback-Accounted,
}

pub is_owned-same :
    (records : List InstalledBundleRecord) (i : String) (c d : ComponentRef)
    → same_key d c ≡ true
    → is_owned records i d ≡ is_owned records i c
unfolding is_owned
is_owned-same records i c d h = ground (
  arith,
  has_key-same (prior_components (find_record records i)) c d h,
  still_needed-same records i c d h,
)

-- The record that an installation writes.
abbrev pub new_record :
    String → InstallPlan → List InstalledBundleRecord → List ComponentRef → InstalledBundleRecord
new_record now plan records contributed =
    create now plan.bundle_id plan.version contributed
      (prior_time (find_record records plan.bundle_id))

module _ {File W : Type 0} (io : RecordsIo File) (now : String) (installer : PrimitiveInstaller W)
    (has : W → ComponentRef → Bool) (lawful : IsLawful installer has) where
  Accounted-first :
      (owned : ComponentRef → Bool)
      (same : (c d : ComponentRef) → same_key d c ≡ true → owned d ≡ owned c) (bundle_id : String)
      (w : W)
      → Accounted installer has lawful owned same w (first_progress bundle_id w)
  Accounted-first owned same bundle_id w = record {
    present = λ d. refl;
    fresh = λ d k. ground arith;
    recorded = λ d k. ground arith;
    attributable = λ d k. ground arith;
  }

  -- The loop over the plan's components, from the start of the installation.
  abbrev pub looped :
      InstallPlan → Bool → List InstalledBundleRecord → Project File W → LoopEnd × Progress W
  looped plan refresh records s =
      install_components installer refresh (is_owned records plan.bundle_id) plan.components
        (first_progress plan.bundle_id s.world)

  pub Accounted-looped :
      (plan : InstallPlan) (refresh : Bool) (records : List InstalledBundleRecord)
      (s : Project File W)
      → Accounted installer has lawful
          (is_owned records plan.bundle_id)
          (is_owned-same records plan.bundle_id)
          s.world
          (looped plan refresh records s).1
  Accounted-looped plan refresh records s =
      Accounted-install_components installer has lawful (is_owned records plan.bundle_id)
        (is_owned-same records plan.bundle_id) s.world refresh plan.components
        (first_progress plan.bundle_id s.world)
        (Accounted-first (is_owned records plan.bundle_id) (is_owned-same records plan.bundle_id)
          plan.bundle_id s.world)

  -- Where the call raised, the project is as it was.
  abbrev Restored : Project File W → Result InstallResult × Project File W → Type 0
  Restored s (ok r, s') = Unit
  Restored s (err e, s') =
      (s'.file ≡ s.file) × ((d : ComponentRef) → has s'.world d ≡ has s.world d)

  module _ (can_remove : CanRemove installer) (plan : InstallPlan)
      (manifest : Option BundleManifest) (refresh : Bool) (s : Project File W) where
    Restored-recorded :
        (records : List InstalledBundleRecord) (e : LoopEnd) (p : Progress W)
        → looped plan refresh records s ≡ (e, p)
        → Restored s (recorded_for io now installer plan records (e, p) s)
    Restored-recorded records finished p h = tt
    Restored-recorded records (failed x) p h = (
      refl,
      λ d.
          rollback-Accounted installer has lawful (is_owned records plan.bundle_id)
            (is_owned-same records plan.bundle_id) s.world can_remove p
            (subst
              (λ q.
                Accounted installer has lawful (is_owned records plan.bundle_id)
                  (is_owned-same records plan.bundle_id) s.world q.1)
              h (Accounted-looped plan refresh records s))
            d,
    )

    Restored-unblocked :
        (records : List InstalledBundleRecord) (b : Bool)
        → Restored s (
            if b
            then (err (bundler_error "integration clash"), s)
            else recorded_for io now installer plan records (looped plan refresh records s) s)
    Restored-unblocked records true = (refl, λ d. refl)
    Restored-unblocked records false =
        Restored-recorded records (looped plan refresh records s).0
          (looped plan refresh records s).1 refl

    Restored-install_after :
        (o : Result (List InstalledBundleRecord))
        → Restored s (install_after io now installer plan manifest refresh o s)
    Restored-install_after (err e) = (refl, λ d. refl)
    Restored-install_after (ok records) =
        Restored-unblocked records (is_blocked manifest plan.effective_integration records)

    Restored-install_bundle : Restored s (install_bundle io now installer plan manifest refresh s)
    unfolding install_bundle
    Restored-install_bundle = Restored-install_after (load_records io s.file)

    -- An installation that raises leaves the file of the records as it was, and the same components
    -- present: those that it had installed are removed again. The installer is lawful and its `remove`
    -- does not raise.
    pub install_bundle-restores :
        (s' : Project File W) (e : Exn)
        → install_bundle io now installer plan manifest refresh s ≡ (err e, s')
        → (s'.file ≡ s.file) × ((d : ComponentRef) → has s'.world d ≡ has s.world d)
    install_bundle-restores s' e h = subst (Restored s) h Restored-install_bundle

  -- How an installation that succeeds ends: the loop finished, and the record is written.
  pub record Installed (plan : InstallPlan) (refresh : Bool) (s : Project File W)
      (records : List InstalledBundleRecord) (r : InstallResult) (s' : Project File W)
      : Type 0 where
    pub progress : Progress W
    pub ended : looped plan refresh records s ≡ (finished, progress)
    pub result : r ≡ progress.result
    pub world : s'.world ≡ progress.world
    pub file :
        s'.file
        ≡ save_records io now
            (upsert_record records (new_record now plan records progress.contributed))
            s.file

  module _ (plan : InstallPlan) (manifest : Option BundleManifest) (refresh : Bool)
      (s : Project File W) (records : List InstalledBundleRecord) where
    abbrev Success : Result InstallResult × Project File W → Type 0
    Success (err e, s') = Unit
    Success (ok r, s') = Installed plan refresh s records r s'

    Success-recorded :
        (e : LoopEnd) (p : Progress W)
        → looped plan refresh records s ≡ (e, p)
        → Success (recorded_for io now installer plan records (e, p) s)
    Success-recorded finished p h = record {
      progress = p;
      ended = h;
      result = refl;
      world = refl;
      file = refl;
    }
    Success-recorded (failed x) p h = tt

    Success-unblocked :
        (b : Bool)
        → Success (
            if b
            then (err (bundler_error "integration clash"), s)
            else recorded_for io now installer plan records (looped plan refresh records s) s)
    Success-unblocked true = tt
    Success-unblocked false =
        Success-recorded (looped plan refresh records s).0 (looped plan refresh records s).1 refl

    install_bundle-loaded :
        load_records io s.file ≡ ok records
        → install_bundle io now installer plan manifest refresh s
          ≡ install_after io now installer plan manifest refresh (ok records) s
    unfolding install_bundle
    install_bundle-loaded h = rw h

    pub install_bundle-Installed :
        (r : InstallResult) (s' : Project File W)
        → load_records io s.file ≡ ok records
        → install_bundle io now installer plan manifest refresh s ≡ (ok r, s')
        → Installed plan refresh s records r s'
    install_bundle-Installed r s' loaded e =
        subst Success (sym (install_bundle-loaded loaded) ∙ e)
          (Success-unblocked (is_blocked manifest plan.effective_integration records))
