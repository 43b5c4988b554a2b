-- ===== src/Bundle/Installer/Undo.antt =====
-- Installing a new bundle and removing it again.
use alharistech_platform.Base.{
  String, Bool, true, false, not, ◌&&◌, Option, none, some, List, [], ◌∷◌, All, ◌≡◌, refl, sym, ap,
  ◌∙◌, subst, arith, if◌then◌else◌, ◌==◌, string_eq, ==-refl,
}
use alharistech_platform.Base.Blank.{strip}
use alharistech_platform.Exception.{ok}
use alharistech_platform.Bundle.Component.{ComponentRef}
use alharistech_platform.Bundle.Manifest.{BundleManifest}
use alharistech_platform.Bundle.Records.{
  InstalledBundleRecord, RecordsIo, load_records, save_records, find_record, upsert_record,
  remove_record, create, still_needed,
}
use alharistech_platform.Bundle.Records.Laws.{
  find_record-upsert_record, still_needed-upsert_record, remove_record-upsert_record,
}
use alharistech_platform.Bundle.Records.Roundtrip.{
  IsName, IsComponent, IsRecord, IsFaithful, load_records-save_records,
}
use alharistech_platform.Bundle.Resolver.{InstallPlan}
use alharistech_platform.Bundle.Installer.{
  InstallResult, PrimitiveInstaller, Progress, LoopEnd, Project, is_owned, prior_time,
  install_bundle, remove_bundle, first_progress,
}
use alharistech_platform.Bundle.Installer.Lawful.{IsLawful}
use alharistech_platform.Bundle.Installer.Attributed.{All-append, Attributed-install_components}
use alharistech_platform.Bundle.Installer.Rollback.{Accounted}
use alharistech_platform.Bundle.Installer.Install.{
  Installed, new_record, is_owned-same, install_bundle-Installed, Accounted-looped,
}
use alharistech_platform.Bundle.Installer.Remove.{remove_bundle-removes, stays}

-- A plan whose names and components are well formed, and a time of day that is.
pub record IsPlan (now : String) (plan : InstallPlan) : Type 0 where
  pub time : strip now ≡ now
  pub bundle_id : IsName plan.bundle_id
  pub version : IsName plan.version
  pub components : All IsComponent plan.components

All-remove_record :
    (rs : List InstalledBundleRecord) (i : String)
    → All IsRecord rs
    → All IsRecord (remove_record rs i)
unfolding remove_record
All-remove_record [] i h = tt
All-remove_record (r ∷ rs) i h = kept (r.bundle_id == i) (All-remove_record rs i h.1)
  where
    kept :
        (b : Bool)
        → All IsRecord (remove_record rs i)
        → All IsRecord (if not b then r ∷ remove_record rs i else remove_record rs i)
    kept true k = k
    kept false k = (h.0, k)

All-upsert_record :
    (rs : List InstalledBundleRecord) (r : InstalledBundleRecord)
    → All IsRecord rs
    → IsRecord r
    → All IsRecord (upsert_record rs r)
unfolding upsert_record remove_record
All-upsert_record rs r h p =
    All-append IsRecord (remove_record rs r.bundle_id) r (All-remove_record rs r.bundle_id h) p

module _ {File W : Type 0} (io : RecordsIo File) (faithful : IsFaithful io) (now : String)
    (installer : PrimitiveInstaller W) (has : W → ComponentRef → Bool)
    (lawful : IsLawful installer has) (plan : InstallPlan) (valid : IsPlan now plan)
    (manifest : Option BundleManifest) (refresh : Bool) (s s' : Project File W)
    (records : List InstalledBundleRecord) (r : InstallResult)
    (inside : io.ensure_within s.file ≡ ok tt) (loaded : load_records io s.file ≡ ok records)
    (records_valid : All IsRecord records) (new : find_record records plan.bundle_id ≡ none)
    (installed : install_bundle io now installer plan manifest refresh s ≡ (ok r, s')) where
  outcome : Installed io now installer has lawful plan refresh s records r s'
  outcome =
      install_bundle-Installed io now installer has lawful plan manifest refresh s records r s'
        loaded installed

  abbrev written : InstalledBundleRecord
  written = new_record now plan records outcome.progress.contributed

  contributed_valid : All IsComponent outcome.progress.contributed
  contributed_valid =
      subst (λ (q : LoopEnd × Progress W). All IsComponent q.1.contributed) outcome.ended
        (Attributed-install_components IsComponent installer refresh
          (is_owned records plan.bundle_id) plan.components (first_progress plan.bundle_id s.world)
          valid.components tt)

  written_valid : IsRecord written
  unfolding create
  written_valid = record {
    bundle_id = valid.bundle_id;
    version = valid.version;
    installed_at =
        subst
          (λ o.
            strip (elim (prior_time o) [ none ↦ now | some t ↦ if t == "" then now else t ])
            ≡ elim (prior_time o) [ none ↦ now | some t ↦ if t == "" then now else t ])
          (sym new) valid.time;
    contributed_components = contributed_valid;
  }

  -- An installation that succeeds leaves a file from which the records before it are read, with the
  -- bundle's record in place of one of the same id.
  loaded_after : load_records io s'.file ≡ ok (upsert_record records written)
  loaded_after =
      ap (load_records io) outcome.file
      ∙ load_records-save_records io faithful now (upsert_record records written) s.file
          (All-upsert_record records written records_valid written_valid) inside

  id_of_written : written.bundle_id ≡ plan.bundle_id
  unfolding create
  id_of_written = refl

  found_after : find_record (upsert_record records written) plan.bundle_id ≡ some written
  found_after = ground (
    arith,
    find_record-upsert_record records written plan.bundle_id,
    id_of_written,
    ==-refl plan.bundle_id,
  )

  accounted :
      Accounted installer has lawful
        (is_owned records plan.bundle_id)
        (is_owned-same records plan.bundle_id)
        s.world
        outcome.progress
  accounted =
      subst
        (λ (q : LoopEnd × Progress W).
          Accounted installer has lawful (is_owned records plan.bundle_id)
            (is_owned-same records plan.bundle_id) s.world q.1)
        outcome.ended (Accounted-looped io now installer has lawful plan refresh records s)

  owned_needed :
      (d : ComponentRef) → is_owned records plan.bundle_id d ≡ still_needed records plan.bundle_id d
  unfolding is_owned
  owned_needed d = rw new

  -- Of the components present after the installation, those that stay were present before it.
  stays_present :
      ((d : ComponentRef) → still_needed records plan.bundle_id d ≡ true → has s.world d ≡ true)
      → (d : ComponentRef)
      → (stays plan.bundle_id (upsert_record records written) written d && has s'.world d)
        ≡ has s.world d
  unfolding create
  stays_present tracked d = ground (
    arith,
    tracked d,
    still_needed-upsert_record records written d,
    ap (λ w. has w d) outcome.world,
    accounted.present d,
    accounted.recorded d,
    accounted.attributable d,
    owned_needed d,
  )

  -- A bundle that is installed for the first time and then removed, both without an exception, leaves
  -- the components and the records that there were before. The installer is lawful, the file faithful and
  -- inside the project,
  -- the plan and the records well formed, and each component that a record of another bundle names
  -- was present.
  pub remove_bundle-install_bundle :
      (s2 : Project File W) (r2 : InstallResult)
      → ((d : ComponentRef) → still_needed records plan.bundle_id d ≡ true → has s.world d ≡ true)
      → remove_bundle io now installer plan.bundle_id s' ≡ (ok r2, s2)
      → ((d : ComponentRef) → has s2.world d ≡ has s.world d)
        × (load_records io s2.file ≡ ok records)
  unfolding create save_records
  remove_bundle-install_bundle s2 r2 tracked removed =
      (λ d. gone.1 d ∙ stays_present tracked d, ap (load_records io) gone.0 ∙ reloaded)
    where
      gone :
          (s2.file
            ≡ save_records io now
                (remove_record (upsert_record records written) plan.bundle_id)
                s'.file)
          × ((d : ComponentRef)
              → has s2.world d ≡ (
                  stays plan.bundle_id (upsert_record records written) written d && has s'.world d))
      gone =
          remove_bundle-removes io now installer has lawful plan.bundle_id s'
            (upsert_record records written) written s2 r2 loaded_after found_after removed

      before : remove_record (upsert_record records written) plan.bundle_id ≡ records
      before = remove_record-upsert_record records written new

      inside_after : io.ensure_within s'.file ≡ ok tt
      inside_after = ap io.ensure_within outcome.file ∙ faithful.within _ s.file ∙ inside

      reloaded :
          load_records io (
            save_records io now
              (remove_record (upsert_record records written) plan.bundle_id)
              s'.file)
          ≡ ok records
      reloaded =
          ap (λ rs. load_records io (save_records io now rs s'.file)) before
          ∙ load_records-save_records io faithful now records s'.file records_valid inside_after
