-- ===== src/Bundle/Installer/Remove.antt =====
-- `remove_bundle`: which components go and which stay.
use alharistech_platform.Base.{
  String, Bool, true, false, not, ◌&&◌, ◌||◌, some, List, [], ◌∷◌, ◌≡◌, refl, sym, subst, arith,
  string_eq,
}
use alharistech_platform.Exception.{Exn, Result, ok, err}
use alharistech_platform.Bundle.Component.{ComponentRef}
use alharistech_platform.Bundle.Records.{
  InstalledBundleRecord, RecordsIo, same_key, has_key, load_records, save_records, find_record,
  remove_record, still_needed,
}
use alharistech_platform.Bundle.Records.Laws.{still_needed-same}
use alharistech_platform.Bundle.Installer.{
  InstallResult, no_result, PrimitiveInstaller, Project, remove_one, remove_present,
  remove_components, uninstalled_one, after_one, removed_from, remove_bundle,
}
use alharistech_platform.Bundle.Installer.Lawful.{IsLawful}

module _ {W : Type 0} (installer : PrimitiveInstaller W) (has : W → ComponentRef → Bool)
    (lawful : IsLawful installer has) (needed : ComponentRef → Bool)
    (needed_by_key : (c d : ComponentRef) → same_key d c ≡ true → needed d ≡ needed c) where
  -- The components that stay: the needed ones, and those not in the list.
  abbrev Left : List ComponentRef → W → Result InstallResult × W → Type 0
  Left cs w (err e, w') =
      (d : ComponentRef) → (needed d || not (has_key cs d)) ≡ true → has w' d ≡ has w d
  Left cs w (ok r, w') =
      (d : ComponentRef) → has w' d ≡ ((needed d || not (has_key cs d)) && has w d)

  Left-kept :
      (b : Bool) (c d : ComponentRef) (w : W)
      → same_key d c ≡ b
      → needed c ≡ true
      → has w d ≡ ((needed d || not (has_key (c ∷ []) d)) && has w d)
  Left-kept true c d w k n = ground (arith, needed_by_key c d k)
  Left-kept false c d w k n = ground arith

  Left-absent :
      (b : Bool) (c d : ComponentRef) (w : W)
      → same_key d c ≡ b
      → has w c ≡ false
      → has w d ≡ ((needed d || not (has_key (c ∷ []) d)) && has w d)
  Left-absent true c d w k n = ground (arith, lawful.by_key w c d k)
  Left-absent false c d w k n = ground arith

  Left-gone :
      (b : Bool) (c d : ComponentRef) (w w' : W)
      → same_key d c ≡ b
      → needed c ≡ false
      → installer.remove c w ≡ (ok tt, w')
      → has w' d ≡ ((needed d || not (has_key (c ∷ []) d)) && has w d)
  Left-gone true c d w w' k n e = ground (arith, needed_by_key c d k, lawful.removes c d w w' e)
  Left-gone false c d w w' k n e = ground (arith, lawful.removes c d w w' e)

  Left-uninstalled_one :
      (c : ComponentRef) (o : Result (Unit {0})) (w w' : W) (r : InstallResult)
      → needed c ≡ false
      → installer.remove c w ≡ (o, w')
      → Left (c ∷ []) w (uninstalled_one c (o, w') r)
  Left-uninstalled_one c (err x) w w' r n e = λ d k. lawful.remove_fails c d w w' x e
  Left-uninstalled_one c (ok u) w w' r n e = λ d. Left-gone (same_key d c) c d w w' refl n e

  Left-remove_present :
      (c : ComponentRef) (o : Result Bool) (r : InstallResult) (w : W)
      → needed c ≡ false
      → installer.is_installed c w ≡ o
      → Left (c ∷ []) w (remove_present installer c o r w)
  Left-remove_present c (err x) r w n e = λ d k. refl
  Left-remove_present c (ok true) r w n e =
      Left-uninstalled_one c (installer.remove c w).0 w (installer.remove c w).1 r n refl
  Left-remove_present c (ok false) r w n e =
      λ d. Left-absent (same_key d c) c d w refl (lawful.observes c w false e)

  Left-remove_one :
      (b : Bool) (c : ComponentRef) (r : InstallResult) (w : W)
      → needed c ≡ b
      → Left (c ∷ []) w (remove_one installer b c r w)
  unfolding remove_one
  Left-remove_one true c r w n = λ d. Left-kept (same_key d c) c d w refl n
  Left-remove_one false c r w n = Left-remove_present c (installer.is_installed c w) r w n refl

  Left-both :
      (c : ComponentRef) (cs : List ComponentRef) (w w' : W) (o : Result InstallResult × W)
      → ((d : ComponentRef) → has w' d ≡ ((needed d || not (has_key (c ∷ []) d)) && has w d))
      → Left cs w' o
      → Left (c ∷ cs) w o
  Left-both c cs w w' (err e, w2) one rest = λ d k. ground (arith, one d, rest d)
  Left-both c cs w w' (ok r, w2) one rest = λ d. ground (arith, one d, rest d)

  Left-after_one :
      (c : ComponentRef) (cs : List ComponentRef) (w w' : W) (o : Result InstallResult)
      (rest : InstallResult → Result InstallResult × W)
      → Left (c ∷ []) w (o, w')
      → ((r : InstallResult) → Left cs w' (rest r))
      → Left (c ∷ cs) w (after_one o w' rest)
  Left-after_one c cs w w' (err e) rest one h = λ d k. ground (arith, one d)
  Left-after_one c cs w w' (ok r) rest one h = Left-both c cs w w' (rest r) one (h r)

  Left-remove_components :
      (cs : List ComponentRef) (r : InstallResult) (w : W)
      → Left cs w (remove_components installer needed cs r w)
  unfolding remove_components
  Left-remove_components [] r w = λ d. ground arith
  Left-remove_components (c ∷ cs) r w =
      Left-after_one c cs w (remove_one installer (needed c) c r w).1
        (remove_one installer (needed c) c r w).0 _ (Left-remove_one (needed c) c r w refl)
        (λ r'. Left-remove_components cs r' (remove_one installer (needed c) c r w).1)

under : {x y : Bool} (b : Bool) → (b ≡ true → x ≡ y) → (b && x) ≡ (b && y)
under true h = h refl
under false h = refl

-- A component stays if another bundle needs it, or if it is not the removed bundle's.
abbrev pub stays : String → List InstalledBundleRecord → InstalledBundleRecord → ComponentRef → Bool
stays bundle_id records target d =
    still_needed records bundle_id d || not (has_key target.contributed_components d)

module _ {File W : Type 0} (io : RecordsIo File) (now : String) (installer : PrimitiveInstaller W)
    (has : W → ComponentRef → Bool) (lawful : IsLawful installer has) (bundle_id : String)
    (s : Project File W) (records : List InstalledBundleRecord)
    (target : InstalledBundleRecord) where
  abbrev Kept : Result InstallResult × Project File W → Type 0
  Kept (err e, s') =
      (s'.file ≡ s.file)
      × ((d : ComponentRef)
          → stays bundle_id records target d ≡ true
          → has s'.world d ≡ has s.world d)
  Kept (ok r, s') =
      (s'.file ≡ save_records io now (remove_record records bundle_id) s.file)
      × ((d : ComponentRef) → has s'.world d ≡ (stays bundle_id records target d && has s.world d))

  Kept-removed_from :
      (o : Result InstallResult × W)
      → Left installer has lawful
          (still_needed records bundle_id)
          (still_needed-same records bundle_id)
          target.contributed_components
          s.world
          o
      → Kept (removed_from io now installer bundle_id records o s)
  Kept-removed_from (err e, w) h = (refl, h)
  Kept-removed_from (ok r, w) h = (refl, h)

  abbrev loop : Result InstallResult × W
  loop =
      remove_components installer (still_needed records bundle_id) target.contributed_components
        (no_result bundle_id) s.world

  remove_bundle-loop :
      load_records io s.file ≡ ok records
      → find_record records bundle_id ≡ some target
      → remove_bundle io now installer bundle_id s
        ≡ removed_from io now installer bundle_id records loop s
  unfolding remove_bundle
  remove_bundle-loop loaded found = rw (loaded, found)

  Kept-remove_bundle :
      load_records io s.file ≡ ok records
      → find_record records bundle_id ≡ some target
      → Kept (remove_bundle io now installer bundle_id s)
  Kept-remove_bundle loaded found = subst Kept (sym (remove_bundle-loop loaded found)) (
      Kept-removed_from loop (
        Left-remove_components installer has lawful (still_needed records bundle_id)
          (still_needed-same records bundle_id) target.contributed_components (no_result bundle_id)
          s.world))

  -- Removing a bundle that is recorded, where nothing raises, writes the records without it, and
  -- removes just the bundle's components that no other recorded bundle needs: every other component
  -- stays. The installer is lawful.
  pub remove_bundle-removes :
      (s' : Project File W) (r : InstallResult)
      → load_records io s.file ≡ ok records
      → find_record records bundle_id ≡ some target
      → remove_bundle io now installer bundle_id s ≡ (ok r, s')
      → (s'.file ≡ save_records io now (remove_record records bundle_id) s.file)
        × ((d : ComponentRef)
            → has s'.world d ≡ (stays bundle_id records target d && has s.world d))
  remove_bundle-removes s' r loaded found e = subst Kept e (Kept-remove_bundle loaded found)

  -- Removing a bundle that is recorded, where an operation of the lawful installer raises, leaves the
  -- file of the records as it was, and every component that is not the bundle's or that another
  -- recorded bundle needs.
  pub remove_bundle-raises :
      (s' : Project File W) (x : Exn)
      → load_records io s.file ≡ ok records
      → find_record records bundle_id ≡ some target
      → remove_bundle io now installer bundle_id s ≡ (err x, s')
      → (s'.file ≡ s.file)
        × ((d : ComponentRef)
            → (stays bundle_id records target d && has s'.world d)
              ≡ (stays bundle_id records target d && has s.world d))
  remove_bundle-raises s' x loaded found e =
      let kept : Kept (err x, s') = subst Kept e (Kept-remove_bundle loaded found) in
      (kept.0, λ d. under (stays bundle_id records target d) (kept.1 d))
