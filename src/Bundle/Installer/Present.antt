-- ===== src/Bundle/Installer/Present.antt =====
-- The components that are present after an installation that succeeds.
use alharistech_platform.Base.{
  String, Bool, true, false, ◌&&◌, Option, List, [], ◌∷◌, All, ◌≡◌, refl, sym, ap, ◌∙◌, subst,
  arith,
}
use alharistech_platform.Exception.{Result, ok, err}
use alharistech_platform.Bundle.Component.{ComponentRef}
use alharistech_platform.Bundle.Manifest.{BundleManifest}
use alharistech_platform.Bundle.Records.{InstalledBundleRecord, RecordsIo, load_records}
use alharistech_platform.Bundle.Records.Laws.{same_key_refl}
use alharistech_platform.Bundle.Resolver.{InstallPlan}
use alharistech_platform.Bundle.Installer.{
  InstallResult, PrimitiveInstaller, Progress, Project, LoopEnd, finished, failed, install_one,
  install_components, either_way, present_one, installed_one, refreshed_one, refresh_component,
  is_owned, first_progress, install_bundle,
}
use alharistech_platform.Bundle.Installer.Lawful.{IsLawful, has-refresh_component}
use alharistech_platform.Bundle.Installer.Install.{install_bundle-Installed}

module _ {W : Type 0} (installer : PrimitiveInstaller W) (has : W → ComponentRef → Bool)
    (lawful : IsLawful installer has) (refresh : Bool) (owned : ComponentRef → Bool) where
  -- No component has gone, and those in the list are there unless the loop failed.
  abbrev AreThere : List ComponentRef → LoopEnd → W → Type 0
  AreThere cs (failed e) w = Unit
  AreThere cs finished w = All (λ c. has w c ≡ true) cs

  abbrev NoneGone : W → W → Type 0
  NoneGone w w' = (d : ComponentRef) → has w d ≡ true → has w' d ≡ true

  abbrev After : List ComponentRef → W → LoopEnd × Progress W → Type 0
  After cs w (e, p) = NoneGone w p.world × AreThere cs e p.world

  After-refreshed :
      (c : ComponentRef) (p : Progress W) (o : Result (Unit {0})) (w : W)
      → ((d : ComponentRef) → has w d ≡ has p.world d)
      → has p.world c ≡ true
      → After (c ∷ []) p.world (refreshed_one c (o, w) p)
  After-refreshed c p (err e) w same there = (λ d h. same d ∙ h, tt)
  After-refreshed c p (ok u) w same there = (λ d h. same d ∙ h, (same c ∙ there, tt))

  After-present :
      (again own : Bool) (c : ComponentRef) (p : Progress W)
      → has p.world c ≡ true
      → After (c ∷ []) p.world (present_one installer again own c p)
  After-present true true c p there =
      After-refreshed c p (refresh_component installer c p.world).0
        (refresh_component installer c p.world).1
        (λ d. has-refresh_component installer has lawful c d p.world there) there
  After-present true false c p there = (λ d h. h, (there, tt))
  After-present false true c p there = (λ d h. h, (there, tt))
  After-present false false c p there = (λ d h. h, (there, tt))

  After-installed :
      (c : ComponentRef) (p : Progress W) (o : Result (Unit {0})) (w : W)
      → installer.install c p.world ≡ (o, w)
      → After (c ∷ []) p.world (installed_one c (o, w) p)
  After-installed c p (err e) w i = (λ d h. lawful.install_fails c d p.world w e i ∙ h, tt)
  After-installed c p (ok u) w i = (
    λ d h. ground (arith, lawful.installs c d p.world w i, h),
    (ground (arith, lawful.installs c c p.world w i, same_key_refl c), tt),
  )

  After-install_one :
      (c : ComponentRef) (o : Result Bool) (p : Progress W)
      → installer.is_installed c p.world ≡ o
      → After (c ∷ []) p.world (install_one installer refresh (owned c) c o p)
  unfolding install_one
  After-install_one c (err e) p i = (λ d h. h, tt)
  After-install_one c (ok true) p i =
      After-present refresh (owned c) c p (lawful.observes c p.world true i)
  After-install_one c (ok false) p i =
      After-installed c p (installer.install c p.world).0 (installer.install c p.world).1 refl

  AreThere-cons :
      (c : ComponentRef) (cs : List ComponentRef) (w : W) (o : LoopEnd × Progress W)
      → has w c ≡ true
      → After cs w o
      → AreThere (c ∷ cs) o.0 o.1.world
  AreThere-cons c cs w (failed e, p) here h = tt
  AreThere-cons c cs w (finished, p) here h = (h.0 c here, h.1)

  After-either_way :
      (c : ComponentRef) (cs : List ComponentRef) (w : W) (e : LoopEnd) (q : Progress W)
      (rest : LoopEnd × Progress W)
      → After (c ∷ []) w (e, q)
      → After cs q.world rest
      → After (c ∷ cs) w (either_way e q rest)
  After-either_way c cs w (failed e) q rest here h = (here.0, tt)
  After-either_way c cs w finished q rest here h =
      (λ d k. h.0 d (here.0 d k), AreThere-cons c cs q.world rest here.1.0 h)

  After-install_components :
      (cs : List ComponentRef) (p : Progress W)
      → After cs p.world (install_components installer refresh owned cs p)
  unfolding install_components
  After-install_components [] p = (λ d h. h, tt)
  After-install_components (c ∷ cs) p =
      After-either_way c cs p.world
        (install_one installer refresh (owned c) c (installer.is_installed c p.world) p).0
        (install_one installer refresh (owned c) c (installer.is_installed c p.world) p).1 _
        (After-install_one c (installer.is_installed c p.world) p refl)
        (After-install_components cs _)

under : (b x : Bool) → (b ≡ true → x ≡ true) → (b && x) ≡ b
under true x h = h refl
under false x h = refl

-- After an installation that succeeds, with a lawful installer, every component of the plan is present,
-- and so is every component that was present before.
pub install_bundle-present :
    {File W : Type 0} (io : RecordsIo File) (now : String) (installer : PrimitiveInstaller W)
    (has : W → ComponentRef → Bool) (lawful : IsLawful installer has) (plan : InstallPlan)
    (manifest : Option BundleManifest) (refresh : Bool) (s s' : Project File W)
    (records : List InstalledBundleRecord) (r : InstallResult)
    → load_records io s.file ≡ ok records
    → install_bundle io now installer plan manifest refresh s ≡ (ok r, s')
    → All (λ c. has s'.world c ≡ true) plan.components
      × ((d : ComponentRef) → (has s.world d && has s'.world d) ≡ has s.world d)
install_bundle-present {W = W} io now installer has lawful plan manifest refresh s s' records r
      loaded e =
    let outcome =
      install_bundle-Installed io now installer has lawful plan manifest refresh s records r s'
        loaded e in
    let after =
      subst
        (After installer has lawful refresh (is_owned records plan.bundle_id) plan.components
          s.world)
        outcome.ended
        (After-install_components installer has lawful refresh (is_owned records plan.bundle_id)
          plan.components (first_progress plan.bundle_id s.world)) in
    (
      subst (λ (w : W). All (λ c. has w c ≡ true) plan.components) (sym outcome.world) after.1,
      λ d.
          under (has s.world d) (has s'.world d)
            (λ h. ap (λ (w : W). has w d) outcome.world ∙ after.0 d h),
    )
