-- ===== src/Bundle/Installer/Rollback.antt =====
-- The account that the loop of `install_bundle` keeps of what it installs, and the rollback.
use alharistech_platform.Base.{
  Bool, true, false, not, ◌&&◌, ◌||◌, List, [], ◌∷◌, ◌++◌, ◌≡◌, refl, ap, ◌∙◌, arith,
}
use alharistech_platform.Exception.{Result, ok, err}
use alharistech_platform.Bundle.Component.{ComponentRef}
use alharistech_platform.Bundle.Records.{same_key, has_key}
use alharistech_platform.Bundle.Records.Laws.{has_key-append}
use alharistech_platform.Bundle.Installer.{
  InstallResult, PrimitiveInstaller, Progress, LoopEnd, finished, failed, install_one,
  install_components, rollback, backwards, refresh_component, refreshed_one, installed_one,
  present_one, attributed, skip_component, either_way,
}
use alharistech_platform.Bundle.Installer.Lawful.{IsLawful, CanRemove, has-refresh_component}

has_key-backwards :
    (cs : List ComponentRef) (d : ComponentRef) → has_key (backwards cs) d ≡ has_key cs d
has_key-backwards [] d = refl
has_key-backwards (c ∷ cs) d =
    ground (arith, has_key-backwards cs d, has_key-append (backwards cs) c d)

module _ {W : Type 0} (installer : PrimitiveInstaller W) (has : W → ComponentRef → Bool)
    (lawful : IsLawful installer has) (owned : ComponentRef → Bool)
    (owned_by_key : (c d : ComponentRef) → same_key d c ≡ true → owned d ≡ owned c)
    (start : W) where
  -- What holds at each turn of the loop that started in the world `start`.
  pub record Accounted (p : Progress W) : Type 0 where
    pub present : (d : ComponentRef) → has p.world d ≡ (has_key p.done d || has start d)
    pub fresh : (d : ComponentRef) → has_key p.done d ≡ true → has start d ≡ false
    pub recorded : (d : ComponentRef) → has_key p.done d ≡ true → has_key p.contributed d ≡ true
    pub attributable :
        (d : ComponentRef) → has_key p.contributed d ≡ true → (owned d || not (has start d)) ≡ true

  Accounted-world :
      (p : Progress W) (r : InstallResult) (w : W)
      → ((d : ComponentRef) → has w d ≡ has p.world d)
      → Accounted p
      → Accounted (record p { result = r; world = w })
  Accounted-world p r w same h = record {
    present = λ d. same d ∙ h.present d;
    fresh = h.fresh;
    recorded = h.recorded;
    attributable = h.attributable;
  }

  Accounted-attributed :
      (c : ComponentRef) (p : Progress W)
      → owned c ≡ true
      → Accounted p
      → Accounted (attributed true c p)
  Accounted-attributed c p o h = record {
    present = h.present;
    fresh = h.fresh;
    recorded = λ d k. ground (arith, h.recorded d k, has_key-append p.contributed c d);
    attributable = λ d k. of_key d k (has_key p.contributed d) refl (same_key d c) refl;
  }
    where
      of_key :
          (d : ComponentRef)
          → has_key (p.contributed ++ (c ∷ [])) d ≡ true
          → (a : Bool) → has_key p.contributed d ≡ a
          → (b : Bool) → same_key d c ≡ b
          → (owned d || not (has start d)) ≡ true
      of_key d k true e b f = h.attributable d e
      of_key d k false e true f = ground (arith, owned_by_key c d f)
      of_key d k false e false f = ground (arith, has_key-append p.contributed c d)

  Accounted-refreshed :
      (c : ComponentRef) (p : Progress W) (o : Result (Unit {0})) (w : W)
      → ((d : ComponentRef) → has w d ≡ has p.world d)
      → owned c ≡ true
      → Accounted p
      → Accounted (refreshed_one c (o, w) p).1
  Accounted-refreshed c p (err e) w same own h = Accounted-world p p.result w same h
  Accounted-refreshed c p (ok _) w same own h =
      Accounted-attributed c _ own (Accounted-world p _ w same h)

  Accounted-skipped :
      (own : Bool) (c : ComponentRef) (p : Progress W)
      → owned c ≡ own
      → Accounted p
      → Accounted (attributed own c (skip_component c p))
  Accounted-skipped true c p o h =
      Accounted-attributed c (skip_component c p) o (Accounted-world p _ p.world (λ _. refl) h)
  Accounted-skipped false c p o h = Accounted-world p _ p.world (λ _. refl) h

  Accounted-present :
      (refresh own : Bool) (c : ComponentRef) (p : Progress W)
      → owned c ≡ own
      → has p.world c ≡ true
      → Accounted p
      → Accounted (present_one installer refresh own c p).1
  Accounted-present true true c p o there h =
      Accounted-refreshed c p (refresh_component installer c p.world).0
        (refresh_component installer c p.world).1
        (λ d. has-refresh_component installer has lawful c d p.world there) o h
  Accounted-present true false c p o there h = Accounted-skipped false c p o h
  Accounted-present false own c p o there h = Accounted-skipped own c p o h

  Accounted-installed :
      (c : ComponentRef) (p : Progress W) (o : Result (Unit {0})) (w : W)
      → installer.install c p.world ≡ (o, w)
      → has p.world c ≡ false
      → Accounted p
      → Accounted (installed_one c (o, w) p).1
  Accounted-installed c p (err e) w i absent h =
      Accounted-world p p.result w (λ d. lawful.install_fails c d p.world w e i) h
  Accounted-installed c p (ok u) w i absent h = record {
    present = λ d.
        ground (arith, lawful.installs c d p.world w i, h.present d, has_key-append p.done c d);
    fresh = λ d k. fresh d k (has_key p.done d) refl (same_key d c) refl;
    recorded = λ d k.
        ground (arith, h.recorded d, has_key-append p.done c d, has_key-append p.contributed c d);
    attributable = λ d k. attributable d k (has_key p.contributed d) refl (same_key d c) refl;
  }
    where
      new : (d : ComponentRef) → same_key d c ≡ true → has start d ≡ false
      new d k = ground (arith, h.present c, lawful.by_key start c d k)

      fresh :
          (d : ComponentRef)
          → has_key (p.done ++ (c ∷ [])) d ≡ true
          → (a : Bool) → has_key p.done d ≡ a
          → (b : Bool) → same_key d c ≡ b
          → has start d ≡ false
      fresh d k true e b f = h.fresh d e
      fresh d k false e true f = new d f
      fresh d k false e false f = ground (arith, has_key-append p.done c d)

      attributable :
          (d : ComponentRef)
          → has_key (p.contributed ++ (c ∷ [])) d ≡ true
          → (a : Bool) → has_key p.contributed d ≡ a
          → (b : Bool) → same_key d c ≡ b
          → (owned d || not (has start d)) ≡ true
      attributable d k true e b f = h.attributable d e
      attributable d k false e true f = ground (arith, new d f)
      attributable d k false e false f = ground (arith, has_key-append p.contributed c d)

  Accounted-install_one :
      (refresh : Bool) (c : ComponentRef) (o : Result Bool) (p : Progress W)
      → installer.is_installed c p.world ≡ o
      → Accounted p
      → Accounted (install_one installer refresh (owned c) c o p).1
  unfolding install_one
  Accounted-install_one refresh c (err e) p i h = h
  Accounted-install_one refresh c (ok true) p i h =
      Accounted-present refresh (owned c) c p refl (lawful.observes c p.world true i) h
  Accounted-install_one refresh c (ok false) p i h =
      Accounted-installed c p (installer.install c p.world).0 (installer.install c p.world).1 refl
        (lawful.observes c p.world false i) h

  pub Accounted-install_components :
      (refresh : Bool) (cs : List ComponentRef) (p : Progress W)
      → Accounted p
      → Accounted (install_components installer refresh owned cs p).1
  unfolding install_components
  Accounted-install_components refresh [] p h = h
  Accounted-install_components refresh (c ∷ cs) p h =
      next (install_one installer refresh (owned c) c (installer.is_installed c p.world) p).0
        (install_one installer refresh (owned c) c (installer.is_installed c p.world) p).1
        (Accounted-install_one refresh c (installer.is_installed c p.world) p refl h)
        (Accounted-install_components refresh cs _)
    where
      next :
          (e : LoopEnd) (q : Progress W)
          → Accounted q
          → (Accounted q → Accounted (install_components installer refresh owned cs q).1)
          → Accounted (either_way e q (install_components installer refresh owned cs q)).1
      next (failed e) q k rest = k
      next finished q k rest = rest k

  module _ (can_remove : CanRemove installer) where
    has-remove :
        (c d : ComponentRef) (w : W)
        → has (installer.remove c w).1 d ≡ (not (same_key d c) && has w d)
    has-remove c d w =
        lawful.removes c d w (installer.remove c w).1
          (ap (λ o. (o, (installer.remove c w).1)) (can_remove c w))

    has-rollback :
        (cs : List ComponentRef) (d : ComponentRef) (w : W)
        → has (rollback installer cs w) d ≡ (not (has_key cs d) && has w d)
    unfolding rollback
    has-rollback [] d w = refl
    has-rollback (c ∷ cs) d w =
        ground (arith, has-rollback cs d (installer.remove c w).1, has-remove c d w)

    -- Rolling back what the loop has installed restores the components of its start.
    pub rollback-Accounted :
        (p : Progress W)
        → Accounted p
        → (d : ComponentRef) → has (rollback installer (backwards p.done) p.world) d ≡ has start d
    rollback-Accounted p h d = restored (has_key p.done d) refl
      where
        restored :
            (b : Bool)
            → has_key p.done d ≡ b
            → has (rollback installer (backwards p.done) p.world) d ≡ has start d
        restored true k = ground (
          arith,
          has-rollback (backwards p.done) d p.world,
          has_key-backwards p.done d,
          h.fresh d k,
        )
        restored false k = ground (
          arith,
          has-rollback (backwards p.done) d p.world,
          has_key-backwards p.done d,
          h.present d,
        )
