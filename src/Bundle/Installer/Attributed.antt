-- ===== src/Bundle/Installer/Attributed.antt =====
-- Which components an installation attributes to its bundle.
use alharistech_platform.Base.{Bool, true, false, List, [], ◌∷◌, ◌++◌, All}
use alharistech_platform.Exception.{Result, ok, err}
use alharistech_platform.Bundle.Component.{ComponentRef}
use alharistech_platform.Bundle.Installer.{
  PrimitiveInstaller, Progress, LoopEnd, finished, failed, install_one, install_components,
  either_way, present_one, installed_one, refreshed_one, refresh_component,
}

pub All-append :
    {A : Type 0} (P : A → Type 0) (xs : List A) (c : A) → All P xs → P c → All P (xs ++ (c ∷ []))
All-append P [] c h p = (p, tt)
All-append P (x ∷ xs) c h p = (h.0, All-append P xs c h.1 p)

module _ {W : Type 0} (P : ComponentRef → Type 0) (installer : PrimitiveInstaller W)
    (refresh : Bool) (owned : ComponentRef → Bool) where
  abbrev pub Attributed : Progress W → Type 0
  Attributed p = All P p.contributed

  Attributed-refreshed :
      (c : ComponentRef) (o : Result (Unit {0}) × W) (p : Progress W)
      → P c
      → Attributed p
      → Attributed (refreshed_one c o p).1
  Attributed-refreshed c (err e, w) p x h = h
  Attributed-refreshed c (ok u, w) p x h = All-append P p.contributed c h x

  Attributed-installed :
      (c : ComponentRef) (o : Result (Unit {0}) × W) (p : Progress W)
      → P c
      → Attributed p
      → Attributed (installed_one c o p).1
  Attributed-installed c (err e, w) p x h = h
  Attributed-installed c (ok u, w) p x h = All-append P p.contributed c h x

  Attributed-present :
      (again own : Bool) (c : ComponentRef) (p : Progress W)
      → P c
      → Attributed p
      → Attributed (present_one installer again own c p).1
  Attributed-present true true c p x h =
      Attributed-refreshed c (refresh_component installer c p.world) p x h
  Attributed-present true false c p x h = h
  Attributed-present false true c p x h = All-append P p.contributed c h x
  Attributed-present false false c p x h = h

  Attributed-install_one :
      (c : ComponentRef) (o : Result Bool) (p : Progress W)
      → P c
      → Attributed p
      → Attributed (install_one installer refresh (owned c) c o p).1
  unfolding install_one
  Attributed-install_one c (err e) p x h = h
  Attributed-install_one c (ok true) p x h = Attributed-present refresh (owned c) c p x h
  Attributed-install_one c (ok false) p x h =
      Attributed-installed c (installer.install c p.world) p x h

  pub Attributed-install_components :
      (cs : List ComponentRef) (p : Progress W)
      → All P cs
      → Attributed p
      → Attributed (install_components installer refresh owned cs p).1
  unfolding install_components
  Attributed-install_components [] p x h = h
  Attributed-install_components (c ∷ cs) p x h =
      next (install_one installer refresh (owned c) c (installer.is_installed c p.world) p).0
        (install_one installer refresh (owned c) c (installer.is_installed c p.world) p).1
        (Attributed-install_one c (installer.is_installed c p.world) p x.0 h)
        (Attributed-install_components cs _ x.1)
    where
      next :
          (e : LoopEnd) (q : Progress W)
          → Attributed q
          → (Attributed q → Attributed (install_components installer refresh owned cs q).1)
          → Attributed (either_way e q (install_components installer refresh owned cs q)).1
      next (failed e) q k rest = k
      next finished q k rest = rest k
