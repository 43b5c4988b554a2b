-- ===== src/Bundle/Installer/Lawful.antt =====
-- What the bundler relies on in an installer of components: `has w c` is whether the world `w` has a
-- component of the kind and id of `c`.
use alharistech_platform.Base.{
  Bool, true, false, not, ◌&&◌, ◌||◌, Option, none, some, ◌≡◌, refl, arith,
}
use alharistech_platform.Exception.{Exn, Result, ok, err}
use alharistech_platform.Bundle.Component.{ComponentRef}
use alharistech_platform.Bundle.Records.{same_key}
use alharistech_platform.Bundle.Installer.{PrimitiveInstaller, refresh_by, refresh_component}

-- An operation that raises has changed nothing, and a refresh leaves the same components present.
pub record IsLawful {W : Type 0} (installer : PrimitiveInstaller W) (has : W → ComponentRef → Bool)
    : Type 0 where
  pub by_key : (w : W) (c d : ComponentRef) → same_key d c ≡ true → has w d ≡ has w c
  pub observes :
      (c : ComponentRef) (w : W) (b : Bool) → installer.is_installed c w ≡ ok b → has w c ≡ b
  pub installs :
      (c d : ComponentRef) (w w' : W)
      → installer.install c w ≡ (ok tt, w')
      → has w' d ≡ (same_key d c || has w d)
  pub install_fails :
      (c d : ComponentRef) (w w' : W) (e : Exn)
      → installer.install c w ≡ (err e, w')
      → has w' d ≡ has w d
  pub removes :
      (c d : ComponentRef) (w w' : W)
      → installer.remove c w ≡ (ok tt, w')
      → has w' d ≡ (not (same_key d c) && has w d)
  pub remove_fails :
      (c d : ComponentRef) (w w' : W) (e : Exn)
      → installer.remove c w ≡ (err e, w')
      → has w' d ≡ has w d
  pub refreshes :
      (op : ComponentRef → W → Result (Unit {0}) × W) (c d : ComponentRef) (w : W)
      → installer.refresh ≡ some op
      → has w c ≡ true
      → has (op c w).1 d ≡ has w d

-- `remove` does not raise.
abbrev pub CanRemove : {W : Type 0} → PrimitiveInstaller W → Type 0
CanRemove {W} installer = (c : ComponentRef) (w : W) → (installer.remove c w).0 ≡ ok tt

module _ {W : Type 0} (installer : PrimitiveInstaller W) (has : W → ComponentRef → Bool)
    (lawful : IsLawful installer has) where
  -- An installation of a component that is there changes nothing.
  has-install :
      (c d : ComponentRef) (w : W) (o : Result (Unit {0})) (w' : W)
      → installer.install c w ≡ (o, w')
      → has w c ≡ true
      → has w' d ≡ has w d
  has-install c d w (ok tt) w' e h = present (same_key d c) refl
    where
      present : (b : Bool) → same_key d c ≡ b → has w' d ≡ has w d
      present true k = ground (arith, lawful.installs c d w w' e, lawful.by_key w c d k)
      present false k = ground (arith, lawful.installs c d w w' e)
  has-install c d w (err x) w' e h = lawful.install_fails c d w w' x e

  pub has-refresh_component :
      (c d : ComponentRef) (w : W)
      → has w c ≡ true
      → has (refresh_component installer c w).1 d ≡ has w d
  unfolding refresh_component
  has-refresh_component c d w h = by_hook installer.refresh refl
    where
      by_hook :
          (o : Option (ComponentRef → W → Result (Unit {0}) × W))
          → installer.refresh ≡ o
          → has (refresh_by installer o c w).1 d ≡ has w d
      by_hook none e = has-install c d w (installer.install c w).0 (installer.install c w).1 refl h
      by_hook (some op) e = lawful.refreshes op c d w e h
