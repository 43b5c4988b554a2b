-- ===== src/Bundle/Demo.antt =====
-- A project of two bundles and an installer, for examples: the world is the list of the components
-- that are present.
use alharistech_platform.Base.{
  String, Bool, true, false, not, ◌&&◌, ◌||◌, Option, none, some, List, [], ◌∷◌, select, ◌≡◌, refl,
  sym, ap, ◌∙◌, arith, ◌==◌, string_eq,
}
use alharistech_platform.Value.{Value}
use alharistech_platform.Exception.{Exn, os_error, bundler_error, Result, ok, err}
use alharistech_platform.Bundle.Component.{ComponentRef}
use alharistech_platform.Bundle.Records.{
  InstalledBundleRecord, RecordsIo, same_key, has_key, save_records,
}
use alharistech_platform.Bundle.Records.Laws.{has_key-same}
use alharistech_platform.Bundle.Records.Roundtrip.{IsFaithful}
use alharistech_platform.Bundle.Resolver.{InstallPlan}
use alharistech_platform.Bundle.Installer.{PrimitiveInstaller, InstallResult, Project, no_result}
use alharistech_platform.Bundle.Installer.Lawful.{IsLawful, CanRemove}

abbrev pub World : Type 0
World = List ComponentRef

-- An installation of "broken" raises, and so does a look at "unreadable".
abbrev pub install_in : Bool → ComponentRef → World → Result (Unit {0}) × World
install_in true c w = (err (os_error "broken"), w)
install_in false c w = (ok tt, c ∷ w)

abbrev pub look_at : Bool → Bool → Result Bool
look_at true b = err (os_error "unreadable")
look_at false b = ok b

abbrev pub installer : PrimitiveInstaller (List ComponentRef)
installer = record {
  is_installed = λ c w. look_at (c.id == "unreadable") (has_key w c);
  install = λ c w. install_in (c.id == "broken") c w;
  remove = λ c w. (ok tt, select (λ d. not (same_key c d)) w);
  refresh = none;
}

has_key-select :
    (w : World) (c d : ComponentRef)
    → has_key (select (λ x. not (same_key c x)) w) d ≡ (not (same_key d c) && has_key w d)
has_key-select [] c d = ground arith
has_key-select (x ∷ w) c d = ground (arith, has_key-select w c d)

observed : (b x y : Bool) → look_at b x ≡ ok y → x ≡ y
observed true x y h = ground (arith, h)
observed false x y h = ground (arith, h)

installed :
    (b : Bool) (c d : ComponentRef) (w w' : World)
    → install_in b c w ≡ (ok tt, w')
    → has_key w' d ≡ (same_key d c || has_key w d)
installed true c d w w' h = ground (arith, h)
installed false c d w w' h = ap (λ (p : Result (Unit {0}) × World). has_key p.1 d) (sym h)

unchanged :
    (b : Bool) (c d : ComponentRef) (w w' : World) (e : Exn)
    → install_in b c w ≡ (err e, w')
    → has_key w' d ≡ has_key w d
unchanged true c d w w' e h = ap (λ (p : Result (Unit {0}) × World). has_key p.1 d) (sym h)
unchanged false c d w w' e h = ground (arith, h)

pub lawful : IsLawful installer has_key
lawful = record {
  by_key = has_key-same;
  observes = λ c w b h. observed (c.id == "unreadable") (has_key w c) b h;
  installs = λ c d w w' h. installed (c.id == "broken") c d w w' h;
  install_fails = λ c d w w' e h. unchanged (c.id == "broken") c d w w' e h;
  removes = λ c d w w' h.
      ap (λ (p : Result (Unit {0}) × World). has_key p.1 d) (sym h) ∙ has_key-select w c d;
  remove_fails = λ c d w w' e h. ground (arith, h);
  refreshes = λ op c d w e h. ground (arith, e);
}

pub can_remove : CanRemove installer
can_remove c w = refl

-- The records' file holds a document, or is not there.
abbrev pub io : RecordsIo (Option Value)
io = record {
  ensure_within = λ f. ok tt;
  exists = λ f. elim f [ none ↦ false | some v ↦ true ];
  load_json = λ f. elim f [ none ↦ err (os_error "no file") | some v ↦ ok v ];
  dump_json = λ v f. some v;
}

pub faithful : IsFaithful io
faithful = record { within = λ v f. refl; there = λ v f. refl; reads = λ v f. refl }

abbrev pub component : String → String → ComponentRef
component kind id = record {
  kind = kind;
  id = id;
  version = some "1.0.0";
  source = none;
  priority = none;
  strategy = none;
}

-- The bundle "base", which is installed, and a plan for "team", which shares a component with it.
abbrev pub base : InstalledBundleRecord
base = record {
  bundle_id = "base";
  version = "1.0.0";
  contributed_components = component "steps" "lint" ∷ component "workflows" "unreadable" ∷ [];
  installed_at = "2026-01-01T00:00:00Z";
}

abbrev pub plan_with : String → InstallPlan
plan_with id = record {
  bundle_id = "team";
  version = "2.0.0";
  role = "developer";
  effective_integration = some "claude";
  components = component "steps" "lint" ∷ component "extensions" id ∷ [];
  warnings = [];
}

abbrev pub project : Project (Option Value) (List ComponentRef)
project = record {
  file = save_records io "2026-01-01T00:00:00Z" (base ∷ []) none;
  world = component "steps" "lint" ∷ component "workflows" "unreadable" ∷ [];
}

abbrev pub project_of :
    Result InstallResult × Project (Option Value) (List ComponentRef)
    → Project (Option Value) (List ComponentRef)
project_of (r, s) = s

abbrev pub result_of :
    Result InstallResult × Project (Option Value) (List ComponentRef) → InstallResult
result_of (ok r, s) = r
result_of (err e, s) = no_result ""

abbrev pub exception_of : Result InstallResult × Project (Option Value) (List ComponentRef) → Exn
exception_of (ok r, s) = bundler_error ""
exception_of (err e, s) = e
