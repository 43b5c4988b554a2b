-- ===== src/Bundle/Installer/Results.antt =====
-- What an installation and a removal return, and the state of their loops.
use alharistech_platform.Base.{
  String, Bool, true, false, ◌||◌, Option, List, [], ◌∷◌, ◌++◌, string_eq, if◌then◌else◌,
}
use alharistech_platform.Exception.{Exn, Result, ok, err}
use alharistech_platform.Bundle.Component.{ComponentRef}

-- `PrimitiveInstaller`: each operation may raise, and install and remove change the project's
-- components. `refresh` is optional.
pub record PrimitiveInstaller (W : Type 0) : Type 0 where
  pub is_installed : ComponentRef → W → Result Bool
  pub install : ComponentRef → W → Result (Unit {0}) × W
  pub remove : ComponentRef → W → Result (Unit {0}) × W
  pub refresh : Option (ComponentRef → W → Result (Unit {0}) × W)

pub record InstallResult : Type 0 where
  pub bundle_id : String
  pub installed : List ComponentRef
  pub skipped : List ComponentRef
  pub refreshed : List ComponentRef
  pub uninstalled : List ComponentRef

abbrev pub is_nonempty : {A : Type 0} → List A → Bool
is_nonempty [] = false
is_nonempty (x ∷ xs) = true

-- `InstallResult.changed`
unfoldable pub changed : InstallResult → Bool
changed r = is_nonempty r.installed || is_nonempty r.refreshed

abbrev pub no_result : String → InstallResult
no_result bundle_id = record {
  bundle_id = bundle_id;
  installed = [];
  skipped = [];
  refreshed = [];
  uninstalled = [];
}

-- The variables of the loop over the plan's components.
pub record Progress (W : Type 0) : Type 0 where
  pub result : InstallResult
  pub contributed : List ComponentRef
  pub done : List ComponentRef
  pub world : W

-- The project: the file of its records, and its components.
pub record Project (File W : Type 0) : Type 0 where
  pub file : File
  pub world : W

pub data LoopEnd : Type 0 where
  finished : LoopEnd
  failed : Exn → LoopEnd

module _ {W : Type 0} where
  abbrev pub first_progress : String → W → Progress W
  first_progress bundle_id w = record {
    result = no_result bundle_id;
    contributed = [];
    done = [];
    world = w;
  }

  abbrev pub uninstalled_one :
      ComponentRef → Result (Unit {0}) × W → InstallResult → Result InstallResult × W
  uninstalled_one c (err e, w) r = (err e, w)
  uninstalled_one c (ok _, w) r = (ok (record r { uninstalled = r.uninstalled ++ (c ∷ []) }), w)

  abbrev pub after_one :
      Result InstallResult
      → W
      → (InstallResult → Result InstallResult × W)
      → Result InstallResult × W
  after_one (err e) w rest = (err e, w)
  after_one (ok r) w rest = rest r

  abbrev pub either_way : LoopEnd → Progress W → LoopEnd × Progress W → LoopEnd × Progress W
  either_way (failed e) p rest = (failed e, p)
  either_way finished p rest = rest

  abbrev pub attributed : Bool → ComponentRef → Progress W → Progress W
  attributed owned c p = if owned then record p { contributed = p.contributed ++ (c ∷ []) } else p

  abbrev pub skip_component : ComponentRef → Progress W → Progress W
  skip_component c p = record p {
    result = record p.result { skipped = p.result.skipped ++ (c ∷ []) };
  }

  abbrev pub refreshed_one :
      ComponentRef → Result (Unit {0}) × W → Progress W → LoopEnd × Progress W
  refreshed_one c (err e, w) p = (failed e, record p { world = w })
  refreshed_one c (ok _, w) p = (
    finished,
    attributed true c (record p {
      result = record p.result { refreshed = p.result.refreshed ++ (c ∷ []) };
      world = w;
    }),
  )

  abbrev pub installed_one :
      ComponentRef → Result (Unit {0}) × W → Progress W → LoopEnd × Progress W
  installed_one c (err e, w) p = (failed e, record p { world = w })
  installed_one c (ok _, w) p = (
    finished,
    record p {
      result = record p.result { installed = p.result.installed ++ (c ∷ []) };
      contributed = p.contributed ++ (c ∷ []);
      done = p.done ++ (c ∷ []);
      world = w;
    },
  )
