-- ===== src/Bundle/Examples.antt =====
-- The theorems on records and on the installer at concrete inputs.
use alharistech_platform.Base.{
  String, List, true, false, ◌&&◌, Option, none, [], ◌∷◌, ◌≡◌, refl, arith, string_eq,
}
use alharistech_platform.Base.Blank.{strip}
use alharistech_platform.Value.{Value}
use alharistech_platform.Exception.{Result, ok}
use alharistech_platform.Bundle.Component.{ComponentRef}
use alharistech_platform.Bundle.Records.{
  InstalledBundleRecord, has_key, load_records, save_records, find_record, remove_record,
  still_needed,
}
use alharistech_platform.Bundle.Records.Refines.{
  Change, upserts, removes, changed_records, changed_map, OneEach, changed_records-refines,
}
use alharistech_platform.Bundle.Records.Roundtrip.{IsComponent, IsRecord, load_records-save_records}
use alharistech_platform.Bundle.Resolver.{InstallPlan}
use alharistech_platform.Bundle.Installer.{InstallResult, Project, install_bundle, remove_bundle}
use alharistech_platform.Bundle.Installer.Install.{install_bundle-restores}
use alharistech_platform.Bundle.Installer.Present.{install_bundle-present}
use alharistech_platform.Base.{All}
use alharistech_platform.Bundle.Installer.Remove.{
  stays, remove_bundle-removes, remove_bundle-raises,
}
use alharistech_platform.Bundle.Installer.Undo.{IsPlan, remove_bundle-install_bundle}
use alharistech_platform.Bundle.Demo

abbrev now : String
now = "2026-02-03T04:05:06Z"

lint_valid : IsComponent (Demo.component "steps" "lint")
unfolding strip string_eq
lint_valid = record {
  kind = refl;
  kind_stripped = refl;
  id = (refl, refl);
  version = refl;
  source = tt;
  strategy = tt;
}

unreadable_valid : IsComponent (Demo.component "workflows" "unreadable")
unfolding strip string_eq
unreadable_valid = record {
  kind = refl;
  kind_stripped = refl;
  id = (refl, refl);
  version = refl;
  source = tt;
  strategy = tt;
}

docs_valid : IsComponent (Demo.component "extensions" "docs")
unfolding strip string_eq
docs_valid = record {
  kind = refl;
  kind_stripped = refl;
  id = (refl, refl);
  version = refl;
  source = tt;
  strategy = tt;
}

base_valid : IsRecord Demo.base
unfolding strip string_eq
base_valid = record {
  bundle_id = (refl, refl);
  version = (refl, refl);
  installed_at = refl;
  contributed_components = (lint_valid, (unreadable_valid, tt));
}

load_records-save_records_example :
    load_records Demo.io (save_records Demo.io now (Demo.base ∷ []) none) ≡ ok (Demo.base ∷ [])
load_records-save_records_example =
    load_records-save_records Demo.io Demo.faithful now (Demo.base ∷ []) none (base_valid, tt) refl

loaded : load_records Demo.io Demo.project.file ≡ ok (Demo.base ∷ [])
loaded =
    load_records-save_records Demo.io Demo.faithful "2026-01-01T00:00:00Z" (Demo.base ∷ []) none
      (base_valid, tt) refl

abbrev other : InstalledBundleRecord
other = record Demo.base { bundle_id = "team" }

abbrev changes : List Change
changes = upserts other ∷ removes "base" ∷ []

changed_records-refines_example :
    (find_record (changed_records changes (Demo.base ∷ [])) "team"
      ≡ changed_map changes (find_record (Demo.base ∷ [])) "team")
    × OneEach (changed_records changes (Demo.base ∷ []))
unfolding find_record
changed_records-refines_example = changed_records-refines changes (Demo.base ∷ []) "team" (refl, tt)

-- An installation whose second component raises.
abbrev broken_end : Result InstallResult × Project (Option Value) Demo.World
unfolding install_bundle
broken_end =
    install_bundle Demo.io now Demo.installer (Demo.plan_with "broken") none false Demo.project

install_bundle-restores_example :
    ((Demo.project_of broken_end).file ≡ Demo.project.file)
    × ((d : ComponentRef)
        → has_key (Demo.project_of broken_end).world d ≡ has_key Demo.project.world d)
unfolding install_bundle string_eq
install_bundle-restores_example =
    install_bundle-restores Demo.io now Demo.installer has_key Demo.lawful Demo.can_remove
      (Demo.plan_with "broken") none false Demo.project (Demo.project_of broken_end)
      (Demo.exception_of broken_end) refl

-- A removal of the bundle "base", which it shares nothing with: its second component raises.
abbrev raised_end : Result InstallResult × Project (Option Value) Demo.World
unfolding remove_bundle
raised_end = remove_bundle Demo.io now Demo.installer "base" Demo.project

remove_bundle-raises_example :
    ((Demo.project_of raised_end).file ≡ Demo.project.file)
    × ((d : ComponentRef)
        → (stays "base" (Demo.base ∷ []) Demo.base d
            && has_key (Demo.project_of raised_end).world d)
          ≡ (stays "base" (Demo.base ∷ []) Demo.base d && has_key Demo.project.world d))
unfolding remove_bundle find_record string_eq
remove_bundle-raises_example =
    remove_bundle-raises Demo.io now Demo.installer has_key Demo.lawful "base" Demo.project
      (Demo.base ∷ []) Demo.base (Demo.project_of raised_end) (Demo.exception_of raised_end) loaded
      refl refl

-- An installation of "team" with a component that "base" has too, and its removal.
abbrev plan : InstallPlan
plan = Demo.plan_with "docs"

abbrev installed_end : Result InstallResult × Project (Option Value) Demo.World
unfolding install_bundle
installed_end = install_bundle Demo.io now Demo.installer plan none false Demo.project

abbrev removed_end : Result InstallResult × Project (Option Value) Demo.World
unfolding remove_bundle
removed_end = remove_bundle Demo.io now Demo.installer "team" (Demo.project_of installed_end)

plan_valid : IsPlan now plan
unfolding strip string_eq
plan_valid = record {
  time = refl;
  bundle_id = (refl, refl);
  version = (refl, refl);
  components = (lint_valid, (docs_valid, tt));
}

installs_team :
    install_bundle Demo.io now Demo.installer plan none false Demo.project
    ≡ (ok (Demo.result_of installed_end), Demo.project_of installed_end)
unfolding install_bundle string_eq
installs_team = refl

removes_team :
    remove_bundle Demo.io now Demo.installer "team" (Demo.project_of installed_end)
    ≡ (ok (Demo.result_of removed_end), Demo.project_of removed_end)
unfolding install_bundle remove_bundle string_eq
removes_team = refl

no_team : find_record (Demo.base ∷ []) "team" ≡ none
unfolding find_record string_eq
no_team = refl

tracked :
    (d : ComponentRef)
    → still_needed (Demo.base ∷ []) "team" d ≡ true
    → has_key Demo.project.world d ≡ true
unfolding still_needed string_eq
tracked d h = ground (arith, h)

remove_bundle-install_bundle_example :
    ((d : ComponentRef)
      → has_key (Demo.project_of removed_end).world d ≡ has_key Demo.project.world d)
    × (load_records Demo.io (Demo.project_of removed_end).file ≡ ok (Demo.base ∷ []))
remove_bundle-install_bundle_example =
    remove_bundle-install_bundle Demo.io Demo.faithful now Demo.installer has_key Demo.lawful plan
      plan_valid none false Demo.project (Demo.project_of installed_end) (Demo.base ∷ [])
      (Demo.result_of installed_end) refl loaded (base_valid, tt) no_team installs_team
      (Demo.project_of removed_end) (Demo.result_of removed_end) tracked removes_team

-- The removal of "team" from a project that has its record.
abbrev team : InstalledBundleRecord
team = record {
  bundle_id = "team";
  version = "2.0.0";
  contributed_components = Demo.component "steps" "lint" ∷ Demo.component "extensions" "docs" ∷ [];
  installed_at = now;
}

abbrev two_bundles : Project (Option Value) Demo.World
two_bundles = record {
  file = save_records Demo.io now (Demo.base ∷ team ∷ []) none;
  world = Demo.component "extensions" "docs" ∷ Demo.component "steps" "lint" ∷ [];
}

team_valid : IsRecord team
unfolding strip string_eq
team_valid = record {
  bundle_id = (refl, refl);
  version = (refl, refl);
  installed_at = refl;
  contributed_components = (lint_valid, (docs_valid, tt));
}

abbrev left_end : Result InstallResult × Project (Option Value) Demo.World
unfolding remove_bundle
left_end = remove_bundle Demo.io now Demo.installer "team" two_bundles

remove_bundle-removes_example :
    ((Demo.project_of left_end).file
      ≡ save_records Demo.io now (remove_record (Demo.base ∷ team ∷ []) "team") two_bundles.file)
    × ((d : ComponentRef)
        → has_key (Demo.project_of left_end).world d
          ≡ (stays "team" (Demo.base ∷ team ∷ []) team d && has_key two_bundles.world d))
unfolding remove_bundle find_record string_eq
remove_bundle-removes_example =
    remove_bundle-removes Demo.io now Demo.installer has_key Demo.lawful "team" two_bundles
      (Demo.base ∷ team ∷ []) team (Demo.project_of left_end) (Demo.result_of left_end)
      (load_records-save_records Demo.io Demo.faithful now (Demo.base ∷ team ∷ []) none
        (base_valid, (team_valid, tt)) refl)
      refl refl

install_bundle-present_example :
    All (λ c. has_key (Demo.project_of installed_end).world c ≡ true) plan.components
    × ((d : ComponentRef)
        → (has_key Demo.project.world d && has_key (Demo.project_of installed_end).world d)
          ≡ has_key Demo.project.world d)
install_bundle-present_example =
    install_bundle-present Demo.io now Demo.installer has_key Demo.lawful plan none false
      Demo.project (Demo.project_of installed_end) (Demo.base ∷ []) (Demo.result_of installed_end)
      loaded installs_team
