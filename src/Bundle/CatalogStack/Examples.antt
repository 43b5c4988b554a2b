-- ===== src/Bundle/CatalogStack/Examples.antt =====
-- Tests of the catalog stack, and an instance of its theorem.
use alharistech_platform.Base.{
  String, Bool, true, false, Option, none, some, List, [], ◌∷◌, ◌==◌, string_eq, if◌then◌else◌, ◌≡◌,
  refl,
}
use alharistech_platform.Value.{ℤ, Value, int, str, list, dict, nil, cons, end, field}
use alharistech_platform.Exception.{bundler_error, Result, ok, err}
use alharistech_platform.Bundle.Catalog.{
  CatalogSource, CatalogEntry, install_allowed, discovery_only, project, user, built_in,
}
use alharistech_platform.Bundle.CatalogStack.{
  ResolvedBundle, load_source_stack, sort, resolve, community_source, default_source,
}
use alharistech_platform.Bundle.CatalogStack.Precedence.{IsFirst, resolve-IsFirst}

abbrev team_source : CatalogSource
team_source = record {
  id = "team";
  url = "https://team";
  priority = ℤ.pos 0;
  install_policy = install_allowed;
  scope = project;
}

abbrev kit : String → Value
kit name = dict (field "id" (str "kit") (field "name" (str name) end))

abbrev catalog_of : String → Value
catalog_of name = dict (field "bundles" (dict (field "kit" (kit name) end)) end)

abbrev offline : CatalogSource → Result Value
offline source =
    if source.id == "community" then err (bundler_error "offline") else ok (catalog_of source.id)

abbrev resolved : Result ResolvedBundle
resolved = (resolve offline (sort (default_source ∷ team_source ∷ [])) "kit" []).0

abbrev answer : ResolvedBundle
answer = record {
  entry = record {
    id = "kit";
    name = "team";
    version = "";
    role = "";
    description = "";
    author = "";
    license = "";
    download_url = "";
    requires_speckit_version = "";
    provides = end;
    repository = none;
    tags = [];
    verified = false;
    source_id = some "team";
    source_policy = some install_allowed;
  };
  source = team_source;
}

resolved_at_team : resolved ≡ ok answer
unfolding resolve sort alharistech_platform.Base.Dict.get string_eq
    alharistech_platform.Base.Dict.put
resolved_at_team = refl

-- A source before the answer that cannot be read ends the search.
unread : (resolve offline (sort (community_source ∷ [])) "kit" []).0 ≡ err (bundler_error "offline")
unfolding resolve sort alharistech_platform.Base.Dict.get string_eq
unread = refl

-- The project's configuration is put over the built-in sources.
stacked :
    load_source_stack none (ok tt) (
      some (
        ok (
          dict (
            field "catalogs"
              (list (
                cons
                  (dict (
                    field "id" (str "community") (
                      field "url" (str "https://c") (
                        field "priority"
                          (int (ℤ.pos 0))
                          (field "install_policy" (str "discovery-only") end)))))
                  nil))
              end))))
    ≡ ok (
        (record {
          id = "community";
          url = "https://c";
          priority = ℤ.pos 0;
          install_policy = discovery_only;
          scope = project;
        })
        ∷ default_source
        ∷ [])
unfolding load_source_stack string_eq alharistech_platform.Bundle.Catalog.source_from_dict
    alharistech_platform.Base.Dict.put
stacked = refl

resolve-IsFirst_example : IsFirst offline (default_source ∷ team_source ∷ []) "kit" [] answer
unfolding string_eq
resolve-IsFirst_example =
    resolve-IsFirst offline (default_source ∷ team_source ∷ []) "kit" [] answer
      ((refl, tt), (tt, tt)) resolved_at_team
