-- ===== src/Versions/Listing.antt =====
-- python/apexquant-service-versioning/src/apexquant-service-versioning/service.py and repository.py
-- The listings, and check_compatibility.
use lord_hermes.Common.{
  ◌&&◌, Bool, true, false, List, [], ◌∷◌, map, Option, none, some, String, ◌==◌, string_eq, values,
  keep, sort_by, leb, is_none, not, Outcome, ok, ◌>>=◌, ◌>>◌, guard,
}
use lord_hermes.Common.Text.{Text, codes, text_leb}
use lord_hermes.Versions.Semver.{highest_compatible}
use lord_hermes.Versions.Repository.{
  released, lifecycle_eq, DependencySpec, ServiceInfo, VersionRecord, InMemoryRepository,
  VersioningError, not_found, invalid_transition, get_service, get_released_versions,
}
use lord_hermes.Versions.Service.{ServiceVersion, get_version, unwrapped, some_or}

-- A line of a compatibility report. The reason is a text for each value of `compatible`.
pub record DependencyReport : Type 0 where
  pub service_name : String
  pub min_version : String
  pub resolved_version : Option Text
  pub compatible : Bool
  pub reason : String

pub record CompatibilityReport : Type 0 where
  pub service_name : String
  pub version : String
  pub ok : Bool
  pub dependencies : List DependencyReport

abbrev report_of : DependencySpec → Option Text → DependencyReport
report_of dependency none = record {
  service_name = dependency.service_name;
  min_version = dependency.min_version;
  resolved_version = none;
  compatible = false;
  reason = "no released compatible dependency version found";
}
report_of dependency (some resolved) = record {
  service_name = dependency.service_name;
  min_version = dependency.min_version;
  resolved_version = some resolved;
  compatible = true;
  reason = "compatible released version found";
}

module _ {Metadata : Type 0} where
  unfoldable pub list_services : InMemoryRepository Metadata → List ServiceInfo
  list_services repository =
      sort_by (λ a b. text_leb (codes a.service_name) (codes b.service_name))
        (values repository.services)

  -- The repository's listing: the records of a service, by the time of creation.
  unfoldable pub list_records : String → InMemoryRepository Metadata → List (VersionRecord Metadata)
  list_records service_name repository =
      sort_by (λ a b. leb a.created_at b.created_at)
        (keep (λ v. v.service_name == service_name) (values repository.versions))

  unfoldable pub get_versions :
      String
      → List (VersionRecord Metadata)
      → InMemoryRepository Metadata
      → Outcome VersioningError (List (ServiceVersion Metadata))
  get_versions service_name [] repository = ok []
  get_versions service_name (stored ∷ rest) repository = do
    version ← get_version service_name stored.version repository
    others ← get_versions service_name rest repository
    ok (version ∷ others)

  unfoldable pub list_versions :
      String
      → InMemoryRepository Metadata
      → Outcome VersioningError (List (ServiceVersion Metadata))
  list_versions service_name repository = do
    found ← some_or not_found (get_service service_name repository)
    get_versions service_name (list_records service_name repository) repository

  -- The versions that a dependency may resolve to.
  abbrev pub candidates : DependencySpec → InMemoryRepository Metadata → List Text
  candidates dependency repository =
      map codes (get_released_versions dependency.service_name repository)

  -- The loop of `check_compatibility`: `ok`, and the reports.
  unfoldable pub resolve_dependencies :
      List DependencySpec
      → InMemoryRepository Metadata
      → Outcome VersioningError (Bool × List DependencyReport)
  resolve_dependencies [] repository = ok (true, [])
  resolve_dependencies (dependency ∷ rest) repository = do
    resolved ←
        unwrapped
          (highest_compatible (candidates dependency repository) (codes dependency.min_version))
    others ← resolve_dependencies rest repository
    ok (not (is_none resolved) && others.0, report_of dependency resolved ∷ others.1)

  unfoldable pub check_compatibility :
      String → String → InMemoryRepository Metadata → Outcome VersioningError CompatibilityReport
  check_compatibility service_name version repository = do
    current ← get_version service_name version repository
    guard (current.stored.status == released) invalid_transition
    resolved ← resolve_dependencies current.dependencies repository
    ok (record {
      service_name = service_name;
      version = version;
      ok = resolved.0;
      dependencies = resolved.1;
    })
