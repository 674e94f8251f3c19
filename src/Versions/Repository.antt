-- ===== src/Versions/Repository.antt =====
-- python/apexquant-service-versioning/src/apexquant-service-versioning: models.py, and the class
-- InMemoryRepository of repository.py. `Metadata` holds the JSON objects. The clock is an argument
-- `now`, and so is what uuid4 returns.
use Prim.Native.String.{◌++◌ as ◌+++◌}
use lord_hermes.Common.{
  ℕ, ◌&&◌, not, List, [], ◌∷◌, ◌++◌, map, Option, none, some, String, ◌==◌, string_eq, Eq, enum_eq,
  get, put, values, keep, is_none, if◌then◌else◌, Outcome, ok, err,
}
use lord_hermes.Common.Text.{Text}
use lord_hermes.Versions.Orders.{lex, nat_order, is_before}
use lord_hermes.Versions.Semver.{SemVerError}

pub data LifecycleStatus : Type 0 where
  draft released deprecated retired : LifecycleStatus

unfoldable pub LifecycleStatus-discrete : Discrete LifecycleStatus
LifecycleStatus-discrete = hlevel

instance abbrev pub lifecycle_eq : Eq LifecycleStatus
lifecycle_eq = enum_eq LifecycleStatus-discrete

-- A dependency on another service, from a minimum version on.
pub record DependencySpec : Type 0 where
  pub service_name : String
  pub min_version : String

pub record ServiceInfo : Type 0 where
  pub service_name : String
  pub plane : Text
  pub description : String
  pub created_at : ℕ
  pub updated_at : ℕ

pub record VersionRecord (Metadata : Type 0) : Type 0 where
  pub version_id : String
  pub service_name : String
  pub version : String
  pub major : ℕ
  pub minor : ℕ
  pub patch : ℕ
  pub prerelease : Option Text
  pub build_metadata : Option Text
  pub git_sha : Option String
  pub image_tag : Option String
  pub api_version : String
  pub min_compatible_version : Option String
  pub status : LifecycleStatus
  pub checksum_sha256 : Option String
  pub metadata : Metadata
  pub created_at : ℕ
  pub released_at : Option ℕ
  pub deprecated_at : Option ℕ
  pub retired_at : Option ℕ
  pub updated_at : ℕ

pub record VersionEvent : Type 0 where
  pub event_id : String
  pub version_id : String
  pub event_type : String
  pub actor : String
  pub reason : String
  pub details : List (String × String)
  pub occurred_at : ℕ

pub record InMemoryRepository (Metadata : Type 0) : Type 0 where
  pub services : List (String × ServiceInfo)
  pub versions : List (String × VersionRecord Metadata)
  pub dependencies : List (String × List DependencySpec)
  pub events : List VersionEvent

pub data VersioningError : Type 0 where
  not_found conflict invalid_transition : VersioningError
  versioning : String → VersioningError
  unreadable_version : SemVerError → VersioningError

-- f"{service_name}:{version}"
abbrev pub version_key : String → String → String
version_key service_name version = service_name +++ ":" +++ version

-- The record that `upsert_service` writes.
abbrev upserted : String → Text → String → ℕ → Option ServiceInfo → ServiceInfo
upserted service_name plane description now none = record {
  service_name = service_name;
  plane = plane;
  description = description;
  created_at = now;
  updated_at = now;
}
upserted service_name plane description now (some existing) = record existing {
  plane = plane;
  description = description;
  updated_at = now;
}

abbrev or_empty : Option (List DependencySpec) → List DependencySpec
or_empty none = []
or_empty (some dependencies) = dependencies

module _ {Metadata : Type 0} where
  unfoldable pub upsert_service :
      String
      → Text
      → String
      → ℕ
      → InMemoryRepository Metadata
      → ServiceInfo × InMemoryRepository Metadata
  upsert_service service_name plane description now repository =
      let info =
        upserted service_name plane description now (get service_name repository.services) in
      (info, record repository { services = put service_name info repository.services })

  abbrev pub get_service : String → InMemoryRepository Metadata → Option ServiceInfo
  get_service service_name repository = get service_name repository.services

  abbrev pub find_version :
      String → String → InMemoryRepository Metadata → Option (VersionRecord Metadata)
  find_version service_name version repository =
      get (version_key service_name version) repository.versions

  abbrev pub get_dependencies : String → InMemoryRepository Metadata → List DependencySpec
  get_dependencies version_id repository = or_empty (get version_id repository.dependencies)

  unfoldable pub set_dependencies :
      String → List DependencySpec → InMemoryRepository Metadata → InMemoryRepository Metadata
  set_dependencies version_id dependencies repository = record repository {
    dependencies = put version_id dependencies repository.dependencies;
  }

  -- The record is new: its version_id comes from uuid4.
  unfoldable pub insert_version :
      VersionRecord Metadata
      → InMemoryRepository Metadata
      → Outcome VersioningError (VersionRecord Metadata × InMemoryRepository Metadata)
  insert_version new repository =
      let key = version_key new.service_name new.version in
      if not (is_none (get key repository.versions))
      then err conflict
      else ok (
        new,
        record repository {
          versions = put key new repository.versions;
          dependencies = put new.version_id [] repository.dependencies;
        },
      )

  abbrev pub update :
      String
      → (VersionRecord Metadata → VersionRecord Metadata)
      → Option (VersionRecord Metadata)
      → InMemoryRepository Metadata
      → Outcome VersioningError (VersionRecord Metadata × InMemoryRepository Metadata)
  update key change none repository = err not_found
  update key change (some old) repository =
      ok (change old, record repository { versions = put key (change old) repository.versions })

  abbrev pub with_release :
      String → String → String → ℕ → VersionRecord Metadata → VersionRecord Metadata
  with_release git_sha image_tag checksum_sha256 now old = record old {
    status = released;
    git_sha = some git_sha;
    image_tag = some image_tag;
    checksum_sha256 = some checksum_sha256;
    released_at = some now;
    updated_at = now;
  }

  unfoldable pub update_version_release :
      String
      → String
      → String
      → String
      → String
      → ℕ
      → InMemoryRepository Metadata
      → Outcome VersioningError (VersionRecord Metadata × InMemoryRepository Metadata)
  update_version_release service_name version git_sha image_tag checksum_sha256 now repository =
      update (version_key service_name version) (with_release git_sha image_tag checksum_sha256 now)
        (find_version service_name version repository) repository

  abbrev pub with_status : LifecycleStatus → ℕ → VersionRecord Metadata → VersionRecord Metadata
  with_status status now old = record old {
    status = status;
    updated_at = now;
    deprecated_at = if status == deprecated then some now else old.deprecated_at;
    retired_at = if status == retired then some now else old.retired_at;
  }

  unfoldable pub update_version_status :
      String
      → String
      → LifecycleStatus
      → ℕ
      → InMemoryRepository Metadata
      → Outcome VersioningError (VersionRecord Metadata × InMemoryRepository Metadata)
  update_version_status service_name version status now repository =
      update (version_key service_name version) (with_status status now)
        (find_version service_name version repository) repository

  unfoldable pub insert_event :
      VersionEvent → InMemoryRepository Metadata → InMemoryRepository Metadata
  insert_event event repository = record repository { events = repository.events ++ event ∷ [] }

  abbrev numbers : VersionRecord Metadata → List ℕ
  numbers v = v.major ∷ v.minor ∷ v.patch ∷ []

  -- versions.sort(key=..., reverse=True), which keeps the order of equal keys.
  unfoldable pub insert_by_numbers :
      VersionRecord Metadata → List (VersionRecord Metadata) → List (VersionRecord Metadata)
  insert_by_numbers v [] = v ∷ []
  insert_by_numbers v (w ∷ rest) =
      let later = insert_by_numbers v rest in
      if is_before (lex nat_order (numbers v) (numbers w)) then w ∷ later else v ∷ w ∷ rest

  unfoldable pub sort_by_numbers : List (VersionRecord Metadata) → List (VersionRecord Metadata)
  sort_by_numbers [] = []
  sort_by_numbers (v ∷ rest) = insert_by_numbers v (sort_by_numbers rest)

  unfoldable pub get_released_versions : String → InMemoryRepository Metadata → List String
  get_released_versions service_name repository =
      map (λ v. v.version)
        (sort_by_numbers (
          keep (λ v. v.service_name == service_name && v.status == released)
            (values repository.versions)))
