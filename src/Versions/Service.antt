-- ===== src/Versions/Service.antt =====
-- python/apexquant-service-versioning/src/apexquant-service-versioning/service.py over the in-memory
-- repository. An operation returns its result and the repository that it leaves.
use lord_hermes.Common.{
  ℕ, not, List, [], ◌∷◌, Option, none, some, String, ◌==◌, string_eq, contains, is_none, Outcome,
  ok, err, ◌>>=◌, ◌>>◌, guard,
}
use lord_hermes.Common.Text.{Text, codes, upper}
use lord_hermes.Versions.Semver.{SemVer, SemVerError, parse_version, is_stable}
use lord_hermes.Versions.Repository.{
  LifecycleStatus, draft, released, deprecated, retired, lifecycle_eq, DependencySpec, ServiceInfo,
  VersionRecord, InMemoryRepository, VersioningError, not_found, conflict, invalid_transition,
  versioning, unreadable_version, upsert_service, get_service, find_version, get_dependencies,
  set_dependencies, insert_version, update_version_release, update_version_status, insert_event,
}

-- The clock and what uuid4 returns, for the version and for the event.
pub record Fresh : Type 0 where
  pub now : ℕ
  pub version_id : String
  pub event_id : String

pub record ServiceVersion (Metadata : Type 0) : Type 0 where
  pub stored : VersionRecord Metadata
  pub dependencies : List DependencySpec

pub record VersionCreate (Metadata : Type 0) : Type 0 where
  pub version : String
  pub git_sha : Option String
  pub image_tag : Option String
  pub api_version : String
  pub min_compatible_version : Option String
  pub dependencies : List DependencySpec
  pub metadata : Metadata

-- parse_version, its error passed on as it is, or inside a VersioningError.
abbrev pub unwrapped : {A : Type 0} → Outcome SemVerError A → Outcome VersioningError A
unwrapped (ok a) = ok a
unwrapped (err e) = err (unreadable_version e)

abbrev wrapped : {A : Type 0} → String → Outcome SemVerError A → Outcome VersioningError A
wrapped message (ok a) = ok a
wrapped message (err e) = err (versioning message)

abbrev pub some_or : {A : Type 0} → VersioningError → Option A → Outcome VersioningError A
some_or e none = err e
some_or e (some a) = ok a

abbrev readable : Option String → Outcome VersioningError (Unit {0})
readable none = ok tt
readable (some version) =
    wrapped "invalid min_compatible_version" (parse_version (codes version)) >>= λ _. ok tt

-- Go on with the value, or raise and leave the repository as it is.
abbrev pub attempt :
    {A B R : Type 0}
    → Outcome VersioningError A
    → R
    → (A → Outcome VersioningError B × R)
    → Outcome VersioningError B × R
attempt (err e) repository next = (err e, repository)
attempt (ok a) repository next = next a

module _ {Metadata : Type 0} where
  unfoldable pub register_service :
      String
      → Text
      → String
      → ℕ
      → InMemoryRepository Metadata
      → ServiceInfo × InMemoryRepository Metadata
  register_service service_name plane description now repository =
      upsert_service service_name (upper plane) description now repository

  unfoldable pub get_version :
      String
      → String
      → InMemoryRepository Metadata
      → Outcome VersioningError (ServiceVersion Metadata)
  get_version service_name version repository = do
    stored ← some_or not_found (find_version service_name version repository)
    ok (record { stored = stored; dependencies = get_dependencies stored.version_id repository })

  -- The loop of `create_version` over the dependencies that are left.
  unfoldable pub check_dependencies :
      String
      → List String
      → List DependencySpec
      → InMemoryRepository Metadata
      → Outcome VersioningError (List DependencySpec)
  check_dependencies service_name seen [] repository = ok []
  check_dependencies service_name seen (d ∷ rest) repository = do
    guard (not (d.service_name == service_name)) (versioning "a service cannot depend on itself")
    guard (not (contains d.service_name seen)) (versioning "duplicate dependency")
    found ← some_or not_found (get_service d.service_name repository)
    minimum ← wrapped "invalid dependency min_version" (parse_version (codes d.min_version))
    others ← check_dependencies service_name (d.service_name ∷ seen) rest repository
    ok (d ∷ others)

  -- What `create_version` checks before it writes.
  unfoldable pub creatable :
      String
      → VersionCreate Metadata
      → InMemoryRepository Metadata
      → Outcome VersioningError (SemVer × List DependencySpec)
  creatable service_name payload repository = do
    found ← some_or not_found (get_service service_name repository)
    semver ← wrapped "invalid semantic version" (parse_version (codes payload.version))
    readable payload.min_compatible_version
    guard (is_none (find_version service_name payload.version repository)) conflict
    dependencies ← check_dependencies service_name [] payload.dependencies repository
    ok (semver, dependencies)

  abbrev pub drafted : Fresh → String → VersionCreate Metadata → SemVer → VersionRecord Metadata
  drafted fresh service_name payload semver = record {
    version_id = fresh.version_id;
    service_name = service_name;
    version = payload.version;
    major = semver.major;
    minor = semver.minor;
    patch = semver.patch;
    prerelease = semver.prerelease;
    build_metadata = semver.build;
    git_sha = payload.git_sha;
    image_tag = payload.image_tag;
    api_version = payload.api_version;
    min_compatible_version = payload.min_compatible_version;
    status = draft;
    checksum_sha256 = none;
    metadata = payload.metadata;
    created_at = fresh.now;
    released_at = none;
    deprecated_at = none;
    retired_at = none;
    updated_at = fresh.now;
  }

  -- insert_event, and the return of each operation.
  abbrev pub finish :
      Fresh
      → String
      → String
      → String
      → String
      → String
      → List (String × String)
      → VersionRecord Metadata × InMemoryRepository Metadata
      → Outcome VersioningError (ServiceVersion Metadata) × InMemoryRepository Metadata
  finish fresh service_name version event_type actor reason details (stored, repository) =
      let after =
        insert_event
          (record {
            event_id = fresh.event_id;
            version_id = stored.version_id;
            event_type = event_type;
            actor = actor;
            reason = reason;
            details = details;
            occurred_at = fresh.now;
          })
          repository in
      (get_version service_name version after, after)

  unfoldable pub create_version :
      Fresh
      → String
      → VersionCreate Metadata
      → InMemoryRepository Metadata
      → Outcome VersioningError (ServiceVersion Metadata) × InMemoryRepository Metadata
  create_version fresh service_name payload repository =
      attempt (creatable service_name payload repository) repository (λ checked.
        attempt (insert_version (drafted fresh service_name payload checked.0) repository)
          repository
          (λ inserted.
            finish fresh service_name payload.version "VERSION_CREATED" "system"
              "version draft created" (("version", payload.version) ∷ [])
              (inserted.0, set_dependencies inserted.0.version_id checked.1 inserted.1)))

  unfoldable pub releasable :
      String → String → InMemoryRepository Metadata → Outcome VersioningError (Unit {0})
  releasable service_name version repository = do
    current ← get_version service_name version repository
    guard (current.stored.status == draft) invalid_transition
    semver ← unwrapped (parse_version (codes version))
    guard (is_stable semver) (versioning "only stable versions may be released")

  unfoldable pub release_version :
      Fresh
      → String
      → String
      → String
      → String
      → String
      → String
      → String
      → InMemoryRepository Metadata
      → Outcome VersioningError (ServiceVersion Metadata) × InMemoryRepository Metadata
  release_version fresh service_name version git_sha image_tag checksum actor reason repository =
      attempt (releasable service_name version repository) repository (λ _.
        attempt
          (update_version_release service_name version git_sha image_tag checksum fresh.now
            repository)
          repository
          (λ updated.
            finish fresh service_name version "VERSION_RELEASED" actor reason
              (("git_sha", git_sha) ∷ ("image_tag", image_tag) ∷ ("checksum_sha256", checksum) ∷ [])
              updated))

  -- The check that opens `deprecate_version` and `retire_version`.
  unfoldable pub has_status :
      LifecycleStatus
      → String
      → String
      → InMemoryRepository Metadata
      → Outcome VersioningError (Unit {0})
  has_status status service_name version repository = do
    current ← get_version service_name version repository
    guard (current.stored.status == status) invalid_transition

  abbrev pub move :
      LifecycleStatus
      → LifecycleStatus
      → String
      → Fresh
      → String
      → String
      → String
      → String
      → InMemoryRepository Metadata
      → Outcome VersioningError (ServiceVersion Metadata) × InMemoryRepository Metadata
  move old new event_type fresh service_name version actor reason repository =
      attempt (has_status old service_name version repository) repository (λ _.
        attempt (update_version_status service_name version new fresh.now repository) repository
          (λ updated. finish fresh service_name version event_type actor reason [] updated))

  unfoldable pub deprecate_version :
      Fresh
      → String
      → String
      → String
      → String
      → InMemoryRepository Metadata
      → Outcome VersioningError (ServiceVersion Metadata) × InMemoryRepository Metadata
  deprecate_version = move released deprecated "VERSION_DEPRECATED"

  unfoldable pub retire_version :
      Fresh
      → String
      → String
      → String
      → String
      → InMemoryRepository Metadata
      → Outcome VersioningError (ServiceVersion Metadata) × InMemoryRepository Metadata
  retire_version = move deprecated retired "VERSION_RETIRED"
