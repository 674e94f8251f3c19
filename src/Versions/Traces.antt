-- ===== src/Versions/Traces.antt =====
-- python/apexquant-service-versioning/src/apexquant-service-versioning/service.py
-- Sequences of requests to the versioning service.
use lord_hermes.Common.{ℕ, ◌≤◌, List, [], ◌∷◌, Option, none, some, String, arith}
use lord_hermes.Versions.Repository.{
  LifecycleStatus, draft, released, deprecated, retired, InMemoryRepository,
}
use lord_hermes.Versions.Service.{
  Fresh, VersionCreate, create_version, release_version, deprecate_version, retire_version,
}
use lord_hermes.Versions.Lifecycle.{
  Moves, stays, creates, releases, deprecates, retires, status_at, create_version-Moves,
  release_version-Moves, deprecate_version-Moves, retire_version-Moves,
}

pub data Request (Metadata : Type 0) : Type 0 where
  create : Fresh → String → VersionCreate Metadata → Request Metadata
  release : Fresh → String → String → String → String → String → String → String → Request Metadata
  deprecate : Fresh → String → String → String → String → Request Metadata
  retire : Fresh → String → String → String → String → Request Metadata

module _ {Metadata : Type 0} where
  unfoldable pub handle :
      Request Metadata → InMemoryRepository Metadata → InMemoryRepository Metadata
  handle (create fresh service_name payload) repository =
      (create_version fresh service_name payload repository).1
  handle (release fresh service_name version git_sha image_tag checksum actor reason) repository =
      (release_version fresh service_name version git_sha image_tag checksum actor reason
        repository).1
  handle (deprecate fresh service_name version actor reason) repository =
      (deprecate_version fresh service_name version actor reason repository).1
  handle (retire fresh service_name version actor reason) repository =
      (retire_version fresh service_name version actor reason repository).1

  unfoldable pub handle_all :
      List (Request Metadata) → InMemoryRepository Metadata → InMemoryRepository Metadata
  handle_all [] repository = repository
  handle_all (request ∷ rest) repository = handle_all rest (handle request repository)

  -- One request, accepted or refused, leaves the status of each version as it is, drafts a version that
  -- was not there, or takes it one step along DRAFT, RELEASED, DEPRECATED, RETIRED.
  pub handle-Moves :
      (request : Request Metadata) (key : String) (repository : InMemoryRepository Metadata)
      → Moves (status_at key repository) (status_at key (handle request repository))
  unfolding handle
  handle-Moves (create f s p) key repository = create_version-Moves key f s p repository
  handle-Moves (release f s v g i c a r) key repository =
      release_version-Moves key f s v g i c a r repository
  handle-Moves (deprecate f s v a r) key repository =
      deprecate_version-Moves key f s v a r repository
  handle-Moves (retire f s v a r) key repository = retire_version-Moves key f s v a r repository

-- How far a version has come.
abbrev pub stage_of : Option LifecycleStatus → ℕ
stage_of none = 0
stage_of (some draft) = 1
stage_of (some released) = 2
stage_of (some deprecated) = 3
stage_of (some retired) = 4

Moves-stage : {s t : Option LifecycleStatus} → Moves s t → stage_of s ≤ stage_of t
Moves-stage (stays s) = omega arith
Moves-stage creates = omega arith
Moves-stage releases = omega arith
Moves-stage deprecates = omega arith
Moves-stage retires = omega arith

module _ {Metadata : Type 0} where
  -- Whatever requests come, in whatever order, no version goes back, and none disappears.
  pub handle_all-forward :
      (requests : List (Request Metadata)) (key : String) (repository : InMemoryRepository Metadata)
      → stage_of (status_at key repository)
        ≤ stage_of (status_at key (handle_all requests repository))
  unfolding handle_all
  handle_all-forward [] key repository = omega arith
  handle_all-forward (request ∷ rest) key repository = omega (
    arith,
    Moves-stage (handle-Moves request key repository),
    handle_all-forward rest key (handle request repository),
  )
