-- ===== src/Versions/Lifecycle.antt =====
-- python/apexquant-service-versioning/src/apexquant-service-versioning/service.py
-- The status of a version from one operation to the next.
use lord_hermes.Common.{
  ◌≡◌, refl, sym, ap, ◌∙◌, subst, inl, inr, Bool, true, false, List, [], Option, none, some, String,
  ◌==◌, string_eq, get, put, get-put, if◌then◌else◌, Outcome, ok, err, ◌>>=◌, ◌>>◌, guard,
  Outcome-cases, Option-cases,
}
use lord_hermes.Common.Text.{codes}
use lord_hermes.Versions.Semver.{parse_version, is_stable}
use lord_hermes.Versions.Repository.{
  LifecycleStatus, draft, released, deprecated, retired, lifecycle_eq, VersionRecord,
  InMemoryRepository, VersioningError, invalid_transition, versioning, version_key, find_version,
  insert_version, update, with_release, with_status, update_version_release, update_version_status,
  insert_event, set_dependencies,
}
use lord_hermes.Versions.Service.{
  Fresh, VersionCreate, attempt, creatable, drafted, finish, create_version, releasable,
  release_version, has_status, deprecate_version, retire_version, get_version, unwrapped,
}

-- A step of one version's life: `none` is a version that is not there.
pub data Moves : Option LifecycleStatus → Option LifecycleStatus → Type 0 where
  stays : (s : Option LifecycleStatus) → Moves s s
  creates : Moves none (some draft)
  releases : Moves (some draft) (some released)
  deprecates : Moves (some released) (some deprecated)
  retires : Moves (some deprecated) (some retired)

guard_ok : (b : Bool) (e : VersioningError) → guard b e ≡ ok tt → b ≡ true
guard_ok true e h = refl
guard_ok false e h = absurd (cc h)

guard_first :
    (b : Bool) (e : VersioningError) (next : Outcome VersioningError (Unit {0}))
    → guard b e >> next ≡ ok tt
    → (b ≡ true) × (next ≡ ok tt)
guard_first true e next h = (refl, h)
guard_first false e next h = absurd (cc h)

module _ {Metadata : Type 0} where
  abbrev pub status_of : Option (VersionRecord Metadata) → Option LifecycleStatus
  status_of none = none
  status_of (some v) = some v.status

  abbrev pub status_at : String → InMemoryRepository Metadata → Option LifecycleStatus
  status_at key repository = status_of (get key repository.versions)

  put-Moves :
      (key k : String) (before : Option (VersionRecord Metadata)) (new : VersionRecord Metadata)
      (versions : List (String × VersionRecord Metadata))
      → get key versions ≡ before
      → Moves (status_of before) (some new.status)
      → Moves (status_of (get k versions)) (status_of (get k (put key new versions)))
  put-Moves key k before new versions found step =
      subst (λ o. Moves (status_of (get k versions)) (status_of o))
        (sym (get-put key k new versions)) (by_key (key == k) refl)
    where
      by_key :
          (b : Bool)
          → (key == k) ≡ b
          → Moves (status_of (get k versions)) (status_of (if b then some new else get k versions))
      by_key true e =
          subst (λ o. Moves (status_of o) (some new.status))
            (sym found ∙ ap (λ j. get j versions) ((string_eq.beq_iff key k).0 e)) step
      by_key false e = stays _

  -- An operation that updates the record under a key, once a check has passed.
  update-Moves :
      (k key : String) (checked : Outcome VersioningError (Unit {0}))
      (change : VersionRecord Metadata → VersionRecord Metadata) (fresh : Fresh)
      (service_name version event_type actor reason : String) (details : List (String × String))
      (repository : InMemoryRepository Metadata)
      → ((old : VersionRecord Metadata)
          → checked ≡ ok tt
          → get key repository.versions ≡ some old
          → Moves (some old.status) (some (change old).status))
      → Moves (status_at k repository) (
          status_at k
            (attempt checked repository (λ _.
              attempt
                (update key change (get key repository.versions) repository)
                repository
                (λ updated.
                  finish fresh service_name version event_type actor reason details updated))).1)
  unfolding insert_event
  update-Moves k key (err e) change fresh s v t a r d repository step = stays _
  update-Moves k key (ok u) change fresh s v t a r d repository step =
      by_found (get key repository.versions) refl
    where
      by_found :
          (found : Option (VersionRecord Metadata))
          → get key repository.versions ≡ found
          → Moves (status_at k repository) (
              status_at k
                (attempt
                  (update key change found repository)
                  repository
                  (λ updated. finish fresh s v t a r d updated)).1)
      by_found none e = stays _
      by_found (some old) e =
          put-Moves key k (some old) (change old) repository.versions e (step old refl e)

  has_status-status :
      (status : LifecycleStatus) (service_name version : String)
      (repository : InMemoryRepository Metadata) (old : VersionRecord Metadata)
      → find_version service_name version repository ≡ some old
      → has_status status service_name version repository ≡ ok tt
      → old.status ≡ status
  unfolding has_status get_version
  has_status-status status service_name version repository old found h =
      (lifecycle_eq.beq_iff old.status status).0
        (guard_ok (old.status == status) invalid_transition (sym (rw found refl) ∙ h))

  releasable-status :
      (service_name version : String) (repository : InMemoryRepository Metadata)
      (old : VersionRecord Metadata)
      → find_version service_name version repository ≡ some old
      → releasable service_name version repository ≡ ok tt
      → old.status ≡ draft
  unfolding releasable get_version
  releasable-status service_name version repository old found h =
      (lifecycle_eq.beq_iff old.status draft).0
        (guard_first (old.status == draft) invalid_transition
          (unwrapped (parse_version (codes version)) >>= λ semver.
            guard (is_stable semver) (versioning "only stable versions may be released"))
          (sym (rw found refl) ∙ h)).0

  pub release_version-Moves :
      (k : String) (fresh : Fresh)
      (service_name version git_sha image_tag checksum actor reason : String)
      (repository : InMemoryRepository Metadata)
      → Moves (status_at k repository) (
          status_at k
            (release_version fresh service_name version git_sha image_tag checksum actor reason
              repository).1)
  unfolding release_version update_version_release
  release_version-Moves k fresh s v g i c a r repository =
      update-Moves k (version_key s v) (releasable s v repository) (with_release g i c fresh.now)
        fresh s v "VERSION_RELEASED" a r _ repository
        (λ old h found.
          subst (λ q. Moves (some q) (some released))
            (sym (releasable-status s v repository old found h)) releases)

  pub deprecate_version-Moves :
      (k : String) (fresh : Fresh) (service_name version actor reason : String)
      (repository : InMemoryRepository Metadata)
      → Moves
          (status_at k repository)
          (status_at k (deprecate_version fresh service_name version actor reason repository).1)
  unfolding deprecate_version update_version_status
  deprecate_version-Moves k fresh s v a r repository =
      update-Moves k (version_key s v) (has_status released s v repository)
        (with_status deprecated fresh.now) fresh s v "VERSION_DEPRECATED" a r [] repository
        (λ old h found.
          subst (λ q. Moves (some q) (some deprecated))
            (sym (has_status-status released s v repository old found h)) deprecates)

  pub retire_version-Moves :
      (k : String) (fresh : Fresh) (service_name version actor reason : String)
      (repository : InMemoryRepository Metadata)
      → Moves
          (status_at k repository)
          (status_at k (retire_version fresh service_name version actor reason repository).1)
  unfolding retire_version update_version_status
  retire_version-Moves k fresh s v a r repository =
      update-Moves k (version_key s v) (has_status deprecated s v repository)
        (with_status retired fresh.now) fresh s v "VERSION_RETIRED" a r [] repository
        (λ old h found.
          subst (λ q. Moves (some q) (some retired))
            (sym (has_status-status deprecated s v repository old found h)) retires)

  pub create_version-Moves :
      (k : String) (fresh : Fresh) (service_name : String) (payload : VersionCreate Metadata)
      (repository : InMemoryRepository Metadata)
      → Moves
          (status_at k repository)
          (status_at k (create_version fresh service_name payload repository).1)
  unfolding create_version insert_version insert_event set_dependencies
  create_version-Moves k fresh s payload repository =
      elim (Outcome-cases (creatable s payload repository)) [
        | inr (e, h) ↦ rw h (stays _)
        | inl (checked, h) ↦
            rw h (elim (Option-cases (get (version_key s payload.version) repository.versions)) [
              | inr (old, f) ↦ rw f (stays _)
              | inl f ↦ rw f (
                  put-Moves (version_key s payload.version) k none
                    (drafted fresh s payload checked.0) repository.versions f creates)
            ])
      ]
