-- ===== src/Backups/Repository.antt =====
-- python/apexquant-backup-recovery/src/apexquant-backup-recovery/repository.py
-- InMemoryBackupRepository: four dicts by uuid. The objects in them are shared with the caller; an
-- operation of the service writes an object back before it returns, and so do the functions here.
-- What uuid4 returns is an argument, and so is the clock.
use lord_hermes.Common.{
  ℕ, List, [], ◌∷◌, Option, none, some, ◌==◌, get, put, values, keep, take, leb, sort_by,
  if◌then◌else◌, Outcome, ok, err,
}
use lord_hermes.Common.Text.{Text, text_eq, text_leb, codes}
use lord_hermes.Backups.Models.{
  BackupPolicy, BackupRun, BackupArtifact, RestoreRun, ArtifactStatus, BackupError,
  repository_error,
}

pub record BackupRepository : Type 0 where
  pub policies : List (Text × BackupPolicy)
  pub runs : List (Text × BackupRun)
  pub artifacts : List (Text × BackupArtifact)
  pub restores : List (Text × RestoreRun)

unfoldable pub new_repository : BackupRepository
new_repository = record { policies = []; runs = []; artifacts = []; restores = [] }

abbrev pub or_else {ℓ} : {A : Type ℓ} → Option A → A → A
or_else none a = a
or_else (some b) a = b

-- The policy as it is stored, under its id.
unfoldable pub create_policy :
    Text → ℕ → BackupPolicy → BackupRepository → BackupPolicy × BackupRepository
create_policy fresh now policy repository =
    let policy_id = or_else policy.policy_id fresh in
    let stored = record policy {
      policy_id = some policy_id;
      created_at = some (or_else policy.created_at now);
      updated_at = some now;
    } in
    (stored, record repository { policies = put policy_id stored repository.policies })

abbrev pub get_policy : Text → BackupRepository → Option BackupPolicy
get_policy policy_id repository = get policy_id repository.policies

abbrev first_named : Text → List BackupPolicy → Option BackupPolicy
first_named name [] = none
first_named name (policy ∷ rest) =
    if policy.name == name then some policy else first_named name rest

unfoldable pub get_policy_by_name : Text → BackupRepository → Option BackupPolicy
get_policy_by_name name repository = first_named name (values repository.policies)

unfoldable pub list_policies : BackupRepository → List BackupPolicy
list_policies repository = sort_by (λ a b. text_leb a.name b.name) (values repository.policies)

abbrev scheduled :
    Text → ℕ → ℕ → Option BackupPolicy → BackupRepository → Outcome BackupError BackupRepository
scheduled policy_id next_run_at now none repository =
    err (repository_error (codes "policy not found"))
scheduled policy_id next_run_at now (some policy) repository = ok (record repository {
  policies =
      put policy_id (record policy { next_run_at = some next_run_at; updated_at = some now })
        repository.policies;
})

unfoldable pub update_policy_next_run :
    Text → ℕ → ℕ → BackupRepository → Outcome BackupError BackupRepository
update_policy_next_run policy_id next_run_at now repository =
    scheduled policy_id next_run_at now (get policy_id repository.policies) repository

unfoldable pub create_run : Text → BackupRun → BackupRepository → BackupRun × BackupRepository
create_run fresh run repository =
    let run_id = or_else run.run_id fresh in
    let stored = record run { run_id = some run_id } in
    (stored, record repository { runs = put run_id stored repository.runs })

abbrev stored_run :
    Option Text → BackupRun → BackupRepository → Outcome BackupError BackupRepository
stored_run none run repository = err (repository_error (codes "run has no run_id"))
stored_run (some run_id) run repository =
    ok (record repository { runs = put run_id run repository.runs })

unfoldable pub update_run : BackupRun → BackupRepository → Outcome BackupError BackupRepository
update_run run repository = stored_run run.run_id run repository

abbrev pub get_run : Text → BackupRepository → Option BackupRun
get_run run_id repository = get run_id repository.runs

-- Of one policy, or of all; the newest first, and at most `limit` of them.
unfoldable pub list_runs : Option Text → ℕ → BackupRepository → List BackupRun
list_runs wanted limit repository = take limit (
    sort_by (λ a b. leb b.started_at a.started_at)
      (elim wanted [
        | none ↦ values repository.runs
        | some policy_id ↦ keep (λ r. r.policy_id == policy_id) (values repository.runs)
      ]))

unfoldable pub create_artifact :
    Text → BackupArtifact → BackupRepository → BackupArtifact × BackupRepository
create_artifact fresh artifact repository =
    let artifact_id = or_else artifact.artifact_id fresh in
    let stored = record artifact { artifact_id = some artifact_id } in
    (stored, record repository { artifacts = put artifact_id stored repository.artifacts })

unfoldable pub list_artifacts : Text → BackupRepository → List BackupArtifact
list_artifacts policy_id repository =
    sort_by (λ a b. leb b.created_at a.created_at)
      (keep (λ a. a.policy_id == policy_id) (values repository.artifacts))

abbrev first_of_run : Text → List BackupArtifact → Option BackupArtifact
first_of_run run_id [] = none
first_of_run run_id (artifact ∷ rest) =
    if artifact.run_id == run_id then some artifact else first_of_run run_id rest

unfoldable pub get_artifact_by_run : Text → BackupRepository → Option BackupArtifact
get_artifact_by_run run_id repository = first_of_run run_id (values repository.artifacts)

abbrev marked :
    Text
    → ArtifactStatus
    → Option BackupArtifact
    → BackupRepository
    → Outcome BackupError BackupRepository
marked artifact_id status none repository = err (repository_error (codes "artifact not found"))
marked artifact_id status (some artifact) repository = ok (record repository {
  artifacts = put artifact_id (record artifact { status = status }) repository.artifacts;
})

unfoldable pub update_artifact_status :
    Text → ArtifactStatus → BackupRepository → Outcome BackupError BackupRepository
update_artifact_status artifact_id status repository =
    marked artifact_id status (get artifact_id repository.artifacts) repository

unfoldable pub create_restore : Text → RestoreRun → BackupRepository → RestoreRun × BackupRepository
create_restore fresh restore repository =
    let restore_id = or_else restore.restore_id fresh in
    let stored = record restore { restore_id = some restore_id } in
    (stored, record repository { restores = put restore_id stored repository.restores })

abbrev stored_restore :
    Option Text → RestoreRun → BackupRepository → Outcome BackupError BackupRepository
stored_restore none restore repository = err (repository_error (codes "restore has no restore_id"))
stored_restore (some restore_id) restore repository =
    ok (record repository { restores = put restore_id restore repository.restores })

unfoldable pub update_restore : RestoreRun → BackupRepository → Outcome BackupError BackupRepository
update_restore restore repository = stored_restore restore.restore_id restore repository
