-- ===== src/Backups/Retaining.antt =====
-- python/apexquant-backup-recovery/src/apexquant-backup-recovery/service.py
-- apply_retention and run_due.
use lord_hermes.Common.{
  ℕ, suc, Bool, false, ◌&&◌, ◌||◌, List, [], ◌∷◌, none, some, ◌==◌, leb, nat_eq, keep, sort_by,
  if◌then◌else◌, ok, err,
}
use lord_hermes.Common.Text.{Text, codes, text_eq}
use lord_hermes.Backups.Models.{
  BackupPolicy, BackupRun, BackupArtifact, active, expired, deleted, run_status_eq,
  artifact_status_eq, not_found,
}
use lord_hermes.Backups.Repository.{
  BackupRepository, get_policy, list_policies, list_artifacts, update_artifact_status,
}
use lord_hermes.Backups.Outside.{
  Outside, Action, ◌>>=◌, ◌>>◌, return, some_or, read, change, perform,
}
use lord_hermes.Backups.Service.{starting, expiring, Clock, Fresh, text_of, create_backup}

module _ {World : Type 0} (outside : Outside World) where
  abbrev pub expired_by_count : BackupPolicy → ℕ → Bool
  expired_by_count policy index = elim policy.retention_count [
    | none ↦ false
    | some count ↦ leb count index
  ]

  abbrev pub expired_by_age : BackupPolicy → ℕ → BackupArtifact → Bool
  expired_by_age policy now artifact = elim policy.retention_days [
    | none ↦ false
    | some n ↦ elim artifact.expires_at [ none ↦ false | some at ↦ leb at now ]
  ]

  -- The loop over the active artifacts, from an index on.
  unfoldable pub find_expired : BackupPolicy → ℕ → ℕ → List BackupArtifact → List BackupArtifact
  find_expired policy now index [] = []
  find_expired policy now index (artifact ∷ rest) =
      let others = find_expired policy now (suc index) rest in
      if expired_by_count policy index || expired_by_age policy now artifact
      then artifact ∷ others
      else others

  abbrev pub active_artifacts : Text → BackupRepository → List BackupArtifact
  active_artifacts policy_id repository =
      sort_by (λ a b. leb b.created_at a.created_at)
        (keep (λ a. a.status == active) (list_artifacts policy_id repository))

  -- The loop that marks what has expired. The objects that it returns are those of the repository.
  unfoldable pub retire : BackupPolicy → BackupArtifact → Action World (Unit {0})
  retire policy artifact =
      change (update_artifact_status (text_of artifact.artifact_id) expired)
      >> (if policy.delete_expired
          then perform (outside.delete_object artifact.storage_key)
            >> change (update_artifact_status (text_of artifact.artifact_id) deleted)
          else return tt)

  unfoldable pub expire : BackupPolicy → List BackupArtifact → Action World (Unit {0})
  expire policy [] = return tt
  expire policy (artifact ∷ rest) = retire policy artifact >> expire policy rest

  unfoldable pub apply_retention : Clock → Text → Action World (List BackupArtifact)
  apply_retention clock policy_id = do
    found ← read (get_policy policy_id)
    policy ← some_or (not_found policy_id) found
    candidates ← read (active_artifacts policy_id)
    expire policy (find_expired policy (clock expiring) 0 candidates)
    return (find_expired policy (clock expiring) 0 candidates)

  abbrev pub is_due : ℕ → BackupPolicy → Bool
  is_due now policy =
      policy.enabled && elim policy.next_run_at [ none ↦ false | some at ↦ leb at now ]

  -- The loop of `run_due`; every exception of `create_backup` is a BackupError.
  unfoldable pub run_policies :
      (Text → Fresh) → Clock → List BackupPolicy → Action World (List BackupRun)
  run_policies fresh clock [] s = (ok [], s)
  run_policies fresh clock (policy ∷ rest) s =
      let policy_id = text_of policy.policy_id in
      let (result, after) =
        create_backup outside (fresh policy_id) clock policy_id (codes "scheduled") s in
      let (others, last) = run_policies fresh clock rest after in
      elim result [
        | err e ↦ (others, last)
        | ok run ↦ elim others [ ok runs ↦ (ok (run ∷ runs), last) | err e ↦ (err e, last) ]
      ]

  unfoldable pub run_due : (Text → Fresh) → Clock → Action World (List BackupRun)
  run_due fresh clock = do
    policies ← read list_policies
    run_policies fresh clock (keep (is_due (clock starting)) policies)
