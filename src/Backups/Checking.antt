-- ===== src/Backups/Checking.antt =====
-- python/apexquant-backup-recovery/src/apexquant-backup-recovery/service.py
-- verify_backup: an artifact against its checksum.
use lord_hermes.Common.{◌++◌, some, ◌==◌, nat_eq}
use lord_hermes.Common.Text.{Text, codes, text_eq}
use lord_hermes.Backups.Models.{
  BackupPolicy, BackupRun, BackupArtifact, run_status_eq, artifact_status_eq, BackupError,
  backup_error, not_found,
}
use lord_hermes.Backups.Commands.{build_verify_command}
use lord_hermes.Backups.Repository.{get_policy, get_run, get_artifact_by_run, update_run}
use lord_hermes.Backups.Outside.{
  Outside, Action, ◌>>=◌, ◌>>◌, return, raise, unless, some_or, attempt, read, change, perform,
  observe,
}
use lord_hermes.Backups.Service.{completing, Clock}

module _ {World : Type 0} (outside : Outside World) where
  abbrev pub local_file : Text → Text → Text
  local_file kind run_id =
      outside.workdir ++ codes "/" ++ kind ++ codes "-" ++ run_id ++ codes ".dump"

  abbrev pub verified_run : Clock → BackupRun → BackupRun
  verified_run clock run = record run {
    verification_status = some (codes "SUCCEEDED");
    last_verified_at = some (clock completing);
  }

  -- The body of the try of `verify_backup`.
  unfoldable pub check_artifact :
      Clock → Text → BackupRun → BackupArtifact → BackupPolicy → Action World BackupRun
  check_artifact clock run_id run artifact policy = do
    perform (outside.download_file artifact.storage_key (local_file (codes "verify") run_id))
    checksum ← observe (outside.sha256_file (local_file (codes "verify") run_id))
    unless (checksum == artifact.checksum_sha256)
        (backup_error (codes "backup artifact checksum mismatch; backup is corrupt"))
    perform (
        outside.run (build_verify_command (local_file (codes "verify") run_id))
          (some policy.backup_timeout_seconds))
    change (update_run (verified_run clock run))
    return (verified_run clock run)

  abbrev pub unverified_run : BackupRun → BackupError → BackupRun
  unverified_run run e = record run {
    verification_status = some (codes "FAILED");
    error = some (outside.message e);
  }

  unfoldable pub refute : BackupRun → BackupError → Action World BackupRun
  refute run e = do
    change (update_run (unverified_run run e))
    raise (backup_error (outside.message e))

  unfoldable pub verify_backup : Clock → Text → Action World BackupRun
  verify_backup clock run_id = do
    found ← read (get_run run_id)
    run ← some_or (not_found run_id) found
    found_artifact ← read (get_artifact_by_run run_id)
    artifact ← some_or (not_found run_id) found_artifact
    found_policy ← read (get_policy run.policy_id)
    policy ← some_or (not_found run.policy_id) found_policy
    attempt (check_artifact clock run_id run artifact policy) (refute run)
