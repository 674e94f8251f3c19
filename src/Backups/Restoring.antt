-- ===== src/Backups/Restoring.antt =====
-- python/apexquant-backup-recovery/src/apexquant-backup-recovery/service.py
-- restore_backup: its checks, and the restore of what they let through.
use lord_hermes.Common.{
  Bool, not, ◌||◌, List, [], ◌∷◌, ◌++◌, none, some, ◌==◌, nat_eq, if◌then◌else◌,
}
use lord_hermes.Common.Text.{Text, codes, text_eq}
use lord_hermes.Backups.Models.{
  BackupArtifact, RestoreRun, BackupRunStatus, RestoreStatus, run_status_eq, artifact_status_eq,
  BackupError, backup_error, not_found, restore_safety,
}
use lord_hermes.Backups.Commands.{build_restore_command, resolve_connection_ref}
use lord_hermes.Backups.Redaction.{redact_url, redact_command}
use lord_hermes.Backups.Repository.{get_run, get_artifact_by_run, create_restore, update_restore}
use lord_hermes.Backups.Outside.{
  Outside, Action, ◌>>=◌, ◌>>◌, return, raise, lift, unless, some_or, attempt, read, write, change,
  perform, observe,
}
use lord_hermes.Backups.Service.{starting, completing, Clock, Fresh}
use lord_hermes.Backups.Checking.{local_file}

module _ {World : Type 0} (outside : Outside World) where
  abbrev join_words : List Text → Text
  join_words [] = []
  join_words (word ∷ []) = word
  join_words (word ∷ next ∷ rest) = word ++ codes " " ++ join_words (next ∷ rest)

  abbrev pub restore_of : Clock → Text → Text → Text → List Text → Bool → RestoreRun
  restore_of clock run_id target_connection_ref connection command is_dry = record {
    restore_id = none;
    backup_run_id = run_id;
    target_connection_ref = target_connection_ref;
    target_connection_redacted = redact_url connection;
    command_redacted = some (join_words (redact_command command));
    status = if is_dry then RestoreStatus.dry_run else RestoreStatus.running;
    dry_run = is_dry;
    started_at = clock starting;
    completed_at = none;
    error = none;
  }

  abbrev pub restored : Clock → RestoreRun → RestoreRun
  restored clock restore = record restore {
    status = RestoreStatus.succeeded;
    completed_at = some (clock completing);
  }

  -- The try of `restore_backup`, and its handler.
  unfoldable pub run_restore : Clock → List Text → RestoreRun → Action World RestoreRun
  run_restore clock command restore = do
    perform (outside.run command none)
    change (update_restore (restored clock restore))
    return (restored clock restore)

  unfoldable pub fail_restore : Clock → RestoreRun → BackupError → Action World RestoreRun
  fail_restore clock restore e = do
    change (
        update_restore (record restore {
          status = RestoreStatus.failed;
          completed_at = some (clock completing);
          error = some (outside.message e);
        }))
    raise (backup_error (outside.message e))

  -- From the checked artifact on.
  unfoldable pub execute_restore :
      Fresh → Clock → Text → Text → Text → Bool → Action World RestoreRun
  execute_restore fresh clock run_id target_connection_ref connection is_dry =
      let command =
        build_restore_command (local_file outside (codes "restore") run_id) connection in
      write (
        create_restore fresh.restore_id
          (restore_of clock run_id target_connection_ref connection command is_dry))
      >>= λ restore.
          if is_dry
          then (change (update_restore (record restore { completed_at = some (clock completing) }))
              >> return (record restore { completed_at = some (clock completing) }))
          else attempt (run_restore clock command restore) (fail_restore clock restore)

  -- What `restore_backup` checks before it downloads.
  unfoldable pub restorable : Text → Bool → Bool → Bool → Action World BackupArtifact
  restorable run_id is_dry confirm allow_production_restore = do
    found ← read (get_run run_id)
    run ← some_or (not_found run_id) found
    unless (run.status == BackupRunStatus.succeeded)
        (backup_error (codes "only succeeded backup runs may be restored"))
    found_artifact ← read (get_artifact_by_run run_id)
    artifact ← some_or (not_found run_id) found_artifact
    unless (not (outside.environment == codes "production") || allow_production_restore)
        (restore_safety (codes "production restores require explicit allow_production_restore"))
    unless (is_dry || confirm)
        (restore_safety (codes "restore execution requires confirm=true; default is dry-run"))
    return artifact

  unfoldable pub restore_backup :
      Fresh → Clock → Text → Text → Bool → Bool → Bool → Action World RestoreRun
  restore_backup fresh clock run_id target_connection_ref is_dry confirm allow_production_restore =
      do
        artifact ← restorable run_id is_dry confirm allow_production_restore
        connection ← lift (resolve_connection_ref outside.environ target_connection_ref)
        perform (
            outside.download_file artifact.storage_key
              (local_file outside (codes "restore") run_id))
        checksum ← observe (outside.sha256_file (local_file outside (codes "restore") run_id))
        unless (checksum == artifact.checksum_sha256)
            (backup_error (codes "backup artifact checksum mismatch; refusing restore"))
        execute_restore fresh clock run_id target_connection_ref connection is_dry
