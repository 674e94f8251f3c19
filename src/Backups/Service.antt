-- ===== src/Backups/Service.antt =====
-- python/apexquant-backup-recovery/src/apexquant-backup-recovery/service.py
-- create_policy and create_backup of BackupService over the repository in memory. `now` is a reading of the clock
-- at each place that reads it.
use lord_hermes.Common.{
  ℕ, ◌+◌, ◌*◌, ◌&&◌, [], ◌∷◌, ◌++◌, Option, none, some, ◌==◌, ltb, nat_eq, if◌then◌else◌, ok,
}
use lord_hermes.Common.Text.{Text, codes, lower, text_eq}
use lord_hermes.Backups.Models.{
  BackupPolicy, BackupRun, BackupArtifact, TargetSystem, postgres, clickhouse, object_storage,
  redis, BackupRunStatus, active, run_status_eq, artifact_status_eq, BackupError, backup_error,
  not_found,
}
use lord_hermes.Backups.Commands.{build_backup_command, resolve_connection_ref}
use lord_hermes.Backups.Repository
use lord_hermes.Backups.Repository.{
  BackupRepository, get_policy, get_run, get_artifact_by_run, list_policies, list_artifacts,
  create_run, update_run, create_artifact, update_policy_next_run, update_artifact_status,
  create_restore, update_restore,
}
use lord_hermes.Backups.Outside.{
  Outside, Action, ◌>>=◌, ◌>>◌, return, raise, lift, unless, some_or, attempt, read, write, change,
  perform, observe,
}

-- The places of an operation that read the clock.
pub data Moment : Type 0 where
  starting : Moment
  expiring : Moment
  creating : Moment
  completing : Moment
  scheduling : Moment
  updating : Moment

abbrev pub Clock : Type 0
Clock = Moment → ℕ

-- The ids that uuid4 returns.
pub record Fresh : Type 0 where
  pub run_id : Text
  pub artifact_id : Text
  pub restore_id : Text

abbrev pub text_of : Option Text → Text
text_of none = codes "None"
text_of (some text) = text

abbrev system_value : TargetSystem → Text
system_value postgres = codes "POSTGRES"
system_value clickhouse = codes "CLICKHOUSE"
system_value object_storage = codes "OBJECT_STORAGE"
system_value redis = codes "REDIS"

-- text.strip("/")
abbrev drop_slashes : Text → Text
drop_slashes [] = []
drop_slashes (c ∷ text) = let rest = drop_slashes text in if c == b'/' then rest else c ∷ text

abbrev last_slashes : ℕ → Text → Text
last_slashes c [] = if c == b'/' then [] else c ∷ []
last_slashes c (d ∷ text) = c ∷ d ∷ text

abbrev trim_slashes : Text → Text
trim_slashes [] = []
trim_slashes (c ∷ text) = last_slashes c (trim_slashes text)

abbrev strip_slashes : Text → Text
strip_slashes text = trim_slashes (drop_slashes text)

abbrev pub storage_key : BackupPolicy → BackupRun → Text
storage_key policy run =
    strip_slashes policy.storage_prefix
    ++ codes "/"
    ++ lower (system_value policy.target_system)
    ++ codes "/"
    ++ policy.target_name
    ++ codes "/"
    ++ text_of run.run_id
    ++ codes ".dump"

abbrev days : ℕ → ℕ
days n = n * 86400

abbrev minutes : ℕ → ℕ
minutes n = n * 60

unfoldable pub create_policy :
    Text → Clock → BackupPolicy → BackupRepository → BackupPolicy × BackupRepository
create_policy fresh clock policy repository =
    Repository.create_policy fresh (clock updating)
      (elim policy.next_run_at [
        | none ↦
            if policy.enabled
            then record policy {
              next_run_at = some (clock scheduling + minutes policy.interval_minutes);
            }
            else policy
        | some at ↦ policy
      ])
      repository

module _ {World : Type 0} (outside : Outside World) where
  abbrev pub opened : Text → Text → ℕ → BackupRun
  opened policy_id trigger now = record {
    run_id = none;
    policy_id = policy_id;
    trigger = trigger;
    status = BackupRunStatus.running;
    started_at = now;
    completed_at = none;
    artifact_uri = none;
    artifact_size_bytes = none;
    checksum_sha256 = none;
    error = none;
    verification_status = none;
    last_verified_at = none;
  }

  abbrev pub artifact_of :
      Text → Clock → BackupPolicy → BackupRun → Text → ℕ → Text → BackupArtifact
  artifact_of policy_id clock policy run uri size_bytes checksum = record {
    artifact_id = none;
    run_id = text_of run.run_id;
    policy_id = policy_id;
    target_system = policy.target_system;
    target_name = policy.target_name;
    storage_key = storage_key policy run;
    uri = uri;
    size_bytes = size_bytes;
    checksum_sha256 = checksum;
    encryption_key_ref = policy.encryption_key_ref;
    status = active;
    created_at = clock creating;
    expires_at = elim policy.retention_days [
      | none ↦ none
      | some n ↦ some (clock expiring + days n)
    ];
  }

  abbrev pub completed : Clock → BackupRun → Text → ℕ → Text → BackupRun
  completed clock run uri size_bytes checksum = record run {
    status = BackupRunStatus.succeeded;
    completed_at = some (clock completing);
    artifact_uri = some uri;
    artifact_size_bytes = some size_bytes;
    checksum_sha256 = some checksum;
  }

  abbrev pub reschedule : Text → Clock → BackupPolicy → Action World (Unit {0})
  reschedule policy_id clock policy =
      if policy.enabled && ltb 0 policy.interval_minutes
      then change (
          update_policy_next_run policy_id (clock scheduling + minutes policy.interval_minutes)
            (clock updating))
      else return tt

  -- The body of the try of `create_backup`.
  unfoldable pub back_up : Fresh → Clock → Text → BackupPolicy → BackupRun → Action World BackupRun
  back_up fresh clock policy_id policy run = do
    connection ← lift (resolve_connection_ref outside.environ policy.target_connection_ref)
    backup ← lift (build_backup_command policy outside.workdir (text_of run.run_id) connection)
    perform (outside.run backup.command (some policy.backup_timeout_seconds))
    checksum ← observe (outside.sha256_file backup.output_path)
    size_bytes ← observe (λ w. ok (outside.file_size backup.output_path w))
    uri ← perform (outside.upload_file backup.output_path (storage_key policy run))
    artifact ← write (
        create_artifact fresh.artifact_id
          (artifact_of policy_id clock policy run uri size_bytes checksum))
    change (update_run (completed clock run uri size_bytes checksum))
    reschedule policy_id clock policy
    return (completed clock run uri size_bytes checksum)

  abbrev pub broken_run : Clock → BackupRun → BackupError → BackupRun
  broken_run clock run e = record run {
    status = BackupRunStatus.failed;
    completed_at = some (clock completing);
    error = some (outside.message e);
  }

  -- Its handler.
  unfoldable pub give_up : Clock → BackupRun → BackupError → Action World BackupRun
  give_up clock run e = do
    change (update_run (broken_run clock run e))
    raise (backup_error (outside.message e))

  unfoldable pub create_backup : Fresh → Clock → Text → Text → Action World BackupRun
  create_backup fresh clock policy_id trigger = do
    found ← read (get_policy policy_id)
    policy ← some_or (not_found policy_id) found
    unless policy.enabled (backup_error (codes "backup policy is disabled"))
    run ← write (create_run fresh.run_id (opened policy_id trigger (clock starting)))
    attempt (back_up fresh clock policy_id policy run) (give_up clock run)
