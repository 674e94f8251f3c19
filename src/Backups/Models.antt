-- ===== src/Backups/Models.antt =====
-- python/apexquant-backup-recovery/src/apexquant-backup-recovery/models.py and errors.py
-- Times are numbers of seconds, and a uuid is its text.
use lord_hermes.Common.{ℕ, Bool, Option, Eq, enum_eq}
use lord_hermes.Common.Text.{Text}

pub data TargetSystem : Type 0 where
  postgres : TargetSystem
  clickhouse : TargetSystem
  object_storage : TargetSystem
  redis : TargetSystem

pub data BackupRunStatus : Type 0 where
  running : BackupRunStatus
  succeeded : BackupRunStatus
  failed : BackupRunStatus

pub data ArtifactStatus : Type 0 where
  active : ArtifactStatus
  expired : ArtifactStatus
  deleted : ArtifactStatus

pub data RestoreStatus : Type 0 where
  dry_run : RestoreStatus
  running : RestoreStatus
  succeeded : RestoreStatus
  failed : RestoreStatus

pub TargetSystem-discrete : Discrete TargetSystem
TargetSystem-discrete = hlevel

unfoldable pub BackupRunStatus-discrete : Discrete BackupRunStatus
BackupRunStatus-discrete = hlevel

unfoldable pub ArtifactStatus-discrete : Discrete ArtifactStatus
ArtifactStatus-discrete = hlevel

instance abbrev pub target_eq : Eq TargetSystem
target_eq = enum_eq TargetSystem-discrete

instance abbrev pub run_status_eq : Eq BackupRunStatus
run_status_eq = enum_eq BackupRunStatus-discrete

instance abbrev pub artifact_status_eq : Eq ArtifactStatus
artifact_status_eq = enum_eq ArtifactStatus-discrete

pub record BackupPolicy : Type 0 where
  pub policy_id : Option Text
  pub name : Text
  pub target_system : TargetSystem
  pub target_name : Text
  pub target_connection_ref : Text
  pub storage_bucket : Text
  pub storage_prefix : Text
  pub interval_minutes : ℕ
  pub backup_timeout_seconds : ℕ
  pub retention_count : Option ℕ
  pub retention_days : Option ℕ
  pub delete_expired : Bool
  pub encryption_key_ref : Option Text
  pub enabled : Bool
  pub next_run_at : Option ℕ
  pub created_at : Option ℕ
  pub updated_at : Option ℕ

pub record BackupRun : Type 0 where
  pub run_id : Option Text
  pub policy_id : Text
  pub trigger : Text
  pub status : BackupRunStatus
  pub started_at : ℕ
  pub completed_at : Option ℕ
  pub artifact_uri : Option Text
  pub artifact_size_bytes : Option ℕ
  pub checksum_sha256 : Option Text
  pub error : Option Text
  pub verification_status : Option Text
  pub last_verified_at : Option ℕ

pub record BackupArtifact : Type 0 where
  pub artifact_id : Option Text
  pub run_id : Text
  pub policy_id : Text
  pub target_system : TargetSystem
  pub target_name : Text
  pub storage_key : Text
  pub uri : Text
  pub size_bytes : ℕ
  pub checksum_sha256 : Text
  pub encryption_key_ref : Option Text
  pub status : ArtifactStatus
  pub created_at : ℕ
  pub expires_at : Option ℕ

pub record RestoreRun : Type 0 where
  pub restore_id : Option Text
  pub backup_run_id : Text
  pub target_connection_ref : Text
  pub target_connection_redacted : Text
  pub command_redacted : Option Text
  pub status : RestoreStatus
  pub dry_run : Bool
  pub started_at : ℕ
  pub completed_at : Option ℕ
  pub error : Option Text

-- The exceptions: BackupError and those below it, and any other by its text.
pub data BackupError : Type 0 where
  backup_error : Text → BackupError
  not_found : Text → BackupError
  unsupported_target : BackupError
  connection_reference : Text → BackupError
  restore_safety : Text → BackupError
  repository_error : Text → BackupError
  other_error : Text → BackupError
