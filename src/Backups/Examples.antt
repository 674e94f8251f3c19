-- ===== src/Backups/Examples.antt =====
-- python/apexquant-backup-recovery: runs of the service, and the theorems at concrete inputs.
use lord_hermes.Common.{
  Bool, ℕ, ◌+◌, ◌≤◌, ◌≡◌, refl, true, false, List, [], ◌∷◌, none, some, ◌⊎◌, ok, err, get, put,
  values, length, All, insert, sort_by,
}
use lord_hermes.Common.Text.{
  Text, codes, text_eq, text_beq, starts_with, has_part, lower, is_lower, is_digit,
}
use lord_hermes.Common.Decimal.{int, str}
use lord_hermes.Backups.Models.{
  BackupPolicy, BackupRun, BackupArtifact, RestoreRun, BackupRunStatus, ArtifactStatus,
  RestoreStatus, TargetSystem, active, expired, BackupError, ArtifactStatus-discrete,
  BackupRunStatus-discrete,
}
use lord_hermes.Backups.Commands.{build_restore_command, resolve_connection_ref}
use lord_hermes.Backups.Redaction.{
  redact_url, redact_command, urlparse, partition, rpartition, credentials, host_port, is_scheme,
  is_scheme_char, is_letter, split_netloc,
}
use lord_hermes.Backups.Repository.{
  get_policy, list_artifacts, get_artifact_by_run, update_artifact_status, create_restore,
  update_restore,
}
use lord_hermes.Backups.Outside.{Outside, State}
use lord_hermes.Backups.Service.{expiring, Clock, Fresh, create_backup}
use lord_hermes.Backups.Restoring.{restorable, restore_backup, execute_restore, run_restore}
use lord_hermes.Backups.Retaining.{find_expired, retire, expire, apply_retention}
use lord_hermes.Backups.Leak.{redact_command-build_restore_command}
use lord_hermes.Backups.Safety.{IsRestorable, restore_backup_safe, dry_run_only_downloads}
use lord_hermes.Backups.Settled.{IsSettled, create_backup-IsSettled}
use lord_hermes.Backups.Oldest.{count_of, owned, IsJustified}
use lord_hermes.Backups.Bounds.{IsRetired, apply_retention_bound}

abbrev connection : Text
connection = codes "postgresql://app:secret@db:5432/prod"

-- The world counts the calls on it.
abbrev outside : Outside ℕ
outside = record {
  environment = codes "production";
  workdir = codes "/work";
  environ = λ name. some connection;
  run = λ command timeout w. (ok tt, w + 1);
  sha256_file = λ path w. ok (codes "sum");
  file_size = λ path w. 5;
  upload_file = λ path key w. (ok (codes "s3://b/k"), w + 1);
  download_file = λ key path w. (ok tt, w + 1);
  delete_object = λ key w. (ok tt, w + 1);
  message = λ e. codes "error";
}

abbrev fresh : Fresh
fresh = record { run_id = codes "r1"; artifact_id = codes "a1"; restore_id = codes "x1" }

abbrev clock : Clock
clock moment = 100

abbrev policy : BackupPolicy
policy = record {
  policy_id = some (codes "p1");
  name = codes "nightly";
  target_system = TargetSystem.postgres;
  target_name = codes "prod";
  target_connection_ref = codes "env://DB";
  storage_bucket = codes "b";
  storage_prefix = codes "backups/";
  interval_minutes = 60;
  backup_timeout_seconds = 3600;
  retention_count = some 1;
  retention_days = none;
  delete_expired = false;
  encryption_key_ref = none;
  enabled = true;
  next_run_at = none;
  created_at = none;
  updated_at = none;
}

abbrev artifact : Text → ℕ → ArtifactStatus → BackupArtifact
artifact id created_at status = record {
  artifact_id = some id;
  run_id = codes "r1";
  policy_id = codes "p1";
  target_system = TargetSystem.postgres;
  target_name = codes "prod";
  storage_key = codes "k";
  uri = codes "s3://b/k";
  size_bytes = 5;
  checksum_sha256 = codes "sum";
  encryption_key_ref = none;
  status = status;
  created_at = created_at;
  expires_at = none;
}

abbrev run : BackupRun
run = record {
  run_id = some (codes "r1");
  policy_id = codes "p1";
  trigger = codes "manual";
  status = BackupRunStatus.succeeded;
  started_at = 1;
  completed_at = some 2;
  artifact_uri = some (codes "s3://b/k");
  artifact_size_bytes = some 5;
  checksum_sha256 = some (codes "sum");
  error = none;
  verification_status = none;
  last_verified_at = none;
}

abbrev state : List (Text × BackupArtifact) → State ℕ
state artifacts = record {
  repository = record {
    policies = (codes "p1", policy) ∷ [];
    runs = (codes "r1", run) ∷ [];
    artifacts = artifacts;
    restores = [];
  };
  world = 0;
}

abbrev stored : State ℕ
stored = state ((codes "a1", artifact (codes "a1") 1 active) ∷ [])

policy_there : get_policy (codes "p1") stored.repository ≡ some policy
unfolding get text_beq
policy_there = refl

create_backup-IsSettled_example :
    IsSettled outside fresh clock
      (codes "p1")
      (create_backup outside fresh clock (codes "p1") (codes "manual") stored)
create_backup-IsSettled_example =
    create_backup-IsSettled outside fresh clock (codes "p1") policy (codes "manual") stored
      policy_there refl

abbrev two_artifacts : State ℕ
two_artifacts = state (
    (codes "a1", artifact (codes "a1") 1 active)
    ∷ (codes "a2", artifact (codes "a2") 2 active)
    ∷ [])

abbrev one_left : State ℕ
one_left = state (
    (codes "a1", artifact (codes "a1") 1 expired)
    ∷ (codes "a2", artifact (codes "a2") 2 active)
    ∷ [])

retains :
    apply_retention outside clock (codes "p1") two_artifacts
    ≡ (ok (artifact (codes "a1") 1 active ∷ []), one_left)
unfolding ArtifactStatus-discrete apply_retention expire retire find_expired list_artifacts
    update_artifact_status get put values insert sort_by text_beq
retains = refl

two_policies : get_policy (codes "p1") two_artifacts.repository ≡ some policy
unfolding get text_beq
two_policies = refl

apply_retention_bound_example :
    (length (owned (codes "p1") two_artifacts.repository) ≤ 1 + 1)
    × ((test : BackupArtifact → Bool)
        → count_of test (artifact (codes "a1") 1 active ∷ [])
          ≤ count_of test (owned (codes "p1") two_artifacts.repository))
    × All
        (IsJustified policy (clock expiring) 1 (owned (codes "p1") two_artifacts.repository))
        (artifact (codes "a1") 1 active ∷ [])
    × All (IsRetired one_left.repository) (artifact (codes "a1") 1 active ∷ [])
apply_retention_bound_example =
    apply_retention_bound outside clock (codes "p1") policy 1 two_artifacts one_left
      (artifact (codes "a1") 1 active ∷ []) two_policies refl retains

plain : has_part (codes "/work/restore-r1.dump") (codes "://") ≡ false
unfolding has_part starts_with
plain = refl

redact_command-build_restore_command_example :
    redact_command (build_restore_command (codes "/work/restore-r1.dump") connection)
    ≡ build_restore_command (codes "/work/restore-r1.dump") connection
redact_command-build_restore_command_example =
    redact_command-build_restore_command (codes "/work/restore-r1.dump") connection plain

-- The same connection is redacted where it stands alone.
redacts_alone : redact_url connection ≡ codes "postgresql://app:***@db:5432/prod"
unfolding redact_url urlparse partition rpartition credentials host_port is_scheme is_scheme_char
    is_letter is_lower is_digit split_netloc starts_with lower int str
redacts_alone = refl

dry_run_only_downloads_example :
    let after =
      (restore_backup outside fresh clock
        (codes "r1")
        (codes "env://TARGET")
        true
        false
        true
        stored).1 in
    (after.world ≡ 0) ⊎ ((found : BackupArtifact) × (after.world ≡ 1))
dry_run_only_downloads_example =
    dry_run_only_downloads outside (codes "r1") true false true stored fresh clock
      (codes "env://TARGET") refl

-- In production a restore has to be allowed.
refused :
    (restorable outside (codes "r1") false true false stored).0
    ≡ err (
        BackupError.restore_safety
          (codes "production restores require explicit allow_production_restore"))
unfolding BackupRunStatus-discrete restorable get_artifact_by_run get values text_beq
refused = refl

abbrev done : RestoreRun
done = record {
  restore_id = some (codes "x1");
  backup_run_id = codes "r1";
  target_connection_ref = codes "env://TARGET";
  target_connection_redacted = codes "postgresql://app:***@db:5432/prod";
  command_redacted = some (
      codes
        "pg_restore --no-owner --no-privileges --clean --if-exists --dbname=postgresql://app:secret@db:5432/prod /work/restore-r1.dump");
  status = RestoreStatus.succeeded;
  dry_run = false;
  started_at = 100;
  completed_at = some 100;
  error = none;
}

abbrev after_restore : State ℕ
after_restore = record {
  repository = record stored.repository { restores = (codes "x1", done) ∷ [] };
  world = 2;
}

restores :
    restore_backup outside fresh clock (codes "r1") (codes "env://TARGET") false true true stored
    ≡ (ok done, after_restore)
unfolding BackupRunStatus-discrete restore_backup restorable get_artifact_by_run execute_restore
    run_restore create_restore update_restore resolve_connection_ref build_restore_command
    redact_command has_part redact_url urlparse partition rpartition credentials host_port is_scheme
    is_scheme_char is_letter is_lower is_digit split_netloc starts_with lower int str get put values
    text_beq
restores = refl

restore_backup_safe_example :
    (found : BackupArtifact) × IsRestorable outside (codes "r1") false true true stored found
    × (outside.sha256_file (codes "/work/restore-r1.dump") 1 ≡ ok found.checksum_sha256)
restore_backup_safe_example =
    restore_backup_safe outside (codes "r1") false true true stored fresh clock
      (codes "env://TARGET") done after_restore restores
