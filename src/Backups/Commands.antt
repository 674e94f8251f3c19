-- ===== src/Backups/Commands.antt =====
-- python/apexquant-backup-recovery/src/apexquant-backup-recovery/commands.py and secret_refs.py
use lord_hermes.Common.{
  not, List, [], ◌∷◌, ◌++◌, Option, none, some, ◌==◌, if◌then◌else◌, is_nonempty, Outcome, ok, err,
  length, drop,
}
use lord_hermes.Common.Text.{Text, codes, starts_with}
use lord_hermes.Backups.Models.{
  BackupPolicy, postgres, target_eq, BackupError, unsupported_target, connection_reference,
}

pub record BackupCommand : Type 0 where
  pub command : List Text
  pub output_path : Text

unfoldable pub build_backup_command :
    BackupPolicy → Text → Text → Text → Outcome BackupError BackupCommand
build_backup_command policy workdir run_id resolved_connection =
    if not (policy.target_system == postgres)
    then err unsupported_target
    else (let output_path =
          workdir ++ codes "/" ++ policy.target_name ++ codes "-" ++ run_id ++ codes ".dump" in
        ok (record {
          command =
              codes "pg_dump"
              ∷ codes "--format=custom"
              ∷ codes "--no-owner"
              ∷ codes "--no-privileges"
              ∷ (codes "--file=" ++ output_path)
              ∷ resolved_connection
              ∷ [];
          output_path = output_path;
        }))

unfoldable pub build_verify_command : Text → List Text
build_verify_command backup_file = codes "pg_restore" ∷ codes "--list" ∷ backup_file ∷ []

unfoldable pub build_restore_command : Text → Text → List Text
build_restore_command backup_file resolved_target_connection =
    codes "pg_restore"
    ∷ codes "--no-owner"
    ∷ codes "--no-privileges"
    ∷ codes "--clean"
    ∷ codes "--if-exists"
    ∷ (codes "--dbname=" ++ resolved_target_connection)
    ∷ backup_file
    ∷ []

-- `if not value`: the variable is unset or empty.
abbrev env_value : Text → Option Text → Outcome BackupError Text
env_value reference none = err (connection_reference reference)
env_value reference (some value) =
    if is_nonempty value then ok value else err (connection_reference reference)

-- os.environ.get is the argument `environ`.
unfoldable pub resolve_connection_ref : (Text → Option Text) → Text → Outcome BackupError Text
resolve_connection_ref environ reference =
    if starts_with reference (codes "env://")
    then env_value reference (environ (drop (length (codes "env://")) reference))
    else if starts_with reference (codes "vault://")
    then err (connection_reference (codes "vault:// connection references are not configured"))
    else if starts_with reference (codes "secret://")
    then err (connection_reference (codes "secret:// connection references are not configured"))
    else err (connection_reference (codes "connection references must use env://"))
