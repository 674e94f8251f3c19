-- ===== src/Backups/Leak.antt =====
-- python/apexquant-backup-recovery/src/apexquant-backup-recovery/redaction.py
-- What redaction does to the arguments of the commands.
use lord_hermes.Common.{
  ◌≡◌, refl, Bool, true, false, [], ◌∷◌, ◌++◌, Option, none, some, if◌then◌else◌, nat_eq,
}
use lord_hermes.Common.Text.{Text, codes, starts_with, has_part, is_lower}
use lord_hermes.Backups.Commands.{build_restore_command}
use lord_hermes.Backups.Redaction.{
  partition, rpartition, is_letter, is_scheme, with_scheme, urlparse, credentials, redact_url,
  redact_command,
}

-- A text that starts with two dashes has no scheme and no authority, so no password is seen.
no_authority :
    (text : Text) (o : Option Text) (head : Text)
    → with_scheme (b'-' ∷ text) (b'-' ∷ head, o)
      ≡ record { scheme = []; netloc = []; rest = b'-' ∷ text }
unfolding is_scheme is_letter is_lower starts_with
no_authority text none head = refl
no_authority text (some tail) head = refl

urlparse-dash :
    (text : Text) → urlparse (b'-' ∷ text) ≡ record { scheme = []; netloc = []; rest = b'-' ∷ text }
unfolding urlparse partition
urlparse-dash text = no_authority text (partition b':' text).1 (partition b':' text).0

redact_url-dash : (text : Text) → redact_url (b'-' ∷ text) ≡ b'-' ∷ text
unfolding redact_url credentials rpartition
redact_url-dash text = rw (urlparse-dash text) refl

same_dash :
    (b : Bool) (text : Text) → (if b then redact_url (b'-' ∷ text) else b'-' ∷ text) ≡ b'-' ∷ text
same_dash true text = redact_url-dash text
same_dash false text = refl

-- The command of a restore goes through redaction as it is, with the connection that it is given,
-- if the name of the file holds no "://".
pub redact_command-build_restore_command :
    (backup_file connection : Text)
    → has_part backup_file (codes "://") ≡ false
    → redact_command (build_restore_command backup_file connection)
      ≡ build_restore_command backup_file connection
unfolding redact_command build_restore_command has_part starts_with
redact_command-build_restore_command backup_file connection plain =
    rw (same_dash (has_part connection (codes "://")) (codes "-dbname=" ++ connection), plain) refl
