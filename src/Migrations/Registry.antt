-- ===== src/Migrations/Registry.antt =====
-- python/apexquant-migrations/src/apexquant-migrations/postgres.py
-- The table schema_migrations.applied_migrations: its constraints, the insertion of a row, and
-- get_applied. A table has no order of its own: its rows stand as the query of get_applied lists
-- them, by the database's collation `before`. The columns applied_by and execution_time_ms, which
-- no code reads, are left out.
use lord_hermes.Common.{
  ℕ, Bool, not, ◌&&◌, ◌||◌, List, [], ◌∷◌, String, ◌==◌, nat_eq, leb, get, all, length,
  if◌then◌else◌, is_none, Outcome, ok, err,
}
use lord_hermes.Common.Text.{Text, text_eq, strip, is_digit}
use lord_hermes.Migrations.Models.{postgres, engine_eq, MigrationFile, AppliedMigration}

abbrev pub Registry : Type 0
Registry = List (Text × AppliedMigration)

-- The constraints: trim takes spaces only, and a checksum matches ^[0-9a-f]{64}$.
unfoldable pub is_blank : Text → Bool
is_blank text = all (λ c. c == b' ') text

unfoldable pub is_hex : ℕ → Bool
unfolding is_digit
is_hex c = is_digit c || (leb b'a' c && leb c b'f')

unfoldable pub is_checksum : Text → Bool
is_checksum text = (length text == 64) && all is_hex text

unfoldable pub is_valid_row : AppliedMigration → Bool
is_valid_row row =
    not (is_blank row.domain)
    && not (is_blank row.version)
    && not (is_blank row.filename)
    && is_checksum row.checksum_sha256

-- The row that `apply` and `baseline` insert, at the database's clock.
unfoldable pub row_of : MigrationFile → ℕ → AppliedMigration
row_of file now = record {
  migration_id = file.migration_id;
  engine = postgres;
  domain = file.domain;
  version = file.version;
  filename = file.filename;
  checksum_sha256 = file.checksum_sha256;
  applied_at = now;
}

module _ (before : AppliedMigration → AppliedMigration → Bool) where
  unfoldable pub place : Text → AppliedMigration → Registry → Registry
  place id row [] = (id, row) ∷ []
  place id row ((j, other) ∷ rest) =
      if before row other then (id, row) ∷ (j, other) ∷ rest else (j, other) ∷ place id row rest

  -- INSERT ... ON CONFLICT (migration_id) DO NOTHING
  unfoldable pub insert_row : AppliedMigration → Registry → Outcome String Registry
  insert_row row registry =
      if not (is_valid_row row)
      then err "row violates a check constraint"
      else ok (
          if is_none (get row.migration_id registry)
          then place row.migration_id row registry
          else registry)

abbrev stripped : AppliedMigration → AppliedMigration
stripped row = record row { checksum_sha256 = strip row.checksum_sha256 }

-- SELECT ... WHERE engine = 'postgres', and the dict of what it lists: migration_id is the primary
-- key, so that each row writes a key of its own.
unfoldable pub get_applied : Registry → Registry
get_applied [] = []
get_applied ((id, row) ∷ rest) =
    let others = get_applied rest in
    if row.engine == postgres then (id, stripped row) ∷ others else others
