-- ===== src/Migrations/Planner.antt =====
-- python/apexquant-migrations/src/apexquant-migrations/planner.py
use lord_hermes.Common.{
  not, List, [], ◌∷◌, Option, none, some, ◌==◌, get, values, if◌then◌else◌, is_nonempty,
}
use lord_hermes.Common.Text.{Text, text_eq}
use lord_hermes.Migrations.Models.{
  MigrationEngine, MigrationFile, AppliedMigration, Drift, MigrationPlan,
}

-- What the loop has collected: the pending files and the drift, in the files' order.
pub record Sorted : Type 0 where
  pub pending : List MigrationFile
  pub drift : List Drift

abbrev pub drift_of : MigrationFile → AppliedMigration → Drift
drift_of file existing = record {
  migration_id = file.migration_id;
  expected_checksum = file.checksum_sha256;
  recorded_checksum = existing.checksum_sha256;
}

-- The body of the loop for one file, before what the files after it give.
unfoldable pub sort_file : MigrationFile → Option AppliedMigration → Sorted → Sorted
sort_file file none later = record later { pending = file ∷ later.pending }
sort_file file (some existing) later =
    if not (existing.checksum_sha256 == file.checksum_sha256)
    then record later { drift = drift_of file existing ∷ later.drift }
    else later

unfoldable pub sort_files : List (Text × AppliedMigration) → List MigrationFile → Sorted
sort_files applied [] = record { pending = []; drift = [] }
sort_files applied (file ∷ rest) =
    sort_file file (get file.migration_id applied) (sort_files applied rest)

unfoldable pub build_plan :
    MigrationEngine → List MigrationFile → List (Text × AppliedMigration) → MigrationPlan
build_plan engine files applied =
    let found = sort_files applied files in
    record {
      engine = engine;
      ok = not (is_nonempty found.drift);
      pending = found.pending;
      applied = values applied;
      drift = found.drift;
    }
