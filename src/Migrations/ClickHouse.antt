-- ===== src/Migrations/ClickHouse.antt =====
-- python/apexquant-migrations/src/apexquant-migrations/clickhouse.py
-- ClickHouseMigrator. A client may fail to connect; once it is there the server is up, and only a
-- statement of a script may fail. The lock is that of FileLock or of PostgresAdvisoryLock.
use lord_hermes.Common.{
  ℕ, Bool, true, false, not, List, [], ◌∷◌, ◌++◌, Option, none, some, String, put, ◌==◌, length,
  if◌then◌else◌, Outcome, ok, err,
}
use lord_hermes.Common.Text.{Text, text_eq}
use lord_hermes.Migrations.Models.{
  clickhouse, engine_eq, MigrationFile, AppliedMigration, MigrationPlan, MigrationRunReport, Mode,
  applied_one,
}
use lord_hermes.Migrations.Planner.{build_plan}
use lord_hermes.Migrations.Registry.{Registry}
use lord_hermes.Migrations.Loop.{Progress, apply_pending}
use lord_hermes.Migrations.Postgres.{
  MigrationError, undiscovered, drifted, failed, RunStatus, success, failure, report_verify,
  report_dry_run, report_done,
}
use lord_hermes.Migrations.Statements.{split_sql}

-- A row of schema_migrations.migration_runs, which `apply` writes at its end.
pub record Run : Type 0 where
  pub run_id : Text
  pub status : RunStatus
  pub planned_count : ℕ
  pub applied_count : ℕ
  pub failed_count : ℕ
  pub error : Option String

-- The warehouse, and whether this migrator holds its lock.
pub record Warehouse (Schema : Type 0) : Type 0 where
  pub schema : Schema
  pub registry : Registry
  pub runs : List Run
  pub locked : Bool

pub record Engine (Schema : Type 0) : Type 0 where
  pub read_text : Text → Outcome String Text
  pub command : Text → Schema → Outcome String (Unit {0}) × Schema
  pub clock : MigrationFile → ℕ
  -- get_client of `plan`, and of `apply` under the lock.
  pub plan_client : Outcome String (Unit {0})
  pub apply_client : Outcome String (Unit {0})

-- SELECT ... FINAL WHERE engine = 'clickhouse': the last row of each id.
unfoldable pub get_applied : Registry → Registry
get_applied [] = []
get_applied ((id, row) ∷ rest) =
    let others = get_applied rest in if row.engine == clickhouse then (id, row) ∷ others else others

unfoldable pub row_of : MigrationFile → ℕ → AppliedMigration
row_of file now = record {
  migration_id = file.migration_id;
  engine = clickhouse;
  domain = file.domain;
  version = file.version;
  filename = file.filename;
  checksum_sha256 = file.checksum_sha256;
  applied_at = now;
}

module _ {Schema : Type 0} (engine : Engine Schema) where
  unfoldable pub acquire : Warehouse Schema → Warehouse Schema
  acquire db = record db { locked = true }

  unfoldable pub release : Warehouse Schema → Warehouse Schema
  release db = record db { locked = false }

  abbrev plan_with :
      Outcome String (Unit {0})
      → List MigrationFile
      → Warehouse Schema
      → Outcome MigrationError MigrationPlan
  plan_with (err e) files db = err (failed e)
  plan_with (ok client) files db = ok (build_plan clickhouse files (get_applied db.registry))

  unfoldable pub plan :
      Outcome String (List MigrationFile) → Warehouse Schema → Outcome MigrationError MigrationPlan
  plan (err e) db = err (undiscovered e)
  plan (ok files) db = plan_with engine.plan_client files db

  unfoldable pub verify :
      Outcome String (List MigrationFile)
      → Warehouse Schema
      → Outcome MigrationError MigrationRunReport
  verify files db = elim (plan files db) [
    | err e ↦ err e
    | ok found ↦ ok (report_verify clickhouse found)
  ]

  -- The inner loop of `apply`: the statements of a script, up to one that fails.
  unfoldable pub run_statements : List Text → Schema → Outcome String (Unit {0}) × Schema
  run_statements [] schema = (ok tt, schema)
  run_statements (statement ∷ rest) schema =
      let (result, after) = engine.command statement schema in
      elim result [ err e ↦ (err e, after) | ok done ↦ run_statements rest after ]

  unfoldable pub migrate :
      MigrationFile → Warehouse Schema → Outcome String (Unit {0}) × Warehouse Schema
  migrate file db = elim (engine.read_text file.path) [
    | err e ↦ (err e, db)
    | ok sql ↦
        let (result, schema) = run_statements (split_sql sql) db.schema in
        let executed = record db { schema = schema } in
        elim result [
          | err e ↦ (err e, executed)
          | ok done ↦ (
            ok tt,
            record executed {
              registry = put file.migration_id (row_of file (engine.clock file)) db.registry;
            },
          )
        ]
  ]

  abbrev add_run :
      Text → RunStatus → MigrationPlan → Progress (Warehouse Schema) → ℕ → Warehouse Schema
  add_run run_id status planned progress failed_count = record progress.state {
    runs =
        progress.state.runs
        ++ record {
          run_id = run_id;
          status = status;
          planned_count = length planned.pending;
          applied_count = progress.applied_count;
          failed_count = failed_count;
          error = progress.error;
        }
          ∷ [];
  }

  abbrev pub settle :
      Text
      → MigrationPlan
      → Progress (Warehouse Schema)
      → Option String
      → Outcome MigrationError MigrationRunReport × Warehouse Schema
  settle run_id planned progress none = (
    ok (report_done clickhouse Mode.apply planned progress),
    release (add_run run_id success planned progress 0),
  )
  settle run_id planned progress (some e) =
      (err (failed e), release (add_run run_id failure planned progress 1))

  -- `apply` under the lock; get_client stands before the try that releases it.
  abbrev pub apply_locked :
      Text
      → MigrationPlan
      → Outcome String (Unit {0})
      → Warehouse Schema
      → Outcome MigrationError MigrationRunReport × Warehouse Schema
  apply_locked run_id planned (err e) db = (err (failed e), db)
  apply_locked run_id planned (ok client) db =
      let progress = apply_pending migrate applied_one planned.pending 0 [] db in
      settle run_id planned progress progress.error

  abbrev pub apply_plan :
      Text
      → Bool
      → Warehouse Schema
      → Outcome MigrationError MigrationPlan
      → Outcome MigrationError MigrationRunReport × Warehouse Schema
  apply_plan run_id dry_run db (err e) = (err e, db)
  apply_plan run_id dry_run db (ok planned) =
      if not planned.ok
      then (err (drifted planned.drift), db)
      else if dry_run
      then (ok (report_dry_run clickhouse planned), db)
      else apply_locked run_id planned engine.apply_client (acquire db)

  unfoldable pub apply :
      Text
      → Bool
      → Outcome String (List MigrationFile)
      → Warehouse Schema
      → Outcome MigrationError MigrationRunReport × Warehouse Schema
  apply run_id dry_run files db = apply_plan run_id dry_run db (plan files db)
