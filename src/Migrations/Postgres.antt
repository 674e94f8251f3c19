-- ===== src/Migrations/Postgres.antt =====
-- python/apexquant-migrations/src/apexquant-migrations/postgres.py
-- PostgresMigrator over the database that it migrates. The connection is up, and commits each
-- statement by itself. A script that a migration holds changes the schema outside schema_migrations,
-- and may fail; one with a BEGIN that fails leaves the session in an aborted transaction, in which
-- the server refuses each further statement. One that succeeds leaves no transaction open.
use lord_hermes.Common.{
  ℕ, Bool, true, false, not, ◌&&◌, List, [], ◌∷◌, ◌++◌, map, Option, none, some, String, get, put,
  string_eq, length, if◌then◌else◌, is_nonempty, Outcome, ok, err,
}
use lord_hermes.Common.Text.{Text, text_eq}
use lord_hermes.Migrations.Models.{
  MigrationEngine, postgres, MigrationFile, AppliedMigration, MigrationPlan, MigrationRunReport,
  Mode, Detail, Drift, drift_items, pending_items, pending_one, applied_one, baselined_one,
}
use lord_hermes.Migrations.Planner.{build_plan}
use lord_hermes.Migrations.Registry.{Registry, row_of, insert_row, get_applied}
use lord_hermes.Migrations.Loop.{Progress, apply_pending}

pub data MigrationError : Type 0 where
  undiscovered : String → MigrationError
  drifted : List Drift → MigrationError
  failed : String → MigrationError
  in_failed_transaction : MigrationError
  unconfirmed : MigrationError

pub data RunStatus : Type 0 where
  running : RunStatus
  success : RunStatus
  failure : RunStatus

-- A row of schema_migrations.migration_runs.
pub record MigrationRun : Type 0 where
  pub status : RunStatus
  pub planned_count : ℕ
  pub applied_count : ℕ
  pub failed_count : ℕ
  pub error : Option String

-- The database, whether this session holds the advisory lock, and whether it is in an aborted
-- transaction.
pub record Database (Schema : Type 0) : Type 0 where
  pub schema : Schema
  pub registry : Registry
  pub runs : List (String × MigrationRun)
  pub locked : Bool
  pub aborted : Bool

-- What the operations call: the reader of files, the server, its clock and its collation.
pub record Host (Schema : Type 0) : Type 0 where
  pub read_text : Text → Outcome String String
  -- An error comes with whether it leaves the session in an aborted transaction.
  pub execute : String → Schema → Outcome (String × Bool) (Unit {0}) × Schema
  pub clock : MigrationFile → ℕ
  pub before : AppliedMigration → AppliedMigration → Bool

-- The report of `verify`.
abbrev pub verify_details : MigrationPlan → List Detail
verify_details plan =
    (if is_nonempty plan.drift then drift_items plan.drift ∷ [] else [])
    ++ (if is_nonempty plan.pending
        then pending_items (map (λ f. f.migration_id) plan.pending) ∷ []
        else [])

abbrev pub report_verify : MigrationEngine → MigrationPlan → MigrationRunReport
report_verify engine plan = record {
  engine = engine;
  mode = Mode.verify;
  ok = plan.ok && not (is_nonempty plan.pending);
  planned = length plan.pending;
  applied = 0;
  skipped = length plan.pending;
  failed = length plan.drift;
  details = verify_details plan;
}

abbrev pub report_dry_run : MigrationEngine → MigrationPlan → MigrationRunReport
report_dry_run engine plan = record {
  engine = engine;
  mode = Mode.dry_run;
  ok = true;
  planned = length plan.pending;
  applied = 0;
  skipped = length plan.pending;
  failed = 0;
  details = map (λ f. pending_one f.migration_id) plan.pending;
}

abbrev pub report_done :
    {State : Type 0} → MigrationEngine → Mode → MigrationPlan → Progress State → MigrationRunReport
report_done engine mode plan progress = record {
  engine = engine;
  mode = mode;
  ok = true;
  planned = length plan.pending;
  applied = progress.applied_count;
  skipped = 0;
  failed = 0;
  details = progress.details;
}

module _ {Schema : Type 0} where
  -- On the connection that was just opened.
  unfoldable pub acquire_lock : Database Schema → Database Schema
  acquire_lock db = record db { locked = true; aborted = false }

  unfoldable pub release_lock : Database Schema → Database Schema
  release_lock db = record db { locked = false }

  -- The end of the session rolls its transaction back and gives up its advisory locks.
  unfoldable pub close : Database Schema → Database Schema
  close db = record db { locked = false; aborted = false }

  -- INSERT INTO migration_runs, and UPDATE ... WHERE run_id.
  abbrev pub start_run : String → MigrationPlan → Database Schema → Database Schema
  start_run run_id plan db = record db {
    runs =
        put run_id
          (record {
            status = running;
            planned_count = length plan.pending;
            applied_count = 0;
            failed_count = 0;
            error = none;
          })
          db.runs;
  }

  abbrev pub change_run :
      String
      → (MigrationRun → MigrationRun)
      → Option MigrationRun
      → Database Schema
      → Database Schema
  change_run run_id change none db = db
  change_run run_id change (some run) db = record db { runs = put run_id (change run) db.runs }

  abbrev pub finish_run : String → RunStatus → Progress (Database Schema) → ℕ → Database Schema
  finish_run run_id status progress failed_count =
      change_run run_id
        (λ run. record run {
          status = status;
          applied_count = progress.applied_count;
          failed_count = failed_count;
          error = progress.error;
        })
        (get run_id progress.state.runs) progress.state

  -- What discovers the files raises, or gives the plan.
  unfoldable pub plan :
      Outcome String (List MigrationFile) → Database Schema → Outcome MigrationError MigrationPlan
  plan (err e) db = err (undiscovered e)
  plan (ok files) db = ok (build_plan postgres files (get_applied db.registry))

  unfoldable pub verify :
      Outcome String (List MigrationFile)
      → Database Schema
      → Outcome MigrationError MigrationRunReport
  verify files db = elim (plan files db) [
    | err e ↦ err e
    | ok found ↦ ok (report_verify postgres found)
  ]

module _ {Schema : Type 0} (host : Host Schema) where
  -- The insertion of a file's row, in both loops.
  unfoldable pub record_file :
      MigrationFile → Database Schema → Outcome String (Unit {0}) × Database Schema
  record_file file db = elim (insert_row host.before (row_of file (host.clock file)) db.registry) [
    | err e ↦ (err e, db)
    | ok registry ↦ (ok tt, record db { registry = registry })
  ]

  -- The body of the loop of `apply`.
  unfoldable pub migrate :
      MigrationFile → Database Schema → Outcome String (Unit {0}) × Database Schema
  migrate file db = elim (host.read_text file.path) [
    | err e ↦ (err e, db)
    | ok sql ↦
        let (result, schema) = host.execute sql db.schema in
        let executed = record db { schema = schema } in
        elim result [
          | err (e, aborts) ↦ (err e, record executed { aborted = aborts })
          | ok done ↦ record_file file executed
        ]
  ]

  -- The except branch, by whether the session is in an aborted transaction: there the UPDATE raises,
  -- and leaves the block before release_lock and before PostgresMigrationError.
  abbrev pub settle_failed :
      String
      → Progress (Database Schema)
      → String
      → Bool
      → Outcome MigrationError MigrationRunReport × Database Schema
  settle_failed run_id progress e true = (err in_failed_transaction, close progress.state)
  settle_failed run_id progress e false =
      (err (failed e), close (release_lock (finish_run run_id failure progress 1)))

  abbrev pub settle :
      String
      → MigrationPlan
      → Progress (Database Schema)
      → Option String
      → Outcome MigrationError MigrationRunReport × Database Schema
  settle run_id planned progress none = (
    ok (report_done postgres Mode.apply planned progress),
    close (release_lock (finish_run run_id success progress 0)),
  )
  settle run_id planned progress (some e) = settle_failed run_id progress e progress.state.aborted

  -- `apply` from the connection on: under the lock, with the plan made before it.
  unfoldable pub apply_locked :
      String
      → MigrationPlan
      → Database Schema
      → Outcome MigrationError MigrationRunReport × Database Schema
  apply_locked run_id planned db =
      let progress =
        apply_pending migrate applied_one planned.pending 0 []
          (start_run run_id planned (acquire_lock db)) in
      settle run_id planned progress progress.error

  -- `apply`, once the plan is made or could not be.
  abbrev pub apply_plan :
      String
      → Bool
      → Database Schema
      → Outcome MigrationError MigrationPlan
      → Outcome MigrationError MigrationRunReport × Database Schema
  apply_plan run_id dry_run db (err e) = (err e, db)
  apply_plan run_id dry_run db (ok planned) =
      if not planned.ok
      then (err (drifted planned.drift), db)
      else if dry_run
      then (ok (report_dry_run postgres planned), db)
      else apply_locked run_id planned db

  unfoldable pub apply :
      String
      → Bool
      → Outcome String (List MigrationFile)
      → Database Schema
      → Outcome MigrationError MigrationRunReport × Database Schema
  apply run_id dry_run files db = apply_plan run_id dry_run db (plan files db)

  abbrev pub settle_baseline :
      MigrationPlan
      → Progress (Database Schema)
      → Option String
      → Outcome MigrationError MigrationRunReport × Database Schema
  settle_baseline planned progress none = (
    ok (report_done postgres Mode.baseline planned progress),
    close (release_lock progress.state),
  )
  settle_baseline planned progress (some e) = (err (failed e), close (release_lock progress.state))

  abbrev pub baseline_plan :
      Database Schema
      → Outcome MigrationError MigrationPlan
      → Outcome MigrationError MigrationRunReport × Database Schema
  baseline_plan db (err e) = (err e, db)
  baseline_plan db (ok planned) =
      let progress =
        apply_pending record_file baselined_one planned.pending 0 [] (acquire_lock db) in
      settle_baseline planned progress progress.error

  unfoldable pub baseline :
      Bool
      → Outcome String (List MigrationFile)
      → Database Schema
      → Outcome MigrationError MigrationRunReport × Database Schema
  baseline confirm files db =
      if not confirm then (err unconfirmed, db) else baseline_plan db (plan files db)
