-- ===== src/Migrations/Models.antt =====
-- python/apexquant-migrations/src/apexquant-migrations/models.py
-- The readings of the clock in a report are left out.
use lord_hermes.Common.{ℕ, Bool, List, enum_eq, Eq}
use lord_hermes.Common.Text.{Text}

pub data MigrationEngine : Type 0 where
  postgres : MigrationEngine
  clickhouse : MigrationEngine

pub MigrationEngine-discrete : Discrete MigrationEngine
MigrationEngine-discrete = hlevel

instance abbrev pub engine_eq : Eq MigrationEngine
engine_eq = enum_eq MigrationEngine-discrete

pub record MigrationFile : Type 0 where
  pub engine : MigrationEngine
  pub domain : Text
  pub filename : Text
  pub path : Text
  pub version : Text
  pub migration_id : Text
  pub checksum_sha256 : Text

pub record AppliedMigration : Type 0 where
  pub migration_id : Text
  pub engine : MigrationEngine
  pub domain : Text
  pub version : Text
  pub filename : Text
  pub checksum_sha256 : Text
  pub applied_at : ℕ

-- An entry of a plan's drift.
pub record Drift : Type 0 where
  pub migration_id : Text
  pub expected_checksum : Text
  pub recorded_checksum : Text

pub record MigrationPlan : Type 0 where
  pub engine : MigrationEngine
  pub ok : Bool
  pub pending : List MigrationFile
  pub applied : List AppliedMigration
  pub drift : List Drift

-- The dicts that the details of a report hold.
pub data Detail : Type 0 where
  drift_items : List Drift → Detail
  pending_items : List Text → Detail
  pending_one : Text → Detail
  applied_one : Text → Detail
  baselined_one : Text → Detail

pub data Mode : Type 0 where
  verify : Mode
  dry_run : Mode
  apply : Mode
  baseline : Mode

pub record MigrationRunReport : Type 0 where
  pub engine : MigrationEngine
  pub mode : Mode
  pub ok : Bool
  pub planned : ℕ
  pub applied : ℕ
  pub skipped : ℕ
  pub failed : ℕ
  pub details : List Detail
