-- ===== src/Migrations/Leaks.antt =====
-- python/apexquant-migrations/src/apexquant-migrations/clickhouse.py
-- The lock of ClickHouseMigrator after `apply`, and a file that fails half-way.
use lord_hermes.Common.{
  ◌≡◌, ◌↔◌, refl, ap, ◌∙◌, true, false, List, [], Option, none, some, String, Outcome, ok, err,
  arith, is_ok,
}
use lord_hermes.Common.Text.{Text, text_eq}
use lord_hermes.Migrations.Models.{MigrationFile, MigrationPlan, applied_one}
use lord_hermes.Migrations.Loop.{Progress, apply_pending}
use lord_hermes.Migrations.ClickHouse.{
  Warehouse, Engine, plan, migrate, apply, apply_locked, acquire, release, settle,
}

module _ {Schema : Type 0} (engine : Engine Schema) where
  settle-locked :
      (run_id : Text) (planned : MigrationPlan) (progress : Progress (Warehouse Schema))
      (e : Option String)
      → (settle engine run_id planned progress e).1.locked ≡ false
  unfolding release
  settle-locked run_id planned progress none = refl
  settle-locked run_id planned progress (some e) = refl

  -- When `apply` has a sound plan to run, it ends with the lock released exactly if its client
  -- connects; otherwise it ends holding the lock.
  pub lock_kept_iff :
      (run_id : Text) (files : Outcome String (List MigrationFile)) (db : Warehouse Schema)
      (planned : MigrationPlan)
      → plan engine files db ≡ ok planned
      → planned.ok ≡ true
      → ((apply engine run_id false files db).1.locked ≡ false) ↔ (is_ok engine.apply_client ≡ true)
  unfolding apply acquire
  lock_kept_iff run_id files db planned made sound = by_client engine.apply_client refl
    where
      runs :
          (client : Outcome String (Unit {0}))
          → engine.apply_client ≡ client
          → apply engine run_id false files db
            ≡ apply_locked engine run_id planned client (acquire engine db)
      runs client e = rw (made, sound, e) refl

      settled :
          (c : Unit {0})
          → (apply_locked engine run_id planned (ok c) (acquire engine db)).1.locked ≡ false
      settled c =
          let progress =
            apply_pending (migrate engine) applied_one planned.pending 0 [] (acquire engine db) in
          settle-locked run_id planned progress progress.error

      by_client :
          (client : Outcome String (Unit {0}))
          → engine.apply_client ≡ client
          → ((apply engine run_id false files db).1.locked ≡ false) ↔ (is_ok client ≡ true)
      by_client (ok c) e = (λ _. refl, λ _. ap (λ r. r.1.locked) (runs (ok c) e) ∙ settled c)
      by_client (err x) e = (λ h. absurd (ground (arith, made, sound, e, h)), λ h. absurd (cc h))
