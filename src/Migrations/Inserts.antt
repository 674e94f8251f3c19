-- ===== src/Migrations/Inserts.antt =====
-- python/apexquant-migrations/src/apexquant-migrations/postgres.py
-- What the insertion of a row does to the files that the registry has.
use lord_hermes.Common.{
  ◌≡◌, refl, sym, ap, ◌∙◌, subst, Bool, true, false, ◌&&◌, List, [], ◌∷◌, Option, none, some, ◌==◌,
  get, if◌then◌else◌, is_none, and-split, Outcome, ok, err, inl, inr, ◌⊎◌, String, arith, All,
}
use lord_hermes.Common.Text.{Text, text_eq}
use lord_hermes.Migrations.Models.{MigrationFile, AppliedMigration}
use lord_hermes.Migrations.Registry.{Registry, row_of, insert_row}
use lord_hermes.Migrations.Recorded.{IsRegistry, get-insert_row, insert_row-IsRegistry}
use lord_hermes.Migrations.Planned.{Unchanged, is_pending}
use lord_hermes.Migrations.Postgres.{Database, Host, record_file, migrate}

module _ (before : AppliedMigration → AppliedMigration → Bool) (row : AppliedMigration)
    (registry after : Registry) (inserted : insert_row before row registry ≡ ok after) where
  insert_row-history :
      (k : Text) (v : AppliedMigration) → get k registry ≡ some v → get k after ≡ some v
  insert_row-history k v h =
      get-insert_row before row registry after k inserted
      ∙ by_test (is_none (get row.migration_id registry) && (row.migration_id == k)) refl
    where
      by_test :
          (b : Bool)
          → (is_none (get row.migration_id registry) && (row.migration_id == k)) ≡ b
          → (if b then some row else get k registry) ≡ some v
      by_test true e =
          let both =
            and-split (is_none (get row.migration_id registry)) (row.migration_id == k) e in
          let same = (text_eq.beq_iff row.migration_id k).0 both.1 in
          absurd (ground (arith, both.0, subst (λ j. get j registry ≡ some v) (sym same) h))
      by_test false e = h

  insert_row-Unchanged :
      (g : MigrationFile)
      → (row.migration_id ≡ g.migration_id → row.checksum_sha256 ≡ g.checksum_sha256)
      → Unchanged registry g
      → Unchanged after g
  insert_row-Unchanged g agree same x found =
      by_test (is_none (get row.migration_id registry) && (row.migration_id == g.migration_id)) refl
        (sym (get-insert_row before row registry after g.migration_id inserted) ∙ found)
    where
      by_test :
          (b : Bool)
          → (is_none (get row.migration_id registry) && (row.migration_id == g.migration_id)) ≡ b
          → (if b then some row else get g.migration_id registry) ≡ some x
          → x.checksum_sha256 ≡ g.checksum_sha256
      by_test true e q =
          let both =
            and-split (is_none (get row.migration_id registry)) (row.migration_id == g.migration_id)
              e in
          let equal : x ≡ row = cc q in
          ap (λ r. r.checksum_sha256) equal
          ∙ agree ((text_eq.beq_iff row.migration_id g.migration_id).0 both.1)
      by_test false e q = same x q

  insert_row-there : is_none (get row.migration_id after) ≡ false
  insert_row-there =
      ap is_none (get-insert_row before row registry after row.migration_id inserted)
      ∙ by_test (get row.migration_id registry) refl
    where
      by_test :
          (o : Option AppliedMigration)
          → get row.migration_id registry ≡ o
          → is_none (if is_none o && (row.migration_id == row.migration_id) then some row else o)
            ≡ false
      by_test none e = rw ((text_eq.beq_iff row.migration_id row.migration_id).1 refl) refl
      by_test (some v) e = refl

module _ {Schema : Type 0} (host : Host Schema) where
  -- A file's turn leaves the registry, or inserts its row.
  abbrev pub Wrote :
      MigrationFile → Database Schema → Outcome String (Unit {0}) × Database Schema → Type 0
  Wrote f db r =
      ((e : String) × (r.0 ≡ err e) × (r.1.registry ≡ db.registry))
      ⊎ (insert_row host.before (row_of f (host.clock f)) db.registry ≡ ok r.1.registry)

  pub record_file-Wrote :
      (f : MigrationFile) (db : Database Schema) → Wrote f db (record_file host f db)
  unfolding record_file
  record_file-Wrote f db =
      by_result (insert_row host.before (row_of f (host.clock f)) db.registry) refl
    where
      by_result :
          (o : Outcome String Registry)
          → insert_row host.before (row_of f (host.clock f)) db.registry ≡ o
          → Wrote f db (elim o [
            | err e ↦ (err e, db)
            | ok registry ↦ (ok tt, record db { registry = registry })
          ])
      by_result (err e) q = inl (e, refl, refl)
      by_result (ok registry) q = inr q

  pub migrate-Wrote : (f : MigrationFile) (db : Database Schema) → Wrote f db (migrate host f db)
  unfolding migrate
  migrate-Wrote f db = by_text (host.read_text f.path)
    where
      by_execution :
          (r : Outcome (String × Bool) (Unit {0})) (schema : Schema)
          → Wrote f db (elim r [
            | err (e, aborts) ↦ (err e, record db { schema = schema; aborted = aborts })
            | ok done ↦ record_file host f (record db { schema = schema })
          ])
      by_execution (err (e, aborts)) schema = inl (e, refl, refl)
      by_execution (ok done) schema = record_file-Wrote f (record db { schema = schema })

      by_text :
          (o : Outcome String String)
          → Wrote f db (elim o [
            | err e ↦ (err e, db)
            | ok sql ↦
                let (result, schema) = host.execute sql db.schema in
                let executed = record db { schema = schema } in
                elim result [
                  | err (e, aborts) ↦ (err e, record executed { aborted = aborts })
                  | ok done ↦ record_file host f executed
                ]
          ])
      by_text (err e) = inl (e, refl, refl)
      by_text (ok sql) = by_execution (host.execute sql db.schema).0 (host.execute sql db.schema).1

  -- One turn, whatever it is, that writes so.
  module _ (step : MigrationFile → Database Schema → Outcome String (Unit {0}) × Database Schema)
      (wrote : (f : MigrationFile) (db : Database Schema) → Wrote f db (step f db)) where
    pub step-IsRegistry :
        (f : MigrationFile) (db : Database Schema)
        → IsRegistry db.registry
        → IsRegistry (step f db).1.registry
    unfolding row_of
    step-IsRegistry f db h = elim (wrote f db) [
      | inl (e, _, same) ↦ subst IsRegistry (sym same) h
      | inr ins ↦
          insert_row-IsRegistry host.before (row_of f (host.clock f)) db.registry _ refl h ins
    ]

    pub step-history :
        (k : Text) (v : AppliedMigration) (f : MigrationFile) (db : Database Schema)
        → get k db.registry ≡ some v
        → get k (step f db).1.registry ≡ some v
    step-history k v f db h = elim (wrote f db) [
      | inl (e, _, same) ↦ ap (get k) same ∙ h
      | inr ins ↦ insert_row-history host.before (row_of f (host.clock f)) db.registry _ ins k v h
    ]

    -- Two files of one id have one checksum.
    pub step-Unchanged :
        (files : List MigrationFile) (f : MigrationFile) (db : Database Schema)
        → All (λ g. f.migration_id ≡ g.migration_id → f.checksum_sha256 ≡ g.checksum_sha256) files
        → All (Unchanged db.registry) files
        → All (Unchanged (step f db).1.registry) files
    unfolding row_of
    step-Unchanged files f db agree same = elim (wrote f db) [
      | inl (e, _, equal) ↦ subst (λ r. All (Unchanged r) files) (sym equal) same
      | inr ins ↦ by_file files agree same ins
    ]
      where
        by_file :
            (gs : List MigrationFile)
            → All (λ g. f.migration_id ≡ g.migration_id → f.checksum_sha256 ≡ g.checksum_sha256) gs
            → All (Unchanged db.registry) gs
            → insert_row host.before (row_of f (host.clock f)) db.registry
              ≡ ok (step f db).1.registry
            → All (Unchanged (step f db).1.registry) gs
        by_file [] a s ins = tt
        by_file (g ∷ gs) a s ins = (
          insert_row-Unchanged host.before (row_of f (host.clock f)) db.registry _ ins g a.0 s.0,
          by_file gs a.1 s.1 ins,
        )

    pub step-there :
        (f : MigrationFile) (db after : Database Schema)
        → step f db ≡ (ok tt, after)
        → is_pending after.registry f ≡ false
    unfolding row_of
    step-there f db after q = elim (wrote f db) [
      | inl (e, failed, _) ↦ absurd (clash (sym (ap (λ r. r.0) q) ∙ failed))
      | inr ins ↦
          subst (λ r. is_pending r.1.registry f ≡ false) q
            (insert_row-there host.before (row_of f (host.clock f)) db.registry _ ins)
    ]
      where
        clash : {e : String} → ◌≡◌ {A = Outcome String (Unit {0})} (ok tt) (err e) → ⊥
        clash h = cc h
