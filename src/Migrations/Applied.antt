-- ===== src/Migrations/Applied.antt =====
-- python/apexquant-migrations/src/apexquant-migrations/postgres.py
-- What `apply` and `baseline` leave, on each of their branches.
use lord_hermes.Common.{
  both_All, ◌≡◌, refl, sym, ap, subst, Bool, true, false, not, List, [], Option, none, some, get,
  keep, All, All-keep, All_every, keep-All, if-cases, is_none, Outcome, ok, err, inl, inr, String,
  arith, Option-cases,
}
use lord_hermes.Common.Text.{Text, text_eq}
use lord_hermes.Migrations.Models.{
  MigrationFile, AppliedMigration, MigrationPlan, MigrationRunReport, Detail, applied_one,
  baselined_one,
}
use lord_hermes.Migrations.Registry.{Registry}
use lord_hermes.Migrations.Recorded.{IsRegistry}
use lord_hermes.Migrations.Planned.{is_pending, Unchanged, Recorded, Recorded-iff}
use lord_hermes.Migrations.Loop.{
  Progress, apply_pending, apply_pending-keeps, apply_pending-Went, Went-All,
}
use lord_hermes.Migrations.Postgres.{
  Database, Host, MigrationError, plan, record_file, migrate, apply_locked, apply, baseline,
  acquire_lock, release_lock, close, start_run, settle, settle_failed, apply_plan, baseline_plan,
  settle_baseline,
}
use lord_hermes.Migrations.Inserts.{
  Wrote, record_file-Wrote, migrate-Wrote, step-IsRegistry, step-history, step-Unchanged,
  step-there,
}

-- Files of one id have one checksum, as the files of a directory do.
abbrev pub Agrees : List MigrationFile → MigrationFile → Type 0
Agrees files f =
    All (λ g. f.migration_id ≡ g.migration_id → f.checksum_sha256 ≡ g.checksum_sha256) files

abbrev pub IsConsistent : List MigrationFile → Type 0
IsConsistent files = All (Agrees files) files

module _ {Schema : Type 0} (host : Host Schema)
    (step : MigrationFile → Database Schema → Outcome String (Unit {0}) × Database Schema)
    (wrote : (f : MigrationFile) (db : Database Schema) → Wrote host f db (step f db))
    (note : Text → Detail) where
  pub is_pending-step :
      (f g : MigrationFile) (db : Database Schema)
      → is_pending db.registry g ≡ false
      → is_pending (step f db).1.registry g ≡ false
  is_pending-step f g db there = elim (Option-cases (get g.migration_id db.registry)) [
    | inl e ↦ absurd (ground (arith, e, there))
    | inr (row, e) ↦ ap is_none (step-history host step wrote g.migration_id row f db e)
  ]

  -- The loop over the pending files of a sound plan, when it ends without an exception: each of
  -- the files is recorded.
  pub loop-Recorded :
      (files : List MigrationFile) (db : Database Schema)
      → IsConsistent files
      → All (Unchanged db.registry) files
      → let pending = keep (is_pending db.registry) files in
        let progress = apply_pending step note pending 0 [] db in
        progress.error ≡ none → All (Recorded progress.state.registry) files
  loop-Recorded files db consistent same ended =
      let pending = keep (is_pending db.registry) files in
      let progress = apply_pending step note pending 0 [] db in
      let fits : All (Agrees files) pending =
        All-keep (Agrees files) (is_pending db.registry) files consistent in
      let after = progress.state.registry in
      let unchanged : All (Unchanged after) files =
        apply_pending-keeps step note (Agrees files) (λ s. All (Unchanged s.registry) files)
          (λ f s. step-Unchanged host step wrote files f s) pending 0 [] db fits same in
      let there : All (λ f. is_pending after f ≡ false) files =
        keep-All (λ f. is_pending after f ≡ false) (is_pending db.registry) files
          (Went-All step note Done pending 0 progress
            (apply_pending-Went step note (Agrees files) Done (λ f g s _. is_pending-step f g s)
              (step-there host step wrote) pending 0 [] db fits)
            ended)
          (All_every (λ g. is_pending db.registry g ≡ false → is_pending after g ≡ false)
            (λ g.
              apply_pending-keeps step note (Agrees files) (λ s. is_pending s.registry g ≡ false)
                (λ f s _. is_pending-step f g s) pending 0 [] db fits)
            files) in
      both_All (Unchanged after) (λ f. is_pending after f ≡ false) (Recorded after)
        (λ f u t. (Recorded-iff after f).1 (u, t)) files unchanged there
    where
      Done : MigrationFile → Database Schema → Type 0
      Done f s = is_pending s.registry f ≡ false

module _ {Schema : Type 0} (host : Host Schema) where
  pub migrate-runs :
      (f : MigrationFile) (db : Database Schema) → (migrate host f db).1.runs ≡ db.runs
  unfolding migrate record_file
  migrate-runs f db = ground arith

  pub settle_failed-registry :
      (run_id : String) (progress : Progress (Database Schema)) (e : String) (b : Bool)
      → (settle_failed host run_id progress e b).1.registry ≡ progress.state.registry
  unfolding release_lock close
  settle_failed-registry run_id progress e true = refl
  settle_failed-registry run_id progress e false = ground arith

  pub settle-registry :
      (run_id : String) (planned : MigrationPlan) (progress : Progress (Database Schema))
      (e : Option String)
      → (settle host run_id planned progress e).1.registry ≡ progress.state.registry
  unfolding release_lock close
  settle-registry run_id planned progress none = ground arith
  settle-registry run_id planned progress (some e) =
      settle_failed-registry run_id progress e progress.state.aborted

  -- What `apply` and `baseline` leave of the registry is what their loops leave, or the registry
  -- as it was.
  module _ (P : Registry → Type 0)
      (turn : (f : MigrationFile) (s : Database Schema)
          (step : MigrationFile → Database Schema → Outcome String (Unit {0}) × Database Schema)
        → ((g : MigrationFile) (t : Database Schema) → Wrote host g t (step g t))
        → P s.registry
        → P (step f s).1.registry) where
    loop-ends :
        (step : MigrationFile → Database Schema → Outcome String (Unit {0}) × Database Schema)
        → ((g : MigrationFile) (t : Database Schema) → Wrote host g t (step g t))
        → (note : Text → Detail) (files : List MigrationFile) (db : Database Schema) → P db.registry
        → P (apply_pending step note files 0 [] db).state.registry
    loop-ends step wrote note files db p =
        apply_pending-keeps step note (λ _. Unit {0}) (λ s. P s.registry)
          (λ f s _. turn f s step wrote) files 0 [] db (All_every (λ _. Unit {0}) (λ _. tt) files) p

    apply-ends :
        (run_id : String) (dry_run : Bool) (files : Outcome String (List MigrationFile))
        (db : Database Schema)
        → P db.registry
        → P (apply host run_id dry_run files db).1.registry
    unfolding apply apply_locked acquire_lock
    apply-ends run_id dry_run files db p = by_plan (plan files db)
      where
        by_plan :
            (o : Outcome MigrationError MigrationPlan)
            → P (apply_plan host run_id dry_run db o).1.registry
        by_plan (err e) = p
        by_plan (ok planned) =
            let start = start_run run_id planned (acquire_lock db) in
            let progress = apply_pending (migrate host) applied_one planned.pending 0 [] start in
            if-cases
              (λ (r : Outcome MigrationError MigrationRunReport × Database Schema). P r.1.registry)
              (not planned.ok) p
              (if-cases
                (λ (r : Outcome MigrationError MigrationRunReport × Database Schema).
                  P r.1.registry)
                dry_run p
                (subst P (sym (settle-registry run_id planned progress progress.error)) (
                  loop-ends (migrate host) (migrate-Wrote host) applied_one planned.pending start
                    p)))

    baseline-ends :
        (confirm : Bool) (files : Outcome String (List MigrationFile)) (db : Database Schema)
        → P db.registry
        → P (baseline host confirm files db).1.registry
    unfolding baseline acquire_lock release_lock close
    baseline-ends confirm files db p =
        if-cases
          (λ (r : Outcome MigrationError MigrationRunReport × Database Schema). P r.1.registry)
          (not confirm) p (by_plan (plan files db))
      where
        by_end :
            (planned : MigrationPlan) (progress : Progress (Database Schema)) (e : Option String)
            → P progress.state.registry
            → P (settle_baseline host planned progress e).1.registry
        by_end planned progress none q = q
        by_end planned progress (some e) q = q

        by_plan :
            (o : Outcome MigrationError MigrationPlan) → P (baseline_plan host db o).1.registry
        by_plan (err e) = p
        by_plan (ok planned) =
            let progress =
              apply_pending (record_file host) baselined_one planned.pending 0 []
                (acquire_lock db) in
            by_end planned progress progress.error (
              loop-ends (record_file host) (record_file-Wrote host) baselined_one planned.pending
                (acquire_lock db) p)

  -- A row that the registry has stays as it is, whatever `apply` or `baseline` does.
  pub history_kept :
      (k : Text) (row : AppliedMigration) (run_id : String) (dry_run confirm : Bool)
      (files : Outcome String (List MigrationFile)) (db : Database Schema)
      → get k db.registry ≡ some row
      → (get k (apply host run_id dry_run files db).1.registry ≡ some row)
        × (get k (baseline host confirm files db).1.registry ≡ some row)
  history_kept k row run_id dry_run confirm files db h =
      let P : Registry → Type 0 = λ r. get k r ≡ some row in
      (
        apply-ends P (λ f s step wrote. step-history host step wrote k row f s) run_id dry_run files
            db h,
        baseline-ends P (λ f s step wrote. step-history host step wrote k row f s) confirm files db
            h,
      )

  -- Each row stands under its own id, is of this engine and meets the table's constraints, after
  -- `apply` and after `baseline` as before.
  pub registry_kept :
      (run_id : String) (dry_run confirm : Bool) (files : Outcome String (List MigrationFile))
      (db : Database Schema)
      → IsRegistry db.registry
      → IsRegistry (apply host run_id dry_run files db).1.registry
        × IsRegistry (baseline host confirm files db).1.registry
  registry_kept run_id dry_run confirm files db h = (
    apply-ends IsRegistry (λ f s step wrote. step-IsRegistry host step wrote f s) run_id dry_run
        files db h,
    baseline-ends IsRegistry (λ f s step wrote. step-IsRegistry host step wrote f s) confirm files
        db h,
  )
