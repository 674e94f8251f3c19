-- ===== src/Migrations/Failure.antt =====
-- python/apexquant-migrations/src/apexquant-migrations/postgres.py
-- The state that `apply` leaves when a file fails, in a good transaction and in an aborted one.
use lord_hermes.Common.{
  ℕ, ◌≡◌, ◌≢◌, refl, sym, ap, ◌∙◌, subst, Bool, true, false, List, [], ◌++◌, Option, none, some,
  get, get-put_self, string_eq, length, All, All_every, ok, err, String, arith,
}
use lord_hermes.Migrations.Models.{MigrationFile, MigrationPlan, applied_one}
use lord_hermes.Migrations.Planned.{is_pending}
use lord_hermes.Migrations.Loop.{Progress, apply_pending-keeps, apply_pending-Went}
use lord_hermes.Migrations.Postgres.{
  Database, Host, failed, in_failed_transaction, MigrationRun, running, failure, change_run,
  migrate, apply, acquire_lock, release_lock, close, settle_failed, start_run, finish_run, settle,
}
use lord_hermes.Migrations.Inserts.{migrate-Wrote, step-there}
use lord_hermes.Migrations.Applied.{is_pending-step, migrate-runs, settle_failed-registry}
use lord_hermes.Migrations.Success.{planned, progress, apply_sound, apply_unsound}

module _ {Schema : Type 0} (host : Host Schema) where
  -- The record with which a run starts.
  abbrev pub started : ℕ → MigrationRun
  started count = record {
    status = running;
    planned_count = count;
    applied_count = 0;
    failed_count = 0;
    error = none;
  }

  finished_run :
      (run_id : String) (went : Progress (Database Schema)) (run : MigrationRun)
      → get run_id went.state.runs ≡ some run
      → get run_id (close (release_lock (finish_run run_id failure went 1))).runs
        ≡ some (record run {
          status = failure;
          applied_count = went.applied_count;
          failed_count = 1;
          error = went.error;
        })
  unfolding release_lock close
  finished_run run_id went run found =
      subst (λ o. get run_id (change_run run_id changed o went.state).runs ≡ some (changed run))
        (sym found) (get-put_self run_id (changed run) went.state.runs)
    where
      changed : MigrationRun → MigrationRun
      changed r = record r {
        status = failure;
        applied_count = went.applied_count;
        failed_count = 1;
        error = went.error;
      }

  -- What the loop leaves that stops at an exception: the pending files before the one that failed
  -- are recorded, and the runs are those of the start.
  module _ (run_id : String) (files : List MigrationFile) (db : Database Schema) where
    abbrev here : MigrationPlan
    here = planned host run_id files db

    abbrev went : Progress (Database Schema)
    went = progress host run_id files db

    abbrev pub Stopped : Database Schema → ℕ → Type 0
    Stopped after count =
        (done : List MigrationFile) × (rest : List MigrationFile) × (here.pending ≡ done ++ rest)
        × (rest ≢ [])
        × All (λ f. is_pending after.registry f ≡ false) done
        × (count ≡ length done)

    Stopped-loop :
        (x : String)
        → went.error ≡ some x
        → Stopped went.state went.applied_count
          × (get run_id went.state.runs ≡ some (started (length here.pending)))
    unfolding acquire_lock
    Stopped-loop x broken =
        let start = start_run run_id here (acquire_lock db) in
        let every = All_every (λ _. Unit {0}) (λ _. tt) here.pending in
        let (done, rest, split, all_done, counted, ends) =
          apply_pending-Went (migrate host) applied_one (λ _. Unit {0})
            (λ f s. is_pending s.registry f ≡ false)
            (λ f g s _. is_pending-step host (migrate host) (migrate-Wrote host) applied_one f g s)
            (step-there host (migrate host) (migrate-Wrote host)) here.pending 0 [] start every in
        let runs =
          apply_pending-keeps (migrate host) applied_one (λ _. Unit {0}) (λ s. s.runs ≡ start.runs)
            (λ f s _ h. migrate-runs host f s ∙ h) here.pending 0 [] start every refl in
        (
          (
            done,
            rest,
            split,
            λ none_left. absurd (clash (sym broken ∙ ends.1 none_left)),
            all_done,
            omega (arith, counted),
          ),
          ap (get run_id) runs ∙ get-put_self run_id (started (length here.pending)) db.runs,
        )
      where
        clash : {y : String} → ◌≡◌ {A = Option String} (some y) none → ⊥
        clash h = cc h

  module _ (run_id : String) (files : List MigrationFile) (db : Database Schema) (e : String)
      (after : Database Schema)
      (stopped : apply host run_id false (ok files) db ≡ (err (failed e), after)) where
    abbrev here_now : MigrationPlan
    here_now = planned host run_id files db

    abbrev went_now : Progress (Database Schema)
    went_now = progress host run_id files db

    failed_at :
        (went_now.error ≡ some e)
        × (settle_failed host run_id went_now e false ≡ (err (failed e), after))
    failed_at = by_sound here_now.ok refl
      where
        by_abort :
            (x : String) (b : Bool)
            → settle_failed host run_id went_now x b ≡ (err (failed e), after)
            → (x ≡ e) × (settle_failed host run_id went_now e false ≡ (err (failed e), after))
        by_abort x true r = absurd (cc r)
        by_abort x false r =
            let same : x ≡ e = cc r in
            (
              same,
              subst (λ y. settle_failed host run_id went_now y false ≡ (err (failed e), after)) same
                  r,
            )

        by_error :
            (o : Option String)
            → went_now.error ≡ o
            → settle host run_id here_now went_now o ≡ (err (failed e), after)
            → (went_now.error ≡ some e)
              × (settle_failed host run_id went_now e false ≡ (err (failed e), after))
        by_error none q r = absurd (cc r)
        by_error (some x) q r =
            let (same, settled) = by_abort x went_now.state.aborted r in (q ∙ ap some same, settled)

        by_sound :
            (b : Bool)
            → here_now.ok ≡ b
            → (went_now.error ≡ some e)
              × (settle_failed host run_id went_now e false ≡ (err (failed e), after))
        by_sound false q = absurd (cc (sym (apply_unsound host run_id files db q) ∙ stopped))
        by_sound true q =
            by_error went_now.error refl (sym (apply_sound host run_id files db q) ∙ stopped)

    -- The record of a failed run.
    abbrev pub failed_run : ℕ → MigrationRun
    failed_run count = record {
      status = failure;
      planned_count = length here_now.pending;
      applied_count = count;
      failed_count = 1;
      error = some e;
    }

    -- When `apply` raises PostgresMigrationError for a file, the pending files split into those
    -- before it, which are recorded, and a rest that is not empty; the run is stored as FAILED, with
    -- the number of the first ones and the error.
    pub apply_failure :
        (done : List MigrationFile) × (rest : List MigrationFile) × (here_now.pending
          ≡ done ++ rest)
        × (rest ≢ [])
        × All (λ f. is_pending after.registry f ≡ false) done
        × (get run_id after.runs ≡ some (failed_run (length done)))
    apply_failure =
        let (broken, settled) = failed_at in
        let ((done, rest, split, left, all_done, counted), run) =
          Stopped-loop run_id files db e broken in
        (
          done,
          rest,
          split,
          left,
          subst (λ r. All (λ f. is_pending r f ≡ false) done)
              (sym (settle_failed-registry host run_id went_now e false)
                ∙ ap (λ r. r.1.registry) settled)
              all_done,
          ap (λ r. get run_id r.1.runs) (sym settled)
              ∙ finished_run run_id went_now (started (length here_now.pending)) run
              ∙ ap2 counted broken,
        )
      where
        ap2 :
            {n m : ℕ} {o : Option String}
            → n ≡ m
            → o ≡ some e
            → some (record (started (length here_now.pending)) {
              status = failure;
              applied_count = n;
              failed_count = 1;
              error = o;
            })
              ≡ some (failed_run m)
        ap2 p q = ground arith

  module _ (run_id : String) (files : List MigrationFile) (db : Database Schema)
      (after : Database Schema)
      (stopped : apply host run_id false (ok files) db ≡ (err in_failed_transaction, after)) where
    abbrev lost : Progress (Database Schema)
    lost = progress host run_id files db
