-- ===== src/Migrations/Success.antt =====
-- python/apexquant-migrations/src/apexquant-migrations/postgres.py
-- The state that a successful `apply` leaves, and a second `apply` on it.
use lord_hermes.Common.{
  ◌≡◌, refl, sym, ap, ◌∙◌, subst, Bool, true, false, not, List, [], ◌∷◌, Option, none, some, keep,
  All, Outcome, ok, err, String, arith, and-split, is_nonempty,
}
use lord_hermes.Migrations.Models.{
  MigrationFile, MigrationPlan, MigrationRunReport, postgres, applied_one, Mode,
}
use lord_hermes.Migrations.Planner.{build_plan}
use lord_hermes.Migrations.Registry.{get_applied}
use lord_hermes.Migrations.Recorded.{IsRegistry, get_applied_id}
use lord_hermes.Migrations.Planned.{is_pending, Unchanged, Recorded, build_plan_iff, settled_iff}
use lord_hermes.Migrations.Loop.{Progress, apply_pending}
use lord_hermes.Migrations.Postgres.{
  Database, Host, MigrationError, drifted, verify, plan, migrate, apply_locked, apply, acquire_lock,
  release_lock, start_run, close, settle_failed, settle, report_verify, report_done,
}
use lord_hermes.Migrations.Inserts.{migrate-Wrote}
use lord_hermes.Migrations.Applied.{IsConsistent, loop-Recorded, settle-registry, registry_kept}

module _ {Schema : Type 0} (host : Host Schema) (run_id : String) (files : List MigrationFile)
    (db : Database Schema) where
  abbrev pub planned : MigrationPlan
  planned = build_plan postgres files (get_applied db.registry)

  -- The loop of `apply`.
  abbrev pub progress : Progress (Database Schema)
  progress =
      apply_pending (migrate host) applied_one planned.pending 0 []
        (start_run run_id planned (acquire_lock db))

  -- What `apply` gives is what its loop gives, when the plan is sound.
  pub apply_sound :
      planned.ok ≡ true
      → apply host run_id false (ok files) db ≡ settle host run_id planned progress progress.error
  unfolding apply plan apply_locked
  apply_sound h = rw h refl

  pub apply_unsound :
      planned.ok ≡ false → apply host run_id false (ok files) db ≡ (err (drifted planned.drift), db)
  unfolding apply plan
  apply_unsound h = rw h refl

  module _ (report : MigrationRunReport) (after : Database Schema)
      (applied : apply host run_id false (ok files) db ≡ (ok report, after)) where
    succeeded :
        (planned.ok ≡ true)
        × (progress.error ≡ none)
        × (settle host run_id planned progress none ≡ (ok report, after))
    succeeded = by_sound planned.ok refl
      where
        refuse :
            (x : String) (b : Bool)
            → settle_failed host run_id progress x b ≡ (ok report, after)
            → ⊥
        refuse x true q = cc q
        refuse x false q = cc q

        by_error :
            (e : Option String)
            → progress.error ≡ e
            → settle host run_id planned progress e ≡ (ok report, after)
            → (progress.error ≡ none)
              × (settle host run_id planned progress none ≡ (ok report, after))
        by_error none e q = (e, q)
        by_error (some x) e q = absurd (refuse x progress.state.aborted q)

        by_sound :
            (b : Bool)
            → planned.ok ≡ b
            → (planned.ok ≡ true)
              × (progress.error ≡ none)
              × (settle host run_id planned progress none ≡ (ok report, after))
        by_sound false e = absurd (cc (sym (apply_unsound e) ∙ applied))
        by_sound true e =
            let ends = by_error progress.error refl (sym (apply_sound e) ∙ applied) in
            (e, ends.0, ends.1)

    after_Recorded :
        IsRegistry db.registry → IsConsistent files → All (Recorded after.registry) files
    unfolding acquire_lock
    after_Recorded registry consistent =
        let (sound, ended, settled) = succeeded in
        let applied_here = get_applied_id db.registry registry in
        let (iff, pending) = build_plan_iff postgres files (get_applied db.registry) in
        let same : All (Unchanged db.registry) files =
          subst (λ r. All (Unchanged r) files) applied_here (iff.0 sound) in
        let start = start_run run_id planned (acquire_lock db) in
        let listed : planned.pending ≡ keep (is_pending db.registry) files =
          pending ∙ ap (λ r. keep (is_pending r) files) applied_here in
        subst (λ r. All (Recorded r) files)
          (sym (settle-registry host run_id planned progress none) ∙ ap (λ r. r.1.registry) settled)
          (subst
            (λ l.
              (apply_pending (migrate host) applied_one l 0 [] start).error ≡ none
              → All
                  (Recorded (apply_pending (migrate host) applied_one l 0 [] start).state.registry)
                  files)
            (sym listed)
            (loop-Recorded host (migrate host) (migrate-Wrote host) applied_one files start
              consistent same)
            ended)

    -- After an `apply` that succeeds, `verify` of the same files reports ok: each file is recorded
    -- with its checksum, if the registry is well formed and files of one id have one checksum.
    pub apply-verify :
        IsRegistry db.registry
        → IsConsistent files
        → (found : MigrationRunReport) × (verify (ok files) after ≡ ok found) × (found.ok ≡ true)
    unfolding verify plan
    apply-verify registry consistent = (
      report_verify postgres (build_plan postgres files (get_applied after.registry)),
      refl,
      (settled_iff postgres files (get_applied after.registry)).1 (
          subst (λ r. All (Recorded r) files) (sym (get_applied_id after.registry kept))
            (after_Recorded registry consistent)),
    )
      where
        kept : IsRegistry after.registry
        kept =
            subst (λ r. IsRegistry r.1.registry) applied
              (registry_kept host run_id false false (ok files) db registry).0

module _ {Schema : Type 0} (host : Host Schema) where
  settle-schema :
      (run_id : String) (planned : MigrationPlan) (progress : Progress (Database Schema))
      → (settle host run_id planned progress none).1.schema ≡ progress.state.schema
  unfolding release_lock close
  settle-schema run_id planned progress = ground arith

  -- With nothing pending the loop does nothing.
  abbrev Idle : Database Schema → Progress (Database Schema) → Type 0
  Idle start progress =
      (progress.error ≡ none) × (progress.applied_count ≡ 0) × (progress.state ≡ start)

  nothing_pending :
      (pending : List MigrationFile) (start : Database Schema)
      → pending ≡ []
      → Idle start (apply_pending (migrate host) applied_one pending 0 [] start)
  unfolding apply_pending
  nothing_pending pending start none_left =
      subst (λ l. Idle start (apply_pending (migrate host) applied_one l 0 [] start))
        (sym none_left) (refl, refl, refl)

  -- A second `apply` of the same files succeeds, applies none of them, and leaves the schema and
  -- the registry as they are.
  pub apply_twice :
      (first second : String) (files : List MigrationFile) (db : Database Schema)
      (report : MigrationRunReport) (after : Database Schema)
      → IsRegistry db.registry
      → IsConsistent files
      → apply host first false (ok files) db ≡ (ok report, after)
      → (again : MigrationRunReport) × (last : Database Schema) × (apply host second false
            (ok files)
            after
          ≡ (ok again, last))
        × (again.applied ≡ 0)
        × (last.schema ≡ after.schema)
        × (last.registry ≡ after.registry)
  unfolding verify plan acquire_lock
  apply_twice first second files db report after registry consistent applied =
      let (found, verified, fine) =
        apply-verify host first files db report after applied registry consistent in
      let plan_again = build_plan postgres files (get_applied after.registry) in
      let start = start_run second plan_again (acquire_lock after) in
      let again = progress host second files after in
      let both =
        and-split plan_again.ok (not (is_nonempty plan_again.pending)) (ap ok_of verified ∙ fine) in
      let idle = nothing_pending plan_again.pending start (no_more plan_again.pending both.1) in
      let result = settle host second plan_again again none in
      (
        report_done postgres Mode.apply plan_again again,
        result.1,
        apply_sound host second files after both.0
            ∙ ap (settle host second plan_again again) idle.0,
        idle.1,
        settle-schema second plan_again again ∙ ap (λ s. s.schema) idle.2,
        settle-registry host second plan_again again none ∙ ap (λ s. s.registry) idle.2,
      )
    where
      ok_of : Outcome MigrationError MigrationRunReport → Bool
      ok_of (ok r) = r.ok
      ok_of (err e) = false

      no_more : (l : List MigrationFile) → not (is_nonempty l) ≡ true → l ≡ []
      no_more [] h = refl
      no_more (f ∷ l) h = absurd (cc h)
