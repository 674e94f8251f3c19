-- ===== src/Backups/Settled.antt =====
-- python/apexquant-backup-recovery/src/apexquant-backup-recovery/service.py
-- create_backup and verify_backup: what the repository says of a run when they are over.
use lord_hermes.Common.{
  ℕ, ◌≡◌, refl, sym, subst, true, some, Outcome, ok, err, inl, inr, arith, Outcome-cases, get, put,
  get-put_self,
}
use lord_hermes.Common.Text.{Text, text_eq}
use lord_hermes.Backups.Models.{
  BackupPolicy, BackupRun, BackupArtifact, BackupRunStatus, active, BackupError,
}
use lord_hermes.Backups.Repository.{
  get_policy, get_run, create_run, update_run, create_artifact, update_policy_next_run,
}
use lord_hermes.Backups.Commands.{build_backup_command, resolve_connection_ref}
use lord_hermes.Backups.Outside.{Outside, State}
use lord_hermes.Backups.Service.{
  Clock, starting, Fresh, back_up, give_up, create_backup, opened, broken_run, completed,
  artifact_of, storage_key,
}
use lord_hermes.Backups.Binds.{Ends}

module _ {World : Type 0} (outside : Outside World) (fresh : Fresh) (clock : Clock)
    (policy_id : Text) where
  -- The run is SUCCEEDED with an active artifact of its checksum, or it is FAILED.
  abbrev pub IsSettled : Outcome BackupError BackupRun × State World → Type 0
  IsSettled (ok run, after) =
      (get_run fresh.run_id after.repository ≡ some run)
      × (run.status ≡ BackupRunStatus.succeeded)
      × ((artifact : BackupArtifact) × (get fresh.artifact_id after.repository.artifacts
            ≡ some artifact)
          × (artifact.status ≡ active)
          × (artifact.run_id ≡ fresh.run_id)
          × (run.checksum_sha256 ≡ some artifact.checksum_sha256))
  IsSettled (err e, after) =
      (run : BackupRun) × (get_run fresh.run_id after.repository ≡ some run)
      × (run.status ≡ BackupRunStatus.failed)

  module _ (policy : BackupPolicy) (trigger : Text) (s : State World) where
    abbrev run : BackupRun
    run = record (opened outside policy_id trigger (clock starting)) { run_id = some fresh.run_id }

    give_up-IsSettled : (e : BackupError) → IsSettled (give_up outside clock run e s)
    unfolding give_up update_run
    give_up-IsSettled e = (
      broken_run outside clock run e,
      get-put_self fresh.run_id (broken_run outside clock run e) s.repository.runs,
      refl,
    )

    abbrev key : Text
    key = storage_key policy run

    abbrev stored : Text → Text → ℕ → BackupArtifact
    stored checksum uri size =
        record (artifact_of outside policy_id clock policy run uri size checksum) {
          artifact_id = some fresh.artifact_id;
        }

    back_up-IsSettled :
        (result : BackupRun) (after : State World)
        → Ends (back_up outside fresh clock policy_id policy run) s result after
        → IsSettled (ok result, after)
    unfolding back_up create_artifact update_run update_policy_next_run
    back_up-IsSettled result after h =
        elim (Outcome-cases (resolve_connection_ref outside.environ policy.target_connection_ref)) [
          | inr (x, e) ↦ absurd (ground (arith, e, h))
          | inl (connection, e) ↦
              elim (Outcome-cases
                (build_backup_command policy outside.workdir fresh.run_id connection)) [
                  | inr (x, e2) ↦ absurd (ground (arith, e, e2, h))
                  | inl (backup, e2) ↦
                      let (ran, w) =
                        outside.run backup.command (some policy.backup_timeout_seconds) s.world in
                      elim (Outcome-cases (outside.sha256_file backup.output_path w)) [
                        | inr (x, e3) ↦ absurd (ground (arith, e, e2, e3, h))
                        | inl (checksum, e3) ↦
                            elim (Outcome-cases (outside.upload_file backup.output_path key w).0) [
                              | inr (x, e4) ↦ absurd (ground (arith, e, e2, e3, e4, h))
                              | inl (uri, e4) ↦
                                  let size = outside.file_size backup.output_path w in
                                  let done = completed outside clock run uri size checksum in
                                  (
                                    ground (
                                      arith,
                                      e,
                                      e2,
                                      e3,
                                      e4,
                                      h,
                                      get-put_self fresh.run_id done s.repository.runs,
                                    ),
                                    ground (arith, e, e2, e3, e4, h),
                                    (
                                      stored checksum uri size,
                                      ground (
                                        arith,
                                        e,
                                        e2,
                                        e3,
                                        e4,
                                        h,
                                        get-put_self fresh.artifact_id (stored checksum uri size)
                                            s.repository.artifacts,
                                      ),
                                      refl,
                                      refl,
                                      ground (arith, e, e2, e3, e4, h),
                                    ),
                                  )
                            ]
                      ]
                ]
        ]

  -- A backup of an enabled policy settles its run: if it returns, the run is stored as SUCCEEDED,
  -- with an active artifact that carries its checksum; if it raises, the run is stored as FAILED.
  pub create_backup-IsSettled :
      (policy : BackupPolicy) (trigger : Text) (s : State World)
      → get_policy policy_id s.repository ≡ some policy
      → policy.enabled ≡ true
      → IsSettled (create_backup outside fresh clock policy_id trigger s)
  unfolding create_backup create_run
  create_backup-IsSettled policy trigger s found enabled =
      subst IsSettled (sym opens)
        (by_result (back_up outside fresh clock policy_id policy first opened_state) refl)
    where
      first : BackupRun
      first = record (opened outside policy_id trigger (clock starting)) {
        run_id = some fresh.run_id;
      }

      opened_state : State World
      opened_state = record s {
        repository = record s.repository { runs = put fresh.run_id first s.repository.runs };
      }

      tried :
          Outcome BackupError BackupRun × State World → Outcome BackupError BackupRun × State World
      tried (ok run, after) = (ok run, after)
      tried (err e, after) = give_up outside clock first e after

      opens :
          create_backup outside fresh clock policy_id trigger s
          ≡ tried (back_up outside fresh clock policy_id policy first opened_state)
      opens = ground (arith, found, enabled)

      by_result :
          (r : Outcome BackupError BackupRun × State World)
          → back_up outside fresh clock policy_id policy first opened_state ≡ r
          → IsSettled (tried r)
      by_result (ok run, after) e = back_up-IsSettled policy trigger opened_state run after e
      by_result (err e, after) q = give_up-IsSettled policy trigger after e
