-- ===== src/Backups/Safety.antt =====
-- python/apexquant-backup-recovery/src/apexquant-backup-recovery/service.py
-- restore_backup: what a restore that is done went through, and what a dry run touches.
use lord_hermes.Common.{
  ◌≡◌, Bool, true, not, ◌||◌, some, ◌==◌, ok, err, inl, inr, ◌⊎◌, arith, Option-cases,
  Outcome-cases,
}
use lord_hermes.Common.Text.{Text, codes, text_eq}
use lord_hermes.Backups.Models.{
  BackupRun, BackupArtifact, RestoreRun, BackupRunStatus, run_status_eq, BackupError,
}
use lord_hermes.Backups.Commands.{resolve_connection_ref}
use lord_hermes.Backups.Repository.{get_run, get_artifact_by_run}
use lord_hermes.Backups.Outside.{Outside, State}
use lord_hermes.Backups.Service.{Clock, Fresh}
use lord_hermes.Backups.Checking.{local_file}
use lord_hermes.Backups.Restoring.{restorable, restore_backup, execute_restore}
use lord_hermes.Backups.Binds.{Ends}

module _ {World : Type 0} (outside : Outside World) (run_id : Text)
    (is_dry confirm allow_production_restore : Bool) (s : State World) where
  -- The run and its artifact, as the checks want them.
  abbrev pub IsRestorable : BackupArtifact → Type 0
  IsRestorable artifact =
      (run : BackupRun) × (get_run run_id s.repository ≡ some run)
      × (run.status ≡ BackupRunStatus.succeeded)
      × (get_artifact_by_run run_id s.repository ≡ some artifact)
      × ((not (outside.environment == codes "production") || allow_production_restore) ≡ true)
      × ((is_dry || confirm) ≡ true)

  restorable-Ends :
      (artifact : BackupArtifact) (after : State World)
      → Ends (restorable outside run_id is_dry confirm allow_production_restore) s artifact after
      → IsRestorable artifact × (after ≡ s)
  unfolding restorable
  restorable-Ends artifact after h = elim (Option-cases (get_run run_id s.repository)) [
    | inl e ↦ absurd (ground (arith, e, h))
    | inr (run, e) ↦ (
      (
        run,
        e,
        ground (arith, e, h, run_status_eq.beq_iff run.status BackupRunStatus.succeeded),
        ground (arith, e, h),
        ground (arith, e, h),
        ground (arith, e, h),
      ),
      ground (arith, e, h),
    )
  ]

  -- The checks write nothing.
  restorable-state : (restorable outside run_id is_dry confirm allow_production_restore s).1 ≡ s
  unfolding restorable
  restorable-state = ground arith

  abbrev downloaded : BackupArtifact → World
  downloaded artifact =
      (outside.download_file artifact.storage_key (local_file outside (codes "restore") run_id)
        s.world).1

  module _ (fresh : Fresh) (clock : Clock) (target_connection_ref : Text) where
    -- A restore that returns, dry or not, is of a run that succeeded and of its artifact, whose
    -- file has the artifact's checksum after the download; in production it was allowed, and
    -- unless it is dry it was confirmed.
    pub restore_backup_safe :
        (restore : RestoreRun) (after : State World)
        → Ends
            (restore_backup outside fresh clock run_id target_connection_ref is_dry confirm
              allow_production_restore)
            s
            restore
            after
        → (artifact : BackupArtifact) × IsRestorable artifact
          × (outside.sha256_file (local_file outside (codes "restore") run_id) (downloaded artifact)
              ≡ ok artifact.checksum_sha256)
    unfolding restore_backup
    restore_backup_safe restore after h =
        elim (Outcome-cases
          (restorable outside run_id is_dry confirm allow_production_restore s).0) [
            | inl (artifact, e) ↦ (
              artifact,
              (restorable-Ends artifact
                  (restorable outside run_id is_dry confirm allow_production_restore s).1
                  (ground (arith, e))).0,
              elim (Outcome-cases (
                  outside.sha256_file (local_file outside (codes "restore") run_id)
                    (downloaded artifact))) [
                      | inl (checksum, q) ↦ ground (
                        arith,
                        e,
                        q,
                        h,
                        restorable-state,
                        text_eq.beq_iff checksum artifact.checksum_sha256,
                      )
                      | inr (x, q) ↦ absurd (ground (arith, e, q, h, restorable-state))
                    ],
            )
            | inr (x, e) ↦ absurd (ground (arith, e, h))
          ]

    -- A restore that the checks refuse changes nothing.
    pub refused_restore_changes_nothing :
        (e : BackupError)
        → (restorable outside run_id is_dry confirm allow_production_restore s).0 ≡ err e
        → restore_backup outside fresh clock run_id target_connection_ref is_dry confirm
            allow_production_restore s
          ≡ (err e, s)
    unfolding restore_backup
    refused_restore_changes_nothing e h = ground (arith, h, restorable-state)

    -- A dry run does nothing outside the repository but the download, whatever its end.
    pub dry_run_only_downloads :
        is_dry ≡ true
        → let after =
            (restore_backup outside fresh clock run_id target_connection_ref is_dry confirm
              allow_production_restore s).1 in
          (after.world ≡ s.world)
          ⊎ ((artifact : BackupArtifact) × (after.world ≡ downloaded artifact))
    unfolding restore_backup execute_restore
    dry_run_only_downloads dry =
        elim (Outcome-cases
          (restorable outside run_id is_dry confirm allow_production_restore s).0) [
            | inl (artifact, e) ↦
                elim (Outcome-cases
                  (resolve_connection_ref outside.environ target_connection_ref)) [
                    | inl (connection, q) ↦
                        inr (artifact, ground (arith, e, q, dry, restorable-state))
                    | inr (x, q) ↦ inl (ground (arith, e, q, restorable-state))
                  ]
            | inr (x, e) ↦ inl (ground (arith, e, restorable-state))
          ]
