-- ===== src/Backups/Bounds.antt =====
-- python/apexquant-backup-recovery/src/apexquant-backup-recovery/service.py
-- apply_retention: how many artifacts stay, and what becomes of the others.
use lord_hermes.Common.{
  Bool, true, ◌∙◌, ℕ, suc, ◌+◌, ◌-◌, ◌≤◌, ◌≡◌, refl, sym, ap, subst, List, [], ◌∷◌, some, ◌==◌, ok,
  inl, inr, ◌⊎◌, arith, Option-cases, Outcome-cases, get, get-put, get-put_self, length, All,
  Bool-cases,
}
use lord_hermes.Common.Text.{Text, text_eq}
use lord_hermes.Backups.Models.{BackupPolicy, BackupArtifact, ArtifactStatus, expired, deleted}
use lord_hermes.Backups.Repository.{BackupRepository, get_policy, update_artifact_status}
use lord_hermes.Backups.Outside.{Outside, State}
use lord_hermes.Backups.Service.{Clock, expiring, text_of}
use lord_hermes.Backups.Retaining.{find_expired, active_artifacts, retire, expire, apply_retention}
use lord_hermes.Backups.Oldest.{
  count_of, owned, active_artifacts-count, find_expired-count, IsJustified, picked-IsJustified,
}
use lord_hermes.Backups.Binds.{Ends, >>=-Ends}

-- The artifact is stored, and is expired or deleted.
abbrev pub IsRetired : BackupRepository → BackupArtifact → Type 0
IsRetired repository artifact =
    (stored : BackupArtifact) × (get (text_of artifact.artifact_id) repository.artifacts
      ≡ some stored)
    × ((stored.status ≡ expired) ⊎ (stored.status ≡ deleted))

module _ {World : Type 0} (outside : Outside World) where
  find_expired-length :
      (policy : BackupPolicy) (now count index : ℕ) (artifacts : List BackupArtifact)
      → policy.retention_count ≡ some count
      → length artifacts
        ≤ length (find_expired outside policy now index artifacts) + (count - index)
  unfolding find_expired
  find_expired-length policy now count index [] h = omega arith
  find_expired-length policy now count index (a ∷ rest) h =
      ground (arith, h, find_expired-length policy now count (suc index) rest h)

  -- A mark that is not `active` keeps what is retired so.
  update_artifact_status-IsRetired :
      (id : Text) (status : ArtifactStatus) (artifact : BackupArtifact)
      (before after : BackupRepository)
      → (status ≡ expired) ⊎ (status ≡ deleted)
      → update_artifact_status id status before ≡ ok after
      → IsRetired before artifact
      → IsRetired after artifact
  unfolding update_artifact_status
  update_artifact_status-IsRetired id status artifact before after mark h (stored, there, retired) =
      elim (Option-cases (get id before.artifacts)) [
        | inl e ↦ absurd (ground (arith, e, h))
        | inr (old, e) ↦ elim (Bool-cases (id == text_of artifact.artifact_id)) [
          | inl same ↦ (
            record old { status = status },
            ground (
              arith,
              e,
              h,
              same,
              get-put id (text_of artifact.artifact_id) (record old { status = status })
                  before.artifacts,
            ),
            mark,
          )
          | inr other ↦ (
            stored,
            ground (
              arith,
              e,
              h,
              other,
              there,
              get-put id (text_of artifact.artifact_id) (record old { status = status })
                  before.artifacts,
            ),
            retired,
          )
        ]
      ]

  update_artifact_status_self :
      (status : ArtifactStatus) (artifact : BackupArtifact) (before after : BackupRepository)
      → (status ≡ expired) ⊎ (status ≡ deleted)
      → update_artifact_status (text_of artifact.artifact_id) status before ≡ ok after
      → IsRetired after artifact
  unfolding update_artifact_status
  update_artifact_status_self status artifact before after mark h =
      elim (Option-cases (get (text_of artifact.artifact_id) before.artifacts)) [
        | inl e ↦ absurd (ground (arith, e, h))
        | inr (old, e) ↦ (
          record old { status = status },
          ground (
            arith,
            e,
            h,
            get-put_self (text_of artifact.artifact_id) (record old { status = status })
                before.artifacts,
          ),
          mark,
        )
      ]

  -- One turn of the loop retires its artifact, and keeps what is retired.
  abbrev Retires : BackupPolicy → BackupArtifact → State World → State World → Type 0
  Retires policy artifact s after =
      IsRetired after.repository artifact
      × ((other : BackupArtifact) → IsRetired s.repository other → IsRetired after.repository other)

  retire-Retires :
      (policy : BackupPolicy) (artifact : BackupArtifact) (s after : State World)
      → Ends (retire outside policy artifact) s tt after
      → Retires policy artifact s after
  unfolding retire
  retire-Retires policy artifact s after h =
      let id = text_of artifact.artifact_id in
      elim (Outcome-cases (update_artifact_status id expired s.repository)) [
        | inr (x, e) ↦ absurd (ground (arith, e, h))
        | inl (r1, e) ↦ elim (Bool-cases policy.delete_expired) [
          | inr kept ↦
              let same : after.repository ≡ r1 = ground (arith, e, kept, h) in
              subst
                (λ r.
                  IsRetired r artifact
                  × ((other : BackupArtifact) → IsRetired s.repository other → IsRetired r other))
                (sym same)
                (
                  update_artifact_status_self expired artifact s.repository r1 (inl refl) e,
                  λ other.
                      update_artifact_status-IsRetired id expired other s.repository r1 (inl refl)
                        e,
                )
          | inl gone ↦ elim (Outcome-cases (update_artifact_status id deleted r1)) [
            | inr (x, e2) ↦ absurd (ground (arith, e, e2, gone, h))
            | inl (r2, e2) ↦
                let same : after.repository ≡ r2 = ground (arith, e, e2, gone, h) in
                subst
                  (λ r.
                    IsRetired r artifact
                    × ((other : BackupArtifact) → IsRetired s.repository other → IsRetired r other))
                  (sym same)
                  (
                    update_artifact_status_self deleted artifact r1 r2 (inr refl) e2,
                    λ other retired.
                        update_artifact_status-IsRetired id deleted other r1 r2 (inr refl) e2 (
                          update_artifact_status-IsRetired id expired other s.repository r1
                            (inl refl) e retired),
                  )
          ]
        ]
      ]

  expire-Retires :
      (policy : BackupPolicy) (artifacts : List BackupArtifact) (s after : State World)
      → Ends (expire outside policy artifacts) s tt after
      → All (IsRetired after.repository) artifacts
        × ((other : BackupArtifact)
            → IsRetired s.repository other
            → IsRetired after.repository other)
  unfolding expire
  expire-Retires policy [] s after h =
      (tt, λ other. subst (λ t. IsRetired t.repository other) (ap (λ r. r.1) h))
  expire-Retires policy (artifact ∷ rest) s after h =
      let (u, between, first, later) =
        >>=-Ends (retire outside policy artifact) (λ _. expire outside policy rest) s tt after h in
      let (here, kept) = retire-Retires policy artifact s between first in
      let (others, still) = expire-Retires policy rest between after later in
      ((still artifact here, others), λ other retired. still other (kept other retired))

  count_of-all : {A : Type 0} (xs : List A) → count_of (λ _. true) xs ≡ length xs
  count_of-all [] = refl
  count_of-all (x ∷ xs) = ap suc (count_of-all xs)

  owned-length :
      (policy_id : Text) (repository : BackupRepository)
      → length (owned policy_id repository) ≡ length (active_artifacts outside policy_id repository)
  owned-length policy_id repository =
      sym (count_of-all (owned policy_id repository))
      ∙ sym (active_artifacts-count outside policy_id repository (λ _. true))
      ∙ count_of-all (active_artifacts outside policy_id repository)

  -- Under a policy with a `retention_count`, retention that returns has expired artifacts so that at
  -- most that many of the policy's active artifacts are left; it took no artifact more often than
  -- the repository has it among these; each one that it took is past its own end, or more than
  -- `retention_count` of them, itself counted, are at least as new; and each is stored as expired or
  -- deleted.
  pub apply_retention_bound :
      (clock : Clock) (policy_id : Text) (policy : BackupPolicy) (count : ℕ) (s after : State World)
      (gone : List BackupArtifact)
      → get_policy policy_id s.repository ≡ some policy
      → policy.retention_count ≡ some count
      → Ends (apply_retention outside clock policy_id) s gone after
      → (length (owned policy_id s.repository) ≤ length gone + count)
        × ((test : BackupArtifact → Bool)
            → count_of test gone ≤ count_of test (owned policy_id s.repository))
        × All (IsJustified policy (clock expiring) count (owned policy_id s.repository)) gone
        × All (IsRetired after.repository) gone
  unfolding apply_retention
  apply_retention_bound clock policy_id policy count s after gone found limit h =
      let artifacts = active_artifacts outside policy_id s.repository in
      let old = find_expired outside policy (clock expiring) 0 artifacts in
      let same : old ≡ gone = ground (arith, found, h) in
      let ran : Ends (expire outside policy old) s tt after = ground (arith, found, h) in
      (
        omega (
          arith,
          find_expired-length policy (clock expiring) count 0 artifacts limit,
          ap length same,
          owned-length policy_id s.repository,
        ),
        λ test. omega (
          arith,
          find_expired-count outside policy (clock expiring) count limit test 0 artifacts,
          ap (count_of test) same,
          active_artifacts-count outside policy_id s.repository test,
        ),
        subst (All (IsJustified policy (clock expiring) count (owned policy_id s.repository))) same
            (picked-IsJustified outside policy (clock expiring) count limit policy_id s.repository),
        subst (All (IsRetired after.repository)) same (expire-Retires policy old s after ran).0,
      )
