-- ===== src/Backups/Oldest.antt =====
-- python/apexquant-backup-recovery/src/apexquant-backup-recovery/service.py
-- Which of the artifacts of a policy apply_retention picks.
use lord_hermes.Common.{
  both_All, Option-cases, ℕ, suc, ◌+◌, ◌≤◌, ◌≡◌, refl, sym, ap, ◌∙◌, subst, ◌⊎◌, inl, inr, Bool,
  true, false, ◌&&◌, List, [], ◌∷◌, some, ◌==◌, leb, leb→le, keep, values, length, All, All-map,
  All_every, sort_by, insert, sort_by-IsSorted, IsSorted, arith, Bool-cases,
}
use lord_hermes.Common.Text.{Text, text_eq}
use lord_hermes.Backups.Models.{BackupPolicy, BackupArtifact, active, artifact_status_eq}
use lord_hermes.Backups.Repository.{BackupRepository, list_artifacts}
use lord_hermes.Backups.Outside.{Outside}
use lord_hermes.Backups.Retaining.{expired_by_age, expired_by_count, find_expired, active_artifacts}

module _ {A : Type 0} where
  -- How many members pass.
  abbrev pub count_of : (A → Bool) → List A → ℕ
  count_of test xs = length (keep test xs)

  insert-count :
      (before : A → A → Bool) (test : A → Bool) (x : A) (xs : List A)
      → count_of test (insert before x xs) ≡ count_of test (x ∷ xs)
  unfolding insert
  insert-count before test x [] = refl
  insert-count before test x (y ∷ ys) = elim (Bool-cases (before x y)) [
    | inl e ↦ rw e refl
    | inr e ↦ ground (arith, e, insert-count before test x ys)
  ]

  pub sort_by-count :
      (before : A → A → Bool) (test : A → Bool) (xs : List A)
      → count_of test (sort_by before xs) ≡ count_of test xs
  unfolding sort_by
  sort_by-count before test [] = refl
  sort_by-count before test (x ∷ xs) =
      insert-count before test x (sort_by before xs) ∙ ground (arith, sort_by-count before test xs)

  keep-count :
      (first test : A → Bool) (xs : List A)
      → count_of test (keep first xs) ≡ count_of (λ x. first x && test x) xs
  keep-count first test [] = refl
  keep-count first test (x ∷ xs) = ground (arith, keep-count first test xs)

  both_keep :
      (first test : A → Bool) (xs : List A)
      → keep test (keep first xs) ≡ keep (λ x. first x && test x) xs
  both_keep first test [] = refl
  both_keep first test (x ∷ xs) = ground (arith, both_keep first test xs)

-- The active artifacts that stand in the repository for the policy, in the order of their ids.
abbrev pub owned : Text → BackupRepository → List BackupArtifact
owned policy_id repository =
    keep (λ a. a.policy_id == policy_id && a.status == active) (values repository.artifacts)

abbrev newest_first : BackupArtifact → BackupArtifact → Bool
newest_first a b = leb b.created_at a.created_at

pub active_artifacts-count :
    {World : Type 0} (outside : Outside World) (policy_id : Text) (repository : BackupRepository)
    (test : BackupArtifact → Bool)
    → count_of test (active_artifacts outside policy_id repository)
      ≡ count_of test (owned policy_id repository)
unfolding list_artifacts
active_artifacts-count outside policy_id repository test =
    let mine = keep (λ a. a.policy_id == policy_id) (values repository.artifacts) in
    sort_by-count newest_first test (keep (λ a. a.status == active) (sort_by newest_first mine))
    ∙ keep-count (λ a. a.status == active) test (sort_by newest_first mine)
    ∙ sort_by-count newest_first (λ a. a.status == active && test a) mine
    ∙ sym (keep-count (λ a. a.status == active) test mine)
    ∙ ap (count_of test) (
        both_keep (λ a. a.policy_id == policy_id) (λ a. a.status == active)
          (values repository.artifacts))

-- The artifact has an end, which has come, under a policy that counts days.
abbrev pub IsPast : BackupPolicy → ℕ → BackupArtifact → Type 0
IsPast policy now artifact =
    (days : ℕ) × (policy.retention_days ≡ some days)
    × (t : ℕ) × (artifact.expires_at ≡ some t)
    × (t ≤ now)

-- How many of some artifacts are at least as new as one of them.
abbrev pub at_least_as_new : BackupArtifact → List BackupArtifact → ℕ
at_least_as_new artifact artifacts = count_of (λ a. leb artifact.created_at a.created_at) artifacts

-- The reason for which an artifact goes.
abbrev pub IsJustified : BackupPolicy → ℕ → ℕ → List BackupArtifact → BackupArtifact → Type 0
IsJustified policy now count whole artifact =
    IsPast policy now artifact ⊎ (suc count ≤ at_least_as_new artifact whole)

module _ {World : Type 0} (outside : Outside World) (policy : BackupPolicy) (now count : ℕ)
    (limit : policy.retention_count ≡ some count) where
  pub find_expired-count :
      (test : BackupArtifact → Bool) (index : ℕ) (artifacts : List BackupArtifact)
      → count_of test (find_expired outside policy now index artifacts) ≤ count_of test artifacts
  unfolding find_expired
  find_expired-count test index [] = omega arith
  find_expired-count test index (a ∷ rest) =
      ground (arith, find_expired-count test (suc index) rest)

  -- What is at least as new, before the index and from it on.
  abbrev Counts : List BackupArtifact → ℕ → List BackupArtifact → BackupArtifact → Type 0
  Counts whole index rest a = index + at_least_as_new a rest ≤ at_least_as_new a whole

  find_expired-IsJustified :
      (whole : List BackupArtifact) (index : ℕ) (artifacts : List BackupArtifact)
      → IsSorted newest_first artifacts
      → All (Counts whole index artifacts) artifacts
      → All (IsJustified policy now count whole) (find_expired outside policy now index artifacts)
  unfolding find_expired
  find_expired-IsJustified whole index [] sorted counts = tt
  find_expired-IsJustified whole index (a ∷ rest) sorted counts = joined (
      find_expired-IsJustified whole (suc index) rest sorted.1 (
        both_All (λ g. newest_first a g ≡ true) (Counts whole index (a ∷ rest))
          (Counts whole (suc index) rest) (λ g e h. ground (arith, e, h)) rest sorted.0 counts.1))
    where
      by_age : expired_by_age outside policy now a ≡ true → IsPast policy now a
      by_age e = elim (Option-cases policy.retention_days) [
        | inl q ↦ absurd (ground (arith, e, q))
        | inr (days, q) ↦ elim (Option-cases a.expires_at) [
          | inl r ↦ absurd (ground (arith, e, q, r))
          | inr (t, r) ↦ (days, q, t, r, leb→le t now (ground (arith, e, q, r)))
        ]
      ]

      joined :
          All
            (IsJustified policy now count whole)
            (find_expired outside policy now (suc index) rest)
          → All
              (IsJustified policy now count whole)
              (find_expired outside policy now index (a ∷ rest))
      joined others = elim (Bool-cases (expired_by_count outside policy index)) [
        | inl e ↦
            subst (All (IsJustified policy now count whole)) (sym (goes_by_count e))
              (inr (ground (arith, e, limit, counts.0)), others)
        | inr e ↦ elim (Bool-cases (expired_by_age outside policy now a)) [
          | inl f ↦
              subst (All (IsJustified policy now count whole)) (sym (goes_by_age e f))
                (inl (by_age f), others)
          | inr f ↦ subst (All (IsJustified policy now count whole)) (sym (stays e f)) others
        ]
      ]
        where
          goes_by_count :
              expired_by_count outside policy index ≡ true
              → find_expired outside policy now index (a ∷ rest)
                ≡ a ∷ find_expired outside policy now (suc index) rest
          goes_by_count e = rw e refl

          goes_by_age :
              expired_by_count outside policy index ≡ false
              → expired_by_age outside policy now a ≡ true
              → find_expired outside policy now index (a ∷ rest)
                ≡ a ∷ find_expired outside policy now (suc index) rest
          goes_by_age e f = rw (e, f) refl

          stays :
              expired_by_count outside policy index ≡ false
              → expired_by_age outside policy now a ≡ false
              → find_expired outside policy now index (a ∷ rest)
                ≡ find_expired outside policy now (suc index) rest
          stays e f = rw (e, f) refl

  -- What goes from the sorted list of the active artifacts is past, or beyond the count.
  pub picked-IsJustified :
      (policy_id : Text) (repository : BackupRepository)
      → All
          (IsJustified policy now count (owned policy_id repository))
          (find_expired outside policy now 0 (active_artifacts outside policy_id repository))
  picked-IsJustified policy_id repository =
      let whole = active_artifacts outside policy_id repository in
      All-map (IsJustified policy now count whole)
        (IsJustified policy now count (owned policy_id repository))
        (find_expired outside policy now 0 whole)
        (λ a h. elim h [
          | inl past ↦ inl past
          | inr beyond ↦ inr (
              omega (
                arith,
                beyond,
                active_artifacts-count outside policy_id repository
                    (λ b. leb a.created_at b.created_at),
              ))
        ])
        (find_expired-IsJustified whole 0 whole
          (sort_by-IsSorted newest_first (λ x y h. ground (arith, h))
            (λ x y z h k. ground (arith, h, k))
            (keep (λ a. a.status == active) (list_artifacts policy_id repository)))
          (All_every (Counts whole 0 whole) (λ a. omega arith) whole))
