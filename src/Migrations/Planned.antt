-- ===== src/Migrations/Planned.antt =====
-- python/apexquant-migrations/src/apexquant-migrations/planner.py
-- What a plan says of the files and the registry.
use lord_hermes.Common.{
  both_All, ◌≡◌, refl, sym, ap, ◌∙◌, ◌↔◌, Bool, true, false, not, ◌&&◌, List, [], ◌∷◌, Option, none,
  some, ◌==◌, get, keep, All, All-map, is_none, is_nonempty, if◌then◌else◌, and-split, arith,
  Option-cases, inl, inr,
}
use lord_hermes.Common.Text.{Text, text_eq}
use lord_hermes.Migrations.Models.{MigrationEngine, MigrationFile, AppliedMigration}
use lord_hermes.Migrations.Planner.{Sorted, sort_file, sort_files, build_plan}

abbrev pub is_pending : List (Text × AppliedMigration) → MigrationFile → Bool
is_pending applied file = is_none (get file.migration_id applied)

-- The registry has no other checksum for the file.
abbrev pub Unchanged : List (Text × AppliedMigration) → MigrationFile → Type 0
Unchanged applied file =
    (row : AppliedMigration)
    → get file.migration_id applied ≡ some row
    → row.checksum_sha256 ≡ file.checksum_sha256

-- The registry has the file's checksum.
abbrev pub Recorded : List (Text × AppliedMigration) → MigrationFile → Type 0
Recorded applied file =
    (row : AppliedMigration) × (get file.migration_id applied ≡ some row)
    × (row.checksum_sha256 ≡ file.checksum_sha256)

sort_file-drift :
    (file : MigrationFile) (found : Option AppliedMigration) (later : Sorted)
    → ((sort_file file found later).drift ≡ []) ↔ (
        ((row : AppliedMigration) → found ≡ some row → row.checksum_sha256 ≡ file.checksum_sha256)
        × (later.drift ≡ []))
unfolding sort_file
sort_file-drift file none later = (λ h. (λ row e. absurd (cc e), h), λ h. h.1)
sort_file-drift file (some x) later = by_test (x.checksum_sha256 == file.checksum_sha256) refl
  where
    clash : {b : Bool} → b ≡ false → b ≡ true → ⊥
    clash p q = cc

    some_inj : {r s : AppliedMigration} → some r ≡ some s → r ≡ s
    some_inj q = cc q

    by_test :
        (b : Bool)
        → (x.checksum_sha256 == file.checksum_sha256) ≡ b
        → ((sort_file file (some x) later).drift ≡ []) ↔ (
            ((row : AppliedMigration)
              → some x ≡ some row
              → row.checksum_sha256 ≡ file.checksum_sha256)
            × (later.drift ≡ []))
    by_test true e = rw e (
      λ h. (
        λ row q.
            sym (ap (λ r. r.checksum_sha256) (some_inj q))
            ∙ (text_eq.beq_iff x.checksum_sha256 file.checksum_sha256).0 e,
        h,
      ),
      λ h. h.1,
    )
    by_test false e = rw e (
      λ h. absurd (cc h),
      λ h.
          absurd
            (clash e ((text_eq.beq_iff x.checksum_sha256 file.checksum_sha256).1 (h.0 x refl))),
    )

drift_nil_iff :
    (applied : List (Text × AppliedMigration)) (files : List MigrationFile)
    → ((sort_files applied files).drift ≡ []) ↔ All (Unchanged applied) files
unfolding sort_files
drift_nil_iff applied [] = (λ _. tt, λ _. refl)
drift_nil_iff applied (f ∷ rest) =
    let head = sort_file-drift f (get f.migration_id applied) (sort_files applied rest) in
    let tail = drift_nil_iff applied rest in
    (λ h. let both = head.0 h in (both.0, tail.0 both.1), λ h. head.1 (h.0, tail.1 h.1))

pending_lem :
    (applied : List (Text × AppliedMigration)) (files : List MigrationFile)
    → (sort_files applied files).pending ≡ keep (is_pending applied) files
unfolding sort_files sort_file
pending_lem applied [] = refl
pending_lem applied (f ∷ rest) = ground (arith, pending_lem applied rest)

not_nonempty_iff : {A : Type 0} (xs : List A) → (not (is_nonempty xs) ≡ true) ↔ (xs ≡ [])
not_nonempty_iff [] = (λ _. refl, λ _. refl)
not_nonempty_iff (x ∷ xs) = (λ h. absurd (cc h), λ h. absurd (cc h))

-- A plan is ok exactly when no file that the registry has has another checksum there, and its
-- pending files are those that the registry does not have, in the files' order.
pub build_plan_iff :
    (engine : MigrationEngine) (files : List MigrationFile)
    (applied : List (Text × AppliedMigration))
    → (((build_plan engine files applied).ok ≡ true) ↔ All (Unchanged applied) files)
      × ((build_plan engine files applied).pending ≡ keep (is_pending applied) files)
unfolding build_plan
build_plan_iff engine files applied =
    let drift = drift_nil_iff applied files in
    let empty = not_nonempty_iff (sort_files applied files).drift in
    ((λ h. drift.0 (empty.0 h), λ h. empty.1 (drift.1 h)), pending_lem applied files)

keep_nil :
    {A : Type 0} (test : A → Bool) (xs : List A) → keep test xs ≡ [] → All (λ x. test x ≡ false) xs
keep_nil test [] h = tt
keep_nil test (x ∷ xs) h = by_test (test x) refl h (keep_nil test xs)
  where
    by_test :
        (b : Bool)
        → test x ≡ b
        → (if b then x ∷ keep test xs else keep test xs) ≡ []
        → (keep test xs ≡ [] → All (λ y. test y ≡ false) xs)
        → (test x ≡ false) × All (λ y. test y ≡ false) xs
    by_test true e q ih = absurd (cc q)
    by_test false e q ih = (e, ih q)

keep_none :
    {A : Type 0} (test : A → Bool) (xs : List A) → All (λ x. test x ≡ false) xs → keep test xs ≡ []
keep_none test [] h = refl
keep_none test (x ∷ xs) h = rw (h.0, keep_none test xs h.1) refl

Recorded-of :
    (applied : List (Text × AppliedMigration)) (f : MigrationFile)
    → Unchanged applied f
    → is_pending applied f ≡ false
    → Recorded applied f
Recorded-of applied f same there = elim (Option-cases (get f.migration_id applied)) [
  | inl e ↦ absurd (ground (arith, e, there))
  | inr (row, e) ↦ (row, e, same row e)
]

pub Recorded-iff :
    (applied : List (Text × AppliedMigration)) (f : MigrationFile)
    → Recorded applied f ↔ (Unchanged applied f × (is_pending applied f ≡ false))
Recorded-iff applied f = (
  λ h.
      let (row, e, same) = h in
      (λ other q. ap (λ r. r.checksum_sha256) (other_row row other e q) ∙ same, ap is_none e),
  λ h. Recorded-of applied f h.0 h.1,
)
  where
    other_row :
        (row other : AppliedMigration)
        → get f.migration_id applied ≡ some row
        → get f.migration_id applied ≡ some other
        → other ≡ row
    other_row row other e q = cc

-- The plan is ok with nothing pending exactly when each file is recorded with its checksum.
pub settled_iff :
    (engine : MigrationEngine) (files : List MigrationFile)
    (applied : List (Text × AppliedMigration))
    → (((build_plan engine files applied).ok
          && not (is_nonempty (build_plan engine files applied).pending))
        ≡ true)
      ↔ All (Recorded applied) files
settled_iff engine files applied =
    let plan = build_plan engine files applied in
    let (sound, pending) = build_plan_iff engine files applied in
    let quiet = not_nonempty_iff plan.pending in
    (
      λ h.
          let both = and-split plan.ok (not (is_nonempty plan.pending)) h in
          both_All (Unchanged applied) (λ f. is_pending applied f ≡ false) (Recorded applied)
            (λ f u t. (Recorded-iff applied f).1 (u, t)) files (sound.0 both.0)
            (keep_nil (is_pending applied) files (sym pending ∙ quiet.0 both.1)),
      λ h.
          let same : All (Unchanged applied) files =
            All-map (Recorded applied) (Unchanged applied) files
              (λ f r. ((Recorded-iff applied f).0 r).0) h in
          let there : All (λ f. is_pending applied f ≡ false) files =
            All-map (Recorded applied) (λ f. is_pending applied f ≡ false) files
              (λ f r. ((Recorded-iff applied f).0 r).1) h in
          both_true (sound.1 same) (quiet.1 (pending ∙ keep_none (is_pending applied) files there)),
    )
  where
    both_true : {a b : Bool} → a ≡ true → b ≡ true → (a && b) ≡ true
    both_true p q = ground arith
