-- ===== src/Migrations/Loop.antt =====
-- python/apexquant-migrations/src/apexquant-migrations/postgres.py and clickhouse.py
-- The loop over the pending files, which `apply` and `baseline` of both engines share.
use lord_hermes.Common.{
  ℕ, ◌+◌, ◌≡◌, refl, sym, ap, ◌∙◌, subst, inl, inr, ◌⊎◌, ◌↔◌, List, [], ◌∷◌, ◌++◌, Option, none,
  some, String, length, All, Outcome, ok, err, arith,
}
use mathlib.Core.List.{append-nil}
use lord_hermes.Migrations.Models.{MigrationFile, Detail}
use lord_hermes.Common.Text.{Text}

-- Where the loop stands: its exception, applied_count, details, and the state.
pub record Progress (State : Type 0) : Type 0 where
  pub error : Option String
  pub applied_count : ℕ
  pub details : List Detail
  pub state : State

module _ {State : Type 0} (migrate : MigrationFile → State → Outcome String (Unit {0}) × State)
    (note : Text → Detail) where
  unfoldable pub apply_pending : List MigrationFile → ℕ → List Detail → State → Progress State
  apply_pending [] count details state = record {
    error = none;
    applied_count = count;
    details = details;
    state = state;
  }
  apply_pending (file ∷ rest) count details state =
      let (result, after) = migrate file state in
      elim result [
        | ok done ↦ apply_pending rest (count + 1) (details ++ note file.migration_id ∷ []) after
        | err e ↦ record { error = some e; applied_count = count; details = details; state = after }
      ]

  -- What the loop has done: the files fall into those that went through and the rest, which is
  -- empty unless one of them failed.
  abbrev pub Went :
      (MigrationFile → State → Type 0) → List MigrationFile → ℕ → Progress State → Type 0
  Went Done files count progress =
      (done : List MigrationFile) × (rest : List MigrationFile) × (files ≡ done ++ rest)
      × All (λ f. Done f progress.state) done
      × (progress.applied_count ≡ count + length done)
      × ((progress.error ≡ none) ↔ (rest ≡ []))

  on_ok :
      (f : MigrationFile) (rest : List MigrationFile) (count : ℕ) (details : List Detail)
      (s after : State)
      → migrate f s ≡ (ok tt, after)
      → apply_pending (f ∷ rest) count details s
        ≡ apply_pending rest (count + 1) (details ++ note f.migration_id ∷ []) after
  unfolding apply_pending
  on_ok f rest count details s after e =
      ap
        (λ r. elim r.0 as (λ x. Progress State) [
          | ok done ↦ apply_pending rest (count + 1) (details ++ note f.migration_id ∷ []) r.1
          | err x ↦ record { error = some x; applied_count = count; details = details; state = r.1 }
        ])
        e

  on_err :
      (f : MigrationFile) (rest : List MigrationFile) (count : ℕ) (details : List Detail)
      (s after : State) (e : String)
      → migrate f s ≡ (err e, after)
      → apply_pending (f ∷ rest) count details s
        ≡ record { error = some e; applied_count = count; details = details; state = after }
  unfolding apply_pending
  on_err f rest count details s after e h =
      ap
        (λ r. elim r.0 as (λ x. Progress State) [
          | ok done ↦ apply_pending rest (count + 1) (details ++ note f.migration_id ∷ []) r.1
          | err x ↦ record { error = some x; applied_count = count; details = details; state = r.1 }
        ])
        h

  migrate-cases :
      (f : MigrationFile) (s : State)
      → ((after : State) × (migrate f s ≡ (ok tt, after)))
        ⊎ ((e : String) × (after : State) × (migrate f s ≡ (err e, after)))
  migrate-cases f s = by_result (migrate f s)
    where
      by_result :
          (r : Outcome String (Unit {0}) × State)
          → ((after : State) × (r ≡ (ok tt, after)))
            ⊎ ((e : String) × (after : State) × (r ≡ (err e, after)))
      by_result (ok done, after) = inl (after, refl)
      by_result (err e, after) = inr (e, after, refl)

  -- Without an exception, all the files went through.
  pub Went-All :
      (Done : MigrationFile → State → Type 0) (files : List MigrationFile) (count : ℕ)
      (progress : Progress State)
      → Went Done files count progress
      → progress.error ≡ none
      → All (λ f. Done f progress.state) files
  Went-All Done files count progress (done, rest, split, all_done, counted, ends) ended =
      subst (All (λ f. Done f progress.state))
        (sym (split ∙ ap (◌++◌ done) (ends.0 ended) ∙ append-nil done)) all_done

  -- The files that the loop is given meet `Fit`.
  module _ (Fit : MigrationFile → Type 0) where
    -- What every migration keeps, the loop keeps.
    pub apply_pending-keeps :
        (Inv : State → Type 0)
        → ((f : MigrationFile) (s : State) → Fit f → Inv s → Inv (migrate f s).1)
        → (files : List MigrationFile) (count : ℕ) (details : List Detail) (s : State)
        → All Fit files
        → Inv s
        → Inv (apply_pending files count details s).state
    unfolding apply_pending
    apply_pending-keeps Inv keeps [] count details s fit h = h
    apply_pending-keeps Inv keeps (f ∷ rest) count details s fit h = elim (migrate-cases f s) [
      | inl (after, e) ↦
          subst (λ p. Inv p.state) (sym (on_ok f rest count details s after e))
            (apply_pending-keeps Inv keeps rest (count + 1) (details ++ note f.migration_id ∷ [])
              after fit.1 (subst (λ r. Inv r.1) e (keeps f s fit.0 h)))
      | inr (x, after, e) ↦
          subst (λ p. Inv p.state) (sym (on_err f rest count details s after x e))
            (subst (λ r. Inv r.1) e (keeps f s fit.0 h))
    ]

    module _ (Done : MigrationFile → State → Type 0)
        (keeps : (f g : MigrationFile) (s : State) → Fit f → Done g s → Done g (migrate f s).1)
        (does : (f : MigrationFile) (s after : State)
          → migrate f s ≡ (ok tt, after)
          → Done f after) where
      pub apply_pending-Went :
          (files : List MigrationFile) (count : ℕ) (details : List Detail) (s : State)
          → All Fit files
          → Went Done files count (apply_pending files count details s)
      unfolding apply_pending
      apply_pending-Went [] count details s fit =
          ([], [], refl, tt, omega arith, (λ _. refl, λ _. refl))
      apply_pending-Went (f ∷ rest) count details s fit = elim (migrate-cases f s) [
        | inl (after, e) ↦
            let later = details ++ note f.migration_id ∷ [] in
            let (done, left, split, all_done, counted, ends) =
              apply_pending-Went rest (count + 1) later after fit.1 in
            subst (Went Done (f ∷ rest) count) (sym (on_ok f rest count details s after e)) (
              f ∷ done,
              left,
              ap (◌∷◌ f) split,
              (
                apply_pending-keeps (Done f) (λ g t. keeps g f t) rest (count + 1) later after fit.1
                    (does f s after e),
                all_done,
              ),
              omega (arith, counted),
              ends,
            )
        | inr (x, after, e) ↦
            subst (Went Done (f ∷ rest) count) (sym (on_err f rest count details s after x e))
              ([], f ∷ rest, refl, tt, omega arith, (λ h. absurd (cc h), λ h. absurd (cc h)))
      ]
