-- ===== src/Migrations/Recorded.antt =====
-- python/apexquant-migrations/src/apexquant-migrations/postgres.py
-- The registry under get_applied and under the insertion of a row.
use lord_hermes.Common.{
  ℕ, ◌≡◌, refl, subst, Bool, true, false, not, ◌&&◌, [], ◌∷◌, none, some, String, ◌==◌, nat_eq, get,
  all, All, all-All, All-map, if◌then◌else◌, if-cases, is_none, Outcome, ok, err, arith, and-split,
}
use lord_hermes.Common.Text.{Text, text_eq, strip, strip-AllVisible, is_space, is_digit}
use lord_hermes.Migrations.Models.{postgres, engine_eq, AppliedMigration}
use lord_hermes.Migrations.Registry.{
  Registry, is_hex, is_checksum, is_valid_row, place, insert_row, get_applied,
}

-- A row stands under its own id, is a row of this engine, and meets the constraints.
abbrev pub IsRow : Text × AppliedMigration → Type 0
IsRow (id, row) = (row.migration_id ≡ id) × (row.engine ≡ postgres) × (is_valid_row row ≡ true)

abbrev pub IsRegistry : Registry → Type 0
IsRegistry registry = All IsRow registry

hex_visible : (c : ℕ) → is_hex c ≡ true → is_space c ≡ false
unfolding is_hex is_digit is_space
hex_visible c h = ground arith

strip-checksum : (t : Text) → is_checksum t ≡ true → strip t ≡ t
unfolding is_checksum
strip-checksum t h = strip-AllVisible t (
    All-map (λ c. is_hex c ≡ true) (λ c. is_space c ≡ false) t hex_visible
      (all-All is_hex t (and-split _ (all is_hex t) h).1))

valid_checksum :
    (row : AppliedMigration) → is_valid_row row ≡ true → is_checksum row.checksum_sha256 ≡ true
unfolding is_valid_row
valid_checksum row h = ground arith

pub get_applied_id : (registry : Registry) → IsRegistry registry → get_applied registry ≡ registry
unfolding get_applied
get_applied_id [] h = refl
get_applied_id ((id, row) ∷ rest) h =
    rw
      (
        (engine_eq.beq_iff row.engine postgres).1 h.0.1,
        strip-checksum row.checksum_sha256 (valid_checksum row h.0.2),
        get_applied_id rest h.1,
      )
      refl

module _ (before : AppliedMigration → AppliedMigration → Bool) where
  get-place :
      (k j : Text) (v : AppliedMigration) (registry : Registry)
      → get k registry ≡ none
      → get j (place before k v registry) ≡ (if k == j then some v else get j registry)
  unfolding get place
  get-place k j v [] h = refl
  get-place k j v ((i, w) ∷ rest) h =
      ground
        (arith, text_eq.beq_iff k j, text_eq.beq_iff i k, text_eq.beq_iff i j, get-place k j v rest)

  place-IsRegistry :
      (k : Text) (v : AppliedMigration) (registry : Registry)
      → IsRow (k, v)
      → IsRegistry registry
      → IsRegistry (place before k v registry)
  unfolding place
  place-IsRegistry k v [] p h = (p, tt)
  place-IsRegistry k v ((i, w) ∷ rest) p h =
      if-cases IsRegistry (before v w) (p, h) (h.0, place-IsRegistry k v rest p h.1)

  -- What is recorded stays, and the new row is there if its id was free.
  pub get-insert_row :
      (row : AppliedMigration) (registry after : Registry) (j : Text)
      → insert_row before row registry ≡ ok after
      → get j after ≡ (
          if is_none (get row.migration_id registry) && (row.migration_id == j)
          then some row
          else get j registry)
  unfolding insert_row
  get-insert_row row registry after j h = ground (arith, get-place row.migration_id j row registry)

  pub insert_row-IsRegistry :
      (row : AppliedMigration) (registry after : Registry)
      → row.engine ≡ postgres
      → IsRegistry registry
      → insert_row before row registry ≡ ok after
      → IsRegistry after
  unfolding insert_row
  insert_row-IsRegistry row registry after e h = by_valid (is_valid_row row) refl
    where
      inserted : Bool → Outcome String Registry
      inserted b =
          if not b
          then err "row violates a check constraint"
          else ok (
              if is_none (get row.migration_id registry)
              then place before row.migration_id row registry
              else registry)

      by_valid : (b : Bool) → is_valid_row row ≡ b → inserted b ≡ ok after → IsRegistry after
      by_valid false v q = absurd (cc q)
      by_valid true v q =
          let kept : IsRegistry (
              if is_none (get row.migration_id registry)
              then place before row.migration_id row registry
              else registry) =
            if-cases IsRegistry (is_none (get row.migration_id registry))
              (place-IsRegistry row.migration_id row registry (refl, e, v) h) h in
          subst IsRegistry (cc q) kept
