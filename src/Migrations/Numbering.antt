-- ===== src/Migrations/Numbering.antt =====
-- python/apexquant-migrations/src/apexquant-migrations/discovery.py
-- The version that a new migration gets.
use lord_hermes.Common.{
  ℕ, ◌+◌, ◌≤◌, ◌<◌, ◌≡◌, refl, true, List, [], ◌∷◌, ltb, length, All, All-map, if◌then◌else◌, arith,
}
use lord_hermes.Common.Text.{Text, is_digit}
use lord_hermes.Common.Decimal.{int, str, int-zfill-str, zfill-All, zfill-length}
use lord_hermes.Migrations.Models.{MigrationFile}
use lord_hermes.Migrations.Discovery.{highest_version, next_version}

abbrev pub IsBelow : ℕ → MigrationFile → Type 0
IsBelow n f = int f.version ≤ n

highest_version-All : (files : List MigrationFile) → All (IsBelow (highest_version files)) files
unfolding highest_version
highest_version-All [] = tt
highest_version-All (f ∷ rest) = (
  omega (arith, at_most),
  All-map (IsBelow (highest_version rest)) (IsBelow (highest_version (f ∷ rest))) rest
      (λ g h. omega (arith, h, grows)) (highest_version-All rest),
)
  where
    at_most : int f.version ≤ highest_version (f ∷ rest)
    at_most = ground arith

    grows : highest_version rest ≤ highest_version (f ∷ rest)
    grows = ground arith

next_version-int :
    (files : List MigrationFile) → int (next_version files) ≡ highest_version files + 1
unfolding next_version highest_version int
next_version-int [] = refl
next_version-int (f ∷ rest) = int-zfill-str (if ltb 4 (length (str n)) then length (str n) else 4) n
  where
    n : ℕ
    n = highest_version (f ∷ rest) + 1

pub next_version-length : (files : List MigrationFile) → 4 ≤ length (next_version files)
unfolding next_version
next_version-length [] = omega arith
next_version-length (f ∷ rest) =
    let text = str (highest_version (f ∷ rest) + 1) in
    omega (arith, zfill-length (if ltb 4 (length text) then length text else 4) text, wide text)
  where
    wide : (text : Text) → 4 ≤ (if ltb 4 (length text) then length text else 4)
    wide text = ground arith

pub next_version-All :
    (files : List MigrationFile) → All (λ c. is_digit c ≡ true) (next_version files)
unfolding next_version is_digit
next_version-All [] = (refl, (refl, (refl, (refl, tt))))
next_version-All (f ∷ rest) =
    let n = highest_version (f ∷ rest) + 1 in
    zfill-All (if ltb 4 (length (str n)) then length (str n) else 4) n

-- The next version is above each version that there is, and is written with at least four
-- characters, all of them digits.
pub next_version_above :
    (files : List MigrationFile)
    → All (λ f. int f.version < int (next_version files)) files
      × (4 ≤ length (next_version files))
      × All (λ c. is_digit c ≡ true) (next_version files)
next_version_above files = (
  All-map (IsBelow (highest_version files)) (λ f. int f.version < int (next_version files)) files
      (λ f h. omega (arith, h, next_version-int files)) (highest_version-All files),
  next_version-length files,
  next_version-All files,
)
