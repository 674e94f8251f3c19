-- ===== src/Recovery/Floats.antt =====
-- Python's float, as far as the scores of disaster recovery need it.
use lord_hermes.Common.{ℕ, ◌≤◌, ◌+◌, ◌≡◌, ◌⊎◌, Bool, true, ltb, if◌then◌else◌}

-- The operations: a whole number as a float, sum, product, the quotient of two ints, and `<`.
pub record Floats (Float : Type 0) : Type 0 where
  pub whole : ℕ → Float
  pub add : Float → Float → Float
  pub mul : Float → Float → Float
  pub ratio : ℕ → ℕ → Float
  pub less : Float → Float → Bool

-- What IEEE 754 says of them, for numbers that are not NaN: whole numbers up to 100 are exact, the
-- order is total, and a rounded sum keeps it.
pub record FloatLaws {Float : Type 0} (floats : Floats Float) : Type 0 where
  pub less-whole :
      (m n : ℕ) → m ≤ 100 → n ≤ 100 → floats.less (floats.whole m) (floats.whole n) ≡ ltb m n
  pub less_split :
      (a b c : Float) → floats.less a c ≡ true → (floats.less a b ≡ true) ⊎ (floats.less b c ≡ true)
  pub less-add :
      (a b c : Float)
      → floats.less (floats.add a c) (floats.add b c) ≡ true
      → floats.less a b ≡ true
  pub add-whole :
      (m n : ℕ) → m + n ≤ 100 → floats.add (floats.whole m) (floats.whole n) ≡ floats.whole (m + n)

module _ {Float : Type 0} (floats : Floats Float) where
  -- `min(a, b)` and `max(a, b)`, which return the first of equal arguments.
  unfoldable pub min_of : Float → Float → Float
  min_of a b = if floats.less b a then b else a

  unfoldable pub max_of : Float → Float → Float
  max_of a b = if floats.less a b then b else a
