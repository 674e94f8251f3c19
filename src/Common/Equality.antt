-- ===== src/Common/Equality.antt =====
-- Python's `==` on the types that the program compares: an instance for each.
use Prim.Native.Nat.{ℕ}
use Prim.Native.String.{String}
use mathlib.Core.Path.{◌≡◌, refl}
use mathlib.Core.Logic.{◌↔◌}
use mathlib.Core.Bool.{Bool, true, false, ◌||◌, false≢true}
use mathlib.Core.List.{List, [], ◌∷◌}
use text.Mathlib.Text.{◌==◌ as str_eq}
use text.Mathlib.TextEquality.{eq_iff}
use lord_hermes.Common.Tests.{nat_beq, nat_beq_iff}

-- The test of a type, which tells equal from different.
pub record Eq {κ} (T : Type κ) : Type κ where
  pub beq : T → T → Bool
  pub beq_iff : (x y : T) → (beq x y ≡ true) ↔ (x ≡ y)

module _ {κ} {T : Type κ} ⦃test : Eq T⦄ where
  infix 50 ◌==◌
  abbrev pub ◌==◌ : T → T → Bool
  x == y = test.beq x y

  -- `x in xs`
  abbrev pub contains : T → List T → Bool
  contains x [] = false
  contains x (y ∷ ys) = x == y || contains x ys

  pub beq_refl : (x : T) → (x == x) ≡ true
  beq_refl x = (test.beq_iff x x).1 refl

abbrev pub yes_no {ℓ} : {P : Type ℓ} → Dec P → Bool
yes_no (yes p) = true
yes_no (no n) = false

pub yes_no_iff {ℓ} : {P : Type ℓ} (d : Dec P) → (yes_no d ≡ true) ↔ P
yes_no_iff (yes p) = (λ _. p, λ _. refl)
yes_no_iff (no n) = (λ e. absurd (false≢true e), λ p. absurd (n p))

-- Members of an enum are equal when they are the same constructor.
abbrev pub enum_eq {ℓ} : {A : Type ℓ} → Discrete A → Eq A
enum_eq d = record { beq = λ a b. yes_no (d a b); beq_iff = λ a b. yes_no_iff (d a b) }

-- Strings, as the library compares them, and native numbers.
instance abbrev pub string_eq : Eq String
string_eq = record { beq = str_eq; beq_iff = eq_iff }

instance abbrev pub nat_eq : Eq ℕ
nat_eq = record { beq = nat_beq; beq_iff = nat_beq_iff }
