-- ===== src/Common/Lists.antt =====
-- Lists measured by native numbers, and searched by Boolean tests.
use Prim.Native.Nat.{ℕ, zero, suc, ◌+◌}
use mathlib.Core.Path.{◌≡◌, refl, ap}
use mathlib.Core.Logic.{◌⊎◌, inl, inr, ◌↔◌}
use mathlib.Core.Bool.{Bool, true, false, ◌&&◌, ◌||◌}
use mathlib.Core.List.{List, [], ◌∷◌, ◌++◌}
use native.Mathlib.Omega.{arith}
use lord_hermes.Common.Tests.{if◌then◌else◌, if-cases, or-split}

module _ {ℓ} {A : Type ℓ} where
  abbrev pub length : List A → ℕ
  length [] = 0
  length (x ∷ xs) = suc (length xs)

  pub length-append : (xs ys : List A) → length (xs ++ ys) ≡ length xs + length ys
  length-append [] ys = omega arith
  length-append (x ∷ xs) ys = omega (arith, length-append xs ys)

  abbrev pub take : ℕ → List A → List A
  take zero xs = []
  take (suc n) [] = []
  take (suc n) (x ∷ xs) = x ∷ take n xs

  abbrev pub drop : ℕ → List A → List A
  drop zero xs = xs
  drop (suc n) [] = []
  drop (suc n) (x ∷ xs) = drop n xs

  pub take-append : (n : ℕ) (xs ys : List A) → length xs ≡ n → take n (xs ++ ys) ≡ xs
  take-append zero [] ys h = refl
  take-append zero (x ∷ xs) ys h = absurd (omega arith)
  take-append (suc n) [] ys h = absurd (omega arith)
  take-append (suc n) (x ∷ xs) ys h = ap (◌∷◌ x) (take-append n xs ys (omega arith))

  pub drop-append : (n : ℕ) (xs ys : List A) → length xs ≡ n → drop n (xs ++ ys) ≡ ys
  drop-append zero [] ys h = refl
  drop-append zero (x ∷ xs) ys h = absurd (omega arith)
  drop-append (suc n) [] ys h = absurd (omega arith)
  drop-append (suc n) (x ∷ xs) ys h = drop-append n xs ys (omega arith)

  abbrev pub is_nonempty : List A → Bool
  is_nonempty [] = false
  is_nonempty (x ∷ xs) = true

  abbrev pub All {κ} : (A → Type κ) → List A → Type κ
  All P [] = Unit
  All P (x ∷ xs) = P x × All P xs

  -- `[x for x in xs if test(x)]`
  abbrev pub keep : (A → Bool) → List A → List A
  keep test [] = []
  keep test (x ∷ xs) = let rest = keep test xs in if test x then x ∷ rest else rest

  pub keep-append :
      (test : A → Bool) (xs ys : List A) → keep test (xs ++ ys) ≡ keep test xs ++ keep test ys
  keep-append test [] ys = refl
  keep-append test (x ∷ xs) ys = ground (arith, keep-append test xs ys)

  pub All_every {κ} : (P : A → Type κ) → ((x : A) → P x) → (xs : List A) → All P xs
  All_every P p [] = tt
  All_every P p (x ∷ xs) = (p x, All_every P p xs)

  pub All-keep {κ} :
      (P : A → Type κ) (test : A → Bool) (xs : List A) → All P xs → All P (keep test xs)
  All-keep P test [] h = tt
  All-keep P test (x ∷ xs) h =
      if-cases (All P) (test x) (h.0, All-keep P test xs h.1) (All-keep P test xs h.1)

  -- What holds of the kept members and of the others holds of all.
  pub keep-All {κ} :
      (P : A → Type κ) (test : A → Bool) (xs : List A)
      → All P (keep test xs)
      → All (λ x. test x ≡ false → P x) xs
      → All P xs
  keep-All P test [] h k = tt
  keep-All P test (x ∷ xs) h k = by_test (test x) refl h (keep-All P test xs)
    where
      by_test :
          (b : Bool)
          → test x ≡ b
          → All P (if b then x ∷ keep test xs else keep test xs)
          → (All P (keep test xs) → All (λ y. test y ≡ false → P y) xs → All P xs)
          → P x × All P xs
      by_test true e l ih = (l.0, ih l.1 k.1)
      by_test false e l ih = (k.0 e, ih l k.1)

  pub both_All :
      (P Q R : A → Type 0)
      → ((x : A) → P x → Q x → R x)
      → (xs : List A) → All P xs
      → All Q xs
      → All R xs
  both_All P Q R f [] h k = tt
  both_All P Q R f (x ∷ xs) h k = (f x h.0 k.0, both_All P Q R f xs h.1 k.1)

  -- What the first member must satisfy if it is kept, and the rest.
  pub All-keep_cons {κ} :
      (P : A → Type κ) (test : A → Bool) (x : A) (xs : List A)
      → All P (keep test (x ∷ xs))
      → (test x ≡ true → P x) × All P (keep test xs)
  All-keep_cons P test x xs h = by_test (test x) refl h
    where
      by_test :
          (b : Bool)
          → test x ≡ b
          → All P (if b then x ∷ keep test xs else keep test xs)
          → (test x ≡ true → P x) × All P (keep test xs)
      by_test true e h = (λ k. h.0, h.1)
      by_test false e h = (λ k. absurd (ground (arith, e, k)), h)

  abbrev pub any : (A → Bool) → List A → Bool
  any test [] = false
  any test (x ∷ xs) = test x || any test xs

  abbrev pub all : (A → Bool) → List A → Bool
  all test [] = true
  all test (x ∷ xs) = test x && all test xs

  pub any-append :
      (test : A → Bool) (xs ys : List A) → any test (xs ++ ys) ≡ (any test xs || any test ys)
  any-append test [] ys = refl
  any-append test (x ∷ xs) ys = ground (arith, any-append test xs ys)

  pub All-append {κ} : (P : A → Type κ) (xs ys : List A) → All P xs → All P ys → All P (xs ++ ys)
  All-append P [] ys h k = k
  All-append P (x ∷ xs) ys h k = (h.0, All-append P xs ys h.1 k)

  pub All-map {κ μ} :
      (P : A → Type κ) (Q : A → Type μ) (xs : List A) → ((x : A) → P x → Q x) → All P xs → All Q xs
  All-map P Q [] f h = tt
  All-map P Q (x ∷ xs) f h = (f x h.0, All-map P Q xs f h.1)

  abbrev pub Any : (A → Type 0) → List A → Type 0
  Any P [] = ⊥
  Any P (x ∷ xs) = P x ⊎ Any P xs

  pub Any-append-left : (P : A → Type 0) (xs ys : List A) → Any P xs → Any P (xs ++ ys)
  Any-append-left P [] ys h = absurd h
  Any-append-left P (x ∷ xs) ys (inl h) = inl h
  Any-append-left P (x ∷ xs) ys (inr h) = inr (Any-append-left P xs ys h)

  pub Any-append-right : (P : A → Type 0) (xs ys : List A) → Any P ys → Any P (xs ++ ys)
  Any-append-right P [] ys h = h
  Any-append-right P (x ∷ xs) ys h = inr (Any-append-right P xs ys h)

  pub Any-append-cases : (P : A → Type 0) (xs ys : List A) → Any P (xs ++ ys) → Any P xs ⊎ Any P ys
  Any-append-cases P [] ys h = inr h
  Any-append-cases P (x ∷ xs) ys (inl h) = inl (inl h)
  Any-append-cases P (x ∷ xs) ys (inr h) = elim (Any-append-cases P xs ys h) [
    | inl k ↦ inl (inr k)
    | inr k ↦ inr k
  ]

  pub All-prefix {κ} : (P : A → Type κ) (xs ys : List A) → All P (xs ++ ys) → All P xs
  All-prefix P [] ys h = tt
  All-prefix P (x ∷ xs) ys h = (h.0, All-prefix P xs ys h.1)

  pub Any-map : {P Q : A → Type 0} (xs : List A) → ((x : A) → P x → Q x) → Any P xs → Any Q xs
  Any-map [] f h = absurd h
  Any-map (x ∷ xs) f (inl h) = inl (f x h)
  Any-map (x ∷ xs) f (inr h) = inr (Any-map xs f h)

  -- What holds of all members holds of the one that is there.
  pub Any-All {κ} :
      (P : A → Type 0) (Q : A → Type κ) (xs : List A) → All Q xs → Any P xs → (x : A) × P x × Q x
  Any-All P Q [] q h = absurd h
  Any-All P Q (x ∷ xs) q (inl h) = (x, h, q.0)
  Any-All P Q (x ∷ xs) q (inr h) = Any-All P Q xs q.1 h

  pub all-All : (test : A → Bool) (xs : List A) → all test xs ≡ true → All (λ x. test x ≡ true) xs
  all-All test [] h = tt
  all-All test (x ∷ xs) h = (ground arith, all-All test xs (ground arith))

  -- `any` decides that some member passes.
  pub any-Any : (test : A → Bool) (xs : List A) → any test xs ≡ true → Any (λ x. test x ≡ true) xs
  any-Any test [] h = absurd (cc h)
  any-Any test (x ∷ xs) h = elim (or-split (test x) (any test xs) h) [
    | inl k ↦ inl k
    | inr k ↦ inr (any-Any test xs k)
  ]

  pub Any-any : (test : A → Bool) (xs : List A) → Any (λ x. test x ≡ true) xs → any test xs ≡ true
  Any-any test [] h = absurd h
  Any-any test (x ∷ xs) (inl h) = ground (arith, h)
  Any-any test (x ∷ xs) (inr h) = ground (arith, Any-any test xs h)

-- Lists joined in order.
module _ {ℓ} {A : Type ℓ} where
  abbrev pub flatten : List (List A) → List A
  flatten [] = []
  flatten (xs ∷ lists) = xs ++ flatten lists

  pub All-flatten {κ} :
      (P : A → Type κ) (lists : List (List A)) → All (All P) lists → All P (flatten lists)
  All-flatten P [] h = tt
  All-flatten P (xs ∷ lists) h = All-append P xs (flatten lists) h.0 (All-flatten P lists h.1)

  pub append_nil_iff : (xs ys : List A) → (xs ++ ys ≡ []) ↔ ((xs ≡ []) × (ys ≡ []))
  append_nil_iff [] ys = (λ h. (refl, h), λ h. h.1)
  append_nil_iff (x ∷ xs) ys = (λ h. absurd (cc h), λ h. absurd (cc h.0))

  pub flatten_nil_iff : (lists : List (List A)) → (flatten lists ≡ []) ↔ All (λ xs. xs ≡ []) lists
  flatten_nil_iff [] = (λ _. tt, λ _. refl)
  flatten_nil_iff (xs ∷ lists) = (
    λ h.
        let both = (append_nil_iff xs (flatten lists)).0 h in
        (both.0, (flatten_nil_iff lists).0 both.1),
    λ h. (append_nil_iff xs (flatten lists)).1 (h.0, (flatten_nil_iff lists).1 h.1),
  )
