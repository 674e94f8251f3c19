-- ===== src/Common/Sorting.antt =====
-- Python's stable sort by a key, as an insertion sort by the test of the keys.
use mathlib.Core.Path.{◌≡◌, refl}
use mathlib.Core.Logic.{◌⊎◌, inl, inr}
use mathlib.Core.Bool.{Bool, true, false}
use mathlib.Core.List.{List, [], ◌∷◌}
use lord_hermes.Common.Tests.{if◌then◌else◌, if-cases}
use lord_hermes.Common.Lists.{All, Any, All-map}

module _ {ℓ} {A : Type ℓ} (leb : A → A → Bool) where
  unfoldable pub insert : A → List A → List A
  insert x [] = x ∷ []
  insert x (y ∷ ys) = if leb x y then x ∷ y ∷ ys else y ∷ insert x ys

  unfoldable pub sort_by : List A → List A
  sort_by [] = []
  sort_by (x ∷ xs) = insert x (sort_by xs)

  abbrev pub IsSorted : List A → Type 0
  IsSorted [] = Unit
  IsSorted (x ∷ xs) = All (λ y. leb x y ≡ true) xs × IsSorted xs

  pub insert-All {κ} : (P : A → Type κ) (x : A) (xs : List A) → P x → All P xs → All P (insert x xs)
  unfolding insert
  insert-All P x [] p h = (p, tt)
  insert-All P x (y ∷ ys) p h = if-cases (All P) (leb x y) (p, h) (h.0, insert-All P x ys p h.1)

  pub sort_by-All {κ} : (P : A → Type κ) (xs : List A) → All P xs → All P (sort_by xs)
  unfolding sort_by
  sort_by-All P [] h = tt
  sort_by-All P (x ∷ xs) h = insert-All P x (sort_by xs) h.0 (sort_by-All P xs h.1)

  -- What holds of the sorted list holds of the list.
  pub All-insert {κ} : (P : A → Type κ) (x : A) (xs : List A) → All P (insert x xs) → P x × All P xs
  unfolding insert
  All-insert P x [] h = h
  All-insert P x (y ∷ ys) h =
      if-cases (λ l. All P l → P x × All P (y ∷ ys)) (leb x y) (λ k. k)
        (λ k. let rest = All-insert P x ys k.1 in (rest.0, (k.0, rest.1))) h

  pub All-sort_by {κ} : (P : A → Type κ) (xs : List A) → All P (sort_by xs) → All P xs
  unfolding sort_by
  All-sort_by P [] h = tt
  All-sort_by P (x ∷ xs) h = let k = All-insert P x (sort_by xs) h in (k.0, All-sort_by P xs k.1)

  insert-Any : (P : A → Type 0) (x : A) (xs : List A) → P x ⊎ Any P xs → Any P (insert x xs)
  unfolding insert
  insert-Any P x [] h = h
  insert-Any P x (y ∷ ys) h = if-cases (Any P) (leb x y) h (later h (λ k. insert-Any P x ys k))
    where
      later :
          P x ⊎ Any P (y ∷ ys) → (P x ⊎ Any P ys → Any P (insert x ys)) → Any P (y ∷ insert x ys)
      later (inl p) ih = inr (ih (inl p))
      later (inr (inl q)) ih = inl q
      later (inr (inr r)) ih = inr (ih (inr r))

  -- What some member meets, some member of the sorted list meets.
  pub sort_by-Any : (P : A → Type 0) (xs : List A) → Any P xs → Any P (sort_by xs)
  unfolding sort_by
  sort_by-Any P [] h = h
  sort_by-Any P (x ∷ xs) (inl p) = insert-Any P x (sort_by xs) (inl p)
  sort_by-Any P (x ∷ xs) (inr h) = insert-Any P x (sort_by xs) (inr (sort_by-Any P xs h))

  module _ (total : (x y : A) → leb x y ≡ false → leb y x ≡ true)
      (trans : (x y z : A) → leb x y ≡ true → leb y z ≡ true → leb x z ≡ true) where
    insert-IsSorted : (x : A) (xs : List A) → IsSorted xs → IsSorted (insert x xs)
    unfolding insert
    insert-IsSorted x [] h = (tt, tt)
    insert-IsSorted x (y ∷ ys) h = by_test (leb x y) refl (insert-IsSorted x ys h.1)
      where
        by_test :
            (b : Bool)
            → leb x y ≡ b
            → IsSorted (insert x ys)
            → IsSorted (if b then x ∷ y ∷ ys else y ∷ insert x ys)
        by_test true e ih = (
          (e, All-map (λ z. leb y z ≡ true) (λ z. leb x z ≡ true) ys (λ z k. trans x y z e k) h.0),
          h,
        )
        by_test false e ih = (insert-All (λ z. leb y z ≡ true) x ys (total x y e) h.0, ih)

    pub sort_by-IsSorted : (xs : List A) → IsSorted (sort_by xs)
    unfolding sort_by
    sort_by-IsSorted [] = tt
    sort_by-IsSorted (x ∷ xs) = insert-IsSorted x (sort_by xs) (sort_by-IsSorted xs)
