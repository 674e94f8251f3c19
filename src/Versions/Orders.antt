-- ===== src/Versions/Orders.antt =====
-- python/apexquant-service-versioning/src/apexquant-service-versioning/semver.py
-- Comparisons with three outcomes, and the order of lists by their first difference: Python's order
-- of tuples, texts and identifier lists.
use mathlib.Core.Path.{ap₂}
use lord_hermes.Common.{
  ℕ, ◌≡◌, refl, sym, ap, ◌∙◌, subst, ◌↔◌, Bool, true, false, List, [], ◌∷◌, ltb, ◌==◌, nat_eq,
  if◌then◌else◌, arith,
}

-- -1, 0 and 1.
pub data Order : Type 0 where
  before level after : Order

abbrev pub reverse : Order → Order
reverse before = after
reverse level = level
reverse after = before

-- The second comparison decides where the first does not.
abbrev pub then_by : Order → Order → Order
then_by before next = before
then_by level next = next
then_by after next = after

pub record IsOrder {A : Type 0} (cmp : A → A → Order) : Type 0 where
  pub flips : (x y : A) → cmp y x ≡ reverse (cmp x y)
  pub chains : (x y z : A) → cmp x y ≡ before → cmp y z ≡ before → cmp x z ≡ before
  pub levels : (x y : A) → (cmp x y ≡ level) ↔ (x ≡ y)

abbrev pub nat_order : ℕ → ℕ → Order
nat_order x y = if x == y then level else if ltb x y then before else after

pub nat_order-IsOrder : IsOrder nat_order
nat_order-IsOrder = record {
  flips = λ x y. ground arith;
  chains = λ x y z h k. ground arith;
  levels = λ x y. ground arith;
}

pub reverse_then : (a p : Order) → then_by (reverse a) (reverse p) ≡ reverse (then_by a p)
reverse_then before p = refl
reverse_then level p = refl
reverse_then after p = refl

pub then_level : (a p : Order) → (then_by a p ≡ level) ↔ ((a ≡ level) × (p ≡ level))
then_level before p = (λ h. absurd (cc h), λ h. absurd (cc h.0))
then_level level p = (λ h. (refl, h), λ h. h.1)
then_level after p = (λ h. absurd (cc h), λ h. absurd (cc h.0))

module _ {A : Type 0} (cmp : A → A → Order) where
  abbrev pub lex : List A → List A → Order
  lex [] [] = level
  lex [] (y ∷ ys) = before
  lex (x ∷ xs) [] = after
  lex (x ∷ xs) (y ∷ ys) = then_by (cmp x y) (lex xs ys)

  module _ (order : IsOrder cmp) where
    -- A chain of two comparisons, each decided at once or by what follows.
    pub then_chains :
        (x y z : A) (p q r : Order)
        → (p ≡ before → q ≡ before → r ≡ before)
        → then_by (cmp x y) p ≡ before
        → then_by (cmp y z) q ≡ before
        → then_by (cmp x z) r ≡ before
    then_chains x y z p q r f h k = by_first (cmp x y) refl (cmp y z) refl h k
      where
        level_left : cmp x y ≡ level → cmp x z ≡ cmp y z
        level_left e = ap (λ w. cmp w z) ((order.levels x y).0 e)

        level_right : cmp y z ≡ level → cmp x z ≡ cmp x y
        level_right e = ap (cmp x) (sym ((order.levels y z).0 e))

        by_first :
            (a : Order)
            → cmp x y ≡ a
            → (b : Order) → cmp y z ≡ b
            → then_by a p ≡ before
            → then_by b q ≡ before
            → then_by (cmp x z) r ≡ before
        by_first before e before g h k = rw (order.chains x y z e g) refl
        by_first before e level g h k = rw (level_right g ∙ e) refl
        by_first level e before g h k = rw (level_left e ∙ g) refl
        by_first level e level g h k = rw (level_left e ∙ g) (f h k)
        by_first after e b g h k = absurd (cc h)
        by_first before e after g h k = absurd (cc k)
        by_first level e after g h k = absurd (cc k)

    lex-flips : (xs ys : List A) → lex ys xs ≡ reverse (lex xs ys)
    lex-flips [] [] = refl
    lex-flips [] (y ∷ ys) = refl
    lex-flips (x ∷ xs) [] = refl
    lex-flips (x ∷ xs) (y ∷ ys) =
        rw (order.flips x y, lex-flips xs ys) (reverse_then (cmp x y) (lex xs ys))

    lex-chains : (xs ys zs : List A) → lex xs ys ≡ before → lex ys zs ≡ before → lex xs zs ≡ before
    lex-chains [] ys [] h k = absurd (no_less ys k)
      where
        no_less : (ys : List A) → lex ys [] ≡ before → ⊥
        no_less [] e = cc e
        no_less (y ∷ ys) e = cc e
    lex-chains [] ys (z ∷ zs) h k = refl
    lex-chains (x ∷ xs) [] zs h k = absurd (cc h)
    lex-chains (x ∷ xs) (y ∷ ys) [] h k = absurd (cc k)
    lex-chains (x ∷ xs) (y ∷ ys) (z ∷ zs) h k = then_chains x y z _ _ _ (lex-chains xs ys zs) h k

    lex-levels : (xs ys : List A) → (lex xs ys ≡ level) ↔ (xs ≡ ys)
    lex-levels [] [] = (λ _. refl, λ _. refl)
    lex-levels [] (y ∷ ys) = (λ h. absurd (cc h), λ h. absurd (cc h))
    lex-levels (x ∷ xs) [] = (λ h. absurd (cc h), λ h. absurd (cc h))
    lex-levels (x ∷ xs) (y ∷ ys) = (
      λ h.
          let both = (then_level (cmp x y) (lex xs ys)).0 h in
          cc ((order.levels x y).0 both.0, (lex-levels xs ys).0 both.1),
      λ h.
          (then_level (cmp x y) (lex xs ys)).1
            ((order.levels x y).1 (cc h), (lex-levels xs ys).1 (cc h)),
    )

    pub lex-IsOrder : IsOrder lex
    lex-IsOrder = record { flips = lex-flips; chains = lex-chains; levels = lex-levels }

module _ {A B : Type 0} (first : A → A → Order) (second : B → B → Order) where
  abbrev pub pair_order : A × B → A × B → Order
  pair_order x y = then_by (first x.0 y.0) (second x.1 y.1)

  pub pair_order-IsOrder : IsOrder first → IsOrder second → IsOrder pair_order
  pair_order-IsOrder f s = record {
    flips = λ x y.
        rw (f.flips x.0 y.0, s.flips x.1 y.1) (reverse_then (first x.0 y.0) (second x.1 y.1));
    chains = λ x y z h k. then_chains first f x.0 y.0 z.0 _ _ _ (s.chains x.1 y.1 z.1) h k;
    levels = λ x y. (
      λ h.
          let both = (then_level (first x.0 y.0) (second x.1 y.1)).0 h in
          together x y ((f.levels x.0 y.0).0 both.0) ((s.levels x.1 y.1).0 both.1),
      λ h.
          (then_level (first x.0 y.0) (second x.1 y.1)).1
            ((f.levels x.0 y.0).1 (ap (λ w. w.0) h), (s.levels x.1 y.1).1 (ap (λ w. w.1) h)),
    );
  }
    where
      together : (x y : A × B) → x.0 ≡ y.0 → x.1 ≡ y.1 → x ≡ y
      together x y e g = ap₂ (λ v w. (v, w)) e g

abbrev pub is_before : Order → Bool
is_before before = true
is_before level = false
is_before after = false

-- What is not before something is at least as high: this relation is transitive.
pub at_least_chains :
    {A : Type 0} (cmp : A → A → Order)
    → IsOrder cmp
    → (x y z : A) → is_before (cmp x y) ≡ false
    → is_before (cmp y z) ≡ false
    → is_before (cmp x z) ≡ false
at_least_chains cmp order x y z h k = by_last (cmp x z) refl
  where
    by_first : cmp x z ≡ before → (o : Order) → cmp x y ≡ o → is_before o ≡ false → ⊥
    by_first e before g n = cc n
    by_first e level g n = cc (k, subst (λ w. cmp w z ≡ before) ((order.levels x y).0 g) e)
    by_first e after g n = cc (k, order.chains y x z (order.flips x y ∙ ap reverse g) e)

    by_last : (o : Order) → cmp x z ≡ o → is_before o ≡ false
    by_last before e = absurd (by_first e (cmp x y) refl h)
    by_last level e = refl
    by_last after e = refl
