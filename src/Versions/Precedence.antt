-- ===== src/Versions/Precedence.antt =====
-- python/apexquant-service-versioning/src/apexquant-service-versioning/semver.py
-- The precedence of versions, by what `compare` looks at.
use lord_hermes.Common.{ℕ, ◌≡◌, refl, sym, ap, ◌∙◌, ◌↔◌, false, List, Option, none, some}
use lord_hermes.Common.Text.{Text}
use lord_hermes.Versions.Orders.{
  Order, before, level, after, reverse, then_by, IsOrder, nat_order, nat_order-IsOrder, lex,
  lex-IsOrder, pair_order, pair_order-IsOrder, is_before, at_least_chains,
}
use lord_hermes.Versions.Semver.{
  SemVer, Identifier, numeric, word, identifier_order, prerelease_identifiers, prerelease_order,
  numeric_tuple, compare,
}

identifier_order-IsOrder : IsOrder identifier_order
identifier_order-IsOrder = record { flips = flips; chains = chains; levels = levels }
  where
    texts : IsOrder (lex nat_order)
    texts = lex-IsOrder nat_order nat_order-IsOrder

    flips : (x y : Identifier) → identifier_order y x ≡ reverse (identifier_order x y)
    flips (numeric x) (numeric y) = nat_order-IsOrder.flips x y
    flips (numeric x) (word y) = refl
    flips (word x) (numeric y) = refl
    flips (word x) (word y) = texts.flips x y

    chains :
        (x y z : Identifier)
        → identifier_order x y ≡ before
        → identifier_order y z ≡ before
        → identifier_order x z ≡ before
    chains (numeric x) (numeric y) (numeric z) h k = nat_order-IsOrder.chains x y z h k
    chains (numeric x) y (word z) h k = refl
    chains (numeric x) (word y) (numeric z) h k = absurd (cc k)
    chains (word x) (numeric y) z h k = absurd (cc h)
    chains (word x) (word y) (numeric z) h k = absurd (cc k)
    chains (word x) (word y) (word z) h k = texts.chains x y z h k

    levels : (x y : Identifier) → (identifier_order x y ≡ level) ↔ (x ≡ y)
    levels (numeric x) (numeric y) = (
      λ h. ap numeric ((nat_order-IsOrder.levels x y).0 h),
      λ h. (nat_order-IsOrder.levels x y).1 (cc h),
    )
    levels (numeric x) (word y) = (λ h. absurd (cc h), λ h. absurd (cc h))
    levels (word x) (numeric y) = (λ h. absurd (cc h), λ h. absurd (cc h))
    levels (word x) (word y) =
        (λ h. ap word ((texts.levels x y).0 h), λ h. (texts.levels x y).1 (cc h))

-- A version without a prerelease comes after those that have one.
abbrev stage_order : Option (List Identifier) → Option (List Identifier) → Order
stage_order none none = level
stage_order none (some q) = after
stage_order (some p) none = before
stage_order (some p) (some q) = lex identifier_order p q

stage_order-IsOrder : IsOrder stage_order
stage_order-IsOrder = record { flips = flips; chains = chains; levels = levels }
  where
    lists : IsOrder (lex identifier_order)
    lists = lex-IsOrder identifier_order identifier_order-IsOrder

    flips : (p q : Option (List Identifier)) → stage_order q p ≡ reverse (stage_order p q)
    flips none none = refl
    flips none (some q) = refl
    flips (some p) none = refl
    flips (some p) (some q) = lists.flips p q

    chains :
        (p q r : Option (List Identifier))
        → stage_order p q ≡ before
        → stage_order q r ≡ before
        → stage_order p r ≡ before
    chains none none r h k = absurd (cc h)
    chains none (some q) r h k = absurd (cc h)
    chains (some p) none none h k = absurd (cc k)
    chains (some p) none (some r) h k = absurd (cc k)
    chains (some p) (some q) none h k = refl
    chains (some p) (some q) (some r) h k = lists.chains p q r h k

    levels : (p q : Option (List Identifier)) → (stage_order p q ≡ level) ↔ (p ≡ q)
    levels none none = (λ _. refl, λ _. refl)
    levels none (some q) = (λ h. absurd (cc h), λ h. absurd (cc h))
    levels (some p) none = (λ h. absurd (cc h), λ h. absurd (cc h))
    levels (some p) (some q) =
        (λ h. ap some ((lists.levels p q).0 h), λ h. (lists.levels p q).1 (cc h))

abbrev stage : Option Text → Option (List Identifier)
stage none = none
stage (some text) = some (prerelease_identifiers (some text))

-- What a version is compared by: its numbers, and the identifiers of its prerelease.
abbrev pub Rank : Type 0
Rank = List ℕ × Option (List Identifier)

abbrev pub rank : SemVer → Rank
rank v = (numeric_tuple v, stage v.prerelease)

abbrev rank_order : Rank → Rank → Order
rank_order = pair_order (lex nat_order) stage_order

rank_order-IsOrder : IsOrder rank_order
rank_order-IsOrder =
    pair_order-IsOrder (lex nat_order) stage_order (lex-IsOrder nat_order nat_order-IsOrder)
      stage_order-IsOrder

prerelease_order-stage :
    (p q : Option Text) → prerelease_order p q ≡ stage_order (stage p) (stage q)
prerelease_order-stage none none = refl
prerelease_order-stage none (some q) = refl
prerelease_order-stage (some p) none = refl
prerelease_order-stage (some p) (some q) = refl

compare-rank : (a b : SemVer) → compare a b ≡ rank_order (rank a) (rank b)
unfolding compare
compare-rank a b =
    ap (then_by (lex nat_order (numeric_tuple a) (numeric_tuple b)))
      (prerelease_order-stage a.prerelease b.prerelease)

-- Comparing in the other order gives the opposite result.
pub compare-reverse : (a b : SemVer) → compare b a ≡ reverse (compare a b)
compare-reverse a b =
    compare-rank b a
    ∙ rank_order-IsOrder.flips (rank a) (rank b)
    ∙ ap reverse (sym (compare-rank a b))

-- A version before a second one, which is before a third, is before the third.
pub compare_chains :
    (a b c : SemVer) → compare a b ≡ before → compare b c ≡ before → compare a c ≡ before
compare_chains a b c h k =
    compare-rank a c
    ∙ rank_order-IsOrder.chains (rank a) (rank b) (rank c) (sym (compare-rank a b) ∙ h)
        (sym (compare-rank b c) ∙ k)

-- Two versions are level exactly when their numbers are the same and their prereleases are both
-- missing or have the same identifiers, numbers compared as numbers: the build never matters.
pub compare_level_iff : (a b : SemVer) → (compare a b ≡ level) ↔ (rank a ≡ rank b)
compare_level_iff a b = (
  λ h. (rank_order-IsOrder.levels (rank a) (rank b)).0 (sym (compare-rank a b) ∙ h),
  λ h. compare-rank a b ∙ (rank_order-IsOrder.levels (rank a) (rank b)).1 h,
)

pub at_least_trans :
    (a b c : SemVer)
    → is_before (compare a b) ≡ false
    → is_before (compare b c) ≡ false
    → is_before (compare a c) ≡ false
at_least_trans a b c h k =
    ap is_before (compare-rank a c)
    ∙ at_least_chains rank_order rank_order-IsOrder (rank a) (rank b) (rank c)
        (sym (ap is_before (compare-rank a b)) ∙ h) (sym (ap is_before (compare-rank b c)) ∙ k)
