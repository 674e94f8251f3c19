-- ===== src/Versions/Sorted.antt =====
-- python/apexquant-service-versioning/src/apexquant-service-versioning/semver.py
-- The descending sort of versions.
use lord_hermes.Common.{
  ◌≡◌, refl, ap, ◌∙◌, Bool, true, false, List, [], ◌∷◌, if◌then◌else◌, All, All-map, if-cases,
}
use lord_hermes.Common.Text.{Text}
use lord_hermes.Versions.Orders.{Order, before, level, after, reverse, is_before}
use lord_hermes.Versions.Semver.{SemVer, compare, insert_descending, sort_descending}
use lord_hermes.Versions.Precedence.{compare-reverse, at_least_trans}

insert_descending-All :
    (P : Text × SemVer → Type 0) (item : Text × SemVer) (items : List (Text × SemVer))
    → P item
    → All P items
    → All P (insert_descending item items)
unfolding insert_descending
insert_descending-All P item [] p ps = (p, ps)
insert_descending-All P item (next ∷ rest) p ps =
    if-cases (All P) (is_before (compare item.1 next.1))
      (ps.0, insert_descending-All P item rest p ps.1) (p, ps)

pub sort_descending-All :
    (P : Text × SemVer → Type 0) (items : List (Text × SemVer))
    → All P items
    → All P (sort_descending items)
unfolding sort_descending
sort_descending-All P [] ps = tt
sort_descending-All P (item ∷ rest) ps =
    insert_descending-All P item (sort_descending rest) ps.0 (sort_descending-All P rest ps.1)

abbrev pub NotBefore : SemVer → Text × SemVer → Type 0
NotBefore v item = is_before (compare v item.1) ≡ false

-- The first version is not before any version of the list.
abbrev pub IsTopped : List (Text × SemVer) → List (Text × SemVer) → Type 0
IsTopped [] all_items = All (λ i. ⊥) all_items
IsTopped (item ∷ rest) all_items = All (NotBefore item.1) all_items

not_before_self : (v : SemVer) → is_before (compare v v) ≡ false
not_before_self v = symmetric (compare v v) (compare-reverse v v)
  where
    symmetric : (o : Order) → o ≡ reverse o → is_before o ≡ false
    symmetric before e = absurd (cc e)
    symmetric level e = refl
    symmetric after e = refl

not_before_reverse :
    (v w : SemVer) → is_before (compare v w) ≡ true → is_before (compare w v) ≡ false
not_before_reverse v w h = ap is_before (compare-reverse v w) ∙ opposite (compare v w) h
  where
    opposite : (o : Order) → is_before o ≡ true → is_before (reverse o) ≡ false
    opposite before e = refl
    opposite level e = absurd (cc e)
    opposite after e = absurd (cc e)

insert_descending-IsTopped :
    (item : Text × SemVer) (items all_items : List (Text × SemVer))
    → IsTopped items all_items
    → IsTopped (insert_descending item items) (item ∷ all_items)
unfolding insert_descending
insert_descending-IsTopped item [] all_items h =
    (not_before_self item.1, All-map (λ i. ⊥) (NotBefore item.1) all_items (λ i e. absurd e) h)
insert_descending-IsTopped item (next ∷ rest) all_items h =
    by_order (is_before (compare item.1 next.1)) refl
  where
    by_order :
        (b : Bool)
        → is_before (compare item.1 next.1) ≡ b
        → IsTopped
            (if b then next ∷ insert_descending item rest else item ∷ next ∷ rest)
            (item ∷ all_items)
    by_order true e = (not_before_reverse item.1 next.1 e, h)
    by_order false e = (
      not_before_self item.1,
      All-map (NotBefore next.1) (NotBefore item.1) all_items
          (λ i k. at_least_trans item.1 next.1 i.1 e k) h,
    )

pub sort_descending-IsTopped :
    (items : List (Text × SemVer)) → IsTopped (sort_descending items) items
unfolding sort_descending
sort_descending-IsTopped [] = tt
sort_descending-IsTopped (item ∷ rest) =
    insert_descending-IsTopped item (sort_descending rest) rest (sort_descending-IsTopped rest)
