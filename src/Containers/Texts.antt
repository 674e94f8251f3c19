-- ===== src/Containers/Texts.antt =====
-- python/apexquant-container-policy/src/apexquant_container_policy/policy.py
-- What the tests of the policy on texts say of the texts.
use lord_hermes.Common.{
  ℕ, ◌≡◌, refl, sym, ap, ◌∙◌, subst, ◌↔◌, ◌⊎◌, inl, inr, Bool, true, false, ◌&&◌, ◌||◌, not, [],
  ◌∷◌, ◌++◌, ◌==◌, nat_eq, contains, any, any-Any, Any-any, Any-map, arith, and-split, or-split,
  Bool-cases, if◌then◌else◌, is_nonempty,
}
use lord_hermes.Common.Text.{
  Text, text_eq, codes, colon, lower, NoColon, starts_with, has_part, after_first, ends_with,
}
use lord_hermes.Containers.Policy.{is_literal_secret, secret_key_markers}
use lord_hermes.Containers.Compliance.{HasPart, IsReference, IsTolerable, NamesTag}

starts_with_iff :
    (text prefix : Text)
    → (starts_with text prefix ≡ true) ↔ ((rest : Text) × (text ≡ prefix ++ rest))
unfolding starts_with
starts_with_iff text [] = (λ _. (text, refl), λ _. refl)
starts_with_iff [] (d ∷ prefix) = (λ h. absurd (cc h), λ (rest, e). absurd (cc e))
starts_with_iff (c ∷ text) (d ∷ prefix) = (
  λ h.
      let both = and-split (c == d) (starts_with text prefix) h in
      let (rest, e) = (starts_with_iff text prefix).0 both.1 in
      (rest, cc (e, (nat_eq.beq_iff c d).0 both.0)),
  λ (rest, e).
      joined ((nat_eq.beq_iff c d).1 (cc e)) ((starts_with_iff text prefix).1 (rest, cc e)),
)
  where
    joined :
        (c == d) ≡ true
        → starts_with text prefix ≡ true
        → (c == d && starts_with text prefix) ≡ true
    joined p q = rw (p, q) refl

pub has_part_iff : (text part : Text) → (has_part text part ≡ true) ↔ HasPart text part
unfolding has_part
has_part_iff [] part = (λ h. let (rest, e) = (starts_with_iff [] part).0 h in ([], rest, e), forth)
  where
    forth : HasPart [] part → starts_with [] part ≡ true
    forth ([], rest, e) = (starts_with_iff [] part).1 (rest, e)
    forth (c ∷ before, rest, e) = absurd (cc e)
has_part_iff (c ∷ text) part = (back (has_part_iff text part), forth (has_part_iff text part))
  where
    back :
        (has_part text part ≡ true) ↔ HasPart text part
        → (starts_with (c ∷ text) part || has_part text part) ≡ true
        → HasPart (c ∷ text) part
    back others h = elim (or-split (starts_with (c ∷ text) part) (has_part text part) h) [
      | inl here ↦ let (rest, e) = (starts_with_iff (c ∷ text) part).0 here in ([], rest, e)
      | inr later ↦ let (before, rest, e) = others.0 later in (c ∷ before, rest, ap (◌∷◌ c) e)
    ]

    forth :
        (has_part text part ≡ true) ↔ HasPart text part
        → HasPart (c ∷ text) part
        → (starts_with (c ∷ text) part || has_part text part) ≡ true
    forth others ([], rest, e) = ground (arith, (starts_with_iff (c ∷ text) part).1 (rest, e))
    forth others (d ∷ before, rest, e) = ground (arith, others.1 (before, rest, cc e))

ends_with_iff :
    (text : Text) (d : ℕ)
    → (ends_with text d ≡ true) ↔ ((before : Text) × (text ≡ before ++ d ∷ []))
unfolding ends_with
ends_with_iff [] d = (λ h. absurd (cc h), λ (before, e). absurd (none_left before e))
  where
    none_left : (before : Text) → [] ≡ before ++ d ∷ [] → ⊥
    none_left [] e = cc e
    none_left (c ∷ before) e = cc e
ends_with_iff (c ∷ []) d = (
  λ h. ([], ap (λ x. x ∷ []) ((nat_eq.beq_iff c d).0 h)),
  λ (before, e). (nat_eq.beq_iff c d).1 (only before e),
)
  where
    only : (before : Text) → c ∷ [] ≡ before ++ d ∷ [] → c ≡ d
    only [] e = cc e
    only (b ∷ []) e = absurd (cc e)
    only (b ∷ x ∷ before) e = absurd (cc e)
ends_with_iff (c ∷ e ∷ text) d = (
  λ h. let (before, q) = (ends_with_iff (e ∷ text) d).0 h in (c ∷ before, ap (◌∷◌ c) q),
  λ (before, q). (ends_with_iff (e ∷ text) d).1 (shorter before q),
)
  where
    shorter :
        (before : Text) → c ∷ e ∷ text ≡ before ++ d ∷ [] → (b : Text) × (e ∷ text ≡ b ++ d ∷ [])
    shorter [] q = absurd (cc q)
    shorter (b ∷ before) q = (before, cc q)

IsReference-iff :
    (value : Text)
    → ((starts_with value (codes "${") && ends_with value 125) ≡ true) ↔ IsReference value
unfolding starts_with ends_with
IsReference-iff value = (back, forth)
  where
    closed :
        (rest : Text) → value ≡ codes "${" ++ rest → ends_with value 125 ≡ true → IsReference value
    closed [] e h = absurd (ground (arith, subst (λ v. ends_with v 125 ≡ true) e h))
    closed (c ∷ rest) e h =
        let (inner, q) =
          (ends_with_iff (c ∷ rest) 125).0 (subst (λ v. ends_with v 125 ≡ true) e h) in
        (inner, e ∙ ap (λ t. codes "${" ++ t) q)

    back : (starts_with value (codes "${") && ends_with value 125) ≡ true → IsReference value
    back h =
        let both = and-split (starts_with value (codes "${")) (ends_with value 125) h in
        let (rest, e) = (starts_with_iff value (codes "${")).0 both.0 in closed rest e both.1

    forth : IsReference value → (starts_with value (codes "${") && ends_with value 125) ≡ true
    forth (inner, e) = ground (
      arith,
      (starts_with_iff value (codes "${")).1 (inner ++ 125 ∷ [], e),
      (ends_with_iff value 125).1 (codes "${" ++ inner, e),
    )

-- A variable whose name speaks of a secret is empty, or refers to another variable.
pub literal_iff : (key value : Text) → (is_literal_secret key value ≡ false) ↔ IsTolerable key value
unfolding is_literal_secret
literal_iff key value = elim (Bool-cases (any (has_part (lower key)) secret_key_markers)) [
  | inr plain ↦ (
    λ _ sensitive. absurd (
        apart plain (
          Any-any (has_part (lower key)) secret_key_markers
            (Any-map secret_key_markers (λ m. (has_part_iff (lower key) m).1) sensitive))),
    λ _. rw plain refl,
  )
  | inl named ↦ (
    λ h _. by_value value (rest_of named h),
    λ tolerable. rw named (
        by_choice value (
          tolerable (
            Any-map secret_key_markers (λ m. (has_part_iff (lower key) m).0)
              (any-Any (has_part (lower key)) secret_key_markers named)))),
  )
]
  where
    apart : {b : Bool} → b ≡ false → b ≡ true → ⊥
    apart e f = absurd (cc (e, f))

    shown : Text → Bool
    shown v = is_nonempty v && not (starts_with v (codes "${") && ends_with v 125)

    rest_of :
        any (has_part (lower key)) secret_key_markers ≡ true
        → (any (has_part (lower key)) secret_key_markers && shown value) ≡ false
        → shown value ≡ false
    rest_of named h = ground (arith, named, h)

    by_value : (v : Text) → shown v ≡ false → (v ≡ []) ⊎ IsReference v
    by_value [] h = inl refl
    by_value (c ∷ v) h = inr ((IsReference-iff (c ∷ v)).0 (ground (arith, h)))

    by_choice : (v : Text) → (v ≡ []) ⊎ IsReference v → shown v ≡ false
    by_choice v (inl e) = rw e refl
    by_choice v (inr r) = ground (arith, (IsReference-iff v).1 r)

contains-colon : (name tag : Text) → contains colon (name ++ colon ∷ tag) ≡ true
contains-colon [] tag = refl
contains-colon (c ∷ name) tag = ground (arith, contains-colon name tag)

NoColon-append : (name tag : Text) → NoColon (name ++ colon ∷ tag) → ⊥
NoColon-append [] tag h = absurd (h.0 refl)
NoColon-append (c ∷ name) tag h = NoColon-append name tag h.1

last_tag :
    (name tag : Text)
    → NoColon (after_first colon (name ++ colon ∷ tag))
    → after_first colon (name ++ colon ∷ tag) ≡ tag
unfolding after_first
last_tag [] tag h = refl
last_tag (c ∷ name) tag h = by_test (c == colon) (last_tag name tag) h
  where
    by_test :
        (b : Bool)
        → (NoColon (after_first colon (name ++ colon ∷ tag))
            → after_first colon (name ++ colon ∷ tag) ≡ tag)
        → NoColon (if b then name ++ colon ∷ tag else after_first colon (name ++ colon ∷ tag))
        → (if b then name ++ colon ∷ tag else after_first colon (name ++ colon ∷ tag)) ≡ tag
    by_test true others k = absurd (NoColon-append name tag k)
    by_test false others k = others k

first_colon :
    (image : Text)
    → contains colon image ≡ true
    → (name : Text) × (image ≡ name ++ colon ∷ after_first colon image)
unfolding after_first
first_colon [] h = absurd (cc h)
first_colon (c ∷ image) h = by_test (Bool-cases (c == colon)) (first_colon image)
  where
    by_test :
        ((c == colon) ≡ true) ⊎ ((c == colon) ≡ false)
        → (contains colon image ≡ true
            → (name : Text) × (image ≡ name ++ colon ∷ after_first colon image))
        → (name : Text) × (c ∷ image ≡ name ++ colon ∷ after_first colon (c ∷ image))
    by_test (inl e) others = ([], ground (arith, e))
    by_test (inr e) others =
        let (name, q) = others (ground (arith, e, h)) in
        (c ∷ name, ap (◌∷◌ c) q ∙ ap (λ t. c ∷ (name ++ colon ∷ t)) (ground (arith, e)))

-- With one colon at most, what follows it is the tag.
pub tag_iff :
    (P : Text → Type 0) (image : Text)
    → NoColon (after_first colon image)
    → ((contains colon image ≡ true) × P (after_first colon image)) ↔ NamesTag P image
tag_iff P image single = (
  λ (has, p).
      let (name, e) = first_colon image has in (name, after_first colon image, e, single, p),
  λ (name, tag, e, no_colon, p). (
    ap (contains colon) e ∙ contains-colon name tag,
    subst P
        (sym (
          ap (after_first colon) e
          ∙ last_tag name tag (subst (λ i. NoColon (after_first colon i)) e single)))
        p,
  ),
)
