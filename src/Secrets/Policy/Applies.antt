-- ===== src/Secrets/Policy/Applies.antt =====
-- python/apexquant-secrets/policy.py
-- What it means that a rule applies to a request, apart from the code's tests.
use lord_hermes.Common.{
  Bool, true, false, ◌≡◌, refl, ◌⊎◌, inl, inr, ◌↔◌, List, [], ◌∷◌, Option, none, some, Eq, keep,
  any, arith, Bool-cases, or-split, not, if◌then◌else◌, Any, All,
}
use lord_hermes.Secrets.Models.{
  SecretClassification, SecretPlane, SecretAction, PolicyRule, plane_eq, classification_eq,
  action_eq,
}
use lord_hermes.Secrets.Policy.Rules.{admits, matches_rule}

-- A field of a rule is left open, or names the value.
abbrev pub Admits : {A : Type 0} → Option A → A → Type 0
Admits o a = (o ≡ none) ⊎ (o ≡ some a)

pub record Applies (p : SecretPlane) (c : SecretClassification) (a : SecretAction) (r : PolicyRule)
    : Type 0 where
  pub plane : Admits r.subject_plane p
  pub classification : Admits r.classification c
  pub action : Admits r.action a

admits_iff : {A : Type 0} ⦃e : Eq A⦄ (o : Option A) (a : A) → (admits o a ≡ true) ↔ Admits o a
admits_iff none a = (λ _. inl refl, λ _. refl)
admits_iff ⦃e⦄ (some b) a = (λ h. inr (cc ((e.beq_iff b a).0 h)), back)
  where
    back : Admits (some b) a → admits (some b) a ≡ true
    back (inl q) = cc
    back (inr q) = (e.beq_iff b a).1 (cc q)

three_tests :
    (x y z : Bool)
    → ((if not x then false else if not y then false else if not z then false else true) ≡ true)
      ↔ ((x ≡ true) × (y ≡ true) × (z ≡ true))
three_tests x y z = ground arith

pub matches_rule_iff :
    (p : SecretPlane) (c : SecretClassification) (a : SecretAction) (r : PolicyRule)
    → (matches_rule p c a r ≡ true) ↔ Applies p c a r
unfolding matches_rule
matches_rule_iff p c a r = (forth, back)
  where
    forth : matches_rule p c a r ≡ true → Applies p c a r
    forth h =
        let t = (three_tests _ _ _).0 h in
        record {
          plane = (admits_iff r.subject_plane p).0 t.0;
          classification = (admits_iff r.classification c).0 t.1;
          action = (admits_iff r.action a).0 t.2;
        }

    back : Applies p c a r → matches_rule p c a r ≡ true
    back h = (three_tests _ _ _).1 (
      (admits_iff r.subject_plane p).1 h.plane,
      (admits_iff r.classification c).1 h.classification,
      (admits_iff r.action a).1 h.action,
    )

module _ {A : Type 0} (test chosen : A → Bool) where
  pub any-keep-true :
      (P : A → Type 0)
      → ((x : A) → chosen x ≡ true → test x ≡ true → P x)
      → (xs : List A) → any test (keep chosen xs) ≡ true
      → Any P xs
  any-keep-true P f [] h = absurd (cc h)
  any-keep-true P f (x ∷ xs) h = elim (Bool-cases (chosen x)) [
    | inl e ↦ elim (or-split _ _ (rw e at h)) [
      | inl t ↦ inl (f x e t)
      | inr t ↦ inr (any-keep-true P f xs t)
    ]
    | inr e ↦ inr (any-keep-true P f xs (rw e at h))
  ]

  pub any-keep-of_Any :
      (P : A → Type 0)
      → ((x : A) → P x → (chosen x ≡ true) × (test x ≡ true))
      → (xs : List A) → Any P xs
      → any test (keep chosen xs) ≡ true
  any-keep-of_Any P f [] h = absurd h
  any-keep-of_Any P f (x ∷ xs) (inl h) = ground (arith, (f x h).0, (f x h).1)
  any-keep-of_Any P f (x ∷ xs) (inr h) = ground (arith, any-keep-of_Any P f xs h)

  pub any-keep-false :
      (P : A → Type 0)
      → ((x : A) → (chosen x ≡ true → test x ≡ false) → P x)
      → (xs : List A) → any test (keep chosen xs) ≡ false
      → All P xs
  any-keep-false P f [] h = tt
  any-keep-false P f (x ∷ xs) h = (f x (λ e. ground arith), any-keep-false P f xs (ground arith))

  pub any-keep-of_All :
      (P : A → Type 0)
      → ((x : A) → P x → chosen x ≡ true → test x ≡ false)
      → (xs : List A) → All P xs
      → any test (keep chosen xs) ≡ false
  any-keep-of_All P f [] h = refl
  any-keep-of_All P f (x ∷ xs) h = elim (Bool-cases (chosen x)) [
    | inl e ↦ rw (e, f x h.0 e) (any-keep-of_All P f xs h.1)
    | inr e ↦ rw e (any-keep-of_All P f xs h.1)
  ]
