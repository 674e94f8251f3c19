-- ===== src/Rbac/Covering.antt =====
-- python/apexquant-auth/src/apexquant_auth/rbac.py
-- What it means that a pattern covers a permission.
use mathlib.Core.Path.{subst₂}
use lord_hermes.Common.{
  ℕ, ◌≡◌, ◌≢◌, refl, ap, ◌∙◌, sym, ◌⊎◌, inl, inr, ◌↔◌, Bool, true, false, ◌&&◌, not, List, [], ◌∷◌,
  ◌++◌, ◌==◌, nat_eq, is_nonempty, if◌then◌else◌, arith, and-split, if-cases, subst,
}
pub use lord_hermes.Common.Text.{NoColon}
use lord_hermes.Rbac.Permissions.{
  Text, text_eq, text_beq_iff, wildcard, colon, split, cons_head, covers_segments, covers,
}

-- The pattern runs out; or its last segment is the wildcard; or its first segment is the wildcard or
-- the target's first, and the rest covers the rest. So a wildcard at the end also covers nothing at
-- all, and a pattern covers what is longer than it.
pub data Covers : List Text → List Text → Type 0 where
  ends : (t : List Text) → Covers [] t
  wild_end : (t : List Text) → Covers (wildcard ∷ []) t
  wild : {p t : List Text} (s : Text) → Covers p t → Covers (wildcard ∷ p) (s ∷ t)
  same : {p t : List Text} (s : Text) → Covers p t → Covers (s ∷ p) (s ∷ t)

abbrev step : Bool → Bool → Bool → Bool → Bool
step w l e rest = if w && l then true else if w then rest else if not e then false else rest

step-true : (w l e rest : Bool) → (w ≡ true) ⊎ (e ≡ true) → rest ≡ true → step w l e rest ≡ true
step-true w l e rest h r = ground arith

step_cases :
    (w l e rest : Bool)
    → step w l e rest ≡ true
    → ((w ≡ true) × (l ≡ true)) ⊎ ((rest ≡ true) × ((w ≡ true) ⊎ (e ≡ true)))
step_cases w l e rest h = ground arith

is_wildcard : (seg : Text) → (seg == wildcard) ≡ true → seg ≡ wildcard
is_wildcard seg h = (text_beq_iff seg wildcard).0 h

is_last : {A : Type 0} (p : List A) → not (is_nonempty p) ≡ true → p ≡ []
is_last [] h = refl
is_last (x ∷ p) h = cc

covers_segments_complete : {p t : List Text} → Covers p t → covers_segments p t ≡ true
unfolding covers_segments
covers_segments_complete (ends t) = refl
covers_segments_complete (wild_end []) = rw ((text_beq_iff wildcard wildcard).1 refl)
covers_segments_complete (wild_end (s ∷ t)) = rw ((text_beq_iff wildcard wildcard).1 refl)
covers_segments_complete (wild {p = p} {t = t} s c) =
    step-true (wildcard == wildcard) (not (is_nonempty p)) (wildcard == s) (covers_segments p t)
      (inl ((text_beq_iff wildcard wildcard).1 refl)) (covers_segments_complete c)
covers_segments_complete (same {p = p} {t = t} s c) =
    step-true (s == wildcard) (not (is_nonempty p)) (s == s) (covers_segments p t)
      (inr ((text_beq_iff s s).1 refl)) (covers_segments_complete c)

wild_last :
    (seg : Text) (p t : List Text)
    → (seg == wildcard) ≡ true
    → not (is_nonempty p) ≡ true
    → Covers (seg ∷ p) t
wild_last seg p t w l =
    subst₂ (λ x y. Covers (x ∷ y) t) (sym (is_wildcard seg w)) (sym (is_last p l)) (wild_end t)

covers_segments_sound : (p t : List Text) → covers_segments p t ≡ true → Covers p t
unfolding covers_segments
covers_segments_sound [] t h = ends t
covers_segments_sound (seg ∷ p) [] h =
    let both = and-split (seg == wildcard) (not (is_nonempty p)) h in
    wild_last seg p [] both.0 both.1
covers_segments_sound (seg ∷ p) (s ∷ t) h =
    elim (step_cases (seg == wildcard) (not (is_nonempty p)) (seg == s) (covers_segments p t) h) [
      | inl both ↦ wild_last seg p (s ∷ t) both.0 both.1
      | inr (rest, inl w) ↦
          subst (λ x. Covers (x ∷ p) (s ∷ t)) (sym (is_wildcard seg w))
            (wild s (covers_segments_sound p t rest))
      | inr (rest, inr e) ↦
          subst (λ x. Covers (x ∷ p) (s ∷ t)) (sym ((text_beq_iff seg s).0 e))
            (same s (covers_segments_sound p t rest))
    ]

-- `covers` decides the relation: the pattern is the global wildcard, or covers segment by segment.
pub covers_iff :
    (pattern target : Text)
    → (covers pattern target ≡ true)
      ↔ ((pattern ≡ wildcard) ⊎ Covers (split pattern) (split target))
unfolding covers
covers_iff pattern target = (forth (pattern == wildcard) refl, back)
  where
    forth :
        (b : Bool)
        → (pattern == wildcard) ≡ b
        → (if b then true else covers_segments (split pattern) (split target)) ≡ true
        → (pattern ≡ wildcard) ⊎ Covers (split pattern) (split target)
    forth true e h = inl (is_wildcard pattern e)
    forth false e h = inr (covers_segments_sound (split pattern) (split target) h)

    back :
        (pattern ≡ wildcard) ⊎ Covers (split pattern) (split target) → covers pattern target ≡ true
    back (inl e) = rw ((text_beq_iff pattern wildcard).1 e)
    back (inr c) = if-cases (λ b. b ≡ true) (pattern == wildcard) refl (covers_segments_complete c)

not_colon : (c : ℕ) → c ≢ colon → (c == colon) ≡ false
not_colon c h = ground arith

split-domain :
    (domain rest : Text) → NoColon domain → split (domain ++ colon ∷ rest) ≡ domain ∷ split rest
unfolding split
split-domain [] rest h = refl
split-domain (c ∷ domain) rest h =
    rw (not_colon c h.0) (ap (cons_head c) (split-domain domain rest h.1))

split_alone : (domain : Text) → NoColon domain → split domain ≡ domain ∷ []
unfolding split
split_alone [] h = refl
split_alone (c ∷ domain) h = rw (not_colon c h.0) (ap (cons_head c) (split_alone domain h.1))

wildcard-NoColon : NoColon wildcard
wildcard-NoColon = (λ e. absurd (omega arith), tt)

Covers-domain :
    {domain : Text} {p t : List Text}
    → Covers (domain ∷ p) t
    → p ≢ []
    → domain ≢ wildcard
    → (rest : List Text) × (t ≡ domain ∷ rest)
Covers-domain (wild_end t) n w = absurd (n refl)
Covers-domain (wild s c) n w = absurd (w refl)
Covers-domain (same {t = t} s c) n w = (t, refl)

-- The pattern `domain:*` covers exactly the domain and the permissions of the domain.
pub covers_domain_iff :
    (domain target : Text)
    → NoColon domain
    → domain ≢ wildcard
    → (covers (domain ++ colon ∷ wildcard) target ≡ true)
      ↔ ((rest : List Text) × (split target ≡ domain ∷ rest))
unfolding split
covers_domain_iff domain target h w = (forth, back)
  where
    parts : split (domain ++ colon ∷ wildcard) ≡ domain ∷ wildcard ∷ []
    parts = split-domain domain wildcard h

    two_parts : domain ∷ wildcard ∷ [] ≡ split wildcard → ⊥
    two_parts e = cc (e, split_alone wildcard wildcard-NoColon)

    forth :
        covers (domain ++ colon ∷ wildcard) target ≡ true
        → (rest : List Text) × (split target ≡ domain ∷ rest)
    forth k = elim ((covers_iff (domain ++ colon ∷ wildcard) target).0 k) [
      | inl e ↦ absurd (two_parts (sym parts ∙ ap split e))
      | inr c ↦ Covers-domain (subst (λ p. Covers p (split target)) parts c) (λ e. cc) w
    ]

    back :
        (rest : List Text) × (split target ≡ domain ∷ rest)
        → covers (domain ++ colon ∷ wildcard) target ≡ true
    back (rest, e) =
        (covers_iff (domain ++ colon ∷ wildcard) target).1
          (inr (subst₂ Covers (sym parts) (sym e) (same domain (wild_end rest))))
