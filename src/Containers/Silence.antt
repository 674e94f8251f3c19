-- ===== src/Containers/Silence.antt =====
-- python/apexquant-container-policy/src/apexquant_container_policy/policy.py
-- When the branches of a check report nothing.
use lord_hermes.Common.{
  ◌≡◌, ◌≢◌, refl, ◌↔◌, ◌⊎◌, inl, inr, Bool, true, false, not, List, [], ◌∷◌, ◌++◌, none, some, ◌==◌,
  is_nonempty, if◌then◌else◌, Bool-cases, append_nil_iff, subst,
}
use lord_hermes.Common.Text.{Text, text_eq, text_beq_iff}
use lord_hermes.Containers.Compose.{Violation}
use lord_hermes.Containers.Policy.{when}

pub iff_trans : {P Q R : Type 0} → P ↔ Q → Q ↔ R → P ↔ R
iff_trans (f, g) (h, k) = (λ p. h (f p), λ r. g (k r))

pub pair_iff : {P Q R S : Type 0} → P ↔ R → Q ↔ S → (P × Q) ↔ (R × S)
pair_iff (f, g) (h, k) = (λ p. (f p.0, h p.1), λ r. (g r.0, k r.1))

pub sum_iff : {P Q R S : Type 0} → P ↔ R → Q ↔ S → (P ⊎ Q) ↔ (R ⊎ S)
sum_iff (f, g) (h, k) = (
  λ p. elim p [ inl x ↦ inl (f x) | inr y ↦ inr (h y) ],
  λ r. elim r [ inl x ↦ inl (g x) | inr y ↦ inr (k y) ],
)

pub same_iff : {P : Type 0} → P ↔ P
same_iff = (λ p. p, λ p. p)

-- What decides when the first case does not hold.
pub unless_iff : {P Q R S : Type 0} → P ⊎ S → (S → Q ↔ R) → (P ⊎ Q) ↔ (P ⊎ R)
unless_iff (inl p) f = (λ _. inl p, λ _. inl p)
unless_iff (inr s) f = sum_iff same_iff (f s)

-- What holds of the value that is there.
some_path : {A : Type 0} (v w : A) → some v ≡ some w → w ≡ v
some_path v w e = cc e

pub some_iff : {A : Type 0} (P : A → Type 0) (x : A) → P x ↔ ((v : A) × (some x ≡ some v) × P v)
some_iff P x = (λ p. (x, refl, p), λ (v, e, p). subst P (some_path x v e) p)

pub none_iff :
    {A : Type 0} (P : A → Type 0) (v : Violation)
    → (v ∷ [] ≡ []) ↔ ((x : A) × (none ≡ some x) × P x)
none_iff P v = (λ h. absurd (cc h), λ (x, e, p). absurd (cc e))

pub when_nil : (b : Bool) (v : Violation) → (when b (v ∷ []) ≡ []) ↔ (b ≡ false)
unfolding when
when_nil true v = (λ h. absurd (cc h), λ h. absurd (cc h))
when_nil false v = (λ _. refl, λ _. refl)

-- Two tests in a row.
pub two_nil :
    (b c : Bool) (v w : Violation)
    → (when b (v ∷ []) ++ when c (w ∷ []) ≡ []) ↔ ((b ≡ false) × (c ≡ false))
two_nil b c v w = (
  λ h.
      let both = (append_nil_iff (when b (v ∷ [])) (when c (w ∷ []))).0 h in
      ((when_nil b v).0 both.0, (when_nil c w).0 both.1),
  λ h.
      (append_nil_iff (when b (v ∷ [])) (when c (w ∷ []))).1
        ((when_nil b v).1 h.0, (when_nil c w).1 h.1),
)

-- `if b then report else go on`
pub else_nil :
    (b : Bool) (v : Violation) (next : List Violation)
    → ((if b then v ∷ [] else next) ≡ []) ↔ ((b ≡ false) × (next ≡ []))
else_nil true v next = (λ h. absurd (cc h), λ h. absurd (cc h.0))
else_nil false v next = (λ h. (refl, h), λ h. h.1)

-- `if b then accept else go on`
pub skip_nil :
    (b : Bool) (next : List Violation)
    → ((if b then [] else next) ≡ []) ↔ ((b ≡ true) ⊎ (next ≡ []))
skip_nil true next = (λ h. inl refl, λ h. refl)
skip_nil false next = (λ h. inr h, λ h. elim h [ inl e ↦ absurd (cc e) | inr e ↦ e ])

pub not-false : (b : Bool) → (not b ≡ false) ↔ (b ≡ true)
not-false true = (λ _. refl, λ _. refl)
not-false false = (λ h. absurd (cc h), λ h. absurd (cc h))

pub nonempty_iff : {A : Type 0} (xs : List A) → (not (is_nonempty xs) ≡ false) ↔ (xs ≢ [])
nonempty_iff [] = (λ h. absurd (cc h), λ h. absurd (h refl))
nonempty_iff (x ∷ xs) = (λ h e. cc e, λ h. refl)

pub differs_iff : (a b : Text) → ((a == b) ≡ false) ↔ (a ≢ b)
differs_iff a b = (
  λ h e. cc (h, (text_beq_iff a b).1 e),
  λ h. elim (Bool-cases (a == b)) [ inl e ↦ absurd (h ((text_beq_iff a b).0 e)) | inr e ↦ e ],
)

pub report_nil : (b : Bool) (v : Violation) → ((if b then v ∷ [] else []) ≡ []) ↔ (b ≡ false)
report_nil true v = (λ h. absurd (cc h), λ h. absurd (cc h))
report_nil false v = (λ _. refl, λ _. refl)

pub accept_nil : (b : Bool) (v : Violation) → ((if b then [] else v ∷ []) ≡ []) ↔ (b ≡ true)
accept_nil true v = (λ _. refl, λ _. refl)
accept_nil false v = (λ h. absurd (cc h), λ h. absurd (cc h))

pub nonempty_true_iff : {A : Type 0} (xs : List A) → (is_nonempty xs ≡ true) ↔ (xs ≢ [])
nonempty_true_iff [] = (λ h. absurd (cc h), λ h. absurd (h refl))
nonempty_true_iff (x ∷ xs) = (λ h e. cc e, λ h. refl)
