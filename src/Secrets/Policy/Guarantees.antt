-- ===== src/Secrets/Policy/Guarantees.antt =====
-- What python/apexquant-secrets/policy.py promises, whatever extra rules a caller passes.
use mathlib.Core.List.{append-nil}
use lord_hermes.Common.{
  sym, ◌∙◌, or-split, Eq, subst, All-prefix, Any-All, Any-append-cases, all-All, is_none, not, ◌&&◌,
  ◌||◌, Bool, true, false, ◌≡◌, refl, ◌⊎◌, inl, inr, ◌≢◌, List, [], ◌∷◌, ◌++◌, Option, none, some,
  Bool-cases, All, Any, contains,
}
use lord_hermes.Secrets.Models.{
  SecretClassification, infrastructure, database, broker, execution, api, SecretPlane, control, ai,
  data_research, SecretAction, read, write, rotate, admin, PolicyEffect, allow, deny, PolicyRule,
  effect_eq, plane_eq, action_eq, classification_eq, SecretClassification-discrete,
  SecretPlane-discrete, SecretAction-discrete, PolicyEffect-discrete,
}
use lord_hermes.Secrets.Policy.Rules.{
  admits, default_policy_rules, matches_rule, is_deny, decide_access, evaluate_access,
  research_forbidden_classifications, ai_forbidden_classifications,
}
use lord_hermes.Secrets.Policy.Applies.{Admits, Applies}
use lord_hermes.Secrets.Policy.Decision.{Outweighs, allowed_iff}

abbrev pub extra_allow : SecretAction → PolicyRule
extra_allow a = record {
  subject_plane = some data_research;
  classification = some api;
  action = some a;
  effect = allow;
}

abbrev exact :
    (p : SecretPlane) (c : SecretClassification) (a : SecretAction) (e : PolicyEffect)
    → Applies p c a
        (record { subject_plane = some p; classification = some c; action = none; effect = e })
exact p c a e = record { plane = inr refl; classification = inr refl; action = inl refl }

deny≢allow : deny ≡ allow → ⊥
deny≢allow e = cc

isolated :
    (p : SecretPlane) (c : SecretClassification) (a : SecretAction) (extra : List PolicyRule)
    → (p ≡ ai) ⊎ (p ≡ data_research)
    → contains c ai_forbidden_classifications ≡ true
    → ¬ (All (λ r. Applies p c a r → r.effect ≡ allow) (default_policy_rules ++ extra))
unfolding default_policy_rules SecretClassification-discrete
isolated ai broker a extra h k all = deny≢allow (all.0 (exact ai broker a deny))
isolated ai execution a extra h k all = deny≢allow (all.1.0 (exact ai execution a deny))
isolated ai database a extra h k all = deny≢allow (all.1.1.0 (exact ai database a deny))
isolated ai infrastructure a extra h k all =
    deny≢allow (all.1.1.1.0 (exact ai infrastructure a deny))
isolated data_research broker a extra h k all =
    deny≢allow (all.1.1.1.1.0 (exact data_research broker a deny))
isolated data_research execution a extra h k all =
    deny≢allow (all.1.1.1.1.1.0 (exact data_research execution a deny))
isolated data_research database a extra h k all =
    deny≢allow (all.1.1.1.1.1.1.0 (exact data_research database a deny))
isolated data_research infrastructure a extra h k all =
    deny≢allow (all.1.1.1.1.1.1.1.0 (exact data_research infrastructure a deny))
isolated ai _ a extra h k all = cc k
isolated data_research _ a extra h k all = cc k
isolated _ _ a extra (inl e) k all = cc e
isolated _ _ a extra (inr e) k all = cc e

-- The AI and research planes have no access, by any action, to a broker, execution, database or
-- infrastructure secret, whatever extra rules are passed.
pub ai_and_research_isolated :
    (p : SecretPlane) (c : SecretClassification) (a : SecretAction) (extra : List PolicyRule)
    → (p ≡ ai) ⊎ (p ≡ data_research)
    → contains c ai_forbidden_classifications ≡ true
    → (evaluate_access p c a extra).allowed ≡ false
ai_and_research_isolated p c a extra h k = elim (Bool-cases (evaluate_access p c a extra).allowed) [
  | inl e ↦ absurd (isolated p c a extra h k ((allowed_iff p c a extra).0 e).0)
  | inr e ↦ e
]

-- The set that the module names for the research plane also holds API secrets, and no default rule
-- denies those: one extra allow rule opens them, for every action that it names.
pub research_api_is_open :
    (a : SecretAction)
    → (contains api research_forbidden_classifications ≡ true)
      × ((evaluate_access data_research api a (extra_allow a ∷ [])).allowed ≡ true)
unfolding evaluate_access decide_access default_policy_rules matches_rule
    SecretClassification-discrete SecretPlane-discrete SecretAction-discrete PolicyEffect-discrete
research_api_is_open read = (refl, refl)
research_api_is_open write = (refl, refl)
research_api_is_open rotate = (refl, refl)
research_api_is_open admin = (refl, refl)

-- An extra rule that denies never gives access: what is allowed with deny rules added is allowed
-- without them.
pub deny_rules_only_restrict :
    (p : SecretPlane) (c : SecretClassification) (a : SecretAction) (extra : List PolicyRule)
    → All (λ r. r.effect ≡ deny) extra
    → (evaluate_access p c a extra).allowed ≡ true
    → (evaluate_access p c a []).allowed ≡ true
deny_rules_only_restrict p c a extra h e = (allowed_iff p c a []).1 (
    subst (Outweighs p c a) (sym (append-nil default_policy_rules))
      (All-prefix _ default_policy_rules extra w.0, allowing))
  where
    w : Outweighs p c a (default_policy_rules ++ extra)
    w = (allowed_iff p c a extra).0 e

    not_extra : ¬ (Any (λ r. Applies p c a r × (r.effect ≡ allow)) extra)
    not_extra k =
        let (r, fits, denies) = Any-All _ (λ r. r.effect ≡ deny) extra h k in
        deny≢allow (sym denies ∙ fits.1)

    allowing : Any (λ r. Applies p c a r × (r.effect ≡ allow)) default_policy_rules
    allowing = elim (Any-append-cases _ default_policy_rules extra w.1) [
      | inl k ↦ k
      | inr k ↦ absurd (not_extra k)
    ]

-- A field that names this very value.
abbrev pins : {A : Type 0} ⦃e : Eq A⦄ → Option A → A → Bool
pins o a = not (is_none o) && admits o a

pins-Admits :
    {A : Type 0} ⦃e : Eq A⦄ (o : Option A) (a b : A) → pins o b ≡ true → Admits o a → a ≡ b
pins-Admits none a b h k = absurd (cc h)
pins-Admits (some x) a b h (inl k) = absurd (cc k)
pins-Admits ⦃e⦄ (some x) a b h (inr k) = cc (k, (e.beq_iff x b).0 h)

-- The shape of the default rules: for CONTROL, or a denial, or for reading.
abbrev is_narrow : PolicyRule → Bool
is_narrow r = pins r.subject_plane control || (is_deny r || pins r.action read)

all_narrow : All (λ r. is_narrow r ≡ true) (default_policy_rules ++ [])
unfolding default_policy_rules SecretPlane-discrete SecretAction-discrete PolicyEffect-discrete
all_narrow = all-All is_narrow (default_policy_rules ++ []) refl

narrow :
    (p : SecretPlane) (c : SecretClassification) (a : SecretAction) (r : PolicyRule)
    → p ≢ control
    → a ≢ read
    → Applies p c a r
    → r.effect ≡ allow
    → is_narrow r ≡ true
    → ⊥
narrow p c a r h k ap e n = elim (or-split _ _ n) [
  | inl q ↦ h (pins-Admits r.subject_plane p control q ap.plane)
  | inr q ↦ elim (or-split _ _ q) [
    | inl d ↦ deny≢allow (sym ((effect_eq.beq_iff r.effect deny).0 d) ∙ e)
    | inr d ↦ k (pins-Admits r.action a read d ap.action)
  ]
]

-- By the default rules alone, every plane but CONTROL can at most read.
pub others_only_read :
    (p : SecretPlane) (c : SecretClassification) (a : SecretAction)
    → p ≢ control
    → a ≢ read
    → (evaluate_access p c a []).allowed ≡ false
others_only_read p c a h k = elim (Bool-cases (evaluate_access p c a []).allowed) [
  | inl e ↦
      let (r, fits, shape) =
        Any-All _ _ (default_policy_rules ++ []) all_narrow ((allowed_iff p c a []).0 e).1 in
      absurd (narrow p c a r h k fits.0 fits.1 shape)
  | inr e ↦ e
]
