-- ===== src/Secrets/Policy/Decision.antt =====
-- When the policy allows access: python/apexquant-secrets/policy.py.
use lord_hermes.Common.{
  Bool, true, false, ◌≡◌, refl, ◌⊎◌, inl, inr, ◌↔◌, List, ◌++◌, ◌==◌, keep, any, All, Any,
  if◌then◌else◌,
}
use lord_hermes.Secrets.Models.{
  SecretClassification, SecretPlane, SecretAction, PolicyEffect, allow, deny, PolicyRule,
  PolicyEvaluation, effect_eq, plane_eq, action_eq, classification_eq, PolicyEffect-discrete,
}
use lord_hermes.Secrets.Policy.Rules.{
  default_policy_rules, matches_rule, is_deny, is_allow, decide_access, evaluate_access,
}
use lord_hermes.Secrets.Policy.Applies.{
  Applies, matches_rule_iff, any-keep-true, any-keep-of_Any, any-keep-false, any-keep-of_All,
}

effect_cases : (e : PolicyEffect) → (e ≡ allow) ⊎ (e ≡ deny)
effect_cases allow = inl refl
effect_cases deny = inr refl

allow_of_not_deny : (e : PolicyEffect) → (e == deny) ≡ false → e ≡ allow
unfolding PolicyEffect-discrete
allow_of_not_deny allow h = refl
allow_of_not_deny deny h = cc

not_deny_of_allow : (e : PolicyEffect) → e ≡ allow → (e == deny) ≡ false
unfolding PolicyEffect-discrete
not_deny_of_allow allow h = refl
not_deny_of_allow deny h = cc

abbrev pub Outweighs : SecretPlane → SecretClassification → SecretAction → List PolicyRule → Type 0
Outweighs p c a rules =
    All (λ r. Applies p c a r → r.effect ≡ allow) rules
    × Any (λ r. Applies p c a r × (r.effect ≡ allow)) rules

tests_iff :
    (p : SecretPlane) (c : SecretClassification) (a : SecretAction) (rules : List PolicyRule)
    → ((any is_deny (keep (matches_rule p c a) rules) ≡ false)
        × (any is_allow (keep (matches_rule p c a) rules) ≡ true))
      ↔ Outweighs p c a rules
tests_iff p c a rules = (forth, back)
  where
    forth :
        (any is_deny (keep (matches_rule p c a) rules) ≡ false)
          × (any is_allow (keep (matches_rule p c a) rules) ≡ true)
        → Outweighs p c a rules
    forth h = (
      any-keep-false is_deny (matches_rule p c a) _
          (λ r f ap. allow_of_not_deny r.effect (f ((matches_rule_iff p c a r).1 ap))) rules h.0,
      any-keep-true is_allow (matches_rule p c a) _
          (λ r m t. ((matches_rule_iff p c a r).0 m, (effect_eq.beq_iff r.effect allow).0 t)) rules
          h.1,
    )

    back :
        Outweighs p c a rules
        → (any is_deny (keep (matches_rule p c a) rules) ≡ false)
          × (any is_allow (keep (matches_rule p c a) rules) ≡ true)
    back h = (
      any-keep-of_All is_deny (matches_rule p c a) _
          (λ r f m. not_deny_of_allow r.effect (f ((matches_rule_iff p c a r).0 m))) rules h.0,
      any-keep-of_Any is_allow (matches_rule p c a) _
          (λ r w. ((matches_rule_iff p c a r).1 w.0, (effect_eq.beq_iff r.effect allow).1 w.1))
          rules h.1,
    )

three_ways :
    (d e : Bool) (x y z : PolicyEvaluation)
    → x.allowed ≡ false
    → y.allowed ≡ true
    → z.allowed ≡ false
    → ((if d then x else if e then y else z).allowed ≡ true) ↔ ((d ≡ false) × (e ≡ true))
three_ways true e x y z hx hy hz = (λ k. absurd (cc k), λ k. cc)
three_ways false true x y z hx hy hz = (λ k. (refl, refl), λ k. hy)
three_ways false false x y z hx hy hz = (λ k. absurd (cc k), λ k. cc)

-- The outcome by the two tests on the matched rules.
decide_access_allowed :
    (p : SecretPlane) (c : SecretClassification) (a : SecretAction) (matched : List PolicyRule)
    → ((decide_access p c a matched).allowed ≡ true)
      ↔ ((any is_deny matched ≡ false) × (any is_allow matched ≡ true))
unfolding decide_access
decide_access_allowed p c a matched =
    three_ways (any is_deny matched) (any is_allow matched) _ _ _ refl refl refl

-- Access is allowed exactly when every rule, default or extra, that applies to the request allows
-- it, and at least one rule applies and allows it: one applying deny outweighs every allow, and with
-- no applying rule access is denied.
pub allowed_iff :
    (p : SecretPlane) (c : SecretClassification) (a : SecretAction) (extra : List PolicyRule)
    → let rules = default_policy_rules ++ extra in
      ((evaluate_access p c a extra).allowed ≡ true) ↔ (
        All (λ r. Applies p c a r → r.effect ≡ allow) rules
        × Any (λ r. Applies p c a r × (r.effect ≡ allow)) rules)
unfolding evaluate_access
allowed_iff p c a extra = (λ h. outweigh.0 (tested.0 h), λ h. tested.1 (outweigh.1 h))
  where
    outweigh :
        ((any is_deny (keep (matches_rule p c a) (default_policy_rules ++ extra)) ≡ false)
          × (any is_allow (keep (matches_rule p c a) (default_policy_rules ++ extra)) ≡ true))
        ↔ Outweighs p c a (default_policy_rules ++ extra)
    outweigh = tests_iff p c a (default_policy_rules ++ extra)

    tested : ((evaluate_access p c a extra).allowed ≡ true) ↔ (
        (any is_deny (keep (matches_rule p c a) (default_policy_rules ++ extra)) ≡ false)
        × (any is_allow (keep (matches_rule p c a) (default_policy_rules ++ extra)) ≡ true))
    tested = decide_access_allowed p c a (keep (matches_rule p c a) (default_policy_rules ++ extra))
