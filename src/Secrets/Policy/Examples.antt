-- ===== src/Secrets/Policy/Examples.antt =====
-- python/apexquant-secrets/policy.py
-- The theorems on the policy at concrete requests.
use lord_hermes.Common.{true, false, ◌≡◌, ◌↔◌, All, Any, ◌++◌, refl, inl, List, [], ◌∷◌, none, some}
use lord_hermes.Secrets.Models.{
  broker, api, ai, risk, read, write, admin, allow, deny, PolicyRule, classification_eq,
  SecretClassification-discrete, SecretPlane-discrete, SecretAction-discrete, PolicyEffect-discrete,
}
use lord_hermes.Secrets.Policy.Rules.{
  evaluate_access, decide_access, default_policy_rules, matches_rule,
}
use lord_hermes.Secrets.Policy.Applies.{Applies}
use lord_hermes.Secrets.Policy.Decision.{allowed_iff}
use lord_hermes.Secrets.Policy.Guarantees.{ai_and_research_isolated}

-- An attempt to open the broker secrets to everyone.
abbrev open_all : List PolicyRule
open_all =
    record { subject_plane = none; classification = none; action = none; effect = allow } ∷ []

abbrev close_admin : List PolicyRule
close_admin =
    record { subject_plane = none; classification = none; action = some admin; effect = deny } ∷ []

ai_and_research_isolated_example : (evaluate_access ai broker write open_all).allowed ≡ false
unfolding SecretClassification-discrete
ai_and_research_isolated_example = ai_and_research_isolated ai broker write open_all (inl refl) refl

risk_reads : (evaluate_access risk broker read close_admin).allowed ≡ true
unfolding evaluate_access decide_access default_policy_rules matches_rule
    SecretClassification-discrete SecretPlane-discrete SecretAction-discrete PolicyEffect-discrete
risk_reads = refl

allowed_iff_example : ((evaluate_access ai api read open_all).allowed ≡ true) ↔ (
    All (λ r. Applies ai api read r → r.effect ≡ allow) (default_policy_rules ++ open_all)
    × Any (λ r. Applies ai api read r × (r.effect ≡ allow)) (default_policy_rules ++ open_all))
allowed_iff_example = allowed_iff ai api read open_all
