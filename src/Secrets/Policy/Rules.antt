-- ===== src/Secrets/Policy/Rules.antt =====
-- python/apexquant-secrets/policy.py
use Prim.Native.String.{◌++◌ as ◌+++◌}
use lord_hermes.Common.{
  String, Bool, true, false, not, List, [], ◌∷◌, ◌++◌, Option, none, some, Eq, ◌==◌, keep, any,
  if◌then◌else◌,
}
use lord_hermes.Secrets.Models.{
  SecretClassification, infrastructure, database, broker, execution, api, model, knowledge,
  SecretPlane, control, market_data, trading, risk, ai, data_research, SecretAction, read, write,
  rotate, admin, allow, deny, PolicyRule, PolicyEvaluation, plane_eq, classification_eq, action_eq,
  effect_eq,
}

abbrev pub ai_forbidden_classifications : List SecretClassification
ai_forbidden_classifications = broker ∷ execution ∷ database ∷ infrastructure ∷ []

abbrev pub research_forbidden_classifications : List SecretClassification
research_forbidden_classifications = broker ∷ execution ∷ database ∷ infrastructure ∷ api ∷ []

pub deny_all : SecretPlane → SecretClassification → PolicyRule
deny_all p c = record {
  subject_plane = some p;
  classification = some c;
  action = none;
  effect = deny;
}

allow_read : SecretPlane → SecretClassification → PolicyRule
allow_read p c = record {
  subject_plane = some p;
  classification = some c;
  action = some read;
  effect = allow;
}

unfoldable pub default_policy_rules : List PolicyRule
unfolding deny_all allow_read
default_policy_rules =
    deny_all ai broker
    ∷ deny_all ai execution
    ∷ deny_all ai database
    ∷ deny_all ai infrastructure
    ∷ deny_all data_research broker
    ∷ deny_all data_research execution
    ∷ deny_all data_research database
    ∷ deny_all data_research infrastructure
    ∷ control_rule
    ∷ allow_read risk broker
    ∷ allow_read risk execution
    ∷ allow_read risk database
    ∷ allow_read risk infrastructure
    ∷ allow_read risk api
    ∷ allow_read risk SecretClassification.observability
    ∷ allow_read market_data infrastructure
    ∷ allow_read market_data database
    ∷ allow_read market_data api
    ∷ allow_read market_data SecretClassification.observability
    ∷ allow_read trading database
    ∷ allow_read trading api
    ∷ allow_read trading SecretClassification.observability
    ∷ allow_read ai model
    ∷ allow_read ai knowledge
    ∷ allow_read ai api
    ∷ allow_read ai SecretClassification.observability
    ∷ allow_read data_research model
    ∷ allow_read data_research knowledge
    ∷ allow_read data_research SecretClassification.observability
    ∷ allow_read SecretPlane.observability SecretClassification.observability
    ∷ allow_read SecretPlane.observability infrastructure
    ∷ []
  where
    control_rule : PolicyRule
    control_rule = record {
      subject_plane = some control;
      classification = none;
      action = none;
      effect = allow;
    }

-- `field is not None and field != value: continue`, the other way round
abbrev pub admits : {A : Type 0} ⦃e : Eq A⦄ → Option A → A → Bool
admits none a = true
admits (some b) a = b == a

unfoldable pub matches_rule : SecretPlane → SecretClassification → SecretAction → PolicyRule → Bool
matches_rule p c a rule =
    if not (admits rule.subject_plane p)
    then false
    else if not (admits rule.classification c)
    then false
    else if not (admits rule.action a)
    then false
    else true

abbrev pub is_deny : PolicyRule → Bool
is_deny rule = rule.effect == deny

abbrev pub is_allow : PolicyRule → Bool
is_allow rule = rule.effect == allow

classification_value : SecretClassification → String
classification_value infrastructure = "INFRASTRUCTURE"
classification_value database = "DATABASE"
classification_value broker = "BROKER"
classification_value execution = "EXECUTION"
classification_value api = "API"
classification_value model = "MODEL"
classification_value knowledge = "KNOWLEDGE"
classification_value SecretClassification.observability = "OBSERVABILITY"

plane_value : SecretPlane → String
plane_value control = "CONTROL"
plane_value market_data = "MARKET_DATA"
plane_value trading = "TRADING"
plane_value risk = "RISK"
plane_value ai = "AI"
plane_value data_research = "DATA_RESEARCH"
plane_value SecretPlane.observability = "OBSERVABILITY"

action_value : SecretAction → String
action_value read = "READ"
action_value write = "WRITE"
action_value rotate = "ROTATE"
action_value admin = "ADMIN"

sentence : String → String → String → SecretPlane → SecretClassification → SecretAction → String
unfolding classification_value plane_value action_value
sentence start verb joint p c a =
    start +++ plane_value p +++ verb +++ classification_value c +++ joint +++ action_value a

unfoldable pub decide_access :
    SecretPlane → SecretClassification → SecretAction → List PolicyRule → PolicyEvaluation
unfolding sentence
decide_access p c a matched =
    if any is_deny matched
    then record {
      allowed = false;
      reason = sentence "" " is denied access to " " for action " p c a;
      matched_rules = matched;
    }
    else if any is_allow matched
    then record {
      allowed = true;
      reason = sentence "" " is allowed access to " " for action " p c a;
      matched_rules = matched;
    }
    else record {
      allowed = false;
      reason =
          sentence "default deny: no matching allow rule for " " accessing " " with action " p c a;
      matched_rules = matched;
    }

-- A caller that passes no extra rules passes the empty list.
unfoldable pub evaluate_access :
    SecretPlane → SecretClassification → SecretAction → List PolicyRule → PolicyEvaluation
unfolding decide_access
evaluate_access p c a extra_rules =
    decide_access p c a (keep (matches_rule p c a) (default_policy_rules ++ extra_rules))
