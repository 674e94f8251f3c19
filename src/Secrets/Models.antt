-- ===== src/Secrets/Models.antt =====
-- python/apexquant-secrets/models.py
use lord_hermes.Common.{ℕ, String, Bool, List, Option, Eq, enum_eq}

pub data SecretClassification : Type 0 where
  infrastructure database broker execution api model knowledge observability : SecretClassification

pub data SecretPlane : Type 0 where
  control market_data trading risk ai data_research observability : SecretPlane

pub data SecretAction : Type 0 where
  read write rotate admin : SecretAction

pub data PolicyEffect : Type 0 where
  allow deny : PolicyEffect

pub data SecretVersionStatus : Type 0 where
  active revoked : SecretVersionStatus

unfoldable pub SecretClassification-discrete : Discrete SecretClassification
SecretClassification-discrete = hlevel

unfoldable pub SecretPlane-discrete : Discrete SecretPlane
SecretPlane-discrete = hlevel

unfoldable pub SecretAction-discrete : Discrete SecretAction
SecretAction-discrete = hlevel

unfoldable pub PolicyEffect-discrete : Discrete PolicyEffect
PolicyEffect-discrete = hlevel

unfoldable pub SecretVersionStatus-discrete : Discrete SecretVersionStatus
SecretVersionStatus-discrete = hlevel

instance abbrev pub classification_eq : Eq SecretClassification
classification_eq = enum_eq SecretClassification-discrete

instance abbrev pub plane_eq : Eq SecretPlane
plane_eq = enum_eq SecretPlane-discrete

instance abbrev pub action_eq : Eq SecretAction
action_eq = enum_eq SecretAction-discrete

instance abbrev pub effect_eq : Eq PolicyEffect
effect_eq = enum_eq PolicyEffect-discrete

instance abbrev pub status_eq : Eq SecretVersionStatus
status_eq = enum_eq SecretVersionStatus-discrete

pub record PolicyRule : Type 0 where
  pub subject_plane : Option SecretPlane
  pub classification : Option SecretClassification
  pub action : Option SecretAction
  pub effect : PolicyEffect

pub record PolicyEvaluation : Type 0 where
  pub allowed : Bool
  pub reason : String
  pub matched_rules : List PolicyRule

-- `created_at` is the reading of the clock, in any unit.
pub record SecretVersion : Type 0 where
  pub version : ℕ
  pub value : String
  pub status : SecretVersionStatus
  pub created_at : ℕ

pub record SecretEntry : Type 0 where
  pub classification : SecretClassification
  pub description : String
  pub current_version : ℕ
  pub versions : List SecretVersion

pub record SecretMetadata : Type 0 where
  pub name : String
  pub classification : SecretClassification
  pub description : String
  pub current_version : ℕ

pub record SecretStorePayload : Type 0 where
  pub secrets : List (String × SecretEntry)
