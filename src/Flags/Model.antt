-- ===== src/Flags/Model.antt =====
-- python/apexquant-flags/src/apexquant-flags/model.py. A set is the list of its members; only
-- membership is asked of it.
use lord_hermes.Common.{
  ℕ, String, Bool, List, [], ◌∷◌, Option, none, some, Eq, enum_eq, ◌==◌, string_eq, if◌then◌else◌,
}

pub data FlagStatus : Type 0 where
  draft active disabled retired : FlagStatus

pub data FlagType : Type 0 where
  boolean percentage allowlist denylist : FlagType

pub data FlagClass : Type 0 where
  safety_critical trading_behavior standard : FlagClass

unfoldable pub FlagStatus-discrete : Discrete FlagStatus
FlagStatus-discrete = hlevel

unfoldable pub FlagType-discrete : Discrete FlagType
FlagType-discrete = hlevel

instance abbrev pub flag_status_eq : Eq FlagStatus
flag_status_eq = enum_eq FlagStatus-discrete

instance abbrev pub flag_type_eq : Eq FlagType
flag_type_eq = enum_eq FlagType-discrete

unfoldable pub staleness_limit_ms : FlagClass → ℕ
staleness_limit_ms safety_critical = 1000
staleness_limit_ms trading_behavior = 5000
staleness_limit_ms standard = 60000

pub record CompiledFlag : Type 0 where
  pub flag_key : String
  pub status : FlagStatus
  pub flag_type : FlagType
  pub flag_class : FlagClass
  pub bool_value : Bool
  pub rollout_bps : ℕ
  pub allowed : List String
  pub denied : List String
  pub environments : List String
  pub fail_value : Bool
  pub generation : ℕ
  pub expires_at_epoch_ms : Option ℕ

pub record EvaluationContext : Type 0 where
  pub environment : String
  pub attributes : List (String × String)

attr_of : List (String × String) → String → Option String
attr_of [] key = none
attr_of ((k, v) ∷ rest) key = if k == key then some v else attr_of rest key

unfoldable pub attr : EvaluationContext → String → Option String
unfolding attr_of
attr ctx key = attr_of ctx.attributes key
