-- ===== src/Recovery/Models.antt =====
-- python/apexquant-disaster-recovery/src/apexquant-disaster-recovery/models.py
-- Times are numbers of seconds, and a uuid is its text.
use lord_hermes.Common.{ℕ, Bool, Option, List, Eq, enum_eq}
use lord_hermes.Common.Text.{Text}

pub data PlanStatus : Type 0 where
  draft : PlanStatus
  active : PlanStatus
  retired : PlanStatus

pub data RecoveryStrategy : Type 0 where
  restore_from_backup : RecoveryStrategy
  restart : RecoveryStrategy
  rebuild : RecoveryStrategy
  failover : RecoveryStrategy
  manual : RecoveryStrategy

pub data DrillStatus : Type 0 where
  running : DrillStatus
  succeeded : DrillStatus
  failed : DrillStatus
  cancelled : DrillStatus

-- The texts of a report's state.
pub data ReadinessState : Type 0 where
  ready : ReadinessState
  degraded : ReadinessState
  not_ready : ReadinessState

unfoldable pub PlanStatus-discrete : Discrete PlanStatus
PlanStatus-discrete = hlevel

unfoldable pub RecoveryStrategy-discrete : Discrete RecoveryStrategy
RecoveryStrategy-discrete = hlevel

unfoldable pub DrillStatus-discrete : Discrete DrillStatus
DrillStatus-discrete = hlevel

instance abbrev pub plan_status_eq : Eq PlanStatus
plan_status_eq = enum_eq PlanStatus-discrete

instance abbrev pub strategy_eq : Eq RecoveryStrategy
strategy_eq = enum_eq RecoveryStrategy-discrete

instance abbrev pub drill_status_eq : Eq DrillStatus
drill_status_eq = enum_eq DrillStatus-discrete

pub record RecoveryPlan : Type 0 where
  pub plan_id : Text
  pub name : Text
  pub environment : Text
  pub rpo_seconds : ℕ
  pub rto_seconds : ℕ
  pub drill_max_age_days : Option ℕ
  pub status : PlanStatus

pub record RecoveryComponent : Type 0 where
  pub component_name : Text
  pub recovery_strategy : RecoveryStrategy
  pub priority : ℕ
  pub backup_policy_name : Option Text
  pub health_endpoint : Option Text
  pub rpo_seconds : Option ℕ
  pub rto_seconds : Option ℕ

pub record Drill : Type 0 where
  pub drill_id : Text
  pub plan_id : Text
  pub status : DrillStatus
  pub started_at : ℕ
  pub completed_at : Option ℕ

pub record BackupStatus : Type 0 where
  pub policy_name : Text
  pub latest_success_at : Option ℕ
  pub latest_artifact_uri : Option Text
  pub verification_status : Option Text
  pub last_verified_at : Option ℕ

pub record BackupRequirementStatus : Type 0 where
  pub component_name : Text
  pub backup_policy_name : Option Text
  pub required : Bool
  pub policy_exists : Bool
  pub latest_backup_at : Option ℕ
  pub fresh : Bool
  pub verified : Bool
  pub rpo_seconds : ℕ

pub record HealthCheckStatus : Type 0 where
  pub component_name : Text
  pub health_endpoint : Option Text
  pub applicable : Bool
  pub checked : Bool
  pub healthy : Option Bool

pub record ReadinessReport (Float : Type 0) : Type 0 where
  pub plan_id : Text
  pub environment : Text
  pub plan_active : Bool
  pub score : Float
  pub state : ReadinessState
  pub fail_closed_triggered : Bool
  pub backup_requirements : List BackupRequirementStatus
  pub health_checks : List HealthCheckStatus
  pub recent_drill_passed : Bool
  pub warnings : List Text
