-- ===== src/Recovery/Verifier.antt =====
-- python/apexquant-disaster-recovery/src/apexquant-disaster-recovery/verifier.py
-- The assessments of DRVerifier and its report.
use lord_hermes.Common.{
  ℕ, Bool, true, false, not, ◌&&◌, ◌+◌, List, [], ◌∷◌, ◌++◌, Option, none, some, String,
  is_nonempty, Outcome, ok, err, ◌>>=◌, ◌==◌, leb, nat_beq, if◌then◌else◌,
}
use lord_hermes.Common.Text.{Text, codes, text_eq}
use lord_hermes.Recovery.Models.{
  active, plan_status_eq, restore_from_backup, strategy_eq, RecoveryPlan, RecoveryComponent,
  BackupStatus, BackupRequirementStatus, HealthCheckStatus, ReadinessState, ReadinessReport,
}
use lord_hermes.Recovery.Repository.{
  RecoveryRepository, get_plan, list_components, latest_passed_drill_within_days,
}
use lord_hermes.Recovery.Floats.{Floats}
use lord_hermes.Recovery.Scoring.{score_readiness}

-- What the verifier is given: the backup provider and the health checker, whose calls may raise,
-- the clock at each component and at the look for a drill, and the switch of the health checks.
pub record Outside : Type 0 where
  pub policy_exists : Text → Outcome String Bool
  pub latest_backup : Text → Outcome String (Option BackupStatus)
  pub check : RecoveryComponent → Outcome String (Option Bool)
  pub clock : RecoveryComponent → ℕ
  pub now : ℕ
  pub enable_health_checks : Bool

-- `component.rpo_seconds or plan.rpo_seconds`
unfoldable pub rpo_of : RecoveryPlan → RecoveryComponent → ℕ
rpo_of plan component = elim component.rpo_seconds [
  | none ↦ plan.rpo_seconds
  | some s ↦ if nat_beq s 0 then plan.rpo_seconds else s
]

abbrev pub requires_backup : RecoveryComponent → Bool
requires_backup component = component.recovery_strategy == restore_from_backup

abbrev pub blank_requirement : RecoveryPlan → RecoveryComponent → BackupRequirementStatus
blank_requirement plan component = record {
  component_name = component.component_name;
  backup_policy_name = component.backup_policy_name;
  required = requires_backup component;
  policy_exists = false;
  latest_backup_at = none;
  fresh = false;
  verified = false;
  rpo_seconds = rpo_of plan component;
}

-- `verification_status == "SUCCEEDED"`
abbrev is_verified : Option Text → Bool
is_verified none = false
is_verified (some status) = status == codes "SUCCEEDED"

abbrev pub with_backup :
    ℕ → BackupRequirementStatus → BackupStatus → Option ℕ → BackupRequirementStatus
with_backup now found status none = found
with_backup now found status (some t) = record found {
  latest_backup_at = some t;
  fresh = leb now (t + found.rpo_seconds);
  verified = is_verified status.verification_status;
}

abbrev pub with_latest : ℕ → BackupRequirementStatus → Option BackupStatus → BackupRequirementStatus
with_latest now found none = found
with_latest now found (some status) = with_backup now found status status.latest_success_at

abbrev pub assess_named :
    Outside
    → RecoveryComponent
    → BackupRequirementStatus
    → Option Text
    → Outcome String BackupRequirementStatus
assess_named outside component blank none = ok blank
assess_named outside component blank (some name) = elim (outside.policy_exists name) [
  | err e ↦ err e
  | ok false ↦ ok blank
  | ok true ↦ elim (outside.latest_backup name) [
    | err e ↦ err e
    | ok status ↦
        ok (with_latest (outside.clock component) (record blank { policy_exists = true }) status)
  ]
]

-- One turn of the loop of assess_backup_requirements.
unfoldable pub assess :
    Outside → RecoveryPlan → RecoveryComponent → Outcome String BackupRequirementStatus
assess outside plan component =
    if not (requires_backup component)
    then ok (blank_requirement plan component)
    else assess_named outside component (blank_requirement plan component)
        component.backup_policy_name

unfoldable pub assess_backup_requirements :
    Outside → RecoveryPlan → List RecoveryComponent → Outcome String (List BackupRequirementStatus)
assess_backup_requirements outside plan [] = ok []
assess_backup_requirements outside plan (c ∷ rest) = assess outside plan c >>= λ r.
    assess_backup_requirements outside plan rest >>= λ others. ok (r ∷ others)

-- `bool(component.health_endpoint)`
unfoldable pub has_endpoint : RecoveryComponent → Bool
has_endpoint component = elim component.health_endpoint [
  | none ↦ false
  | some url ↦ is_nonempty url
]

abbrev pub health_status : RecoveryComponent → Bool → Option Bool → HealthCheckStatus
health_status component checked healthy = record {
  component_name = component.component_name;
  health_endpoint = component.health_endpoint;
  applicable = has_endpoint component;
  checked = checked;
  healthy = healthy;
}

-- One turn of the loop of check_health.
unfoldable pub check_component : Outside → RecoveryComponent → Outcome String HealthCheckStatus
check_component outside component =
    if not (has_endpoint component)
    then ok (health_status component false none)
    else if not outside.enable_health_checks
    then ok (health_status component false none)
    else elim (outside.check component) [
      | err e ↦ err e
      | ok healthy ↦ ok (health_status component true healthy)
    ]

unfoldable pub check_health :
    Outside → List RecoveryComponent → Outcome String (List HealthCheckStatus)
check_health outside [] = ok []
check_health outside (c ∷ rest) =
    check_component outside c >>= λ h. check_health outside rest >>= λ others. ok (h ∷ others)

abbrev warn : Bool → String → Text → String → List Text
warn test before name after = if test then (codes before ++ name ++ codes after) ∷ [] else []

unfoldable pub backup_warnings : List BackupRequirementStatus → List Text
backup_warnings [] = []
backup_warnings (r ∷ rest) =
    warn (r.required && not r.policy_exists) "component " r.component_name " has no backup policy"
    ++ (warn (r.required && r.policy_exists && not r.fresh) "component " r.component_name
          " backup is stale or missing"
        ++ (warn (r.required && r.fresh && not r.verified) "component " r.component_name
              " backup is not verified"
            ++ backup_warnings rest))

abbrev is_unhealthy : Option Bool → Bool
is_unhealthy none = false
is_unhealthy (some b) = not b

unfoldable pub health_warnings : List HealthCheckStatus → List Text
health_warnings [] = []
health_warnings (h ∷ rest) =
    warn (h.applicable && is_unhealthy h.healthy) "component " h.component_name
      " failed health check"
    ++ health_warnings rest

module _ {Float : Type 0} (floats : Floats Float) (outside : Outside) where
  abbrev report_with :
      RecoveryPlan
      → Bool
      → List BackupRequirementStatus
      → List HealthCheckStatus
      → Float × ReadinessState × Bool
      → ReadinessReport Float
  report_with plan passed requirements checks (total, verdict, closed) = record {
    plan_id = plan.plan_id;
    environment = plan.environment;
    plan_active = plan.status == active;
    score = total;
    state = verdict;
    fail_closed_triggered = closed;
    backup_requirements = requirements;
    health_checks = checks;
    recent_drill_passed = passed;
    warnings =
        (if plan.status == active then [] else codes "recovery plan is not active" ∷ [])
        ++ (backup_warnings requirements ++ health_warnings checks);
  }

  abbrev pub report_of :
      RecoveryPlan
      → Bool
      → List BackupRequirementStatus
      → List HealthCheckStatus
      → ReadinessReport Float
  report_of plan passed requirements checks =
      report_with plan passed requirements checks
        (score_readiness floats (plan.status == active) requirements checks passed)

  abbrev pub report_on : RecoveryRepository → RecoveryPlan → Outcome String (ReadinessReport Float)
  report_on repository plan =
      assess_backup_requirements outside plan (list_components plan.plan_id repository)
      >>= λ requirements.
          check_health outside (list_components plan.plan_id repository) >>= λ checks. ok (
            report_of plan
              (latest_passed_drill_within_days plan.plan_id plan.drill_max_age_days outside.now
                repository)
              requirements checks)

  -- The error none is DRNotFoundError.
  unfoldable pub build_readiness_report :
      Text → RecoveryRepository → Outcome (Option String) (ReadinessReport Float)
  build_readiness_report plan_id repository = elim (get_plan plan_id repository) [
    | none ↦ err none
    | some plan ↦ elim (report_on repository plan) [ err e ↦ err (some e) | ok r ↦ ok r ]
  ]
