-- ===== src/Recovery/Examples.antt =====
-- python/apexquant-disaster-recovery: a report on a plan of two components.
use lord_hermes.Common.{
  ℕ, ◌<◌, ◌+◌, ◌*◌, ◌/◌, ◌≡◌, refl, ◌⊎◌, true, false, [], ◌∷◌, Option, none, some, ok, err, ltb,
  ltb→lt, lt→ltb, All, get, insert, sort_by, values, arith,
}
use lord_hermes.Common.Text.{codes, text_eq, text_beq}
use lord_hermes.Recovery.Models.{
  PlanStatus, RecoveryStrategy, RecoveryPlan, RecoveryComponent, BackupStatus, ReadinessReport,
  ReadinessState, ready, PlanStatus-discrete, RecoveryStrategy-discrete, DrillStatus-discrete,
  active,
}
use lord_hermes.Recovery.Repository.{
  RecoveryRepository, get_plan, list_components, latest_passed_drill_within_days,
}
use lord_hermes.Recovery.Floats.{Floats, FloatLaws, min_of, max_of}
use lord_hermes.Recovery.Scoring.{
  fails_closed, add_backups, add_health, add_drill, cap_closed, clip, state_of, final_score,
  score_readiness,
}
use lord_hermes.Recovery.Verifier.{
  Outside, rpo_of, assess, assess_backup_requirements, has_endpoint, check_component, check_health,
  backup_warnings, health_warnings, build_readiness_report, requires_backup,
}
use lord_hermes.Recovery.Assessed.{HasFreshBackup, AnswersHealthy}
use lord_hermes.Recovery.Readiness.{ready_report_sound}

-- Numbers with two decimal digits.
abbrev hundredths : Floats ℕ
hundredths = record {
  whole = λ n. n * 100;
  add = λ a b. a + b;
  mul = λ a b. a * b / 100;
  ratio = λ k n. k * 100 / n;
  less = ltb;
}

hundredths_laws : FloatLaws hundredths
hundredths_laws = record {
  less-whole = λ m n p q. ground arith;
  less_split = λ a b c h. split a b c (ltb→lt a c h);
  less-add = λ a b c h. lt→ltb a b (omega (arith, ltb→lt (a + c) (b + c) h));
  add-whole = λ m n p. omega arith;
}
  where
    split : (a b c : ℕ) → a < c → (ltb a b ≡ true) ⊎ (ltb b c ≡ true)
    split a b c h = ground arith

abbrev plan : RecoveryPlan
plan = record {
  plan_id = codes "p";
  name = codes "platform";
  environment = codes "test";
  rpo_seconds = 3600;
  rto_seconds = 3600;
  drill_max_age_days = some 7;
  status = PlanStatus.active;
}

abbrev database : RecoveryComponent
database = record {
  component_name = codes "postgresql-primary";
  recovery_strategy = RecoveryStrategy.restore_from_backup;
  priority = 1;
  backup_policy_name = some (codes "nightly");
  health_endpoint = none;
  rpo_seconds = none;
  rto_seconds = none;
}

abbrev service : RecoveryComponent
service = record {
  component_name = codes "core";
  recovery_strategy = RecoveryStrategy.restart;
  priority = 5;
  backup_policy_name = none;
  health_endpoint = some (codes "http://core/healthz");
  rpo_seconds = none;
  rto_seconds = none;
}

abbrev repository : RecoveryRepository
repository = record {
  plans = (codes "p", plan) ∷ [];
  components = (codes "p", service ∷ database ∷ []) ∷ [];
  drills = [];
}

abbrev nightly : BackupStatus
nightly = record {
  policy_name = codes "nightly";
  latest_success_at = some 9000;
  latest_artifact_uri = none;
  verification_status = some (codes "SUCCEEDED");
  last_verified_at = none;
}

abbrev outside : Outside
outside = record {
  policy_exists = λ name. ok true;
  latest_backup = λ name. ok (some nightly);
  check = λ component. ok (some true);
  clock = λ component. 10000;
  now = 10000;
  enable_health_checks = true;
}

abbrev stale : Outside
stale = record outside { clock = λ component. 20000 }

abbrev state_with : Outside → Option ReadinessState
state_with world = elim (build_readiness_report hundredths world (codes "p") repository) [
  | err e ↦ none
  | ok report ↦ some report.state
]

-- With a fresh backup the plan is ready, with a stale one it is not.
states : (state_with outside ≡ some ready) × (state_with stale ≡ some ReadinessState.not_ready)
unfolding build_readiness_report text_beq get_plan get PlanStatus-discrete RecoveryStrategy-discrete
    DrillStatus-discrete list_components sort_by insert latest_passed_drill_within_days values
    min_of max_of fails_closed add_backups add_health add_drill cap_closed clip state_of final_score
    score_readiness rpo_of assess assess_backup_requirements has_endpoint check_component
    check_health backup_warnings health_warnings
states = (refl, refl)

abbrev report : ReadinessReport ℕ
report = record {
  plan_id = codes "p";
  environment = codes "test";
  plan_active = true;
  score = 9000;
  state = ready;
  fail_closed_triggered = false;
  backup_requirements =
      record {
        component_name = codes "postgresql-primary";
        backup_policy_name = some (codes "nightly");
        required = true;
        policy_exists = true;
        latest_backup_at = some 9000;
        fresh = true;
        verified = true;
        rpo_seconds = 3600;
      }
      ∷ record {
        component_name = codes "core";
        backup_policy_name = none;
        required = false;
        policy_exists = false;
        latest_backup_at = none;
        fresh = false;
        verified = false;
        rpo_seconds = 3600;
      }
      ∷ [];
  health_checks =
      record {
        component_name = codes "postgresql-primary";
        health_endpoint = none;
        applicable = false;
        checked = false;
        healthy = none;
      }
      ∷ record {
        component_name = codes "core";
        health_endpoint = some (codes "http://core/healthz");
        applicable = true;
        checked = true;
        healthy = some true;
      }
      ∷ [];
  recent_drill_passed = false;
  warnings = [];
}

ready_report_sound_example :
    (found : RecoveryPlan) × (get_plan (codes "p") repository ≡ some found)
    × (found.status ≡ active)
    × All
        (λ c. requires_backup c ≡ true → HasFreshBackup outside found c)
        (list_components found.plan_id repository)
    × All
        (λ c. has_endpoint c ≡ true → AnswersHealthy outside c)
        (list_components found.plan_id repository)
unfolding build_readiness_report text_beq get_plan get PlanStatus-discrete RecoveryStrategy-discrete
    DrillStatus-discrete list_components sort_by insert latest_passed_drill_within_days values
    min_of max_of fails_closed add_backups add_health add_drill cap_closed clip state_of final_score
    score_readiness rpo_of assess assess_backup_requirements has_endpoint check_component
    check_health backup_warnings health_warnings
ready_report_sound_example =
    ready_report_sound hundredths hundredths_laws outside (codes "p") repository report refl refl
