-- ===== src/Recovery/Readiness.antt =====
-- python/apexquant-disaster-recovery/src/apexquant-disaster-recovery/verifier.py
-- What a report that says READY has found.
use lord_hermes.Common.{
  ◌≡◌, inl, inr, refl, sym, ◌∙◌, subst, Bool, true, false, List, Option, some, String, ok,
  Outcome-cases, Option-cases, length, All, ltb, ◌==◌, arith,
}
use lord_hermes.Common.Text.{Text, text_eq}
use lord_hermes.Recovery.Models.{
  active, plan_status_eq, RecoveryPlan, BackupRequirementStatus, HealthCheckStatus, ReadinessReport,
  ready, strategy_eq,
}
use lord_hermes.Recovery.Repository.{
  RecoveryRepository, get_plan, list_components, latest_passed_drill_within_days,
}
use lord_hermes.Recovery.Floats.{Floats, FloatLaws}
use lord_hermes.Recovery.Scoring.{
  score_readiness, final_score, state_of, clip, cap_closed, add_drill, add_health, add_backups,
  fails_closed, required_of, applicable_of, is_healthy, healthy_count,
}
use lord_hermes.Recovery.Verifier.{
  Outside, requires_backup, assess_backup_requirements, has_endpoint, check_health, report_of,
  report_on, build_readiness_report,
}
use lord_hermes.Recovery.Caps.{full-All, closed-unready, unhealthy-unready}
use lord_hermes.Recovery.Assessed.{
  HasFreshBackup, AnswersHealthy, ok-subst, assess_backup_requirements-All, check_health-All,
}

module _ {Float : Type 0} (floats : Floats Float) (laws : FloatLaws floats) where
  -- The state READY comes from an active plan, fresh backups and healthy checks.
  score_readiness-ready :
      (plan_active : Bool) (requirements : List BackupRequirementStatus)
      (checks : List HealthCheckStatus) (passed : Bool)
      → (score_readiness floats plan_active requirements checks passed).1 ≡ ready
      → (plan_active ≡ true)
        × All (λ r. r.fresh ≡ true) (required_of requirements)
        × All (λ h. is_healthy h ≡ true) (applicable_of checks)
  unfolding score_readiness final_score fails_closed cap_closed
  score_readiness-ready false requirements checks passed e = absurd (ground (arith, e))
  score_readiness-ready true requirements checks passed e = by_cap (fails_closed required) refl
    where
      required : List BackupRequirementStatus
      required = required_of requirements

      applicable : List HealthCheckStatus
      applicable = applicable_of checks

      backed : Float
      backed = add_backups floats required (floats.add (floats.whole 0) (floats.whole 10))

      drilled : Float
      drilled = add_drill floats passed (add_health floats applicable backed)

      capped :
          (b : Bool)
          → fails_closed required ≡ b
          → state_of floats (clip floats (cap_closed floats b drilled)) ≡ ready
      capped b f =
          subst (λ x. state_of floats (clip floats (cap_closed floats x drilled)) ≡ ready) f e

      healthy :
          (b : Bool)
          → ltb (healthy_count applicable) (length applicable) ≡ b
          → fails_closed required ≡ false
          → All (λ h. is_healthy h ≡ true) applicable
      healthy true g f =
          absurd (unhealthy-unready floats laws applicable passed backed g (capped false f))
      healthy false g f = full-All is_healthy applicable g

      by_cap :
          (b : Bool)
          → fails_closed required ≡ b
          → (true ≡ true)
            × All (λ r. r.fresh ≡ true) required
            × All (λ h. is_healthy h ≡ true) applicable
      by_cap true f = absurd (closed-unready floats laws drilled (capped true f))
      by_cap false f = (
        refl,
        full-All (λ r. r.fresh) required f,
        healthy (ltb (healthy_count applicable) (length applicable)) refl f,
      )

  module _ (outside : Outside) (repository : RecoveryRepository) where
    -- What a report READY on a plan says of the plan's components.
    abbrev pub IsPrepared : RecoveryPlan → Type 0
    IsPrepared plan =
        (plan.status ≡ active)
        × All (λ c. requires_backup c ≡ true → HasFreshBackup outside plan c)
            (list_components plan.plan_id repository)
        × All (λ c. has_endpoint c ≡ true → AnswersHealthy outside c)
            (list_components plan.plan_id repository)

    report_of-ready :
        (plan : RecoveryPlan) (passed : Bool) (requirements : List BackupRequirementStatus)
        (checks : List HealthCheckStatus)
        → assess_backup_requirements outside plan (list_components plan.plan_id repository)
          ≡ ok requirements
        → check_health outside (list_components plan.plan_id repository) ≡ ok checks
        → (report_of floats outside plan passed requirements checks).state ≡ ready
        → IsPrepared plan
    report_of-ready plan passed requirements checks q k h =
        let found = score_readiness-ready (plan.status == active) requirements checks passed h in
        (
          (plan_status_eq.beq_iff plan.status active).0 found.0,
          assess_backup_requirements-All outside plan (list_components plan.plan_id repository)
              requirements q found.1,
          check_health-All outside plan (list_components plan.plan_id repository) checks k found.2,
        )

    report_on-ready :
        (plan : RecoveryPlan) (report : ReadinessReport Float)
        → report_on floats outside repository plan ≡ ok report
        → report.state ≡ ready
        → IsPrepared plan
    report_on-ready plan report e h =
        elim (Outcome-cases
          (assess_backup_requirements outside plan (list_components plan.plan_id repository))) [
            | inr (x, q) ↦ absurd (ground (arith, e, q))
            | inl (requirements, q) ↦
                elim (Outcome-cases
                  (check_health outside (list_components plan.plan_id repository))) [
                    | inr (x, k) ↦ absurd (ground (arith, e, q, k))
                    | inl (checks, k) ↦
                        ok-subst (λ r. r.state ≡ ready → IsPrepared plan)
                          (report_of floats outside plan (passed_on plan) requirements checks)
                          report (sym (rw (q, k) refl) ∙ e)
                          (report_of-ready plan (passed_on plan) requirements checks q k) h
                  ]
          ]
      where
        passed_on : RecoveryPlan → Bool
        passed_on plan =
            latest_passed_drill_within_days plan.plan_id plan.drill_max_age_days outside.now
              repository

  -- When floats satisfy the laws of FloatLaws, a report with the state READY says that the plan is
  -- there and active, that each of its components that is to be restored from a backup has a policy
  -- whose last successful backup lies within the recovery point objective, and that each of its
  -- health endpoints was asked and answered that it is healthy.
  pub ready_report_sound :
      (outside : Outside) (plan_id : Text) (repository : RecoveryRepository)
      (report : ReadinessReport Float)
      → build_readiness_report floats outside plan_id repository ≡ ok report
      → report.state ≡ ready
      → (plan : RecoveryPlan) × (get_plan plan_id repository ≡ some plan)
        × (plan.status ≡ active)
        × All
            (λ c. requires_backup c ≡ true → HasFreshBackup outside plan c)
            (list_components plan.plan_id repository)
        × All
            (λ c. has_endpoint c ≡ true → AnswersHealthy outside c)
            (list_components plan.plan_id repository)
  unfolding build_readiness_report
  ready_report_sound outside plan_id repository report e h =
      elim (Option-cases (get_plan plan_id repository)) [
        | inl p ↦ absurd (ground (arith, e, p))
        | inr (plan, p) ↦ elim (Outcome-cases (report_on floats outside repository plan)) [
          | inr (x, q) ↦ absurd (ground (arith, e, p, q))
          | inl (found, q) ↦
              let prepared =
                ok-subst {E = Option String}
                  (λ r. r.state ≡ ready → IsPrepared outside repository plan) found report
                  (ground (arith, e, p, q)) (report_on-ready outside repository plan found q) h in
              (plan, p, prepared.0, prepared.1, prepared.2)
        ]
      ]
