-- ===== src/Recovery/Scoring.antt =====
-- python/apexquant-disaster-recovery/src/apexquant-disaster-recovery/scoring.py
use lord_hermes.Common.{
  ℕ, Bool, true, false, not, List, [], ◌∷◌, none, some, length, keep, ltb, if◌then◌else◌,
}
use lord_hermes.Recovery.Models.{
  BackupRequirementStatus, HealthCheckStatus, ReadinessState, ready, degraded, not_ready,
}
use lord_hermes.Recovery.Floats.{Floats, min_of, max_of}

-- `health_check.healthy is True`
abbrev pub is_healthy : HealthCheckStatus → Bool
is_healthy check = elim check.healthy [ none ↦ false | some b ↦ b ]

abbrev pub required_of : List BackupRequirementStatus → List BackupRequirementStatus
required_of requirements = keep (λ r. r.required) requirements

abbrev pub applicable_of : List HealthCheckStatus → List HealthCheckStatus
applicable_of checks = keep (λ c. c.applicable) checks

abbrev pub fresh_count : List BackupRequirementStatus → ℕ
fresh_count required = length (keep (λ r. r.fresh) required)

abbrev pub healthy_count : List HealthCheckStatus → ℕ
healthy_count applicable = length (keep is_healthy applicable)

-- `fresh_count < len(required_backups)`
unfoldable pub fails_closed : List BackupRequirementStatus → Bool
fails_closed required = ltb (fresh_count required) (length required)

module _ {Float : Type 0} (floats : Floats Float) where
  unfoldable pub add_backups : List BackupRequirementStatus → Float → Float
  add_backups [] score = floats.add (floats.add score (floats.whole 40)) (floats.whole 25)
  add_backups (r ∷ rest) score =
      let required = r ∷ rest in
      let fresh = floats.ratio (fresh_count required) (length required) in
      let verified = floats.ratio (length (keep (λ q. q.verified) required)) (length required) in
      floats.add (floats.add score (floats.mul (floats.whole 40) fresh))
        (floats.mul (floats.whole 25) verified)

  unfoldable pub add_health : List HealthCheckStatus → Float → Float
  add_health [] score = floats.add score (floats.whole 15)
  add_health (c ∷ rest) score =
      let applicable = c ∷ rest in
      let health = floats.ratio (healthy_count applicable) (length applicable) in
      let raised = floats.add score (floats.mul (floats.whole 15) health) in
      if ltb (healthy_count applicable) (length applicable)
      then min_of floats raised (floats.whole 79)
      else raised

  unfoldable pub add_drill : Bool → Float → Float
  add_drill passed score = if passed then floats.add score (floats.whole 10) else score

  unfoldable pub cap_closed : Bool → Float → Float
  cap_closed fail_closed score =
      if fail_closed then min_of floats score (floats.whole 49) else score

  -- `max(0.0, min(100.0, score))`
  unfoldable pub clip : Float → Float
  clip score = max_of floats (floats.whole 0) (min_of floats (floats.whole 100) score)

  unfoldable pub state_of : Float → ReadinessState
  state_of score =
      if not (floats.less score (floats.whole 90))
      then ready
      else if not (floats.less score (floats.whole 70))
      then degraded
      else not_ready

  unfoldable pub final_score : List BackupRequirementStatus → List HealthCheckStatus → Bool → Float
  final_score requirements checks passed =
      let required = required_of requirements in
      let backed = add_backups required (floats.add (floats.whole 0) (floats.whole 10)) in
      let drilled = add_drill passed (add_health (applicable_of checks) backed) in
      clip (cap_closed (fails_closed required) drilled)

  -- The score, the state, and whether the cap of a missing backup was used.
  unfoldable pub score_readiness :
      Bool
      → List BackupRequirementStatus
      → List HealthCheckStatus
      → Bool
      → Float × ReadinessState × Bool
  score_readiness plan_active requirements checks passed =
      if not plan_active
      then (floats.whole 0, not_ready, true)
      else let score = final_score requirements checks passed in
        (score, state_of score, fails_closed (required_of requirements))
