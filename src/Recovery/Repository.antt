-- ===== src/Recovery/Repository.antt =====
-- python/apexquant-disaster-recovery/src/apexquant-disaster-recovery/repository.py
-- What the checks read of InMemoryDRRepository: the plans, their components and the drills.
use lord_hermes.Common.{
  ℕ, Bool, true, false, ◌&&◌, ◌+◌, ◌*◌, List, [], ◌∷◌, Option, none, some, get, values, ◌==◌, keep,
  leb, ltb, if◌then◌else◌, sort_by,
}
use lord_hermes.Common.Text.{Text, text_eq}
use lord_hermes.Recovery.Models.{
  RecoveryPlan, RecoveryComponent, Drill, DrillStatus, drill_status_eq,
}

pub record RecoveryRepository : Type 0 where
  pub plans : List (Text × RecoveryPlan)
  pub components : List (Text × List RecoveryComponent)
  pub drills : List (Text × Drill)

unfoldable pub get_plan : Text → RecoveryRepository → Option RecoveryPlan
get_plan plan_id repository = get plan_id repository.plans

abbrev pub by_priority : RecoveryComponent → RecoveryComponent → Bool
by_priority a b = leb a.priority b.priority

unfoldable pub list_components : Text → RecoveryRepository → List RecoveryComponent
list_components plan_id repository = elim (get plan_id repository.components) [
  | none ↦ []
  | some components ↦ sort_by by_priority components
]

-- `drill.completed_at or drill.started_at`
abbrev ended_at : Drill → ℕ
ended_at drill = elim drill.completed_at [ none ↦ drill.started_at | some t ↦ t ]

-- `max(drills, key=...)`, which keeps the first of the greatest.
abbrev latest : Drill → List Drill → Drill
latest best [] = best
latest best (d ∷ rest) = latest (if ltb (ended_at best) (ended_at d) then d else best) rest

abbrev passed_drills : Text → RecoveryRepository → List Drill
passed_drills plan_id repository =
    keep (λ d. d.plan_id == plan_id && d.status == DrillStatus.succeeded) (values repository.drills)

abbrev within : ℕ → Option ℕ → List Drill → Bool
within now days [] = false
within now none (d ∷ rest) = true
within now (some days) (d ∷ rest) = leb now (ended_at (latest d rest) + days * 86400)

unfoldable pub latest_passed_drill_within_days : Text → Option ℕ → ℕ → RecoveryRepository → Bool
latest_passed_drill_within_days plan_id days now repository =
    within now days (passed_drills plan_id repository)
