-- ===== src/Recovery/Assessed.antt =====
-- python/apexquant-disaster-recovery/src/apexquant-disaster-recovery/verifier.py
-- What an assessed requirement and a health check have looked at.
use lord_hermes.Common.{
  All-keep_cons, ℕ, ◌≤◌, ◌+◌, ◌≡◌, inl, inr, refl, ◌∙◌, subst, Bool, true, false, List, [], ◌∷◌,
  Option, none, some, String, Outcome, ok, Outcome-cases, All, leb→le, Bool-cases, arith,
}
use lord_hermes.Common.Text.{Text, text_eq}
use lord_hermes.Recovery.Models.{
  plan_status_eq, RecoveryPlan, RecoveryComponent, BackupStatus, BackupRequirementStatus,
  HealthCheckStatus, strategy_eq,
}
use lord_hermes.Recovery.Scoring.{required_of, applicable_of, is_healthy}
use lord_hermes.Recovery.Verifier.{
  Outside, rpo_of, requires_backup, blank_requirement, with_latest, with_backup, assess,
  assess_named, assess_backup_requirements, has_endpoint, health_status, check_component,
  check_health,
}

-- The component has a policy whose last backup is within the objective.
abbrev pub HasFreshBackup : Outside → RecoveryPlan → RecoveryComponent → Type 0
HasFreshBackup outside plan component =
    (name : Text) × (component.backup_policy_name ≡ some name)
    × (outside.policy_exists name ≡ ok true)
    × (status : BackupStatus) × (outside.latest_backup name ≡ ok (some status))
    × (t : ℕ) × (status.latest_success_at ≡ some t)
    × (outside.clock component ≤ t + rpo_of plan component)

-- The component's endpoint was asked, and answered that it is healthy.
abbrev pub AnswersHealthy : Outside → RecoveryComponent → Type 0
AnswersHealthy outside component =
    (outside.enable_health_checks ≡ true) × (outside.check component ≡ ok (some true))

-- What `x` satisfies, the result that is `ok x` satisfies.
pub ok-subst :
    {E : Type 0} {A : Type 0} (P : A → Type 0) (x y : A)
    → ◌≡◌ {A = Outcome E A} (ok x) (ok y)
    → P x
    → P y
ok-subst P x y e p = subst P (ground (arith, e)) p

module _ (outside : Outside) (plan : RecoveryPlan) (c : RecoveryComponent) where
  abbrev IsAssessed : BackupRequirementStatus → Type 0
  IsAssessed r = (r.required ≡ requires_backup c) × (r.fresh ≡ true → HasFreshBackup outside plan c)

  blank-IsAssessed : IsAssessed (blank_requirement plan c)
  blank-IsAssessed = (refl, λ e. absurd (ground (arith, e)))

  latest-IsAssessed :
      (name : Text) (found : Option BackupStatus)
      → c.backup_policy_name ≡ some name
      → outside.policy_exists name ≡ ok true
      → outside.latest_backup name ≡ ok found
      → IsAssessed (
          with_latest
            (outside.clock c)
            (record (blank_requirement plan c) { policy_exists = true })
            found)
  latest-IsAssessed name none p q l = (refl, λ e. absurd (ground (arith, e)))
  latest-IsAssessed name (some status) p q l = by_time status.latest_success_at refl
    where
      by_time :
          (time : Option ℕ)
          → status.latest_success_at ≡ time
          → IsAssessed (
              with_backup
                (outside.clock c)
                (record (blank_requirement plan c) { policy_exists = true })
                status
                time)
      by_time none e = (refl, λ f. absurd (ground (arith, f)))
      by_time (some t) e =
          (refl, λ f. (name, p, q, status, l, t, e, leb→le (outside.clock c) (t + rpo_of plan c) f))

  named-IsAssessed :
      (policy : Option Text) (r : BackupRequirementStatus)
      → c.backup_policy_name ≡ policy
      → assess_named outside c (blank_requirement plan c) policy ≡ ok r
      → IsAssessed r
  named-IsAssessed none r p e =
      ok-subst {E = String} IsAssessed (blank_requirement plan c) r e blank-IsAssessed
  named-IsAssessed (some name) r p e = elim (Outcome-cases (outside.policy_exists name)) [
    | inr (x, q) ↦ absurd (ground (arith, e, q))
    | inl (false, q) ↦
        ok-subst {E = String} IsAssessed (blank_requirement plan c) r (ground (arith, e, q))
          blank-IsAssessed
    | inl (true, q) ↦ elim (Outcome-cases (outside.latest_backup name)) [
      | inr (x, l) ↦ absurd (ground (arith, e, q, l))
      | inl (found, l) ↦
          ok-subst {E = String} IsAssessed
            (with_latest (outside.clock c)
              (record (blank_requirement plan c) { policy_exists = true }) found)
            r (ground (arith, e, q, l)) (latest-IsAssessed name found p q l)
    ]
  ]

  assess-IsAssessed : (r : BackupRequirementStatus) → assess outside plan c ≡ ok r → IsAssessed r
  unfolding assess
  assess-IsAssessed r e = elim (Bool-cases (requires_backup c)) [
    | inl f ↦ named-IsAssessed c.backup_policy_name r refl (ground (arith, e, f))
    | inr f ↦
        ok-subst {E = String} IsAssessed (blank_requirement plan c) r (ground (arith, e, f))
          blank-IsAssessed
  ]

  abbrev IsChecked : HealthCheckStatus → Type 0
  IsChecked h = (h.applicable ≡ has_endpoint c) × (is_healthy h ≡ true → AnswersHealthy outside c)

  check_component-IsChecked :
      (h : HealthCheckStatus) → check_component outside c ≡ ok h → IsChecked h
  unfolding check_component
  check_component-IsChecked h e = elim (Bool-cases (has_endpoint c)) [
    | inr f ↦
        ok-subst {E = String} IsChecked (health_status c false none) h (ground (arith, e, f))
          (refl, λ b. absurd (ground (arith, b)))
    | inl f ↦ elim (Bool-cases outside.enable_health_checks) [
      | inr g ↦
          ok-subst {E = String} IsChecked (health_status c false none) h (ground (arith, e, f, g))
            (refl, λ b. absurd (ground (arith, b)))
      | inl g ↦ elim (Outcome-cases (outside.check c)) [
        | inr (x, q) ↦ absurd (ground (arith, e, f, g, q))
        | inl (healthy, q) ↦
            ok-subst {E = String} IsChecked (health_status c true healthy) h
              (ground (arith, e, f, g, q)) (refl, λ b. (g, by_answer healthy q b))
      ]
    ]
  ]
    where
      by_answer :
          (healthy : Option Bool)
          → outside.check c ≡ ok healthy
          → is_healthy (health_status c true healthy) ≡ true
          → outside.check c ≡ ok (some true)
      by_answer none q b = absurd (ground (arith, b))
      by_answer (some true) q b = q
      by_answer (some false) q b = absurd (ground (arith, b))

module _ (outside : Outside) (plan : RecoveryPlan) where
  pub assess_backup_requirements-All :
      (components : List RecoveryComponent) (requirements : List BackupRequirementStatus)
      → assess_backup_requirements outside plan components ≡ ok requirements
      → All (λ r. r.fresh ≡ true) (required_of requirements)
      → All (λ c. requires_backup c ≡ true → HasFreshBackup outside plan c) components
  unfolding assess_backup_requirements
  assess_backup_requirements-All [] requirements e h = tt
  assess_backup_requirements-All (c ∷ rest) requirements e h =
      elim (Outcome-cases (assess outside plan c)) [
        | inr (x, q) ↦ absurd (ground (arith, e, q))
        | inl (r, q) ↦ elim (Outcome-cases (assess_backup_requirements outside plan rest)) [
          | inr (x, k) ↦ absurd (ground (arith, e, q, k))
          | inl (others, k) ↦
              ok-subst {E = String}
                (λ l.
                  All (λ q. q.fresh ≡ true) (required_of l)
                  → All (λ x. requires_backup x ≡ true → HasFreshBackup outside plan x) (c ∷ rest))
                (r ∷ others) requirements (ground (arith, e, q, k))
                (λ fresh. (
                  first_fresh r (assess-IsAssessed outside plan c r q)
                      (All-keep_cons (λ q. q.fresh ≡ true) (λ q. q.required) r others fresh).0,
                  assess_backup_requirements-All rest others k
                      (All-keep_cons (λ q. q.fresh ≡ true) (λ q. q.required) r others fresh).1,
                ))
                h
        ]
      ]
    where
      first_fresh :
          (r : BackupRequirementStatus)
          → IsAssessed outside plan c r
          → (r.required ≡ true → r.fresh ≡ true)
          → requires_backup c ≡ true
          → HasFreshBackup outside plan c
      first_fresh r found fresh need = found.1 (fresh (found.0 ∙ need))

  pub check_health-All :
      (components : List RecoveryComponent) (checks : List HealthCheckStatus)
      → check_health outside components ≡ ok checks
      → All (λ h. is_healthy h ≡ true) (applicable_of checks)
      → All (λ c. has_endpoint c ≡ true → AnswersHealthy outside c) components
  unfolding check_health
  check_health-All [] checks e h = tt
  check_health-All (c ∷ rest) checks e h = elim (Outcome-cases (check_component outside c)) [
    | inr (x, q) ↦ absurd (ground (arith, e, q))
    | inl (r, q) ↦ elim (Outcome-cases (check_health outside rest)) [
      | inr (x, k) ↦ absurd (ground (arith, e, q, k))
      | inl (others, k) ↦
          ok-subst {E = String}
            (λ l.
              All (λ q. is_healthy q ≡ true) (applicable_of l)
              → All (λ x. has_endpoint x ≡ true → AnswersHealthy outside x) (c ∷ rest))
            (r ∷ others) checks (ground (arith, e, q, k))
            (λ healthy. (
              first_healthy r (check_component-IsChecked outside plan c r q)
                  (All-keep_cons (λ q. is_healthy q ≡ true) (λ q. q.applicable) r others healthy).0,
              check_health-All rest others k
                  (All-keep_cons (λ q. is_healthy q ≡ true) (λ q. q.applicable) r others healthy).1,
            ))
            h
    ]
  ]
    where
      first_healthy :
          (r : HealthCheckStatus)
          → IsChecked outside plan c r
          → (r.applicable ≡ true → is_healthy r ≡ true)
          → has_endpoint c ≡ true
          → AnswersHealthy outside c
      first_healthy r found healthy has = found.1 (healthy (found.0 ∙ has))
