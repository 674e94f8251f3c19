-- ===== src/Recovery/Caps.antt =====
-- python/apexquant-disaster-recovery/src/apexquant-disaster-recovery/scoring.py
-- What the two caps of score_readiness leave of a score.
use lord_hermes.Common.{
  ℕ, ◌≤◌, ◌<◌, ◌≡◌, inl, inr, sym, ◌∙◌, subst, Bool, true, false, List, [], ◌∷◌, length, keep, All,
  ltb, lt→ltb, if◌then◌else◌, Bool-cases, arith,
}
use lord_hermes.Recovery.Models.{HealthCheckStatus, ready}
use lord_hermes.Recovery.Floats.{Floats, FloatLaws, min_of, max_of}
use lord_hermes.Recovery.Scoring.{add_health, add_drill, cap_closed, clip, state_of, healthy_count}

module _ {ℓ} {A : Type ℓ} (test : A → Bool) where
  length-keep : (xs : List A) → length (keep test xs) ≤ length xs
  length-keep [] = ground arith
  length-keep (x ∷ xs) = ground (arith, length-keep xs)

  -- A list that keeps its length under a test passes it as a whole.
  pub full-All :
      (xs : List A) → ltb (length (keep test xs)) (length xs) ≡ false → All (λ x. test x ≡ true) xs
  full-All [] h = tt
  full-All (x ∷ xs) h = elim (Bool-cases (test x)) [
    | inl e ↦ (e, full-All xs (ground (arith, e, h)))
    | inr e ↦ absurd (ground (arith, e, h, length-keep xs))
  ]

module _ {Float : Type 0} (floats : Floats Float) (laws : FloatLaws floats) where
  -- A score that does not exceed a whole number.
  abbrev pub AtMost : ℕ → Float → Type 0
  AtMost k score = floats.less (floats.whole k) score ≡ false

  below_next :
      (k j : ℕ) (score : Float)
      → k < j
      → j ≤ 100
      → AtMost k score
      → floats.less score (floats.whole j) ≡ true
  below_next k j score lt le h =
      elim (laws.less_split (floats.whole k) score (floats.whole j)
        (laws.less-whole k j (omega arith) le ∙ lt→ltb k j lt)) [
          | inl e ↦ absurd (ground (arith, e, h))
          | inr e ↦ e
        ]

  min_of-AtMost :
      (k : ℕ) (score : Float) → k ≤ 100 → AtMost k (min_of floats score (floats.whole k))
  unfolding min_of
  min_of-AtMost k score le = elim (Bool-cases (floats.less (floats.whole k) score)) [
    | inl e ↦ ground (arith, e, laws.less-whole k k le le)
    | inr e ↦ ground (arith, e)
  ]

  clip-below :
      (k j : ℕ) (score : Float)
      → k < j
      → j ≤ 100
      → AtMost k score
      → floats.less (clip floats score) (floats.whole j) ≡ true
  unfolding clip min_of max_of
  clip-below k j score lt le h = elim (Bool-cases (floats.less (floats.whole 0) score)) [
    | inl e ↦ ground (
      arith,
      e,
      below_next k 100 score (omega arith) (omega arith) h,
      below_next k j score lt le h,
    )
    | inr e ↦ ground (
      arith,
      e,
      below_next k 100 score (omega arith) (omega arith) h,
      laws.less-whole 0 j (omega arith) le,
    )
  ]

  state_of-below :
      (score : Float)
      → floats.less score (floats.whole 90) ≡ true
      → state_of floats score ≡ ready
      → ⊥
  unfolding state_of
  state_of-below score h e = elim (Bool-cases (floats.less score (floats.whole 70))) [
    | inl f ↦ ground (arith, h, e, f)
    | inr f ↦ ground (arith, h, e, f)
  ]

  add_drill-AtMost :
      (passed : Bool) (score : Float) → AtMost 79 score → AtMost 89 (add_drill floats passed score)
  unfolding add_drill
  add_drill-AtMost false score h = elim (Bool-cases (floats.less (floats.whole 89) score)) [
    | inl e ↦ elim (laws.less_split (floats.whole 89) (floats.whole 79) score e) [
      | inl f ↦ ground (arith, f, laws.less-whole 89 79 (omega arith) (omega arith))
      | inr f ↦ ground (arith, f, h)
    ]
    | inr e ↦ e
  ]
  add_drill-AtMost true score h =
      elim (Bool-cases (floats.less (floats.whole 89) (floats.add score (floats.whole 10)))) [
        | inl e ↦ absurd (raised e)
        | inr e ↦ e
      ]
    where
      raised : floats.less (floats.whole 89) (floats.add score (floats.whole 10)) ≡ true → ⊥
      raised e =
          let moved =
            subst (λ x. floats.less x (floats.add score (floats.whole 10)) ≡ true)
              (sym (laws.add-whole 79 10 (omega arith))) e in
          ground (arith, h, laws.less-add (floats.whole 79) score (floats.whole 10) moved)

  -- A required backup that is not fresh rules out the state READY.
  pub closed-unready :
      (score : Float) → state_of floats (clip floats (cap_closed floats true score)) ≡ ready → ⊥
  unfolding cap_closed
  closed-unready score e =
      state_of-below (clip floats (min_of floats score (floats.whole 49)))
        (clip-below 49 90 (min_of floats score (floats.whole 49)) (omega arith) (omega arith)
          (min_of-AtMost 49 score (omega arith)))
        e

  add_health-AtMost :
      (applicable : List HealthCheckStatus) (score : Float)
      → ltb (healthy_count applicable) (length applicable) ≡ true
      → AtMost 79 (add_health floats applicable score)
  unfolding add_health
  add_health-AtMost [] score h = absurd (ground (arith, h))
  add_health-AtMost (c ∷ rest) score h =
      subst (λ b. AtMost 79 (if b then min_of floats raised (floats.whole 79) else raised)) (sym h)
        (min_of-AtMost 79 raised (omega arith))
    where
      raised : Float
      raised = floats.add score (
          floats.mul (floats.whole 15)
            (floats.ratio (healthy_count (c ∷ rest)) (length (c ∷ rest))))

  -- So does an applicable health check that is not healthy, whatever the last drill.
  pub unhealthy-unready :
      (applicable : List HealthCheckStatus) (passed : Bool) (score : Float)
      → ltb (healthy_count applicable) (length applicable) ≡ true
      → state_of floats (clip floats (add_drill floats passed (add_health floats applicable score)))
        ≡ ready
      → ⊥
  unhealthy-unready applicable passed score h e =
      let raised = add_health floats applicable score in
      state_of-below (clip floats (add_drill floats passed raised))
        (clip-below 89 90 (add_drill floats passed raised) (omega arith) (omega arith)
          (add_drill-AtMost passed raised (add_health-AtMost applicable score h)))
        e
