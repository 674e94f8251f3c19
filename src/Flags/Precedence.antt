-- ===== src/Flags/Precedence.antt =====
-- python/apexquant-flags/src/apexquant-flags/evaluator.py
-- The precedence that evaluator.py states: lifecycle and targeting first, then the denylist, then
-- the allowlist, then the type.
use lord_hermes.Common.{
  ℕ, ◌<◌, ◌≡◌, refl, ◌⊎◌, inl, inr, ◌↔◌, String, Bool, true, false, ◌&&◌, not, List, [], ◌∷◌,
  Option, none, some, ◌==◌, string_eq, contains, is_nonempty, leb, arith, if◌then◌else◌, lt→ltb,
  Option-cases,
}
use lord_hermes.Flags.Model.{
  CompiledFlag, EvaluationContext, FlagStatus, draft, active, retired, FlagType, boolean,
  percentage, allowlist, denylist, flag_status_eq, FlagStatus-discrete,
}
use lord_hermes.Flags.Evaluator.{
  Kind, enabled, EvaluationOutcome, in_set, is_expired, closing_reason, evaluate, entity_verdict,
  type_verdict, percentage_verdict, bucket_for, select_bucketing_entity, resolve,
}

pub record IsOpen (flag : CompiledFlag) (ctx : EvaluationContext) (now : ℕ) : Type 0 where
  pub live : flag.status ≡ active
  pub targeted : (flag.environments ≡ []) ⊎ (contains ctx.environment flag.environments ≡ true)
  pub unexpired : (expiry : ℕ) → flag.expires_at_epoch_ms ≡ some expiry → now < expiry

status_tests : FlagStatus → Bool → Bool → Option String
status_tests s targeted expired =
    if s == retired
    then some "retired"
    else if s == FlagStatus.disabled
    then some "disabled"
    else if s == draft
    then some "draft"
    else if targeted
    then some "environment_not_targeted"
    else if expired
    then some "expired"
    else none

status_tests_iff :
    (s : FlagStatus) (untargeted expired : Bool)
    → (status_tests s untargeted expired ≡ none)
      ↔ ((s ≡ active) × (untargeted ≡ false) × (expired ≡ false))
unfolding status_tests FlagStatus-discrete
status_tests_iff draft u e = (λ h. absurd (cc h), λ h. absurd (cc h.0))
status_tests_iff FlagStatus.disabled u e = (λ h. absurd (cc h), λ h. absurd (cc h.0))
status_tests_iff retired u e = (λ h. absurd (cc h), λ h. absurd (cc h.0))
status_tests_iff active true e = (λ h. absurd (cc h), λ h. absurd (cc h.1))
status_tests_iff active false true = (λ h. absurd (cc h), λ h. absurd (cc h.2))
status_tests_iff active false false = (λ h. (refl, refl, refl), λ h. refl)

not-false : (b : Bool) → not b ≡ false → b ≡ true
not-false true h = refl
not-false false h = cc

targeted_iff :
    (env : String) (environments : List String)
    → ((is_nonempty environments && not (contains env environments)) ≡ false)
      ↔ ((environments ≡ []) ⊎ (contains env environments ≡ true))
targeted_iff env [] = (λ _. inl refl, λ _. refl)
targeted_iff env (x ∷ xs) = (λ h. inr (double h), back)
  where
    double : not (contains env (x ∷ xs)) ≡ false → contains env (x ∷ xs) ≡ true
    double h = not-false _ h

    back : (x ∷ xs ≡ []) ⊎ (contains env (x ∷ xs) ≡ true) → not (contains env (x ∷ xs)) ≡ false
    back (inl e) = absurd (cc e)
    back (inr e) = rw e

unexpired_iff :
    (expires : Option ℕ) (now : ℕ)
    → (is_expired expires now ≡ false) ↔ ((expiry : ℕ) → expires ≡ some expiry → now < expiry)
unexpired_iff none now = (λ _ e h. absurd (cc h), λ _. refl)
unexpired_iff (some t) now = (λ h e q. later h e q, λ f. not_yet (f t refl))
  where
    later : leb t now ≡ false → (e : ℕ) → some t ≡ some e → now < e
    later h e q = ground arith

    not_yet : now < t → leb t now ≡ false
    not_yet h = ground arith

pub closing_reason_iff :
    (flag : CompiledFlag) (ctx : EvaluationContext) (now : ℕ)
    → (closing_reason flag ctx now ≡ none) ↔ IsOpen flag ctx now
unfolding closing_reason status_tests
closing_reason_iff flag ctx now =
    (opens, λ o. tests.1 (o.live, targets.1 o.targeted, times.1 o.unexpired))
  where
    tests : (closing_reason flag ctx now ≡ none) ↔ (
        (flag.status ≡ active)
        × ((is_nonempty flag.environments && not (contains ctx.environment flag.environments))
            ≡ false)
        × (is_expired flag.expires_at_epoch_ms now ≡ false))
    tests = status_tests_iff flag.status _ _

    targets :
        ((is_nonempty flag.environments && not (contains ctx.environment flag.environments))
          ≡ false)
        ↔ ((flag.environments ≡ []) ⊎ (contains ctx.environment flag.environments ≡ true))
    targets = targeted_iff ctx.environment flag.environments

    times :
        (is_expired flag.expires_at_epoch_ms now ≡ false)
        ↔ ((expiry : ℕ) → flag.expires_at_epoch_ms ≡ some expiry → now < expiry)
    times = unexpired_iff flag.expires_at_epoch_ms now

    opens : closing_reason flag ctx now ≡ none → IsOpen flag ctx now
    opens h =
        let t = tests.0 h in
        record { live = t.0; targeted = targets.0 t.1; unexpired = times.0 t.2 }

module _ (xxh64 : String → ℕ → ℕ) where
  -- What the type alone gives an entity.
  abbrev pub Grants : CompiledFlag → FlagType → Option String → Type 0
  Grants flag boolean entity = flag.bool_value ≡ true
  Grants flag allowlist entity = ⊥
  Grants flag denylist entity = Unit
  Grants flag percentage entity =
      (e : String) × (entity ≡ some e) × (bucket_for xxh64 flag.flag_key e < flag.rollout_bps)

  type_verdict_iff :
      (flag : CompiledFlag) (t : FlagType) (entity : Option String)
      → ((type_verdict xxh64 flag t entity).kind ≡ enabled) ↔ Grants flag t entity
  unfolding type_verdict percentage_verdict
  type_verdict_iff flag boolean entity = (λ h. ground arith, λ h. rw h)
  type_verdict_iff flag allowlist entity = (λ h. absurd (cc h), λ h. absurd h)
  type_verdict_iff flag denylist entity = (λ h. tt, λ h. refl)
  type_verdict_iff flag percentage none = (λ h. absurd (cc h), λ h. absurd (cc h.1))
  type_verdict_iff flag percentage (some e) = (λ h. (e, refl, below h), reaches)
    where
      below :
          (percentage_verdict xxh64 flag (some e)).kind ≡ enabled
          → bucket_for xxh64 flag.flag_key e < flag.rollout_bps
      below h = ground arith

      reaches :
          Grants flag percentage (some e) → (percentage_verdict xxh64 flag (some e)).kind ≡ enabled
      reaches (d, q, h) =
          let same : e ≡ d = cc q in
          rw (lt→ltb (bucket_for xxh64 flag.flag_key e) flag.rollout_bps (rw same h))

  by_lists :
      {G : Type 0} (denied allowed : Bool) (outcome : EvaluationOutcome)
      → (outcome.kind ≡ enabled) ↔ G
      → ((if denied
            then record { kind = Kind.disabled; reason = "denylisted" }
            else if allowed
            then record { kind = enabled; reason = "allowlisted" }
            else outcome).kind
          ≡ enabled)
        ↔ ((denied ≡ false) × ((allowed ≡ true) ⊎ G))
  by_lists true a o g = (λ h. absurd (cc h), λ h. absurd (cc h.0))
  by_lists false true o g = (λ h. (refl, inl refl), λ h. refl)
  by_lists {G} false false o g = (λ h. (refl, inr (g.0 h)), λ h. from h.1)
    where
      from : (false ≡ true) ⊎ G → o.kind ≡ enabled
      from (inl e) = absurd (cc e)
      from (inr k) = g.1 k

  entity_verdict_iff :
      (flag : CompiledFlag) (entity : Option String)
      → ((entity_verdict xxh64 flag entity).kind ≡ enabled) ↔ (
          (in_set entity flag.denied ≡ false)
          × ((in_set entity flag.allowed ≡ true) ⊎ Grants flag flag.flag_type entity))
  unfolding entity_verdict
  entity_verdict_iff flag entity =
      by_lists (in_set entity flag.denied) (in_set entity flag.allowed) _
        (type_verdict_iff flag flag.flag_type entity)

  -- Exactly who gets a flag: it is active, the environment is targeted, it has not expired, the
  -- entity is not on the denylist, and it is on the allowlist or the flag's type gives it. So the
  -- denylist outweighs the allowlist, and the allowlist the type.
  pub enabled_iff :
      (flag : CompiledFlag) (ctx : EvaluationContext) (priority : List String) (now : ℕ)
      → let entity = select_bucketing_entity ctx.attributes priority in
        ((evaluate xxh64 flag ctx priority now).kind ≡ enabled) ↔ (
          IsOpen flag ctx now
          × (in_set entity flag.denied ≡ false)
          × ((in_set entity flag.allowed ≡ true) ⊎ Grants flag flag.flag_type entity))
  unfolding evaluate
  enabled_iff flag ctx priority now = (forth, back)
    where
      entity : Option String
      entity = select_bucketing_entity ctx.attributes priority

      given : ((entity_verdict xxh64 flag entity).kind ≡ enabled) ↔ (
          (in_set entity flag.denied ≡ false)
          × ((in_set entity flag.allowed ≡ true) ⊎ Grants flag flag.flag_type entity))
      given = entity_verdict_iff flag entity

      forth :
          (evaluate xxh64 flag ctx priority now).kind ≡ enabled
          → IsOpen flag ctx now
            × (in_set entity flag.denied ≡ false)
            × ((in_set entity flag.allowed ≡ true) ⊎ Grants flag flag.flag_type entity)
      forth h = elim (Option-cases (closing_reason flag ctx now)) [
        | inl e ↦ let g = given.0 (rw e at h) in ((closing_reason_iff flag ctx now).0 e, g.0, g.1)
        | inr (reason, e) ↦ absurd (cc (rw e at h))
      ]

      back :
          IsOpen flag ctx now
            × (in_set entity flag.denied ≡ false)
            × ((in_set entity flag.allowed ≡ true) ⊎ Grants flag flag.flag_type entity)
          → (evaluate xxh64 flag ctx priority now).kind ≡ enabled
      back h = rw ((closing_reason_iff flag ctx now).1 h.0) (given.1 (h.1, h.2))

  -- A flag that is not open resolves to its fail value, whoever asks.
  pub closed_resolves_to_fail_value :
      (flag : CompiledFlag) (ctx : EvaluationContext) (priority : List String) (now : ℕ) (f : Bool)
      → ¬ IsOpen flag ctx now
      → resolve (evaluate xxh64 flag ctx priority now) f ≡ f
  unfolding evaluate resolve
  closed_resolves_to_fail_value flag ctx priority now f h =
      elim (Option-cases (closing_reason flag ctx now)) [
        | inl e ↦ absurd (h ((closing_reason_iff flag ctx now).0 e))
        | inr (reason, e) ↦ rw e
      ]
