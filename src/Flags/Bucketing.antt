-- ===== src/Flags/Bucketing.antt =====
-- python/apexquant-flags/src/apexquant-flags/determinism.py
-- Which entity is bucketed, and what a rollout percentage does.
use mathlib.Core.Path.{ap₂}
use lord_hermes.Common.{
  ap, ◌∙◌, ◌⊎◌, ℕ, ◌≤◌, ◌≡◌, refl, String, Bool, true, false, ◌&&◌, not, List, [], ◌∷◌, Option,
  none, some, ◌==◌, string_eq, arith, Bool-cases, inl, inr, is_none, get, put, get-put,
  if◌then◌else◌,
}
use lord_hermes.Flags.Model.{
  CompiledFlag, EvaluationContext, FlagType, boolean, percentage, allowlist, denylist,
  flag_status_eq,
}
use lord_hermes.Flags.Evaluator.{
  Kind, enabled, EvaluationOutcome, nonempty, or_else, fill_lookup, select_bucketing_entity,
  percentage_verdict, type_verdict, entity_verdict, evaluate, modulus, in_set, unless_closed,
  closing_reason,
}

-- The first value of a key that is not empty.
unfoldable pub first_value : String → List (String × String) → Option String
first_value key [] = none
first_value key ((k, value) ∷ rest) =
    if k == key && not (value == "") then some value else first_value key rest

unfoldable pub first_some : (String → Option String) → List String → Option String
first_some f [] = none
first_some f (wanted ∷ rest) = or_else (f wanted) (first_some f rest)

or_else-none : (o : Option String) → o ≡ or_else o none
or_else-none none = refl
or_else-none (some v) = refl

-- No value that is found is empty.
nonempty-first_value :
    (key : String) (attributes : List (String × String))
    → nonempty (first_value key attributes) ≡ first_value key attributes
unfolding first_value
nonempty-first_value key [] = refl
nonempty-first_value key ((k, value) ∷ rest) = ground (arith, nonempty-first_value key rest)

get-fill_lookup :
    (key : String) (attributes lookup : List (String × String))
    → get key (fill_lookup attributes lookup)
      ≡ or_else (get key lookup) (first_value key attributes)
unfolding fill_lookup first_value
get-fill_lookup key [] lookup = or_else-none _
get-fill_lookup key ((k, value) ∷ rest) lookup =
    get-fill_lookup key rest _ ∙ step (Bool-cases (k == key))
  where
    step :
        ((k == key) ≡ true) ⊎ ((k == key) ≡ false)
        → or_else
            (get key
              (if is_none (get k lookup) && not (value == "") then put k value lookup else lookup))
            (first_value key rest)
          ≡ or_else
              (get key lookup)
              (if k == key && not (value == "") then some value else first_value key rest)
    step (inl e) =
        let same : k ≡ key = (string_eq.beq_iff k key).0 e in
        ground (arith, get-put k key value lookup, same)
    step (inr e) = ground (arith, get-put k key value lookup)

-- The entity is the first value that is not empty of the first key, in priority order, that has one.
pub select_bucketing_entity-first_some :
    (attributes : List (String × String)) (priority : List String)
    → select_bucketing_entity attributes priority
      ≡ first_some (λ key. first_value key attributes) priority
unfolding select_bucketing_entity first_some get
select_bucketing_entity-first_some attributes [] = refl
select_bucketing_entity-first_some attributes (wanted ∷ rest) =
    ap₂ or_else
      (ap nonempty (get-fill_lookup wanted attributes []) ∙ nonempty-first_value wanted attributes)
      (select_bucketing_entity-first_some attributes rest)

abbrev IsEnabled : EvaluationOutcome → Type 0
IsEnabled outcome = outcome.kind ≡ enabled

branch :
    (b : Bool) (x x' y y' : EvaluationOutcome)
    → (IsEnabled x → IsEnabled x')
    → (IsEnabled y → IsEnabled y')
    → IsEnabled (if b then x else y)
    → IsEnabled (if b then x' else y')
branch true x x' y y' f g = f
branch false x x' y y' f g = g

unless_closed_monotone :
    (closed : Option String) (x x' : EvaluationOutcome)
    → (IsEnabled x → IsEnabled x')
    → IsEnabled (unless_closed closed x)
    → IsEnabled (unless_closed closed x')
unless_closed_monotone none x x' f = f
unless_closed_monotone (some reason) x x' f = λ e. e

module _ (xxh64 : String → ℕ → ℕ) where
  type_verdict_monotone :
      (flag : CompiledFlag) (more : ℕ) (t : FlagType) (entity : Option String)
      → flag.rollout_bps ≤ more
      → IsEnabled (type_verdict xxh64 flag t entity)
      → IsEnabled (type_verdict xxh64 (record flag { rollout_bps = more }) t entity)
  unfolding type_verdict percentage_verdict
  type_verdict_monotone flag more boolean entity h e = e
  type_verdict_monotone flag more allowlist entity h e = e
  type_verdict_monotone flag more denylist entity h e = e
  type_verdict_monotone flag more percentage none h e = e
  type_verdict_monotone flag more percentage (some entity) h e = ground arith

  entity_verdict_monotone :
      (flag : CompiledFlag) (more : ℕ) (entity : Option String)
      → flag.rollout_bps ≤ more
      → IsEnabled (entity_verdict xxh64 flag entity)
      → IsEnabled (entity_verdict xxh64 (record flag { rollout_bps = more }) entity)
  unfolding entity_verdict
  entity_verdict_monotone flag more entity h =
      branch (in_set entity flag.denied) _ _ _ _ (λ e. e)
        (branch (in_set entity flag.allowed) _ _ _ _ (λ e. e)
          (type_verdict_monotone flag more flag.flag_type entity h))

  -- Raising the rollout of a flag never takes it from anyone who had it.
  pub rollout_monotone :
      (flag : CompiledFlag) (ctx : EvaluationContext) (priority : List String) (now more : ℕ)
      → flag.rollout_bps ≤ more
      → (evaluate xxh64 flag ctx priority now).kind ≡ enabled
      → (evaluate xxh64 (record flag { rollout_bps = more }) ctx priority now).kind ≡ enabled
  unfolding evaluate closing_reason
  rollout_monotone flag ctx priority now more h =
      unless_closed_monotone (closing_reason flag ctx now) _ _
        (entity_verdict_monotone flag more _ h)

  -- At both ends of the range the hash does not matter: a rollout of 10000 reaches every entity, and
  -- a rollout of 0 none.
  pub rollout_ends :
      (flag : CompiledFlag) (entity : String)
      → (modulus ≤ flag.rollout_bps → (percentage_verdict xxh64 flag (some entity)).kind ≡ enabled)
        × (flag.rollout_bps ≡ 0
            → (percentage_verdict xxh64 flag (some entity)).kind ≡ Kind.disabled)
  unfolding percentage_verdict
  rollout_ends flag entity = (λ h. ground arith, λ h. ground arith)
