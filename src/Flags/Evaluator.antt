-- ===== src/Flags/Evaluator.antt =====
-- python/apexquant-flags/src/apexquant-flags/evaluator.py and the bucketing of determinism.py. The
-- hash is the package xxhash: `xxh64 text seed` is its digest of the UTF-8 of a text.
use Prim.Native.String.{◌++◌ as ◌+++◌}
use lord_hermes.Common.{
  ℕ, ◌%◌, String, Bool, true, false, ◌&&◌, not, List, [], ◌∷◌, Option, none, some, ◌==◌, string_eq,
  contains, is_nonempty, is_none, ltb, leb, get, put, if◌then◌else◌,
}
use lord_hermes.Flags.Model.{
  CompiledFlag, EvaluationContext, FlagStatus, draft, retired, FlagType, boolean, percentage,
  allowlist, denylist, flag_status_eq, flag_type_eq,
}

pub data Kind : Type 0 where
  enabled disabled fail_value : Kind

pub record EvaluationOutcome : Type 0 where
  pub kind : Kind
  pub reason : String

resolve_kind : Kind → Bool → Bool
resolve_kind enabled f = true
resolve_kind Kind.disabled f = false
resolve_kind fail_value f = f

unfoldable pub resolve : EvaluationOutcome → Bool → Bool
unfolding resolve_kind
resolve outcome f = resolve_kind outcome.kind f

abbrev pub fail : String → EvaluationOutcome
fail reason = record { kind = fail_value; reason = reason }

abbrev pub seed : ℕ
seed = 0x9e3779b97f4a7c15

abbrev pub modulus : ℕ
modulus = 10000

-- The values by key: the first one that is not empty.
unfoldable pub fill_lookup :
    List (String × String) → List (String × String) → List (String × String)
fill_lookup [] lookup = lookup
fill_lookup ((key, value) ∷ rest) lookup =
    fill_lookup rest
      (if is_none (get key lookup) && not (value == "") then put key value lookup else lookup)

abbrev pub nonempty : Option String → Option String
nonempty none = none
nonempty (some value) = if value == "" then none else some value

abbrev pub or_else : Option String → Option String → Option String
or_else none other = other
or_else (some value) other = some value

unfoldable pub first_wanted : List String → List (String × String) → Option String
first_wanted [] lookup = none
first_wanted (wanted ∷ rest) lookup =
    or_else (nonempty (get wanted lookup)) (first_wanted rest lookup)

unfoldable pub select_bucketing_entity : List (String × String) → List String → Option String
unfolding fill_lookup first_wanted
select_bucketing_entity attributes priority = first_wanted priority (fill_lookup attributes [])

abbrev pub in_set : Option String → List String → Bool
in_set none members = false
in_set (some entity) members = contains entity members

abbrev pub is_expired : Option ℕ → ℕ → Bool
is_expired none now = false
is_expired (some expiry) now = leb expiry now

-- The early returns of `evaluate`, above the bucketing entity: the reason of the first that is taken.
unfoldable pub closing_reason : CompiledFlag → EvaluationContext → ℕ → Option String
closing_reason flag ctx now =
    if flag.status == retired
    then some "retired"
    else if flag.status == FlagStatus.disabled
    then some "disabled"
    else if flag.status == draft
    then some "draft"
    else if is_nonempty flag.environments && not (contains ctx.environment flag.environments)
    then some "environment_not_targeted"
    else if is_expired flag.expires_at_epoch_ms now
    then some "expired"
    else none

abbrev pub unless_closed : Option String → EvaluationOutcome → EvaluationOutcome
unless_closed none outcome = outcome
unless_closed (some reason) outcome = fail reason

module _ (xxh64 : String → ℕ → ℕ) where
  unfoldable pub bucket_for : String → String → ℕ
  bucket_for flag_key entity = xxh64 (flag_key +++ ":" +++ entity) seed % modulus

  unfoldable pub percentage_verdict : CompiledFlag → Option String → EvaluationOutcome
  unfolding bucket_for
  percentage_verdict flag none = fail "missing_bucketing_entity"
  percentage_verdict flag (some entity) =
      if ltb (bucket_for flag.flag_key entity) flag.rollout_bps
      then record { kind = enabled; reason = "percentage" }
      else record { kind = Kind.disabled; reason = "percentage" }

  -- The dispatch on the type; the four types are all, so the last `return` is never reached.
  unfoldable pub type_verdict : CompiledFlag → FlagType → Option String → EvaluationOutcome
  unfolding percentage_verdict
  type_verdict flag boolean entity =
      if flag.bool_value
      then record { kind = enabled; reason = "boolean" }
      else record { kind = Kind.disabled; reason = "boolean" }
  type_verdict flag allowlist entity = record { kind = Kind.disabled; reason = "not_in_allowlist" }
  type_verdict flag denylist entity = record { kind = enabled; reason = "not_in_denylist" }
  type_verdict flag percentage entity = percentage_verdict flag entity

  -- From the bucketing entity on.
  unfoldable pub entity_verdict : CompiledFlag → Option String → EvaluationOutcome
  unfolding type_verdict
  entity_verdict flag entity =
      if in_set entity flag.denied
      then record { kind = Kind.disabled; reason = "denylisted" }
      else if in_set entity flag.allowed
      then record { kind = enabled; reason = "allowlisted" }
      else type_verdict flag flag.flag_type entity

  unfoldable pub evaluate : CompiledFlag → EvaluationContext → List String → ℕ → EvaluationOutcome
  evaluate flag ctx entity_priority now =
      unless_closed (closing_reason flag ctx now)
        (entity_verdict flag (select_bucketing_entity ctx.attributes entity_priority))
