-- ===== src/Flags/Provider.antt =====
-- python/apexquant-flags/src/apexquant-flags/provider.py. `is` compares objects: a snapshot carries
-- an `identity`, which stands for the object. The clock's reading is an argument.
use lord_hermes.Common.{
  ℕ, ◌-◌, String, Bool, List, Option, none, some, ◌==◌, nat_eq, leb, get, if◌then◌else◌, string_eq,
}
use lord_hermes.Flags.Model.{CompiledFlag, EvaluationContext, staleness_limit_ms}
use lord_hermes.Flags.Evaluator.{evaluate, resolve}

pub data DegradationState : Type 0 where
  fresh fail_value baked_defaults : DegradationState

pub record ResolvedFlag : Type 0 where
  pub enabled : Bool
  pub reason : String
  pub degradation : DegradationState
  pub generation : ℕ

pub record Snapshot : Type 0 where
  pub identity : ℕ
  pub generation : ℕ
  pub fetched_at_epoch_ms : ℕ
  pub flags : List (String × CompiledFlag)

pub record FlagProvider : Type 0 where
  pub entity_priority : List String
  pub baked : Snapshot
  pub current : Snapshot

unfoldable pub new_provider : List String → Snapshot → FlagProvider
new_provider entity_priority baked = record {
  entity_priority = entity_priority;
  baked = baked;
  current = baked;
}

unfoldable pub refresh : FlagProvider → Snapshot → FlagProvider
refresh provider snapshot = record provider { current = snapshot }

unfoldable pub pin : FlagProvider → Snapshot
pin provider = provider.current

abbrev pub chosen : FlagProvider → Option Snapshot → Snapshot
chosen provider none = provider.current
chosen provider (some snapshot) = snapshot

module _ (xxh64 : String → ℕ → ℕ) where
  unfoldable pub resolve_flag :
      FlagProvider
      → Snapshot
      → EvaluationContext
      → ℕ
      → DegradationState
      → CompiledFlag
      → ResolvedFlag
  resolve_flag provider snap ctx now degradation flag =
      let outcome = evaluate xxh64 flag ctx provider.entity_priority now in
      record {
        enabled = resolve outcome flag.fail_value;
        reason = outcome.reason;
        degradation = degradation;
        generation = snap.generation;
      }

  -- `max(0, now - fetched)` is subtraction that stops at 0.
  unfoldable pub resolve_at :
      FlagProvider → Snapshot → EvaluationContext → ℕ → CompiledFlag → ResolvedFlag
  unfolding resolve_flag
  resolve_at provider snap ctx now flag =
      if snap.identity == provider.baked.identity
      then resolve_flag provider snap ctx now baked_defaults flag
      else if leb (now - snap.fetched_at_epoch_ms) (staleness_limit_ms flag.flag_class)
      then resolve_flag provider snap ctx now fresh flag
      else record {
        enabled = flag.fail_value;
        reason = "snapshot_stale_beyond_threshold";
        degradation = fail_value;
        generation = snap.generation;
      }

  unfoldable pub evaluate_flag :
      FlagProvider → String → EvaluationContext → Option Snapshot → ℕ → Option ResolvedFlag
  evaluate_flag provider flag_key ctx snapshot now =
      let snap = chosen provider snapshot in
      elim (get flag_key snap.flags) [
        | none ↦ none
        | some flag ↦ some (resolve_at provider snap ctx now flag)
      ]
