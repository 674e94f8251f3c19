-- ===== src/Flags/Examples.antt =====
-- python/apexquant-flags/src/apexquant-flags
-- The theorems on the flags at concrete flags. The hash of the examples is constant.
use lord_hermes.Common.{
  ℕ, ◌≡◌, refl, String, true, false, List, [], ◌∷◌, none, some, arith, get, put, ◌↔◌, ◌⊎◌,
  string_eq,
}
use lord_hermes.Flags.Model.{
  CompiledFlag, EvaluationContext, active, percentage, safety_critical, FlagStatus-discrete,
}
use lord_hermes.Flags.Evaluator.{
  enabled, evaluate, entity_verdict, type_verdict, percentage_verdict, closing_reason,
  select_bucketing_entity, resolve, in_set,
}
use lord_hermes.Flags.Bucketing.{rollout_monotone}
use lord_hermes.Flags.Precedence.{IsOpen, Grants, enabled_iff}
use lord_hermes.Flags.Provider.{
  FlagProvider, Snapshot, ResolvedFlag, evaluate_flag, resolve_at, baked_defaults,
}
use lord_hermes.Flags.Degradation.{IsFaithful, evaluate_flag-IsFaithful}

abbrev hash : String → ℕ → ℕ
hash text seed = 17

abbrev flag : CompiledFlag
flag = record {
  flag_key = "f";
  status = active;
  flag_type = percentage;
  flag_class = safety_critical;
  bool_value = false;
  rollout_bps = 20;
  allowed = [];
  denied = "mallory" ∷ [];
  environments = [];
  fail_value = false;
  generation = 1;
  expires_at_epoch_ms = some 90;
}

abbrev ctx : EvaluationContext
ctx = record { environment = "paper"; attributes = ("user", "") ∷ ("user", "ann") ∷ [] }

abbrev priority : List String
priority = "account" ∷ "user" ∷ []

ann_gets_it : (evaluate hash flag ctx priority 50).kind ≡ enabled
unfolding evaluate closing_reason entity_verdict type_verdict percentage_verdict
    select_bucketing_entity FlagStatus-discrete get put
ann_gets_it = refl

rollout_monotone_example :
    (evaluate hash (record flag { rollout_bps = 30 }) ctx priority 50).kind ≡ enabled
rollout_monotone_example = rollout_monotone hash flag ctx priority 50 30 (omega arith) ann_gets_it

enabled_iff_example :
    let entity = select_bucketing_entity ctx.attributes priority in
    ((evaluate hash flag ctx priority 50).kind ≡ enabled) ↔ (
      IsOpen flag ctx 50
      × (in_set entity flag.denied ≡ false)
      × ((in_set entity flag.allowed ≡ true) ⊎ Grants hash flag flag.flag_type entity))
enabled_iff_example = enabled_iff hash flag ctx priority 50

abbrev snapshot : Snapshot
snapshot = record {
  identity = 1;
  generation = 4;
  fetched_at_epoch_ms = 10;
  flags = ("f", flag) ∷ [];
}

abbrev provider : FlagProvider
provider = record { entity_priority = priority; baked = snapshot; current = snapshot }

evaluate_flag-IsFaithful_example :
    ((get "f" snapshot.flags ≡ none) × (evaluate_flag hash provider "f" ctx none 50 ≡ none))
    ⊎ ((flag : CompiledFlag) × (r : ResolvedFlag) × (get "f" snapshot.flags ≡ some flag)
        × (evaluate_flag hash provider "f" ctx none 50 ≡ some r)
        × IsFaithful hash provider snapshot ctx 50 flag r)
evaluate_flag-IsFaithful_example = evaluate_flag-IsFaithful hash provider "f" ctx none 50

abbrev on : ResolvedFlag
on = record { enabled = true; reason = "percentage"; degradation = baked_defaults; generation = 4 }

resolves_on : evaluate_flag hash provider "f" ctx none 50 ≡ some on
unfolding evaluate_flag resolve_at evaluate closing_reason entity_verdict type_verdict
    percentage_verdict select_bucketing_entity FlagStatus-discrete get put resolve
resolves_on = refl
