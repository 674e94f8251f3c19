-- ===== src/Flags/Degradation.antt =====
-- python/apexquant-flags/src/apexquant-flags/provider.py
-- The degradation ladder of provider.py.
use lord_hermes.Common.{
  ℕ, ◌-◌, ◌<◌, ◌≡◌, ◌≢◌, refl, ◌⊎◌, inl, inr, String, true, false, List, [], ◌∷◌, Option, none,
  some, ◌==◌, nat_eq, leb, get, arith, subst, Bool-cases, Option-cases, string_eq,
}
use lord_hermes.Flags.Model.{CompiledFlag, EvaluationContext, staleness_limit_ms}
use lord_hermes.Flags.Evaluator.{evaluate, resolve, closing_reason}
use lord_hermes.Flags.Precedence.{IsOpen, closing_reason_iff, closed_resolves_to_fail_value}
use lord_hermes.Flags.Provider.{
  DegradationState, fresh, fail_value, baked_defaults, ResolvedFlag, Snapshot, FlagProvider, chosen,
  refresh, pin, resolve_flag, resolve_at, evaluate_flag,
}

-- The snapshot is not the baked one, and is older than the flag's class allows.
pub record IsStale (provider : FlagProvider) (snap : Snapshot) (flag : CompiledFlag) (now : ℕ)
    : Type 0 where
  pub fetched : snap.identity ≢ provider.baked.identity
  pub old : staleness_limit_ms flag.flag_class < now - snap.fetched_at_epoch_ms

pub refresh_all : FlagProvider → List Snapshot → FlagProvider
refresh_all provider [] = provider
refresh_all provider (s ∷ rest) = refresh_all (refresh provider s) rest

module _ (xxh64 : String → ℕ → ℕ) where
  -- What a resolved flag says of itself is what it is.
  pub record IsFaithful (provider : FlagProvider) (snap : Snapshot) (ctx : EvaluationContext)
      (now : ℕ) (flag : CompiledFlag) (r : ResolvedFlag) : Type 0 where
    pub stale :
        IsStale provider snap flag now
        → (r.degradation ≡ fail_value) × (r.enabled ≡ flag.fail_value)
    pub trusted :
        ¬ IsStale provider snap flag now
        → (r.degradation ≢ fail_value)
          × (r.enabled
              ≡ resolve (evaluate xxh64 flag ctx provider.entity_priority now) flag.fail_value)
    pub generation : r.generation ≡ snap.generation

  trust :
      (provider : FlagProvider) (snap : Snapshot) (ctx : EvaluationContext) (now : ℕ)
      (flag : CompiledFlag) (d : DegradationState)
      → d ≢ fail_value
      → ¬ IsStale provider snap flag now
      → IsFaithful provider snap ctx now flag (resolve_flag xxh64 provider snap ctx now d flag)
  unfolding resolve_flag
  trust provider snap ctx now flag d good n = record {
    stale = λ s. absurd (n s);
    trusted = λ _. (good, refl);
    generation = refl;
  }

  resolve_at-IsFaithful :
      (provider : FlagProvider) (snap : Snapshot) (ctx : EvaluationContext) (now : ℕ)
      (flag : CompiledFlag)
      → IsFaithful provider snap ctx now flag (resolve_at xxh64 provider snap ctx now flag)
  unfolding resolve_at
  resolve_at-IsFaithful provider snap ctx now flag =
      elim (Bool-cases (snap.identity == provider.baked.identity)) [
        | inl e ↦
            rw (e, resolve_at)
              (trust provider snap ctx now flag baked_defaults (λ q. cc)
                (λ s. s.fetched ((nat_eq.beq_iff _ _).0 e)))
        | inr e ↦
            elim (Bool-cases
              (leb (now - snap.fetched_at_epoch_ms) (staleness_limit_ms flag.flag_class))) [
                | inl k ↦
                    rw (e, resolve_at)
                      (rw k (trust provider snap ctx now flag fresh (λ q. cc) (λ s. young k s.old)))
                | inr k ↦
                    rw (e, resolve_at)
                      (rw k (record {
                        stale = λ _. (refl, refl);
                        trusted = λ n. absurd (n (record { fetched = apart e; old = older k }));
                        generation = refl;
                      }))
              ]
      ]
    where
      young :
          leb (now - snap.fetched_at_epoch_ms) (staleness_limit_ms flag.flag_class) ≡ true
          → staleness_limit_ms flag.flag_class < now - snap.fetched_at_epoch_ms
          → ⊥
      young k h = ground arith

      older :
          leb (now - snap.fetched_at_epoch_ms) (staleness_limit_ms flag.flag_class) ≡ false
          → staleness_limit_ms flag.flag_class < now - snap.fetched_at_epoch_ms
      older k = ground arith

      apart :
          (snap.identity == provider.baked.identity) ≡ false
          → snap.identity ≢ provider.baked.identity
      apart e q = ground arith

  -- A key of the snapshot resolves: to the fail value, and said to be so, exactly while the snapshot
  -- is neither the baked one nor young enough for the flag's class, and to the evaluator's verdict
  -- otherwise; a key that the snapshot lacks resolves to nothing.
  pub evaluate_flag-IsFaithful :
      (provider : FlagProvider) (key : String) (ctx : EvaluationContext)
      (snapshot : Option Snapshot) (now : ℕ)
      → let snap = chosen provider snapshot in
        ((get key snap.flags ≡ none) × (evaluate_flag xxh64 provider key ctx snapshot now ≡ none))
        ⊎ ((flag : CompiledFlag) × (r : ResolvedFlag) × (get key snap.flags ≡ some flag)
            × (evaluate_flag xxh64 provider key ctx snapshot now ≡ some r)
            × IsFaithful provider snap ctx now flag r)
  unfolding evaluate_flag
  evaluate_flag-IsFaithful provider key ctx snapshot now =
      elim (Option-cases (get key (chosen provider snapshot).flags)) [
        | inl e ↦ inl (e, rw (e, evaluate_flag))
        | inr (flag, e) ↦ inr (
          flag,
          resolve_at xxh64 provider (chosen provider snapshot) ctx now flag,
          e,
          rw (e, evaluate_flag),
          resolve_at-IsFaithful provider (chosen provider snapshot) ctx now flag,
        )
      ]

  -- A flag with fail value false is on only if it is open, and its snapshot is the baked one or is
  -- young enough for the flag's class.
  pub enabled-IsOpen :
      (provider : FlagProvider) (key : String) (ctx : EvaluationContext)
      (snapshot : Option Snapshot) (now : ℕ) (flag : CompiledFlag) (r : ResolvedFlag)
      → get key (chosen provider snapshot).flags ≡ some flag
      → evaluate_flag xxh64 provider key ctx snapshot now ≡ some r
      → flag.fail_value ≡ false
      → r.enabled ≡ true
      → IsOpen flag ctx now × ¬ IsStale provider (chosen provider snapshot) flag now
  unfolding evaluate_flag
  enabled-IsOpen provider key ctx snapshot now flag r there result closed on =
      (opened (Option-cases (closing_reason flag ctx now)), not_stale)
    where
      snap : Snapshot
      snap = chosen provider snapshot

      resolved : some (resolve_at xxh64 provider snap ctx now flag) ≡ some r
      resolved = rw (there, evaluate_flag) at result

      faithful : IsFaithful provider snap ctx now flag r
      faithful =
          subst (IsFaithful provider snap ctx now flag) (cc resolved)
            (resolve_at-IsFaithful provider snap ctx now flag)

      not_stale : ¬ IsStale provider snap flag now
      not_stale s = cc (on, closed, (faithful.stale s).1)

      refused : ¬ ¬ IsOpen flag ctx now
      refused k = cc (
        on,
        closed,
        (faithful.trusted not_stale).1,
        closed_resolves_to_fail_value xxh64 flag ctx provider.entity_priority now flag.fail_value k,
      )

      opened :
          (closing_reason flag ctx now ≡ none)
            ⊎ ((reason : String) × (closing_reason flag ctx now ≡ some reason))
          → IsOpen flag ctx now
      opened (inl e) = (closing_reason_iff flag ctx now).0 e
      opened (inr (reason, e)) =
          absurd (refused (λ o. absurd (cc (e, (closing_reason_iff flag ctx now).1 o))))

  explicit-refresh_all :
      (provider : FlagProvider) (key : String) (ctx : EvaluationContext) (snap : Snapshot) (now : ℕ)
      (later : List Snapshot)
      → evaluate_flag xxh64 (refresh_all provider later) key ctx (some snap) now
        ≡ evaluate_flag xxh64 provider key ctx (some snap) now
  unfolding evaluate_flag resolve_at refresh_all refresh
  explicit-refresh_all provider key ctx snap now [] = refl
  explicit-refresh_all provider key ctx snap now (s ∷ rest) =
      explicit-refresh_all (record provider { current = s }) key ctx snap now rest

  -- A unit of work that has pinned a snapshot is answered from it, however often the provider is
  -- refreshed meanwhile.
  pub pin-refresh_all :
      (provider : FlagProvider) (key : String) (ctx : EvaluationContext) (now : ℕ)
      (later : List Snapshot)
      → evaluate_flag xxh64 (refresh_all provider later) key ctx (some (pin provider)) now
        ≡ evaluate_flag xxh64 provider key ctx none now
  unfolding evaluate_flag pin
  pin-refresh_all provider key ctx now later =
      explicit-refresh_all provider key ctx provider.current now later
