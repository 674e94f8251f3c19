-- ===== src/Locks/Contract.antt =====
-- python/apexquant-redis/src/apexquant-redis/lock.py
-- Mutual exclusion, and the contract of the lock.
use lord_hermes.Common.{
  ℕ, ◌+◌, ◌<◌, ◌≡◌, refl, sym, ap, ◌∙◌, subst, Bool, true, false, List, [], ◌∷◌, Option, none, some,
  String, ◌==◌, string_eq, get, arith, ltb, Bool-cases, Option-cases, inl, inr, ◌⊎◌,
}
use lord_hermes.Locks.Server.{Entry, held}
use lord_hermes.Locks.Client.{heard_set, heard_unlock}
use lord_hermes.Locks.System.{
  System, Seat, Reply, set_reply, unlock_reply, Event, joins, passes, acquires, releases, hears,
  write, step, run, new_system, Holds, Claims, IsSound, Allowed, stays, lapses, grants, frees,
  abstract_state,
}
use lord_hermes.Locks.Turns.{
  joins-IsSound, passes-IsSound, write-IsSound, held_self, granted, granted_entry, refused,
  unlocked, acquires-cases, releases-cases, hears-cases,
}

clash : {x : Entry} → ◌≡◌ {A = Option Entry} none (some x) → ⊥
clash h = cc h

inner : {x y : Entry} → ◌≡◌ {A = Option Entry} (some x) (some y) → x ≡ y
inner h = cc h

-- A seat that waits for another reply claims nothing.
no_claim :
    (system : System) (seat : Seat) (reply : Reply)
    → seat.reply ≡ some reply
    → (reply ≡ set_reply true → ⊥)
    → Claims system seat
    → ⊥
no_claim system seat reply waits other (lasts, inl (holds, idle)) = cc (waits, idle)
no_claim system seat reply waits other (lasts, inr granted_it) = other (cc (waits, granted_it))

module _ (t : String) (system : System) (seat : Seat) (mine : get t system.locks ≡ some seat)
    (sound : IsSound system) where
  own : seat.lock.token ≡ t
  own = (sound t seat mine).0

  acquires-IsSound : IsSound (step (acquires t) system)
  unfolding held
  acquires-IsSound =
      acquires-cases t system seat mine IsSound sound
        (λ free.
          write-IsSound t system (some (granted_entry t system seat mine))
            (granted t system seat mine) own (λ c. lasts c.0)
            (λ u until differs h. absurd (clash (sym free ∙ h))) sound)
        (λ x taken.
          write-IsSound t system (some x) (refused t system seat mine) own
            (λ c.
              absurd
                (no_claim system (refused t system seat mine) (set_reply false) refl (λ e. cc e) c))
            (λ u until differs h. held_self t system x taken ∙ sym taken ∙ h) sound)
    where
      lasts :
          system.now < system.now + seat.lock.px
          → held system.now (some (granted_entry t system seat mine))
            ≡ some (record { token = t; expires_at = system.now + seat.lock.px })
      lasts h = ground (arith, h, own)

  unlocked-IsSound :
      (key : Option Entry) (result : Bool)
      → ((u : String) (until : ℕ)
          → (t == u) ≡ false
          → held system.now system.key ≡ some (record { token = u; expires_at = until })
          → held system.now key ≡ some (record { token = u; expires_at = until }))
      → IsSound (write t key (unlocked t system seat mine result) system)
  unlocked-IsSound key result others =
      write-IsSound t system key (unlocked t system seat mine result) own
        (λ c. absurd (
          no_claim system (unlocked t system seat mine result) (unlock_reply result) refl
            (λ e. cc e) c))
        others sound

  releases-IsSound : IsSound (step (releases t) system)
  releases-IsSound =
      releases-cases t system seat mine IsSound sound
        (λ free. unlocked-IsSound none false (λ u until differs h. absurd (clash (sym free ∙ h))))
        (λ x taken same. unlocked-IsSound none true (λ u until differs h. absurd (
          apart u differs (
            sym (
              sym (ap (λ y. y.token) (inner (sym taken ∙ h)))
              ∙ (string_eq.beq_iff x.token seat.lock.token).0 same
              ∙ own)))))
        (λ x taken.
          unlocked-IsSound (some x) false
            (λ u until differs h. held_self t system x taken ∙ sym taken ∙ h))
    where
      apart : (u : String) → (t == u) ≡ false → t ≡ u → ⊥
      apart u differs same = ground (arith, differs, (string_eq.beq_iff t u).1 same)

  hears-IsSound : IsSound (step (hears t) system)
  hears-IsSound =
      hears-cases t system seat mine IsSound sound
        (λ result waits.
          write-IsSound t system system.key
            (record seat { lock = heard_set result seat.lock; reply = none }) own
            (λ c. (sound t seat mine).1 (c.0, inr (waits ∙ came c.1))) (λ u until differs h. h)
            sound)
        (write-IsSound t system system.key
          (record seat { lock = heard_unlock seat.lock; reply = none }) own
          (λ c. absurd (nothing c.1)) (λ u until differs h. h) sound)
    where
      came :
          {result : Bool}
          → ((result ≡ true) × (◌≡◌ {A = Option Reply} none none)) ⊎ (none ≡ some (set_reply true))
          → some (set_reply result) ≡ some (set_reply true)
      came (inl (e, _)) = ap (λ b. some (set_reply b)) e
      came (inr e) = absurd (cc e)

      nothing :
          ((false ≡ true) × (◌≡◌ {A = Option Reply} none none)) ⊎ (none ≡ some (set_reply true)) → ⊥
      nothing (inl (e, _)) = cc e
      nothing (inr e) = cc e

step-IsSound : (event : Event) (system : System) → IsSound system → IsSound (step event system)
unfolding step
step-IsSound (joins t px delay) system sound = joins-IsSound t system px delay sound
step-IsSound (passes d) system sound = passes-IsSound d system sound
step-IsSound (acquires t) system sound = elim (Option-cases (get t system.locks)) [
  | inl e ↦ subst IsSound (unknown e) sound
  | inr (seat, e) ↦ acquires-IsSound t system seat e sound
]
  where
    unknown : get t system.locks ≡ none → system ≡ step (acquires t) system
    unknown e = rw e refl
step-IsSound (releases t) system sound = elim (Option-cases (get t system.locks)) [
  | inl e ↦ subst IsSound (unknown e) sound
  | inr (seat, e) ↦ releases-IsSound t system seat e sound
]
  where
    unknown : get t system.locks ≡ none → system ≡ step (releases t) system
    unknown e = rw e refl
step-IsSound (hears t) system sound = elim (Option-cases (get t system.locks)) [
  | inl e ↦ subst IsSound (unknown e) sound
  | inr (seat, e) ↦ hears-IsSound t system seat e sound
]
  where
    unknown : get t system.locks ≡ none → system ≡ step (hears t) system
    unknown e = rw e refl

new_system-IsSound : IsSound new_system
unfolding get
new_system-IsSound t l found = absurd (cc found)

run-IsSound : (events : List Event) (system : System) → IsSound system → IsSound (run events system)
unfolding run
run-IsSound [] system sound = sound
run-IsSound (event ∷ events) system sound =
    run-IsSound events (step event system) (step-IsSound event system sound)

-- Whatever clients join and the clients and the clock do, in any order, the other clients also
-- between a server's step and the client's hearing of it: two locks that both count themselves the
-- holder within their lease, neither in the middle of a call, are one lock.
pub mutual_exclusion :
    (events : List Event) (t u : String) (l k : Seat)
    → get t (run events new_system).locks ≡ some l
    → get u (run events new_system).locks ≡ some k
    → Holds (run events new_system) l
    → Holds (run events new_system) k
    → t ≡ u
mutual_exclusion events t u l k mine theirs (h, idle, lasts) (h2, idle2, lasts2) =
    let after = run-IsSound events new_system new_system-IsSound in
    same_token (
      sym ((after t l mine).1 (lasts, inl (h, idle)))
      ∙ (after u k theirs).1 (lasts2, inl (h2, idle2)))
  where
    same_token :
        ◌≡◌ {A = Option Entry}
          (some (record { token = t; expires_at = l.until }))
          (some (record { token = u; expires_at = k.until }))
        → t ≡ u
    same_token h = cc h

-- A step of the contract, between states that are computed otherwise.
between :
    {event : Event} {a b c d : Option Entry} → a ≡ c → b ≡ d → Allowed event c d → Allowed event a b
between {event} {a} {b} {c} {d} p q h =
    subst (λ x. Allowed event x b) (sym p) (subst (λ y. Allowed event c y) (sym q) h)

passes-Allowed :
    (d now : ℕ) (key : Option Entry) → Allowed (passes d) (held now key) (held (now + d) key)
unfolding held
passes-Allowed d now none = stays (passes d) none
passes-Allowed d now (some x) = elim (Bool-cases (ltb now x.expires_at)) [
  | inr over ↦ between (rw over refl) (later over) (stays (passes d) none)
  | inl early ↦ elim (Bool-cases (ltb (now + d) x.expires_at)) [
    | inl still ↦ between (rw early refl) (rw still refl) (stays (passes d) (some x))
    | inr ends ↦ between (rw early refl) (rw ends refl) (lapses d x)
  ]
]
  where
    later : ltb now x.expires_at ≡ false → held (now + d) (some x) ≡ none
    later h = ground (arith, h)

grants-Allowed :
    (t token : String) (now until : ℕ) (before : Option Entry)
    → before ≡ none
    → token ≡ t
    → Allowed (acquires t) before (held now (some (record { token = token; expires_at = until })))
unfolding held
grants-Allowed t token now until before free own = elim (Bool-cases (ltb now until)) [
  | inl lasts ↦
      between free (named lasts ∙ ap (λ x. some (record { token = x; expires_at = until })) own)
        (grants t until)
  | inr none_at_all ↦ between free (void none_at_all) (stays (acquires t) none)
]
  where
    named :
        ltb now until ≡ true
        → held now (some (record { token = token; expires_at = until }))
          ≡ some (record { token = token; expires_at = until })
    named h = rw h refl

    void :
        ltb now until ≡ false
        → held now (some (record { token = token; expires_at = until })) ≡ none
    void h = rw h refl

sound_step-Allowed :
    (event : Event) (system : System)
    → IsSound system
    → Allowed event (abstract_state system) (abstract_state (step event system))
unfolding step held
sound_step-Allowed (joins t px delay) system sound =
    stays (joins t px delay) (abstract_state system)
sound_step-Allowed (passes d) system sound = passes-Allowed d system.now system.key
sound_step-Allowed (acquires t) system sound = elim (Option-cases (get t system.locks)) [
  | inl e ↦ between refl (unknown e) (stays (acquires t) (abstract_state system))
  | inr (seat, e) ↦
      acquires-cases t system seat e
        (λ s. Allowed (acquires t) (abstract_state system) (abstract_state s))
        (stays (acquires t) (abstract_state system))
        (λ free.
          grants-Allowed t seat.lock.token system.now (system.now + seat.lock.px)
            (abstract_state system) free (sound t seat e).0)
        (λ x taken.
          between refl (held_self t system x taken ∙ sym taken)
            (stays (acquires t) (abstract_state system)))
]
  where
    unknown :
        get t system.locks ≡ none
        → abstract_state (step (acquires t) system) ≡ abstract_state system
    unknown e = rw e refl
sound_step-Allowed (releases t) system sound = elim (Option-cases (get t system.locks)) [
  | inl e ↦ between refl (unknown e) (stays (releases t) (abstract_state system))
  | inr (seat, e) ↦
      releases-cases t system seat e
        (λ s. Allowed (releases t) (abstract_state system) (abstract_state s))
        (stays (releases t) (abstract_state system))
        (λ free. between free refl (stays (releases t) none))
        (λ x taken same. between taken refl (
          subst (λ n. Allowed (releases n) (some x) none)
            ((string_eq.beq_iff x.token seat.lock.token).0 same ∙ (sound t seat e).0) (frees x)))
        (λ x taken.
          between refl (held_self t system x taken ∙ sym taken)
            (stays (releases t) (abstract_state system)))
]
  where
    unknown :
        get t system.locks ≡ none
        → abstract_state (step (releases t) system) ≡ abstract_state system
    unknown e = rw e refl
sound_step-Allowed (hears t) system sound = elim (Option-cases (get t system.locks)) [
  | inl e ↦ between refl (unknown e) (stays (hears t) (abstract_state system))
  | inr (seat, e) ↦
      hears-cases t system seat e
        (λ s. Allowed (hears t) (abstract_state system) (abstract_state s))
        (stays (hears t) (abstract_state system))
        (λ result waits. stays (hears t) (abstract_state system))
        (stays (hears t) (abstract_state system))
]
  where
    unknown :
        get t system.locks ≡ none → abstract_state (step (hears t) system) ≡ abstract_state system
    unknown e = rw e refl

-- Each step, from any state that the system comes to, is a step of the contract on what the server
-- holds: only a free lock is granted, only its holder gives it back, only time takes it away.
pub step-Allowed :
    (events : List Event) (event : Event)
    → let system = run events new_system in
      Allowed event (abstract_state system) (abstract_state (step event system))
step-Allowed events event =
    sound_step-Allowed event (run events new_system)
      (run-IsSound events new_system new_system-IsSound)
