-- ===== src/Locks/Turns.antt =====
-- python/apexquant-redis/src/apexquant-redis/lock.py
-- The turn of one client, by what it finds.
use lord_hermes.Common.{
  ℕ, ◌+◌, ◌<◌, ◌≡◌, refl, sym, subst, Bool, true, false, List, Option, none, some, String, ◌==◌,
  string_eq, nat_eq, get, put, get-put, arith, Bool-cases, Option-cases, inl, inr, ◌⊎◌,
}
use lord_hermes.Locks.Server.{Entry, held, set_nx, unlock_script}
use lord_hermes.Locks.Client.{new_lock, heard_set, heard_unlock}
use lord_hermes.Locks.System.{
  System, Seat, Reply, set_reply, unlock_reply, joins, passes, acquires, releases, hears, write,
  step, Claims, IsSound,
}

held-later :
    (now d : ℕ) (key : Option Entry) (e : Entry)
    → held now key ≡ some e
    → now + d < e.expires_at
    → held (now + d) key ≡ some e
unfolding held
held-later now d none e h l = absurd (ground (arith, h))
held-later now d (some x) e h l = ground (arith, h)

pub passes-IsSound : (d : ℕ) (system : System) → IsSound system → IsSound (step (passes d) system)
unfolding step
passes-IsSound d system sound t seat found =
    let (own, holder) = sound t seat found in
    (
      own,
      λ h.
          held-later system.now d system.key (record { token = t; expires_at = seat.until })
            (holder (omega (arith, h.0), h.1)) h.0,
    )

-- What stands under a key after a write: the new value, or what stood there.
put-cases :
    {V : Type 0} (t u : String) (v l : V) (d : List (String × V))
    → get u (put t v d) ≡ some l
    → ((u ≡ t) × (l ≡ v)) ⊎ (((t == u) ≡ false) × (get u d ≡ some l))
put-cases t u v l d found = elim (Bool-cases (t == u)) [
  | inl same ↦
      inl (sym ((string_eq.beq_iff t u).0 same), ground (arith, same, found, get-put t u v d))
  | inr other ↦ inr (other, ground (arith, other, found, get-put t u v d))
]

module _ (t : String) (system : System) where
  -- A seat is written, and the key: the seat is sound, and the others keep what they claim.
  pub write-IsSound :
      (key : Option Entry) (seat : Seat)
      → seat.lock.token ≡ t
      → (Claims system seat
          → held system.now key ≡ some (record { token = t; expires_at = seat.until }))
      → ((u : String) (until : ℕ)
          → (t == u) ≡ false
          → held system.now system.key ≡ some (record { token = u; expires_at = until })
          → held system.now key ≡ some (record { token = u; expires_at = until }))
      → IsSound system
      → IsSound (write t key seat system)
  write-IsSound key seat named claims others sound u other found =
      elim (put-cases t u seat other system.locks found) [
        | inr (differs, old) ↦
            let (own, holder) = sound u other old in
            (own, λ h. others u other.until differs (holder h))
        | inl (same, new) ↦
            subst
              (λ s.
                (s.lock.token ≡ u)
                × (Claims (write t key seat system) s
                    → held system.now key ≡ some (record { token = u; expires_at = s.until })))
              (sym new)
              (subst
                (λ n.
                  (seat.lock.token ≡ n)
                  × (Claims system seat
                      → held system.now key ≡ some (record { token = n; expires_at = seat.until })))
                (sym same) (named, claims))
      ]

  pub joins-IsSound : (px delay : ℕ) → IsSound system → IsSound (step (joins t px delay) system)
  unfolding step new_lock
  joins-IsSound px delay sound =
      write-IsSound system.key (record { lock = new_lock t px delay; until = 0; reply = none }) refl
        (λ h. absurd (omega (arith, h.0))) (λ u until differs h. h) sound

  pub held_self :
      (e : Entry) → held system.now system.key ≡ some e → held system.now (some e) ≡ some e
  unfolding held
  held_self e h = by_key system.key h
    where
      by_key : (k : Option Entry) → held system.now k ≡ some e → held system.now (some e) ≡ some e
      by_key none q = absurd (cc q)
      by_key (some x) q = ground (arith, q)

  module _ (seat : Seat) (mine : get t system.locks ≡ some seat) where
    abbrev pub granted_entry : Entry
    granted_entry = record { token = seat.lock.token; expires_at = system.now + seat.lock.px }

    abbrev pub granted : Seat
    granted = record seat { until = system.now + seat.lock.px; reply = some (set_reply true) }

    abbrev pub refused : Seat
    refused = record seat { reply = some (set_reply false) }

    abbrev pub unlocked : Bool → Seat
    unlocked result = record seat { reply = some (unlock_reply result) }

    step-granted :
        seat.reply ≡ none
        → (seat.lock.px == 0) ≡ false
        → held system.now system.key ≡ none
        → step (acquires t) system ≡ write t (some granted_entry) granted system
    unfolding step set_nx
    step-granted idle positive free = rw (mine, idle, positive, free) refl

    step-refused :
        (e : Entry)
        → seat.reply ≡ none
        → (seat.lock.px == 0) ≡ false
        → held system.now system.key ≡ some e
        → step (acquires t) system ≡ write t (some e) refused system
    unfolding step set_nx
    step-refused e idle positive taken = rw (mine, idle, positive, taken) refl

    step-invalid :
        seat.reply ≡ none → (seat.lock.px == 0) ≡ true → step (acquires t) system ≡ system
    unfolding step set_nx
    step-invalid idle invalid = rw (mine, idle, invalid) refl

    step-waits : (r : Reply) → seat.reply ≡ some r → step (acquires t) system ≡ system
    unfolding step
    step-waits r waits = rw (mine, waits) refl

    -- What the turn of a client can be.
    pub acquires-cases :
        (P : System → Type 0)
        → P system
        → (held system.now system.key ≡ none → P (write t (some granted_entry) granted system))
        → ((e : Entry) → held system.now system.key ≡ some e → P (write t (some e) refused system))
        → P (step (acquires t) system)
    acquires-cases P same free taken = elim (Option-cases seat.reply) [
      | inr (r, waits) ↦ subst P (sym (step-waits r waits)) same
      | inl idle ↦ elim (Bool-cases (seat.lock.px == 0)) [
        | inl invalid ↦ subst P (sym (step-invalid idle invalid)) same
        | inr positive ↦ elim (Option-cases (held system.now system.key)) [
          | inl e ↦ subst P (sym (step-granted idle positive e)) (free e)
          | inr (x, e) ↦ subst P (sym (step-refused x idle positive e)) (taken x e)
        ]
      ]
    ]

    release-waits : (r : Reply) → seat.reply ≡ some r → step (releases t) system ≡ system
    unfolding step
    release-waits r waits = rw (mine, waits) refl

    release-idle :
        seat.reply ≡ none → seat.lock.acquired ≡ false → step (releases t) system ≡ system
    unfolding step
    release-idle idle h = rw (mine, idle, h) refl

    release-gone :
        seat.reply ≡ none
        → seat.lock.acquired ≡ true
        → held system.now system.key ≡ none
        → step (releases t) system ≡ write t none (unlocked false) system
    unfolding step unlock_script
    release-gone idle h free = rw (mine, idle, h, free) refl

    release-freed :
        (e : Entry)
        → seat.reply ≡ none
        → seat.lock.acquired ≡ true
        → held system.now system.key ≡ some e
        → (e.token == seat.lock.token) ≡ true
        → step (releases t) system ≡ write t none (unlocked true) system
    unfolding step unlock_script
    release-freed e idle h taken same = rw (mine, idle, h, taken, same) refl

    release-kept :
        (e : Entry)
        → seat.reply ≡ none
        → seat.lock.acquired ≡ true
        → held system.now system.key ≡ some e
        → (e.token == seat.lock.token) ≡ false
        → step (releases t) system ≡ write t (some e) (unlocked false) system
    unfolding step unlock_script
    release-kept e idle h taken other = rw (mine, idle, h, taken, other) refl

    pub releases-cases :
        (P : System → Type 0)
        → P system
        → (held system.now system.key ≡ none → P (write t none (unlocked false) system))
        → ((e : Entry)
            → held system.now system.key ≡ some e
            → (e.token == seat.lock.token) ≡ true
            → P (write t none (unlocked true) system))
        → ((e : Entry)
            → held system.now system.key ≡ some e
            → P (write t (some e) (unlocked false) system))
        → P (step (releases t) system)
    releases-cases P stays gone freed kept = elim (Option-cases seat.reply) [
      | inr (r, waits) ↦ subst P (sym (release-waits r waits)) stays
      | inl idle ↦ elim (Bool-cases seat.lock.acquired) [
        | inr h ↦ subst P (sym (release-idle idle h)) stays
        | inl h ↦ elim (Option-cases (held system.now system.key)) [
          | inl e ↦ subst P (sym (release-gone idle h e)) (gone e)
          | inr (x, e) ↦ elim (Bool-cases (x.token == seat.lock.token)) [
            | inl same ↦ subst P (sym (release-freed x idle h e same)) (freed x e same)
            | inr other ↦ subst P (sym (release-kept x idle h e other)) (kept x e)
          ]
        ]
      ]
    ]

    hear-set :
        (result : Bool)
        → seat.reply ≡ some (set_reply result)
        → step (hears t) system
          ≡ write t system.key
              (record seat { lock = heard_set result seat.lock; reply = none })
              system
    unfolding step
    hear-set result waits = rw (mine, waits) refl

    hear-unlock :
        (result : Bool)
        → seat.reply ≡ some (unlock_reply result)
        → step (hears t) system
          ≡ write t system.key (record seat { lock = heard_unlock seat.lock; reply = none }) system
    unfolding step
    hear-unlock result waits = rw (mine, waits) refl

    hear-nothing : seat.reply ≡ none → step (hears t) system ≡ system
    unfolding step
    hear-nothing idle = rw (mine, idle) refl

    pub hears-cases :
        (P : System → Type 0)
        → P system
        → ((result : Bool)
            → seat.reply ≡ some (set_reply result)
            → P (
                write t system.key
                  (record seat { lock = heard_set result seat.lock; reply = none })
                  system))
        → P (
            write t system.key (record seat { lock = heard_unlock seat.lock; reply = none }) system)
        → P (step (hears t) system)
    hears-cases P stays set unlock = elim (Option-cases seat.reply) [
      | inl idle ↦ subst P (sym (hear-nothing idle)) stays
      | inr (set_reply result, waits) ↦ subst P (sym (hear-set result waits)) (set result waits)
      | inr (unlock_reply result, waits) ↦ subst P (sym (hear-unlock result waits)) unlock
    ]
