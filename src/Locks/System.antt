-- ===== src/Locks/System.antt =====
-- python/apexquant-redis/src/apexquant-redis/lock.py
-- Several locks on one key, under the steps of their clients and of the clock in any order. A client
-- joins with a lock of its own, whose token is what uuid4 returns; no two are the same. A call is two
-- steps: the server's, and the client's when the reply comes; in between the other clients and the
-- clock go on, and the client itself waits. A lock stands under its token with the end of its last
-- lease and the reply that it waits for.
use lord_hermes.Common.{
  ℕ, ◌+◌, ◌<◌, ◌≡◌, ◌⊎◌, Bool, true, false, List, [], ◌∷◌, Option, none, some, String, string_eq,
  get, put, Outcome, ok, err, if◌then◌else◌,
}
use lord_hermes.Locks.Server.{Entry, ServerError, held, set_nx, unlock_script}
use lord_hermes.Locks.Client.{DistributedLock, new_lock, heard_set, heard_unlock}

pub data Reply : Type 0 where
  set_reply : Bool → Reply
  unlock_reply : Bool → Reply

pub record Seat : Type 0 where
  pub lock : DistributedLock
  pub until : ℕ
  pub reply : Option Reply

pub record System : Type 0 where
  pub now : ℕ
  pub key : Option Entry
  pub locks : List (String × Seat)

pub data Event : Type 0 where
  joins : String → ℕ → ℕ → Event
  passes : ℕ → Event
  acquires : String → Event
  releases : String → Event
  hears : String → Event

abbrev pub write : String → Option Entry → Seat → System → System
write t key seat system = record system { key = key; locks = put t seat system.locks }

abbrev pub leased : Bool → ℕ → ℕ → ℕ
leased true new old = new
leased false new old = old

-- The server's part of `_try_acquire`; when it answers with an error the method raises.
abbrev pub set_at : String → Seat → System → Outcome ServerError (Bool × Option Entry) → System
set_at t seat system (err e) = system
set_at t seat system (ok (result, key)) =
    write t key
      (record seat {
        until = leased result (system.now + seat.lock.px) seat.until;
        reply = some (set_reply result);
      })
      system

abbrev pub acquire_at : String → Seat → Option Reply → System → System
acquire_at t seat (some reply) system = system
acquire_at t seat none system =
    set_at t seat system (set_nx seat.lock.token seat.lock.px system.now system.key)

-- The server's part of `release`.
abbrev pub unlock_at : String → Seat → System → Bool × Option Entry → System
unlock_at t seat system (result, key) =
    write t key (record seat { reply = some (unlock_reply result) }) system

abbrev pub release_at : String → Seat → Option Reply → System → System
release_at t seat (some reply) system = system
release_at t seat none system =
    if seat.lock.acquired
    then unlock_at t seat system (unlock_script seat.lock.token system.now system.key)
    else system

-- The client's part of both.
abbrev pub hear_at : String → Seat → Option Reply → System → System
hear_at t seat none system = system
hear_at t seat (some (set_reply result)) system =
    write t system.key (record seat { lock = heard_set result seat.lock; reply = none }) system
hear_at t seat (some (unlock_reply result)) system =
    write t system.key (record seat { lock = heard_unlock seat.lock; reply = none }) system

abbrev pub at_seat : (Seat → Option Reply → System → System) → Option Seat → System → System
at_seat turn none system = system
at_seat turn (some seat) system = turn seat seat.reply system

unfoldable pub step : Event → System → System
step (joins t px delay) system = record system {
  locks = put t (record { lock = new_lock t px delay; until = 0; reply = none }) system.locks;
}
step (passes d) system = record system { now = system.now + d }
step (acquires t) system = at_seat (acquire_at t) (get t system.locks) system
step (releases t) system = at_seat (release_at t) (get t system.locks) system
step (hears t) system = at_seat (hear_at t) (get t system.locks) system

abbrev pub new_system : System
new_system = record { now = 0; key = none; locks = [] }

unfoldable pub run : List Event → System → System
run [] system = system
run (event ∷ events) system = run events (step event system)

-- The lock counts itself the holder, waits for no reply, and its lease has not ended.
abbrev pub Holds : System → Seat → Type 0
Holds system seat = (seat.lock.acquired ≡ true) × (seat.reply ≡ none) × (system.now < seat.until)

-- The lock holds, or will when it hears of it.
abbrev pub Claims : System → Seat → Type 0
Claims system seat =
    (system.now < seat.until)
    × (((seat.lock.acquired ≡ true) × (seat.reply ≡ none)) ⊎ (seat.reply ≡ some (set_reply true)))

-- Each lock has its own token, and one that claims the key is its holder on the server.
abbrev pub IsSound : System → Type 0
IsSound system =
    (t : String) (seat : Seat)
    → get t system.locks ≡ some seat
    → (seat.lock.token ≡ t)
      × (Claims system seat
          → held system.now system.key ≡ some (record { token = t; expires_at = seat.until }))

-- The contract: an abstract lock is free, or has a holder until a time. Only a free lock is
-- granted, only its holder gives it back, and only time takes it away.
pub data Allowed : Event → Option Entry → Option Entry → Type 0 where
  stays : (event : Event) (s : Option Entry) → Allowed event s s
  lapses : (d : ℕ) (e : Entry) → Allowed (passes d) (some e) none
  grants :
      (t : String) (until : ℕ)
      → Allowed (acquires t) none (some (record { token = t; expires_at = until }))
  frees : (e : Entry) → Allowed (releases e.token) (some e) none

abbrev pub abstract_state : System → Option Entry
abstract_state system = held system.now system.key
