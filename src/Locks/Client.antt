-- ===== src/Locks/Client.antt =====
-- python/apexquant-redis/src/apexquant-redis/lock.py
-- The class DistributedLock. The server is up; `px` is int(ttl_seconds * 1000), 0 for a negative
-- one, and `delay` is retry_delay in milliseconds. A method awaits the server's reply and then
-- assigns: `heard_set` and `heard_unlock` are the assignments, and between the server's step and the
-- assignment other clients run, as System says.
use lord_hermes.Common.{
  ℕ, zero, suc, ◌+◌, Bool, false, Option, none, some, String, if◌then◌else◌, Outcome, ok, err,
}
use lord_hermes.Locks.Server.{Entry, ServerError, set_nx, unlock_script}

pub record DistributedLock : Type 0 where
  pub token : String
  pub px : ℕ
  pub delay : ℕ
  pub acquired : Bool

-- `__init__`, with what uuid4 returns.
unfoldable pub new_lock : String → ℕ → ℕ → DistributedLock
new_lock token px delay = record { token = token; px = px; delay = delay; acquired = false }

-- What `_try_acquire` and `release` assign once the reply is there.
abbrev pub heard_set : Bool → DistributedLock → DistributedLock
heard_set result lock = record lock { acquired = result }

abbrev pub heard_unlock : DistributedLock → DistributedLock
heard_unlock lock = record lock { acquired = false }

-- The result, the lock and the key after a `_try_acquire` that nothing interrupts.
unfoldable pub try_acquire :
    ℕ → DistributedLock → Option Entry → Outcome ServerError (Bool × DistributedLock × Option Entry)
try_acquire now lock key = elim (set_nx lock.token lock.px now key) [
  | err e ↦ err e
  | ok reply ↦ ok (reply.0, heard_set reply.0 lock, reply.1)
]

-- The same of a `release` that nothing interrupts.
unfoldable pub release : ℕ → DistributedLock → Option Entry → Bool × DistributedLock × Option Entry
release now lock key =
    if lock.acquired
    then (let (result, after) = unlock_script lock.token now key in
        (result, heard_unlock lock, after))
    else (false, lock, key)

-- `acquire` with blocking: an attempt every `delay` milliseconds, from a time on, as many as there
-- are rounds; none if these do not suffice. `others` is what the other clients do to the key between
-- two attempts.
unfoldable pub acquire_blocking :
    (ℕ → Option Entry → Option Entry)
    → ℕ
    → ℕ
    → DistributedLock
    → Option Entry
    → Option (Outcome ServerError (DistributedLock × Option Entry))
acquire_blocking others zero now lock key = none
acquire_blocking others (suc rounds) now lock key = elim (try_acquire now lock key) [
  | err e ↦ some (err e)
  | ok (result, tried, after) ↦
      let later = acquire_blocking others rounds (now + lock.delay) tried (others now after) in
      if result then some (ok (tried, after)) else later
]
