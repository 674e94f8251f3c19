-- ===== src/Locks/Server.antt =====
-- python/apexquant-redis/src/apexquant-redis/lock.py
-- The key of a lock in the Redis server: SET with NX and PX, and UNLOCK_SCRIPT, which Redis runs as
-- one step. A key is gone from the millisecond on at which it expires.
use lord_hermes.Common.{
  ℕ, ◌+◌, Bool, true, false, Option, none, some, String, ◌==◌, string_eq, nat_eq, Outcome, ok, err,
  ltb, if◌then◌else◌,
}

-- The value of the key, and when it expires.
pub record Entry : Type 0 where
  pub token : String
  pub expires_at : ℕ

abbrev unexpired : ℕ → Entry → Option Entry
unexpired now entry = if ltb now entry.expires_at then some entry else none

-- What the server holds under the key at a time.
unfoldable pub held : ℕ → Option Entry → Option Entry
held now none = none
held now (some entry) = unexpired now entry

abbrev pub set_entry : String → ℕ → Option Entry → Bool × Option Entry
set_entry token expires_at none = (true, some (record { token = token; expires_at = expires_at }))
set_entry token expires_at (some entry) = (false, some entry)

pub data ServerError : Type 0 where
  invalid_expire : ServerError

-- SET key token NX PX px. The server refuses a time to live that is not positive, whatever the key.
unfoldable pub set_nx : String → ℕ → ℕ → Option Entry → Outcome ServerError (Bool × Option Entry)
unfolding held
set_nx token px now key =
    if px == 0 then err invalid_expire else ok (set_entry token (now + px) (held now key))

abbrev pub delete_if : String → Option Entry → Bool × Option Entry
delete_if token none = (false, none)
delete_if token (some entry) = if entry.token == token then (true, none) else (false, some entry)

-- UNLOCK_SCRIPT
unfoldable pub unlock_script : String → ℕ → Option Entry → Bool × Option Entry
unfolding held
unlock_script token now key = delete_if token (held now key)
