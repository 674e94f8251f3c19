-- ===== src/Locks/Blocking.antt =====
-- python/apexquant-redis/src/apexquant-redis/lock.py
-- A blocking acquire, and a lock that is acquired twice.
use lord_hermes.Common.{
  nat_eq, ltb, ◌==◌, ok, ℕ, ◌+◌, ◌<◌, ◌≤◌, ◌≡◌, refl, true, false, Option, none, some, string_eq,
  arith,
}
use lord_hermes.Locks.Server.{Entry, held, set_nx}
use lord_hermes.Locks.Client.{DistributedLock, try_acquire, release}

abbrev pub ends_at : Option Entry → ℕ
ends_at none = 0
ends_at (some e) = e.expires_at

module _ (now : ℕ) (lock : DistributedLock) (key : Option Entry) (positive : 0 < lock.px) where
  nonzero : (lock.px == 0) ≡ false
  nonzero = ground (arith, positive)

  set_free :
      held now key ≡ none
      → set_nx lock.token lock.px now key
        ≡ ok (true, some (record { token = lock.token; expires_at = now + lock.px }))
  unfolding set_nx
  set_free free = rw (nonzero, free) refl

  set_taken :
      (x : Entry) → held now key ≡ some x → set_nx lock.token lock.px now key ≡ ok (false, some x)
  unfolding set_nx
  set_taken x taken = rw (nonzero, taken) refl

  try_free :
      held now key ≡ none
      → try_acquire now lock key
        ≡ ok (
          true,
          record lock { acquired = true },
          some (record { token = lock.token; expires_at = now + lock.px }),
        )
  unfolding try_acquire
  try_free free = rw (try_acquire, set_free free) refl

  try_taken :
      (x : Entry)
      → held now key ≡ some x
      → try_acquire now lock key ≡ ok (false, record lock { acquired = false }, some x)
  unfolding try_acquire
  try_taken x taken = rw (try_acquire, set_taken x taken) refl

-- A lock that its holder acquires again within its lease no longer counts itself the holder: the
-- second attempt fails, and the release that follows gives nothing back and leaves the key as it is.
pub reacquire_loses_release :
    (now later last : ℕ) (lock : DistributedLock) (key : Option Entry)
    → held now key ≡ none
    → now ≤ later
    → later ≤ last
    → last < now + lock.px
    → (one two : DistributedLock) × (key_one key_two : Option Entry) × (try_acquire now lock key
        ≡ ok (true, one, key_one))
      × (try_acquire later one key_one ≡ ok (false, two, key_two))
      × ((release last two key_two).0 ≡ false)
      × (held last (release last two key_two).2
          ≡ some (record { token = lock.token; expires_at = now + lock.px }))
unfolding release held
reacquire_loses_release now later last lock key free h k l = (
  record lock { acquired = true },
  record lock { acquired = false },
  some (record { token = lock.token; expires_at = now + lock.px }),
  some (record { token = lock.token; expires_at = now + lock.px }),
  try_free now lock key positive free,
  try_taken later (record lock { acquired = true })
      (some (record { token = lock.token; expires_at = now + lock.px })) positive
      (record { token = lock.token; expires_at = now + lock.px })
      (rw (lives later (omega arith)) refl),
  refl,
  rw (lives last l) refl,
)
  where
    positive : 0 < lock.px
    positive = omega (arith, h, k, l)

    lives : (time : ℕ) → time < now + lock.px → ltb time (now + lock.px) ≡ true
    lives time early = ground (arith, early)
