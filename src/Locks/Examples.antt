-- ===== src/Locks/Examples.antt =====
-- python/apexquant-redis/src/apexquant-redis/lock.py: runs of the lock, and the theorems at
-- concrete inputs.
use lord_hermes.Common.{
  ok, nat_eq, ◌≡◌, refl, true, false, List, [], ◌∷◌, Option, none, some, String, string_eq, get,
  put, arith,
}
use lord_hermes.Locks.Server.{Entry, held, set_nx, unlock_script}
use lord_hermes.Locks.Client.{DistributedLock, new_lock, try_acquire, release}
use lord_hermes.Locks.System.{
  Event, joins, passes, acquires, releases, step, run, new_system, hears, Seat, Holds, Allowed,
  abstract_state,
}
use lord_hermes.Locks.Contract.{mutual_exclusion, step-Allowed}
use lord_hermes.Locks.Blocking.{reacquire_loses_release}

-- `a` takes the lock and lets it lapse, `b` takes it, and `a` releases it too late.
abbrev story : List Event
story =
    joins "a" 10 1
    ∷ joins "b" 10 1
    ∷ acquires "a"
    ∷ hears "a"
    ∷ passes 10
    ∷ acquires "b"
    ∷ releases "a"
    ∷ hears "b"
    ∷ passes 5
    ∷ hears "a"
    ∷ []

abbrev held_by_b : Seat
held_by_b = record {
  lock = record { token = "b"; px = 10; delay = 1; acquired = true };
  until = 20;
  reply = none;
}

b_holds : get "b" (run story new_system).locks ≡ some held_by_b
unfolding run step new_lock set_nx unlock_script held get put
b_holds = refl

within : Holds (run story new_system) held_by_b
unfolding run step new_lock set_nx unlock_script held get put
within = (refl, refl, omega arith)

mutual_exclusion_example : ◌≡◌ {A = String} "b" "b"
mutual_exclusion_example =
    mutual_exclusion story "b" "b" held_by_b held_by_b b_holds b_holds within within

step-Allowed_example :
    Allowed
      (releases "b")
      (abstract_state (run story new_system))
      (abstract_state (step (releases "b") (run story new_system)))
step-Allowed_example = step-Allowed story (releases "b")

abbrev other : Option Entry
other = some (record { token = "x"; expires_at = 3 })

abbrev waiting : DistributedLock
waiting = record { token = "a"; px = 10; delay = 2; acquired = false }

nothing_held : held 0 none ≡ none
unfolding held
nothing_held = refl

reacquire_loses_release_example :
    (one two : DistributedLock) × (key_one key_two : Option Entry) × (try_acquire 0 waiting none
      ≡ ok (true, one, key_one))
    × (try_acquire 1 one key_one ≡ ok (false, two, key_two))
    × ((release 2 two key_two).0 ≡ false)
    × (held 2 (release 2 two key_two).2 ≡ some (record { token = "a"; expires_at = 10 }))
reacquire_loses_release_example =
    reacquire_loses_release 0 1 2 waiting none nothing_held (omega arith) (omega arith)
      (omega arith)
