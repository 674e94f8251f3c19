-- ===== src/Backups/Binds.antt =====
-- python/apexquant-backup-recovery/src/apexquant-backup-recovery/service.py
-- Operations taken apart: what an operation that ends without an exception went through, and what
-- each part keeps.
use lord_hermes.Common.{◌≡◌, refl, sym, ap, Bool, true, false, Option, none, some, Outcome, ok, err}
use lord_hermes.Backups.Models.{BackupError}
use lord_hermes.Backups.Outside.{State, Action, ◌>>=◌, unless, some_or}

module _ {World : Type 0} where
  -- An operation that ends in a value, and the state that it leaves.
  abbrev pub Ends : {A : Type 0} → Action World A → State World → A → State World → Type 0
  Ends {A} m s a after = ◌≡◌ {A = Outcome BackupError A × State World} (m s) (ok a, after)

  pub >>=-Ends :
      {A B : Type 0} (m : Action World A) (f : A → Action World B) (s : State World) (b : B)
      (after : State World)
      → Ends (m >>= f) s b after
      → (a : A) × (between : State World) × Ends m s a between × Ends (f a) between b after
  >>=-Ends {A} {B} m f s b after h = by_result (m s) refl h
    where
      by_result :
          (r : Outcome BackupError A × State World)
          → m s ≡ r
          → ◌≡◌ {A = Outcome BackupError B × State World}
              (elim r.0 as (λ _. Outcome BackupError B × State World) [
                | ok a ↦ f a r.1
                | err e ↦ (err e, r.1)
              ])
              (ok b, after)
          → (a : A) × (between : State World) × Ends m s a between × Ends (f a) between b after
      by_result (ok a, between) e k = (a, between, e, k)
      by_result (err x, between) e k = absurd (cc k)

  -- What each of two operations keeps, they keep one after the other.
  pub >>=-keeps :
      {A B : Type 0} (P : State World → Type 0) (m : Action World A) (f : A → Action World B)
      (s : State World)
      → P (m s).1
      → ((a : A) (t : State World) → P t → P (f a t).1)
      → P ((m >>= f) s).1
  >>=-keeps {A} {B} P m f s h k = by_result (m s) h
    where
      by_result :
          (r : Outcome BackupError A × State World)
          → P r.1
          → P
              (elim r.0 as (λ _. Outcome BackupError B × State World) [
                | ok a ↦ f a r.1
                | err e ↦ (err e, r.1)
              ]).1
      by_result (ok a, between) q = k a between q
      by_result (err x, between) q = q

  pub unless-Ends :
      (test : Bool) (e : BackupError) (s after : State World)
      → Ends (unless test e) s tt after
      → (test ≡ true) × (after ≡ s)
  unless-Ends true e s after h = (refl, ap (λ r. r.1) (sym h))
  unless-Ends false e s after h = absurd (cc h)

  pub some_or-Ends :
      {A : Type 0} (e : BackupError) (o : Option A) (s : State World) (a : A) (after : State World)
      → Ends (some_or e o) s a after
      → (o ≡ some a) × (after ≡ s)
  some_or-Ends {A} e none s a after h = absurd (cc h)
  some_or-Ends {A} e (some x) s a after h = (ap some (same h), ap (λ r. r.1) (sym h))
    where
      same : ◌≡◌ {A = Outcome BackupError A × State World} (ok x, s) (ok a, after) → x ≡ a
      same q = cc q
