-- ===== src/Secrets/Store/Entries.antt =====
-- The versions of one secret: what `set_secret` and `rotate_secret` of
-- python/apexquant-secrets/store.py do to an entry, and what keeps it well formed.
use mathlib.Core.Path.{ap₂}
use lord_hermes.Common.{
  ◌∙◌, ℕ, suc, ◌+◌, ◌<◌, ◌≡◌, refl, ◌⊎◌, inl, inr, Bool, true, false, ◌&&◌, List, [], ◌∷◌, ◌++◌,
  map, Option, none, some, String, arith, ◌==◌, nat_eq, length, length-append, if◌then◌else◌,
}
use lord_hermes.Secrets.Models.{
  SecretVersion, SecretEntry, SecretVersionStatus, active, revoked, status_eq,
  SecretVersionStatus-discrete,
}

-- `if version.status == ACTIVE: version.status = REVOKED`, for each version
revoke : SecretVersion → SecretVersion
revoke v = if v.status == active then record v { status = revoked } else v

unfoldable pub revoke_active : List SecretVersion → List SecretVersion
unfolding revoke
revoke_active [] = []
revoke_active (v ∷ vs) = revoke v ∷ revoke_active vs

unfoldable pub push_version : SecretEntry → String → ℕ → SecretEntry
push_version entry value now = record entry {
  versions = revoke_active entry.versions ++ fresh ∷ [];
  current_version = entry.current_version + 1;
}
  where
    fresh : SecretVersion
    fresh = record {
      version = entry.current_version + 1;
      value = value;
      status = active;
      created_at = now;
    }

-- The loop of `get_secret`.
unfoldable pub find_active : ℕ → List SecretVersion → Option String
find_active current [] = none
find_active current (v ∷ vs) =
    if v.version == current && v.status == active then some v.value else find_active current vs

-- Numbered from `n + 1` on, the last active and the others revoked.
abbrev pub IsHistory : ℕ → List SecretVersion → Type 0
IsHistory n [] = Unit
IsHistory n (v ∷ []) = (v.version ≡ suc n) × (v.status ≡ active)
IsHistory n (v ∷ w ∷ vs) = (v.version ≡ suc n) × (v.status ≡ revoked) × IsHistory (suc n) (w ∷ vs)

pub record IsEntry (e : SecretEntry) : Type 0 where
  pub counted : e.current_version ≡ length e.versions
  pub history : IsHistory 0 e.versions

length-revoke_active : (vs : List SecretVersion) → length (revoke_active vs) ≡ length vs
unfolding revoke_active
length-revoke_active [] = refl
length-revoke_active (v ∷ vs) = omega (arith, length-revoke_active vs)

-- Everything revoked, numbered from `n + 1` on.
abbrev IsRevoked : ℕ → List SecretVersion → Type 0
IsRevoked n [] = Unit
IsRevoked n (v ∷ vs) = (v.version ≡ suc n) × (v.status ≡ revoked) × IsRevoked (suc n) vs

status_cases :
    (s : SecretVersionStatus)
    → (((s == active) ≡ true) × (s ≡ active)) ⊎ (((s == active) ≡ false) × (s ≡ revoked))
unfolding SecretVersionStatus-discrete
status_cases active = inl (refl, refl)
status_cases revoked = inr (refl, refl)

not_active : (s : SecretVersionStatus) → s ≡ revoked → (s == active) ≡ false
unfolding SecretVersionStatus-discrete
not_active active h = cc
not_active revoked h = refl

revoke_fields :
    (v : SecretVersion)
    → ((revoke v).version ≡ v.version)
      × ((revoke v).value ≡ v.value)
      × ((revoke v).status ≡ revoked)
unfolding revoke
revoke_fields v = elim (status_cases v.status) [
  | inl h ↦ (rw (h.0, revoke), rw (h.0, revoke), rw (h.0, revoke))
  | inr h ↦ (rw (h.0, revoke), rw (h.0, revoke), rw (h.0, revoke) h.1)
]

revoke_active-IsRevoked :
    (n : ℕ) (vs : List SecretVersion) → IsHistory n vs → IsRevoked n (revoke_active vs)
unfolding revoke_active
revoke_active-IsRevoked n [] h = tt
revoke_active-IsRevoked n (v ∷ []) h = ((revoke_fields v).0 ∙ h.0, (revoke_fields v).2, tt)
revoke_active-IsRevoked n (v ∷ w ∷ vs) h =
    ((revoke_fields v).0 ∙ h.0, (revoke_fields v).2, revoke_active-IsRevoked (suc n) (w ∷ vs) h.2)

IsHistory-snoc :
    (n : ℕ) (vs : List SecretVersion) (v : SecretVersion)
    → IsRevoked n vs
    → v.version ≡ suc (n + length vs)
    → v.status ≡ active
    → IsHistory n (vs ++ v ∷ [])
IsHistory-snoc n [] v h e a = (omega arith, a)
IsHistory-snoc n (w ∷ []) v h e a = (h.0, h.1, (omega arith, a))
IsHistory-snoc n (w ∷ x ∷ vs) v h e a =
    (h.0, h.1, IsHistory-snoc (suc n) (x ∷ vs) v h.2 (omega arith) a)

-- A new version keeps an entry well formed.
pub push_version-IsEntry :
    (e : SecretEntry) (value : String) (now : ℕ) → IsEntry e → IsEntry (push_version e value now)
unfolding push_version
push_version-IsEntry e value now h = record {
  counted =
      omega (arith, length-append (revoke_active e.versions) _, length-revoke_active e.versions);
  history =
      IsHistory-snoc 0 (revoke_active e.versions) _ (revoke_active-IsRevoked 0 e.versions h.history)
        (omega (arith, length-revoke_active e.versions, h.counted)) refl;
}

and-false : (a b : Bool) → b ≡ false → (a && b) ≡ false
and-false a b h = ground arith

tests_pass :
    (v : SecretVersion) (current : ℕ)
    → v.version ≡ current
    → v.status ≡ active
    → (v.version == current && v.status == active) ≡ true
tests_pass v current e a =
    rw ((nat_eq.beq_iff v.version current).1 e) ((status_eq.beq_iff v.status active).1 a)

test_fails :
    (w : SecretVersion) (current : ℕ)
    → ((revoke w).version == current && (revoke w).status == active) ≡ false
test_fails w current = and-false _ _ (not_active (revoke w).status (revoke_fields w).2)

-- Once all are revoked, the one added is found.
find_active-snoc :
    (current : ℕ) (vs : List SecretVersion) (v : SecretVersion)
    → v.version ≡ current
    → v.status ≡ active
    → find_active current (revoke_active vs ++ v ∷ []) ≡ some v.value
unfolding find_active revoke_active
find_active-snoc current [] v e a = rw (tests_pass v current e a)
find_active-snoc current (w ∷ vs) v e a =
    rw (test_fails w current) (find_active-snoc current vs v e a)

-- The value just added is the one that is read, whatever the entry was.
pub find_active-push_version :
    (e : SecretEntry) (value : String) (now : ℕ)
    → find_active (push_version e value now).current_version (push_version e value now).versions
      ≡ some value
unfolding push_version
find_active-push_version e value now = find_active-snoc _ e.versions _ refl refl

values_of :
    (vs : List SecretVersion) (v : SecretVersion)
    → map (λ v. v.value) (revoke_active vs ++ v ∷ []) ≡ map (λ v. v.value) vs ++ v.value ∷ []
unfolding revoke_active
values_of [] v = refl
values_of (w ∷ vs) v = ap₂ ◌∷◌ (revoke_fields w).1 (values_of vs v)

-- No value is lost: the values of the history, in order, with the new one behind them.
pub values-push_version :
    (e : SecretEntry) (value : String) (now : ℕ)
    → map (λ v. v.value) (push_version e value now).versions
      ≡ map (λ v. v.value) e.versions ++ value ∷ []
unfolding push_version
values-push_version e value now = values_of e.versions _

head_active :
    (n : ℕ) (v : SecretVersion) (vs : List SecretVersion) (current : ℕ)
    → current ≡ suc (n + length vs)
    → IsHistory n (v ∷ vs)
    → (value : String) × (find_active current (v ∷ vs) ≡ some value)
unfolding find_active
head_active n v [] current e h = (v.value, rw (tests_pass v current (omega arith) h.1))
head_active n v (w ∷ vs) current e h =
    let (value, found) = head_active (suc n) w vs current (omega arith) h.2 in
    (value, rw (and-false (v.version == current) _ (not_active v.status h.1)) found)

-- A well-formed entry with a version has an active one.
pub find_active_total :
    (e : SecretEntry)
    → IsEntry e
    → 0 < e.current_version
    → (value : String) × (find_active e.current_version e.versions ≡ some value)
find_active_total e h some_version = of_versions e.versions h.counted h.history
  where
    of_versions :
        (vs : List SecretVersion)
        → e.current_version ≡ length vs
        → IsHistory 0 vs
        → (value : String) × (find_active e.current_version vs ≡ some value)
    of_versions [] c k = absurd (omega arith)
    of_versions (v ∷ vs) c k = head_active 0 v vs e.current_version (omega arith) k
