-- ===== src/Secrets/Store/Laws.antt =====
-- What the operations of python/apexquant-secrets/store.py do to the secrets.
use lord_hermes.Common.{
  ℕ, ◌+◌, ◌<◌, ◌≡◌, ◌≢◌, refl, ◌∙◌, inl, inr, Bool, true, false, List, Option, none, some, String,
  ◌==◌, string_eq, get, get-put, get-put_self, values-put-All, get-All, AllValues, if◌then◌else◌,
  if-cases, Outcome, ok, err, Bool-cases, Option-cases, Outcome-cases, arith,
}
use lord_hermes.Secrets.Models.{SecretClassification, SecretEntry}
use lord_hermes.Secrets.Crypto.{Primitives}
use lord_hermes.Secrets.Store.Entries.{
  push_version, IsEntry, push_version-IsEntry, find_active-push_version, find_active_total,
}
use lord_hermes.Secrets.Store.Operations.{
  Json, Env, SecretStore, SecretStoreError, validate_secret_name, entry_or_new, relabel, commit,
  save, set_secret, rotate_secret, rotate_entry, get_secret, read_value,
}

abbrev pub IsStore : SecretStore → Type 0
IsStore store = AllValues IsEntry store.payload.secrets

empty_test : (value : String) → value ≢ "" → (value == "") ≡ false
empty_test value h = elim (Bool-cases (value == "")) [
  | inl e ↦ absurd (h ((string_eq.beq_iff value "").0 e))
  | inr e ↦ e
]

entry_or_new-IsEntry :
    (k : SecretClassification) (description name : String) (secrets : List (String × SecretEntry))
    → AllValues IsEntry secrets
    → IsEntry (entry_or_new k description (get name secrets))
unfolding entry_or_new
entry_or_new-IsEntry k description name secrets h = elim (Option-cases (get name secrets)) [
  | inl e ↦ rw (e, entry_or_new) (record { counted = refl; history = tt })
  | inr (entry, e) ↦ rw (e, entry_or_new) (get-All IsEntry name entry secrets h e)
]

relabel-IsEntry :
    (k : SecretClassification) (description : String) (entry : SecretEntry)
    → IsEntry entry
    → IsEntry (relabel k description entry)
unfolding relabel
relabel-IsEntry k description entry h = record { counted = h.counted; history = h.history }

read_pushed :
    (name value : String) (entry : SecretEntry) (now : ℕ)
    → read_value name (some (push_version entry value now)) ≡ ok value
unfolding read_value
read_pushed name value entry now = rw (find_active-push_version entry value now, read_value)

read_relabelled :
    (name : String) (k : SecretClassification) (description : String) (entry : SecretEntry)
    → read_value name (some (relabel k description entry)) ≡ read_value name (some entry)
unfolding read_value relabel
read_relabelled name k description entry = refl

module _ (c : Primitives) (j : Json) where
  -- A read after a commit of one entry.
  get-commit :
      (env : Env) (name key value : String) (entry : SecretEntry) (store : SecretStore)
      → validate_secret_name name ≡ ok tt
      → read_value name (some entry) ≡ ok value
      → get_secret key (commit c j env name entry store)
        ≡ (if name == key then ok value else get_secret key store)
  unfolding get_secret commit save
  get-commit env name key value entry store valid reads = elim (Bool-cases (name == key)) [
    | inl e ↦ rw e (here e)
    | inr e ↦ rw e (rw get-put (rw e))
  ]
    where
      here : (name == key) ≡ true → get_secret key (commit c j env name entry store) ≡ ok value
      here e =
          rw (← (string_eq.beq_iff name key).0 e) (rw (valid, get_secret) (rw get-put_self reads))

  -- After `set_secret` with a valid name and a value, that name reads as the value, and every other
  -- name reads as before.
  pub get-set_secret :
      (env : Env) (name value : String) (k : SecretClassification) (description : String)
      (store : SecretStore) (key : String)
      → validate_secret_name name ≡ ok tt
      → value ≢ ""
      → get_secret key (set_secret c j env name value k description store).1
        ≡ (if name == key then ok value else get_secret key store)
  unfolding set_secret
  get-set_secret env name value k description store key valid given =
      rw (valid, set_secret)
        (rw (empty_test value given) (
          get-commit env name key value _ store valid
            (read_relabelled name k description _ ∙ read_pushed name value _ env.now)))

  -- After `rotate_secret` of a name that is there, to a value, that name reads as the value, every
  -- other name reads as before, and the result is the number of versions made so far and one more.
  pub get-rotate_secret :
      (env : Env) (name value : String) (entry : SecretEntry) (store : SecretStore) (key : String)
      → validate_secret_name name ≡ ok tt
      → get name store.payload.secrets ≡ some entry
      → value ≢ ""
      → ((rotate_secret c j env name value store).0 ≡ ok (entry.current_version + 1))
        × (get_secret key (rotate_secret c j env name value store).1
            ≡ (if name == key then ok value else get_secret key store))
  unfolding rotate_secret rotate_entry push_version
  get-rotate_secret env name value entry store key valid there given = (
    rw (valid, rotate_secret) (rw (there, rotate_entry) (rw (empty_test value given))),
    rw (valid, rotate_secret)
        (rw (there, rotate_entry)
          (rw (empty_test value given)
            (get-commit env name key value _ store valid (read_pushed name value entry env.now)))),
  )

  commit-IsStore :
      (env : Env) (name : String) (entry : SecretEntry) (store : SecretStore)
      → IsEntry entry
      → IsStore store
      → IsStore (commit c j env name entry store)
  unfolding commit save
  commit-IsStore env name entry store e h = values-put-All IsEntry name entry _ e h

  rotate_entry-IsStore :
      (env : Env) (name value : String) (o : Option SecretEntry) (store : SecretStore)
      → ((entry : SecretEntry) → o ≡ some entry → IsEntry entry)
      → IsStore store
      → IsStore (rotate_entry c j env name value o store).1
  unfolding rotate_entry
  rotate_entry-IsStore env name value none store f h = h
  rotate_entry-IsStore env name value (some entry) store f h =
      if-cases (λ (r : Outcome SecretStoreError ℕ × SecretStore). IsStore r.1) (value == "") h
        (commit-IsStore env name _ store (push_version-IsEntry entry value env.now (f entry refl))
          h)

  -- `set_secret` and `rotate_secret` keep a store well formed, whatever they are called with.
  pub operations-IsStore :
      (env : Env) (name value : String) (k : SecretClassification) (description : String)
      (store : SecretStore)
      → IsStore store
      → IsStore (set_secret c j env name value k description store).1
        × IsStore (rotate_secret c j env name value store).1
  unfolding set_secret rotate_secret
  operations-IsStore env name value k description store h =
      elim (Outcome-cases (validate_secret_name name)) [
        | inl (_, e) ↦ (
          rw (e, set_secret)
              (if-cases (λ (r : Outcome SecretStoreError (Bool × ℕ) × SecretStore). IsStore r.1)
                (value == "") h
                (commit-IsStore env name _ store
                  (relabel-IsEntry k description _ (
                    push_version-IsEntry _ value env.now
                      (entry_or_new-IsEntry k description name store.payload.secrets h)))
                  h)),
          rw (e, rotate_secret)
              (rotate_entry-IsStore env name value (get name store.payload.secrets) store
                (λ entry there. get-All IsEntry name entry store.payload.secrets h there) h),
        )
        | inr (x, e) ↦ (rw (e, set_secret) h, rw (e, rotate_secret) h)
      ]

  -- A call that raises leaves the secrets and the disk as they were.
  pub errors_change_nothing :
      (env : Env) (name value : String) (k : SecretClassification) (description : String)
      (store : SecretStore) (e : SecretStoreError)
      → ((set_secret c j env name value k description store).0 ≡ err e
          → (set_secret c j env name value k description store).1 ≡ store)
        × ((rotate_secret c j env name value store).0 ≡ err e
            → (rotate_secret c j env name value store).1 ≡ store)
  unfolding set_secret rotate_secret rotate_entry
  errors_change_nothing env name value k description store e = (ground arith, ground arith)

-- In a well-formed store a secret that has a version can be read: `get_secret` never reports that
-- there is no active version.
pub get_secret_total :
    (name : String) (entry : SecretEntry) (store : SecretStore)
    → IsStore store
    → validate_secret_name name ≡ ok tt
    → get name store.payload.secrets ≡ some entry
    → 0 < entry.current_version
    → (value : String) × (get_secret name store ≡ ok value)
unfolding get_secret read_value
get_secret_total name entry store h valid there some_version =
    let good = get-All IsEntry name entry store.payload.secrets h there in
    let (value, found) = find_active_total entry good some_version in
    (value, rw (valid, get_secret) (rw there (rw (found, read_value))))
