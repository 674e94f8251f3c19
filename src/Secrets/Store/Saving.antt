-- ===== src/Secrets/Store/Saving.antt =====
-- python/apexquant-secrets/store.py: the file of the store, from `save` to `load`.
use lord_hermes.Common.{
  ℕ, zero, suc, ◌≡◌, refl, ◌⊎◌, inl, inr, Bool, none, some, String, length, take, Outcome, ok,
  Outcome-cases, if-cases, ◌==◌, string_eq, put,
}
use lord_hermes.Secrets.Models.{SecretClassification, SecretEntry}
use lord_hermes.Secrets.Crypto.{Primitives, IsSound, decrypt_bytes, decrypt-encrypt}
use lord_hermes.Secrets.Store.Operations.{
  Json, IsFaithful, Env, SecretStore, SecretStoreError, sealed, save_effects, save, perform_all,
  load_text, load, set_secret, commit, validate_secret_name,
}

module _ (c : Primitives) (j : Json) (sound : IsSound c) where
  unsealed :
      (env : Env) (store : SecretStore)
      → length env.nonce ≡ 12
      → decrypt_bytes c (sealed c j env store) store.master_secret
        ≡ ok (j.dump_payload store.payload)
  unfolding sealed
  unsealed env store h =
      decrypt-encrypt c sound (j.dump_payload store.payload) store.master_secret none 16384 8 1
        env.fresh_salt env.nonce h

  load_text-sealed :
      (env : Env) (store : SecretStore)
      → length env.nonce ≡ 12
      → IsFaithful j store.payload (sealed c j env store)
      → load_text c j store.master_secret (some (j.dumps (sealed c j env store))) ≡ ok store.payload
  unfolding load_text
  load_text-sealed env store h faithful =
      rw faithful.document (rw (unsealed env store h) (rw faithful.payload))

  -- Loading the file that `save` has written, with the same master secret, gives the saved store.
  pub load-save :
      (env : Env) (store : SecretStore)
      → length env.nonce ≡ 12
      → IsFaithful j store.payload (sealed c j env store)
      → load c j store.master_secret (save c j env store).files ≡ ok (save c j env store)
  unfolding load save save_effects perform_all
  load-save env store h faithful = rw (load_text-sealed env store h faithful)

  -- At whatever point a save is cut off, the file still loads as it did before, or loads as the
  -- payload that was being saved.
  pub save_is_atomic :
      (env : Env) (store : SecretStore) (done : ℕ)
      → length env.nonce ≡ 12
      → IsFaithful j store.payload (sealed c j env store)
      → let crashed = perform_all (take done (save_effects c j env store)) store.files in
        (load_text c j store.master_secret crashed.target
          ≡ load_text c j store.master_secret store.files.target)
        ⊎ (load_text c j store.master_secret crashed.target ≡ ok store.payload)
  unfolding save_effects perform_all
  save_is_atomic env store zero h f = inl refl
  save_is_atomic env store (suc zero) h f = inl refl
  save_is_atomic env store (suc (suc zero)) h f = inl refl
  save_is_atomic env store (suc (suc (suc zero))) h f = inr (load_text-sealed env store h f)
  save_is_atomic env store (suc (suc (suc (suc done)))) h f = inr (load_text-sealed env store h f)

  commit-saves :
      (env : Env) (name : String) (entry : SecretEntry) (store : SecretStore)
      → length env.nonce ≡ 12
      → IsFaithful j
          (commit c j env name entry store).payload
          (sealed c j env (commit c j env name entry store))
      → load c j store.master_secret (commit c j env name entry store).files
        ≡ ok (commit c j env name entry store)
  unfolding commit save sealed
  commit-saves env name entry store h f =
      load-save env
        (record store { payload = record { secrets = put name entry store.payload.secrets } }) h f

  -- Whenever `set_secret` succeeds, its store has been saved: the file loads as that store.
  pub set_secret_saves :
      (env : Env) (name value : String) (k : SecretClassification) (description : String)
      (store : SecretStore) (result : Bool × ℕ)
      → length env.nonce ≡ 12
      → let after = (set_secret c j env name value k description store).1 in
        IsFaithful j after.payload (sealed c j env after)
        → (set_secret c j env name value k description store).0 ≡ ok result
        → load c j store.master_secret after.files ≡ ok after
  unfolding set_secret
  set_secret_saves env name value k description store result h =
      elim (Outcome-cases (validate_secret_name name)) [
        | inl (_, e) ↦
            rw (e, set_secret)
              (if-cases Saved (value == "") (λ _ q. absurd (cc q))
                (λ f _. commit-saves env name _ store h f))
        | inr (x, e) ↦ rw (e, set_secret) (λ _ q. absurd (cc q))
      ]
    where
      Saved : Outcome SecretStoreError (Bool × ℕ) × SecretStore → Type 0
      Saved r =
          IsFaithful j r.1.payload (sealed c j env r.1)
          → r.0 ≡ ok result
          → load c j store.master_secret r.1.files ≡ ok r.1
