-- ===== src/Secrets/Store/Examples.antt =====
-- python/apexquant-secrets/store.py
-- The theorems on the store at a concrete store.
use mathlib.Core.Path.{ap₂}
use lord_hermes.Common.{
  true, ap, ◌∙◌, values, code, nat_eq, ℕ, zero, suc, ◌+◌, ◌≡◌, ◌≢◌, refl, ◌⊎◌, List, [], ◌∷◌, none,
  some, String, get, take, drop, ok, arith, ◌==◌, string_eq, if◌then◌else◌, get,
}
use lord_hermes.Secrets.Models.{
  database, api, SecretStorePayload, SecretEntry, SecretVersion, active,
}
use lord_hermes.Secrets.Crypto.{
  Primitives, IsSound, StoreDocument, decrypt_bytes, encrypt_bytes, decrypt-encrypt,
}
use lord_hermes.Secrets.Store.Names.{is_name_start, matches_secret_name}
use lord_hermes.Secrets.Store.Entries.{push_version}
use lord_hermes.Secrets.Store.Operations.{
  Json, Env, SecretStore, validate_secret_name, set_secret, rotate_secret, get_secret, entry_or_new,
  save, commit, save_effects, perform_all, load, load_text, sealed,
}
use lord_hermes.Secrets.Store.Laws.{IsStore, get-set_secret, operations-IsStore}
use lord_hermes.Secrets.Store.Saving.{save_is_atomic, set_secret_saves}

-- Base64 that keeps each number as so many marks, and a cipher that adds a tag of one byte.
mark_number : ℕ → String → String
mark_number zero rest = String.◌∷◌ "b" rest
mark_number (suc n) rest = String.◌∷◌ "a" (mark_number n rest)

mark : List ℕ → String
mark [] = ""
mark (n ∷ ns) = mark_number n (mark ns)

unmark : ℕ → String → List ℕ
unmark n String.[] = []
unmark n (String.◌∷◌ ch s) =
    let more = unmark (suc n) s in
    let next = n ∷ unmark 0 s in if code ch == b'a' then more else next

unmark-mark_number :
    (k n : ℕ) (rest : String) → unmark k (mark_number n rest) ≡ (k + n) ∷ unmark 0 rest
unfolding unmark mark_number
unmark-mark_number k zero rest = ap (λ m. m ∷ unmark 0 rest) (omega arith)
unmark-mark_number k (suc n) rest =
    unmark-mark_number (suc k) n rest ∙ ap (λ m. m ∷ unmark 0 rest) (omega arith)

unmark-mark : (ns : List ℕ) → unmark 0 (mark ns) ≡ ns
unfolding unmark mark
unmark-mark [] = refl
unmark-mark (n ∷ ns) =
    unmark-mark_number 0 n (mark ns) ∙ ap₂ ◌∷◌ {x = 0 + n} {y = n} (omega arith) (unmark-mark ns)

abbrev toy : Primitives
unfolding mark unmark
toy = record {
  scrypt = λ master salt n r p. master;
  sha256 = λ b. b;
  b64encode = mark;
  b64decode = λ s. some (unmark 0 s);
  aes_gcm_encrypt = λ key nonce plain associated. 0 ∷ plain;
  aes_gcm_decrypt = λ key nonce cipher associated. some (drop 1 cipher);
}

toy-IsSound : IsSound toy
unfolding toy
toy-IsSound = record {
  decrypts = λ key nonce plain associated. refl;
  tagged = λ key nonce plain associated. omega arith;
  decodes = λ b. ap some (unmark-mark b);
}

abbrev env : Env
env = record {
  now = 7;
  fresh_salt = 1 ∷ [];
  nonce = 0 ∷ 1 ∷ 2 ∷ 3 ∷ 4 ∷ 5 ∷ 6 ∷ 7 ∷ 8 ∷ 9 ∷ 10 ∷ 11 ∷ [];
}

decrypt-encrypt_example :
    decrypt_bytes toy
      (encrypt_bytes toy (5 ∷ []) (9 ∷ []) none 16384 8 1 (1 ∷ []) env.nonce)
      (9 ∷ [])
    ≡ ok (5 ∷ [])
decrypt-encrypt_example =
    decrypt-encrypt toy toy-IsSound (5 ∷ []) (9 ∷ []) none 16384 8 1 (1 ∷ []) env.nonce refl

abbrev old_version : SecretVersion
old_version = record { version = 1; value = "old"; status = active; created_at = 3 }

abbrev broker_key : SecretEntry
broker_key = record {
  classification = api;
  description = "";
  current_version = 1;
  versions = old_version ∷ [];
}

abbrev store : SecretStore
store = record {
  master_secret = 9 ∷ [];
  payload = record { secrets = ("a", broker_key) ∷ [] };
  files = record { target = some "before"; temp = none };
}

-- A JSON that knows this one payload and this one document.
abbrev json_of : SecretStorePayload → StoreDocument → Json
json_of payload document = record {
  dump_payload = λ _. 5 ∷ [];
  validate_payload = λ _. some payload;
  dumps = λ _. "document";
  loads = λ _. some document;
}

abbrev blank : Json
blank =
    json_of (record { secrets = [] })
      (encrypt_bytes toy (5 ∷ []) (9 ∷ []) none 16384 8 1 (1 ∷ []) env.nonce)

abbrev json : SecretStore → Json
json s = json_of s.payload (sealed toy blank env s)

b_IsValid : validate_secret_name "b" ≡ ok tt
unfolding validate_secret_name matches_secret_name is_name_start
b_IsValid = refl

a_IsValid : validate_secret_name "a" ≡ ok tt
unfolding validate_secret_name matches_secret_name is_name_start
a_IsValid = refl

new_not_empty : ◌≢◌ {A = String} "new" ""
new_not_empty e = grind (arith, (string_eq.beq_iff "new" "").1 e)

store-IsStore : IsStore store
unfolding values
store-IsStore = (record { counted = refl; history = (refl, refl) }, tt)

get-set_secret_example :
    get_secret "a" (set_secret toy blank env "b" "new" database "" store).1 ≡ get_secret "a" store
get-set_secret_example =
    get-set_secret toy blank env "b" "new" database "" store "a" b_IsValid new_not_empty

operations-IsStore_example :
    IsStore (set_secret toy blank env "b" "new" database "" store).1
    × IsStore (rotate_secret toy blank env "b" "new" store).1
operations-IsStore_example =
    operations-IsStore toy blank env "b" "new" database "" store store-IsStore

save_is_atomic_example :
    let crashed = perform_all (take 2 (save_effects toy (json store) env store)) store.files in
    (load_text toy (json store) store.master_secret crashed.target
      ≡ load_text toy (json store) store.master_secret store.files.target)
    ⊎ (load_text toy (json store) store.master_secret crashed.target ≡ ok store.payload)
unfolding sealed
save_is_atomic_example =
    save_is_atomic toy (json store) toy-IsSound env store 2 refl
      (record { payload = refl; document = refl })

abbrev after_blank : SecretStore
after_blank = (set_secret toy blank env "b" "new" database "" store).1

abbrev after : SecretStore
after = (set_secret toy (json after_blank) env "b" "new" database "" store).1

set_secret_saves_example : load toy (json after_blank) store.master_secret after.files ≡ ok after
unfolding set_secret commit save sealed validate_secret_name matches_secret_name is_name_start get
    push_version entry_or_new
set_secret_saves_example =
    set_secret_saves toy (json after_blank) toy-IsSound env "b" "new" database "" store (true, 1)
      refl (record { payload = refl; document = refl }) refl
