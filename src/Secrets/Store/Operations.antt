-- ===== src/Secrets/Store/Operations.antt =====
-- python/apexquant-secrets/store.py: the operations of `LocalEncryptedSecretStore`. The JSON text
-- of the payload and of the document comes from pydantic and `json`, which are other packages:
-- `Json` holds them. The clock and `os.urandom` are read through `Env`.
use Prim.Native.String.{compare as compare_text}
use Prim.Native.Nat.{Ordering}
use lord_hermes.Common.{
  ℕ, ◌≡◌, Bool, not, List, [], ◌∷◌, map, Option, none, some, String, ◌==◌, string_eq, get, put,
  is_none, if◌then◌else◌, Outcome, ok, err, ◌>>=◌, ◌>>◌,
}
use lord_hermes.Common.Text.{codes}
use lord_hermes.Secrets.Models.{
  SecretClassification, SecretEntry, SecretMetadata, SecretStorePayload,
}
use lord_hermes.Secrets.Crypto.{
  Bytes, Primitives, CryptoError, StoreDocument, encrypt_bytes, decrypt_bytes,
}
use lord_hermes.Secrets.Store.Names.{matches_secret_name}
use lord_hermes.Secrets.Store.Entries.{push_version, find_active}

pub data SecretStoreError : Type 0 where
  invalid_name empty_value store_missing invalid_json invalid_payload : SecretStoreError
  missing no_active_version : String → SecretStoreError
  crypto : CryptoError → SecretStoreError

pub record Json : Type 0 where
  pub dump_payload : SecretStorePayload → Bytes
  pub validate_payload : Bytes → Option SecretStorePayload
  pub dumps : StoreDocument → String
  pub loads : String → Option StoreDocument

-- Of this payload and of this document, what is written as JSON is read back.
pub record IsFaithful (j : Json) (p : SecretStorePayload) (d : StoreDocument) : Type 0 where
  pub payload : j.validate_payload (j.dump_payload p) ≡ some p
  pub document : j.loads (j.dumps d) ≡ some d

pub record Env : Type 0 where
  pub now : ℕ
  pub fresh_salt : Bytes
  pub nonce : Bytes

-- The store's file and its temporary file, each with its text if it is there.
pub record Files : Type 0 where
  pub target : Option String
  pub temp : Option String

pub record SecretStore : Type 0 where
  pub master_secret : Bytes
  pub payload : SecretStorePayload
  pub files : Files

-- The effects of `save` on the disk, in their order. `os.chmod` changes no text.
pub data FileEffect : Type 0 where
  write_temp : String → FileEffect
  chmod_temp : FileEffect
  replace_target : FileEffect

unfoldable pub perform : FileEffect → Files → Files
perform (write_temp text) f = record f { temp = some text }
perform chmod_temp f = f
perform replace_target f = record f { target = f.temp; temp = none }

unfoldable pub perform_all : List FileEffect → Files → Files
unfolding perform
perform_all [] f = f
perform_all (e ∷ es) f = perform_all es (perform e f)

unfoldable pub validate_secret_name : String → Outcome SecretStoreError (Unit {0})
validate_secret_name name =
    if not (matches_secret_name (codes name)) then err invalid_name else ok tt

-- `SecretEntry(...)` where the name is new
unfoldable pub entry_or_new : SecretClassification → String → Option SecretEntry → SecretEntry
entry_or_new classification description none = record {
  classification = classification;
  description = description;
  current_version = 0;
  versions = [];
}
entry_or_new classification description (some entry) = entry

unfoldable pub relabel : SecretClassification → String → SecretEntry → SecretEntry
relabel classification description entry = record entry {
  classification = classification;
  description = if description == "" then entry.description else description;
}

abbrev metadata_of : String → SecretEntry → SecretMetadata
metadata_of name entry = record {
  name = name;
  classification = entry.classification;
  description = entry.description;
  current_version = entry.current_version;
}

insert_sorted : String × SecretEntry → List (String × SecretEntry) → List (String × SecretEntry)
insert_sorted item [] = item ∷ []
insert_sorted (k, e) ((j, f) ∷ rest) = elim (compare_text k j) [
  | Ordering.gt ↦ (j, f) ∷ insert_sorted (k, e) rest
  | _ ↦ (k, e) ∷ (j, f) ∷ rest
]

-- `sorted(secrets.keys())`, each with its entry
sort_by_name : List (String × SecretEntry) → List (String × SecretEntry)
unfolding insert_sorted
sort_by_name [] = []
sort_by_name (item ∷ rest) = insert_sorted item (sort_by_name rest)

module _ (c : Primitives) (j : Json) where
  -- The document that `save` writes.
  unfoldable pub sealed : Env → SecretStore → StoreDocument
  sealed env store =
      encrypt_bytes c (j.dump_payload store.payload) store.master_secret none 16384 8 1
        env.fresh_salt env.nonce

  unfoldable pub save_effects : Env → SecretStore → List FileEffect
  unfolding sealed
  save_effects env store =
      write_temp (j.dumps (sealed env store)) ∷ chmod_temp ∷ replace_target ∷ []

  unfoldable pub save : Env → SecretStore → SecretStore
  unfolding save_effects perform_all
  save env store = record store { files = perform_all (save_effects env store) store.files }

  unfoldable pub commit : Env → String → SecretEntry → SecretStore → SecretStore
  unfolding save
  commit env name entry store =
      save env
        (record store { payload = record { secrets = put name entry store.payload.secrets } })

  parse_payload : Option SecretStorePayload → Outcome SecretStoreError SecretStorePayload
  parse_payload none = err invalid_payload
  parse_payload (some payload) = ok payload

  decrypted : Outcome CryptoError Bytes → Outcome SecretStoreError SecretStorePayload
  unfolding parse_payload
  decrypted (err e) = err (crypto e)
  decrypted (ok plaintext) = parse_payload (j.validate_payload plaintext)

  parse_document : Bytes → Option StoreDocument → Outcome SecretStoreError SecretStorePayload
  unfolding decrypted
  parse_document master_secret none = err invalid_json
  parse_document master_secret (some document) = decrypted (decrypt_bytes c document master_secret)

  unfoldable pub load_text : Bytes → Option String → Outcome SecretStoreError SecretStorePayload
  unfolding parse_document
  load_text master_secret none = err store_missing
  load_text master_secret (some raw) = parse_document master_secret (j.loads raw)

  unfoldable pub load : Bytes → Files → Outcome SecretStoreError SecretStore
  unfolding load_text
  load master_secret files = do
    payload ← load_text master_secret files.target
    ok (record { master_secret = master_secret; payload = payload; files = files })

  unfoldable pub create : Env → Bytes → Files → Outcome SecretStoreError SecretStore
  unfolding load save
  create env master_secret files =
      if not (is_none files.target)
      then load master_secret files
      else ok (
          save env (record {
            master_secret = master_secret;
            payload = record { secrets = [] };
            files = files;
          }))

  unfoldable pub set_secret :
      Env
      → String
      → String
      → SecretClassification
      → String
      → SecretStore
      → Outcome SecretStoreError (Bool × ℕ) × SecretStore
  unfolding commit
  set_secret env name value classification description store = elim (validate_secret_name name) [
    | err e ↦ (err e, store)
    | ok _ ↦
        if value == ""
        then (err empty_value, store)
        else let old = get name store.payload.secrets in
          let entry = push_version (entry_or_new classification description old) value env.now in
          (
            ok (is_none old, entry.current_version),
            commit env name (relabel classification description entry) store,
          )
  ]

  unfoldable pub rotate_entry :
      Env
      → String
      → String
      → Option SecretEntry
      → SecretStore
      → Outcome SecretStoreError ℕ × SecretStore
  unfolding commit
  rotate_entry env name value none store = (err (missing name), store)
  rotate_entry env name value (some entry) store =
      if value == ""
      then (err empty_value, store)
      else let entry' = push_version entry value env.now in
        (ok entry'.current_version, commit env name entry' store)

  unfoldable pub rotate_secret :
      Env → String → String → SecretStore → Outcome SecretStoreError ℕ × SecretStore
  unfolding rotate_entry
  rotate_secret env name value store = elim (validate_secret_name name) [
    | err e ↦ (err e, store)
    | ok _ ↦ rotate_entry env name value (get name store.payload.secrets) store
  ]

unfoldable pub read_value : String → Option SecretEntry → Outcome SecretStoreError String
read_value name none = err (missing name)
read_value name (some entry) = elim (find_active entry.current_version entry.versions) [
  | none ↦ err (no_active_version name)
  | some value ↦ ok value
]

unfoldable pub get_secret : String → SecretStore → Outcome SecretStoreError String
unfolding read_value
get_secret name store = do
  validate_secret_name name
  read_value name (get name store.payload.secrets)

read_metadata : String → Option SecretEntry → Outcome SecretStoreError SecretMetadata
read_metadata name none = err (missing name)
read_metadata name (some entry) = ok (metadata_of name entry)

unfoldable pub get_metadata : String → SecretStore → Outcome SecretStoreError SecretMetadata
unfolding read_metadata
get_metadata name store = do
  validate_secret_name name
  read_metadata name (get name store.payload.secrets)

unfoldable pub list_metadata : SecretStore → List SecretMetadata
unfolding sort_by_name
list_metadata store = map (λ item. metadata_of item.0 item.1) (sort_by_name store.payload.secrets)
