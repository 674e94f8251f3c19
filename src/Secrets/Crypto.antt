-- ===== src/Secrets/Crypto.antt =====
-- python/apexquant-secrets/crypto.py: the cipher of the store file. Scrypt, SHA-256, base64 and
-- AES-256-GCM are other packages' code: `Primitives` holds them, and `IsSound` what they document.
use lord_hermes.Common.{
  ℕ, ◌<◌, ◌≡◌, false, List, ◌++◌, [], ◌∷◌, Option, none, some, String, arith, ◌==◌, not, leb,
  length, length-append, take, drop, take-append, drop-append, Outcome, ok, err, ◌>>=◌, ◌>>◌, guard,
  nat_eq, string_eq,
}

abbrev pub Bytes : Type 0
Bytes = List ℕ

pub record Primitives : Type 0 where
  pub scrypt : Bytes → Bytes → ℕ → ℕ → ℕ → Bytes
  pub sha256 : Bytes → Bytes
  pub b64encode : Bytes → String
  pub b64decode : String → Option Bytes
  pub aes_gcm_encrypt : Bytes → Bytes → Bytes → Bytes → Bytes
  pub aes_gcm_decrypt : Bytes → Bytes → Bytes → Bytes → Option Bytes

-- What is encrypted is decrypted by the same key, nonce and associated data; a ciphertext carries a
-- tag, so it is not empty; base64 is read back.
pub record IsSound (c : Primitives) : Type 0 where
  pub decrypts :
      (key nonce plain associated : Bytes)
      → c.aes_gcm_decrypt key nonce (c.aes_gcm_encrypt key nonce plain associated) associated
        ≡ some plain
  pub tagged :
      (key nonce plain associated : Bytes)
      → 0 < length (c.aes_gcm_encrypt key nonce plain associated)
  pub decodes : (b : Bytes) → c.b64decode (c.b64encode b) ≡ some b

pub data CryptoError : Type 0 where
  invalid_document invalid_payload wrong_key : CryptoError
  unsupported_version : ℕ → CryptoError
  unsupported_kdf : String → CryptoError

-- The JSON document of the store file. A field is `none` where it is missing or where the `int` or
-- `str` of `decrypt_bytes` fails on it.
pub record StoreDocument : Type 0 where
  pub version : Option ℕ
  pub kdf_name : Option String
  pub n : Option ℕ
  pub r : Option ℕ
  pub p : Option ℕ
  pub salt : Option String
  pub key_id : Option String
  pub cipher_name : Option String
  pub payload : Option String

abbrev store_version : ℕ
store_version = 1

-- b"apexquant.ultra.secrets.v1"
abbrev associated_data : Bytes
associated_data =
    97 ∷ 112 ∷ 101 ∷ 120 ∷ 113 ∷ 117 ∷ 97 ∷ 110 ∷ 116 ∷ 46 ∷ 117 ∷ 108 ∷ 116 ∷ 114 ∷ 97 ∷ 46 ∷ 115
    ∷ 101 ∷ 99 ∷ 114 ∷ 101 ∷ 116 ∷ 115 ∷ 46 ∷ 118 ∷ 49 ∷ []

abbrev or_invalid : {A : Type 0} → Option A → Outcome CryptoError A
or_invalid none = err invalid_document
or_invalid (some a) = ok a

abbrev or_wrong_key : Option Bytes → Outcome CryptoError Bytes
or_wrong_key none = err wrong_key
or_wrong_key (some plain) = ok plain

module _ (c : Primitives) where
  derive_key : Bytes → Bytes → ℕ → ℕ → ℕ → Bytes
  derive_key master_secret salt n r p = c.scrypt master_secret salt n r p

  key_id_from_key : Bytes → String
  key_id_from_key key = c.b64encode (c.sha256 key)

  -- `fresh_salt` and `nonce` are what `os.urandom` returns.
  seal_under : Bytes → Bytes → Bytes → Bytes → ℕ → ℕ → ℕ → StoreDocument
  unfolding derive_key key_id_from_key
  seal_under plaintext master_secret nonce salt n r p =
      let key = derive_key master_secret salt n r p in
      record {
        version = some store_version;
        kdf_name = some "scrypt";
        n = some n;
        r = some r;
        p = some p;
        salt = some (c.b64encode salt);
        key_id = some (key_id_from_key key);
        cipher_name = some "AES-256-GCM";
        payload =
            some (c.b64encode (nonce ++ c.aes_gcm_encrypt key nonce plaintext associated_data));
      }

  pub encrypt_bytes : Bytes → Bytes → Option Bytes → ℕ → ℕ → ℕ → Bytes → Bytes → StoreDocument
  unfolding seal_under
  encrypt_bytes plaintext master_secret none n r p fresh_salt nonce =
      seal_under plaintext master_secret nonce fresh_salt n r p
  encrypt_bytes plaintext master_secret (some salt) n r p fresh_salt nonce =
      seal_under plaintext master_secret nonce salt n r p

  pub decrypt_bytes : StoreDocument → Bytes → Outcome CryptoError Bytes
  unfolding derive_key
  decrypt_bytes document master_secret = do
    version ← or_invalid document.version
    kdf_name ← or_invalid document.kdf_name
    n ← or_invalid document.n
    r ← or_invalid document.r
    p ← or_invalid document.p
    salt_text ← or_invalid document.salt
    salt ← or_invalid (c.b64decode salt_text)
    payload_text ← or_invalid document.payload
    payload ← or_invalid (c.b64decode payload_text)
    guard (version == store_version) (unsupported_version version)
    guard (kdf_name == "scrypt") (unsupported_kdf kdf_name)
    guard (not (leb (length payload) 12)) invalid_payload
    let key = derive_key master_secret salt n r p
    or_wrong_key (c.aes_gcm_decrypt key (take 12 payload) (drop 12 payload) associated_data)

  module _ (sound : IsSound c) where
    long_enough :
        (key nonce plain : Bytes)
        → length nonce ≡ 12
        → leb (length (nonce ++ c.aes_gcm_encrypt key nonce plain associated_data)) 12 ≡ false
    long_enough key nonce plain h = ground (
      arith,
      sound.tagged key nonce plain associated_data,
      length-append nonce (c.aes_gcm_encrypt key nonce plain associated_data),
    )

    unseal-seal :
        (plaintext master_secret nonce salt : Bytes) (n r p : ℕ)
        → length nonce ≡ 12
        → decrypt_bytes (seal_under plaintext master_secret nonce salt n r p) master_secret
          ≡ ok plaintext
    unfolding seal_under decrypt_bytes
    unseal-seal plaintext master_secret nonce salt n r p h = rw (sound.decodes salt) (
        rw (sound.decodes _) (
          rw (long_enough _ nonce plaintext h) (
            rw (take-append 12 nonce _ h) (
              rw (drop-append 12 nonce _ h)
                (rw (sound.decrypts _ nonce plaintext associated_data))))))

    -- Whatever the scrypt parameters and the salt, given or fresh, decrypting what was encrypted
    -- under the same master secret gives the plaintext back, if the nonce has its 12 bytes.
    pub decrypt-encrypt :
        (plaintext master_secret : Bytes) (salt : Option Bytes) (n r p : ℕ)
        (fresh_salt nonce : Bytes)
        → length nonce ≡ 12
        → decrypt_bytes
            (encrypt_bytes plaintext master_secret salt n r p fresh_salt nonce)
            master_secret
          ≡ ok plaintext
    unfolding encrypt_bytes decrypt_bytes
    decrypt-encrypt plaintext master_secret none n r p fresh_salt nonce h =
        unseal-seal plaintext master_secret nonce fresh_salt n r p h
    decrypt-encrypt plaintext master_secret (some salt) n r p fresh_salt nonce h =
        unseal-seal plaintext master_secret nonce salt n r p h
