-- ===== src/Crypto/Kdf.antt =====
-- uxsp/crypto/kdf.py: derivation of keys from secrets and from passwords.
use uxsp.Prelude.{
  ℕ, suc, ◌≡◌, String, Bool, true, false, leb, ltb, if◌then◌else◌, length, Option, none, some,
}
use uxsp.Prelude.Result.{Result, ok, err, ◌>>=◌, ◌>>◌, guard, value_error}
use uxsp.Prelude.Value.{ℤ, pos, negsuc}
use uxsp.Crypto.Symmetric.{Bytes}

-- HKDF-SHA256 of `length`, `salt`, `info` and the input; the package refuses more than 255 * 32 bytes.
pub record Hkdf : Type 0 where
  pub derive : ℕ → Option Bytes → Bytes → Bytes → Bytes
  pub length-derive :
      (n : ℕ) (salt : Option Bytes) (info ikm : Bytes) → length (derive n salt info ikm) ≡ n

abbrev pub max_hkdf_length : ℕ
max_hkdf_length = 8160

unfoldable pub derive_key : Hkdf → Bytes → ℤ → Option Bytes → Bytes → Result Bytes
derive_key h ikm (pos (suc n)) salt info =
    if ltb max_hkdf_length (suc n) then err value_error else ok (h.derive (suc n) salt info ikm)
derive_key h ikm _ salt info = err value_error

pub record SessionKeys : Type 0 where
  pub encryption : Bytes
  pub integrity : Bytes
  pub session_id : Bytes

-- `encode` is `str.encode`.
unfoldable pub derive_multiple_keys :
    (String → Bytes) → Hkdf → Bytes → Option Bytes → Result SessionKeys
derive_multiple_keys encode h ikm salt = do
  encryption ← derive_key h ikm (pos 32) salt (encode "UXSP-encryption-v1")
  integrity ← derive_key h ikm (pos 32) salt (encode "UXSP-integrity-v1")
  session_id ← derive_key h ikm (pos 16) salt (encode "UXSP-session-id-v1")
  ok (record { encryption = encryption; integrity = integrity; session_id = session_id })

-- The parameters of Argon2id.
pub record Cost : Type 0 where
  pub length : ℤ
  pub time_cost : ℤ
  pub memory_cost : ℤ
  pub parallelism : ℤ

-- `argon2`: the raw hash of a password and a salt, and its password hasher.
pub record Argon2 : Type 0 where
  pub hash_secret_raw : Bytes → Bytes → Cost → Result Bytes
  pub hash : String → String
  pub verify : String → String → Result (Unit {0})
  pub check_needs_rehash : String → Result Bool

-- `n >= least`
abbrev pub reaches : ℕ → ℤ → Bool
reaches least (pos n) = leb least n
reaches least (negsuc n) = false

pub record PasswordKey : Type 0 where
  pub key : Bytes
  pub salt : Bytes

-- The salt that is used; `random` is what `os.urandom(16)` returned.
abbrev pub salt_or_random : Bytes → Option Bytes → Result Bytes
salt_or_random random none = ok random
salt_or_random random (some salt) = if ltb (length salt) 8 then err value_error else ok salt

unfoldable pub derive_key_from_password :
    (String → Bytes) → Argon2 → Bytes → String → Option Bytes → Cost → Result PasswordKey
derive_key_from_password encode a random password salt cost = do
  guard (reaches 1 cost.length) value_error
  guard (reaches 1 cost.time_cost) value_error
  guard (reaches 8 cost.memory_cost) value_error
  guard (reaches 1 cost.parallelism) value_error
  used ← salt_or_random random salt
  key ← a.hash_secret_raw (encode password) used cost
  ok (record { key = key; salt = used })

unfoldable pub argon2id_hash : Argon2 → String → String
argon2id_hash a password = a.hash password

-- The three exceptions of the package are `value_error`.
abbrev pub verified : Result (Unit {0}) → Result Bool
verified (ok u) = ok true
verified (err value_error) = ok false
verified (err e) = err e

unfoldable pub argon2id_verify : Argon2 → String → String → Result Bool
argon2id_verify a stored_hash password = verified (a.verify stored_hash password)

unfoldable pub argon2id_needs_rehash : Argon2 → String → Result Bool
argon2id_needs_rehash a stored_hash = a.check_needs_rehash stored_hash
