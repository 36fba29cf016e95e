-- ===== src/Crypto/Symmetric.antt =====
-- uxsp/crypto/symmetric.py: `encrypt`, `decrypt` and `zeroize` over bytes. `AESGCM` is a
-- third-party class: a parameter, with its documented round trip as a law.
use uxsp.Prelude.{ℕ, ◌≡◌, List, map, length, Option, none, some, ◌==◌, ==_iff}
use uxsp.Prelude.Result.{Result, ok, err, ◌>>=◌, ◌>>◌, guard, value_error}

abbrev pub Bytes : Type 0
Bytes = List ℕ

abbrev pub key_size : ℕ
key_size = 32

abbrev pub nonce_size : ℕ
nonce_size = 12

-- `encrypt key nonce data associated_data`, and `decrypt`, which answers `none` for `InvalidTag`.
pub record AesGcm : Type 0 where
  pub encrypt : Bytes → Bytes → Bytes → Bytes → Bytes
  pub decrypt : Bytes → Bytes → Bytes → Bytes → Option Bytes
  pub decrypt-encrypt :
      (key nonce plain ad : Bytes)
      → length key ≡ key_size
      → length nonce ≡ nonce_size
      → decrypt key nonce (encrypt key nonce plain ad) ad ≡ some plain

pub record Sealed : Type 0 where
  pub ciphertext : Bytes
  pub nonce : Bytes

-- `nonce` is what `os.urandom(12)` returned.
unfoldable pub encrypt : AesGcm → Bytes → Bytes → Bytes → Bytes → Result Sealed
encrypt aes nonce plain key ad = do
  guard (length key == key_size) value_error
  ok (record { ciphertext = aes.encrypt key nonce plain ad; nonce = nonce })

abbrev pub tag_checked : Option Bytes → Result Bytes
tag_checked none = err value_error
tag_checked (some plain) = ok plain

unfoldable pub decrypt : AesGcm → Bytes → Bytes → Bytes → Bytes → Result Bytes
decrypt aes ciphertext nonce key ad = do
  guard (length key == key_size) value_error
  guard (length nonce == nonce_size) value_error
  tag_checked (aes.decrypt key nonce ciphertext ad)

-- The buffer is overwritten in place.
abbrev pub zeroize : Bytes → Bytes
zeroize = map (λ _. 0)

-- What `encrypt` sealed, `decrypt` opens under the same key and associated data.
pub decrypt-encrypt :
    (aes : AesGcm) (nonce plain key ad : Bytes)
    → length key ≡ key_size
    → length nonce ≡ nonce_size
    → (encrypt aes nonce plain key ad >>= λ x. decrypt aes x.ciphertext x.nonce key ad) ≡ ok plain
unfolding encrypt decrypt
decrypt-encrypt aes nonce plain key ad k n = rw (
  (==_iff (length key) key_size).1 k,
  (==_iff (length nonce) nonce_size).1 n,
  aes.decrypt-encrypt key nonce plain ad k n,
)
