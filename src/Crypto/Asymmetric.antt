-- ===== src/Crypto/Asymmetric.antt =====
-- uxsp/crypto/asymmetric.py: X25519 and Ed25519 over raw bytes.
use uxsp.Prelude.{◌≡◌, String, Bool, true, false, [], ◌∷◌}
use uxsp.Prelude.Result.{
  Result, ok, err, ◌>>=◌, value_error, attribute_error, invalid_signature, unsupported_algorithm,
}
use uxsp.Prelude.Dict.{Dict}
use uxsp.Crypto.Symmetric.{Bytes}

-- The package `cryptography`. A key pair is generated from random bytes, the public key first; bytes
-- that are no key are a `value_error`.
pub record Curves : Type 0 where
  pub x25519_keypair : Bytes → Bytes × Bytes
  pub x25519_exchange : Bytes → Bytes → Result Bytes
  pub ed25519_keypair : Bytes → Bytes × Bytes
  pub ed25519_sign : Bytes → Bytes → Result Bytes
  -- public key, signature, message
  pub ed25519_verify : Bytes → Bytes → Bytes → Result (Unit {0})
  -- both sides compute the same secret
  pub agreement :
      (a b : Bytes)
      → x25519_exchange (x25519_keypair a).1 (x25519_keypair b).0
        ≡ x25519_exchange (x25519_keypair b).1 (x25519_keypair a).0
  -- a signature verifies under the public key of the pair
  pub verify-sign :
      (r message signature : Bytes)
      → ed25519_sign (ed25519_keypair r).1 message ≡ ok signature
      → ed25519_verify (ed25519_keypair r).0 signature message ≡ ok tt

-- A pair as a dictionary.
abbrev pub pair_dict : Bytes × Bytes → Dict Bytes
pair_dict (public, private) = ("private_key", private) ∷ ("public_key", public) ∷ []

-- The tests of the `except` clause.
abbrev pub false_if_invalid : Result (Unit {0}) → Result Bool
false_if_invalid (ok u) = ok true
false_if_invalid (err invalid_signature) = ok false
false_if_invalid (err unsupported_algorithm) = ok false
false_if_invalid (err value_error) = ok false
false_if_invalid (err e) = err e

abbrev pub false_if_malformed : Result Bool → Result Bool
false_if_malformed (ok b) = ok b
false_if_malformed (err value_error) = ok false
false_if_malformed (err attribute_error) = ok false
false_if_malformed (err e) = err e

module _ (c : Curves) where
  unfoldable pub generate_exchange_keypair : Bytes → Dict Bytes
  generate_exchange_keypair random = pair_dict (c.x25519_keypair random)

  unfoldable pub compute_shared_secret : Bytes → Bytes → Result Bytes
  compute_shared_secret my_private_key their_public_key =
      c.x25519_exchange my_private_key their_public_key

  unfoldable pub generate_signing_keypair : Bytes → Dict Bytes
  generate_signing_keypair random = pair_dict (c.ed25519_keypair random)

  unfoldable pub sign : Bytes → Bytes → Result Bytes
  sign message private_key = c.ed25519_sign private_key message

  unfoldable pub verify : Bytes → Bytes → Bytes → Result Bool
  verify message signature public_key =
      false_if_invalid (c.ed25519_verify public_key signature message)

  -- `encode` is `str.encode`, and `to_hex`, `from_hex` are `bytes.hex`, `bytes.fromhex`.
  unfoldable pub sign_str : (String → Bytes) → (Bytes → String) → String → Bytes → Result String
  sign_str encode to_hex message private_key = do
    signature ← sign (encode message) private_key
    ok (to_hex signature)

  unfoldable pub verify_str :
      (String → Bytes) → (String → Result Bytes) → String → String → Bytes → Result Bool
  verify_str encode from_hex message signature_hex public_key =
      false_if_malformed
        (from_hex signature_hex >>= λ signature. verify (encode message) signature public_key)
