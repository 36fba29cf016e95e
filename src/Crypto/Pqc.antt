-- ===== src/Crypto/Pqc.antt =====
-- uxsp/crypto/pqc.py: ML-KEM and ML-DSA by liboqs.
use uxsp.Prelude.{◌≡◌, String, Bool, true, false, not, str_eq, if◌then◌else◌, List, [], ◌∷◌}
use uxsp.Prelude.Result.{
  Result, ok, err, ◌>>=◌, ◌>>◌, guard, value_error, type_error, runtime_error,
}
use uxsp.Prelude.Dict.{Dict}
use uxsp.Crypto.Symmetric.{Bytes}
use uxsp.Crypto.Asymmetric.{pair_dict}

-- `oqs`, with the name of an algorithm first. A key pair and an encapsulation come from random bytes;
-- an encapsulation is a ciphertext and a shared secret.
pub record Oqs : Type 0 where
  pub kem_keypair : String → Bytes → Bytes × Bytes
  pub encap_secret : String → Bytes → Bytes → Result (Bytes × Bytes)
  pub decap_secret : String → Bytes → Bytes → Result Bytes
  pub sig_keypair : String → Bytes → Bytes × Bytes
  pub sign : String → Bytes → Bytes → Result Bytes
  -- message, signature, public key
  pub verify : String → Bytes → Bytes → Bytes → Result Bool
  pub decap-encap :
      (alg : String) (r coins ciphertext secret : Bytes)
      → encap_secret alg (kem_keypair alg r).0 coins ≡ ok (ciphertext, secret)
      → decap_secret alg (kem_keypair alg r).1 ciphertext ≡ ok secret
  pub verify-sign :
      (alg : String) (r message signature : Bytes)
      → sign alg (sig_keypair alg r).1 message ≡ ok signature
      → verify alg message signature (sig_keypair alg r).0 ≡ ok true

unfoldable pub mem_text : String → List String → Bool
mem_text s [] = false
mem_text s (t ∷ ts) = if str_eq s t then true else mem_text s ts

-- `for candidate in (first, second): if candidate in available: return candidate`
abbrev pub first_available : String → String → List String → Result String
first_available first second available =
    if mem_text first available
    then ok first
    else if mem_text second available
    then ok second
    else err runtime_error

unfoldable pub detect_kem : List String → Result String
detect_kem available = first_available "ML-KEM-768" "Kyber768" available

unfoldable pub detect_sig : List String → Result String
detect_sig available = first_available "ML-DSA-65" "Dilithium3" available

-- `_KEM_ALGORITHM` and `_SIG_ALGORITHM`; empty when none is available.
pub record Algorithms : Type 0 where
  pub kem : String
  pub sig : String

abbrev pub or_unavailable : Result Algorithms → Algorithms
or_unavailable (ok a) = a
or_unavailable (err e) = record { kem = ""; sig = "" }

-- The module-level `try`: when either is missing, both are unavailable.
unfoldable pub detect : List String → List String → Algorithms
detect kems sigs =
    or_unavailable
      (detect_kem kems >>= λ kem. detect_sig sigs >>= λ sig. ok (record { kem = kem; sig = sig }))

abbrev pub available : String → Result (Unit {0})
available alg = guard (not (str_eq alg "")) runtime_error

-- `except (_OQS_MECH_ERROR, ValueError, TypeError, RuntimeError): return False`; the package's own
-- error is a `runtime_error`.
abbrev pub false_if_refused : Result Bool → Result Bool
false_if_refused (ok b) = ok b
false_if_refused (err value_error) = ok false
false_if_refused (err type_error) = ok false
false_if_refused (err runtime_error) = ok false
false_if_refused (err e) = err e

-- `or "unavailable"`
abbrev pub or_text : String → String
or_text alg = if str_eq alg "" then "unavailable" else alg

module _ (o : Oqs) (alg : Algorithms) where
  unfoldable pub generate_kem_keypair : Bytes → Result (Dict Bytes)
  generate_kem_keypair random = do available alg.kem; ok (pair_dict (o.kem_keypair alg.kem random))

  -- The ciphertext and the shared secret.
  unfoldable pub encapsulate : Bytes → Bytes → Result (Bytes × Bytes)
  encapsulate recipient_public_key coins = do
    available alg.kem
    o.encap_secret alg.kem recipient_public_key coins

  unfoldable pub decapsulate : Bytes → Bytes → Result Bytes
  decapsulate ciphertext private_key = do
    available alg.kem
    o.decap_secret alg.kem private_key ciphertext

  unfoldable pub generate_sig_keypair : Bytes → Result (Dict Bytes)
  generate_sig_keypair random = do available alg.sig; ok (pair_dict (o.sig_keypair alg.sig random))

  unfoldable pub pqc_sign : Bytes → Bytes → Result Bytes
  pqc_sign message private_key = do available alg.sig; o.sign alg.sig private_key message

  unfoldable pub pqc_verify : Bytes → Bytes → Bytes → Result Bool
  pqc_verify message signature public_key = do
    available alg.sig
    false_if_refused (o.verify alg.sig message signature public_key)

  unfoldable pub active_algorithms : Dict String
  active_algorithms = ("kem", or_text alg.kem) ∷ ("sig", or_text alg.sig) ∷ []
