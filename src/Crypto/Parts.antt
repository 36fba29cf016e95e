-- ===== src/Crypto/Parts.antt =====
-- uxsp/crypto/hybrid.py: the packages it calls, the fields of an envelope and the tests on them.
-- Texts are of Unicode scalar values, so that `str.encode` is total.
use uxsp.Prelude.{
  ℕ, suc, ◌+◌, ◌/◌, ◌%◌, ◌≡◌, String, Bool, true, false, ltb, str_eq, if◌then◌else◌, length, Option,
  none, some, List, [], ◌∷◌, ◌++◌,
}
use uxsp.Prelude.Result.{
  Result, ok, err, ◌>>=◌, value_error, type_error, key_error, attribute_error, hybrid_validation,
}
use uxsp.Prelude.Value.{ℤ, pos, negsuc, Value, str, has_text}
use uxsp.Crypto.Symmetric.{Bytes, AesGcm}
use uxsp.Crypto.Kdf.{Hkdf}
use uxsp.Crypto.Asymmetric.{Curves}
use uxsp.Crypto.Pqc.{Oqs, Algorithms}

-- What the code relies on: the packages, the algorithms that were found, and Python's conversions
-- `str.encode`, `str(n)`, `int(v)`, `bytes.hex` and `bytes.fromhex`.
pub record Packages : Type 0 where
  pub aes : AesGcm
  pub hkdf : Hkdf
  pub curves : Curves
  pub oqs : Oqs
  pub algorithms : Algorithms
  pub encode : String → Bytes
  pub show : ℤ → String
  pub to_int : Value → Result ℤ
  pub to_hex : Bytes → String
  pub from_hex : String → Result Bytes
  pub from_hex-to_hex : (b : Bytes) → from_hex (to_hex b) ≡ ok b

-- `struct.pack(">I", n)`, for an `n` below 2 ^ 32.
abbrev pub be32 : ℕ → Bytes
be32 n = (n / 16777216) ∷ (n / 65536 % 256) ∷ (n / 256 % 256) ∷ (n % 256) ∷ []

abbrev pub max_field_length : ℕ
max_field_length = 4294967295

unfoldable pub bind_fields : List Bytes → Result Bytes
bind_fields [] = ok []
bind_fields (f ∷ fs) =
    let rest = bind_fields fs in
    if ltb max_field_length (length f)
    then err value_error
    else rest >>= λ bound. ok (be32 (length f) ++ (f ++ bound))

-- The random bytes of one exchange.
pub record Coins : Type 0 where
  pub ephemeral : Bytes
  pub kem : Bytes

pub record ExchangeResult : Type 0 where
  pub shared_key : Bytes
  pub ephemeral_pub : Bytes
  pub kem_ciphertext : Bytes

-- `except KeyError: raise ValueError`
abbrev pub missing_as_value_error {ℓ} : {A : Type ℓ} → Result A → Result A
missing_as_value_error (err key_error) = err value_error
missing_as_value_error r = r

-- `except (AttributeError, KeyError): raise ValueError`
abbrev pub failed_as_value_error {ℓ} : {A : Type ℓ} → Result A → Result A
failed_as_value_error (err attribute_error) = err value_error
failed_as_value_error (err key_error) = err value_error
failed_as_value_error r = r

-- `except (TypeError, ValueError, KeyError): raise EnvelopeValidationError`
abbrev pub invalid_as_validation {ℓ} : {A : Type ℓ} → Result A → Result A
invalid_as_validation (err type_error) = err hybrid_validation
invalid_as_validation (err value_error) = err hybrid_validation
invalid_as_validation (err key_error) = err hybrid_validation
invalid_as_validation r = r

-- What `verify_envelope` found in an envelope.
pub record Context : Type 0 where
  pub timestamp : ℤ
  pub sender_id : String
  pub recipient_id : String
  pub envelope_nonce : String
  pub classical_sig : Value
  pub pqc_sig : Value
  pub ciphertext : Bytes
  pub nonce : Bytes
  pub ephemeral_pub : Bytes
  pub kem_ciphertext : Bytes
  pub is_classical_only : Bool

-- The keyword arguments of opening.
pub record OpenOptions : Type 0 where
  pub expected_recipient_id : Option String
  pub expected_sender_id : Option String
  pub max_age_seconds : ℕ
  pub clock_skew_seconds : ℕ
  pub allow_classical_only : Bool

abbrev pub required_fields : Bool → List String
required_fields is_classical_only =
    "ciphertext"
    ∷ "nonce"
    ∷ "sender_id"
    ∷ "recipient_id"
    ∷ "timestamp"
    ∷ "envelope_nonce"
    ∷ "ephemeral_pub"
    ∷ "classical_sig"
    ∷ (if is_classical_only then [] else "kem_ciphertext" ∷ "pqc_sig" ∷ [])

-- `time.time() - ts > max_age`
abbrev pub is_older : ℕ → ℕ → ℤ → Bool
is_older max_age now (pos ts) = ltb (ts + max_age) now
is_older max_age now (negsuc n) = ltb max_age (now + suc n)

-- `time.time() - ts < -skew`
abbrev pub is_ahead : ℕ → ℕ → ℤ → Bool
is_ahead skew now (pos ts) = ltb (now + skew) ts
is_ahead skew now (negsuc n) = false

abbrev pub is_expected : Option String → Option Value → Bool
is_expected none v = true
is_expected (some s) v = has_text s v

-- A string that is not empty.
abbrev pub nonempty_text : Value → Result String
nonempty_text (str s) = if str_eq s "" then err hybrid_validation else ok s
nonempty_text _ = err hybrid_validation

abbrev pub value_or_none : Option Value → Value
value_or_none none = str ""
value_or_none (some v) = v
