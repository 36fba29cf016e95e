-- ===== src/Envelope/RoundTrip.antt =====
-- uxsp/core/envelope.py: `from_dict` after `to_dict`, and what `from_dict` accepts.
use uxsp.Prelude.{ℕ, ◌≤◌, ◌≡◌, String, le→leb, str_eq_iff, arith, some}
use uxsp.Prelude.Result.{Result, ok}
use uxsp.Prelude.Dict.{Dict, get}
use uxsp.Prelude.Value.{ℤ, Value, int, str}
use uxsp.Envelope.{Envelope, to_dict, from_dict, string_field, all_present, uxsp_version}

module _ (to_int : Value → Result ℤ) (dumped_length : Dict Value → ℕ) where
  -- An envelope of the current version whose dictionary is within the limit is read back from that
  -- dictionary unchanged; the built-in `int` is taken to answer an integer with itself.
  pub from_dict-to_dict :
      (e : Envelope) (limit : ℕ)
      → ((n : ℤ) → to_int (int n) ≡ ok n)
      → e.version ≡ uxsp_version
      → dumped_length (to_dict e) ≤ limit
      → from_dict to_int dumped_length (to_dict e) limit ≡ ok e
  unfolding from_dict to_dict string_field all_present get
  from_dict-to_dict e limit ints v fits =
      rw ((str_eq_iff e.version uxsp_version).1 v, le→leb _ _ fits, ints e.timestamp)

-- The field `k` of the dictionary is the string `v`.
abbrev pub HasField : Dict Value → String → String → Type 0
HasField d k v = get k d ≡ some (str v)

string_field-HasField :
    (k : String) (d : Dict Value) (v : String) → string_field k d ≡ ok v → HasField d k v
unfolding string_field
string_field-HasField k d v h = ground arith

-- What a successful `from_dict` returned, read against the dictionary.
pub record IsReadFrom (d : Dict Value) (limit : ℕ) (size : ℕ) (e : Envelope) : Type 0 where
  pub version : e.version ≡ uxsp_version
  pub fits : size ≤ limit
  pub version_field : HasField d "version" e.version
  pub sender_id : HasField d "sender_id" e.sender_id
  pub recipient_id : HasField d "recipient_id" e.recipient_id
  pub envelope_nonce : HasField d "envelope_nonce" e.envelope_nonce
  pub ciphertext : HasField d "ciphertext" e.ciphertext
  pub nonce : HasField d "nonce" e.nonce
  pub ephemeral_pub : HasField d "ephemeral_pub" e.ephemeral_pub
  pub kem_ciphertext : HasField d "kem_ciphertext" e.kem_ciphertext
  pub classical_sig : HasField d "classical_sig" e.classical_sig
  pub pqc_sig : HasField d "pqc_sig" e.pqc_sig

module _ (to_int : Value → Result ℤ) (dumped_length : Dict Value → ℕ) where
  -- An envelope that `from_dict` returns has the current version and the texts of the dictionary's
  -- fields, and the dictionary is within the size limit.
  pub from_dict-IsReadFrom :
      (d : Dict Value) (limit : ℕ) (e : Envelope)
      → from_dict to_int dumped_length d limit ≡ ok e
      → IsReadFrom d limit (dumped_length d) e
  unfolding from_dict
  from_dict-IsReadFrom d limit e h = ground (
    arith,
    str_eq_iff e.version uxsp_version,
    string_field-HasField "version" d e.version,
    string_field-HasField "sender_id" d e.sender_id,
    string_field-HasField "recipient_id" d e.recipient_id,
    string_field-HasField "envelope_nonce" d e.envelope_nonce,
    string_field-HasField "ciphertext" d e.ciphertext,
    string_field-HasField "nonce" d e.nonce,
    string_field-HasField "ephemeral_pub" d e.ephemeral_pub,
    string_field-HasField "kem_ciphertext" d e.kem_ciphertext,
    string_field-HasField "classical_sig" d e.classical_sig,
    string_field-HasField "pqc_sig" d e.pqc_sig,
  )
