-- ===== src/Envelope.antt =====
-- uxsp/core/envelope.py: the envelope as a record, its dictionary form and its freshness test.
pub mod RoundTrip
pub mod Json
use uxsp.Prelude.{
  ℕ, ◌+◌, suc, String, Bool, true, false, ltb, leb, ◌&&◌, if◌then◌else◌, Option, none, some, List,
  [], ◌∷◌, str_eq,
}
use uxsp.Prelude.Result.{Result, ok, err, ◌>>=◌, ◌>>◌, guard, Error, type_error, value_error}
use uxsp.Prelude.Result.{envelope_validation, envelope_too_large, envelope_expired}
use uxsp.Prelude.Dict.{Dict, get, contains}
use uxsp.Prelude.Value.{ℤ, pos, negsuc, Value, int, str, as_text}

pub record Envelope : Type 0 where
  pub version : String
  pub sender_id : String
  pub recipient_id : String
  pub timestamp : ℤ
  pub envelope_nonce : String
  pub ciphertext : String
  pub nonce : String
  pub ephemeral_pub : String
  pub kem_ciphertext : String
  pub classical_sig : String
  pub pqc_sig : String

unfoldable pub to_dict : Envelope → Dict Value
to_dict e =
    ("version", str e.version)
    ∷ ("sender_id", str e.sender_id)
    ∷ ("recipient_id", str e.recipient_id)
    ∷ ("timestamp", int e.timestamp)
    ∷ ("envelope_nonce", str e.envelope_nonce)
    ∷ ("ciphertext", str e.ciphertext)
    ∷ ("nonce", str e.nonce)
    ∷ ("ephemeral_pub", str e.ephemeral_pub)
    ∷ ("kem_ciphertext", str e.kem_ciphertext)
    ∷ ("classical_sig", str e.classical_sig)
    ∷ ("pqc_sig", str e.pqc_sig)
    ∷ []

abbrev pub uxsp_version : String
uxsp_version = "UXSP-1"

abbrev pub required_fields : List String
required_fields =
    "version" ∷ "sender_id" ∷ "recipient_id" ∷ "timestamp" ∷ "envelope_nonce" ∷ "ciphertext"
    ∷ "nonce" ∷ "ephemeral_pub" ∷ "kem_ciphertext" ∷ "classical_sig" ∷ "pqc_sig" ∷ []

unfoldable pub all_present : List String → Dict Value → Bool
all_present [] d = true
all_present (k ∷ ks) d = contains k d && all_present ks d

-- A field that must be a string, after the check that it is there.
unfoldable pub string_field : String → Dict Value → Result String
string_field k d = elim (get k d) [
  | none ↦ err envelope_validation
  | some v ↦ elim (as_text v) [ none ↦ err envelope_validation | some s ↦ ok s ]
]

-- `int(v)` with `except (ValueError, TypeError)`.
abbrev pub int_or_validation_error : Result ℤ → Result ℤ
int_or_validation_error (err type_error) = err envelope_validation
int_or_validation_error (err value_error) = err envelope_validation
int_or_validation_error r = r

abbrev pub timestamp_field : (Value → Result ℤ) → Option Value → Result ℤ
timestamp_field to_int none = err envelope_validation
timestamp_field to_int (some v) = int_or_validation_error (to_int v)

-- `to_int` is the built-in `int`, and `dumped_length` the length of `json.dumps` of a dictionary.
module _ (to_int : Value → Result ℤ) (dumped_length : Dict Value → ℕ) where
  unfoldable pub from_dict : Dict Value → ℕ → Result Envelope
  from_dict d limit = do
    guard (all_present required_fields d) envelope_validation
    version ← string_field "version" d
    sender_id ← string_field "sender_id" d
    recipient_id ← string_field "recipient_id" d
    envelope_nonce ← string_field "envelope_nonce" d
    ciphertext ← string_field "ciphertext" d
    nonce ← string_field "nonce" d
    ephemeral_pub ← string_field "ephemeral_pub" d
    kem_ciphertext ← string_field "kem_ciphertext" d
    classical_sig ← string_field "classical_sig" d
    pqc_sig ← string_field "pqc_sig" d
    guard (str_eq version uxsp_version) envelope_validation
    guard (leb (dumped_length d) limit) envelope_too_large
    timestamp ← timestamp_field to_int (get "timestamp" d)
    ok (record {
      version = version;
      sender_id = sender_id;
      recipient_id = recipient_id;
      timestamp = timestamp;
      envelope_nonce = envelope_nonce;
      ciphertext = ciphertext;
      nonce = nonce;
      ephemeral_pub = ephemeral_pub;
      kem_ciphertext = kem_ciphertext;
      classical_sig = classical_sig;
      pqc_sig = pqc_sig;
    })

-- `-clock_skew <= now - timestamp <= max_age`, for arguments that are not negative.
unfoldable pub is_fresh : ℕ → ℕ → ℕ → Envelope → Bool
is_fresh max_age clock_skew now e = elim e.timestamp [
  | pos ts ↦ leb ts (now + clock_skew) && leb now (ts + max_age)
  | negsuc n ↦ leb (now + suc n) max_age
]

unfoldable pub assert_fresh : ℕ → ℕ → ℕ → Envelope → Result (Unit {0})
unfolding is_fresh
assert_fresh max_age clock_skew now e = guard (is_fresh max_age clock_skew now e) envelope_expired

unfoldable pub addressed_to : String → Envelope → Bool
addressed_to entity_id e = str_eq e.recipient_id entity_id

unfoldable pub sent_by : String → Envelope → Bool
sent_by entity_id e = str_eq e.sender_id entity_id
