-- ===== src/Handshake/Parts.antt =====
-- uxsp/core/handshake.py: what the HELLO and the ACK share, and the secrets of a handshake.
use Prim.Native.String
use uxsp.Prelude.{
  ℕ, String, Bool, true, false, not, ◌||◌, if◌then◌else◌, Option, none, some, [], ◌∷◌, ◌++◌,
}
use uxsp.Prelude.Result.{
  Result, Error, ok, err, ◌>>=◌, guard, item, value_error, type_error, attribute_error,
  hybrid_validation, handshake_auth, handshake_expired,
}
use uxsp.Prelude.Dict.{Dict}
use uxsp.Prelude.Value.{ℤ, Value, Items, nil, cons, int, str, arr, obj, other, has_text}
use uxsp.Prelude.Text.{codes}
use uxsp.Crypto.Symmetric.{Bytes}
use uxsp.Crypto.Parts.{Packages, is_older, is_ahead}
use uxsp.Crypto.Hybrid.{hex_of, hybrid_recipient_exchange}
use uxsp.Identity.{Identity}
use uxsp.Session.{Session, make_session, activate}
use uxsp.Session.Sequence.{SessionConfig}

-- Python's functions that only the handshake calls: `str(v)` of a value that is no text and no integer, whether a value
-- `other n` is hashable, whether `uuid.UUID` takes a text, whether a text is ASCII, and
-- `hmac.new(key, message, sha256).hexdigest()`.
pub record Library : Type 0 where
  pub show_value : Value → String
  pub is_hashable : ℕ → Bool
  pub is_uuid : String → Bool
  pub is_ascii : String → Bool
  pub hmac_hex : Bytes → Bytes → String

abbrev pub default_config : SessionConfig
default_config = record {
  max_lifetime_seconds = 3600;
  max_messages = 10000;
  key_info = codes "UXSP-session-key-v1";
  enforce_ordering = true;
}

abbrev pub config_or_default : Option SessionConfig → SessionConfig
config_or_default none = default_config
config_or_default (some c) = c

-- `SUPPORTED_VERSIONS` holds this one.
abbrev pub supported_version : String
supported_version = "1"

-- The default of `max_age`.
abbrev pub max_age : ℕ
max_age = 30

abbrev pub retention : ℕ
retention = 90

-- `except (ValueError, TypeError, AttributeError): raise HandshakeAuthError`; the EnvelopeValidationError
-- of crypto/hybrid.py is a ValueError.
abbrev pub invalid_as_auth {ℓ} : {A : Type ℓ} → Result A → Result A
invalid_as_auth (err value_error) = err handshake_auth
invalid_as_auth (err type_error) = err handshake_auth
invalid_as_auth (err attribute_error) = err handshake_auth
invalid_as_auth (err hybrid_validation) = err handshake_auth
invalid_as_auth r = r

-- `except (ValueError, TypeError): raise HandshakeAuthError`
abbrev pub unreadable_as_auth {ℓ} : {A : Type ℓ} → Result A → Result A
unreadable_as_auth (err value_error) = err handshake_auth
unreadable_as_auth (err type_error) = err handshake_auth
unreadable_as_auth (err hybrid_validation) = err handshake_auth
unreadable_as_auth r = r

-- `except EnvelopeValidationError: raise HandshakeAuthError`
abbrev pub validation_as_auth {ℓ} : {A : Type ℓ} → Result A → Result A
validation_as_auth (err hybrid_validation) = err handshake_auth
validation_as_auth r = r

-- A text, where another type is a TypeError.
abbrev pub text_or_type_error : Value → Result String
text_or_type_error (str s) = ok s
text_or_type_error _ = err type_error

-- A text, where another type is an AttributeError: `v.encode()`.
abbrev pub text_or_attribute_error : Value → Result String
text_or_attribute_error (str s) = ok s
text_or_attribute_error _ = err attribute_error

-- A list that is not empty.
abbrev pub versions_of : Option Value → Result Items
versions_of (some (arr (cons v vs))) = ok (cons v vs)
versions_of _ = err handshake_auth

-- `",".join(items)`
unfoldable pub join_texts : Items → Result String
join_texts nil = ok ""
join_texts (cons (str s) nil) = ok s
join_texts (cons (str s) (cons w vs)) =
    join_texts (cons w vs) >>= λ rest. ok (String.◌++◌ s (String.◌++◌ "," rest))
join_texts (cons _ vs) = err type_error

-- What was set, or the error.
abbrev pub present {ℓ} : {A : Type ℓ} → Option A → Error → Result A
present none e = err e
present (some a) e = ok a

-- The dictionary of signatures that is verified.
abbrev pub signatures_of : Value → Value → Dict Value
signatures_of classical_sig pqc_sig = ("classical_sig", classical_sig) ∷ ("pqc_sig", pqc_sig) ∷ []

-- `-max_age <= now - ts <= max_age`
abbrev pub check_age : ℕ → ℤ → Result (Unit {0})
check_age now ts =
    guard (not (is_older max_age now ts || is_ahead max_age now ts)) handshake_expired

module _ (x : Library) where
  abbrev pub hashable : Value → Bool
  hashable (arr vs) = false
  hashable (obj fields) = false
  hashable (other n) = x.is_hashable n
  hashable v = true

  -- `set(SUPPORTED_VERSIONS).intersection(items)`: whether the version is in it.
  unfoldable pub supports : Items → Result Bool
  supports nil = ok false
  supports (cons v vs) =
      let rest = supports vs in
      if hashable v
      then (rest >>= λ found. ok (has_text supported_version (some v) || found))
      else err type_error

module _ (p : Packages) where
  -- `int(v)`
  abbrev pub time_of : Value → Result ℤ
  time_of v = unreadable_as_auth (p.to_int v)

  -- `_derive_hello_secret`
  unfoldable pub derive_secret : Dict Value → Identity → Result Bytes
  derive_secret message me = do
    ephemeral_pub ← item "ephemeral_pub" message >>= hex_of p
    kem_ciphertext ← item "kem_ciphertext" message >>= hex_of p
    hybrid_recipient_exchange p ephemeral_pub kem_ciphertext me.keypair false

  -- The secret of the session.
  unfoldable pub final_secret : Bytes → Bytes → String → String → String → Bytes
  final_secret secret_A secret_B session_id initiator_id responder_id =
      p.hkdf.derive 32 none
        (p.encode "UXSP-final-session-key:"
          ++ (p.encode session_id
              ++ (p.encode ":"
                  ++ (p.encode initiator_id ++ (p.encode ":" ++ p.encode responder_id)))))
        (secret_A ++ secret_B)

  -- A new session, activated.
  unfoldable pub established : ℕ → String → String → String → Bytes → Bool → SessionConfig → Session
  established now session_id local_id remote_id secret is_initiator config =
      (activate (
        make_session (λ ikm info. p.hkdf.derive 32 none info ikm) session_id local_id remote_id
          secret is_initiator config now)).1

  -- `str(v)`
  abbrev pub shown : Library → Value → String
  shown x (str s) = s
  shown x (int n) = p.show n
  shown x v = x.show_value v
