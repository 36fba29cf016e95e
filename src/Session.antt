-- ===== src/Session.antt =====
-- uxsp/core/session.py: the encrypted, sequenced channel.
-- A method that reads the clock takes each reading as an argument; a locked block is one step.
pub mod Sequence
pub mod Windowed
pub mod Forgery
pub mod Ordered
pub mod Lifecycle
pub mod Channel
use uxsp.Prelude.{
  ℕ, suc, ◌+◌, ◌-◌, String, Bool, true, false, not, ltb, leb, if◌then◌else◌, Option, none, some,
  List, ◌++◌, ◌∷◌, [], ◌≡◌,
}
use uxsp.Prelude.Result.{
  Result, Exec, Error, ok, err, ◌>>=◌, ◌>>◌, guard, value_error, session_error, session_expired,
  session_revoked, session_not_active,
}
use uxsp.Prelude.Dict.{Dict, get, contains}
use uxsp.Prelude.Value.{ℤ, pos, negsuc, Value, int, str, as_text, has_text}
use uxsp.Crypto.Symmetric.{Bytes, AesGcm, Sealed, encrypt as seal, decrypt as unseal, zeroize}
use uxsp.Prelude.Text.{codes}
use uxsp.Session.Sequence.{
  SessionState, pending, active, expired, revoked, SessionConfig, Tracker, new_tracker, accept_seq,
  roll_back, received,
}

-- The built-in conversions that messages go through: `bytes.hex`, `bytes.fromhex`, and
-- `f"{session_id}:{seq}".encode()`.
pub record Codec : Type 0 where
  pub to_hex : Bytes → String
  pub from_hex : String → Result Bytes
  pub position : String → ℕ → Bytes
  pub from_hex-to_hex : (b : Bytes) → from_hex (to_hex b) ≡ ok b

pub record Session : Type 0 where
  pub session_id : String
  pub local_id : String
  pub remote_id : String
  pub config : SessionConfig
  pub state : SessionState
  pub created_at : ℕ
  pub send_seq : ℕ
  pub tracker : Tracker
  pub send_key : Bytes
  pub recv_key : Bytes

-- `SessionConfig.__post_init__`
unfoldable pub make_config : ℤ → ℤ → Bytes → Bool → Result SessionConfig
make_config (pos (suc lifetime)) (pos (suc messages)) (b ∷ key_info) ordering = ok (record {
  max_lifetime_seconds = suc lifetime;
  max_messages = suc messages;
  key_info = b ∷ key_info;
  enforce_ordering = ordering;
})
make_config lifetime messages key_info ordering = err value_error

-- The HKDF info strings of the two directions.
abbrev pub init_to_resp : SessionConfig → Bytes
init_to_resp c = c.key_info ++ (codes ":enc" ++ codes ":init_to_resp")

abbrev pub resp_to_init : SessionConfig → Bytes
resp_to_init c = c.key_info ++ (codes ":enc" ++ codes ":resp_to_init")

-- `__init__`; `derive_key secret info` is the 32-byte HKDF output.
unfoldable pub make_session :
    (Bytes → Bytes → Bytes) → String → String → String → Bytes → Bool → SessionConfig → ℕ → Session
make_session derive_key session_id local_id remote_id shared_secret is_initiator config now =
    record {
      session_id = session_id;
      local_id = local_id;
      remote_id = remote_id;
      config = config;
      state = pending;
      created_at = now;
      send_seq = 0;
      tracker = new_tracker;
      send_key =
          derive_key shared_secret
            (if is_initiator then init_to_resp config else resp_to_init config);
      recv_key =
          derive_key shared_secret
            (if is_initiator then resp_to_init config else init_to_resp config);
    }

-- `_activate`
abbrev activate_from : SessionState → Exec Session (Unit {0})
activate_from pending s = (ok tt, record s { state = active })
activate_from _ s = (err session_error, s)

unfoldable pub activate : Exec Session (Unit {0})
activate s = activate_from s.state s

-- `message_count`, without the lock.
abbrev pub message_count : Session → ℕ
message_count s = s.send_seq + received s.config.enforce_ordering s.tracker

abbrev is_due : ℕ → Session → Bool
is_due now s =
    if ltb (s.created_at + s.config.max_lifetime_seconds) now
    then true
    else leb s.config.max_messages (message_count s)

abbrev evaluate_from : SessionState → ℕ → Session → Session
evaluate_from active now s = if is_due now s then record s { state = expired } else s
evaluate_from _ now s = s

unfoldable pub evaluate_expiry : ℕ → Session → Session
evaluate_expiry now s = evaluate_from s.state now s

abbrev pub active_or_error : SessionState → Result (Unit {0})
active_or_error active = ok tt
active_or_error expired = err session_expired
active_or_error revoked = err session_revoked
active_or_error pending = err session_not_active

unfoldable pub check_active : ℕ → Exec Session (Unit {0})
check_active now s = let s' = evaluate_expiry now s in (active_or_error s'.state, s')

unfoldable pub revoke : Session → Session
revoke s = record s {
  state = revoked;
  send_key = zeroize s.send_key;
  recv_key = zeroize s.recv_key;
}

unfoldable pub is_active : ℕ → Exec Session Bool
is_active now s =
    let s' = evaluate_expiry now s in (ok (elim s'.state [ active ↦ true | _ ↦ false ]), s')

unfoldable pub remaining_messages : ℕ → Exec Session ℕ
remaining_messages now s =
    let s' = evaluate_expiry now s in
    (ok (elim s'.state [ active ↦ s'.config.max_messages - message_count s' | _ ↦ 0 ]), s')

-- `remaining_seconds`; the reading is not before `created_at`.
unfoldable pub remaining_seconds : ℕ → Session → ℕ
remaining_seconds now s = s.config.max_lifetime_seconds - (now - s.created_at)

-- The dictionary that travels.
abbrev pub to_payload : Codec → String → ℕ → Sealed → Dict Value
to_payload x session_id seq sealed =
    ("session_id", str session_id)
    ∷ ("seq", int (pos seq))
    ∷ ("ciphertext", str (x.to_hex sealed.ciphertext))
    ∷ ("nonce", str (x.to_hex sealed.nonce))
    ∷ []

-- What `decrypt` reads from a payload before it takes the lock.
pub record Incoming : Type 0 where
  pub seq : ℕ
  pub ciphertext : Bytes
  pub nonce : Bytes

-- `bytes.fromhex` with `except (TypeError, ValueError)`.
abbrev pub hex_or_value_error : Result Bytes → Result Bytes
hex_or_value_error (ok b) = ok b
hex_or_value_error (err e) = err value_error

-- An `int`, not a `bool`, not negative.
abbrev pub seq_of : Option Value → Result ℕ
seq_of (some (int (pos n))) = ok n
seq_of _ = err value_error

abbrev pub text_of : Option Value → Result String
text_of none = err value_error
text_of (some v) = elim (as_text v) [ none ↦ err value_error | some s ↦ ok s ]

unfoldable pub read_payload : Codec → String → Dict Value → Result Incoming
read_payload x session_id payload = do
  guard (has_text session_id (get "session_id" payload)) value_error
  guard (contains "ciphertext" payload) value_error
  guard (contains "nonce" payload) value_error
  seq ← seq_of (get "seq" payload)
  ciphertext_hex ← text_of (get "ciphertext" payload)
  nonce_hex ← text_of (get "nonce" payload)
  ciphertext ← hex_or_value_error (x.from_hex ciphertext_hex)
  nonce ← hex_or_value_error (x.from_hex nonce_hex)
  ok (record { seq = seq; ciphertext = ciphertext; nonce = nonce })

-- A failed decryption under the lock: a ValueError is a SessionError, anything else is raised on.
abbrev pub decryption_error : Error → Error
decryption_error value_error = session_error
decryption_error e = e

module _ (x : Codec) (aes : AesGcm) where
  -- `encrypt` once the session is known to be active; `later` is the last clock reading.
  encrypt_active : ℕ → Bytes → Bytes → Exec Session (Dict Value)
  encrypt_active later nonce plaintext s =
      let sent = record s { send_seq = s.send_seq + 1 } in
      elim (seal aes nonce plaintext s.send_key (x.position s.session_id s.send_seq)) [
        | ok sealed ↦ (ok (to_payload x s.session_id s.send_seq sealed), evaluate_expiry later sent)
        | err e ↦ (err e, sent)
      ]

  abbrev when_active :
      (Session → Result (Dict Value) × Session)
      → Result (Unit {0})
      → Session
      → Result (Dict Value) × Session
  when_active act (ok _) s = act s
  when_active act (err e) s = (err e, s)

  -- `nonce` is the random nonce. The source enciphers, and checks the expiry again, after it has released
  -- the lock; here the method is one step.
  unfoldable pub encrypt : ℕ → ℕ → Bytes → Bytes → Exec Session (Dict Value)
  unfolding encrypt_active
  encrypt now later nonce plaintext s =
      let (r, s') = check_active now s in when_active (encrypt_active later nonce plaintext) r s'

  -- The decryption under the lock, with the tracker that took the number in; a failure rolls back.
  unfoldable pub open_tracked : Incoming → Tracker → Exec Session Bytes
  open_tracked m t s =
      elim (unseal aes m.ciphertext m.nonce s.recv_key (x.position s.session_id m.seq)) [
        | ok plaintext ↦ (ok plaintext, record s { tracker = t })
        | err e ↦ (
          err (decryption_error e),
          record s { tracker = roll_back s.config.enforce_ordering m.seq t },
        )
      ]

  unfoldable pub take_in : Incoming → Exec Session Bytes
  unfolding open_tracked
  take_in m s = elim (accept_seq s.config.enforce_ordering m.seq s.tracker) [
    | ok t ↦ open_tracked m t s
    | err e ↦ (err e, s)
  ]

  abbrev finish : ℕ → Result Bytes × Session → Result Bytes × Session
  finish later (ok plaintext, s) = (ok plaintext, evaluate_expiry later s)
  finish later (err e, s) = (err e, s)

  unfoldable pub decrypt_active : ℕ → Incoming → Result (Unit {0}) → Exec Session Bytes
  decrypt_active later m (ok _) s = finish later (take_in m s)
  decrypt_active later m (err e) s = (err e, s)

  unfoldable pub decrypt_read : ℕ → ℕ → Result Incoming → Exec Session Bytes
  unfolding decrypt_active
  decrypt_read now later (err e) s = (err e, s)
  decrypt_read now later (ok m) s = let (r, s') = check_active now s in decrypt_active later m r s'

  unfoldable pub decrypt : ℕ → ℕ → Dict Value → Exec Session Bytes
  unfolding decrypt_read
  decrypt now later payload s = decrypt_read now later (read_payload x s.session_id payload) s
