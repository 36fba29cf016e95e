-- ===== src/Session/Lifecycle.antt =====
-- uxsp/core/session.py: the life of a session under any sequence of calls.
use uxsp.Prelude.{ℕ, ◌≤◌, ◌≡◌, Bool, true, false, List, [], ◌∷◌, arith, inl, inr}
use uxsp.Prelude.Result.{Error, err, session_expired, session_revoked, Result-cases}
use uxsp.Prelude.Dict.{Dict}
use uxsp.Prelude.Value.{Value}
use uxsp.Crypto.Symmetric.{Bytes, AesGcm}
use uxsp.Session.Sequence.{SessionState, expired, revoked}
use uxsp.Session.{
  Session, Codec, activate, evaluate_expiry, check_active, revoke, is_active, message_count,
  read_payload, encrypt, decrypt,
}

-- The calls on a session, each with its clock readings and its random nonce.
pub data Call : Type 0 where
  activation : Call
  revocation : Call
  probe : ℕ → Call
  encryption : ℕ → ℕ → Bytes → Bytes → Call
  decryption : ℕ → ℕ → Dict Value → Call

abbrev pub is_terminal : SessionState → Bool
is_terminal expired = true
is_terminal revoked = true
is_terminal _ = false

-- The exception that a terminal session answers with.
abbrev pub terminal_error : SessionState → Error
terminal_error expired = session_expired
terminal_error _ = session_revoked

check_active_terminal :
    (now : ℕ) (s : Session)
    → is_terminal s.state ≡ true
    → check_active now s ≡ (err (terminal_error s.state), s)
unfolding check_active evaluate_expiry
check_active_terminal now s h = ground arith

module _ (x : Codec) (aes : AesGcm) where
  pub step : Call → Session → Session
  step activation s = (activate s).1
  step revocation s = revoke s
  step (probe now) s = (is_active now s).1
  step (encryption now later nonce plaintext) s = (encrypt x aes now later nonce plaintext s).1
  step (decryption now later payload) s = (decrypt x aes now later payload s).1

  pub run : List Call → Session → Session
  run [] s = s
  run (c ∷ cs) s = run cs (step c s)

  terminal_encrypt :
      (now later : ℕ) (nonce plaintext : Bytes) (s : Session)
      → is_terminal s.state ≡ true
      → encrypt x aes now later nonce plaintext s ≡ (err (terminal_error s.state), s)
  unfolding encrypt
  terminal_encrypt now later nonce plaintext s h = ground (arith, check_active_terminal now s h)

  terminal_decrypt :
      (now later : ℕ) (payload : Dict Value) (s : Session)
      → is_terminal s.state ≡ true
      → (e : Error) × (decrypt x aes now later payload s ≡ (err e, s))
  unfolding decrypt
  terminal_decrypt now later payload s h =
      elim (Result-cases (read_payload x s.session_id payload)) [
        | inl (m, r) ↦ (terminal_error s.state, ground (arith, check_active_terminal now s h))
        | inr (e, r) ↦ (e, ground arith)
      ]

  step-terminal :
      (c : Call) (s : Session) → is_terminal s.state ≡ true → is_terminal (step c s).state ≡ true
  unfolding step activate revoke is_active evaluate_expiry
  step-terminal activation s h = ground arith
  step-terminal revocation s h = ground arith
  step-terminal (probe now) s h = ground arith
  step-terminal (encryption now later nonce plaintext) s h =
      ground (arith, terminal_encrypt now later nonce plaintext s h, h)
  step-terminal (decryption now later payload) s h =
      let (e, same) = terminal_decrypt now later payload s h in ground (arith, same, h)

  run-terminal :
      (cs : List Call) (s : Session)
      → is_terminal s.state ≡ true
      → is_terminal (run cs s).state ≡ true
  unfolding run
  run-terminal [] s h = h
  run-terminal (c ∷ cs) s h = run-terminal cs (step c s) (step-terminal c s h)

  -- Once a session is expired or revoked, whatever calls are made: it stays so, and every later
  -- `encrypt` and `decrypt` raises and changes nothing.
  pub terminal_forever :
      (cs : List Call) (s : Session) (now later : ℕ) (nonce plaintext : Bytes)
      (payload : Dict Value)
      → is_terminal s.state ≡ true
      → (is_terminal (run cs s).state ≡ true)
        × (encrypt x aes now later nonce plaintext (run cs s)
            ≡ (err (terminal_error (run cs s).state), run cs s))
        × ((e : Error) × (decrypt x aes now later payload (run cs s) ≡ (err e, run cs s)))
  terminal_forever cs s now later nonce plaintext payload h =
      let t = run-terminal cs s h in
      (
        t,
        terminal_encrypt now later nonce plaintext (run cs s) t,
        terminal_decrypt now later payload (run cs s) t,
      )

-- Sent and received messages together stay within the configured number.
abbrev pub IsCapped : Session → Type 0
IsCapped s = message_count s ≤ s.config.max_messages
