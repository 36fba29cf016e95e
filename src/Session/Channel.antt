-- ===== src/Session/Channel.antt =====
-- uxsp/core/session.py: what one end encrypts, the other end decrypts.
use uxsp.Prelude.{ℕ, ◌≡◌, refl, length, String, arith, ==_iff, str_eq_iff}
use uxsp.Prelude.Result.{ok}
use uxsp.Prelude.Dict.{Dict, get}
use uxsp.Prelude.Value.{Value}
use uxsp.Crypto.Symmetric.{
  Bytes, AesGcm, Sealed, key_size, nonce_size, encrypt as seal, decrypt as unseal,
}
use uxsp.Session.Sequence.{Tracker, accept_seq}
use uxsp.Session.{
  Session, Codec, check_active, read_payload, to_payload, take_in, encrypt, decrypt_read, decrypt,
}

read_payload-to_payload :
    (x : Codec) (sid : String) (n : ℕ) (sealed : Sealed)
    → read_payload x sid (to_payload x sid n sealed)
      ≡ ok (record { seq = n; ciphertext = sealed.ciphertext; nonce = sealed.nonce })
unfolding read_payload get
read_payload-to_payload x sid n sealed = rw (
  (str_eq_iff sid sid).1 refl,
  x.from_hex-to_hex sealed.ciphertext,
  x.from_hex-to_hex sealed.nonce,
)

-- The two ends of one channel, in the direction from `a` to `b`.
pub record IsChannel (a b : Session) : Type 0 where
  pub session_id : a.session_id ≡ b.session_id
  pub key : a.send_key ≡ b.recv_key
  pub key_length : length b.recv_key ≡ key_size

module _ (x : Codec) (aes : AesGcm) (a b : Session) where
  -- A message that one end encrypts in an active session is decrypted by the other end to the same
  -- plaintext, if that end is active, its tracker takes the sender's number in, its key has 32 bytes
  -- and the nonce 12.
  pub send_receive :
      (now later now' later' : ℕ) (nonce plaintext : Bytes) (payload : Dict Value) (t : Tracker)
      → IsChannel a b
      → length nonce ≡ nonce_size
      → check_active now a ≡ (ok tt, a)
      → check_active now' b ≡ (ok tt, b)
      → accept_seq b.config.enforce_ordering a.send_seq b.tracker ≡ ok t
      → (encrypt x aes now later nonce plaintext a).0 ≡ ok payload
      → (decrypt x aes now' later' payload b).0 ≡ ok plaintext
  unfolding encrypt decrypt take_in seal unseal
  send_receive now later now' later' nonce plaintext payload t c n act act' room sent =
      let ad = x.position b.session_id a.send_seq in
      let sealed : Sealed = record {
        ciphertext = aes.encrypt b.recv_key nonce plaintext ad;
        nonce = nonce;
      } in
      let travels : payload ≡ to_payload x b.session_id a.send_seq sealed = ground (
        arith,
        act,
        c.session_id,
        c.key,
        c.key_length,
        ==_iff (length a.send_key) key_size,
        ==_iff (length b.recv_key) key_size,
      ) in
      rw (travels, read_payload-to_payload x b.session_id a.send_seq sealed, decrypt_read, act')
        (ground (
          arith,
          room,
          aes.decrypt-encrypt b.recv_key nonce plaintext ad c.key_length n,
          ==_iff (length b.recv_key) key_size,
          ==_iff (length nonce) nonce_size,
        ))
