-- ===== src/Live/Frames.antt =====
-- uxsp/core/live.py: the format of a frame.
use uxsp.Prelude.{
  ℕ, ◌≡◌, false, length, take, drop, length-append, take-length-append, drop-length-append, arith,
  Option, ◌++◌,
}
use uxsp.Prelude.Result.{ok}
use uxsp.Crypto.Symmetric.{Bytes, AesGcm, key_size, nonce_size, encrypt as seal, decrypt as unseal}
use uxsp.Live.{
  LiveSession, be16, pack16, unpack16, read_frame, extract_metadata, frame_bytes, encrypt_frame,
  decrypt_frame, decrypt_read, decrypt_ratcheted, open_frame, ratchet_to, ratchet_times,
  is_replayed,
}

take-append : (n : ℕ) (xs ys : Bytes) → length xs ≡ n → take n (xs ++ ys) ≡ xs
take-append n xs ys e = rw (← e) (take-length-append xs ys)

drop-append : (n : ℕ) (xs ys : Bytes) → length xs ≡ n → drop n (xs ++ ys) ≡ ys
drop-append n xs ys e = rw (← e) (drop-length-append xs ys)

unpack16-be16 : (n : ℕ) → unpack16 (be16 n) ≡ n
unpack16-be16 n = omega arith

-- The bytes of a frame with these parts.
abbrev pub layout : Bytes → ℕ → Bytes → Bytes → Bytes
layout metadata epoch nonce ciphertext =
    be16 (length metadata) ++ (metadata ++ (be16 epoch ++ (nonce ++ ciphertext)))

module _ (metadata : Bytes) (epoch : ℕ) (nonce ciphertext : Bytes) where
  pub read_frame-layout :
      length nonce ≡ nonce_size
      → read_frame (layout metadata epoch nonce ciphertext)
        ≡ ok (record { metadata = metadata; epoch = epoch; nonce = nonce; ciphertext = ciphertext })
  unfolding read_frame
  read_frame-layout n =
      let rest = be16 epoch ++ (nonce ++ ciphertext) in
      ground (
        arith,
        unpack16-be16 (length metadata),
        unpack16-be16 epoch,
        take-length-append metadata rest,
        drop-length-append metadata rest,
        length-append metadata rest,
        length-append nonce ciphertext,
        take-append nonce_size nonce ciphertext n,
        drop-append nonce_size nonce ciphertext n,
      )

  pub extract_metadata-layout :
      extract_metadata (layout metadata epoch nonce ciphertext) ≡ ok metadata
  unfolding extract_metadata
  extract_metadata-layout =
      let rest = be16 epoch ++ (nonce ++ ciphertext) in
      ground (
        arith,
        unpack16-be16 (length metadata),
        take-length-append metadata rest,
        length-append metadata rest,
      )

-- The receiver has the sender's key, epoch and session name.
pub record IsPaired (a b : LiveSession) : Type 0 where
  pub session_id : a.session_id_bytes ≡ b.session_id_bytes
  pub key : a.key ≡ b.key
  pub key_length : length b.key ≡ key_size
  pub epoch : a.epoch ≡ b.epoch

module _ (derive : Bytes → Bytes) (aes : AesGcm) where
  ratchet_to_self : (s : LiveSession) → ratchet_to derive s.epoch s ≡ s
  unfolding ratchet_to ratchet_times
  ratchet_to_self s = ground arith

  abbrev associated : Bytes → LiveSession → Bytes
  associated metadata s = s.session_id_bytes ++ (be16 s.epoch ++ metadata)

  encrypt_frame-layout :
      (a : LiveSession) (nonce plain metadata frame : Bytes)
      → (encrypt_frame derive aes nonce plain metadata a).0 ≡ ok frame
      → frame
        ≡ layout metadata a.epoch nonce (aes.encrypt a.key nonce plain (associated metadata a))
  unfolding encrypt_frame frame_bytes pack16 seal
  encrypt_frame-layout a nonce plain metadata frame sent = ground arith

  decrypt_frame-layout :
      (b : LiveSession) (nonce plain metadata : Bytes) (expected_seq : Option ℕ)
      → length b.key ≡ key_size
      → length nonce ≡ nonce_size
      → is_replayed expected_seq b.last_seq ≡ false
      → (decrypt_frame derive aes
          (layout metadata b.epoch nonce (aes.encrypt b.key nonce plain (associated metadata b)))
          expected_seq
          b).0
        ≡ ok (plain, metadata)
  unfolding decrypt_frame decrypt_read decrypt_ratcheted open_frame unseal
  decrypt_frame-layout b nonce plain metadata expected_seq k n new =
      let ad = associated metadata b in
      ground (
        arith,
        read_frame-layout metadata b.epoch nonce (aes.encrypt b.key nonce plain ad) n,
        aes.decrypt-encrypt b.key nonce plain ad k n,
        new,
        ratchet_to_self b,
      )

  -- A frame that one session encrypts is decrypted by a session with the same key, epoch and name to
  -- the same frame and metadata, unless the expected number makes it a replay; and anyone reads the
  -- metadata off it.
  pub live_round_trip :
      (a b : LiveSession) (nonce plain metadata frame : Bytes) (expected_seq : Option ℕ)
      → IsPaired a b
      → length nonce ≡ nonce_size
      → is_replayed expected_seq b.last_seq ≡ false
      → (encrypt_frame derive aes nonce plain metadata a).0 ≡ ok frame
      → ((decrypt_frame derive aes frame expected_seq b).0 ≡ ok (plain, metadata))
        × (extract_metadata frame ≡ ok metadata)
  unfolding encrypt_frame
  live_round_trip a b nonce plain metadata frame expected_seq p n new sent =
      let bytes = encrypt_frame-layout a nonce plain metadata frame sent in
      rw (bytes, p.epoch, p.key, p.session_id)
        (
          decrypt_frame-layout b nonce plain metadata expected_seq p.key_length n new,
          extract_metadata-layout metadata b.epoch nonce
              (aes.encrypt b.key nonce plain (associated metadata b)),
        )
