-- ===== src/Live.antt =====
-- uxsp/core/live.py: symmetric sessions for live frames. `derive` is HKDF with the ratchet's info
-- string, 32 bytes long; expected sequence numbers are natural, and `none` stands for the initial -1.
pub mod Frames
pub mod Delivery
pub mod Voice
use uxsp.Prelude.{
  ℕ, zero, suc, ◌+◌, ◌*◌, ◌/◌, ◌%◌, ◌-◌, Bool, true, false, leb, ltb, ◌==◌, if◌then◌else◌, length,
  take, drop, Option, none, some, List, [], ◌∷◌, ◌++◌,
}
use uxsp.Prelude.Result.{
  Result, Exec, ok, err, ◌>>=◌, ◌>>◌, guard, value_error, other_error, replay_error,
}
use uxsp.Crypto.Symmetric.{
  Bytes, AesGcm, Sealed, key_size, nonce_size, encrypt as seal, decrypt as unseal,
}

pub record LiveSession : Type 0 where
  pub key : Bytes
  pub session_id_bytes : Bytes
  pub frame_count : ℕ
  pub last_seq : Option ℕ
  pub epoch : ℕ

-- `__init__` with both arguments, the session's name in bytes.
unfoldable pub make_live_session : Bytes → Bytes → Result LiveSession
make_live_session key session_id =
    if length key == key_size
    then ok (record {
      key = key;
      session_id_bytes = session_id;
      frame_count = 0;
      last_seq = none;
      epoch = 0;
    })
    else err value_error

-- The two bytes of `struct.pack(">H", n)`, for an `n` below 65536.
abbrev pub be16 : ℕ → Bytes
be16 n = (n / 256) ∷ (n % 256) ∷ []

-- `struct.pack(">H", n)`; a larger number is a `struct.error`.
unfoldable pub pack16 : ℕ → Result Bytes
pack16 n = if ltb n 65536 then ok (be16 n) else err other_error

-- `struct.unpack(">H", b)[0]`, for two bytes.
abbrev pub unpack16 : Bytes → ℕ
unpack16 (high ∷ low ∷ []) = high * 256 + low
unpack16 _ = 0

-- The parts of a frame as they travel, after `metadata_length`.
pub record Frame : Type 0 where
  pub metadata : Bytes
  pub epoch : ℕ
  pub nonce : Bytes
  pub ciphertext : Bytes

unfoldable pub read_frame : Bytes → Result Frame
read_frame b = do
  guard (leb 2 (length b)) value_error
  let m = unpack16 (take 2 b)
  guard (leb (m + 16) (length b)) value_error
  ok (record {
    metadata = take m (drop 2 b);
    epoch = unpack16 (take 2 (drop m (drop 2 b)));
    nonce = take nonce_size (drop 2 (drop m (drop 2 b)));
    ciphertext = drop nonce_size (drop 2 (drop m (drop 2 b)));
  })

unfoldable pub extract_metadata : Bytes → Result Bytes
extract_metadata b = do
  guard (leb 2 (length b)) value_error
  let m = unpack16 (take 2 b)
  guard (leb (m + 2) (length b)) value_error
  ok (take m (drop 2 b))

-- `expected_seq is not None and expected_seq <= self._last_seq`
abbrev pub is_replayed : Option ℕ → Option ℕ → Bool
is_replayed (some n) (some last) = leb n last
is_replayed _ _ = false

abbrev pub seq_or : Option ℕ → Option ℕ → Option ℕ
seq_or (some n) last = some n
seq_or none last = last

module _ (derive : Bytes → Bytes) where
  unfoldable pub ratchet_key : LiveSession → LiveSession
  ratchet_key s = record s { key = derive s.key; frame_count = 0; epoch = s.epoch + 1 }

  -- The last lines of both directions.
  unfoldable pub count_frame : LiveSession → LiveSession
  count_frame s =
      if leb 65536 (s.frame_count + 1)
      then ratchet_key s
      else record s { frame_count = s.frame_count + 1 }

  -- `while self.epoch < epoch`: as many turns as the epoch is ahead.
  unfoldable pub ratchet_times : ℕ → LiveSession → LiveSession
  ratchet_times zero s = s
  ratchet_times (suc k) s = ratchet_times k (ratchet_key s)

  unfoldable pub ratchet_to : ℕ → LiveSession → LiveSession
  ratchet_to epoch s = ratchet_times (epoch - s.epoch) s

  module _ (aes : AesGcm) where
    -- The bytes of an encrypted frame; `nonce` is the random nonce.
    unfoldable pub frame_bytes : Bytes → Bytes → Bytes → LiveSession → Result Bytes
    frame_bytes nonce frame metadata s = do
      guard (leb (length metadata) 65535) value_error
      epoch_bytes ← pack16 s.epoch
      sealed ← seal aes nonce frame s.key (s.session_id_bytes ++ (epoch_bytes ++ metadata))
      meta_len ← pack16 (length metadata)
      ok (meta_len ++ (metadata ++ (epoch_bytes ++ (sealed.nonce ++ sealed.ciphertext))))

    unfoldable pub encrypt_frame : Bytes → Bytes → Bytes → Exec LiveSession Bytes
    encrypt_frame nonce frame metadata s = elim (frame_bytes nonce frame metadata s) [
      | ok b ↦ (ok b, count_frame s)
      | err e ↦ (err e, s)
    ]

    unfoldable pub open_frame : Frame → LiveSession → Result Bytes
    open_frame m s =
        unseal aes m.ciphertext m.nonce s.key (s.session_id_bytes ++ (be16 m.epoch ++ m.metadata))

    -- The end of `decrypt_frame`, once the key is that of the frame's epoch.
    unfoldable pub decrypt_ratcheted : Frame → Option ℕ → Exec LiveSession (Bytes × Bytes)
    decrypt_ratcheted m expected_seq s = elim (open_frame m s) [
      | ok plain ↦ (
        ok (plain, m.metadata),
        count_frame (record s { last_seq = seq_or expected_seq s.last_seq }),
      )
      | err e ↦ (err e, s)
    ]

    unfoldable pub decrypt_read : Result Frame → Option ℕ → Exec LiveSession (Bytes × Bytes)
    decrypt_read (err e) expected_seq s = (err e, s)
    decrypt_read (ok m) expected_seq s =
        if is_replayed expected_seq s.last_seq
        then (err replay_error, s)
        else decrypt_ratcheted m expected_seq (ratchet_to m.epoch s)

    unfoldable pub decrypt_frame : Bytes → Option ℕ → Exec LiveSession (Bytes × Bytes)
    decrypt_frame b expected_seq s = decrypt_read (read_frame b) expected_seq s
