-- ===== src/Tests/Streams.antt =====
-- Tests of the live sessions.
use uxsp.Prelude.{ℕ, suc, zero, ◌+◌, ◌≡◌, refl, some, [], ◌∷◌, map}
use uxsp.Prelude.Result.{ok}
use uxsp.Crypto.Symmetric.{Bytes, encrypt as seal, decrypt as unseal}
use uxsp.Live.{
  LiveSession, Frame, encrypt_frame, frame_bytes, pack16, decrypt_frame, extract_metadata,
}
use uxsp.Live.Frames.{layout, live_round_trip}
use uxsp.Live.Delivery.{IsRising, returned, returned-IsRising}
use uxsp.Samples.{tagging}

abbrev bytes : ℕ → Bytes
bytes zero = []
bytes (suc n) = n ∷ bytes n

-- The next key, of the same length.
abbrev next_key : Bytes → Bytes
next_key = map (λ b. b + 1)

abbrev live : LiveSession
live = record {
  key = bytes 32;
  session_id_bytes = bytes 16;
  frame_count = 0;
  last_seq = some 4;
  epoch = 3;
}

abbrev frame : Bytes
frame = layout (109 ∷ []) 3 (bytes 12) (1 ∷ 7 ∷ 8 ∷ [])

live_round_trip_example :
    ((decrypt_frame next_key tagging frame (some 5) live).0 ≡ ok (7 ∷ 8 ∷ [], 109 ∷ []))
    × (extract_metadata frame ≡ ok (109 ∷ []))
unfolding encrypt_frame frame_bytes pack16 seal
live_round_trip_example =
    live_round_trip next_key tagging live live (bytes 12) (7 ∷ 8 ∷ []) (109 ∷ []) frame (some 5)
      (record { session_id = refl; key = refl; key_length = refl; epoch = refl }) refl refl refl

-- The frame with an epoch of 9 and without its tag.
abbrev forged : Frame
forged = record { metadata = []; epoch = 9; nonce = bytes 12; ciphertext = 0 ∷ [] }

returned-IsRising_example :
    IsRising (some 4) (returned next_key tagging ((frame, 5) ∷ (frame, 5) ∷ (frame, 6) ∷ []) live)
returned-IsRising_example =
    returned-IsRising next_key tagging ((frame, 5) ∷ (frame, 5) ∷ (frame, 6) ∷ []) live
