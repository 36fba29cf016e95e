-- ===== src/Live/Voice.antt =====
-- uxsp/core/live.py: voice frames, whose metadata is a JSON text. `dumps` is `json.dumps` without spaces,
-- in UTF-8, and `to_hex` is `bytes.hex`.
use uxsp.Prelude.{
  ℕ, zero, suc, ◌+◌, String, str_eq, Bool, true, false, if◌then◌else◌, Option, none, some, [], ◌∷◌,
  ◌++◌,
}
use uxsp.Prelude.Result.{Exec}
use uxsp.Prelude.Dict.{Dict}
use uxsp.Prelude.Value.{Value, bool, int, pos, str}
use uxsp.Crypto.Symmetric.{Bytes, AesGcm}
use uxsp.Live.{LiveSession, encrypt_frame}

-- The keyword arguments of a voice frame.
pub record VoiceFrame : Type 0 where
  pub codec : String
  pub sample_rate : ℕ
  pub channels : ℕ
  pub sequence : ℕ
  pub is_muted : Bool
  pub metadata : Bytes

pub record LiveVoiceSession : Type 0 where
  pub session : LiveSession
  pub codec : String
  pub sample_rate : ℕ
  pub channels : ℕ
  pub sequence : ℕ
  pub is_muted : Bool

-- What the caller of a voice session may set for one frame.
pub record VoiceOptions : Type 0 where
  pub codec : Option String
  pub sample_rate : Option ℕ
  pub channels : Option ℕ
  pub sequence : Option ℕ
  pub is_muted : Option Bool
  pub metadata : Bytes

unfoldable pub mute : LiveVoiceSession → LiveVoiceSession
mute v = record v { is_muted = true }

unfoldable pub unmute : LiveVoiceSession → LiveVoiceSession
unmute v = record v { is_muted = false }

unfoldable pub next_sequence : LiveVoiceSession → ℕ × LiveVoiceSession
next_sequence v = (v.sequence + 1, record v { sequence = v.sequence + 1 })

-- `codec or self.codec`
abbrev pub text_or : Option String → String → String
text_or none default = default
text_or (some s) default = if str_eq s "" then default else s

-- `channels or self.channels`
abbrev pub number_or : Option ℕ → ℕ → ℕ
number_or none default = default
number_or (some zero) default = default
number_or (some (suc n)) default = suc n

abbrev pub muted_or : Option Bool → Bool → Bool
muted_or none default = default
muted_or (some b) default = b

-- The sequence number of a frame: the given one, or the next.
abbrev pub sequence_or_next : Option ℕ → LiveVoiceSession → ℕ × LiveVoiceSession
sequence_or_next (some n) v = (n, v)
sequence_or_next none v = next_sequence v

module _ (dumps : Dict Value → Bytes) (to_hex : Bytes → String) where
  abbrev pub extra_of : Bytes → Dict Value
  extra_of [] = []
  extra_of (b ∷ bs) = ("extra", str (to_hex (b ∷ bs))) ∷ []

  abbrev pub audio_meta : VoiceFrame → Dict Value
  audio_meta f =
      (("type", str "voice")
        ∷ ("codec", str f.codec)
        ∷ ("sample_rate", int (pos f.sample_rate))
        ∷ ("channels", int (pos f.channels))
        ∷ ("sequence", int (pos f.sequence))
        ∷ ("is_muted", bool f.is_muted)
        ∷ [])
      ++ extra_of f.metadata

  module _ (derive : Bytes → Bytes) (aes : AesGcm) where
    -- `LiveSession.encrypt_voice_frame`
    unfoldable pub encrypt_voice_frame : Bytes → Bytes → VoiceFrame → Exec LiveSession Bytes
    encrypt_voice_frame nonce frame f s =
        encrypt_frame derive aes nonce frame (dumps (audio_meta f)) s

    -- `LiveVoiceSession.encrypt_voice_frame`
    unfoldable pub encrypt_call_frame : Bytes → Bytes → VoiceOptions → Exec LiveVoiceSession Bytes
    encrypt_call_frame nonce frame o v =
        let (seq, v') = sequence_or_next o.sequence v in
        let f : VoiceFrame = record {
          codec = text_or o.codec v.codec;
          sample_rate = number_or o.sample_rate v.sample_rate;
          channels = number_or o.channels v.channels;
          sequence = seq;
          is_muted = muted_or o.is_muted v.is_muted;
          metadata = o.metadata;
        } in
        let (sent, s) = encrypt_voice_frame nonce frame f v'.session in
        (sent, record v' { session = s })
