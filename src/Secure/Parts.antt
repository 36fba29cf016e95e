-- ===== src/Secure/Parts.antt =====
-- uxsp/secure/_package.py and _engine.py: the package, the arguments of a sending, and the sealing of chunks.
use Prim.Native.String
use uxsp.Prelude.{ℕ, ◌+◌, String, Bool, true, str_eq, Option, none, some, List, [], ◌∷◌}
use uxsp.Prelude.Result.{
  Result, ok, err, ◌>>=◌, item, duplicate_nonce, stale_envelope, future_envelope, envelope_expired,
  card_revoked, card_expired, hybrid_validation, message_expired, duplicate_message, invalid_sender,
}
use uxsp.Prelude.Dict.{Dict}
use uxsp.Prelude.Value.{pos, Value, str}
use uxsp.Crypto.Symmetric.{Bytes, encrypt, decrypt}
use uxsp.Crypto.Parts.{Packages}
use uxsp.Crypto.Hybrid.{hex_of}
use uxsp.Identity.{Sealing}
use uxsp.Chunking.Transfer.{Options}
use uxsp.Secure.{Fresh}

-- uxsp/secure/_package.py: the container of what is sent.
pub record SecurePackage : Type 0 where
  pub sender_id : String
  pub receiver_id : String
  pub data_type : String
  pub is_chunked : Bool
  pub envelope : Option (Dict Value)
  pub chunks : List (Dict Value)
  pub metadata : Dict Value

-- The random values of one call and its readings of the clock: when the receiver's card is checked, those of
-- the sealing, the key of a chunked transfer with its identifier and its nonces, and an identity's.
pub record Sending : Type 0 where
  pub now : ℕ
  pub sealing : Sealing
  pub session_key : Bytes
  pub transfer_id : String
  pub chunk_nonce : ℕ → Bytes
  pub fresh : Fresh

-- 30 * 1024
abbrev pub envelope_limit : ℕ
envelope_limit = 30720

-- 16 * 1024
abbrev pub chunk_size : ℕ
chunk_size = 16384

-- The defaults of `create_chunked_transfer`.
abbrev pub default_options : Options
default_options = record {
  kind = "binary";
  filename = none;
  content_type = "application/octet-stream";
  encoding = none;
}

-- The handlers of `_secure_receive_payload`.
abbrev pub as_secure_error {ℓ} : {A : Type ℓ} → Result A → Result A
as_secure_error (ok a) = ok a
as_secure_error (err duplicate_nonce) = err duplicate_message
as_secure_error (err stale_envelope) = err message_expired
as_secure_error (err future_envelope) = err message_expired
as_secure_error (err envelope_expired) = err message_expired
as_secure_error (err card_revoked) = err invalid_sender
as_secure_error (err card_expired) = err invalid_sender
as_secure_error (err hybrid_validation) = err invalid_sender
as_secure_error (err e) = err e

-- `expected_type is not None and package.data_type != expected_type`
abbrev pub is_expected : Option String → String → Bool
is_expected none data_type = true
is_expected (some t) data_type = str_eq data_type t

module _ (p : Packages) where
  -- `f"{env.envelope_nonce}:{seq}".encode()`
  abbrev pub chunk_ad : String → ℕ → Bytes
  chunk_ad nonce seq = p.encode (String.◌++◌ nonce (String.◌++◌ ":" (p.show (pos seq))))

  -- The loop that seals the chunks, from the position `seq` on.
  unfoldable pub seal_chunks :
      String → Bytes → (ℕ → Bytes) → ℕ → List Bytes → Result (List (Dict Value))
  seal_chunks nonce key chunk_nonce seq [] = ok []
  seal_chunks nonce key chunk_nonce seq (c ∷ cs) = do
    sealed ← encrypt p.aes (chunk_nonce seq) c key (chunk_ad nonce seq)
    rest ← seal_chunks nonce key chunk_nonce (seq + 1) cs
    ok ((("c", str (p.to_hex sealed.ciphertext)) ∷ ("n", str (p.to_hex sealed.nonce)) ∷ []) ∷ rest)

  -- The loop that opens them.
  unfoldable pub open_chunks : String → Bytes → ℕ → List (Dict Value) → Result (List Bytes)
  open_chunks nonce key seq [] = ok []
  open_chunks nonce key seq (d ∷ ds) = do
    ciphertext ← item "c" d >>= hex_of p
    n ← item "n" d >>= hex_of p
    c ← decrypt p.aes ciphertext n key (chunk_ad nonce seq)
    rest ← open_chunks nonce key (seq + 1) ds
    ok (c ∷ rest)
