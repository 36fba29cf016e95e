-- ===== src/Handshake/Ack.antt =====
-- uxsp/core/handshake.py: the ACK message.
use Prim.Native.String
use uxsp.Prelude.{ℕ, String, Bool, false, str_eq, if◌then◌else◌, List, [], ◌∷◌}
use uxsp.Prelude.Result.{
  Result, ok, err, ◌>>=◌, ◌>>◌, guard, item, type_error, handshake_auth, handshake_proof,
}
use uxsp.Prelude.Dict.{Dict, get}
use uxsp.Prelude.Value.{pos, Value, int, str, has_text}
use uxsp.Envelope.{all_present}
use uxsp.Crypto.Symmetric.{Bytes}
use uxsp.Crypto.Parts.{Packages, Coins, ExchangeResult, bind_fields}
use uxsp.Crypto.Hybrid.{hex_of, hybrid_sender_exchange, hybrid_sign, hybrid_verify}
use uxsp.Identity.{Identity, PublicCard}
use uxsp.Handshake.Parts.{
  Library, supported_version, invalid_as_auth, validation_as_auth, text_or_type_error,
  text_or_attribute_error, shown, time_of, check_age, signatures_of, derive_secret,
}

abbrev pub ack_required : List String
ack_required =
    "type" ∷ "version" ∷ "session_id" ∷ "responder_id" ∷ "initiator_id" ∷ "timestamp" ∷ "proof"
    ∷ "ephemeral_pub" ∷ "kem_ciphertext" ∷ "classical_sig" ∷ "pqc_sig" ∷ []

module _ (p : Packages) (x : Library) where
  -- The proof that the responder holds the first secret.
  abbrev pub proof_of : Bytes → String → String
  proof_of secret session_id =
      x.hmac_hex secret (p.encode (String.◌++◌ session_id ":responder-proof"))

  abbrev pub ack_fields :
      String → String → String → String → String → Bytes → Bytes → String → List Bytes
  ack_fields version session_id responder_id initiator_id proof ephemeral_pub kem_ciphertext
        timestamp =
      p.encode "UXSP-ACK"
      ∷ p.encode version
      ∷ p.encode session_id
      ∷ p.encode responder_id
      ∷ p.encode initiator_id
      ∷ p.encode proof
      ∷ ephemeral_pub
      ∷ kem_ciphertext
      ∷ p.encode timestamp
      ∷ []

  -- `_make_ack`, with two values of the hello.
  unfoldable pub make_ack :
      ℕ
      → Coins
      → Identity
      → Value
      → Value
      → Bytes
      → PublicCard
      → String
      → Result (Dict Value × ExchangeResult)
  make_ack ts coins responder session_value initiator_value shared_secret_A initiator_card version =
      do
        exchange ← hybrid_sender_exchange p initiator_card.public_keys coins
        session_id ← text_or_type_error session_value
        initiator_id ← text_or_attribute_error initiator_value
        let proof = proof_of shared_secret_A session_id
        signable ← bind_fields (
            ack_fields version session_id responder.entity_id initiator_id proof
              exchange.ephemeral_pub exchange.kem_ciphertext (p.show (pos ts)))
        sigs ← hybrid_sign p signable responder.keypair
        ok (
          ("type", str "UXSP-ACK")
              ∷ ("version", str version)
              ∷ ("session_id", str session_id)
              ∷ ("responder_id", str responder.entity_id)
              ∷ ("initiator_id", str initiator_id)
              ∷ ("timestamp", int (pos ts))
              ∷ ("proof", str proof)
              ∷ ("ephemeral_pub", str (p.to_hex exchange.ephemeral_pub))
              ∷ ("kem_ciphertext", str (p.to_hex exchange.kem_ciphertext))
              ∷ ("classical_sig", str sigs.0)
              ∷ ("pqc_sig", str sigs.1)
              ∷ [],
          exchange,
        )

  -- What is signed of a received ack.
  unfoldable pub ack_signable : Dict Value → Result Bytes
  ack_signable ack = do
    version ← item "version" ack
    session_id ← item "session_id" ack
    responder_id ← item "responder_id" ack
    initiator_id ← item "initiator_id" ack
    proof ← item "proof" ack
    ephemeral_pub ← item "ephemeral_pub" ack >>= hex_of p
    kem_ciphertext ← item "kem_ciphertext" ack >>= hex_of p
    timestamp ← item "timestamp" ack
    bind_fields (
        ack_fields (shown p x version) (shown p x session_id) (shown p x responder_id)
          (shown p x initiator_id) (shown p x proof) ephemeral_pub kem_ciphertext
          (shown p x timestamp))

  -- `_verify_ack_signature`
  unfoldable pub verify_ack_signature : ℕ → Dict Value → PublicCard → Result Bytes
  verify_ack_signature now ack responder_card = do
    guard (all_present ack_required ack) handshake_auth
    guard (has_text "UXSP-ACK" (get "type" ack)) handshake_auth
    ts ← item "timestamp" ack >>= time_of p
    check_age now ts
    guard (has_text supported_version (get "version" ack)) handshake_auth
    signable ← invalid_as_auth (ack_signable ack)
    classical_sig ← item "classical_sig" ack
    pqc_sig ← item "pqc_sig" ack
    signature_ok ← validation_as_auth (
        hybrid_verify p signable (signatures_of classical_sig pqc_sig) responder_card.public_keys
          false)
    guard signature_ok handshake_auth
    ok signable

  -- `hmac.compare_digest(v, expected)` on two texts: one that is not ASCII is a TypeError.
  abbrev pub same_digest : String → Value → Result Bool
  same_digest expected (str s) = if x.is_ascii s then ok (str_eq s expected) else err type_error
  same_digest expected _ = err type_error

  -- `_derive_ack_secret`
  unfoldable pub derive_ack_secret : Dict Value → Bytes → Identity → Result Bytes
  derive_ack_secret ack shared_secret_A initiator = do
    session_id ← item "session_id" ack >>= text_or_type_error
    proof ← item "proof" ack
    same ← same_digest (proof_of shared_secret_A session_id) proof
    guard same handshake_proof
    derive_secret p ack initiator
