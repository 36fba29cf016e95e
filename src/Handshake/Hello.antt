-- ===== src/Handshake/Hello.antt =====
-- uxsp/core/handshake.py: the HELLO message.
use uxsp.Prelude.{ℕ, String, false, List, [], ◌∷◌}
use uxsp.Prelude.Result.{Result, ok, err, ◌>>=◌, ◌>>◌, guard, item, type_error, handshake_auth}
use uxsp.Prelude.Dict.{Dict, get}
use uxsp.Prelude.Value.{pos, Value, nil, cons, int, str, arr, has_text}
use uxsp.Envelope.{all_present}
use uxsp.Crypto.Symmetric.{Bytes}
use uxsp.Crypto.Parts.{Packages, Coins, ExchangeResult, bind_fields}
use uxsp.Crypto.Hybrid.{hex_of, hybrid_sender_exchange, hybrid_sign, hybrid_verify}
use uxsp.Identity.{Identity, PublicCard}
use uxsp.Handshake.Parts.{
  Library, supported_version, invalid_as_auth, validation_as_auth, versions_of, join_texts, shown,
  supports, time_of, check_age, signatures_of,
}

abbrev pub hello_required : List String
hello_required =
    "type" ∷ "supported_versions" ∷ "session_id" ∷ "initiator_id" ∷ "responder_id" ∷ "timestamp"
    ∷ "ephemeral_pub" ∷ "kem_ciphertext" ∷ "classical_sig" ∷ "pqc_sig" ∷ []

module _ (p : Packages) where
  abbrev pub hello_fields : String → String → String → String → Bytes → Bytes → String → List Bytes
  hello_fields versions session_id initiator_id responder_id ephemeral_pub kem_ciphertext
        timestamp =
      p.encode "UXSP-HELLO"
      ∷ p.encode versions
      ∷ p.encode session_id
      ∷ p.encode initiator_id
      ∷ p.encode responder_id
      ∷ ephemeral_pub
      ∷ kem_ciphertext
      ∷ p.encode timestamp
      ∷ []

  -- `_make_hello`
  unfoldable pub make_hello :
      ℕ → Coins → Identity → PublicCard → String → Result (Dict Value × ExchangeResult)
  make_hello ts coins initiator responder_card session_id = do
    exchange ← hybrid_sender_exchange p responder_card.public_keys coins
    signable ← bind_fields (
        hello_fields supported_version session_id initiator.entity_id responder_card.entity_id
          exchange.ephemeral_pub exchange.kem_ciphertext (p.show (pos ts)))
    sigs ← hybrid_sign p signable initiator.keypair
    ok (
      ("type", str "UXSP-HELLO")
          ∷ ("supported_versions", arr (cons (str supported_version) nil))
          ∷ ("session_id", str session_id)
          ∷ ("initiator_id", str initiator.entity_id)
          ∷ ("responder_id", str responder_card.entity_id)
          ∷ ("timestamp", int (pos ts))
          ∷ ("ephemeral_pub", str (p.to_hex exchange.ephemeral_pub))
          ∷ ("kem_ciphertext", str (p.to_hex exchange.kem_ciphertext))
          ∷ ("classical_sig", str sigs.0)
          ∷ ("pqc_sig", str sigs.1)
          ∷ [],
      exchange,
    )

  module _ (x : Library) where
    -- What is signed of a received hello.
    unfoldable pub hello_signable : Dict Value → Result Bytes
    hello_signable hello = do
      versions ← item "supported_versions" hello
      joined ← (elim versions [ arr vs ↦ join_texts vs | _ ↦ err type_error ])
      session_id ← item "session_id" hello
      initiator_id ← item "initiator_id" hello
      responder_id ← item "responder_id" hello
      ephemeral_pub ← item "ephemeral_pub" hello >>= hex_of p
      kem_ciphertext ← item "kem_ciphertext" hello >>= hex_of p
      timestamp ← item "timestamp" hello
      bind_fields (
          hello_fields joined (shown p x session_id) (shown p x initiator_id)
            (shown p x responder_id) ephemeral_pub kem_ciphertext (shown p x timestamp))

    -- The checks of `_verify_hello_signature` before the signature.
    unfoldable pub hello_checked : ℕ → Dict Value → PublicCard → Identity → Result (Unit {0})
    hello_checked now hello initiator_card responder = do
      guard (all_present hello_required hello) handshake_auth
      guard (has_text "UXSP-HELLO" (get "type" hello)) handshake_auth
      ts ← item "timestamp" hello >>= time_of p
      check_age now ts
      guard (has_text initiator_card.entity_id (get "initiator_id" hello)) handshake_auth
      guard (has_text responder.entity_id (get "responder_id" hello)) handshake_auth
      versions ← versions_of (get "supported_versions" hello)
      common ← supports x versions
      guard common handshake_auth

    -- `_verify_hello_signature`; the negotiated version is the one that is supported.
    unfoldable pub verify_hello_signature :
        ℕ → Dict Value → PublicCard → Identity → Result (Bytes × String)
    verify_hello_signature now hello initiator_card responder = do
      hello_checked now hello initiator_card responder
      signable ← invalid_as_auth (hello_signable hello)
      classical_sig ← item "classical_sig" hello
      pqc_sig ← item "pqc_sig" hello
      signature_ok ← validation_as_auth (
          hybrid_verify p signable (signatures_of classical_sig pqc_sig) initiator_card.public_keys
            false)
      guard signature_ok handshake_auth
      ok (signable, supported_version)
