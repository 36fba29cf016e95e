-- ===== src/Handshake/Answered.antt =====
-- uxsp/core/handshake.py: an ACK that the responder makes passes the checks of the initiator, which
-- finds the proof right and derives the responder's secret.
use uxsp.Prelude.{ℕ, ◌≡◌, refl, String, true, str_eq_iff, some, [], ◌∷◌, arith, inl, inr}
use uxsp.Prelude.Result.{ok, Result-cases}
use uxsp.Prelude.Dict.{Dict, get}
use uxsp.Prelude.Value.{ℤ, pos, Value, int, str}
use uxsp.Envelope.{all_present}
use uxsp.Crypto.Symmetric.{Bytes}
use uxsp.Crypto.Parts.{Packages, Coins, ExchangeResult, bind_fields}
use uxsp.Crypto.Hybrid.{hybrid_sender_exchange, hybrid_sign}
use uxsp.Crypto.Hybrid.Exchange.{Seed, exchange_agrees, hybrid_verify-sign}
use uxsp.Identity.{Identity, PublicCard}
use uxsp.Handshake.Parts.{Library, supported_version, derive_secret}
use uxsp.Handshake.Ack.{
  proof_of, ack_fields, make_ack, ack_signable, verify_ack_signature, derive_ack_secret,
}
use uxsp.Handshake.Accepted.{IsNear, IsCard}

module _ (p : Packages) (x : Library) where
  abbrev ack_of :
      ℕ → String → String → String → String → ExchangeResult → String × String → Dict Value
  ack_of ts session_id responder_id initiator_id proof e sigs =
      ("type", str "UXSP-ACK")
      ∷ ("version", str supported_version)
      ∷ ("session_id", str session_id)
      ∷ ("responder_id", str responder_id)
      ∷ ("initiator_id", str initiator_id)
      ∷ ("timestamp", int (pos ts))
      ∷ ("proof", str proof)
      ∷ ("ephemeral_pub", str (p.to_hex e.ephemeral_pub))
      ∷ ("kem_ciphertext", str (p.to_hex e.kem_ciphertext))
      ∷ ("classical_sig", str sigs.0)
      ∷ ("pqc_sig", str sigs.1)
      ∷ []

  -- How an ACK was made.
  pub record IsAck (ts : ℕ) (coins : Coins) (you : Identity) (card : PublicCard)
      (session_id initiator_id : String) (secret : Bytes) (ack : Dict Value) (e : ExchangeResult)
      : Type 0 where
    sigs : String × String
    message : Bytes
    pub exchanged : hybrid_sender_exchange p card.public_keys coins ≡ ok e
    bound :
        bind_fields (
          ack_fields p x supported_version session_id you.entity_id initiator_id
            (proof_of p x secret session_id)
            e.ephemeral_pub
            e.kem_ciphertext
            (p.show (pos ts)))
        ≡ ok message
    signed : hybrid_sign p message you.keypair ≡ ok sigs
    shape :
        ack
        ≡ ack_of ts session_id you.entity_id initiator_id (proof_of p x secret session_id) e sigs

  pub make_ack-IsAck :
      (ts : ℕ) (coins : Coins) (you : Identity) (card : PublicCard)
      (session_id initiator_id : String) (secret : Bytes) (made : Dict Value × ExchangeResult)
      → make_ack p x ts coins you (str session_id) (str initiator_id) secret card supported_version
        ≡ ok made
      → IsAck ts coins you card session_id initiator_id secret made.0 made.1
  unfolding make_ack
  make_ack-IsAck ts coins you card session_id initiator_id secret made h =
      elim (Result-cases (hybrid_sender_exchange p card.public_keys coins)) [
        | inr (z, a) ↦ absurd (ground arith)
        | inl (e, a) ↦
            elim (Result-cases (
              bind_fields (
                ack_fields p x supported_version session_id you.entity_id initiator_id
                  (proof_of p x secret session_id) e.ephemeral_pub e.kem_ciphertext
                  (p.show (pos ts))))) [
                    | inr (z, b) ↦ absurd (ground arith)
                    | inl (m, b) ↦ elim (Result-cases (hybrid_sign p m you.keypair)) [
                      | inr (z, c) ↦ absurd (ground arith)
                      | inl (sigs, c) ↦
                          let is_made : made ≡ (
                            ack_of ts session_id you.entity_id initiator_id
                                (proof_of p x secret session_id) e sigs,
                            e,
                          ) =
                            ground arith in
                          rw is_made (record {
                            sigs = sigs;
                            message = m;
                            exchanged = a;
                            bound = b;
                            signed = c;
                            shape = refl;
                          })
                    ]
                  ]
      ]

  -- The fields of an ACK that the initiator compares.
  pub ack_parties :
      (ts : ℕ) (coins : Coins) (you : Identity) (card : PublicCard)
      (session_id initiator_id : String) (secret : Bytes) (made : Dict Value × ExchangeResult)
      → make_ack p x ts coins you (str session_id) (str initiator_id) secret card supported_version
        ≡ ok made
      → (get "session_id" made.0 ≡ some (str session_id))
        × (get "responder_id" made.0 ≡ some (str you.entity_id))
        × (get "initiator_id" made.0 ≡ some (str initiator_id))
  unfolding get
  ack_parties ts coins you card session_id initiator_id secret made h =
      let s = make_ack-IsAck ts coins you card session_id initiator_id secret made h in
      (rw s.shape refl, rw s.shape refl, rw s.shape refl)

  module _ (exact : (n : ℤ) → p.to_int (int n) ≡ ok n) where
    ack_of-signable :
        (ts : ℕ) (session_id responder_id initiator_id proof : String) (e : ExchangeResult)
        (sigs : String × String)
        → ack_signable p x (ack_of ts session_id responder_id initiator_id proof e sigs)
          ≡ bind_fields (
              ack_fields p x supported_version session_id responder_id initiator_id proof
                e.ephemeral_pub e.kem_ciphertext
                (p.show (pos ts)))
    unfolding ack_signable get
    ack_of-signable ts session_id responder_id initiator_id proof e sigs =
        ground (arith, p.from_hex-to_hex e.ephemeral_pub, p.from_hex-to_hex e.kem_ciphertext)

    -- An ACK that an identity makes passes the checks of `_verify_ack_signature` with its card at a
    -- reading within 30 seconds, and an initiator that holds the first secret finds the proof right and
    -- derives the secret that the responder has: both key pairs were generated, each card is its
    -- owner's, a hexadecimal digest is ASCII, and `int` answers an integer with itself.
    pub ack_accepted :
        (ts now : ℕ) (coins : Coins) (me you : Identity) (card_me card_you : PublicCard)
        (rm ry : Seed) (session_id initiator_id : String) (secret : Bytes)
        (made : Dict Value × ExchangeResult)
        → IsCard p me card_me rm
        → IsCard p you card_you ry
        → IsNear ts now
        → x.is_ascii (proof_of p x secret session_id) ≡ true
        → make_ack p x ts coins you
            (str session_id)
            (str initiator_id)
            secret
            card_me
            supported_version
          ≡ ok made
        → ((m : Bytes) × (verify_ack_signature p x now made.0 card_you ≡ ok m))
          × (derive_ack_secret p x made.0 secret me ≡ ok made.1.shared_key)
    unfolding verify_ack_signature derive_ack_secret derive_secret all_present get
    ack_accepted ts now coins me you card_me card_you rm ry session_id initiator_id secret made cm
          cy near ascii h =
        let s = make_ack-IsAck ts coins you card_me session_id initiator_id secret made h in
        let e = made.1 in
        let proof = proof_of p x secret session_id in
        let verified =
          hybrid_verify-sign p you.keypair card_you.public_keys ry s.message s.sigs cy.keypair
            s.signed in
        let signable = ack_of-signable ts session_id you.entity_id initiator_id proof e s.sigs in
        let agrees =
          exchange_agrees p me.keypair card_me.public_keys rm coins e cm.keypair s.exchanged in
        (
          (
            s.message,
            rw s.shape (ground (arith, near, exact (pos ts), signable, s.bound, verified)),
          ),
          rw s.shape (
              ground (
                arith,
                p.from_hex-to_hex e.ephemeral_pub,
                p.from_hex-to_hex e.kem_ciphertext,
                agrees,
                ascii,
                str_eq_iff proof proof,
              )),
        )
