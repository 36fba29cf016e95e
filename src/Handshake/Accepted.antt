-- ===== src/Handshake/Accepted.antt =====
-- uxsp/core/handshake.py: a message that one side makes passes the checks of the other side, which
-- derives the same secret.
use uxsp.Prelude.{ℕ, ◌+◌, ◌≤◌, ◌≡◌, refl, String, str_eq_iff, some, [], ◌∷◌, arith, inl, inr}
use uxsp.Prelude.Result.{ok, Result-cases}
use uxsp.Prelude.Dict.{Dict, get}
use uxsp.Prelude.Value.{ℤ, pos, Value, nil, cons, int, str, arr}
use uxsp.Envelope.{all_present}
use uxsp.Crypto.Symmetric.{Bytes}
use uxsp.Crypto.Parts.{Packages, Coins, ExchangeResult, bind_fields}
use uxsp.Crypto.Hybrid.{hybrid_sender_exchange, hybrid_sign}
use uxsp.Crypto.Hybrid.Exchange.{Seed, IsKeypair, exchange_agrees, hybrid_verify-sign}
use uxsp.Identity.{Identity, PublicCard}
use uxsp.Handshake.Parts.{Library, supported_version, max_age, supports, join_texts, derive_secret}
use uxsp.Handshake.Hello.{
  hello_fields, make_hello, hello_signable, hello_checked, verify_hello_signature,
}

-- The time stamp `ts` is at most 30 seconds from the reading `now`.
abbrev pub IsNear : ℕ → ℕ → Type 0
IsNear ts now = (now ≤ ts + max_age) × (ts ≤ now + max_age)

-- The card carries the public keys and the name of the identity, whose pair was generated.
pub record IsCard (p : Packages) (me : Identity) (card : PublicCard) (r : Seed) : Type 0 where
  pub keypair : IsKeypair p me.keypair card.public_keys r
  pub entity : card.entity_id ≡ me.entity_id

module _ (p : Packages) where
  abbrev hello_of : ℕ → String → String → String → ExchangeResult → String × String → Dict Value
  hello_of ts session_id initiator_id responder_id e sigs =
      ("type", str "UXSP-HELLO")
      ∷ ("supported_versions", arr (cons (str supported_version) nil))
      ∷ ("session_id", str session_id)
      ∷ ("initiator_id", str initiator_id)
      ∷ ("responder_id", str responder_id)
      ∷ ("timestamp", int (pos ts))
      ∷ ("ephemeral_pub", str (p.to_hex e.ephemeral_pub))
      ∷ ("kem_ciphertext", str (p.to_hex e.kem_ciphertext))
      ∷ ("classical_sig", str sigs.0)
      ∷ ("pqc_sig", str sigs.1)
      ∷ []

  -- How a HELLO was made.
  pub record IsHello (ts : ℕ) (coins : Coins) (me : Identity) (card : PublicCard)
      (session_id : String) (hello : Dict Value) (e : ExchangeResult) : Type 0 where
    sigs : String × String
    message : Bytes
    pub exchanged : hybrid_sender_exchange p card.public_keys coins ≡ ok e
    bound :
        bind_fields (
          hello_fields p supported_version session_id me.entity_id card.entity_id e.ephemeral_pub
            e.kem_ciphertext
            (p.show (pos ts)))
        ≡ ok message
    signed : hybrid_sign p message me.keypair ≡ ok sigs
    shape : hello ≡ hello_of ts session_id me.entity_id card.entity_id e sigs

  pub make_hello-IsHello :
      (ts : ℕ) (coins : Coins) (me : Identity) (card : PublicCard) (session_id : String)
      (made : Dict Value × ExchangeResult)
      → make_hello p ts coins me card session_id ≡ ok made
      → IsHello ts coins me card session_id made.0 made.1
  unfolding make_hello
  make_hello-IsHello ts coins me card session_id made h =
      elim (Result-cases (hybrid_sender_exchange p card.public_keys coins)) [
        | inr (x, a) ↦ absurd (ground arith)
        | inl (e, a) ↦
            elim (Result-cases (
              bind_fields (
                hello_fields p supported_version session_id me.entity_id card.entity_id
                  e.ephemeral_pub e.kem_ciphertext (p.show (pos ts))))) [
                    | inr (x, b) ↦ absurd (ground arith)
                    | inl (m, b) ↦ elim (Result-cases (hybrid_sign p m me.keypair)) [
                      | inr (x, c) ↦ absurd (ground arith)
                      | inl (sigs, c) ↦
                          let is_made : made
                              ≡ (hello_of ts session_id me.entity_id card.entity_id e sigs, e) =
                            ground arith in
                          rw is_made (record {
                            sigs = sigs;
                            message = m;
                            exchanged = a;
                            bound = b;
                            signed = c;
                            shape = refl;
                          })
                    ]
                  ]
      ]

  -- The fields of a HELLO that the responder takes over.
  pub hello_parties :
      (ts : ℕ) (coins : Coins) (me : Identity) (card : PublicCard) (session_id : String)
      (made : Dict Value × ExchangeResult)
      → make_hello p ts coins me card session_id ≡ ok made
      → (get "session_id" made.0 ≡ some (str session_id))
        × (get "initiator_id" made.0 ≡ some (str me.entity_id))
  unfolding get
  hello_parties ts coins me card session_id made h =
      let s = make_hello-IsHello ts coins me card session_id made h in
      (rw s.shape refl, rw s.shape refl)

  module _ (x : Library) (exact : (n : ℤ) → p.to_int (int n) ≡ ok n) where
    hello_of-signable :
        (ts : ℕ) (session_id initiator_id responder_id : String) (e : ExchangeResult)
        (sigs : String × String)
        → hello_signable p x (hello_of ts session_id initiator_id responder_id e sigs)
          ≡ bind_fields (
              hello_fields p supported_version session_id initiator_id responder_id e.ephemeral_pub
                e.kem_ciphertext
                (p.show (pos ts)))
    unfolding hello_signable get join_texts
    hello_of-signable ts session_id initiator_id responder_id e sigs =
        ground (arith, p.from_hex-to_hex e.ephemeral_pub, p.from_hex-to_hex e.kem_ciphertext)

    hello_of-checked :
        (ts now : ℕ) (session_id : String) (e : ExchangeResult) (sigs : String × String)
        (card : PublicCard) (you : Identity)
        → IsNear ts now
        → hello_checked p x now
            (hello_of ts session_id card.entity_id you.entity_id e sigs)
            card
            you
          ≡ ok tt
    unfolding hello_checked get all_present supports
    hello_of-checked ts now session_id e sigs card you near = ground (
      arith,
      near,
      exact (pos ts),
      str_eq_iff card.entity_id card.entity_id,
      str_eq_iff you.entity_id you.entity_id,
    )

    -- A HELLO that an identity makes for the card of another passes the checks of the other at a
    -- reading within 30 seconds, with the sender's card, and the other derives from it the secret
    -- that the sender has: both key pairs were generated, each card is its owner's, and `int` answers
    -- an integer with itself.
    pub hello_accepted :
        (ts now : ℕ) (coins : Coins) (me you : Identity) (card_me card_you : PublicCard)
        (rm ry : Seed) (session_id : String) (made : Dict Value × ExchangeResult)
        → IsCard p me card_me rm
        → IsCard p you card_you ry
        → IsNear ts now
        → make_hello p ts coins me card_you session_id ≡ ok made
        → ((m : Bytes) × (verify_hello_signature p x now made.0 card_me you
              ≡ ok (m, supported_version)))
          × (derive_secret p made.0 you ≡ ok made.1.shared_key)
    unfolding verify_hello_signature derive_secret get
    hello_accepted ts now coins me you card_me card_you rm ry session_id made cm cy near h =
        let s = make_hello-IsHello ts coins me card_you session_id made h in
        let e = made.1 in
        let shape : made.0 ≡ hello_of ts session_id card_me.entity_id you.entity_id e s.sigs =
          ground (arith, s.shape, cm.entity, cy.entity) in
        let verified =
          hybrid_verify-sign p me.keypair card_me.public_keys rm s.message s.sigs cm.keypair
            s.signed in
        let checked = hello_of-checked ts now session_id e s.sigs card_me you near in
        let signable = hello_of-signable ts session_id card_me.entity_id you.entity_id e s.sigs in
        let agrees =
          exchange_agrees p you.keypair card_you.public_keys ry coins e cy.keypair s.exchanged in
        (
          (
            s.message,
            rw shape (ground (arith, checked, signable, s.bound, cm.entity, cy.entity, verified)),
          ),
          rw shape (
              ground (
                arith,
                p.from_hex-to_hex e.ephemeral_pub,
                p.from_hex-to_hex e.kem_ciphertext,
                agrees,
              )),
        )
