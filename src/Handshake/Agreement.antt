-- ===== src/Handshake/Agreement.antt =====
-- uxsp/core/handshake.py: a handshake that is answered completes, and its two sessions are the ends of
-- one channel.
use Prim.Native.String
use uxsp.Prelude.{
  ℕ, ◌≡◌, refl, String, true, false, str_eq_iff, Option, none, some, arith, inl, inr,
}
use uxsp.Prelude.Result.{ok, Result-cases}
use uxsp.Prelude.Dict.{Dict, get}
use uxsp.Prelude.Value.{ℤ, Value, int, str}
use uxsp.Nonce.{NonceStore}
use uxsp.Crypto.Symmetric.{Bytes}
use uxsp.Crypto.Parts.{Packages, Coins, ExchangeResult}
use uxsp.Crypto.Hybrid.Exchange.{Seed}
use uxsp.Identity.{Identity, PublicCard}
use uxsp.Session.{Session, make_session, activate}
use uxsp.Session.Channel.{IsChannel}
use uxsp.Session.Sequence.{SessionConfig, active}
use uxsp.Handshake.Parts.{
  Library, config_or_default, retention, supported_version, derive_secret, final_secret,
  established,
}
use uxsp.Handshake.Hello.{make_hello, verify_hello_signature}
use uxsp.Handshake.Ack.{make_ack, verify_ack_signature, derive_ack_secret}
use uxsp.Handshake.Accepted.{IsNear, IsCard, hello_accepted, hello_parties}
use uxsp.Handshake.Answered.{ack_accepted, ack_parties}
use uxsp.Handshake.{
  Handshake, Readings, hello_message, ack_message, session_of, initiate, answer, hello_admitted,
  ack_admitted, conclude, mark_once, respond_admitted, respond, complete_admitted, complete,
}

-- Two active sessions with the same identifier, each the other end of the other's channel.
pub record IsPair (a b : Session) : Type 0 where
  pub active_a : a.state ≡ active
  pub active_b : b.state ≡ active
  pub parties : (a.local_id ≡ b.remote_id) × (b.local_id ≡ a.remote_id)
  pub forth : IsChannel a b
  pub back : IsChannel b a

module _ (p : Packages) where
  established-IsPair :
      (now now' : ℕ) (session_id initiator_id responder_id : String) (secret : Bytes)
      (config : SessionConfig)
      → IsPair
          (established p now session_id initiator_id responder_id secret true config)
          (established p now' session_id responder_id initiator_id secret false config)
  unfolding established make_session activate
  established-IsPair now now' session_id initiator_id responder_id secret config = record {
    active_a = refl;
    active_b = refl;
    parties = (refl, refl);
    forth = record {
      session_id = refl;
      key = refl;
      key_length = p.hkdf.length-derive 32 none _ secret;
    };
    back = record {
      session_id = refl;
      key = refl;
      key_length = p.hkdf.length-derive 32 none _ secret;
    };
  }

  -- How `initiate` made its object.
  initiated :
      (ts : ℕ) (coins : Coins) (session_id : String) (me : Identity) (card : PublicCard)
      (config : Option SessionConfig) (hs : Handshake)
      → initiate p ts coins session_id me card config ≡ ok hs
      → (made : Dict Value × ExchangeResult) × (make_hello p ts coins me card session_id ≡ ok made)
        × (hs ≡ record {
          hello_msg = some made.0;
          ack_msg = none;
          session = none;
          exchange = some made.1;
          session_id = some session_id;
          config = some (config_or_default config);
          initiator = some me;
          resp_card = some card;
        })
  unfolding initiate
  initiated ts coins session_id me card config hs h =
      elim (Result-cases (make_hello p ts coins me card session_id)) [
        | inr (z, a) ↦ absurd (ground arith)
        | inl (made, a) ↦ (made, a, ground arith)
      ]

  module _ (x : Library) where
    -- What the responder made of a HELLO.
    record IsAnswer (t : Readings) (coins : Coins) (me you : Identity) (card : PublicCard)
        (config : Option SessionConfig) (session_id : String) (secret : Bytes) (hs : Handshake)
        : Type 0 where
      made : Dict Value × ExchangeResult
      acked :
          make_ack p x t.timestamp coins you
            (str session_id)
            (str me.entity_id)
            secret
            card
            supported_version
          ≡ ok made
      message : hs.ack_msg ≡ some made.0
      session :
          hs.session
          ≡ some (
              established p t.creation session_id you.entity_id me.entity_id
                (final_secret p secret made.1.shared_key session_id me.entity_id you.entity_id)
                false
                (config_or_default config))

    answer-IsAnswer :
        (t : Readings) (coins : Coins) (me you : Identity) (card : PublicCard)
        (config : Option SessionConfig) (session_id : String) (secret : Bytes) (hello : Dict Value)
        (hs : Handshake)
        → derive_secret p hello you ≡ ok secret
        → get "session_id" hello ≡ some (str session_id)
        → get "initiator_id" hello ≡ some (str me.entity_id)
        → answer p x t coins you hello card config supported_version ≡ ok hs
        → IsAnswer t coins me you card config session_id secret hs
    unfolding answer
    answer-IsAnswer t coins me you card config session_id secret hello hs d i i' h =
        elim (Result-cases (
          make_ack p x t.timestamp coins you (str session_id) (str me.entity_id) secret card
            supported_version)) [
              | inr (z, a) ↦ absurd (ground arith)
              | inl (made, a) ↦ record {
                made = made;
                acked = a;
                message = ground arith;
                session = ground arith;
              }
            ]

    module _ {S : Type 0} (ops : NonceStore S) where
      responded :
          (t : Readings) (coins : Coins) (you : Identity) (hello : Dict Value) (card : PublicCard)
          (config : Option SessionConfig) (s : S) (m : Bytes) (hs : Handshake)
          → verify_hello_signature p x t.verification hello card you ≡ ok (m, supported_version)
          → (respond p x ops t coins you hello card config s).0 ≡ ok hs
          → answer p x t coins you hello card config supported_version ≡ ok hs
      unfolding respond respond_admitted hello_admitted
      responded t coins you hello card config s m hs v h =
          elim (Result-cases (hello_admitted p x t.verification you hello card)) [
            | inr (z, a) ↦ absurd (ground arith)
            | inl (admitted, a) ↦
                let version : admitted.1 ≡ supported_version = ground arith in
                elim (Result-cases (mark_once p x ops admitted.0 t.marking s).0) [
                  | inr (z, b) ↦ absurd (ground arith)
                  | inl (u, b) ↦ ground arith
                ]
          ]

      -- The nonce that `complete` records.
      abbrev pub ack_nonce : String → String
      ack_nonce session_id = String.◌++◌ "ack:" session_id

      completed :
          (t : Readings) (ack : Dict Value) (me you : Identity) (card : PublicCard)
          (session_id : String) (exchange : ExchangeResult) (secret m : Bytes) (hs : Handshake)
          (hello : Dict Value) (s : S)
          → hs.hello_msg ≡ some hello
          → hs.initiator ≡ some me
          → hs.session_id ≡ some session_id
          → hs.exchange ≡ some exchange
          → hs.resp_card ≡ some card
          → card.entity_id ≡ you.entity_id
          → get "session_id" ack ≡ some (str session_id)
          → get "responder_id" ack ≡ some (str you.entity_id)
          → get "initiator_id" ack ≡ some (str me.entity_id)
          → verify_ack_signature p x t.verification ack card ≡ ok m
          → derive_ack_secret p x ack exchange.shared_key me ≡ ok secret
          → (ops.mark_used (ack_nonce session_id) retention t.marking s).0 ≡ ok true
          → (complete p x ops t ack card (hs, s)).0
            ≡ ok (
                established p t.creation session_id me.entity_id you.entity_id
                  (final_secret p exchange.shared_key secret session_id me.entity_id you.entity_id)
                  true
                  (config_or_default hs.config))
      unfolding complete complete_admitted ack_admitted conclude mark_once
      completed t ack me you card session_id exchange secret m hs hello s h1 h2 h3 h4 h5 cy i1 i2 i3
            v d first =
          ground (
            arith,
            str_eq_iff session_id session_id,
            str_eq_iff me.entity_id me.entity_id,
            str_eq_iff you.entity_id you.entity_id,
            str_eq_iff card.entity_id card.entity_id,
          )

      -- A handshake whose HELLO is answered completes: if the responder answers the HELLO that the
      -- initiator made for it, and the initiator receives the ACK within 30 seconds and its store takes
      -- the nonce of the ACK, then `complete` returns a session, and with the responder's session it
      -- makes the two active ends of one channel in both directions. Both key pairs were generated,
      -- each card is its owner's, both sides have the same configuration, the HELLO was verified
      -- within 30 seconds, a hexadecimal digest is ASCII, and `int` answers an integer with itself.
      pub handshake_agrees :
          (ts : ℕ) (t t' : Readings) (coins coins' : Coins) (session_id : String)
          (me you : Identity) (card_me card_you : PublicCard) (rm ry : Seed)
          (config : Option SessionConfig) (hs hs' : Handshake) (hello ack : Dict Value) (s s' : S)
          → ((n : ℤ) → p.to_int (int n) ≡ ok n)
          → ((key message : Bytes) → x.is_ascii (x.hmac_hex key message) ≡ true)
          → IsCard p me card_me rm
          → IsCard p you card_you ry
          → IsNear ts t.verification
          → IsNear t.timestamp t'.verification
          → initiate p ts coins session_id me card_you config ≡ ok hs
          → hello_message hs ≡ ok hello
          → (respond p x ops t coins' you hello card_me config s).0 ≡ ok hs'
          → ack_message hs' ≡ ok ack
          → (ops.mark_used (ack_nonce session_id) retention t'.marking s').0 ≡ ok true
          → (a b : Session) × ((complete p x ops t' ack card_you (hs, s')).0 ≡ ok a)
            × (session_of hs' ≡ ok b)
            × IsPair a b
      handshake_agrees ts t t' coins coins' session_id me you card_me card_you rm ry config hs hs'
            hello ack s s' exact ascii cm cy near near' start sent answered received first =
          let (made, m, is_hs) = initiated ts coins session_id me card_you config hs start in
          let is_hello : hello ≡ made.0 = ground arith in
          let ((message, verified), derived) =
            hello_accepted p x exact ts t.verification coins me you card_me card_you rm ry
              session_id made cm cy near m in
          let (i, i') = hello_parties p ts coins me card_you session_id made m in
          let replied =
            responded t coins' you made.0 card_me config s message hs' verified
              (rw (← is_hello) answered) in
          let r =
            answer-IsAnswer t coins' me you card_me config session_id made.1.shared_key made.0 hs'
              derived i i' replied in
          let secret = made.1.shared_key in
          let is_ack : ack ≡ r.made.0 = ground arith in
          let ((message', verified'), derived') =
            ack_accepted p x exact t.timestamp t'.verification coins' me you card_me card_you rm ry
              session_id me.entity_id secret r.made cm cy near' (ascii _ _) r.acked in
          let (j, j', j'') =
            ack_parties p x t.timestamp coins' you card_me session_id me.entity_id secret r.made
              r.acked in
          let done =
            completed t' r.made.0 me you card_you session_id made.1 r.made.1.shared_key message' hs
              made.0 s' (rw is_hs refl) (rw is_hs refl) (rw is_hs refl) (rw is_hs refl)
              (rw is_hs refl) cy.entity j j' j'' verified' derived' first in
          let key =
            final_secret p secret r.made.1.shared_key session_id me.entity_id you.entity_id in
          let used : config_or_default hs.config ≡ config_or_default config = rw is_hs refl in
          (
            established p t'.creation session_id me.entity_id you.entity_id key true
                (config_or_default config),
            established p t.creation session_id you.entity_id me.entity_id key false
                (config_or_default config),
            rw (is_ack, ← used) done,
            rw r.session refl,
            established-IsPair t'.creation t.creation session_id me.entity_id you.entity_id key
                (config_or_default config),
          )
