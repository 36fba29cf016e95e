-- ===== src/Handshake.antt =====
-- uxsp/core/handshake.py: the three messages that establish a session. Clock readings, session
-- identifiers and random bytes are arguments.
pub mod Parts
pub mod Hello
pub mod Ack
pub mod Accepted
pub mod Answered
pub mod Replayed
pub mod Agreement
pub mod Guarded
use Prim.Native.String
use uxsp.Prelude.{
  ℕ, ◌+◌, String, Bool, true, false, not, ◌||◌, str_eq, if◌then◌else◌, Option, none, some, List, [],
  ◌∷◌, ◌++◌,
}
use uxsp.Prelude.Result.{
  Result, Exec, Error, ok, err, ◌>>=◌, ◌>>◌, guard, item, value_error, type_error, attribute_error,
  hybrid_validation, handshake_error, handshake_auth, handshake_proof, handshake_expired,
}
use uxsp.Prelude.Dict.{Dict, get}
use uxsp.Prelude.Value.{ℤ, pos, Value, Items, nil, cons, int, str, arr, other, as_text, has_text}
use uxsp.Prelude.Text.{codes}
use uxsp.Nonce.{NonceStore}
use uxsp.Envelope.{all_present}
use uxsp.Crypto.Symmetric.{Bytes}
use uxsp.Crypto.Parts.{Packages, Coins, ExchangeResult, bind_fields, is_older, is_ahead}
use uxsp.Crypto.Hybrid.{
  hex_of, hybrid_sender_exchange, hybrid_recipient_exchange, hybrid_sign, hybrid_verify,
}
use uxsp.Identity.{Identity, PublicCard}
use uxsp.Session.{Session, make_session, activate}
use uxsp.Session.Sequence.{SessionConfig}
use uxsp.Handshake.Parts.{
  Library, config_or_default, retention, present, supported_version, max_age, invalid_as_auth,
  validation_as_auth, text_or_type_error, text_or_attribute_error, versions_of, join_texts, shown,
  supports, time_of, check_age, signatures_of, derive_secret, final_secret, established,
}
use uxsp.Handshake.Hello.{make_hello, verify_hello_signature}
use uxsp.Handshake.Ack.{make_ack, verify_ack_signature, derive_ack_secret}

-- The object that both sides hold.
pub record Handshake : Type 0 where
  pub hello_msg : Option (Dict Value)
  pub ack_msg : Option (Dict Value)
  pub session : Option Session
  pub exchange : Option ExchangeResult
  pub session_id : Option String
  pub config : Option SessionConfig
  pub initiator : Option Identity
  pub resp_card : Option PublicCard

-- The properties `hello_message`, `ack_message` and `session`.
abbrev pub hello_message : Handshake → Result (Dict Value)
hello_message hs = present hs.hello_msg handshake_error

abbrev pub ack_message : Handshake → Result (Dict Value)
ack_message hs = present hs.ack_msg handshake_error

abbrev pub session_of : Handshake → Result Session
session_of hs = present hs.session handshake_error

-- `self._resp_card is None`, or the card has its entity.
abbrev pub is_card : PublicCard → Option PublicCard → Bool
is_card card none = true
is_card card (some c) = str_eq c.entity_id card.entity_id

-- What the store answered to `mark_used`.
abbrev pub first_or_expired : Result Bool → Result (Unit {0})
first_or_expired (ok true) = ok tt
first_or_expired (ok false) = err handshake_expired
first_or_expired (err e) = err e

abbrev pub keep : Result Session → Handshake → Handshake
keep (ok made) hs = record hs { session = some made }
keep (err e) hs = hs

-- The clock readings of `respond` and of `complete`.
pub record Readings : Type 0 where
  pub verification : ℕ
  pub marking : ℕ
  pub timestamp : ℕ
  pub creation : ℕ

-- What `complete` reads of the object and of the ack before it asks the store.
pub record Pending : Type 0 where
  pub nonce : String
  pub initiator : Identity
  pub session_id : String
  pub exchange : ExchangeResult

module _ (p : Packages) where
  -- `initiate`, with the session identifier, the clock reading and the random bytes.
  unfoldable pub initiate :
      ℕ → Coins → String → Identity → PublicCard → Option SessionConfig → Result Handshake
  initiate ts coins session_id initiator responder_card config = do
    made ← make_hello p ts coins initiator responder_card session_id
    ok (record {
      hello_msg = some made.0;
      ack_msg = none;
      session = none;
      exchange = some made.1;
      session_id = some session_id;
      config = some (config_or_default config);
      initiator = some initiator;
      resp_card = some responder_card;
    })

  module _ (x : Library) where
    -- `str(hello.get("session_id", ""))`
    abbrev pub session_text : Option Value → String
    session_text none = ""
    session_text (some v) = shown p x v

    -- `respond` from the derivation of the first secret on.
    unfoldable pub answer :
        Readings
        → Coins
        → Identity
        → Dict Value
        → PublicCard
        → Option SessionConfig
        → String
        → Result Handshake
    answer t coins responder hello initiator_card config version = do
      shared_secret_A ← derive_secret p hello responder
      session_value ← item "session_id" hello
      initiator_value ← item "initiator_id" hello
      made ←
          make_ack p x t.timestamp coins responder session_value initiator_value shared_secret_A
            initiator_card version
      session_id ← text_or_attribute_error session_value
      initiator_id ← text_or_attribute_error initiator_value
      let secret =
          final_secret p shared_secret_A made.1.shared_key session_id initiator_id
            responder.entity_id
      ok (record {
        hello_msg = none;
        ack_msg = some made.0;
        session = some (
            established p t.creation session_id responder.entity_id initiator_id secret false
              (config_or_default config));
        exchange = none;
        session_id = some (session_text (get "session_id" hello));
        config = some (config_or_default config);
        initiator = none;
        resp_card = none;
      })

    -- The checks of `respond` before the store is asked, with the nonce and the version.
    unfoldable pub hello_admitted :
        ℕ → Identity → Dict Value → PublicCard → Result (String × String)
    hello_admitted now responder hello initiator_card = do
      guard (x.is_uuid (session_text (get "session_id" hello))) handshake_auth
      verified ← verify_hello_signature p x now hello initiator_card responder
      session_value ← item "session_id" hello
      ok (String.◌++◌ "hello:" (shown p x session_value), verified.1)

    -- The checks of `complete` before the store is asked, with the nonce and what was kept.
    unfoldable pub ack_admitted : ℕ → Dict Value → PublicCard → Handshake → Result Pending
    ack_admitted now ack responder_card hs = do
      hello ← present hs.hello_msg handshake_error
      initiator ← present hs.initiator handshake_error
      session_id ← present hs.session_id handshake_error
      exchange ← present hs.exchange handshake_error
      signable ← verify_ack_signature p x now ack responder_card
      guard (has_text session_id (get "session_id" ack)) handshake_auth
      guard (has_text initiator.entity_id (get "initiator_id" ack)) handshake_auth
      guard (has_text responder_card.entity_id (get "responder_id" ack)) handshake_auth
      session_value ← item "session_id" ack
      ok (record {
        nonce = String.◌++◌ "ack:" (shown p x session_value);
        initiator = initiator;
        session_id = session_id;
        exchange = exchange;
      })

    -- `complete` from the check of the card on: the new session.
    unfoldable pub conclude :
        Readings
        → Dict Value
        → PublicCard
        → Handshake
        → Identity
        → String
        → ExchangeResult
        → Result Session
    conclude t ack responder_card hs initiator session_id exchange = do
      guard (is_card responder_card hs.resp_card) handshake_auth
      shared_secret_B ← derive_ack_secret p x ack exchange.shared_key initiator
      let secret =
          final_secret p exchange.shared_key shared_secret_B session_id initiator.entity_id
            responder_card.entity_id
      ok (
          established p t.creation session_id initiator.entity_id responder_card.entity_id secret
            true (config_or_default hs.config))

    module _ {S : Type 0} (ops : NonceStore S) where
      -- A handshake nonce is recorded for 90 seconds.
      unfoldable pub mark_once : String → ℕ → Exec S (Unit {0})
      mark_once nonce now s =
          let (first_use, s') = ops.mark_used nonce retention now s in
          (first_or_expired first_use, s')

      unfoldable pub respond_admitted :
          Readings
          → Coins
          → Identity
          → Dict Value
          → PublicCard
          → Option SessionConfig
          → Result (String × String)
          → Exec S Handshake
      respond_admitted t coins responder hello initiator_card config (err e) s = (err e, s)
      respond_admitted t coins responder hello initiator_card config (ok (nonce, version)) s =
          let (marked, s') = mark_once nonce t.marking s in
          (marked >> answer t coins responder hello initiator_card config version, s')

      unfoldable pub respond :
          Readings
          → Coins
          → Identity
          → Dict Value
          → PublicCard
          → Option SessionConfig
          → Exec S Handshake
      respond t coins responder hello initiator_card config s =
          respond_admitted t coins responder hello initiator_card config
            (hello_admitted t.verification responder hello initiator_card) s

      unfoldable pub complete_admitted :
          Readings → Dict Value → PublicCard → Handshake → Result Pending → Exec S Session
      complete_admitted t ack responder_card hs (err e) s = (err e, s)
      complete_admitted t ack responder_card hs (ok kept) s =
          let (marked, s') = mark_once kept.nonce t.marking s in
          (
            marked >> conclude t ack responder_card hs kept.initiator kept.session_id kept.exchange,
            s',
          )

      -- The object keeps the session that is returned.
      unfoldable pub complete : Readings → Dict Value → PublicCard → Exec (Handshake × S) Session
      complete t ack responder_card (hs, s) =
          let (made, s') =
            complete_admitted t ack responder_card hs
              (ack_admitted t.verification ack responder_card hs) s in
          (made, (keep made hs, s'))
