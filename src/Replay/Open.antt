-- ===== src/Replay/Open.antt =====
-- uxsp/core/replay.py: `ReplayGuard.check_and_open`, which checks, records and decrypts an envelope.
-- `freshness`, `seen`, `verification` and `marking` are the clock readings of its four steps.
pub mod Opened
use uxsp.Prelude.{ℕ, ◌+◌, String, Bool, true, false, some, List, []}
use uxsp.Prelude.Result.{Result, Exec, ok, err, ◌>>=◌, ◌>>◌, guard, value_error}
use uxsp.Prelude.Dict.{Dict, get}
use uxsp.Prelude.Value.{has_text}
use uxsp.Nonce.{NonceStore}
use uxsp.Crypto.Symmetric.{Bytes}
use uxsp.Crypto.Parts.{Packages, OpenOptions, Context}
use uxsp.Crypto.Hybrid.{verify_envelope, decrypt_verified_envelope}
use uxsp.Replay.{
  ReplayGuard, Incoming, Normalised, normalise, check_freshness_normalised, accept_if,
}

-- What the method reads of an identity and of a card.
pub record Recipient : Type 0 where
  pub entity_id : String
  pub keypair : Dict (Dict Bytes)

pub record Sender : Type 0 where
  pub entity_id : String
  pub public_keys : Dict Bytes

pub record Readings : Type 0 where
  pub freshness : ℕ
  pub seen : ℕ
  pub verification : ℕ
  pub marking : ℕ

module _ (p : Packages) (g : ReplayGuard) (me : Recipient) (card : Sender) where
  abbrev pub open_options : OpenOptions
  open_options = record {
    expected_recipient_id = some me.entity_id;
    expected_sender_id = some card.entity_id;
    max_age_seconds = g.window;
    clock_skew_seconds = g.clock_skew;
    allow_classical_only = false;
  }

  -- The checks that come before the store is asked.
  unfoldable pub admitted_sender : ℕ → Incoming → Result Normalised
  admitted_sender now envelope = do
    d ← normalise p.to_int envelope
    guard (has_text card.entity_id (get "sender_id" d.fields)) value_error
    check_freshness_normalised g now d
    ok d

  module _ {S : Type 0} (ops : NonceStore S) where
    -- From the recording of the nonce on.
    unfoldable pub mark_and_decrypt : ℕ → Normalised → Context → Exec S Bytes
    mark_and_decrypt now d ctx s =
        let (first_use, s') = ops.mark_used d.envelope_nonce (g.window + g.clock_skew) now s in
        (accept_if true first_use >> decrypt_verified_envelope p ctx me.keypair [], s')

    -- From the signatures on.
    unfoldable pub verify_and_decrypt : Readings → Normalised → Exec S Bytes
    verify_and_decrypt t d s =
        elim (verify_envelope p open_options t.verification d.fields card.public_keys) [
          | err e ↦ (err e, s)
          | ok ctx ↦ mark_and_decrypt t.marking d ctx s
        ]

    unfoldable pub open_unseen : Readings → Normalised → Result (Unit {0}) → Exec S Bytes
    open_unseen t d (err e) s = (err e, s)
    open_unseen t d (ok u) s = verify_and_decrypt t d s

    unfoldable pub open_admitted : Readings → Result Normalised → Exec S Bytes
    open_admitted t (err e) s = (err e, s)
    open_admitted t (ok d) s =
        let (seen, s') = ops.is_seen d.envelope_nonce t.seen s in
        open_unseen t d (accept_if false seen) s'

    unfoldable pub check_and_open : Readings → Incoming → Exec S Bytes
    check_and_open t envelope s = open_admitted t (admitted_sender t.freshness envelope) s
