-- ===== src/Tests/Identities.antt =====
-- Tests of the messages between identities, and of opening under the replay guard.
use uxsp.Prelude.{◌≡◌, ◌≢◌, refl, some, [], ◌∷◌, arith, replicate}
use uxsp.Prelude.Result.{ok}
use uxsp.Prelude.Dict.{get, put}
use uxsp.Prelude.Value.{pos}
use uxsp.Nonce.{empty_store, memory_store, mark_used, is_seen, count_call, insert_nonce}
use uxsp.Nonce.Contract.{clean, run}
use uxsp.Nonce.Memory.{memory_law, empty-IsValid}
use uxsp.Envelope.{Envelope, to_dict, all_present, from_dict, string_field}
use uxsp.Replay.{
  ReplayGuard, instance_of, mapping, normalise, Normalised, check_freshness_normalised,
}
use uxsp.Replay.Open.{
  Recipient, Sender, Readings as OpenReadings, check_and_open, open_admitted, open_unseen,
  verify_and_decrypt, mark_and_decrypt, admitted_sender,
}
use uxsp.Replay.Open.Opened.{opened_once}
use uxsp.Crypto.Symmetric.{encrypt, decrypt}
use uxsp.Crypto.Parts.{bind_fields}
use uxsp.Crypto.Hybrid.{
  seal, verify_envelope, hybrid_sender_exchange, hybrid_recipient_exchange, recipient_secrets,
  hybrid_sign, require_open_context, decode_fields, verify_context, hybrid_verify,
  decrypt_verified_envelope,
}
use uxsp.Crypto.Kdf.{derive_key}
use uxsp.Crypto.Asymmetric.{compute_shared_secret, sign, verify}
use uxsp.Crypto.Pqc.{encapsulate, decapsulate, pqc_sign, pqc_verify}
use uxsp.Identity.{Sealing, Readings, seal_for, open_from, verify_validity, is_expired}
use uxsp.Identity.Delivery.{delivered}
use uxsp.Samples.{
  packages, keypair, public_keys, seed, keypair-IsKeypair, coins, sealed, texts, identity, card,
  fixed_length,
}

abbrev guard : ReplayGuard
guard = record { window = 300; clock_skew = 30 }

abbrev sealing : Sealing
sealing = record {
  coins = coins;
  nonce = replicate 12 0;
  envelope_random = 3 ∷ [];
  timestamp = 1000;
}

abbrev readings : Readings
readings = record {
  validity = 1100;
  precheck = 1100;
  seen = 1100;
  verification = 1101;
  commit = 1102;
  marking = 1102;
}

delivered_example :
    (open_from texts packages memory_store readings
      (some guard)
      (card 1 "alice")
      (instance_of sealed)
      (identity 2 "bob")
      empty_store).0
    ≡ ok (7 ∷ [])
unfolding seal_for verify_validity is_expired from_dict string_field seal hybrid_sender_exchange
    compute_shared_secret encapsulate derive_key get bind_fields hybrid_sign sign pqc_sign encrypt
    all_present to_dict is_seen mark_used count_call insert_nonce
delivered_example =
    delivered texts packages memory_store guard (identity 1 "alice") (identity 2 "bob")
      (card 1 "alice") (card 2 "bob") (seed 1) (seed 2) fixed_length 65536 1000 sealing (7 ∷ [])
      sealed readings empty_store (λ n. refl) (keypair-IsKeypair 1) (keypair-IsKeypair 2) refl refl
      refl refl refl (omega arith, omega arith) (omega arith, omega arith)
      (omega arith, omega arith) refl refl refl

abbrev bob : Recipient
bob = record { entity_id = "bob"; keypair = keypair 2 }

abbrev alice : Sender
alice = record { entity_id = "alice"; public_keys = public_keys 1 }

abbrev first_readings : OpenReadings
first_readings = record { freshness = 1100; seen = 1100; verification = 1100; marking = 1100 }

abbrev later_readings : OpenReadings
later_readings = record { freshness = 1200; seen = 1200; verification = 1200; marking = 1200 }

abbrev normalised : Normalised
normalised = record {
  fields = to_dict sealed;
  timestamp = pos 1000;
  envelope_nonce = sealed.envelope_nonce;
}

-- Another sender.
abbrev carol : Sender
carol = record { entity_id = "carol"; public_keys = public_keys 3 }

opened_once_example :
    (check_and_open packages guard bob carol memory_store later_readings
      (mapping (to_dict sealed))
      (run memory_store
        (clean 1150 ∷ [])
        (check_and_open packages guard bob alice memory_store first_readings
          (instance_of sealed)
          empty_store).1)).0
    ≢ ok (7 ∷ [])
unfolding check_and_open open_admitted open_unseen verify_and_decrypt mark_and_decrypt
    admitted_sender check_freshness_normalised normalise to_dict get put all_present is_seen
    mark_used count_call insert_nonce verify_envelope require_open_context decode_fields
    verify_context hybrid_verify verify pqc_verify bind_fields decrypt_verified_envelope
    hybrid_recipient_exchange recipient_secrets compute_shared_secret decapsulate derive_key decrypt
opened_once_example =
    opened_once packages guard memory_law bob bob alice carol first_readings later_readings
      (instance_of sealed) (mapping (to_dict sealed)) normalised normalised empty_store
      (clean 1150 ∷ []) (7 ∷ []) (7 ∷ []) empty-IsValid refl refl refl refl (omega arith)
      (omega arith) (omega arith)

-- The envelope with another version.
abbrev forged : Envelope
forged = record sealed { version = "UXSP-0" }
