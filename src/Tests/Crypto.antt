-- ===== src/Tests/Crypto.antt =====
-- Tests of the hybrid cryptography and of the messages between identities.
use uxsp.Prelude.{refl, false, some, [], ◌∷◌, replicate}
use uxsp.Prelude.Dict.{get}
use uxsp.Prelude.Value.{pos, str}
use uxsp.Envelope.{to_dict, all_present}
use uxsp.Crypto.Parts.{OpenOptions, bind_fields}
use uxsp.Crypto.Hybrid.{verify_envelope}
use uxsp.Crypto.Parts.{Context}
use uxsp.Crypto.Hybrid.{require_open_context, decode_fields, verify_context, hybrid_verify}
use uxsp.Crypto.Asymmetric.{verify}
use uxsp.Crypto.Pqc.{pqc_verify}
use uxsp.Crypto.Hybrid.Opening.{IsVerified, verify_envelope-IsVerified}
use uxsp.Samples.{packages, public_keys, sealed}

abbrev options : OpenOptions
options = record {
  expected_recipient_id = some "bob";
  expected_sender_id = some "alice";
  max_age_seconds = 300;
  clock_skew_seconds = 30;
  allow_classical_only = false;
}

abbrev context : Context
context = record {
  timestamp = pos 1000;
  sender_id = "alice";
  recipient_id = "bob";
  envelope_nonce = sealed.envelope_nonce;
  classical_sig = str sealed.classical_sig;
  pqc_sig = str sealed.pqc_sig;
  ciphertext = 1 ∷ 7 ∷ [];
  nonce = replicate 12 0;
  ephemeral_pub = 8 ∷ [];
  kem_ciphertext = 9 ∷ [];
  is_classical_only = false;
}

verify_envelope-IsVerified_example :
    IsVerified packages options 1100 (to_dict sealed) (public_keys 1) context
unfolding verify_envelope require_open_context decode_fields verify_context hybrid_verify verify
    pqc_verify bind_fields get all_present to_dict
verify_envelope-IsVerified_example =
    verify_envelope-IsVerified packages options 1100 (to_dict sealed) (public_keys 1) context refl
