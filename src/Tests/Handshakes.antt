-- ===== src/Tests/Handshakes.antt =====
-- Tests of the handshake and of its guards.
use uxsp.Prelude.{
  ℕ, ◌≤◌, ◌≡◌, ◌≢◌, refl, String, true, false, some, none, [], ◌∷◌, arith, replicate,
}
use uxsp.Prelude.Result.{ok}
use uxsp.Prelude.Dict.{Dict, get, put}
use uxsp.Prelude.Value.{Value, pos, int, str, arr, cons, nil}
use uxsp.Nonce.{empty_store, memory_store, mark_used, count_call, insert_nonce}
use uxsp.Nonce.Contract.{clean, run}
use uxsp.Nonce.Memory.{memory_law, empty-IsValid}
use uxsp.Envelope.{all_present}
use uxsp.Crypto.Kdf.{derive_key}
use uxsp.Crypto.Asymmetric.{compute_shared_secret, sign, verify}
use uxsp.Crypto.Pqc.{encapsulate, decapsulate, pqc_sign, pqc_verify}
use uxsp.Crypto.Parts.{ExchangeResult, bind_fields}
use uxsp.Crypto.Hybrid.{
  hybrid_sender_exchange, hybrid_recipient_exchange, recipient_secrets, hybrid_sign, hybrid_verify,
}
use uxsp.Session.{Session}
use uxsp.RateLimit.{Config}
use uxsp.RateLimit.Sliding.{
  sliding_window, new_limiter, check, check_cleaned, periodic_cleanup, drop_stale,
}
use uxsp.Handshake.Parts.{
  default_config, derive_secret, final_secret, established, supports, join_texts,
}
use uxsp.Handshake.Hello.{make_hello, hello_signable, hello_checked, verify_hello_signature}
use uxsp.Handshake.Ack.{make_ack}
use uxsp.Handshake.{
  Handshake, Readings, initiate, answer, hello_admitted, mark_once, respond, respond_admitted,
  complete, session_of,
}
use uxsp.Handshake.Accepted.{IsCard}
use uxsp.Handshake.Agreement.{IsPair, handshake_agrees}
use uxsp.Handshake.Replayed.{hello_answered_once}
use uxsp.Handshake.Guarded.{
  Attempt, Comparisons, async_guarded_respond, nonce_of, is_hello, has_version,
}
use uxsp.Handshake.Guarded.Limited.{all_asked, answers, guarded_answers-le}
use uxsp.Handshake.Guarded.Taken.{session_taken_once}
use uxsp.Samples.{library, packages, seed, keypair-IsKeypair, coins, identity, card}

card-IsCard : (n : ℕ) (name : String) → IsCard packages (identity n name) (card n name) (seed n)
card-IsCard n name = record { keypair = keypair-IsKeypair n; entity = refl }

-- What alice sends to bob at the time 1000.
abbrev hello : Dict Value
hello =
    ("type", str "UXSP-HELLO")
    ∷ ("supported_versions", arr (cons (str "1") nil))
    ∷ ("session_id", str "id")
    ∷ ("initiator_id", str "alice")
    ∷ ("responder_id", str "bob")
    ∷ ("timestamp", int (pos 1000))
    ∷ ("ephemeral_pub", str (packages.to_hex (8 ∷ [])))
    ∷ ("kem_ciphertext", str (packages.to_hex (9 ∷ [])))
    ∷ ("classical_sig", str (packages.to_hex (6 ∷ [])))
    ∷ ("pqc_sig", str (packages.to_hex (3 ∷ [])))
    ∷ []

-- What bob answers at the time 1005.
abbrev ack : Dict Value
ack =
    ("type", str "UXSP-ACK")
    ∷ ("version", str "1")
    ∷ ("session_id", str "id")
    ∷ ("responder_id", str "bob")
    ∷ ("initiator_id", str "alice")
    ∷ ("timestamp", int (pos 1005))
    ∷ ("proof", str "ab")
    ∷ ("ephemeral_pub", str (packages.to_hex (8 ∷ [])))
    ∷ ("kem_ciphertext", str (packages.to_hex (9 ∷ [])))
    ∷ ("classical_sig", str (packages.to_hex (6 ∷ [])))
    ∷ ("pqc_sig", str (packages.to_hex (3 ∷ [])))
    ∷ []

abbrev exchange : ExchangeResult
exchange = record { shared_key = replicate 32 0; ephemeral_pub = 8 ∷ []; kem_ciphertext = 9 ∷ [] }

abbrev started : Handshake
started = record {
  hello_msg = some hello;
  ack_msg = none;
  session = none;
  exchange = some exchange;
  session_id = some "id";
  config = some default_config;
  initiator = some (identity 1 "alice");
  resp_card = some (card 2 "bob");
}

abbrev replied : Handshake
replied = record {
  hello_msg = none;
  ack_msg = some ack;
  session = some (
      established packages 1006 "id" "bob" "alice"
        (final_secret packages (replicate 32 0) (replicate 32 0) "id" "alice" "bob") false
        default_config);
  exchange = none;
  session_id = some "id";
  config = some default_config;
  initiator = none;
  resp_card = none;
}

abbrev responding : Readings
responding = record { verification = 1005; marking = 1005; timestamp = 1005; creation = 1006 }

abbrev completing : Readings
completing = record { verification = 1010; marking = 1010; timestamp = 1010; creation = 1011 }

answered_hello :
    (respond packages library memory_store responding coins
      (identity 2 "bob")
      hello
      (card 1 "alice")
      none
      empty_store).0
    ≡ ok replied
unfolding respond respond_admitted hello_admitted mark_once answer verify_hello_signature
    hello_checked hello_signable supports join_texts hybrid_verify verify pqc_verify derive_secret
    make_ack hybrid_recipient_exchange recipient_secrets decapsulate all_present mark_used
    count_call insert_nonce put hybrid_sender_exchange compute_shared_secret encapsulate derive_key
    get bind_fields hybrid_sign sign pqc_sign
answered_hello = refl

handshake_agrees_example :
    (a b : Session) × ((complete packages library memory_store completing ack
        (card 2 "bob")
        (started, empty_store)).0
      ≡ ok a)
    × (session_of replied ≡ ok b)
    × IsPair a b
unfolding initiate make_hello hybrid_sender_exchange compute_shared_secret encapsulate derive_key
    get bind_fields hybrid_sign sign pqc_sign mark_used count_call insert_nonce
handshake_agrees_example =
    handshake_agrees packages library memory_store 1000 responding completing coins coins "id"
      (identity 1 "alice") (identity 2 "bob") (card 1 "alice") (card 2 "bob") (seed 1) (seed 2) none
      started replied hello ack empty_store empty_store (λ n. refl) (λ key message. refl)
      (card-IsCard 1 "alice") (card-IsCard 2 "bob") (omega arith, omega arith)
      (omega arith, omega arith) refl refl answered_hello refl refl

hello_answered_once_example :
    (respond packages library memory_store completing coins
      (identity 2 "bob")
      hello
      (card 1 "alice")
      none
      (run memory_store
        (clean 1007 ∷ [])
        (respond packages library memory_store responding coins
          (identity 2 "bob")
          hello
          (card 1 "alice")
          none
          empty_store).1)).0
    ≢ ok replied
hello_answered_once_example =
    hello_answered_once packages library memory_law responding completing coins coins
      (identity 2 "bob") hello (card 1 "alice") (card 1 "alice") none none empty_store
      (clean 1007 ∷ []) replied replied empty-IsValid (omega arith) (omega arith) (omega arith, tt)
      answered_hello

abbrev attempt : Attempt
attempt = record {
  limiting = 1004;
  seen = 1005;
  second_marking = 1005;
  readings = responding;
  coins = coins;
  hello = hello;
  initiator_card = card 1 "alice";
  config = none;
}

abbrev limits : Config
limits = record { max_requests = 1; window = 100; prefix = "hs:"; minute = 60; max_entries = 10000 }

guarded_answers-le_example :
    answers packages library
      (identity 2 "bob")
      limits
      memory_store
      "hs:alice"
      (attempt ∷ record attempt { limiting = 1009 } ∷ [])
      (new_limiter 1000, empty_store)
    ≤ 1
unfolding all_asked
guarded_answers-le_example =
    guarded_answers-le packages library (identity 2 "bob") limits memory_store "hs:alice" 1000
      (attempt ∷ record attempt { limiting = 1009 } ∷ []) (new_limiter 1000) empty_store tt
      (omega arith, omega arith, (omega arith, omega arith, tt))

abbrev comparisons : Comparisons
comparisons = record { is_one = λ n. false; is_truthy = λ n. true }

-- A HELLO with the session identifier of the other, and signatures of nobody.
abbrev forged : Attempt
forged = record attempt {
  hello =
      ("type", str "UXSP-HELLO")
      ∷ ("supported_versions", arr (cons (str "1") nil))
      ∷ ("session_id", str "id")
      ∷ [];
}

session_taken_once_example :
    (async_guarded_respond packages library
      (identity 2 "bob")
      (sliding_window limits)
      comparisons
      (some memory_store)
      attempt
      (
        new_limiter 1000,
        run memory_store
            (clean 1006 ∷ [])
            (async_guarded_respond packages library
              (identity 2 "bob")
              (sliding_window limits)
              comparisons
              (some memory_store)
              forged
              (new_limiter 1000, empty_store)).1.1,
      )).0
    ≢ ok replied
unfolding check check_cleaned periodic_cleanup drop_stale nonce_of is_hello has_version get
    mark_used count_call insert_nonce
session_taken_once_example =
    session_taken_once packages library memory_law comparisons (identity 2 "bob")
      (sliding_window limits) forged attempt (new_limiter 1000) (new_limiter 1000) empty_store
      (clean 1006 ∷ []) "id" replied empty-IsValid refl refl refl refl (omega arith) (omega arith)
      (omega arith, tt) (omega arith)
