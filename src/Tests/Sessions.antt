-- ===== src/Tests/Sessions.antt =====
-- Tests of the encrypted session.
use uxsp.Prelude.{
  ℕ, suc, zero, ◌≤◌, ◌≡◌, refl, Bool, true, false, List, [], ◌∷◌, arith, some, length,
}
use uxsp.Prelude.Result.{ok, err, Error}
use uxsp.Prelude.Value.{Value}
use uxsp.Prelude.Dict.{Dict}
use uxsp.Crypto.Symmetric.{encrypt as seal, decrypt as unseal}
use uxsp.Session.{
  Session, Incoming, take_in, encrypt, decrypt, check_active, evaluate_expiry, to_payload,
}
use uxsp.Session.Sequence.{active, expired, SessionConfig, Tracker, new_tracker, accept_seq, mem}
use uxsp.Session.Windowed.{accepted, number_accepted_once, AllFarBelow}
use uxsp.Session.Forgery.{forgery_reopens}
use uxsp.Session.Ordered.{Delivery, received_numbers, received_numbers-consecutive, count_from}
use uxsp.Session.Lifecycle.{
  Call, activation, revocation, encryption, decryption, run, terminal_forever, is_terminal,
  terminal_error,
}
use uxsp.Session.Channel.{send_receive}
use uxsp.Samples.{tagging, unary_codec}

abbrev zeros : ℕ → List ℕ
zeros zero = []
zeros (suc n) = 0 ∷ zeros n

abbrev config : Bool → SessionConfig
config ordering = record {
  max_lifetime_seconds = 3600;
  max_messages = 10000;
  key_info = 117 ∷ [];
  enforce_ordering = ordering;
}

abbrev session : Bool → Session
session ordering = record {
  session_id = "s";
  local_id = "alice";
  remote_id = "bob";
  config = config ordering;
  state = active;
  created_at = 100;
  send_seq = 0;
  tracker = new_tracker;
  send_key = zeros 32;
  recv_key = zeros 32;
}

-- The payload of message `n` with the text `7`.
abbrev sealed : ℕ → Incoming
sealed n = record { seq = n; ciphertext = 1 ∷ 7 ∷ []; nonce = zeros 12 }

abbrev payload : ℕ → Dict Value
payload n = to_payload unary_codec "s" n (record { ciphertext = 1 ∷ 7 ∷ []; nonce = zeros 12 })

abbrev deliveries : List Delivery
deliveries =
    record { now = 200; later = 200; payload = payload 0 }
    ∷ record { now = 201; later = 201; payload = payload 0 }
    ∷ record { now = 202; later = 203; payload = payload 1 }
    ∷ []

received_numbers-consecutive_example :
    received_numbers unary_codec tagging deliveries (session true)
    ≡ count_from 0 (length (received_numbers unary_codec tagging deliveries (session true)))
received_numbers-consecutive_example =
    received_numbers-consecutive unary_codec tagging deliveries (session true) refl

abbrev after_five : Tracker
after_five = record { recv_seq = 0; seen_seqs = 5 ∷ []; max_seen_seq = some 5; recv_count = 1 }

number_accepted_once_example : mem 5 (accepted (6 ∷ 5 ∷ 900 ∷ 5 ∷ []) after_five) ≡ false
unfolding accept_seq mem
number_accepted_once_example =
    number_accepted_once 5 (6 ∷ 5 ∷ 900 ∷ 5 ∷ []) new_tracker after_five refl

abbrev down_from : ℕ → List ℕ
down_from zero = []
down_from (suc n) = n ∷ down_from n

down_from-far : (n : ℕ) → n ≤ 300 → AllFarBelow 900 (down_from n)
down_from-far zero h = tt
down_from-far (suc n) h = (omega arith, down_from-far n (omega arith))

abbrev busy : Session
busy = record (session false) {
  tracker = record {
    recv_seq = 0;
    seen_seqs = down_from 256;
    max_seen_seq = some 255;
    recv_count = 256;
  };
}

abbrev forged : Incoming
forged = record { seq = 900; ciphertext = 0 ∷ []; nonce = zeros 12 }

forgery_reopens_example :
    (take_in unary_codec tagging (sealed 7) (take_in unary_codec tagging forged busy).1).0
    ≡ ok (7 ∷ [])
unfolding unseal
forgery_reopens_example =
    forgery_reopens unary_codec tagging busy forged 255 refl refl (down_from-far 256 (omega arith))
      (omega arith) refl (omega arith) (sealed 7) (7 ∷ []) refl

abbrev ended : Session
ended = record (session true) { state = expired }

abbrev calls : List Call
calls =
    decryption 150 150 (payload 0)
    ∷ encryption 150 151 (zeros 12) (7 ∷ [])
    ∷ revocation
    ∷ activation
    ∷ []

terminal_forever_example :
    (is_terminal (run unary_codec tagging calls ended).state ≡ true)
    × (encrypt unary_codec tagging 200 201 (zeros 12) (7 ∷ []) (run unary_codec tagging calls ended)
        ≡ (
          err (terminal_error (run unary_codec tagging calls ended).state),
          run unary_codec tagging calls ended,
        ))
    × ((e : Error) × (decrypt unary_codec tagging 200 201
            (payload 0)
            (run unary_codec tagging calls ended)
          ≡ (err e, run unary_codec tagging calls ended)))
terminal_forever_example =
    terminal_forever unary_codec tagging calls ended 200 201 (zeros 12) (7 ∷ []) (payload 0) refl

send_receive_example :
    (decrypt unary_codec tagging 201 201 (payload 0) (session true)).0 ≡ ok (7 ∷ [])
unfolding encrypt check_active evaluate_expiry accept_seq seal
send_receive_example =
    send_receive unary_codec tagging (session true) (session true) 200 200 201 201 (zeros 12)
      (7 ∷ []) (payload 0) (record new_tracker { recv_seq = 1 })
      (record { session_id = refl; key = refl; key_length = refl }) refl refl refl refl refl
