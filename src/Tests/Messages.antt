-- ===== src/Tests/Messages.antt =====
-- Tests of the nonce store, the replay guard and the envelope.
use uxsp.Prelude.{ℕ, ◌+◌, ◌≡◌, ◌≢◌, ◌↔◌, refl, true, false, str_eq, [], ◌∷◌, arith}
use uxsp.Prelude.Result.{ok}
use uxsp.Prelude.Dict.{get, put, delete_if, count_if}
use uxsp.Nonce.{
  NonceStore, MemoryNonceStore, empty_store, memory_store, mark_used, is_seen, cleanup, count_call,
  insert_nonce,
}
use uxsp.Nonce.Contract.{IsNonceStore, mark, seen, clean, run, step}
use uxsp.Nonce.Memory.{IsValid, memory_law, empty-IsValid}
use uxsp.Nonce.Tiered
use uxsp.Nonce.Tiered.{tiered_store, mark_durable, mark_fast_again}
use uxsp.Nonce.Tiered.Refines.Once.{tiered_accepted_once}
use uxsp.Nonce.Tiered.Refines.{tiered_store-IsNonceStore}
use uxsp.Envelope.{to_dict, from_dict, is_fresh}
use uxsp.Envelope.RoundTrip.{from_dict-to_dict, from_dict-IsReadFrom, IsReadFrom}
use uxsp.Replay.{
  ReplayGuard, instance_of, normalise, Normalised, commit, check_freshness,
  check_freshness_normalised, admitted,
}
use uxsp.Replay.Freshness.{check_freshness-eq-is_fresh}
use uxsp.Replay.Once.{commit_once, commit_never_twice, retention}
use uxsp.Samples.{to_int, fixed_length, envelope}

-- Everything that a run computes with.
program : Unit {0}
unfolding mark_used is_seen cleanup get put delete_if count_if run step commit admitted normalise
    check_freshness_normalised count_call insert_nonce
program = tt

abbrev guard : ReplayGuard
guard = record { window = 300; clock_skew = 30 }

-- The fast store loses everything that it is told.
abbrev forgetful : NonceStore (Unit {0})
forgetful = record {
  mark_used = λ n ttl now s. (ok true, s);
  is_seen = λ n now s. (ok false, s);
  cleanup = λ now s. (ok 0, s);
}

abbrev after_one : (Unit {0}) × MemoryNonceStore
after_one =
    (Tiered.mark_used forgetful memory_store "n1" 300 1000
      (run (tiered_store forgetful memory_store) (mark "n0" 9 900 ∷ []) (tt, empty_store))).1

tiered_accepted_once_example :
    (Tiered.mark_used forgetful memory_store "n1" 300 1299 (
      run
        (tiered_store forgetful memory_store)
        (seen "n1" 1100 ∷ mark "n2" 9 1200 ∷ clean 1290 ∷ [])
        after_one)).0
    ≢ ok true
unfolding program Tiered.mark_used mark_durable mark_fast_again
tiered_accepted_once_example =
    tiered_accepted_once forgetful tt (mark "n0" 9 900 ∷ [])
      (seen "n1" 1100 ∷ mark "n2" 9 1200 ∷ clean 1290 ∷ []) "n1" 300 1000 300 1299 refl
      (omega arith) (omega arith)

abbrev two : MemoryNonceStore
two = record { store = ("a", 900) ∷ ("b", 2000) ∷ []; calls_since_cleanup = 7 }

abbrev accepted_normalised : Normalised
accepted_normalised = record {
  fields = to_dict envelope;
  timestamp = envelope.timestamp;
  envelope_nonce = "n1";
}

commit_once_example :
    (commit to_int guard memory_store 1200 1200 (instance_of envelope) (
      run memory_store
        (clean 1100 ∷ [])
        (commit to_int guard memory_store 1000 1000 (instance_of envelope) empty_store).1)).0
    ≢ ok tt
unfolding program
commit_once_example =
    commit_once to_int guard memory_law 1000 1000 1200 1200 (instance_of envelope)
      (instance_of envelope) accepted_normalised accepted_normalised empty_store (clean 1100 ∷ [])
      empty-IsValid refl refl refl refl (omega arith) (omega arith)

-- The next but one call of `mark_used` cleans up.
abbrev nearly_due : MemoryNonceStore
nearly_due = record { store = []; calls_since_cleanup = 998 }

nearly_due-IsValid : IsValid nearly_due
nearly_due-IsValid = record { distinct = tt; bounded = omega arith }

commit_never_twice_example : ◌≡◌ {A = ℕ} 1330 (1000 + retention guard)
unfolding program
commit_never_twice_example =
    commit_never_twice to_int guard memory_law 1000 1330 (instance_of envelope) nearly_due []
      nearly_due-IsValid tt refl refl

from_dict-to_dict_example : from_dict to_int fixed_length (to_dict envelope) 65536 ≡ ok envelope
from_dict-to_dict_example =
    from_dict-to_dict to_int fixed_length envelope 65536 (λ n. refl) refl (omega arith)

from_dict-IsReadFrom_example : IsReadFrom (to_dict envelope) 65536 800 envelope
from_dict-IsReadFrom_example =
    from_dict-IsReadFrom to_int fixed_length (to_dict envelope) 65536 envelope
      from_dict-to_dict_example

check_freshness-eq-is_fresh_example :
    (check_freshness to_int guard 1100 (instance_of envelope) ≡ ok tt)
    ↔ ((str_eq envelope.envelope_nonce "" ≡ false) × (is_fresh 300 30 1100 envelope ≡ true))
check_freshness-eq-is_fresh_example =
    check_freshness-eq-is_fresh to_int (λ n. refl) guard 1100 envelope

tiered_store-IsNonceStore_example : IsNonceStore (tiered_store memory_store memory_store)
tiered_store-IsNonceStore_example =
    tiered_store-IsNonceStore memory_store memory_store memory_law empty_store
