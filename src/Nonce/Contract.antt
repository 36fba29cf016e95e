-- ===== src/Nonce/Contract.antt =====
-- The contract of uxsp/core/nonce.py's `NonceStore`, and what follows for any store that meets it.
use uxsp.Prelude.{ℕ, ◌+◌, ◌<◌, ◌≡◌, ◌≢◌, String, true, List, [], ◌∷◌}
use uxsp.Prelude.Result.{ok}
use uxsp.Nonce.{NonceStore}

-- `Tracks n e s`: in the well-formed state `s` the nonce `n` is on record until the time `e`.
pub record IsNonceStore {S : Type 0} (ops : NonceStore S) : Type 1 where
  pub IsValid : S → Type 0
  pub Tracks : String → ℕ → S → Type 0
  -- a new store is well formed
  pub start : S
  pub start-IsValid : IsValid start
  -- every operation keeps the state well formed
  pub mark_used-IsValid :
      (n : String) (ttl now : ℕ) (s : S) → IsValid s → IsValid (ops.mark_used n ttl now s).1
  pub is_seen-IsValid : (n : String) (now : ℕ) (s : S) → IsValid s → IsValid (ops.is_seen n now s).1
  pub cleanup-IsValid : (now : ℕ) (s : S) → IsValid s → IsValid (ops.cleanup now s).1
  -- a first use puts the nonce on record
  pub mark_used-Tracks :
      (n : String) (ttl now : ℕ) (s : S)
      → IsValid s
      → (ops.mark_used n ttl now s).0 ≡ ok true
      → Tracks n (now + ttl) (ops.mark_used n ttl now s).1
  -- a nonce on record is not accepted again
  pub Tracks-mark_used :
      (n : String) (e ttl now : ℕ) (s : S)
      → Tracks n e s
      → now < e
      → (ops.mark_used n ttl now s).0 ≢ ok true
  -- until its time no operation takes it off the record
  pub mark_used-keeps :
      (n m : String) (e ttl now : ℕ) (s : S)
      → Tracks n e s
      → now < e
      → Tracks n e (ops.mark_used m ttl now s).1
  pub is_seen-keeps :
      (n m : String) (e now : ℕ) (s : S)
      → Tracks n e s
      → now < e
      → Tracks n e (ops.is_seen m now s).1
  pub cleanup-keeps :
      (n : String) (e now : ℕ) (s : S) → Tracks n e s → now < e → Tracks n e (ops.cleanup now s).1

-- The calls that other users of a store make, each at its time.
pub data Call : Type 0 where
  mark : String → ℕ → ℕ → Call
  seen : String → ℕ → Call
  clean : ℕ → Call

abbrev pub time_of : Call → ℕ
time_of (mark n ttl now) = now
time_of (seen n now) = now
time_of (clean now) = now

abbrev pub AllBefore : ℕ → List Call → Type 0
AllBefore e [] = Unit
AllBefore e (c ∷ cs) = (time_of c < e) × AllBefore e cs

module _ {S : Type 0} (ops : NonceStore S) where
  unfoldable pub step : Call → S → S
  step (mark n ttl now) s = (ops.mark_used n ttl now s).1
  step (seen n now) s = (ops.is_seen n now s).1
  step (clean now) s = (ops.cleanup now s).1

  unfoldable pub run : List Call → S → S
  run [] s = s
  run (c ∷ cs) s = run cs (step c s)

module _ {S : Type 0} {ops : NonceStore S} (law : IsNonceStore ops) where
  step-keeps :
      (n : String) (e : ℕ) (c : Call) (s : S)
      → law.Tracks n e s
      → time_of c < e
      → law.Tracks n e (step ops c s)
  unfolding step
  step-keeps n e (mark m ttl now) s h lt = law.mark_used-keeps n m e ttl now s h lt
  step-keeps n e (seen m now) s h lt = law.is_seen-keeps n m e now s h lt
  step-keeps n e (clean now) s h lt = law.cleanup-keeps n e now s h lt

  -- Whatever calls come in between, a nonce stays on record until its time.
  pub run-keeps :
      (n : String) (e : ℕ) (cs : List Call) (s : S)
      → law.Tracks n e s
      → AllBefore e cs
      → law.Tracks n e (run ops cs s)
  unfolding run
  run-keeps n e [] s h b = h
  run-keeps n e (c ∷ cs) s h b = run-keeps n e cs (step ops c s) (step-keeps n e c s h b.0) b.1

  pub step-IsValid : (c : Call) (s : S) → law.IsValid s → law.IsValid (step ops c s)
  unfolding step
  step-IsValid (mark m ttl now) s h = law.mark_used-IsValid m ttl now s h
  step-IsValid (seen m now) s h = law.is_seen-IsValid m now s h
  step-IsValid (clean now) s h = law.cleanup-IsValid now s h

  pub run-IsValid : (cs : List Call) (s : S) → law.IsValid s → law.IsValid (run ops cs s)
  unfolding run
  run-IsValid [] s h = h
  run-IsValid (c ∷ cs) s h = run-IsValid cs (step ops c s) (step-IsValid c s h)

  -- In a store that meets the contract, a nonce that was accepted is not accepted a second time
  -- before its time to live has passed, whatever other calls are made before then.
  pub nonce_accepted_once :
      (n : String) (ttl now : ℕ) (s : S) (cs : List Call) (ttl' now' : ℕ)
      → law.IsValid s
      → (ops.mark_used n ttl now s).0 ≡ ok true
      → AllBefore (now + ttl) cs
      → now' < now + ttl
      → (ops.mark_used n ttl' now' (run ops cs (ops.mark_used n ttl now s).1)).0 ≢ ok true
  nonce_accepted_once n ttl now s cs ttl' now' v first b lt =
      law.Tracks-mark_used n (now + ttl) ttl' now' (run ops cs (ops.mark_used n ttl now s).1)
        (run-keeps n (now + ttl) cs (ops.mark_used n ttl now s).1
          (law.mark_used-Tracks n ttl now s v first) b)
        lt
