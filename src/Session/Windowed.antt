-- ===== src/Session/Windowed.antt =====
-- uxsp/core/session.py: the sliding window of `decrypt` (`enforce_ordering=False`).
use uxsp.Prelude.{
  ℕ, ◌+◌, ◌-◌, ◌≤◌, ◌<◌, ◌≡◌, refl, true, false, ltb, ==_iff, length, Option, none, some, List, [],
  ◌∷◌, arith, ◌⊎◌, inl, inr,
}
use uxsp.Prelude.Result.{Result, ok, err, session_reorder, Result-cases}
use uxsp.Session.Sequence.{
  Tracker, window_size, mem, discard, max_of, at_least, below_window, prune, accept_seq, roll_back,
  new_max,
}

-- The number is one that the window refuses: it is in the set, or it lies below the window.
abbrev pub IsRemembered : ℕ → Tracker → Type 0
IsRemembered n t = (mem n t.seen_seqs ≡ true) ⊎ (below_window n t.max_seen_seq ≡ true)

remembered_refused :
    (n : ℕ) (t : Tracker) → IsRemembered n t → accept_seq false n t ≡ err session_reorder
unfolding accept_seq
remembered_refused n t (inl h) = rw h
remembered_refused n t (inr h) = ground arith

mem-at_least :
    (n m : ℕ) (xs : List ℕ)
    → mem n xs ≡ true
    → (mem n (at_least m xs) ≡ true) ⊎ (ltb n (m + 1 - window_size) ≡ true)
unfolding mem at_least
mem-at_least n m [] h = inl h
mem-at_least n m (x ∷ xs) h = ground (arith, mem-at_least n m xs)

mem-prune :
    (n m : ℕ) (xs : List ℕ)
    → mem n xs ≡ true
    → (mem n (prune (some m) xs) ≡ true) ⊎ (ltb n (m + 1 - window_size) ≡ true)
unfolding prune
mem-prune n m xs h = ground (arith, mem-at_least n m xs)

below-new_max :
    (n k : ℕ) (o : Option ℕ)
    → below_window n o ≡ true
    → ltb n (new_max k o + 1 - window_size) ≡ true
below-new_max n k none h = absurd (ground arith)
below-new_max n k (some m) h = ground arith

-- Taking another number in forgets nothing that the window must refuse.
accept-remembers :
    (n k : ℕ) (t t' : Tracker) → IsRemembered n t → accept_seq false k t ≡ ok t' → IsRemembered n t'
unfolding accept_seq mem
accept-remembers n k t t' (inl h) e =
    ground (arith, mem-prune n (new_max k t.max_seen_seq) (k ∷ t.seen_seqs))
accept-remembers n k t t' (inr h) e = ground (arith, below-new_max n k t.max_seen_seq h)

accept_self : (n : ℕ) (t t' : Tracker) → accept_seq false n t ≡ ok t' → IsRemembered n t'
unfolding accept_seq mem
accept_self n t t' e = ground (arith, mem-prune n (new_max n t.max_seen_seq) (n ∷ t.seen_seqs))

-- The numbers that are taken in, of those that arrive; a refused one changes nothing.
abbrev taken : ℕ → Result Tracker → Tracker → Tracker
taken n (ok t') t = t'
taken n (err e) t = t

abbrev count_in : ℕ → Result Tracker → List ℕ → List ℕ
count_in n (ok t') ns = n ∷ ns
count_in n (err e) ns = ns

pub accepted : List ℕ → Tracker → List ℕ
accepted [] t = []
accepted (n ∷ ns) t = let r = accept_seq false n t in count_in n r (accepted ns (taken n r t))

remembered_never :
    (n : ℕ) (ns : List ℕ) (t : Tracker) → IsRemembered n t → mem n (accepted ns t) ≡ false
unfolding accepted mem
remembered_never n [] t h = refl
remembered_never n (k ∷ ns) t h = elim (Result-cases (accept_seq false k t)) [
  | inl (t', e) ↦
      rw (e, accepted, taken, count_in)
        (ground (
          arith,
          remembered_refused n t h,
          remembered_never n ns t' (accept-remembers n k t t' h e),
          e,
          ==_iff n k,
        ))
  | inr (x, e) ↦ rw (e, accepted, taken, count_in) (remembered_never n ns t h)
]

-- A number that the sliding window took in is not taken in a second time, whatever numbers arrive
-- afterwards, as long as no decryption fails.
pub number_accepted_once :
    (n : ℕ) (ns : List ℕ) (t t' : Tracker)
    → accept_seq false n t ≡ ok t'
    → mem n (accepted ns t') ≡ false
number_accepted_once n ns t t' e = remembered_never n ns t' (accept_self n t t' e)

-- The largest number is that of the set.
pub record IsConsistent (t : Tracker) : Type 0 where
  pub largest : t.max_seen_seq ≡ max_of t.seen_seqs

discard_absent : (n : ℕ) (xs : List ℕ) → mem n xs ≡ false → discard n xs ≡ xs
unfolding mem discard
discard_absent n [] h = refl
discard_absent n (x ∷ xs) h = ground (arith, discard_absent n xs)

abbrev pub AllFarBelow : ℕ → List ℕ → Type 0
AllFarBelow m [] = Unit
AllFarBelow m (x ∷ xs) = (x + window_size ≤ m) × AllFarBelow m xs

at_least-far : (m : ℕ) (xs : List ℕ) → AllFarBelow m xs → at_least m xs ≡ []
unfolding at_least
at_least-far m [] h = refl
at_least-far m (x ∷ xs) h = ground (arith, at_least-far m xs h.1)

mem-far : (m : ℕ) (xs : List ℕ) → AllFarBelow m xs → mem m xs ≡ false
unfolding mem
mem-far m [] h = refl
mem-far m (x ∷ xs) h = ground (arith, mem-far m xs h.1)

-- A failed decryption of a number that pruned nothing leaves the tracker as it was.
pub roll_back-accept :
    (n : ℕ) (t t' : Tracker)
    → IsConsistent t
    → length t.seen_seqs < window_size + window_size
    → accept_seq false n t ≡ ok t'
    → roll_back false n t' ≡ t
unfolding accept_seq roll_back prune mem discard
roll_back-accept n t t' c few e =
    ground (arith, c.largest, discard_absent n t.seen_seqs, ==_iff n n)

-- One forged number, far above a set that is about to be pruned, empties the tracker: it is taken
-- in, the set is pruned to it alone, and the rollback after the failed decryption removes it and
-- falls back to the initial maximum.
module _ (m k : ℕ) (t : Tracker) where
  unfoldable pub after_forgery : Tracker
  after_forgery = record t {
    seen_seqs = m ∷ [];
    max_seen_seq = some m;
    recv_count = t.recv_count + 1;
  }

  module _ (far : AllFarBelow m t.seen_seqs) (many : window_size + window_size ≤ length t.seen_seqs)
      (largest : t.max_seen_seq ≡ some k) (above : k ≤ m) where
    pub forged_accepted : accept_seq false m t ≡ ok after_forgery
    unfolding accept_seq after_forgery prune at_least
    forged_accepted = ground (arith, mem-far m t.seen_seqs far, at_least-far m t.seen_seqs far)

    pub forged_roll_back :
        roll_back false m after_forgery ≡ record t { seen_seqs = []; max_seen_seq = none }
    unfolding roll_back after_forgery discard max_of
    forged_roll_back = ground (arith, ==_iff m m)
