-- ===== src/Nonce/Memory.antt =====
-- uxsp/core/nonce.py: `MemoryNonceStore` meets the contract of a nonce store.
use uxsp.Prelude.{
  ℕ, ◌+◌, ◌≤◌, ◌<◌, ◌≡◌, ◌≢◌, String, Bool, true, false, leb, length, some, arith, str_eq_iff,
  Option-cases, inl, inr, if_cases,
}
use uxsp.Prelude.Result.{Result, ok}
use uxsp.Prelude.Dict.{
  get, put, contains, IsDistinct, get-put, get-put_self, get-delete, get-delete_if, put-IsDistinct,
  delete-IsDistinct, delete_if-IsDistinct, length-put, length-delete, length-delete_if,
}
use uxsp.Nonce.{
  MemoryNonceStore, max_nonce_store_size, is_expired, cleanup_unlocked, count_call, insert_nonce,
  mark_used, is_seen, cleanup, memory_store, empty_store,
}
use uxsp.Nonce.Contract.{IsNonceStore}

-- No nonce is stored twice, and there are never more than the maximum.
pub record IsValid (s : MemoryNonceStore) : Type 0 where
  pub distinct : IsDistinct s.store
  pub bounded : length s.store ≤ max_nonce_store_size

pub record Tracks (n : String) (e : ℕ) (s : MemoryNonceStore) : Type 0 where
  pub distinct : IsDistinct s.store
  pub entry : get n s.store ≡ some e

abbrev Outcome : Type 0
Outcome = Result Bool × MemoryNonceStore

pub empty-IsValid : IsValid empty_store
empty-IsValid = record { distinct = tt; bounded = omega arith }

module _ (now : ℕ) (s : MemoryNonceStore) where
  pub cleanup_unlocked-IsValid : IsValid s → IsValid (cleanup_unlocked now s).1
  unfolding cleanup_unlocked
  cleanup_unlocked-IsValid h = record {
    distinct = delete_if-IsDistinct (is_expired now) s.store h.distinct;
    bounded = omega (arith, h.bounded, length-delete_if (is_expired now) s.store);
  }

  pub cleanup_unlocked-keeps :
      (n : String) (e : ℕ) → Tracks n e s → now < e → Tracks n e (cleanup_unlocked now s).1
  unfolding cleanup_unlocked
  cleanup_unlocked-keeps n e h lt = record {
    distinct = delete_if-IsDistinct (is_expired now) s.store h.distinct;
    entry = ground (arith, get-delete_if (is_expired now) n s.store h.distinct, h.entry);
  }

-- Counting a call changes no entry, but for the periodic cleanup.
module _ (now : ℕ) (s : MemoryNonceStore) where
  count_call-IsValid : IsValid s → IsValid (count_call now s)
  unfolding count_call
  count_call-IsValid h =
      if_cases IsValid (leb 1000 (s.calls_since_cleanup + 1)) _ _
        (λ _.
          let c = cleanup_unlocked-IsValid now s h in
          record { distinct = c.distinct; bounded = c.bounded })
        (λ _. record { distinct = h.distinct; bounded = h.bounded })

  count_call-keeps : (n : String) (e : ℕ) → Tracks n e s → now < e → Tracks n e (count_call now s)
  unfolding count_call
  count_call-keeps n e h lt =
      if_cases (Tracks n e) (leb 1000 (s.calls_since_cleanup + 1)) _ _
        (λ _.
          let c = cleanup_unlocked-keeps now s n e h lt in
          record { distinct = c.distinct; entry = c.entry })
        (λ _. record { distinct = h.distinct; entry = h.entry })

module _ (n : String) (exp : ℕ) (s : MemoryNonceStore) where
  put-IsValid :
      IsValid s
      → leb max_nonce_store_size (length s.store) ≡ false
      → IsValid (record s { store = put n exp s.store })
  put-IsValid h room = record {
    distinct = put-IsDistinct n exp s.store h.distinct;
    bounded = ground (arith, length-put n exp s.store, h.bounded);
  }

  put-Tracks : IsDistinct s.store → Tracks n exp (record s { store = put n exp s.store })
  put-Tracks h = record {
    distinct = put-IsDistinct n exp s.store h;
    entry = get-put_self n exp s.store;
  }

  put-keeps :
      (m : String) (e : ℕ)
      → contains n s.store ≡ false
      → Tracks m e s
      → Tracks m e (record s { store = put n exp s.store })
  put-keeps m e absent h = record {
    distinct = put-IsDistinct n exp s.store h.distinct;
    entry = ground (arith, get-put n m exp s.store, str_eq_iff n m, h.entry);
  }

module _ (n : String) (ttl now : ℕ) (s : MemoryNonceStore) where
  insert_nonce-IsValid : IsValid s → IsValid (insert_nonce n ttl now s).1
  unfolding insert_nonce
  insert_nonce-IsValid h =
      if_cases {A = Outcome} (λ r. IsValid r.1) (leb max_nonce_store_size (length s.store)) _ _
        (λ _.
          let c = cleanup_unlocked-IsValid now s h in
          if_cases {A = Outcome} (λ r. IsValid r.1)
            (leb max_nonce_store_size (length (cleanup_unlocked now s).1.store)) _ _ (λ _. c)
            (put-IsValid n (now + ttl) (cleanup_unlocked now s).1 c))
        (put-IsValid n (now + ttl) s h)

  insert_nonce-Tracks :
      IsValid s
      → (insert_nonce n ttl now s).0 ≡ ok true
      → Tracks n (now + ttl) (insert_nonce n ttl now s).1
  unfolding insert_nonce
  insert_nonce-Tracks h =
      let cleaned = (cleanup_unlocked now s).1 in
      if_cases {A = Outcome} (λ r. r.0 ≡ ok true → Tracks n (now + ttl) r.1)
        (leb max_nonce_store_size (length s.store)) _ _
        (λ _.
          if_cases {A = Outcome} (λ r. r.0 ≡ ok true → Tracks n (now + ttl) r.1)
            (leb max_nonce_store_size (length cleaned.store)) _ _ (λ _ fails. absurd (ground arith))
            (λ _ _. put-Tracks n (now + ttl) cleaned (cleanup_unlocked-IsValid now s h).distinct))
        (λ _ _. put-Tracks n (now + ttl) s h.distinct)

  insert_nonce-keeps :
      (m : String) (e : ℕ)
      → contains n s.store ≡ false
      → Tracks m e s
      → now < e
      → Tracks m e (insert_nonce n ttl now s).1
  unfolding insert_nonce
  insert_nonce-keeps m e absent h lt =
      let cleaned = (cleanup_unlocked now s).1 in
      let kept = cleanup_unlocked-keeps now s m e h lt in
      let still : contains n cleaned.store ≡ false =
        ground (arith, get-delete_if (is_expired now) n s.store h.distinct, absent) in
      if_cases {A = Outcome} (λ r. Tracks m e r.1) (leb max_nonce_store_size (length s.store)) _ _
        (λ _.
          if_cases {A = Outcome} (λ r. Tracks m e r.1)
            (leb max_nonce_store_size (length cleaned.store)) _ _ (λ _. kept)
            (λ _. put-keeps n (now + ttl) cleaned m e still kept))
        (λ _. put-keeps n (now + ttl) s m e absent h)

module _ (n : String) (ttl now : ℕ) (s : MemoryNonceStore) where
  pub mark_used-IsValid : IsValid s → IsValid (mark_used n ttl now s).1
  unfolding mark_used
  mark_used-IsValid h =
      let c = count_call-IsValid now s h in
      if_cases {A = Outcome} (λ r. IsValid r.1) (contains n (count_call now s).store) _ _ (λ _. c)
        (λ _. insert_nonce-IsValid n ttl now (count_call now s) c)

  pub mark_used-Tracks :
      IsValid s
      → (mark_used n ttl now s).0 ≡ ok true
      → Tracks n (now + ttl) (mark_used n ttl now s).1
  unfolding mark_used
  mark_used-Tracks h =
      if_cases {A = Outcome} (λ r. r.0 ≡ ok true → Tracks n (now + ttl) r.1)
        (contains n (count_call now s).store) _ _ (λ _ fails. absurd (ground arith))
        (λ _. insert_nonce-Tracks n ttl now (count_call now s) (count_call-IsValid now s h))

  pub mark_used-keeps :
      (m : String) (e : ℕ) → Tracks m e s → now < e → Tracks m e (mark_used n ttl now s).1
  unfolding mark_used
  mark_used-keeps m e h lt =
      let c = count_call-keeps now s m e h lt in
      if_cases {A = Outcome} (λ r. Tracks m e r.1) (contains n (count_call now s).store) _ _
        (λ _. c) (λ absent. insert_nonce-keeps n ttl now (count_call now s) m e absent c lt)

-- A nonce whose time has not come is refused as a replay.
pub mark_used_again :
    (n : String) (e ttl now : ℕ) (s : MemoryNonceStore)
    → Tracks n e s
    → now < e
    → (mark_used n ttl now s).0 ≡ ok false
unfolding mark_used
mark_used_again n e ttl now s h lt = ground (arith, (count_call-keeps now s n e h lt).entry)

module _ (n : String) (now : ℕ) (s : MemoryNonceStore) where
  pub is_seen-IsValid : IsValid s → IsValid (is_seen n now s).1
  unfolding is_seen
  is_seen-IsValid h = elim (Option-cases (get n s.store)) [
    | inl e ↦ rw (e, is_seen) h
    | inr (exp, e) ↦
        rw (e, is_seen)
          (if_cases {A = Bool × MemoryNonceStore} (λ r. IsValid r.1) (leb exp now) _ _
            (λ _. record {
              distinct = delete-IsDistinct n s.store h.distinct;
              bounded = omega (arith, h.bounded, length-delete n s.store);
            })
            (λ _. h))
  ]

  pub is_seen-keeps : (m : String) (e : ℕ) → Tracks m e s → now < e → Tracks m e (is_seen n now s).1
  unfolding is_seen
  is_seen-keeps m e h lt = elim (Option-cases (get n s.store)) [
    | inl e' ↦ rw (e', is_seen) h
    | inr (exp, e') ↦
        rw (e', is_seen)
          (if_cases {A = Bool × MemoryNonceStore} (λ r. Tracks m e r.1) (leb exp now) _ _
            (λ old. record {
              distinct = delete-IsDistinct n s.store h.distinct;
              entry =
                  ground
                    (arith, get-delete n m s.store h.distinct, str_eq_iff n m, h.entry, old, e');
            })
            (λ _. h))
  ]

pub mark_used_refused :
    (n : String) (e ttl now : ℕ) (s : MemoryNonceStore)
    → Tracks n e s
    → now < e
    → (mark_used n ttl now s).0 ≢ ok true
mark_used_refused n e ttl now s h lt again = cc (mark_used_again n e ttl now s h lt)

pub cleanup-IsValid : (now : ℕ) (s : MemoryNonceStore) → IsValid s → IsValid (cleanup now s).1
unfolding cleanup
cleanup-IsValid now s = cleanup_unlocked-IsValid now s

pub cleanup-keeps :
    (n : String) (e now : ℕ) (s : MemoryNonceStore)
    → Tracks n e s
    → now < e
    → Tracks n e (cleanup now s).1
unfolding cleanup
cleanup-keeps n e now s = cleanup_unlocked-keeps now s n e

abbrev pub memory_law : IsNonceStore memory_store
memory_law = record {
  IsValid = IsValid;
  Tracks = Tracks;
  start = empty_store;
  start-IsValid = empty-IsValid;
  mark_used-IsValid = mark_used-IsValid;
  is_seen-IsValid = is_seen-IsValid;
  cleanup-IsValid = cleanup-IsValid;
  mark_used-Tracks = mark_used-Tracks;
  Tracks-mark_used = mark_used_refused;
  mark_used-keeps = λ n m e ttl now s. mark_used-keeps m ttl now s n e;
  is_seen-keeps = λ n m e now s. is_seen-keeps m now s n e;
  cleanup-keeps = cleanup-keeps;
}

-- The in-process store meets the contract of a nonce store: an accepted nonce goes on record until
-- its time to live has passed, is not accepted while it is on record, and no operation takes it
-- off the record before its time, the automatic cleanup included.
pub memory_store-IsNonceStore : IsNonceStore memory_store
memory_store-IsNonceStore = memory_law
