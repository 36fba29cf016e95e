-- ===== src/Nonce/Tiered/Refines.antt =====
-- uxsp/storage/noncestore.py: the tiered store meets the contract that its durable store meets.
pub mod Once
use uxsp.Prelude.{ℕ, ◌≡◌, ◌≢◌, refl, String, Bool, true, false, ◌⊎◌, inl, inr}
use uxsp.Prelude.Result.{Result, ok, err}
use uxsp.Nonce.{NonceStore}
use uxsp.Nonce.Contract.{IsNonceStore}
use uxsp.Nonce.Tiered.{
  suppress, mark_fast_again, mark_durable, mark_used, seen_durable, is_seen, cleanup_durable,
  cleanup, tiered_store,
}

module _ {F D : Type 0} (fast : NonceStore F) (durable : NonceStore D) where
  fast_again_durable :
      (n : String) (ttl now : ℕ) (r : Result Bool) (f : F) (d : D)
      → ((mark_fast_again fast durable n ttl now r f d).1.1 ≡ d)
        × ((mark_fast_again fast durable n ttl now r f d).0 ≡ ok true → r ≡ ok true)
  unfolding mark_fast_again
  fast_again_durable n ttl now (ok true) f d = (refl, λ h. refl)
  fast_again_durable n ttl now (ok false) f d = (refl, λ h. h)
  fast_again_durable n ttl now (err e) f d = (refl, λ h. h)

  -- The durable store is left alone, and the nonce is not accepted; or it is asked, and whatever is
  -- accepted it accepted.
  durable_cases :
      (n : String) (ttl now : ℕ) (r : Result Bool) (f : F) (d : D)
      → (((mark_durable fast durable n ttl now r f d).1.1 ≡ d)
          × ((mark_durable fast durable n ttl now r f d).0 ≢ ok true))
        ⊎ (((mark_durable fast durable n ttl now r f d).1.1 ≡ (durable.mark_used n ttl now d).1)
            × ((mark_durable fast durable n ttl now r f d).0 ≡ ok true
                → (durable.mark_used n ttl now d).0 ≡ ok true))
  unfolding mark_durable
  durable_cases n ttl now (ok true) f d = inr (
      fast_again_durable n ttl now (durable.mark_used n ttl now d).0 f
        (durable.mark_used n ttl now d).1)
  durable_cases n ttl now (ok false) f d = inl (refl, λ h. cc h)
  durable_cases n ttl now (err e) f d = inl (refl, λ h. cc h)

  seen_cases :
      (n : String) (now : ℕ) (r : Result Bool) (f : F) (d : D)
      → ((seen_durable fast durable n now r f d).1.1 ≡ d)
        ⊎ ((seen_durable fast durable n now r f d).1.1 ≡ (durable.is_seen n now d).1)
  unfolding seen_durable
  seen_cases n now (ok true) f d = inl refl
  seen_cases n now (ok false) f d = inr refl
  seen_cases n now (err e) f d = inl refl

  cleanup_cases :
      (now : ℕ) (r : Result ℕ) (f : F) (d : D)
      → ((cleanup_durable fast durable now r f d).1.1 ≡ d)
        ⊎ ((cleanup_durable fast durable now r f d).1.1 ≡ (durable.cleanup now d).1)
  unfolding cleanup_durable
  cleanup_cases now (ok n) f d = inr refl
  cleanup_cases now (err e) f d = inl refl

  -- A property of the durable state that its own operation keeps.
  abbrev carried : (P : D → Type 0) {d d' t : D} → (t ≡ d) ⊎ (t ≡ d') → P d → P d' → P t
  carried P (inl e) p p' = rw e p
  carried P (inr e) p p' = rw e p'

  abbrev either_state :
      {t d d' : D} {A B : Type 0} → ((t ≡ d) × A) ⊎ ((t ≡ d') × B) → (t ≡ d) ⊎ (t ≡ d')
  either_state (inl (e, a)) = inl e
  either_state (inr (e, b)) = inr e

  module _ (law : IsNonceStore durable) (start : F) where
    mark_used-carried :
        (P : D → Type 0) (n : String) (ttl now : ℕ) (s : F × D)
        → P s.1
        → P (durable.mark_used n ttl now s.1).1
        → P (mark_used fast durable n ttl now s).1.1
    unfolding mark_used
    mark_used-carried P n ttl now (f, d) p p' =
        carried P
          (either_state (
            durable_cases n ttl now (suppress true (fast.mark_used n ttl now f).0)
              (fast.mark_used n ttl now f).1 d))
          p p'

    is_seen-carried :
        (P : D → Type 0) (n : String) (now : ℕ) (s : F × D)
        → P s.1
        → P (durable.is_seen n now s.1).1
        → P (is_seen fast durable n now s).1.1
    unfolding is_seen
    is_seen-carried P n now (f, d) p p' =
        carried P
          (seen_cases n now (suppress false (fast.is_seen n now f).0) (fast.is_seen n now f).1 d) p
          p'

    cleanup-carried :
        (P : D → Type 0) (now : ℕ) (s : F × D)
        → P s.1
        → P (durable.cleanup now s.1).1
        → P (cleanup fast durable now s).1.1
    unfolding cleanup
    cleanup-carried P now (f, d) p p' =
        carried P (cleanup_cases now (suppress 0 (fast.cleanup now f).0) (fast.cleanup now f).1 d) p
          p'

    -- What the tiered store accepts, the durable store accepted, and it holds the durable state.
    mark_used-accepted :
        (n : String) (ttl now : ℕ) (s : F × D)
        → (mark_used fast durable n ttl now s).0 ≡ ok true
        → ((mark_used fast durable n ttl now s).1.1 ≡ (durable.mark_used n ttl now s.1).1)
          × ((durable.mark_used n ttl now s.1).0 ≡ ok true)
    unfolding mark_used
    mark_used-accepted n ttl now (f, d) h =
        elim (durable_cases n ttl now (suppress true (fast.mark_used n ttl now f).0)
          (fast.mark_used n ttl now f).1 d) [
            | inl (e, refused) ↦ absurd (refused h)
            | inr (e, first) ↦ (e, first h)
          ]

    pub tiered_law : IsNonceStore (tiered_store fast durable)
    tiered_law = record {
      IsValid = λ s. law.IsValid s.1;
      Tracks = λ n e s. law.Tracks n e s.1;
      start = (start, law.start);
      start-IsValid = law.start-IsValid;
      mark_used-IsValid = λ n ttl now s v.
          mark_used-carried law.IsValid n ttl now s v (law.mark_used-IsValid n ttl now s.1 v);
      is_seen-IsValid =
          λ n now s v. is_seen-carried law.IsValid n now s v (law.is_seen-IsValid n now s.1 v);
      cleanup-IsValid =
          λ now s v. cleanup-carried law.IsValid now s v (law.cleanup-IsValid now s.1 v);
      mark_used-Tracks = λ n ttl now s v h.
          let (e, first) = mark_used-accepted n ttl now s h in
          rw e (law.mark_used-Tracks n ttl now s.1 v first);
      Tracks-mark_used = λ n e ttl now s t lt h.
          law.Tracks-mark_used n e ttl now s.1 t lt (mark_used-accepted n ttl now s h).1;
      mark_used-keeps = λ n m e ttl now s t lt.
          mark_used-carried (law.Tracks n e) m ttl now s t
            (law.mark_used-keeps n m e ttl now s.1 t lt);
      is_seen-keeps = λ n m e now s t lt.
          is_seen-carried (law.Tracks n e) m now s t (law.is_seen-keeps n m e now s.1 t lt);
      cleanup-keeps = λ n e now s t lt.
          cleanup-carried (law.Tracks n e) now s t (law.cleanup-keeps n e now s.1 t lt);
    }

    -- The tiered store meets the contract of a nonce store whenever its durable store does, whatever
    -- the fast store answers or raises.
    pub tiered_store-IsNonceStore : IsNonceStore (tiered_store fast durable)
    tiered_store-IsNonceStore = tiered_law
