-- ===== src/Live/Delivery.antt =====
-- uxsp/core/live.py: which frames `decrypt_frame` returns, and what a frame that fails leaves behind.
use uxsp.Prelude.{
  ℕ, zero, suc, ◌-◌, ◌<◌, ◌≡◌, refl, Bool, true, false, if◌then◌else◌, if_cases, Option, none, some,
  arith, List, [], ◌∷◌, ◌⊎◌, inl, inr,
}
use uxsp.Prelude.Result.{Result, ok, err, Result-cases}
use uxsp.Crypto.Symmetric.{Bytes, AesGcm}
use uxsp.Live.{
  LiveSession, Frame, read_frame, decrypt_frame, decrypt_read, decrypt_ratcheted, open_frame,
  count_frame, ratchet_key, ratchet_to, ratchet_times, is_replayed,
}

-- Greater than the last number, if there is one.
abbrev pub IsAbove : ℕ → Option ℕ → Type 0
IsAbove n none = Unit
IsAbove n (some last) = last < n

-- Strictly increasing, and above `last`.
abbrev pub IsRising : Option ℕ → List ℕ → Type 0
IsRising last [] = Unit
IsRising last (n ∷ ns) = IsAbove n last × IsRising (some n) ns

not_replayed-IsAbove :
    (n : ℕ) (last : Option ℕ) → is_replayed (some n) last ≡ false → IsAbove n last
not_replayed-IsAbove n none h = tt
not_replayed-IsAbove n (some last) h = ground arith

module _ (derive : Bytes → Bytes) where
  ratchet_times-last_seq :
      (k : ℕ) (s : LiveSession) → (ratchet_times derive k s).last_seq ≡ s.last_seq
  unfolding ratchet_times ratchet_key
  ratchet_times-last_seq zero s = refl
  ratchet_times-last_seq (suc k) s = ground (arith, ratchet_times-last_seq k (ratchet_key derive s))

  count_frame-last_seq : (s : LiveSession) → (count_frame derive s).last_seq ≡ s.last_seq
  unfolding count_frame ratchet_key
  count_frame-last_seq s = ground arith

  ratchet_to-last_seq : (e : ℕ) (s : LiveSession) → (ratchet_to derive e s).last_seq ≡ s.last_seq
  unfolding ratchet_to
  ratchet_to-last_seq e s = ratchet_times-last_seq (e - s.epoch) s

  module _ (aes : AesGcm) where
    abbrev succeeded : Result (Bytes × Bytes) → Bool
    succeeded (ok p) = true
    succeeded (err e) = false

    -- A numbered frame either is returned, and its number was above the last and is the last now; or
    -- it is not returned, and the last number stays.
    abbrev IsNumbered : ℕ → LiveSession → Result (Bytes × Bytes) × LiveSession → Type 0
    IsNumbered n s (r, s') =
        ((succeeded r ≡ true) × IsAbove n s.last_seq × (s'.last_seq ≡ some n))
        ⊎ ((succeeded r ≡ false) × (s'.last_seq ≡ s.last_seq))

    decrypt_ratcheted-IsNumbered :
        (m : Frame) (n : ℕ) (s t : LiveSession)
        → is_replayed (some n) s.last_seq ≡ false
        → t.last_seq ≡ s.last_seq
        → IsNumbered n s (decrypt_ratcheted derive aes m (some n) t)
    unfolding decrypt_ratcheted
    decrypt_ratcheted-IsNumbered m n s t new same =
        elim (Result-cases (open_frame derive aes m t)) [
          | inl (p, e) ↦
              rw (decrypt_ratcheted, e)
                (inl (
                  refl,
                  not_replayed-IsAbove n s.last_seq new,
                  count_frame-last_seq (record t { last_seq = some n }),
                ))
          | inr (x, e) ↦ rw (decrypt_ratcheted, e) (inr (refl, same))
        ]

    decrypt_read-IsNumbered :
        (r : Result Frame) (n : ℕ) (s : LiveSession)
        → IsNumbered n s (decrypt_read derive aes r (some n) s)
    unfolding decrypt_read
    decrypt_read-IsNumbered (err e) n s = inr (refl, refl)
    decrypt_read-IsNumbered (ok m) n s =
        if_cases {A = Result (Bytes × Bytes) × LiveSession} (IsNumbered n s) _ _ _
          (λ e. inr (refl, refl))
          (λ e.
            decrypt_ratcheted-IsNumbered m n s (ratchet_to derive m.epoch s) e
              (ratchet_to-last_seq m.epoch s))

    -- The numbers of the frames that `decrypt_frame` returns, of those that arrive with a number.
    pub returned : List (Bytes × ℕ) → LiveSession → List ℕ
    returned [] s = []
    returned ((b, n) ∷ frames) s =
        let (r, s') = decrypt_frame derive aes b (some n) s in
        let rest = returned frames s' in if succeeded r then n ∷ rest else rest

    IsRising-above : (ns : List ℕ) {o o' : Option ℕ} → o ≡ o' → IsRising o ns → IsRising o' ns
    IsRising-above ns e h = rw (← e) h

    -- Whatever frames arrive, the numbers of those that are returned increase strictly, from above the
    -- last number on: no number is returned twice.
    pub returned-IsRising :
        (frames : List (Bytes × ℕ)) (s : LiveSession) → IsRising s.last_seq (returned frames s)
    unfolding returned decrypt_frame
    returned-IsRising [] s = tt
    returned-IsRising ((b, n) ∷ frames) s =
        let s' = (decrypt_frame derive aes b (some n) s).1 in
        let rest = returned-IsRising frames s' in
        elim (decrypt_read-IsNumbered (read_frame b) n s) [
          | inl (ok', new, last) ↦ rw ok' (new, IsRising-above (returned frames s') last rest)
          | inr (bad, last) ↦ rw bad (IsRising-above (returned frames s') last rest)
        ]
