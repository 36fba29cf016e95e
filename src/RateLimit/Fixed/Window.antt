-- ===== src/RateLimit/Fixed/Window.antt =====
-- uxsp/core/rate_limit.py: how many requests of one key the fixed-window limiter lets through.
use uxsp.Prelude.{
  ℕ, ◌+◌, ◌*◌, ◌≤◌, ◌<◌, ◌≡◌, String, Bool, true, false, if◌then◌else◌, Option, none, some, arith,
  str_eq, str_eq_iff, Bool-cases, Option-cases, ◌∙◌, ◌⊎◌, inl, inr, List, [], ◌∷◌,
}
use uxsp.Prelude.Dict.{get}
use uxsp.RateLimit.{Config, full_key}
use uxsp.RateLimit.Calls.{Call, request, sweep, time_of, AllWithin}
use uxsp.RateLimit.Fixed.{Counter, RateLimiter, check, cleanup}
use uxsp.RateLimit.Fixed.Keeps.{
  Next, kept, dropped, opened, reopened, counted, next_count, succeeded, IsValid, check-IsValid,
  check-Next, check-Next_other, cleanup_locked-Next, cleanup_locked-IsValid,
}

abbrev first_count : ℕ → Counter
first_count now = record { count = 1; window_start = now }

module _ (c : Config) where
  unfoldable pub step : Call → RateLimiter → RateLimiter
  step (request key now) s = (check c key now s).1
  step (sweep now) s = (cleanup c now s).1

  -- Whether the call is a request of the full key `k` that is let through.
  unfoldable pub is_admitted : String → Call → RateLimiter → Bool
  is_admitted k (request key now) s =
      if str_eq (full_key c key) k then succeeded (check c key now s).0 else false
  is_admitted k (sweep now) s = false

  -- How many requests of the full key `k` are let through in a run.
  unfoldable pub admissions : String → List Call → RateLimiter → ℕ
  admissions k [] s = 0
  admissions k (a ∷ calls) s = (if is_admitted k a s then 1 else 0) + admissions k calls (step a s)

  pub step-IsValid : (a : Call) (s : RateLimiter) → IsValid c s → IsValid c (step a s)
  unfolding step cleanup
  step-IsValid (request key now) s h = check-IsValid c now key s h
  step-IsValid (sweep now) s h = cleanup_locked-IsValid c now s h

  pub step-Next :
      (k : String) (a : Call) (s : RateLimiter)
      → IsValid c s
      → Next c (time_of a) (get k s.counters) (is_admitted k a s) (get k (step a s).counters)
  unfolding step is_admitted cleanup
  step-Next k (request key now) s h = elim (Bool-cases (str_eq (full_key c key) k)) [
    | inl e ↦ rw (e, ← (str_eq_iff (full_key c key) k).0 e) (check-Next c now key s h.distinct)
    | inr e ↦ rw e (
        check-Next_other c now k key s h.distinct
          (λ p. cc (e, (str_eq_iff (full_key c key) k).1 p)))
  ]
  step-Next k (sweep now) s h = cleanup_locked-Next c now k s h.distinct

  -- In the window of its counter a key's request is refused or counted.
  open_step :
      {t : ℕ} {o o' : Option Counter} {b : Bool} (e : Counter)
      → Next c t o b o'
      → o ≡ some e
      → t < e.window_start + c.window
      → ((b ≡ false) × (o' ≡ some e))
        ⊎ ((b ≡ true) × (o' ≡ some (next_count e)) × (e.count < c.max_requests))
  open_step e (kept a k) h lt = inl (a, k ∙ h)
  open_step e (dropped x f w a k) h lt = absurd (ground (arith, f, h, w))
  open_step e (opened a f k) h lt = absurd (ground (arith, f, h))
  open_step e (reopened x a f w k) h lt = absurd (ground (arith, f, h, w))
  open_step e (counted x a f w m k) h lt = inr (ground arith)

  -- The counts in one window never pass the maximum.
  open_budget :
      (k : String) (from to : ℕ) (e : Counter) (calls : List Call) (s : RateLimiter)
      → IsValid c s
      → get k s.counters ≡ some e
      → e.count ≤ c.max_requests
      → to ≤ e.window_start + c.window
      → AllWithin from to calls
      → e.count + admissions k calls s ≤ c.max_requests
  unfolding admissions
  open_budget k from to e [] s v h le fit b = omega arith
  open_budget k from to e (a ∷ calls) s v h le fit b =
      let v' = step-IsValid a s v in
      elim (open_step e (step-Next k a s v) h (omega arith)) [
        | inl (f, h') ↦
            rw f (omega (arith, open_budget k from to e calls (step a s) v' h' le fit b.2))
        | inr (f, h', lt) ↦ rw f (
            omega (
              arith,
              open_budget k from to (next_count e) calls (step a s) v' h' (omega arith) fit b.2,
            ))
      ]

  closed_step :
      {t : ℕ} {o o' : Option Counter} {b : Bool}
      → Next c t o b o'
      → o ≡ none
      → ((b ≡ false) × (o' ≡ none)) ⊎ ((b ≡ true) × (o' ≡ some (first_count t)))
  closed_step (kept a k) h = inl (a, k ∙ h)
  closed_step (dropped x f w a k) h = absurd (ground (arith, f, h))
  closed_step (opened a f k) h = inr (a, k)
  closed_step (reopened x a f w k) h = absurd (ground (arith, f, h))
  closed_step (counted x a f w m k) h = absurd (ground (arith, f, h))

  -- A key with no counter is let through at most `max_requests` times in any period that is no
  -- longer than the window.
  pub closed_budget :
      (k : String) (from to : ℕ) (calls : List Call) (s : RateLimiter)
      → IsValid c s
      → get k s.counters ≡ none
      → 0 < c.max_requests
      → to ≤ from + c.window
      → AllWithin from to calls
      → admissions k calls s ≤ c.max_requests
  unfolding admissions
  closed_budget k from to [] s v h pos fit b = omega arith
  closed_budget k from to (a ∷ calls) s v h pos fit b =
      let v' = step-IsValid a s v in
      elim (closed_step (step-Next k a s v) h) [
        | inl (f, h') ↦
            rw f (omega (arith, closed_budget k from to calls (step a s) v' h' pos fit b.2))
        | inr (f, h') ↦ rw f (
            open_budget k from to (first_count (time_of a)) calls (step a s) v' h' (omega arith)
              (omega arith) b.2)
      ]

  any_step :
      {t : ℕ} {o o' : Option Counter} {b : Bool} (e : Counter)
      → Next c t o b o'
      → o ≡ some e
      → ((b ≡ false) × (o' ≡ some e))
        ⊎ ((b ≡ false) × (o' ≡ none))
        ⊎ ((b ≡ true) × (o' ≡ some (first_count t)))
        ⊎ ((b ≡ true) × (o' ≡ some (next_count e)) × (e.count < c.max_requests))
  any_step e (kept a k) h = inl (a, k ∙ h)
  any_step e (dropped x f w a k) h = inr (inl (a, k))
  any_step e (opened a f k) h = absurd (ground (arith, f, h))
  any_step e (reopened x a f w k) h = inr (inr (inl (a, k)))
  any_step e (counted x a f w m k) h = inr (inr (inr (ground arith)))

  -- The burst bound from a counter: what is left of its window, and one more window.
  burst_budget :
      (k : String) (from to : ℕ) (e : Counter) (calls : List Call) (s : RateLimiter)
      → IsValid c s
      → get k s.counters ≡ some e
      → e.count ≤ c.max_requests
      → 0 < c.max_requests
      → to ≤ from + c.window
      → AllWithin from to calls
      → e.count + admissions k calls s ≤ c.max_requests + c.max_requests
  unfolding admissions
  burst_budget k from to e [] s v h le pos fit b = omega arith
  burst_budget k from to e (a ∷ calls) s v h le pos fit b =
      let v' = step-IsValid a s v in
      elim (any_step e (step-Next k a s v) h) [
        | inl (f, h') ↦
            rw f (omega (arith, burst_budget k from to e calls (step a s) v' h' le pos fit b.2))
        | inr (inl (f, h')) ↦
            rw f (omega (arith, closed_budget k from to calls (step a s) v' h' pos fit b.2))
        | inr (inr (inl (f, h'))) ↦ rw f (
            omega (
              arith,
              open_budget k from to (first_count (time_of a)) calls (step a s) v' h' (omega arith)
                  (omega arith) b.2,
            ))
        | inr (inr (inr (f, h', lt))) ↦ rw f (
            omega (
              arith,
              burst_budget k from to (next_count e) calls (step a s) v' h' (omega arith) pos fit
                  b.2,
            ))
      ]

  -- The key's stored count is at most the maximum.
  abbrev pub HasBoundedCount : String → RateLimiter → Type 0
  HasBoundedCount k s = (e : Counter) → get k s.counters ≡ some e → e.count ≤ c.max_requests

  -- From a well-formed limiter on whose counter of the key is within a positive maximum, and as long as no
  -- key is reset: within any period that is no longer than the window, at most `2 * max_requests` requests
  -- of one key are let through.
  pub admissions-le :
      (k : String) (from to : ℕ) (calls : List Call) (s : RateLimiter)
      → IsValid c s
      → HasBoundedCount k s
      → 0 < c.max_requests
      → to ≤ from + c.window
      → AllWithin from to calls
      → admissions k calls s ≤ 2 * c.max_requests
  admissions-le k from to calls s v small pos fit b = elim (Option-cases (get k s.counters)) [
    | inl h ↦ omega (arith, closed_budget k from to calls s v h pos fit b)
    | inr (e, h) ↦ omega (arith, burst_budget k from to e calls s v h (small e h) pos fit b)
  ]
