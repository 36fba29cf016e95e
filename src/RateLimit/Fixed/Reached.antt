-- ===== src/RateLimit/Fixed/Reached.antt =====
-- uxsp/core/rate_limit.py: the fixed-window limiter after any history of calls.
use uxsp.Prelude.{
  ℕ, ◌+◌, ◌*◌, ◌≤◌, ◌<◌, ◌≡◌, String, Bool, false, ltb, refl, Bool-cases, inl, inr, Option, some,
  arith, List, [], ◌∷◌,
}
use uxsp.Prelude.Dict.{get, get-delete, delete-IsDistinct, length-delete}
use uxsp.RateLimit.{Config, full_key}
use uxsp.RateLimit.Calls.{Call, request, sweep, AllWithin}
use uxsp.RateLimit.Fixed.{Counter, RateLimiter, new_limiter, reset, check, check_cleaned}
use uxsp.RateLimit.Fixed.Keeps.{Next, kept, dropped, opened, reopened, counted, IsValid}
use uxsp.RateLimit.Fixed.Window.{
  step, step-IsValid, step-Next, is_admitted, admissions, HasBoundedCount, admissions-le,
}

-- What may have happened to a limiter: a call, or the reset of a key.
pub data Event : Type 0 where
  called : Call → Event
  was_reset : String → Event

module _ (c : Config) where
  unfoldable pub happen : Event → RateLimiter → RateLimiter
  happen (called a) s = step c a s
  happen (was_reset key) s = reset c key s

  -- The limiter after a history.
  unfoldable pub after : List Event → RateLimiter → RateLimiter
  after [] s = s
  after (e ∷ history) s = after history (happen e s)

  Next-bounded :
      {t : ℕ} {o o' : Option Counter} {b : Bool}
      → Next c t o b o'
      → ((e : Counter) → o ≡ some e → e.count ≤ c.max_requests)
      → 0 < c.max_requests
      → (e : Counter) → o' ≡ some e
      → e.count ≤ c.max_requests
  Next-bounded (kept a k) h pos e g = h e (cc (k, g))
  Next-bounded (dropped x f w a k) h pos e g = absurd (cc (k, g))
  Next-bounded (opened a f k) h pos e g = ground (arith, k, g, pos)
  Next-bounded (reopened x a f w k) h pos e g = ground (arith, k, g, pos)
  Next-bounded (counted x a f w m k) h pos e g = ground (arith, k, g, m)

  -- No counter is above the maximum.
  abbrev IsSound : RateLimiter → Type 0
  IsSound s = IsValid c s × ((k : String) → HasBoundedCount c k s)

  happen-IsSound :
      (e : Event) (s : RateLimiter) → 0 < c.max_requests → IsSound s → IsSound (happen e s)
  unfolding happen reset
  happen-IsSound (called a) s pos (v, small) =
      (step-IsValid c a s v, λ k. Next-bounded (step-Next c k a s v) (small k) pos)
  happen-IsSound (was_reset key) s pos (v, small) = (
    record {
      distinct = delete-IsDistinct (full_key c key) s.counters v.distinct;
      bounded = omega (arith, length-delete (full_key c key) s.counters, v.bounded);
    },
    λ k e g. ground (arith, get-delete (full_key c key) k s.counters v.distinct, g, small k e),
  )

  after-IsSound :
      (history : List Event) (s : RateLimiter)
      → 0 < c.max_requests
      → IsSound s
      → IsSound (after history s)
  unfolding after
  after-IsSound [] s pos h = h
  after-IsSound (e ∷ history) s pos h =
      after-IsSound history (happen e s) pos (happen-IsSound e s pos h)

  new-IsSound : (start : ℕ) → IsSound (new_limiter start)
  unfolding get
  new-IsSound start = (record { distinct = tt; bounded = omega arith }, λ k e h. absurd (cc h))

  -- With a maximum of no requests none is let through.
  none_admitted :
      (k : String) (a : Call) (s : RateLimiter) → c.max_requests ≡ 0 → is_admitted c k a s ≡ false
  unfolding is_admitted check check_cleaned
  none_admitted k (request key now) s none = ground (arith, none)
  none_admitted k (sweep now) s none = refl

  no_admissions :
      (k : String) (calls : List Call) (s : RateLimiter)
      → c.max_requests ≡ 0
      → admissions c k calls s ≡ 0
  unfolding admissions
  no_admissions k [] s none = refl
  no_admissions k (a ∷ calls) s none =
      rw (none_admitted k a s none) (omega (arith, no_admissions k calls (step c a s) none))

  -- Whatever happened to a limiter that was empty, resets included: of the calls of any period that is no
  -- longer than the window, none of them a reset, at most `2 * max_requests` requests of one key are let
  -- through.
  pub reached_admissions-le :
      (k : String) (start from to : ℕ) (history : List Event) (calls : List Call)
      → to ≤ from + c.window
      → AllWithin from to calls
      → admissions c k calls (after history (new_limiter start)) ≤ 2 * c.max_requests
  reached_admissions-le k start from to history calls fit within =
      let s = after history (new_limiter start) in
      elim (Bool-cases (ltb 0 c.max_requests)) [
        | inr none ↦ omega (arith, no_admissions k calls s (ground (arith, none)))
        | inl some_allowed ↦
            let pos : 0 < c.max_requests = ground (arith, some_allowed) in
            let (v, small) = after-IsSound history (new_limiter start) pos (new-IsSound start) in
            admissions-le c k from to calls s v (small k) pos fit within
      ]
