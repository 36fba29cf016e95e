-- ===== src/RateLimit/Sliding/Budget.antt =====
-- uxsp/core/rate_limit.py: how many requests of one key the sliding-window limiter lets through.
use uxsp.Prelude.{
  ℕ, ◌+◌, ◌-◌, ◌≤◌, ◌<◌, ◌≡◌, refl, String, Bool, true, false, leb, if◌then◌else◌, if_cases, Option,
  none, some, arith, str_eq, str_eq_iff, Bool-cases, inl, inr, List, [], ◌∷◌, ◌++◌, length,
}
use uxsp.Prelude.Result.{Result, ok, err}
use uxsp.Prelude.Dict.{
  Dict, get, get-put_self, get-put_ne, put-IsDistinct, get-delete_if, delete_if-IsDistinct,
  IsDistinct, unless,
}
use uxsp.RateLimit.{Config, full_key}
use uxsp.RateLimit.Calls.{Call, request, sweep, time_of, AllWithin}
use uxsp.RateLimit.Sliding.{
  SlidingRateLimiter, is_empty, or_empty, drop_stale, drop_stale_all, cleanup_locked,
  periodic_cleanup, check_cleaned, check, cleanup,
}

-- How many of the times are `from` or later.
unfoldable pub since : ℕ → List ℕ → ℕ
since from [] = 0
since from (t ∷ ts) = (if leb from t then 1 else 0) + since from ts

since-le-length : (from : ℕ) (ts : List ℕ) → since from ts ≤ length ts
unfolding since
since-le-length from [] = omega arith
since-le-length from (t ∷ ts) = ground (arith, since-le-length from ts)

since-append :
    (from now : ℕ) (ts : List ℕ) → from ≤ now → since from (ts ++ (now ∷ [])) ≡ since from ts + 1
unfolding since
since-append from now [] h = ground arith
since-append from now (t ∷ ts) h = ground (arith, since-append from now ts h)

abbrev succeeded : Result (Unit {0}) → Bool
succeeded (ok _) = true
succeeded (err e) = false

-- Adds one request to a count, if it is let through.
abbrev one_if : Bool → ℕ
one_if b = if b then 1 else 0

module _ (c : Config) where
  since-drop_stale :
      (from now : ℕ) (ts : List ℕ)
      → now < from + c.window
      → since from (drop_stale c now ts) ≡ since from ts
  unfolding since drop_stale
  since-drop_stale from now [] h = refl
  since-drop_stale from now (t ∷ ts) h = ground (arith, since-drop_stale from now ts h)

  abbrev pruned : ℕ → Option (List ℕ) → Option (List ℕ)
  pruned now none = none
  pruned now (some ts) = some (drop_stale c now ts)

  get-drop_stale_all :
      (k : String) (now : ℕ) (d : Dict (List ℕ))
      → get k (drop_stale_all c now d) ≡ pruned now (get k d)
  unfolding get drop_stale_all
  get-drop_stale_all k now [] = refl
  get-drop_stale_all k now ((j, ts) ∷ d) = ground (arith, get-drop_stale_all k now d)

  drop_stale_all-IsDistinct :
      (now : ℕ) (d : Dict (List ℕ)) → IsDistinct d → IsDistinct (drop_stale_all c now d)
  unfolding drop_stale_all
  drop_stale_all-IsDistinct now [] h = tt
  drop_stale_all-IsDistinct now ((j, ts) ∷ d) h =
      (ground (arith, get-drop_stale_all j now d, h.0), drop_stale_all-IsDistinct now d h.1)

  -- The requests of the full key `k` that are logged at `from` or later.
  abbrev recent : ℕ → String → SlidingRateLimiter → ℕ
  recent from k s = since from (or_empty (get k s.log))

  since-unless :
      (from now : ℕ) (o : Option (List ℕ))
      → now < from + c.window
      → since from (or_empty (unless is_empty (pruned now o))) ≡ since from (or_empty o)
  since-unless from now none h = refl
  since-unless from now (some ts) h = ground (arith, since-drop_stale from now ts h)

  recent-cleanup_locked :
      (from now : ℕ) (k : String) (s : SlidingRateLimiter)
      → IsDistinct s.log
      → now < from + c.window
      → recent from k (cleanup_locked c now s).1 ≡ recent from k s
  unfolding cleanup_locked
  recent-cleanup_locked from now k s v h =
      rw
        (
          get-delete_if is_empty k (drop_stale_all c now s.log)
              (drop_stale_all-IsDistinct now s.log v),
          get-drop_stale_all k now s.log,
        )
        (since-unless from now (get k s.log) h)

  cleanup_locked-IsDistinct :
      (now : ℕ) (s : SlidingRateLimiter)
      → IsDistinct s.log
      → IsDistinct (cleanup_locked c now s).1.log
  unfolding cleanup_locked
  cleanup_locked-IsDistinct now s v =
      delete_if-IsDistinct is_empty (drop_stale_all c now s.log)
        (drop_stale_all-IsDistinct now s.log v)

  periodic_cleanup-IsDistinct :
      (now : ℕ) (s : SlidingRateLimiter)
      → IsDistinct s.log
      → IsDistinct (periodic_cleanup c now s).log
  unfolding periodic_cleanup
  periodic_cleanup-IsDistinct now s v =
      if_cases {A = SlidingRateLimiter} (λ r. IsDistinct r.log) _ _ _
        (λ e. cleanup_locked-IsDistinct now s v) (λ e. v)

  recent-periodic_cleanup :
      (from now : ℕ) (k : String) (s : SlidingRateLimiter)
      → IsDistinct s.log
      → now < from + c.window
      → recent from k (periodic_cleanup c now s) ≡ recent from k s
  unfolding periodic_cleanup
  recent-periodic_cleanup from now k s v h =
      if_cases {A = SlidingRateLimiter} (λ r. recent from k r ≡ recent from k s) _ _ _
        (λ e. recent-cleanup_locked from now k s v h) (λ e. refl)

  check_cleaned-IsDistinct :
      (key : String) (now : ℕ) (s : SlidingRateLimiter)
      → IsDistinct s.log
      → IsDistinct (check_cleaned c key now s).1.log
  unfolding check_cleaned
  check_cleaned-IsDistinct key now s v =
      let k = full_key c key in
      let ts = drop_stale c now (or_empty (get k s.log)) in
      ground (arith, v, put-IsDistinct k ts s.log v, put-IsDistinct k (ts ++ (now ∷ [])) s.log v)

  -- A request that is let through fits the limit, and is logged.
  spent :
      (from now : ℕ) (key : String) (s : SlidingRateLimiter)
      → from ≤ now
      → now < from + c.window
      → (one_if (succeeded (check_cleaned c key now s).0)
          + (c.max_requests - recent from (full_key c key) (check_cleaned c key now s).1))
        ≤ c.max_requests - recent from (full_key c key) s
  unfolding check_cleaned
  spent from now key s le lt =
      let k = full_key c key in
      let ts = drop_stale c now (or_empty (get k s.log)) in
      ground (
        arith,
        get-put_self k ts s.log,
        get-put_self k (ts ++ (now ∷ [])) s.log,
        since-append from now ts le,
        since-le-length from ts,
        since-drop_stale from now (or_empty (get k s.log)) lt,
      )

  recent-check_cleaned_other :
      (from now : ℕ) (key k : String) (s : SlidingRateLimiter)
      → (full_key c key ≡ k → ⊥)
      → recent from k (check_cleaned c key now s).1 ≡ recent from k s
  unfolding check_cleaned
  recent-check_cleaned_other from now key k s ne =
      let j = full_key c key in
      let ts = drop_stale c now (or_empty (get j s.log)) in
      ground (arith, get-put_ne j k ts s.log ne, get-put_ne j k (ts ++ (now ∷ [])) s.log ne)

  unfoldable pub step : Call → SlidingRateLimiter → SlidingRateLimiter
  step (request key now) s = (check c key now s).1
  step (sweep now) s = (cleanup c now s).1

  -- Whether the call is a request of the full key `k` that is let through.
  unfoldable pub is_admitted : String → Call → SlidingRateLimiter → Bool
  is_admitted k (request key now) s =
      if str_eq (full_key c key) k then succeeded (check c key now s).0 else false
  is_admitted k (sweep now) s = false

  -- How many requests of the full key `k` are let through in a run.
  unfoldable pub admissions : String → List Call → SlidingRateLimiter → ℕ
  admissions k [] s = 0
  admissions k (a ∷ calls) s = one_if (is_admitted k a s) + admissions k calls (step a s)

  step-IsDistinct :
      (a : Call) (s : SlidingRateLimiter) → IsDistinct s.log → IsDistinct (step a s).log
  unfolding step check cleanup
  step-IsDistinct (request key now) s v =
      check_cleaned-IsDistinct key now (periodic_cleanup c now s)
        (periodic_cleanup-IsDistinct now s v)
  step-IsDistinct (sweep now) s v = cleanup_locked-IsDistinct now s v

  step_spent :
      (from : ℕ) (k : String) (a : Call) (s : SlidingRateLimiter)
      → IsDistinct s.log
      → from ≤ time_of a
      → time_of a < from + c.window
      → one_if (is_admitted k a s) + (c.max_requests - recent from k (step a s))
        ≤ c.max_requests - recent from k s
  unfolding step is_admitted check cleanup
  step_spent from k (sweep now) s v le lt = ground (arith, recent-cleanup_locked from now k s v lt)
  step_spent from k (request key now) s v le lt = elim (Bool-cases (str_eq (full_key c key) k)) [
    | inl e ↦
        rw (e, ← (str_eq_iff (full_key c key) k).0 e)
          (ground (
            arith,
            spent from now key (periodic_cleanup c now s) le lt,
            recent-periodic_cleanup from now (full_key c key) s v lt,
          ))
    | inr e ↦ rw e (
        ground (
          arith,
          recent-check_cleaned_other from now key k (periodic_cleanup c now s)
              (λ p. cc (e, (str_eq_iff (full_key c key) k).1 p)),
          recent-periodic_cleanup from now k s v lt,
        ))
  ]

  within_budget :
      (k : String) (from : ℕ) (calls : List Call) (s : SlidingRateLimiter)
      → IsDistinct s.log
      → AllWithin from (from + c.window) calls
      → admissions k calls s ≤ c.max_requests - recent from k s
  unfolding admissions
  within_budget k from [] s v b = omega arith
  within_budget k from (a ∷ calls) s v b =
      let rest = within_budget k from calls (step a s) (step-IsDistinct a s v) b.2 in
      let now = step_spent from k a s v b.0 b.1 in omega arith

  -- From a log without repeated keys on, the calls of any stretch shorter than the window, none of them
  -- a reset, let at most `max_requests` requests of a key
  -- through, whatever the limiter logged before and in whatever order the clock readings come.
  pub sliding_admissions-le :
      (k : String) (from : ℕ) (calls : List Call) (s : SlidingRateLimiter)
      → IsDistinct s.log
      → AllWithin from (from + c.window) calls
      → admissions k calls s ≤ c.max_requests
  sliding_admissions-le k from calls s v b = let h = within_budget k from calls s v b in omega arith
