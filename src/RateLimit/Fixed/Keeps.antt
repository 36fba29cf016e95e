-- ===== src/RateLimit/Fixed/Keeps.antt =====
-- uxsp/core/rate_limit.py: what one call of the fixed-window limiter does to the counter of a key.
use uxsp.Prelude.{
  ℕ, ◌+◌, ◌≡◌, ◌≢◌, refl, subst, ◌∙◌, String, Bool, true, false, ltb, leb, length, Option, none,
  some, arith, if_cases, Option-cases, not, ◌&&◌, ◌≤◌, Bool-cases, inl, inr,
}
use uxsp.Prelude.Result.{Result, Error, ok, err}
use uxsp.Prelude.Dict.{
  get, put, contains, IsDistinct, get-put_ne, get-put_self, get-delete_if, put-IsDistinct,
  delete_if-IsDistinct, length-put, length-put_old, length-delete_if,
}
use uxsp.RateLimit.{Config, full_key}
use uxsp.RateLimit.Fixed.{
  Counter, RateLimiter, in_window, is_over, cleanup_locked, periodic_cleanup, put_counter,
  count_request, check_cleaned, check,
}

abbrev pub succeeded {ℓ} : {A : Type ℓ} → Result A → Bool
succeeded (ok a) = true
succeeded (err e) = false

abbrev pub next_count : Counter → Counter
next_count e = record e { count = e.count + 1 }

-- What a call at `now` may do to a key's counter `o`: it becomes `o'`, and `admitted` says whether
-- a request of that key was let through.
pub data Next (c : Config) (now : ℕ) (o : Option Counter) (admitted : Bool) (o' : Option Counter)
    : Type 0 where
  kept : admitted ≡ false → o' ≡ o → Next c now o admitted o'
  dropped :
      (e : Counter)
      → o ≡ some e
      → in_window c now e ≡ false
      → admitted ≡ false
      → o' ≡ none
      → Next c now o admitted o'
  opened :
      admitted ≡ true
      → o ≡ none
      → o' ≡ some (record { count = 1; window_start = now })
      → Next c now o admitted o'
  reopened :
      (e : Counter)
      → admitted ≡ true
      → o ≡ some e
      → in_window c now e ≡ false
      → o' ≡ some (record { count = 1; window_start = now })
      → Next c now o admitted o'
  counted :
      (e : Counter)
      → admitted ≡ true
      → o ≡ some e
      → in_window c now e ≡ true
      → leb c.max_requests e.count ≡ false
      → o' ≡ some (next_count e)
      → Next c now o admitted o'

-- No key is stored twice, and there are never more keys than the maximum.
pub record IsValid (c : Config) (s : RateLimiter) : Type 0 where
  pub distinct : IsDistinct s.counters
  pub bounded : length s.counters ≤ c.max_entries

module _ (c : Config) (now : ℕ) where
  pub cleanup_locked-Next :
      (k : String) (s : RateLimiter)
      → IsDistinct s.counters
      → Next c now (get k s.counters) false (get k (cleanup_locked c now s).1.counters)
  unfolding cleanup_locked
  cleanup_locked-Next k s h = elim (Option-cases (get k s.counters)) [
    | inl e ↦ kept refl (ground (arith, get-delete_if (is_over c now) k s.counters h, e))
    | inr (x, e) ↦ elim (Bool-cases (in_window c now x)) [
      | inl w ↦ kept refl (ground (arith, get-delete_if (is_over c now) k s.counters h, e, w))
      | inr w ↦
          dropped x e w refl (ground (arith, get-delete_if (is_over c now) k s.counters h, e, w))
    ]
  ]

  periodic_cleanup-Next :
      (k : String) (s : RateLimiter)
      → IsDistinct s.counters
      → Next c now (get k s.counters) false (get k (periodic_cleanup c now s).counters)
  unfolding periodic_cleanup
  periodic_cleanup-Next k s h =
      if_cases {A = RateLimiter} (λ t. Next c now (get k s.counters) false (get k t.counters))
        (ltb (s.last_cleanup + c.minute) now) _ _ (λ _. cleanup_locked-Next k s h)
        (λ _. kept refl refl)

  periodic_cleanup-IsDistinct :
      (s : RateLimiter) → IsDistinct s.counters → IsDistinct (periodic_cleanup c now s).counters
  unfolding periodic_cleanup
  periodic_cleanup-IsDistinct s h =
      if_cases {A = RateLimiter} (λ t. IsDistinct t.counters) (ltb (s.last_cleanup + c.minute) now)
        _ _ (λ _. delete_if-IsDistinct (is_over c now) s.counters h) (λ _. h)

  -- A drop by the automatic cleanup, followed by what the request itself does.
  Next-after :
      {o o' o'' : Option Counter} {b : Bool}
      → Next c now o false o'
      → Next c now o' b o''
      → Next c now o b o''
  Next-after {o'' = o''} {b = b} (kept _ e) n = subst (λ x. Next c now x b o'') e n
  Next-after (dropped x e w _ e') (kept a k) = dropped x e w a (k ∙ e')
  Next-after (dropped x e w _ e') (opened a f k) = reopened x a e w k
  Next-after (dropped x e w _ e') (dropped y f v a k) = absurd (ground (arith, f, e'))
  Next-after (dropped x e w _ e') (reopened y a f v k) = absurd (ground (arith, f, e'))
  Next-after (dropped x e w _ e') (counted y a f v m k) = absurd (ground (arith, f, e'))
  Next-after (opened a e e') n = absurd (cc a)
  Next-after (reopened x a e w e') n = absurd (cc a)
  Next-after (counted x a e w m e') n = absurd (cc a)

  -- The four ways in which a request ends, as a rule for any property of its outcome.
  count_request-cases :
      (P : Result (Unit {0}) × RateLimiter → Type 0) (key k : String) (o : Option Counter)
      (s : RateLimiter)
      → ((e : Error) → P (err e, s))
      → (o ≡ none → P (ok tt, put_counter c k 1 now s))
      → ((x : Counter)
          → o ≡ some x
          → in_window c now x ≡ false
          → P (ok tt, put_counter c k 1 now s))
      → ((x : Counter)
          → o ≡ some x
          → in_window c now x ≡ true
          → leb c.max_requests x.count ≡ false
          → P (ok tt, put_counter c k (x.count + 1) x.window_start s))
      → P (count_request c key k now o s)
  unfolding count_request
  count_request-cases P key k none s refused new again more = new refl
  count_request-cases P key k (some x) s refused new again more =
      if_cases P (in_window c now x) _ _
        (λ w. if_cases P (leb c.max_requests x.count) _ _ (λ _. refused _) (λ m. more x refl w m))
        (λ w. again x refl w)

  check_cleaned-cases :
      (P : Result (Unit {0}) × RateLimiter → Type 0) (key : String) (s : RateLimiter)
      → ((e : Error) → P (err e, s))
      → (get (full_key c key) s.counters ≡ none
          → leb c.max_entries (length s.counters) ≡ false
          → P (ok tt, put_counter c (full_key c key) 1 now s))
      → ((x : Counter)
          → get (full_key c key) s.counters ≡ some x
          → in_window c now x ≡ false
          → P (ok tt, put_counter c (full_key c key) 1 now s))
      → ((x : Counter)
          → get (full_key c key) s.counters ≡ some x
          → in_window c now x ≡ true
          → leb c.max_requests x.count ≡ false
          → P (ok tt, put_counter c (full_key c key) (x.count + 1) x.window_start s))
      → P (check_cleaned c key now s)
  unfolding check_cleaned
  check_cleaned-cases P key s refused new again more =
      if_cases P (leb c.max_requests 0) _ _ (λ _. refused _)
        (λ _.
          if_cases P
            (not (contains (full_key c key) s.counters) && leb c.max_entries (length s.counters)) _
            _ (λ _. refused _)
            (λ room.
              count_request-cases P key (full_key c key) (get (full_key c key) s.counters) s refused
                (λ e. new e (ground (arith, e, room))) again more))

  -- The counter of another key is not touched by a request.
  check_cleaned-other :
      (k key : String) (s : RateLimiter)
      → full_key c key ≢ k
      → get k (check_cleaned c key now s).1.counters ≡ get k s.counters
  check_cleaned-other k key s ne =
      let other = λ (v : Counter). get-put_ne (full_key c key) k v s.counters ne in
      check_cleaned-cases (λ r. get k r.1.counters ≡ get k s.counters) key s (λ _. refl)
        (λ _ _. other _) (λ _ _ _. other _) (λ _ _ _ _. other _)

  check_cleaned-Next :
      (key : String) (s : RateLimiter)
      → Next c now
          (get (full_key c key) s.counters)
          (succeeded (check_cleaned c key now s).0)
          (get (full_key c key) (check_cleaned c key now s).1.counters)
  check_cleaned-Next key s =
      let k = full_key c key in
      check_cleaned-cases (λ r. Next c now (get k s.counters) (succeeded r.0) (get k r.1.counters))
        key s (λ _. kept refl refl) (λ e _. opened refl e (get-put_self k _ s.counters))
        (λ x e w. reopened x refl e w (get-put_self k _ s.counters))
        (λ x e w m. counted x refl e w m (get-put_self k _ s.counters))

  pub cleanup_locked-IsValid :
      (s : RateLimiter) → IsValid c s → IsValid c (cleanup_locked c now s).1
  unfolding cleanup_locked
  cleanup_locked-IsValid s h = record {
    distinct = delete_if-IsDistinct (is_over c now) s.counters h.distinct;
    bounded = omega (arith, h.bounded, length-delete_if (is_over c now) s.counters);
  }

  periodic_cleanup-IsValid : (s : RateLimiter) → IsValid c s → IsValid c (periodic_cleanup c now s)
  unfolding periodic_cleanup
  periodic_cleanup-IsValid s h =
      if_cases (IsValid c) (ltb (s.last_cleanup + c.minute) now) _ _
        (λ _.
          let v = cleanup_locked-IsValid s h in
          record { distinct = v.distinct; bounded = v.bounded })
        (λ _. h)

  put_old-IsValid :
      (k : String) (e : Counter) (s : RateLimiter) {x : Counter}
      → get k s.counters ≡ some x
      → IsValid c s
      → IsValid c (record s { counters = put k e s.counters })
  put_old-IsValid k e s present h = record {
    distinct = put-IsDistinct k e s.counters h.distinct;
    bounded = omega (arith, h.bounded, length-put_old k e s.counters (rw present));
  }

  -- A request keeps the limiter well formed, whether it is admitted or refused.
  pub check-IsValid :
      (key : String) (s : RateLimiter) → IsValid c s → IsValid c (check c key now s).1
  unfolding check
  check-IsValid key s h =
      let t = periodic_cleanup c now s in
      let v = periodic_cleanup-IsValid s h in
      check_cleaned-cases (λ r. IsValid c r.1) key t (λ _. v)
        (λ e room. record {
          distinct = put-IsDistinct (full_key c key) _ t.counters v.distinct;
          bounded = ground (
            arith,
            length-put (full_key c key) (record { count = 1; window_start = now }) t.counters,
            room,
          );
        })
        (λ x e _. put_old-IsValid (full_key c key) _ t e v)
        (λ x e _ _. put_old-IsValid (full_key c key) _ t e v)

  -- What one request does to the counter of its own key,
  pub check-Next :
      (key : String) (s : RateLimiter)
      → IsDistinct s.counters
      → Next c now
          (get (full_key c key) s.counters)
          (succeeded (check c key now s).0)
          (get (full_key c key) (check c key now s).1.counters)
  unfolding check
  check-Next key s h =
      Next-after (periodic_cleanup-Next (full_key c key) s h)
        (check_cleaned-Next key (periodic_cleanup c now s))

  -- and to that of another key.
  pub check-Next_other :
      (k key : String) (s : RateLimiter)
      → IsDistinct s.counters
      → full_key c key ≢ k
      → Next c now (get k s.counters) false (get k (check c key now s).1.counters)
  unfolding check
  check-Next_other k key s h ne =
      rw (check_cleaned-other k key (periodic_cleanup c now s) ne) (periodic_cleanup-Next k s h)
