-- ===== src/RateLimit/Sliding.antt =====
-- uxsp/core/rate_limit.py: `SlidingRateLimiter`, which keeps the times of a key's recent requests,
-- the oldest first. The lock makes each method one step, which takes its clock reading as an argument.
pub mod Budget
use uxsp.Prelude.{
  ℕ, ◌+◌, ◌-◌, String, Bool, true, false, ltb, leb, not, ◌&&◌, if◌then◌else◌, length, Option, none,
  some, List, [], ◌∷◌, ◌++◌,
}
use uxsp.Prelude.Result.{Result, Exec, ok, err, ◌>>=◌, rate_limit_exceeded}
use uxsp.Prelude.Dict.{Dict, get, put, delete, delete_if, count_if, contains}
use uxsp.Prelude.Value.{ℤ}
use uxsp.RateLimit.{RateLimiterBase, Config, full_key, make_config}

pub record SlidingRateLimiter : Type 0 where
  pub log : Dict (List ℕ)
  pub last_cleanup : ℕ

-- `_MAX_ENTRIES` of this class.
abbrev pub max_entries : ℕ
max_entries = 10000

abbrev pub new_limiter : ℕ → SlidingRateLimiter
new_limiter now = record { log = []; last_cleanup = now }

unfoldable pub make_limiter : ℤ → ℤ → String → ℕ → ℕ → Result (Config × SlidingRateLimiter)
make_limiter max_requests window prefix minute now = do
  c ← make_config max_requests window prefix minute max_entries
  ok (c, new_limiter now)

-- `not ts`
abbrev pub is_empty : List ℕ → Bool
is_empty [] = true
is_empty (t ∷ ts) = false

-- `self._log.setdefault(full_key, deque())`
abbrev pub or_empty : Option (List ℕ) → List ℕ
or_empty none = []
or_empty (some ts) = ts

module _ (c : Config) where
  -- `while ts and ts[0] <= now - window: ts.popleft()`
  unfoldable pub drop_stale : ℕ → List ℕ → List ℕ
  drop_stale now [] = []
  drop_stale now (t ∷ ts) =
      let rest = drop_stale now ts in if leb (t + c.window) now then rest else t ∷ ts

  unfoldable pub drop_stale_all : ℕ → Dict (List ℕ) → Dict (List ℕ)
  drop_stale_all now [] = []
  drop_stale_all now ((k, ts) ∷ d) = (k, drop_stale now ts) ∷ drop_stale_all now d

  unfoldable pub cleanup_locked : ℕ → SlidingRateLimiter → ℕ × SlidingRateLimiter
  cleanup_locked now s =
      let log = drop_stale_all now s.log in
      (count_if is_empty log, record s { log = delete_if is_empty log })

  unfoldable pub periodic_cleanup : ℕ → SlidingRateLimiter → SlidingRateLimiter
  periodic_cleanup now s =
      if ltb (s.last_cleanup + c.minute) now
      then record (cleanup_locked now s).1 { last_cleanup = now }
      else s

  -- `timestamps[0] + window - now if timestamps else window`, not below 0
  abbrev pub retry_after : ℕ → List ℕ → ℕ
  retry_after now [] = c.window
  retry_after now (t ∷ ts) = t + c.window - now

  -- The end of `check`, with the recent times of the key.
  unfoldable pub log_request : String → String → ℕ → List ℕ → Exec SlidingRateLimiter (Unit {0})
  log_request key k now ts s =
      if leb c.max_requests (length ts)
      then (err (rate_limit_exceeded key (retry_after now ts)), record s { log = put k ts s.log })
      else (ok tt, record s { log = put k (ts ++ (now ∷ [])) s.log })

  unfoldable pub check_cleaned : String → ℕ → Exec SlidingRateLimiter (Unit {0})
  unfolding log_request
  check_cleaned key now s =
      let k = full_key c key in
      if leb c.max_requests 0
      then (err (rate_limit_exceeded key c.window), s)
      else if not (contains k s.log) && leb c.max_entries (length s.log)
      then (err (rate_limit_exceeded key c.window), s)
      else log_request key k now (drop_stale now (or_empty (get k s.log))) s

  unfoldable pub check : String → ℕ → Exec SlidingRateLimiter (Unit {0})
  check key now s = check_cleaned key now (periodic_cleanup now s)

  unfoldable pub reset : String → SlidingRateLimiter → SlidingRateLimiter
  reset key s = record s { log = delete (full_key c key) s.log }

  unfoldable pub cleanup : ℕ → SlidingRateLimiter → ℕ × SlidingRateLimiter
  cleanup = cleanup_locked

  -- The newest times that are still in the window; the times come newest first.
  unfoldable pub count_recent : ℕ → List ℕ → ℕ
  count_recent now [] = 0
  count_recent now (t ∷ ts) =
      let rest = count_recent now ts in if ltb now (t + c.window) then rest + 1 else 0

  -- `reversed(timestamps)`
  unfoldable pub newest_first : List ℕ → List ℕ
  newest_first [] = []
  newest_first (t ∷ ts) = newest_first ts ++ (t ∷ [])

  unfoldable pub remaining : String → ℕ → SlidingRateLimiter → ℕ
  remaining key now s =
      c.max_requests - count_recent now (newest_first (or_empty (get (full_key c key) s.log)))

  abbrev pub sliding_window : RateLimiterBase SlidingRateLimiter
  sliding_window = record { check = check; reset = reset; cleanup = cleanup }
