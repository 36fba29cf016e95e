-- ===== src/RateLimit/Fixed.antt =====
-- uxsp/core/rate_limit.py: `RateLimiter`, the fixed-window limiter. The lock makes each method one
-- step, which takes its clock reading as an argument.
pub mod Keeps
pub mod Window
pub mod Reached
use uxsp.Prelude.{
  ℕ, suc, ◌+◌, ◌-◌, String, Bool, true, false, ltb, leb, not, ◌&&◌, if◌then◌else◌, length, Option,
  none, some, List,
}
use uxsp.Prelude.Result.{Result, Exec, ok, err, ◌>>=◌, rate_limit_exceeded}
use uxsp.Prelude.Dict.{Dict, get, put, delete, delete_if, count_if, contains}
use uxsp.Prelude.Value.{ℤ}
use uxsp.RateLimit.{RateLimiterBase, Config, full_key, make_config}

-- The count of a window and its start.
pub record Counter : Type 0 where
  pub count : ℕ
  pub window_start : ℕ

pub record RateLimiter : Type 0 where
  pub counters : Dict Counter
  pub last_cleanup : ℕ

-- `_MAX_ENTRIES` of this class.
abbrev pub max_entries : ℕ
max_entries = 100000

abbrev pub new_limiter : ℕ → RateLimiter
new_limiter now = record { counters = List.[]; last_cleanup = now }

unfoldable pub make_limiter : ℤ → ℤ → String → ℕ → ℕ → Result (Config × RateLimiter)
make_limiter max_requests window prefix minute now = do
  c ← make_config max_requests window prefix minute max_entries
  ok (c, new_limiter now)

module _ (c : Config) where
  -- `now - window_start < window`
  abbrev pub in_window : ℕ → Counter → Bool
  in_window now e = ltb now (e.window_start + c.window)

  abbrev pub is_over : ℕ → Counter → Bool
  is_over now e = not (in_window now e)

  unfoldable pub cleanup_locked : ℕ → RateLimiter → ℕ × RateLimiter
  cleanup_locked now s = (
    count_if (is_over now) s.counters,
    record s { counters = delete_if (is_over now) s.counters },
  )

  unfoldable pub periodic_cleanup : ℕ → RateLimiter → RateLimiter
  unfolding cleanup_locked
  periodic_cleanup now s =
      if ltb (s.last_cleanup + c.minute) now
      then record (cleanup_locked now s).1 { last_cleanup = now }
      else s

  abbrev pub put_counter : String → ℕ → ℕ → RateLimiter → RateLimiter
  put_counter k count start s = record s {
    counters = put k (record { count = count; window_start = start }) s.counters;
  }

  -- The end of `check`, on what the counters hold for the key.
  unfoldable pub count_request : String → String → ℕ → Option Counter → Exec RateLimiter (Unit {0})
  count_request key k now none s = (ok tt, put_counter k 1 now s)
  count_request key k now (some e) s =
      if in_window now e
      then (if leb c.max_requests e.count
          then (err (rate_limit_exceeded key (e.window_start + c.window - now)), s)
          else (ok tt, put_counter k (e.count + 1) e.window_start s))
      else (ok tt, put_counter k 1 now s)

  unfoldable pub check_cleaned : String → ℕ → Exec RateLimiter (Unit {0})
  unfolding count_request
  check_cleaned key now s =
      let k = full_key c key in
      if leb c.max_requests 0
      then (err (rate_limit_exceeded key c.window), s)
      else if not (contains k s.counters) && leb c.max_entries (length s.counters)
      then (err (rate_limit_exceeded key c.window), s)
      else count_request key k now (get k s.counters) s

  unfoldable pub check : String → ℕ → Exec RateLimiter (Unit {0})
  check key now s = check_cleaned key now (periodic_cleanup now s)

  unfoldable pub reset : String → RateLimiter → RateLimiter
  reset key s = record s { counters = delete (full_key c key) s.counters }

  unfoldable pub cleanup : ℕ → RateLimiter → ℕ × RateLimiter
  unfolding cleanup_locked
  cleanup = cleanup_locked

  abbrev remaining_of : ℕ → Option Counter → ℕ
  remaining_of now none = c.max_requests
  remaining_of now (some e) = if in_window now e then c.max_requests - e.count else c.max_requests

  unfoldable pub remaining : String → ℕ → RateLimiter → ℕ
  remaining key now s = remaining_of now (get (full_key c key) s.counters)

  abbrev pub fixed_window : RateLimiterBase RateLimiter
  fixed_window = record { check = check; reset = reset; cleanup = cleanup }
