-- ===== src/Tests/Limits.antt =====
-- Tests of the rate limiters.
use uxsp.Prelude.{◌≤◌, ◌*◌, ◌≡◌, refl, List, [], ◌∷◌, arith}
use uxsp.Prelude.Dict.{get, put, delete_if, count_if}
use uxsp.RateLimit.{Config}
use uxsp.RateLimit.Fixed.{new_limiter, check, cleanup, check_cleaned, periodic_cleanup}
use uxsp.RateLimit.Calls.{Call, request, sweep}
use uxsp.RateLimit.Sliding.{SlidingRateLimiter}
use uxsp.RateLimit.Sliding.Budget.{admissions as sliding_admissions, sliding_admissions-le}
use uxsp.RateLimit.Fixed.Window.{admissions, step, is_admitted}
use uxsp.RateLimit.Fixed.Reached.{called, was_reset, after, reached_admissions-le}

abbrev config : Config
config = record { max_requests = 2; window = 60; prefix = "ip:"; minute = 60; max_entries = 100000 }

abbrev burst : List Call
burst =
    request "a" 0 ∷ request "a" 1 ∷ request "b" 2 ∷ request "a" 3 ∷ sweep 30 ∷ request "a" 59 ∷ []

burst_admits_two : admissions config "ip:a" burst (new_limiter 0) ≡ 2
unfolding admissions step is_admitted check cleanup check_cleaned periodic_cleanup get put delete_if
    count_if
burst_admits_two = refl

reached_admissions-le_example :
    admissions config "ip:a" burst (
      after config
        (called (request "a" 0) ∷ called (request "a" 0) ∷ was_reset "b" ∷ [])
        (new_limiter 0))
    ≤ 2 * config.max_requests
reached_admissions-le_example =
    reached_admissions-le config "ip:a" 0 0 60
      (called (request "a" 0) ∷ called (request "a" 0) ∷ was_reset "b" ∷ []) burst (omega arith)
      (omega arith)

-- The key has used one of its two requests.
abbrev half_used : SlidingRateLimiter
half_used = record { log = ("ip:a", 0 ∷ []) ∷ []; last_cleanup = 0 }

abbrev late : List Call
late =
    request "a" 59
    ∷ request "a" 59
    ∷ request "a" 60
    ∷ request "a" 61
    ∷ sweep 70
    ∷ request "a" 118
    ∷ []

sliding_admissions-le_example :
    sliding_admissions config "ip:a" late half_used ≤ config.max_requests
unfolding get
sliding_admissions-le_example =
    sliding_admissions-le config "ip:a" 59 late half_used (refl, tt) (omega arith)
