-- ===== src/RateLimit/Calls.antt =====
-- uxsp/core/rate_limit.py: the calls on a limiter, for both in-memory limiters.
use uxsp.Prelude.{ℕ, ◌≤◌, ◌<◌, String, List, [], ◌∷◌}

-- The calls that clients make; a reset, which forgets a key on purpose, is not among them.
pub data Call : Type 0 where
  request : String → ℕ → Call
  sweep : ℕ → Call

abbrev pub time_of : Call → ℕ
time_of (request key now) = now
time_of (sweep now) = now

-- All calls are made at `from` or later, and before `to`.
abbrev pub AllWithin : ℕ → ℕ → List Call → Type 0
AllWithin from to [] = Unit
AllWithin from to (a ∷ calls) = (from ≤ time_of a) × (time_of a < to) × AllWithin from to calls
