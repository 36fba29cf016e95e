-- ===== src/RateLimit.antt =====
-- uxsp/core/rate_limit.py: the interface of the rate limiters and their shared configuration.
-- Times are whole numbers of an arbitrary tick; `minute` is the number of ticks in the 60 seconds
-- between two automatic cleanups.
pub mod Calls
pub mod Fixed
pub mod Sliding
use Prim.Native.String
use uxsp.Prelude.{ℕ, suc, ◌+◌, String, leb, if◌then◌else◌}
use uxsp.Prelude.Result.{Result, Exec, ok, err, value_error}
use uxsp.Prelude.Value.{ℤ, pos, negsuc}

pub record RateLimiterBase {ℓ} (S : Type ℓ) : Type ℓ where
  pub check : String → ℕ → Exec S (Unit {0})
  pub reset : String → S → S
  pub cleanup : ℕ → S → ℕ × S

pub record Config : Type 0 where
  pub max_requests : ℕ
  pub window : ℕ
  pub prefix : String
  pub minute : ℕ
  pub max_entries : ℕ

-- The checks of both constructors.
unfoldable pub make_config : ℤ → ℤ → String → ℕ → ℕ → Result Config
make_config (negsuc m) w prefix minute max_entries = err value_error
make_config (pos m) (negsuc w) prefix minute max_entries = err value_error
make_config (pos m) (pos w) prefix minute max_entries =
    if leb w 0
    then err value_error
    else ok (record {
      max_requests = m;
      window = w;
      prefix = prefix;
      minute = minute;
      max_entries = max_entries;
    })

abbrev pub full_key : Config → String → String
full_key c key = String.◌++◌ c.prefix key
