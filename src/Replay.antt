-- ===== src/Replay.antt =====
-- uxsp/core/replay.py: the replay guard over any nonce store.
-- `now` is the clock reading of the freshness check and `later` that of the store call after it.
pub mod Freshness
pub mod Once
pub mod Open
use uxsp.Prelude.{
  ℕ, ◌+◌, suc, String, Bool, true, false, not, ltb, leb, if◌then◌else◌, Option, none, some, str_eq,
}
use uxsp.Prelude.Result.{
  Result, Exec, Error, ok, err, ◌>>=◌, ◌>>◌, guard, value_error, type_error, stale_envelope,
  future_envelope, duplicate_nonce,
}
use uxsp.Prelude.Dict.{Dict, get, put}
use uxsp.Prelude.Value.{ℤ, pos, negsuc, Value, int, str, as_text}
use uxsp.Envelope.{Envelope, to_dict}
use uxsp.Nonce.{NonceStore}

pub record ReplayGuard : Type 0 where
  pub window : ℕ
  pub clock_skew : ℕ

-- `__init__`; the store is `None` or an object, which the guard keeps.
unfoldable pub make_guard {ℓ} : {S : Type ℓ} → Option S → ℤ → ℤ → Result (ReplayGuard × S)
make_guard store (negsuc w) clock_skew = err value_error
make_guard store (pos w) (negsuc k) = err value_error
make_guard none (pos w) (pos k) =
    if leb w 0 then err value_error else if leb w k then err value_error else err type_error
make_guard (some s) (pos w) (pos k) =
    if leb w 0
    then err value_error
    else if leb w k
    then err value_error
    else ok (record { window = w; clock_skew = k }, s)

-- What a method is called with: an `Envelope`, a dictionary, or anything else.
pub data Incoming : Type 0 where
  instance_of : Envelope → Incoming
  mapping : Dict Value → Incoming
  neither : Incoming

-- The result of `_normalise`: the dictionary, with its checked timestamp and nonce.
pub record Normalised : Type 0 where
  pub fields : Dict Value
  pub timestamp : ℤ
  pub envelope_nonce : String

abbrev pub present : {A : Type 0} → Option A → Error → Result A
present none e = err e
present (some a) e = ok a

-- `int(v)` with `except (TypeError, ValueError)`.
abbrev pub int_or_value_error : Result ℤ → Result ℤ
int_or_value_error (err type_error) = err value_error
int_or_value_error r = r

-- `to_int` is the built-in `int`.
module _ (to_int : Value → Result ℤ) where
  normalise_dict : Dict Value → Result Normalised
  normalise_dict d = do
    raw ← present (get "timestamp" d) value_error
    raw_nonce ← present (get "envelope_nonce" d) value_error
    ts ← int_or_value_error (to_int raw)
    nonce ← present (as_text raw_nonce) value_error
    guard (not (str_eq nonce "")) value_error
    ok (record {
      fields = put "envelope_nonce" (str nonce) (put "timestamp" (int ts) d);
      timestamp = ts;
      envelope_nonce = nonce;
    })

  unfoldable pub normalise : Incoming → Result Normalised
  unfolding normalise_dict to_dict
  normalise (instance_of e) = normalise_dict (to_dict e)
  normalise (mapping d) = normalise_dict d
  normalise neither = err value_error

-- `now - ts > window`
abbrev pub is_stale : ReplayGuard → ℕ → ℤ → Bool
is_stale g now (pos ts) = ltb (ts + g.window) now
is_stale g now (negsuc n) = ltb g.window (now + suc n)

-- `ts > now + clock_skew`
abbrev pub is_future : ReplayGuard → ℕ → ℤ → Bool
is_future g now (pos ts) = ltb (now + g.clock_skew) ts
is_future g now (negsuc n) = false

unfoldable pub check_freshness_normalised : ReplayGuard → ℕ → Normalised → Result (Unit {0})
check_freshness_normalised g now d =
    if is_stale g now d.timestamp
    then err stale_envelope
    else if is_future g now d.timestamp
    then err future_envelope
    else ok tt

-- `if …: raise DuplicateNonceError`, on what the store answered.
abbrev pub accept_if : Bool → Result Bool → Result (Unit {0})
accept_if wanted (ok true) = if wanted then ok tt else err duplicate_nonce
accept_if wanted (ok false) = if wanted then err duplicate_nonce else ok tt
accept_if wanted (err e) = err e

module _ (to_int : Value → Result ℤ) (g : ReplayGuard) where
  unfoldable pub check_freshness : ℕ → Incoming → Result (Unit {0})
  check_freshness now envelope = do
    d ← normalise to_int envelope
    check_freshness_normalised g now d

  -- The two checks that come before the store is asked.
  unfoldable pub admitted : ℕ → Incoming → Result Normalised
  admitted now envelope = do d ← normalise to_int envelope; check_freshness_normalised g now d; ok d

  module _ {S : Type 0} (ops : NonceStore S) where
    unfoldable pub precheck_admitted : ℕ → Result Normalised → Exec S (Unit {0})
    precheck_admitted later (err e) s = (err e, s)
    precheck_admitted later (ok d) s =
        let (seen, s') = ops.is_seen d.envelope_nonce later s in (accept_if false seen, s')

    unfoldable pub precheck : ℕ → ℕ → Incoming → Exec S (Unit {0})
    unfolding precheck_admitted
    precheck now later envelope s = precheck_admitted later (admitted now envelope) s

    unfoldable pub commit_admitted : ℕ → Result Normalised → Exec S (Unit {0})
    commit_admitted later (err e) s = (err e, s)
    commit_admitted later (ok d) s =
        let (first_use, s') = ops.mark_used d.envelope_nonce (g.window + g.clock_skew) later s in
        (accept_if true first_use, s')

    unfoldable pub commit : ℕ → ℕ → Incoming → Exec S (Unit {0})
    unfolding commit_admitted
    commit now later envelope s = commit_admitted later (admitted now envelope) s

    abbrev pub check_and_commit : ℕ → ℕ → Incoming → Exec S (Unit {0})
    check_and_commit = commit
