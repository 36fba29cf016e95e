-- ===== src/Replay/Freshness.antt =====
-- uxsp/core/replay.py: the freshness window, and its agreement with uxsp/core/envelope.py.
use uxsp.Prelude.{
  ℕ, ◌+◌, suc, ◌≤◌, ◌≡◌, ◌≢◌, refl, ◌↔◌, true, false, arith, str_eq, Bool-cases, inl, inr,
}
use uxsp.Prelude.Result.{Result, ok}
use uxsp.Prelude.Dict.{get, put}
use uxsp.Prelude.Value.{ℤ, pos, negsuc, Value, int}
use uxsp.Envelope.{Envelope, is_fresh, to_dict}
use uxsp.Replay.{
  ReplayGuard, Normalised, instance_of, normalise, check_freshness_normalised, check_freshness,
}

-- The timestamp is at most `window` old and at most `clock_skew` ahead of the clock.
abbrev pub IsFresh : ReplayGuard → ℕ → ℤ → Type 0
IsFresh g now (pos ts) = (now ≤ ts + g.window) × (ts ≤ now + g.clock_skew)
IsFresh g now (negsuc n) = now + suc n ≤ g.window

check-IsFresh :
    (g : ReplayGuard) (now : ℕ) (d : Normalised) (ts : ℤ)
    → d.timestamp ≡ ts
    → (check_freshness_normalised g now d ≡ ok tt) ↔ IsFresh g now ts
unfolding check_freshness_normalised
check-IsFresh g now d (pos ts) e = (λ h. ground arith, λ h. ground arith)
check-IsFresh g now d (negsuc n) e = (λ h. ground arith, λ h. ground arith)

-- The check passes exactly when the timestamp lies in the window.
pub check_freshness_normalised-IsFresh :
    (g : ReplayGuard) (now : ℕ) (d : Normalised)
    → (check_freshness_normalised g now d ≡ ok tt) ↔ IsFresh g now d.timestamp
check_freshness_normalised-IsFresh g now d = check-IsFresh g now d d.timestamp refl

is_fresh-IsFresh :
    (g : ReplayGuard) (now : ℕ) (e : Envelope) (ts : ℤ)
    → e.timestamp ≡ ts
    → (is_fresh g.window g.clock_skew now e ≡ true) ↔ IsFresh g now ts
unfolding is_fresh
is_fresh-IsFresh g now e (pos ts) h = (λ k. ground arith, λ k. ground arith)
is_fresh-IsFresh g now e (negsuc n) h = (λ k. ground arith, λ k. ground arith)

module _ (to_int : Value → Result ℤ) (ints : (n : ℤ) → to_int (int n) ≡ ok n) where
  -- Of an `Envelope` instance the guard reads its own timestamp and nonce.
  pub normalise-instance_of :
      (e : Envelope)
      → str_eq e.envelope_nonce "" ≡ false
      → normalise to_int (instance_of e)
        ≡ ok (record {
          fields = to_dict e;
          timestamp = e.timestamp;
          envelope_nonce = e.envelope_nonce;
        })
  unfolding normalise get put
  normalise-instance_of e h = rw (ints e.timestamp, h)

  -- Without a nonce there is nothing to normalise.
  no_nonce :
      (g : ReplayGuard) (now : ℕ) (e : Envelope)
      → str_eq e.envelope_nonce "" ≡ true
      → check_freshness to_int g now (instance_of e) ≢ ok tt
  unfolding check_freshness normalise get put
  no_nonce g now e h x = ground (arith, h, x, ints e.timestamp)

  -- If `int` reads an integer as itself, the guard's `check_freshness` accepts an `Envelope` exactly
  -- when that has a nonce that is not empty, and the envelope's own `is_fresh`, called with the guard's
  -- window and skew, answers true.
  pub check_freshness-eq-is_fresh :
      (g : ReplayGuard) (now : ℕ) (e : Envelope)
      → (check_freshness to_int g now (instance_of e) ≡ ok tt)
        ↔ ((str_eq e.envelope_nonce "" ≡ false) × (is_fresh g.window g.clock_skew now e ≡ true))
  unfolding check_freshness
  check_freshness-eq-is_fresh g now e = elim (Bool-cases (str_eq e.envelope_nonce "")) [
    | inl h ↦ (λ x. absurd (no_nonce g now e h x), λ x. absurd (cc (h, x.0)))
    | inr h ↦ rw (normalise-instance_of e h) (
        let a = check_freshness_normalised-IsFresh g now (record {
          fields = to_dict e;
          timestamp = e.timestamp;
          envelope_nonce = e.envelope_nonce;
        }) in
        let b = is_fresh-IsFresh g now e e.timestamp refl in
        (λ x. (h, b.1 (a.0 x)), λ x. a.1 (b.0 x.1)))
  ]
