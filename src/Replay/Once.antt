-- ===== src/Replay/Once.antt =====
-- uxsp/core/replay.py: a committed envelope is not accepted again.
use uxsp.Prelude.{ℕ, ◌+◌, ◌≤◌, ◌<◌, ◌≡◌, ◌≢◌, refl, true, arith, List, inl, inr}
use uxsp.Prelude.Result.{Result, ok, Result-cases}
use uxsp.Prelude.Value.{ℤ, pos, negsuc, Value}
use native.Mathlib.Decide.{dec_lt}
use uxsp.Nonce.{NonceStore}
use uxsp.Nonce.Contract.{IsNonceStore, Call, AllBefore, run, run-keeps}
use uxsp.Replay.{
  ReplayGuard, Normalised, Incoming, normalise, check_freshness_normalised, admitted, commit,
}
use uxsp.Replay.Freshness.{IsFresh, check_freshness_normalised-IsFresh}

-- How long a nonce is kept.
abbrev pub retention : ReplayGuard → ℕ
retention g = g.window + g.clock_skew

module _ (to_int : Value → Result ℤ) (g : ReplayGuard) where
  admitted_lem :
      (now : ℕ) (env : Incoming) (d : Normalised)
      → admitted to_int g now env ≡ ok d
      → (normalise to_int env ≡ ok d) × (check_freshness_normalised g now d ≡ ok tt)
  unfolding admitted
  admitted_lem now env d h = ground arith

  module _ {S : Type 0} (ops : NonceStore S) (now later : ℕ) (env : Incoming) (s : S) where
    -- What an accepted commit says of the envelope and the store.
    pub record IsAccepted (d : Normalised) : Type 0 where
      pub normalised : normalise to_int env ≡ ok d
      pub fresh : check_freshness_normalised g now d ≡ ok tt
      pub first : (ops.mark_used d.envelope_nonce (retention g) later s).0 ≡ ok true
      pub state :
          (commit to_int g ops now later env s).1
          ≡ (ops.mark_used d.envelope_nonce (retention g) later s).1

    pub commit-IsAccepted :
        (commit to_int g ops now later env s).0 ≡ ok tt → (d : Normalised) × IsAccepted d
    unfolding commit
    commit-IsAccepted h = elim (Result-cases (admitted to_int g now env)) [
      | inl (d, e) ↦
          let (n, f) = admitted_lem now env d e in
          (
            d,
            record {
              normalised = n;
              fresh = f;
              first = ground (arith, rw e at h);
              state = rw (e, commit);
            },
          )
      | inr (x, e) ↦ absurd (ground (arith, rw e at h))
    ]

    -- A commit is accepted only if the store accepts the nonce.
    pub commit_refused :
        (d : Normalised)
        → normalise to_int env ≡ ok d
        → (ops.mark_used d.envelope_nonce (retention g) later s).0 ≢ ok true
        → (commit to_int g ops now later env s).0 ≢ ok tt
    commit_refused d e old h =
        let (d', a) = commit-IsAccepted h in old (ground (arith, a.first, a.normalised))

  module _ {S : Type 0} {ops : NonceStore S} (law : IsNonceStore ops) where
    -- After a commit was accepted over a well-formed store, a commit of any envelope with the same nonce is refused while
    -- its store call comes before the end of the retention time, counted from the first store call,
    -- whatever calls the store gets in between before that end.
    pub commit_once :
        (now later now' later' : ℕ) (env env' : Incoming) (d d' : Normalised) (s : S)
        (cs : List Call)
        → law.IsValid s
        → normalise to_int env ≡ ok d
        → normalise to_int env' ≡ ok d'
        → d.envelope_nonce ≡ d'.envelope_nonce
        → (commit to_int g ops now later env s).0 ≡ ok tt
        → AllBefore (later + retention g) cs
        → later' < later + retention g
        → (commit to_int g ops now' later' env'
            (run ops cs (commit to_int g ops now later env s).1)).0
          ≢ ok tt
    commit_once now later now' later' env env' d d' s cs valid e e' same accepted before lt =
        let (d₁, a) = commit-IsAccepted ops now later env s accepted in
        let same₁ : d₁.envelope_nonce ≡ d'.envelope_nonce = ground (arith, e, a.normalised, same) in
        let kept : law.Tracks d'.envelope_nonce (later + retention g)
            (run ops cs (commit to_int g ops now later env s).1) =
          run-keeps law d'.envelope_nonce (later + retention g) cs
            (commit to_int g ops now later env s).1
            (rw (a.state, ← same₁)
              (law.mark_used-Tracks d₁.envelope_nonce (retention g) later s valid a.first))
            before in
        commit_refused ops now' later' env' (run ops cs (commit to_int g ops now later env s).1) d'
          e'
          (law.Tracks-mark_used d'.envelope_nonce (later + retention g) (retention g) later' _ kept
            lt)

    window_ends : (t u : ℕ) (ts : ℤ) → IsFresh g t ts → IsFresh g u ts → u ≤ t + retention g
    window_ends t u (pos n) h k = omega arith
    window_ends t u (negsuc n) h k = omega arith

    -- The same envelope committed at `t`, over a well-formed store, and, after any store calls before
    -- `t + retention`, at `u`, each commit with one reading of the clock, is accepted both times only
    -- if `u` is exactly `t + retention`: before that instant the nonce is on record, and after it the
    -- timestamp is stale.
    pub commit_never_twice :
        (t u : ℕ) (env : Incoming) (s : S) (cs : List Call)
        → law.IsValid s
        → AllBefore (t + retention g) cs
        → (commit to_int g ops t t env s).0 ≡ ok tt
        → (commit to_int g ops u u env (run ops cs (commit to_int g ops t t env s).1)).0 ≡ ok tt
        → u ≡ t + retention g
    commit_never_twice t u env s cs valid before first again =
        let s' = run ops cs (commit to_int g ops t t env s).1 in
        let (d, a) = commit-IsAccepted ops t t env s first in
        let (d', a') = commit-IsAccepted ops u u env s' again in
        let fresh = (check_freshness_normalised-IsFresh g t d).0 a.fresh in
        let fresh' : check_freshness_normalised g u d ≡ ok tt =
          ground (arith, a.normalised, a'.normalised, a'.fresh) in
        let late =
          window_ends t u d.timestamp fresh ((check_freshness_normalised-IsFresh g u d).0 fresh') in
        elim (dec_lt u (t + retention g)) [
          | yes lt ↦ absurd (
              commit_once t t u u env env d d s cs valid a.normalised a.normalised refl first before
                lt again)
          | no ge ↦ omega arith
        ]
