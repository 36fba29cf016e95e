-- ===== src/Handshake/Guarded/Taken.antt =====
-- uxsp/core/rate_limit.py: the asynchronous guard takes the session identifier of a HELLO before it looks
-- at the signature.
use uxsp.Prelude.{ℕ, ◌+◌, ◌<◌, ◌≡◌, ◌≢◌, refl, String, true, arith, some, List, inl, inr}
use uxsp.Prelude.Result.{Result, ok, err, Result-cases}
use uxsp.Prelude.Dict.{get}
use uxsp.Nonce.{NonceStore}
use uxsp.Nonce.Contract.{IsNonceStore, Call, AllBefore, run, run-keeps}
use uxsp.RateLimit.{RateLimiterBase}
use uxsp.Crypto.Parts.{Packages}
use uxsp.Identity.{Identity}
use uxsp.Handshake.Parts.{Library, retention}
use uxsp.Handshake.{Handshake, first_or_expired}
use uxsp.Handshake.Replayed.{first_or_expired-first}
use uxsp.Handshake.Guarded.{
  Attempt, Comparisons, nonce_of, hello_nonce, unseen_or_error, take_seen, take_marked, take_nonce,
  respond_taken, async_limited, async_guarded_respond,
}

module _ (p : Packages) (x : Library) {S : Type 0} {ops : NonceStore S}
    (law : IsNonceStore ops) where
  take_marked-keeps :
      (a : Attempt) (nonce n : String) (e : ℕ) (r : Result (Unit {0})) (s : S)
      → law.Tracks n e s
      → a.seen < e
      → a.second_marking < e
      → law.Tracks n e (take_marked p x ops a nonce r s).1
  unfolding take_marked take_seen
  take_marked-keeps a nonce n e (err z) s h lt lt' = h
  take_marked-keeps a nonce n e (ok u) s h lt lt' =
      let h' = law.is_seen-keeps n nonce e a.seen s h lt in
      elim (Result-cases (unseen_or_error (ops.is_seen nonce a.seen s).0)) [
        | inl (v, b) ↦ rw b (law.mark_used-keeps n nonce e _ a.second_marking _ h' lt')
        | inr (z, b) ↦ rw b h'
      ]

  taken-Tracks :
      (a : Attempt) (nonce : String) (s : S)
      → law.IsValid s
      → (ops.mark_used (hello_nonce p x a.hello) retention a.readings.marking s).0 ≡ ok true
      → a.seen < a.readings.marking + retention
      → a.second_marking < a.readings.marking + retention
      → law.Tracks
          (hello_nonce p x a.hello)
          (a.readings.marking + retention)
          (take_nonce p x ops a nonce s).1
  unfolding take_nonce
  taken-Tracks a nonce s v first lt lt' =
      let name = hello_nonce p x a.hello in
      take_marked-keeps a nonce name (a.readings.marking + retention)
        (first_or_expired (ops.mark_used name retention a.readings.marking s).0)
        (ops.mark_used name retention a.readings.marking s).1
        (law.mark_used-Tracks name retention a.readings.marking s v first) lt lt'

  take_nonce-first :
      (a : Attempt) (nonce : String) (s : S)
      → (take_nonce p x ops a nonce s).0 ≡ ok tt
      → (ops.mark_used (hello_nonce p x a.hello) retention a.readings.marking s).0 ≡ ok true
  unfolding take_nonce take_marked
  take_nonce-first a nonce s h =
      let marked = (ops.mark_used (hello_nonce p x a.hello) retention a.readings.marking s).0 in
      elim (Result-cases (first_or_expired marked)) [
        | inr (z, b) ↦ absurd (ground arith)
        | inl (u, b) ↦ first_or_expired-first marked (ok tt) tt (rw b refl)
      ]

  module _ (q : Comparisons) (me : Identity) {L : Type 0} (limiter : RateLimiterBase L) where
    answered-taken :
        (a : Attempt) (l : L) (s : S) (hs : Handshake)
        → (async_guarded_respond p x me limiter q (some ops) a (l, s)).0 ≡ ok hs
        → (ops.mark_used (hello_nonce p x a.hello) retention a.readings.marking s).0 ≡ ok true
    unfolding async_guarded_respond async_limited respond_taken
    answered-taken a l s hs h =
        elim (Result-cases (limiter.check a.initiator_card.entity_id a.limiting l).0) [
          | inr (z, b) ↦ absurd (ground arith)
          | inl (u, b) ↦ elim (Result-cases (nonce_of q a.hello)) [
            | inr (z, c) ↦ absurd (ground arith)
            | inl (nonce, c) ↦ elim (Result-cases (take_nonce p x ops a nonce s).0) [
              | inr (z, d) ↦ absurd (ground arith)
              | inl (u', d) ↦ take_nonce-first a nonce s d
            ]
          ]
        ]

    -- The asynchronous guard takes a session identifier at the first HELLO of the right format that its
    -- limiter lets through and that finds the identifier unused, whether or not that HELLO is
    -- answered: until 90 seconds after the first marking no HELLO with the same session identifier is
    -- answered over the same well-formed store, whatever calls the store gets in between before that
    -- end, if the other store calls of the first HELLO come before that end too.
    pub session_taken_once :
        (a a' : Attempt) (l l' : L) (s : S) (cs : List Call) (nonce : String) (hs : Handshake)
        → law.IsValid s
        → (limiter.check a.initiator_card.entity_id a.limiting l).0 ≡ ok tt
        → nonce_of q a.hello ≡ ok nonce
        → (ops.mark_used (hello_nonce p x a.hello) retention a.readings.marking s).0 ≡ ok true
        → get "session_id" a.hello ≡ get "session_id" a'.hello
        → a.seen < a.readings.marking + retention
        → a.second_marking < a.readings.marking + retention
        → AllBefore (a.readings.marking + retention) cs
        → a'.readings.marking < a.readings.marking + retention
        → (async_guarded_respond p x me limiter q
            (some ops)
            a'
            (l', run ops cs (async_guarded_respond p x me limiter q (some ops) a (l, s)).1.1)).0
          ≢ ok hs
    unfolding async_guarded_respond async_limited respond_taken
    session_taken_once a a' l l' s cs nonce hs valid through format first same lt lt' between soon
          h =
        let end = a.readings.marking + retention in
        let name = hello_nonce p x a.hello in
        let after = (async_guarded_respond p x me limiter q (some ops) a (l, s)).1.1 in
        let state : after ≡ (take_nonce p x ops a nonce s).1 = ground arith in
        let kept : law.Tracks name end (run ops cs after) =
          run-keeps law name end cs after (rw state (taken-Tracks a nonce s valid first lt lt'))
            between in
        let name' : hello_nonce p x a'.hello ≡ name = rw same refl in
        law.Tracks-mark_used name end retention a'.readings.marking (run ops cs after) kept soon
          (rw (← name') (answered-taken a' l' (run ops cs after) hs h))
