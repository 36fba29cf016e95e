-- ===== src/Handshake/Guarded/Limited.antt =====
-- uxsp/core/rate_limit.py: how many HELLOs of one initiator a guarded responder answers.
use uxsp.Prelude.{
  ℕ, ◌+◌, ◌≤◌, ◌≡◌, refl, String, Bool, true, false, str_eq, if◌then◌else◌, arith, List, [], ◌∷◌,
  inl, inr,
}
use uxsp.Prelude.Result.{Result, ok, err, Result-cases}
use uxsp.Prelude.Dict.{IsDistinct}
use uxsp.Nonce.{NonceStore}
use uxsp.RateLimit.{Config, full_key}
use uxsp.RateLimit.Calls.{Call, request, AllWithin}
use uxsp.RateLimit.Sliding.{SlidingRateLimiter, check, sliding_window}
use uxsp.RateLimit.Sliding.Budget.{step, is_admitted, admissions, sliding_admissions-le}
use uxsp.Crypto.Parts.{Packages}
use uxsp.Identity.{Identity}
use uxsp.Handshake.Parts.{Library}
use uxsp.Handshake.{Handshake}
use uxsp.Handshake.Guarded.{Attempt, respond_limited, guarded_respond}

-- What the limiter sees of an attempt.
abbrev pub asked : Attempt → Call
asked a = request a.initiator_card.entity_id a.limiting

unfoldable pub all_asked : List Attempt → List Call
all_asked [] = []
all_asked (a ∷ rest) = asked a ∷ all_asked rest

abbrev answered : Result Handshake → Bool
answered (ok hs) = true
answered (err e) = false

abbrev one_if : Bool → ℕ
one_if b = if b then 1 else 0

module _ (p : Packages) (x : Library) (me : Identity) (c : Config) {S : Type 0}
    (ops : NonceStore S) where
  -- Whether the attempt comes with a card whose full key is `k`, and is answered.
  abbrev pub is_answered : String → Attempt → SlidingRateLimiter × S → Bool
  is_answered k a state =
      if str_eq (full_key c a.initiator_card.entity_id) k
      then answered (guarded_respond p x me (sliding_window c) ops a state).0
      else false

  -- How many attempts with cards of the full key `k` are answered, of a series on one object.
  unfoldable pub answers : String → List Attempt → SlidingRateLimiter × S → ℕ
  answers k [] state = 0
  answers k (a ∷ rest) state =
      one_if (is_answered k a state)
      + answers k rest (guarded_respond p x me (sliding_window c) ops a state).1

  guarded_step :
      (a : Attempt) (l : SlidingRateLimiter) (s : S)
      → (guarded_respond p x me (sliding_window c) ops a (l, s)).1.0 ≡ step c (asked a) l
  unfolding guarded_respond step
  guarded_step a l s = refl

  answered_admitted :
      (k : String) (a : Attempt) (l : SlidingRateLimiter) (s : S)
      → one_if (is_answered k a (l, s)) ≤ one_if (is_admitted c k (asked a) l)
  unfolding guarded_respond respond_limited is_admitted
  answered_admitted k a l s =
      elim (Result-cases (check c a.initiator_card.entity_id a.limiting l).0) [
        | inl (u, e) ↦ ground (arith, e)
        | inr (z, e) ↦ ground (arith, e)
      ]

  answers-admissions :
      (k : String) (rest : List Attempt) (l : SlidingRateLimiter) (s : S)
      → answers k rest (l, s) ≤ admissions c k (all_asked rest) l
  unfolding answers admissions all_asked
  answers-admissions k [] l s = omega arith
  answers-admissions k (a ∷ rest) l s =
      let next = guarded_respond p x me (sliding_window c) ops a (l, s) in
      let now = answered_admitted k a l s in
      let later = answers-admissions k rest next.1.0 next.1.1 in
      let same = guarded_step a l s in ground (arith, now, later, same)

  -- A guarded responder with a sliding-window limiter answers at most `max_requests` HELLOs whose
  -- initiator's card has a given full key, of those that come within a stretch shorter than the window,
  -- from a log without repeated keys on.
  pub guarded_answers-le :
      (k : String) (from : ℕ) (rest : List Attempt) (l : SlidingRateLimiter) (s : S)
      → IsDistinct l.log
      → AllWithin from (from + c.window) (all_asked rest)
      → answers k rest (l, s) ≤ c.max_requests
  guarded_answers-le k from rest l s v b =
      let h = answers-admissions k rest l s in
      let h' = sliding_admissions-le c k from (all_asked rest) l v b in omega arith
