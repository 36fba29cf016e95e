-- ===== src/Handshake/Guarded.antt =====
-- uxsp/core/rate_limit.py: `GuardedHandshake` and `AsyncGuardedHandshake`, which ask a rate limiter before
-- they answer a HELLO. A call that is awaited is one step.
pub mod Limited
pub mod Taken
use Prim.Native.String
use uxsp.Prelude.{
  ℕ, zero, suc, String, Bool, true, false, ◌&&◌, ◌||◌, str_eq, if◌then◌else◌, Option, none, some,
  List,
}
use uxsp.Prelude.Result.{Result, Exec, ok, err, ◌>>=◌, ◌>>◌, guard, value_error}
use uxsp.Prelude.Dict.{Dict, get}
use uxsp.Prelude.Value.{
  Value, Items, null, bool, nil, cons, pos, int, str, arr, obj, empty, other, has_text,
}
use uxsp.Nonce.{NonceStore}
use uxsp.RateLimit.{RateLimiterBase}
use uxsp.Crypto.Parts.{Packages, Coins}
use uxsp.Identity.{Identity, PublicCard}
use uxsp.Session.Sequence.{SessionConfig}
use uxsp.Handshake.Parts.{Library, supported_version, retention, shown}
use uxsp.Handshake.{Handshake, Readings, respond, first_or_expired}

-- What a HELLO comes with: the reading of the limiter, those of `Handshake.respond` and the random bytes.
pub record Attempt : Type 0 where
  pub limiting : ℕ
  pub seen : ℕ
  pub second_marking : ℕ
  pub readings : Readings
  pub coins : Coins
  pub hello : Dict Value
  pub initiator_card : PublicCard
  pub config : Option SessionConfig

-- Python's `v == 1` and `bool(v)` of a value `other n`.
pub record Comparisons : Type 0 where
  pub is_one : ℕ → Bool
  pub is_truthy : ℕ → Bool

-- The default of `ttl_seconds`.
abbrev pub default_ttl : ℕ
default_ttl = 300

-- `DummyStore`
abbrev pub dummy_store : NonceStore (Unit {0})
dummy_store = record {
  mark_used = λ nonce ttl_seconds now s. (ok true, s);
  is_seen = λ nonce now s. (ok false, s);
  cleanup = λ now s. (ok 0, s);
}

module _ (q : Comparisons) where
  -- `v == 1`
  abbrev pub equals_one : Value → Bool
  equals_one (int (pos (suc zero))) = true
  equals_one (bool b) = b
  equals_one (other n) = q.is_one n
  equals_one _ = false

  -- `any(v in ("1", 1) for v in items)`
  unfoldable pub has_version : Items → Bool
  has_version nil = false
  has_version (cons v vs) = (has_text supported_version (some v) || equals_one v) || has_version vs

  abbrev pub supports_version : Option Value → Bool
  supports_version (some (arr vs)) = has_version vs
  supports_version _ = false

  abbrev pub is_legacy : Option Value → Bool
  is_legacy none = false
  is_legacy (some v) = equals_one v

  -- The test of the format.
  unfoldable pub is_hello : Dict Value → Bool
  is_hello hello =
      (has_text "UXSP-HELLO" (get "type" hello)
        && supports_version (get "supported_versions" hello))
      || is_legacy (get "v" hello)

  -- A string that is not empty, from `hello.get("session_id")`.
  abbrev pub session_nonce : Option Value → Result String
  session_nonce (some (str s)) = if str_eq s "" then err value_error else ok s
  session_nonce _ = err value_error

  -- `hello.get("n") or hello.get("session_id")`, which has to be a string that is not empty.
  abbrev pub nonce_from : Option Value → Option Value → Result String
  nonce_from none session_id = session_nonce session_id
  nonce_from (some (str s)) session_id = if str_eq s "" then session_nonce session_id else ok s
  nonce_from (some null) session_id = session_nonce session_id
  nonce_from (some (bool false)) session_id = session_nonce session_id
  nonce_from (some (int (pos zero))) session_id = session_nonce session_id
  nonce_from (some (arr nil)) session_id = session_nonce session_id
  nonce_from (some (obj empty)) session_id = session_nonce session_id
  nonce_from (some (other n)) session_id =
      if q.is_truthy n then err value_error else session_nonce session_id
  nonce_from _ session_id = err value_error

  -- The checks of `AsyncGuardedHandshake.respond` before its store is asked.
  unfoldable pub nonce_of : Dict Value → Result String
  nonce_of hello = do
    guard (is_hello hello) value_error
    nonce_from (get "n" hello) (get "session_id" hello)

abbrev pub unseen_or_error : Result Bool → Result (Unit {0})
unseen_or_error (ok true) = err value_error
unseen_or_error (ok false) = ok tt
unseen_or_error (err e) = err e

abbrev pub done_or_error : Result Bool → Result (Unit {0})
done_or_error (ok b) = ok tt
done_or_error (err e) = err e

module _ (p : Packages) (x : Library) where
  -- `hello.get('session_id')` in a formatted string.
  abbrev pub session_name : Option Value → String
  session_name none = "None"
  session_name (some v) = shown p x v

  -- What `AsyncGuardedHandshake.respond` records first.
  abbrev pub hello_nonce : Dict Value → String
  hello_nonce hello = String.◌++◌ "hello:" (session_name (get "session_id" hello))

  -- The calls of `AsyncGuardedHandshake.respond` on its store, after the second, the first, and all.
  module _ {S : Type 0} (ops : NonceStore S) where
    unfoldable pub take_seen : Attempt → String → Result (Unit {0}) → Exec S (Unit {0})
    take_seen a nonce (err e) s = (err e, s)
    take_seen a nonce (ok u) s =
        let (marked, s') = ops.mark_used nonce default_ttl a.second_marking s in
        (done_or_error marked, s')

    unfoldable pub take_marked : Attempt → String → Result (Unit {0}) → Exec S (Unit {0})
    take_marked a nonce (err e) s = (err e, s)
    take_marked a nonce (ok u) s =
        let (seen, s') = ops.is_seen nonce a.seen s in take_seen a nonce (unseen_or_error seen) s'

    unfoldable pub take_nonce : Attempt → String → Exec S (Unit {0})
    take_nonce a nonce s =
        let (marked, s') = ops.mark_used (hello_nonce a.hello) retention a.readings.marking s in
        take_marked a nonce (first_or_expired marked) s'

  module _ (me : Identity) where
    -- The last step of `AsyncGuardedHandshake.respond`.
    unfoldable pub respond_unguarded : Attempt → Result Handshake
    respond_unguarded a =
        (respond p x dummy_store a.readings a.coins me a.hello a.initiator_card a.config tt).0

    module _ {S : Type 0} where
      -- `GuardedHandshake.respond`, once the limiter has answered.
      unfoldable pub respond_limited : NonceStore S → Attempt → Result (Unit {0}) → Exec S Handshake
      respond_limited ops a (err e) s = (err e, s)
      respond_limited ops a (ok u) s =
          respond p x ops a.readings a.coins me a.hello a.initiator_card a.config s

      -- `None` is an object without a store.
      unfoldable pub respond_taken :
          Option (NonceStore S) → Attempt → Result String → Exec S Handshake
      respond_taken store a (err e) s = (err e, s)
      respond_taken none a (ok nonce) s = (respond_unguarded a, s)
      respond_taken (some ops) a (ok nonce) s =
          let (taken, s') = take_nonce ops a nonce s in (taken >> respond_unguarded a, s')

      unfoldable pub async_limited :
          Comparisons → Option (NonceStore S) → Attempt → Result (Unit {0}) → Exec S Handshake
      async_limited q store a (err e) s = (err e, s)
      async_limited q store a (ok u) s = respond_taken store a (nonce_of q a.hello) s

      module _ {L : Type 0} (limiter : RateLimiterBase L) where
        -- `GuardedHandshake.respond`; the object holds a limiter and a store.
        unfoldable pub guarded_respond : NonceStore S → Attempt → Exec (L × S) Handshake
        guarded_respond ops a (l, s) =
            let (checked, l') = limiter.check a.initiator_card.entity_id a.limiting l in
            let (answered, s') = respond_limited ops a checked s in (answered, (l', s'))

        -- `AsyncGuardedHandshake.respond`
        unfoldable pub async_guarded_respond :
            Comparisons → Option (NonceStore S) → Attempt → Exec (L × S) Handshake
        async_guarded_respond q store a (l, s) =
            let (checked, l') = limiter.check a.initiator_card.entity_id a.limiting l in
            let (answered, s') = async_limited q store a checked s in (answered, (l', s'))
