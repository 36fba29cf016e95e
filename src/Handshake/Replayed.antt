-- ===== src/Handshake/Replayed.antt =====
-- uxsp/core/handshake.py: a HELLO is answered at most once.
use Prim.Native.String
use uxsp.Prelude.{
  ℕ, suc, ◌+◌, ◌≤◌, ◌<◌, ◌≡◌, ◌≢◌, refl, String, Bool, true, false, arith, Option, List, [], ◌∷◌,
  inl, inr,
}
use uxsp.Prelude.Result.{Result, ok, err, ◌>>=◌, ◌>>◌, item, Result-cases}
use uxsp.Prelude.Dict.{Dict}
use uxsp.Prelude.Value.{ℤ, pos, negsuc, Value}
use uxsp.Nonce.{NonceStore}
use uxsp.Nonce.Contract.{IsNonceStore, Call, AllBefore, run, nonce_accepted_once}
use uxsp.Crypto.Parts.{Packages, Coins}
use uxsp.Identity.{Identity, PublicCard}
use uxsp.Session.Sequence.{SessionConfig}
use uxsp.Handshake.Parts.{Library, retention, check_age, shown, time_of}
use uxsp.Handshake.Hello.{hello_checked, verify_hello_signature}
use uxsp.Handshake.{
  Handshake, Readings, first_or_expired, answer, hello_admitted, mark_once, respond_admitted,
  respond,
}

AllBefore-weaken : (e e' : ℕ) (cs : List Call) → e ≤ e' → AllBefore e cs → AllBefore e' cs
AllBefore-weaken e e' [] le b = tt
AllBefore-weaken e e' (c ∷ cs) le b = (omega (arith, b.0), AllBefore-weaken e e' cs le b.1)

-- Two readings that both are at most 30 seconds from one time stamp are at most 60 seconds apart.
check_age-near :
    (now now' : ℕ) (ts : ℤ) → check_age now ts ≡ ok tt → check_age now' ts ≡ ok tt → now' ≤ now + 60
check_age-near now now' (pos ts) h h' = ground arith
check_age-near now now' (negsuc n) h h' = ground arith

-- What follows a refused nonce is not reached.
pub first_or_expired-first :
    {A : Type 0} (r : Result Bool) (next : Result A) (a : A)
    → (first_or_expired r >> next) ≡ ok a
    → r ≡ ok true
first_or_expired-first (ok true) next a h = refl
first_or_expired-first (ok false) next a h = absurd (ground arith)
first_or_expired-first (err e) next a h = absurd (ground arith)

module _ (p : Packages) (x : Library) where
  -- The time stamp of a HELLO that was admitted, and the nonce that is recorded for it.
  record IsAdmitted (now : ℕ) (hello : Dict Value) (nonce : String) : Type 0 where
    ts : ℤ
    stamp : (item "timestamp" hello >>= time_of p) ≡ ok ts
    near : check_age now ts ≡ ok tt
    session_value : Value
    id : item "session_id" hello ≡ ok session_value
    named : nonce ≡ String.◌++◌ "hello:" (shown p x session_value)

  hello_checked-age :
      (now : ℕ) (hello : Dict Value) (card : PublicCard) (you : Identity)
      → hello_checked p x now hello card you ≡ ok tt
      → (ts : ℤ) × ((item "timestamp" hello >>= time_of p) ≡ ok ts) × (check_age now ts ≡ ok tt)
  unfolding hello_checked
  hello_checked-age now hello card you h =
      elim (Result-cases (item "timestamp" hello >>= time_of p)) [
        | inr (z, a) ↦ absurd (ground arith)
        | inl (ts, a) ↦ (ts, a, ground arith)
      ]

  verify-checked :
      (now : ℕ) (hello : Dict Value) (card : PublicCard) (you : Identity) (r : (List ℕ) × String)
      → verify_hello_signature p x now hello card you ≡ ok r
      → hello_checked p x now hello card you ≡ ok tt
  unfolding verify_hello_signature
  verify-checked now hello card you r h =
      elim (Result-cases (hello_checked p x now hello card you)) [
        | inr (z, a) ↦ absurd (ground arith)
        | inl (u, a) ↦ a
      ]

  hello_admitted-IsAdmitted :
      (now : ℕ) (you : Identity) (hello : Dict Value) (card : PublicCard) (r : String × String)
      → hello_admitted p x now you hello card ≡ ok r
      → IsAdmitted now hello r.0
  unfolding hello_admitted
  hello_admitted-IsAdmitted now you hello card r h =
      elim (Result-cases (verify_hello_signature p x now hello card you)) [
        | inr (z, a) ↦ absurd (ground arith)
        | inl (v, a) ↦ elim (Result-cases (item "session_id" hello)) [
          | inr (z, b) ↦ absurd (ground arith)
          | inl (sid, b) ↦
              let (ts, stamp, near) =
                hello_checked-age now hello card you (verify-checked now hello card you v a) in
              record {
                ts = ts;
                stamp = stamp;
                near = near;
                session_value = sid;
                id = b;
                named = ground arith;
              }
        ]
      ]

  module _ {S : Type 0} (ops : NonceStore S) where
    -- What the answer to a HELLO did with the store.
    record IsAnswered (t : Readings) (hello : Dict Value) (after s : S) : Type 0 where
      nonce : String
      admitted : IsAdmitted t.verification hello nonce
      first : (ops.mark_used nonce retention t.marking s).0 ≡ ok true
      state : after ≡ (ops.mark_used nonce retention t.marking s).1

    respond-IsAnswered :
        (t : Readings) (coins : Coins) (you : Identity) (hello : Dict Value) (card : PublicCard)
        (config : Option SessionConfig) (s : S) (hs : Handshake)
        → (respond p x ops t coins you hello card config s).0 ≡ ok hs
        → IsAnswered t hello (respond p x ops t coins you hello card config s).1 s
    unfolding respond respond_admitted mark_once
    respond-IsAnswered t coins you hello card config s hs h =
        elim (Result-cases (hello_admitted p x t.verification you hello card)) [
          | inr (z, a) ↦ absurd (ground arith)
          | inl (r, a) ↦ record {
            nonce = r.0;
            admitted = hello_admitted-IsAdmitted t.verification you hello card r a;
            first =
                first_or_expired-first _ (answer p x t coins you hello card config r.1) hs
                  (ground arith);
            state = ground arith;
          }
        ]

  module _ {S : Type 0} {ops : NonceStore S} (law : IsNonceStore ops) where
    -- A HELLO that was answered is not answered a second time, at whatever later time it comes, over a
    -- well-formed store that meets the contract: the store may get any calls in between, not later
    -- than the second marking, the first marking does not come before its verification, and the
    -- second comes less than 30 seconds after its own.
    pub hello_answered_once :
        (t t' : Readings) (coins coins' : Coins) (you : Identity) (hello : Dict Value)
        (card card' : PublicCard) (config config' : Option SessionConfig) (s : S) (cs : List Call)
        (hs hs' : Handshake)
        → law.IsValid s
        → t.verification ≤ t.marking
        → t'.marking < t'.verification + 30
        → AllBefore (suc t'.marking) cs
        → (respond p x ops t coins you hello card config s).0 ≡ ok hs
        → (respond p x ops t' coins' you hello card' config'
            (run ops cs (respond p x ops t coins you hello card config s).1)).0
          ≢ ok hs'
    hello_answered_once t t' coins coins' you hello card card' config config' s cs hs hs' valid
          before prompt between answered again =
        let a = respond-IsAnswered ops t coins you hello card config s hs answered in
        let s' = run ops cs (respond p x ops t coins you hello card config s).1 in
        let b = respond-IsAnswered ops t' coins' you hello card' config' s' hs' again in
        let one_nonce : b.nonce ≡ a.nonce =
          ground (arith, a.admitted.id, b.admitted.id, a.admitted.named, b.admitted.named) in
        let one_stamp : b.admitted.ts ≡ a.admitted.ts =
          ground (arith, a.admitted.stamp, b.admitted.stamp) in
        let apart : t'.verification ≤ t.verification + 60 =
          check_age-near t.verification t'.verification a.admitted.ts a.admitted.near
            (rw (← one_stamp) b.admitted.near) in
        let soon : t'.marking < t.marking + retention = omega (arith, apart, before, prompt) in
        let taken : (ops.mark_used a.nonce retention t'.marking s').0 ≡ ok true =
          rw (← one_nonce) b.first in
        nonce_accepted_once law a.nonce retention t.marking s cs retention t'.marking valid a.first
          (AllBefore-weaken (suc t'.marking) (t.marking + retention) cs soon between) soon
          (rw (← a.state) taken)
