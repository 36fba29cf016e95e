-- ===== src/Replay/Open/Opened.antt =====
-- uxsp/core/replay.py: what a successful `check_and_open` did, and what a failed one leaves behind.
use uxsp.Prelude.{ℕ, ◌+◌, ◌<◌, ◌≡◌, ◌≢◌, true, false, arith, List, inl, inr, ◌⊎◌}
use uxsp.Prelude.Result.{ok, err, Error, Result-cases}
use uxsp.Crypto.Symmetric.{Bytes}
use uxsp.Crypto.Parts.{Packages, Context}
use uxsp.Crypto.Hybrid.{verify_envelope}
use uxsp.Crypto.Hybrid.Opening.{IsVerified, verify_envelope-IsVerified}
use uxsp.Nonce.{NonceStore}
use uxsp.Nonce.Contract.{IsNonceStore, Call, AllBefore, run, run-keeps}
use uxsp.Replay.{ReplayGuard, Incoming, Normalised, normalise, accept_if}
use uxsp.Replay.Once.{retention}
use uxsp.Replay.Open.{
  Recipient, Sender, Readings, open_options, admitted_sender, mark_and_decrypt, verify_and_decrypt,
  open_unseen, open_admitted, check_and_open,
}

module _ (p : Packages) (g : ReplayGuard) (me : Recipient) (card : Sender) where
  admitted_normalised :
      (now : ℕ) (envelope : Incoming) (d : Normalised)
      → admitted_sender p g me card now envelope ≡ ok d
      → normalise p.to_int envelope ≡ ok d
  unfolding admitted_sender
  admitted_normalised now envelope d h = ground arith

  module _ {S : Type 0} (ops : NonceStore S) (t : Readings) where
    -- The store after the question whether the nonce was seen.
    abbrev pub asked : Normalised → S → S
    asked d s = (ops.is_seen d.envelope_nonce t.seen s).1

    -- What an envelope that was opened passed through.
    pub record IsOpened (envelope : Incoming) (s : S) : Type 0 where
      pub d : Normalised
      pub ctx : Context
      pub normalised : normalise p.to_int envelope ≡ ok d
      pub verified :
          IsVerified p (open_options p g me card) t.verification d.fields card.public_keys ctx
      pub first : (ops.mark_used d.envelope_nonce (retention g) t.marking (asked d s)).0 ≡ ok true
      pub state :
          (check_and_open p g me card ops t envelope s).1
          ≡ (ops.mark_used d.envelope_nonce (retention g) t.marking (asked d s)).1

    pub check_and_open-IsOpened :
        (envelope : Incoming) (s : S) (plain : Bytes)
        → (check_and_open p g me card ops t envelope s).0 ≡ ok plain
        → IsOpened envelope s
    unfolding check_and_open open_admitted open_unseen verify_and_decrypt mark_and_decrypt
    check_and_open-IsOpened envelope s plain h =
        elim (Result-cases (admitted_sender p g me card t.freshness envelope)) [
          | inr (x, e) ↦ absurd (ground arith)
          | inl (d, e) ↦
              elim (Result-cases (accept_if false (ops.is_seen d.envelope_nonce t.seen s).0)) [
                | inr (x, e') ↦ absurd (ground arith)
                | inl (u, e') ↦
                    elim (Result-cases (
                      verify_envelope p (open_options p g me card) t.verification d.fields
                        card.public_keys)) [
                          | inr (x, e'') ↦ absurd (ground arith)
                          | inl (ctx, e'') ↦ record {
                            d = d;
                            ctx = ctx;
                            normalised = admitted_normalised t.freshness envelope d e;
                            verified =
                                verify_envelope-IsVerified p (open_options p g me card)
                                  t.verification d.fields card.public_keys ctx e'';
                            first = ground arith;
                            state = ground arith;
                          }
                        ]
              ]
        ]

    -- An envelope whose signatures do not verify is refused, and its nonce is not recorded: the store
    -- has only been asked whether the nonce was seen.
    pub unverified_unrecorded :
        (envelope : Incoming) (d : Normalised) (s : S) (e : Error)
        → normalise p.to_int envelope ≡ ok d
        → verify_envelope p (open_options p g me card) t.verification d.fields card.public_keys
          ≡ err e
        → ((check_and_open p g me card ops t envelope s).1 ≡ s)
          ⊎ ((check_and_open p g me card ops t envelope s).1 ≡ asked d s)
    unfolding check_and_open open_admitted open_unseen verify_and_decrypt
    unverified_unrecorded envelope d s e n fails =
        elim (Result-cases (admitted_sender p g me card t.freshness envelope)) [
          | inr (x, a) ↦ inl (ground arith)
          | inl (d', a) ↦
              let n' = admitted_normalised t.freshness envelope d' a in
              let same : d' ≡ d = ground arith in
              elim (Result-cases (accept_if false (ops.is_seen d'.envelope_nonce t.seen s).0)) [
                | inr (x, b) ↦ inr (ground arith)
                | inl (u, b) ↦ inr (ground arith)
              ]
        ]

module _ (p : Packages) (g : ReplayGuard) {S : Type 0} {ops : NonceStore S}
    (law : IsNonceStore ops) where
  -- After an envelope was opened under a guard, no envelope with the same nonce is opened under it, for
  -- this recipient or another, from this sender or another, while the recording of its nonce would come
  -- within the retention time of the first, whatever calls the store gets in between before that end: a
  -- well-formed state of a store that meets the contract of a nonce store.
  pub opened_once :
      (me me' : Recipient) (card card' : Sender) (t t' : Readings) (env env' : Incoming)
      (d d' : Normalised) (s : S) (cs : List Call) (plain plain' : Bytes)
      → law.IsValid s
      → normalise p.to_int env ≡ ok d
      → normalise p.to_int env' ≡ ok d'
      → d.envelope_nonce ≡ d'.envelope_nonce
      → (check_and_open p g me card ops t env s).0 ≡ ok plain
      → AllBefore (t.marking + retention g) cs
      → t'.seen < t.marking + retention g
      → t'.marking < t.marking + retention g
      → (check_and_open p g me' card' ops t' env'
          (run ops cs (check_and_open p g me card ops t env s).1)).0
        ≢ ok plain'
  opened_once me me' card card' t t' env env' d d' s cs plain plain' valid n n' same opened before
        asks marks again =
      let a = check_and_open-IsOpened p g me card ops t env s plain opened in
      let s' = run ops cs (check_and_open p g me card ops t env s).1 in
      let b = check_and_open-IsOpened p g me' card' ops t' env' s' plain' again in
      let end = t.marking + retention g in
      let nonce = a.d.envelope_nonce in
      let one_nonce : b.d.envelope_nonce ≡ nonce =
        ground (arith, n, n', same, a.normalised, b.normalised) in
      let recorded =
        law.mark_used-Tracks nonce (retention g) t.marking (asked p g me card ops t a.d s)
          (law.is_seen-IsValid nonce t.seen s valid) a.first in
      let kept : law.Tracks nonce end s' =
        run-keeps law nonce end cs (check_and_open p g me card ops t env s).1 (rw a.state recorded)
          before in
      let after_question = law.is_seen-keeps nonce nonce end t'.seen s' kept asks in
      law.Tracks-mark_used nonce end (retention g) t'.marking (ops.is_seen nonce t'.seen s').1
        after_question marks (rw (← one_nonce) b.first)
