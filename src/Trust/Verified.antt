-- ===== src/Trust/Verified.antt =====
-- uxsp/core/signing.py: the cards that a trust store verifies.
use uxsp.Prelude.{ℕ, ◌+◌, ◌*◌, ◌≤◌, ◌≡◌, refl, String, true, false, arith, Option, some, inl, inr}
use uxsp.Prelude.Result.{ok, Result-cases, untrusted_card}
use uxsp.Prelude.Dict.{Dict, get}
use uxsp.Prelude.Value.{ℤ}
use uxsp.Crypto.Symmetric.{Bytes}
use uxsp.Crypto.Asymmetric.{sign}
use uxsp.Crypto.Pqc.{pqc_sign}
use uxsp.Crypto.Parts.{Packages}
use uxsp.Crypto.Hybrid.{private_key_of, hybrid_sign, hybrid_verify}
use uxsp.Crypto.Hybrid.Exchange.{Seed, IsKeypair, hybrid_verify-sign}
use uxsp.Identity.{Texts, Identity, PublicCard, validate_role, public_card}
use uxsp.Handshake.Parts.{present}
use uxsp.Trust.{
  PublicAnchor, SignedCard, TrustStore, is_revoked, is_entity, default_date, days_of,
  check_time_validity, signatures_of, card_signable, public_anchor, issue, check_signature, verify,
}

module _ (p : Packages) where
  -- What the steps of `verify` found.
  pub record HasPassed (s later : TrustStore) (t : ℕ) (expected : Option String) (c : SignedCard)
      : Type 0 where
    pub anchor : PublicAnchor
    pub found : get c.issuer_id s.anchors ≡ some anchor
    pub not_revoked : is_revoked c.cert_id later ≡ false
    pub entity : is_entity expected c.card.entity_id ≡ true
    pub begun : c.not_before ≤ t
    pub not_over : t ≤ c.not_after
    pub message : Bytes
    pub bound : card_signable p c.card c.not_before c.not_after c.cert_id ≡ ok message
    pub signed :
        hybrid_verify p message (signatures_of p c.classical_sig c.pqc_sig) anchor.public_keys false
        ≡ ok true

  pub verify-HasPassed :
      (s later : TrustStore) (t : ℕ) (expected : Option String) (c : SignedCard) (card : PublicCard)
      → verify p s later t expected c ≡ ok card
      → (card ≡ c.card) × HasPassed s later t expected c
  unfolding verify check_time_validity check_signature
  verify-HasPassed s later t expected c card h =
      elim (Result-cases (present (get c.issuer_id s.anchors) untrusted_card)) [
        | inr (z, a) ↦ absurd (ground arith)
        | inl (anchor, a) ↦
            elim (Result-cases (card_signable p c.card c.not_before c.not_after c.cert_id)) [
              | inr (z, b) ↦ absurd (ground arith)
              | inl (m, b) ↦
                  elim (Result-cases (
                    hybrid_verify p m (signatures_of p c.classical_sig c.pqc_sig) anchor.public_keys
                      false)) [
                        | inr (z, d) ↦ absurd (ground arith)
                        | inl (v, d) ↦ (
                          ground arith,
                          record {
                            anchor = anchor;
                            found = ground arith;
                            not_revoked = ground arith;
                            entity = ground arith;
                            begun = ground arith;
                            not_over = ground arith;
                            message = m;
                            bound = b;
                            signed = ground arith;
                          },
                        )
                      ]
            ]
      ]

  pub HasPassed-verify :
      (s later : TrustStore) (t : ℕ) (expected : Option String) (c : SignedCard)
      → HasPassed s later t expected c
      → verify p s later t expected c ≡ ok c.card
  unfolding verify check_time_validity check_signature
  HasPassed-verify s later t expected c h =
      ground (arith, h.found, h.not_revoked, h.entity, h.begun, h.not_over, h.bound, h.signed)

  -- What `hybrid_sign` returns is hexadecimal.
  hybrid_sign-hex :
      (m : Bytes) (keypair : Dict (Dict Bytes)) (sigs : String × String)
      → hybrid_sign p m keypair ≡ ok sigs
      → (c : Bytes) × (q : Bytes) × (sigs ≡ (p.to_hex c, p.to_hex q))
  unfolding hybrid_sign
  hybrid_sign-hex m keypair sigs h = elim (Result-cases (private_key_of "signing" keypair)) [
    | inr (z, a) ↦ absurd (ground arith)
    | inl (k, a) ↦ elim (Result-cases (sign p.curves m k)) [
      | inr (z, b) ↦ absurd (ground arith)
      | inl (c, b) ↦ elim (Result-cases (private_key_of "pqc_sig" keypair)) [
        | inr (z, d) ↦ absurd (ground arith)
        | inl (k', d) ↦ elim (Result-cases (pqc_sign p.oqs p.algorithms m k')) [
          | inr (z, e) ↦ absurd (ground arith)
          | inl (q, e) ↦ (c, q, ground arith)
        ]
      ]
    ]
  ]

  -- How `issue` made a signed card.
  record IsIssued (now : ℕ) (cid : String) (card : PublicCard) (nb : Option ℕ) (me : Identity)
      (c : SignedCard) : Type 0 where
    days : ℕ
    message : Bytes
    classical : Bytes
    pqc : Bytes
    bound :
        card_signable p card (default_date nb now) (default_date nb now + days * 86400) cid
        ≡ ok message
    signed : hybrid_sign p message me.keypair ≡ ok (p.to_hex classical, p.to_hex pqc)
    shape : c ≡ record {
      card = card;
      cert_id = cid;
      issuer_id = me.entity_id;
      issuer_name = me.name;
      not_before = default_date nb now;
      not_after = default_date nb now + days * 86400;
      classical_sig = classical;
      pqc_sig = pqc;
    }

  issue-IsIssued :
      (now : ℕ) (cid : String) (card : PublicCard) (days : ℤ) (nb : Option ℕ) (me : Identity)
      (c : SignedCard)
      → issue p now cid card days nb me ≡ ok c
      → IsIssued now cid card nb me c
  unfolding issue
  issue-IsIssued now cid card days nb me c h = elim (Result-cases (days_of days)) [
    | inr (z, a) ↦ absurd (ground arith)
    | inl (n, a) ↦
        let begin = default_date nb now in
        elim (Result-cases (card_signable p card begin (begin + n * 86400) cid)) [
          | inr (z, b) ↦ absurd (ground arith)
          | inl (m, b) ↦ elim (Result-cases (hybrid_sign p m me.keypair)) [
            | inr (z, d) ↦ absurd (ground arith)
            | inl (sigs, d) ↦
                let (classical, pqc, hex) = hybrid_sign-hex m me.keypair sigs d in
                record {
                  days = n;
                  message = m;
                  classical = classical;
                  pqc = pqc;
                  bound = b;
                  signed = ground arith;
                  shape = ground (arith, hex, p.from_hex-to_hex classical, p.from_hex-to_hex pqc);
                }
          ]
        ]
  ]

  -- A card that an anchor issued is verified, with its card as the result, by every store that has the
  -- anchor's public form under its identifier, from the first to the last second of the card's window,
  -- unless the card is revoked or another entity is expected: the anchor's keys are a generated pair.
  pub verify-issue :
      (x : Texts) (now made t : ℕ) (cid : String) (card : PublicCard) (days : ℤ) (nb : Option ℕ)
      (me : Identity) (r : Seed) (anchor : PublicAnchor) (c : SignedCard) (s later : TrustStore)
      (expected : Option String)
      → IsKeypair p me.keypair me.public r
      → public_anchor p x made me ≡ ok anchor
      → issue p now cid card days nb me ≡ ok c
      → get anchor.anchor_id s.anchors ≡ some anchor
      → is_revoked cid later ≡ false
      → is_entity expected card.entity_id ≡ true
      → c.not_before ≤ t
      → t ≤ c.not_after
      → verify p s later t expected c ≡ ok card
  unfolding public_anchor public_card
  verify-issue x now made t cid card days nb me r anchor c s later expected k public issued found
        live entity begun over =
      let i = issue-IsIssued now cid card days nb me c issued in
      let verified =
        hybrid_verify-sign p me.keypair me.public r i.message (p.to_hex i.classical, p.to_hex i.pqc)
          k i.signed in
      elim (Result-cases (validate_role x me.role)) [
        | inr (z, a) ↦ absurd (ground arith)
        | inl (role, a) ↦
            let keys : anchor.public_keys ≡ me.public = ground arith in
            let name : anchor.anchor_id ≡ me.entity_id = ground arith in
            let trusted : HasPassed s later t expected c = record {
              anchor = anchor;
              found = rw i.shape (ground (arith, name, found));
              not_revoked = rw i.shape live;
              entity = rw i.shape entity;
              begun = begun;
              not_over = over;
              message = i.message;
              bound = rw i.shape i.bound;
              signed = rw (i.shape, keys) verified;
            } in
            let same : c.card ≡ card = rw i.shape refl in
            rw (← same) (HasPassed-verify s later t expected c trusted)
      ]
