-- ===== src/Trust/Trusted.antt =====
-- uxsp/core/signing.py: which cards `TrustStore.verify` lets through.
use uxsp.Prelude.{
  ℕ, ◌≤◌, ◌≡◌, refl, String, true, false, str_eq_iff, arith, Option, none, some, Option-cases, [],
  ◌∷◌, inl, inr,
}
use uxsp.Prelude.Result.{ok}
use uxsp.Prelude.Dict.{Dict, get}
use uxsp.Prelude.Value.{pos, str}
use uxsp.Crypto.Symmetric.{Bytes}
use uxsp.Crypto.Parts.{Packages, bind_fields}
use uxsp.Crypto.Hybrid.{hybrid_verify}
use uxsp.Crypto.Hybrid.Signed.{
  IsClassical, IsPostQuantum, accepted-IsClassical, accepted-IsPostQuantum, hybrid_verify-both,
}
use uxsp.Identity.{PublicCard}
use uxsp.Trust.{
  PublicAnchor, SignedCard, TrustStore, is_entity, signatures_of, card_signable, verify,
}
use uxsp.Trust.Verified.{HasPassed, verify-HasPassed, HasPassed-verify}

module _ (p : Packages) where
  -- The message that binds the fields of a card with its window and its identifier.
  pub record IsSignable (card : PublicCard) (not_before not_after : ℕ) (cert_id : String)
      (message : Bytes) : Type 0 where
    pub exchange_pub : Bytes
    pub kem_pub : Bytes
    pub signing_pub : Bytes
    pub pqc_sig_pub : Bytes
    pub exchange_key : get "exchange_pub" card.public_keys ≡ some exchange_pub
    pub kem_key : get "kem_pub" card.public_keys ≡ some kem_pub
    pub signing_key : get "signing_pub" card.public_keys ≡ some signing_pub
    pub pqc_sig_key : get "pqc_sig_pub" card.public_keys ≡ some pqc_sig_pub
    pub bound :
        bind_fields (
          p.encode card.entity_id
          ∷ p.encode card.name
          ∷ p.encode card.role
          ∷ p.encode card.created_at
          ∷ exchange_pub
          ∷ kem_pub
          ∷ signing_pub
          ∷ pqc_sig_pub
          ∷ p.encode (p.show (pos card.key_version))
          ∷ p.encode (p.show (pos not_before))
          ∷ p.encode (p.show (pos not_after))
          ∷ p.encode cert_id
          ∷ [])
        ≡ ok message

  -- Why a card is trusted: its issuer is an anchor of the store, no revocation of it is stored, it is
  -- the expected entity's, the time is in its window, and the message that binds its fields has its two
  -- signatures under the anchor's keys.
  pub record IsTrusted (s later : TrustStore) (t : ℕ) (expected : Option String) (c : SignedCard)
      : Type 0 where
    pub anchor : PublicAnchor
    pub found : get c.issuer_id s.anchors ≡ some anchor
    pub not_revoked : get c.cert_id later.revoked_certs ≡ none
    pub entity : (e : String) → expected ≡ some e → c.card.entity_id ≡ e
    pub begun : c.not_before ≤ t
    pub not_over : t ≤ c.not_after
    pub message : Bytes
    pub signable : IsSignable c.card c.not_before c.not_after c.cert_id message
    pub classical : IsClassical p message c.classical_sig anchor.public_keys
    pub post_quantum : IsPostQuantum p message c.pqc_sig anchor.public_keys

  card_signable-IsSignable :
      (card : PublicCard) (nb na : ℕ) (cid : String) (m : Bytes)
      → card_signable p card nb na cid ≡ ok m
      → IsSignable card nb na cid m
  unfolding card_signable
  card_signable-IsSignable card nb na cid m h =
      elim (Option-cases (get "exchange_pub" card.public_keys)) [
        | inl a ↦ absurd (ground (arith, a, h))
        | inr (k0, a) ↦ elim (Option-cases (get "kem_pub" card.public_keys)) [
          | inl b ↦ absurd (ground (arith, a, b, h))
          | inr (k1, b) ↦ elim (Option-cases (get "signing_pub" card.public_keys)) [
            | inl d ↦ absurd (ground (arith, a, b, d, h))
            | inr (k2, d) ↦ elim (Option-cases (get "pqc_sig_pub" card.public_keys)) [
              | inl e ↦ absurd (ground (arith, a, b, d, e, h))
              | inr (k3, e) ↦ record {
                exchange_pub = k0;
                kem_pub = k1;
                signing_pub = k2;
                pqc_sig_pub = k3;
                exchange_key = a;
                kem_key = b;
                signing_key = d;
                pqc_sig_key = e;
                bound = ground (arith, a, b, d, e, h);
              }
            ]
          ]
        ]
      ]

  IsSignable-card_signable :
      (card : PublicCard) (nb na : ℕ) (cid : String) (m : Bytes)
      → IsSignable card nb na cid m
      → card_signable p card nb na cid ≡ ok m
  unfolding card_signable
  IsSignable-card_signable card nb na cid m h =
      rw (h.exchange_key, h.kem_key, h.signing_key, h.pqc_sig_key) h.bound

  -- The two signatures of a card, in hexadecimal, are its own.
  own_hex :
      (k : String) (b sig : Bytes)
      → (s : String) × (some (str (p.to_hex b)) ≡ some (str s)) × (p.from_hex s ≡ ok sig)
      → sig ≡ b
  own_hex k b sig (s, e, h) =
      let same : p.to_hex b ≡ s = ground (arith, e) in ground (arith, same, h, p.from_hex-to_hex b)

  signed-both :
      (m cs qs : Bytes) (keys : Dict Bytes)
      → hybrid_verify p m (signatures_of p cs qs) keys false ≡ ok true
      → IsClassical p m cs keys × IsPostQuantum p m qs keys
  unfolding get
  signed-both m cs qs keys h =
      let (c, hex, classical) = accepted-IsClassical p m (signatures_of p cs qs) keys false h in
      let (q, hex', pqc) = accepted-IsPostQuantum p m (signatures_of p cs qs) keys h in
      let same : c ≡ cs = own_hex "classical_sig" cs c hex in
      let same' : q ≡ qs = own_hex "pqc_sig" qs q hex' in (rw (← same) classical, rw (← same') pqc)

  both-signed :
      (m cs qs : Bytes) (keys : Dict Bytes)
      → IsClassical p m cs keys
      → IsPostQuantum p m qs keys
      → hybrid_verify p m (signatures_of p cs qs) keys false ≡ ok true
  unfolding get
  both-signed m cs qs keys a b =
      hybrid_verify-both p m cs qs (signatures_of p cs qs) keys
        (p.to_hex cs, refl, p.from_hex-to_hex cs) (p.to_hex qs, refl, p.from_hex-to_hex qs) a b

  entity_of :
      (expected : Option String) (i : String)
      → is_entity expected i ≡ true
      → (e : String) → expected ≡ some e
      → i ≡ e
  entity_of none i h e same = absurd (cc same)
  entity_of (some x) i h e same = ground (arith, same, h, str_eq_iff i x)

  of_entity :
      (expected : Option String) (i : String)
      → ((e : String) → expected ≡ some e → i ≡ e)
      → is_entity expected i ≡ true
  of_entity none i h = refl
  of_entity (some x) i h = (str_eq_iff i x).1 (h x refl)

  HasPassed-IsTrusted :
      (s later : TrustStore) (t : ℕ) (expected : Option String) (c : SignedCard)
      → HasPassed p s later t expected c
      → IsTrusted s later t expected c
  HasPassed-IsTrusted s later t expected c h =
      let (classical, pqc) =
        signed-both h.message c.classical_sig c.pqc_sig h.anchor.public_keys h.signed in
      record {
        anchor = h.anchor;
        found = h.found;
        not_revoked = ground (arith, h.not_revoked);
        entity = entity_of expected c.card.entity_id h.entity;
        begun = h.begun;
        not_over = h.not_over;
        message = h.message;
        signable =
            card_signable-IsSignable c.card c.not_before c.not_after c.cert_id h.message h.bound;
        classical = classical;
        post_quantum = pqc;
      }

  IsTrusted-HasPassed :
      (s later : TrustStore) (t : ℕ) (expected : Option String) (c : SignedCard)
      → IsTrusted s later t expected c
      → HasPassed p s later t expected c
  IsTrusted-HasPassed s later t expected c h = record {
    anchor = h.anchor;
    found = h.found;
    not_revoked = ground (arith, h.not_revoked);
    entity = of_entity expected c.card.entity_id h.entity;
    begun = h.begun;
    not_over = h.not_over;
    message = h.message;
    bound = IsSignable-card_signable c.card c.not_before c.not_after c.cert_id h.message h.signable;
    signed =
        both-signed h.message c.classical_sig c.pqc_sig h.anchor.public_keys h.classical
          h.post_quantum;
  }

  -- `verify` returns the card of a signed card exactly if that is trusted: its issuer is an anchor of the
  -- store, no revocation of its identifier is stored, it is the expected entity's if one is expected, the
  -- time is in its window, both bounds included, and both its signatures verify under the anchor's keys, of the
  -- message that binds the card's entity, name, role, creation, four public keys and key version, the bounds of
  -- the window and the identifier, in this order.
  pub verify-iff-IsTrusted :
      (s later : TrustStore) (t : ℕ) (expected : Option String) (c : SignedCard) (card : PublicCard)
      → (verify p s later t expected c ≡ ok card → (card ≡ c.card) × IsTrusted s later t expected c)
        × (IsTrusted s later t expected c → verify p s later t expected c ≡ ok c.card)
  verify-iff-IsTrusted s later t expected c card = (
    (λ h.
        let (same, passed) = verify-HasPassed p s later t expected c card h in
        (same, HasPassed-IsTrusted s later t expected c passed)),
    (λ h. HasPassed-verify p s later t expected c (IsTrusted-HasPassed s later t expected c h)),
  )
