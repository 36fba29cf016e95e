-- ===== src/Identity/Delivery.antt =====
-- uxsp/core/identity.py: what one identity seals for another, the other opens, and opens once.
use uxsp.Prelude.{
  ℕ, ◌+◌, ◌≤◌, ◌≡◌, String, true, false, str_eq, str_eq_iff, length, some, arith, [], inl, inr,
}
use uxsp.Prelude.Result.{ok, Result-cases}
use uxsp.Prelude.Dict.{Dict, get}
use uxsp.Prelude.Value.{ℤ, pos, Value, int}
use uxsp.Nonce.{NonceStore}
use uxsp.Envelope.{Envelope, to_dict, from_dict, string_field, all_present}
use uxsp.Replay.{
  ReplayGuard, instance_of, mapping, normalise, check_freshness_normalised, admitted, precheck,
  commit,
}
use uxsp.Replay.Freshness.{normalise-instance_of}
use uxsp.Crypto.Symmetric.{Bytes, nonce_size}
use uxsp.Crypto.Parts.{Packages, OpenOptions, Context}
use uxsp.Crypto.Hybrid.{seal, open_seal, verify_envelope, decrypt_verified_envelope}
use uxsp.Crypto.Hybrid.Exchange.{Seed, IsKeypair}
use uxsp.Crypto.Hybrid.Sealing.{IsAccepted, open_seal-seal, sealed_fields}
use uxsp.Identity.{
  Texts, PublicCard, Identity, Sealing, Readings, verify_validity, seal_for, addressed,
  open_options, commit_and_decrypt, verify_and_commit, open_addressed, open_from,
}

-- The time stamp `ts` is acceptable at the reading `now`.
abbrev pub IsTimely : ReplayGuard → ℕ → ℕ → Type 0
IsTimely g ts now = (now ≤ ts + g.window) × (ts ≤ now + g.clock_skew)

module _ (x : Texts) (p : Packages) where
  -- An envelope that is read back from its own dictionary is the same.
  pub from_dict_same :
      (dumped_length : Dict Value → ℕ) (limit : ℕ) (e e' : Envelope)
      → p.to_int (int e.timestamp) ≡ ok e.timestamp
      → from_dict p.to_int dumped_length (to_dict e) limit ≡ ok e'
      → e ≡ e'
  unfolding from_dict to_dict string_field all_present get
  from_dict_same dumped_length limit e e' i h = ground arith

  -- `seal_for` returns what `seal` sealed, for a valid card.
  pub seal_for-seal :
      (dumped_length : Dict Value → ℕ) (limit now : ℕ) (r : Sealing) (plaintext : Bytes)
      (card : PublicCard) (me : Identity) (env : Envelope)
      → ((ts : ℤ) → p.to_int (int ts) ≡ ok ts)
      → seal_for x p dumped_length limit now r plaintext card me ≡ ok env
      → seal p r.coins r.nonce r.envelope_random r.timestamp plaintext me.keypair card.public_keys
          me.entity_id card.entity_id []
        ≡ ok env
  unfolding seal_for
  seal_for-seal dumped_length limit now r plaintext card me env i h =
      elim (Result-cases (
        seal p r.coins r.nonce r.envelope_random r.timestamp plaintext me.keypair card.public_keys
          me.entity_id card.entity_id [])) [
            | inr (e, a) ↦ absurd (ground arith)
            | inl (raw, a) ↦
                ground (arith, a, from_dict_same dumped_length limit raw env (i raw.timestamp))
          ]

  -- What `open_seal` found on the way.
  opened_context :
      (o : OpenOptions) (now : ℕ) (d : Dict Value) (keypair : Dict (Dict Bytes)) (keys : Dict Bytes)
      (ad plain : Bytes)
      → open_seal p o now d keypair keys ad ≡ ok plain
      → (ctx : Context) × (verify_envelope p o now d keys ≡ ok ctx)
        × (decrypt_verified_envelope p ctx keypair ad ≡ ok plain)
  unfolding open_seal
  opened_context o now d keypair keys ad plain h =
      elim (Result-cases (verify_envelope p o now d keys)) [
        | inr (e, a) ↦ absurd (ground arith)
        | inl (ctx, a) ↦ (ctx, a, ground arith)
      ]

  normalise-mapping :
      (e : Envelope)
      → ((ts : ℤ) → p.to_int (int ts) ≡ ok ts)
      → str_eq e.envelope_nonce "" ≡ false
      → normalise p.to_int (mapping (to_dict e))
        ≡ ok (record {
          fields = to_dict e;
          timestamp = e.timestamp;
          envelope_nonce = e.envelope_nonce;
        })
  unfolding normalise
  normalise-mapping e i h = normalise-instance_of p.to_int i e h

  timely_admitted :
      (g : ReplayGuard) (ts now : ℕ) (e : Envelope)
      → ((n : ℤ) → p.to_int (int n) ≡ ok n)
      → str_eq e.envelope_nonce "" ≡ false
      → e.timestamp ≡ pos ts
      → IsTimely g ts now
      → admitted p.to_int g now (mapping (to_dict e))
        ≡ ok (record {
          fields = to_dict e;
          timestamp = e.timestamp;
          envelope_nonce = e.envelope_nonce;
        })
  unfolding admitted check_freshness_normalised
  timely_admitted g ts now e i h t timely = ground (arith, normalise-mapping e i h, t, timely)

  addressed_sealed :
      (now : ℕ) (g : ReplayGuard) (card : PublicCard) (e : Envelope) (me : Identity)
      → verify_validity x now card ≡ ok tt
      → e.recipient_id ≡ me.entity_id
      → e.sender_id ≡ card.entity_id
      → addressed x p now (some g) card (instance_of e) me ≡ ok (g, to_dict e)
  unfolding addressed verify_validity to_dict get
  addressed_sealed now g card e me valid r s = ground (
    arith,
    valid,
    r,
    s,
    str_eq_iff me.entity_id me.entity_id,
    str_eq_iff card.entity_id card.entity_id,
  )

  IsTimely-IsAccepted :
      (g : ReplayGuard) (ts now : ℕ) (card : PublicCard) (me : Identity)
      (sender_id recipient_id : String)
      → card.entity_id ≡ sender_id
      → recipient_id ≡ me.entity_id
      → IsTimely g ts now
      → IsAccepted p (open_options g card me) now (pos ts) sender_id recipient_id
  IsTimely-IsAccepted g ts now card me sender_id recipient_id e e' t = record {
    recent = ground (arith, t);
    not_ahead = ground (arith, t);
    recipient = ground (arith, str_eq_iff recipient_id me.entity_id);
    sender = ground (arith, str_eq_iff sender_id card.entity_id);
  }

  module _ {S : Type 0} (ops : NonceStore S) (g : ReplayGuard) (me you : Identity)
      (card_me card_you : PublicCard) (rs rr : Seed) where
    -- What one identity seals for the card of another, the other opens with the sender's card to the
    -- same plaintext: both key pairs were generated and the cards hold their public keys, the sender's
    -- card is valid, the time stamp is acceptable at each of the three readings, the store has not seen
    -- the nonce and takes it, and `int` answers an integer with itself.
    pub delivered :
        (dumped_length : Dict Value → ℕ) (limit now : ℕ) (r : Sealing) (plaintext : Bytes)
        (env : Envelope) (t : Readings) (s : S)
        → ((ts : ℤ) → p.to_int (int ts) ≡ ok ts)
        → IsKeypair p me.keypair card_me.public_keys rs
        → IsKeypair p you.keypair card_you.public_keys rr
        → card_me.entity_id ≡ me.entity_id
        → card_you.entity_id ≡ you.entity_id
        → length r.nonce ≡ nonce_size
        → str_eq (p.to_hex r.envelope_random) "" ≡ false
        → verify_validity x t.validity card_me ≡ ok tt
        → IsTimely g r.timestamp t.precheck
        → IsTimely g r.timestamp t.verification
        → IsTimely g r.timestamp t.commit
        → seal_for x p dumped_length limit now r plaintext card_you me ≡ ok env
        → (ops.is_seen env.envelope_nonce t.seen s).0 ≡ ok false
        → (ops.mark_used env.envelope_nonce
            (g.window + g.clock_skew)
            t.marking
            (ops.is_seen env.envelope_nonce t.seen s).1).0
          ≡ ok true
        → (open_from x p ops t (some g) card_me (instance_of env) you s).0 ≡ ok plaintext
    unfolding open_from open_addressed verify_and_commit commit_and_decrypt precheck commit
    delivered dumped_length limit now r plaintext env t s i km ky em ey n named valid t1 t2 t3
          sealed unseen first =
        let raw = seal_for-seal dumped_length limit now r plaintext card_you me env i sealed in
        let (from, to, stamp, nonce) =
          sealed_fields p r.coins r.nonce r.envelope_random plaintext [] r.timestamp me.keypair
            card_you.public_keys me.entity_id card_you.entity_id env raw in
        let opened =
          open_seal-seal p r.coins r.nonce r.envelope_random plaintext [] r.timestamp t.verification
            me.keypair you.keypair card_me.public_keys card_you.public_keys rs rr me.entity_id
            card_you.entity_id (open_options g card_me you) env km ky n named (i (pos r.timestamp))
            (IsTimely-IsAccepted g r.timestamp t.verification card_me you me.entity_id
              card_you.entity_id em ey t2)
            raw in
        let (ctx, verified, decrypted) =
          opened_context (open_options g card_me you) t.verification (to_dict env) you.keypair
            card_me.public_keys [] plaintext opened in
        let fresh_nonce : str_eq env.envelope_nonce "" ≡ false = rw nonce named in
        ground (
          arith,
          addressed_sealed t.validity g card_me env you valid (cc (to, ey)) (cc (from, em)),
          timely_admitted g r.timestamp t.precheck env i fresh_nonce stamp t1,
          timely_admitted g r.timestamp t.commit env i fresh_nonce stamp t3,
          verified,
          decrypted,
          unseen,
          first,
        )
