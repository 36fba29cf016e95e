-- ===== src/Crypto/Hybrid/Sealing.antt =====
-- uxsp/crypto/hybrid.py: what `seal` seals, `open_seal` opens.
use uxsp.Prelude.{ℕ, ◌≡◌, refl, String, true, false, str_eq, ==_iff, length, some, arith, inl, inr}
use uxsp.Prelude.Result.{ok, Result-cases}
use uxsp.Prelude.Dict.{Dict, get}
use uxsp.Prelude.Value.{ℤ, pos, str, int}
use uxsp.Envelope.{Envelope, to_dict, all_present, uxsp_version}
use uxsp.Crypto.Symmetric.{Bytes, Sealed, key_size, nonce_size, encrypt, decrypt}
use uxsp.Crypto.Parts.{
  Packages, Coins, ExchangeResult, Context, OpenOptions, is_older, is_ahead, is_expected,
  bind_fields,
}
use uxsp.Crypto.Hybrid.{
  signed_fields, hybrid_sender_exchange, hybrid_sign, decode_fields, require_open_context,
  verify_context, verify_envelope, decrypt_verified_envelope, seal, open_seal,
}
use uxsp.Crypto.Hybrid.Exchange.{Seed, IsKeypair, exchange_agrees, hybrid_verify-sign}

module _ (p : Packages) where
  -- The context that a sealed envelope decodes to.
  abbrev pub sealed_context :
      ℕ → String → String → Bytes → ExchangeResult → Sealed → String × String → Context
  sealed_context ts sender_id recipient_id envelope_random e sealed sigs = record {
    timestamp = pos ts;
    sender_id = sender_id;
    recipient_id = recipient_id;
    envelope_nonce = p.to_hex envelope_random;
    classical_sig = str sigs.0;
    pqc_sig = str sigs.1;
    ciphertext = sealed.ciphertext;
    nonce = sealed.nonce;
    ephemeral_pub = e.ephemeral_pub;
    kem_ciphertext = e.kem_ciphertext;
    is_classical_only = false;
  }

  abbrev sealed_envelope : Context → String × String → Envelope
  sealed_envelope c sigs = record {
    version = uxsp_version;
    sender_id = c.sender_id;
    recipient_id = c.recipient_id;
    timestamp = c.timestamp;
    envelope_nonce = c.envelope_nonce;
    ciphertext = p.to_hex c.ciphertext;
    nonce = p.to_hex c.nonce;
    ephemeral_pub = p.to_hex c.ephemeral_pub;
    kem_ciphertext = p.to_hex c.kem_ciphertext;
    classical_sig = sigs.0;
    pqc_sig = sigs.1;
  }

  module _ (coins : Coins) (nonce envelope_random plaintext ad : Bytes) (ts : ℕ)
      (sender_keypair : Dict (Dict Bytes)) (recipient_public : Dict Bytes)
      (sender_id recipient_id : String) where
    -- How `seal` made an envelope.
    record IsSealed (env : Envelope) : Type 0 where
      exchange : ExchangeResult
      sealed : Sealed
      sigs : String × String
      message : Bytes
      named_sender : str_eq sender_id "" ≡ false
      named_recipient : str_eq recipient_id "" ≡ false
      exchanged : hybrid_sender_exchange p recipient_public coins ≡ ok exchange
      encrypted : encrypt p.aes nonce plaintext exchange.shared_key ad ≡ ok sealed
      bound :
          bind_fields (
            signed_fields p
              (sealed_context ts sender_id recipient_id envelope_random exchange sealed sigs))
          ≡ ok message
      signed : hybrid_sign p message sender_keypair ≡ ok sigs
      shape :
          env
          ≡ sealed_envelope
              (sealed_context ts sender_id recipient_id envelope_random exchange sealed sigs)
              sigs

    seal-IsSealed :
        (env : Envelope)
        → seal p coins nonce envelope_random ts plaintext sender_keypair recipient_public sender_id
            recipient_id ad
          ≡ ok env
        → IsSealed env
    unfolding seal
    seal-IsSealed env h = elim (Result-cases (hybrid_sender_exchange p recipient_public coins)) [
      | inr (x, a) ↦ absurd (ground arith)
      | inl (e, a) ↦ elim (Result-cases (encrypt p.aes nonce plaintext e.shared_key ad)) [
        | inr (x, b) ↦ absurd (ground arith)
        | inl (sealed, b) ↦
            let fields =
              signed_fields p
                (sealed_context ts sender_id recipient_id envelope_random e sealed ("", "")) in
            elim (Result-cases (bind_fields fields)) [
              | inr (x, c) ↦ absurd (ground arith)
              | inl (m, c) ↦ elim (Result-cases (hybrid_sign p m sender_keypair)) [
                | inr (x, d) ↦ absurd (ground arith)
                | inl (sigs, d) ↦ record {
                  exchange = e;
                  sealed = sealed;
                  sigs = sigs;
                  message = m;
                  named_sender = ground arith;
                  named_recipient = ground arith;
                  exchanged = a;
                  encrypted = b;
                  bound = c;
                  signed = d;
                  shape = ground arith;
                }
              ]
            ]
      ]
    ]

    -- The fields of a sealed envelope that its caller chose.
    pub sealed_fields :
        (env : Envelope)
        → seal p coins nonce envelope_random ts plaintext sender_keypair recipient_public sender_id
            recipient_id ad
          ≡ ok env
        → (env.sender_id ≡ sender_id)
          × (env.recipient_id ≡ recipient_id)
          × (env.timestamp ≡ pos ts)
          × (env.envelope_nonce ≡ p.to_hex envelope_random)
    sealed_fields env h = let s = seal-IsSealed env h in ground (arith, s.shape)

  -- A context with all its texts and no version of the envelope that is classical only.
  record IsNamed (c : Context) : Type 0 where
    sender : str_eq c.sender_id "" ≡ false
    recipient : str_eq c.recipient_id "" ≡ false
    envelope_nonce : str_eq c.envelope_nonce "" ≡ false
    hybrid : c.is_classical_only ≡ false

  -- The reader accepts the time stamp and the two parties.
  pub record IsAccepted (o : OpenOptions) (now : ℕ) (ts : ℤ) (sender_id recipient_id : String)
      : Type 0 where
    pub recent : is_older o.max_age_seconds now ts ≡ false
    pub not_ahead : is_ahead o.clock_skew_seconds now ts ≡ false
    pub recipient : is_expected o.expected_recipient_id (some (str recipient_id)) ≡ true
    pub sender : is_expected o.expected_sender_id (some (str sender_id)) ≡ true

  require_open_context-sealed :
      (o : OpenOptions) (now : ℕ) (c : Context) (sigs : String × String)
      → IsNamed c
      → IsAccepted o now c.timestamp c.sender_id c.recipient_id
      → p.to_int (int c.timestamp) ≡ ok c.timestamp
      → require_open_context p o now (to_dict (sealed_envelope c sigs))
        ≡ ok (record c { classical_sig = str sigs.0; pqc_sig = str sigs.1 })
  unfolding require_open_context decode_fields to_dict all_present get
  require_open_context-sealed o now c sigs n a i = ground (
    arith,
    n.sender,
    n.recipient,
    n.envelope_nonce,
    n.hybrid,
    a.recent,
    a.not_ahead,
    a.recipient,
    p.from_hex-to_hex c.ciphertext,
    p.from_hex-to_hex c.nonce,
    p.from_hex-to_hex c.ephemeral_pub,
    p.from_hex-to_hex c.kem_ciphertext,
  )

  decrypt-sealed :
      (nonce plaintext key ad : Bytes) (sealed : Sealed)
      → length nonce ≡ nonce_size
      → encrypt p.aes nonce plaintext key ad ≡ ok sealed
      → decrypt p.aes sealed.ciphertext sealed.nonce key ad ≡ ok plaintext
  unfolding encrypt decrypt
  decrypt-sealed nonce plaintext key ad sealed n h = ground (
    arith,
    ==_iff (length key) key_size,
    ==_iff (length nonce) nonce_size,
    p.aes.decrypt-encrypt key nonce plaintext ad,
  )

  -- What `seal` seals for the owner of a generated pair, signed by another such pair, `open_seal` opens
  -- to the same plaintext: the reader has to accept the time stamp and the parties, the cipher's nonce
  -- has 12 bytes, the envelope's nonce is not empty in hexadecimal, and `int` answers the time stamp
  -- with itself.
  pub open_seal-seal :
      (coins : Coins) (nonce envelope_random plaintext ad : Bytes) (ts now : ℕ)
      (sender_keypair recipient_keypair : Dict (Dict Bytes))
      (sender_public recipient_public : Dict Bytes) (rs rr : Seed) (sender_id recipient_id : String)
      (o : OpenOptions) (env : Envelope)
      → IsKeypair p sender_keypair sender_public rs
      → IsKeypair p recipient_keypair recipient_public rr
      → length nonce ≡ nonce_size
      → str_eq (p.to_hex envelope_random) "" ≡ false
      → p.to_int (int (pos ts)) ≡ ok (pos ts)
      → IsAccepted o now (pos ts) sender_id recipient_id
      → seal p coins nonce envelope_random ts plaintext sender_keypair recipient_public sender_id
          recipient_id ad
        ≡ ok env
      → open_seal p o now (to_dict env) recipient_keypair sender_public ad ≡ ok plaintext
  unfolding open_seal verify_envelope verify_context decrypt_verified_envelope
  open_seal-seal coins nonce envelope_random plaintext ad ts now sender_keypair recipient_keypair
        sender_public recipient_public rs rr sender_id recipient_id o env ks kr n named i a h =
      let s =
        seal-IsSealed coins nonce envelope_random plaintext ad ts sender_keypair recipient_public
          sender_id recipient_id env h in
      let c = sealed_context ts sender_id recipient_id envelope_random s.exchange s.sealed s.sigs in
      let is_named : IsNamed c = record {
        sender = s.named_sender;
        recipient = s.named_recipient;
        envelope_nonce = named;
        hybrid = refl;
      } in
      rw (s.shape, require_open_context-sealed o now c s.sigs is_named a i)
        (ground (
          arith,
          a.sender,
          s.bound,
          hybrid_verify-sign p sender_keypair sender_public rs s.message s.sigs ks s.signed,
          exchange_agrees p recipient_keypair recipient_public rr coins s.exchange kr s.exchanged,
          decrypt-sealed nonce plaintext s.exchange.shared_key ad s.sealed n s.encrypted,
        ))
