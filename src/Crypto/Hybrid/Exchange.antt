-- ===== src/Crypto/Hybrid/Exchange.antt =====
-- uxsp/crypto/hybrid.py: both sides of the hybrid exchange compute the same key, and what a pair signs
-- verifies under its public keys.
use uxsp.Prelude.{◌≡◌, String, true, false, some, [], ◌∷◌, ◌++◌, arith, inl, inr}
use uxsp.Prelude.Result.{ok, item, Result-cases}
use uxsp.Prelude.Dict.{Dict, get}
use uxsp.Prelude.Value.{Value, str, pos}
use uxsp.Crypto.Symmetric.{Bytes}
use uxsp.Crypto.Kdf.{derive_key}
use uxsp.Crypto.Asymmetric.{
  compute_shared_secret, sign, verify, generate_exchange_keypair, generate_signing_keypair,
}
use uxsp.Crypto.Pqc.{
  encapsulate, decapsulate, pqc_sign, pqc_verify, generate_kem_keypair, generate_sig_keypair,
}
use uxsp.Crypto.Parts.{Packages, Coins, ExchangeResult}
use uxsp.Crypto.Hybrid.{
  hybrid_sender_exchange, hybrid_recipient_exchange, recipient_secrets, hybrid_sign, hybrid_verify,
  generate_hybrid_keypair, extract_public_keys, private_key_of,
}

-- The random bytes that a key pair was made of.
pub record Seed : Type 0 where
  pub exchange : Bytes
  pub kem : Bytes
  pub signing : Bytes
  pub pqc_sig : Bytes

module _ (p : Packages) where
  -- A pair that `generate_hybrid_keypair` made, and the public keys that were extracted from it.
  pub record IsKeypair (keypair : Dict (Dict Bytes)) (public : Dict Bytes) (r : Seed) : Type 0 where
    pub generated : generate_hybrid_keypair p r.exchange r.kem r.signing r.pqc_sig ≡ ok keypair
    pub extracted : extract_public_keys keypair ≡ ok public

  -- What a generated pair holds.
  pub keypair_keys :
      (keypair : Dict (Dict Bytes)) (public : Dict Bytes) (r : Seed)
      → IsKeypair keypair public r
      → (private_key_of "exchange" keypair ≡ ok (p.curves.x25519_keypair r.exchange).1)
        × (private_key_of "kem" keypair ≡ ok (p.oqs.kem_keypair p.algorithms.kem r.kem).1)
        × (item "exchange_pub" public ≡ ok (p.curves.x25519_keypair r.exchange).0)
        × (item "kem_pub" public ≡ ok (p.oqs.kem_keypair p.algorithms.kem r.kem).0)
  unfolding generate_hybrid_keypair extract_public_keys generate_exchange_keypair
      generate_kem_keypair generate_sig_keypair generate_signing_keypair get
  keypair_keys keypair public r k = ground (arith, k.generated, k.extracted)

  pub signing_keys :
      (keypair : Dict (Dict Bytes)) (public : Dict Bytes) (r : Seed)
      → IsKeypair keypair public r
      → (private_key_of "signing" keypair ≡ ok (p.curves.ed25519_keypair r.signing).1)
        × (private_key_of "pqc_sig" keypair ≡ ok (p.oqs.sig_keypair p.algorithms.sig r.pqc_sig).1)
        × (item "signing_pub" public ≡ ok (p.curves.ed25519_keypair r.signing).0)
        × (item "pqc_sig_pub" public ≡ ok (p.oqs.sig_keypair p.algorithms.sig r.pqc_sig).0)
  unfolding generate_hybrid_keypair extract_public_keys generate_exchange_keypair
      generate_kem_keypair generate_sig_keypair generate_signing_keypair get
  signing_keys keypair public r k = ground (arith, k.generated, k.extracted)

  -- What the sender of an exchange computed.
  record IsSent (public_exchange public_kem : Bytes) (coins : Coins) (e : ExchangeResult)
      : Type 0 where
    classical : Bytes
    secret : Bytes
    ephemeral : e.ephemeral_pub ≡ (p.curves.x25519_keypair coins.ephemeral).0
    exchanged :
        p.curves.x25519_exchange (p.curves.x25519_keypair coins.ephemeral).1 public_exchange
        ≡ ok classical
    encapsulated :
        encapsulate p.oqs p.algorithms public_kem coins.kem ≡ ok (e.kem_ciphertext, secret)
    derived :
        derive_key p.hkdf
          (classical ++ secret)
          (pos 32)
          (some e.ephemeral_pub)
          (p.encode "UXSP-hybrid-key-exchange-v1")
        ≡ ok e.shared_key

  sender_exchange-IsSent :
      (public : Dict Bytes) (exchange_pub kem_pub : Bytes) (coins : Coins) (e : ExchangeResult)
      → item "exchange_pub" public ≡ ok exchange_pub
      → item "kem_pub" public ≡ ok kem_pub
      → hybrid_sender_exchange p public coins ≡ ok e
      → IsSent exchange_pub kem_pub coins e
  unfolding hybrid_sender_exchange compute_shared_secret
  sender_exchange-IsSent public exchange_pub kem_pub coins e h h' sent =
      let eph = p.curves.x25519_keypair coins.ephemeral in
      elim (Result-cases (p.curves.x25519_exchange eph.1 exchange_pub)) [
        | inr (x, r) ↦ absurd (ground arith)
        | inl (classical, r) ↦
            elim (Result-cases (encapsulate p.oqs p.algorithms kem_pub coins.kem)) [
              | inr (x, r') ↦ absurd (ground arith)
              | inl (kem, r') ↦
                  elim (Result-cases (
                    derive_key p.hkdf (classical ++ kem.1) (pos 32) (some eph.0)
                      (p.encode "UXSP-hybrid-key-exchange-v1"))) [
                        | inr (x, r'') ↦ absurd (ground arith)
                        | inl (key, r'') ↦ record {
                          classical = classical;
                          secret = kem.1;
                          ephemeral = ground arith;
                          exchanged = r;
                          encapsulated = ground arith;
                          derived = ground arith;
                        }
                      ]
            ]
      ]

  decapsulate-encapsulate :
      (r coins ciphertext secret : Bytes)
      → encapsulate p.oqs p.algorithms (p.oqs.kem_keypair p.algorithms.kem r).0 coins
        ≡ ok (ciphertext, secret)
      → decapsulate p.oqs p.algorithms ciphertext (p.oqs.kem_keypair p.algorithms.kem r).1
        ≡ ok secret
  unfolding encapsulate decapsulate
  decapsulate-encapsulate r coins ciphertext secret h =
      ground (arith, p.oqs.decap-encap p.algorithms.kem r coins ciphertext secret)

  -- The owner of a generated pair computes, from what the sender of an exchange sends, the key that
  -- the sender computed.
  pub exchange_agrees :
      (keypair : Dict (Dict Bytes)) (public : Dict Bytes) (r : Seed) (coins : Coins)
      (e : ExchangeResult)
      → IsKeypair keypair public r
      → hybrid_sender_exchange p public coins ≡ ok e
      → hybrid_recipient_exchange p e.ephemeral_pub e.kem_ciphertext keypair false ≡ ok e.shared_key
  unfolding hybrid_recipient_exchange recipient_secrets compute_shared_secret
  exchange_agrees keypair public r coins e k sent =
      let (exchange, kem, exchange_pub, kem_pub) = keypair_keys keypair public r k in
      let s = sender_exchange-IsSent public _ _ coins e exchange_pub kem_pub sent in
      ground (
        arith,
        exchange,
        kem,
        s.ephemeral,
        s.exchanged,
        s.derived,
        p.curves.agreement coins.ephemeral r.exchange,
        decapsulate-encapsulate r.kem coins.kem e.kem_ciphertext s.secret s.encapsulated,
      )

  -- The two signatures as a dictionary.
  abbrev pub signature_dict : String × String → Dict Value
  signature_dict sigs = ("classical_sig", str sigs.0) ∷ ("pqc_sig", str sigs.1) ∷ []

  pqc_verify-sign :
      (r message signature : Bytes)
      → pqc_sign p.oqs p.algorithms message (p.oqs.sig_keypair p.algorithms.sig r).1 ≡ ok signature
      → pqc_verify p.oqs p.algorithms message signature (p.oqs.sig_keypair p.algorithms.sig r).0
        ≡ ok true
  unfolding pqc_sign pqc_verify
  pqc_verify-sign r message signature h =
      ground (arith, p.oqs.verify-sign p.algorithms.sig r message signature)

  verify-sign :
      (r message signature : Bytes)
      → sign p.curves message (p.curves.ed25519_keypair r).1 ≡ ok signature
      → verify p.curves message signature (p.curves.ed25519_keypair r).0 ≡ ok true
  unfolding sign verify
  verify-sign r message signature h = ground (arith, p.curves.verify-sign r message signature)

  -- What a generated pair signs, its public keys verify.
  pub hybrid_verify-sign :
      (keypair : Dict (Dict Bytes)) (public : Dict Bytes) (r : Seed) (message : Bytes)
      (sigs : String × String)
      → IsKeypair keypair public r
      → hybrid_sign p message keypair ≡ ok sigs
      → hybrid_verify p message (signature_dict sigs) public false ≡ ok true
  unfolding hybrid_verify hybrid_sign get
  hybrid_verify-sign keypair public r message sigs k signed =
      let (signing, pqc, signing_pub, pqc_pub) = signing_keys keypair public r k in
      elim (Result-cases (sign p.curves message (p.curves.ed25519_keypair r.signing).1)) [
        | inr (x, e) ↦ absurd (ground arith)
        | inl (c, e) ↦
            elim (Result-cases (
              pqc_sign p.oqs p.algorithms message
                (p.oqs.sig_keypair p.algorithms.sig r.pqc_sig).1)) [
                  | inr (x, e') ↦ absurd (ground arith)
                  | inl (q, e') ↦ ground (
                    arith,
                    p.from_hex-to_hex c,
                    p.from_hex-to_hex q,
                    verify-sign r.signing message c e,
                    pqc_verify-sign r.pqc_sig message q e',
                  )
                ]
      ]
