-- ===== src/Secure/Opened.antt =====
-- uxsp/secure/_engine.py: what was sealed chunk by chunk opens, and an envelope is read back from its dictionary.
use uxsp.Prelude.{ℕ, ◌+◌, ◌≡◌, refl, String, length, ==_iff, List, [], ◌∷◌, arith, inl, inr}
use uxsp.Prelude.Result.{ok, Result-cases}
use uxsp.Prelude.Dict.{Dict, get}
use uxsp.Prelude.Value.{ℤ, Value, int, str}
use uxsp.Envelope.{Envelope, to_dict, from_dict}
use uxsp.Crypto.Symmetric.{Bytes, encrypt, decrypt, key_size, nonce_size}
use uxsp.Crypto.Parts.{Packages}
use uxsp.Crypto.Hybrid.{seal}
use uxsp.Identity.{Texts, Identity, PublicCard, Sealing, seal_for}
use uxsp.Identity.Delivery.{from_dict_same}
use uxsp.Secure.Parts.{chunk_ad, seal_chunks, open_chunks}

module _ (p : Packages) where
  -- Chunks that were sealed under a key open under it, in their order.
  pub open_chunks-seal_chunks :
      (nonce : String) (key : Bytes) (chunk_nonce : ℕ → Bytes) (seq : ℕ) (cs : List Bytes)
      (ds : List (Dict Value))
      → length key ≡ key_size
      → ((i : ℕ) → length (chunk_nonce i) ≡ nonce_size)
      → seal_chunks p nonce key chunk_nonce seq cs ≡ ok ds
      → open_chunks p nonce key seq ds ≡ ok cs
  unfolding seal_chunks open_chunks encrypt decrypt get
  open_chunks-seal_chunks nonce key chunk_nonce seq [] ds k n h =
      let same : ds ≡ [] = cc h in rw same refl
  open_chunks-seal_chunks nonce key chunk_nonce seq (c ∷ cs) ds k n h =
      elim (Result-cases (seal_chunks p nonce key chunk_nonce (seq + 1) cs)) [
        | inr (e, a) ↦ absurd (ground (arith, ==_iff (length key) key_size, k, a, h))
        | inl (rest, a) ↦
            let ciphertext = p.aes.encrypt key (chunk_nonce seq) c (chunk_ad p nonce seq) in
            let sealed : Dict Value =
              ("c", str (p.to_hex ciphertext)) ∷ ("n", str (p.to_hex (chunk_nonce seq))) ∷ [] in
            let same : ds ≡ sealed ∷ rest = ground (arith, ==_iff (length key) key_size, k, a, h) in
            let back =
              p.aes.decrypt-encrypt key (chunk_nonce seq) c (chunk_ad p nonce seq) k (n seq) in
            let ih = open_chunks-seal_chunks nonce key chunk_nonce (seq + 1) cs rest k n a in
            rw same (
              ground (
                arith,
                p.from_hex-to_hex ciphertext,
                p.from_hex-to_hex (chunk_nonce seq),
                ==_iff (length key) key_size,
                k,
                ==_iff (length (chunk_nonce seq)) nonce_size,
                n seq,
                back,
                ih,
              ))
      ]

module _ (x : Texts) (p : Packages) (dumped_length : Dict Value → ℕ) (limit : ℕ) where
  -- What `seal_for` returned is read back from its dictionary.
  pub from_dict-seal_for :
      (now : ℕ) (r : Sealing) (plaintext : Bytes) (card : PublicCard) (me : Identity)
      (env : Envelope)
      → ((ts : ℤ) → p.to_int (int ts) ≡ ok ts)
      → seal_for x p dumped_length limit now r plaintext card me ≡ ok env
      → from_dict p.to_int dumped_length (to_dict env) limit ≡ ok env
  unfolding seal_for
  from_dict-seal_for now r plaintext card me env i h =
      elim (Result-cases (
        seal p r.coins r.nonce r.envelope_random r.timestamp plaintext me.keypair card.public_keys
          me.entity_id card.entity_id [])) [
            | inr (e, a) ↦ absurd (ground arith)
            | inl (raw, a) ↦
                let read : from_dict p.to_int dumped_length (to_dict raw) limit ≡ ok env =
                  ground (arith, a) in
                ground (
                  arith,
                  read,
                  from_dict_same x p dumped_length limit raw env (i raw.timestamp) read,
                )
          ]
