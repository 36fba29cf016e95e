-- ===== src/Secure/Sent.antt =====
-- uxsp/secure/_engine.py: what is sent under one context is received under another.
use uxsp.Prelude.{
  ℕ, ◌+◌, ◌≡◌, sym, subst, String, true, false, str_eq, length, Option, some, [], arith, inl, inr,
  leb, Bool-cases,
}
use uxsp.Prelude.Result.{Result, ok, Result-cases}
use uxsp.Prelude.Dict.{Dict}
use uxsp.Prelude.Value.{ℤ, Value, int, str}
use uxsp.Nonce.{NonceStore}
use uxsp.Envelope.{Envelope}
use uxsp.Crypto.Symmetric.{Bytes, key_size, nonce_size}
use uxsp.Crypto.Parts.{Packages}
use uxsp.Crypto.Hybrid.Exchange.{Seed, IsKeypair}
use uxsp.Identity.{Texts, Identity, PublicCard, Readings, verify_validity, seal_for}
use uxsp.Identity.Delivery.{IsTimely, seal_for-seal}
use uxsp.Crypto.Hybrid.Sealing.{sealed_fields}
use uxsp.Chunking.{Library, digest}
use uxsp.Chunking.Whole.{ReadsHeaders}
use uxsp.Keys.{KeyStore}
use uxsp.Secure.{with_card, SecureContext, Fresh}
use uxsp.Secure.Parts.{envelope_limit, SecurePackage, Sending, default_options, is_expected}
use uxsp.Secure.Engine.{
  one_envelope, many_chunks, package_for, receive_checked, resolve_peer, resolve_self,
  secure_send_payload, secure_receive_payload,
}
use uxsp.Secure.Delivered.{content_of, received}

module _ {K N : Type 0} (x : Texts) (p : Packages) (l : Library) (dumped_length : Dict Value → ℕ)
    (limit : ℕ) (keys : KeyStore K) (ops : NonceStore N) (me you : Identity)
    (card_me card_you : PublicCard) (dispatch : SecurePackage → Result (Unit {0})) where
  -- A package that was sent is the package of the payload.
  sent_package :
      (r : Sending) (payload : Bytes) (data_type : String) (metadata : Dict Value)
      (s : SecureContext K N) (pkg : SecurePackage)
      → card_you.entity_id ≡ you.entity_id
      → (secure_send_payload p x l dumped_length limit keys ops dispatch r
          (with_card card_you)
          payload
          data_type
          metadata
          (some me)
          s).0
        ≡ ok pkg
      → package_for p x l dumped_length limit r payload data_type metadata card_you you.entity_id me
        ≡ ok pkg
  unfolding secure_send_payload resolve_peer resolve_self
  sent_package r payload data_type metadata s pkg same h =
      subst
        (λ (i : String).
          package_for p x l dumped_length limit r payload data_type metadata card_you i me ≡ ok pkg)
        same
        (elim (Result-cases (
          package_for p x l dumped_length limit r payload data_type metadata card_you
            card_you.entity_id me)) [
              | inr (e, a) ↦ absurd (ground (arith, a, h))
              | inl (q, a) ↦ elim (Result-cases (dispatch q)) [
                | inr (e, b) ↦ absurd (ground (arith, a, b, h))
                | inl (done, b) ↦ ground (arith, a, b, h)
              ]
            ])

  -- The envelope of a package was sealed, with the payload or the key, and has the nonce that was drawn.
  sealed_content :
      (r : Sending) (payload : Bytes) (data_type : String) (metadata : Dict Value) (rec_id : String)
      (pkg : SecurePackage)
      → ((ts : ℤ) → p.to_int (int ts) ≡ ok ts)
      → package_for p x l dumped_length limit r payload data_type metadata card_you rec_id me
        ≡ ok pkg
      → (env : Envelope) × (seal_for x p dumped_length limit r.now r.sealing
            (content_of r payload)
            card_you
            me
          ≡ ok env)
        × (env.envelope_nonce ≡ p.to_hex r.sealing.envelope_random)
  unfolding package_for one_envelope many_chunks
  sealed_content r payload data_type metadata rec_id pkg exact h =
      elim (Result-cases
        (seal_for x p dumped_length limit r.now r.sealing (content_of r payload) card_you me)) [
          | inr (e, a) ↦ elim (Bool-cases (leb (length payload) envelope_limit)) [
            | inl small ↦ absurd (ground (arith, a, small, h))
            | inr large ↦ absurd (ground (arith, a, large, h))
          ]
          | inl (env, a) ↦
              let raw =
                seal_for-seal x p dumped_length limit r.now r.sealing (content_of r payload)
                  card_you me env exact a in
              let (from, to, stamp, nonce) =
                sealed_fields p r.sealing.coins r.sealing.nonce r.sealing.envelope_random
                  (content_of r payload) [] r.sealing.timestamp me.keypair card_you.public_keys
                  me.entity_id card_you.entity_id env raw in
              (env, a, nonce)
        ]

  -- What was sent under one context is received under another, whatever its size: with the cards given,
  -- whose key pairs were generated and whose sender's card is valid, when the time stamp is
  -- acceptable at each reading to the receiving context's guard, its nonce store takes the nonce, the
  -- type is the one that is expected if any is, the random keys and nonces have their sizes, a digest is in
  -- the form that the code keeps digests in, and `int` and JSON read back what was written.
  pub sent_received :
      (r : Sending) (payload : Bytes) (data_type : String) (metadata : Dict Value)
      (expected : Option String) (s s' : SecureContext K N) (pkg : SecurePackage) (t : Readings)
      (f : Fresh) (rs rr : Seed)
      → ((ts : ℤ) → p.to_int (int ts) ≡ ok ts)
      → ((b : Bytes) → digest l (some (str (l.sha256_hex b))) ≡ ok (l.sha256_hex b))
      → ReadsHeaders l default_options r.transfer_id (l.sha256_hex payload)
      → IsKeypair p me.keypair card_me.public_keys rs
      → IsKeypair p you.keypair card_you.public_keys rr
      → card_me.entity_id ≡ me.entity_id
      → card_you.entity_id ≡ you.entity_id
      → length r.sealing.nonce ≡ nonce_size
      → str_eq (p.to_hex r.sealing.envelope_random) "" ≡ false
      → length r.session_key ≡ key_size
      → ((i : ℕ) → length (r.chunk_nonce i) ≡ nonce_size)
      → str_eq r.transfer_id "" ≡ false
      → is_expected expected data_type ≡ true
      → verify_validity x t.validity card_me ≡ ok tt
      → IsTimely s'.replay_guard r.sealing.timestamp t.precheck
      → IsTimely s'.replay_guard r.sealing.timestamp t.verification
      → IsTimely s'.replay_guard r.sealing.timestamp t.commit
      → (ops.is_seen (p.to_hex r.sealing.envelope_random) t.seen s'.noncestore).0 ≡ ok false
      → (ops.mark_used
          (p.to_hex r.sealing.envelope_random)
          (s'.replay_guard.window + s'.replay_guard.clock_skew)
          t.marking
          (ops.is_seen (p.to_hex r.sealing.envelope_random) t.seen s'.noncestore).1).0
        ≡ ok true
      → (secure_send_payload p x l dumped_length limit keys ops dispatch r
          (with_card card_you)
          payload
          data_type
          metadata
          (some me)
          s).0
        ≡ ok pkg
      → (secure_receive_payload p x l dumped_length limit keys ops t f
          (with_card card_me)
          (ok pkg)
          expected
          (some you)
          s').0
        ≡ ok payload
  unfolding secure_receive_payload resolve_peer resolve_self
  sent_received r payload data_type metadata expected s s' pkg t f rs rr exact hashed read_back km
        ky em ey sized named key nonces identified e valid t1 t2 t3 unseen first h =
      let made = sent_package r payload data_type metadata s pkg ey h in
      let (env, sealed, nonce) =
        sealed_content r payload data_type metadata you.entity_id pkg exact made in
      let opened =
        received x p dumped_length limit l ops s'.replay_guard t me you card_me card_you
          s'.noncestore exact hashed r payload data_type metadata expected env pkg rs rr km ky em ey
          sized named valid t1 t2 t3 e key nonces identified read_back sealed (rw nonce unseen)
          (rw nonce first) made in
      subst
        (λ (i : String).
          (receive_checked p x l dumped_length limit ops t s'.replay_guard card_me i expected you
            pkg s'.noncestore).0
          ≡ ok payload)
        (sym em) opened
