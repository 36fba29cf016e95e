-- ===== src/Secure/Delivered.antt =====
-- uxsp/secure/_engine.py: what is sent is received, in one envelope or in chunks.
use uxsp.Prelude.{
  ℕ, ◌+◌, ◌≡◌, refl, sym, String, true, false, str_eq, str_eq_iff, leb, if◌then◌else◌, length,
  Option, some, List, [], ◌∷◌, arith, inl, inr, Bool-cases,
}
use uxsp.Prelude.Result.{ok, Result-cases}
use uxsp.Prelude.Dict.{Dict}
use uxsp.Prelude.Value.{ℤ, pos, Value, int, str}
use uxsp.Nonce.{NonceStore}
use uxsp.Envelope.{Envelope, to_dict}
use uxsp.Replay.{ReplayGuard, instance_of}
use uxsp.Crypto.Symmetric.{Bytes, key_size, nonce_size}
use uxsp.Crypto.Parts.{Packages}
use uxsp.Crypto.Hybrid.Exchange.{Seed, IsKeypair}
use uxsp.Identity.{
  Texts, Identity, PublicCard, Sealing, Readings, verify_validity, seal_for, open_from,
}
use uxsp.Identity.Delivery.{IsTimely, delivered}
use uxsp.Chunking.{Library, digest}
use uxsp.Chunking.Transfer.{Metadata, create_chunked_transfer, reassemble_chunked_transfer}
use uxsp.Chunking.Whole.{IsReadable, ReadsHeaders, reassemble-create}
use uxsp.Secure.Parts.{
  SecurePackage, Sending, chunk_size, default_options, envelope_limit, is_expected, seal_chunks,
  open_chunks,
}
use uxsp.Secure.Engine.{
  one_envelope, many_chunks, package_for, open_envelope, open_package, receive_checked,
}
use uxsp.Secure.Opened.{open_chunks-seal_chunks, from_dict-seal_for}

-- What the envelope of a payload carries: the payload, or the key of its chunks.
abbrev pub content_of : Sending → Bytes → Bytes
content_of r payload = if leb (length payload) envelope_limit then payload else r.session_key

-- The defaults of a transfer.
default-IsReadable : IsReadable default_options
default-IsReadable = record { kind = refl; content_type = refl; encoding = refl }

module _ (x : Texts) (p : Packages) (dumped_length : Dict Value → ℕ) (limit : ℕ) where
  module _ {N : Type 0} (l : Library) (ops : NonceStore N) (g : ReplayGuard) (t : Readings)
      (me you : Identity) (card_me card_you : PublicCard) (n : N) where
    -- The opening of the envelope of a package.
    opened_envelope :
        (now : ℕ) (r : Sealing) (content : Bytes) (env : Envelope)
        → ((ts : ℤ) → p.to_int (int ts) ≡ ok ts)
        → seal_for x p dumped_length limit now r content card_you me ≡ ok env
        → (open_from x p ops t (some g) card_me (instance_of env) you n).0 ≡ ok content
        → (open_envelope p x l dumped_length limit ops t g card_me you (to_dict env) n).0
          ≡ ok (env, content)
    unfolding open_envelope
    opened_envelope now r content env i sealed opened = ground (
      arith,
      from_dict-seal_for x p dumped_length limit now r content card_you me env i sealed,
      opened,
    )

    opened_chunks :
        (d : Dict Value) (env : Envelope) (key : Bytes) (ds : List (Dict Value))
        (packed : List Bytes) (m : Metadata) (raw : Bytes)
        → (open_envelope p x l dumped_length limit ops t g card_me you d n).0 ≡ ok (env, key)
        → open_chunks p env.envelope_nonce key 0 ds ≡ ok packed
        → reassemble_chunked_transfer l packed ≡ ok (m, raw)
        → (open_package p x l dumped_length limit ops t g card_me you true (some d) ds n).0 ≡ ok raw
    unfolding open_package
    opened_chunks d env key [] packed m raw a b h = absurd (
        unfold open_chunks reassemble_chunked_transfer in
        let same : packed ≡ [] = cc b in ground (arith, same, h))
    opened_chunks d env key (c ∷ cs) packed m raw a b h = ground (arith, a, b, h)

    -- The checks on the parties and the type pass, and the opening raises nothing.
    passed :
        (expected : Option String) (pkg : SecurePackage) (payload : Bytes)
        → pkg.sender_id ≡ me.entity_id
        → pkg.receiver_id ≡ you.entity_id
        → is_expected expected pkg.data_type ≡ true
        → (open_package p x l dumped_length limit ops t g card_me you pkg.is_chunked pkg.envelope
            pkg.chunks n).0
          ≡ ok payload
        → (receive_checked p x l dumped_length limit ops t g card_me me.entity_id expected you pkg
            n).0
          ≡ ok payload
    unfolding receive_checked
    passed expected pkg payload a b e h = ground (
      arith,
      str_eq_iff pkg.sender_id me.entity_id,
      str_eq_iff pkg.receiver_id you.entity_id,
      a,
      b,
      e,
      h,
    )

    module _ (exact : (ts : ℤ) → p.to_int (int ts) ≡ ok ts)
        (hashed : (b : Bytes) → digest l (some (str (l.sha256_hex b))) ≡ ok (l.sha256_hex b)) where
      received_envelope :
          (r : Sending) (payload : Bytes) (data_type : String) (metadata : Dict Value)
          (expected : Option String) (env : Envelope) (pkg : SecurePackage)
          → is_expected expected data_type ≡ true
          → seal_for x p dumped_length limit r.now r.sealing payload card_you me ≡ ok env
          → (open_from x p ops t (some g) card_me (instance_of env) you n).0 ≡ ok payload
          → one_envelope p x l dumped_length limit r payload data_type metadata card_you
              you.entity_id me
            ≡ ok pkg
          → (receive_checked p x l dumped_length limit ops t g card_me me.entity_id expected you pkg
              n).0
            ≡ ok payload
      unfolding one_envelope
      received_envelope r payload data_type metadata expected env pkg e sealed opened made =
          let sent : SecurePackage = record {
            sender_id = me.entity_id;
            receiver_id = you.entity_id;
            data_type = data_type;
            is_chunked = false;
            envelope = some (to_dict env);
            chunks = [];
            metadata = metadata;
          } in
          let same : pkg ≡ sent = ground (arith, sealed, made) in
          rw same (
            passed expected sent payload refl refl e (
              unfold open_package in
              ground (arith, opened_envelope r.now r.sealing payload env exact sealed opened)))

      received_chunks :
          (r : Sending) (payload : Bytes) (data_type : String) (metadata : Dict Value)
          (expected : Option String) (env : Envelope) (pkg : SecurePackage)
          → is_expected expected data_type ≡ true
          → length r.session_key ≡ key_size
          → ((i : ℕ) → length (r.chunk_nonce i) ≡ nonce_size)
          → str_eq r.transfer_id "" ≡ false
          → ReadsHeaders l default_options r.transfer_id (l.sha256_hex payload)
          → seal_for x p dumped_length limit r.now r.sealing r.session_key card_you me ≡ ok env
          → (open_from x p ops t (some g) card_me (instance_of env) you n).0 ≡ ok r.session_key
          → many_chunks p x l dumped_length limit r payload data_type metadata card_you
              you.entity_id me
            ≡ ok pkg
          → (receive_checked p x l dumped_length limit ops t g card_me me.entity_id expected you pkg
              n).0
            ≡ ok payload
      unfolding many_chunks
      received_chunks r payload data_type metadata expected env pkg e key nonces named read_back
            sealed opened made =
          elim (Result-cases
            (create_chunked_transfer l r.transfer_id payload (pos chunk_size) default_options)) [
              | inr (k, a) ↦ absurd (ground (arith, sealed, a, made))
              | inl (packed, a) ↦
                  elim (Result-cases
                    (seal_chunks p env.envelope_nonce r.session_key r.chunk_nonce 0 packed)) [
                      | inr (k, b) ↦ absurd (ground (arith, sealed, a, b, made))
                      | inl (ds, b) ↦
                          let sent : SecurePackage = record {
                            sender_id = me.entity_id;
                            receiver_id = you.entity_id;
                            data_type = data_type;
                            is_chunked = true;
                            envelope = some (to_dict env);
                            chunks = ds;
                            metadata = metadata;
                          } in
                          let same : pkg ≡ sent = ground (arith, sealed, a, b, made) in
                          rw same (
                            passed expected sent payload refl refl e (
                              opened_chunks (to_dict env) env r.session_key ds packed _ payload
                                (opened_envelope r.now r.sealing r.session_key env exact sealed
                                  opened)
                                (open_chunks-seal_chunks p env.envelope_nonce r.session_key
                                  r.chunk_nonce 0 packed ds key nonces b)
                                (reassemble-create l r.transfer_id payload 16383 default_options
                                  packed default-IsReadable named hashed read_back a)))
                    ]
            ]

      -- What one identity sends to another, however large, the other receives from it, with the sender's
      -- card and the context's guard: in one envelope up to 30 KiB, and in chunks under a key in the
      -- envelope above that. Both key pairs were generated and the cards hold their public keys, the
      -- sender's card is valid, the time stamp is acceptable at each reading, the nonce store takes the
      -- envelope's nonce, the type is the one that is expected if any is, the random keys and nonces have
      -- their sizes, a digest is in the form that the code keeps digests in, and `int` and JSON read back what
      -- was written.
      pub received :
          (r : Sending) (payload : Bytes) (data_type : String) (metadata : Dict Value)
          (expected : Option String) (env : Envelope) (pkg : SecurePackage) (rs rr : Seed)
          → IsKeypair p me.keypair card_me.public_keys rs
          → IsKeypair p you.keypair card_you.public_keys rr
          → card_me.entity_id ≡ me.entity_id
          → card_you.entity_id ≡ you.entity_id
          → length r.sealing.nonce ≡ nonce_size
          → str_eq (p.to_hex r.sealing.envelope_random) "" ≡ false
          → verify_validity x t.validity card_me ≡ ok tt
          → IsTimely g r.sealing.timestamp t.precheck
          → IsTimely g r.sealing.timestamp t.verification
          → IsTimely g r.sealing.timestamp t.commit
          → is_expected expected data_type ≡ true
          → length r.session_key ≡ key_size
          → ((i : ℕ) → length (r.chunk_nonce i) ≡ nonce_size)
          → str_eq r.transfer_id "" ≡ false
          → ReadsHeaders l default_options r.transfer_id (l.sha256_hex payload)
          → seal_for x p dumped_length limit r.now r.sealing (content_of r payload) card_you me
            ≡ ok env
          → (ops.is_seen env.envelope_nonce t.seen n).0 ≡ ok false
          → (ops.mark_used env.envelope_nonce
              (g.window + g.clock_skew)
              t.marking
              (ops.is_seen env.envelope_nonce t.seen n).1).0
            ≡ ok true
          → package_for p x l dumped_length limit r payload data_type metadata card_you
              you.entity_id me
            ≡ ok pkg
          → (receive_checked p x l dumped_length limit ops t g card_me me.entity_id expected you pkg
              n).0
            ≡ ok payload
      unfolding package_for
      received r payload data_type metadata expected env pkg rs rr km ky em ey sized named valid t1
            t2 t3 e key nonces identified read_back sealed unseen first made =
          let opened =
            delivered x p ops g me you card_me card_you rs rr dumped_length limit r.now r.sealing
              (content_of r payload) env t n exact km ky em ey sized named valid t1 t2 t3 sealed
              unseen first in
          elim (Bool-cases (leb (length payload) envelope_limit)) [
            | inl small ↦
                let whole : content_of r payload ≡ payload = rw small refl in
                received_envelope r payload data_type metadata expected env pkg e
                  (rw (sym whole) sealed) (rw (sym whole) opened) (ground (arith, small, made))
            | inr large ↦
                let by_key : content_of r payload ≡ r.session_key = rw large refl in
                received_chunks r payload data_type metadata expected env pkg e key nonces
                  identified read_back (rw (sym by_key) sealed) (rw (sym by_key) opened)
                  (ground (arith, large, made))
          ]
