-- ===== src/Crypto/Hybrid/Opening.antt =====
-- uxsp/crypto/hybrid.py: what is known of an envelope that `verify_envelope` lets through.
use uxsp.Prelude.{
  [], ◌∷◌, ◌≡◌, sym, subst, Bool, true, false, some, arith, inl, inr, ℕ, ◌⊎◌, Bool-cases,
  Option-cases,
}
use uxsp.Prelude.Result.{ok, ◌>>=◌, item, Result-cases}
use uxsp.Prelude.Dict.{Dict, get}
use uxsp.Prelude.Value.{ℤ, Value, str, has_text}
use uxsp.Envelope.{uxsp_version, all_present}
use uxsp.Crypto.Symmetric.{Bytes}
use uxsp.Crypto.Parts.{
  Packages, Context, invalid_as_validation, OpenOptions, is_older, is_ahead, is_expected,
  bind_fields, required_fields, value_or_none,
}
use uxsp.Crypto.Hybrid.{
  signed_fields, signatures_of, hybrid_verify, decode_fields, require_open_context, verify_context,
  verify_envelope,
}
use uxsp.Crypto.Hybrid.Signed.{
  IsText, IsHex, IsClassical, IsPostQuantum, found_item, invalid-ok, accepted-IsClassical,
  accepted-IsPostQuantum,
}
use uxsp.Crypto.Hybrid.Read.{
  IsRecent, tested-IsRecent, IsExpected, tested-IsExpected, tested-IsText, IsRead, IsSource,
  decoded,
}

module _ (p : Packages) where
  -- An envelope that was let through, with what was read of it. Every field that is bound stands in
  -- the message that was signed.
  pub record IsVerified (o : OpenOptions) (now : ℕ) (d : Dict Value) (keys : Dict Bytes)
      (ctx : Context) : Type 0 where
    pub version : IsText d "version" uxsp_version
    pub read : IsRead p d ctx
    pub timestamp : (v : Value) × (get "timestamp" d ≡ some v) × (p.to_int v ≡ ok ctx.timestamp)
    pub recent : IsRecent o now ctx.timestamp
    pub recipient : IsExpected o.expected_recipient_id ctx.recipient_id
    pub sender : IsExpected o.expected_sender_id ctx.sender_id
    pub downgraded :
        ctx.is_classical_only ≡ true → IsText d "pqc_mode" "none" × (o.allow_classical_only ≡ true)
    pub message : Bytes
    pub bound :
        bind_fields (
          p.encode "UXSP-1"
          ∷ ctx.ciphertext
          ∷ ctx.nonce
          ∷ p.encode ctx.sender_id
          ∷ p.encode ctx.recipient_id
          ∷ p.encode (p.show ctx.timestamp)
          ∷ p.encode ctx.envelope_nonce
          ∷ ctx.ephemeral_pub
          ∷ ctx.kem_ciphertext
          ∷ [])
        ≡ ok message
    pub classical : (sig : Bytes) × IsHex p d "classical_sig" sig × IsClassical p message sig keys
    pub post_quantum :
        (ctx.is_classical_only ≡ true)
        ⊎ ((sig : Bytes) × IsHex p d "pqc_sig" sig × IsPostQuantum p message sig keys)

  verified_context :
      (o : OpenOptions) (keys : Dict Bytes) (ctx ctx' : Context)
      → verify_context p o keys ctx ≡ ok ctx'
      → (ctx ≡ ctx')
        × (is_expected o.expected_sender_id (some (str ctx.sender_id)) ≡ true)
        × ((m : Bytes) × (bind_fields (signed_fields p ctx) ≡ ok m)
            × (hybrid_verify p m (signatures_of p ctx) keys ctx.is_classical_only ≡ ok true))
  unfolding verify_context
  verified_context o keys ctx ctx' h = elim (Result-cases (bind_fields (signed_fields p ctx))) [
    | inr (x, e) ↦ absurd (ground arith)
    | inl (m, e) ↦ (ground arith, ground arith, (m, e, ground arith))
  ]

  -- What `_require_open_context` tested.
  record IsRequired (o : OpenOptions) (now : ℕ) (d : Dict Value) (ctx : Context) : Type 0 where
    version : has_text uxsp_version (get "version" d) ≡ true
    stamp : (item "timestamp" d >>= p.to_int) ≡ ok ctx.timestamp
    recent : is_older o.max_age_seconds now ctx.timestamp ≡ false
    not_ahead : is_ahead o.clock_skew_seconds now ctx.timestamp ≡ false
    recipient : is_expected o.expected_recipient_id (get "recipient_id" d) ≡ true
    allowed : ctx.is_classical_only ≡ true → o.allow_classical_only ≡ true
    present : all_present (required_fields ctx.is_classical_only) d ≡ true
    source : IsSource p d ctx.timestamp (has_text "none" (get "pqc_mode" d)) ctx

  required :
      (o : OpenOptions) (now : ℕ) (d : Dict Value) (ctx : Context)
      → require_open_context p o now d ≡ ok ctx
      → IsRequired o now d ctx
  unfolding require_open_context
  required o now d ctx h =
      let classical_only = has_text "none" (get "pqc_mode" d) in
      elim (Result-cases (invalid_as_validation (item "timestamp" d >>= p.to_int))) [
        | inr (x, e) ↦ absurd (ground arith)
        | inl (ts, e) ↦ elim (Result-cases (decode_fields p d ts classical_only)) [
          | inr (x, e') ↦ absurd (ground arith)
          | inl (found, e') ↦
              let same : found ≡ ctx = ground arith in
              let made = decoded p d ts classical_only found e' in
              rw (← same) (record {
                version = ground arith;
                stamp = rw made.1 (invalid-ok (item "timestamp" d >>= p.to_int) ts e);
                recent = ground (arith, made.1);
                not_ahead = ground (arith, made.1);
                recipient = ground arith;
                allowed = ground (arith, made.2);
                present = ground (arith, made.2);
                source = subst (λ (t : ℤ). IsSource p d t classical_only found) (sym made.1) made;
              })
        ]
      ]

  -- An envelope that is not classical only has the post-quantum field.
  pqc_present :
      (d : Dict Value)
      → all_present (required_fields false) d ≡ true
      → (v : Value) × (get "pqc_sig" d ≡ some v)
  unfolding all_present
  pqc_present d h = elim (Option-cases (get "pqc_sig" d)) [
    | inl e ↦ absurd (ground (arith, e, h))
    | inr (v, e) ↦ (v, e)
  ]

  -- The signatures that were checked are those of the envelope.
  classical_field :
      (d : Dict Value) (ctx : Context) (sig : Bytes)
      → get "classical_sig" d ≡ some ctx.classical_sig
      → IsHex p (signatures_of p ctx) "classical_sig" sig
      → IsHex p d "classical_sig" sig
  unfolding get
  classical_field d ctx sig e (s, t, h) =
      let same : ctx.classical_sig ≡ str s = ground (arith, t) in (s, rw (← same) e, h)

  pqc_field :
      (d : Dict Value) (ctx : Context) (sig : Bytes)
      → ctx.is_classical_only ≡ false
      → ctx.pqc_sig ≡ value_or_none (get "pqc_sig" d)
      → all_present (required_fields ctx.is_classical_only) d ≡ true
      → IsHex p (signatures_of p ctx) "pqc_sig" sig
      → IsHex p d "pqc_sig" sig
  unfolding get
  pqc_field d ctx sig both e present (s, t, h) =
      let (v, there) =
        pqc_present d
          (subst (λ (b : Bool). all_present (required_fields b) d ≡ true) both present) in
      let same : v ≡ str s = ground (arith, t, both, e, there) in (s, rw (← same) there, h)

  signed_pqc :
      (d : Dict Value) (keys : Dict Bytes) (ctx : Context) (m : Bytes)
      → ctx.pqc_sig ≡ value_or_none (get "pqc_sig" d)
      → all_present (required_fields ctx.is_classical_only) d ≡ true
      → hybrid_verify p m (signatures_of p ctx) keys ctx.is_classical_only ≡ ok true
      → (ctx.is_classical_only ≡ true)
        ⊎ ((sig : Bytes) × IsHex p d "pqc_sig" sig × IsPostQuantum p m sig keys)
  signed_pqc d keys ctx m e present h = elim (Bool-cases ctx.is_classical_only) [
    | inl only ↦ inl only
    | inr both ↦
        let (sig, hex, signed) =
          accepted-IsPostQuantum p m (signatures_of p ctx) keys (
            subst (λ (b : Bool). hybrid_verify p m (signatures_of p ctx) keys b ≡ ok true) both
              h) in
        inr (sig, pqc_field d ctx sig both e present hex, signed)
  ]

  -- An envelope that `verify_envelope` lets through has the current version, a time stamp that is not
  -- older than the limit nor further ahead than the skew, and the recipient and sender that are expected,
  -- if any are. Its fields are what was read of it: texts, and bytes from their hexadecimal forms. The
  -- message that binds the version, ciphertext, nonce, sender, recipient, time stamp, envelope nonce,
  -- ephemeral key and key encapsulation, in this order, is signed: under the sender's keys the envelope's
  -- classical signature verifies, and its post-quantum one too, unless the envelope says that it is
  -- classical only and the caller allows that.
  pub verify_envelope-IsVerified :
      (o : OpenOptions) (now : ℕ) (d : Dict Value) (keys : Dict Bytes) (ctx : Context)
      → verify_envelope p o now d keys ≡ ok ctx
      → IsVerified o now d keys ctx
  unfolding verify_envelope
  verify_envelope-IsVerified o now d keys ctx h =
      elim (Result-cases (require_open_context p o now d)) [
        | inr (x, e) ↦ absurd (ground arith)
        | inl (found, e) ↦
            let (same, sender, checked) = verified_context o keys found ctx (ground arith) in
            let (m, bound, verified) = checked in
            let r = required o now d found e in
            let (read, stamp, mode, classical_sig, pqc_sig) = r.source in
            let (sig, hex, signed) =
              accepted-IsClassical p m (signatures_of p found) keys found.is_classical_only
                verified in
            rw (← same) (record {
              version = tested-IsText "version" d uxsp_version r.version;
              read = read;
              timestamp = found_item "timestamp" d p.to_int found.timestamp r.stamp;
              recent = tested-IsRecent o now found.timestamp r.recent r.not_ahead;
              recipient =
                  tested-IsExpected o.expected_recipient_id found.recipient_id
                    (rw (← read.recipient_id) r.recipient);
              sender = tested-IsExpected o.expected_sender_id found.sender_id sender;
              downgraded =
                  λ only. (tested-IsText "pqc_mode" d "none" (rw (← mode) only), r.allowed only);
              message = m;
              bound = bound;
              classical = (sig, classical_field d found sig classical_sig hex, signed);
              post_quantum = signed_pqc d keys found m pqc_sig r.present verified;
            })
      ]
