-- ===== src/Crypto/Hybrid/Read.antt =====
-- uxsp/crypto/hybrid.py: what the fields of an envelope are that `_require_open_context` reads.
use uxsp.Prelude.{
  if◌then◌else◌, [], ◌≡◌, refl, subst, String, Bool, true, false, Option, none, some, arith, inl,
  inr, ℕ, ◌+◌, ◌≤◌, suc, ◌⊎◌, str_eq_iff, Option-cases,
}
use uxsp.Prelude.Result.{ok, ◌>>=◌, item, stepped}
use uxsp.Prelude.Dict.{Dict, get}
use uxsp.Prelude.Value.{ℤ, pos, negsuc, Value, str, is_text, has_text}
use uxsp.Crypto.Symmetric.{Bytes}
use uxsp.Crypto.Parts.{
  nonempty_text, Packages, Context, invalid_as_validation, OpenOptions, is_older, is_ahead,
  is_expected, value_or_none,
}
use uxsp.Crypto.Hybrid.{hex_of, decode_fields}
use uxsp.Crypto.Hybrid.Signed.{IsText, nonempty_item-IsText, IsHex, read-IsHex}

-- The time stamp is not too old, and not too far ahead.
abbrev pub IsRecent : OpenOptions → ℕ → ℤ → Type 0
IsRecent o now (pos ts) = (now ≤ ts + o.max_age_seconds) × (ts ≤ now + o.clock_skew_seconds)
IsRecent o now (negsuc n) = now + suc n ≤ o.max_age_seconds

pub tested-IsRecent :
    (o : OpenOptions) (now : ℕ) (ts : ℤ)
    → is_older o.max_age_seconds now ts ≡ false
    → is_ahead o.clock_skew_seconds now ts ≡ false
    → IsRecent o now ts
tested-IsRecent o now (pos ts) a b = ground (arith, a, b)
tested-IsRecent o now (negsuc n) a b = ground (arith, a)

-- The text is the expected one, if one is expected.
abbrev pub IsExpected : Option String → String → Type 0
IsExpected none s = Unit
IsExpected (some e) s = s ≡ e

pub tested-IsExpected :
    (e : Option String) (s : String) → is_expected e (some (str s)) ≡ true → IsExpected e s
tested-IsExpected none s h = tt
tested-IsExpected (some e) s h = ground (arith, str_eq_iff e s, str_eq_iff s e, h)

is_text-str : (s : String) (v : Value) → is_text s v ≡ true → v ≡ str s
is_text-str s (str s') h =
    let e : s' ≡ s = ground (arith, str_eq_iff s' s, str_eq_iff s s', h) in rw e refl
is_text-str s v h = absurd (cc h)

pub tested-IsText :
    (k : String) (d : Dict Value) (s : String) → has_text s (get k d) ≡ true → IsText d k s
tested-IsText k d s h = elim (Option-cases (get k d)) [
  | inl e ↦ absurd (ground (arith, e, h))
  | inr (v, e) ↦ let same : v ≡ str s = is_text-str s v (ground (arith, e, h)) in rw (← same) e
]

module _ (p : Packages) where
  -- What was read of the fields of an envelope: texts, bytes that stand there in hexadecimal, and the key
  -- encapsulation's, which an envelope that says it is classical only has none of.
  pub record IsRead (d : Dict Value) (ctx : Context) : Type 0 where
    pub sender_id : IsText d "sender_id" ctx.sender_id
    pub recipient_id : IsText d "recipient_id" ctx.recipient_id
    pub envelope_nonce : IsText d "envelope_nonce" ctx.envelope_nonce
    pub ciphertext : IsHex p d "ciphertext" ctx.ciphertext
    pub nonce : IsHex p d "nonce" ctx.nonce
    pub ephemeral_pub : IsHex p d "ephemeral_pub" ctx.ephemeral_pub
    pub kem_ciphertext :
        ((ctx.is_classical_only ≡ true) × (ctx.kem_ciphertext ≡ []))
        ⊎ IsHex p d "kem_ciphertext" ctx.kem_ciphertext

  -- What a context was made of.
  abbrev pub IsSource : Dict Value → ℤ → Bool → Context → Type 0
  IsSource d ts classical_only ctx =
      IsRead d ctx
      × (ctx.timestamp ≡ ts)
      × (ctx.is_classical_only ≡ classical_only)
      × (get "classical_sig" d ≡ some ctx.classical_sig)
      × (ctx.pqc_sig ≡ value_or_none (get "pqc_sig" d))

  item_found : (k : String) (d : Dict Value) (v : Value) → item k d ≡ ok v → get k d ≡ some v
  item_found k d v h = ground (arith, h)

  kem_field :
      (d : Dict Value) (classical_only : Bool) (b : Bytes)
      → (if classical_only
          then ok []
          else invalid_as_validation (item "kem_ciphertext" d >>= hex_of p))
        ≡ ok b
      → ((classical_only ≡ true) × (b ≡ [])) ⊎ IsHex p d "kem_ciphertext" b
  kem_field d true b h = inl (refl, ground (arith, h))
  kem_field d false b h = inr (read-IsHex p "kem_ciphertext" d b h)

  made-IsSource :
      (d : Dict Value) (ts : ℤ) (classical_only : Bool) (made ctx : Context)
      → ok made ≡ ok ctx
      → IsSource d ts classical_only made
      → IsSource d ts classical_only ctx
  made-IsSource d ts classical_only made ctx e h =
      let same : made ≡ ctx = ground (arith, e) in
      subst (λ (c : Context). IsSource d ts classical_only c) same h

  -- What `_require_open_context` decoded.
  pub decoded :
      (d : Dict Value) (ts : ℤ) (classical_only : Bool) (ctx : Context)
      → decode_fields p d ts classical_only ≡ ok ctx
      → IsSource d ts classical_only ctx
  unfolding decode_fields
  decoded d ts classical_only ctx h =
      stepped _ (item "sender_id" d >>= nonempty_text) _ ctx
        (λ a0 e0 h0.
          stepped _ (item "recipient_id" d >>= nonempty_text) _ ctx
            (λ a1 e1 h1.
              stepped _ (item "envelope_nonce" d >>= nonempty_text) _ ctx
                (λ a2 e2 h2.
                  stepped _ (invalid_as_validation (item "ciphertext" d >>= hex_of p)) _ ctx
                    (λ a3 e3 h3.
                      stepped _ (invalid_as_validation (item "nonce" d >>= hex_of p)) _ ctx
                        (λ a4 e4 h4.
                          stepped _ (invalid_as_validation (item "ephemeral_pub" d >>= hex_of p)) _
                            ctx
                            (λ a5 e5 h5.
                              stepped _
                                (if classical_only
                                  then ok []
                                  else invalid_as_validation (item "kem_ciphertext" d >>= hex_of p))
                                _ ctx
                                (λ a6 e6 h6.
                                  stepped _ (item "classical_sig" d) _ ctx
                                    (λ a7 e7 h7. made-IsSource d ts classical_only _ ctx h7 (
                                      record {
                                        sender_id = nonempty_item-IsText "sender_id" d a0 e0;
                                        recipient_id = nonempty_item-IsText "recipient_id" d a1 e1;
                                        envelope_nonce =
                                            nonempty_item-IsText "envelope_nonce" d a2 e2;
                                        ciphertext = read-IsHex p "ciphertext" d a3 e3;
                                        nonce = read-IsHex p "nonce" d a4 e4;
                                        ephemeral_pub = read-IsHex p "ephemeral_pub" d a5 e5;
                                        kem_ciphertext = kem_field d classical_only a6 e6;
                                      },
                                      refl,
                                      refl,
                                      item_found "classical_sig" d a7 e7,
                                      refl,
                                    ))
                                    h6)
                                h5)
                            h4)
                        h3)
                    h2)
                h1)
            h0)
        h
