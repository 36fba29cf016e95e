-- ===== src/Crypto/Hybrid/Signed.antt =====
-- uxsp/crypto/hybrid.py: what the signatures that `hybrid_verify` accepts are, and the fields it reads.
use uxsp.Prelude.{◌≡◌, refl, String, Bool, true, false, some, Option-cases, arith, inl, inr}
use uxsp.Prelude.Result.{
  Result, ok, err, ◌>>=◌, item, Result-cases, type_error, value_error, key_error,
}
use uxsp.Prelude.Dict.{Dict, get}
use uxsp.Prelude.Value.{Value, str}
use uxsp.Crypto.Symmetric.{Bytes}
use uxsp.Crypto.Asymmetric.{verify}
use uxsp.Crypto.Pqc.{pqc_verify}
use uxsp.Crypto.Parts.{Packages, invalid_as_validation, nonempty_text}
use uxsp.Crypto.Hybrid.{hex_of, signature_bytes, hybrid_verify}

-- What `item` was followed by, where it found an entry.
pub found_item :
    {V B : Type 0} (k : String) (d : Dict V) (f : V → Result B) (b : B)
    → (item k d >>= f) ≡ ok b
    → (v : V) × (get k d ≡ some v) × (f v ≡ ok b)
found_item k d f b h = elim (Option-cases (get k d)) [
  | inl e ↦ absurd (ground (arith, e, h))
  | inr (v, e) ↦ (v, e, ground (arith, e, h))
]

pub invalid-ok : {A : Type 0} (r : Result A) (a : A) → invalid_as_validation r ≡ ok a → r ≡ ok a
invalid-ok (ok b) a h = h
invalid-ok (err type_error) a h = absurd (cc h)
invalid-ok (err value_error) a h = absurd (cc h)
invalid-ok (err key_error) a h = absurd (cc h)
invalid-ok (err e) a h = absurd (cc h)

-- The entry is a text.
abbrev pub IsText : Dict Value → String → String → Type 0
IsText d k s = get k d ≡ some (str s)

text_of : (v : Value) (s : String) → nonempty_text v ≡ ok s → v ≡ str s
text_of v s h = ground (arith, h)

pub nonempty_item-IsText :
    (k : String) (d : Dict Value) (s : String) → (item k d >>= nonempty_text) ≡ ok s → IsText d k s
nonempty_item-IsText k d s h =
    let (v, e, t) = found_item k d nonempty_text s h in rw (← text_of v s t) e

module _ (p : Packages) where
  -- The entry is a text that is the hexadecimal form of the bytes.
  abbrev pub IsHex : Dict Value → String → Bytes → Type 0
  IsHex d k b = (s : String) × IsText d k s × (p.from_hex s ≡ ok b)

  hex_text :
      (v : Value) (b : Bytes)
      → hex_of p v ≡ ok b
      → (s : String) × (v ≡ str s) × (p.from_hex s ≡ ok b)
  hex_text (str s) b h = (s, refl, h)
  hex_text v b h = absurd (cc h)

  pub read-IsHex :
      (k : String) (d : Dict Value) (b : Bytes)
      → invalid_as_validation (item k d >>= hex_of p) ≡ ok b
      → IsHex d k b
  read-IsHex k d b h =
      let (v, e, t) = found_item k d (hex_of p) b (invalid-ok (item k d >>= hex_of p) b h) in
      let (s, same, hex) = hex_text v b t in (s, rw (← same) e, hex)

  -- The signature of the message verifies under the signing key among the public keys,
  abbrev pub IsClassical : Bytes → Bytes → Dict Bytes → Type 0
  IsClassical message sig keys =
      (key : Bytes) × (get "signing_pub" keys ≡ some key)
      × (verify p.curves message sig key ≡ ok true)

  -- and the post-quantum signature under the key for those.
  abbrev pub IsPostQuantum : Bytes → Bytes → Dict Bytes → Type 0
  IsPostQuantum message sig keys =
      (key : Bytes) × (get "pqc_sig_pub" keys ≡ some key)
      × (pqc_verify p.oqs p.algorithms message sig key ≡ ok true)

  -- What is accepted carries a classical signature of the message,
  pub accepted-IsClassical :
      (message : Bytes) (signatures : Dict Value) (keys : Dict Bytes) (classical_only : Bool)
      → hybrid_verify p message signatures keys classical_only ≡ ok true
      → (sig : Bytes) × IsHex signatures "classical_sig" sig × IsClassical message sig keys
  unfolding hybrid_verify
  accepted-IsClassical message signatures keys classical_only h =
      elim (Result-cases (signature_bytes p "classical_sig" signatures)) [
        | inr (x, e) ↦ absurd (ground arith)
        | inl (c, e) ↦ elim (Option-cases (get "signing_pub" keys)) [
          | inl e' ↦ absurd (ground arith)
          | inr (k, e') ↦ (c, read-IsHex "classical_sig" signatures c e, (k, e', ground arith))
        ]
      ]

  -- and, unless the classical one is enough, a post-quantum signature too.
  pub accepted-IsPostQuantum :
      (message : Bytes) (signatures : Dict Value) (keys : Dict Bytes)
      → hybrid_verify p message signatures keys false ≡ ok true
      → (sig : Bytes) × IsHex signatures "pqc_sig" sig × IsPostQuantum message sig keys
  unfolding hybrid_verify
  accepted-IsPostQuantum message signatures keys h =
      elim (Result-cases (signature_bytes p "pqc_sig" signatures)) [
        | inr (x, e) ↦ absurd (ground arith)
        | inl (q, e) ↦ elim (Option-cases (get "pqc_sig_pub" keys)) [
          | inl e' ↦ absurd (ground arith)
          | inr (k, e') ↦ (q, read-IsHex "pqc_sig" signatures q e, (k, e', ground arith))
        ]
      ]

  -- Both signatures are enough to be accepted.
  pub hybrid_verify-both :
      (message classical pqc : Bytes) (signatures : Dict Value) (keys : Dict Bytes)
      → IsHex signatures "classical_sig" classical
      → IsHex signatures "pqc_sig" pqc
      → IsClassical message classical keys
      → IsPostQuantum message pqc keys
      → hybrid_verify p message signatures keys false ≡ ok true
  unfolding hybrid_verify
  hybrid_verify-both message classical pqc signatures keys (s, e, a) (s', e', a') (k, f, b)
        (k', f', b') =
      rw (e, e', a, a', f, f') (ground (arith, b, b'))
