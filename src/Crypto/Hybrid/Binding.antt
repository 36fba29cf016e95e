-- ===== src/Crypto/Hybrid/Binding.antt =====
-- uxsp/crypto/hybrid.py: `bind_fields` tells any two lists of fields apart.
use uxsp.Prelude.{ℕ, ◌≡◌, refl, length, arith, List, [], ◌∷◌, ◌++◌, inl, inr}
use uxsp.Prelude.Result.{ok, Result-cases}
use uxsp.Crypto.Symmetric.{Bytes}
use uxsp.Crypto.Parts.{be32, bind_fields}

be32_inj : (n m : ℕ) → be32 n ≡ be32 m → n ≡ m
be32_inj n m e = ground arith

-- Two texts of the same length, each followed by more, agree if the wholes do.
append_inj :
    (xs ys : Bytes) (as' bs : Bytes)
    → length xs ≡ length ys
    → xs ++ as' ≡ ys ++ bs
    → (xs ≡ ys) × (as' ≡ bs)
append_inj [] [] as' bs l e = (refl, e)
append_inj [] (y ∷ ys) as' bs l e = absurd (omega arith)
append_inj (x ∷ xs) [] as' bs l e = absurd (omega arith)
append_inj (x ∷ xs) (y ∷ ys) as' bs l e =
    let r = append_inj xs ys as' bs (omega arith) (cc e) in (cc (e, r.0), r.1)

-- What a successful `bind_fields` returned.
bind_fields-cons :
    (f : Bytes) (fs : List Bytes) (b : Bytes)
    → bind_fields (f ∷ fs) ≡ ok b
    → (rest : Bytes) × (bind_fields fs ≡ ok rest) × (b ≡ be32 (length f) ++ (f ++ rest))
unfolding bind_fields
bind_fields-cons f fs b h = elim (Result-cases (bind_fields fs)) [
  | inl (rest, r) ↦ (rest, r, ground arith)
  | inr (x, r) ↦ absurd (ground arith)
]

-- Two lists of fields that bind to the same bytes are the same list, so that what is signed says
-- where each field begins and ends.
pub bind_fields_inj :
    (fs gs : List Bytes) (b : Bytes) → bind_fields fs ≡ ok b → bind_fields gs ≡ ok b → fs ≡ gs
bind_fields_inj [] [] b hf hg = refl
bind_fields_inj [] (g ∷ gs) b hf hg =
    let (rest, r, e) = bind_fields-cons g gs b hg in absurd (unfold bind_fields in cc (hf, e))
bind_fields_inj (f ∷ fs) [] b hf hg =
    let (rest, r, e) = bind_fields-cons f fs b hf in absurd (unfold bind_fields in cc (hg, e))
bind_fields_inj (f ∷ fs) (g ∷ gs) b hf hg =
    let (rf, r, e) = bind_fields-cons f fs b hf in
    let (rg, r', e') = bind_fields-cons g gs b hg in
    let same : be32 (length f) ++ (f ++ rf) ≡ be32 (length g) ++ (g ++ rg) = cc (e, e') in
    let heads = append_inj (be32 (length f)) (be32 (length g)) (f ++ rf) (g ++ rg) refl same in
    let tails = append_inj f g rf rg (be32_inj (length f) (length g) heads.0) heads.1 in
    let rests = bind_fields_inj fs gs rf r (cc (r', tails.1)) in cc (tails.0, rests)
