-- ===== src/Prelude/Dict.antt =====
-- Python's `dict` with string keys as an association list in insertion order, without repeated
-- keys (`IsDistinct`).
use Prim.Native.Nat.{ℕ, ◌+◌, ◌≤◌}
use Prim.Native.String.{String}
use mathlib.Core.Path.{◌≡◌, refl}
use mathlib.Core.Bool.{Bool, true, false}
use mathlib.Core.Option.{Option, none, some}
use mathlib.Core.List.{List, [], ◌∷◌}
use mathlib.Core.Logic.{inl, inr}
use native.Mathlib.Omega.{arith}
use text.Mathlib.Text.{◌==◌}
use text.Mathlib.TextEquality.{eq_iff}
use uxsp.Prelude.Tests.{if◌then◌else◌, Bool-cases}
use uxsp.Prelude.Lists.{length}

abbrev pub Dict {ℓ} : Type ℓ → Type ℓ
Dict V = List (String × V)

abbrev pub is_some {ℓ} : {A : Type ℓ} → Option A → Bool
is_some none = false
is_some (some a) = true

module _ {ℓ} {V : Type ℓ} where
  -- d.get(k)
  unfoldable pub get : String → Dict V → Option V
  get k [] = none
  get k ((j, v) ∷ d) = if j == k then some v else get k d

  -- d[k] = v: a present key keeps its place, a new one goes last
  unfoldable pub put : String → V → Dict V → Dict V
  put k v [] = (k, v) ∷ []
  put k v ((j, w) ∷ d) = if j == k then (k, v) ∷ d else (j, w) ∷ put k v d

  -- del d[k], d.pop(k, None)
  unfoldable pub delete : String → Dict V → Dict V
  delete k [] = []
  delete k ((j, v) ∷ d) = if j == k then d else (j, v) ∷ delete k d

  -- `for k in [k for k, v in d.items() if p(v)]: del d[k]`, in one pass over the items
  unfoldable pub delete_if : (V → Bool) → Dict V → Dict V
  delete_if p [] = []
  delete_if p ((j, v) ∷ d) = let rest = delete_if p d in if p v then rest else (j, v) ∷ rest

  abbrev pub IsDistinct : Dict V → Type ℓ
  IsDistinct [] = Unit
  IsDistinct ((j, v) ∷ d) = (get j d ≡ none) × IsDistinct d

  pub get-put :
      (k j : String) (v : V) (d : Dict V) → get j (put k v d) ≡ (if k == j then some v else get j d)
  unfolding get put
  get-put k j v [] = refl
  get-put k j v ((i, w) ∷ d) = ground (arith, eq_iff k j, eq_iff i k, eq_iff i j, get-put k j v d)

  -- d[k] is present
  abbrev pub contains : String → Dict V → Bool
  contains k d = is_some (get k d)

  pub get-put_self : (k : String) (v : V) (d : Dict V) → get k (put k v d) ≡ some v
  get-put_self k v d = ground (arith, get-put k k v d, eq_iff k k)

  pub get-put_ne : (k j : String) (v : V) (d : Dict V) → (k ≡ j → ⊥) → get j (put k v d) ≡ get j d
  get-put_ne k j v d h = ground (arith, get-put k j v d, eq_iff k j)

  pub put-IsDistinct : (k : String) (v : V) (d : Dict V) → IsDistinct d → IsDistinct (put k v d)
  unfolding put
  put-IsDistinct k v [] h = (unfold get in refl, tt)
  put-IsDistinct k v ((i, w) ∷ d) h = elim (Bool-cases (i == k)) [
    | inl e ↦ rw (e, ← (eq_iff i k).0 e) (h.0, h.1)
    | inr e ↦
        rw e
          (ground (arith, get-put k i v d, h.0, eq_iff k i, eq_iff i k), put-IsDistinct k v d h.1)
  ]

  -- What is left is what was there, less the key.
  pub get-delete :
      (k j : String) (d : Dict V)
      → IsDistinct d
      → get j (delete k d) ≡ (if k == j then none else get j d)
  unfolding get delete
  get-delete k j [] h = ground arith
  get-delete k j ((i, w) ∷ d) h =
      ground (arith, eq_iff k j, eq_iff i k, eq_iff i j, get-delete k j d h.1, h.0)

  pub delete-IsDistinct : (k : String) (d : Dict V) → IsDistinct d → IsDistinct (delete k d)
  unfolding delete
  delete-IsDistinct k [] h = tt
  delete-IsDistinct k ((i, w) ∷ d) h = elim (Bool-cases (i == k)) [
    | inl e ↦ rw e h.1
    | inr e ↦ rw e (
      ground (arith, get-delete k i d h.1, h.0, eq_iff k i, eq_iff i k),
      delete-IsDistinct k d h.1,
    )
  ]

  -- An entry that `p` does not hold of, or nothing.
  abbrev pub unless : (V → Bool) → Option V → Option V
  unless p none = none
  unless p (some v) = if p v then none else some v

  pub get-delete_if :
      (p : V → Bool) (j : String) (d : Dict V)
      → IsDistinct d
      → get j (delete_if p d) ≡ unless p (get j d)
  unfolding get delete_if
  get-delete_if p j [] h = refl
  get-delete_if p j ((i, w) ∷ d) h = ground (arith, eq_iff i j, get-delete_if p j d h.1, h.0)

  pub delete_if-IsDistinct : (p : V → Bool) (d : Dict V) → IsDistinct d → IsDistinct (delete_if p d)
  unfolding delete_if
  delete_if-IsDistinct p [] h = tt
  delete_if-IsDistinct p ((i, w) ∷ d) h = elim (Bool-cases (p w)) [
    | inl e ↦ rw e (delete_if-IsDistinct p d h.1)
    | inr e ↦ rw e (ground (arith, get-delete_if p i d h.1, h.0), delete_if-IsDistinct p d h.1)
  ]

  pub length-put : (k : String) (v : V) (d : Dict V) → length (put k v d) ≤ length d + 1
  unfolding put
  length-put k v [] = omega arith
  length-put k v ((i, w) ∷ d) = ground (arith, length-put k v d)

  -- A key that is there is replaced.
  pub length-put_old :
      (k : String) (v : V) (d : Dict V) → contains k d ≡ true → length (put k v d) ≡ length d
  unfolding get put
  length-put_old k v [] h = absurd (ground arith)
  length-put_old k v ((i, w) ∷ d) h = ground (arith, length-put_old k v d)

  pub length-delete : (k : String) (d : Dict V) → length (delete k d) ≤ length d
  unfolding delete
  length-delete k [] = omega arith
  length-delete k ((i, w) ∷ d) = ground (arith, length-delete k d)

  pub length-delete_if : (p : V → Bool) (d : Dict V) → length (delete_if p d) ≤ length d
  unfolding delete_if
  length-delete_if p [] = omega arith
  length-delete_if p ((i, w) ∷ d) = ground (arith, length-delete_if p d)

  -- How many entries `p` holds of.
  unfoldable pub count_if : (V → Bool) → Dict V → ℕ
  count_if p [] = 0
  count_if p ((j, v) ∷ d) = (if p v then 1 else 0) + count_if p d

  pub length-delete_if-count_if :
      (p : V → Bool) (d : Dict V) → length (delete_if p d) + count_if p d ≡ length d
  unfolding delete_if count_if
  length-delete_if-count_if p [] = omega arith
  length-delete_if-count_if p ((i, w) ∷ d) = ground (arith, length-delete_if-count_if p d)

  pub delete_if_twice : (p : V → Bool) (d : Dict V) → delete_if p (delete_if p d) ≡ delete_if p d
  unfolding delete_if
  delete_if_twice p [] = refl
  delete_if_twice p ((i, w) ∷ d) = elim (Bool-cases (p w)) [
    | inl e ↦ rw e (delete_if_twice p d)
    | inr e ↦ rw (e, delete_if, e, delete_if_twice p d) refl
  ]
