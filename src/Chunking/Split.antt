-- ===== src/Chunking/Split.antt =====
-- uxsp/core/chunking.py: the bodies that data is cut into.
use uxsp.Prelude.{
  ℕ, zero, suc, ◌≤◌, ◌<◌, ◌≡◌, refl, length, drop, take-append-drop, length-take, length-drop,
  arith, List, [], ◌∷◌,
}
use uxsp.Crypto.Symmetric.{Bytes}
use uxsp.Chunking.Transfer.{slices, raw_chunks, join}

-- Every body has a byte at least, and `size` bytes at most.
abbrev pub AllSized : ℕ → List Bytes → Type 0
AllSized size [] = Unit
AllSized size (b ∷ bs) = (1 ≤ length b) × (length b ≤ size) × AllSized size bs

pub join-slices :
    (fuel size : ℕ) (raw : Bytes) → 0 < size → length raw ≤ fuel → join (slices fuel size raw) ≡ raw
unfolding join slices
join-slices fuel size [] pos h = refl
join-slices zero size (b ∷ raw) pos h = absurd (omega arith)
join-slices (suc fuel) size (b ∷ raw) pos h =
    rw
      (join-slices fuel size (drop size (b ∷ raw)) pos
        (let l = length-drop size (b ∷ raw) in omega arith))
      (take-append-drop size (b ∷ raw))

slices-AllSized : (fuel size : ℕ) (raw : Bytes) → 0 < size → AllSized size (slices fuel size raw)
unfolding slices
slices-AllSized fuel size [] pos = tt
slices-AllSized zero size (b ∷ raw) pos = tt
slices-AllSized (suc fuel) size (b ∷ raw) pos =
    let l = length-take size (b ∷ raw) in
    (omega arith, omega arith, slices-AllSized fuel size (drop size (b ∷ raw)) pos)

-- The bodies that data is cut into join to the data, and each of them holds from one byte up to
-- `size` bytes, when the data is not empty and the size is positive.
pub join-raw_chunks :
    (size : ℕ) (b : ℕ) (raw : Bytes)
    → 0 < size
    → (join (raw_chunks size (b ∷ raw)) ≡ b ∷ raw) × AllSized size (raw_chunks size (b ∷ raw))
unfolding raw_chunks
join-raw_chunks size b raw pos = (
  join-slices (length (b ∷ raw)) size (b ∷ raw) pos (omega arith),
  slices-AllSized (length (b ∷ raw)) size (b ∷ raw) pos,
)
