-- ===== src/Chunking/Checked.antt =====
-- uxsp/core/chunking.py: what is known of a chunk that was unpacked and of a transfer that was put
-- together.
use uxsp.Prelude.{ℕ, ◌≤◌, ◌<◌, ◌≡◌, true, length, map, List, [], ◌∷◌}
use uxsp.Prelude.Result.{Result, ok}
use uxsp.Prelude.Dict.{Dict}
use uxsp.Prelude.Value.{Value}
use uxsp.Crypto.Symmetric.{Bytes}
use uxsp.Chunking.{Library, UxspChunk}
use uxsp.Chunking.Transfer.{Metadata, metadata_of, distinct_indices, sort, join, from_bytes_all}

-- The chunk's place is in the transfer, and its body has its hash, in lower case.
pub record IsVerified (x : Library) (c : UxspChunk) : Type 0 where
  pub placed : c.chunk_index < c.total_chunks
  pub body_hash : c.chunk_hash_sha256 ≡ x.lower (x.sha256_hex c.body)

pub AllVerified : Library → List UxspChunk → Type 0
AllVerified x [] = Unit
AllVerified x (c ∷ cs) = IsVerified x c × AllVerified x cs

-- Every chunk carries this metadata.
pub AllCarry : Metadata → List UxspChunk → Type 0
AllCarry m [] = Unit
AllCarry m (c ∷ cs) = (metadata_of c ≡ m) × AllCarry m cs

-- Each index is below all that follow or equal to them.
abbrev pub IsBelow : ℕ → List UxspChunk → Type 0
IsBelow n [] = Unit
IsBelow n (c ∷ cs) = (n ≤ c.chunk_index) × IsBelow n cs

pub IsSorted : List UxspChunk → Type 0
IsSorted [] = Unit
IsSorted (c ∷ cs) = IsBelow c.chunk_index cs × IsSorted cs

module _ (x : Library) where
  -- The chunks that a transfer is put together from.
  pub record IsTransfer (packed : List Bytes) (m : Metadata) (data' : Bytes) (cs : List UxspChunk)
      : Type 0 where
    pub unpacked : from_bytes_all x packed ≡ ok cs
    pub verified : AllVerified x cs
    pub same : AllCarry m cs
    pub distinct : distinct_indices cs ≡ true
    pub complete : length packed ≡ m.total_chunks
    pub sorted : IsSorted (sort cs)
    pub joined : data' ≡ join (map (λ c. c.body) (sort cs))
    pub file_hash : x.sha256_hex data' ≡ m.file_hash_sha256
