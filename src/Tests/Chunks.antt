-- ===== src/Tests/Chunks.antt =====
-- Tests of the chunked transfer, with stand-ins for the hash and the JSON functions.
use uxsp.Prelude.{ℕ, refl, String, true, Option, some, none, [], ◌∷◌, ◌++◌, arith}
use uxsp.Prelude.Result.{err, other_error}
use uxsp.Prelude.Dict.{Dict}
use uxsp.Prelude.Value.{Value}
use uxsp.Crypto.Symmetric.{Bytes}
use uxsp.Chunking.{Library, UxspChunk, header_of, magic, be32, digest, string_length}
use uxsp.Chunking.Packed.{IsSound}

abbrev hash : String
hash = "0000000000000000000000000000000000000000000000000000000000000000"

-- The chunk with the index `i`, of two.
abbrev chunk : ℕ → UxspChunk
chunk i = record {
  transfer_id = "t";
  chunk_index = i;
  total_chunks = 2;
  file_hash_sha256 = hash;
  chunk_hash_sha256 = hash;
  kind = "file";
  body = i ∷ [];
  filename = none;
  content_type = "x";
  encoding = none;
}

-- Each header is one byte: the index of its chunk.
abbrev headers : Bytes → Option (Option (Dict Value))
headers (i ∷ []) = some (some (header_of (chunk i)))
headers _ = none

abbrev functions : Library
functions = record {
  sha256_hex = λ b. hash;
  is_hex = λ s. true;
  lower = λ s. s;
  dumps = λ d. 0 ∷ [];
  loads = headers;
  encode = λ e s. err other_error;
  decode = λ e b. err other_error;
  is_hashable = λ n. true;
}

abbrev packed : ℕ → Bytes
packed i = magic ++ (be32 1 ++ (i ∷ i ∷ []))

chunk-IsSound : IsSound functions (chunk 0)
unfolding digest string_length
chunk-IsSound = record {
  kind = refl;
  content_type = refl;
  encoding = refl;
  transfer_id = refl;
  placed = omega arith;
  file_hash = refl;
  chunk_hash = refl;
  body_hash = refl;
}
