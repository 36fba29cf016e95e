-- ===== src/Chunking/Packed.antt =====
-- uxsp/core/chunking.py: a chunk that was packed is unpacked unchanged.
use uxsp.Prelude.{
  ℕ, ◌≤◌, ◌<◌, ◌≡◌, refl, String, str_eq, str_eq_iff, true, false, ==_iff, length, length-append,
  take-length-append, drop-length-append, arith, Option, none, some, ◌++◌,
}
use uxsp.Prelude.Result.{ok, ◌>>=◌}
use uxsp.Prelude.Dict.{get}
use uxsp.Prelude.Value.{str}
use uxsp.Crypto.Symmetric.{Bytes}
use uxsp.Chunking.{
  Library, UxspChunk, magic, max_header_len, be32, from_be, header_of, text_or_null, is_valid_kind,
  optional_text, optional_nonempty, digest, make_chunk, to_bytes, from_bytes, read_header,
  read_position, object_of,
}

from_be-be32 : (n : ℕ) → n ≤ max_header_len → from_be 0 (be32 n) ≡ n
from_be-be32 n h = omega arith

module _ (x : Library) where
  -- The fields pass the tests of `from_bytes`, and the hashes are in the form that they are kept in.
  pub record IsSound (c : UxspChunk) : Type 0 where
    pub kind : is_valid_kind c.kind ≡ true
    pub content_type : str_eq c.content_type "" ≡ false
    pub encoding : optional_nonempty (some (text_or_null c.encoding)) ≡ ok c.encoding
    pub transfer_id : str_eq c.transfer_id "" ≡ false
    pub placed : c.chunk_index < c.total_chunks
    pub file_hash : digest x (some (str c.file_hash_sha256)) ≡ ok c.file_hash_sha256
    pub chunk_hash : digest x (some (str c.chunk_hash_sha256)) ≡ ok c.chunk_hash_sha256
    pub body_hash : x.sha256_hex c.body ≡ c.chunk_hash_sha256

  optional_text-text_or_null : (o : Option String) → optional_text (some (text_or_null o)) ≡ ok o
  optional_text-text_or_null none = refl
  optional_text-text_or_null (some s) = refl

  read_header-header_of : (c : UxspChunk) → IsSound c → read_header x (header_of c) c.body ≡ ok c
  unfolding read_header read_position make_chunk get
  read_header-header_of c s = ground (
    arith,
    s.kind,
    s.content_type,
    s.encoding,
    s.transfer_id,
    s.placed,
    s.file_hash,
    s.chunk_hash,
    s.body_hash,
    optional_text-text_or_null c.filename,
    ==_iff (length c.body) (length c.body),
    str_eq_iff (x.sha256_hex c.body) c.chunk_hash_sha256,
  )

  from_bytes-packed :
      (header body : Bytes)
      → length header ≤ max_header_len
      → from_bytes x (magic ++ (be32 (length header) ++ (header ++ body)))
        ≡ (object_of x (x.loads header) >>= λ d. read_header x d body)
  unfolding from_bytes
  from_bytes-packed header body h = ground (
    arith,
    from_be-be32 (length header) h,
    take-length-append header body,
    drop-length-append header body,
    length-append header body,
  )

  -- A sound chunk that `to_bytes` packs, `from_bytes` unpacks to the same chunk, when JSON reads back
  -- the header that it wrote.
  pub from_bytes-to_bytes :
      (c : UxspChunk) (raw : Bytes)
      → IsSound c
      → x.loads (x.dumps (header_of c)) ≡ some (some (header_of c))
      → to_bytes x c ≡ ok raw
      → from_bytes x raw ≡ ok c
  unfolding to_bytes
  from_bytes-to_bytes c raw s json packed =
      let header = x.dumps (header_of c) in
      let fits : length header ≤ max_header_len = ground arith in
      let shape : raw ≡ magic ++ (be32 (length header) ++ (header ++ c.body)) = ground arith in
      rw (shape, from_bytes-packed header c.body fits, json) (read_header-header_of c s)
