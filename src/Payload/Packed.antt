-- ===== src/Payload/Packed.antt =====
-- uxsp/core/payload.py: what was packed is unpacked unchanged.
use uxsp.Prelude.{
  ℕ, ◌≤◌, ◌≡◌, refl, String, str_eq, true, false, ==_iff, length, length-append, take-length-append,
  drop-length-append, arith, Option, none, some, ◌++◌,
}
use uxsp.Prelude.Result.{ok, ◌>>=◌}
use uxsp.Prelude.Dict.{get}
use uxsp.Crypto.Symmetric.{Bytes}
use uxsp.Chunking.{Library, be32, from_be, text_or_null}
use uxsp.Payload.{
  UxspPayload, magic, max_header_len, header_of, is_valid_kind, optional_text, optional_nonempty,
  to_bytes, from_bytes, read_header, object_of, pack_text, unpack_text, pack_binary,
}

from_be-be32 : (n : ℕ) → n ≤ max_header_len → from_be 0 (be32 n) ≡ n
from_be-be32 n h = omega arith

module _ (x : Library) where
  -- The fields pass the tests of `from_bytes`.
  pub record IsSound (c : UxspPayload) : Type 0 where
    pub kind : is_valid_kind c.kind ≡ true
    pub content_type : str_eq c.content_type "" ≡ false
    pub encoding : optional_nonempty (some (text_or_null c.encoding)) ≡ ok c.encoding

  optional_text-text_or_null : (o : Option String) → optional_text (some (text_or_null o)) ≡ ok o
  optional_text-text_or_null none = refl
  optional_text-text_or_null (some s) = refl

  read_header-header_of : (c : UxspPayload) → IsSound c → read_header x (header_of c) c.body ≡ ok c
  unfolding read_header get
  read_header-header_of c s = ground (
    arith,
    s.kind,
    s.content_type,
    s.encoding,
    optional_text-text_or_null c.filename,
    ==_iff (length c.body) (length c.body),
  )

  from_bytes-packed :
      (header body : Bytes)
      → length header ≤ max_header_len
      → from_bytes x (magic ++ (be32 (length header) ++ (header ++ body)))
        ≡ (object_of x (x.loads header) >>= λ d. read_header x d body)
  unfolding from_bytes
  from_bytes-packed header body h = ground (
    arith,
    from_be-be32 (length header) h,
    take-length-append header body,
    drop-length-append header body,
    length-append header body,
  )

  from_bytes-to_bytes_lem :
      (c : UxspPayload) (raw : Bytes)
      → IsSound c
      → x.loads (x.dumps (header_of c)) ≡ some (some (header_of c))
      → to_bytes x c ≡ ok raw
      → from_bytes x raw ≡ ok c
  unfolding to_bytes
  from_bytes-to_bytes_lem c raw s json packed =
      let header = x.dumps (header_of c) in
      let fits : length header ≤ max_header_len = ground arith in
      let shape : raw ≡ magic ++ (be32 (length header) ++ (header ++ c.body)) = ground arith in
      rw (shape, from_bytes-packed header c.body fits, json) (read_header-header_of c s)

  abbrev pub text_payload : Bytes → String → UxspPayload
  text_payload body encoding = record {
    kind = "text";
    body = body;
    filename = none;
    content_type = "text/plain";
    encoding = some encoding;
  }

  abbrev pub binary_payload : Bytes → Option String → String → UxspPayload
  binary_payload body filename content_type = record {
    kind = "binary";
    body = body;
    filename = filename;
    content_type = content_type;
    encoding = none;
  }

  -- A text that `pack_text` packs, `unpack_text` unpacks to the same text, when the encoding decodes
  -- what it encoded and JSON reads back the header that it wrote.
  pub unpack_text-pack_text :
      (text encoding : String) (body raw : Bytes)
      → x.encode encoding text ≡ ok body
      → x.decode encoding body ≡ ok text
      → x.loads (x.dumps (header_of (text_payload body encoding)))
        ≡ some (some (header_of (text_payload body encoding)))
      → pack_text x text encoding ≡ ok raw
      → unpack_text x raw ≡ ok text
  unfolding pack_text unpack_text
  unpack_text-pack_text text encoding body raw encoded decoded json packed =
      let sound : IsSound (text_payload body encoding) = record {
        kind = refl;
        content_type = refl;
        encoding = ground arith;
      } in
      let back =
        from_bytes-to_bytes_lem (text_payload body encoding) raw sound json
          (ground (arith, packed, encoded)) in
      ground (arith, back, decoded)

  -- Binary data that `pack_binary` packs, `from_bytes` unpacks with its file name and its type.
  pub from_bytes-pack_binary :
      (body : Bytes) (filename : Option String) (content_type : String) (raw : Bytes)
      → x.loads (x.dumps (header_of (binary_payload body filename content_type)))
        ≡ some (some (header_of (binary_payload body filename content_type)))
      → pack_binary x body filename content_type ≡ ok raw
      → from_bytes x raw ≡ ok (binary_payload body filename content_type)
  unfolding pack_binary
  from_bytes-pack_binary body filename content_type raw json packed =
      let sound : IsSound (binary_payload body filename content_type) = record {
        kind = refl;
        content_type = ground arith;
        encoding = refl;
      } in
      from_bytes-to_bytes_lem (binary_payload body filename content_type) raw sound json
        (ground arith)
