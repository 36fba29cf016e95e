-- ===== src/Chunking.antt =====
-- uxsp/core/chunking.py: payloads cut into chunks, packed, unpacked, and put together again.
pub mod Transfer
pub mod Split
pub mod Checked
pub mod Packed
pub mod Whole
use uxsp.Prelude.{
  ℕ, zero, suc, ◌+◌, ◌*◌, ◌/◌, ◌%◌, String, str_eq, Bool, true, false, not, ◌&&◌, ◌||◌, leb, ltb,
  ◌==◌, if◌then◌else◌, length, take, drop, map, Option, none, some, List, [], ◌∷◌, ◌++◌,
}
use uxsp.Prelude.Result.{
  Result, ok, err, ◌>>=◌, ◌>>◌, guard, value_error, type_error, other_error, chunk_format,
  chunk_validation,
}
use uxsp.Prelude.Dict.{Dict, get}
use uxsp.Prelude.Value.{ℤ, pos, Value, null, int, str, arr, obj, other}
use uxsp.Prelude.Text.{codes}
use uxsp.Crypto.Symmetric.{Bytes}

-- Python's built-in and standard functions that chunks go through. `loads` answers `none` for a text
-- that does not decode, and `some none` for a value that is not an object; `encode` and `decode` raise
-- `other_error` for an unknown encoding and `value_error` for a text that the encoding cannot hold.
pub record Library : Type 0 where
  pub sha256_hex : Bytes → String
  pub is_hex : String → Bool
  pub lower : String → String
  pub dumps : Dict Value → Bytes
  pub loads : Bytes → Option (Option (Dict Value))
  pub encode : String → String → Result Bytes
  pub decode : String → Bytes → Result String
  -- whether the value `other n` is hashable
  pub is_hashable : ℕ → Bool

-- `_MAGIC`, `_MAX_HEADER_LEN`, `_VALID_KINDS`
abbrev pub magic : Bytes
magic = codes "UXSP-CHUNK-1"

abbrev pub max_header_len : ℕ
max_header_len = 65536

abbrev pub is_valid_kind : String → Bool
is_valid_kind k = str_eq k "file" || (str_eq k "binary" || str_eq k "text")

pub record UxspChunk : Type 0 where
  pub transfer_id : String
  pub chunk_index : ℕ
  pub total_chunks : ℕ
  pub file_hash_sha256 : String
  pub chunk_hash_sha256 : String
  pub kind : String
  pub body : Bytes
  pub filename : Option String
  pub content_type : String
  pub encoding : Option String

-- `int.to_bytes(4, "big")` and `int.from_bytes(…, "big")`
abbrev pub be32 : ℕ → Bytes
be32 n = (n / 16777216) ∷ (n / 65536 % 256) ∷ (n / 256 % 256) ∷ (n % 256) ∷ []

abbrev pub from_be : ℕ → Bytes → ℕ
from_be n [] = n
from_be n (b ∷ bs) = from_be (n * 256 + b) bs

abbrev pub text_or_null : Option String → Value
text_or_null none = null
text_or_null (some s) = str s

-- The header dictionary of `to_bytes`.
abbrev pub header_of : UxspChunk → Dict Value
header_of c =
    ("transfer_id", str c.transfer_id)
    ∷ ("chunk_index", int (pos c.chunk_index))
    ∷ ("total_chunks", int (pos c.total_chunks))
    ∷ ("file_hash_sha256", str c.file_hash_sha256)
    ∷ ("chunk_hash_sha256", str c.chunk_hash_sha256)
    ∷ ("kind", str c.kind)
    ∷ ("filename", text_or_null c.filename)
    ∷ ("content_type", str c.content_type)
    ∷ ("encoding", text_or_null c.encoding)
    ∷ ("body_len", int (pos (length c.body)))
    ∷ []

-- `_require_non_negative_int`
abbrev pub non_negative : Option Value → Result ℕ
non_negative (some (int (pos n))) = ok n
non_negative _ = err chunk_validation

abbrev pub optional_text : Option Value → Result (Option String)
optional_text none = ok none
optional_text (some null) = ok none
optional_text (some (str s)) = ok (some s)
optional_text _ = err chunk_validation

abbrev pub nonempty_text : Option Value → Result String
nonempty_text (some (str s)) = if str_eq s "" then err chunk_validation else ok s
nonempty_text _ = err chunk_validation

-- `encoding`: absent, null or a text that is not empty.
abbrev pub optional_nonempty : Option Value → Result (Option String)
optional_nonempty none = ok none
optional_nonempty (some null) = ok none
optional_nonempty (some (str s)) = if str_eq s "" then err chunk_validation else ok (some s)
optional_nonempty _ = err chunk_validation

-- `len(s)`
unfoldable pub string_length : String → ℕ
string_length String.[] = 0
string_length (String.◌∷◌ c s) = suc (string_length s)

module _ (x : Library) where
  -- A list or an object is unhashable, so that the test for membership raises TypeError.
  abbrev pub kind_of : Option Value → Result String
  kind_of (some (str k)) = if is_valid_kind k then ok k else err chunk_validation
  kind_of (some (arr items)) = err type_error
  kind_of (some (obj fields)) = err type_error
  kind_of (some (other n)) = if x.is_hashable n then err chunk_validation else err type_error
  kind_of _ = err chunk_validation

  -- `_validate_sha256_hex`
  unfoldable pub digest : Option Value → Result String
  digest (some (str s)) = do
    guard (string_length s == 64) chunk_validation
    guard (x.is_hex s) chunk_validation
    ok (x.lower s)
  digest _ = err chunk_validation

  -- The constructor, with `__post_init__`.
  unfoldable pub make_chunk : UxspChunk → Result UxspChunk
  make_chunk c = do
    file_hash ← digest (some (str c.file_hash_sha256))
    chunk_hash ← digest (some (str c.chunk_hash_sha256))
    ok (record c { file_hash_sha256 = file_hash; chunk_hash_sha256 = chunk_hash })

  unfoldable pub to_bytes : UxspChunk → Result Bytes
  to_bytes c =
      let header_raw = x.dumps (header_of c) in
      if ltb max_header_len (length header_raw)
      then err chunk_validation
      else ok (magic ++ (be32 (length header_raw) ++ (header_raw ++ c.body)))

  abbrev pub object_of : Option (Option (Dict Value)) → Result (Dict Value)
  object_of (some (some d)) = ok d
  object_of _ = err chunk_format

  -- The checks of `from_bytes` on the position and the hashes.
  unfoldable pub read_position :
      Dict Value → Bytes → String → Option String → String → Option String → Result UxspChunk
  read_position d body kind filename content_type encoding = do
    transfer_id ← nonempty_text (get "transfer_id" d)
    chunk_index ← non_negative (get "chunk_index" d)
    total_chunks ← non_negative (get "total_chunks" d)
    guard (not (total_chunks == 0)) chunk_validation
    guard (ltb chunk_index total_chunks) chunk_validation
    file_hash ← digest (get "file_hash_sha256" d)
    chunk_hash ← digest (get "chunk_hash_sha256" d)
    guard (str_eq (x.sha256_hex body) chunk_hash) chunk_validation
    make_chunk (record {
      transfer_id = transfer_id;
      chunk_index = chunk_index;
      total_chunks = total_chunks;
      file_hash_sha256 = file_hash;
      chunk_hash_sha256 = chunk_hash;
      kind = kind;
      body = body;
      filename = filename;
      content_type = content_type;
      encoding = encoding;
    })

  -- All checks of `from_bytes` on the header's fields, in order.
  unfoldable pub read_header : Dict Value → Bytes → Result UxspChunk
  read_header d body = do
    expected_len ← non_negative (get "body_len" d)
    guard (expected_len == length body) chunk_validation
    kind ← kind_of (get "kind" d)
    filename ← optional_text (get "filename" d)
    content_type ← nonempty_text (get "content_type" d)
    encoding ← optional_nonempty (get "encoding" d)
    read_position d body kind filename content_type encoding

  -- `buf.startswith(_MAGIC)`
  abbrev pub starts_with : Bytes → Bytes → Bool
  starts_with [] bs = true
  starts_with (a ∷ as') [] = false
  starts_with (a ∷ as') (b ∷ bs) = (a == b) && starts_with as' bs

  unfoldable pub from_bytes : Bytes → Result UxspChunk
  from_bytes raw = do
    guard (leb 16 (length raw)) chunk_format
    guard (starts_with magic raw) chunk_format
    let header_len = from_be 0 (take 4 (drop 12 raw))
    guard (leb header_len max_header_len) chunk_format
    guard (leb (16 + header_len) (length raw)) chunk_format
    header ← object_of (x.loads (take header_len (drop 16 raw)))
    read_header header (drop header_len (drop 16 raw))
