-- ===== src/Payload.antt =====
-- uxsp/core/payload.py: the container of every message: a header in JSON, and the body.
pub mod Packed
use uxsp.Prelude.{
  ℕ, zero, suc, ◌+◌, String, str_eq, Bool, true, false, not, ◌||◌, leb, ltb, ◌==◌, if◌then◌else◌,
  length, take, drop, Option, none, some, List, [], ◌∷◌, ◌++◌,
}
use uxsp.Prelude.Result.{
  Result, ok, err, ◌>>=◌, ◌>>◌, guard, value_error, type_error, other_error, payload_format,
  payload_validation,
}
use uxsp.Prelude.Dict.{Dict, get}
use uxsp.Prelude.Value.{ℤ, pos, Value, null, int, str, arr, obj, other}
use uxsp.Prelude.Text.{codes}
use uxsp.Crypto.Symmetric.{Bytes}
use uxsp.Chunking.{Library, be32, from_be, text_or_null, starts_with}

abbrev pub magic : Bytes
magic = codes "UXSP-PAYLOAD-1"

abbrev pub max_header_len : ℕ
max_header_len = 4294967295

abbrev pub is_valid_kind : String → Bool
is_valid_kind k = str_eq k "text" || (str_eq k "file" || str_eq k "binary")

pub record UxspPayload : Type 0 where
  pub kind : String
  pub body : Bytes
  pub filename : Option String
  pub content_type : String
  pub encoding : Option String

-- The header dictionary of `to_bytes`.
abbrev pub header_of : UxspPayload → Dict Value
header_of c =
    ("kind", str c.kind)
    ∷ ("filename", text_or_null c.filename)
    ∷ ("content_type", str c.content_type)
    ∷ ("encoding", text_or_null c.encoding)
    ∷ ("body_len", int (pos (length c.body)))
    ∷ []

-- An `int`, not a `bool`, not negative.
abbrev pub body_length : Option Value → Result ℕ
body_length (some (int (pos n))) = ok n
body_length _ = err payload_validation

abbrev pub optional_text : Option Value → Result (Option String)
optional_text none = ok none
optional_text (some null) = ok none
optional_text (some (str s)) = ok (some s)
optional_text _ = err payload_validation

abbrev pub nonempty_text : Option Value → Result String
nonempty_text (some (str s)) = if str_eq s "" then err payload_validation else ok s
nonempty_text _ = err payload_validation

-- `encoding`: absent, null or a text that is not empty.
abbrev pub optional_nonempty : Option Value → Result (Option String)
optional_nonempty none = ok none
optional_nonempty (some null) = ok none
optional_nonempty (some (str s)) = if str_eq s "" then err payload_validation else ok (some s)
optional_nonempty _ = err payload_validation

-- `except LookupError: raise PayloadValidationError`
abbrev pub unknown_as_validation {ℓ} : {A : Type ℓ} → Result A → Result A
unknown_as_validation (err other_error) = err payload_validation
unknown_as_validation r = r

-- `except UnicodeDecodeError: raise PayloadValidationError`
abbrev pub undecodable_as_validation {ℓ} : {A : Type ℓ} → Result A → Result A
undecodable_as_validation (err value_error) = err payload_validation
undecodable_as_validation r = r

abbrev pub encoding_of : Option String → Result String
encoding_of none = err payload_validation
encoding_of (some s) = ok s

abbrev pub is_named : Option String → Bool
is_named none = true
is_named (some s) = not (str_eq s "")

module _ (x : Library) where
  -- A list or an object is unhashable, so that the test for membership raises TypeError.
  abbrev pub kind_of : Option Value → Result String
  kind_of (some (str k)) = if is_valid_kind k then ok k else err payload_validation
  kind_of (some (arr items)) = err type_error
  kind_of (some (obj fields)) = err type_error
  kind_of (some (other n)) = if x.is_hashable n then err payload_validation else err type_error
  kind_of _ = err payload_validation

  unfoldable pub to_bytes : UxspPayload → Result Bytes
  to_bytes c =
      let header_raw = x.dumps (header_of c) in
      if ltb max_header_len (length header_raw)
      then err payload_validation
      else ok (magic ++ (be32 (length header_raw) ++ (header_raw ++ c.body)))

  abbrev pub object_of : Option (Option (Dict Value)) → Result (Dict Value)
  object_of (some (some d)) = ok d
  object_of _ = err payload_format

  -- The checks of `from_bytes` on the header's fields, in order.
  unfoldable pub read_header : Dict Value → Bytes → Result UxspPayload
  read_header d body = do
    expected_len ← body_length (get "body_len" d)
    guard (expected_len == length body) payload_validation
    kind ← kind_of (get "kind" d)
    filename ← optional_text (get "filename" d)
    content_type ← nonempty_text (get "content_type" d)
    encoding ← optional_nonempty (get "encoding" d)
    ok (record {
      kind = kind;
      body = body;
      filename = filename;
      content_type = content_type;
      encoding = encoding;
    })

  unfoldable pub from_bytes : Bytes → Result UxspPayload
  from_bytes raw = do
    guard (leb 18 (length raw)) payload_format
    guard (starts_with x magic raw) payload_format
    let header_len = from_be 0 (take 4 (drop 14 raw))
    guard (leb (18 + header_len) (length raw)) payload_format
    header ← object_of (x.loads (take header_len (drop 18 raw)))
    read_header header (drop header_len (drop 18 raw))

  unfoldable pub pack_text : String → String → Result Bytes
  pack_text text encoding = do
    guard (not (str_eq encoding "")) payload_validation
    body ← unknown_as_validation (x.encode encoding text)
    to_bytes (record {
      kind = "text";
      body = body;
      filename = none;
      content_type = "text/plain";
      encoding = some encoding;
    })

  unfoldable pub unpack_text : Bytes → Result String
  unpack_text raw = do
    payload ← from_bytes raw
    guard (str_eq payload.kind "text") payload_validation
    encoding ← encoding_of payload.encoding
    undecodable_as_validation (x.decode encoding payload.body)

  unfoldable pub pack_binary : Bytes → Option String → String → Result Bytes
  pack_binary data' filename content_type = do
    guard (not (str_eq content_type "")) payload_validation
    guard (is_named filename) payload_validation
    to_bytes (record {
      kind = "binary";
      body = data';
      filename = filename;
      content_type = content_type;
      encoding = none;
    })
