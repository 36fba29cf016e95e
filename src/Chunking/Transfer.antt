-- ===== src/Chunking/Transfer.antt =====
-- uxsp/core/chunking.py: whole transfers, as bytes and as text.
use uxsp.Prelude.{
  ℕ, zero, suc, ◌+◌, String, str_eq, Bool, true, false, not, ◌&&◌, ◌||◌, leb, ◌==◌, if◌then◌else◌,
  length, take, drop, map, Option, none, some, List, [], ◌∷◌, ◌++◌,
}
use uxsp.Prelude.Result.{Result, ok, err, ◌>>=◌, ◌>>◌, guard, other_error, chunk_validation}
use uxsp.Prelude.Value.{ℤ, pos, negsuc}
use uxsp.Crypto.Symmetric.{Bytes}
use uxsp.Chunking.{Library, UxspChunk, make_chunk, to_bytes, from_bytes}

-- `[raw[i : i + size] for i in range(0, len(raw), size)]`, on fuel.
unfoldable pub slices : ℕ → ℕ → Bytes → List Bytes
slices fuel size [] = []
slices zero size (b ∷ raw) = []
slices (suc fuel) size (b ∷ raw) = take size (b ∷ raw) ∷ slices fuel size (drop size (b ∷ raw))

-- Each slice takes a byte or more, so the length is fuel enough; no data is one empty chunk.
unfoldable pub raw_chunks : ℕ → Bytes → List Bytes
raw_chunks size [] = [] ∷ []
raw_chunks size (b ∷ raw) = slices (length (b ∷ raw)) size (b ∷ raw)

-- `b"".join(…)`
unfoldable pub join : List Bytes → Bytes
join [] = []
join (b ∷ bs) = b ++ join bs

-- The options of a transfer.
pub record Options : Type 0 where
  pub kind : String
  pub filename : Option String
  pub content_type : String
  pub encoding : Option String

-- The dictionary that `reassemble_chunked_transfer` returns.
pub record Metadata : Type 0 where
  pub transfer_id : String
  pub total_chunks : ℕ
  pub kind : String
  pub filename : Option String
  pub content_type : String
  pub encoding : Option String
  pub file_hash_sha256 : String

abbrev pub metadata_of : UxspChunk → Metadata
metadata_of c = record {
  transfer_id = c.transfer_id;
  total_chunks = c.total_chunks;
  kind = c.kind;
  filename = c.filename;
  content_type = c.content_type;
  encoding = c.encoding;
  file_hash_sha256 = c.file_hash_sha256;
}

abbrev pub same_option : Option String → Option String → Bool
same_option none none = true
same_option (some s) (some t) = str_eq s t
same_option _ _ = false

-- The tests on one further chunk `c`, against the first.
abbrev pub matches_first : UxspChunk → UxspChunk → Bool
matches_first first c =
    str_eq c.transfer_id first.transfer_id
    && (c.total_chunks == first.total_chunks
        && (str_eq c.file_hash_sha256 first.file_hash_sha256
            && (str_eq c.kind first.kind
                && (str_eq c.content_type first.content_type
                    && (same_option c.filename first.filename
                        && same_option c.encoding first.encoding)))))

unfoldable pub all_match : UxspChunk → List UxspChunk → Bool
all_match first [] = true
all_match first (c ∷ cs) = matches_first first c && all_match first cs

unfoldable pub has_index : ℕ → List UxspChunk → Bool
has_index n [] = false
has_index n (c ∷ cs) = n == c.chunk_index || has_index n cs

-- `len({c.chunk_index for c in decoded}) == len(decoded)`
unfoldable pub distinct_indices : List UxspChunk → Bool
distinct_indices [] = true
distinct_indices (c ∷ cs) = not (has_index c.chunk_index cs) && distinct_indices cs

-- `sorted(decoded, key=lambda c: c.chunk_index)`
unfoldable pub insert : UxspChunk → List UxspChunk → List UxspChunk
insert c [] = c ∷ []
insert c (d ∷ ds) = if leb c.chunk_index d.chunk_index then c ∷ d ∷ ds else d ∷ insert c ds

unfoldable pub sort : List UxspChunk → List UxspChunk
sort [] = []
sort (c ∷ cs) = insert c (sort cs)

module _ (x : Library) where
  -- The loop that packs the bodies, from the index `i` on.
  unfoldable pub pack : Options → String → String → ℕ → ℕ → List Bytes → Result (List Bytes)
  pack o transfer_id file_hash total i [] = ok []
  pack o transfer_id file_hash total i (body ∷ bodies) = do
    c ← make_chunk x (record {
      transfer_id = transfer_id;
      chunk_index = i;
      total_chunks = total;
      file_hash_sha256 = file_hash;
      chunk_hash_sha256 = x.sha256_hex body;
      kind = o.kind;
      body = body;
      filename = o.filename;
      content_type = o.content_type;
      encoding = o.encoding;
    })
    packed ← to_bytes x c
    rest ← pack o transfer_id file_hash total (i + 1) bodies
    ok (packed ∷ rest)

  -- `transfer_id` is what `uuid.uuid4().hex` returned.
  unfoldable pub create_chunked_transfer : String → Bytes → ℤ → Options → Result (List Bytes)
  create_chunked_transfer transfer_id raw (negsuc n) o = err chunk_validation
  create_chunked_transfer transfer_id raw (pos zero) o = err chunk_validation
  create_chunked_transfer transfer_id raw (pos (suc size)) o =
      let bodies = raw_chunks (suc size) raw in
      pack o transfer_id (x.sha256_hex raw) (length bodies) 0 bodies

  unfoldable pub from_bytes_all : List Bytes → Result (List UxspChunk)
  from_bytes_all [] = ok []
  from_bytes_all (b ∷ bs) = do c ← from_bytes x b; cs ← from_bytes_all bs; ok (c ∷ cs)

  -- The tests of `reassemble_chunked_transfer` on the decoded chunks; without any it raised before.
  unfoldable pub assemble : List UxspChunk → Result (Metadata × Bytes)
  assemble [] = err chunk_validation
  assemble (first ∷ others) = do
    guard (all_match first others) chunk_validation
    guard (distinct_indices (first ∷ others)) chunk_validation
    guard (length (first ∷ others) == first.total_chunks) chunk_validation
    let assembled = join (map (λ c. c.body) (sort (first ∷ others)))
    guard (str_eq (x.sha256_hex assembled) first.file_hash_sha256) chunk_validation
    ok (metadata_of first, assembled)

  unfoldable pub reassemble_chunked_transfer : List Bytes → Result (Metadata × Bytes)
  reassemble_chunked_transfer [] = err chunk_validation
  reassemble_chunked_transfer (b ∷ bs) = do decoded ← from_bytes_all (b ∷ bs); assemble decoded

  -- `except LookupError`
  abbrev pub encoded_or_error : Result Bytes → Result Bytes
  encoded_or_error (ok b) = ok b
  encoded_or_error (err other_error) = err chunk_validation
  encoded_or_error (err e) = err e

  unfoldable pub create_chunked_text : String → String → ℤ → String → Result (List Bytes)
  create_chunked_text transfer_id text' chunk_size encoding = do
    guard (not (str_eq encoding "")) chunk_validation
    raw ← encoded_or_error (x.encode encoding text')
    create_chunked_transfer transfer_id raw chunk_size (record {
      kind = "text";
      filename = none;
      content_type = "text/plain";
      encoding = some encoding;
    })

  -- `meta.get("encoding") or "utf-8"`
  abbrev pub encoding_or_utf_8 : Option String → String
  encoding_or_utf_8 none = "utf-8"
  encoding_or_utf_8 (some e) = if str_eq e "" then "utf-8" else e

  -- `except (LookupError, UnicodeDecodeError)`
  abbrev pub decoded_or_error : Result String → Result String
  decoded_or_error (ok s) = ok s
  decoded_or_error (err e) = err chunk_validation

  unfoldable pub decode_chunked_text : List Bytes → Result String
  decode_chunked_text packed = do
    r ← reassemble_chunked_transfer packed
    guard (str_eq r.0.kind "text") chunk_validation
    decoded_or_error (x.decode (encoding_or_utf_8 r.0.encoding) r.1)
