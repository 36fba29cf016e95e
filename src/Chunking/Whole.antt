-- ===== src/Chunking/Whole.antt =====
-- uxsp/core/chunking.py: data that is cut into chunks is assembled to the same data.
use uxsp.Prelude.{
  ℕ, suc, ◌+◌, ◌≤◌, ◌<◌, ◌≡◌, refl, String, str_eq, str_eq_iff, true, false, ==_iff, length, map,
  subst, arith, Option, none, some, List, [], ◌∷◌, inl, inr,
}
use uxsp.Prelude.Result.{ok, Result-cases}
use uxsp.Prelude.Value.{pos, str}
use uxsp.Crypto.Symmetric.{Bytes}
use uxsp.Chunking.{
  Library, UxspChunk, is_valid_kind, optional_nonempty, text_or_null, header_of, digest, make_chunk,
  to_bytes,
}
use uxsp.Chunking.Transfer.{
  raw_chunks, slices, join, Options, Metadata, metadata_of, same_option, all_match, has_index,
  distinct_indices, insert, sort, pack, create_chunked_transfer, from_bytes_all, assemble,
  reassemble_chunked_transfer,
}
use uxsp.Chunking.Split.{join-slices}
use uxsp.Chunking.Packed.{IsSound, from_bytes-to_bytes}

-- The bodies of data join to the data, of empty data too.
join-raw_chunks_all : (size : ℕ) (raw : Bytes) → 0 < size → join (raw_chunks size raw) ≡ raw
unfolding raw_chunks
join-raw_chunks_all size [] h = unfold join in refl
join-raw_chunks_all size (b ∷ raw) h = join-slices (length (b ∷ raw)) size (b ∷ raw) h (omega arith)

same_option_refl : (o : Option String) → same_option o o ≡ true
same_option_refl none = refl
same_option_refl (some s) = (str_eq_iff s s).1 refl

-- The options of a transfer that every chunk of it can be read with.
pub record IsReadable (o : Options) : Type 0 where
  pub kind : is_valid_kind o.kind ≡ true
  pub content_type : str_eq o.content_type "" ≡ false
  pub encoding : optional_nonempty (some (text_or_null o.encoding)) ≡ ok o.encoding

-- A chunk of a transfer: what its header says of it, but for its place and the length of its body.
pub record IsPart (x : Library) (o : Options) (transfer_id file_hash : String) (c : UxspChunk)
    : Type 0 where
  pub same_transfer_id : c.transfer_id ≡ transfer_id
  pub same_file_hash : c.file_hash_sha256 ≡ file_hash
  pub same_chunk_hash : c.chunk_hash_sha256 ≡ x.sha256_hex c.body
  pub same_kind : c.kind ≡ o.kind
  pub same_filename : c.filename ≡ o.filename
  pub same_content_type : c.content_type ≡ o.content_type
  pub same_encoding : c.encoding ≡ o.encoding

-- JSON reads back the headers that it wrote of the chunks of a transfer.
abbrev pub ReadsHeaders : Library → Options → String → String → Type 0
ReadsHeaders x o transfer_id file_hash =
    (c : UxspChunk)
    → IsPart x o transfer_id file_hash c
    → x.loads (x.dumps (header_of c)) ≡ some (some (header_of c))

module _ (x : Library) (o : Options) (transfer_id file_hash : String) (total : ℕ) where
  -- The chunk with a body, at an index.
  abbrev chunk_at : ℕ → Bytes → UxspChunk
  chunk_at i body = record {
    transfer_id = transfer_id;
    chunk_index = i;
    total_chunks = total;
    file_hash_sha256 = file_hash;
    chunk_hash_sha256 = x.sha256_hex body;
    kind = o.kind;
    body = body;
    filename = o.filename;
    content_type = o.content_type;
    encoding = o.encoding;
  }

  unfoldable chunks_from : ℕ → List Bytes → List UxspChunk
  chunks_from i [] = []
  chunks_from i (body ∷ bodies) = chunk_at i body ∷ chunks_from (i + 1) bodies

  length-chunks_from : (i : ℕ) (bodies : List Bytes) → length (chunks_from i bodies) ≡ length bodies
  unfolding chunks_from
  length-chunks_from i [] = refl
  length-chunks_from i (body ∷ bodies) = omega (arith, length-chunks_from (i + 1) bodies)

  bodies-chunks_from :
      (i : ℕ) (bodies : List Bytes)
      → map (λ (c : UxspChunk). c.body) (chunks_from i bodies) ≡ bodies
  unfolding chunks_from
  bodies-chunks_from i [] = refl
  bodies-chunks_from i (body ∷ bodies) = rw (bodies-chunks_from (i + 1) bodies) refl

  all_match-chunks_from :
      (i k : ℕ) (first : Bytes) (bodies : List Bytes)
      → all_match (chunk_at k first) (chunks_from i bodies) ≡ true
  unfolding all_match chunks_from
  all_match-chunks_from i k first [] = refl
  all_match-chunks_from i k first (body ∷ bodies) = ground (
    arith,
    str_eq_iff transfer_id transfer_id,
    str_eq_iff file_hash file_hash,
    str_eq_iff o.kind o.kind,
    str_eq_iff o.content_type o.content_type,
    same_option_refl o.filename,
    same_option_refl o.encoding,
    all_match-chunks_from (i + 1) k first bodies,
  )

  has_index-chunks_from :
      (n i : ℕ) (bodies : List Bytes) → n < i → has_index n (chunks_from i bodies) ≡ false
  unfolding has_index chunks_from
  has_index-chunks_from n i [] h = refl
  has_index-chunks_from n i (body ∷ bodies) h =
      ground (arith, has_index-chunks_from n (i + 1) bodies (omega arith))

  distinct-chunks_from :
      (i : ℕ) (bodies : List Bytes) → distinct_indices (chunks_from i bodies) ≡ true
  unfolding distinct_indices chunks_from
  distinct-chunks_from i [] = refl
  distinct-chunks_from i (body ∷ bodies) = ground (
    arith,
    has_index-chunks_from i (i + 1) bodies (omega arith),
    distinct-chunks_from (i + 1) bodies,
  )

  insert-chunks_from :
      (i : ℕ) (body : Bytes) (bodies : List Bytes)
      → insert (chunk_at i body) (chunks_from (i + 1) bodies)
        ≡ chunk_at i body ∷ chunks_from (i + 1) bodies
  unfolding insert chunks_from
  insert-chunks_from i body [] = refl
  insert-chunks_from i body (next ∷ bodies) = ground arith

  sort-chunks_from :
      (i : ℕ) (bodies : List Bytes) → sort (chunks_from i bodies) ≡ chunks_from i bodies
  unfolding sort chunks_from
  sort-chunks_from i [] = refl
  sort-chunks_from i (body ∷ bodies) =
      rw (sort-chunks_from (i + 1) bodies) (insert-chunks_from i body bodies)

  -- The chunks of a whole transfer pass the tests on each other, and their bodies join to the data.
  assemble-chunks_from :
      (first : Bytes) (bodies : List Bytes)
      → length (first ∷ bodies) ≡ total
      → x.sha256_hex (join (first ∷ bodies)) ≡ file_hash
      → assemble x (chunk_at 0 first ∷ chunks_from 1 bodies)
        ≡ ok (metadata_of (chunk_at 0 first), join (first ∷ bodies))
  unfolding assemble
  assemble-chunks_from first bodies n h =
      let sorted = sort-chunks_from 0 (first ∷ bodies) in
      let joined = bodies-chunks_from 0 (first ∷ bodies) in
      let apart = distinct-chunks_from 0 (first ∷ bodies) in
      unfold chunks_from in
      ground (
        arith,
        all_match-chunks_from 1 0 first bodies,
        apart,
        length-chunks_from 1 bodies,
        n,
        ==_iff (length (first ∷ bodies)) total,
        sorted,
        joined,
        h,
        str_eq_iff file_hash file_hash,
      )

  module _ (readable : IsReadable o) (named : str_eq transfer_id "" ≡ false)
      (hashed : (b : Bytes) → digest x (some (str (x.sha256_hex b))) ≡ ok (x.sha256_hex b))
      (file_hashed : digest x (some (str file_hash)) ≡ ok file_hash)
      (read_back : ReadsHeaders x o transfer_id file_hash) where
    chunk_at-IsSound : (i : ℕ) (body : Bytes) → i < total → IsSound x (chunk_at i body)
    chunk_at-IsSound i body h = record {
      kind = readable.kind;
      content_type = readable.content_type;
      encoding = readable.encoding;
      transfer_id = named;
      placed = h;
      file_hash = file_hashed;
      chunk_hash = hashed body;
      body_hash = refl;
    }

    chunk_at-IsPart : (i : ℕ) (body : Bytes) → IsPart x o transfer_id file_hash (chunk_at i body)
    chunk_at-IsPart i body = record {
      same_transfer_id = refl;
      same_file_hash = refl;
      same_chunk_hash = refl;
      same_kind = refl;
      same_filename = refl;
      same_content_type = refl;
      same_encoding = refl;
    }

    make_chunk-chunk_at :
        (i : ℕ) (body : Bytes) → make_chunk x (chunk_at i body) ≡ ok (chunk_at i body)
    unfolding make_chunk
    make_chunk-chunk_at i body = rw (file_hashed, hashed body) refl

    -- What was packed is read back chunk by chunk.
    from_bytes_all-pack :
        (i : ℕ) (bodies packed : List Bytes)
        → i + length bodies ≤ total
        → pack x o transfer_id file_hash total i bodies ≡ ok packed
        → from_bytes_all x packed ≡ ok (chunks_from i bodies)
    unfolding pack from_bytes_all chunks_from
    from_bytes_all-pack i [] packed h e = let same : packed ≡ [] = cc e in rw same refl
    from_bytes_all-pack i (body ∷ bodies) packed h e =
        elim (Result-cases (to_bytes x (chunk_at i body))) [
          | inr (k, a) ↦ absurd (ground (arith, make_chunk-chunk_at i body, a, e))
          | inl (raw, a) ↦
              elim (Result-cases (pack x o transfer_id file_hash total (i + 1) bodies)) [
                | inr (k, b) ↦ absurd (ground (arith, make_chunk-chunk_at i body, a, b, e))
                | inl (rest, b) ↦
                    let same : packed ≡ raw ∷ rest =
                      ground (arith, make_chunk-chunk_at i body, a, b, e) in
                    let first =
                      from_bytes-to_bytes x (chunk_at i body) raw
                        (chunk_at-IsSound i body (omega arith))
                        (read_back (chunk_at i body) (chunk_at-IsPart i body)) a in
                    rw (same, first, from_bytes_all-pack (i + 1) bodies rest (omega arith) b) refl
              ]
        ]

-- Data is never cut into no chunks at all.
raw_chunks_cons :
    (size : ℕ) (raw : Bytes)
    → (first : Bytes) × (bodies : List Bytes) × (raw_chunks (suc size) raw ≡ first ∷ bodies)
unfolding raw_chunks slices
raw_chunks_cons size [] = ([], [], refl)
raw_chunks_cons size (b ∷ raw) = (_, _, refl)

reassemble-from_bytes_all :
    (x : Library) (packed : List Bytes) (c : UxspChunk) (cs : List UxspChunk)
    → from_bytes_all x packed ≡ ok (c ∷ cs)
    → reassemble_chunked_transfer x packed ≡ assemble x (c ∷ cs)
unfolding reassemble_chunked_transfer
reassemble-from_bytes_all x [] c cs h = absurd (unfold from_bytes_all in ground (arith, h))
reassemble-from_bytes_all x (b ∷ bs) c cs h = rw h refl

-- The dictionary that describes a transfer.
abbrev pub described : Library → String → Options → Bytes → ℕ → Metadata
described x transfer_id o raw total = record {
  transfer_id = transfer_id;
  total_chunks = total;
  kind = o.kind;
  filename = o.filename;
  content_type = o.content_type;
  encoding = o.encoding;
  file_hash_sha256 = x.sha256_hex raw;
}

-- Data of any length that was cut and packed into chunks is assembled from them to the same data, with the
-- description that it was sent with: when the options can be read back, the transfer has an
-- identifier, a digest is in the form that the code keeps digests in, and JSON reads back the headers
-- that it wrote of the chunks.
pub reassemble-create :
    (x : Library) (transfer_id : String) (raw : Bytes) (size : ℕ) (o : Options)
    (packed : List Bytes)
    → IsReadable o
    → str_eq transfer_id "" ≡ false
    → ((b : Bytes) → digest x (some (str (x.sha256_hex b))) ≡ ok (x.sha256_hex b))
    → ReadsHeaders x o transfer_id (x.sha256_hex raw)
    → create_chunked_transfer x transfer_id raw (pos (suc size)) o ≡ ok packed
    → reassemble_chunked_transfer x packed
      ≡ ok (described x transfer_id o raw (length (raw_chunks (suc size) raw)), raw)
unfolding create_chunked_transfer
reassemble-create x transfer_id raw size o packed readable named hashed read_back created =
    let bodies = raw_chunks (suc size) raw in
    let (first, rest, shape) = raw_chunks_cons size raw in
    let whole : join (first ∷ rest) ≡ raw =
      subst (λ (t : List Bytes). join t ≡ raw) shape
        (join-raw_chunks_all (suc size) raw (omega arith)) in
    let decoded =
      from_bytes_all-pack x o transfer_id (x.sha256_hex raw) (length bodies) readable named hashed
        (hashed raw) read_back 0 bodies packed (omega arith) created in
    let assembled =
      assemble-chunks_from x o transfer_id (x.sha256_hex raw) (length bodies) first rest
        (rw shape refl) (rw whole refl) in
    let all =
      λ (t : List Bytes). chunks_from x o transfer_id (x.sha256_hex raw) (length bodies) 0 t in
    let read : from_bytes_all x packed ≡ ok (all (first ∷ rest)) =
      subst (λ (t : List Bytes). from_bytes_all x packed ≡ ok (all t)) shape decoded in
    let start =
      reassemble-from_bytes_all x packed
        (chunk_at x o transfer_id (x.sha256_hex raw) (length bodies) 0 first)
        (chunks_from x o transfer_id (x.sha256_hex raw) (length bodies) 1 rest)
        (unfold chunks_from in read) in
    rw (start, assembled, whole) refl
