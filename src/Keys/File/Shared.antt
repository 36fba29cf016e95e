-- ===== src/Keys/File/Shared.antt =====
-- uxsp/storage/keystore.py: `FileKeyStore`s of several processes on one file, and a write that fails.
use uxsp.Prelude.{
  ℕ, ◌+◌, ◌==◌, ◌≡◌, ◌≢◌, refl, String, Bool, true, false, if◌then◌else◌, str_eq, str_eq_iff,
  length, some, [], ◌∷◌, arith, inl, inr, Bool-cases,
}
use uxsp.Prelude.Result.{Error, ok, err}
use uxsp.Prelude.Dict.{Dict, get as find, put as insert, get-put}
use uxsp.Prelude.Value.{ℤ, int}
use uxsp.Crypto.Parts.{Packages}
use uxsp.Identity.{Texts, validate_role}
use uxsp.Trust.Stored.{dict_of_fields-fields_of}
use uxsp.Keys.{CardType, entity_id, public_card_of}
use uxsp.Keys.Stored.{serialise_card, deserialise_card-serialise_card}
use uxsp.Keys.File.{
  Format, FileKeyStore, File, Disk, has_hash, raw_cards, cards_of, load_parts, load, file_dict,
  file_content, flush, put_loaded, put, get,
}

module _ (p : Packages) (x : Texts) (is_truthy : ℕ → Bool) (j : Format) where
  -- After a load the object's copy is what was returned, under the file's time and size.
  load-cache :
      (file : File) (s : FileKeyStore) (store : Dict CardType)
      → (load p x is_truthy j (some file) s).0 ≡ ok store
      → ((load p x is_truthy j (some file) s).1.cache ≡ some store)
        × ((load p x is_truthy j (some file) s).1.mtime_ns ≡ file.mtime_ns)
        × ((load p x is_truthy j (some file) s).1.size ≡ length file.content)
  unfolding load load_parts
  load-cache file s store h = ground (arith, h)

  -- An object whose copy carries the file's time and size does not read the file.
  load_kept :
      (file : File) (s : FileKeyStore) (store : Dict CardType)
      → s.cache ≡ some store
      → s.mtime_ns ≡ file.mtime_ns
      → s.size ≡ length file.content
      → load p x is_truthy j (some file) s ≡ (ok store, s)
  unfolding load
  load_kept file s store c m n = ground (arith, c, m, n)

  -- When a file is there and was read, a card that is put but cannot be written raises and leaves the file,
  -- and the next look-up of the same object answers with the card all the same.
  pub failed_put_answered :
      (card : CardType) (e : Error) (file : File) (s : FileKeyStore) (store : Dict CardType)
      → (load p x is_truthy j (some file) s).0 ≡ ok store
      → ((put p x is_truthy j (err e) card true s (some file)).0 ≡ err e)
        × ((put p x is_truthy j (err e) card true s (some file)).2 ≡ some file)
        × ((get p x is_truthy j
              (entity_id card)
              (put p x is_truthy j (err e) card true s (some file)).1
              (some file)).0
            ≡ ok (some card))
  unfolding put put_loaded flush get
  failed_put_answered card e file s store h =
      let s' = (load p x is_truthy j (some file) s).1 in
      let loaded = load-cache file s store h in
      let changed = insert (entity_id card) card store in
      let later : FileKeyStore = record s' { cache = some changed; version = s'.version + 1 } in
      (
        ground (arith, h),
        ground (arith, h),
        ground (
          arith,
          h,
          load_kept file later changed refl loaded.1 loaded.2,
          get-put (entity_id card) (entity_id card) card store,
          str_eq_iff (entity_id card) (entity_id card),
        ),
      )

  -- JSON reads back what is written for the cards.
  abbrev pub ReadsFile : Dict CardType → Type 0
  ReadsFile store =
      (n : ℕ)
      → j.loads (j.dump (file_dict p x is_truthy j n store))
        ≡ ok (file_dict p x is_truthy j n store)

  module _ (exact : (n : ℤ) → p.to_int (int n) ≡ ok n) where
    -- Every card has its role in the form that every card's role is brought to.
    abbrev pub AllValid : Dict CardType → Type 0
    AllValid [] = Unit
    AllValid ((i, c) ∷ d) =
        (validate_role x (public_card_of c).role ≡ ok (public_card_of c).role) × AllValid d

    cards_of-raw_cards :
        (d : Dict CardType) → AllValid d → cards_of p x is_truthy (raw_cards p d) ≡ ok d
    unfolding cards_of raw_cards
    cards_of-raw_cards [] v = refl
    cards_of-raw_cards ((i, c) ∷ d) v =
        rw
          (
            dict_of_fields-fields_of (serialise_card p c),
            deserialise_card-serialise_card p x is_truthy c v.0 exact,
            cards_of-raw_cards d v.1,
          )
          refl

    insert-AllValid :
        (k : String) (c : CardType) (d : Dict CardType)
        → validate_role x (public_card_of c).role ≡ ok (public_card_of c).role
        → AllValid d
        → AllValid (insert k c d)
    unfolding insert
    insert-AllValid k c [] a v = (a, tt)
    insert-AllValid k c ((i, b) ∷ d) a v = elim (Bool-cases (str_eq i k)) [
      | inl e ↦ rw e (a, v.1)
      | inr e ↦ rw e (v.0, insert-AllValid k c d a v.1)
    ]

    -- Another object reads what was flushed.
    load-file_content :
        (n now : ℕ) (store : Dict CardType) (b : FileKeyStore)
        → AllValid store
        → ReadsFile store
        → (now == b.mtime_ns) ≡ false
        → has_hash (j.sha256 (file_content p x is_truthy j n store)) b.hash ≡ false
        → (load p x is_truthy j
            (some (record { content = file_content p x is_truthy j n store; mtime_ns = now }))
            b).0
          ≡ ok store
    unfolding load load_parts file_dict find
    load-file_content n now store b v read_back m h =
        ground (arith, m, h, read_back n, cards_of-raw_cards store v)

    -- Once a card was put and written, every other object whose copy is of another time and of other content
    -- answers from the file with that card for its entity, and for every other with the card that the
    -- writing object had; when every card's role is in the form that roles are brought to, and JSON reads back
    -- what was written for the cards.
    pub put_read_elsewhere :
        (card : CardType) (w : Bool) (now : ℕ) (a b : FileKeyStore) (d : Disk)
        (store : Dict CardType) (file : File) (i : String)
        → validate_role x (public_card_of card).role ≡ ok (public_card_of card).role
        → AllValid store
        → ReadsFile (insert (entity_id card) card store)
        → (load p x is_truthy j d a).0 ≡ ok store
        → (put p x is_truthy j (ok now) card w a d).0 ≡ ok tt
        → (put p x is_truthy j (ok now) card w a d).2 ≡ some file
        → file.mtime_ns ≢ b.mtime_ns
        → has_hash (j.sha256 file.content) b.hash ≡ false
        → (get p x is_truthy j i b (some file)).0
          ≡ ok (if str_eq (entity_id card) i then some card else find i store)
    unfolding put put_loaded flush get
    put_read_elsewhere card w now a b d store file i valid all read_back h done left m other =
        let changed = insert (entity_id card) card store in
        let n = (load p x is_truthy j d a).1.version + 1 in
        let written : File = record {
          content = file_content p x is_truthy j n changed;
          mtime_ns = now;
        } in
        let same : written ≡ file = ground (arith, h, done, left) in
        let loaded =
          load-file_content n now changed b (insert-AllValid (entity_id card) card store valid all)
            read_back (ground (arith, m, same)) (ground (arith, other, same)) in
        ground (arith, same, loaded, get-put (entity_id card) i card store)
