-- ===== src/Keys/File.antt =====
-- uxsp/storage/keystore.py: `FileKeyStore`, a JSON file with a copy of its cards in the object. The locks make
-- a method one step on the object and the file.
pub mod Shared
use Prim.Native.String
use Prim.Native.Char.{code}
use uxsp.Prelude.{
  ℕ, ◌+◌, ◌==◌, String, Bool, true, false, not, ◌&&◌, if◌then◌else◌, str_eq, length, Option, none,
  some, List, [], ◌∷◌,
}
use uxsp.Prelude.Result.{Result, ok, err, ◌>>=◌, type_error, attribute_error, duplicate_card}
use uxsp.Prelude.Dict.{Dict, contains, get as find, put as insert, delete as remove}
use uxsp.Prelude.Value.{ℤ, pos, Value, int, str, obj, Fields, empty, field}
use uxsp.Crypto.Symmetric.{Bytes}
use uxsp.Crypto.Parts.{Packages}
use uxsp.Identity.{Texts}
use uxsp.Trust.Stored.{fields_of, dict_of_fields, dict_or_attribute_error}
use uxsp.Keys.{CardType, entity_id}
use uxsp.Keys.Memory.{keys}
use uxsp.Keys.Stored.{serialise_card, deserialise_card}

-- `json.dumps` and its form with sorted keys, as bytes; `json.loads` of decoded bytes, where a value that is
-- no object is an error of what reads it; `hashlib.sha256(...).hexdigest()`.
pub record Format : Type 0 where
  pub dump : Dict Value → Bytes
  pub dump_sorted : Fields → Bytes
  pub loads : Bytes → Result (Dict Value)
  pub sha256 : Bytes → String

pub record FileKeyStore : Type 0 where
  pub mtime_ns : ℕ
  pub size : ℕ
  pub version : ℕ
  pub hash : Option String
  pub cache : Option (Dict CardType)

abbrev pub new_store : FileKeyStore
new_store = record { mtime_ns = 0; size = 0; version = 0; hash = none; cache = none }

-- The file at the store's path: its content and the time of its last change.
pub record File : Type 0 where
  pub content : Bytes
  pub mtime_ns : ℕ

abbrev pub Disk : Type 0
Disk = Option File

-- `self._cache is not None and test`
abbrev pub cached_if : Option (Dict CardType) → Bool → Option (Dict CardType)
cached_if none test = none
cached_if (some cards) test = if test then some cards else none

-- `self._hash == file_hash`
abbrev pub has_hash : String → Option String → Bool
has_hash h none = false
has_hash h (some g) = str_eq g h

abbrev pub starts_underscored : String → Bool
starts_underscored String.[] = false
starts_underscored (String.◌∷◌ c s) = code c == 95

-- `{k: v for k, v in raw.items() if not k.startswith("_")}`
unfoldable pub plain_entries : Dict Value → Fields
plain_entries [] = empty
plain_entries ((k, v) ∷ d) =
    let rest = plain_entries d in if starts_underscored k then rest else field k v rest

-- A version in the file is a natural number: `flush` writes no other.
abbrev pub version_or_zero : Option Value → Result ℕ
version_or_zero none = ok 0
version_or_zero (some (int (pos n))) = ok n
version_or_zero _ = err type_error

abbrev pub items_or_error : Value → Result Fields
items_or_error (obj fs) = ok fs
items_or_error _ = err attribute_error

-- The cards' entries and the version that are read from a file.
abbrev pub parts_of : Dict Value → Option Value → Result (Fields × ℕ)
parts_of raw none = ok (plain_entries raw, 0)
parts_of raw (some v) =
    items_or_error v >>= λ fs. (version_or_zero (find "_version" raw) >>= λ n. ok (fs, n))

module _ (p : Packages) where
  -- `{eid: _serialise_card(card) for eid, card in store.items()}`
  unfoldable pub raw_cards : Dict CardType → Fields
  raw_cards [] = empty
  raw_cards ((i, c) ∷ d) = field i (obj (fields_of (serialise_card p c))) (raw_cards d)

  module _ (x : Texts) (is_truthy : ℕ → Bool) where
    -- `{eid: _deserialise_card(entry) for eid, entry in raw_cards.items()}`
    unfoldable pub cards_of : Fields → Result (Dict CardType)
    cards_of empty = ok []
    cards_of (field i v fs) = do
      entry ← dict_or_attribute_error v
      c ← deserialise_card p x is_truthy entry
      rest ← cards_of fs
      ok ((i, c) ∷ rest)

  module _ (x : Texts) (is_truthy : ℕ → Bool) (j : Format) where
    -- The end of `_load`, on a file with other content than the copy's.
    abbrev pub reload : File → Fields → ℕ → FileKeyStore → Result (Dict CardType) × FileKeyStore
    reload file fs version s = elim (cards_of x is_truthy fs) [
      | err e ↦ (err e, s)
      | ok cards ↦ (
        ok cards,
        record {
          mtime_ns = file.mtime_ns;
          size = length file.content;
          version = version;
          hash = some (j.sha256 file.content);
          cache = some cards;
        },
      )
    ]

    -- `_load` once the file is read: the copy is kept when hash and version are the same.
    unfoldable pub load_parts :
        File → Result (Fields × ℕ) → FileKeyStore → Result (Dict CardType) × FileKeyStore
    load_parts file (err e) s = (err e, s)
    load_parts file (ok (fs, version)) s =
        elim (cached_if s.cache
          (has_hash (j.sha256 file.content) s.hash && (s.version == version))) [
            | some cards ↦
                (ok cards, record s { mtime_ns = file.mtime_ns; size = length file.content })
            | none ↦ reload file fs version s
          ]

    -- `_load`. The result is the object's own dictionary: who changes it changes `cache`.
    unfoldable pub load : Disk → FileKeyStore → Result (Dict CardType) × FileKeyStore
    unfolding load_parts
    load none s =
        (ok [], record { mtime_ns = 0; size = 0; version = 0; hash = none; cache = some [] })
    load (some file) s =
        elim (cached_if s.cache
          ((file.mtime_ns == s.mtime_ns) && (length file.content == s.size))) [
            | some cards ↦ (ok cards, s)
            | none ↦
                load_parts file (j.loads file.content >>= λ raw. parts_of raw (find "_cards" raw)) s
          ]

    -- The dictionary that `_flush` writes.
    unfoldable pub file_dict : ℕ → Dict CardType → Dict Value
    file_dict version store =
        ("_version", int (pos version))
        ∷ ("_hash", str (j.sha256 (j.dump_sorted (raw_cards store))))
        ∷ ("_cards", obj (raw_cards store))
        ∷ []

    abbrev pub file_content : ℕ → Dict CardType → Bytes
    file_content version store = j.dump (file_dict version store)

    -- `_flush`; `outcome` is that of writing the file: the time of its change, or what was raised before the file
    -- was replaced.
    unfoldable pub flush :
        Result ℕ → Dict CardType → FileKeyStore → Disk → Result (Unit {0}) × FileKeyStore × Disk
    flush (err e) store s d = (err e, record s { version = s.version + 1 }, d)
    flush (ok now) store s d =
        let content = file_content (s.version + 1) store in
        (
          ok tt,
          record {
            mtime_ns = now;
            size = length content;
            version = s.version + 1;
            hash = some (j.sha256 content);
            cache = some store;
          },
          some (record { content = content; mtime_ns = now }),
        )

    -- `put` after `_load`: the object's dictionary is changed before it is written.
    unfoldable pub put_loaded :
        Result ℕ
        → CardType
        → Bool
        → Result (Dict CardType)
        → FileKeyStore
        → Disk
        → Result (Unit {0}) × FileKeyStore × Disk
    put_loaded outcome card overwrite (err e) s d = (err e, s, d)
    put_loaded outcome card overwrite (ok store) s d =
        if not overwrite && contains (entity_id card) store
        then (err duplicate_card, s, d)
        else (let changed = insert (entity_id card) card store in
            flush outcome changed (record s { cache = some changed }) d)

    unfoldable pub put :
        Result ℕ → CardType → Bool → FileKeyStore → Disk → Result (Unit {0}) × FileKeyStore × Disk
    put outcome card overwrite s d =
        let (r, s') = load d s in put_loaded outcome card overwrite r s' d

    unfoldable pub get : String → FileKeyStore → Disk → Result (Option CardType) × FileKeyStore
    get entity s d = let (r, s') = load d s in (r >>= λ store. ok (find entity store), s')

    -- The result of `delete` with that of its `_flush`.
    abbrev pub deleted_unless_raised : Result (Unit {0}) → Result Bool
    deleted_unless_raised r = r >>= λ _. ok true

    unfoldable pub delete_loaded :
        Result ℕ
        → String
        → Result (Dict CardType)
        → FileKeyStore
        → Disk
        → Result Bool × FileKeyStore × Disk
    delete_loaded outcome entity (err e) s d = (err e, s, d)
    delete_loaded outcome entity (ok store) s d =
        if contains entity store
        then (let changed = remove entity store in
            let (r, s', d') = flush outcome changed (record s { cache = some changed }) d in
            (deleted_unless_raised r, s', d'))
        else (ok false, s, d)

    unfoldable pub delete :
        Result ℕ → String → FileKeyStore → Disk → Result Bool × FileKeyStore × Disk
    delete outcome entity s d = let (r, s') = load d s in delete_loaded outcome entity r s' d

    unfoldable pub list_ids : FileKeyStore → Disk → Result (List String) × FileKeyStore
    list_ids s d = let (r, s') = load d s in (r >>= λ store. ok (keys store), s')
