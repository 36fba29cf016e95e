-- ===== src/Keys/Redis.antt =====
-- uxsp/storage/keystore.py: `RedisKeyStore` over a Redis client.
pub mod Fast
use Prim.Native.Char.{code}
use Prim.Native.String
use uxsp.Prelude.{
  ℕ, zero, suc, ◌==◌, String, Bool, true, false, not, ◌||◌, if◌then◌else◌, Option, none, some, List,
  [], ◌∷◌, ◌++◌, map,
}
use uxsp.Prelude.Result.{
  Result, Error, Exec, ok, err, ◌>>=◌, guard, other_error, key_store_error, card_not_found,
  key_store_backend, duplicate_card,
}
use uxsp.Prelude.Dict.{Dict}
use uxsp.Prelude.Value.{Value}
use uxsp.Crypto.Parts.{Packages}
use uxsp.Identity.{Texts}
use uxsp.Keys.{CardType, entity_id, KeyStore}
use uxsp.Keys.Stored.{serialise_card, deserialise_card}

-- The commands of the client that are used: `set key value nx ex` (whether the value was stored; an
-- `ex` of 0 is none), `get key`, `delete key` (how many keys were removed), and
-- `scan cursor prefix`, with the next cursor and a batch of keys.
pub record RedisClient (C : Type 0) : Type 0 where
  pub set : String → String → Bool → ℕ → Exec C Bool
  pub get : String → Exec C (Option String)
  pub delete : String → Exec C ℕ
  pub scan : ℕ → String → Exec C (ℕ × List String)

-- `json.dumps`, and `json.loads` where a value that is no object is an error of what reads it.
pub record JsonTexts : Type 0 where
  pub dumps : Dict Value → String
  pub loads : String → Result (Dict Value)

abbrev pub is_key_store_error : Error → Bool
is_key_store_error key_store_error = true
is_key_store_error card_not_found = true
is_key_store_error key_store_backend = true
is_key_store_error duplicate_card = true
is_key_store_error e = false

-- `except KeyStoreError: raise`, and any other exception as KeyStoreBackendError.
abbrev pub as_backend {ℓ} : {A : Type ℓ} → Result A → Result A
as_backend (ok a) = ok a
as_backend (err e) = if is_key_store_error e then err e else err key_store_backend

-- `except DuplicateCardError: raise`, and any other exception as KeyStoreBackendError.
abbrev pub stored_or_backend {ℓ} : {A : Type ℓ} → Result A → Result A
stored_or_backend (ok a) = ok a
stored_or_backend (err duplicate_card) = err duplicate_card
stored_or_backend (err e) = err key_store_backend

-- `s.removeprefix(prefix)`
unfoldable pub strip_prefix : String → String → Option String
strip_prefix String.[] s = some s
strip_prefix (String.◌∷◌ a p) String.[] = none
strip_prefix (String.◌∷◌ a p) (String.◌∷◌ b s) =
    let rest = strip_prefix p s in if code a == code b then rest else none

abbrev pub text_or_same : Option String → String → String
text_or_same none s = s
text_or_same (some t) s = t

unfoldable pub removeprefix : String → String → String
unfolding strip_prefix
removeprefix prefix s = text_or_same (strip_prefix prefix s) s

module _ {C : Type 0} (client : RedisClient C) (prefix : String) where
  -- `_key`
  abbrev pub key : String → String
  key entity = String.◌++◌ prefix entity

  -- The loop of `list_ids`; `rounds` bounds the batches, and a listing that needs more is an error here.
  unfoldable pub scan_all : ℕ → ℕ → List String → Exec C (List String)
  scan_all zero cursor keys s = (err other_error, s)
  scan_all (suc rounds) cursor keys s = elim (client.scan cursor prefix s).0 [
    | err e ↦ (err e, (client.scan cursor prefix s).1)
    | ok (next, batch) ↦ elim (next == 0) [
      | true ↦ (ok (keys ++ batch), (client.scan cursor prefix s).1)
      | false ↦ scan_all rounds next (keys ++ batch) (client.scan cursor prefix s).1
    ]
  ]

  unfoldable pub list_ids : ℕ → Exec C (List String)
  unfolding scan_all removeprefix
  list_ids rounds s =
      let (r, s') = scan_all rounds 0 [] s in
      (as_backend (r >>= λ keys. ok (map (removeprefix prefix) keys)), s')

  unfoldable pub delete : String → Exec C Bool
  delete entity s =
      let (r, s') = client.delete (key entity) s in (as_backend (r >>= λ n. ok (not (n == 0))), s')

  module _ (ttl : ℕ) (p : Packages) (x : Texts) (is_truthy : ℕ → Bool) (j : JsonTexts) where
    unfoldable pub put : CardType → Bool → Exec C (Unit {0})
    put card overwrite s =
        let raw = j.dumps (serialise_card p card) in
        let (r, s') = client.set (key (entity_id card)) raw (not overwrite) ttl s in
        (stored_or_backend (r >>= λ stored. guard (overwrite || stored) duplicate_card), s')

    -- What `get` makes of the stored text.
    abbrev pub card_of : Option String → Result (Option CardType)
    card_of none = ok none
    card_of (some raw) =
        j.loads raw >>= λ d. (deserialise_card p x is_truthy d >>= λ card. ok (some card))

    unfoldable pub get : String → Exec C (Option CardType)
    get entity s = let (r, s') = client.get (key entity) s in (as_backend (r >>= card_of), s')

    abbrev pub redis_key_store : ℕ → KeyStore C
    redis_key_store rounds = record {
      put = put;
      get = get;
      delete = delete;
      list_ids = list_ids rounds;
    }
