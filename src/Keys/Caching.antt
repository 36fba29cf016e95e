-- ===== src/Keys/Caching.antt =====
-- uxsp/storage/keystore.py: `CachingKeyStore`, a fast store before a durable one; the stores are any two
-- implementations of the interface.
pub mod Coherent
pub mod Refines
use uxsp.Prelude.{String, Bool, true, false, Option, none, some, List}
use uxsp.Prelude.Result.{Result, Exec, ok, err, ◌>>=◌, key_store_backend}
use uxsp.Keys.{CardType, KeyStore}

-- `with contextlib.suppress(KeyStoreBackendError)`, and then `return answer`.
abbrev pub suppressed {ℓ κ} : {A : Type ℓ} {B : Type κ} → Result A → B → Result B
suppressed (ok a) answer = ok answer
suppressed (err key_store_backend) answer = ok answer
suppressed (err e) answer = err e

module _ {C B : Type 0} (cache : KeyStore C) (backend : KeyStore B) where
  -- What `put` does after the durable store.
  pub put_in_cache : CardType → Result (Unit {0}) → C → B → Result (Unit {0}) × (C × B)
  put_in_cache card (err e) c b = (err e, (c, b))
  put_in_cache card (ok done) c b =
      let (r, c') = cache.put card true c in (suppressed r tt, (c', b))

  unfoldable pub put : CardType → Bool → Exec (C × B) (Unit {0})
  put card overwrite (c, b) = let (r, b') = backend.put card overwrite b in put_in_cache card r c b'

  -- What `get` does with what the durable store answered.
  pub back_fill : Result (Option CardType) → C → B → Result (Option CardType) × (C × B)
  back_fill (err e) c b = (err e, (c, b))
  back_fill (ok none) c b = (ok none, (c, b))
  back_fill (ok (some card)) c b =
      let (r, c') = cache.put card true c in (suppressed r (some card), (c', b))

  pub get_from_backend : String → C → B → Result (Option CardType) × (C × B)
  get_from_backend entity c b = let (r, b') = backend.get entity b in back_fill r c b'

  -- What `get` does after the cache.
  pub get_after_cache :
      String → Result (Option CardType) → C → B → Result (Option CardType) × (C × B)
  get_after_cache entity (ok (some card)) c b = (ok (some card), (c, b))
  get_after_cache entity (ok none) c b = get_from_backend entity c b
  get_after_cache entity (err key_store_backend) c b = get_from_backend entity c b
  get_after_cache entity (err e) c b = (err e, (c, b))

  unfoldable pub get : String → Exec (C × B) (Option CardType)
  get entity (c, b) = let (r, c') = cache.get entity c in get_after_cache entity r c' b

  -- What `delete` does after the durable store.
  pub evict : String → Result Bool → C → B → Result Bool × (C × B)
  evict entity (err e) c b = (err e, (c, b))
  evict entity (ok result) c b =
      let (r, c') = cache.delete entity c in (suppressed r result, (c', b))

  unfoldable pub delete : String → Exec (C × B) Bool
  delete entity (c, b) = let (r, b') = backend.delete entity b in evict entity r c b'

  unfoldable pub list_ids : Exec (C × B) (List String)
  list_ids (c, b) = let (r, b') = backend.list_ids b in (r, (c, b'))

  abbrev pub caching_key_store : KeyStore (C × B)
  caching_key_store = record { put = put; get = get; delete = delete; list_ids = list_ids }
