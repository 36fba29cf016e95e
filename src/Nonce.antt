-- ===== src/Nonce.antt =====
-- uxsp/core/nonce.py: the interface of the nonce stores and the in-process store.
-- A method that reads the clock takes the reading as an argument; times are whole numbers of an
-- arbitrary tick, which stand for Python's floats. The lock makes each method one step.
pub mod Contract
pub mod Memory
pub mod Decision
pub mod Tiered
use uxsp.Prelude.{
  ℕ, ◌+◌, String, Bool, true, false, leb, if◌then◌else◌, length, Option, none, some, List,
}
use uxsp.Prelude.Result.{Exec, ok, err, store_error}
use uxsp.Prelude.Dict.{Dict, contains, get, put, delete, delete_if, count_if}

-- The abstract class: `mark_used nonce ttl_seconds now`, `is_seen nonce now`, `cleanup now`.
pub record NonceStore {ℓ} (S : Type ℓ) : Type ℓ where
  pub mark_used : String → ℕ → ℕ → Exec S Bool
  pub is_seen : String → ℕ → Exec S Bool
  pub cleanup : ℕ → Exec S ℕ

abbrev pub max_nonce_store_size : ℕ
max_nonce_store_size = 100000

abbrev pub cleanup_period : ℕ
cleanup_period = 1000

pub record MemoryNonceStore : Type 0 where
  pub store : Dict ℕ
  pub calls_since_cleanup : ℕ

abbrev pub empty_store : MemoryNonceStore
empty_store = record { store = List.[]; calls_since_cleanup = 0 }

-- `exp <= now`
abbrev pub is_expired : ℕ → ℕ → Bool
is_expired now exp = leb exp now

unfoldable pub cleanup_unlocked : ℕ → MemoryNonceStore → ℕ × MemoryNonceStore
cleanup_unlocked now s =
    (count_if (is_expired now) s.store, record s { store = delete_if (is_expired now) s.store })

-- The counter of `mark_used`, and its periodic cleanup.
unfoldable pub count_call : ℕ → MemoryNonceStore → MemoryNonceStore
unfolding cleanup_unlocked
count_call now s =
    let counted = record s { calls_since_cleanup = s.calls_since_cleanup + 1 } in
    if leb cleanup_period counted.calls_since_cleanup
    then record (cleanup_unlocked now counted).1 { calls_since_cleanup = 0 }
    else counted

-- The last step of `mark_used`, for a nonce that is not in the store.
unfoldable pub insert_nonce : String → ℕ → ℕ → Exec MemoryNonceStore Bool
unfolding cleanup_unlocked
insert_nonce nonce ttl_seconds now s =
    let inserted =
      λ (t : MemoryNonceStore). record t { store = put nonce (now + ttl_seconds) t.store } in
    if leb max_nonce_store_size (length s.store)
    then (let cleaned = (cleanup_unlocked now s).1 in
        if leb max_nonce_store_size (length cleaned.store)
        then (err store_error, cleaned)
        else (ok true, inserted cleaned))
    else (ok true, inserted s)

unfoldable pub mark_used : String → ℕ → ℕ → Exec MemoryNonceStore Bool
mark_used nonce ttl_seconds now s =
    let counted = count_call now s in
    if contains nonce counted.store
    then (ok false, counted)
    else insert_nonce nonce ttl_seconds now counted

-- `is_seen` once the stored expiry is read: an expired entry is dropped.
seen_entry : String → ℕ → MemoryNonceStore → Option ℕ → Bool × MemoryNonceStore
seen_entry nonce now s none = (false, s)
seen_entry nonce now s (some exp) =
    if leb exp now then (false, record s { store = delete nonce s.store }) else (true, s)

unfoldable pub is_seen : String → ℕ → Exec MemoryNonceStore Bool
unfolding seen_entry
is_seen nonce now s = let (seen, s') = seen_entry nonce now s (get nonce s.store) in (ok seen, s')

unfoldable pub cleanup : ℕ → Exec MemoryNonceStore ℕ
unfolding cleanup_unlocked
cleanup now s = let (removed, s') = cleanup_unlocked now s in (ok removed, s')

abbrev pub memory_store : NonceStore MemoryNonceStore
memory_store = record { mark_used = mark_used; is_seen = is_seen; cleanup = cleanup }
