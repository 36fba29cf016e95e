-- ===== src/Nonce/Decision.antt =====
-- uxsp/core/nonce.py: what `mark_used` and `is_seen` of the in-process store answer.
use uxsp.Prelude.{
  ℕ, ◌≡◌, ◌∙◌, ap, String, Bool, true, false, leb, length, Option, none, some, arith, if◌then◌else◌,
}
use uxsp.Prelude.Result.{ok, err, store_error}
use uxsp.Prelude.Dict.{get, delete_if, IsDistinct, get-delete_if, length-delete_if, delete_if_twice}
use uxsp.Nonce.{
  MemoryNonceStore, max_nonce_store_size, is_expired, count_call, insert_nonce, mark_used, is_seen,
}

-- How many entries are live at `now`.
abbrev pub live_size : ℕ → MemoryNonceStore → ℕ
live_size now s = length (delete_if (is_expired now) s.store)

abbrev pub is_live : ℕ → Option ℕ → Bool
is_live now none = false
is_live now (some exp) = if leb exp now then false else true

module _ (n : String) (ttl now : ℕ) (s : MemoryNonceStore) where
  insert_nonce-answer :
      (insert_nonce n ttl now s).0
      ≡ (if leb max_nonce_store_size (live_size now s) then err store_error else ok true)
  unfolding insert_nonce
  insert_nonce-answer = ground (arith, length-delete_if (is_expired now) s.store)

live_size-count_call :
    (now : ℕ) (s : MemoryNonceStore) → live_size now (count_call now s) ≡ live_size now s
unfolding count_call
live_size-count_call now s = ground (arith, delete_if_twice (is_expired now) s.store)

get-count_call :
    (n : String) (now : ℕ) (s : MemoryNonceStore)
    → IsDistinct s.store
    → get n s.store ≡ none
    → get n (count_call now s).store ≡ none
unfolding count_call
get-count_call n now s h e = ground (arith, get-delete_if (is_expired now) n s.store h)

-- A nonce that is not in the store is accepted, or the store is full of live entries and the
-- call raises UXSPStoreError; expired entries never count against the room.
pub mark_used_new :
    (n : String) (ttl now : ℕ) (s : MemoryNonceStore)
    → IsDistinct s.store
    → get n s.store ≡ none
    → (mark_used n ttl now s).0
      ≡ (if leb max_nonce_store_size (live_size now s) then err store_error else ok true)
unfolding mark_used
mark_used_new n ttl now s h e = rw (get-count_call n now s h e) (
    insert_nonce-answer n ttl now (count_call now s)
    ∙ ap (λ (k : ℕ). if leb max_nonce_store_size k then err store_error else ok true)
        (live_size-count_call now s))

-- `is_seen` answers exactly whether the store has an entry of the nonce that is still live.
pub is_seen-eq-is_live :
    (n : String) (now : ℕ) (s : MemoryNonceStore)
    → (is_seen n now s).0 ≡ ok (is_live now (get n s.store))
unfolding is_seen
is_seen-eq-is_live n now s = ground arith
