-- ===== src/Nonce/Tiered.antt =====
-- uxsp/storage/noncestore.py: `TieredNonceStore`, a fast store before a durable one.
-- The stores are any two implementations of the interface; the calls that one method makes of them
-- share its clock reading.
pub mod Refines
use uxsp.Prelude.{ℕ, ◌+◌, String, Bool, true, false}
use uxsp.Prelude.Result.{Result, Exec, ok, err, ◌>>=◌, store_error}
use uxsp.Nonce.{NonceStore}

-- `contextlib.suppress(UXSPStoreError)`: any other exception is raised on.
abbrev pub suppress : {A : Type 0} → A → Result A → Result A
suppress instead (ok a) = ok a
suppress instead (err store_error) = ok instead
suppress instead (err e) = err e

module _ {F D : Type 0} (fast : NonceStore F) (durable : NonceStore D) where
  -- What `mark_used` does after the durable store: an accepted nonce goes to the fast store too.
  unfoldable pub mark_fast_again : String → ℕ → ℕ → Result Bool → F → D → Result Bool × (F × D)
  mark_fast_again nonce ttl now (ok true) f d =
      let (r, f') = fast.mark_used nonce ttl now f in (suppress true r >>= λ _. ok true, (f', d))
  mark_fast_again nonce ttl now (ok false) f d = (ok false, (f, d))
  mark_fast_again nonce ttl now (err e) f d = (err e, (f, d))

  -- What `mark_used` does after the fast store.
  unfoldable pub mark_durable : String → ℕ → ℕ → Result Bool → F → D → Result Bool × (F × D)
  mark_durable nonce ttl now (ok true) f d =
      let (r, d') = durable.mark_used nonce ttl now d in mark_fast_again nonce ttl now r f d'
  mark_durable nonce ttl now (ok false) f d = (ok false, (f, d))
  mark_durable nonce ttl now (err e) f d = (err e, (f, d))

  unfoldable pub mark_used : String → ℕ → ℕ → Exec (F × D) Bool
  mark_used nonce ttl now (f, d) =
      let (r, f') = fast.mark_used nonce ttl now f in
      mark_durable nonce ttl now (suppress true r) f' d

  pub seen_durable : String → ℕ → Result Bool → F → D → Result Bool × (F × D)
  seen_durable nonce now (ok true) f d = (ok true, (f, d))
  seen_durable nonce now (ok false) f d = let (r, d') = durable.is_seen nonce now d in (r, (f, d'))
  seen_durable nonce now (err e) f d = (err e, (f, d))

  unfoldable pub is_seen : String → ℕ → Exec (F × D) Bool
  is_seen nonce now (f, d) =
      let (r, f') = fast.is_seen nonce now f in seen_durable nonce now (suppress false r) f' d

  pub cleanup_durable : ℕ → Result ℕ → F → D → Result ℕ × (F × D)
  cleanup_durable now (ok total) f d =
      let (r, d') = durable.cleanup now d in
      (suppress 0 r >>= λ removed. ok (total + removed), (f, d'))
  cleanup_durable now (err e) f d = (err e, (f, d))

  unfoldable pub cleanup : ℕ → Exec (F × D) ℕ
  cleanup now (f, d) = let (r, f') = fast.cleanup now f in cleanup_durable now (suppress 0 r) f' d

  abbrev pub tiered_store : NonceStore (F × D)
  tiered_store = record { mark_used = mark_used; is_seen = is_seen; cleanup = cleanup }
