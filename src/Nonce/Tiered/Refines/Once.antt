-- ===== src/Nonce/Tiered/Refines/Once.antt =====
-- uxsp/storage/noncestore.py over uxsp/core/nonce.py: the tiered store with a durable store in memory.
use uxsp.Prelude.{ℕ, ◌+◌, ◌<◌, ◌≡◌, ◌≢◌, String, true, List}
use uxsp.Prelude.Result.{ok}
use uxsp.Nonce.{NonceStore, empty_store, memory_store}
use uxsp.Nonce.Contract.{Call, AllBefore, run, run-IsValid, nonce_accepted_once}
use uxsp.Nonce.Memory.{memory_law}
use uxsp.Nonce.Tiered.{mark_used, tiered_store}
use uxsp.Nonce.Tiered.Refines.{tiered_law}

module _ {F : Type 0} (fast : NonceStore F) where
  -- A tiered store over a memory store that was empty, and a fast store that answers, loses or raises
  -- anything: after any calls, a nonce that it accepts it does not accept a second time before the nonce's
  -- time to live has passed, whatever other calls are made before then.
  pub tiered_accepted_once :
      (f : F) (earlier cs : List Call) (n : String) (ttl now ttl' now' : ℕ)
      → (mark_used fast memory_store n ttl now
          (run (tiered_store fast memory_store) earlier (f, empty_store))).0
        ≡ ok true
      → AllBefore (now + ttl) cs
      → now' < now + ttl
      → (mark_used fast memory_store n ttl' now' (
          run
            (tiered_store fast memory_store)
            cs
            (mark_used fast memory_store n ttl now
              (run (tiered_store fast memory_store) earlier (f, empty_store))).1)).0
        ≢ ok true
  unfolding tiered_law
  tiered_accepted_once f earlier cs n ttl now ttl' now' first before lt =
      let law = tiered_law fast memory_store memory_law f in
      let s = run (tiered_store fast memory_store) earlier (f, empty_store) in
      nonce_accepted_once law n ttl now s cs ttl' now'
        (run-IsValid law earlier (f, empty_store) law.start-IsValid) first before lt
