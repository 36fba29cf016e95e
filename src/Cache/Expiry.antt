-- ===== src/Cache/Expiry.antt =====
-- uxsp/client/_cache.py: an entry is returned until its lifetime has passed.
use uxsp.Prelude.{
  ℕ, ◌+◌, ◌≤◌, ◌≡◌, refl, String, Bool-cases, inl, inr, ltb, if◌then◌else◌, arith, Option, none,
  some, List, [], ◌∷◌,
}
use uxsp.Prelude.Dict.{
  get, put, IsDistinct, get-put_self, get-put_ne, put-IsDistinct, get-delete, delete-IsDistinct,
}
use text.Mathlib.TextEquality.{eq_iff}
use uxsp.Cache.{HostCapability, is_expired, Entries, unless_expired, lookup, store}

-- The calls between a `set` and a `get`: lookups at their times, and entries of other hosts.
pub data Call : Type 0 where
  asked : ℕ → String → Call
  stored : String → HostCapability → Call

unfoldable pub step : Call → Entries → Entries
step (asked now host_key) d = (lookup now host_key d).1
step (stored host_key c) d = store host_key c d

unfoldable pub run : List Call → Entries → Entries
run [] d = d
run (c ∷ calls) d = run calls (step c d)

-- No call comes after the time, and none stores an entry of the host.
abbrev pub LeavesAlone : String → ℕ → List Call → Type 0
LeavesAlone k until [] = Unit
LeavesAlone k until (asked t j ∷ calls) = (t ≤ until) × LeavesAlone k until calls
LeavesAlone k until (stored j c ∷ calls) = (j ≡ k → ⊥) × LeavesAlone k until calls

module _ (k : String) (c : HostCapability) where
  -- The last time at which the entry is returned.
  abbrev pub until : ℕ
  until = c.cached_at + c.ttl

  abbrev IsHeld : Entries → Type 0
  IsHeld d = IsDistinct d × (get k d ≡ some c)

  unless_expired-IsHeld :
      (t : ℕ) (j : String) (d : Entries) (o : Option HostCapability)
      → t ≤ until
      → get j d ≡ o
      → IsHeld d
      → IsHeld (unless_expired t j d o).1
  unfolding is_expired
  unless_expired-IsHeld t j d none le found held = held
  unless_expired-IsHeld t j d (some e) le found held = elim (Bool-cases (is_expired t e)) [
    | inr b ↦ rw b held
    | inl b ↦ rw b (
      delete-IsDistinct j d held.0,
      ground (arith, get-delete j k d held.0, held.1, found, eq_iff j k, le, b),
    )
  ]

  step-IsHeld :
      (a : Call) (d : Entries) → LeavesAlone k until (a ∷ []) → IsHeld d → IsHeld (step a d)
  unfolding step lookup store
  step-IsHeld (asked t j) d alone held = unless_expired-IsHeld t j d (get j d) alone.0 refl held
  step-IsHeld (stored j e) d alone held =
      (put-IsDistinct j e d held.0, ground (arith, get-put_ne j k e d alone.0, held.1))

  run-IsHeld :
      (calls : List Call) (d : Entries)
      → LeavesAlone k until calls
      → IsHeld d
      → IsHeld (run calls d)
  unfolding run
  run-IsHeld [] d alone held = held
  run-IsHeld (asked t j ∷ calls) d alone held =
      run-IsHeld calls (step (asked t j) d) alone.1 (step-IsHeld (asked t j) d (alone.0, tt) held)
  run-IsHeld (stored j e ∷ calls) d alone held =
      run-IsHeld calls (step (stored j e) d) alone.1 (step-IsHeld (stored j e) d (alone.0, tt) held)

  -- What was stored for a host is returned up to the end of its lifetime and not after, whatever is asked
  -- until then and whatever is stored for other hosts, in a cache without repeated hosts.
  pub lookup-store :
      (d : Entries) (calls : List Call) (now : ℕ)
      → IsDistinct d
      → LeavesAlone k until calls
      → (lookup now k (run calls (store k c d))).0 ≡ (if ltb until now then none else some c)
  unfolding lookup store is_expired
  lookup-store d calls now distinct alone =
      let held =
        run-IsHeld calls (put k c d) alone (put-IsDistinct k c d distinct, get-put_self k c d) in
      ground (arith, held.1)
