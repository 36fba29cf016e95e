-- ===== src/Cache.antt =====
-- uxsp/client/_cache.py: what a client remembers of the hosts that it has met. Times and lifetimes are
-- whole numbers of an arbitrary tick; the lock makes each method one step.
pub mod Expiry
use uxsp.Prelude.{ℕ, ◌+◌, String, Bool, ltb, if◌then◌else◌, Option, none, some, List, []}
use uxsp.Prelude.Dict.{Dict, get, put, delete}

pub record HostCapability : Type 0 where
  pub host : String
  pub supports_uxsp : Bool
  pub selected_version : Option String
  pub peer_id : Option String
  pub cached_at : ℕ
  pub ttl : ℕ

-- `(time.time() - self.cached_at) > self.ttl`
unfoldable pub is_expired : ℕ → HostCapability → Bool
is_expired now c = ltb (c.cached_at + c.ttl) now

-- `InMemoryHostCapabilityCache`, by its entries.
abbrev pub Entries : Type 0
Entries = Dict HostCapability

-- `get`, once the entry is read.
abbrev pub unless_expired :
    ℕ → String → Entries → Option HostCapability → Option HostCapability × Entries
unless_expired now host_key entries none = (none, entries)
unless_expired now host_key entries (some c) =
    if is_expired now c then (none, delete host_key entries) else (some c, entries)

unfoldable pub lookup : ℕ → String → Entries → Option HostCapability × Entries
lookup now host_key entries = unless_expired now host_key entries (get host_key entries)

-- `set`
unfoldable pub store : String → HostCapability → Entries → Entries
store host_key capability entries = put host_key capability entries

-- `clear`
abbrev pub clear : Entries → Entries
clear entries = []
