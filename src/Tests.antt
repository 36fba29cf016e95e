-- ===== src/Tests.antt =====
-- The theorems at concrete inputs, component by component.
mod Messages
mod Limits
mod Sessions
mod Streams
mod Chunks
mod Crypto
mod Identities
mod Handshakes
mod Trusts
mod Payloads
mod Stores
mod Secures
