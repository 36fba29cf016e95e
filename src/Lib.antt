-- ===== src/Lib.antt =====
-- UXSP, a protocol library for encrypted and signed messages: its core in Python, under uxsp/.
--
-- A message travels as an envelope. The replay guard checks an envelope's time stamp and records its
-- nonce in a nonce store, so that it is opened once. Two parties that shook hands exchange further
-- messages over a session, which encrypts with AES-GCM under one key per direction and checks sequence
-- numbers. A handshake of two signed messages, HELLO and ACK, gives both sides the secret of a session.
-- An identity holds the key pairs and gives out a public card with their public halves; an envelope is
-- sealed for a card and opened with the sender's card. A trust anchor signs cards, and a trust store
-- verifies them. Key stores keep cards. The secure interface sends a payload, in one envelope or in
-- chunks, to a peer of its context and receives one. Servers limit requests by a rate limiter.
--
-- Files, with the code that each models:
--   Nonce        uxsp/core/nonce.py: `NonceStore` is the record of the interface's methods, and
--                `mark_used`, `is_seen`, `cleanup` those of `MemoryNonceStore`; Nonce/Contract says what
--                every store promises, Nonce/Memory that the in-memory store keeps it, Nonce/Decision
--                what the methods return.
--   Envelope     uxsp/core/envelope.py: the envelope, its dictionary form and its validation;
--                Envelope/Json is its JSON and byte forms.
--   Replay       uxsp/core/replay.py: `ReplayGuard` over any nonce store; Replay/Once and
--                Replay/Freshness hold its theorems; Replay/Open is `check_and_open`.
--   Identity     uxsp/core/identity.py: identities, their public cards, `seal_for` and `open_from`.
--   Handshake    uxsp/core/handshake.py: the object and `initiate`, `respond`, `complete`, from the parts in
--                Handshake/Parts, Hello and Ack; Handshake/Accepted and Answered follow one message,
--                Handshake/Agreement and Replayed hold the theorems. Handshake/Guarded is
--                `GuardedHandshake` and `AsyncGuardedHandshake` of uxsp/core/rate_limit.py.
--   RateLimit    uxsp/core/rate_limit.py: the interface; RateLimit/Fixed is `RateLimiter`,
--                RateLimit/Sliding is `SlidingRateLimiter`; RateLimit/Fixed/Window and Reached and
--                RateLimit/Sliding/Budget bound what they let through.
--   Nonce/Tiered uxsp/storage/noncestore.py: `TieredNonceStore` over any two stores; Nonce/Tiered/Refines
--                says that it keeps the contract.
--   Live         uxsp/core/live.py: the sessions for live frames.
--   Chunking     uxsp/core/chunking.py: one chunk; Chunking/Transfer is the whole transfer,
--                Chunking/Packed, Split, Checked and Whole hold the theorems.
--   Crypto       uxsp/crypto/: Symmetric is symmetric.py, Kdf is kdf.py, Asymmetric is asymmetric.py, Pqc
--                is pqc.py, and Parts and Hybrid are hybrid.py, with theorems in Hybrid/Binding,
--                Exchange, Signed, Read, Opening and Sealing. `Packages` is the record of what the code relies on.
--   Session      uxsp/core/session.py: the session; Session/Sequence is the record of sequence numbers
--                that `decrypt` keeps; the theorems are in Session/Windowed, Ordered, Lifecycle, Channel
--                and Forgery.
--   Trust        uxsp/core/signing.py: anchors, signed cards, and the store that verifies them;
--                Trust/Revocation is its revocation lists; Trust/Verified, Trusted and Revoked hold the
--                theorems.
--   Payload      uxsp/core/payload.py: the container of a message; Payload/Packed holds the round trips.
--   Keys         uxsp/storage/keystore.py: the interface of the stores of cards; Keys/Memory, File, Redis,
--                Postgres and Caching are its implementations, and Keys/Stored the form that a card is kept in.
--                Keys/Contract is what every store promises; Keys/Caching/Coherent and Refines,
--                Keys/Redis/Fast, Keys/Postgres/Durable and Keys/File/Shared hold the theorems.
--   Secure       uxsp/secure/_context.py: the context; Secure/Parts and Engine are _engine.py, the sending
--                and receiving of payloads; Secure/Opened, Delivered, Sent and Refused hold the
--                theorems.
--   Cache        uxsp/client/_cache.py: the capabilities of hosts that a client keeps in memory.
--   Prelude      shared helpers: tests on numbers, lists, results, dictionaries, values.
--   Samples, Tests   concrete data, and the theorems applied to them.
--
-- A method is a function from its arguments, its clock readings and its random bytes, and from the
-- state of its object, to a result and the next state (`Exec`). A lock makes a method's locked block
-- one step, so an interleaving of threads is a list of calls; `encrypt` and `decrypt` of a session,
-- which check the expiry again after their locked block, and in `encrypt` encipher there, are one step
-- whole. A raised exception is a value of `Error`, and the state that was written before it stays.
-- Times are natural numbers of an arbitrary tick. Python's integers are unbounded, as the numbers here
-- are. The handshake and the trust store count whole seconds, as their code does. Only `slices` of
-- Chunking/Transfer has fuel: each slice takes a byte or more, so the length of the data is enough.
-- The listing of a Redis store takes a bound on its batches, and a listing that needs more is an
-- error.
--
-- Parameters, since their code is not in the repository: AES-GCM with its round trip, X25519 with its
-- agreement, Ed25519, the key encapsulation and the signatures of liboqs with their round trips, HKDF with
-- the length of its output, Argon2, HMAC, SHA-256, UUIDs, dates, the conversions between bytes and
-- hexadecimal text, `int(...)`, `str(...)`, the JSON functions and the codecs.
--
-- Not modelled: the network, databases, frameworks and command line; most asynchronous copies; the encrypted
-- files of identities, the stored forms of trust stores; the files that payloads and packages are read
-- from and written to; the typed wrappers, streams and live calls of the secure interface. The servers
-- of the key stores and the outcome of a write to a file are parameters; a commit of PostgreSQL is atomic,
-- and one that raises may have taken place.
pub mod Prelude
pub mod Envelope
pub mod Nonce
pub mod Replay
pub mod RateLimit
pub mod Crypto
pub mod Session
pub mod Chunking
pub mod Live
pub mod Identity
pub mod Handshake
pub mod Trust
pub mod Payload
pub mod Keys
pub mod Secure
pub mod Cache
pub mod Samples
pub mod Tests
