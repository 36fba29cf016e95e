-- ===== src/Prelude/Result.antt =====
-- Exceptions as values, and methods that change an object and may raise.
-- What a method wrote before it raised stays written, so the state comes back beside the error.
use Prim.Native.Nat.{ℕ}
use Prim.Native.String.{String}
use mathlib.Core.Path.{◌≡◌, refl}
use mathlib.Core.Bool.{Bool, true, false}
use mathlib.Core.Logic.{◌⊎◌, inl, inr}
use mathlib.Core.Option.{Option, none, some}
use native.Mathlib.Omega.{arith}
use uxsp.Prelude.Dict.{Dict, get}

-- One constructor for each exception class that the modelled modules raise; a message is kept
-- only where the code reads it again.
pub data Error : Type 0 where
  -- the built-in ValueError, TypeError, KeyError, AttributeError, RuntimeError, and any other
  value_error type_error key_error attribute_error runtime_error other_error : Error
  -- the packages that crypto/ calls
  invalid_signature unsupported_algorithm : Error
  -- crypto/hybrid.py's EnvelopeValidationError, a ValueError
  hybrid_validation : Error
  -- core/nonce.py
  store_error : Error
  -- core/envelope.py
  envelope_validation envelope_too_large envelope_expired : Error
  -- core/replay.py
  replay_error stale_envelope duplicate_nonce future_envelope : Error
  -- core/rate_limit.py: the key and `retry_after`
  rate_limit_exceeded : String → ℕ → Error
  -- core/session.py
  session_error session_expired session_revoked session_not_active session_reorder : Error
  -- core/chunking.py
  chunk_format chunk_validation : Error
  -- core/payload.py
  payload_format payload_validation : Error
  -- core/identity.py
  card_expired card_revoked : Error
  -- core/signing.py
  untrusted_card invalid_card_signature expired_card card_not_yet_valid revoked_card : Error
  -- storage/keystore.py
  key_store_error card_not_found key_store_backend duplicate_card : Error
  -- secure/_errors.py
  secure_send_error secure_receive_error peer_not_found type_mismatch : Error
  message_expired duplicate_message invalid_sender : Error
  -- psycopg2, for a row whose key is taken: the error with the code 23505
  unique_violation : Error
  -- core/handshake.py
  handshake_error handshake_auth handshake_proof handshake_expired : Error

pub data Result {ℓ} (A : Type ℓ) : Type ℓ where
  ok : A → Result A
  err : Error → Result A

-- To split on a computed result and keep the equation.
pub Result-cases {ℓ} :
    {A : Type ℓ} (r : Result A) → ((a : A) × (r ≡ ok a)) ⊎ ((e : Error) × (r ≡ err e))
Result-cases (err e) = inr (e, refl)
Result-cases (ok a) = inl (a, refl)

-- `if not test: raise e`
abbrev pub guard : (test : Bool) (e : Error) → Result (Unit {0})
guard false e = err e
guard true e = ok tt

-- A method of an object of type `S`.
abbrev pub Exec {ℓ κ} : Type ℓ → Type κ → Type (ℓ ⊔ κ)
Exec S A = S → Result A × S

infixl 5 ◌>>=◌ ◌>>◌
-- A raised exception skips what follows.
abbrev pub ◌>>=◌ {ℓ κ} : {A : Type ℓ} {B : Type κ} (r : Result A) (next : A → Result B) → Result B
err e >>= next = err e
ok a >>= next = next a

abbrev pub ◌>>◌ {ℓ} : {B : Type ℓ} (checked : Result (Unit {0})) (next : Result B) → Result B
err e >> next = err e
ok _ >> next = next

-- `d[k]`, of what `d.get(k)` returns.
abbrev pub or_key_error {ℓ} : {V : Type ℓ} → Option V → Result V
or_key_error none = err key_error
or_key_error (some v) = ok v

abbrev pub item {ℓ} : {V : Type ℓ} → String → Dict V → Result V
item k d = or_key_error (get k d)

-- What follows from a step that did not raise, and from the next.
pub stepped :
    {A B : Type 0} (Q : Type 0) (r : Result A) (next : A → Result B) (b : B)
    → ((a : A) → r ≡ ok a → next a ≡ ok b → Q)
    → (r >>= next) ≡ ok b
    → Q
stepped Q (err e) next b f h = absurd (ground (arith, h))
stepped Q (ok a) next b f h = f a refl h
