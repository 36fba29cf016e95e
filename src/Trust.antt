-- ===== src/Trust.antt =====
-- uxsp/core/signing.py: cards that a trust anchor signs, revocation lists, and the store that verifies
-- them. Dates are Unix times, which are not negative; the clock and new identifiers are arguments.
pub mod Revocation
pub mod Verified
pub mod Trusted
pub mod Revoked
pub mod Stored
use Prim.Native.String
use uxsp.Prelude.{
  ℕ, zero, suc, ◌+◌, ◌*◌, ◌-◌, String, Bool, true, false, not, ◌&&◌, leb, ltb, str_eq,
  if◌then◌else◌, Option, none, some, List, [], ◌∷◌, ◌++◌,
}
use uxsp.Prelude.Result.{
  Result, Exec, Error, ok, err, ◌>>=◌, ◌>>◌, guard, item, value_error, type_error,
  hybrid_validation, untrusted_card, invalid_card_signature, expired_card, card_not_yet_valid,
  revoked_card,
}
use uxsp.Prelude.Dict.{Dict, get, put, delete, contains}
use uxsp.Prelude.Value.{ℤ, pos, negsuc, Value, int, str}
use uxsp.Crypto.Symmetric.{Bytes}
use uxsp.Crypto.Parts.{Packages, bind_fields}
use uxsp.Crypto.Hybrid.{hybrid_sign, hybrid_verify}
use uxsp.Identity.{Texts, Identity, PublicCard, never, public_card}
use uxsp.Handshake.Parts.{Library, present, shown}

pub record PublicAnchor : Type 0 where
  pub anchor_id : String
  pub name : String
  pub public_keys : Dict Bytes
  pub created_at : String

pub record SignedCard : Type 0 where
  pub card : PublicCard
  pub cert_id : String
  pub issuer_id : String
  pub issuer_name : String
  pub not_before : ℕ
  pub not_after : ℕ
  pub classical_sig : Bytes
  pub pqc_sig : Bytes

-- `CertificateRevocationList`
pub record Crl : Type 0 where
  pub issuer_id : String
  pub issuer_name : String
  pub crl_number : ℕ
  pub issued_at : ℕ
  pub revoked_certs : Dict (Dict Value)
  pub classical_sig : Bytes
  pub pqc_sig : Bytes

pub record TrustStore : Type 0 where
  pub anchors : Dict PublicAnchor
  pub revoked_certs : Dict (Dict Value)

abbrev pub empty_store : TrustStore
empty_store = record { anchors = []; revoked_certs = [] }

unfoldable pub add : PublicAnchor → TrustStore → TrustStore
add anchor s = record s { anchors = put anchor.anchor_id anchor s.anchors }

unfoldable pub remove : String → TrustStore → TrustStore
remove anchor_id s = record s { anchors = delete anchor_id s.anchors }

abbrev pub has : String → TrustStore → Bool
has anchor_id s = contains anchor_id s.anchors

-- `from_anchors`
unfoldable pub from_anchors : List PublicAnchor → TrustStore → TrustStore
from_anchors [] s = s
from_anchors (a ∷ rest) s = from_anchors rest (add a s)

abbrev pub default_date : Option ℕ → ℕ → ℕ
default_date none now = now
default_date (some t) now = t

-- `revoke`, with the reading of the clock for a missing date.
unfoldable pub revoke : ℕ → String → String → Option ℕ → TrustStore → TrustStore
revoke now cert_id reason revocation_date s = record s {
  revoked_certs =
      put cert_id
        (("revocation_date", int (pos (default_date revocation_date now)))
          ∷ ("reason", str reason)
          ∷ [])
        s.revoked_certs;
}

unfoldable pub unrevoke : String → TrustStore → TrustStore
unrevoke cert_id s = record s { revoked_certs = delete cert_id s.revoked_certs }

abbrev pub is_revoked : String → TrustStore → Bool
is_revoked cert_id s = contains cert_id s.revoked_certs

abbrev pub get_revocation_info : String → TrustStore → Option (Dict Value)
get_revocation_info cert_id s = get cert_id s.revoked_certs

-- `for cid, info in crl.revoked_certs.items(): self._revoked_certs[cid] = dict(info)`
unfoldable pub put_all : Dict (Dict Value) → Dict (Dict Value) → Dict (Dict Value)
put_all [] d = d
put_all ((cid, info) ∷ rest) d = put_all rest (put cid info d)

unfoldable pub is_time_valid : ℕ → SignedCard → Bool
is_time_valid t c = leb c.not_before t && leb t c.not_after

unfoldable pub check_time_validity : ℕ → SignedCard → Result (Unit {0})
check_time_validity t c = do
  guard (not (ltb t c.not_before)) card_not_yet_valid
  guard (not (ltb c.not_after t)) expired_card

-- `remaining_seconds`
unfoldable pub remaining_seconds : ℕ → SignedCard → ℕ
remaining_seconds now c = c.not_after - now

abbrev pub is_entity : Option String → String → Bool
is_entity none entity_id = true
is_entity (some e) entity_id = str_eq entity_id e

-- `except EnvelopeValidationError: raise InvalidCardSignatureError`
abbrev pub malformed_as_invalid {ℓ} : {A : Type ℓ} → Result A → Result A
malformed_as_invalid (err hybrid_validation) = err invalid_card_signature
malformed_as_invalid r = r

abbrev pub max_validity_days : ℕ
max_validity_days = 730

-- A number of days from 1 to 730.
abbrev pub days_of : ℤ → Result ℕ
days_of (pos zero) = err value_error
days_of (pos (suc n)) = if leb (suc n) max_validity_days then ok (suc n) else err value_error
days_of (negsuc n) = err value_error

module _ (p : Packages) where
  -- `_card_signable`
  unfoldable pub card_signable : PublicCard → ℕ → ℕ → String → Result Bytes
  card_signable card not_before not_after cert_id = do
    exchange_pub ← item "exchange_pub" card.public_keys
    kem_pub ← item "kem_pub" card.public_keys
    signing_pub ← item "signing_pub" card.public_keys
    pqc_sig_pub ← item "pqc_sig_pub" card.public_keys
    bind_fields (
        p.encode card.entity_id
        ∷ p.encode card.name
        ∷ p.encode card.role
        ∷ p.encode card.created_at
        ∷ exchange_pub
        ∷ kem_pub
        ∷ signing_pub
        ∷ pqc_sig_pub
        ∷ p.encode (p.show (pos card.key_version))
        ∷ p.encode (p.show (pos not_before))
        ∷ p.encode (p.show (pos not_after))
        ∷ p.encode cert_id
        ∷ [])

  -- `public_anchor`
  unfoldable pub public_anchor : Texts → ℕ → Identity → Result PublicAnchor
  public_anchor x now me = do
    card ← public_card x now never me
    ok (record {
      anchor_id = me.entity_id;
      name = me.name;
      public_keys = card.public_keys;
      created_at = me.created_at;
    })

  -- `issue` of the anchor with the identity `me`, with the reading of the clock and the new identifier.
  unfoldable pub issue : ℕ → String → PublicCard → ℤ → Option ℕ → Identity → Result SignedCard
  issue now cid card validity_days not_before me = do
    days ← days_of validity_days
    let nb = default_date not_before now
    let na = nb + days * 86400
    signable ← card_signable card nb na cid
    sigs ← hybrid_sign p signable me.keypair
    classical_sig ← p.from_hex sigs.0
    pqc_sig ← p.from_hex sigs.1
    ok (record {
      card = card;
      cert_id = cid;
      issuer_id = me.entity_id;
      issuer_name = me.name;
      not_before = nb;
      not_after = na;
      classical_sig = classical_sig;
      pqc_sig = pqc_sig;
    })

  -- The two signatures as the dictionary that is verified.
  abbrev pub signatures_of : Bytes → Bytes → Dict Value
  signatures_of classical_sig pqc_sig =
      ("classical_sig", str (p.to_hex classical_sig)) ∷ ("pqc_sig", str (p.to_hex pqc_sig)) ∷ []

  -- The signature check of `verify`.
  unfoldable pub check_signature : SignedCard → Dict Bytes → Result PublicCard
  check_signature c anchor_public_keys = do
    signable ← card_signable c.card c.not_before c.not_after c.cert_id
    signature_ok ← malformed_as_invalid (
        hybrid_verify p signable (signatures_of c.classical_sig c.pqc_sig) anchor_public_keys false)
    guard signature_ok invalid_card_signature
    ok c.card

  -- `verify` at the time `t`; the anchors are read from `s` in one locked block and the revocations from
  -- `later` in the next, between which other threads may change the store.
  unfoldable pub verify :
      TrustStore → TrustStore → ℕ → Option String → SignedCard → Result PublicCard
  verify s later t expected_entity_id c = do
    anchor ← present (get c.issuer_id s.anchors) untrusted_card
    guard (not (is_revoked c.cert_id later)) revoked_card
    guard (is_entity expected_entity_id c.card.entity_id) untrusted_card
    check_time_validity t c
    check_signature c anchor.public_keys
