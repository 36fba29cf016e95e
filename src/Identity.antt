-- ===== src/Identity.antt =====
-- uxsp/core/identity.py: identities, the cards that they give out, and messages between them. Clock
-- readings and random bytes are arguments; `now` counts the ticks of the other modules.
pub mod Validity
pub mod Delivery
pub mod Stored
use uxsp.Prelude.{
  ℕ, ◌+◌, String, Bool, true, false, not, ltb, leb, str_eq, if◌then◌else◌, Option, none, some, List,
  [], ◌∷◌,
}
use uxsp.Prelude.Result.{
  Result, Exec, ok, err, ◌>>=◌, ◌>>◌, guard, value_error, attribute_error, runtime_error,
  card_expired, card_revoked,
}
use uxsp.Prelude.Dict.{Dict, get}
use uxsp.Prelude.Value.{Value, has_text}
use uxsp.Nonce.{NonceStore}
use uxsp.Envelope.{Envelope, to_dict, from_dict}
use uxsp.Crypto.Symmetric.{Bytes}
use uxsp.Crypto.Parts.{Packages, Coins, OpenOptions, Context}
use uxsp.Crypto.Hybrid.{
  seal, verify_envelope, decrypt_verified_envelope, generate_hybrid_keypair, extract_public_keys,
}
use uxsp.Crypto.Hybrid.Exchange.{Seed}
use uxsp.Replay.{ReplayGuard, Incoming, instance_of, mapping, neither, precheck, commit}

-- Python's functions on texts and dates: `str.strip`, `str.upper`, `len`, whether a character of a text
-- is white space, `datetime.isoformat` and `datetime.fromisoformat` with UTC for a missing zone.
pub record Texts : Type 0 where
  pub strip : String → String
  pub upper : String → String
  pub text_length : String → ℕ
  pub has_space : String → Bool
  pub isoformat : ℕ → String
  pub fromisoformat : String → Result ℕ

pub record PublicCard : Type 0 where
  pub entity_id : String
  pub name : String
  pub role : String
  pub public_keys : Dict Bytes
  pub created_at : String
  pub valid_until : Option String
  pub is_revoked : Bool
  pub revocation_reason : Option String
  pub revoked_at : Option String
  pub key_version : ℕ

pub record Identity : Type 0 where
  pub entity_id : String
  pub name : String
  pub role : String
  pub keypair : Dict (Dict Bytes)
  pub created_at : String
  pub key_version : ℕ
  pub keys_rotated_at : Option String
  pub public : Dict Bytes

-- The expiry that `public_card` is asked for.
pub data Expiry : Type 0 where
  never : Expiry
  at_text : String → Expiry
  at_time : ℕ → Expiry
  after : ℕ → Expiry

-- `text or default`, for an optional text.
abbrev pub text_or : Option String → String → String
text_or none default = default
text_or (some s) default = if str_eq s "" then default else s

-- The random bytes of one sealing, and its time stamp.
pub record Sealing : Type 0 where
  pub coins : Coins
  pub nonce : Bytes
  pub envelope_random : Bytes
  pub timestamp : ℕ

-- `envelope.to_dict()`, or the dictionary itself; anything else has no `get`.
abbrev pub dict_of : Incoming → Result (Dict Value)
dict_of (instance_of e) = ok (to_dict e)
dict_of (mapping d) = ok d
dict_of neither = err attribute_error

-- The clock readings of `open_from`.
pub record Readings : Type 0 where
  pub validity : ℕ
  pub precheck : ℕ
  pub seen : ℕ
  pub verification : ℕ
  pub commit : ℕ
  pub marking : ℕ

abbrev pub open_options : ReplayGuard → PublicCard → Identity → OpenOptions
open_options g card me = record {
  expected_recipient_id = some me.entity_id;
  expected_sender_id = some card.entity_id;
  max_age_seconds = g.window;
  clock_skew_seconds = g.clock_skew;
  allow_classical_only = false;
}

module _ (x : Texts) where
  unfoldable pub validate_role : String → Result String
  validate_role role = do
    let trimmed = x.upper (x.strip role)
    guard (not (str_eq trimmed "")) value_error
    guard (leb (x.text_length trimmed) 64) value_error
    guard (not (x.has_space trimmed)) value_error
    ok trimmed

  abbrev pub expiry_text : ℕ → Expiry → Option String
  expiry_text now never = none
  expiry_text now (at_text s) = some s
  expiry_text now (at_time t) = some (x.isoformat t)
  expiry_text now (after ttl) = some (x.isoformat (now + ttl))

  -- The constructor of `PublicCard` validates the role again.
  unfoldable pub public_card : ℕ → Expiry → Identity → Result PublicCard
  public_card now expiry me = do
    role ← validate_role me.role
    ok (record {
      entity_id = me.entity_id;
      name = me.name;
      role = role;
      public_keys = me.public;
      created_at = me.created_at;
      valid_until = expiry_text now expiry;
      is_revoked = false;
      revocation_reason = none;
      revoked_at = none;
      key_version = me.key_version;
    })

  -- `is_expired`, on `valid_until`; an empty text is no expiry.
  abbrev pub expired_at : ℕ → Option String → Result Bool
  expired_at now none = ok false
  expired_at now (some s) =
      if str_eq s "" then ok false else (x.fromisoformat s >>= λ until. ok (ltb until now))

  unfoldable pub is_expired : ℕ → PublicCard → Result Bool
  is_expired now card = expired_at now card.valid_until

  unfoldable pub revoke : ℕ → Option String → PublicCard → PublicCard
  revoke now reason card = record card {
    is_revoked = true;
    revocation_reason = some (text_or reason "Key compromised");
    revoked_at = some (x.isoformat now);
  }

  unfoldable pub verify_validity : ℕ → PublicCard → Result (Unit {0})
  verify_validity now card = do
    guard (not card.is_revoked) card_revoked
    expired ← is_expired now card
    guard (not expired) card_expired

  module _ (p : Packages) where
    -- `Identity.__init__`, for a new identity.
    unfoldable pub make_identity :
        ℕ → String → String → String → Dict (Dict Bytes) → Result Identity
    make_identity now entity_id name role keypair = do
      valid_role ← validate_role role
      public ← extract_public_keys keypair
      ok (record {
        entity_id = entity_id;
        name = name;
        role = valid_role;
        keypair = keypair;
        created_at = x.isoformat now;
        key_version = 1;
        keys_rotated_at = none;
        public = public;
      })

    abbrev new_keypair : Seed → Result (Dict (Dict Bytes))
    new_keypair r = generate_hybrid_keypair p r.exchange r.kem r.signing r.pqc_sig

    -- `create`; `entity_id` is what `uuid.uuid4()` returned.
    unfoldable pub create : ℕ → String → Seed → String → String → Result Identity
    create now entity_id r name role = do
      guard (not (str_eq name "")) value_error
      guard (not (str_eq (x.strip name) "")) value_error
      keypair ← new_keypair r
      make_identity now entity_id (x.strip name) role keypair

    -- A key pair that cannot be generated leaves the identity as it was.
    unfoldable pub rotate_keys : ℕ → Seed → Exec Identity (Unit {0})
    rotate_keys now r me = elim (new_keypair r) [
      | err e ↦ (err e, me)
      | ok keypair ↦ elim (extract_public_keys keypair) [
        | err e ↦ (err e, record me { keypair = keypair })
        | ok public ↦ (
          ok tt,
          record me {
            keypair = keypair;
            public = public;
            key_version = me.key_version + 1;
            keys_rotated_at = some (x.isoformat now);
          },
        )
      ]
    ]

    -- `dumped_length` is the length of `json.dumps` of a dictionary, `limit` the size limit of envelopes.
    unfoldable pub seal_for :
        (Dict Value → ℕ) → ℕ → ℕ → Sealing → Bytes → PublicCard → Identity → Result Envelope
    seal_for dumped_length limit now r plaintext card me = do
      guard (not card.is_revoked) card_revoked
      verify_validity now card
      raw ←
          seal p r.coins r.nonce r.envelope_random r.timestamp plaintext me.keypair card.public_keys
            me.entity_id card.entity_id []
      from_dict p.to_int dumped_length (to_dict raw) limit

    -- The checks of `open_from` on the card, the guard and the parties.
    unfoldable pub addressed :
        ℕ
        → Option ReplayGuard
        → PublicCard
        → Incoming
        → Identity
        → Result (ReplayGuard × Dict Value)
    addressed now guard_or_none card envelope me = do
      guard (not card.is_revoked) card_revoked
      verify_validity now card
      g ← elim guard_or_none [ none ↦ err runtime_error | some g ↦ ok g ]
      d ← dict_of envelope
      guard (has_text me.entity_id (get "recipient_id" d)) value_error
      guard (has_text card.entity_id (get "sender_id" d)) value_error
      ok (g, d)

    module _ {S : Type 0} (ops : NonceStore S) where
      -- From the commit on.
      unfoldable pub commit_and_decrypt :
          Readings → ReplayGuard → Dict Value → Context → Identity → Exec S Bytes
      commit_and_decrypt t g d ctx me s =
          let (r, s') = commit p.to_int g ops t.commit t.marking (mapping d) s in
          (r >> decrypt_verified_envelope p ctx me.keypair [], s')

      -- From the signatures on.
      unfoldable pub verify_and_commit :
          Readings
          → ReplayGuard
          → Dict Value
          → PublicCard
          → Identity
          → Result (Unit {0})
          → Exec S Bytes
      verify_and_commit t g d card me (err e) s = (err e, s)
      verify_and_commit t g d card me (ok u) s =
          elim (verify_envelope p (open_options g card me) t.verification d card.public_keys) [
            | err e ↦ (err e, s)
            | ok ctx ↦ commit_and_decrypt t g d ctx me s
          ]

      unfoldable pub open_addressed :
          Readings → PublicCard → Identity → Result (ReplayGuard × Dict Value) → Exec S Bytes
      open_addressed t card me (err e) s = (err e, s)
      open_addressed t card me (ok (g, d)) s =
          let (r, s') = precheck p.to_int g ops t.precheck t.seen (mapping d) s in
          verify_and_commit t g d card me r s'

      unfoldable pub open_from :
          Readings → Option ReplayGuard → PublicCard → Incoming → Identity → Exec S Bytes
      open_from t guard_or_none card envelope me s =
          open_addressed t card me (addressed t.validity guard_or_none card envelope me) s
