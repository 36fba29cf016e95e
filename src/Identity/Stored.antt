-- ===== src/Identity/Stored.antt =====
-- uxsp/core/identity.py: the dictionary form of a public card. A card holds texts, and a version that is
-- not negative: a dictionary with other values, which the code would take over as they are, is a
-- TypeError here.
use uxsp.Prelude.{
  ℕ, zero, ◌≡◌, refl, String, Bool, true, false, not, str_eq, Option, none, some, [], ◌∷◌, arith,
}
use uxsp.Prelude.Result.{
  Result, ok, err, ◌>>=◌, ◌>>◌, guard, item, value_error, type_error, attribute_error,
}
use uxsp.Prelude.Dict.{Dict, get}
use uxsp.Prelude.Value.{
  ℤ, pos, negsuc, Value, null, bool, int, str, arr, obj, other, nil, cons, Fields, empty, field,
  has_text,
}
use uxsp.Crypto.Symmetric.{Bytes}
use uxsp.Crypto.Parts.{Packages}
use uxsp.Crypto.Hybrid.{hex_of}
use uxsp.Identity.{Texts, PublicCard, validate_role}

abbrev pub pubcard_version : String
pubcard_version = "UXSP-PUBCARD-1"

-- `{k: v.hex() for k, v in public_keys.items()}`
unfoldable pub hex_fields : (Bytes → String) → Dict Bytes → Fields
hex_fields to_hex [] = empty
hex_fields to_hex ((k, v) ∷ d) = field k (str (to_hex v)) (hex_fields to_hex d)

-- An entry that is written when there is a text.
abbrev pub with_text : String → Option String → Dict Value → Dict Value
with_text k none rest = rest
with_text k (some s) rest = (k, str s) ∷ rest

abbrev pub text_of : Value → Result String
text_of (str s) = ok s
text_of _ = err type_error

abbrev pub text_or_none : Option Value → Result (Option String)
text_or_none none = ok none
text_or_none (some null) = ok none
text_or_none (some (str s)) = ok (some s)
text_or_none _ = err type_error

abbrev pub natural : ℤ → Result ℕ
natural (pos n) = ok n
natural (negsuc n) = err type_error

-- `data.get("version") not in (cls._VERSION, None)`
abbrev pub known_version : Option Value → Bool
known_version none = true
known_version (some null) = true
known_version v = has_text pubcard_version v

-- `bool(v)`, where `is_truthy` answers for the values of the other types.
abbrev pub truthy : (ℕ → Bool) → Value → Bool
truthy is_truthy null = false
truthy is_truthy (bool b) = b
truthy is_truthy (int (pos zero)) = false
truthy is_truthy (int _) = true
truthy is_truthy (str s) = not (str_eq s "")
truthy is_truthy (arr nil) = false
truthy is_truthy (arr (cons v vs)) = true
truthy is_truthy (obj empty) = false
truthy is_truthy (obj (field k v fs)) = true
truthy is_truthy (other n) = is_truthy n

abbrev pub flag : (ℕ → Bool) → Option Value → Bool
flag is_truthy none = false
flag is_truthy (some v) = truthy is_truthy v

module _ (p : Packages) where
  unfoldable pub to_dict : PublicCard → Dict Value
  to_dict c =
      ("version", str pubcard_version)
      ∷ ("entity_id", str c.entity_id)
      ∷ ("name", str c.name)
      ∷ ("role", str c.role)
      ∷ ("created_at", str c.created_at)
      ∷ ("public_keys", obj (hex_fields p.to_hex c.public_keys))
      ∷ ("key_version", int (pos c.key_version))
      ∷ ("is_revoked", bool c.is_revoked)
      ∷ with_text "valid_until" c.valid_until (
          with_text "revocation_reason" c.revocation_reason
            (with_text "revoked_at" c.revoked_at []))

  -- `{k: bytes.fromhex(v) for k, v in data.items()}`
  unfoldable pub bytes_of : Fields → Result (Dict Bytes)
  bytes_of empty = ok []
  bytes_of (field k v fs) = do b ← hex_of p v; rest ← bytes_of fs; ok ((k, b) ∷ rest)

  -- A value that is no dictionary has no `items`.
  abbrev pub keys_of : Value → Result (Dict Bytes)
  keys_of (obj fs) = bytes_of fs
  keys_of _ = err attribute_error

  -- `int(data.get("key_version", 1))`
  abbrev pub version_of : Option Value → Result ℕ
  version_of none = ok 1
  version_of (some v) = p.to_int v >>= natural

  unfoldable pub from_dict : Texts → (ℕ → Bool) → Dict Value → Result PublicCard
  from_dict x is_truthy d = do
    guard (known_version (get "version" d)) value_error
    entity_id ← item "entity_id" d >>= text_of
    name ← item "name" d >>= text_of
    role ← item "role" d >>= text_of
    created_at ← item "created_at" d >>= text_of
    public_keys ← item "public_keys" d >>= keys_of
    valid_until ← text_or_none (get "valid_until" d)
    revocation_reason ← text_or_none (get "revocation_reason" d)
    revoked_at ← text_or_none (get "revoked_at" d)
    key_version ← version_of (get "key_version" d)
    valid_role ← validate_role x role
    ok (record {
      entity_id = entity_id;
      name = name;
      role = valid_role;
      public_keys = public_keys;
      created_at = created_at;
      valid_until = valid_until;
      is_revoked = flag is_truthy (get "is_revoked" d);
      revocation_reason = revocation_reason;
      revoked_at = revoked_at;
      key_version = key_version;
    })

  pub bytes_of-hex_fields : (d : Dict Bytes) → bytes_of (hex_fields p.to_hex d) ≡ ok d
  unfolding bytes_of hex_fields
  bytes_of-hex_fields [] = refl
  bytes_of-hex_fields ((k, v) ∷ d) = rw (p.from_hex-to_hex v, bytes_of-hex_fields d) refl

  -- A card is read back from its dictionary as it was, when its role is in the form that every card's
  -- role is brought to and `int` answers an integer with itself.
  pub from_dict-to_dict_lem :
      (x : Texts) (is_truthy : ℕ → Bool) (c : PublicCard)
      → validate_role x c.role ≡ ok c.role
      → p.to_int (int (pos c.key_version)) ≡ ok (pos c.key_version)
      → from_dict x is_truthy (to_dict c) ≡ ok c
  unfolding from_dict to_dict get
  from_dict-to_dict_lem x is_truthy c valid exact =
      ground (arith, bytes_of-hex_fields c.public_keys, valid, exact)
