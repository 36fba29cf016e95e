-- ===== src/Trust/Stored.antt =====
-- uxsp/core/signing.py: the dictionary forms of anchors, signed cards and trust stores. As for public cards,
-- a dictionary with values of other types than a card's or an anchor's is a TypeError here.
use uxsp.Prelude.{ℕ, ◌≡◌, refl, Bool, [], ◌∷◌, arith}
use uxsp.Prelude.Result.{Result, ok, err, ◌>>=◌, item, type_error, attribute_error}
use uxsp.Prelude.Dict.{Dict, get}
use uxsp.Prelude.Value.{ℤ, pos, Value, int, str, obj, Fields, empty, field}
use uxsp.Crypto.Parts.{Packages}
use uxsp.Crypto.Hybrid.{hex_of}
use uxsp.Identity.{Texts, validate_role}
use uxsp.Identity.Stored.{text_of, natural, keys_of, hex_fields, bytes_of, bytes_of-hex_fields}
use uxsp.Identity.Stored as Cards
use uxsp.Trust.{PublicAnchor, SignedCard}

-- A dictionary as the value of an entry, and back.
unfoldable pub fields_of : Dict Value → Fields
fields_of [] = empty
fields_of ((k, v) ∷ d) = field k v (fields_of d)

unfoldable pub dict_of_fields : Fields → Dict Value
dict_of_fields empty = []
dict_of_fields (field k v fs) = (k, v) ∷ dict_of_fields fs

pub dict_of_fields-fields_of : (d : Dict Value) → dict_of_fields (fields_of d) ≡ d
unfolding dict_of_fields fields_of
dict_of_fields-fields_of [] = refl
dict_of_fields-fields_of ((k, v) ∷ d) = rw (dict_of_fields-fields_of d) refl

-- A value that is no dictionary has no `get`.
abbrev pub dict_or_attribute_error : Value → Result (Dict Value)
dict_or_attribute_error (obj fs) = ok (dict_of_fields fs)
dict_or_attribute_error _ = err attribute_error

-- A value that is no dictionary has no entry under a text.
abbrev pub dict_or_type_error : Value → Result (Dict Value)
dict_or_type_error (obj fs) = ok (dict_of_fields fs)
dict_or_type_error _ = err type_error

module _ (p : Packages) where
  -- `PublicAnchor.to_dict`
  unfoldable pub anchor_to_dict : PublicAnchor → Dict Value
  anchor_to_dict a =
      ("anchor_id", str a.anchor_id)
      ∷ ("name", str a.name)
      ∷ ("created_at", str a.created_at)
      ∷ ("public_keys", obj (hex_fields p.to_hex a.public_keys))
      ∷ []

  -- `PublicAnchor.from_dict`
  unfoldable pub anchor_from_dict : Dict Value → Result PublicAnchor
  anchor_from_dict d = do
    anchor_id ← item "anchor_id" d >>= text_of
    name ← item "name" d >>= text_of
    created_at ← item "created_at" d >>= text_of
    public_keys ← item "public_keys" d >>= keys_of p
    ok (record {
      anchor_id = anchor_id;
      name = name;
      public_keys = public_keys;
      created_at = created_at;
    })

  -- `SignedCard.to_dict`
  unfoldable pub to_dict : SignedCard → Dict Value
  to_dict c =
      ("cert_id", str c.cert_id)
      ∷ ("issuer_id", str c.issuer_id)
      ∷ ("issuer_name", str c.issuer_name)
      ∷ ("not_before", int (pos c.not_before))
      ∷ ("not_after", int (pos c.not_after))
      ∷ ("classical_sig", str (p.to_hex c.classical_sig))
      ∷ ("pqc_sig", str (p.to_hex c.pqc_sig))
      ∷ ("card", obj (fields_of (Cards.to_dict p c.card)))
      ∷ []

  -- `SignedCard.from_dict`
  unfoldable pub from_dict : Texts → (ℕ → Bool) → Dict Value → Result SignedCard
  from_dict x is_truthy d = do
    fields ← item "card" d >>= dict_or_attribute_error
    card ← Cards.from_dict p x is_truthy fields
    cert_id ← item "cert_id" d >>= text_of
    issuer_id ← item "issuer_id" d >>= text_of
    issuer_name ← item "issuer_name" d >>= text_of
    not_before ← item "not_before" d >>= p.to_int >>= natural
    not_after ← item "not_after" d >>= p.to_int >>= natural
    classical_sig ← item "classical_sig" d >>= hex_of p
    pqc_sig ← item "pqc_sig" d >>= hex_of p
    ok (record {
      card = card;
      cert_id = cert_id;
      issuer_id = issuer_id;
      issuer_name = issuer_name;
      not_before = not_before;
      not_after = not_after;
      classical_sig = classical_sig;
      pqc_sig = pqc_sig;
    })

  -- An anchor is read back from its dictionary as it was.
  pub anchor_from_dict-to_dict : (a : PublicAnchor) → anchor_from_dict (anchor_to_dict a) ≡ ok a
  unfolding anchor_from_dict anchor_to_dict get
  anchor_from_dict-to_dict a = ground (arith, bytes_of-hex_fields p a.public_keys)

  -- So is a signed card, on the conditions on which its public card is, and that `int` answers its dates
  -- with themselves.
  pub from_dict-to_dict_lem :
      (x : Texts) (is_truthy : ℕ → Bool) (c : SignedCard)
      → validate_role x c.card.role ≡ ok c.card.role
      → ((n : ℤ) → p.to_int (int n) ≡ ok n)
      → from_dict x is_truthy (to_dict c) ≡ ok c
  unfolding from_dict to_dict get
  from_dict-to_dict_lem x is_truthy c valid exact = ground (
    arith,
    dict_of_fields-fields_of (Cards.to_dict p c.card),
    Cards.from_dict-to_dict_lem p x is_truthy c.card valid (exact (pos c.card.key_version)),
    p.from_hex-to_hex c.classical_sig,
    p.from_hex-to_hex c.pqc_sig,
    exact (pos c.not_before),
    exact (pos c.not_after),
  )
