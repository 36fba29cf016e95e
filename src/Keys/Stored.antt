-- ===== src/Keys/Stored.antt =====
-- uxsp/storage/keystore.py: the dictionary form in which the stores keep a card.
use uxsp.Prelude.{ℕ, ◌≡◌, refl, Bool, if◌then◌else◌, Option, none, some, ◌∷◌, arith}
use uxsp.Prelude.Result.{Result, ok, err, ◌>>=◌, key_store_error}
use uxsp.Prelude.Dict.{Dict, get}
use uxsp.Prelude.Value.{ℤ, pos, Value, str, int, is_text}
use uxsp.Crypto.Parts.{Packages}
use uxsp.Identity.{Texts, validate_role}
use uxsp.Identity.Stored as Cards
use uxsp.Trust.Stored as Certificates
use uxsp.Keys.{CardType, public, signed, public_card_of}

-- `data.get("type", "public")`
abbrev pub type_or_public : Option Value → Value
type_or_public none = str "public"
type_or_public (some v) = v

module _ (p : Packages) where
  -- `_serialise_card`
  unfoldable pub serialise_card : CardType → Dict Value
  serialise_card (signed c) = ("type", str "signed") ∷ Certificates.to_dict p c
  serialise_card (public c) = ("type", str "public") ∷ Cards.to_dict p c

  module _ (x : Texts) (is_truthy : ℕ → Bool) where
    -- `_deserialise_card`
    unfoldable pub deserialise_card : Dict Value → Result CardType
    deserialise_card d =
        let ctype = type_or_public (get "type" d) in
        if is_text "signed" ctype
        then (Certificates.from_dict p x is_truthy d >>= λ c. ok (signed c))
        else (if is_text "public" ctype
            then (Cards.from_dict p x is_truthy d >>= λ c. ok (public c))
            else err key_store_error)

    -- The leading entry does not hide any that a card's reading looks at.
    signed_type_ignored :
        (t : Value) (d : Dict Value)
        → Certificates.from_dict p x is_truthy (("type", t) ∷ d)
          ≡ Certificates.from_dict p x is_truthy d
    unfolding Certificates.from_dict get
    signed_type_ignored t d = refl

    public_type_ignored :
        (t : Value) (d : Dict Value)
        → Cards.from_dict p x is_truthy (("type", t) ∷ d) ≡ Cards.from_dict p x is_truthy d
    unfolding Cards.from_dict get
    public_type_ignored t d = refl

    -- What the stores write for a card they read back as the same card, of the same kind, when the
    -- role in the card is in the form that every card's role is brought to and `int` answers an
    -- integer with itself.
    pub deserialise_card-serialise_card :
        (c : CardType)
        → validate_role x (public_card_of c).role ≡ ok (public_card_of c).role
        → ((n : ℤ) → p.to_int (int n) ≡ ok n)
        → deserialise_card (serialise_card c) ≡ ok c
    unfolding deserialise_card serialise_card get
    deserialise_card-serialise_card (signed c) valid exact = ground (
      arith,
      signed_type_ignored (str "signed") (Certificates.to_dict p c),
      Certificates.from_dict-to_dict_lem p x is_truthy c valid exact,
    )
    deserialise_card-serialise_card (public c) valid exact = ground (
      arith,
      public_type_ignored (str "public") (Cards.to_dict p c),
      Cards.from_dict-to_dict_lem p x is_truthy c valid (exact (pos c.key_version)),
    )
