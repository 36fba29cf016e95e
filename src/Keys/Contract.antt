-- ===== src/Keys/Contract.antt =====
-- The contract of uxsp/storage/keystore.py's `KeyStore`: a map from entity identifiers to cards, and
-- what follows for the wrappers of any store that meets it.
use uxsp.Prelude.{
  ◌≡◌, ◌≢◌, refl, String, Bool, true, false, if◌then◌else◌, str_eq, Option, none, some, List, [],
  ◌∷◌, arith, inl, inr, Option-cases,
}
use uxsp.Prelude.Result.{Result, Error, ok, err, Result-cases, card_not_found}
use uxsp.Prelude.Dict.{is_some}
use uxsp.Identity.{PublicCard}
use uxsp.Keys.{CardType, entity_id, KeyStore, public_card_of, require, public_card, put_many}

abbrev pub member : String → List String → Bool
member k [] = false
member k (j ∷ js) = if str_eq j k then true else member k js

-- `holds s` is the map that a state stands for, and `IsCard` says which cards the store is given.
pub record IsKeyStore {S : Type 0} (IsCard : CardType → Type 0) (ops : KeyStore S) : Type 1 where
  pub IsValid : S → Type 0
  pub holds : S → String → Option CardType
  pub start : S
  pub start-IsValid : IsValid start
  pub put-IsValid :
      (c : CardType) (w : Bool) (s : S) → IsCard c → IsValid s → IsValid (ops.put c w s).1
  pub get-IsValid : (i : String) (s : S) → IsValid s → IsValid (ops.get i s).1
  pub delete-IsValid : (i : String) (s : S) → IsValid s → IsValid (ops.delete i s).1
  -- a card stands under its own entity
  pub holds_own :
      (s : S) (i : String) (c : CardType)
      → IsValid s
      → holds s i ≡ some c
      → (entity_id c ≡ i) × IsCard c
  -- a card that is put replaces that of its entity
  pub holds-put :
      (c : CardType) (w : Bool) (s : S) (j : String)
      → IsCard c
      → IsValid s
      → (ops.put c w s).0 ≡ ok tt
      → holds (ops.put c w s).1 j ≡ (if str_eq (entity_id c) j then some c else holds s j)
  -- without `overwrite`, an entity that has a card is refused
  pub put_duplicate :
      (c d : CardType) (s : S)
      → IsValid s
      → holds s (entity_id c) ≡ some d
      → (ops.put c false s).0 ≢ ok tt
  -- an operation that raises leaves the map
  pub put_raised :
      (c : CardType) (w : Bool) (e : Error) (s : S) (j : String)
      → IsValid s
      → (ops.put c w s).0 ≡ err e
      → holds (ops.put c w s).1 j ≡ holds s j
  pub delete_raised :
      (i : String) (e : Error) (s : S) (j : String)
      → IsValid s
      → (ops.delete i s).0 ≡ err e
      → holds (ops.delete i s).1 j ≡ holds s j
  -- a read answers with the map, and leaves it
  pub get-holds :
      (i : String) (s : S) (r : Option CardType)
      → IsValid s
      → (ops.get i s).0 ≡ ok r
      → r ≡ holds s i
  pub holds-get :
      (i : String) (s : S) (j : String) → IsValid s → holds (ops.get i s).1 j ≡ holds s j
  -- a deletion answers whether there was a card
  pub delete-holds :
      (i : String) (s : S) (b : Bool)
      → IsValid s
      → (ops.delete i s).0 ≡ ok b
      → b ≡ is_some (holds s i)
  pub holds-delete :
      (i : String) (s : S) (b : Bool) (j : String)
      → IsValid s
      → (ops.delete i s).0 ≡ ok b
      → holds (ops.delete i s).1 j ≡ (if str_eq i j then none else holds s j)
  -- the listed entities are those with a card
  pub list_ids-holds :
      (s : S) (ids : List String) (j : String)
      → IsValid s
      → (ops.list_ids s).0 ≡ ok ids
      → member j ids ≡ is_some (holds s j)

-- The last card of a list for an entity, or what there was before.
abbrev pub last_card : String → List CardType → Option CardType → Option CardType
last_card i [] before = before
last_card i (c ∷ cs) before = last_card i cs (if str_eq (entity_id c) i then some c else before)

abbrev pub public_card_or_not_found : Option CardType → Result PublicCard
public_card_or_not_found none = err card_not_found
public_card_or_not_found (some c) = ok (public_card_of c)

-- Every card of a list is one that the store may be given.
abbrev pub AllCards : (CardType → Type 0) → List CardType → Type 0
AllCards IsCard [] = Unit
AllCards IsCard (c ∷ cs) = IsCard c × AllCards IsCard cs

module _ {S : Type 0} (IsCard : CardType → Type 0) (ops : KeyStore S)
    (law : IsKeyStore IsCard ops) where
  put_many-holds :
      (cs : List CardType) (w : Bool) (s : S) (i : String)
      → AllCards IsCard cs
      → law.IsValid s
      → (put_many ops cs w s).0 ≡ ok tt
      → law.IsValid (put_many ops cs w s).1
        × (law.holds (put_many ops cs w s).1 i ≡ last_card i cs (law.holds s i))
  unfolding put_many
  put_many-holds [] w s i a v h = (v, refl)
  put_many-holds (c ∷ cs) w s i a v h = elim (Result-cases (ops.put c w s).0) [
    | inr (e, q) ↦ absurd (ground (arith, q))
    | inl (done, q) ↦
        let ih =
          put_many-holds cs w (ops.put c w s).1 i a.1 (law.put-IsValid c w s a.0 v)
            (ground (arith, q, h)) in
        rw (put_many, q) (ih.0, ground (arith, q, ih.1, law.holds-put c w s i a.0 v q))
  ]

  -- In a store that meets the contract, once a list of cards that it may be given was stored, a look-up of an entity's
  -- public card that reads the store answers with the public part of the last card of the list for that
  -- entity, or of the card that was there before, and raises that there is none where there is neither.
  pub public_card-put_many :
      (cs : List CardType) (w : Bool) (s : S) (i : String) (r : Option CardType)
      → AllCards IsCard cs
      → law.IsValid s
      → (put_many ops cs w s).0 ≡ ok tt
      → (ops.get i (put_many ops cs w s).1).0 ≡ ok r
      → (public_card ops i (put_many ops cs w s).1).0
        ≡ public_card_or_not_found (last_card i cs (law.holds s i))
  unfolding public_card require
  public_card-put_many cs w s i r a v h k =
      let after = put_many-holds cs w s i a v h in
      let same = law.get-holds i (put_many ops cs w s).1 r after.0 k in
      rw (k, ← after.1, ← same)
        (elim (Option-cases r) [ inl e ↦ rw e refl | inr (c, e) ↦ rw e refl ])
