-- ===== src/Keys.antt =====
-- uxsp/storage/keystore.py: the interface of the stores of cards. A lock makes a method's locked block
-- one step.
pub mod Contract
pub mod Memory
pub mod Caching
pub mod Stored
pub mod Redis
pub mod File
pub mod Postgres
use uxsp.Prelude.{String, Bool, true, false, ℕ, length, Option, none, some, List, [], ◌∷◌}
use uxsp.Prelude.Result.{Result, Exec, ok, err, ◌>>=◌, card_not_found}
use uxsp.Prelude.Dict.{is_some}
use uxsp.Identity.{PublicCard}
use uxsp.Trust.{SignedCard}

pub data CardType : Type 0 where
  public : PublicCard → CardType
  signed : SignedCard → CardType

abbrev pub entity_id : CardType → String
entity_id (signed c) = c.card.entity_id
entity_id (public c) = c.entity_id

-- The abstract class: `put card overwrite`, `get entity_id`, `delete entity_id`, `list_ids`.
pub record KeyStore {ℓ} (S : Type ℓ) : Type ℓ where
  pub put : CardType → Bool → Exec S (Unit {0})
  pub get : String → Exec S (Option CardType)
  pub delete : String → Exec S Bool
  pub list_ids : Exec S (List String)

abbrev pub card_or_not_found : Option CardType → Result CardType
card_or_not_found none = err card_not_found
card_or_not_found (some card) = ok card

abbrev pub public_card_of : CardType → PublicCard
public_card_of (signed c) = c.card
public_card_of (public c) = c

module _ {ℓ} {S : Type ℓ} (ops : KeyStore S) where
  unfoldable pub require : String → Exec S CardType
  require entity s = let (r, s') = ops.get entity s in (r >>= card_or_not_found, s')

  unfoldable pub public_card : String → Exec S PublicCard
  unfolding require
  public_card entity s =
      let (r, s') = require entity s in (r >>= λ card. ok (public_card_of card), s')

  unfoldable pub has : String → Exec S Bool
  has entity s = let (r, s') = ops.get entity s in (r >>= λ found. ok (is_some found), s')

  -- `put_many`: a card that is refused ends the loop.
  unfoldable pub put_many : List CardType → Bool → Exec S (Unit {0})
  put_many [] overwrite s = (ok tt, s)
  put_many (card ∷ cards) overwrite s = elim (ops.put card overwrite s).0 [
    | err e ↦ (err e, (ops.put card overwrite s).1)
    | ok done ↦ put_many cards overwrite (ops.put card overwrite s).1
  ]

  -- `__len__`
  unfoldable pub count : Exec S ℕ
  count s = let (r, s') = ops.list_ids s in (r >>= λ ids. ok (length ids), s')
