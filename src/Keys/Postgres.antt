-- ===== src/Keys/Postgres.antt =====
-- uxsp/storage/keystore.py: `PostgresKeyStore` over a connection or a pool of connections.
pub mod Durable
use uxsp.Prelude.{ℕ, ◌==◌, String, Bool, true, false, not, if◌then◌else◌, Option, none, some, List}
use uxsp.Prelude.Result.{
  Result, Exec, ok, err, ◌>>=◌, key_store_backend, duplicate_card, unique_violation,
}
use uxsp.Prelude.Dict.{Dict}
use uxsp.Prelude.Value.{Value}
use uxsp.Crypto.Parts.{Packages}
use uxsp.Identity.{Texts}
use uxsp.Keys.{CardType, public, signed, entity_id, KeyStore}
use uxsp.Keys.Stored.{serialise_card, deserialise_card}
use uxsp.Keys.Redis.{JsonTexts}

-- What the driver returns for the column of type JSONB.
pub data Column : Type 0 where
  as_text : String → Column
  as_dict : Dict Value → Column
  unexpected : Column

-- The statements of the store, executed with their arguments: `upsert` and `insert` take the entity, the type of
-- the card and its JSON text; `remove` answers with the number of rows. `acquire` gets a connection and
-- its cursor, and `release` gives it back.
pub record Database (D : Type 0) : Type 0 where
  pub acquire : Exec D (Unit {0})
  pub release : D → D
  pub create : Exec D (Unit {0})
  pub upsert : String → String → String → Exec D (Unit {0})
  pub insert : String → String → String → Exec D (Unit {0})
  pub select_card : String → Exec D (Option Column)
  pub remove : String → Exec D ℕ
  pub select_ids : Exec D (List String)
  pub commit : Exec D (Unit {0})
  pub rollback : Exec D (Unit {0})

abbrev pub card_type : CardType → String
card_type (signed c) = "signed"
card_type (public c) = "public"

-- Any exception as KeyStoreBackendError.
abbrev pub unavailable {ℓ} : {A : Type ℓ} → Result A → Result A
unavailable (ok a) = ok a
unavailable (err e) = err key_store_backend

-- The same, but for a key that is taken.
abbrev pub taken_or_unavailable {ℓ} : {A : Type ℓ} → Result A → Result A
taken_or_unavailable (ok a) = ok a
taken_or_unavailable (err unique_violation) = err duplicate_card
taken_or_unavailable (err e) = err key_store_backend

module _ {D : Type 0} (db : Database D) where
  -- One statement after another.
  abbrev pub then_commit {ℓ} : {A : Type ℓ} → Result A × D → Result A × D
  then_commit (err e, s) = (err e, s)
  then_commit (ok a, s) = let (r, s') = db.commit s in (r >>= λ _. ok a, s')

  abbrev pub then_rollback {ℓ} : {A : Type ℓ} → Result A × D → Result A × D
  then_rollback (err e, s) = (err e, s)
  then_rollback (ok a, s) = let (r, s') = db.rollback s in (r >>= λ _. ok a, s')

  -- The end of a `with` block, what follows it, and the handlers: an exception rolls back, whatever comes of that.
  abbrev pub concluded {ℓ κ} :
      {A : Type ℓ} {B : Type κ} → (A → Result B) → Result A × D → Result B × D
  concluded after (err e, s) = (err e, (db.rollback (db.release s)).1)
  concluded after (ok a, s) = elim (after a) [
    | ok b ↦ (ok b, db.release s)
    | err e ↦ (err e, (db.rollback (db.release s)).1)
  ]

  -- The body of a method in its connection: without one nothing is rolled back.
  abbrev pub in_connection {ℓ κ} :
      {A : Type ℓ} {B : Type κ}
      → (D → Result A × D)
      → (A → Result B)
      → Result (Unit {0}) × D
      → Result B × D
  in_connection body after (err e, s) = (err e, s)
  in_connection body after (ok done, s) = concluded after (body s)

  unfoldable pub create_table : Exec D (Unit {0})
  create_table s =
      let (r, s') =
        in_connection (λ t. then_commit (db.create t)) (λ done. ok done) (db.acquire s) in
      (unavailable r, s')

  unfoldable pub delete : String → Exec D Bool
  delete entity s =
      let (r, s') =
        in_connection (λ t. then_commit (db.remove entity t)) (λ n. ok (not (n == 0)))
          (db.acquire s) in
      (unavailable r, s')

  unfoldable pub list_ids : Exec D (List String)
  list_ids s =
      let (r, s') =
        in_connection (λ t. then_rollback (db.select_ids t)) (λ ids. ok ids) (db.acquire s) in
      (unavailable r, s')

  module _ (p : Packages) (x : Texts) (is_truthy : ℕ → Bool) (j : JsonTexts) where
    -- The statement of `put`.
    abbrev pub put_row : CardType → Bool → Exec D (Unit {0})
    put_row card true s =
        db.upsert (entity_id card) (card_type card) (j.dumps (serialise_card p card)) s
    put_row card false s =
        db.insert (entity_id card) (card_type card) (j.dumps (serialise_card p card)) s

    unfoldable pub put : CardType → Bool → Exec D (Unit {0})
    put card overwrite s =
        let (r, s') =
          in_connection (λ t. then_commit (put_row card overwrite t)) (λ done. ok done)
            (db.acquire s) in
        (taken_or_unavailable r, s')

    abbrev pub dict_of_column : Column → Result (Dict Value)
    dict_of_column (as_text raw) = j.loads raw
    dict_of_column (as_dict d) = ok d
    dict_of_column unexpected = err key_store_backend

    -- What `get` makes of the row.
    abbrev pub card_of : Option Column → Result (Option CardType)
    card_of none = ok none
    card_of (some column) =
        dict_of_column column >>= λ d. (deserialise_card p x is_truthy d >>= λ c. ok (some c))

    unfoldable pub get : String → Exec D (Option CardType)
    get entity s =
        let (r, s') =
          in_connection (λ t. then_commit (db.select_card entity t)) card_of (db.acquire s) in
        (unavailable r, s')

    abbrev pub postgres_key_store : KeyStore D
    postgres_key_store = record { put = put; get = get; delete = delete; list_ids = list_ids }
