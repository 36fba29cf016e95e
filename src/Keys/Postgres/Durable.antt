-- ===== src/Keys/Postgres/Durable.antt =====
-- uxsp/storage/keystore.py: `put` of a `PostgresKeyStore` is carried out whole or not at all.
use uxsp.Prelude.{
  ℕ, ◌≡◌, refl, sym, ◌∙◌, String, Bool, true, false, if◌then◌else◌, str_eq, Option, none, some,
  arith, inl, inr, ◌⊎◌,
}
use uxsp.Prelude.Result.{Result, Error, ok, err, Result-cases, unique_violation}
use uxsp.Crypto.Parts.{Packages}
use uxsp.Identity.{Texts}
use uxsp.Keys.{CardType, entity_id}
use uxsp.Keys.Stored.{serialise_card}
use uxsp.Keys.Redis.{JsonTexts}
use uxsp.Keys.Postgres.{
  Database, concluded, then_commit, card_type, taken_or_unavailable, put_row, put,
}

-- A later state is well formed and the server's table is as it was.
abbrev pub Same : {D : Type 0} → (D → Type 0) → (D → String → Option String) → D → D → Type 0
Same IsValid committed s t = IsValid t × ((i : String) → committed t i ≡ committed s i)

-- A connection and its transaction: `working` is the table as its statements see it, `committed` as the
-- server keeps it, with the JSON text that a row was written with. A statement changes the working table
-- alone, a commit keeps it, and what ends otherwise is undone. A commit is atomic: of one that raises it
-- is not known whether it took place, but it has kept all or nothing.
pub record IsDatabase {D : Type 0} (db : Database D) : Type 1 where
  pub IsValid : D → Type 0
  pub working : D → String → Option String
  pub committed : D → String → Option String
  pub acquire_same :
      (s : D)
      → IsValid s
      → Same IsValid committed s (db.acquire s).1
        × ((i : String) → working (db.acquire s).1 i ≡ working s i)
  pub release_same :
      (s : D)
      → IsValid s
      → Same IsValid committed s (db.release s)
        × (((i : String) → working s i ≡ committed s i)
            → (i : String) → working (db.release s) i ≡ committed s i)
  pub rollback_same :
      (s : D)
      → IsValid s
      → Same IsValid committed s (db.rollback s).1
        × ((i : String) → working (db.rollback s).1 i ≡ committed s i)
  pub upsert_same :
      (i c raw : String) (s : D) → IsValid s → Same IsValid committed s (db.upsert i c raw s).1
  pub upsert_done :
      (i c raw : String) (s : D) (k : String)
      → IsValid s
      → (db.upsert i c raw s).0 ≡ ok tt
      → working (db.upsert i c raw s).1 k ≡ (if str_eq i k then some raw else working s k)
  pub insert_same :
      (i c raw : String) (s : D) → IsValid s → Same IsValid committed s (db.insert i c raw s).1
  pub insert_done :
      (i c raw : String) (s : D) (k : String)
      → IsValid s
      → (db.insert i c raw s).0 ≡ ok tt
      → (working s i ≡ none)
        × (working (db.insert i c raw s).1 k ≡ (if str_eq i k then some raw else working s k))
  pub commit_raised :
      (s : D) (e : Error)
      → IsValid s
      → (db.commit s).0 ≡ err e
      → IsValid (db.commit s).1
        × (((i : String) → committed (db.commit s).1 i ≡ committed s i)
            ⊎ ((i : String) → committed (db.commit s).1 i ≡ working s i))
  pub commit_done :
      (s : D)
      → IsValid s
      → (db.commit s).0 ≡ ok tt
      → IsValid (db.commit s).1
        × ((i : String) → committed (db.commit s).1 i ≡ working s i)
        × ((i : String) → working (db.commit s).1 i ≡ working s i)

module _ {D : Type 0} (db : Database D) (p : Packages) (x : Texts) (is_truthy : ℕ → Bool)
    (j : JsonTexts) (law : IsDatabase db) where
  -- The connection sees the table as the server keeps it.
  abbrev pub IsIdle : D → Type 0
  IsIdle s = (i : String) → law.working s i ≡ law.committed s i

  abbrev pub Kept : D → D → Type 0
  Kept s t = Same law.IsValid law.committed s t

  Kept-trans : (s t u : D) → Kept s t → Kept t u → Kept s u
  Kept-trans s t u a b = (b.0, λ i. b.1 i ∙ a.1 i)

  -- What an exception leaves: a connection without a transaction, and the table as it was.
  undone :
      (s t : D)
      → Kept s t
      → Kept s (db.rollback (db.release t)).1 × IsIdle (db.rollback (db.release t)).1
  undone s t k =
      let released = law.release_same t k.0 in
      let back = law.rollback_same (db.release t) released.0.0 in
      (
        Kept-trans s t _ k (Kept-trans t (db.release t) _ released.0 back.0),
        λ i. back.1 i ∙ sym (back.0.1 i),
      )

  -- The statement of `put` leaves the server's table.
  put_row_same :
      (c : CardType) (w : Bool) (s : D)
      → law.IsValid s
      → Kept s (put_row db p x is_truthy j c w s).1
  put_row_same c true s v =
      law.upsert_same (entity_id c) (card_type c) (j.dumps (serialise_card p c)) s v
  put_row_same c false s v =
      law.insert_same (entity_id c) (card_type c) (j.dumps (serialise_card p c)) s v

  put_row_done :
      (c : CardType) (w : Bool) (s : D) (k : String)
      → law.IsValid s
      → (put_row db p x is_truthy j c w s).0 ≡ ok tt
      → law.working (put_row db p x is_truthy j c w s).1 k
        ≡ (if str_eq (entity_id c) k then some (j.dumps (serialise_card p c)) else law.working s k)
  put_row_done c true s k v h =
      law.upsert_done (entity_id c) (card_type c) (j.dumps (serialise_card p c)) s k v h
  put_row_done c false s k v h =
      (law.insert_done (entity_id c) (card_type c) (j.dumps (serialise_card p c)) s k v h).1

  put_row_free :
      (c : CardType) (w : Bool) (s : D)
      → law.IsValid s
      → w ≡ false
      → (put_row db p x is_truthy j c w s).0 ≡ ok tt
      → law.working s (entity_id c) ≡ none
  put_row_free c true s v new h = absurd (ground (arith, new))
  put_row_free c false s v new h =
      (law.insert_done (entity_id c) (card_type c) (j.dumps (serialise_card p c)) s (entity_id c) v
        h).0

  -- The server's table has the card, and else what it had; it had none for the entity unless one is
  -- to be replaced.
  abbrev pub IsWritten : CardType → Bool → D → D → Type 0
  IsWritten c w s t =
      law.IsValid t
      × (w ≡ false → law.committed s (entity_id c) ≡ none)
      × ((k : String)
          → law.committed t k ≡ (
              if str_eq (entity_id c) k
              then some (j.dumps (serialise_card p c))
              else law.committed s k))

  -- What `put` comes to: it returned and the card is written, or it raised and the table is as it was or
  -- has the card whole. The connection sees the server's table.
  abbrev pub IsPut : CardType → Bool → Result (Unit {0}) → D → D → Type 0
  IsPut c w (ok done) s t = IsIdle t × IsWritten c w s t
  IsPut c w (err e) s t = IsIdle t × (Kept s t ⊎ IsWritten c w s t)

  taken_err : (e : Error) → (e' : Error) × (taken_or_unavailable {A = Unit {0}} (err e) ≡ err e')
  taken_err unique_violation = (_, refl)
  taken_err e = (_, refl)

  -- What a body that was committed leaves when its connection is given back.
  released_done :
      (t : D)
      → law.IsValid t
      → (db.commit t).0 ≡ ok tt
      → law.IsValid (db.release (db.commit t).1)
        × IsIdle (db.release (db.commit t).1)
        × ((k : String) → law.committed (db.release (db.commit t).1) k ≡ law.working t k)
  released_done t v h =
      let done = law.commit_done t v h in
      let released = law.release_same (db.commit t).1 done.0 in
      (
        released.0.0,
        λ i. released.1 (λ k. done.2 k ∙ sym (done.1 k)) i ∙ sym (released.0.1 i),
        λ k. released.0.1 k ∙ done.1 k,
      )

  -- A commit that raised.
  doubted-IsPut :
      (c : CardType) (w : Bool) (s t : D) (e : Error)
      → Kept s t
      → (w ≡ false → law.committed s (entity_id c) ≡ none)
      → ((k : String)
          → law.working t k ≡ (
              if str_eq (entity_id c) k
              then some (j.dumps (serialise_card p c))
              else law.committed s k))
      → (db.commit t).0 ≡ err e
      → IsPut c w (err e) s (db.rollback (db.release (db.commit t).1)).1
  doubted-IsPut c w s t e kept free wrote d =
      let (valid, outcome) = law.commit_raised t e kept.0 d in
      let out = undone (db.commit t).1 (db.commit t).1 (valid, λ i. refl) in
      elim outcome [
        | inl nothing ↦ (out.1, inl (out.0.0, λ i. out.0.1 i ∙ (nothing i ∙ kept.1 i)))
        | inr all ↦ (out.1, inr (out.0.0, free, λ k. out.0.1 k ∙ (all k ∙ wrote k)))
      ]

  -- The end of `put`, once its statement ran.
  ended-IsPut :
      (c : CardType) (w : Bool) (s : D) (r : Result (Unit {0})) (t : D)
      → Kept s t
      → (r ≡ ok tt → w ≡ false → law.committed s (entity_id c) ≡ none)
      → (r ≡ ok tt
          → (k : String)
          → law.working t k ≡ (
              if str_eq (entity_id c) k
              then some (j.dumps (serialise_card p c))
              else law.committed s k))
      → IsPut c w
          (taken_or_unavailable (concluded db (λ (u : Unit {0}). ok u) (then_commit db (r, t))).0)
          s
          (concluded db (λ (u : Unit {0}). ok u) (then_commit db (r, t))).1
  ended-IsPut c w s (err e) t kept free wrote =
      let out = undone s t kept in rw (taken_err e).1 (out.1, inl out.0)
  ended-IsPut c w s (ok done) t kept free wrote = elim (Result-cases (db.commit t).0) [
    | inr (e, d) ↦ rw (d, (taken_err e).1) (doubted-IsPut c w s t e kept (free refl) (wrote refl) d)
    | inl (done', d) ↦
        let out = released_done t kept.0 d in
        rw d (out.1, (out.0, free refl, λ k. out.2 k ∙ wrote refl k))
  ]

  -- Over a database as above, a card is put through a connection that sees the table as the server keeps
  -- it: either `put` returns, and the server's table holds the card's text under its entity and else what
  -- it held, where without `overwrite` it held none for the entity; or it raises, and the server's table
  -- is as it was or is the one of a `put` that returned. Either way the connection then sees the table as
  -- the server keeps it.
  pub put-IsPut :
      (c : CardType) (w : Bool) (s : D)
      → law.IsValid s
      → IsIdle s
      → IsPut c w (put db p x is_truthy j c w s).0 s (put db p x is_truthy j c w s).1
  unfolding put
  put-IsPut c w s v idle =
      let s0 = (db.acquire s).1 in
      let got = law.acquire_same s v in
      let ran = put_row db p x is_truthy j c w s0 in
      elim (Result-cases (db.acquire s).0) [
        | inr (e, a) ↦
            rw (a, (taken_err e).1) ((λ i. got.1 i ∙ (idle i ∙ sym (got.0.1 i))), inl got.0)
        | inl (done, a) ↦ rw a (
            ended-IsPut c w s ran.0 ran.1
              (Kept-trans s s0 ran.1 got.0 (put_row_same c w s0 got.0.0))
              (λ b new.
                sym (idle (entity_id c))
                ∙ (sym (got.1 (entity_id c)) ∙ put_row_free c w s0 got.0.0 new b))
              (λ b k. ground (arith, put_row_done c w s0 k got.0.0 b, got.1 k, idle k)))
      ]
