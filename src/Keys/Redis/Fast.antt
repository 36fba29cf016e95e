-- ===== src/Keys/Redis/Fast.antt =====
-- uxsp/storage/keystore.py: a `RedisKeyStore` is a cache, over a client that keeps what Redis documents.
use text.Mathlib.TextLemmas.{append_cancel_left}
use uxsp.Prelude.{
  ℕ, ◌≡◌, ◌≢◌, refl, String, Bool, true, false, ◌⊎◌, inl, inr, some, arith, Option-cases,
}
use uxsp.Prelude.Result.{ok, Result-cases}
use uxsp.Prelude.Value.{ℤ, int}
use uxsp.Crypto.Parts.{Packages}
use uxsp.Identity.{Texts, validate_role}
use uxsp.Keys.{CardType, entity_id, public_card_of}
use uxsp.Keys.Stored.{serialise_card, deserialise_card-serialise_card}
use uxsp.Keys.Caching.Coherent.{IsCache}
use uxsp.Keys.Redis.{RedisClient, JsonTexts, key, card_of, put, get, delete, redis_key_store}

-- The commands SET, GET and DEL on text keys: a key may lose its value at any time, by its time to live or
-- otherwise, but a value that may be returned is the one that was set last.
pub record IsRedisClient {C : Type 0} (client : RedisClient C) : Type 1 where
  pub IsValid : C → Type 0
  pub MayReturn : C → String → String → Type 0
  pub start : C
  pub start-IsValid : IsValid start
  pub start_empty : (k v : String) → MayReturn start k v → ⊥
  pub set-IsValid :
      (k v : String) (ex : ℕ) (s : C) → IsValid s → IsValid (client.set k v false ex s).1
  pub get-IsValid : (k : String) (s : C) → IsValid s → IsValid (client.get k s).1
  pub delete-IsValid : (k : String) (s : C) → IsValid s → IsValid (client.delete k s).1
  pub set_done :
      (k v : String) (ex : ℕ) (s : C) → IsValid s → (client.set k v false ex s).0 ≡ ok true
  pub MayReturn-set :
      (k v : String) (ex : ℕ) (j w : String) (s : C)
      → IsValid s
      → MayReturn (client.set k v false ex s).1 j w
      → ((k ≡ j) × (w ≡ v)) ⊎ ((k ≢ j) × MayReturn s j w)
  pub get-MayReturn :
      (k v : String) (s : C) → IsValid s → (client.get k s).0 ≡ ok (some v) → MayReturn s k v
  pub MayReturn-get :
      (k j w : String) (s : C) → IsValid s → MayReturn (client.get k s).1 j w → MayReturn s j w
  pub delete_done : (k : String) (s : C) → IsValid s → (n : ℕ) × ((client.delete k s).0 ≡ ok n)
  pub MayReturn-delete :
      (k j w : String) (s : C)
      → IsValid s
      → MayReturn (client.delete k s).1 j w
      → (k ≢ j) × MayReturn s j w

module _ {C : Type 0} (client : RedisClient C) (law : IsRedisClient client) (prefix : String)
    (ttl : ℕ) (p : Packages) (x : Texts) (is_truthy : ℕ → Bool) (j : JsonTexts) (rounds : ℕ)
    (IsCard : CardType → Type 0)
    (valid : (c : CardType)
      → IsCard c
      → validate_role x (public_card_of c).role ≡ ok (public_card_of c).role)
    (exact : (n : ℤ) → p.to_int (int n) ≡ ok n)
    (read_back : (c : CardType)
      → IsCard c
      → j.loads (j.dumps (serialise_card p c)) ≡ ok (serialise_card p c)) where
  -- The key of an entity may be answered with a text of the card.
  abbrev MayAnswer : C → String → CardType → Type 0
  MayAnswer s i d =
      (raw : String) × law.MayReturn s (key client prefix i) raw
      × (card_of client prefix ttl p x is_truthy j (some raw) ≡ ok (some d))

  written_card :
      (c : CardType)
      → IsCard c
      → card_of client prefix ttl p x is_truthy j (some (j.dumps (serialise_card p c)))
        ≡ ok (some c)
  written_card c a =
      rw (read_back c a, deserialise_card-serialise_card p x is_truthy c (valid c a) exact) refl

  get-MayAnswer_lem :
      (i : String) (s : C) (d : CardType)
      → law.IsValid s
      → (get client prefix ttl p x is_truthy j i s).0 ≡ ok (some d)
      → MayAnswer s i d
  unfolding get
  get-MayAnswer_lem i s d v h = elim (Result-cases (client.get (key client prefix i) s).0) [
    | inr (e, q) ↦ absurd (ground (arith, q, h))
    | inl (o, q) ↦ elim (Option-cases o) [
      | inl e ↦ absurd (ground (arith, q, e, h))
      | inr (raw, e) ↦ (
        raw,
        law.get-MayReturn (key client prefix i) raw s v (ground (arith, q, e)),
        ground (arith, q, e, h),
      )
    ]
  ]

  MayAnswer-put_lem :
      (c d : CardType) (i : String) (s : C)
      → IsCard c
      → law.IsValid s
      → MayAnswer (put client prefix ttl p x is_truthy j c true s).1 i d
      → ((entity_id c ≡ i) × (d ≡ c)) ⊎ ((entity_id c ≢ i) × MayAnswer s i d)
  unfolding put
  MayAnswer-put_lem c d i s a v (raw, m, r) =
      elim (law.MayReturn-set (key client prefix (entity_id c)) (j.dumps (serialise_card p c)) ttl
        (key client prefix i) raw s v m) [
          | inl (e, same) ↦ inl (
            append_cancel_left prefix (entity_id c) i e,
            ground (arith, written_card c a, same, r),
          )
          | inr (ne, before) ↦ inr (λ e. ne (rw e refl), (raw, before, r))
        ]

  delete_done_lem :
      (i : String) (s : C) → law.IsValid s → (b : Bool) × ((delete client prefix i s).0 ≡ ok b)
  unfolding delete
  delete_done_lem i s v = let (n, e) = law.delete_done (key client prefix i) s v in rw e (_, refl)

  pub redis_key_store-IsCache :
      IsCache IsCard (redis_key_store client prefix ttl p x is_truthy j rounds)
  unfolding put get delete
  redis_key_store-IsCache = record {
    IsValid = λ s. law.IsValid s;
    MayAnswer = λ s i d. MayAnswer s i d;
    start = law.start;
    start-IsValid = law.start-IsValid;
    start_empty = λ i d m. law.start_empty (key client prefix i) m.0 m.1;
    put-IsValid = λ d s a v.
        law.set-IsValid (key client prefix (entity_id d)) (j.dumps (serialise_card p d)) ttl s v;
    get-IsValid = λ i s v. law.get-IsValid (key client prefix i) s v;
    delete-IsValid = λ i s v. law.delete-IsValid (key client prefix i) s v;
    get-MayAnswer = get-MayAnswer_lem;
    MayAnswer-get = λ i k s d v m.
        (m.0, law.MayReturn-get (key client prefix i) (key client prefix k) m.0 s v m.1, m.2);
    put_done = λ d s v.
        rw (law.set_done (key client prefix (entity_id d)) (j.dumps (serialise_card p d)) ttl s v)
          refl;
    MayAnswer-put = MayAnswer-put_lem;
    delete_done = delete_done_lem;
    MayAnswer-delete = λ i k s d v m.
        let left = law.MayReturn-delete (key client prefix i) (key client prefix k) m.0 s v m.1 in
        (λ e. left.0 (rw e refl), (m.0, left.1, m.2));
  }
