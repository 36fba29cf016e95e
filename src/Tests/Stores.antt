-- ===== src/Tests/Stores.antt =====
-- Tests of the stores of cards, with a dictionary for the Redis server and one card that the JSON functions know.
use uxsp.Prelude.{
  none, false, ℕ, ◌≡◌, ◌≢◌, refl, String, true, if◌then◌else◌, str_eq, str_eq_iff, arith, Option,
  some, List, [], ◌∷◌, inl, inr, ◌⊎◌, Bool-cases,
}
use uxsp.Prelude.Result.{unique_violation, ok, err, other_error}
use uxsp.Prelude.Dict.{
  Dict, IsDistinct, contains, get as find, put as insert, delete as remove, get-put, put-IsDistinct,
  get-delete, delete-IsDistinct,
}
use uxsp.Prelude.Value.{Value, pos, int}
use uxsp.Identity.{validate_role}
use uxsp.Keys.{CardType, public, KeyStore, put_many, public_card, public_card_of}
use uxsp.Keys.Contract.{IsKeyStore, public_card-put_many}
use uxsp.Keys.Memory.{memory_key_store, memory_law, empty-IsValid, put, get}
use uxsp.Keys.Stored.{serialise_card}
use uxsp.Keys.Redis.{RedisClient, JsonTexts, redis_key_store}
use uxsp.Keys.Redis.Fast.{IsRedisClient, redis_key_store-IsCache}
use uxsp.Keys.Caching.{caching_key_store}
use uxsp.Keys.Caching.Refines.{caching_key_store-IsKeyStore}
use uxsp.Keys.File.{Format, FileKeyStore, File, Disk, new_store, file_dict, load, flush, put_loaded}
use uxsp.Keys.File as Files
use uxsp.Keys.File.Shared.{failed_put_answered, put_read_elsewhere}
use uxsp.Keys.Postgres.{Database}
use uxsp.Keys.Postgres
use uxsp.Keys.Postgres.Durable.{Same, IsDatabase, IsPut, put-IsPut}
use uxsp.Samples.{packages, texts, card}

abbrev alice : CardType
alice = public (card 1 "alice")

abbrev bob : CardType
bob = public (card 2 "bob")

abbrev AnyCard : CardType → Type 0
AnyCard c = Unit

public_card-put_many_example :
    (public_card memory_key_store "bob" (put_many memory_key_store (alice ∷ bob ∷ []) true []).1).0
    ≡ ok (card 2 "bob")
unfolding put_many put get find insert
public_card-put_many_example =
    public_card-put_many AnyCard memory_key_store (memory_law AnyCard) (alice ∷ bob ∷ []) true []
      "bob" (some bob) (tt, (tt, tt)) (empty-IsValid AnyCard) refl refl

-- A server that keeps what it is given.
abbrev server : RedisClient (Dict String)
server = record {
  set = λ k v nx ex s. if nx then (err other_error, s) else (ok true, insert k v s);
  get = λ k s. (ok (find k s), s);
  delete = λ k s. (ok (if contains k s then 1 else 0), remove k s);
  scan = λ cursor prefix s. (err other_error, s);
}

returned_after_set :
    (k v : String) (j w : String) (s : Dict String)
    → find j (insert k v s) ≡ some w
    → ((k ≡ j) × (w ≡ v)) ⊎ ((k ≢ j) × (find j s ≡ some w))
returned_after_set k v j w s h = elim (Bool-cases (str_eq k j)) [
  | inl e ↦ inl ((str_eq_iff k j).0 e, ground (arith, get-put k j v s, e, h))
  | inr e ↦
      inr (λ same. ground (arith, str_eq_iff k j, same, e), ground (arith, get-put k j v s, e, h))
]

returned_after_delete :
    (k j w : String) (s : Dict String)
    → IsDistinct s
    → find j (remove k s) ≡ some w
    → (k ≢ j) × (find j s ≡ some w)
returned_after_delete k j w s v h = (
  λ same. ground (arith, get-delete k j s v, str_eq_iff k j, same, h),
  ground (arith, get-delete k j s v, h),
)

server-IsRedisClient : IsRedisClient server
unfolding find
server-IsRedisClient = record {
  IsValid = λ s. IsDistinct s;
  MayReturn = λ s k v. find k s ≡ some v;
  start = [];
  start-IsValid = tt;
  start_empty = λ k v h. absurd (ground (arith, h));
  set-IsValid = λ k v ex s h. put-IsDistinct k v s h;
  get-IsValid = λ k s h. h;
  delete-IsValid = λ k s h. delete-IsDistinct k s h;
  set_done = λ k v ex s h. refl;
  MayReturn-set = λ k v ex j w s h m. returned_after_set k v j w s m;
  get-MayReturn = λ k v s h m. cc m;
  MayReturn-get = λ k j w s h m. m;
  delete_done = λ k s h. (_, refl);
  MayReturn-delete = λ k j w s h m. returned_after_delete k j w s h m;
}

abbrev IsKnown : CardType → Type 0
IsKnown c = c ≡ alice

abbrev texts_of_alice : JsonTexts
texts_of_alice = record { dumps = λ d. "alice"; loads = λ s. ok (serialise_card packages alice) }

known_role :
    (c : CardType)
    → IsKnown c
    → validate_role texts (public_card_of c).role ≡ ok (public_card_of c).role
unfolding validate_role
known_role c e = rw e refl

known_read :
    (c : CardType)
    → IsKnown c
    → texts_of_alice.loads (texts_of_alice.dumps (serialise_card packages c))
      ≡ ok (serialise_card packages c)
known_read c e = rw e refl

abbrev redis : KeyStore (Dict String)
redis = redis_key_store server "uxsp:cards:" 3600 packages texts (λ n. true) texts_of_alice 1

caching_key_store-IsKeyStore_example : IsKeyStore IsKnown (caching_key_store redis memory_key_store)
caching_key_store-IsKeyStore_example =
    caching_key_store-IsKeyStore IsKnown redis memory_key_store
      (redis_key_store-IsCache server server-IsRedisClient "uxsp:cards:" 3600 packages texts
        (λ n. true) texts_of_alice 1 IsKnown known_role (λ n. refl) known_read)
      (memory_law IsKnown)

abbrev with_alice : Dict CardType
with_alice = ("alice", alice) ∷ []

abbrev version_of : Option Value → ℕ
version_of (some (int (pos n))) = n
version_of _ = 0

-- The functions on the file's text, which know the cards of alice and bob.
abbrev both : Dict CardType
both = ("alice", alice) ∷ ("bob", bob) ∷ []

abbrev blank : Format
blank = record {
  dump = λ d. version_of (find "_version" d) ∷ [];
  dump_sorted = λ fs. [];
  loads = λ b. err other_error;
  sha256 = λ b. "00";
}

abbrev first_of : List ℕ → ℕ
first_of [] = 0
first_of (n ∷ ns) = n

abbrev format : Format
format = record blank {
  loads = λ b. ok (file_dict packages texts (λ n. true) blank (first_of b) both);
}

-- A copy of the file at the time 5, which holds alice's card.
abbrev opened : FileKeyStore
opened = record { mtime_ns = 5; size = 1; version = 1; hash = some "00"; cache = some with_alice }

abbrev file : File
file = record { content = 1 ∷ []; mtime_ns = 5 }

failed_put_answered_example :
    ((Files.put packages texts (λ n. true) format (err other_error) bob true opened (some file)).0
      ≡ err other_error)
    × ((Files.put packages texts (λ n. true) format (err other_error) bob true opened (some file)).2
        ≡ some file)
    × ((Files.get packages texts
          (λ n. true)
          format
          "bob"
          (Files.put packages texts
            (λ n. true)
            format
            (err other_error)
            bob
            true
            opened
            (some file)).1
          (some file)).0
        ≡ ok (some bob))
unfolding load
failed_put_answered_example =
    failed_put_answered packages texts (λ n. true) format bob other_error file opened with_alice
      refl

put_read_elsewhere_example :
    (Files.get packages texts
      (λ n. true)
      format
      "bob"
      new_store
      (some (record { content = 2 ∷ []; mtime_ns = 7 }))).0
    ≡ ok (some bob)
unfolding load find validate_role Files.put put_loaded flush insert file_dict
put_read_elsewhere_example =
    put_read_elsewhere packages texts (λ n. true) format (λ n. refl) bob true 7 opened new_store
      (some file) with_alice (record { content = 2 ∷ []; mtime_ns = 7 }) "bob" refl (refl, tt)
      (λ n. refl) refl refl refl (λ e. omega arith) refl

-- A table, and the working copy of the transaction on it.
abbrev Table : Type 0
Table = Dict String × Dict String

abbrev table : Database Table
table = record {
  acquire = λ s. (ok tt, s);
  release = λ s. s;
  create = λ s. (ok tt, s);
  upsert = λ i c raw s. (ok tt, (insert i raw s.0, s.1));
  insert = λ i c raw s.
      if contains i s.0 then (err unique_violation, s) else (ok tt, (insert i raw s.0, s.1));
  select_card = λ i s. (err other_error, s);
  remove = λ i s. (err other_error, s);
  select_ids = λ s. (err other_error, s);
  commit = λ s. (ok tt, (s.0, s.0));
  rollback = λ s. (ok tt, (s.1, s.1));
}

inserted-Same :
    (i c raw : String) (s : Table)
    → Same
        (λ (t : Table). Unit {0})
        (λ (t : Table) (k : String). find k t.1)
        s
        (table.insert i c raw s).1
inserted-Same i c raw s = elim (Bool-cases (contains i s.0)) [
  | inl e ↦ rw e (tt, λ k. refl)
  | inr e ↦ rw e (tt, λ k. refl)
]

inserted_done :
    (i c raw : String) (s : Table) (k : String)
    → (table.insert i c raw s).0 ≡ ok tt
    → (find i s.0 ≡ none)
      × (find k (table.insert i c raw s).1.0 ≡ (if str_eq i k then some raw else find k s.0))
inserted_done i c raw s k h = (ground (arith, h), ground (arith, h, get-put i k raw s.0))

table_law : IsDatabase table
table_law = record {
  IsValid = λ s. Unit {0};
  working = λ s i. find i s.0;
  committed = λ s i. find i s.1;
  acquire_same = λ s v. ((tt, λ i. refl), λ i. refl);
  release_same = λ s v. ((tt, λ i. refl), λ h i. h i);
  rollback_same = λ s v. ((tt, λ i. refl), λ i. refl);
  upsert_same = λ i c raw s v. (tt, λ k. refl);
  upsert_done = λ i c raw s k v h. get-put i k raw s.0;
  insert_same = λ i c raw s v. inserted-Same i c raw s;
  insert_done = λ i c raw s k v h. inserted_done i c raw s k h;
  commit_raised = λ s e v h. absurd (ground (arith, h));
  commit_done = λ s v h. (tt, (λ i. refl), (λ i. refl));
}

put-IsPut_example :
    IsPut table packages texts
      (λ n. true)
      texts_of_alice
      table_law
      bob
      false
      (ok tt)
      ([], [])
      (("bob", "alice") ∷ [], ("bob", "alice") ∷ [])
unfolding Postgres.put find insert table_law
put-IsPut_example =
    put-IsPut table packages texts (λ n. true) texts_of_alice table_law bob false ([], []) tt
      (λ i. refl)
