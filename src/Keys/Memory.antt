-- ===== src/Keys/Memory.antt =====
-- uxsp/storage/keystore.py: `MemoryKeyStore`, a dictionary under a lock, and its contract.
use uxsp.Prelude.{
  ◌≡◌, ◌≢◌, refl, subst, String, Bool, true, false, not, ◌&&◌, if◌then◌else◌, str_eq, str_eq_iff,
  Option, none, some, List, [], ◌∷◌, arith, inl, inr, Bool-cases,
}
use uxsp.Prelude.Result.{Error, Exec, ok, err, duplicate_card}
use uxsp.Prelude.Dict.{
  Dict, IsDistinct, contains, is_some, get as find, put as insert, delete as remove, get-put,
  put-IsDistinct, get-delete, delete-IsDistinct,
}
use uxsp.Keys.{CardType, entity_id, KeyStore}
use uxsp.Keys.Contract.{IsKeyStore, member}

unfoldable pub put : CardType → Bool → Exec (Dict CardType) (Unit {0})
put card overwrite s =
    if not overwrite && contains (entity_id card) s
    then (err duplicate_card, s)
    else (ok tt, insert (entity_id card) card s)

unfoldable pub get : String → Exec (Dict CardType) (Option CardType)
get entity s = (ok (find entity s), s)

unfoldable pub delete : String → Exec (Dict CardType) Bool
delete entity s = if contains entity s then (ok true, remove entity s) else (ok false, s)

-- `list(d.keys())`
abbrev pub keys {ℓ} : {V : Type ℓ} → Dict V → List String
keys [] = []
keys ((k, v) ∷ d) = k ∷ keys d

unfoldable pub list_ids : Exec (Dict CardType) (List String)
list_ids s = (ok (keys s), s)

abbrev pub memory_key_store : KeyStore (Dict CardType)
memory_key_store = record { put = put; get = get; delete = delete; list_ids = list_ids }

pub member-keys : (j : String) (s : Dict CardType) → member j (keys s) ≡ is_some (find j s)
unfolding find
member-keys j [] = refl
member-keys j ((k, c) ∷ s) = ground (arith, member-keys j s)

module _ (IsCard : CardType → Type 0) where
  -- Every card stands under its own entity.
  abbrev pub IsKeyed : Dict CardType → Type 0
  IsKeyed s = (i : String) (c : CardType) → find i s ≡ some c → (entity_id c ≡ i) × IsCard c

  abbrev pub IsValid : Dict CardType → Type 0
  IsValid s = IsDistinct s × IsKeyed s

  put-IsKeyed :
      (c : CardType) (s : Dict CardType) → IsCard c → IsKeyed s → IsKeyed (insert (entity_id c) c s)
  put-IsKeyed c s a v i d h = elim (Bool-cases (str_eq (entity_id c) i)) [
    | inl e ↦
        let same : c ≡ d = ground (arith, get-put (entity_id c) i c s, e, h) in
        subst (λ (t : CardType). (entity_id t ≡ i) × IsCard t) same
          ((str_eq_iff (entity_id c) i).0 e, a)
    | inr e ↦ v i d (ground (arith, get-put (entity_id c) i c s, e, h))
  ]

  delete-IsKeyed :
      (i : String) (s : Dict CardType) → IsDistinct s → IsKeyed s → IsKeyed (remove i s)
  delete-IsKeyed i s u v j d h = v j d (ground (arith, get-delete i j s u, h))

  pub put-IsValid_lem :
      (c : CardType) (w : Bool) (s : Dict CardType) → IsCard c → IsValid s → IsValid (put c w s).1
  unfolding put
  put-IsValid_lem c w s a v = elim (Bool-cases (not w && contains (entity_id c) s)) [
    | inl e ↦ rw e v
    | inr e ↦ rw e (put-IsDistinct (entity_id c) c s v.0, put-IsKeyed c s a v.1)
  ]

  pub delete-IsValid_lem : (i : String) (s : Dict CardType) → IsValid s → IsValid (delete i s).1
  unfolding delete
  delete-IsValid_lem i s v = elim (Bool-cases (contains i s)) [
    | inl e ↦ rw e (delete-IsDistinct i s v.0, delete-IsKeyed i s v.0 v.1)
    | inr e ↦ rw e v
  ]

  pub get-put_lem :
      (c : CardType) (w : Bool) (s : Dict CardType) (j : String)
      → IsCard c
      → IsValid s
      → (put c w s).0 ≡ ok tt
      → find j (put c w s).1 ≡ (if str_eq (entity_id c) j then some c else find j s)
  unfolding put
  get-put_lem c w s j a v h = ground (arith, get-put (entity_id c) j c s)

  pub put_duplicate_lem :
      (c d : CardType) (s : Dict CardType)
      → IsValid s
      → find (entity_id c) s ≡ some d
      → (put c false s).0 ≢ ok tt
  unfolding put
  put_duplicate_lem c d s v h k = ground (arith, h, k)

  pub put_raised_lem :
      (c : CardType) (w : Bool) (e : Error) (s : Dict CardType) (j : String)
      → IsValid s
      → (put c w s).0 ≡ err e
      → find j (put c w s).1 ≡ find j s
  unfolding put
  put_raised_lem c w e s j v h = ground (arith, h)

  pub delete_raised_lem :
      (i : String) (e : Error) (s : Dict CardType) (j : String)
      → IsValid s
      → (delete i s).0 ≡ err e
      → find j (delete i s).1 ≡ find j s
  unfolding delete
  delete_raised_lem i e s j v h = ground (arith, h)

  pub delete-holds_lem :
      (i : String) (s : Dict CardType) (b : Bool)
      → IsValid s
      → (delete i s).0 ≡ ok b
      → b ≡ is_some (find i s)
  unfolding delete
  delete-holds_lem i s b v h = ground (arith, h)

  pub holds-delete_lem :
      (i : String) (s : Dict CardType) (b : Bool) (j : String)
      → IsValid s
      → (delete i s).0 ≡ ok b
      → find j (delete i s).1 ≡ (if str_eq i j then none else find j s)
  unfolding delete
  holds-delete_lem i s b j v h = ground (arith, get-delete i j s v.0, str_eq_iff i j)

  pub list_ids-holds_lem :
      (s : Dict CardType) (ids : List String) (j : String)
      → IsValid s
      → (list_ids s).0 ≡ ok ids
      → member j ids ≡ is_some (find j s)
  unfolding list_ids
  list_ids-holds_lem s ids j v h = ground (arith, h, member-keys j s)

  pub get-holds_lem :
      (i : String) (s : Dict CardType) (r : Option CardType)
      → IsValid s
      → (get i s).0 ≡ ok r
      → r ≡ find i s
  unfolding get
  get-holds_lem i s r v h = cc h

  pub get-IsValid_lem : (i : String) (s : Dict CardType) → IsValid s → IsValid (get i s).1
  unfolding get
  get-IsValid_lem i s v = v

  pub holds-get_lem :
      (i : String) (s : Dict CardType) (j : String) → IsValid s → find j (get i s).1 ≡ find j s
  unfolding get
  holds-get_lem i s j v = refl

  pub empty-IsValid : IsValid []
  unfolding find
  empty-IsValid = (tt, λ i c h. absurd (ground (arith, h)))

  pub holds_own_lem :
      (s : Dict CardType) (i : String) (c : CardType)
      → IsValid s
      → find i s ≡ some c
      → (entity_id c ≡ i) × IsCard c
  holds_own_lem s i c v h = v.1 i c h

  -- The in-process store meets the contract of a key store, its map being its dictionary.
  abbrev pub memory_law : IsKeyStore IsCard memory_key_store
  memory_law = record {
    IsValid = λ s. IsValid s;
    holds = λ s i. find i s;
    start = [];
    start-IsValid = empty-IsValid;
    holds_own = holds_own_lem;
    put-IsValid = put-IsValid_lem;
    get-IsValid = get-IsValid_lem;
    delete-IsValid = delete-IsValid_lem;
    holds-put = get-put_lem;
    put_duplicate = put_duplicate_lem;
    put_raised = put_raised_lem;
    delete_raised = delete_raised_lem;
    get-holds = get-holds_lem;
    holds-get = holds-get_lem;
    delete-holds = delete-holds_lem;
    holds-delete = holds-delete_lem;
    list_ids-holds = list_ids-holds_lem;
  }
