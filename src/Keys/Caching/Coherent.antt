-- ===== src/Keys/Caching/Coherent.antt =====
-- uxsp/storage/keystore.py: what a cache promises, and that its cards stay those of the durable store.
use uxsp.Prelude.{
  ◌≡◌, ◌≢◌, refl, sym, ◌∙◌, String, Bool, true, if◌then◌else◌, str_eq, str_eq_iff, ◌⊎◌, inl, inr,
  Option, none, some, arith,
}
use uxsp.Prelude.Result.{Result, ok, err, key_store_backend}
use uxsp.Keys.{CardType, entity_id, KeyStore}
use uxsp.Keys.Contract.{IsKeyStore}
use uxsp.Keys.Caching.{
  put_in_cache, put, back_fill, get_from_backend, get_after_cache, get, evict, delete,
}

-- What a cache promises: it may forget a card at any time, but answers with none that was not put, was
-- replaced or was deleted. Its reads may fail; its writes are carried out.
pub record IsCache {C : Type 0} (IsCard : CardType → Type 0) (ops : KeyStore C) : Type 1 where
  pub IsValid : C → Type 0
  pub MayAnswer : C → String → CardType → Type 0
  pub start : C
  pub start-IsValid : IsValid start
  pub start_empty : (i : String) (d : CardType) → MayAnswer start i d → ⊥
  pub put-IsValid : (d : CardType) (s : C) → IsCard d → IsValid s → IsValid (ops.put d true s).1
  pub get-IsValid : (i : String) (s : C) → IsValid s → IsValid (ops.get i s).1
  pub delete-IsValid : (i : String) (s : C) → IsValid s → IsValid (ops.delete i s).1
  pub get-MayAnswer :
      (i : String) (s : C) (d : CardType)
      → IsValid s
      → (ops.get i s).0 ≡ ok (some d)
      → MayAnswer s i d
  pub MayAnswer-get :
      (i j : String) (s : C) (d : CardType)
      → IsValid s
      → MayAnswer (ops.get i s).1 j d
      → MayAnswer s j d
  pub put_done : (d : CardType) (s : C) → IsValid s → (ops.put d true s).0 ≡ ok tt
  pub MayAnswer-put :
      (c d : CardType) (j : String) (s : C)
      → IsCard c
      → IsValid s
      → MayAnswer (ops.put c true s).1 j d
      → ((entity_id c ≡ j) × (d ≡ c)) ⊎ ((entity_id c ≢ j) × MayAnswer s j d)
  pub delete_done : (i : String) (s : C) → IsValid s → (b : Bool) × ((ops.delete i s).0 ≡ ok b)
  pub MayAnswer-delete :
      (i j : String) (s : C) (d : CardType)
      → IsValid s
      → MayAnswer (ops.delete i s).1 j d
      → (i ≢ j) × MayAnswer s j d

module _ {C B : Type 0} (IsCard : CardType → Type 0) (cache : KeyStore C) (backend : KeyStore B)
    (quick : IsCache IsCard cache) (law : IsKeyStore IsCard backend) where
  -- What the cache may answer the durable store holds.
  abbrev pub IsCoherent : C → B → Type 0
  IsCoherent c b = (i : String) (d : CardType) → quick.MayAnswer c i d → law.holds b i ≡ some d

  abbrev pub IsValid : C × B → Type 0
  IsValid (c, b) = quick.IsValid c × law.IsValid b × IsCoherent c b

  -- The durable store's map did not change.
  same-IsCoherent :
      (c : C) (b b' : B)
      → IsCoherent c b
      → ((j : String) → law.holds b' j ≡ law.holds b j)
      → IsCoherent c b'
  same-IsCoherent c b b' h same i d m = same i ∙ h i d m

  -- A card goes to the cache that the durable store holds.
  filled-IsCoherent :
      (c : C) (b b' : B) (card : CardType)
      → IsCard card
      → quick.IsValid c
      → IsCoherent c b
      → ((j : String)
          → law.holds b' j ≡ (if str_eq (entity_id card) j then some card else law.holds b j))
      → IsCoherent (cache.put card true c).1 b'
  filled-IsCoherent c b b' card a v h stored i d m = elim (quick.MayAnswer-put card d i c a v m) [
    | inl (e, same) ↦ ground (arith, stored i, str_eq_iff (entity_id card) i, e, same)
    | inr (ne, before) ↦ ground (arith, stored i, str_eq_iff (entity_id card) i, ne, h i d before)
  ]

  put_in_cache-IsValid :
      (card : CardType) (w : Bool) (r : Result (Unit {0})) (c : C) (b : B)
      → IsCard card
      → IsValid (c, b)
      → (backend.put card w b).0 ≡ r
      → IsValid (put_in_cache cache backend card r c (backend.put card w b).1).1
  unfolding put_in_cache
  put_in_cache-IsValid card w (err e) c b a v h = (
    v.0,
    law.put-IsValid card w b a v.1,
    same-IsCoherent c b (backend.put card w b).1 v.2 (λ j. law.put_raised card w e b j v.1 h),
  )
  put_in_cache-IsValid card w (ok done) c b a v h = (
    quick.put-IsValid card c a v.0,
    law.put-IsValid card w b a v.1,
    filled-IsCoherent c b (backend.put card w b).1 card a v.0 v.2
        (λ j. law.holds-put card w b j a v.1 h),
  )

  pub put-IsValid_lem :
      (card : CardType) (w : Bool) (s : C × B)
      → IsCard card
      → IsValid s
      → IsValid (put cache backend card w s).1
  unfolding put
  put-IsValid_lem card w (c, b) a v =
      put_in_cache-IsValid card w (backend.put card w b).0 c b a v refl

  evict-IsValid :
      (i : String) (r : Result Bool) (c : C) (b : B)
      → IsValid (c, b)
      → (backend.delete i b).0 ≡ r
      → IsValid (evict cache backend i r c (backend.delete i b).1).1
  unfolding evict
  evict-IsValid i (err e) c b v h = (
    v.0,
    law.delete-IsValid i b v.1,
    same-IsCoherent c b (backend.delete i b).1 v.2 (λ j. law.delete_raised i e b j v.1 h),
  )
  evict-IsValid i (ok result) c b v h = (
    quick.delete-IsValid i c v.0,
    law.delete-IsValid i b v.1,
    λ j d m.
        let left = quick.MayAnswer-delete i j c d v.0 m in
        ground (arith, law.holds-delete i b result j v.1 h, str_eq_iff i j, left.0, v.2 j d left.1),
  )

  pub delete-IsValid_lem :
      (i : String) (s : C × B) → IsValid s → IsValid (delete cache backend i s).1
  unfolding delete
  delete-IsValid_lem i (c, b) v = evict-IsValid i (backend.delete i b).0 c b v refl

  back_fill-IsValid :
      (i : String) (r : Result (Option CardType)) (c : C) (b : B)
      → IsValid (c, b)
      → (backend.get i b).0 ≡ r
      → IsValid (back_fill cache backend r c (backend.get i b).1).1
  unfolding back_fill
  back_fill-IsValid i (err e) c b v h = (
    v.0,
    law.get-IsValid i b v.1,
    same-IsCoherent c b (backend.get i b).1 v.2 (λ j. law.holds-get i b j v.1),
  )
  back_fill-IsValid i (ok none) c b v h = (
    v.0,
    law.get-IsValid i b v.1,
    same-IsCoherent c b (backend.get i b).1 v.2 (λ j. law.holds-get i b j v.1),
  )
  back_fill-IsValid i (ok (some card)) c b v h =
      let held = sym (law.get-holds i b (some card) v.1 h) in
      let own = law.holds_own b i card v.1 held in
      (
        quick.put-IsValid card c own.1 v.0,
        law.get-IsValid i b v.1,
        filled-IsCoherent c b (backend.get i b).1 card own.1 v.0 v.2 (λ j.
            ground (arith, law.holds-get i b j v.1, held, own.0, str_eq_iff (entity_id card) j)),
      )

  get_after_cache-IsValid :
      (i : String) (r : Result (Option CardType)) (c : C) (b : B)
      → IsValid (c, b)
      → IsValid (get_after_cache cache backend i r c b).1
  unfolding get_after_cache get_from_backend
  get_after_cache-IsValid i (ok (some card)) c b v = v
  get_after_cache-IsValid i (ok none) c b v = back_fill-IsValid i (backend.get i b).0 c b v refl
  get_after_cache-IsValid i (err key_store_backend) c b v =
      back_fill-IsValid i (backend.get i b).0 c b v refl
  get_after_cache-IsValid i (err e) c b v = v

  pub get-IsValid_lem : (i : String) (s : C × B) → IsValid s → IsValid (get cache backend i s).1
  unfolding get
  get-IsValid_lem i (c, b) v =
      get_after_cache-IsValid i (cache.get i c).0 (cache.get i c).1 b
        (quick.get-IsValid i c v.0, v.1, λ j d m. v.2 j d (quick.MayAnswer-get i j c d v.0 m))
