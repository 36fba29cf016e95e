-- ===== src/Keys/Caching/Refines.antt =====
-- uxsp/storage/keystore.py: a cache that can be reached changes nothing of what the durable store
-- promises.
use uxsp.Prelude.{
  ◌≡◌, refl, sym, ◌∙◌, String, Bool, true, false, inl, inr, Option, none, some, arith,
}
use uxsp.Prelude.Result.{Result, ok, err, Result-cases, key_store_backend}
use uxsp.Keys.{CardType, KeyStore}
use uxsp.Keys.Contract.{IsKeyStore}
use uxsp.Keys.Caching.{
  put_in_cache, put, back_fill, get_from_backend, get_after_cache, get, evict, delete, list_ids,
  caching_key_store,
}
use uxsp.Keys.Caching.Coherent.{
  IsCache, IsValid, put-IsValid_lem, get-IsValid_lem, delete-IsValid_lem,
}

module _ {C B : Type 0} (IsCard : CardType → Type 0) (cache : KeyStore C) (backend : KeyStore B)
    (quick : IsCache IsCard cache) (law : IsKeyStore IsCard backend) where
  -- What the durable store answered is what is answered.
  back_fill_answer :
      (q : Result (Option CardType)) (o : Option CardType) (c : C) (b : B)
      → (back_fill cache backend q c b).0 ≡ ok o
      → q ≡ ok o
  unfolding back_fill
  back_fill_answer (err e) o c b h = absurd (ground (arith, h))
  back_fill_answer (ok none) o c b h = h
  back_fill_answer (ok (some card)) o c b h = elim (Result-cases (cache.put card true c).0) [
    | inl (done, e) ↦ ground (arith, e, h)
    | inr (e, k) ↦ ground (arith, k, h)
  ]

  back_fill_backend :
      (q : Result (Option CardType)) (c : C) (b : B) → (back_fill cache backend q c b).1.1 ≡ b
  unfolding back_fill
  back_fill_backend (err e) c b = refl
  back_fill_backend (ok none) c b = refl
  back_fill_backend (ok (some card)) c b = refl

  get_from_backend-holds :
      (i : String) (c : C) (b : B) (o : Option CardType)
      → law.IsValid b
      → (get_from_backend cache backend i c b).0 ≡ ok o
      → o ≡ law.holds b i
  unfolding get_from_backend
  get_from_backend-holds i c b o v h =
      law.get-holds i b o v (back_fill_answer (backend.get i b).0 o c (backend.get i b).1 h)

  get_after_cache-holds :
      (i : String) (r : Result (Option CardType)) (c : C) (b : B) (o : Option CardType)
      → law.IsValid b
      → ((d : CardType) → r ≡ ok (some d) → law.holds b i ≡ some d)
      → (get_after_cache cache backend i r c b).0 ≡ ok o
      → o ≡ law.holds b i
  unfolding get_after_cache
  get_after_cache-holds i (ok (some card)) c b o v k h = ground (arith, k card refl, h)
  get_after_cache-holds i (ok none) c b o v k h = get_from_backend-holds i c b o v h
  get_after_cache-holds i (err key_store_backend) c b o v k h = get_from_backend-holds i c b o v h
  get_after_cache-holds i (err e) c b o v k h = absurd (ground (arith, h))

  get-holds_lem :
      (i : String) (s : C × B) (o : Option CardType)
      → IsValid IsCard cache backend quick law s
      → (get cache backend i s).0 ≡ ok o
      → o ≡ law.holds s.1 i
  unfolding get
  get-holds_lem i (c, b) o v h =
      get_after_cache-holds i (cache.get i c).0 (cache.get i c).1 b o v.1
        (λ d e. v.2 i d (quick.get-MayAnswer i c d v.0 e)) h

  get_after_cache-same :
      (i : String) (r : Result (Option CardType)) (c : C) (b : B) (j : String)
      → law.IsValid b
      → law.holds (get_after_cache cache backend i r c b).1.1 j ≡ law.holds b j
  unfolding get_after_cache get_from_backend
  get_after_cache-same i (ok (some card)) c b j v = refl
  get_after_cache-same i (ok none) c b j v =
      rw (back_fill_backend (backend.get i b).0 c (backend.get i b).1) (law.holds-get i b j v)
  get_after_cache-same i (err key_store_backend) c b j v =
      rw (back_fill_backend (backend.get i b).0 c (backend.get i b).1) (law.holds-get i b j v)
  get_after_cache-same i (err e) c b j v = refl

  holds-get_lem :
      (i : String) (s : C × B) (j : String)
      → IsValid IsCard cache backend quick law s
      → law.holds (get cache backend i s).1.1 j ≡ law.holds s.1 j
  unfolding get
  holds-get_lem i (c, b) j v = get_after_cache-same i (cache.get i c).0 (cache.get i c).1 b j v.1

  -- A cache whose write is carried out leaves the verdict to the durable store.
  put_in_cache-parts :
      (card : CardType) (r : Result (Unit {0})) (c : C) (b : B)
      → quick.IsValid c
      → ((put_in_cache cache backend card r c b).0 ≡ r)
        × ((put_in_cache cache backend card r c b).1.1 ≡ b)
  unfolding put_in_cache
  put_in_cache-parts card (err e) c b v = (refl, refl)
  put_in_cache-parts card (ok done) c b v = (rw (quick.put_done card c v) refl, refl)

  put-parts :
      (card : CardType) (w : Bool) (s : C × B)
      → IsValid IsCard cache backend quick law s
      → ((put cache backend card w s).0 ≡ (backend.put card w s.1).0)
        × ((put cache backend card w s).1.1 ≡ (backend.put card w s.1).1)
  unfolding put
  put-parts card w (c, b) v =
      put_in_cache-parts card (backend.put card w b).0 c (backend.put card w b).1 v.0

  evict-parts :
      (i : String) (r : Result Bool) (c : C) (b : B)
      → quick.IsValid c
      → ((evict cache backend i r c b).0 ≡ r) × ((evict cache backend i r c b).1.1 ≡ b)
  unfolding evict
  evict-parts i (err e) c b v = (refl, refl)
  evict-parts i (ok result) c b v = (rw (quick.delete_done i c v).1 refl, refl)

  delete-parts :
      (i : String) (s : C × B)
      → IsValid IsCard cache backend quick law s
      → ((delete cache backend i s).0 ≡ (backend.delete i s.1).0)
        × ((delete cache backend i s).1.1 ≡ (backend.delete i s.1).1)
  unfolding delete
  delete-parts i (c, b) v = evict-parts i (backend.delete i b).0 c (backend.delete i b).1 v.0

  -- A cache that carries out what it is told and may forget cards, before a durable store that meets the
  -- contract of a key store, together meet that contract, with the durable store's map.
  pub caching_key_store-IsKeyStore : IsKeyStore IsCard (caching_key_store cache backend)
  unfolding list_ids
  caching_key_store-IsKeyStore = record {
    IsValid = λ s. IsValid IsCard cache backend quick law s;
    holds = λ s i. law.holds s.1 i;
    start = (quick.start, law.start);
    start-IsValid =
        (quick.start-IsValid, law.start-IsValid, λ i d m. absurd (quick.start_empty i d m));
    put-IsValid = put-IsValid_lem IsCard cache backend quick law;
    get-IsValid = get-IsValid_lem IsCard cache backend quick law;
    delete-IsValid = delete-IsValid_lem IsCard cache backend quick law;
    holds_own = λ s i c v h. law.holds_own s.1 i c v.1 h;
    holds-put = λ c w s j a v h.
        let parts = put-parts c w s v in
        rw parts.1 (law.holds-put c w s.1 j a v.1 (sym parts.0 ∙ h));
    put_duplicate =
        λ c d s v h k. law.put_duplicate c d s.1 v.1 h (sym (put-parts c false s v).0 ∙ k);
    put_raised = λ c w e s j v h.
        let parts = put-parts c w s v in
        rw parts.1 (law.put_raised c w e s.1 j v.1 (sym parts.0 ∙ h));
    delete_raised = λ i e s j v h.
        let parts = delete-parts i s v in
        rw parts.1 (law.delete_raised i e s.1 j v.1 (sym parts.0 ∙ h));
    get-holds = get-holds_lem;
    holds-get = holds-get_lem;
    delete-holds = λ i s b v h. law.delete-holds i s.1 b v.1 (sym (delete-parts i s v).0 ∙ h);
    holds-delete = λ i s b j v h.
        let parts = delete-parts i s v in
        rw parts.1 (law.holds-delete i s.1 b j v.1 (sym parts.0 ∙ h));
    list_ids-holds = λ s ids j v h. law.list_ids-holds s.1 ids j v.1 h;
  }
