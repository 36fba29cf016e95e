-- ===== src/Secure/Refused.antt =====
-- uxsp/secure/: once a peer is revoked in the context, nothing is sent to it and nothing received from it.
use uxsp.Prelude.{
  ◌≡◌, ◌≢◌, refl, sym, subst, ◌∙◌, ℕ, String, Bool, true, false, str_eq_iff, Option, none, some,
  List, [], ◌∷◌, arith, inl, inr, Option-cases,
}
use uxsp.Prelude.Result.{Result, Error, ok, err, Result-cases, card_revoked}
use uxsp.Prelude.Dict.{Dict}
use uxsp.Prelude.Value.{Value}
use uxsp.Nonce.{NonceStore}
use uxsp.Envelope.{Envelope, from_dict}
use uxsp.Replay.{ReplayGuard, instance_of}
use uxsp.Crypto.Symmetric.{Bytes}
use uxsp.Crypto.Parts.{Packages}
use uxsp.Identity.{
  Texts, Identity, PublicCard, Readings, revoke, seal_for, addressed, open_addressed, open_from,
}
use uxsp.Chunking.{Library}
use uxsp.Keys.{CardType, public, entity_id, KeyStore, public_card_of}
use uxsp.Keys.Contract.{IsKeyStore}
use uxsp.Secure.{named, SecureContext, Fresh, normalize_id, get_peer, revoke_peer}
use uxsp.Secure.Parts.{SecurePackage, Sending, as_secure_error}
use uxsp.Secure.Engine.{
  one_envelope, many_chunks, package_for, open_envelope, open_package, receive_checked,
  resolve_peer, resolve_self, secure_send_payload, secure_receive_payload,
}

module _ (x : Texts) (p : Packages) (l : Library) (dumped_length : Dict Value → ℕ) (limit : ℕ) where
  package_for-revoked :
      (r : Sending) (payload : Bytes) (data_type : String) (metadata : Dict Value)
      (card : PublicCard) (rec_id : String) (me : Identity)
      → card.is_revoked ≡ true
      → package_for p x l dumped_length limit r payload data_type metadata card rec_id me
        ≡ err card_revoked
  unfolding package_for one_envelope many_chunks seal_for
  package_for-revoked r payload data_type metadata card rec_id me h = ground (arith, h)

  module _ {N : Type 0} (ops : NonceStore N) where
    open_from-revoked :
        (t : Readings) (g : ReplayGuard) (card : PublicCard) (env : Envelope) (me : Identity)
        (n : N)
        → card.is_revoked ≡ true
        → open_from x p ops t (some g) card (instance_of env) me n ≡ (err card_revoked, n)
    unfolding open_from open_addressed addressed
    open_from-revoked t g card env me n h = ground (arith, h)

    open_envelope-revoked :
        (t : Readings) (g : ReplayGuard) (card : PublicCard) (me : Identity) (d : Dict Value)
        (n : N)
        → card.is_revoked ≡ true
        → (e : Error) × ((open_envelope p x l dumped_length limit ops t g card me d n).0 ≡ err e)
    unfolding open_envelope
    open_envelope-revoked t g card me d n h =
        elim (Result-cases (from_dict p.to_int dumped_length d limit)) [
          | inr (e, a) ↦ (e, ground (arith, a))
          | inl (env, a) ↦ (card_revoked, ground (arith, a, open_from-revoked t g card env me n h))
        ]

    open_package-revoked :
        (t : Readings) (g : ReplayGuard) (card : PublicCard) (me : Identity) (chunked : Bool)
        (envelope : Option (Dict Value)) (ds : List (Dict Value)) (n : N)
        → card.is_revoked ≡ true
        → (e : Error) × ((open_package p x l dumped_length limit ops t g card me chunked envelope ds
              n).0
            ≡ err e)
    unfolding open_package
    open_package-revoked t g card me false none ds n h = (_, refl)
    open_package-revoked t g card me false (some d) ds n h =
        let (e, a) = open_envelope-revoked t g card me d n h in (e, ground (arith, a))
    open_package-revoked t g card me true envelope [] n h = (_, refl)
    open_package-revoked t g card me true none (c ∷ cs) n h = (_, refl)
    open_package-revoked t g card me true (some d) (c ∷ cs) n h =
        let (e, a) = open_envelope-revoked t g card me d n h in (e, ground (arith, a))

    -- The handlers turn no exception into a result.
    as_secure_error-err :
        (r : Result Bytes) (e : Error) (plain : Bytes) → r ≡ err e → as_secure_error r ≢ ok plain
    as_secure_error-err (ok b) e plain h k = absurd (ground (arith, h))
    as_secure_error-err (err e') e plain h k = absurd (ground (arith, k))

    receive_checked-revoked :
        (t : Readings) (g : ReplayGuard) (card : PublicCard) (snd_id : String)
        (expected : Option String) (me : Identity) (pkg : SecurePackage) (n : N) (plain : Bytes)
        → card.is_revoked ≡ true
        → (receive_checked p x l dumped_length limit ops t g card snd_id expected me pkg n).0
          ≢ ok plain
    unfolding receive_checked
    receive_checked-revoked t g card snd_id expected me pkg n plain h k =
        let (e, a) = open_package-revoked t g card me pkg.is_chunked pkg.envelope pkg.chunks n h in
        let refused =
          as_secure_error-err
            (open_package p x l dumped_length limit ops t g card me pkg.is_chunked pkg.envelope
              pkg.chunks n).0
            e plain a in
        absurd (ground (arith, refused, k))

same_entity : (c : CardType) → (public_card_of c).entity_id ≡ entity_id c
same_entity (CardType.signed c) = refl
same_entity (public c) = refl

module _ {K N : Type 0} (x : Texts) (IsCard : CardType → Type 0) (keys : KeyStore K)
    (law : IsKeyStore IsCard keys) where
  -- The revoked card is what the store holds for the peer afterwards.
  revoked_held :
      (now : ℕ) (reason entity eid : String) (s : SecureContext K N) (card : PublicCard)
      → law.IsValid s.keystore
      → IsCard (public card)
      → normalize_id x (named entity) ≡ ok eid
      → normalize_id x (named eid) ≡ ok eid
      → (revoke_peer x keys now reason (named entity) s).0 ≡ ok card
      → (card.is_revoked ≡ true)
        × law.IsValid (revoke_peer x keys now reason (named entity) s).1.keystore
        × (law.holds (revoke_peer x keys now reason (named entity) s).1.keystore eid
            ≡ some (public card))
  unfolding revoke_peer get_peer revoke
  revoked_held now reason entity eid s card v a named_so again h =
      elim (Result-cases (keys.get eid s.keystore).0) [
        | inr (e, q) ↦ absurd (ground (arith, named_so, again, q, h))
        | inl (o, q) ↦ elim (Option-cases o) [
          | inl none_there ↦ absurd (ground (arith, named_so, again, q, none_there, h))
          | inr (c, there) ↦
              let k = (keys.get eid s.keystore).1 in
              let revoked = revoke x now (some reason) (public_card_of c) in
              elim (Result-cases (keys.put (public revoked) true k).0) [
                | inr (e, b) ↦ absurd (ground (arith, named_so, again, q, there, b, h))
                | inl (done, b) ↦
                    let same : revoked ≡ card = ground (arith, named_so, again, q, there, b, h) in
                    let held : law.holds s.keystore eid ≡ some c =
                      sym (law.get-holds eid s.keystore o v q) ∙ there in
                    let k' = (keys.put (public revoked) true k).1 in
                    let stored : (revoke_peer x keys now reason (named entity) s).1.keystore ≡ k' =
                      ground (arith, named_so, again, q, there, b) in
                    let a' : IsCard (public revoked) =
                      subst (λ (t : PublicCard). IsCard (public t)) (sym same) a in
                    let v' = law.get-IsValid eid s.keystore v in
                    let own = same_entity c ∙ (law.holds_own s.keystore eid c v held).0 in
                    (
                      ground (arith, same),
                      subst law.IsValid (sym stored)
                          (law.put-IsValid (public revoked) true k a' v'),
                      rw stored (
                          ground (
                            arith,
                            law.holds-put (public revoked) true k eid a' v' b,
                            str_eq_iff (public_card_of c).entity_id eid,
                            own,
                            same,
                          )),
                    )
              ]
        ]
      ]

  -- The card that is resolved afterwards, when the store answers.
  revoked_resolved :
      (entity eid : String) (s : SecureContext K N) (card : PublicCard) (o : Option CardType)
      → law.IsValid s.keystore
      → law.holds s.keystore eid ≡ some (public card)
      → normalize_id x (named entity) ≡ ok eid
      → normalize_id x (named eid) ≡ ok eid
      → (keys.get eid s.keystore).0 ≡ ok o
      → (get_peer x keys (named eid) s).0 ≡ ok card
  unfolding get_peer
  revoked_resolved entity eid s card o v held first again q =
      ground (arith, again, q, law.get-holds eid s.keystore o v q, held)

  module _ (p : Packages) (l : Library) (dumped_length : Dict Value → ℕ) (limit : ℕ)
      (ops : NonceStore N) where
    resolve_peer-revoked :
        (entity eid : String) (s : SecureContext K N) (card : PublicCard) (o : Option CardType)
        → law.IsValid s.keystore
        → law.holds s.keystore eid ≡ some (public card)
        → normalize_id x (named entity) ≡ ok eid
        → normalize_id x (named eid) ≡ ok eid
        → (keys.get eid s.keystore).0 ≡ ok o
        → (resolve_peer p x l dumped_length limit keys ops (named entity) s).0 ≡ ok (card, eid)
    unfolding resolve_peer
    resolve_peer-revoked entity eid s card o v held first again q =
        ground (arith, first, revoked_resolved entity eid s card o v held first again q)

    -- Once a peer was revoked in the context, and while the key store answers for it, a payload for it is
    -- not sent but raises that the card is revoked, and no package is received from it: for every
    -- payload and package, in a key store that meets its contract, where the peer's name is brought to
    -- the identifier that its card stands under.
    pub revoked_peer_refused :
        (now : ℕ) (reason entity eid : String) (s : SecureContext K N) (card : PublicCard)
        (o : Option CardType) (r : Sending) (payload plain : Bytes) (data_type : String)
        (metadata : Dict Value) (dispatch : SecurePackage → Result (Unit {0})) (t : Readings)
        (f : Fresh) (pkg : SecurePackage) (expected : Option String) (me : Identity)
        → law.IsValid s.keystore
        → IsCard (public card)
        → normalize_id x (named entity) ≡ ok eid
        → normalize_id x (named eid) ≡ ok eid
        → (revoke_peer x keys now reason (named entity) s).0 ≡ ok card
        → (keys.get eid (revoke_peer x keys now reason (named entity) s).1.keystore).0 ≡ ok o
        → ((secure_send_payload p x l dumped_length limit keys ops dispatch r
              (named entity)
              payload
              data_type
              metadata
              (some me)
              (revoke_peer x keys now reason (named entity) s).1).0
            ≡ err card_revoked)
          × ((secure_receive_payload p x l dumped_length limit keys ops t f
                (named entity)
                (ok pkg)
                expected
                (some me)
                (revoke_peer x keys now reason (named entity) s).1).0
              ≢ ok plain)
    unfolding secure_send_payload secure_receive_payload resolve_self
    revoked_peer_refused now reason entity eid s card o r payload plain data_type metadata dispatch
          t f pkg expected me v a first again h answered =
        let s' = (revoke_peer x keys now reason (named entity) s).1 in
        let (revoked, v', held) = revoked_held now reason entity eid s card v a first again h in
        let peer = resolve_peer-revoked entity eid s' card o v' held first again answered in
        let s'' = (resolve_peer p x l dumped_length limit keys ops (named entity) s').1 in
        (
          ground (
            arith,
            peer,
            package_for-revoked x p l dumped_length limit r payload data_type metadata card eid me
                revoked,
          ),
          λ k.
              receive_checked-revoked x p l dumped_length limit ops t s''.replay_guard card eid
                expected me pkg s''.noncestore plain revoked (ground (arith, peer, k)),
        )
