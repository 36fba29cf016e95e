-- ===== src/Secure/Engine.antt =====
-- uxsp/secure/_engine.py: sending and receiving a payload under the context. The package that is received has been
-- read from where it came; a package is not written to a file here.
use uxsp.Prelude.{
  ℕ, String, Bool, true, false, not, str_eq, leb, length, if◌then◌else◌, Option, none, some, List,
  [], ◌∷◌,
}
use uxsp.Prelude.Result.{Result, Exec, ok, err, ◌>>=◌, ◌>>◌, secure_receive_error, type_mismatch}
use uxsp.Prelude.Dict.{Dict}
use uxsp.Prelude.Value.{pos, Value}
use uxsp.Nonce.{NonceStore}
use uxsp.Envelope.{Envelope, to_dict, from_dict}
use uxsp.Replay.{ReplayGuard, instance_of}
use uxsp.Crypto.Symmetric.{Bytes}
use uxsp.Crypto.Parts.{Packages}
use uxsp.Identity.{Texts, Identity, PublicCard, Readings, seal_for, open_from}
use uxsp.Chunking.{Library}
use uxsp.Chunking.Transfer.{create_chunked_transfer, reassemble_chunked_transfer}
use uxsp.Keys.{KeyStore}
use uxsp.Secure.{
  Target, named, with_card, with_identity, SecureContext, Fresh, normalize_id, own_card, get_peer,
  get_identity,
}
use uxsp.Secure.Parts.{
  SecurePackage, Sending, envelope_limit, chunk_size, default_options, as_secure_error, is_expected,
  seal_chunks, open_chunks,
}

module _ (p : Packages) where
  module _ (x : Texts) (l : Library) (dumped_length : Dict Value → ℕ) (limit : ℕ) where
    -- The package of a payload that fits an envelope.
    unfoldable pub one_envelope :
        Sending
        → Bytes
        → String
        → Dict Value
        → PublicCard
        → String
        → Identity
        → Result SecurePackage
    one_envelope r payload data_type metadata peer_card rec_id me = do
      env ← seal_for x p dumped_length limit r.now r.sealing payload peer_card me
      ok (record {
        sender_id = me.entity_id;
        receiver_id = rec_id;
        data_type = data_type;
        is_chunked = false;
        envelope = some (to_dict env);
        chunks = [];
        metadata = metadata;
      })

    -- The package of a larger one: an envelope with a key, and chunks that are sealed under it.
    unfoldable pub many_chunks :
        Sending
        → Bytes
        → String
        → Dict Value
        → PublicCard
        → String
        → Identity
        → Result SecurePackage
    many_chunks r payload data_type metadata peer_card rec_id me = do
      env ← seal_for x p dumped_length limit r.now r.sealing r.session_key peer_card me
      packed ← create_chunked_transfer l r.transfer_id payload (pos chunk_size) default_options
      sealed ← seal_chunks p env.envelope_nonce r.session_key r.chunk_nonce 0 packed
      ok (record {
        sender_id = me.entity_id;
        receiver_id = rec_id;
        data_type = data_type;
        is_chunked = true;
        envelope = some (to_dict env);
        chunks = sealed;
        metadata = metadata;
      })

    unfoldable pub package_for :
        Sending
        → Bytes
        → String
        → Dict Value
        → PublicCard
        → String
        → Identity
        → Result SecurePackage
    package_for r payload data_type metadata peer_card rec_id me =
        if leb (length payload) envelope_limit
        then one_envelope r payload data_type metadata peer_card rec_id me
        else many_chunks r payload data_type metadata peer_card rec_id me

    -- The opening of a package, between its checks and the handlers.
    module _ {N : Type 0} (ops : NonceStore N) where
      -- An envelope of a package, opened for the identity `me`.
      unfoldable pub open_envelope :
          Readings → ReplayGuard → PublicCard → Identity → Dict Value → Exec N (Envelope × Bytes)
      open_envelope t g card me d n = elim (from_dict p.to_int dumped_length d limit) [
        | err e ↦ (err e, n)
        | ok env ↦
            let (r, n') = open_from x p ops t (some g) card (instance_of env) me n in
            (r >>= λ plain. ok (env, plain), n')
      ]

      -- The chunks of a package, under the key in its envelope.
      abbrev pub open_with_key : List (Dict Value) → Envelope × Bytes → Result Bytes
      open_with_key ds (env, key) = do
        packed ← open_chunks p env.envelope_nonce key 0 ds
        r ← reassemble_chunked_transfer l packed
        ok r.1

      unfoldable pub open_package :
          Readings
          → ReplayGuard
          → PublicCard
          → Identity
          → Bool
          → Option (Dict Value)
          → List (Dict Value)
          → Exec N Bytes
      open_package t g card me false none ds n = (err secure_receive_error, n)
      open_package t g card me false (some d) ds n =
          let (r, n') = open_envelope t g card me d n in (r >>= λ opened. ok opened.1, n')
      open_package t g card me true envelope [] n = (err secure_receive_error, n)
      open_package t g card me true none (c ∷ cs) n = (err secure_receive_error, n)
      open_package t g card me true (some d) (c ∷ cs) n =
          let (r, n') = open_envelope t g card me d n in (r >>= open_with_key (c ∷ cs), n')

      -- `_secure_receive_payload` once the parties and the package are known.
      unfoldable pub receive_checked :
          Readings
          → ReplayGuard
          → PublicCard
          → String
          → Option String
          → Identity
          → SecurePackage
          → Exec N Bytes
      receive_checked t g card snd_id expected_type me pkg n =
          if not (str_eq pkg.sender_id snd_id)
          then (err secure_receive_error, n)
          else (if not (str_eq pkg.receiver_id me.entity_id)
              then (err secure_receive_error, n)
              else (if not (is_expected expected_type pkg.data_type)
                  then (err type_mismatch, n)
                  else (let (r, n') =
                        open_package t g card me pkg.is_chunked pkg.envelope pkg.chunks n in
                      (as_secure_error r, n'))))

    module _ {K N : Type 0} (keys : KeyStore K) (ops : NonceStore N) where
      -- The card and the identifier of a peer.
      unfoldable pub resolve_peer : Target → Exec (SecureContext K N) (PublicCard × String)
      resolve_peer (with_identity me) s = (own_card x me >>= λ card. ok (card, me.entity_id), s)
      resolve_peer (with_card card) s = (ok (card, card.entity_id), s)
      resolve_peer (named entity) s = elim (normalize_id x (named entity)) [
        | err e ↦ (err e, s)
        | ok eid ↦ let (r, s') = get_peer x keys (named eid) s in (r >>= λ card. ok (card, eid), s')
      ]

      -- `sender or sender_identity or _GLOBAL_CONTEXT.get_identity()`
      unfoldable pub resolve_self : Fresh → Option Identity → Exec (SecureContext K N) Identity
      resolve_self f (some me) s = (ok me, s)
      resolve_self f none s = get_identity x keys p f s

      -- `_secure_send_payload`; `dispatch` is the transport hook, which may raise.
      unfoldable pub secure_send_payload :
          (SecurePackage → Result (Unit {0}))
          → Sending
          → Target
          → Bytes
          → String
          → Dict Value
          → Option Identity
          → Exec (SecureContext K N) SecurePackage
      secure_send_payload dispatch r target payload data_type metadata sender s =
          elim (resolve_peer target s).0 [
            | err e ↦ (err e, (resolve_peer target s).1)
            | ok (peer_card, rec_id) ↦
                let (who, s') = resolve_self r.fresh sender (resolve_peer target s).1 in
                (
                  who >>= λ me.
                      (package_for r payload data_type metadata peer_card rec_id me >>= λ pkg.
                      (dispatch pkg >> ok pkg)),
                  s',
                )
          ]

      -- What `_secure_receive_payload` does with the identity of the receiver.
      abbrev pub receive_as :
          Readings
          → PublicCard
          → String
          → Option String
          → SecurePackage
          → Result Identity
          → Exec (SecureContext K N) Bytes
      receive_as t card snd_id expected_type pkg (err e) s = (err e, s)
      receive_as t card snd_id expected_type pkg (ok me) s =
          let (r, n) =
            receive_checked ops t s.replay_guard card snd_id expected_type me pkg s.noncestore in
          (r, record s { noncestore = n })

      -- `_secure_receive_payload`, of what the input was resolved to.
      unfoldable pub secure_receive_payload :
          Readings
          → Fresh
          → Target
          → Result SecurePackage
          → Option String
          → Option Identity
          → Exec (SecureContext K N) Bytes
      secure_receive_payload t f target resolved expected_type receiver s =
          elim (resolve_peer target s).0 [
            | err e ↦ (err e, (resolve_peer target s).1)
            | ok (peer_card, snd_id) ↦ elim resolved [
              | err e ↦ (err e, (resolve_peer target s).1)
              | ok pkg ↦
                  let (who, s') = resolve_self f receiver (resolve_peer target s).1 in
                  receive_as t peer_card snd_id expected_type pkg who s'
            ]
          ]
