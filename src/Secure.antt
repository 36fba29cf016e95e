-- ===== src/Secure.antt =====
-- uxsp/secure/_context.py: the context that the simplified interface sends and receives with. The stores are
-- any implementations of their interfaces; a clock reading and new random values are arguments.
pub mod Parts
pub mod Engine
pub mod Opened
pub mod Delivered
pub mod Refused
pub mod Sent
use uxsp.Prelude.{
  ℕ, String, Bool, true, false, not, str_eq, if◌then◌else◌, Option, none, some, List, [], ◌∷◌,
}
use uxsp.Prelude.Result.{
  Result, Exec, ok, err, ◌>>=◌, ◌>>◌, guard, value_error, attribute_error, peer_not_found,
}
use uxsp.Nonce.{NonceStore}
use uxsp.Replay.{ReplayGuard}
use uxsp.Crypto.Parts.{Packages}
use uxsp.Crypto.Hybrid.Exchange.{Seed}
use uxsp.Identity.{
  Texts, Identity, PublicCard, never, public_card, create, revoke, verify_validity, rotate_keys,
}
use uxsp.Keys.{CardType, public, signed, KeyStore, public_card_of}

-- What a peer is named by: a text or a number (as `str(...)` shows it), a card, or an identity.
pub data Target : Type 0 where
  named : String → Target
  with_card : PublicCard → Target
  with_identity : Identity → Target

-- `K` and `N` are the states of the key store and of the nonce store.
pub record SecureContext (K N : Type 0) : Type 0 where
  pub identity : Option Identity
  pub keystore : K
  pub noncestore : N
  pub replay_guard : ReplayGuard

-- `ReplayGuard(store)`, with the default window and skew.
abbrev pub default_guard : ReplayGuard
default_guard = record { window = 300; clock_skew = 30 }

-- The arguments of `configure`; the directory for downloads and the hook are left out.
pub record Settings (K N : Type 0) : Type 0 where
  pub identity : Option Identity
  pub keystore : Option K
  pub noncestore : Option N
  pub replay_guard : Option ReplayGuard

-- What a new identity is made from: the reading of the clock, the identifier and the random bytes.
pub record Fresh : Type 0 where
  pub now : ℕ
  pub entity_id : String
  pub seed : Seed

-- `_normalize_id`
unfoldable pub normalize_id : Texts → Target → Result String
normalize_id x (with_card card) = ok card.entity_id
normalize_id x (with_identity me) = ok me.entity_id
normalize_id x (named entity) =
    let norm = x.strip entity in if str_eq norm "" then err value_error else ok norm

abbrev pub found_or_unknown : Option CardType → Result PublicCard
found_or_unknown none = err peer_not_found
found_or_unknown (some card) = ok (public_card_of card)

module _ (x : Texts) where
  -- The card of an identity that does not expire, for which no clock is read.
  abbrev pub own_card : Identity → Result PublicCard
  own_card me = public_card x 0 never me

  -- What `register_peer` stores, of a card or an identity
  abbrev pub peer_card_of : Target → Result PublicCard
  peer_card_of (with_card card) = ok card
  peer_card_of (with_identity me) = own_card me
  peer_card_of (named entity) = err attribute_error

module _ {K N : Type 0} where
  -- `reset`, with new stores
  unfoldable pub reset : K → N → SecureContext K N
  reset k n = record { identity = none; keystore = k; noncestore = n; replay_guard = default_guard }

module _ {K N : Type 0} (x : Texts) (keys : KeyStore K) where
  -- `_safe_put_card` of a card that may have failed to be made, for a store that is not asynchronous.
  unfoldable pub put_card : Result PublicCard → Exec (SecureContext K N) (Unit {0})
  put_card (err e) s = (err e, s)
  put_card (ok card) s =
      let (r, k) = keys.put (public card) true s.keystore in (r, record s { keystore = k })

  unfoldable pub set_identity : Identity → Exec (SecureContext K N) (Unit {0})
  unfolding put_card
  set_identity me s = put_card (own_card x me) (record s { identity = some me })

  unfoldable pub register_peer : Target → Exec (SecureContext K N) (Unit {0})
  unfolding put_card
  register_peer peer s = put_card (peer_card_of x peer) s

  unfoldable pub get_peer : Target → Exec (SecureContext K N) PublicCard
  unfolding normalize_id
  get_peer peer s = elim (normalize_id x peer) [
    | err e ↦ (err e, s)
    | ok eid ↦
        let (r, k) = keys.get eid s.keystore in (r >>= found_or_unknown, record s { keystore = k })
  ]

  -- `revoke_peer`, with the reading of the clock; the card that is stored is the public card alone. The code
  -- changes the card in place before it stores it: a store that keeps the object itself sees that too.
  unfoldable pub revoke_peer : ℕ → String → Target → Exec (SecureContext K N) PublicCard
  unfolding get_peer normalize_id
  revoke_peer now reason peer s = elim (normalize_id x peer) [
    | err e ↦ (err e, s)
    | ok eid ↦
        let (r, s') = get_peer (named eid) s in
        elim r [
          | err e ↦ (err e, s')
          | ok card ↦
              let revoked = revoke x now (some reason) card in
              let (put, k) = keys.put (public revoked) true s'.keystore in
              (put >> ok revoked, record s' { keystore = k })
        ]
  ]

  -- The steps of `configure`, each for one argument.
  abbrev pub configure_identity : Option Identity → Exec (SecureContext K N) (Unit {0})
  configure_identity none s = (ok tt, s)
  configure_identity (some me) s = set_identity me s

  abbrev pub put_own_card : Option Identity → Exec (SecureContext K N) (Unit {0})
  put_own_card none s = (ok tt, s)
  put_own_card (some me) s = put_card (own_card x me) s

  abbrev pub configure_keystore : Option K → Exec (SecureContext K N) (Unit {0})
  configure_keystore none s = (ok tt, s)
  configure_keystore (some k) s = put_own_card s.identity (record s { keystore = k })

  abbrev pub configure_noncestore : Option N → SecureContext K N → SecureContext K N
  configure_noncestore none s = s
  configure_noncestore (some n) s = record s { noncestore = n; replay_guard = default_guard }

  abbrev pub configure_guard : Option ReplayGuard → SecureContext K N → SecureContext K N
  configure_guard none s = s
  configure_guard (some g) s = record s { replay_guard = g }

  abbrev pub configure_rest :
      Settings K N → Result (Unit {0}) × SecureContext K N → Result (Unit {0}) × SecureContext K N
  configure_rest c (err e, s) = (err e, s)
  configure_rest c (ok done, s) =
      (ok tt, configure_guard c.replay_guard (configure_noncestore c.noncestore s))

  unfoldable pub configure : Settings K N → Exec (SecureContext K N) (Unit {0})
  unfolding set_identity put_card
  configure c s = elim (configure_identity c.identity s).0 [
    | err e ↦ (err e, (configure_identity c.identity s).1)
    | ok done ↦ configure_rest c (configure_keystore c.keystore (configure_identity c.identity s).1)
  ]

  module _ (p : Packages) where
    -- `get_identity`: without one, a new identity is made, and its card is stored.
    unfoldable pub get_identity : Fresh → Exec (SecureContext K N) Identity
    unfolding set_identity put_card
    get_identity f s = elim s.identity [
      | some me ↦ (ok me, s)
      | none ↦ elim (create x p f.now f.entity_id f.seed "DefaultUser" "client") [
        | err e ↦ (err e, s)
        | ok me ↦ let (r, s') = set_identity me s in (r >> ok me, s')
      ]
    ]
