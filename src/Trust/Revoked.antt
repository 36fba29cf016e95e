-- ===== src/Trust/Revoked.antt =====
-- uxsp/core/signing.py: a revoked certificate stays revoked.
use uxsp.Prelude.{ℕ, ◌≡◌, ◌≢◌, String, Bool, true, arith, Option, List, [], ◌∷◌}
use uxsp.Prelude.Result.{Result, ok, err}
use text.Mathlib.TextEquality.{eq_iff}
use uxsp.Prelude.Dict.{Dict, get, put, delete, contains, get-put}
use uxsp.Prelude.Value.{Value}
use uxsp.Crypto.Parts.{Packages}
use uxsp.Identity.{PublicCard}
use uxsp.Handshake.Parts.{Library}
use uxsp.Trust.{
  PublicAnchor, SignedCard, Crl, TrustStore, add, remove, revoke, unrevoke, is_revoked, put_all,
  verify,
}
use uxsp.Trust.Revocation.{checked_crl, incorporate, add_crl}
use uxsp.Trust.Verified.{verify-HasPassed}

-- The calls that change a trust store; `list` is `add_crl`, with the store whose anchors it read.
pub data Call : Type 0 where
  trust : PublicAnchor → Call
  distrust : String → Call
  revocation : ℕ → String → String → Option ℕ → Call
  reinstatement : String → Call
  list : TrustStore → Crl → Bool → Call

-- No call reinstates the certificate.
abbrev pub NeverReinstated : String → List Call → Type 0
NeverReinstated cid [] = Unit
NeverReinstated cid (reinstatement c ∷ calls) = (c ≢ cid) × NeverReinstated cid calls
NeverReinstated cid (c ∷ calls) = NeverReinstated cid calls

contains-put_kept :
    (j k : String) (v : Dict Value) (d : Dict (Dict Value))
    → contains k d ≡ true
    → contains k (put j v d) ≡ true
contains-put_kept j k v d h = ground (arith, get-put j k v d)

contains-put_all :
    (k : String) (new d : Dict (Dict Value))
    → contains k d ≡ true
    → contains k (put_all new d) ≡ true
unfolding put_all
contains-put_all k [] d h = h
contains-put_all k ((cid, info) ∷ rest) d h =
    contains-put_all k rest (put cid info d) (contains-put_kept cid k info d h)

contains-delete_ne :
    (j k : String) (d : Dict (Dict Value))
    → j ≢ k
    → contains k d ≡ true
    → contains k (delete j d) ≡ true
unfolding get delete
contains-delete_ne j k [] ne h = h
contains-delete_ne j k ((i, w) ∷ d) ne h =
    ground (arith, eq_iff i j, eq_iff i k, eq_iff j k, contains-delete_ne j k d ne)

module _ (le : String → String → Bool) (p : Packages) (x : Library) where
  unfoldable pub step : Call → TrustStore → TrustStore
  step (trust anchor) s = add anchor s
  step (distrust anchor_id) s = remove anchor_id s
  step (revocation now cid reason date) s = revoke now cid reason date s
  step (reinstatement cid) s = unrevoke cid s
  step (list before crl verify_signature) s = (add_crl le p x before crl verify_signature s).1

  unfoldable pub run : List Call → TrustStore → TrustStore
  run [] s = s
  run (c ∷ calls) s = run calls (step c s)

  incorporate-IsRevoked :
      (cid : String) (crl : Crl) (r : Result (Unit {0})) (s : TrustStore)
      → is_revoked cid s ≡ true
      → is_revoked cid (incorporate crl r s).1 ≡ true
  incorporate-IsRevoked cid crl (err e) s h = h
  incorporate-IsRevoked cid crl (ok u) s h =
      contains-put_all cid crl.revoked_certs s.revoked_certs h

  step-IsRevoked :
      (cid : String) (c : Call) (s : TrustStore)
      → NeverReinstated cid (c ∷ [])
      → is_revoked cid s ≡ true
      → is_revoked cid (step c s) ≡ true
  unfolding step add remove revoke unrevoke add_crl
  step-IsRevoked cid (trust anchor) s n h = h
  step-IsRevoked cid (distrust anchor_id) s n h = h
  step-IsRevoked cid (revocation now c reason date) s n h =
      contains-put_kept c cid _ s.revoked_certs h
  step-IsRevoked cid (reinstatement c) s n h = contains-delete_ne c cid s.revoked_certs n.0 h
  step-IsRevoked cid (list before crl flag) s n h =
      incorporate-IsRevoked cid crl (checked_crl le p x before crl flag) s h

  run-IsRevoked :
      (cid : String) (calls : List Call) (s : TrustStore)
      → NeverReinstated cid calls
      → is_revoked cid s ≡ true
      → is_revoked cid (run calls s) ≡ true
  unfolding run
  run-IsRevoked cid [] s n h = h
  run-IsRevoked cid (trust anchor ∷ calls) s n h =
      run-IsRevoked cid calls _ n (step-IsRevoked cid (trust anchor) s tt h)
  run-IsRevoked cid (distrust a ∷ calls) s n h =
      run-IsRevoked cid calls _ n (step-IsRevoked cid (distrust a) s tt h)
  run-IsRevoked cid (revocation now c reason date ∷ calls) s n h =
      run-IsRevoked cid calls _ n (step-IsRevoked cid (revocation now c reason date) s tt h)
  run-IsRevoked cid (reinstatement c ∷ calls) s n h =
      run-IsRevoked cid calls _ n.1 (step-IsRevoked cid (reinstatement c) s (n.0, tt) h)
  run-IsRevoked cid (list before crl flag ∷ calls) s n h =
      run-IsRevoked cid calls _ n (step-IsRevoked cid (list before crl flag) s tt h)

  -- Once a certificate is revoked, by `revoke` or by a revocation list that was accepted, a signed card
  -- with its identifier is never verified again, whatever calls come after, unless one of them
  -- reinstates the certificate, and whatever the anchors are.
  pub revoked_never_verified :
      (anchors s : TrustStore) (calls : List Call) (t : ℕ) (expected : Option String)
      (c : SignedCard) (card : PublicCard)
      → is_revoked c.cert_id s ≡ true
      → NeverReinstated c.cert_id calls
      → verify p anchors (run calls s) t expected c ≢ ok card
  revoked_never_verified anchors s calls t expected c card h n verified =
      let (same, trusted) = verify-HasPassed p anchors (run calls s) t expected c card verified in
      let still = run-IsRevoked c.cert_id calls s n h in
      absurd (ground (arith, still, trusted.not_revoked))
