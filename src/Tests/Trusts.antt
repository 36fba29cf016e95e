-- ===== src/Tests/Trusts.antt =====
-- Tests of the trust store.
use uxsp.Prelude.{str_eq_iff, ◌≡◌, ◌≢◌, refl, true, some, none, [], ◌∷◌, arith}
use uxsp.Prelude.Result.{ok}
use uxsp.Prelude.Dict.{get, put}
use uxsp.Prelude.Value.{pos}
use uxsp.Crypto.Asymmetric.{sign}
use uxsp.Crypto.Pqc.{pqc_sign}
use uxsp.Crypto.Parts.{bind_fields}
use uxsp.Crypto.Hybrid.{hybrid_sign}
use uxsp.Identity.{public_card, validate_role}
use uxsp.Trust.{
  PublicAnchor, SignedCard, TrustStore, empty_store, revoke, card_signable, public_anchor, issue,
  verify,
}
use uxsp.Trust.Verified.{verify-issue}
use uxsp.Trust.Trusted.{IsTrusted, verify-iff-IsTrusted}
use uxsp.Trust.Revoked.{trust, distrust, reinstatement, run, revoked_never_verified}
use uxsp.Samples.{packages, library, texts, public_keys, seed, keypair-IsKeypair, identity, card}

abbrev root : PublicAnchor
root = record { anchor_id = "root"; name = "root"; public_keys = public_keys 4; created_at = "" }

-- Issued at the time 1000 for one year.
abbrev signed : SignedCard
signed = record {
  card = card 1 "alice";
  cert_id = "c1";
  issuer_id = "root";
  issuer_name = "root";
  not_before = 1000;
  not_after = 31537000;
  classical_sig = 6 ∷ [];
  pqc_sig = 3 ∷ [];
}

abbrev store : TrustStore
store = record empty_store { anchors = ("root", root) ∷ [] }

verify-issue_example :
    verify packages store store 31537000 (some "alice") signed ≡ ok (card 1 "alice")
unfolding issue card_signable bind_fields get hybrid_sign sign pqc_sign public_anchor public_card
    validate_role
verify-issue_example =
    verify-issue packages texts 1000 900 31537000 "c1" (card 1 "alice") (pos 365) none
      (identity 4 "root") (seed 4) root signed store store (some "alice") (keypair-IsKeypair 4) refl
      refl refl refl refl (omega arith) (omega arith)

verify-iff-IsTrusted_example :
    (verify packages store store 2000 none signed ≡ ok (card 1 "alice")
      → (card 1 "alice" ≡ signed.card) × IsTrusted packages store store 2000 none signed)
    × (IsTrusted packages store store 2000 none signed
        → verify packages store store 2000 none signed ≡ ok signed.card)
verify-iff-IsTrusted_example =
    verify-iff-IsTrusted packages store store 2000 none signed (card 1 "alice")

revoked_never_verified_example :
    verify packages store
      (run
        (λ a b. true)
        packages
        library
        (distrust "root" ∷ trust root ∷ reinstatement "c2" ∷ [])
        (revoke 1500 "c1" "lost" none store))
      2000
      none
      signed
    ≢ ok (card 1 "alice")
unfolding revoke put get
revoked_never_verified_example =
    revoked_never_verified (λ a b. true) packages library store (revoke 1500 "c1" "lost" none store)
      (distrust "root" ∷ trust root ∷ reinstatement "c2" ∷ []) 2000 none signed (card 1 "alice")
      refl (λ e. absurd (ground (arith, (str_eq_iff "c2" "c1").1 e)), tt)
