-- ===== src/Identity/Validity.antt =====
-- uxsp/core/identity.py: cards that were revoked or have expired are refused.
use uxsp.Prelude.{ℕ, ◌+◌, ◌<◌, ◌≤◌, ◌≡◌, refl, String, false, str_eq, Option, arith, inl, inr}
use uxsp.Prelude.Result.{ok, err, card_revoked, card_expired, Result-cases}
use uxsp.Prelude.Dict.{Dict}
use uxsp.Prelude.Value.{Value}
use uxsp.Nonce.{NonceStore}
use uxsp.Replay.{ReplayGuard, Incoming}
use uxsp.Crypto.Symmetric.{Bytes}
use uxsp.Crypto.Parts.{Packages}
use uxsp.Identity.{
  Texts, PublicCard, Identity, after, validate_role, Sealing, Readings, public_card, is_expired,
  revoke, verify_validity, seal_for, addressed, open_addressed, open_from,
}

module _ (x : Texts) where
  -- A card that was issued with a time to live is valid up to the end of it and not after, if
  -- `datetime.fromisoformat` reads back what `isoformat` wrote and the text is not empty.
  pub issued_valid :
      (now ttl later : ℕ) (me : Identity) (card : PublicCard)
      → x.fromisoformat (x.isoformat (now + ttl)) ≡ ok (now + ttl)
      → str_eq (x.isoformat (now + ttl)) "" ≡ false
      → public_card x now (after ttl) me ≡ ok card
      → ((later ≤ now + ttl → verify_validity x later card ≡ ok tt)
          × (now + ttl < later → verify_validity x later card ≡ err card_expired))
  unfolding public_card verify_validity is_expired
  issued_valid now ttl later me card back named issued =
      elim (Result-cases (validate_role x me.role)) [
        | inr (e, r) ↦ absurd (ground arith)
        | inl (role, r) ↦ (λ h. ground arith, λ h. ground arith)
      ]

  module _ (p : Packages) {S : Type 0} (ops : NonceStore S) where
    -- Once a card was revoked, nothing is sealed for it and nothing is opened from it, and the store is
    -- not touched.
    pub revoked_refused :
        (when now limit : ℕ) (reason : Option String) (card : PublicCard) (me : Identity)
        (dumped_length : Dict Value → ℕ) (r : Sealing) (plaintext : Bytes) (t : Readings)
        (g : Option ReplayGuard) (envelope : Incoming) (s : S)
        → (seal_for x p dumped_length limit now r plaintext (revoke x when reason card) me
            ≡ err card_revoked)
          × (open_from x p ops t g (revoke x when reason card) envelope me s
              ≡ (err card_revoked, s))
    unfolding seal_for open_from open_addressed addressed revoke
    revoked_refused when now limit reason card me dumped_length r plaintext t g envelope s =
        (refl, refl)
