-- ===== src/Trust/Revocation.antt =====
-- uxsp/core/signing.py: revocation lists. `le` is Python's order on texts.
use Prim.Native.String
use uxsp.Prelude.{ℕ, String, Bool, false, if◌then◌else◌, Option, none, some, List, [], ◌∷◌}
use uxsp.Prelude.Result.{
  Result, Exec, ok, err, ◌>>=◌, guard, untrusted_card, invalid_card_signature,
}
use uxsp.Prelude.Dict.{Dict, get, put}
use uxsp.Prelude.Value.{ℤ, pos, Value, int, str}
use uxsp.Crypto.Symmetric.{Bytes}
use uxsp.Crypto.Parts.{Packages, bind_fields}
use uxsp.Crypto.Hybrid.{hybrid_sign, hybrid_verify}
use uxsp.Identity.{Identity}
use uxsp.Handshake.Parts.{Library, present, shown}
use uxsp.Trust.{
  SignedCard, Crl, TrustStore, put_all, default_date, malformed_as_invalid, signatures_of,
}

-- A default for a missing value.
abbrev pub or_else : Option Value → Value → Value
or_else none v = v
or_else (some w) v = w

-- An entry of a revocation list: the identifier, the date and the reason.
pub record Entry : Type 0 where
  pub cert_id : String
  pub revocation_date : ℤ
  pub reason : String

-- The argument of `issue_crl`: certificates, their identifiers, or identifiers with their dictionaries.
pub data Revoked : Type 0 where
  of_card : SignedCard → Revoked
  of_text : String → Revoked
  of_info : String → Dict Value → Revoked

abbrev pub info_of : Entry → Dict Value
info_of e = ("revocation_date", int e.revocation_date) ∷ ("reason", str e.reason) ∷ []

unfoldable pub values : Dict Entry → List Entry
values [] = []
values ((cid, e) ∷ d) = e ∷ values d

unfoldable pub infos : Dict Entry → Dict (Dict Value)
infos [] = []
infos ((cid, e) ∷ d) = (cid, info_of e) ∷ infos d

-- What `add_crl` writes after its verdict.
abbrev pub incorporate : Crl → Result (Unit {0}) → Exec TrustStore (Unit {0})
incorporate crl (err e) s = (err e, s)
incorporate crl (ok u) s =
    (ok tt, record s { revoked_certs = put_all crl.revoked_certs s.revoked_certs })

module _ (le : String → String → Bool) where
  -- `sorted(entries, key=lambda x: x[0])`, which keeps the order of equal keys.
  unfoldable pub insert_entry : Entry → List Entry → List Entry
  insert_entry e [] = e ∷ []
  insert_entry e (f ∷ fs) =
      let rest = insert_entry e fs in if le e.cert_id f.cert_id then e ∷ f ∷ fs else f ∷ rest

  unfoldable pub sort_entries : List Entry → List Entry
  sort_entries [] = []
  sort_entries (e ∷ es) = insert_entry e (sort_entries es)

  module _ (p : Packages) (x : Library) where
    -- `f"{cert_id}:{rev_date}:{reason}".encode()`
    abbrev pub entry_bytes : Entry → Bytes
    entry_bytes e = p.encode (
        String.◌++◌ e.cert_id
          (String.◌++◌ ":" (String.◌++◌ (p.show e.revocation_date) (String.◌++◌ ":" e.reason))))

    unfoldable pub all_bytes : List Entry → List Bytes
    all_bytes [] = []
    all_bytes (e ∷ es) = entry_bytes e ∷ all_bytes es

    -- `_crl_signable`
    unfoldable pub crl_signable : String → ℕ → ℕ → List Entry → Result Bytes
    crl_signable issuer_id crl_number issued_at entries = bind_fields (
        p.encode "UXSP-CRL-1"
        ∷ p.encode issuer_id
        ∷ p.encode (p.show (pos crl_number))
        ∷ p.encode (p.show (pos issued_at))
        ∷ all_bytes (sort_entries entries))

    unfoldable pub entry_of : ℕ → String → Dict Value → Result Entry
    entry_of issued_at cid info = do
      date ← p.to_int (or_else (get "revocation_date" info) (int (pos issued_at)))
      ok (record {
        cert_id = cid;
        revocation_date = date;
        reason = shown p x (or_else (get "reason" info) (str "unspecified"));
      })

    unfoldable pub entries_of : ℕ → Dict (Dict Value) → Result (List Entry)
    entries_of issued_at [] = ok []
    entries_of issued_at ((cid, info) ∷ rest) = do
      e ← entry_of issued_at cid info
      es ← entries_of issued_at rest
      ok (e ∷ es)

    -- `CertificateRevocationList.verify`
    unfoldable pub verify_crl : Crl → Dict Bytes → Result (Unit {0})
    verify_crl crl anchor_public_keys = do
      entries ← entries_of crl.issued_at crl.revoked_certs
      signable ← crl_signable crl.issuer_id crl.crl_number crl.issued_at entries
      signature_ok ← malformed_as_invalid (
          hybrid_verify p signable (signatures_of p crl.classical_sig crl.pqc_sig)
            anchor_public_keys false)
      guard signature_ok invalid_card_signature

    -- The verdict of `add_crl` on the anchors of `s`.
    unfoldable pub checked_crl : TrustStore → Crl → Bool → Result (Unit {0})
    checked_crl s crl verify_signature =
        if verify_signature
        then (present (get crl.issuer_id s.anchors) untrusted_card >>= λ anchor.
            verify_crl crl anchor.public_keys)
        else ok tt

    -- `add_crl`: the anchors are read from `before` in one locked block, and the revocations are written in
    -- a later one.
    unfoldable pub add_crl : TrustStore → Crl → Bool → Exec TrustStore (Unit {0})
    add_crl before crl verify_signature s =
        incorporate crl (checked_crl before crl verify_signature) s

    -- One entry of the argument of `issue_crl`, as it is recorded: the identifier with date and reason.
    unfoldable pub recorded : ℕ → Revoked → Result Entry
    recorded ts (of_card c) =
        ok (record { cert_id = c.cert_id; revocation_date = pos ts; reason = "unspecified" })
    recorded ts (of_text cid) =
        ok (record { cert_id = cid; revocation_date = pos ts; reason = "unspecified" })
    recorded ts (of_info cid info) = entry_of ts cid info

    -- What `issue_crl` collects, each entry under its identifier.
    unfoldable pub collect : ℕ → List Revoked → Dict Entry → Result (Dict Entry)
    collect ts [] d = ok d
    collect ts (r ∷ rs) d = recorded ts r >>= λ e. collect ts rs (put e.cert_id e d)

    -- `issue_crl` of the anchor with the identity `me`.
    unfoldable pub issue_crl : ℕ → List Revoked → ℕ → Option ℕ → Identity → Result Crl
    issue_crl now revoked_certs crl_number issued_at me = do
      let ts = default_date issued_at now
      certs ← collect ts revoked_certs []
      signable ← crl_signable me.entity_id crl_number ts (values certs)
      sigs ← hybrid_sign p signable me.keypair
      classical_sig ← p.from_hex sigs.0
      pqc_sig ← p.from_hex sigs.1
      ok (record {
        issuer_id = me.entity_id;
        issuer_name = me.name;
        crl_number = crl_number;
        issued_at = ts;
        revoked_certs = infos certs;
        classical_sig = classical_sig;
        pqc_sig = pqc_sig;
      })
