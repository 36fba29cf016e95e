-- ===== src/Crypto/Hybrid.antt =====
-- uxsp/crypto/hybrid.py: the hybrid exchange and signature, and envelopes that are sealed and opened.
-- Texts are of Unicode scalar values, so that `str.encode` is total.
pub mod Binding
pub mod Exchange
pub mod Opening
pub mod Read
pub mod Sealing
pub mod Signed
use uxsp.Prelude.{
  ℕ, String, Bool, true, false, not, ◌||◌, str_eq, if◌then◌else◌, some, List, [], ◌∷◌, ◌++◌,
}
use uxsp.Prelude.Result.{
  Result, ok, err, ◌>>=◌, ◌>>◌, guard, item, value_error, type_error, hybrid_validation,
}
use uxsp.Prelude.Dict.{Dict, get}
use uxsp.Prelude.Value.{ℤ, pos, Value, str, has_text}
use uxsp.Envelope.{Envelope, all_present, uxsp_version}
use uxsp.Crypto.Symmetric.{Bytes, encrypt, decrypt}
use uxsp.Crypto.Kdf.{derive_key}
use uxsp.Crypto.Asymmetric.{
  generate_exchange_keypair, generate_signing_keypair, compute_shared_secret, sign, verify,
}
use uxsp.Crypto.Pqc.{
  generate_kem_keypair, generate_sig_keypair, encapsulate, decapsulate, pqc_sign, pqc_verify,
}
use uxsp.Crypto.Parts.{
  Packages, bind_fields, Coins, ExchangeResult, missing_as_value_error, failed_as_value_error,
  invalid_as_validation, Context, OpenOptions, required_fields, is_older, is_ahead, is_expected,
  nonempty_text, value_or_none,
}

-- A private key of a key pair of dictionaries.
abbrev pub private_key_of : String → Dict (Dict Bytes) → Result Bytes
private_key_of name keypair = item name keypair >>= λ pair. item "private_key" pair

abbrev pub public_key_of : String → Dict (Dict Bytes) → Result Bytes
public_key_of name keypair = item name keypair >>= λ pair. item "public_key" pair

unfoldable pub extract_public_keys : Dict (Dict Bytes) → Result (Dict Bytes)
extract_public_keys keypair = missing_as_value_error (
    public_key_of "exchange" keypair >>= λ exchange_pub. public_key_of "kem" keypair >>= λ kem_pub.
    public_key_of "signing" keypair >>= λ signing_pub.
    public_key_of "pqc_sig" keypair >>= λ pqc_sig_pub. ok (
      ("exchange_pub", exchange_pub)
      ∷ ("kem_pub", kem_pub)
      ∷ ("signing_pub", signing_pub)
      ∷ ("pqc_sig_pub", pqc_sig_pub)
      ∷ []))

module _ (p : Packages) where
  -- `bytes.fromhex(v)`
  abbrev pub hex_of : Value → Result Bytes
  hex_of (str s) = p.from_hex s
  hex_of _ = err type_error

  unfoldable pub hybrid_sender_exchange : Dict Bytes → Coins → Result ExchangeResult
  hybrid_sender_exchange recipient_public_keys coins = do
    let ephemeral = p.curves.x25519_keypair coins.ephemeral
    exchange_pub ← item "exchange_pub" recipient_public_keys
    classical_secret ← compute_shared_secret p.curves ephemeral.1 exchange_pub
    kem_pub ← item "kem_pub" recipient_public_keys
    kem_result ← encapsulate p.oqs p.algorithms kem_pub coins.kem
    final_key ←
        derive_key p.hkdf (classical_secret ++ kem_result.1) (pos 32) (some ephemeral.0)
          (p.encode "UXSP-hybrid-key-exchange-v1")
    ok (record {
      shared_key = final_key;
      ephemeral_pub = ephemeral.0;
      kem_ciphertext = kem_result.0;
    })

  -- The secrets of the two exchanges.
  unfoldable pub recipient_secrets :
      Bytes → Bytes → Dict (Dict Bytes) → Bool → Result (Bytes × Bytes)
  recipient_secrets ephemeral_pub kem_ciphertext keys is_classical_only = do
    exchange_private ← private_key_of "exchange" keys
    classical_secret ← compute_shared_secret p.curves exchange_private ephemeral_pub
    pqc_secret ←
        (if is_classical_only
          then ok []
          else private_key_of "kem" keys >>= λ kem_private.
              decapsulate p.oqs p.algorithms kem_ciphertext kem_private)
    ok (classical_secret, pqc_secret)

  unfoldable pub hybrid_recipient_exchange : Bytes → Bytes → Dict (Dict Bytes) → Bool → Result Bytes
  hybrid_recipient_exchange ephemeral_pub kem_ciphertext keys is_classical_only = do
    secrets ←
        missing_as_value_error
          (recipient_secrets ephemeral_pub kem_ciphertext keys is_classical_only)
    derive_key p.hkdf (secrets.0 ++ secrets.1) (pos 32) (some ephemeral_pub)
        (p.encode "UXSP-hybrid-key-exchange-v1")

  -- The two signatures, in hexadecimal.
  unfoldable pub hybrid_sign : Bytes → Dict (Dict Bytes) → Result (String × String)
  hybrid_sign message keypair = failed_as_value_error (
      private_key_of "signing" keypair >>= λ signing. sign p.curves message signing >>= λ classical.
      private_key_of "pqc_sig" keypair >>= λ pqc_private.
      pqc_sign p.oqs p.algorithms message pqc_private >>= λ pqc.
      ok (p.to_hex classical, p.to_hex pqc))

  -- `bytes.fromhex(signatures[name])`
  abbrev pub signature_bytes : String → Dict Value → Result Bytes
  signature_bytes name signatures = invalid_as_validation (item name signatures >>= hex_of)

  unfoldable pub hybrid_verify : Bytes → Dict Value → Dict Bytes → Bool → Result Bool
  hybrid_verify message signatures sender_public_keys allow_classical_only = do
    classical_sig ← signature_bytes "classical_sig" signatures
    pqc_sig ← (if allow_classical_only then ok [] else signature_bytes "pqc_sig" signatures)
    signing_pub ← invalid_as_validation (item "signing_pub" sender_public_keys)
    pqc_sig_pub ←
        (if allow_classical_only
          then ok []
          else invalid_as_validation (item "pqc_sig_pub" sender_public_keys))
    classical_ok ← verify p.curves message classical_sig signing_pub
    (if not classical_ok
        then ok false
        else if allow_classical_only
        then ok true
        else pqc_verify p.oqs p.algorithms message pqc_sig pqc_sig_pub)

  -- The four pairs, from the random bytes of each.
  unfoldable pub generate_hybrid_keypair :
      Bytes → Bytes → Bytes → Bytes → Result (Dict (Dict Bytes))
  generate_hybrid_keypair exchange_random kem_random signing_random sig_random = do
    kem ← generate_kem_keypair p.oqs p.algorithms kem_random
    pqc_sig ← generate_sig_keypair p.oqs p.algorithms sig_random
    ok (
        ("exchange", generate_exchange_keypair p.curves exchange_random)
        ∷ ("kem", kem)
        ∷ ("signing", generate_signing_keypair p.curves signing_random)
        ∷ ("pqc_sig", pqc_sig)
        ∷ [])

  -- The fields that are decoded, once they are known to be there.
  unfoldable pub decode_fields : Dict Value → ℤ → Bool → Result Context
  decode_fields d ts is_classical_only = do
    sender_id ← item "sender_id" d >>= nonempty_text
    recipient_id ← item "recipient_id" d >>= nonempty_text
    envelope_nonce ← item "envelope_nonce" d >>= nonempty_text
    ciphertext ← invalid_as_validation (item "ciphertext" d >>= hex_of)
    nonce ← invalid_as_validation (item "nonce" d >>= hex_of)
    ephemeral_pub ← invalid_as_validation (item "ephemeral_pub" d >>= hex_of)
    kem_ciphertext ←
        (if is_classical_only
          then ok []
          else invalid_as_validation (item "kem_ciphertext" d >>= hex_of))
    classical_sig ← item "classical_sig" d
    ok (record {
      timestamp = ts;
      sender_id = sender_id;
      recipient_id = recipient_id;
      envelope_nonce = envelope_nonce;
      classical_sig = classical_sig;
      pqc_sig = value_or_none (get "pqc_sig" d);
      ciphertext = ciphertext;
      nonce = nonce;
      ephemeral_pub = ephemeral_pub;
      kem_ciphertext = kem_ciphertext;
      is_classical_only = is_classical_only;
    })

  -- `_require_open_context` at the clock reading `now`.
  unfoldable pub require_open_context : OpenOptions → ℕ → Dict Value → Result Context
  require_open_context o now d = do
    guard (has_text uxsp_version (get "version" d)) hybrid_validation
    let is_classical_only = has_text "none" (get "pqc_mode" d)
    guard (not is_classical_only || o.allow_classical_only) hybrid_validation
    guard (all_present (required_fields is_classical_only) d) hybrid_validation
    ts ← invalid_as_validation (item "timestamp" d >>= p.to_int)
    guard (not (is_older o.max_age_seconds now ts)) hybrid_validation
    guard (not (is_ahead o.clock_skew_seconds now ts)) hybrid_validation
    guard (is_expected o.expected_recipient_id (get "recipient_id" d)) hybrid_validation
    decode_fields d ts is_classical_only

  -- The fields that are signed, in order.
  abbrev pub signed_fields : Context → List Bytes
  signed_fields ctx =
      p.encode uxsp_version
      ∷ ctx.ciphertext
      ∷ ctx.nonce
      ∷ p.encode ctx.sender_id
      ∷ p.encode ctx.recipient_id
      ∷ p.encode (p.show ctx.timestamp)
      ∷ p.encode ctx.envelope_nonce
      ∷ ctx.ephemeral_pub
      ∷ ctx.kem_ciphertext
      ∷ []

  abbrev pub signatures_of : Context → Dict Value
  signatures_of ctx =
      ("classical_sig", ctx.classical_sig)
      ∷ (if ctx.is_classical_only then [] else ("pqc_sig", ctx.pqc_sig) ∷ [])

  -- The checks of `verify_envelope` on a context.
  unfoldable pub verify_context : OpenOptions → Dict Bytes → Context → Result Context
  verify_context o sender_public_keys ctx = do
    guard (is_expected o.expected_sender_id (some (str ctx.sender_id))) hybrid_validation
    signable ← bind_fields (signed_fields ctx)
    valid ← hybrid_verify signable (signatures_of ctx) sender_public_keys ctx.is_classical_only
    guard valid hybrid_validation
    ok ctx

  unfoldable pub verify_envelope : OpenOptions → ℕ → Dict Value → Dict Bytes → Result Context
  verify_envelope o now d sender_public_keys = do
    ctx ← require_open_context o now d
    verify_context o sender_public_keys ctx

  unfoldable pub decrypt_verified_envelope : Context → Dict (Dict Bytes) → Bytes → Result Bytes
  decrypt_verified_envelope ctx recipient_keypair associated_data = do
    shared_key ←
        hybrid_recipient_exchange ctx.ephemeral_pub ctx.kem_ciphertext recipient_keypair
          ctx.is_classical_only
    decrypt p.aes ctx.ciphertext ctx.nonce shared_key associated_data

  -- `seal` with the random bytes of the exchange, of the cipher and of the envelope's nonce, and the
  -- time stamp. The dictionary is that of the envelope.
  unfoldable pub seal :
      Coins
      → Bytes
      → Bytes
      → ℕ
      → Bytes
      → Dict (Dict Bytes)
      → Dict Bytes
      → String
      → String
      → Bytes
      → Result Envelope
  seal coins nonce envelope_random ts plaintext sender_keypair recipient_public_keys sender_id
        recipient_id associated_data =
      do
        guard (not (str_eq sender_id "")) value_error
        guard (not (str_eq recipient_id "")) value_error
        exchange ← hybrid_sender_exchange recipient_public_keys coins
        encrypted ← encrypt p.aes nonce plaintext exchange.shared_key associated_data
        let envelope_nonce = p.to_hex envelope_random
        signable ← bind_fields (
            p.encode uxsp_version
            ∷ encrypted.ciphertext
            ∷ encrypted.nonce
            ∷ p.encode sender_id
            ∷ p.encode recipient_id
            ∷ p.encode (p.show (pos ts))
            ∷ p.encode envelope_nonce
            ∷ exchange.ephemeral_pub
            ∷ exchange.kem_ciphertext
            ∷ [])
        sigs ← hybrid_sign signable sender_keypair
        ok (record {
          version = uxsp_version;
          sender_id = sender_id;
          recipient_id = recipient_id;
          timestamp = pos ts;
          envelope_nonce = envelope_nonce;
          ciphertext = p.to_hex encrypted.ciphertext;
          nonce = p.to_hex encrypted.nonce;
          ephemeral_pub = p.to_hex exchange.ephemeral_pub;
          kem_ciphertext = p.to_hex exchange.kem_ciphertext;
          classical_sig = sigs.0;
          pqc_sig = sigs.1;
        })

  unfoldable pub open_seal :
      OpenOptions → ℕ → Dict Value → Dict (Dict Bytes) → Dict Bytes → Bytes → Result Bytes
  open_seal o now d recipient_keypair sender_public_keys associated_data = do
    ctx ← verify_envelope o now d sender_public_keys
    decrypt_verified_envelope ctx recipient_keypair associated_data
