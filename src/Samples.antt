-- ===== src/Samples.antt =====
-- Concrete data and stand-ins for the parameters, which the tests of the components share.
use Prim.Native.Char.{code}
use uxsp.Prelude.{
  ℕ, zero, suc, ◌+◌, ◌≡◌, refl, String, true, false, ◌==◌, if◌then◌else◌, Option, none, some, [],
  ◌∷◌, arith, replicate, length-replicate,
}
use uxsp.Prelude.Result.{Result, ok, err, value_error, type_error}
use uxsp.Prelude.Dict.{Dict, get}
use uxsp.Prelude.Text.{codes}
use uxsp.Crypto.Asymmetric.{generate_exchange_keypair, generate_signing_keypair}
use uxsp.Crypto.Pqc.{generate_kem_keypair, generate_sig_keypair}
use uxsp.Crypto.Parts.{Packages, Coins}
use uxsp.Crypto.Hybrid.{generate_hybrid_keypair, extract_public_keys}
use uxsp.Crypto.Hybrid.Exchange.{Seed, IsKeypair}
use uxsp.Prelude.Value.{ℤ, pos, Value, int, str}
use uxsp.Envelope.{Envelope}
use uxsp.Crypto.Symmetric.{Bytes, AesGcm}
use uxsp.Session.{Codec}
use uxsp.Identity.{Texts, Identity, PublicCard}
use uxsp.Handshake.Parts.{Library}

-- `int` on integers; a text is refused, and so is every other type.
abbrev pub to_int : Value → Result ℤ
to_int (int n) = ok n
to_int (str s) = err value_error
to_int _ = err type_error

abbrev pub fixed_length : Dict Value → ℕ
fixed_length d = 800

-- Stamped 30 ahead of the time 1000.
abbrev pub envelope : Envelope
envelope = record {
  version = "UXSP-1";
  sender_id = "alice";
  recipient_id = "bob";
  timestamp = pos 1030;
  envelope_nonce = "n1";
  ciphertext = "c0";
  nonce = "0c";
  ephemeral_pub = "e0";
  kem_ciphertext = "k0";
  classical_sig = "s0";
  pqc_sig = "s1";
}

-- A cipher that prepends a tag byte 1 and refuses anything without it.
abbrev open_tagged : Bytes → Option Bytes
open_tagged [] = Option.none
open_tagged (b ∷ bs) = if b == 1 then some bs else Option.none

abbrev pub tagging : AesGcm
tagging = record {
  encrypt = λ key nonce plain ad. 1 ∷ plain;
  decrypt = λ key nonce sealed ad. open_tagged sealed;
  decrypt-encrypt = λ key nonce plain ad k n. refl;
}

-- Bytes in unary: `n` times the letter a, then a b.
abbrev letters : ℕ → String → String
letters zero s = String.◌∷◌ "b" s
letters (suc n) s = String.◌∷◌ "a" (letters n s)

abbrev pub unary : Bytes → String
unary [] = ""
unary (b ∷ bs) = letters b (unary bs)

abbrev put_first : ℕ → Result Bytes → Result Bytes
put_first n (ok bs) = ok (n ∷ bs)
put_first n (err e) = err e

abbrev pub read_unary : ℕ → String → Result Bytes
read_unary n String.[] = ok []
read_unary n (String.◌∷◌ c s) =
    if code c == 97 then read_unary (suc n) s else put_first n (read_unary 0 s)

read-letters :
    (n k : ℕ) (s : String) → read_unary k (letters n s) ≡ put_first (n + k) (read_unary 0 s)
read-letters zero k s = ground arith
read-letters (suc n) k s = ground (arith, read-letters n (suc k) s)

pub read-unary : (b : Bytes) → read_unary 0 (unary b) ≡ ok b
read-unary [] = refl
read-unary (b ∷ bs) = ground (arith, read-letters b 0 (unary bs), read-unary bs)

abbrev pub unary_codec : Codec
unary_codec = record {
  to_hex = unary;
  from_hex = read_unary 0;
  position = λ s n. n ∷ [];
  from_hex-to_hex = read-unary;
}

pub same_secret :
    (coins c k s : Bytes)
    → ◌≡◌ {A = Result (Bytes × Bytes)} (ok (coins, k)) (ok (c, s))
    → ◌≡◌ {A = Result Bytes} (ok k) (ok s)
same_secret coins c k s h = cc h

-- Stand-ins for the packages: every exchange agrees on the same secrets, and every signature verifies.
abbrev pub packages : Packages
packages = record {
  aes = tagging;
  hkdf = record {
    derive = λ n salt info ikm. replicate n 0;
    length-derive = λ n salt info ikm. length-replicate n 0;
  };
  curves = record {
    x25519_keypair = λ r. (r, r);
    x25519_exchange = λ a b. ok (4 ∷ []);
    ed25519_keypair = λ r. (r, r);
    ed25519_sign = λ k m. ok (6 ∷ []);
    ed25519_verify = λ k s m. ok tt;
    agreement = λ a b. refl;
    verify-sign = λ r m s h. refl;
  };
  oqs = record {
    kem_keypair = λ alg r. (r, r);
    encap_secret = λ alg k coins. ok (coins, 5 ∷ []);
    decap_secret = λ alg k c. ok (5 ∷ []);
    sig_keypair = λ alg r. (r, r);
    sign = λ alg k m. ok (3 ∷ []);
    verify = λ alg m s k. ok true;
    decap-encap = λ alg r coins c s h. same_secret coins c (5 ∷ []) s h;
    verify-sign = λ alg r m s h. refl;
  };
  algorithms = record { kem = "ML-KEM-768"; sig = "ML-DSA-65" };
  encode = codes;
  show = λ n. "7";
  to_int = to_int;
  to_hex = unary;
  from_hex = read_unary 0;
  from_hex-to_hex = read-unary;
}

-- The pair that is generated from the same byte for every key, and its public keys.
abbrev pair_of : Bytes → Dict Bytes
pair_of b = ("private_key", b) ∷ ("public_key", b) ∷ []

abbrev pub keypair : ℕ → Dict (Dict Bytes)
keypair n =
    ("exchange", pair_of (n ∷ []))
    ∷ ("kem", pair_of (n ∷ []))
    ∷ ("signing", pair_of (n ∷ []))
    ∷ ("pqc_sig", pair_of (n ∷ []))
    ∷ []

abbrev pub public_keys : ℕ → Dict Bytes
public_keys n =
    ("exchange_pub", n ∷ [])
    ∷ ("kem_pub", n ∷ [])
    ∷ ("signing_pub", n ∷ [])
    ∷ ("pqc_sig_pub", n ∷ [])
    ∷ []

abbrev pub seed : ℕ → Seed
seed n = record { exchange = n ∷ []; kem = n ∷ []; signing = n ∷ []; pqc_sig = n ∷ [] }

pub keypair-IsKeypair : (n : ℕ) → IsKeypair packages (keypair n) (public_keys n) (seed n)
unfolding generate_hybrid_keypair extract_public_keys generate_exchange_keypair generate_kem_keypair
    generate_sig_keypair generate_signing_keypair get
keypair-IsKeypair n = record { generated = refl; extracted = refl }

abbrev read_tick : Result Bytes → Result ℕ
read_tick (ok (n ∷ [])) = ok n
read_tick _ = err value_error

abbrev pub texts : Texts
texts = record {
  strip = λ s. s;
  upper = λ s. s;
  text_length = λ s. 4;
  has_space = λ s. false;
  isoformat = λ n. unary (n ∷ []);
  fromisoformat = λ s. read_tick (read_unary 0 s);
}

abbrev pub identity : ℕ → String → Identity
identity n name = record {
  entity_id = name;
  name = name;
  role = "USER";
  keypair = keypair n;
  created_at = "";
  key_version = 1;
  keys_rotated_at = none;
  public = public_keys n;
}

abbrev pub card : ℕ → String → PublicCard
card n name = record {
  entity_id = name;
  name = name;
  role = "USER";
  public_keys = public_keys n;
  created_at = "";
  valid_until = none;
  is_revoked = false;
  revocation_reason = none;
  revoked_at = none;
  key_version = 1;
}

abbrev pub coins : Coins
coins = record { ephemeral = 8 ∷ []; kem = 9 ∷ [] }

-- What alice seals for bob at the time 1000.
abbrev pub sealed : Envelope
sealed = record {
  version = "UXSP-1";
  sender_id = "alice";
  recipient_id = "bob";
  timestamp = pos 1000;
  envelope_nonce = packages.to_hex (3 ∷ []);
  ciphertext = packages.to_hex (1 ∷ 7 ∷ []);
  nonce = packages.to_hex (replicate 12 0);
  ephemeral_pub = packages.to_hex (8 ∷ []);
  kem_ciphertext = packages.to_hex (9 ∷ []);
  classical_sig = packages.to_hex (6 ∷ []);
  pqc_sig = packages.to_hex (3 ∷ []);
}

abbrev pub library : Library
library = record {
  show_value = λ v. "None";
  is_hashable = λ n. true;
  is_uuid = λ s. true;
  is_ascii = λ s. true;
  hmac_hex = λ key message. "ab";
}
