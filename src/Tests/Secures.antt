-- ===== src/Tests/Secures.antt =====
-- Tests of whole transfers and of the secure interface.
use uxsp.Prelude.{
  ℕ, ◌≡◌, ◌≢◌, refl, String, true, false, arith, Option, none, some, [], ◌∷◌, ◌++◌, replicate,
  length, length-replicate, str_eq_iff,
}
use uxsp.Prelude.Result.{ok, err, other_error, card_revoked}
use uxsp.Prelude.Dict.{Dict, get, put}
use uxsp.Prelude.Value.{Value, pos, int}
use uxsp.Prelude.Text.{codes}
use uxsp.Nonce.{
  MemoryNonceStore, empty_store, memory_store, mark_used, is_seen, count_call, insert_nonce,
}
use uxsp.Crypto.Symmetric.{Bytes, encrypt}
use uxsp.Envelope.{to_dict, from_dict, string_field, all_present}
use uxsp.Replay.{ReplayGuard}
use uxsp.Chunking.{Library, UxspChunk, header_of, digest, string_length, make_chunk, to_bytes}
use uxsp.Chunking.Transfer.{
  raw_chunks, create_chunked_transfer, reassemble_chunked_transfer, pack, slices, Options,
}
use uxsp.Crypto.Parts.{bind_fields}
use uxsp.Crypto.Hybrid.{seal, hybrid_sender_exchange, hybrid_sign}
use uxsp.Crypto.Kdf.{derive_key}
use uxsp.Crypto.Asymmetric.{compute_shared_secret, sign}
use uxsp.Crypto.Pqc.{encapsulate, pqc_sign}
use uxsp.Identity.{Sealing, Readings, seal_for, verify_validity, is_expired, revoke}
use uxsp.Keys.{CardType, public}
use uxsp.Keys.Memory.{memory_key_store, memory_law, IsValid}
use uxsp.Keys.Memory
use uxsp.Secure.{SecureContext, Fresh, named, with_card, normalize_id, get_peer, revoke_peer}
use uxsp.Secure.Parts.{SecurePackage, Sending}
use uxsp.Secure.Engine.{
  one_envelope, package_for, resolve_peer, resolve_self, secure_send_payload,
  secure_receive_payload,
}
use uxsp.Secure.Sent.{sent_received}
use uxsp.Secure.Refused.{revoked_peer_refused}
use uxsp.Samples.{
  packages, seed, keypair-IsKeypair, coins, sealed, texts, identity, card, fixed_length,
}
use uxsp.Chunking.Whole.{IsReadable, ReadsHeaders, described, reassemble-create}

abbrev hash : String
hash = "0000000000000000000000000000000000000000000000000000000000000000"

-- The chunk with an index, of a number of them, with a body of some length.
abbrev chunk : ℕ → ℕ → ℕ → UxspChunk
chunk i total n = record {
  transfer_id = "t";
  chunk_index = i;
  total_chunks = total;
  file_hash_sha256 = hash;
  chunk_hash_sha256 = hash;
  kind = "binary";
  body = replicate n 0;
  filename = none;
  content_type = "application/octet-stream";
  encoding = none;
}

abbrev number_of : Option Value → ℕ
number_of (some (int (pos n))) = n
number_of _ = 0

abbrev read_header : Bytes → Option (Option (Dict Value))
read_header (i ∷ total ∷ n ∷ []) = some (some (header_of (chunk i total n)))
read_header _ = none

-- A header is written as its three numbers; every text has the same digest.
abbrev functions : Library
functions = record {
  sha256_hex = λ b. hash;
  is_hex = λ s. true;
  lower = λ s. s;
  dumps = λ d.
      number_of (get "chunk_index" d)
      ∷ number_of (get "total_chunks" d)
      ∷ number_of (get "body_len" d)
      ∷ [];
  loads = read_header;
  encode = λ e s. err other_error;
  decode = λ e b. err other_error;
  is_hashable = λ n. true;
}

abbrev options : Options
options = record {
  kind = "binary";
  filename = none;
  content_type = "application/octet-stream";
  encoding = none;
}

headers_read : ReadsHeaders functions options "t" hash
unfolding get
headers_read c h = ground (
  arith,
  h.same_transfer_id,
  h.same_file_hash,
  h.same_chunk_hash,
  h.same_kind,
  h.same_filename,
  h.same_content_type,
  h.same_encoding,
  length-replicate {A = ℕ} (length c.body) 0,
)

options-IsReadable : IsReadable options
options-IsReadable = record { kind = refl; content_type = refl; encoding = refl }

reassemble-create_example :
    reassemble_chunked_transfer functions (
      (codes "UXSP-CHUNK-1" ++ (0 ∷ 0 ∷ 0 ∷ 3 ∷ 0 ∷ 2 ∷ 2 ∷ 7 ∷ 8 ∷ []))
      ∷ (codes "UXSP-CHUNK-1" ++ (0 ∷ 0 ∷ 0 ∷ 3 ∷ 1 ∷ 2 ∷ 1 ∷ 9 ∷ []))
      ∷ [])
    ≡ ok (described functions "t" options (7 ∷ 8 ∷ 9 ∷ []) 2, 7 ∷ 8 ∷ 9 ∷ [])
unfolding create_chunked_transfer pack make_chunk to_bytes digest string_length get raw_chunks
    slices
reassemble-create_example =
    reassemble-create functions "t" (7 ∷ 8 ∷ 9 ∷ []) 1 options
      ((codes "UXSP-CHUNK-1" ++ (0 ∷ 0 ∷ 0 ∷ 3 ∷ 0 ∷ 2 ∷ 2 ∷ 7 ∷ 8 ∷ []))
        ∷ (codes "UXSP-CHUNK-1" ++ (0 ∷ 0 ∷ 0 ∷ 3 ∷ 1 ∷ 2 ∷ 1 ∷ 9 ∷ []))
        ∷ [])
      options-IsReadable refl (λ b. refl) headers_read refl

abbrev guard : ReplayGuard
guard = record { window = 300; clock_skew = 30 }

abbrev sealing : Sealing
sealing = record {
  coins = coins;
  nonce = replicate 12 0;
  envelope_random = 3 ∷ [];
  timestamp = 1000;
}

abbrev readings : Readings
readings = record {
  validity = 1100;
  precheck = 1100;
  seen = 1100;
  verification = 1101;
  commit = 1102;
  marking = 1102;
}

abbrev fresh : Fresh
fresh = record { now = 1000; entity_id = "new"; seed = seed 5 }

abbrev sending : Sending
sending = record {
  now = 1000;
  sealing = sealing;
  session_key = replicate 32 0;
  transfer_id = "t";
  chunk_nonce = λ i. replicate 12 0;
  fresh = fresh;
}

abbrev sent : SecurePackage
sent = record {
  sender_id = "alice";
  receiver_id = "bob";
  data_type = "text";
  is_chunked = false;
  envelope = some (to_dict sealed);
  chunks = [];
  metadata = [];
}

-- Bob's card is registered.
abbrev context : SecureContext (Dict CardType) MemoryNonceStore
context = record {
  identity = some (identity 1 "alice");
  keystore = ("bob", public (card 2 "bob")) ∷ [];
  noncestore = empty_store;
  replay_guard = guard;
}

-- Bob has nothing but a nonce store and a guard.
abbrev receiving : SecureContext (Dict CardType) MemoryNonceStore
receiving = record {
  identity = none;
  keystore = [];
  noncestore = empty_store;
  replay_guard = guard;
}

sent_received_example :
    (secure_receive_payload packages texts functions fixed_length 65536 memory_key_store
      memory_store readings fresh
      (with_card (card 1 "alice"))
      (ok sent)
      (some "text")
      (some (identity 2 "bob"))
      receiving).0
    ≡ ok (7 ∷ [])
unfolding seal_for verify_validity is_expired from_dict string_field seal hybrid_sender_exchange
    compute_shared_secret encapsulate derive_key get bind_fields hybrid_sign sign pqc_sign encrypt
    all_present to_dict is_seen mark_used count_call insert_nonce package_for one_envelope digest
    string_length secure_send_payload resolve_peer resolve_self
sent_received_example =
    sent_received texts packages functions fixed_length 65536 memory_key_store memory_store
      (identity 1 "alice") (identity 2 "bob") (card 1 "alice") (card 2 "bob") (λ s. ok tt) sending
      (7 ∷ []) "text" [] (some "text") context receiving sent readings fresh (seed 1) (seed 2)
      (λ n. refl) (λ b. refl) headers_read (keypair-IsKeypair 1) (keypair-IsKeypair 2) refl refl
      refl refl refl (λ i. refl) refl refl refl (omega arith, omega arith)
      (omega arith, omega arith) (omega arith, omega arith) refl refl refl

abbrev AnyCard : CardType → Type 0
AnyCard c = Unit

context-IsValid : IsValid AnyCard context.keystore
unfolding get
context-IsValid = ((refl, tt), λ i c h. (ground (arith, str_eq_iff "bob" i, h), tt))

revoked_peer_refused_example :
    ((secure_send_payload packages texts functions fixed_length 65536 memory_key_store memory_store
        (λ s. ok tt)
        sending
        (named "bob")
        (7 ∷ [])
        "text"
        []
        (some (identity 1 "alice"))
        (revoke_peer texts memory_key_store 900 "lost" (named "bob") context).1).0
      ≡ err card_revoked)
    × ((secure_receive_payload packages texts functions fixed_length 65536 memory_key_store
          memory_store readings fresh
          (named "bob")
          (ok sent)
          none
          (some (identity 1 "alice"))
          (revoke_peer texts memory_key_store 900 "lost" (named "bob") context).1).0
        ≢ ok (7 ∷ []))
unfolding revoke_peer get_peer normalize_id Memory.get Memory.put get put revoke
revoked_peer_refused_example =
    revoked_peer_refused texts AnyCard memory_key_store (memory_law AnyCard) packages functions
      fixed_length 65536 memory_store 900 "lost" "bob" "bob" context
      (revoke texts 900 (some "lost") (card 2 "bob"))
      (some (public (revoke texts 900 (some "lost") (card 2 "bob")))) sending (7 ∷ []) (7 ∷ [])
      "text" [] (λ s. ok tt) readings fresh sent none (identity 1 "alice") context-IsValid tt refl
      refl refl refl
