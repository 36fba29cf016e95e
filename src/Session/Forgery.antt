-- ===== src/Session/Forgery.antt =====
-- uxsp/core/session.py: what a message that does not authenticate does to a sliding-window session.
use uxsp.Prelude.{ℕ, ◌+◌, ◌≤◌, ◌≡◌, false, length, some, none, [], arith}
use uxsp.Prelude.Result.{ok, err, value_error, session_error}
use uxsp.Crypto.Symmetric.{Bytes, AesGcm, decrypt as unseal}
use uxsp.Session.Sequence.{window_size, accept_seq, mem, prune}
use uxsp.Session.{Session, Codec, Incoming, take_in}
use uxsp.Session.Windowed.{AllFarBelow, forged_accepted, forged_roll_back}

module _ (x : Codec) (aes : AesGcm) (s : Session) (forged : Incoming) (k : ℕ)
    (windowed : s.config.enforce_ordering ≡ false)
    (unauthentic : unseal aes forged.ciphertext forged.nonce s.recv_key
        (x.position s.session_id forged.seq)
      ≡ err value_error)
    (far : AllFarBelow forged.seq s.tracker.seen_seqs)
    (many : window_size + window_size ≤ length s.tracker.seen_seqs)
    (largest : s.tracker.max_seen_seq ≡ some k) (above : k ≤ forged.seq) where
  -- The forged message is refused with SessionError, and the session forgets every number.
  forgery_outcome : take_in x aes forged s ≡ (
    err session_error,
    record s { tracker = record s.tracker { seen_seqs = []; max_seen_seq = none } },
  )
  unfolding take_in
  forgery_outcome = ground (
    arith,
    forged_accepted forged.seq k s.tracker far many largest above,
    forged_roll_back forged.seq k s.tracker far many largest above,
  )

  -- A sliding-window session that remembers 256 numbers or more receives a message that does not
  -- authenticate, with a number that is 128 or more above each of them and not below the largest. After
  -- it any message that authenticates is accepted, also one that was received before.
  pub forgery_reopens :
      (old : Incoming) (plaintext : Bytes)
      → unseal aes old.ciphertext old.nonce s.recv_key (x.position s.session_id old.seq)
        ≡ ok plaintext
      → (take_in x aes old (take_in x aes forged s).1).0 ≡ ok plaintext
  unfolding take_in accept_seq mem prune
  forgery_reopens old plaintext authentic = ground (arith, forgery_outcome)
