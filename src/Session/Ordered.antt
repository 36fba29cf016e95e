-- ===== src/Session/Ordered.antt =====
-- uxsp/core/session.py: strict ordering (`enforce_ordering=True`).
use uxsp.Prelude.{ℕ, zero, suc, ◌+◌, ◌≡◌, refl, true, List, [], ◌∷◌, arith, ◌⊎◌, inl, inr, length}
use uxsp.Prelude.Result.{Result, Error, ok, err, session_reorder, Result-cases}
use native.Mathlib.Decide.{dec_lt}
use uxsp.Prelude.Dict.{Dict}
use uxsp.Prelude.Value.{Value}
use uxsp.Crypto.Symmetric.{Bytes, AesGcm, decrypt as unseal}
use uxsp.Session.Sequence.{Tracker, accept_seq, roll_back}
use uxsp.Session.{
  Session, Codec, Incoming, evaluate_expiry, check_active, active_or_error, read_payload,
  decryption_error, take_in, decrypt,
}

-- The session after one more message was received in order.
abbrev pub advanced : Session → Session
advanced s = record s { tracker = record s.tracker { recv_seq = s.tracker.recv_seq + 1 } }

accept_ordered_cases :
    (n : ℕ) (t : Tracker)
    → ((n ≡ t.recv_seq) × (accept_seq true n t ≡ ok (record t { recv_seq = t.recv_seq + 1 })))
      ⊎ ((e : Error) × (accept_seq true n t ≡ err e))
unfolding accept_seq
accept_ordered_cases n t = elim (dec_lt n t.recv_seq) [
  | yes lt ↦ inr (session_reorder, ground arith)
  | no ge ↦ elim (dec_lt t.recv_seq n) [
    | yes gt ↦ inr (session_reorder, ground arith)
    | no le ↦ inl (omega arith, ground arith)
  ]
]

roll_back_ordered :
    (n : ℕ) (t : Tracker)
    → n ≡ t.recv_seq
    → roll_back true n (record t { recv_seq = t.recv_seq + 1 }) ≡ t
unfolding roll_back
roll_back_ordered n t h = ground arith

tracker-evaluate_expiry : (now : ℕ) (s : Session) → (evaluate_expiry now s).tracker ≡ s.tracker
unfolding evaluate_expiry
tracker-evaluate_expiry now s = ground arith

config-evaluate_expiry : (now : ℕ) (s : Session) → (evaluate_expiry now s).config ≡ s.config
unfolding evaluate_expiry
config-evaluate_expiry now s = ground arith

-- `n`, `n + 1`, …, `k` numbers.
abbrev pub count_from : ℕ → ℕ → List ℕ
count_from n zero = []
count_from n (suc k) = n ∷ count_from (n + 1) k

-- The payloads that arrive, with the two clock readings of each call.
pub record Delivery : Type 0 where
  pub now : ℕ
  pub later : ℕ
  pub payload : Dict Value

module _ (x : Codec) (aes : AesGcm) where
  -- Under the lock a message is either received, in which case its number is the expected one, or
  -- it leaves the session as it was.
  take_in_cases :
      (m : Incoming) (s : Session)
      → s.config.enforce_ordering ≡ true
      → ((p : Bytes) × (m.seq ≡ s.tracker.recv_seq) × (take_in x aes m s ≡ (ok p, advanced s)))
        ⊎ ((e : Error) × (take_in x aes m s ≡ (err e, s)))
  unfolding take_in
  take_in_cases m s ordered = elim (accept_ordered_cases m.seq s.tracker) [
    | inl (same, e) ↦
        elim (Result-cases
          (unseal aes m.ciphertext m.nonce s.recv_key (x.position s.session_id m.seq))) [
            | inl (p, f) ↦ inl (p, same, ground arith)
            | inr (y, f) ↦
                inr (decryption_error y, ground (arith, roll_back_ordered m.seq s.tracker same))
          ]
    | inr (y, e) ↦ inr (y, ground arith)
  ]

  -- A received message: it was read, its number was the expected one, and the next is expected.
  pub record IsReceived (payload : Dict Value) (s s' : Session) (m : Incoming) : Type 0 where
    pub is_read : read_payload x s.session_id payload ≡ ok m
    pub expected : m.seq ≡ s.tracker.recv_seq
    pub next : s'.tracker.recv_seq ≡ s.tracker.recv_seq + 1

  -- A call of `decrypt` either receives the expected message, or fails and leaves the tracker as
  -- it was; the configuration never changes.
  pub decrypt_cases :
      (now later : ℕ) (payload : Dict Value) (s : Session)
      → s.config.enforce_ordering ≡ true
      → ((p : Bytes) × (m : Incoming) × ((decrypt x aes now later payload s).0 ≡ ok p)
          × IsReceived payload s (decrypt x aes now later payload s).1 m)
        ⊎ ((e : Error) × ((decrypt x aes now later payload s).0 ≡ err e)
            × ((decrypt x aes now later payload s).1.tracker ≡ s.tracker))
  unfolding decrypt check_active
  decrypt_cases now later payload s ordered =
      elim (Result-cases (read_payload x s.session_id payload)) [
        | inr (e, r) ↦ inr (e, ground arith, ground arith)
        | inl (m, r) ↦
            let s₁ = evaluate_expiry now s in
            let same = tracker-evaluate_expiry now s in
            let c : s₁.config.enforce_ordering ≡ true =
              ground (arith, config-evaluate_expiry now s) in
            elim (Result-cases (active_or_error s₁.state)) [
              | inr (e, a) ↦ inr (e, ground arith, ground arith)
              | inl (u, a) ↦ elim (take_in_cases m s₁ c) [
                | inr (e, t) ↦ inr (e, ground arith, ground arith)
                | inl (p, exact, t) ↦ inl (
                  p,
                  m,
                  ground arith,
                  record {
                    is_read = r;
                    expected = ground arith;
                    next = ground (arith, tracker-evaluate_expiry later (advanced s₁));
                  },
                )
              ]
            ]
      ]

  config-take_in : (m : Incoming) (s : Session) → (take_in x aes m s).1.config ≡ s.config
  unfolding take_in
  config-take_in m s = ground arith

  pub config-decrypt :
      (now later : ℕ) (payload : Dict Value) (s : Session)
      → (decrypt x aes now later payload s).1.config ≡ s.config
  unfolding decrypt check_active
  config-decrypt now later payload s = elim (Result-cases (read_payload x s.session_id payload)) [
    | inr (e, r) ↦ ground arith
    | inl (m, r) ↦
        let s₁ = evaluate_expiry now s in
        ground (
          arith,
          config-evaluate_expiry now s,
          config-take_in m s₁,
          config-evaluate_expiry later (take_in x aes m s₁).1,
        )
  ]

  abbrev number_if : Result Bytes → Result Incoming → List ℕ → List ℕ
  number_if (ok p) (ok m) ns = m.seq ∷ ns
  number_if _ _ ns = ns

  -- The sequence numbers of the messages that `decrypt` returns.
  pub received_numbers : List Delivery → Session → List ℕ
  received_numbers [] s = []
  received_numbers (d ∷ ds) s =
      let (r, s') = decrypt x aes d.now d.later d.payload s in
      number_if r (read_payload x s.session_id d.payload) (received_numbers ds s')

  -- Whatever payloads arrive, replayed, reordered or forged, the messages that a strictly ordered
  -- session returns carry consecutive numbers, from the next expected one on: none is skipped and
  -- none is returned twice.
  pub received_numbers-consecutive :
      (ds : List Delivery) (s : Session)
      → s.config.enforce_ordering ≡ true
      → received_numbers ds s ≡ count_from s.tracker.recv_seq (length (received_numbers ds s))
  unfolding received_numbers
  received_numbers-consecutive [] s ordered = refl
  received_numbers-consecutive (d ∷ ds) s ordered =
      let s' = (decrypt x aes d.now d.later d.payload s).1 in
      let ordered' : s'.config.enforce_ordering ≡ true =
        ground (arith, config-decrypt d.now d.later d.payload s) in
      let rest = received_numbers-consecutive ds s' ordered' in
      elim (decrypt_cases d.now d.later d.payload s ordered) [
        | inl (p, m, r, got) ↦
            rw (r, number_if, got.is_read) (ground (arith, rest, got.expected, got.next))
        | inr (e, r, same) ↦ rw (r, number_if) (ground (arith, rest, same))
      ]
