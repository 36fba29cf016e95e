-- ===== src/Session/Sequence.antt =====
-- uxsp/core/session.py: the receiving side's record of sequence numbers, as `decrypt` keeps it.
use uxsp.Prelude.{
  ℕ, ◌+◌, ◌-◌, Bool, true, false, ltb, leb, ◌==◌, ◌||◌, if◌then◌else◌, length, Option, none, some,
  List, [], ◌∷◌, max,
}
use uxsp.Prelude.Result.{Result, ok, err, session_reorder}

pub data SessionState : Type 0 where
  pending active expired revoked : SessionState

pub record SessionConfig : Type 0 where
  pub max_lifetime_seconds : ℕ
  pub max_messages : ℕ
  pub key_info : List ℕ
  pub enforce_ordering : Bool

-- `_WINDOW_SIZE`
abbrev pub window_size : ℕ
window_size = 128

-- `recv_seq` counts in strict ordering; the set, its largest member and `recv_count` belong to the
-- sliding window. `none` stands for the source's -1.
pub record Tracker : Type 0 where
  pub recv_seq : ℕ
  pub seen_seqs : List ℕ
  pub max_seen_seq : Option ℕ
  pub recv_count : ℕ

abbrev pub new_tracker : Tracker
new_tracker = record { recv_seq = 0; seen_seqs = []; max_seen_seq = none; recv_count = 0 }

-- `n in s`
unfoldable pub mem : ℕ → List ℕ → Bool
mem n [] = false
mem n (x ∷ xs) = n == x || mem n xs

-- `s.discard(n)`
unfoldable pub discard : ℕ → List ℕ → List ℕ
discard n [] = []
discard n (x ∷ xs) = let rest = discard n xs in if n == x then rest else x ∷ rest

abbrev pub max_with : ℕ → Option ℕ → ℕ
max_with n none = n
max_with n (some m) = max n m

-- `max(s, default=-1)`
unfoldable pub max_of : List ℕ → Option ℕ
max_of [] = none
max_of (x ∷ xs) = some (max_with x (max_of xs))

-- `{n for n in s if n >= max_seen - 128 + 1}`
unfoldable pub at_least : ℕ → List ℕ → List ℕ
at_least m [] = []
at_least m (x ∷ xs) =
    let rest = at_least m xs in if leb (m + 1) (x + window_size) then x ∷ rest else rest

-- `incoming_seq < max(0, max_seen - 128 + 1)`
abbrev pub below_window : ℕ → Option ℕ → Bool
below_window n none = false
below_window n (some m) = ltb n (m + 1 - window_size)

unfoldable pub prune : Option ℕ → List ℕ → List ℕ
prune none seen = seen
prune (some m) seen =
    if ltb (window_size + window_size) (length seen) then at_least m seen else seen

unfoldable pub accept_ordered : ℕ → Tracker → Result Tracker
accept_ordered n t =
    if ltb n t.recv_seq
    then err session_reorder
    else if ltb t.recv_seq n
    then err session_reorder
    else ok (record t { recv_seq = t.recv_seq + 1 })

abbrev pub new_max : ℕ → Option ℕ → ℕ
new_max n none = n
new_max n (some m) = if ltb m n then n else m

unfoldable pub accept_windowed : ℕ → Tracker → Result Tracker
unfolding prune
accept_windowed n t =
    if mem n t.seen_seqs
    then err session_reorder
    else if below_window n t.max_seen_seq
    then err session_reorder
    else ok (record t {
      seen_seqs = prune (some (new_max n t.max_seen_seq)) (n ∷ t.seen_seqs);
      max_seen_seq = some (new_max n t.max_seen_seq);
      recv_count = t.recv_count + 1;
    })

unfoldable pub accept_seq : Bool → ℕ → Tracker → Result Tracker
unfolding accept_ordered accept_windowed
accept_seq true n t = accept_ordered n t
accept_seq false n t = accept_windowed n t

abbrev pub is_max : ℕ → Option ℕ → Bool
is_max n none = false
is_max n (some m) = n == m

-- What the `except` branch undoes.
unfoldable pub roll_back : Bool → ℕ → Tracker → Tracker
roll_back true n t = if t.recv_seq == n + 1 then record t { recv_seq = n } else t
roll_back false n t =
    let rest = discard n t.seen_seqs in
    record t {
      seen_seqs = rest;
      recv_count = t.recv_count - 1;
      max_seen_seq = if is_max n t.max_seen_seq then max_of rest else t.max_seen_seq;
    }

-- `self._recv_seq if enforce_ordering else self._recv_count`
abbrev pub received : Bool → Tracker → ℕ
received true t = t.recv_seq
received false t = t.recv_count
