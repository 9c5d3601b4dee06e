-- ===== src/Raft/Persist/RoundTrip.antt =====
-- Positions and the state file of raft/raft_server.cc: what is written is what is read back.
use whisperlib.Prelude.{
  ◌≡◌, refl, true, false, if◌then◌else◌, none, ℤ, pos, negsuc, ◌≤ℤ◌, eq_of_parts, arith, ◌⊎◌, inl,
  inr,
}
use whisperlib.Logio.Position.{LogPos, null_pos, is_null}
use whisperlib.Raft.Proto.{number, set_if_nonzero, pos_to_proto, to_proto, pos_from_proto}
use whisperlib.Raft.State.{Server, LogStore, snapshot}
use whisperlib.Raft.Persist.{save_state, load_state, restore}

number-set_if_nonzero : (n : ℤ) → number (set_if_nonzero n none) ≡ n
number-set_if_nonzero n = ground (arith, eq_of_parts n (pos 0))

-- A position sent in a message is read as it was, but for the two members beside a null file number.
pub pos_from_proto-to_proto :
    (l : LogPos) → pos_from_proto (to_proto l) ≡ (if is_null l then null_pos else l)
unfolding pos_from_proto pos_to_proto
pos_from_proto-to_proto l = ground (
  arith,
  number-set_if_nonzero l.file_num,
  number-set_if_nonzero l.block_num,
  number-set_if_nonzero l.record_num,
)

-- A null position is the one that LogPos() makes.
abbrev pub IsCanonical : LogPos → Type 0
IsCanonical p = (is_null p ≡ false) ⊎ (p ≡ null_pos)

canonical_lem : (l : LogPos) → IsCanonical l → pos_from_proto (to_proto l) ≡ l
unfolding is_null
canonical_lem l (inl e) = ground (arith, pos_from_proto-to_proto l)
canonical_lem l (inr e) = ground (arith, pos_from_proto-to_proto l)

-- A server that starts on the state file of another loads the term, the vote, the last position with
-- its term and the commit position of that one, as they were when it saved.
pub load_state-save_state :
    {L : Type 0} ⦃store : LogStore L⦄ (s t : Server L)
    → IsCanonical s.last_log_pos
    → IsCanonical s.commit_pos
    → negsuc 0 ≤ℤ s.voted_for
    → let r = load_state (record t { state_file = (save_state s).state_file }) in
      (r.0 ≡ true)
      × (r.1.current_term ≡ s.current_term)
      × (r.1.voted_for ≡ s.voted_for)
      × (r.1.last_log_pos ≡ s.last_log_pos)
      × (r.1.last_log_term ≡ s.last_log_term)
      × (r.1.commit_pos ≡ s.commit_pos)
unfolding load_state save_state restore snapshot
load_state-save_state s t p c v = (
  refl,
  refl,
  ground (arith, eq_of_parts s.voted_for (negsuc 0)),
  canonical_lem s.last_log_pos p,
  refl,
  canonical_lem s.commit_pos c,
)
