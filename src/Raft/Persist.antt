-- ===== src/Raft/Persist.antt =====
-- The state file of raft/raft_server.cc: SaveStateLocked, LoadStateLocked. A write or a rename that
-- fails ends the process (LOG_FATAL) and is not modelled.
pub mod RoundTrip
use whisperlib.Prelude.{
  ℕ, Bool, true, false, if◌then◌else◌, Option, none, some, ℤ, pos, negsuc, ltb_ℤ,
}
use whisperlib.Logio.Position.{LogPos, null_pos}
use whisperlib.Raft.Proto.{PosProto, RaftState, pos_from_proto}
use whisperlib.Raft.State.{Server, StateFile, missing, corrupt, holds, LogStore, snapshot}

unfoldable pub save_state : {L : Type 0} → Server L → Server L
save_state s = record s { state_file = holds (snapshot s) }

abbrev pos_or_null : Option PosProto → LogPos
pos_or_null none = null_pos
pos_or_null (some p) = pos_from_proto p

-- A term is read only beside its position.
abbrev term_beside : Option PosProto → ℤ → ℤ
term_beside none t = pos 0
term_beside (some p) t = t

abbrev vote_or_none : Option ℤ → ℤ
vote_or_none none = negsuc 0
vote_or_none (some v) = v

unfoldable pub restore : {L : Type 0} → Server L → RaftState → Server L
restore s f = record s {
  current_term = f.current_term;
  voted_for = vote_or_none f.voted_for;
  last_log_pos = pos_or_null f.last_log_pos;
  last_log_term = term_beside f.last_log_pos f.last_log_term;
  commit_pos = pos_or_null f.commit_pos;
}

unfoldable pub load_state : {L : Type 0} ⦃store : LogStore L⦄ → Server L → Bool × Server L
load_state ⦃store⦄ s = elim s.state_file [
  | missing ↦ if ltb_ℤ (pos 0) (store.tell s.log).block_num then (false, s) else (true, s)
  | corrupt ↦ (false, s)
  | holds f ↦ (true, restore s f)
]
