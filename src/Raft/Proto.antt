-- ===== src/Raft/Proto.antt =====
-- The messages of raft/RaftProto.proto, and their positions (PosToProto and PosFromProto of
-- raft/raft_server.cc). An optional field that the server tests or leaves out is an Option.
use whisperlib.Prelude.{
  ℕ, Bool, true, false, if◌then◌else◌, Option, none, some, List, ℤ, pos, eqb_ℤ,
}
use whisperlib.Logio.Position.{LogPos, null_pos, is_null}

-- message LogPos
pub record PosProto : Type 0 where
  pub file_num : Option ℤ
  pub block_num : Option ℤ
  pub record_num : Option ℤ
  pub null : Option Bool

abbrev pub empty_proto : PosProto
empty_proto = record { file_num = none; block_num = none; record_num = none; null = none }

-- An accessor gives the default of a field that is not set.
abbrev pub number : Option ℤ → ℤ
number none = pos 0
number (some n) = n

abbrev pub flag : Option Bool → Bool
flag none = false
flag (some b) = b

abbrev pub set_if_nonzero : ℤ → Option ℤ → Option ℤ
set_if_nonzero n old = if eqb_ℤ n (pos 0) then old else some n

unfoldable pub pos_to_proto : LogPos → PosProto → PosProto
unfolding is_null
pos_to_proto l p = if is_null l then record p { null = some true } else record p {
  file_num = set_if_nonzero l.file_num p.file_num;
  block_num = set_if_nonzero l.block_num p.block_num;
  record_num = set_if_nonzero l.record_num p.record_num;
}

-- A message that is filled for the first time.
abbrev pub to_proto : LogPos → PosProto
to_proto l = pos_to_proto l empty_proto

unfoldable pub pos_from_proto : PosProto → LogPos
pos_from_proto p = if flag p.null then null_pos else record {
  file_num = number p.file_num;
  block_num = number p.block_num;
  record_num = number p.record_num;
}

pub record RaftState : Type 0 where
  pub current_term : ℤ
  pub voted_for : Option ℤ
  pub last_log_pos : Option PosProto
  pub last_log_term : ℤ
  pub commit_pos : Option PosProto

pub record DataEntry : Type 0 where
  pub position : PosProto
  pub last_log_pos : PosProto
  pub term : ℤ
  pub last_log_term : ℤ
  pub payload : List ℕ

pub record RequestVote : Type 0 where
  pub term : ℤ
  pub candidate_id : ℤ
  pub last_log_pos : PosProto
  pub last_log_term : ℤ

pub record RequestVoteResponse : Type 0 where
  pub term : ℤ
  pub vote_granted : Bool

pub record AppendEntries : Type 0 where
  pub term : ℤ
  pub leader_id : ℤ
  pub last_log_pos : Option PosProto
  pub last_log_term : ℤ
  pub leader_commit_pos : PosProto
  pub entry : List DataEntry

pub record AppendEntriesResponse : Type 0 where
  pub term : ℤ
  pub success : Option Bool
  pub current_pos : Option PosProto
  pub commit_pos : Option PosProto

pub record ClientData : Type 0 where
  pub payload : List ℕ
  pub wait_to_commit : Bool

pub record DataResponse : Type 0 where
  pub position : Option PosProto
  pub term : Option ℤ
  pub was_committed : Option Bool
  pub leader_name : Option (List ℕ)
