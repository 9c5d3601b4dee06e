-- ===== src/Raft/State.antt =====
-- The state of raft/raft_server.{h,cc}: Node, Server, and what a server calls on its log.
-- The clock is an argument of each operation: its readings within one call give one value.
use whisperlib.Prelude.{
  ℕ, ◌+◌, ◌-◌, ◌^◌, ◌≤◌, Bool, true, false, if◌then◌else◌, Option, none, some, List, ℤ, pos, negsuc,
  ltb_ℤ,
}
use whisperlib.Logio.Position.{LogPos}
use whisperlib.Raft.Proto.{RaftState, DataEntry, RequestVote, AppendEntries, DataResponse, to_proto}

-- What the server calls on io::LogWriter and io::LogReader (io/logio/logio.h). A reader is seen
-- through its position: `seek` gives TellAtBlock after Seek, `read` the entry that GetNextRecord and
-- ParseProto read there, with TellAtBlock after it.
pub record LogStore (L : Type 0) : Type 0 where
  pub tell : L → LogPos
  pub write_record : DataEntry → L → Bool × L
  pub flush : L → L
  pub truncate_at : LogPos → L → L
  pub seek : L → LogPos → Option LogPos
  pub read : L → LogPos → Option (DataEntry × LogPos)
  -- DataEntry::ByteSize of protobuf: an entry with its required fields set is not empty.
  pub byte_size : DataEntry → ℕ
  pub byte_size_pos : (e : DataEntry) → 1 ≤ byte_size e

pub record Node : Type 0 where
  pub name : List ℕ
  pub votes_for_me : Bool
  pub next_log_pos : LogPos
  pub last_log_pos : LogPos
  pub last_log_term : ℤ
  pub match_log_pos : LogPos
  pub reader_at : LogPos
  pub entry : DataEntry
  pub in_transfer : Bool

pub data Role : Type 0 where
  unset follower candidate leader : Role

-- A call made on the stub of a node, with the id of its AppendEntriesData or RequestVoteData.
pub data Sent : Type 0 where
  append_to : (id node : ℕ) → AppendEntries → Sent
  vote_to : (id node : ℕ) → RequestVote → Sent

-- The state file, as io::FileInputStream and the protobuf parser read it.
pub data StateFile : Type 0 where
  missing corrupt : StateFile
  holds : RaftState → StateFile

pub record Waiter : Type 0 where
  pub at : LogPos
  pub client : ℕ
  pub response : DataResponse

pub record Server (L : Type 0) : Type 0 where
  pub node_id : ℕ
  pub nodes : List Node
  pub current_term : ℤ
  pub voted_for : ℤ
  pub last_log_pos : LogPos
  pub last_log_term : ℤ
  pub leader_id : ℤ
  pub role : Role
  pub commit_pos : LogPos
  pub election_timeout_elapsed_ns : ℕ
  pub heartbeat_elapsed_ns : ℕ
  pub election_timeout_ms : ℕ
  pub commit_waiters : List Waiter
  pub candidate_votes_out : ℤ
  pub max_entries_size : ℕ
  pub pending_appends : List ℕ
  pub pending_votes : List ℕ
  pub log : L
  pub state_file : StateFile
  -- What the world has seen: the calls on the stubs, the answers to waiting clients.
  pub next_id : ℕ
  pub sent : List Sent
  pub answered : List (ℕ × DataResponse)

abbrev pub is_leader : Role → Bool
is_leader Role.leader = true
is_leader _ = false

abbrev pub is_candidate : Role → Bool
is_candidate Role.candidate = true
is_candidate _ = false

abbrev pub is_follower : Role → Bool
is_follower Role.follower = true
is_follower _ = false

-- The conversion of an int32 to size_t.
abbrev pub to_size : ℤ → ℕ
to_size (pos n) = n
to_size (negsuc n) = 2 ^ 64 - (n + 1)

-- The RaftState that SaveStateLocked serialises.
unfoldable pub snapshot : {L : Type 0} → Server L → RaftState
snapshot s = record {
  current_term = s.current_term;
  voted_for = if ltb_ℤ s.voted_for (pos 0) then none else some s.voted_for;
  last_log_pos = some (to_proto s.last_log_pos);
  last_log_term = s.last_log_term;
  commit_pos = some (to_proto s.commit_pos);
}
