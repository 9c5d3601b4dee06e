-- ===== src/Raft/Tests.antt =====
-- Runs of the model of raft/raft_server.cc on a log kept in a list, and the theorems at concrete states.
use whisperlib.Prelude.{
  ℕ, ◌+◌, ◌≡◌, refl, Bool, true, false, if◌then◌else◌, Option, none, some, List, [], ◌∷◌, ◌++◌, map,
  pos, negsuc, arith, inl, inr, get_elem?, length, take, pos_part, ◌*◌, ◌≤◌,
}
use whisperlib.Logio.Position.{
  LogPos, null_pos, first_pos, leb_pos, is_null, compare_pos, ltb_pos, eqb_pos, geb_pos, gtb_pos,
}
use whisperlib.Raft.Proto.{
  DataEntry, RequestVote, AppendEntries, to_proto, pos_from_proto, pos_to_proto,
}
use whisperlib.Prelude.Outcome.{done, branch, on_value, Ensures}
use whisperlib.Raft.State.{LogStore, Node, Server, Role, Waiter, missing, holds, snapshot}
use whisperlib.Raft.Persist.{save_state, load_state}
use whisperlib.Raft.Persist.RoundTrip.{load_state-save_state, pos_from_proto-to_proto}
use whisperlib.Raft.Election.{
  VoteReply, vote, vote_granted, take_vote, become_leader, set_votes, process_request_vote_response,
  update_current_term, become_follower, set_election_elapse_timeout,
}
use whisperlib.Raft.Election.Votes.{
  vote_granted_iff, vote-vote, vote_all, Leads, take_vote-become_leader, second_vote,
}
use whisperlib.Raft.Commit.{maybe_advance_commit, advance_waiters}
use whisperlib.Raft.Commit.Majority.{Commits, maybe_advance_commit_lem}
use whisperlib.Raft.Commit.Waiters.{IsRising, advance_waiters_lem, committed, waiting}
use whisperlib.Raft.Replication.{
  append, adopt_leader, take_entries, take_list, maybe_truncate_log_after, truncate_after,
  own_reader, append_request_entries, write_entries, follow_commit,
}
use whisperlib.Raft.Growth.{Grows}
use whisperlib.Raft.Durability.{IsSaved}
use whisperlib.Raft.Durability.Replicas.{append-IsSaved}
use whisperlib.Raft.Startup.{no_entry, new_server, initialize, initialize-save_state}
use whisperlib.Raft.Run.{Event, run, run-Grows, run-IsSaved}

-- A log whose n-th entry stands in block n of file 0.
abbrev pos_at : ℕ → LogPos
pos_at n = record { file_num = pos 0; block_num = pos n; record_num = pos 0 }

entry_at : List DataEntry → ℕ → Option (DataEntry × LogPos)
entry_at log n = elim (get_elem? log n) [ none ↦ none | some e ↦ some (e, pos_at (n + 1)) ]

seek_in : List DataEntry → LogPos → Option LogPos
seek_in log p =
    if is_null p then some first_pos else if leb_pos p (pos_at (length log)) then some p else none

size_pos : (e : DataEntry) → 1 ≤ length e.payload + 10
size_pos e = omega arith

instance abbrev list_log : LogStore (List DataEntry)
list_log = record {
  tell = λ log. pos_at (length log);
  write_record = λ e log. (true, log ++ e ∷ []);
  flush = λ log. log;
  truncate_at = λ p log. take (pos_part p.block_num) log;
  seek = seek_in;
  read = λ log p. entry_at log (pos_part p.block_num);
  byte_size = λ e. length e.payload + 10;
  byte_size_pos = size_pos;
}

abbrev fresh_node : Node
fresh_node = record {
  name = [];
  votes_for_me = false;
  next_log_pos = null_pos;
  last_log_pos = null_pos;
  last_log_term = pos 0;
  match_log_pos = null_pos;
  reader_at = null_pos;
  entry = no_entry;
  in_transfer = false;
}

-- Node 0 of a cluster of three, as a follower in term 0 with nothing saved but that.
abbrev unsaved : Server (List DataEntry)
unsaved = record {
  node_id = 0;
  nodes = fresh_node ∷ fresh_node ∷ fresh_node ∷ [];
  current_term = pos 0;
  voted_for = negsuc 0;
  last_log_pos = null_pos;
  last_log_term = pos 0;
  leader_id = negsuc 0;
  role = Role.follower;
  commit_pos = null_pos;
  election_timeout_elapsed_ns = 0;
  heartbeat_elapsed_ns = 0;
  election_timeout_ms = 2000;
  commit_waiters = [];
  candidate_votes_out = pos 0;
  max_entries_size = 100;
  pending_appends = [];
  pending_votes = [];
  log = [];
  state_file = missing;
  next_id = 0;
  sent = [];
  answered = [];
}

abbrev follower : Server (List DataEntry)
follower = record unsaved { state_file = holds (snapshot unsaved) }

follower-IsSaved : IsSaved follower
unfolding snapshot
follower-IsSaved = record { file = refl }

-- The first alarm makes it a candidate, one vote its leader, and a client writes a record.
abbrev vote_reply : VoteReply
vote_reply = record {
  id = 0;
  node = 1;
  detached = false;
  failed = false;
  req = record {
    term = pos 1;
    candidate_id = pos 0;
    last_log_pos = to_proto null_pos;
    last_log_term = pos 0;
  };
  resp = record { term = pos 1; vote_granted = true };
}

abbrev history : List Event
history =
    Event.alarm 5
    ∷ Event.vote_answered vote_reply 6
    ∷ Event.save_asked (record { payload = 7 ∷ []; wait_to_commit = true }) 4
    ∷ []

run-Grows_example : Ensures (Grows follower) (run follower history)
run-Grows_example = run-Grows follower history

run-IsSaved_example : Ensures IsSaved (run follower history)
run-IsSaved_example = run-IsSaved (λ e l. refl) follower history follower-IsSaved

abbrev asks : ℕ → ℕ → RequestVote
asks candidate term = record {
  term = pos term;
  candidate_id = pos candidate;
  last_log_pos = to_proto null_pos;
  last_log_term = pos 0;
}

vote-vote_example : vote_all (vote follower (asks 1 1)).0 (asks 2 1 ∷ asks 0 0 ∷ []) ≡ (
  (vote follower (asks 1 1)).0,
  map (λ r. record { term = pos 1; vote_granted = false }) (asks 2 1 ∷ asks 0 0 ∷ []),
)
unfolding vote vote_granted pos_from_proto pos_to_proto compare_pos geb_pos is_null
vote-vote_example =
    vote-vote follower (asks 1 1) (asks 2 1 ∷ asks 0 0 ∷ []) (omega arith) refl
      (omega arith, (omega arith, tt))

abbrev leading_server : Server (List DataEntry)
leading_server = record follower { role = Role.leader; leader_id = pos 0; voted_for = pos 0 }

vote_granted_iff_example : (vote follower (asks 1 1)).1.vote_granted ≡ true
unfolding geb_pos ltb_pos compare_pos pos_from_proto pos_to_proto is_null
vote_granted_iff_example =
    (vote_granted_iff follower (asks 1 1)).1 (omega arith, inl (omega arith, refl))

abbrev candidate_server : Server (List DataEntry)
candidate_server = record follower {
  role = Role.candidate;
  voted_for = pos 0;
  candidate_votes_out = pos 1;
}

take_vote-become_leader_example :
    (take_vote candidate_server 2 8
      ≡ become_leader (record candidate_server { nodes = set_votes true candidate_server.nodes }) 8)
    × Ensures (Leads 0 (pos 0)) (take_vote candidate_server 2 8)
take_vote-become_leader_example = take_vote-become_leader candidate_server 2 8 fresh_node refl refl

abbrev refusal : VoteReply
refusal = record vote_reply { resp = record { term = pos 0; vote_granted = false } }

second_vote_example :
    (t : Server (List DataEntry)) × (process_request_vote_response candidate_server refusal 8
      ≡ done t)
    × (t.current_term ≡ pos 0)
    × ((vote t (asks 1 0)).1.vote_granted ≡ true)
unfolding ltb_pos compare_pos pos_from_proto pos_to_proto is_null
second_vote_example =
    second_vote candidate_server refusal 8 (asks 1 0) refl refl refl refl (omega arith) refl refl

abbrev waiter : ℕ → Waiter
waiter n = record {
  at = pos_at n;
  client = n;
  response = record { position = none; term = none; was_committed = none; leader_name = none };
}

-- Two of three nodes have reached block 4.
abbrev matched : Server (List DataEntry)
matched = record leading_server {
  nodes =
      fresh_node
      ∷ record fresh_node { match_log_pos = pos_at 4 }
      ∷ record fresh_node { match_log_pos = pos_at 2 }
      ∷ [];
  last_log_pos = pos_at 6;
  commit_waiters = waiter 3 ∷ waiter 6 ∷ [];
}

maybe_advance_commit_lem_example :
    (r : Server (List DataEntry) × Bool) × (maybe_advance_commit matched ≡ done r)
    × Commits matched r
maybe_advance_commit_lem_example = maybe_advance_commit_lem matched refl (omega arith)

waiters_rise : IsRising matched.commit_waiters
unfolding ltb_pos compare_pos
waiters_rise = ((refl, tt), (tt, tt))

abbrev committed_server : Server (List DataEntry)
committed_server = record matched { commit_pos = pos_at 4 }

advance_waiters_lem_example :
    ((advance_waiters committed_server).answered
      ≡ [] ++ committed (pos_at 4) matched.commit_waiters)
    × ((advance_waiters committed_server).commit_waiters
        ≡ waiting (pos_at 4) matched.commit_waiters)
advance_waiters_lem_example = advance_waiters_lem committed_server waiters_rise

load_state-save_state_example :
    let r = load_state (record unsaved { state_file = (save_state matched).state_file }) in
    (r.0 ≡ true)
    × (r.1.current_term ≡ matched.current_term)
    × (r.1.voted_for ≡ matched.voted_for)
    × (r.1.last_log_pos ≡ matched.last_log_pos)
    × (r.1.last_log_term ≡ matched.last_log_term)
    × (r.1.commit_pos ≡ matched.commit_pos)
unfolding is_null
load_state-save_state_example =
    load_state-save_state matched unsaved (inl refl) (inr refl) (omega arith)

pos_from_proto-to_proto_example : pos_from_proto (to_proto (pos_at 3)) ≡ pos_at 3
unfolding is_null
pos_from_proto-to_proto_example = pos_from_proto-to_proto (pos_at 3)

-- All that an append call computes with.
program : Unit {0}
unfolding append adopt_leader take_entries take_list maybe_truncate_log_after truncate_after
    own_reader append_request_entries write_entries follow_commit update_current_term
    become_follower save_state snapshot set_election_elapse_timeout branch on_value compare_pos
    eqb_pos leb_pos gtb_pos ltb_pos is_null pos_to_proto pos_from_proto seek_in entry_at
program = tt

-- The first request of a leader, with one entry.
abbrev first_entries : AppendEntries
first_entries = record {
  term = pos 1;
  leader_id = pos 2;
  last_log_pos = some (to_proto null_pos);
  last_log_term = pos 0;
  leader_commit_pos = to_proto null_pos;
  entry = record no_entry { position = to_proto (pos_at 0); term = pos 1 } ∷ [];
}

abbrev appended : Server (List DataEntry)
appended = record follower {
  current_term = pos 1;
  log = first_entries.entry;
  last_log_pos = pos_at 0;
  last_log_term = pos 1;
  nodes = record fresh_node { reader_at = first_pos } ∷ fresh_node ∷ fresh_node ∷ [];
  election_timeout_elapsed_ns = 10 + 2000 * 100000 * 10;
}

append-IsSaved_example : IsSaved (save_state appended)
unfolding program
append-IsSaved_example =
    append-IsSaved follower first_entries 10
      {r = (
        save_state appended,
        record {
          term = pos 1;
          success = some true;
          current_pos = some (to_proto (pos_at 1));
          commit_pos = some (to_proto null_pos);
        },
        false,
      )}
      follower-IsSaved refl refl

initialize-save_state_example :
    (t : Server (List DataEntry)) × (initialize
        (new_server [] (save_state matched).state_file (pos 0))
        1
        ([] ∷ (7 ∷ []) ∷ [])
        3
      ≡ done (t, true))
    × (t.role ≡ Role.follower)
    × (t.node_id ≡ 1)
    × (map (λ n. n.name) t.nodes ≡ [] ∷ (7 ∷ []) ∷ [])
    × (t.current_term ≡ matched.current_term)
    × (t.voted_for ≡ matched.voted_for)
    × (t.last_log_pos ≡ matched.last_log_pos)
    × (t.last_log_term ≡ matched.last_log_term)
    × (t.commit_pos ≡ matched.commit_pos)
unfolding is_null
initialize-save_state_example =
    initialize-save_state matched [] (pos 0) 1 ([] ∷ (7 ∷ []) ∷ []) 3 (inl refl) (inr refl)
      (omega arith) (omega arith)
