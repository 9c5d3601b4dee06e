-- ===== src/Raft/Sending.antt =====
-- raft/raft_server.cc: the methods of Node that read the log, and the message sending helpers.
pub mod Frame
use whisperlib.Prelude.{
  ℕ, zero, suc, ◌+◌, ◌*◌, ◌≡◌, Bool, true, false, if◌then◌else◌, ltb, ◌==◌, ◌&&◌, ◌||◌, not, Option,
  none, some, List, [], ◌∷◌, ◌++◌, ℤ, pos, ◌+ℤ◌, get_elem?, set, length,
}
use whisperlib.Logio.Position.{LogPos, null_pos, ltb_pos}
use whisperlib.Raft.Proto.{DataEntry, RequestVote, AppendEntries, to_proto, pos_from_proto}
use whisperlib.Prelude.Outcome.{Outcome, done, abort, starved, ◌>>=◌, check, or_abort, branch}
use whisperlib.Raft.State.{LogStore, Node, Server, Sent, append_to, vote_to, is_leader}

module _ {L : Type 0} ⦃store : LogStore L⦄ where
  open store use {tell, seek, read, byte_size}

  -- PullNext, with the ReadCurrent that it checks.
  unfoldable pub pull_next : L → Node → Outcome Node
  pull_next log node = do
    at ← or_abort (seek log node.next_log_pos)
    (e, after) ← or_abort (read log at)
    done (record node { entry = e; reader_at = after })

  unfoldable pub fill_append_entries : Server L → Node → Outcome AppendEntries
  fill_append_entries s node = do
    _ ← check (is_leader s.role)
    done (record {
      term = s.current_term;
      leader_id = pos s.node_id;
      last_log_pos = some (to_proto node.last_log_pos);
      last_log_term = node.last_log_term;
      leader_commit_pos = to_proto s.commit_pos;
      entry = [];
    })

unfoldable pub set_positions_from_entry : Node → Node
set_positions_from_entry node = record node {
  next_log_pos = node.reader_at;
  last_log_pos = pos_from_proto node.entry.position;
  last_log_term = node.entry.term;
}

module _ {L : Type 0} ⦃store : LogStore L⦄ where
  open store use {tell, seek, read, byte_size}

  -- The loop of SendAppendEntriesToNodeLocked, over the node, the size and the entries so far.
  unfoldable pub read_entries :
      (fuel : ℕ)
      → L
      → (max_size : ℕ) → Node
      → (size : ℕ) → List DataEntry
      → Outcome (Node × List DataEntry)
  read_entries zero log max_size node size entries = starved
  read_entries (suc fuel) log max_size node size entries =
      elim (ltb_pos node.next_log_pos (tell log) && ltb size max_size) [
        | true ↦ do
          pulled ← pull_next log node
          read_entries fuel log max_size (set_positions_from_entry pulled)
              (size + byte_size pulled.entry) (entries ++ pulled.entry ∷ [])
        | false ↦ done (node, entries)
      ]

  -- SendAppendLocked
  unfoldable pub send_append : Server L → ℕ → Node → AppendEntries → Outcome (Server L)
  send_append s i node req = do
    _ ← check (not node.in_transfer)
    done (record s {
      nodes = set s.nodes i (record node { in_transfer = true });
      pending_appends = s.next_id ∷ s.pending_appends;
      sent = append_to s.next_id i req ∷ s.sent;
      next_id = suc s.next_id;
    })

  -- The entries of the request: the entry at hand, or those of the loop. Each entry adds to the size,
  -- so one round more than max_size is enough fuel.
  unfoldable pub to_send :
      (is_filled : Bool) → L → (max_size : ℕ) → Node → Outcome (Node × List DataEntry)
  to_send true log max_size node = done (set_positions_from_entry node, node.entry ∷ [])
  to_send false log max_size node = read_entries (suc max_size) log max_size node 0 []

  -- SendAppendEntriesToNodeLocked, for `node`, which is stored as the node of index i.
  unfoldable pub send_entries_to :
      Server L → ℕ → Node → (is_filled : Bool) → (max_size : ℕ) → Outcome (Server L)
  send_entries_to s i node is_filled max_size =
      branch node.in_transfer (done (record s { nodes = set s.nodes i node })) (do
        req ← fill_append_entries s node
        (node', entries) ← to_send is_filled s.log max_size node
        send_append s i node' (record req { entry = entries }))

  -- The loop of SendHeartbeatToFollowersLocked over the node indices from i on, of which `rest` remain.
  unfoldable pub heartbeat_from : (rest i : ℕ) → Server L → Outcome (Server L)
  heartbeat_from zero i s = done s
  heartbeat_from (suc rest) i s = do
    node ← or_abort (get_elem? s.nodes i)
    s' ←
        branch (s.node_id == i || node.in_transfer) (done s)
          (send_entries_to s i node false s.max_entries_size)
    heartbeat_from rest (suc i) s'

  -- SendHeartbeatToFollowersLocked; election_timeout_ms_ * 1e6 * .2 is computed exactly.
  unfoldable pub send_heartbeat : Server L → (now : ℕ) → Outcome (Server L)
  send_heartbeat s now = do
    _ ← check (is_leader s.role)
    s' ← heartbeat_from (length s.nodes) 0 s
    done (record s' { heartbeat_elapsed_ns = now + s'.election_timeout_ms * 200000 })

module _ {L : Type 0} where
  -- SendRequestVoteLocked(), with the SendRequestVoteLocked(node, req) that it calls.
  unfoldable pub request_votes_from : (rest i : ℕ) → Server L → Server L
  request_votes_from zero i s = s
  request_votes_from (suc rest) i s = request_votes_from rest (suc i) (
      if s.node_id == i then s else record s {
        candidate_votes_out = s.candidate_votes_out +ℤ pos 1;
        pending_votes = s.next_id ∷ s.pending_votes;
        sent =
            vote_to s.next_id i (record {
              term = s.current_term;
              candidate_id = pos s.node_id;
              last_log_pos = to_proto s.last_log_pos;
              last_log_term = s.last_log_term;
            })
            ∷ s.sent;
        next_id = suc s.next_id;
      })

  unfoldable pub send_request_vote : Server L → Server L
  send_request_vote s = request_votes_from (length s.nodes) 0 s
