-- ===== src/Raft/Election.antt =====
-- raft/raft_server.cc: the changes of state, and the two sides of a vote.
pub mod Votes
use whisperlib.Prelude.{
  ℕ, zero, suc, ◌+◌, ◌*◌, ◌/◌, ◌%◌, Bool, true, false, if◌then◌else◌, ltb, leb, ◌==◌, ◌&&◌, ◌||◌,
  not, Option, none, some, List, [], ◌∷◌, map, ℤ, pos, negsuc, ◌+ℤ◌, ◌-ℤ◌, ltb_ℤ, eqb_ℤ, get_elem?,
  set, length,
}
use whisperlib.Logio.Position.{LogPos, null_pos, first_pos, is_null, ltb_pos, geb_pos}
use whisperlib.Raft.Proto.{RequestVote, RequestVoteResponse, pos_from_proto}
use whisperlib.Prelude.Outcome.{Outcome, done, abort, starved, ◌>>=◌, check, or_abort, branch}
use whisperlib.Raft.State.{
  LogStore, Node, Server, Role, is_leader, is_candidate, is_follower, to_size,
}
use whisperlib.Raft.Persist.{save_state}
use whisperlib.Raft.Sending.{send_heartbeat, send_request_vote}

-- `votes_for_me_` of every node.
abbrev pub set_votes : Bool → List Node → List Node
set_votes b = map (λ (n : Node). record n { votes_for_me = b })

module _ {L : Type 0} where
  -- `timer::TicksNsec() + election_timeout_ms_ * 1e6 * (1 + (now % 10) * .1)`, computed exactly.
  unfoldable pub set_election_elapse_timeout : Server L → (now : ℕ) → Server L
  set_election_elapse_timeout s now = record s {
    election_timeout_elapsed_ns = now + s.election_timeout_ms * 100000 * (10 + now % 10);
  }

  unfoldable pub become_follower : Server L → (leader_id : ℤ) → Server L
  become_follower s leader_id =
      save_state (record s { role = Role.follower; voted_for = leader_id; leader_id = leader_id })

  unfoldable pub update_current_term : Server L → (term leader_id : ℤ) → Server L
  update_current_term s term leader_id =
      let s' = record s { current_term = term } in
      if not (is_follower s'.role) then become_follower s' leader_id else save_state s'

  -- BecomeCandidateLocked up to its timeout; `me` is the own node with its vote cleared.
  unfoldable pub candidacy : Server L → (me : Node) → Server L
  candidacy s me = record s {
    role = Role.candidate;
    voted_for = pos s.node_id;
    leader_id = negsuc 0;
    nodes = set (set_votes false s.nodes) s.node_id (record me { votes_for_me = true });
    current_term = s.current_term +ℤ pos 1;
  }

  unfoldable pub become_candidate : Server L → (now : ℕ) → Outcome (Server L)
  become_candidate s now = do
    _ ← check (not (is_leader s.role))
    me ← or_abort (get_elem? (set_votes false s.nodes) s.node_id)
    done (save_state (send_request_vote (set_election_elapse_timeout (candidacy s me) now)))

  -- Vote. A refusal leaves the server as it is.
  unfoldable pub vote_granted : Server L → RequestVote → Bool
  vote_granted s request =
      if leb (length s.nodes) (to_size request.candidate_id)
      then false
      else if ltb_ℤ s.current_term request.term
          && geb_pos (pos_from_proto request.last_log_pos) s.commit_pos
      then true
      else if ltb_ℤ request.term s.current_term
          || not (eqb_ℤ s.voted_for (negsuc 0))
          || ltb_pos (pos_from_proto request.last_log_pos) s.last_log_pos
      then false
      else true

  unfoldable pub vote : Server L → RequestVote → Server L × RequestVoteResponse
  vote s request =
      let granted = vote_granted s request in
      let s' =
        if granted
        then save_state (record s { voted_for = request.candidate_id; current_term = request.term })
        else s in
      (s', record { term = s'.current_term; vote_granted = granted })

-- The loop of BecomeLeaderLocked over the other nodes: node i takes the positions of `me`.
unfoldable pub follow_positions : (node_id : ℕ) (me : Node) (i : ℕ) → List Node → List Node
follow_positions node_id me i [] = []
follow_positions node_id me i (n ∷ ns) =
    (if i == node_id then n else record n {
      next_log_pos = me.next_log_pos;
      last_log_pos = me.last_log_pos;
      last_log_term = me.last_log_term;
      match_log_pos = null_pos;
    })
    ∷ follow_positions node_id me (suc i) ns

-- BecomeLeaderLocked after it has read its last entry, up to the save; `read_node` is the own node.
unfoldable pub leading : {L : Type 0} → Server L → (read_node : Node) → Server L
leading s read_node =
    let me = record read_node {
      last_log_pos = s.last_log_pos;
      last_log_term = s.last_log_term;
      match_log_pos = s.last_log_pos;
    } in
    record s {
      role = Role.leader;
      voted_for = pos s.node_id;
      leader_id = pos s.node_id;
      nodes = follow_positions s.node_id me 0 (set s.nodes s.node_id me);
    }

module _ {L : Type 0} ⦃store : LogStore L⦄ where
  open store use {seek, read}

  -- The part of BecomeLeaderLocked that reads the last entry: the new state of the own node.
  unfoldable pub own_positions : L → LogPos → Node → Outcome Node
  own_positions log last node = do
    at ← or_abort (seek log last)
    branch (is_null last) (done (record node { reader_at = at; next_log_pos = first_pos })) (do
      (e, after) ← or_abort (read log at)
      done (record node { reader_at = after; entry = e; next_log_pos = after }))

  unfoldable pub become_leader : Server L → (now : ℕ) → Outcome (Server L)
  become_leader s now = do
    _ ← check (is_candidate s.role)
    node ← or_abort (get_elem? s.nodes s.node_id)
    read_node ← own_positions s.log s.last_log_pos node
    send_heartbeat (save_state (leading s read_node)) now

-- RequestVoteData, when its response arrives.
pub record VoteReply : Type 0 where
  pub id : ℕ
  pub node : ℕ
  pub detached : Bool
  pub failed : Bool
  pub req : RequestVote
  pub resp : RequestVoteResponse

-- pending_appends_.erase and pending_votes_.erase
unfoldable pub erase_id : ℕ → List ℕ → List ℕ
erase_id k [] = []
erase_id k (x ∷ xs) = if x == k then xs else x ∷ erase_id k xs

-- The loop that counts the votes as it is written: its condition assigns `votes_for_me_`, so the list
-- that it leaves has every vote set.
unfoldable pub count_votes : List Node → ℕ × List Node
count_votes [] = (0, [])
count_votes (n ∷ ns) =
    let rest = count_votes ns in (suc rest.0, record n { votes_for_me = true } ∷ rest.1)

-- The end of ProcessRequestVoteResponse: a candidate with no call left gives up.
unfoldable pub end_vote_call : {L : Type 0} → Server L → (id : ℕ) → Server L
end_vote_call s1 id =
    let s2 = record s1 { candidate_votes_out = s1.candidate_votes_out -ℤ pos 1 } in
    let s3 =
      if eqb_ℤ s2.candidate_votes_out (pos 0) && is_candidate s2.role
      then become_follower s2 (negsuc 0)
      else s2 in
    record s3 { pending_votes = erase_id id s3.pending_votes }

module _ {L : Type 0} ⦃store : LogStore L⦄ where
  -- The branch of a granted vote.
  unfoldable pub take_vote : Server L → (node now : ℕ) → Outcome (Server L)
  take_vote s node now = do
    n ← or_abort (get_elem? s.nodes node)
    let counted = count_votes (set s.nodes node (record n { votes_for_me = true }))
    let s' = record s { nodes = counted.1 }
    branch (leb (length s'.nodes / 2 + 1) counted.0) (become_leader s' now) (done s')

  unfoldable pub process_request_vote_response :
      Server L → VoteReply → (now : ℕ) → Outcome (Server L)
  process_request_vote_response s reply now = branch reply.detached (done s) (do
    s1 ←
        branch (not reply.failed && is_candidate s.role && reply.resp.vote_granted)
          (take_vote s reply.node now) (done s)
    done (end_vote_call s1 reply.id))

  -- PeriodicCheck under the lock.
  unfoldable pub check_timers : Server L → (now : ℕ) → Outcome (Server L)
  check_timers s now =
      branch (is_leader s.role)
        (branch (ltb s.heartbeat_elapsed_ns now)
          (do
            beaten ← send_heartbeat s now
            done (record beaten {
              heartbeat_elapsed_ns = now + beaten.election_timeout_ms * 200000;
            }))
          (done s))
        (branch (ltb s.election_timeout_elapsed_ns now) (become_candidate s now) (done s))

  -- PeriodicCheck, with the delay of the next alarm. The products with .2, .25 and .05 are computed
  -- exactly; a remainder by zero counts as an abort.
  unfoldable pub periodic_check : Server L → (now : ℕ) → Outcome (Server L × ℕ)
  periodic_check s now = do
    s' ← check_timers s now
    let ms = s'.election_timeout_ms
    branch (is_candidate s'.role)
        (do _ ← check (ltb 0 (ms / 20)); done (s', ms / 5 + now % (ms / 20))) (done (s', ms / 4))
