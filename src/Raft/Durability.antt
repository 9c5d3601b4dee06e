-- ===== src/Raft/Durability.antt =====
-- The state file of raft/raft_server.cc holds the persistent state after each call.
pub mod Replicas
pub mod Writes
use whisperlib.Prelude.{
  ℕ, ◌≡◌, refl, ◌∙◌, sym, ap, Bool, true, false, not, ◌&&◌, ltb, ◌/◌, Option, none, some, List, ℤ,
  negsuc, get_elem?, set, length, leb, arith, if◌then◌else◌,
}
use whisperlib.Logio.Position.{LogPos}
use whisperlib.Raft.Proto.{RequestVote, RaftState}
use whisperlib.Prelude.Outcome.{
  Outcome, done, abort, starved, ◌>>=◌, check, or_abort, branch, Ensures, Ensures-mono,
  Ensures-bind, Ensures-check, Ensures-or_abort, Ensures-pure, Ensures-branch,
}
use whisperlib.Raft.State.{
  LogStore, Node, Server, StateFile, holds, snapshot, is_leader, is_candidate,
}
use whisperlib.Raft.Persist.{save_state}
use whisperlib.Raft.Sending.{send_heartbeat, send_request_vote}
use whisperlib.Raft.Sending.Frame.{Keeps, send_heartbeat-Keeps, send_request_vote-Keeps}
use whisperlib.Raft.Election.{
  become_follower, update_current_term, become_candidate, become_leader, vote, vote_granted,
  take_vote, process_request_vote_response, periodic_check, VoteReply, leading, own_positions,
  end_vote_call, check_timers, set_votes,
}
use whisperlib.Raft.Growth.{own_positions_ends}

-- What SaveStateLocked would write is what the file holds.
pub record IsSaved {L : Type 0} (s : Server L) : Type 0 where
  pub file : s.state_file ≡ holds (snapshot s)

module _ {L : Type 0} where
  pub same_snapshot :
      (s t : Server L)
      → t.state_file ≡ s.state_file
      → snapshot t ≡ snapshot s
      → IsSaved s
      → IsSaved t
  same_snapshot s t e f v = record { file = e ∙ v.file ∙ ap holds (sym f) }

  pub save_state-IsSaved : (s : Server L) → IsSaved (save_state s)
  unfolding save_state snapshot
  save_state-IsSaved s = record { file = refl }

  pub Keeps-IsSaved : (s t : Server L) → Keeps s t → IsSaved s → IsSaved t
  unfolding snapshot
  Keeps-IsSaved s t k v = same_snapshot s t k.state_file (ground arith) v

  pub become_follower-IsSaved :
      (s : Server L) (leader_id : ℤ) → IsSaved (become_follower s leader_id)
  unfolding become_follower
  become_follower-IsSaved s leader_id = save_state-IsSaved _

  pub update_current_term-IsSaved :
      (s : Server L) (term leader_id : ℤ) → IsSaved (update_current_term s term leader_id)
  unfolding update_current_term become_follower
  update_current_term-IsSaved s term leader_id = ground (
    arith,
    save_state-IsSaved (record s { current_term = term }),
    become_follower-IsSaved (record s { current_term = term }) leader_id,
  )

  pub vote-IsSaved : (s : Server L) (request : RequestVote) → IsSaved s → IsSaved (vote s request).0
  unfolding vote
  vote-IsSaved s request v = by_grant (vote_granted s request)
    where
      by_grant :
          (b : Bool)
          → IsSaved (
              if b
              then save_state
                  (record s { voted_for = request.candidate_id; current_term = request.term })
              else s)
      by_grant true = save_state-IsSaved _
      by_grant false = v

  pub become_candidate-IsSaved : (s : Server L) (now : ℕ) → Ensures IsSaved (become_candidate s now)
  unfolding become_candidate
  become_candidate-IsSaved s now = Ensures-check _ (not (is_leader s.role)) _ λ _.
      Ensures-or_abort {A = Node} _ (get_elem? (set_votes false s.nodes) s.node_id) _
        (λ me _. Ensures-pure _ _ (save_state-IsSaved _))

  end_vote_call-IsSaved : (s : Server L) (id : ℕ) → IsSaved s → IsSaved (end_vote_call s id)
  unfolding end_vote_call become_follower save_state snapshot
  end_vote_call-IsSaved s id v = ground arith

module _ {L : Type 0} ⦃store : LogStore L⦄ where
  become_leader-IsSaved : (s : Server L) (now : ℕ) → Ensures IsSaved (become_leader s now)
  unfolding become_leader
  become_leader-IsSaved s now = Ensures-check _ (is_candidate s.role) _ λ _.
      Ensures-or_abort _ _ _ λ node _.
        Ensures-bind (λ _. Unit {0}) _ _ _ (own_positions_ends s.log s.last_log_pos node)
          λ n _.
            Ensures-mono _ _ _ (send_heartbeat-Keeps (save_state (leading s n)) now)
              (λ t k. Keeps-IsSaved (save_state (leading s n)) t k (save_state-IsSaved _))

  take_vote-IsSaved :
      (s : Server L) (node now : ℕ) → IsSaved s → Ensures IsSaved (take_vote s node now)
  unfolding take_vote snapshot
  take_vote-IsSaved s node now v = Ensures-or_abort _ (get_elem? s.nodes node) _ λ n _.
      Ensures-branch _ _ _ _ (λ _. become_leader-IsSaved _ now)
        (λ _. Ensures-pure _ _ (same_snapshot s _ refl refl v))

  pub process_request_vote_response-IsSaved :
      (s : Server L) (reply : VoteReply) (now : ℕ)
      → IsSaved s
      → Ensures IsSaved (process_request_vote_response s reply now)
  unfolding process_request_vote_response
  process_request_vote_response-IsSaved s reply now v =
      Ensures-branch _ reply.detached _ _ (λ _. Ensures-pure _ _ v)
        λ _.
          Ensures-bind IsSaved _ _ _
            (Ensures-branch _ _ _ _ (λ _. take_vote-IsSaved s reply.node now v)
              (λ _. Ensures-pure _ _ v))
            λ t w. Ensures-pure _ _ (end_vote_call-IsSaved t reply.id w)

  check_timers-IsSaved : (s : Server L) (now : ℕ) → IsSaved s → Ensures IsSaved (check_timers s now)
  unfolding check_timers snapshot
  check_timers-IsSaved s now v =
      Ensures-branch _ _ _ _
        (λ _.
          Ensures-branch _ _ _ _
            (λ _.
              Ensures-bind (Keeps s) _ _ _ (send_heartbeat-Keeps s now)
                (λ t k. Ensures-pure _ _ (same_snapshot t _ refl refl (Keeps-IsSaved s t k v))))
            (λ _. Ensures-pure _ _ v))
        (λ _.
          Ensures-branch _ _ _ _ (λ _. become_candidate-IsSaved s now) (λ _. Ensures-pure _ _ v))

  pub periodic_check-IsSaved :
      (s : Server L) (now : ℕ)
      → IsSaved s
      → Ensures (λ (r : Server L × ℕ). IsSaved r.0) (periodic_check s now)
  unfolding periodic_check
  periodic_check-IsSaved s now v = Ensures-bind IsSaved _ _ _ (check_timers-IsSaved s now v) λ t w.
      Ensures-branch _ (is_candidate t.role) _ _
        (λ _.
          Ensures-check _ (ltb 0 (t.election_timeout_ms / 20)) (λ _. done (t, _))
            (λ _. Ensures-pure _ _ w))
        (λ _. Ensures-pure _ _ w)
