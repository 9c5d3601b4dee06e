-- ===== src/Raft/Growth.antt =====
-- The term and the commit position of a server of raft/raft_server.cc never go back: each operation.
pub mod Replicas
pub mod Leading
use whisperlib.Prelude.{
  ℕ, ltb, ◌/◌, ◌≡◌, refl, Bool, true, false, not, ◌&&◌, ◌||◌, ◌==◌, Option, none, some, List, [],
  ◌∷◌, ℤ, pos, negsuc, ◌≤ℤ◌, ◌+ℤ◌, +ℤ_parts, ltb_ℤ, eqb_ℤ, get_elem?, set, length, arith,
  Bool-cases, inl, inr, leb,
}
use whisperlib.Logio.Position.{LogPos, leb_pos, gtb_pos}
use whisperlib.Logio.Position.Order.{leb_pos_refl, leb_pos_trans, gtb-leb, leb_pos_total}
use whisperlib.Raft.Proto.{
  RequestVote, AppendEntries, AppendEntriesResponse, ClientData, DataEntry, flag, pos_from_proto,
  DataResponse,
}
use whisperlib.Prelude.Outcome.{
  Outcome, done, abort, starved, ◌>>=◌, check, or_abort, branch, Ensures, Ensures-mono,
  Ensures-bind, Ensures-check, Ensures-or_abort, Ensures-pure, Ensures-branch,
}
use whisperlib.Raft.State.{LogStore, Node, Server, is_leader, is_candidate}
use whisperlib.Raft.Persist.{save_state}
use whisperlib.Raft.Sending.{send_request_vote, send_heartbeat, send_entries_to}
use whisperlib.Raft.Sending.Frame.{
  Keeps, send_heartbeat-Keeps, send_entries_to-Keeps, send_request_vote-Keeps,
}
use whisperlib.Raft.Election.{
  set_election_elapse_timeout, become_follower, update_current_term, become_candidate,
  become_leader, vote, vote_granted, take_vote, process_request_vote_response, periodic_check,
  VoteReply, own_positions, candidacy, leading, end_vote_call, check_timers,
}

pub record Grows {L : Type 0} (s t : Server L) : Type 0 where
  pub term : s.current_term ≤ℤ t.current_term
  pub commit : leb_pos s.commit_pos t.commit_pos ≡ true

module _ {L : Type 0} where
  pub Grows-refl : (s : Server L) → Grows s s
  Grows-refl s = record { term = omega arith; commit = leb_pos_refl s.commit_pos }

  pub Grows-trans : (s t u : Server L) → Grows s t → Grows t u → Grows s u
  Grows-trans s t u h k = record {
    term = omega arith;
    commit = leb_pos_trans s.commit_pos t.commit_pos u.commit_pos h.commit k.commit;
  }

  pub Grows-keep : (s t u : Server L) → Grows s t → Keeps t u → Grows s u
  Grows-keep s t u h k = ground arith

  -- The fields that a step leaves alone or sets need no more than this.
  pub Grows-same :
      (s t : Server L) → s.current_term ≤ℤ t.current_term → t.commit_pos ≡ s.commit_pos → Grows s t
  Grows-same s t h e = record { term = h; commit = ground (arith, leb_pos_refl s.commit_pos) }

  pub equal-Grows :
      (s t : Server L) → t.current_term ≡ s.current_term → t.commit_pos ≡ s.commit_pos → Grows s t
  equal-Grows s t e f = Grows-same s t (ground arith) f

  pub become_follower-Grows : (s : Server L) (leader_id : ℤ) → Grows s (become_follower s leader_id)
  unfolding become_follower save_state
  become_follower-Grows s leader_id = Grows-same s _ (omega arith) refl

  pub update_current_term-Grows :
      (s : Server L) (term leader_id : ℤ)
      → s.current_term ≤ℤ term
      → Grows s (update_current_term s term leader_id)
  unfolding update_current_term become_follower save_state
  update_current_term-Grows s term leader_id h = Grows-same s _ (ground arith) (ground arith)

  pub vote-Grows : (s : Server L) (request : RequestVote) → Grows s (vote s request).0
  unfolding vote vote_granted save_state
  vote-Grows s request = Grows-same s _ (ground arith) (ground arith)

  pub save-Grows : (s t : Server L) → Grows s t → Grows s (save_state t)
  unfolding save_state
  save-Grows s t h = record { term = h.term; commit = h.commit }

  pub become_candidate-Grows : (s : Server L) (now : ℕ) → Ensures (Grows s) (become_candidate s now)
  unfolding become_candidate set_election_elapse_timeout candidacy
  become_candidate-Grows s now = Ensures-check _ (not (is_leader s.role)) _ λ _.
      Ensures-or_abort _ _ _ λ me at. Ensures-pure _ _ (
        save-Grows s _ (
          Grows-keep s (set_election_elapse_timeout (candidacy s me) now) _
            (Grows-same s _ (omega (arith, +ℤ_parts s.current_term (pos 1))) refl)
            (send_request_vote-Keeps _)))

  end_vote_call-Grows : (s : Server L) (id : ℕ) → Grows s (end_vote_call s id)
  unfolding end_vote_call become_follower save_state
  end_vote_call-Grows s id = Grows-same s _ (ground arith) (ground arith)

module _ {L : Type 0} ⦃store : LogStore L⦄ where
  pub own_positions_ends :
      (log : L) (p : LogPos) (node : Node) → Ensures (λ _. Unit {0}) (own_positions log p node)
  unfolding own_positions Ensures branch
  own_positions_ends log p node = ground arith

  become_leader-Grows : (s : Server L) (now : ℕ) → Ensures (Grows s) (become_leader s now)
  unfolding become_leader leading
  become_leader-Grows s now = Ensures-check _ (is_candidate s.role) _ λ _.
      Ensures-or_abort _ _ _ λ node at.
        Ensures-bind (λ _. Unit {0}) _ _ _ (own_positions_ends s.log s.last_log_pos node)
          λ read_node _.
            Ensures-mono _ _ _ (send_heartbeat-Keeps (save_state (leading s read_node)) now) (λ t k.
              Grows-keep s (save_state (leading s read_node)) t
                (save-Grows s _ (Grows-same s _ (omega arith) refl)) k)

  take_vote-Grows : (s : Server L) (node now : ℕ) → Ensures (Grows s) (take_vote s node now)
  unfolding take_vote
  take_vote-Grows s node now = Ensures-or_abort _ (get_elem? s.nodes node) _ λ n at.
      Ensures-branch _ _ _ _
        (λ won.
          Ensures-mono _ _ _ (become_leader-Grows _ now)
            λ t g. record { term = g.term; commit = g.commit })
        (λ lost. Ensures-pure _ _ (equal-Grows s _ refl refl))

  pub process_request_vote_response-Grows :
      (s : Server L) (reply : VoteReply) (now : ℕ)
      → Ensures (Grows s) (process_request_vote_response s reply now)
  unfolding process_request_vote_response
  process_request_vote_response-Grows s reply now =
      Ensures-branch _ reply.detached _ _ (λ _. Ensures-pure _ _ (Grows-refl s))
        λ _.
          Ensures-bind (Grows s) _ _ _
            (Ensures-branch _ _ _ _ (λ _. take_vote-Grows s reply.node now)
              (λ _. Ensures-pure _ _ (Grows-refl s)))
            λ t g. Ensures-pure _ _ (Grows-trans s t _ g (end_vote_call-Grows t reply.id))

  check_timers-Grows : (s : Server L) (now : ℕ) → Ensures (Grows s) (check_timers s now)
  unfolding check_timers
  check_timers-Grows s now =
      Ensures-branch _ _ _ _
        (λ _.
          Ensures-branch _ _ _ _
            (λ _.
              Ensures-bind (Keeps s) _ _ _ (send_heartbeat-Keeps s now)
                λ t k. Ensures-pure _ _ (equal-Grows s _ k.current_term k.commit_pos))
            (λ _. Ensures-pure _ _ (Grows-refl s)))
        (λ _.
          Ensures-branch _ _ _ _ (λ _. become_candidate-Grows s now)
            (λ _. Ensures-pure _ _ (Grows-refl s)))

  pub periodic_check-Grows :
      (s : Server L) (now : ℕ) → Ensures (λ (r : Server L × ℕ). Grows s r.0) (periodic_check s now)
  unfolding periodic_check
  periodic_check-Grows s now = Ensures-bind (Grows s) _ _ _ (check_timers-Grows s now) λ t g.
      Ensures-branch _ (is_candidate t.role) _ _
        (λ _.
          Ensures-check _ (ltb 0 (t.election_timeout_ms / 20)) (λ _. done (t, _))
            (λ _. Ensures-pure _ _ g))
        (λ _. Ensures-pure _ _ g)
