-- ===== src/Raft/Election/Votes.antt =====
-- Votes of raft/raft_server.cc: when one is granted, and what an election decides by.
use whisperlib.Prelude.{
  ℕ, zero, suc, ◌+◌, ◌/◌, ◌-◌, ◌^◌, ◌<◌, ◌≡◌, refl, ◌⊎◌, ◌↔◌, true, false, some, List, [], ◌∷◌, map,
  sym, ap, subst, ℤ, pos, negsuc, ◌<ℤ◌, ◌≤ℤ◌, ◌-ℤ◌, eqb_ℤ, eqb_ℤ_iff, leb, get_elem?, set, length,
  length-map, if◌then◌else◌, arith,
}
use whisperlib.Logio.Position.{LogPos, ltb_pos}
use whisperlib.Logio.Position.Order.{geb-ltb}
use whisperlib.Raft.Proto.{RequestVote, pos_from_proto}
use whisperlib.Prelude.Outcome.{
  done, branch, Ensures, Ensures-check, Ensures-or_abort, Ensures-bind, Ensures-mono,
}
use whisperlib.Raft.Sending.Frame.{send_heartbeat-Keeps}
use whisperlib.Raft.State.{is_candidate}
use whisperlib.Raft.Election.{leading, own_positions}
use whisperlib.Raft.Proto.{RequestVoteResponse}
use whisperlib.Raft.State.{LogStore, Node, Server, Role, to_size}
use whisperlib.Raft.Persist.{save_state}
use whisperlib.Raft.Election.{
  vote, vote_granted, become_leader, become_follower, take_vote, count_votes, set_votes, VoteReply,
  process_request_vote_response, end_vote_call,
}

candidate_named : (c : ℤ) (n : ℕ) → to_size c < n → n < 2 ^ 64 - 1 → eqb_ℤ c (negsuc 0) ≡ false
candidate_named (pos k) n h few = ground arith
candidate_named (negsuc zero) n h few = absurd (omega arith)
candidate_named (negsuc (suc k)) n h few = ground arith

abbrev pub AllUpTo : (term : ℤ) → List RequestVote → Type 0
AllUpTo term [] = Unit {0}
AllUpTo term (request ∷ requests) = (request.term ≤ℤ term) × AllUpTo term requests

module _ {L : Type 0} where
  -- A vote is granted exactly to a node of the cluster that either is in a later term with a log that
  -- reaches our commit position, or is in no earlier term with a log that reaches ours while our vote
  -- is free.
  pub vote_granted_iff :
      (s : Server L) (request : RequestVote)
      → ((vote s request).1.vote_granted ≡ true) ↔ (
          (to_size request.candidate_id < length s.nodes)
          × (((s.current_term <ℤ request.term)
                × (ltb_pos (pos_from_proto request.last_log_pos) s.commit_pos ≡ false))
              ⊎ ((s.current_term ≤ℤ request.term)
                  × (s.voted_for ≡ negsuc 0)
                  × (ltb_pos (pos_from_proto request.last_log_pos) s.last_log_pos ≡ false))))
  unfolding vote vote_granted
  vote_granted_iff s request = (
    λ h. ground (
      arith,
      geb-ltb (pos_from_proto request.last_log_pos) s.commit_pos,
      eqb_ℤ_iff s.voted_for (negsuc 0),
    ),
    λ h. ground (
      arith,
      geb-ltb (pos_from_proto request.last_log_pos) s.commit_pos,
      eqb_ℤ_iff s.voted_for (negsuc 0),
    ),
  )

  -- A sequence of calls of Vote, with their responses.
  abbrev pub vote_all : Server L → List RequestVote → Server L × List RequestVoteResponse
  vote_all s [] = (s, [])
  vote_all s (request ∷ requests) =
      let one = vote s request in let rest = vote_all one.0 requests in (rest.0, one.1 ∷ rest.1)

  refused :
      (s : Server L) (request : RequestVote)
      → vote_granted s request ≡ false
      → vote s request ≡ (s, record { term = s.current_term; vote_granted = false })
  unfolding vote
  refused s request e = rw (e)

  vote_all-refused :
      (s : Server L) (requests : List RequestVote)
      → ((request : RequestVote) → request.term ≤ℤ s.current_term → vote_granted s request ≡ false)
      → AllUpTo s.current_term requests
      → vote_all s requests
        ≡ (s, map (λ r. record { term = s.current_term; vote_granted = false }) requests)
  vote_all-refused s [] none_granted h = refl
  vote_all-refused s (request ∷ requests) none_granted h =
      rw
        (refused s request (none_granted request h.0), vote_all-refused s requests none_granted h.1)

  -- In a cluster of fewer than 2^64 - 1 nodes: once a vote is granted, and as long as nothing but Vote is
  -- called, with terms up to that of the vote, every request is refused, with that term in its response,
  -- and none of them changes the server.
  pub vote-vote :
      (s : Server L) (request : RequestVote) (later : List RequestVote)
      → length s.nodes < 2 ^ 64 - 1
      → (vote s request).1.vote_granted ≡ true
      → AllUpTo request.term later
      → vote_all (vote s request).0 later ≡ (
        (vote s request).0,
        map (λ r. record { term = request.term; vote_granted = false }) later,
      )
  unfolding vote vote_granted save_state
  vote-vote s request later few granted same =
      let member = ((vote_granted_iff s request).0 granted).0 in
      let named = candidate_named request.candidate_id (length s.nodes) member few in
      let voted : Server L =
        save_state (record s { voted_for = request.candidate_id; current_term = request.term }) in
      let g : vote_granted s request ≡ true = granted in
      let now : (vote s request).0 ≡ voted = ap (λ b. if b then voted else s) g in
      subst
        (λ t.
          vote_all t later
          ≡ (t, map (λ r. record { term = request.term; vote_granted = false }) later))
        (sym now) (vote_all-refused voted later (λ r h. ground (arith, h, named)) same)

count_votes_lem : (ns : List Node) → count_votes ns ≡ (length ns, set_votes true ns)
unfolding count_votes
count_votes_lem [] = refl
count_votes_lem (n ∷ ns) = rw (count_votes_lem ns)

set_votes-set :
    (ns : List Node) (i : ℕ) (n : Node)
    → get_elem? ns i ≡ some n
    → (length (set ns i (record n { votes_for_me = true })) ≡ length ns)
      × (0 < length ns)
      × (set_votes true (set ns i (record n { votes_for_me = true })) ≡ set_votes true ns)
set_votes-set [] i n h = cc
set_votes-set (m ∷ ns) zero n h = ground arith
set_votes-set (m ∷ ns) (suc i) n h = ground (arith, set_votes-set ns i n h)

module _ {L : Type 0} ⦃store : LogStore L⦄ where
  own_positions_ends :
      (log : L) (p : LogPos) (node : Node) → Ensures (λ _. Unit {0}) (own_positions log p node)
  unfolding own_positions Ensures branch
  own_positions_ends log p node = ground arith

  -- The server leads, for itself, in the term it had.
  abbrev pub Leads : (node_id : ℕ) → (term : ℤ) → Server L → Type 0
  Leads node_id term t =
      (t.role ≡ Role.leader)
      × ((t.voted_for ≡ pos node_id) × ((t.leader_id ≡ pos node_id) × (t.current_term ≡ term)))

  become_leader-Leads :
      (s : Server L) (now : ℕ) → Ensures (Leads s.node_id s.current_term) (become_leader s now)
  unfolding become_leader leading save_state
  become_leader-Leads s now =
      let Q = Leads s.node_id s.current_term in
      Ensures-check Q (is_candidate s.role) _ λ _.
        Ensures-or_abort Q (get_elem? s.nodes s.node_id) _ λ node at.
          Ensures-bind (λ _. Unit {0}) Q (own_positions s.log s.last_log_pos node) _
            (own_positions_ends s.log s.last_log_pos node)
            λ read_node _.
              Ensures-mono _ Q _ (send_heartbeat-Keeps (save_state (leading s read_node)) now)
                λ t k. (k.role, (k.voted_for, (k.leader_id, k.current_term)))

  -- One vote is enough: whoever else has voted, the first vote that a candidate is granted makes it
  -- call BecomeLeaderLocked, with the votes of all nodes set; and, unless a CHECK fails there, it is then
  -- the leader, has voted for itself, names itself as the leader, and is in the term it had.
  pub take_vote-become_leader :
      (s : Server L) (node now : ℕ) (n : Node)
      → s.role ≡ Role.candidate
      → get_elem? s.nodes node ≡ some n
      → (take_vote s node now ≡ become_leader (record s { nodes = set_votes true s.nodes }) now)
        × Ensures (Leads s.node_id s.current_term) (take_vote s node now)
  unfolding take_vote branch
  take_vote-become_leader s node now n candidate h =
      let counted = count_votes_lem (set s.nodes node (record n { votes_for_me = true })) in
      let (len, some_node, votes) = set_votes-set s.nodes node n h in
      let majority : leb (length (set_votes true s.nodes) / 2 + 1) (length s.nodes) ≡ true =
        ground (arith, length-map s.nodes (λ (m : Node). record m { votes_for_me = true })) in
      let same : take_vote s node now
          ≡ become_leader (record s { nodes = set_votes true s.nodes }) now =
        rw (h, take_vote) (rw counted (rw (votes, len, majority))) in
      (
        same,
        subst (Ensures (Leads s.node_id s.current_term)) (sym same)
            (become_leader-Leads (record s { nodes = set_votes true s.nodes }) now),
      )

  -- A candidate whose last open call is refused, or fails, has its vote back in the same term: it then
  -- votes for any other node that asks in that term with a log that reaches its own.
  pub second_vote :
      (s : Server L) (reply : VoteReply) (now : ℕ) (request : RequestVote)
      → s.role ≡ Role.candidate
      → s.candidate_votes_out ≡ pos 1
      → reply.detached ≡ false
      → reply.resp.vote_granted ≡ false
      → to_size request.candidate_id < length s.nodes
      → request.term ≡ s.current_term
      → ltb_pos (pos_from_proto request.last_log_pos) s.last_log_pos ≡ false
      → (t : Server L) × (process_request_vote_response s reply now ≡ done t)
        × (t.current_term ≡ s.current_term)
        × ((vote t request).1.vote_granted ≡ true)
  unfolding process_request_vote_response branch end_vote_call become_follower save_state vote
      vote_granted ◌-ℤ◌
  second_vote s reply now request r o d g m t l =
      (end_vote_call s reply.id, ground arith, ground arith, ground arith)
