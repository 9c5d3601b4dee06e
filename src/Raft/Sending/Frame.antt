-- ===== src/Raft/Sending/Frame.antt =====
-- What the sending helpers of raft/raft_server.cc leave alone, and that their loops end.
use whisperlib.Prelude.{
  ℕ, zero, suc, ◌+◌, ◌<◌, ◌≡◌, Bool, true, false, ◌&&◌, ◌||◌, ◌==◌, ltb, List, [], ◌∷◌, ◌++◌,
  get_elem?, length, length-set, arith, Bool-cases, inl, inr,
}
use whisperlib.Logio.Position.{ltb_pos}
use whisperlib.Raft.Proto.{DataEntry, AppendEntries}
use whisperlib.Prelude.Outcome.{
  done, branch, Ensures, Ensures-mono, Ensures-bind, Ensures-check, Ensures-or_abort, Ensures-pure,
  Ensures-branch,
}
use whisperlib.Raft.State.{LogStore, Node, Server, is_leader}
use whisperlib.Raft.Sending.{
  pull_next, fill_append_entries, set_positions_from_entry, read_entries, to_send, send_append,
  send_entries_to, heartbeat_from, send_heartbeat, request_votes_from, send_request_vote,
}

-- Two states of a server that differ in its nodes, its calls in flight and its timers at most.
pub record Keeps {L : Type 0} (s t : Server L) : Type 0 where
  pub node_id : t.node_id ≡ s.node_id
  pub nodes : length t.nodes ≡ length s.nodes
  pub current_term : t.current_term ≡ s.current_term
  pub voted_for : t.voted_for ≡ s.voted_for
  pub last_log_pos : t.last_log_pos ≡ s.last_log_pos
  pub last_log_term : t.last_log_term ≡ s.last_log_term
  pub leader_id : t.leader_id ≡ s.leader_id
  pub role : t.role ≡ s.role
  pub commit_pos : t.commit_pos ≡ s.commit_pos
  pub commit_waiters : t.commit_waiters ≡ s.commit_waiters
  pub answered : t.answered ≡ s.answered
  pub log : t.log ≡ s.log
  pub state_file : t.state_file ≡ s.state_file

module _ {L : Type 0} where
  pub Keeps-refl : (s : Server L) → Keeps s s
  Keeps-refl s = ground arith

  pub Keeps-nodes :
      (s : Server L) (ns : List Node)
      → length ns ≡ length s.nodes
      → Keeps s (record s { nodes = ns })
  Keeps-nodes s ns h = ground arith

  pub Keeps-trans : (s t u : Server L) → Keeps s t → Keeps t u → Keeps s u
  Keeps-trans s t u h k = ground arith

module _ {L : Type 0} ⦃store : LogStore L⦄ where
  open store use {byte_size, byte_size_pos}

  pub pull_next_ends : (log : L) (node : Node) → Ensures (λ _. Unit {0}) (pull_next log node)
  unfolding pull_next Ensures
  pull_next_ends log node = ground arith

  -- Each round adds to the size, so the loop of SendAppendEntriesToNodeLocked ends.
  pub read_entries_ends :
      (fuel : ℕ) (log : L) (max_size : ℕ) (node : Node) (size : ℕ) (entries : List DataEntry)
      → 0 < fuel
      → max_size < fuel + size
      → Ensures (λ _. Unit {0}) (read_entries fuel log max_size node size entries)
  unfolding read_entries
  read_entries_ends zero log max_size node size entries p h = absurd (omega arith)
  read_entries_ends (suc fuel) log max_size node size entries p h =
      elim (Bool-cases (ltb_pos node.next_log_pos (store.tell log) && ltb size max_size)) [
        | inr stop ↦ rw (stop, read_entries) (Ensures-pure _ _ tt)
        | inl more ↦
            rw (more, read_entries)
              (Ensures-bind (λ _. Unit {0}) _ (pull_next log node) _ (pull_next_ends log node)
                λ pulled _.
                  let small : size < max_size = ground arith in
                  let round = byte_size_pos pulled.entry in
                  read_entries_ends fuel log max_size (set_positions_from_entry pulled)
                    (size + byte_size pulled.entry) (entries ++ pulled.entry ∷ []) (omega arith)
                    (omega arith))
      ]

  fill_ends : (s : Server L) (node : Node) → Ensures (λ _. Unit {0}) (fill_append_entries s node)
  unfolding fill_append_entries
  fill_ends s node = Ensures-check _ (is_leader s.role) _ (λ _. Ensures-pure _ _ tt)

  to_send_ends :
      (is_filled : Bool) (log : L) (max_size : ℕ) (node : Node)
      → Ensures (λ _. Unit {0}) (to_send is_filled log max_size node)
  unfolding to_send
  to_send_ends true log max_size node = Ensures-pure _ _ tt
  to_send_ends false log max_size node =
      read_entries_ends (suc max_size) log max_size node 0 [] (omega arith) (omega arith)

  send_append-Keeps :
      (s : Server L) (i : ℕ) (node : Node) (req : AppendEntries)
      → Ensures (Keeps s) (send_append s i node req)
  unfolding send_append Ensures
  send_append-Keeps s i node req =
      ground (arith, length-set s.nodes i (record node { in_transfer = true }))

  pub send_entries_to-Keeps :
      (s : Server L) (i : ℕ) (node : Node) (is_filled : Bool) (max_size : ℕ)
      → Ensures (Keeps s) (send_entries_to s i node is_filled max_size)
  unfolding send_entries_to
  send_entries_to-Keeps s i node is_filled max_size =
      Ensures-branch _ node.in_transfer _ _
        (λ _. Ensures-pure _ _ (Keeps-nodes s _ (length-set s.nodes i node)))
        λ _.
          Ensures-bind (λ _. Unit {0}) _ (fill_append_entries s node) _ (fill_ends s node)
            λ req _.
              Ensures-bind (λ _. Unit {0}) _ (to_send is_filled s.log max_size node) _
                (to_send_ends is_filled s.log max_size node)
                λ r _. send_append-Keeps s i r.0 (record req { entry = r.1 })

  beat :
      (s : Server L) (i : ℕ) (node : Node) (skip : Bool)
      → Ensures (Keeps s) (branch skip (done s) (send_entries_to s i node false s.max_entries_size))
  beat s i node skip =
      Ensures-branch _ skip _ _ (λ _. Ensures-pure _ _ (Keeps-refl s))
        (λ _. send_entries_to-Keeps s i node false s.max_entries_size)

  pub heartbeat_from-Keeps :
      (rest i : ℕ) (s : Server L) → Ensures (Keeps s) (heartbeat_from rest i s)
  unfolding heartbeat_from
  heartbeat_from-Keeps zero i s = Ensures-pure _ _ (Keeps-refl s)
  heartbeat_from-Keeps (suc rest) i s = Ensures-or_abort _ (get_elem? s.nodes i) _ λ node at.
      Ensures-bind (Keeps s) _ _ _ (beat s i node (s.node_id == i || node.in_transfer)) λ s' k.
        Ensures-mono _ _ _ (heartbeat_from-Keeps rest (suc i) s') (λ t l. Keeps-trans s s' t k l)

  pub send_heartbeat-Keeps : (s : Server L) (now : ℕ) → Ensures (Keeps s) (send_heartbeat s now)
  unfolding send_heartbeat
  send_heartbeat-Keeps s now = Ensures-check _ (is_leader s.role) _ λ _.
      Ensures-bind (Keeps s) _ _ _ (heartbeat_from-Keeps (length s.nodes) 0 s)
        λ t k. Ensures-pure _ _ (ground arith)

module _ {L : Type 0} where
  pub request_votes_from-Keeps : (rest i : ℕ) (s : Server L) → Keeps s (request_votes_from rest i s)
  unfolding request_votes_from
  request_votes_from-Keeps zero i s = Keeps-refl s
  request_votes_from-Keeps (suc rest) i s = elim (Bool-cases (s.node_id == i)) [
    | inl me ↦ rw (me, request_votes_from) (request_votes_from-Keeps rest (suc i) s)
    | inr other ↦
        rw (other, request_votes_from)
          (Keeps-trans s _ _ (ground arith) (request_votes_from-Keeps rest (suc i) _))
  ]

  pub send_request_vote-Keeps : (s : Server L) → Keeps s (send_request_vote s)
  unfolding send_request_vote
  send_request_vote-Keeps s = request_votes_from-Keeps (length s.nodes) 0 s
