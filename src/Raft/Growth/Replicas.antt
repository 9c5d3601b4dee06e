-- ===== src/Raft/Growth/Replicas.antt =====
-- The term and the commit position of a server of raft/raft_server.cc never go back: replication.
use whisperlib.Prelude.{
  ℕ, zero, suc, ◌≡◌, refl, Bool, true, false, if◌then◌else◌, Option, List, [], ◌∷◌, ℤ, ltb_ℤ,
  get_elem?, arith,
}
use whisperlib.Logio.Position.{LogPos, leb_pos}
use whisperlib.Logio.Position.Order.{gtb-leb, leb_pos_total, leb_pos_refl}
use whisperlib.Raft.Proto.{AppendEntries, AppendEntriesResponse, DataEntry, flag, pos_from_proto}
use whisperlib.Raft.State.{LogStore, Node, Server, is_leader}
use whisperlib.Prelude.Outcome.{
  Ensures, Ensures-mono, Ensures-bind, Ensures-check, Ensures-or_abort, Ensures-pure,
  Ensures-branch, Ensures-on_value,
}
use whisperlib.Raft.Persist.{save_state}
use whisperlib.Raft.Sending.Frame.{
  Keeps, Keeps-trans, Keeps-refl, send_entries_to-Keeps, pull_next_ends,
}
use whisperlib.Raft.Election.{set_election_elapse_timeout, become_follower, update_current_term}
use whisperlib.Raft.Commit.{maybe_advance_commit, advance_waiters, sort_pos, match_positions}
use whisperlib.Raft.Replication.{
  take_list, maybe_truncate_log_after, append_request_entries, adopt_leader, take_entries,
  follow_commit, append,
}
use whisperlib.Raft.Replication.Truncation.{Truncated, maybe_truncate_lem}
use whisperlib.Raft.Leader.{degrade_by_one, degrade_to, degrade_node, offer_from}
use whisperlib.Raft.Growth.{Grows, Grows-refl, Grows-trans, equal-Grows, Grows-same}

module _ {L : Type 0} where
  pub maybe_advance_commit-Grows :
      (s : Server L) → Ensures (λ (r : Server L × Bool). Grows s r.0) (maybe_advance_commit s)
  unfolding maybe_advance_commit advance_waiters save_state
  maybe_advance_commit-Grows s = Ensures-check _ (is_leader s.role) _ λ _.
      Ensures-or_abort _ (get_elem? (sort_pos (match_positions s)) _) _ λ p at.
        Ensures-branch _ (leb_pos p s.commit_pos) _ _ (λ _. Ensures-pure _ _ (Grows-refl s))
          (λ above.
            Ensures-pure _ _
              (record { term = (Grows-refl s).term; commit = leb_pos_total p s.commit_pos above }))

module _ {L : Type 0} ⦃store : LogStore L⦄ where
  adopt_leader-Grows :
      (s : Server L) (request : AppendEntries)
      → ltb_ℤ request.term s.current_term ≡ false
      → Grows s (adopt_leader s request)
  unfolding adopt_leader update_current_term become_follower save_state
  adopt_leader-Grows s request h = Grows-same s _ (ground arith) (ground arith)

  append_request_entries-Grows :
      (s : Server L) (es : List DataEntry) → Grows s (append_request_entries s es).0
  unfolding append_request_entries
  append_request_entries-Grows s [] = Grows-refl s
  append_request_entries-Grows s (e ∷ es) = Grows-same s _ (ground arith) (ground arith)

  follow_commit-Grows : (s : Server L) (p : LogPos) (b : Bool) → Grows s (follow_commit s p b).0
  unfolding follow_commit save_state
  follow_commit-Grows s p b = record {
    term = ground arith;
    commit =
        ground
          (arith, gtb-leb p s.commit_pos, leb_pos_total p s.commit_pos, leb_pos_refl s.commit_pos);
  }

  maybe_truncate-Grows :
      (s : Server L) (t : ℤ) (p : LogPos)
      → Ensures (λ (r : Server L × Bool). Grows s r.0) (maybe_truncate_log_after s t p)
  maybe_truncate-Grows s t p =
      Ensures-mono (Truncated s) _ _ (maybe_truncate_lem s t p)
        λ r k. equal-Grows s r.0 k.current_term k.commit_pos

  take_list-Grows :
      (s : Server L) (t : ℤ) (p : LogPos) (es : List DataEntry) (at_end : Bool)
      → Ensures (λ (r : Server L × Option Bool × Bool). Grows s r.0) (take_list s t p es at_end)
  unfolding take_list
  take_list-Grows s t p [] at_end = Ensures-pure _ _ (Grows-refl s)
  take_list-Grows s t p (e ∷ es) at_end =
      Ensures-bind (λ (r : Server L × Bool). Grows s r.0) _ _ _ (maybe_truncate-Grows s t p)
        λ r g.
          let h = Grows-trans s r.0 _ g (append_request_entries-Grows r.0 (e ∷ es)) in
          Ensures-branch _ r.1 _ _
            (λ _. Ensures-branch _ _ _ _ (λ _. Ensures-pure _ _ h) (λ _. Ensures-pure _ _ h))
            (λ _. Ensures-pure _ _ g)

  after_success-Grows :
      (s t : Server L) (success need_save : Bool) (p : LogPos)
      → Grows s t
      → Grows s (if success then follow_commit t p need_save else (t, false)).0
  after_success-Grows s t true need_save p g =
      Grows-trans s t _ g (follow_commit-Grows t p need_save)
  after_success-Grows s t false need_save p g = g

  pub append-Grows :
      (s : Server L) (request : AppendEntries) (now : ℕ)
      → Ensures
          (λ (r : Server L × AppendEntriesResponse × Bool). Grows s r.0)
          (append s request now)
  unfolding append set_election_elapse_timeout take_entries
  append-Grows s request now =
      Ensures-branch _ (ltb_ℤ request.term s.current_term) _ _
        (λ _. Ensures-pure _ _ (equal-Grows s _ refl refl))
        λ fresh.
          Ensures-bind (λ (r : Server L × Option Bool × Bool). Grows s r.0) _ _ _
            (Ensures-mono
              (λ (r : Server L × Option Bool × Bool). Grows (adopt_leader s request) r.0) _ _
              (take_list-Grows (adopt_leader s request) _ _ _ _)
              λ r g. Grows-trans s _ r.0 (adopt_leader-Grows s request fresh) g)
            λ r g.
              let h =
                after_success-Grows s r.0 (flag r.1) r.2 (pos_from_proto request.leader_commit_pos)
                  g in
              Ensures-pure _ _ (record { term = h.term; commit = h.commit })

  -- The sending parts.
  degrade_by_one-Keeps :
      (s : Server L) (i : ℕ) (node : Node) → Ensures (Keeps s) (degrade_by_one s i node)
  unfolding degrade_by_one
  degrade_by_one-Keeps s i node =
      Ensures-bind (λ _. Unit {0}) _ _ _ (pull_next_ends s.log node)
        (λ n _. send_entries_to-Keeps s i _ true 1)

  pub degrade_node-Keeps :
      (s : Server L) (i : ℕ) (node : Node) (req : AppendEntries) (resp : AppendEntriesResponse)
      → Ensures (Keeps s) (degrade_node s i node req resp)
  unfolding degrade_node degrade_to
  degrade_node-Keeps s i node req resp =
      Ensures-branch _ _ _ _ (λ _. send_entries_to-Keeps s i _ false _)
        λ _.
          Ensures-on_value _ resp.commit_pos _ _ (λ _. degrade_by_one-Keeps s i _)
            λ p _.
              Ensures-branch _ _ _ _
                (λ _.
                  Ensures-bind (λ _. Unit {0}) _ _ _ (pull_next_ends s.log _)
                    (λ n _. send_entries_to-Keeps s i _ false _))
                (λ _. degrade_by_one-Keeps s i _)

  pub offer_from-Keeps : (rest i : ℕ) (s : Server L) → Ensures (Keeps s) (offer_from rest i s)
  unfolding offer_from
  offer_from-Keeps zero i s = Ensures-pure _ _ (Keeps-refl s)
  offer_from-Keeps (suc rest) i s = Ensures-or_abort _ (get_elem? s.nodes i) _ λ node at.
      Ensures-bind (Keeps s) _ _ _
        (Ensures-branch _ _ _ _ (λ _. send_entries_to-Keeps s i node false s.max_entries_size)
          (λ _. Ensures-pure _ _ (Keeps-refl s)))
        λ t k. Ensures-mono _ _ _ (offer_from-Keeps rest (suc i) t) (λ u l. Keeps-trans s t u k l)
