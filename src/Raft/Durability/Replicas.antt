-- ===== src/Raft/Durability/Replicas.antt =====
-- The state file of raft/raft_server.cc holds the persistent state after each call: replication.
use whisperlib.Prelude.{
  ℕ, ◌≡◌, refl, Bool, true, false, if◌then◌else◌, Option, some, List, [], ◌∷◌, ℤ, negsuc, ltb_ℤ,
  get_elem?, length, arith,
}
use whisperlib.Logio.Position.{LogPos, leb_pos}
use whisperlib.Raft.Proto.{
  AppendEntries, AppendEntriesResponse, ClientData, DataEntry, DataResponse, flag, pos_from_proto,
}
use whisperlib.Prelude.Outcome.{
  done, Ensures, Ensures-done, Ensures-mono, Ensures-bind, Ensures-check, Ensures-or_abort,
  Ensures-pure, Ensures-branch,
}
use whisperlib.Raft.State.{LogStore, Node, Server, snapshot, is_leader}
use whisperlib.Raft.Sending.Frame.{send_entries_to-Keeps}
use whisperlib.Raft.Election.{set_election_elapse_timeout}
use whisperlib.Raft.Commit.{maybe_advance_commit, advance_waiters, sort_pos, match_positions}
use whisperlib.Raft.Replication.{adopt_leader, take_entries, take_list, follow_commit, append}
use whisperlib.Raft.Replication.Truncation.{Truncated, maybe_truncate_lem}
use whisperlib.Raft.Leader.{
  AppendReply, take_match, take_append_response, process_append_entries_response, accept_record,
  save, end_save, last_entry,
}
use whisperlib.Raft.Growth.Replicas.{degrade_node-Keeps, offer_from-Keeps}
use whisperlib.Raft.Growth.Leading.{named_ends}
use whisperlib.Raft.Durability.{
  IsSaved, same_snapshot, save_state-IsSaved, Keeps-IsSaved, become_follower-IsSaved,
  update_current_term-IsSaved,
}

module _ {L : Type 0} where
  advance_waiters-IsSaved : (s : Server L) → IsSaved s → IsSaved (advance_waiters s)
  unfolding advance_waiters snapshot
  advance_waiters-IsSaved s v = same_snapshot s _ refl refl v

  maybe_advance_commit-IsSaved :
      (s : Server L)
      → IsSaved s
      → Ensures (λ (r : Server L × Bool). IsSaved r.0) (maybe_advance_commit s)
  unfolding maybe_advance_commit
  maybe_advance_commit-IsSaved s v = Ensures-check _ (is_leader s.role) _ λ _.
      Ensures-or_abort _ (get_elem? (sort_pos (match_positions s)) _) _ λ p _.
        Ensures-branch _ (leb_pos p s.commit_pos) _ _ (λ _. Ensures-pure _ _ v)
          (λ _. Ensures-pure _ _ (advance_waiters-IsSaved _ (save_state-IsSaved _)))

  end_save-IsSaved :
      (s : Server L) (p : LogPos) (client : ℕ) (wait : Bool) (response : DataResponse)
      → IsSaved s
      → IsSaved (end_save s p client wait response).0
  unfolding end_save snapshot
  end_save-IsSaved s p client true response v = same_snapshot s _ refl refl v
  end_save-IsSaved s p client false response v = v

module _ {L : Type 0} ⦃store : LogStore L⦄ where
  pub adopt_leader-IsSaved :
      (s : Server L) (request : AppendEntries) → IsSaved s → IsSaved (adopt_leader s request)
  unfolding adopt_leader
  adopt_leader-IsSaved s request v = ground (
    arith,
    become_follower-IsSaved s request.leader_id,
    save_state-IsSaved (record s { leader_id = request.leader_id }),
    update_current_term-IsSaved s request.term request.leader_id,
  )

  -- Saved already, or marked to be saved.
  abbrev Settled : Server L × Option Bool × Bool → Type 0
  Settled r = (flag r.1 ≡ true → r.2 ≡ false → IsSaved r.0)

  take_list-Settled :
      (s : Server L) (t : ℤ) (p : LogPos) (es : List DataEntry) (at_end : Bool)
      → IsSaved s
      → Ensures Settled (take_list s t p es at_end)
  unfolding take_list
  take_list-Settled s t p [] at_end v = Ensures-pure _ _ (λ _ _. v)
  take_list-Settled s t p (e ∷ es) at_end v =
      Ensures-bind (Truncated s) _ _ _ (maybe_truncate_lem s t p) λ r k.
        Ensures-branch _ r.1 _ _
          (λ _.
            Ensures-branch _ _ _ _ (λ _. Ensures-pure _ _ (λ _ e. absurd (cc)))
              (λ _. Ensures-pure _ _ (λ e _. absurd (cc))))
          (λ _. Ensures-pure _ _ (λ e _. absurd (cc)))

  pub follow_commit-IsSaved :
      (s : Server L) (p : LogPos) (need_save : Bool)
      → (need_save ≡ false → IsSaved s)
      → IsSaved (follow_commit s p need_save).0
  unfolding follow_commit
  follow_commit-IsSaved s p true v =
      ground (arith, save_state-IsSaved s, save_state-IsSaved (record s { commit_pos = p }))
  follow_commit-IsSaved s p false v =
      ground (arith, v refl, save_state-IsSaved (record s { commit_pos = p }))

  after_success-IsSaved :
      (s : Server L) (success need_save : Bool) (p : LogPos)
      → (success ≡ true → need_save ≡ false → IsSaved s)
      → success ≡ true
      → IsSaved (if success then follow_commit s p need_save else (s, false)).0
  after_success-IsSaved s true need_save p v e = follow_commit-IsSaved s p need_save (v refl)
  after_success-IsSaved s false need_save p v e = absurd (cc)

  append_saves :
      (s : Server L) (request : AppendEntries) (now : ℕ)
      → IsSaved s
      → Ensures
          (λ (r : Server L × AppendEntriesResponse × Bool). r.1.success ≡ some true → IsSaved r.0)
          (append s request now)
  unfolding append set_election_elapse_timeout take_entries snapshot
  append_saves s request now v =
      Ensures-branch _ (ltb_ℤ request.term s.current_term) _ _
        (λ _. Ensures-pure _ _ (λ e. absurd (cc)))
        λ _.
          Ensures-bind Settled _ _ _
            (take_list-Settled (adopt_leader s request) _ _ _ _ (adopt_leader-IsSaved s request v))
            λ r settled. Ensures-pure _ _ λ e. same_snapshot _ _ refl refl (
              after_success-IsSaved r.0 (flag r.1) r.2 (pos_from_proto request.leader_commit_pos)
                settled (cc))

  -- If a server whose state file is current ends an append call with success, its state file is current:
  -- what it accepted is on disk before it answers.
  pub append-IsSaved :
      (s : Server L) (request : AppendEntries) (now : ℕ)
      {r : Server L × AppendEntriesResponse × Bool}
      → IsSaved s
      → append s request now ≡ done r
      → r.1.success ≡ some true
      → IsSaved r.0
  append-IsSaved s request now v e h = Ensures-done _ _ (append_saves s request now v) e h

  take_match-IsSaved :
      (s : Server L) (i : ℕ) (node : Node) (e : DataEntry)
      → IsSaved s
      → Ensures (λ (r : Server L × Bool). IsSaved r.0) (take_match s i node e)
  unfolding take_match snapshot
  take_match-IsSaved s i node e v =
      Ensures-check _ (leb_pos node.match_log_pos node.next_log_pos) _ λ _.
        Ensures-bind (λ (r : Server L × Bool). IsSaved r.0) _ _ _
          (maybe_advance_commit-IsSaved _ (same_snapshot s _ refl refl v))
          λ r w.
            Ensures-bind IsSaved _ _ _
              (Ensures-branch _ _ _ _
                (λ _.
                  Ensures-mono _ _ _ (send_entries_to-Keeps r.0 i _ false _)
                    (λ t k. Keeps-IsSaved r.0 t k w))
                (λ _. Ensures-pure _ _ w))
              (λ t w'. Ensures-pure _ _ w')

  entries-IsSaved :
      (s : Server L) (i : ℕ) (node : Node) (es : List DataEntry)
      → IsSaved s
      → Ensures
          (λ (r : Server L × Bool). IsSaved r.0)
          (elim es [ [] ↦ done (s, false) | e ∷ es' ↦ take_match s i node (last_entry e es') ])
  entries-IsSaved s i node [] v = Ensures-pure _ _ v
  entries-IsSaved s i node (e ∷ es) v = take_match-IsSaved s i node (last_entry e es) v

  pub process_append_entries_response-IsSaved :
      (s : Server L) (reply : AppendReply)
      → IsSaved s
      → Ensures (λ (r : Server L × Bool). IsSaved r.0) (process_append_entries_response s reply)
  unfolding process_append_entries_response take_append_response snapshot
  process_append_entries_response-IsSaved s reply v =
      Ensures-branch _ reply.detached _ _ (λ _. Ensures-pure _ _ v)
        λ _. Ensures-or_abort _ (get_elem? s.nodes reply.node) _ λ old _.
          Ensures-bind (λ (r : Server L × Bool). IsSaved r.0) _ _ _
            (Ensures-branch _ _ _ _
              (λ _.
                Ensures-branch _ (ltb_ℤ s.current_term reply.resp.term) _ _
                  (λ _. Ensures-pure _ _ (update_current_term-IsSaved _ reply.resp.term (negsuc 0)))
                  λ _.
                    Ensures-branch _ (flag reply.resp.success) _ _
                      (λ _.
                        entries-IsSaved _ reply.node _ reply.req.entry
                          (same_snapshot s _ refl refl v))
                      λ _.
                        Ensures-bind IsSaved _ _ _
                          (Ensures-mono _ _ _
                            (degrade_node-Keeps _ reply.node _ reply.req reply.resp)
                            (λ t k. Keeps-IsSaved _ t k (same_snapshot s _ refl refl v)))
                          (λ t w. Ensures-pure _ _ w))
              (λ _. Ensures-pure _ _ (same_snapshot s _ refl refl v)))
            λ r w. Ensures-pure _ _ (same_snapshot r.0 _ refl refl w)

  pub save-request-IsSaved :
      (s : Server L) (request : ClientData) (client : ℕ)
      → IsSaved s
      → Ensures (λ (r : Server L × DataResponse × Bool). IsSaved r.0) (save s request client)
  unfolding save accept_record snapshot
  save-request-IsSaved s request client v =
      Ensures-branch _ (is_leader s.role) _ _
        (λ _.
          Ensures-branch _ _ _ _
            (λ _.
              Ensures-bind IsSaved _ _ _
                (Ensures-mono _ _ _ (offer_from-Keeps (length s.nodes) 0 _)
                  (λ t k. Keeps-IsSaved _ t k (save_state-IsSaved _)))
                λ t w. Ensures-pure _ _ (end_save-IsSaved t _ client request.wait_to_commit _ w))
            (λ _. Ensures-pure _ _ (same_snapshot s _ refl refl v)))
        λ _. Ensures-bind (λ _. Unit {0}) _ _ _ (named_ends s) (λ name _. Ensures-pure _ _ v)
