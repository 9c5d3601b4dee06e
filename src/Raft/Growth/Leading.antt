-- ===== src/Raft/Growth/Leading.antt =====
-- The term and the commit position of a server of raft/raft_server.cc never go back: the leader.
use whisperlib.Prelude.{
  ℕ, refl, Bool, true, false, none, some, List, [], ◌∷◌, pos, negsuc, ltb_ℤ, get_elem?, length,
  arith, pos_part, ◌≤ℤ◌,
}
use whisperlib.Logio.Position.{LogPos, leb_pos}
use whisperlib.Raft.Proto.{
  AppendEntries, AppendEntriesResponse, ClientData, DataEntry, DataResponse, flag,
}
use whisperlib.Prelude.Outcome.{
  done, ◌>>=◌, or_abort, branch, Ensures, Ensures-mono, Ensures-bind, Ensures-check,
  Ensures-or_abort, Ensures-pure, Ensures-branch,
}
use whisperlib.Raft.State.{LogStore, Node, Server, is_leader}
use whisperlib.Raft.Persist.{save_state}
use whisperlib.Raft.Sending.Frame.{Keeps, send_entries_to-Keeps}
use whisperlib.Raft.Leader.{
  AppendReply, take_match, take_append_response, process_append_entries_response, accept_record,
  save, end_save, last_entry,
}
use whisperlib.Raft.Growth.{Grows, Grows-refl, Grows-keep, equal-Grows, update_current_term-Grows}
use whisperlib.Raft.Growth.Replicas.{
  maybe_advance_commit-Grows, degrade_node-Keeps, offer_from-Keeps,
}

module _ {L : Type 0} ⦃store : LogStore L⦄ where
  take_match-Grows :
      (s : Server L) (i : ℕ) (node : Node) (e : DataEntry)
      → Ensures (λ (r : Server L × Bool). Grows s r.0) (take_match s i node e)
  unfolding take_match
  take_match-Grows s i node e =
      Ensures-check _ (leb_pos node.match_log_pos node.next_log_pos) _ λ _.
        Ensures-bind _ _ _ _ (maybe_advance_commit-Grows _) λ r g.
          let h : Grows s r.0 = record { term = g.term; commit = g.commit } in
          Ensures-bind (Grows s) _ _ _
            (Ensures-branch _ _ _ _
              (λ _.
                Ensures-mono _ _ _ (send_entries_to-Keeps r.0 i _ false _)
                  (λ t k. Grows-keep s r.0 t h k))
              (λ _. Ensures-pure _ _ h))
            (λ t g'. Ensures-pure _ _ g')

  entries_taken :
      (s : Server L) (i : ℕ) (node : Node) (es : List DataEntry)
      → Ensures
          (λ (r : Server L × Bool). Grows s r.0)
          (elim es [ [] ↦ done (s, false) | e ∷ es' ↦ take_match s i node (last_entry e es') ])
  entries_taken s i node [] = Ensures-pure _ _ (Grows-refl s)
  entries_taken s i node (e ∷ es) = take_match-Grows s i node (last_entry e es)

  take_append_response-Grows :
      (s : Server L) (i : ℕ) (node : Node) (req : AppendEntries) (resp : AppendEntriesResponse)
      → Ensures (λ (r : Server L × Bool). Grows s r.0) (take_append_response s i node req resp)
  unfolding take_append_response
  take_append_response-Grows s i node req resp =
      Ensures-branch _ (ltb_ℤ s.current_term resp.term) _ _
        (λ higher.
          let up : s.current_term ≤ℤ resp.term = ground arith in
          Ensures-pure _ _ (update_current_term-Grows s resp.term (negsuc 0) up))
        λ _.
          Ensures-branch _ (flag resp.success) _ _ (λ _. entries_taken s i node req.entry)
            λ _.
              Ensures-bind (Keeps s) _ _ _ (degrade_node-Keeps s i node req resp)
                λ t k. Ensures-pure _ _ (Grows-keep s s t (Grows-refl s) k)

  pub process_append_entries_response-Grows :
      (s : Server L) (reply : AppendReply)
      → Ensures (λ (r : Server L × Bool). Grows s r.0) (process_append_entries_response s reply)
  unfolding process_append_entries_response
  process_append_entries_response-Grows s reply =
      Ensures-branch _ reply.detached _ _ (λ _. Ensures-pure _ _ (Grows-refl s))
        λ _. Ensures-or_abort _ (get_elem? s.nodes reply.node) _ λ old _.
          Ensures-bind (λ (r : Server L × Bool). Grows s r.0) _ _ _
            (Ensures-branch _ _ _ _
              (λ _.
                Ensures-mono _ _ _ (take_append_response-Grows _ reply.node _ reply.req reply.resp)
                  (λ r g. record { term = g.term; commit = g.commit }))
              (λ _. Ensures-pure _ _ (equal-Grows s _ refl refl)))
            λ r g. Ensures-pure _ _ (record { term = g.term; commit = g.commit })

  pub named_ends :
      (s : Server L)
      → Ensures
          (λ _. Unit {0})
          (branch
            (ltb_ℤ s.leader_id (pos 0))
            (done none)
            (do n ← or_abort (get_elem? s.nodes (pos_part s.leader_id)); done (some n.name)))
  named_ends s =
      Ensures-branch _ _ _ _ (λ _. Ensures-pure _ _ tt)
        (λ _. Ensures-or_abort _ (get_elem? s.nodes _) _ (λ n _. Ensures-pure _ _ tt))

  end_save-Grows :
      (s t : Server L) (p : LogPos) (client : ℕ) (wait : Bool) (response : DataResponse)
      → Grows s t
      → Grows s (end_save t p client wait response).0
  unfolding end_save
  end_save-Grows s t p client true response g = record { term = g.term; commit = g.commit }
  end_save-Grows s t p client false response g = g

  accept_record-Grows :
      (s : Server L) (p : LogPos) (client : ℕ) (wait : Bool) (response : DataResponse)
      → Ensures
          (λ (r : Server L × DataResponse × Bool). Grows s r.0)
          (accept_record s p client wait response)
  unfolding accept_record save_state
  accept_record-Grows s p client wait response =
      Ensures-bind _ _ _ _ (offer_from-Keeps (length s.nodes) 0 _) λ t k.
        Ensures-pure _ _
          (end_save-Grows s t p client wait response (equal-Grows s t k.current_term k.commit_pos))

  pub save-request-Grows :
      (s : Server L) (request : ClientData) (client : ℕ)
      → Ensures (λ (r : Server L × DataResponse × Bool). Grows s r.0) (save s request client)
  unfolding save
  save-request-Grows s request client =
      Ensures-branch _ (is_leader s.role) _ _
        (λ _.
          Ensures-branch _ _ _ _
            (λ _.
              Ensures-mono _ _ _ (accept_record-Grows _ _ client request.wait_to_commit _)
                (λ r g. record { term = g.term; commit = g.commit }))
            (λ _. Ensures-pure _ _ (equal-Grows s _ refl refl)))
        λ _.
          Ensures-bind (λ _. Unit {0}) _ _ _ (named_ends s)
            (λ name _. Ensures-pure _ _ (Grows-refl s))
