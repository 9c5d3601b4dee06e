-- ===== src/Raft/Leader.antt =====
-- raft/raft_server.cc: what a leader does with the response to Append, and the Save call of clients.
use whisperlib.Prelude.{
  ℕ, zero, suc, Bool, true, false, ◌==◌, ◌&&◌, not, none, some, List, [], ◌∷◌, pos, negsuc, ltb_ℤ,
  get_elem?, set, length, pos_part,
}
use whisperlib.Logio.Position.{
  LogPos, null_pos, first_pos, is_null, eqb_pos, ltb_pos, leb_pos, gtb_pos,
}
use whisperlib.Raft.Proto.{
  DataEntry, AppendEntries, AppendEntriesResponse, ClientData, DataResponse, to_proto,
  pos_from_proto, flag,
}
use whisperlib.Prelude.Outcome.{Outcome, done, ◌>>=◌, check, or_abort, branch, on_value}
use whisperlib.Raft.State.{LogStore, Node, Server, is_leader}
use whisperlib.Raft.Persist.{save_state}
use whisperlib.Raft.Sending.{pull_next, send_entries_to}
use whisperlib.Raft.Election.{update_current_term, erase_id}
use whisperlib.Raft.Commit.{maybe_advance_commit, insert_waiter}
use whisperlib.Raft.Replication.{request_pos}

-- AppendEntriesData, when its response arrives.
pub record AppendReply : Type 0 where
  pub id : ℕ
  pub node : ℕ
  pub detached : Bool
  pub failed : Bool
  pub req : AppendEntries
  pub resp : AppendEntriesResponse

-- The last entry of a request that has one.
unfoldable pub last_entry : DataEntry → List DataEntry → DataEntry
last_entry e [] = e
last_entry e (f ∷ fs) = last_entry f fs

-- The end of the branch of Save that wrote its record: a client that waits is answered later.
unfoldable pub end_save :
    {L : Type 0}
    → Server L
    → (at : LogPos) → (client : ℕ) → (wait : Bool) → DataResponse
    → Server L × DataResponse × Bool
end_save s at client true response = (
  record s {
    commit_waiters =
        insert_waiter (record { at = at; client = client; response = response }) s.commit_waiters;
  },
  response,
  true,
)
end_save s at client false response = (s, response, false)

module _ {L : Type 0} ⦃store : LogStore L⦄ where
  open store use {tell, write_record, flush}

  -- DegradeNodeLocked, after the next position was taken from the request: the entry before is sent.
  unfoldable pub degrade_by_one : Server L → ℕ → Node → Outcome (Server L)
  degrade_by_one s i node = do
    pulled ← pull_next s.log node
    send_entries_to s i
        (record pulled {
          last_log_pos = pos_from_proto pulled.entry.last_log_pos;
          last_log_term = pulled.entry.last_log_term;
          next_log_pos = pos_from_proto pulled.entry.position;
        })
        true 1

  -- DegradeNodeLocked, for a response that has a commit position below the request's.
  unfoldable pub degrade_to : Server L → ℕ → Node → (commit_pos : LogPos) → Outcome (Server L)
  degrade_to s i node commit_pos = do
    pulled ← pull_next s.log (record node { next_log_pos = commit_pos })
    send_entries_to s i
        (record pulled {
          last_log_pos = pos_from_proto pulled.entry.position;
          last_log_term = pulled.entry.term;
          next_log_pos = pulled.reader_at;
        })
        false s.max_entries_size

  -- DegradeNodeLocked
  unfoldable pub degrade_node :
      Server L → ℕ → Node → AppendEntries → AppendEntriesResponse → Outcome (Server L)
  degrade_node s i node req resp =
      let next = request_pos req.last_log_pos in
      branch (is_null next)
        (send_entries_to s i
          (record node { next_log_pos = first_pos; last_log_pos = null_pos; last_log_term = pos 0 })
          false s.max_entries_size)
        (let node' = record node { next_log_pos = next } in
          on_value resp.commit_pos (degrade_by_one s i node') λ p.
            branch (ltb_pos (pos_from_proto p) next) (degrade_to s i node' (pos_from_proto p))
              (degrade_by_one s i node'))

  -- ProcessAppendEntriesResponse, for a request with entries that was taken. `s` has `node` at i.
  unfoldable pub take_match : Server L → ℕ → Node → DataEntry → Outcome (Server L × Bool)
  take_match s i node last = do
    _ ← check (leb_pos node.match_log_pos node.next_log_pos)
    let matched = pos_from_proto last.position
    let node' = record node {
      match_log_pos = matched;
      last_log_pos = matched;
      last_log_term = last.term;
    }
    (s1, moved) ← maybe_advance_commit (record s { nodes = set s.nodes i node' })
    s2 ←
        branch (gtb_pos (tell s1.log) node'.next_log_pos)
          (send_entries_to s1 i node' false s1.max_entries_size) (done s1)
    done (s2, moved)

  -- ProcessAppendEntriesResponse, of a leader whose call did not fail.
  unfoldable pub take_append_response :
      Server L → ℕ → Node → AppendEntries → AppendEntriesResponse → Outcome (Server L × Bool)
  take_append_response s i node req resp =
      branch (ltb_ℤ s.current_term resp.term)
        (done (update_current_term s resp.term (negsuc 0), false))
        (branch (flag resp.success)
          (elim req.entry [ [] ↦ done (s, false) | e ∷ es ↦ take_match s i node (last_entry e es) ])
          (do s' ← degrade_node s i node req resp; done (s', false)))

  -- ProcessAppendEntriesResponse. The result says whether the commit closure is run.
  unfoldable pub process_append_entries_response :
      Server L → AppendReply → Outcome (Server L × Bool)
  process_append_entries_response s reply = branch reply.detached (done (s, false)) (do
    old ← or_abort (get_elem? s.nodes reply.node)
    let node = record old { in_transfer = false }
    let s' = record s { nodes = set s.nodes reply.node node }
    (s1, moved) ←
        branch (not reply.failed && is_leader s'.role)
          (take_append_response s' reply.node node reply.req reply.resp) (done (s', false))
    done (record s1 { pending_appends = erase_id reply.id s1.pending_appends }, moved))

  -- The loop of Save over the node indices from i on, of which `rest` remain.
  unfoldable pub offer_from : (rest i : ℕ) → Server L → Outcome (Server L)
  offer_from zero i s = done s
  offer_from (suc rest) i s = do
    node ← or_abort (get_elem? s.nodes i)
    s' ←
        branch
          (not (i == s.node_id) && not node.in_transfer && eqb_pos node.next_log_pos s.last_log_pos)
          (send_entries_to s i node false s.max_entries_size) (done s)
    offer_from rest (suc i) s'

  -- The branch of Save that wrote its record at `new_last_pos`.
  unfoldable pub accept_record :
      Server L
      → (new_last_pos : LogPos) → (client : ℕ) → (wait : Bool) → DataResponse
      → Outcome (Server L × DataResponse × Bool)
  accept_record s new_last_pos client wait response = do
    s' ←
        offer_from (length s.nodes) 0
          (save_state (record s { last_log_pos = new_last_pos; last_log_term = s.current_term }))
    done (end_save s' new_last_pos client wait response)

  -- Save, by the client `client`: its response, and whether the answer is delayed.
  unfoldable pub save :
      Server L → ClientData → (client : ℕ) → Outcome (Server L × DataResponse × Bool)
  save s request client =
      branch (is_leader s.role)
        (let new_last_pos = tell s.log in
          let entry : DataEntry = record {
            position = to_proto new_last_pos;
            last_log_pos = to_proto s.last_log_pos;
            term = s.current_term;
            last_log_term = s.last_log_term;
            payload = request.payload;
          } in
          let response : DataResponse = record {
            position = some (to_proto new_last_pos);
            term = some s.current_term;
            was_committed = none;
            leader_name = none;
          } in
          let (ok, written) = write_record entry s.log in
          branch ok
            (accept_record (record s { log = flush written }) new_last_pos client
              request.wait_to_commit response)
            (done
              (record s { log = written }, record response { was_committed = some false }, false)))
        (do
          name ←
              branch (ltb_ℤ s.leader_id (pos 0)) (done none)
                (do n ← or_abort (get_elem? s.nodes (pos_part s.leader_id)); done (some n.name))
          done (
            s,
            record { position = none; term = none; was_committed = some false; leader_name = name },
            false,
          ))
