-- ===== src/Raft/Replication.antt =====
-- raft/raft_server.cc: Append and its response.
pub mod Truncation
use whisperlib.Prelude.{
  ℕ, zero, suc, ◌+◌, ◌-◌, Bool, true, false, if◌then◌else◌, ltb, leb, ◌==◌, ◌&&◌, ◌||◌, not, Option,
  none, some, List, [], ◌∷◌, ◌++◌, map, ℤ, pos, negsuc, ◌+ℤ◌, ltb_ℤ, eqb_ℤ, get_elem?, set, length,
}
use whisperlib.Logio.Position.{
  LogPos, null_pos, first_pos, is_null, eqb_pos, ltb_pos, leb_pos, gtb_pos,
}
use whisperlib.Raft.Proto.{
  PosProto, DataEntry, AppendEntries, AppendEntriesResponse, to_proto, pos_from_proto, flag,
}
use whisperlib.Prelude.Outcome.{
  Outcome, done, abort, starved, ◌>>=◌, check, or_abort, branch, on_value,
}
use whisperlib.Raft.State.{LogStore, Node, Server, Role, is_leader, is_candidate}
use whisperlib.Raft.Persist.{save_state}
use whisperlib.Raft.Sending.{pull_next, send_entries_to}
use whisperlib.Raft.Election.{
  become_follower, update_current_term, set_election_elapse_timeout, erase_id,
}
use whisperlib.Raft.Commit.{maybe_advance_commit}

module _ {L : Type 0} ⦃store : LogStore L⦄ where
  open store use {tell, write_record, flush, truncate_at, seek, read}

  -- The end of MaybeTrucateLogAfterLocked, with the reader after the previous entry at `at`.
  unfoldable pub truncate_after : Server L → (prev_pos at : LogPos) → Server L × Bool
  truncate_after s prev_pos at =
      if gtb_pos (tell s.log) at
      then if ltb_pos at s.commit_pos then (s, false) else (
        let saved = save_state (record s { last_log_pos = prev_pos }) in
            record saved { log = truncate_at at saved.log },
        true,
      )
      else (record s { last_log_pos = prev_pos }, true)

  -- The own reader has moved to `at`, and the own node holds the entry `e`.
  unfoldable pub own_reader : Server L → (me : Node) → (e : DataEntry) → (at : LogPos) → Server L
  own_reader s me e at = record s {
    nodes = set s.nodes s.node_id (record me { entry = e; reader_at = at });
  }

  -- MaybeTrucateLogAfterLocked
  unfoldable pub maybe_truncate_log_after :
      Server L → (prev_term : ℤ) → (prev_pos : LogPos) → Outcome (Server L × Bool)
  maybe_truncate_log_after s prev_term prev_pos =
      let writer_pos = tell s.log in
      let is_first_pos = eqb_pos writer_pos prev_pos && eqb_pos writer_pos first_pos in
      branch (leb_pos writer_pos prev_pos && not is_first_pos) (done (s, false)) (do
        me ← or_abort (get_elem? s.nodes s.node_id)
        on_value (seek s.log prev_pos) (done (s, false)) λ at.
            branch (not (is_null prev_pos) && not is_first_pos)
              (on_value (read s.log at) (done (s, false)) λ r.
                let s' = own_reader s me r.0 r.1 in
                branch (eqb_ℤ r.0.term prev_term) (done (truncate_after s' prev_pos r.1))
                  (done (s', false)))
              (let s' = own_reader s me me.entry at in
                branch (is_null writer_pos || eqb_pos writer_pos first_pos)
                  (done (record s' { last_log_pos = prev_pos }, true))
                  (done (truncate_after s' prev_pos at))))

  -- The loop of AppendRequestEntriesLocked: the log, and the position and term of the last entry, or
  -- nothing if a write failed.
  unfoldable pub write_entries : L → List DataEntry → LogPos → ℤ → L × Option (LogPos × ℤ)
  write_entries log [] last term = (log, some (last, term))
  write_entries log (e ∷ es) last term =
      let (ok, written) = write_record e log in
      let rest = write_entries (flush written) es (tell log) e.term in
      if ok then rest else (written, none)

  -- AppendRequestEntriesLocked. The initial `prev_pos` and `prev_term` are replaced by the first entry.
  unfoldable pub append_request_entries : Server L → List DataEntry → Server L × Bool
  append_request_entries s [] = (s, true)
  append_request_entries s (e ∷ es) =
      let (log, last) = write_entries s.log (e ∷ es) null_pos (pos 0) in
      elim last [
        | none ↦ (record s { log = truncate_at (tell s.log) log }, false)
        | some (p, t) ↦ (record s { log = log; last_log_pos = p; last_log_term = t }, true)
      ]

  -- The first part of Append: the term and the leader of the request.
  unfoldable pub adopt_leader : Server L → AppendEntries → Server L
  adopt_leader s request =
      if eqb_ℤ request.term s.current_term
      then (if is_candidate s.role
          then become_follower s request.leader_id
          else if not (eqb_ℤ s.leader_id request.leader_id)
          then save_state (record s { leader_id = request.leader_id })
          else s)
      else update_current_term s request.term request.leader_id

abbrev pub request_pos : Option PosProto → LogPos
request_pos none = null_pos
request_pos (some p) = pos_from_proto p

module _ {L : Type 0} ⦃store : LogStore L⦄ where
  open store use {tell}

  -- The second part for a list of entries; `at_end` tells that the request goes on from our last entry.
  unfoldable pub take_list :
      Server L
      → (prev_term : ℤ) → (prev_pos : LogPos) → List DataEntry
      → (at_end : Bool) → Outcome (Server L × Option Bool × Bool)
  take_list s prev_term prev_pos [] at_end = done (s, if at_end then some true else none, false)
  take_list s prev_term prev_pos (e ∷ es) at_end = do
    (s1, truncated) ← maybe_truncate_log_after s prev_term prev_pos
    let (s2, written) = append_request_entries s1 (e ∷ es)
    branch truncated (branch written (done (s2, some true, true)) (done (s2, none, false)))
        (done (s1, none, false))

  -- The second part: the entries. It gives `success` if that was set, and `need_save`.
  unfoldable pub take_entries : Server L → AppendEntries → Outcome (Server L × Option Bool × Bool)
  take_entries s request =
      let last = request_pos request.last_log_pos in
      take_list s request.last_log_term last request.entry
        (eqb_pos s.last_log_pos last && eqb_ℤ s.last_log_term request.last_log_term)

  -- The third part: the commit position of the leader. The result says whether ours moved.
  unfoldable pub follow_commit :
      Server L → (new_commit_pos : LogPos) → (need_save : Bool) → Server L × Bool
  follow_commit s new_commit_pos need_save =
      if gtb_pos new_commit_pos s.commit_pos && leb_pos new_commit_pos s.last_log_pos
      then (save_state (record s { commit_pos = new_commit_pos }), true)
      else (if need_save then save_state s else s, false)

  -- Append: the response, and whether the commit closure is run.
  unfoldable pub append :
      Server L → AppendEntries → (now : ℕ) → Outcome (Server L × AppendEntriesResponse × Bool)
  append s request now =
      branch (ltb_ℤ request.term s.current_term)
        (let s' = set_election_elapse_timeout s now in
          done (
            s',
            record {
              term = s'.current_term;
              success = some false;
              current_pos = none;
              commit_pos = none;
            },
            false,
          ))
        (do
          (s2, success, need_save) ← take_entries (adopt_leader s request) request
          let (s3, moved) =
              if flag success
              then follow_commit s2 (pos_from_proto request.leader_commit_pos) need_save
              else (s2, false)
          let s4 = set_election_elapse_timeout s3 now
          done (
            s4,
            record {
              term = s3.current_term;
              success = some (flag success);
              current_pos = some (to_proto (tell s3.log));
              commit_pos = some (to_proto s3.commit_pos);
            },
            moved,
          ))
