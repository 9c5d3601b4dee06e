-- ===== src/Raft/Replication/Truncation.antt =====
-- MaybeTrucateLogAfterLocked of raft/raft_server.cc: what it leaves alone.
use whisperlib.Prelude.{◌≡◌, Bool, true, false, ℤ, get_elem?, length-set, arith}
use whisperlib.Logio.Position.{LogPos}
use whisperlib.Raft.Proto.{DataEntry}
use whisperlib.Raft.State.{LogStore, Node, Server}
use whisperlib.Prelude.Outcome.{
  Ensures, Ensures-or_abort, Ensures-pure, Ensures-branch, Ensures-on_value,
}
use whisperlib.Raft.Persist.{save_state}
use whisperlib.Raft.Sending.Frame.{Keeps, Keeps-refl, Keeps-nodes}
use whisperlib.Raft.Replication.{own_reader, truncate_after, maybe_truncate_log_after}

-- A truncation changes the nodes, the last position, the log and the state file at most; one that is
-- refused changes the nodes alone.
pub record Truncated {L : Type 0} (s : Server L) (r : Server L × Bool) : Type 0 where
  pub current_term : r.0.current_term ≡ s.current_term
  pub commit_pos : r.0.commit_pos ≡ s.commit_pos
  pub role : r.0.role ≡ s.role
  pub refused : r.1 ≡ false → Keeps s r.0

module _ {L : Type 0} ⦃store : LogStore L⦄ where
  open store use {tell, seek, read}

  own_reader-Keeps :
      (s : Server L) (me : Node) (e : DataEntry) (at : LogPos) → Keeps s (own_reader s me e at)
  unfolding own_reader
  own_reader-Keeps s me e at = Keeps-nodes s _ (length-set s.nodes s.node_id _)

  truncate_after-Truncated :
      (s t : Server L) (p at : LogPos) → Keeps s t → Truncated s (truncate_after t p at)
  unfolding truncate_after save_state
  truncate_after-Truncated s t p at k = record {
    current_term = ground arith;
    commit_pos = ground arith;
    role = ground arith;
    refused = λ h. ground arith;
  }

  refused-Truncated : (s t : Server L) → Keeps s t → Truncated s (t, false)
  refused-Truncated s t k = record {
    current_term = k.current_term;
    commit_pos = k.commit_pos;
    role = k.role;
    refused = λ _. k;
  }

  pub maybe_truncate_lem :
      (s : Server L) (t : ℤ) (p : LogPos) → Ensures (Truncated s) (maybe_truncate_log_after s t p)
  unfolding maybe_truncate_log_after
  maybe_truncate_lem s t p =
      Ensures-branch _ _ _ _ (λ _. Ensures-pure _ _ (refused-Truncated s s (Keeps-refl s)))
        λ _. Ensures-or_abort _ (get_elem? s.nodes s.node_id) _ λ me _.
          Ensures-on_value _ (seek s.log p) _ _
            (λ _. Ensures-pure _ _ (refused-Truncated s s (Keeps-refl s)))
            λ at _.
              Ensures-branch _ _ _ _
                (λ _.
                  Ensures-on_value _ (read s.log at) _ _
                    (λ _. Ensures-pure _ _ (refused-Truncated s s (Keeps-refl s)))
                    λ r _.
                      let k = own_reader-Keeps s me r.0 r.1 in
                      Ensures-branch _ _ _ _
                        (λ _. Ensures-pure _ _ (truncate_after-Truncated s _ p r.1 k))
                        (λ _. Ensures-pure _ _ (refused-Truncated s _ k)))
                λ _.
                  let k = own_reader-Keeps s me me.entry at in
                  Ensures-branch _ _ _ _
                    (λ _. Ensures-pure _ _ (record {
                      current_term = k.current_term;
                      commit_pos = k.commit_pos;
                      role = k.role;
                      refused = λ e. absurd (true_ne_false e);
                    }))
                    (λ _. Ensures-pure _ _ (truncate_after-Truncated s _ p at k))
    where
      true_ne_false : true ≡ false → ⊥
      true_ne_false e = cc
