-- ===== src/Raft/Durability/Writes.antt =====
-- Append of raft/raft_server.cc over a log whose writes do not fail: the state file is always current.
use whisperlib.Prelude.{
  ℕ, ◌≡◌, refl, Bool, true, false, if◌then◌else◌, Option, some, List, [], ◌∷◌, ℤ, ltb_ℤ, pos, arith,
}
use whisperlib.Logio.Position.{LogPos, null_pos}
use whisperlib.Raft.Proto.{AppendEntries, AppendEntriesResponse, DataEntry, flag, pos_from_proto}
use whisperlib.Raft.State.{LogStore, Server, snapshot}
use whisperlib.Prelude.Outcome.{Ensures, Ensures-bind, Ensures-pure, Ensures-branch}
use whisperlib.Raft.Election.{set_election_elapse_timeout}
use whisperlib.Raft.Replication.{
  append_request_entries, adopt_leader, take_entries, take_list, follow_commit, append,
  write_entries,
}
use whisperlib.Raft.Replication.Truncation.{Truncated, maybe_truncate_lem}
use whisperlib.Raft.Durability.{IsSaved, same_snapshot, Keeps-IsSaved}
use whisperlib.Raft.Durability.Replicas.{follow_commit-IsSaved, adopt_leader-IsSaved}

module _ {L : Type 0} ⦃store : LogStore L⦄
    (writes : (e : DataEntry) (l : L) → (store.write_record e l).0 ≡ true) where
  write_entries_succeed :
      (log : L) (es : List DataEntry) (p : LogPos) (t : ℤ)
      → (r : LogPos × ℤ) × ((write_entries log es p t).1 ≡ some r)
  unfolding write_entries
  write_entries_succeed log [] p t = ((p, t), refl)
  write_entries_succeed log (e ∷ es) p t =
      let (r, h) =
        write_entries_succeed (store.flush (store.write_record e log).1) es (store.tell log)
          e.term in
      (r, ground (arith, writes e log, h))

  append_request_entries_succeed :
      (s : Server L) (es : List DataEntry) → (append_request_entries s es).1 ≡ true
  unfolding append_request_entries
  append_request_entries_succeed s [] = refl
  append_request_entries_succeed s (e ∷ es) =
      ground (arith, (write_entries_succeed s.log (e ∷ es) null_pos (pos 0)).1)

  -- Saved already unless it is to be saved, which only a request that is taken is.
  record Settled (r : Server L × Option Bool × Bool) : Type 0 where
    saved : r.2 ≡ false → IsSaved r.0
    taken : flag r.1 ≡ false → r.2 ≡ false

  take_list-Settled :
      (s : Server L) (t : ℤ) (p : LogPos) (es : List DataEntry) (at_end : Bool)
      → IsSaved s
      → Ensures Settled (take_list s t p es at_end)
  unfolding take_list
  take_list-Settled s t p [] at_end v =
      Ensures-pure _ _ (record { saved = λ _. v; taken = λ _. refl })
  take_list-Settled s t p (e ∷ es) at_end v =
      Ensures-bind (Truncated s) _ _ _ (maybe_truncate_lem s t p) λ r k.
        Ensures-branch _ r.1 _ _
          (λ _.
            Ensures-branch _ _ _ _
              (λ _.
                Ensures-pure _ _ (record { saved = λ e. absurd (cc); taken = λ e. absurd (cc) }))
              (λ failed. absurd (ground (arith, append_request_entries_succeed r.0 (e ∷ es)))))
          (λ refused.
            Ensures-pure _ _ (record {
              saved = λ _. Keeps-IsSaved s r.0 (k.refused refused) v;
              taken = λ _. refl;
            }))

  after_success-IsSaved :
      (s : Server L) (success need_save : Bool) (p : LogPos)
      → (need_save ≡ false → IsSaved s)
      → (success ≡ false → need_save ≡ false)
      → IsSaved (if success then follow_commit s p need_save else (s, false)).0
  after_success-IsSaved s true need_save p v h = follow_commit-IsSaved s p need_save v
  after_success-IsSaved s false need_save p v h = v (h refl)

  pub append-IsSaved_always :
      (s : Server L) (request : AppendEntries) (now : ℕ)
      → IsSaved s
      → Ensures
          (λ (r : Server L × AppendEntriesResponse × Bool). IsSaved r.0)
          (append s request now)
  unfolding append set_election_elapse_timeout take_entries snapshot
  append-IsSaved_always s request now v =
      Ensures-branch _ (ltb_ℤ request.term s.current_term) _ _
        (λ _. Ensures-pure _ _ (same_snapshot s _ refl refl v))
        λ _.
          Ensures-bind Settled _ _ _
            (take_list-Settled (adopt_leader s request) _ _ _ _ (adopt_leader-IsSaved s request v))
            λ r k. Ensures-pure _ _ (
              same_snapshot _ _ refl refl (
                after_success-IsSaved r.0 (flag r.1) r.2 (pos_from_proto request.leader_commit_pos)
                  k.saved k.taken))
