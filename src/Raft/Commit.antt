-- ===== src/Raft/Commit.antt =====
-- raft/raft_server.cc: the commit position and the clients that wait for it.
pub mod Majority
pub mod Waiters
use whisperlib.Prelude.{
  ℕ, ◌+◌, ◌-◌, ◌/◌, Bool, true, false, if◌then◌else◌, Option, none, some, List, [], ◌∷◌, ◌++◌, map,
  get_elem?, set, length,
}
use whisperlib.Logio.Position.{LogPos, ltb_pos, leb_pos}
use whisperlib.Raft.Proto.{DataResponse}
use whisperlib.Prelude.Outcome.{Outcome, done, abort, starved, ◌>>=◌, check, or_abort, branch}
use whisperlib.Raft.State.{Node, Server, Waiter, is_leader}
use whisperlib.Raft.Persist.{save_state}

-- The position vector, sorted (std::sort with operator<).
unfoldable pub insert_pos : LogPos → List LogPos → List LogPos
insert_pos p [] = p ∷ []
insert_pos p (q ∷ qs) = if ltb_pos q p then q ∷ insert_pos p qs else p ∷ q ∷ qs

unfoldable pub sort_pos : List LogPos → List LogPos
sort_pos [] = []
sort_pos (p ∷ ps) = insert_pos p (sort_pos ps)

-- std::map::insert on the waiters, which are kept by position: a position that is there stays.
unfoldable pub insert_waiter : Waiter → List Waiter → List Waiter
insert_waiter w [] = w ∷ []
insert_waiter w (x ∷ xs) =
    if ltb_pos x.at w.at
    then x ∷ insert_waiter w xs
    else if ltb_pos w.at x.at
    then w ∷ x ∷ xs
    else x ∷ xs

-- The loop of AdvanceWaitersLocked: the answers that it gives, oldest position first, and the waiters
-- that it leaves.
unfoldable pub advance_loop : LogPos → List Waiter → List (ℕ × DataResponse) × List Waiter
advance_loop commit [] = ([], [])
advance_loop commit (w ∷ ws) =
    let rest = advance_loop commit ws in
    if leb_pos w.at commit
    then ((w.client, record (w.response) { was_committed = some true }) ∷ rest.0, rest.1)
    else ([], w ∷ ws)

module _ {L : Type 0} where
  unfoldable pub advance_waiters : Server L → Server L
  advance_waiters s =
      let r = advance_loop s.commit_pos s.commit_waiters in
      record s { answered = s.answered ++ r.0; commit_waiters = r.1 }

  unfoldable pub clear_waiters : Server L → Server L
  clear_waiters s = record s {
    answered = s.answered ++ map (λ w. (w.client, w.response)) s.commit_waiters;
    commit_waiters = [];
  }

  -- The vector `positions`, before it is sorted.
  unfoldable pub match_positions : Server L → List LogPos
  match_positions s = set (map (λ n. n.match_log_pos) s.nodes) s.node_id s.last_log_pos

  -- The result says whether the commit position moved.
  unfoldable pub maybe_advance_commit : Server L → Outcome (Server L × Bool)
  maybe_advance_commit s = do
    _ ← check (is_leader s.role)
    can_commit ←
        or_abort (get_elem? (sort_pos (match_positions s)) ((length (match_positions s) - 1) / 2))
    branch (leb_pos can_commit s.commit_pos) (done (s, false))
        (done (advance_waiters (save_state (record s { commit_pos = can_commit })), true))
