-- ===== src/Raft/Commit/Waiters.antt =====
-- The clients that wait for a commit of raft/raft_server.cc.
use whisperlib.Prelude.{
  ℕ, ◌≡◌, refl, ap, true, false, if◌then◌else◌, some, List, [], ◌∷◌, ◌++◌, arith,
}
use whisperlib.Logio.Position.{LogPos, leb_pos, ltb_pos}
use whisperlib.Logio.Position.Order.{leb_pos_trans, ltb_pos_trans, leb_of_ltb}
use whisperlib.Raft.Proto.{DataResponse}
use whisperlib.Raft.State.{Server, Waiter}
use whisperlib.Raft.Commit.{advance_loop, advance_waiters}

-- Every waiter is above p.
abbrev pub AllAbove : LogPos → List Waiter → Type 0
AllAbove p [] = Unit {0}
AllAbove p (w ∷ ws) = (ltb_pos p w.at ≡ true) × AllAbove p ws

-- The positions of the waiters rise strictly: the order of a std::map.
abbrev pub IsRising : List Waiter → Type 0
IsRising [] = Unit {0}
IsRising (w ∷ ws) = AllAbove w.at ws × IsRising ws

AllAbove-mono :
    (p q : LogPos) (ws : List Waiter) → ltb_pos p q ≡ true → AllAbove q ws → AllAbove p ws
AllAbove-mono p q [] h a = tt
AllAbove-mono p q (w ∷ ws) h a = (ltb_pos_trans p q w.at h a.0, AllAbove-mono p q ws h a.1)

-- The waiters that `advance` keeps, and the answers that it gives.
unfoldable pub waiting : LogPos → List Waiter → List Waiter
waiting commit [] = []
waiting commit (w ∷ ws) = if leb_pos w.at commit then waiting commit ws else w ∷ waiting commit ws

unfoldable pub committed : LogPos → List Waiter → List (ℕ × DataResponse)
committed commit [] = []
committed commit (w ∷ ws) =
    if leb_pos w.at commit
    then (w.client, record (w.response) { was_committed = some true }) ∷ committed commit ws
    else committed commit ws

none_committed :
    (p commit : LogPos) (ws : List Waiter)
    → leb_pos p commit ≡ false
    → AllAbove p ws
    → (committed commit ws ≡ []) × (waiting commit ws ≡ ws)
unfolding committed waiting
none_committed p commit [] h a = (refl, refl)
none_committed p commit (w ∷ ws) h a =
    ground
      (arith, none_committed p commit ws h a.1, leb_pos_trans p w.at commit, leb_of_ltb p w.at a.0)

advance_loop_lem :
    (commit : LogPos) (ws : List Waiter)
    → IsRising ws
    → advance_loop commit ws ≡ (committed commit ws, waiting commit ws)
unfolding advance_loop committed waiting
advance_loop_lem commit [] r = refl
advance_loop_lem commit (w ∷ ws) r =
    ground (arith, advance_loop_lem commit ws r.1, none_committed w.at commit ws)

-- Over waiters in the order of their map, AdvanceWaitersLocked answers exactly those at or below the
-- commit position, by a commit and in their order, and keeps exactly the others.
pub advance_waiters_lem :
    {L : Type 0} (s : Server L)
    → IsRising s.commit_waiters
    → ((advance_waiters s).answered ≡ s.answered ++ committed s.commit_pos s.commit_waiters)
      × ((advance_waiters s).commit_waiters ≡ waiting s.commit_pos s.commit_waiters)
unfolding advance_waiters
advance_waiters_lem s r =
    let e = advance_loop_lem s.commit_pos s.commit_waiters r in
    (ap (λ x. s.answered ++ x.0) e, ap (λ x. x.1) e)
