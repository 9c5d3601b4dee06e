-- ===== src/Raft/Client/Tests.antt =====
-- A concrete client for raft/raft_client.cc.
use whisperlib.Prelude.{ℕ, true, false, none, some, List, [], ◌∷◌}
use whisperlib.Prelude.Outcome.{Ensures}
use whisperlib.Raft.Client.{Reply, new_client}
use whisperlib.Raft.Client.Requests.{
  Event, give_data, next_task, delete, reply_to, run, IsOnce, run-IsOnce,
}

abbrev servers : List (List ℕ)
servers = (97 ∷ []) ∷ (98 ∷ []) ∷ []

-- The first server names the second as the leader.
abbrev redirect : Reply
redirect = record { failed = false; has_pos = false; leader_name = some (98 ∷ []) }

abbrev written : Reply
written = record { failed = false; has_pos = true; leader_name = none }

abbrev events : List Event
events =
    give_data
    ∷ next_task
    ∷ give_data
    ∷ reply_to 0 redirect
    ∷ next_task
    ∷ next_task
    ∷ next_task
    ∷ next_task
    ∷ reply_to 1 written
    ∷ reply_to 0 written
    ∷ delete
    ∷ []

run-IsOnce_example : Ensures IsOnce (run events (new_client servers))
run-IsOnce_example = run-IsOnce servers events
