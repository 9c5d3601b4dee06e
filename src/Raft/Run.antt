-- ===== src/Raft/Run.antt =====
-- A server of raft/raft_server.cc under any sequence of calls: the requests of its peers and clients,
-- the responses to its own calls, and its alarm.
use whisperlib.Prelude.{ℕ, ◌≡◌, true, List, [], ◌∷◌}
use whisperlib.Raft.Proto.{RequestVote, AppendEntries, ClientData, DataEntry}
use whisperlib.Prelude.Outcome.{
  Outcome, done, ◌>>=◌, Ensures, Ensures-bind, Ensures-pure, Ensures-mono,
}
use whisperlib.Raft.State.{LogStore, Server}
use whisperlib.Raft.Election.{VoteReply, vote, process_request_vote_response, periodic_check}
use whisperlib.Raft.Replication.{append}
use whisperlib.Raft.Leader.{AppendReply, process_append_entries_response, save}
use whisperlib.Raft.Growth.{
  Grows, Grows-refl, Grows-trans, vote-Grows, process_request_vote_response-Grows,
  periodic_check-Grows,
}
use whisperlib.Raft.Growth.Replicas.{append-Grows}
use whisperlib.Raft.Growth.Leading.{process_append_entries_response-Grows, save-request-Grows}
use whisperlib.Raft.Durability.{
  IsSaved, vote-IsSaved, process_request_vote_response-IsSaved, periodic_check-IsSaved,
}
use whisperlib.Raft.Durability.Replicas.{
  process_append_entries_response-IsSaved, save-request-IsSaved,
}
use whisperlib.Raft.Durability.Writes.{append-IsSaved_always}

pub data Event : Type 0 where
  vote_asked : RequestVote → Event
  vote_answered : VoteReply → (now : ℕ) → Event
  append_asked : AppendEntries → (now : ℕ) → Event
  append_answered : AppendReply → Event
  save_asked : ClientData → (client : ℕ) → Event
  alarm : (now : ℕ) → Event

module _ {L : Type 0} ⦃store : LogStore L⦄ where
  unfoldable pub step : Server L → Event → Outcome (Server L)
  step s (vote_asked request) = done (vote s request).0
  step s (vote_answered reply now) = process_request_vote_response s reply now
  step s (append_asked request now) = do r ← append s request now; done r.0
  step s (append_answered reply) = do r ← process_append_entries_response s reply; done r.0
  step s (save_asked request client) = do r ← save s request client; done r.0
  step s (alarm now) = do r ← periodic_check s now; done r.0

  unfoldable pub run : Server L → List Event → Outcome (Server L)
  run s [] = done s
  run s (e ∷ es) = step s e >>= λ t. run t es

  pub step-Grows : (s : Server L) (e : Event) → Ensures (Grows s) (step s e)
  unfolding step
  step-Grows s (vote_asked request) = Ensures-pure _ _ (vote-Grows s request)
  step-Grows s (vote_answered reply now) = process_request_vote_response-Grows s reply now
  step-Grows s (append_asked request now) =
      Ensures-bind _ _ _ _ (append-Grows s request now) (λ r g. Ensures-pure _ _ g)
  step-Grows s (append_answered reply) =
      Ensures-bind _ _ _ _ (process_append_entries_response-Grows s reply)
        (λ r g. Ensures-pure _ _ g)
  step-Grows s (save_asked request client) =
      Ensures-bind _ _ _ _ (save-request-Grows s request client) (λ r g. Ensures-pure _ _ g)
  step-Grows s (alarm now) =
      Ensures-bind _ _ _ _ (periodic_check-Grows s now) (λ r g. Ensures-pure _ _ g)

  -- Whatever a server is asked, no loop runs out of fuel, and when it is done neither its term nor its
  -- commit position is below where it began.
  pub run-Grows : (s : Server L) (es : List Event) → Ensures (Grows s) (run s es)
  unfolding run
  run-Grows s [] = Ensures-pure _ _ (Grows-refl s)
  run-Grows s (e ∷ es) =
      Ensures-bind (Grows s) _ _ _ (step-Grows s e)
        λ t g. Ensures-mono _ _ _ (run-Grows t es) (λ u h. Grows-trans s t u g h)

module _ {L : Type 0} ⦃store : LogStore L⦄
    (writes : (e : DataEntry) (l : L) → (store.write_record e l).0 ≡ true) where
  step-IsSaved : (s : Server L) (e : Event) → IsSaved s → Ensures IsSaved (step s e)
  unfolding step
  step-IsSaved s (vote_asked request) v = Ensures-pure _ _ (vote-IsSaved s request v)
  step-IsSaved s (vote_answered reply now) v = process_request_vote_response-IsSaved s reply now v
  step-IsSaved s (append_asked request now) v =
      Ensures-bind _ _ _ _ (append-IsSaved_always writes s request now v)
        (λ r g. Ensures-pure _ _ g)
  step-IsSaved s (append_answered reply) v =
      Ensures-bind _ _ _ _ (process_append_entries_response-IsSaved s reply v)
        (λ r g. Ensures-pure _ _ g)
  step-IsSaved s (save_asked request client) v =
      Ensures-bind _ _ _ _ (save-request-IsSaved s request client v) (λ r g. Ensures-pure _ _ g)
  step-IsSaved s (alarm now) v =
      Ensures-bind _ _ _ _ (periodic_check-IsSaved s now v) (λ r g. Ensures-pure _ _ g)

  -- Over a log whose writes do not fail: if the state file of a server holds its persistent state, then
  -- after any sequence of calls it holds the persistent state of then, and no loop ran out of fuel.
  pub run-IsSaved : (s : Server L) (es : List Event) → IsSaved s → Ensures IsSaved (run s es)
  unfolding run
  run-IsSaved s [] v = Ensures-pure _ _ v
  run-IsSaved s (e ∷ es) v =
      Ensures-bind IsSaved _ _ _ (step-IsSaved s e v) (λ t w. run-IsSaved t es w)
