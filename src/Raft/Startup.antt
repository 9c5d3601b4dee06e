-- ===== src/Raft/Startup.antt =====
-- raft/raft_server.cc: the constructor of Server, and Initialize. The registrations with the HTTP
-- server and the first alarm are outside the model.
use whisperlib.Prelude.{
  ℕ, ◌^◌, ap, lt→ltb, ◌<◌, ◌≡◌, refl, Bool, true, false, List, [], ◌∷◌, map, ℤ, pos, negsuc, ◌≤ℤ◌,
  ltb, length,
}
use whisperlib.Logio.Position.{null_pos}
use whisperlib.Raft.Proto.{DataEntry, to_proto}
use whisperlib.Prelude.Outcome.{Outcome, done, ◌>>=◌, check, branch}
use whisperlib.Raft.State.{LogStore, Node, Server, Role, StateFile}
use whisperlib.Raft.Persist.{load_state, save_state, restore}
use whisperlib.Raft.Persist.RoundTrip.{IsCanonical, load_state-save_state}
use whisperlib.Raft.Election.{set_election_elapse_timeout}

-- The constructor, on a log and a state file. It does not set candidate_votes_out_, which has the value
-- that the memory held.
unfoldable pub new_server : {L : Type 0} → L → StateFile → (candidate_votes_out : ℤ) → Server L
new_server log file candidate_votes_out = record {
  node_id = 0;
  nodes = [];
  current_term = pos 0;
  voted_for = negsuc 0;
  last_log_pos = null_pos;
  last_log_term = pos 0;
  leader_id = negsuc 0;
  role = Role.follower;
  commit_pos = null_pos;
  election_timeout_elapsed_ns = 0;
  heartbeat_elapsed_ns = 0;
  election_timeout_ms = 2000;
  commit_waiters = [];
  candidate_votes_out = candidate_votes_out;
  max_entries_size = 2 ^ 20;
  pending_appends = [];
  pending_votes = [];
  log = log;
  state_file = file;
  next_id = 0;
  sent = [];
  answered = [];
}

-- The entry of a node that has read nothing.
abbrev pub no_entry : DataEntry
no_entry = record {
  position = to_proto null_pos;
  last_log_pos = to_proto null_pos;
  term = pos 0;
  last_log_term = pos 0;
  payload = [];
}

-- The constructor of Node.
unfoldable pub new_node : (name : List ℕ) → Node
new_node name = record {
  name = name;
  votes_for_me = false;
  next_log_pos = null_pos;
  last_log_pos = null_pos;
  last_log_term = pos 0;
  match_log_pos = null_pos;
  reader_at = null_pos;
  entry = no_entry;
  in_transfer = false;
}

names_lem : (names : List (List ℕ)) → map (λ n. n.name) (map new_node names) ≡ names
unfolding new_node
names_lem [] = refl
names_lem (x ∷ xs) = ap (◌∷◌ x) (names_lem xs)

is_empty {ℓ} : {A : Type ℓ} → List A → Bool
is_empty [] = true
is_empty (x ∷ xs) = false

module _ {L : Type 0} ⦃store : LogStore L⦄ where
  unfoldable pub initialize :
      Server L → (node_id : ℕ) → (names : List (List ℕ)) → (now : ℕ) → Outcome (Server L × Bool)
  unfolding is_empty
  initialize s node_id names now = do
    _ ← check (is_empty s.nodes)
    _ ← check (ltb node_id (length names))
    let (loaded, s') = load_state s
    branch loaded
        (done (
          set_election_elapse_timeout (record s' { node_id = node_id; nodes = map new_node names })
              now,
          true,
        ))
        (done (s', false))

  -- A server that is made and initialised as one of the named nodes, on the state file of another
  -- server, starts as a follower of those nodes with the persistent state of that one, if the positions of
  -- the latter are canonical (a null one is LogPos()) and its vote is -1 or an id that is not negative: a
  -- vote below -1 is not saved.
  pub initialize-save_state :
      (s : Server L) (log : L) (votes : ℤ) (node_id : ℕ) (names : List (List ℕ)) (now : ℕ)
      → IsCanonical s.last_log_pos
      → IsCanonical s.commit_pos
      → negsuc 0 ≤ℤ s.voted_for
      → node_id < length names
      → (t : Server L) × (initialize
            (new_server log (save_state s).state_file votes)
            node_id
            names
            now
          ≡ done (t, true))
        × (t.role ≡ Role.follower)
        × (t.node_id ≡ node_id)
        × (map (λ n. n.name) t.nodes ≡ names)
        × (t.current_term ≡ s.current_term)
        × (t.voted_for ≡ s.voted_for)
        × (t.last_log_pos ≡ s.last_log_pos)
        × (t.last_log_term ≡ s.last_log_term)
        × (t.commit_pos ≡ s.commit_pos)
  unfolding initialize new_server load_state save_state set_election_elapse_timeout branch restore
  initialize-save_state s log votes node_id names now p c v h =
      let fresh = new_server log (save_state s).state_file votes in
      let (loaded, term, vote, last, last_term, commit) = load_state-save_state s fresh p c v in
      (
        set_election_elapse_timeout
            (record (load_state fresh).1 { node_id = node_id; nodes = map new_node names }) now,
        rw (lt→ltb _ _ h),
        refl,
        refl,
        names_lem names,
        term,
        vote,
        last,
        last_term,
        commit,
      )
