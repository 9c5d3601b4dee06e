-- ===== src/Raft/Client.antt =====
-- Client of raft/raft_client.{h,cc}: the client that saves data through the leader. It runs in the loop
-- of its selector, whose waiting closures are `tasks`, in order. A request is a number, given in order.
pub mod Requests
mod Tests
use whisperlib.Prelude.{
  ℕ, zero, suc, ◌+◌, ◌%◌, ◌==◌, ltb, Bool, true, false, not, ◌&&◌, if◌then◌else◌, Option, none,
  some, List, [], ◌∷◌, ◌++◌, length, get_elem?,
}
use whisperlib.Prelude.Outcome.{Outcome, done, abort, starved, ◌>>=◌, check, or_abort, branch}

pub data Task : Type 0 where
  start_request : ℕ → Task
  increment_close_count close_and_restart restart_active : Task

-- A request that is active, with its close_count_.
pub record Request : Type 0 where
  pub id : ℕ
  pub closed_at : ℕ

-- `is_open` says whether stub_ (with client_ and client_net_) is set. `sent` has the calls of Save with
-- the server that each went to, `completed` the requests with the argument of their commit callback.
pub record Client : Type 0 where
  pub replicas : List (List ℕ)
  pub next_index : ℕ
  pub leader_name : List ℕ
  pub crt_server : List ℕ
  pub is_open : Bool
  pub close_count : ℕ
  pub deleting : Bool
  pub restarting : Bool
  pub active : List Request
  pub tasks : List Task
  pub sent : List (ℕ × List ℕ)
  pub completed : List (ℕ × Bool)
  pub next_request : ℕ

-- The reply to Save: whether the call failed, and the fields of the response that are read.
pub record Reply : Type 0 where
  pub failed : Bool
  pub has_pos : Bool
  pub leader_name : Option (List ℕ)

unfoldable pub new_client : (replicas : List (List ℕ)) → Client
new_client replicas = record {
  replicas = replicas;
  next_index = 0;
  leader_name = [];
  crt_server = [];
  is_open = false;
  close_count = 0;
  deleting = false;
  restarting = false;
  active = [];
  tasks = [];
  sent = [];
  completed = [];
  next_request = 0;
}

abbrev pub no_request : List Request → Bool
no_request [] = true
no_request (r ∷ rs) = false

-- Close
unfoldable pub close : Client → Outcome Client
close c =
    let c' = record c { is_open = false } in
    branch c.deleting (do _ ← check (no_request c.active); done c')
      (done (record c' { tasks = c.tasks ++ increment_close_count ∷ [] }))

-- ~Client
unfoldable pub delete_client : Client → Outcome Client
delete_client c = close (record c { deleting = true })

abbrev pub no_name : List ℕ → Bool
no_name [] = true
no_name (x ∷ xs) = false

-- InitializeNetwork
unfoldable pub initialize_network : Client → Outcome Client
initialize_network c = do
  _ ← check (not c.is_open)
  branch (no_name c.leader_name)
      (do
        server ← or_abort (get_elem? c.replicas c.next_index)
        done (record c {
          crt_server = server;
          next_index = (c.next_index + 1) % length c.replicas;
          is_open = true;
        }))
      (done (record c { crt_server = c.leader_name; is_open = true }))

-- SendData
unfoldable pub send_data : Client → Client
send_data c = record c {
  tasks = c.tasks ++ start_request c.next_request ∷ [];
  next_request = suc c.next_request;
}

-- The active requests with `id`, and its close_count_ set.
unfoldable pub activate : (id closed_at : ℕ) → List Request → List Request
activate id closed_at [] = record { id = id; closed_at = closed_at } ∷ []
activate id closed_at (r ∷ rs) =
    let rest = activate id closed_at rs in
    if r.id == id then record r { closed_at = closed_at } ∷ rs else r ∷ rest

-- StartRequest
unfoldable pub start : Client → ℕ → Outcome Client
start c id = do
  let c1 = record c { active = activate id c.close_count c.active }
  c2 ← branch c1.is_open (done c1) (initialize_network c1)
  done (record c2 { sent = (id, c2.crt_server) ∷ c2.sent })

-- active_requests_.erase(data), if it is there.
unfoldable pub deactivate : ℕ → List Request → Option (List Request)
deactivate id [] = none
deactivate id (r ∷ rs) =
    let rest = deactivate id rs in
    if r.id == id then some rs else elim rest [ none ↦ none | some l ↦ some (r ∷ l) ]

-- CompleteData
unfoldable pub complete_data : Client → ℕ → (success : Bool) → Outcome Client
complete_data c id success = do
  let c1 = record c { completed = (id, success) ∷ c.completed }
  rest ← or_abort (deactivate id c1.active)
  done (record c1 { active = rest })

-- The leader that a reply leaves.
abbrev pub leader_of : Reply → List ℕ
leader_of r = if r.failed then [] else elim (r.leader_name) [ none ↦ [] | some n ↦ n ]

-- ProcessResponse, after a call that did not write the data.
unfoldable pub not_written : Client → Request → Outcome Client
not_written c request = branch c.deleting (complete_data c request.id false) (
    branch (c.close_count == request.closed_at && not c.restarting)
      (done (record c { restarting = true; tasks = c.tasks ++ close_and_restart ∷ [] })) (done c))

-- ProcessResponse, with what its `data` points to. It makes no test that this is an active request.
unfoldable pub process_response : Client → (data_ : Request) → Reply → Outcome Client
process_response c data_ reply =
    branch (not reply.failed && reply.has_pos) (complete_data c data_.id true)
      (not_written (record c { leader_name = leader_of reply }) data_)

-- The loop of RestartActive.
unfoldable pub restart_loop : List Request → Client → Outcome Client
restart_loop [] c = done c
restart_loop (r ∷ rs) c = do
  c' ← branch (ltb r.closed_at c.close_count) (start c r.id) (done c)
  restart_loop rs c'

-- RestartActive
unfoldable pub restart : Client → Outcome Client
restart c = restart_loop c.active (record c { restarting = false; leader_name = [] })

-- CloseAndRestart
unfoldable pub close_restart : Client → Outcome Client
close_restart c = do c' ← close c; done (record c' { tasks = c'.tasks ++ restart_active ∷ [] })

-- The selector runs a closure.
unfoldable pub run_task : Task → Client → Outcome Client
run_task (start_request id) c = start c id
run_task increment_close_count c = done (record c { close_count = suc c.close_count })
run_task close_and_restart c = close_restart c
run_task restart_active c = restart c

-- The selector runs its first closure.
unfoldable pub run_next : Client → Outcome Client
run_next c = elim c.tasks [ [] ↦ done c | t ∷ ts ↦ run_task t (record c { tasks = ts }) ]
