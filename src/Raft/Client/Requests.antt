-- ===== src/Raft/Client/Requests.antt =====
-- The requests of raft/raft_client.cc, from their start to their answer.
use whisperlib.Prelude.{
  ℕ, ◌+◌, ◌≤◌, ◌==◌, ltb, ◌≡◌, refl, sym, ap, ◌∙◌, inl, inr, Bool, true, false, not, get_elem?,
  some, none, Option, if◌then◌else◌, Option-cases, List, [], ◌∷◌, ◌++◌, arith,
}
use whisperlib.Prelude.Outcome.{
  Outcome, done, ◌>>=◌, or_abort, Ensures, Ensures-bind, Ensures-check, Ensures-or_abort,
  Ensures-branch, Ensures-pure, Ensures-mono,
}
use whisperlib.Raft.Client.{
  Client, Request, Task, Reply, start_request, increment_close_count, close_and_restart,
  restart_active, new_client, close, initialize_network, send_data, activate, start, deactivate,
  complete_data, not_written, process_response, restart_loop, restart, close_restart, run_task,
  run_next, delete_client, leader_of, no_request,
}

abbrev one_if : Bool → ℕ
one_if true = 1
one_if false = 0

-- How often a request is active, and how often it was answered.
abbrev pub active_count : ℕ → List Request → ℕ
active_count id [] = 0
active_count id (r ∷ rs) = one_if (r.id == id) + active_count id rs

abbrev pub answer_count : ℕ → List (ℕ × Bool) → ℕ
answer_count id [] = 0
answer_count id ((j, ok) ∷ l) = one_if (j == id) + answer_count id l

-- How often its start is waiting in the selector.
abbrev start_here : ℕ → Task → ℕ
start_here id (start_request j) = one_if (j == id)
start_here id increment_close_count = 0
start_here id close_and_restart = 0
start_here id restart_active = 0

abbrev pub start_count : ℕ → List Task → ℕ
start_count id [] = 0
start_count id (t ∷ ts) = start_here id t + start_count id ts

start_count-append_one :
    (id : ℕ) (ts : List Task) (t : Task)
    → start_count id (ts ++ t ∷ []) ≡ start_count id ts + start_here id t
start_count-append_one id [] t = omega arith
start_count-append_one id (s ∷ ts) t = omega (arith, start_count-append_one id ts t)

abbrev pub total : ℕ → Client → ℕ
total id c = start_count id c.tasks + (active_count id c.active + answer_count id c.completed)

-- Each request that was given is waiting to start, active, or answered: one of the three, and once.
abbrev pub IsOnce : Client → Type 0
IsOnce c = (id : ℕ) → total id c ≡ one_if (ltb id c.next_request)

activate_new :
    (id k j : ℕ) (rs : List Request)
    → active_count id rs ≡ 0
    → active_count j (activate id k rs) ≡ active_count j rs + one_if (id == j)
unfolding activate
activate_new id k j [] h = omega arith
activate_new id k j (r ∷ rs) h = ground (arith, activate_new id k j rs)

activate_old :
    (id k j : ℕ) (rs : List Request)
    → 1 ≤ active_count id rs
    → active_count j (activate id k rs) ≡ active_count j rs
unfolding activate
activate_old id k j [] h = omega (arith, h)
activate_old id k j (r ∷ rs) h = ground (arith, activate_old id k j rs)

-- What the parts of a call leave as they are.
abbrev Same : Client → Client → Type 0
Same c c' =
    (c'.tasks ≡ c.tasks)
    × ((c'.completed ≡ c.completed) × ((c'.next_request ≡ c.next_request) × (c'.active ≡ c.active)))

initialize-Same : (c : Client) → Ensures (Same c) (initialize_network c)
unfolding initialize_network
initialize-Same c = Ensures-check (Same c) (not c.is_open) _ λ e.
    Ensures-branch (Same c) _ _ _
      (λ n.
        Ensures-or_abort (Same c) (get_elem? c.replicas c.next_index) _
          λ server h. Ensures-pure (Same c) _ (refl, (refl, (refl, refl))))
      (λ n. Ensures-pure (Same c) _ (refl, (refl, (refl, refl))))

abbrev Started : Client → ℕ → Client → Type 0
Started c id c' =
    (c'.tasks ≡ c.tasks)
    × ((c'.completed ≡ c.completed)
        × ((c'.next_request ≡ c.next_request) × (c'.active ≡ activate id c.close_count c.active)))

start-Started : (c : Client) (id : ℕ) → Ensures (Started c id) (start c id)
unfolding start
start-Started c id =
    Ensures-bind (Started c id) (Started c id) _ _
      (Ensures-branch (Started c id) c.is_open _ _
        (λ e. Ensures-pure (Started c id) _ (refl, (refl, (refl, refl))))
        (λ e. initialize-Same (record c { active = activate id c.close_count c.active })))
      (λ c' h. Ensures-pure (Started c id) _ h)

-- A start leaves a request that is active where it is.
start_active-IsOnce :
    (c : Client) (id : ℕ)
    → 1 ≤ active_count id c.active
    → Ensures
        (λ c'.
          ((j : ℕ) → total j c' ≡ total j c)
          × (((j : ℕ) → active_count j c'.active ≡ active_count j c.active)
              × (c'.next_request ≡ c.next_request)))
        (start c id)
start_active-IsOnce c id h = Ensures-mono (Started c id) _ (start c id) (start-Started c id) λ c' s.
    let same : (j : ℕ) → active_count j c'.active ≡ active_count j c.active =
      λ j. ap (active_count j) s.1.1.1 ∙ activate_old id c.close_count j c.active h in
    let tasks : (j : ℕ) → start_count j c'.tasks ≡ start_count j c.tasks =
      λ j. ap (start_count j) s.0 in
    let answers : (j : ℕ) → answer_count j c'.completed ≡ answer_count j c.completed =
      λ j. ap (answer_count j) s.1.0 in
    ((λ j. omega (arith, same j, tasks j, answers j)), (same, s.1.1.0))

-- Each request of the list is active.
abbrev AllActive : List Request → Client → Type 0
AllActive [] c = Unit {0}
AllActive (r ∷ rs) c = (1 ≤ active_count r.id c.active) × AllActive rs c

AllActive-mono :
    (rs : List Request) (c c' : Client)
    → ((j : ℕ) → active_count j c'.active ≡ active_count j c.active)
    → AllActive rs c
    → AllActive rs c'
AllActive-mono [] c c' h a = tt
AllActive-mono (r ∷ rs) c c' h a = (omega (arith, h r.id, a.0), AllActive-mono rs c c' h a.1)

abbrev Keeps : Client → Client → Type 0
Keeps c c' = ((j : ℕ) → total j c' ≡ total j c) × (c'.next_request ≡ c.next_request)

restart_loop-Keeps :
    (rs : List Request) (c : Client) → AllActive rs c → Ensures (Keeps c) (restart_loop rs c)
unfolding restart_loop
restart_loop-Keeps [] c a = Ensures-pure (Keeps c) c ((λ j. refl), refl)
restart_loop-Keeps (r ∷ rs) c a =
    Ensures-bind
      (λ c'.
        ((j : ℕ) → total j c' ≡ total j c)
        × (((j : ℕ) → active_count j c'.active ≡ active_count j c.active)
            × (c'.next_request ≡ c.next_request)))
      (Keeps c) _ _
      (Ensures-branch _ (ltb r.closed_at c.close_count) _ _ (λ e. start_active-IsOnce c r.id a.0)
        (λ e. Ensures-pure _ c ((λ j. refl), ((λ j. refl), refl))))
      (λ c1 h.
        Ensures-mono (Keeps c1) (Keeps c) _
          (restart_loop-Keeps rs c1 (AllActive-mono rs c c1 h.1.0 a.1))
          (λ c' k. ((λ j. k.0 j ∙ h.0 j), k.1 ∙ h.1.1)))

self_count : (id : ℕ) → one_if (id == id) ≡ 1
self_count id = ground arith

-- Every request of a part of the active ones is active.
part-AllActive :
    (rs : List Request) (c : Client)
    → ((j : ℕ) → active_count j rs ≤ active_count j c.active)
    → AllActive rs c
part-AllActive [] c h = tt
part-AllActive (x ∷ xs) c h =
    (omega (arith, h x.id, self_count x.id), part-AllActive xs c (λ j. omega (arith, h j)))

restart-Keeps : (c : Client) → Ensures (Keeps c) (restart c)
unfolding restart
restart-Keeps c =
    restart_loop-Keeps c.active (record c { restarting = false; leader_name = [] })
      (part-AllActive c.active (record c { restarting = false; leader_name = [] })
        (λ j. omega arith))

-- A waiting closure that starts no request.
added_task :
    (c : Client) (t : Task) (j : ℕ)
    → start_here j t ≡ 0
    → start_count j (c.tasks ++ t ∷ []) ≡ start_count j c.tasks
added_task c t j h = omega (arith, start_count-append_one j c.tasks t, h)

close-Keeps : (c : Client) → Ensures (Keeps c) (close c)
unfolding close
close-Keeps c =
    Ensures-branch (Keeps c) c.deleting _ _
      (λ e.
        Ensures-check (Keeps c) (no_request c.active) _
          λ n. Ensures-pure (Keeps c) _ ((λ j. refl), refl))
      (λ e.
        Ensures-pure (Keeps c) _
          ((λ j. omega (arith, added_task c increment_close_count j refl)), refl))

close_restart-Keeps : (c : Client) → Ensures (Keeps c) (close_restart c)
unfolding close_restart
close_restart-Keeps c = Ensures-bind (Keeps c) (Keeps c) (close c) _ (close-Keeps c) λ c' h.
    Ensures-pure (Keeps c) _ ((λ j. omega (arith, h.0 j, added_task c' restart_active j refl)), h.1)

deactivate_count :
    (id j : ℕ) (rs ls : List Request)
    → deactivate id rs ≡ some ls
    → active_count j rs ≡ one_if (id == j) + active_count j ls
unfolding deactivate
deactivate_count id j [] ls e = cc
deactivate_count id j (r ∷ rs) ls e = elim (Option-cases (deactivate id rs)) [
  | inl n ↦ ground (arith, e, n)
  | inr n ↦ let rest = deactivate_count id j rs n.0 n.1 in ground (arith, e, n.1, rest)
]

complete-Keeps :
    (c : Client) (id : ℕ) (success : Bool) → Ensures (Keeps c) (complete_data c id success)
unfolding complete_data
complete-Keeps c id success = Ensures-or_abort (Keeps c) (deactivate id c.active) _ λ rest e.
    Ensures-pure (Keeps c) _ ((λ j. omega (arith, deactivate_count id j c.active rest e)), refl)

not_written-Keeps : (c : Client) (r : Request) → Ensures (Keeps c) (not_written c r)
unfolding not_written
not_written-Keeps c r =
    Ensures-branch (Keeps c) c.deleting _ _ (λ e. complete-Keeps c r.id false)
      λ e.
        Ensures-branch (Keeps c) _ _ _
          (λ h.
            Ensures-pure (Keeps c) _
              ((λ j. omega (arith, added_task c close_and_restart j refl)), refl))
          (λ h. Ensures-pure (Keeps c) _ ((λ j. refl), refl))

process-Keeps :
    (c : Client) (r : Request) (reply : Reply) → Ensures (Keeps c) (process_response c r reply)
unfolding process_response
process-Keeps c r reply =
    Ensures-branch (Keeps c) _ _ _ (λ h. complete-Keeps c r.id true)
      (λ h. not_written-Keeps (record c { leader_name = leader_of reply }) r)

-- A waiting closure that the selector runs.
start_new-IsOnce :
    (c : Client) (ts : List Task) (id : ℕ)
    → IsOnce c
    → c.tasks ≡ start_request id ∷ ts
    → Ensures IsOnce (start (record c { tasks = ts }) id)
start_new-IsOnce c ts id w e =
    let before : (j : ℕ) → start_count j c.tasks ≡ one_if (id == j) + start_count j ts =
      λ j. ap (start_count j) e in
    let fresh : active_count id c.active ≡ 0 = ground (arith, w id, before id, self_count id) in
    Ensures-mono (Started (record c { tasks = ts }) id) IsOnce _
      (start-Started (record c { tasks = ts }) id)
      λ c' s j.
        let tasks : start_count j c'.tasks ≡ start_count j ts = ap (start_count j) s.0 in
        let answers : answer_count j c'.completed ≡ answer_count j c.completed =
          ap (answer_count j) s.1.0 in
        let given : one_if (ltb j c'.next_request) ≡ one_if (ltb j c.next_request) =
          ap (λ n. one_if (ltb j n)) s.1.1.0 in
        let active = ap (active_count j) s.1.1.1 ∙ activate_new id c.close_count j c.active fresh in
        omega (arith, w j, before j, tasks, answers, given, active)

kept-IsOnce : (c c' : Client) → IsOnce c → Keeps c c' → IsOnce c'
kept-IsOnce c c' w k j = k.0 j ∙ w j ∙ ap (λ n. one_if (ltb j n)) (sym k.1)

abbrev pub find_request : ℕ → List Request → Option Request
find_request id [] = none
find_request id (r ∷ rs) = if r.id == id then some r else find_request id rs

-- What happens to a client: data is given, the selector runs a closure, a call of Save is answered, and
-- the client is deleted. A reply comes with the data of a request that is active: a reply to a call for a
-- request that was answered already, with data that is deleted, ends the sequence without a result.
pub data Event : Type 0 where
  give_data next_task delete : Event
  reply_to : ℕ → Reply → Event

unfoldable pub on_event : Event → Client → Outcome Client
on_event give_data c = done (send_data c)
on_event next_task c = run_next c
on_event delete c = delete_client c
on_event (reply_to id reply) c = do
  request ← or_abort (find_request id c.active)
  process_response c request reply

unfoldable pub run : List Event → Client → Outcome Client
run [] c = done c
run (e ∷ es) c = on_event e c >>= λ c'. run es c'

task-IsOnce : (c : Client) (l : List Task) → IsOnce c → c.tasks ≡ l → Ensures IsOnce (run_next c)
unfolding run_next run_task
task-IsOnce c [] w e = rw (e, run_next) (Ensures-pure IsOnce c w)
task-IsOnce c (start_request id ∷ ts) w e = rw (e, run_next) (start_new-IsOnce c ts id w e)
task-IsOnce c (increment_close_count ∷ ts) w e =
    rw (e, run_next)
      (Ensures-pure IsOnce _ λ j. let tasks = ap (start_count j) e in omega (arith, w j, tasks))
task-IsOnce c (close_and_restart ∷ ts) w e =
    rw (e, run_next)
      (Ensures-mono (Keeps (record c { tasks = ts })) IsOnce _
        (close_restart-Keeps (record c { tasks = ts }))
        λ c' k.
          kept-IsOnce (record c { tasks = ts }) c'
            (λ j. let tasks = ap (start_count j) e in omega (arith, w j, tasks)) k)
task-IsOnce c (restart_active ∷ ts) w e =
    rw (e, run_next)
      (Ensures-mono (Keeps (record c { tasks = ts })) IsOnce _
        (restart-Keeps (record c { tasks = ts }))
        λ c' k.
          kept-IsOnce (record c { tasks = ts }) c'
            (λ j. let tasks = ap (start_count j) e in omega (arith, w j, tasks)) k)

give-IsOnce : (c : Client) → IsOnce c → IsOnce (send_data c)
unfolding send_data
give-IsOnce c w j =
    let more = start_count-append_one j c.tasks (start_request c.next_request) in
    let old = w j in ground (arith, old, more)

event-IsOnce : (e : Event) (c : Client) → IsOnce c → Ensures IsOnce (on_event e c)
unfolding on_event delete_client
event-IsOnce give_data c w = Ensures-pure IsOnce _ (give-IsOnce c w)
event-IsOnce next_task c w = task-IsOnce c c.tasks w refl
event-IsOnce delete c w =
    Ensures-mono (Keeps c) IsOnce _ (close-Keeps (record c { deleting = true }))
      (λ c' k. kept-IsOnce c c' w k)
event-IsOnce (reply_to id reply) c w =
    Ensures-or_abort IsOnce (find_request id c.active) _ λ r e.
      Ensures-mono (Keeps c) IsOnce _ (process-Keeps c r reply) (λ c' k. kept-IsOnce c c' w k)

run_events : (es : List Event) (c : Client) → IsOnce c → Ensures IsOnce (run es c)
unfolding run
run_events [] c w = Ensures-pure IsOnce c w
run_events (e ∷ es) c w =
    Ensures-bind IsOnce IsOnce (on_event e c) _ (event-IsOnce e c w) λ c' h. run_events es c' h

-- From a new client on, whatever data is given, closures are run and calls are answered, as long as no
-- reply comes for a request that was answered already (which the client does not rule out, and which would
-- use deleted data) and no CHECK fails: each request is waiting to start, active, or answered, and only one
-- of these, so that none is lost and none is answered that was not given.
pub run-IsOnce :
    (replicas : List (List ℕ)) (es : List Event) → Ensures IsOnce (run es (new_client replicas))
unfolding new_client
run-IsOnce replicas es = run_events es (new_client replicas) (λ j. ground arith)
