-- ===== src/Queue/Tests.antt =====
-- Concrete queues for sync/producer_consumer_queue.h.
use whisperlib.Prelude.{
  ℕ, ◌≤◌, ◌≡◌, refl, ◌⊎◌, true, false, some, List, [], ◌∷◌, ◌++◌, length, arith,
}
use whisperlib.Queue.Calls.{Queue, new_queue, put, get, is_full}
use whisperlib.Queue.Flow.{
  Step, put_step, put_at_step, offer_step, get_step, poll_step, get_all_step, run, run-InOrder,
}
use whisperlib.Queue.Bounds.{run-bound, put-get}

abbrev fifo : Queue ℕ
fifo = record { max_size = 2; fifo_policy = true; data_ = 8 ∷ [] }

abbrev stack : Queue ℕ
stack = record { max_size = 2; fifo_policy = false; data_ = 8 ∷ [] }

abbrev program : List (Step ℕ)
program =
    put_step 1
    ∷ offer_step 2 true
    ∷ get_step
    ∷ put_at_step 3 true
    ∷ poll_step
    ∷ get_all_step
    ∷ put_step 4
    ∷ []

run-InOrder_example :
    (8 ∷ []) ++ (run fifo program).entered
    ≡ (run fifo program).left ++ (run fifo program).queue.data_
run-InOrder_example = run-InOrder fifo program (refl, (refl, (tt, (refl, (tt, (tt, (refl, tt)))))))

run-bound_example : length (run (new_queue 2 false) program).queue.data_ ≤ 2
run-bound_example = run-bound 2 false program (omega arith)

put-get_example :
    (is_full stack ≡ true)
    ⊎ ((q' : Queue ℕ) × ((put stack 1 ≡ some q') × (get q' ≡ some (stack, 1))))
put-get_example = put-get stack 1 refl
