-- ===== src/Queue/Bounds.antt =====
-- The bound of a queue of sync/producer_consumer_queue.h, and the order of a queue that is a stack.
use whisperlib.Prelude.{
  ℕ, suc, ◌≤◌, ◌≡◌, refl, ap, ◌∙◌, ◌⊎◌, inl, inr, Bool, true, false, Bool-cases, some, List, [],
  ◌∷◌, length, length-append, arith,
}
use whisperlib.Queue.Calls.{
  Queue, new_queue, no_room, push, put_at, put, offer_at, poll, get, get_all, clear, is_full,
}
use whisperlib.Queue.Flow.{
  Step, put_step, put_at_step, offer_step, get_step, poll_step, get_all_step, clear_step, step, run,
  passed_put, passed_offer, passed_get, passed_poll,
}

module _ {C : Type 0} where
  -- A maximum of 0 is no bound.
  abbrev pub IsWithin : (max_size : ℕ) → Queue C → Type 0
  IsWithin max_size q = (q.max_size ≡ max_size) × ((max_size ≡ 0) ⊎ (length q.data_ ≤ max_size))

  length-push :
      (q : Queue C) (p : C) (at_back : Bool)
      → (length (push q p at_back).data_ ≡ suc (length q.data_))
        × ((push q p at_back).max_size ≡ q.max_size)
  unfolding push
  length-push q p true = (omega (arith, length-append q.data_ (p ∷ [])), refl)
  length-push q p false = (refl, refl)

  push-IsWithin :
      (m : ℕ) (q : Queue C) (p : C) (at_back : Bool)
      → IsWithin m q
      → no_room q ≡ false
      → IsWithin m (push q p at_back)
  unfolding no_room
  push-IsWithin m q p at_back w h =
      let l = length-push q p at_back in (l.1 ∙ w.0, ground (arith, l.0, w.0, h))

  put_at-IsWithin :
      (m : ℕ) (q : Queue C) (p : C) (at_back : Bool)
      → IsWithin m q
      → IsWithin m (passed_put q p (put_at q p at_back)).queue
  unfolding put_at
  put_at-IsWithin m q p at_back w = elim (Bool-cases (no_room q)) [
    | inl h ↦ rw (h) w
    | inr h ↦ rw (h) (push-IsWithin m q p at_back w h)
  ]

  offer_at-IsWithin :
      (m : ℕ) (q : Queue C) (p : C) (at_back : Bool)
      → IsWithin m q
      → IsWithin m (passed_offer p (offer_at q p at_back)).queue
  unfolding offer_at
  offer_at-IsWithin m q p at_back w = elim (Bool-cases (no_room q)) [
    | inl h ↦ rw (h) w
    | inr h ↦ rw (h) (push-IsWithin m q p at_back w h)
  ]

  get-IsWithin :
      (m : ℕ) (q : Queue C) (d : List C)
      → IsWithin m q
      → q.data_ ≡ d
      → IsWithin m (passed_get q (get q)).queue
  unfolding get
  get-IsWithin m q [] w e = rw (e, get) (w.0, inr (omega arith))
  get-IsWithin m q (p ∷ ps) w e =
      let l = ap (λ x. length x) e in rw (e, get) (w.0, ground (arith, l, w.1))

  poll-IsWithin :
      (m : ℕ) (q : Queue C) (d : List C)
      → IsWithin m q
      → q.data_ ≡ d
      → IsWithin m (passed_poll (poll q)).queue
  unfolding poll
  poll-IsWithin m q [] w e = rw (e, poll) w
  poll-IsWithin m q (p ∷ ps) w e =
      let l = ap (λ x. length x) e in rw (e, poll) (w.0, ground (arith, l, w.1))

  step-IsWithin : (m : ℕ) (q : Queue C) (o : Step C) → IsWithin m q → IsWithin m (step q o).queue
  unfolding step put poll get get_all clear
  step-IsWithin m q (put_step p) w = put_at-IsWithin m q p q.fifo_policy w
  step-IsWithin m q (put_at_step p at_back) w = put_at-IsWithin m q p at_back w
  step-IsWithin m q (offer_step p at_back) w = offer_at-IsWithin m q p at_back w
  step-IsWithin m q get_step w = get-IsWithin m q q.data_ w refl
  step-IsWithin m q poll_step w = poll-IsWithin m q q.data_ w refl
  step-IsWithin m q get_all_step w = (w.0, inr (omega arith))
  step-IsWithin m q clear_step w = (w.0, inr (omega arith))

  run_steps :
      (m : ℕ) (q : Queue C) (os : List (Step C)) → IsWithin m q → IsWithin m (run q os).queue
  unfolding run
  run_steps m q [] w = w
  run_steps m q (o ∷ os) w = run_steps m (step q o).queue os (step-IsWithin m q o w)

  -- A queue with a maximum that is not 0 never holds more elements than that, whatever steps the
  -- threads take from its creation on.
  pub run-bound :
      (max_size : ℕ) (fifo_policy : Bool) (os : List (Step C))
      → 1 ≤ max_size
      → length (run (new_queue max_size fifo_policy) os).queue.data_ ≤ max_size
  unfolding new_queue
  run-bound max_size fifo_policy os h =
      let w = run_steps max_size (new_queue max_size fifo_policy) os (refl, inr (omega arith)) in
      ground (arith, h, w.1)

  full_lem : (q : Queue C) → is_full q ≡ no_room q
  unfolding is_full no_room
  full_lem q = ground arith

  -- A queue made with fifo_policy false is a stack: if Put does not have to wait, the element is the
  -- next that Get gives, and Get leaves the queue as it was before; only where the queue is full does
  -- Put have to wait.
  pub put-get :
      (q : Queue C) (p : C)
      → q.fifo_policy ≡ false
      → (is_full q ≡ true) ⊎ ((q' : Queue C) × ((put q p ≡ some q') × (get q' ≡ some (q, p))))
  unfolding put put_at push get
  put-get q p e = elim (Bool-cases (no_room q)) [
    | inl h ↦ inl (full_lem q ∙ h)
    | inr h ↦ inr (record q { data_ = p ∷ q.data_ }, (rw (h, e) refl, refl))
  ]
