-- ===== src/Queue/Flow.antt =====
-- What flows through a queue of sync/producer_consumer_queue.h, over any interleaving of calls.
use whisperlib.Prelude.{
  ◌≡◌, refl, sym, ap, ◌∙◌, subst, inl, inr, Bool, true, false, Bool-cases, Option, none, some, List,
  [], ◌∷◌, ◌++◌,
}
use mathlib.Core.List.{append-nil, append_assoc}
use whisperlib.Queue.Calls.{
  Queue, no_room, push, put_at, put, offer_at, poll, get, drain, get_all, clear,
}

-- A step of some thread.
pub data Step (C : Type 0) : Type 0 where
  put_step : C → Step C
  put_at_step : C → (at_back : Bool) → Step C
  offer_step : C → (at_back : Bool) → Step C
  get_step poll_step get_all_step clear_step : Step C

-- The queue after a step, what the step put in, and what it took out. A step that has to wait leaves
-- the queue as it is.
pub record Passed (C : Type 0) : Type 0 where
  pub queue : Queue C
  pub entered : List C
  pub left : List C

module _ {C : Type 0} where
  abbrev pub passed_put : Queue C → C → Option (Queue C) → Passed C
  passed_put q p none = record { queue = q; entered = []; left = [] }
  passed_put q p (some q') = record { queue = q'; entered = p ∷ []; left = [] }

  abbrev pub passed_offer : C → Queue C × Bool → Passed C
  passed_offer p (q, true) = record { queue = q; entered = p ∷ []; left = [] }
  passed_offer p (q, false) = record { queue = q; entered = []; left = [] }

  abbrev pub passed_poll : Queue C × Option C → Passed C
  passed_poll (q, none) = record { queue = q; entered = []; left = [] }
  passed_poll (q, some p) = record { queue = q; entered = []; left = p ∷ [] }

  abbrev pub passed_get : Queue C → Option (Queue C × C) → Passed C
  passed_get q none = record { queue = q; entered = []; left = [] }
  passed_get q (some r) = record { queue = r.0; entered = []; left = r.1 ∷ [] }

  unfoldable pub step : Queue C → Step C → Passed C
  step q (put_step p) = passed_put q p (put q p)
  step q (put_at_step p at_back) = passed_put q p (put_at q p at_back)
  step q (offer_step p at_back) = passed_offer p (offer_at q p at_back)
  step q get_step = passed_get q (get q)
  step q poll_step = passed_poll (poll q)
  step q get_all_step = let r = get_all q [] in record { queue = r.0; entered = []; left = r.1 }
  step q clear_step = record { queue = clear q; entered = []; left = q.data_ }

  unfoldable pub run : Queue C → List (Step C) → Passed C
  run q [] = record { queue = q; entered = []; left = [] }
  run q (o ∷ os) =
      let now = step q o in
      let later = run now.queue os in
      record {
        queue = later.queue;
        entered = now.entered ++ later.entered;
        left = now.left ++ later.left;
      }

  -- The step puts at the back, if it puts.
  abbrev pub AtBack : Bool → Step C → Type 0
  AtBack fifo (put_step p) = fifo ≡ true
  AtBack fifo (put_at_step p at_back) = at_back ≡ true
  AtBack fifo (offer_step p at_back) = at_back ≡ true
  AtBack fifo get_step = Unit {0}
  AtBack fifo poll_step = Unit {0}
  AtBack fifo get_all_step = Unit {0}
  AtBack fifo clear_step = Unit {0}

  abbrev pub AllAtBack : Bool → List (Step C) → Type 0
  AllAtBack fifo [] = Unit {0}
  AllAtBack fifo (o ∷ os) = AtBack fifo o × AllAtBack fifo os

  drain_lem : (ps out : List C) → drain ps out ≡ out ++ ps
  unfolding drain
  drain_lem [] out = sym (append-nil out)
  drain_lem (p ∷ ps) out = drain_lem ps (out ++ p ∷ []) ∙ append_assoc out (p ∷ []) ps

  push_flow :
      (q : Queue C) (p : C) (at_back : Bool)
      → at_back ≡ true
      → ((push q p at_back).data_ ≡ q.data_ ++ p ∷ [])
        × ((push q p at_back).fifo_policy ≡ q.fifo_policy)
  unfolding push
  push_flow q p true e = (refl, refl)
  push_flow q p false e = cc

  -- One step keeps the order: what was in, and then what it puts, is what it takes, and then what is in.
  abbrev pub InOrder : Queue C → Passed C → Type 0
  InOrder q r =
      (q.data_ ++ r.entered ≡ r.left ++ r.queue.data_) × (r.queue.fifo_policy ≡ q.fifo_policy)

  put_flow :
      (q : Queue C) (p : C) (at_back : Bool)
      → at_back ≡ true
      → InOrder q (passed_put q p (put_at q p at_back))
  unfolding put_at
  put_flow q p at_back e = elim (Bool-cases (no_room q)) [
    | inl h ↦ rw (h) (append-nil q.data_, refl)
    | inr h ↦ rw (h) (sym (push_flow q p at_back e).0, (push_flow q p at_back e).1)
  ]

  offer_flow :
      (q : Queue C) (p : C) (at_back : Bool)
      → at_back ≡ true
      → InOrder q (passed_offer p (offer_at q p at_back))
  unfolding offer_at
  offer_flow q p at_back e = elim (Bool-cases (no_room q)) [
    | inl h ↦ rw (h) (append-nil q.data_, refl)
    | inr h ↦ rw (h) (sym (push_flow q p at_back e).0, (push_flow q p at_back e).1)
  ]

  get_flow : (q : Queue C) (d : List C) → q.data_ ≡ d → InOrder q (passed_get q (get q))
  unfolding get
  get_flow q [] e = rw (e, get) (refl, refl)
  get_flow q (p ∷ ps) e = rw (e, get) (append-nil (p ∷ ps), refl)

  poll_flow : (q : Queue C) (d : List C) → q.data_ ≡ d → InOrder q (passed_poll (poll q))
  unfolding poll
  poll_flow q [] e = rw (e, poll) (sym e, refl)
  poll_flow q (p ∷ ps) e = rw (e, poll) (append-nil (p ∷ ps), refl)

  step_flow : (q : Queue C) (o : Step C) → AtBack q.fifo_policy o → InOrder q (step q o)
  unfolding step put poll get get_all clear
  step_flow q (put_step p) e = put_flow q p q.fifo_policy e
  step_flow q (put_at_step p at_back) e = put_flow q p at_back e
  step_flow q (offer_step p at_back) e = offer_flow q p at_back e
  step_flow q get_step e = get_flow q q.data_ refl
  step_flow q poll_step e = poll_flow q q.data_ refl
  step_flow q get_all_step e = (ap (λ l. l ++ []) (sym (drain_lem q.data_ [])), refl)
  step_flow q clear_step e = (refl, refl)

  -- While every put is at the back, the elements leave the queue in the order in which they entered it,
  -- whichever threads make the calls and whether they block, poll, drain or clear: what was in the
  -- queue, followed by what enters, is what leaves, followed by what is still in the queue.
  pub run-InOrder :
      (q : Queue C) (os : List (Step C))
      → AllAtBack q.fifo_policy os
      → q.data_ ++ (run q os).entered ≡ (run q os).left ++ (run q os).queue.data_
  unfolding run
  run-InOrder q [] a = append-nil q.data_
  run-InOrder q (o ∷ os) a =
      let now = step q o in
      let flow = step_flow q o a.0 in
      let later = run-InOrder now.queue os (subst (λ f. AllAtBack f os) (sym flow.1) a.1) in
      sym (append_assoc q.data_ now.entered (run now.queue os).entered)
      ∙ ap (λ l. l ++ (run now.queue os).entered) flow.0
      ∙ append_assoc now.left now.queue.data_ (run now.queue os).entered
      ∙ ap (λ l. now.left ++ l) later
      ∙ sym (append_assoc now.left (run now.queue os).left (run now.queue os).queue.data_)
