-- ===== src/Queue/Calls.antt =====
-- ProducerConsumerQueue of sync/producer_consumer_queue.h. A call holds the queue's mutex but while it
-- waits, so a call is the steps between its waits; a step that has to wait gives `none`, and runs again
-- on the queue that it finds when it is woken.
use whisperlib.Prelude.{
  ℕ, ◌^◌, ◌%◌, ◌==◌, leb, ltb, Bool, true, false, not, ◌&&◌, if◌then◌else◌, Option, none, some,
  List, [], ◌∷◌, ◌++◌, length, ℤ, pos, sub_ℕ,
}

-- The front of the deque is the head of `data`.
pub record Queue (C : Type 0) : Type 0 where
  pub max_size : ℕ
  pub fifo_policy : Bool
  pub data_ : List C

-- kInfiniteWait
abbrev pub infinite_wait : ℕ
infinite_wait = 4294967295

module _ {C : Type 0} where
  unfoldable pub new_queue : (max_size : ℕ) → (fifo_policy : Bool) → Queue C
  new_queue max_size fifo_policy = record {
    max_size = max_size;
    fifo_policy = fifo_policy;
    data_ = [];
  }

  -- `max_size_ && data_.size() >= max_size_`
  unfoldable pub no_room : Queue C → Bool
  no_room q = not (q.max_size == 0) && leb q.max_size (length q.data_)

  unfoldable pub push : Queue C → C → (at_back : Bool) → Queue C
  push q p true = record q { data_ = q.data_ ++ p ∷ [] }
  push q p false = record q { data_ = p ∷ q.data_ }

  -- PutAt(p, at_back)
  unfoldable pub put_at : Queue C → C → (at_back : Bool) → Option (Queue C)
  put_at q p at_back = if no_room q then none else some (push q p at_back)

  -- Put(p)
  unfoldable pub put : Queue C → C → Option (Queue C)
  put q p = put_at q p q.fifo_policy

  -- PutAt(p, timeout_in_ms, at_back) after the wait: false when there is no room.
  unfoldable pub offer_at : Queue C → C → (at_back : Bool) → Queue C × Bool
  offer_at q p at_back = if no_room q then (q, false) else (push q p at_back, true)

  -- PutAt(p, timeout_in_ms, at_back); `woken` is the queue after the wait, if the call waits.
  unfoldable pub put_at_timed :
      (q woken : Queue C) → C → (timeout_in_ms : ℕ) → (at_back : Bool) → Option (Queue C × Bool)
  put_at_timed q woken p timeout_in_ms at_back =
      if timeout_in_ms == infinite_wait
      then elim (put q p) [ none ↦ none | some q' ↦ some (q', true) ]
      else some (offer_at (if not (timeout_in_ms == 0) && no_room q then woken else q) p at_back)

  -- Put(p, timeout_in_ms)
  unfoldable pub put_timed : (q woken : Queue C) → C → (timeout_in_ms : ℕ) → Option (Queue C × Bool)
  put_timed q woken p timeout_in_ms = put_at_timed q woken p timeout_in_ms q.fifo_policy

  abbrev pub is_empty : List C → Bool
  is_empty [] = true
  is_empty (p ∷ ps) = false

  -- Get(timeout_in_ms) after the wait: `none` stands for the C(NULL) of an empty queue.
  unfoldable pub poll : Queue C → Queue C × Option C
  poll q = elim q.data_ [ [] ↦ (q, none) | p ∷ ps ↦ (record q { data_ = ps }, some p) ]

  -- Get()
  unfoldable pub get : Queue C → Option (Queue C × C)
  get q = elim q.data_ [ [] ↦ none | p ∷ ps ↦ some (record q { data_ = ps }, p) ]

  -- Get(timeout_in_ms)
  unfoldable pub get_timed : (q woken : Queue C) → (timeout_in_ms : ℕ) → Option (Queue C × Option C)
  get_timed q woken timeout_in_ms =
      if timeout_in_ms == infinite_wait
      then elim (get q) [ none ↦ none | some r ↦ some (r.0, some r.1) ]
      else some (poll (if not (timeout_in_ms == 0) && is_empty q.data_ then woken else q))

  -- The loop of GetAll, which moves the elements from the front to the end of `out`.
  unfoldable pub drain : List C → (out : List C) → List C
  drain [] out = out
  drain (p ∷ ps) out = drain ps (out ++ p ∷ [])

  -- GetAll(out)
  unfoldable pub get_all : Queue C → (out : List C) → Queue C × List C
  get_all q out = (record q { data_ = [] }, drain q.data_ out)

  unfoldable pub clear : Queue C → Queue C
  clear q = record q { data_ = [] }

  unfoldable pub is_full : Queue C → Bool
  is_full q = if q.max_size == 0 then false else leb q.max_size (length q.data_)

  -- Size(): the number of elements as an int32.
  unfoldable pub size : Queue C → ℤ
  size q = let n = length q.data_ % 2 ^ 32 in if ltb n (2 ^ 31) then pos n else sub_ℕ n (2 ^ 32)
