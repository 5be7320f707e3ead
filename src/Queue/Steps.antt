-- ===== src/Queue/Steps.antt =====
-- pkg/queue/queue.go and work.go: a queue from its start, with calls of its clients and workers in
-- any order. A call that fails changes nothing, so that it is no step.
use blipblop.Base.{ℕ, Text, ◌≡◌, Bool, false, some, List, [], ◌∷◌, Any}
use blipblop.Errs.{ok}
use blipblop.Queue.{Heap, Queue, enqueue, done, dequeue, requeue, close, finish_work}

-- `NewTaskQueue`; the heap has the items that clients will enqueue, with whatever is in them.
abbrev pub new_queue : Heap → Queue
new_queue h = record {
  items = [];
  popped = [];
  heap = h;
  closed = false;
  metrics = record {
    current_depth = 0;
    items_enqueued = 0;
    items_dequeued = 0;
    items_processed = 0;
    items_failed = 0;
    total_retries = 0;
  };
}

-- The queue, and the items that workers took from it up to now.
pub record Run : Type 0 where
  pub queue : Queue
  pub taken : List ℕ

abbrev pub run_of : Queue → List ℕ → Run
run_of q ts = record { queue = q; taken = ts }

-- Workers requeue and finish items that they took; they may do so at any time later.
pub data Step : Run → Run → Type 0 where
  enqueues :
      {q q' : Queue} {ts : List ℕ}
      → (now p : ℕ) → enqueue now p q ≡ ok q'
      → Step (run_of q ts) (run_of q' ts)
  dequeues :
      {q q' : Queue} {ts : List ℕ}
      → (choice p : ℕ) → dequeue choice q ≡ some (ok (p, q'))
      → Step (run_of q ts) (run_of q' (p ∷ ts))
  ends :
      {q q' : Queue} {ts : List ℕ}
      → (uid : Text) → done uid q ≡ ok q'
      → Step (run_of q ts) (run_of q' ts)
  requeues :
      {q q' : Queue} {ts : List ℕ}
      → (now p : ℕ) (parent_done : Bool) → Any (λ t. t ≡ p) ts
      → requeue now parent_done (some p) q ≡ ok q'
      → Step (run_of q ts) (run_of q' ts)
  finishes :
      {q q' : Queue} {ts : List ℕ}
      → (max now p : ℕ) (failed gave_up parent_done : Bool) → Any (λ t. t ≡ p) ts
      → finish_work max now failed gave_up parent_done p q ≡ ok q'
      → Step (run_of q ts) (run_of q' ts)
  closes : {q q' : Queue} {ts : List ℕ} → close q ≡ ok q' → Step (run_of q ts) (run_of q' ts)

pub data Steps : Run → Run → Type 0 where
  still : {r : Run} → Steps r r
  then_step : {r s t : Run} → Steps r s → Step s t → Steps r t
