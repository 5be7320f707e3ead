-- ===== src/Examples/Queueing.antt =====
-- A task that is updated while a worker has it.
use blipblop.Base.{
  inl, ℕ, ◌≡◌, ◌≢◌, All, Option, refl, true, false, some, [], ◌∷◌, codes, arith, list_eq, nat_eq,
  list_beq,
}
use blipblop.Dict.{lookup}
use blipblop.Errs.{Result, ok, err, panic, cancelled_item}
use blipblop.Queue.{Item, Queue, Metrics, enqueue, done, dequeue, requeue, close, finish_work}
use blipblop.Queue.Steps.{new_queue, run_of, Steps, still, then_step, enqueues, dequeues, finishes}
use blipblop.Queue.Running.{Steps-IsSafe}
use blipblop.Queue.Invariant.{IsQueue, Keeps}
use blipblop.Queue.Retries.{enqueue-requeue, IsBounded, finish_work-IsBounded}
use blipblop.Examples.Setting.{task_id}

abbrev item : Item
item = record {
  resource_name = codes "web";
  resource_id = task_id;
  enqueued_at = some 1;
  retry_count = 0;
  context = some false;
}

abbrev zeros : Metrics
zeros = record {
  current_depth = 0;
  items_enqueued = 0;
  items_dequeued = 0;
  items_processed = 0;
  items_failed = 0;
  total_retries = 0;
}

-- The worker has item 1.
abbrev taken : Queue
taken = record {
  items = [];
  popped = (task_id, 1) ∷ [];
  heap = λ p. item;
  closed = false;
  metrics = zeros;
}

abbrev queue_of : Result Queue → Queue
queue_of (ok q) = q
queue_of (err e) = taken
queue_of panic = taken

taken-IsQueue : IsQueue taken
taken-IsQueue = record { queued = tt; held = (record { named = refl; contextual = λ n. cc n }, tt) }

held_here : lookup task_id taken.popped ≡ some 1
unfolding list_beq
held_here = refl

newer_enqueued : enqueue 5 2 taken ≡ ok (queue_of (enqueue 5 2 taken))
unfolding enqueue list_beq
newer_enqueued = refl

enqueue-requeue_example :
    (requeue 9 false (some 1) (queue_of (enqueue 5 2 taken)) ≡ err cancelled_item)
    × (lookup task_id (queue_of (enqueue 5 2 taken)).items ≡ some 2)
enqueue-requeue_example =
    enqueue-requeue 5 9 2 1 false taken (queue_of (enqueue 5 2 taken)) taken-IsQueue held_here
      (λ e. omega (arith, e)) newer_enqueued

finish_work-IsBounded_example : Keeps (IsBounded 100) (finish_work 100 9 true false false 1 taken)
finish_work-IsBounded_example =
    finish_work-IsBounded 100 9 1 true false false taken (λ n. cc n) (λ p. omega arith)

-- Item 1 is enqueued, a worker takes it, its handler fails and the item waits again.
abbrev waiting : Queue
waiting = queue_of (enqueue 5 1 (new_queue (λ p. item)))

abbrev at_work : Queue
at_work = taken_of (dequeue 0 waiting)
  where
    taken_of : Option (Result (ℕ × Queue)) → Queue
    taken_of (some (ok (p, q))) = q
    taken_of o = taken

abbrev again : Queue
again = queue_of (finish_work 100 9 true false false 1 at_work)

enqueued_so : enqueue 5 1 (new_queue (λ p. item)) ≡ ok waiting
unfolding enqueue list_beq
enqueued_so = refl

taken_so : dequeue 0 waiting ≡ some (ok (1, at_work))
unfolding enqueue dequeue list_beq
taken_so = refl

requeued_so : finish_work 100 9 true false false 1 at_work ≡ ok again
unfolding enqueue dequeue finish_work requeue list_beq
requeued_so = refl

calls : Steps (run_of (new_queue (λ p. item)) []) (run_of again (1 ∷ []))
calls =
    then_step (then_step (then_step still (enqueues 5 1 enqueued_so)) (dequeues 0 1 taken_so))
      (finishes 100 9 1 true false false (inl refl) requeued_so)

Steps-IsSafe_example :
    IsQueue again
    × (enqueue 12 2 again ≢ panic)
    × (done task_id again ≢ panic)
    × (close again ≢ panic)
    × All
        (λ t.
          (requeue 12 false (some t) again ≢ panic)
          × (finish_work 100 12 true false false t again ≢ panic))
        (1 ∷ [])
Steps-IsSafe_example =
    Steps-IsSafe (λ p. item) (run_of again (1 ∷ [])) 100 12 2 task_id true false false calls
