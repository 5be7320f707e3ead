-- ===== src/Queue.antt =====
-- pkg/queue/queue.go and work.go: the queue of resources to work on, and a worker's iteration.
-- The mutex makes each call one step. An item is a pointer: the same one can be in `items`, in
-- `popped` and in a worker's hands, so that the structs are in a heap. Loggers are left out, and so
-- is a nil item, which `Enqueue` dereferences.
pub mod Invariant
pub mod Keeping
pub mod Retries
pub mod Running
pub mod Steps
use blipblop.Base.{
  ℕ, Text, ◌≡◌, ◌+◌, ◌%◌, ◌^◌, ◌-◌, Bool, true, false, not, ◌||◌, Option, none, some, List, [], ◌∷◌,
  if◌then◌else◌, ◌==◌, list_eq, nat_eq, leb, length, get_elem?,
}
use blipblop.Dict.{Dict, lookup, insert, remove}
use blipblop.Errs.{
  Err, Result, ok, err, panic, ◌>>=◌, ◌>>◌, guard, empty_resource, queue_closed, queue_closed_empty,
  nil_item, cancelled_item,
}

-- `QueueItem`: `context` is none for a nil context, or else whether its own cancel function was
-- called; `enqueued_at` is none for the zero time. The queue does not read the message or its
-- handler.
pub record Item : Type 0 where
  pub resource_name : Text
  pub resource_id : Text
  pub enqueued_at : Option ℕ
  pub retry_count : ℕ
  pub context : Option Bool

-- The counters are int64, as numbers below 2 ^ 64.
pub record Metrics : Type 0 where
  pub current_depth : ℕ
  pub items_enqueued : ℕ
  pub items_dequeued : ℕ
  pub items_processed : ℕ
  pub items_failed : ℕ
  pub total_retries : ℕ

abbrev pub Heap : Type 0
Heap = ℕ → Item

-- `TaskQueue`
pub record Queue : Type 0 where
  pub items : Dict Text ℕ
  pub popped : Dict Text ℕ
  pub heap : Heap
  pub closed : Bool
  pub metrics : Metrics

abbrev i64_add : ℕ → ℕ → ℕ
i64_add n m = (n + m) % 2 ^ 64

-- `*p = x`
abbrev pub store : ℕ → Item → Heap → Heap
store p x h q = if p == q then x else h q

-- `p.cancel()`: a nil function panics.
pub cancelled : Item → Result Item
cancelled x = elim x.context [ none ↦ panic | some _ ↦ ok (record x { context = some true }) ]

pub cancel : ℕ → Heap → Result Heap
unfolding cancelled
cancel p h = do x ← cancelled (h p); ok (store p x h)

-- what both `Enqueue` and `Requeue` count
pub count_in : Metrics → Metrics
count_in m = record m {
  items_enqueued = i64_add m.items_enqueued 1;
  current_depth = i64_add m.current_depth 1;
}

-- `Enqueue` of an item whose identifier was popped before
pub supersede : Option ℕ → Queue → Result Queue
unfolding cancel
supersede none q = ok q
supersede (some v) q = do
  h ← cancel v q.heap
  ok (record q { heap = h; popped = remove (h v).resource_id q.popped })

pub touch : ℕ → Item → Item
touch now x = elim x.enqueued_at [ none ↦ record x { enqueued_at = some now } | some _ ↦ x ]

-- the end of `Enqueue`
pub push : ℕ → Queue → Queue
unfolding count_in
push p q = record q {
  metrics = count_in q.metrics;
  heap = store p (record (q.heap p) { context = some false }) q.heap;
  items = insert (q.heap p).resource_id p q.items;
}

-- `Enqueue`
unfoldable pub enqueue : ℕ → ℕ → Queue → Result Queue
unfolding supersede touch push
enqueue now p q = do
  let item = q.heap p
  guard (not (item.resource_id == [] || item.resource_name == [])) empty_resource
  guard (not q.closed) queue_closed
  q₁ ←
      supersede (lookup item.resource_id q.popped)
        (record q { heap = store p (touch now item) q.heap })
  ok (push p q₁)

-- `Done`
pub done_found : Text → Option ℕ → Queue → Result Queue
unfolding cancel
done_found uid none q = ok q
done_found uid (some p) q = do
  h ← cancel p q.heap
  ok (record q { heap = h; items = remove uid q.items })

unfoldable pub done : Text → Queue → Result Queue
unfolding done_found
done uid q = done_found uid (lookup uid q.items) q

-- `Pop`: an entry of the map, in an order that Go does not specify, so that `choice` is any number.
pub pop : ℕ → Queue → Option (Text × ℕ)
pop choice q = get_elem? q.items (choice % length q.items)

-- the end of `Dequeue`
pub take : Text × ℕ → Queue → ℕ × Queue
take (k, p) q = (
  p,
  record q {
    items = remove k q.items;
    popped = insert (q.heap p).resource_id p q.popped;
    metrics = record q.metrics {
      items_dequeued = i64_add q.metrics.items_dequeued 1;
      current_depth = i64_add q.metrics.current_depth (2 ^ 64 - 1);
    };
  },
)

-- `Dequeue`: none while it waits.
unfoldable pub dequeue : ℕ → Queue → Option (Result (ℕ × Queue))
unfolding pop take
dequeue choice q =
    if length q.items == 0
    then (if q.closed then some (err queue_closed_empty) else none)
    else some (elim (pop choice q) [ none ↦ err nil_item | some e ↦ ok (take e q) ])

-- `item.ctx.Err()`; `parent_done` is whether the context that `Enqueue` was given is done.
pub ctx_err : Bool → Item → Result (Unit {0})
ctx_err parent_done x = elim x.context [
  | none ↦ panic
  | some was_cancelled ↦ guard (not (was_cancelled || parent_done)) cancelled_item
]

pub retried : ℕ → Item → Item
retried now x = record x { retry_count = x.retry_count + 1; enqueued_at = some now }

-- the end of `Requeue`
pub push_again : ℕ → ℕ → Queue → Queue
unfolding count_in retried
push_again now p q = record q {
  metrics = record (count_in q.metrics) { total_retries = i64_add q.metrics.total_retries 1 };
  heap = store p (retried now (q.heap p)) q.heap;
  items = insert (q.heap p).resource_id p q.items;
}

-- the checks of `Requeue`
pub requeue_checks : Bool → ℕ → Queue → Result (Unit {0})
unfolding ctx_err
requeue_checks parent_done p q = do
  ctx_err parent_done (q.heap p)
  guard (not q.closed) queue_closed

-- `Requeue`; the item is none for nil.
unfoldable pub requeue : ℕ → Bool → Option ℕ → Queue → Result Queue
unfolding requeue_checks push_again
requeue now parent_done none q = err nil_item
requeue now parent_done (some p) q = do requeue_checks parent_done p q; ok (push_again now p q)

pub cancel_all : Dict Text ℕ → Heap → Result Heap
unfolding cancel
cancel_all [] h = ok h
cancel_all ((k, p) ∷ rest) h = do h₁ ← cancel p h; cancel_all rest h₁

-- `Close`
unfoldable pub close : Queue → Result Queue
unfolding cancel_all
close q =
    if q.closed
    then ok q
    else (do h ← cancel_all q.items q.heap; ok (record q { closed = true; heap = h }))

-- What a worker does with the item that it took, after its handler returned: `failed` is whether
-- with an error, and `gave_up` whether the item was cancelled during the backoff. An error of
-- `Requeue` is only logged.
pub or_kept : Queue → Result Queue → Result Queue
or_kept q (ok q') = ok q'
or_kept q (err e) = ok q
or_kept q panic = panic

pub count_failed : Queue → Queue
count_failed q = record q {
  metrics = record q.metrics { items_failed = i64_add q.metrics.items_failed 1 };
}

unfoldable pub finish_work : ℕ → ℕ → Bool → Bool → Bool → ℕ → Queue → Result Queue
unfolding or_kept count_failed cancel
finish_work max_retries now failed gave_up parent_done p q =
    if not failed
    then ok (record q {
      metrics = record q.metrics { items_processed = i64_add q.metrics.items_processed 1 };
    })
    else if leb max_retries (q.heap p).retry_count
    then (do h ← cancel p q.heap; ok (record (count_failed q) { heap = h }))
    else if gave_up
    then ok (count_failed q)
    else or_kept (count_failed q) (requeue now parent_done (some p) (count_failed q))
