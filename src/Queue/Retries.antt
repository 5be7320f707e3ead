-- ===== src/Queue/Retries.antt =====
-- pkg/queue/queue.go and work.go: `Enqueue` and `Requeue` of one resource, and a worker's retries.
use blipblop.Base.{
  list_beq_iff, ℕ, Text, ◌≡◌, ◌≢◌, refl, sym, ap, ◌∙◌, inl, inr, ◌≤◌, ◌<◌, Bool, true, false, ◌||◌,
  none, some, [], ◌==◌, list_eq, nat_eq, leb, Bool-cases, arith,
}
use blipblop.Dict.{lookup, remove, lookup-insert}
use blipblop.Errs.{ok, err, Result-cases, cancelled_item}
use blipblop.Queue.{
  Item, Heap, Queue, store, supersede, touch, push, enqueue, requeue_checks, ctx_err, retried,
  push_again, requeue, finish_work, count_failed,
}
use blipblop.Queue.Invariant.{
  IsQueue, Keeps, lookup-Ready, or_kept-Keeps, touch_parts, store_self, store-eq, cancel-ok,
  requeue_checks_never_panics,
}

abbrev touched : ℕ → ℕ → Queue → Queue
touched now p q = record q { heap = store p (touch now (q.heap p)) q.heap }

enqueue-ok :
    (now p : ℕ) (q q' : Queue)
    → enqueue now p q ≡ ok q'
    → (q₁ : Queue) × (supersede (lookup (q.heap p).resource_id q.popped) (touched now p q) ≡ ok q₁)
      × (q' ≡ push p q₁)
unfolding enqueue
enqueue-ok now p q q' h =
    elim (Bool-cases ((q.heap p).resource_id == [] || (q.heap p).resource_name == [])) [
      | inl bad ↦ absurd (cc (rw (bad, enqueue) at h))
      | inr named ↦
          elim (Result-cases
            (supersede (lookup (q.heap p).resource_id q.popped) (touched now p q))) [
              | inl (q₁, e) ↦ elim (Bool-cases q.closed) [
                | inl shut ↦ absurd (cc (rw (named, shut, enqueue) at h))
                | inr running ↦ (q₁, e, cc (rw running at (rw (named, e, enqueue) at h)))
              ]
              | inr (inl (x, e)) ↦ elim (Bool-cases q.closed) [
                | inl shut ↦ absurd (cc (rw (named, shut, enqueue) at h))
                | inr running ↦ absurd (cc (rw running at (rw (named, e, enqueue) at h)))
              ]
              | inr (inr e) ↦ elim (Bool-cases q.closed) [
                | inl shut ↦ absurd (cc (rw (named, shut, enqueue) at h))
                | inr running ↦ absurd (cc (rw running at (rw (named, e, enqueue) at h)))
              ]
            ]
    ]

supersede-some :
    (v : ℕ) (q q₁ : Queue)
    → (q.heap v).context ≢ none
    → supersede (some v) q ≡ ok q₁
    → q₁.heap ≡ store v (record (q.heap v) { context = some true }) q.heap
unfolding supersede
supersede-some v q q₁ live h =
    let hp = store v (record (q.heap v) { context = some true }) q.heap in
    let done : ok (record q { heap = hp; popped = remove (hp v).resource_id q.popped }) ≡ ok q₁ =
      rw (cancel-ok v q.heap live) at h in
    let same : record q { heap = hp; popped = remove (hp v).resource_id q.popped } ≡ q₁ = cc done in
    sym (ap (λ (x : Queue). x.heap) same)

heap-push : (p v : ℕ) (q : Queue) → p ≢ v → (push p q).heap v ≡ q.heap v
unfolding push
heap-push p v q other = elim (store-eq p v (record (q.heap p) { context = some false }) q.heap) [
  | inl (e, _) ↦ absurd (other e)
  | inr (_, e) ↦ e
]

lookup-push :
    (p : ℕ) (q : Queue) (k : Text) → (q.heap p).resource_id ≡ k → lookup k (push p q).items ≡ some p
unfolding push
lookup-push p q k e =
    lookup-insert (q.heap p).resource_id k p q.items ∙ rw (e, (list_beq_iff k k).1 refl) refl

superseded :
    (now p v : ℕ) (q q' : Queue)
    → IsQueue q
    → lookup (q.heap p).resource_id q.popped ≡ some v
    → p ≢ v
    → enqueue now p q ≡ ok q'
    → (q'.heap v).context ≡ some true
superseded now p v q q' w held other h =
    let (q₁, s, pushed) = enqueue-ok now p q q' h in
    let t = touched now p q in
    let was : t.heap v ≡ q.heap v = elim (store-eq p v (touch now (q.heap p)) q.heap) [
      | inl (e, _) ↦ absurd (other e)
      | inr (_, e) ↦ e
    ] in
    let live : (t.heap v).context ≢ none = λ n.
      (lookup-Ready q.heap q.popped _ v w.held held).contextual
        (sym (ap (λ (y : Item). y.context) was) ∙ n) in
    let x : Item = record (t.heap v) { context = some true } in
    let heap₁ = supersede-some v t q₁ live (rw held at s) in
    let at_v : q₁.heap v ≡ x = ap (λ (g : Heap). g v) heap₁ ∙ store_self v x t.heap in
    ap (λ (y : Queue). (y.heap v).context) pushed
    ∙ ap (λ (y : Item). y.context) (heap-push p v q₁ other ∙ at_v)

superseding_name :
    (now p v : ℕ) (q q₁ : Queue)
    → IsQueue q
    → lookup (q.heap p).resource_id q.popped ≡ some v
    → p ≢ v
    → supersede (lookup (q.heap p).resource_id q.popped) (touched now p q) ≡ ok q₁
    → (q₁.heap p).resource_id ≡ (q.heap p).resource_id
superseding_name now p v q q₁ w held other s =
    let t = touched now p q in
    let was : t.heap v ≡ q.heap v = elim (store-eq p v (touch now (q.heap p)) q.heap) [
      | inl (e, _) ↦ absurd (other e)
      | inr (_, e) ↦ e
    ] in
    let live : (t.heap v).context ≢ none = λ n.
      (lookup-Ready q.heap q.popped _ v w.held held).contextual
        (sym (ap (λ (y : Item). y.context) was) ∙ n) in
    let x : Item = record (t.heap v) { context = some true } in
    let kept : q₁.heap p ≡ touch now (q.heap p) =
      ap (λ (g : Heap). g p) (supersede-some v t q₁ live (rw held at s))
      ∙ elim (store-eq v p x t.heap) [
        | inl (e, _) ↦ absurd (other (sym e))
        | inr (_, e) ↦ e ∙ store_self p (touch now (q.heap p)) q.heap
      ] in
    ap (λ (y : Item). y.resource_id) kept ∙ (touch_parts now (q.heap p)).0

-- When an item is enqueued while another item with its identifier is popped, Requeue of the popped
-- one fails as cancelled, and the queue has the new one; the queue is well formed.
pub enqueue-requeue :
    (now later p v : ℕ) (parent_done : Bool) (q q' : Queue)
    → IsQueue q
    → lookup (q.heap p).resource_id q.popped ≡ some v
    → p ≢ v
    → enqueue now p q ≡ ok q'
    → (requeue later parent_done (some v) q' ≡ err cancelled_item)
      × (lookup (q.heap p).resource_id q'.items ≡ some p)
unfolding requeue ctx_err push
enqueue-requeue now later p v parent_done q q' w held other h =
    let (q₁, s, pushed) = enqueue-ok now p q q' h in
    let named = superseding_name now p v q q₁ w held other s in
    (
      rw (superseded now p v q q' w held other h),
      ap (λ (y : Queue). lookup (q.heap p).resource_id y.items) pushed
          ∙ lookup-push p q₁ (q.heap p).resource_id named,
    )

-- No item has been retried more than `max` times.
abbrev pub IsBounded : ℕ → Queue → Type 0
IsBounded max q = (p : ℕ) → (q.heap p).retry_count ≤ max

store-IsBounded :
    (max p r : ℕ) (x : Item) (h : Heap)
    → x.retry_count ≤ max
    → (h r).retry_count ≤ max
    → (store p x h r).retry_count ≤ max
store-IsBounded max p r x h fits old = elim (store-eq p r x h) [
  | inl (_, e) ↦ omega (arith, ap (λ (y : Item). y.retry_count) e, fits)
  | inr (_, e) ↦ omega (arith, ap (λ (y : Item). y.retry_count) e, old)
]

requeue-IsBounded :
    (max now p : ℕ) (parent_done : Bool) (q : Queue)
    → (q.heap p).context ≢ none
    → (q.heap p).retry_count < max
    → IsBounded max q
    → Keeps (IsBounded max) (requeue now parent_done (some p) q)
unfolding requeue push_again retried
requeue-IsBounded max now p parent_done q alive more w =
    elim (Result-cases (requeue_checks parent_done p q)) [
      | inl (_, e) ↦
          rw e (λ r. store-IsBounded max p r (retried now (q.heap p)) q.heap (omega arith) (w r))
      | inr (inl (x, e)) ↦ rw e tt
      | inr (inr e) ↦ absurd (requeue_checks_never_panics parent_done p q alive e)
    ]

-- If no item has been retried more than maxRetries times, then so after a worker's work on an item
-- that was enqueued, whatever its outcome, and the work does not panic.
pub finish_work-IsBounded :
    (max now p : ℕ) (failed gave_up parent_done : Bool) (q : Queue)
    → (q.heap p).context ≢ none
    → IsBounded max q
    → Keeps (IsBounded max) (finish_work max now failed gave_up parent_done p q)
unfolding finish_work count_failed
finish_work-IsBounded max now p false gave_up parent_done q alive w = w
finish_work-IsBounded max now p true gave_up parent_done q alive w =
    elim (Bool-cases (leb max (q.heap p).retry_count)) [
      | inl over ↦
          rw (over, cancel-ok p q.heap alive)
            (λ r.
              store-IsBounded max p r (record (q.heap p) { context = some true }) q.heap (w p)
                (w r))
      | inr again ↦ elim (Bool-cases gave_up) [
        | inl up ↦ rw (again, up) w
        | inr on ↦
            rw (again, on)
              (or_kept-Keeps (IsBounded max) (count_failed q) _ w
                (requeue-IsBounded max now p parent_done (count_failed q) alive (ground arith) w))
      ]
    ]
