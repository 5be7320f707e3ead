-- ===== src/Queue/Keeping.antt =====
-- pkg/queue/queue.go and work.go: each call keeps the queue and the taken items well formed.
use blipblop.Base.{
  ℕ, Text, ◌≡◌, ◌≢◌, refl, sym, ap, ◌∙◌, inl, inr, Bool, true, false, ◌||◌, Option, none, some,
  List, [], ◌∷◌, ◌==◌, list_eq, nat_eq, leb, Bool-cases, Option-cases, All, All-map,
}
use blipblop.Dict.{Dict, lookup, remove, All-remove}
use blipblop.Errs.{ok, Result-cases}
use blipblop.Queue.{
  Item, Heap, Queue, store, supersede, touch, push, enqueue, done, done_found, requeue_checks,
  retried, push_again, requeue, take, cancel_all, close, finish_work, count_failed,
}
use blipblop.Queue.Invariant.{
  Ready, AllReady, IsQueue, Keeps, store-eq, store_self, store-AllReady, insert-AllReady,
  lookup-Ready, cancel-ok, touch_parts, or_kept-Keeps, requeue_checks_never_panics,
}

abbrev pub Alive : Heap → ℕ → Type 0
Alive h p = (h p).context ≢ none

-- The queue is well formed, and every item that a worker took has a context.
pub record IsRun (ts : List ℕ) (q : Queue) : Type 0 where
  pub sound : IsQueue q
  pub worked : All (Alive q.heap) ts

module _ (ts : List ℕ) where
  store-Alive :
      (p : ℕ) (x : Item) (h : Heap)
      → (Alive h p → x.context ≢ none)
      → All (Alive h) ts
      → All (Alive (store p x h)) ts
  store-Alive p x h alive =
      All-map _ _
        (λ r live. elim (store-eq p r x h) [
          | inl (e, s) ↦
              let old : Alive h p = rw e live in
              λ n. alive old (sym (ap (λ (y : Item). y.context) s) ∙ n)
          | inr (_, s) ↦ λ n. live (sym (ap (λ (y : Item). y.context) s) ∙ n)
        ])
        ts

  set_heap :
      (q : Queue) (p : ℕ) (x : Item)
      → x.resource_id ≡ (q.heap p).resource_id
      → (Alive q.heap p → x.context ≢ none)
      → IsRun ts q
      → IsRun ts (record q { heap = store p x q.heap })
  set_heap q p x same alive w = record {
    sound = record {
      queued = store-AllReady p x q.heap q.items same alive w.sound.queued;
      held = store-AllReady p x q.heap q.popped same alive w.sound.held;
    };
    worked = store-Alive p x q.heap alive w.worked;
  }

  set_cancelled :
      (q : Queue) (p : ℕ)
      → IsRun ts q
      → IsRun ts (record q { heap = store p (record (q.heap p) { context = some true }) q.heap })
  set_cancelled q p w = set_heap q p _ refl (λ _ n. cc n) w

  push-IsRun : (p : ℕ) (q : Queue) → IsRun ts q → IsRun ts (push p q)
  unfolding push
  push-IsRun p q w =
      let x : Item = record (q.heap p) { context = some false } in
      let w₁ = set_heap q p x refl (λ _ n. cc n) w in
      record {
        sound = record {
          queued =
              insert-AllReady (store p x q.heap) q.items (q.heap p).resource_id p
                (record {
                  named = ap (λ (y : Item). y.resource_id) (store_self p x q.heap);
                  contextual = λ n. cc (ap (λ (y : Item). y.context) (store_self p x q.heap), n);
                })
                w₁.sound.queued;
          held = w₁.sound.held;
        };
        worked = w₁.worked;
      }

  supersede-ok :
      (q : Queue) (k : Text)
      → IsRun ts q
      → (q₁ : Queue) × (supersede (lookup k q.popped) q ≡ ok q₁) × IsRun ts q₁
  unfolding supersede
  supersede-ok q k w = elim (Option-cases (lookup k q.popped)) [
    | inl e ↦ (q, rw e, w)
    | inr (v, e) ↦
        let h = store v (record (q.heap v) { context = some true }) q.heap in
        let w₁ = set_cancelled q v w in
        (
          record q { heap = h; popped = remove (h v).resource_id q.popped },
          rw (e, cancel-ok v q.heap (lookup-Ready q.heap q.popped k v w.sound.held e).contextual),
          record {
            sound = record {
              queued = w₁.sound.queued;
              held = All-remove _ (h v).resource_id q.popped w₁.sound.held;
            };
            worked = w₁.worked;
          },
        )
  ]

  -- Enqueue of any item does not panic and keeps the queue and the taken items well formed.
  pub enqueue-IsRun : (now p : ℕ) (q : Queue) → IsRun ts q → Keeps (IsRun ts) (enqueue now p q)
  unfolding enqueue
  enqueue-IsRun now p q w =
      elim (Bool-cases ((q.heap p).resource_id == [] || (q.heap p).resource_name == [])) [
        | inl bad ↦ rw bad tt
        | inr named ↦ elim (Bool-cases q.closed) [
          | inl shut ↦ rw (named, shut) tt
          | inr running ↦
              let (same, alive) = touch_parts now (q.heap p) in
              let w₀ =
                set_heap q p (touch now (q.heap p)) same (λ live n. live (sym alive ∙ n)) w in
              let (q₁, e, w₁) =
                supersede-ok (record q { heap = store p (touch now (q.heap p)) q.heap })
                  (q.heap p).resource_id w₀ in
              rw (named, e, running) (push-IsRun p q₁ w₁)
        ]
      ]

  done_found-IsRun :
      (uid : Text) (o : Option ℕ) (q : Queue)
      → o ≡ lookup uid q.items
      → IsRun ts q
      → Keeps (IsRun ts) (done_found uid o q)
  unfolding done_found
  done_found-IsRun uid none q e w = w
  done_found-IsRun uid (some p) q e w =
      let w₁ = set_cancelled q p w in
      rw (cancel-ok p q.heap (lookup-Ready q.heap q.items uid p w.sound.queued (sym e)).contextual)
        (record {
          sound = record {
            queued = All-remove _ uid q.items w₁.sound.queued;
            held = w₁.sound.held;
          };
          worked = w₁.worked;
        })

  -- Done does not panic and keeps both well formed.
  pub done-IsRun : (uid : Text) (q : Queue) → IsRun ts q → Keeps (IsRun ts) (done uid q)
  unfolding done
  done-IsRun uid q w = done_found-IsRun uid (lookup uid q.items) q refl w

  push_again-IsRun :
      (now p : ℕ) (q : Queue) → Alive q.heap p → IsRun ts q → IsRun ts (push_again now p q)
  unfolding push_again retried
  push_again-IsRun now p q alive w =
      let x = retried now (q.heap p) in
      let w₁ = set_heap q p x refl (λ live. live) w in
      record {
        sound = record {
          queued =
              insert-AllReady (store p x q.heap) q.items (q.heap p).resource_id p
                (record {
                  named = ap (λ (y : Item). y.resource_id) (store_self p x q.heap);
                  contextual =
                      λ n. alive (sym (ap (λ (y : Item). y.context) (store_self p x q.heap)) ∙ n);
                })
                w₁.sound.queued;
          held = w₁.sound.held;
        };
        worked = w₁.worked;
      }

  -- Requeue of an item that was enqueued before does not panic and keeps both well formed.
  pub requeue-IsRun :
      (now p : ℕ) (parent_done : Bool) (q : Queue)
      → Alive q.heap p
      → IsRun ts q
      → Keeps (IsRun ts) (requeue now parent_done (some p) q)
  unfolding requeue
  requeue-IsRun now p parent_done q alive w = elim (Result-cases (requeue_checks parent_done p q)) [
    | inl (_, e) ↦ rw e (push_again-IsRun now p q alive w)
    | inr (inl (x, e)) ↦ rw e tt
    | inr (inr e) ↦ absurd (requeue_checks_never_panics parent_done p q alive e)
  ]

  -- Work on an item that was enqueued before does not panic and keeps both well formed.
  pub finish_work-IsRun :
      (max now p : ℕ) (failed gave_up parent_done : Bool) (q : Queue)
      → Alive q.heap p
      → IsRun ts q
      → Keeps (IsRun ts) (finish_work max now failed gave_up parent_done p q)
  unfolding finish_work count_failed
  finish_work-IsRun max now p false gave_up parent_done q alive w = record {
    sound = record { queued = w.sound.queued; held = w.sound.held };
    worked = w.worked;
  }
  finish_work-IsRun max now p true gave_up parent_done q alive w =
      let w₁ : IsRun ts (count_failed q) = record {
        sound = record { queued = w.sound.queued; held = w.sound.held };
        worked = w.worked;
      } in
      elim (Bool-cases (leb max (q.heap p).retry_count)) [
        | inl over ↦ rw (over, cancel-ok p q.heap alive) (set_cancelled (count_failed q) p w₁)
        | inr again ↦ elim (Bool-cases gave_up) [
          | inl up ↦ rw (again, up) w₁
          | inr on ↦
              rw (again, on)
                (or_kept-Keeps (IsRun ts) (count_failed q) _ w₁
                  (requeue-IsRun now p parent_done (count_failed q) alive w₁))
        ]
      ]

  -- What Dequeue takes has a context, and the queue is well formed after it.
  pub take-IsRun :
      (e : Text × ℕ) (q : Queue)
      → Ready q.heap e.0 e.1
      → IsRun ts q
      → IsRun ((take e q).0 ∷ ts) (take e q).1
  unfolding take
  take-IsRun (k, p) q r w = record {
    sound = record {
      queued = All-remove _ k q.items w.sound.queued;
      held =
          insert-AllReady q.heap q.popped (q.heap p).resource_id p
            (record { named = refl; contextual = r.contextual }) w.sound.held;
    };
    worked = (r.contextual, w.worked);
  }

  cancel_all-ok :
      (m : Dict Text ℕ) (q : Queue)
      → AllReady q.heap m
      → IsRun ts q
      → (h : Heap) × (cancel_all m q.heap ≡ ok h) × IsRun ts (record q { heap = h })
  unfolding cancel_all
  cancel_all-ok [] q ready w = (q.heap, refl, w)
  cancel_all-ok ((k, p) ∷ m) q ready w =
      let h = store p (record (q.heap p) { context = some true }) q.heap in
      let (h₁, e, w₁) =
        cancel_all-ok m (record q { heap = h })
          (store-AllReady p _ q.heap m refl (λ _ n. cc n) ready.1) (set_cancelled q p w) in
      (h₁, rw (cancel-ok p q.heap ready.0.contextual, e) refl, w₁)

  -- Close does not panic and keeps the queue and the taken items well formed.
  pub close-IsRun : (q : Queue) → IsRun ts q → Keeps (IsRun ts) (close q)
  unfolding close
  close-IsRun q w = elim (Bool-cases q.closed) [
    | inl shut ↦ rw shut (record {
      sound = record { queued = w.sound.queued; held = w.sound.held };
      worked = w.worked;
    })
    | inr running ↦
        let (h, e, w₁) = cancel_all-ok q.items q w.sound.queued w in
        rw (running, e)
          (record {
            sound = record { queued = w₁.sound.queued; held = w₁.sound.held };
            worked = w₁.worked;
          })
  ]
