-- ===== src/Queue/Running.antt =====
-- pkg/queue/queue.go and work.go: what holds of a queue at any time after its start.
use mathlib.Core.Path.{subst}
use blipblop.Base.{
  ℕ, Text, ◌≡◌, ◌≢◌, inl, inr, Bool, Bool-cases, some, Option-cases, List, [], ◌∷◌, ◌==◌, nat_eq,
  length, get_elem?, All, All-map, All-Any, zero, suc, ◌%◌,
}
use blipblop.Errs.{Result, ok, panic}
use blipblop.Queue.{Heap, Queue, enqueue, done, pop, take, dequeue, requeue, close, finish_work}
use blipblop.Queue.Invariant.{IsQueue, Keeps}
use blipblop.Queue.Keeping.{
  IsRun, enqueue-IsRun, done-IsRun, requeue-IsRun, finish_work-IsRun, take-IsRun, close-IsRun,
}
use blipblop.Queue.Steps.{
  new_queue, Run, run_of, Step, enqueues, dequeues, ends, requeues, finishes, closes, Steps, still,
  then_step,
}

get_elem?-All :
    {A : Type 0} (P : A → Type 0) (xs : List A) (i : ℕ) (x : A)
    → All P xs
    → get_elem? xs i ≡ some x
    → P x
get_elem?-All P [] i x w e = absurd (cc e)
get_elem?-All P (y ∷ ys) zero x w e = let same : y ≡ x = cc e in rw (← same) w.0
get_elem?-All P (y ∷ ys) (suc i) x w e = get_elem?-All P ys i x w.1 e

-- a call that returned keeps what it keeps
returned : (P : Queue → Type 0) (m : Result Queue) (q : Queue) → Keeps P m → m ≡ ok q → P q
returned P m q w e = rw e at w

returns : (P : Queue → Type 0) (m : Result Queue) → Keeps P m → m ≢ panic
returns P m w e = rw e at w

dequeue-IsRun :
    (ts : List ℕ) (choice p : ℕ) (q q' : Queue)
    → IsRun ts q
    → dequeue choice q ≡ some (ok (p, q'))
    → IsRun (p ∷ ts) q'
unfolding dequeue pop
dequeue-IsRun ts choice p q q' w h = elim (Bool-cases (length q.items == 0)) [
  | inl empty ↦ elim (Bool-cases q.closed) [
    | inl shut ↦ absurd (cc (rw (empty, shut) at h))
    | inr running ↦ absurd (cc (rw (empty, running) at h))
  ]
  | inr more ↦ elim (Option-cases (get_elem? q.items (choice % length q.items))) [
    | inl n ↦ absurd (cc (rw (more, n) at h))
    | inr (e, at) ↦
        let got : take e q ≡ (p, q') = cc (rw (more, at) at h) in
        subst (λ (r : ℕ × Queue). IsRun (r.0 ∷ ts) r.1) got
          (take-IsRun ts e q (get_elem?-All _ q.items _ e w.sound.queued at) w)
  ]
]

Step-IsRun : (r s : Run) → Step r s → IsRun r.taken r.queue → IsRun s.taken s.queue
Step-IsRun _ _ (enqueues {q} {q'} {ts} now p e) w =
    returned (IsRun ts) _ q' (enqueue-IsRun ts now p q w) e
Step-IsRun _ _ (dequeues {q} {q'} {ts} choice p e) w = dequeue-IsRun ts choice p q q' w e
Step-IsRun _ _ (ends {q} {q'} {ts} uid e) w = returned (IsRun ts) _ q' (done-IsRun ts uid q w) e
Step-IsRun _ _ (requeues {q} {q'} {ts} now p parent_done mine e) w =
    returned (IsRun ts) _ q' (requeue-IsRun ts now p parent_done q (All-Any _ p ts w.worked mine) w)
      e
Step-IsRun _ _ (finishes {q} {q'} {ts} max now p failed gave_up parent_done mine e) w =
    returned (IsRun ts) _ q'
      (finish_work-IsRun ts max now p failed gave_up parent_done q (All-Any _ p ts w.worked mine) w)
      e
Step-IsRun _ _ (closes {q} {q'} {ts} e) w = returned (IsRun ts) _ q' (close-IsRun ts q w) e

Steps-IsRun : (r s : Run) → Steps r s → IsRun r.taken r.queue → IsRun s.taken s.queue
Steps-IsRun r _ still w = w
Steps-IsRun r s (then_step {s = m} before last) w = Step-IsRun m s last (Steps-IsRun r m before w)

-- At any time after NewTaskQueue, whatever calls clients and workers made: each entry of the two
-- maps is an item with that identifier and a context, and neither Enqueue, Done nor Close panics,
-- nor Requeue of an item that a worker took, nor the worker's work on it.
pub Steps-IsSafe :
    (h : Heap) (r : Run) (max now p : ℕ) (uid : Text) (failed gave_up parent_done : Bool)
    → Steps (run_of (new_queue h) []) r
    → IsQueue r.queue
      × (enqueue now p r.queue ≢ panic)
      × (done uid r.queue ≢ panic)
      × (close r.queue ≢ panic)
      × All
          (λ t.
            (requeue now parent_done (some t) r.queue ≢ panic)
            × (finish_work max now failed gave_up parent_done t r.queue ≢ panic))
          r.taken
Steps-IsSafe h r max now p uid failed gave_up parent_done calls =
    let w : IsRun r.taken r.queue =
      Steps-IsRun (run_of (new_queue h) []) r calls
        (record { sound = record { queued = tt; held = tt }; worked = tt }) in
    (
      w.sound,
      returns (IsRun r.taken) _ (enqueue-IsRun r.taken now p r.queue w),
      returns (IsRun r.taken) _ (done-IsRun r.taken uid r.queue w),
      returns (IsRun r.taken) _ (close-IsRun r.taken r.queue w),
      All-map _ _
          (λ t alive. (
            returns (IsRun r.taken) _ (requeue-IsRun r.taken now t parent_done r.queue alive w),
            returns (IsRun r.taken) _
                (finish_work-IsRun r.taken max now t failed gave_up parent_done r.queue alive w),
          ))
          r.taken w.worked,
    )
