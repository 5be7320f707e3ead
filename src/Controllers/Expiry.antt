-- ===== src/Controllers/Expiry.antt =====
-- pkg/controller/lease/lease.go: a timer for each lease, which tells the scheduler when the lease has
-- run out. The API's client and the exchange are the parameter. `onTimerFired` runs in a goroutine
-- of its own: it reads the lease and the clock, and acts on them later; `Stage` is where such a
-- goroutine is. The functions under the mutex, a call of the client and `Forward` are one step each.
pub mod Tracking
pub mod Running
pub mod Forwarding
pub mod Firing
use blipblop.Base.{
  ℕ, zero, suc, Text, ◌≡◌, ◌+◌, ◌-◌, ◌≤◌, Bool, true, false, Option, none, some, List, [], ◌∷◌,
  ◌++◌, ltb, ◌⊎◌, inl, inr, list_eq, nat_eq, if◌then◌else◌, ◌==◌,
}
use blipblop.Errs.{Err}
use blipblop.Dict.{Dict, lookup, insert, remove}
use blipblop.Heap.{store}
use blipblop.Api.{Task, Lease}

pub record LeaseApi : Type 1 where
  pub World : Type 0
  pub get : Text → World → Err ⊎ Lease
  pub list : World → Err ⊎ List Lease
  pub revoke : Text → Text → World → Option Err × World

-- A goroutine of `onTimerFired`: it starts; it found a renewed lease, whose expiry it has read; it
-- found a lease that ran out, at the time that it has read; it is about to stop tracking.
pub data Stage : Type 0 where
  fired : Text → Stage
  renewed_until : Text → ℕ → Stage
  ran_out : Text → Lease → ℕ → Stage
  done_with : Text → Stage

unfoldable pub task_of : Stage → Text
task_of (fired task) = task
task_of (renewed_until task _) = task
task_of (ran_out task _ _) = task
task_of (done_with task) = task

-- A `time.Timer`, with the argument of its function. It is armed until it is stopped or fires.
pub record Timer : Type 0 where
  pub task : Text
  pub deadline : ℕ
  pub is_armed : Bool

module _ (api : LeaseApi) where
  open api use {World}

  -- The controller and what is around it: `timers` is the controller's map of pointers, `next` the
  -- first pointer not in use, `pending` the goroutines, and `forwarded` the leases that were
  -- forwarded as expired, each with the time at which it was found so.
  pub record State : Type 0 where
    pub world : World
    pub now : ℕ
    pub timers : Dict Text ℕ
    pub heap : ℕ → Timer
    pub next : ℕ
    pub pending : List Stage
    pub forwarded : List (Lease × ℕ)

  -- `t.Stop()`
  pub stop_timer : Option ℕ → (ℕ → Timer) → ℕ → Timer
  stop_timer none heap = heap
  stop_timer (some p) heap = store p (record (heap p) { is_armed = false }) heap

  -- A time that is over counts as no time.
  unfoldable pub track_lease : Text → ℕ → State → State
  unfolding stop_timer
  track_lease task expires_at s = record s {
    timers = insert task s.next s.timers;
    heap =
        store s.next
          (record { task = task; deadline = s.now + (expires_at - s.now); is_armed = true })
          (stop_timer (lookup task s.timers) s.heap);
    next = s.next + 1;
  }

  unfoldable pub stop_tracking : Text → State → State
  unfolding stop_timer
  stop_tracking task s = record s {
    timers = remove task s.timers;
    heap = stop_timer (lookup task s.timers) s.heap;
  }

  pub stop_all : Dict Text ℕ → State → State
  unfolding stop_tracking
  stop_all [] s = s
  stop_all ((task, p) ∷ rest) s = stop_all rest (stop_tracking task s)

  unfoldable pub stop_all_timers : State → State
  unfolding stop_all
  stop_all_timers s = stop_all s.timers s

  -- `onTimerFired`: what it reads
  pub look : ℕ → Text → Err ⊎ Lease → Stage
  look now task (inr lease) =
      if ltb now lease.config.expires_at
      then renewed_until task lease.config.expires_at
      else ran_out task lease now
  look now task (inl e) = done_with task

  -- and what it does: the next stage, or none at the end.
  unfoldable pub act : Stage → State → Option Stage × State
  unfolding look track_lease stop_tracking
  act (fired task) s = (some (look s.now task (api.get task s.world)), s)
  act (renewed_until task expires_at) s = (none, track_lease task expires_at s)
  act (ran_out task lease seen) s =
      (some (done_with task), record s { forwarded = (lease, seen) ∷ s.forwarded })
  act (done_with task) s = (none, stop_tracking task s)

  -- A goroutine that nothing comes between, for at most so many stages.
  pub run_stages : ℕ → Option Stage → State → Option Stage × State
  unfolding act
  run_stages n none s = (none, s)
  run_stages zero (some x) s = (some x, s)
  run_stages (suc n) (some x) s = let (o, s') = act x s in run_stages n o s'

  -- a call takes three stages at most
  unfoldable pub on_timer_fired : Text → State → Option Stage × State
  unfolding run_stages
  on_timer_fired task s = run_stages 3 (some (fired task)) s

  unfoldable pub on_lease_acquired : Lease → State → State
  unfolding track_lease
  on_lease_acquired lease s = track_lease lease.config.task_id lease.config.expires_at s

  pub revoke_found : Text → Err ⊎ Lease → State → Option Err × State
  revoke_found task (inr lease) s =
      let (r, w) = api.revoke task lease.config.node_id s.world in (r, record s { world = w })
  revoke_found task (inl e) s = (none, s)

  -- The name of the task is taken for the key of its timer and of its lease.
  unfoldable pub on_task_deleted : Task → State → Option Err × State
  unfolding stop_tracking revoke_found
  on_task_deleted task s =
      let s₁ = stop_tracking task.meta.name s in
      revoke_found task.meta.name (api.get task.meta.name s₁.world) s₁

  pub track_all : List Lease → State → State
  unfolding on_lease_acquired
  track_all [] s = s
  track_all (lease ∷ rest) s = track_all rest (on_lease_acquired lease s)

  pub recover_listed : Err ⊎ List Lease → State → State
  unfolding track_all
  recover_listed (inr leases) s = track_all leases s
  recover_listed (inl e) s = s

  unfoldable pub recover_timers : State → State
  unfolding recover_listed
  recover_timers s = recover_listed (api.list s.world) s

  -- A timer fires, once it is due: its function runs in a goroutine.
  unfoldable pub fire : ℕ → State → State
  fire p s = record s {
    heap = store p (record (s.heap p) { is_armed = false }) s.heap;
    pending = fired (s.heap p).task ∷ s.pending;
  }

  -- One step of a goroutine, which stands between the others.
  unfoldable pub advance : List Stage → Stage → List Stage → State → State
  unfolding act
  advance before x after s =
      let (o, s') = act x s in
      record s' { pending = before ++ elim o [ none ↦ after | some y ↦ y ∷ after ] }

  -- The clock goes on, and others may change the leases at any time.
  pub data Step : State → State → Type 0 where
    acquires : {s : State} → (lease : Lease) → Step s (on_lease_acquired lease s)
    deletes : {s : State} → (task : Task) → Step s (on_task_deleted task s).1
    recovers : {s : State} → Step s (recover_timers s)
    shuts_down : {s : State} → Step s (stop_all_timers s)
    fires :
        {s : State}
        → (p : ℕ) → (s.heap p).is_armed ≡ true
        → (s.heap p).deadline ≤ s.now
        → Step s (fire p s)
    advances :
        {s : State}
        → (before : List Stage) (x : Stage) (after : List Stage) → s.pending ≡ before ++ x ∷ after
        → Step s (advance before x after s)
    goes_on :
        {s : State}
        → (later : ℕ) (world : World) → s.now ≤ later
        → Step s (record s { now = later; world = world })

  pub data Steps : State → State → Type 0 where
    still : {s : State} → Steps s s
    then_step : {s t u : State} → Steps s t → Step t u → Steps s u
