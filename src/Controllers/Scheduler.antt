-- ===== src/Controllers/Scheduler.antt =====
-- pkg/controller/scheduler/scheduler.go: placing tasks on nodes. The random source of the scheduler
-- and the text of an error are parameters. Contexts and log messages are left out.
pub mod Starting
pub mod Signalling
pub mod Moving
use blipblop.Base.{
  ℕ, suc, Text, ◌+◌, ◌*◌, Bool, true, false, not, Option, none, some, List, [], ◌∷◌, if◌then◌else◌,
  ltb, codes,
}
use blipblop.Errs.{Err, Result, ok, err, panic, is_not_found, target_not_connected}
use blipblop.Labels.{matches, new_composite_selector_from_map}
use blipblop.Api.{Meta, Node, Task, TaskStatus, Lease}
use blipblop.Scheduling.{schedule}
use blipblop.Effect.{Eff, run_next, ◌>>=◌, ◌>>◌, pure, fail, asks, lift}
use blipblop.Controllers.Client.{
  Client, NodeEvent, schedule_event, stop_event, kill_event, Work, schedules, stops, kills, updates,
  Report, scheduling_failed, stop_failed,
}

abbrev pub phase_scheduled : Text
phase_scheduled = codes "Scheduled"

abbrev pub phase_scheduling_failed : Text
phase_scheduling_failed = codes "SchedulingFailed"

abbrev empty_status : TaskStatus
empty_status = record {
  phase = none;
  reason = none;
  node = none;
  ip = none;
  pid = none;
  id = none;
  conditions = [];
}

-- `if errs.IgnoreNotFound(err) != nil { return err }`: a missing value is nil.
unfoldable pub or_nil : {A : Type 0} → Result A → Result (Option A)
unfolding is_not_found
or_nil (ok a) = ok (some a)
or_nil (err e) = if is_not_found (some e) then ok none else err e
or_nil panic = panic

module _ (c : Client) (intn : ℕ → ℕ) (err_text : Err → Text) where
  open c use {World}

  set_task_as_scheduling_failed : Task → Text → Eff World (Unit {0})
  set_task_as_scheduling_failed task reason =
      c.set_status task.meta.uid
        (record empty_status {
          phase = some phase_scheduling_failed;
          node = some [];
          reason = some reason;
        })
        (codes "phase" ∷ codes "node" ∷ codes "reason" ∷ [])

  pub set_task_as_scheduled : Task → Text → Eff World (Unit {0})
  set_task_as_scheduled task node_name =
      c.set_status task.meta.uid
        (record empty_status { phase = some phase_scheduled; node = some node_name })
        (codes "phase" ∷ codes "node" ∷ [])

  pub check_connected : Text → Eff World (Unit {0})
  check_connected node w =
      if c.is_connected node w then (ok tt, w) else (err target_not_connected, w)

  -- `Revoke`, whose "not found" is ignored
  pub ignoring : Result (Unit {0}) × World → Result (Unit {0}) × World
  unfolding is_not_found
  ignoring (ok x, w) = (ok x, w)
  ignoring (err e, w) = (if is_not_found (some e) then ok tt else err e, w)
  ignoring (panic, w) = (panic, w)

  pub revoke_if_held : Text → Text → Eff World (Unit {0})
  unfolding ignoring
  revoke_if_held task node w = ignoring (c.revoke task node w)

  -- the part of `start` after a node was chosen
  pub hand_over : Task → Node → Eff World Node
  unfolding ◌>>=◌ ◌>>◌ check_connected revoke_if_held set_task_as_scheduled
  hand_over task n = do
    check_connected n.meta.uid
    lift (c.pack task n)
    revoke_if_held task.meta.uid n.meta.uid
    c.send n.meta.uid (schedule_event task n)
    set_task_as_scheduled task n.meta.name
    pure n

  -- `start` without its deferred function
  pub try_start : Task → Eff World Node
  unfolding ◌>>=◌ hand_over
  try_start task = do
    nodes ← asks c.list_nodes
    n ← lift (schedule intn task nodes)
    hand_over task n

  -- the deferred function, whose own error is only logged
  pub mark_failed : Task → Result Node × World → Result Node × World
  unfolding set_task_as_scheduling_failed
  mark_failed task (ok n, w) = (ok n, w)
  mark_failed task (err e, w) = (err e, (set_task_as_scheduling_failed task (err_text e) w).1)
  mark_failed task (panic, w) = (panic, w)

  unfoldable pub start : Task → Eff World Node
  unfolding try_start mark_failed
  start task w = mark_failed task (try_start task w)

  unfoldable pub schedule_task : Task → Eff World (Unit {0})
  unfolding ◌>>◌
  schedule_task task = do start task; pure tt

  -- the node is nil if the task stays where it is
  pub move_unless : Bool → Task → Node → Eff World (Option Node)
  unfolding ◌>>=◌ ◌>>◌
  move_unless true task node = pure none
  move_unless false task node = do
    c.revoke task.meta.uid node.meta.uid
    n ← start task
    pure (some n)

  unfoldable pub reschedule : Task → Text → Eff World (Option Node)
  unfolding ◌>>=◌ move_unless
  reschedule task node_uid = do
    node ← asks (c.get_node node_uid)
    move_unless
        (matches (new_composite_selector_from_map task.config.node_selector) node.meta.labels) task
        node

  unfoldable pub stop : Task → Text → Eff World (Unit {0})
  unfolding ◌>>◌ check_connected
  stop task node_uid = do check_connected node_uid; c.send node_uid (stop_event task)

  -- If the task cannot be rescheduled it is stopped, and the error is returned, or that of `stop`.
  pub or_stopped : Task → Text → Result (Option Node) × World → Result (Unit {0}) × World
  unfolding run_next
  or_stopped task node (ok n, w) = (ok tt, w)
  or_stopped task node (err e, w) = run_next (stop task node w) (λ _. fail e)
  or_stopped task node (panic, w) = (panic, w)

  pub update_leased : Task → Option Lease → Eff World (Unit {0})
  unfolding or_stopped
  update_leased task none w = (ok tt, w)
  update_leased task (some lease) w =
      or_stopped task lease.config.node_id (reschedule task lease.config.node_id w)

  unfoldable pub update_task : Task → Eff World (Unit {0})
  unfolding ◌>>=◌ update_leased
  update_task task = do
    lease ← asks (λ w. or_nil (c.get_lease task.meta.uid w))
    update_leased task lease

  -- A report is made of the error, which is returned all the same.
  pub reporting : Report → Task → Result (Unit {0}) × World → Result (Unit {0}) × World
  reporting r task (ok x, w) = (ok x, w)
  reporting r task (err e, w) = (err e, c.report task.meta.uid r w)
  reporting r task (panic, w) = (panic, w)

  -- What `killTask` and `stopTask` have in common: `not_there` is reported of a node that is not
  -- connected, and the event is sent to the node that holds the lease.
  pub signal_leased : Report → NodeEvent → Task → Option Lease → Eff World (Unit {0})
  unfolding ◌>>=◌ ◌>>◌ reporting check_connected set_task_as_scheduled
  signal_leased not_there ev task none = pure tt
  signal_leased not_there ev task (some lease) = do
    node ← asks (c.get_node lease.config.node_id)
    (λ w. reporting not_there task (check_connected node.meta.uid w))
    (λ w. reporting stop_failed task (c.send node.meta.uid ev w))
    set_task_as_scheduled task node.meta.name

  unfoldable pub kill_task : Task → Eff World (Unit {0})
  unfolding ◌>>=◌ signal_leased
  kill_task task = do
    lease ← asks (λ w. or_nil (c.get_lease task.meta.uid w))
    signal_leased scheduling_failed (kill_event task) task lease

  unfoldable pub stop_task : Task → Eff World (Unit {0})
  unfolding ◌>>=◌ signal_leased
  stop_task task = do
    lease ← asks (λ w. or_nil (c.get_lease task.meta.uid w))
    signal_leased stop_failed (stop_event task) task lease

  -- what a worker runs for an item of the queue
  unfoldable pub handler : Work → Task → Eff World (Unit {0})
  handler schedules = schedule_task
  handler stops = stop_task
  handler kills = kill_task
  handler updates = update_task

  -- `processScheduleTask`, `processTaskStop`, `processTaskKill` and `processTaskUpdate`
  pub process : Work → Task → Eff World (Unit {0})
  unfolding ◌>>=◌
  process work task = do
    t ← asks (c.get_task task.meta.uid)
    c.enqueue task.meta.name task.meta.uid work (some t)

  -- The getters of a nil task return the empty string.
  enqueue_schedule : Option Task → Eff World (Unit {0})
  enqueue_schedule none = c.enqueue [] [] schedules none
  enqueue_schedule (some task) = c.enqueue task.meta.name task.meta.uid schedules (some task)

  unfoldable pub process_lease_expired : Lease → Eff World (Unit {0})
  unfolding ◌>>=◌ enqueue_schedule
  process_lease_expired lease = do
    task ← asks (λ w. or_nil (c.get_task lease.config.task_id w))
    enqueue_schedule task

  abbrev pub grace_period : ℕ
  grace_period = 10 * 1_000_000_000

  pub lease_ran_out : ℕ → Result Lease → Result Bool
  unfolding is_not_found
  lease_ran_out now (ok lease) = ok (ltb (lease.config.expires_at + grace_period) now)
  lease_ran_out now (err e) = if is_not_found (some e) then ok true else err e
  lease_ran_out now panic = panic

  unfoldable pub should_schedule_task : ℕ → Text → World → Result Bool
  unfolding lease_ran_out
  should_schedule_task now task w = lease_ran_out now (c.get_lease task w)

  -- Errors of one task are logged, and the loop goes on.
  pub and_continue : Result (Unit {0}) × World → Eff World (Unit {0}) → Result (Unit {0}) × World
  and_continue (ok _, w) rest = rest w
  and_continue (err _, w) rest = rest w
  and_continue (panic, w) rest = (panic, w)

  pub process_if : Result Bool → Task → Eff World (Unit {0})
  unfolding process
  process_if (ok true) task w = process schedules task w
  process_if (ok false) task w = (ok tt, w)
  process_if (err e) task w = (ok tt, w)
  process_if panic task w = (panic, w)

  -- Each check reads the clock; `now` gives the time of each.
  pub process_tasks : (ℕ → ℕ) → List Task → Eff World (Unit {0})
  unfolding and_continue process_if
  process_tasks now [] w = (ok tt, w)
  process_tasks now (task ∷ rest) w =
      and_continue (process_if (should_schedule_task (now 0) task.meta.uid w) task w)
        (process_tasks (λ i. now (suc i)) rest)

  unfoldable pub process_node : (ℕ → ℕ) → Eff World (Unit {0})
  unfolding ◌>>=◌ process_tasks
  process_node now = do tasks ← asks c.list_tasks; process_tasks now tasks
