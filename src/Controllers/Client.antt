-- ===== src/Controllers/Client.antt =====
-- What the controllers call: the API's clients for nodes, tasks and leases, the node sessions and
-- the work queue. The implementation is the parameter; `ClientLaws` is what a controller relies on.
use blipblop.Base.{Text, ◌≡◌, ◌≢◌, Bool, true, Option, some, List, [], ◌∷◌, ◌++◌}
use blipblop.Errs.{Err, Result, ok, err, is_not_found}
use blipblop.Api.{Node, Task, TaskStatus, Lease}
use blipblop.Effect.{Eff}

-- The events that the scheduler sends to a node.
pub data NodeEvent : Type 0 where
  schedule_event : Task → Node → NodeEvent
  stop_event : Task → NodeEvent
  kill_event : Task → NodeEvent

-- The handlers that the scheduler puts into the work queue.
pub data Work : Type 0 where
  schedules stops kills updates : Work

-- the type and the reason of a condition report, which is of a condition that is false
pub data Report : Type 0 where
  scheduling_failed : Report
  stop_failed : Report

pub record Client : Type 1 where
  pub World : Type 0
  pub list_nodes : World → Result (List Node)
  pub get_node : Text → World → Result Node
  pub list_tasks : World → Result (List Task)
  pub get_task : Text → World → Result Task
  pub get_lease : Text → World → Result Lease
  pub revoke : Text → Text → Eff World (Unit {0})
  pub is_connected : Text → World → Bool
  pub send : Text → NodeEvent → Eff World (Unit {0})
  pub set_status : Text → TaskStatus → List Text → Eff World (Unit {0})
  pub report : Text → Report → World → World
  -- a name, an identifier, the handler and the message, which may be nil
  pub enqueue : Text → Text → Work → Option Task → Eff World (Unit {0})
  -- `anypb.New` of both messages
  pub pack : Task → Node → Result (Unit {0})

module _ (c : Client) where
  open c use {World}

  -- `Get` says that the task has no lease.
  pub record NoLease (w : World) (task : Text) : Type 0 where
    pub error : Err
    pub missing : c.get_lease task w ≡ err error
    pub is_missing : is_not_found (some error) ≡ true

-- What the calls do to leases and to the events that wait for a node. `Sound` is an invariant of
-- the stored leases.
pub record ClientLaws (c : Client) : Type 1 where
  pub Sound : c.World → Text → Type 0
  pub outbox : Text → c.World → List NodeEvent
  pub revoke-ok :
      (task holder : Text) (w w' : c.World)
      → Sound w task
      → c.revoke task holder w ≡ (ok tt, w')
      → NoLease c w' task
  pub revoke-missing :
      (task holder : Text) (w w' : c.World) (e : Err)
      → Sound w task
      → holder ≢ []
      → c.revoke task holder w ≡ (err e, w')
      → is_not_found (some e) ≡ true
      → NoLease c w' task
  pub Sound-missing : (w : c.World) (task : Text) → NoLease c w task → Sound w task
  pub send-ok :
      (node : Text) (ev : NodeEvent) (w w' : c.World)
      → c.send node ev w ≡ (ok tt, w')
      → outbox node w' ≡ outbox node w ++ ev ∷ []
  pub get_lease-send :
      (task node : Text) (ev : NodeEvent) (w : c.World)
      → c.get_lease task (c.send node ev w).1 ≡ c.get_lease task w
  pub get_lease-set_status :
      (task t : Text) (st : TaskStatus) (mask : List Text) (w : c.World)
      → c.get_lease task (c.set_status t st mask w).1 ≡ c.get_lease task w
  pub outbox-set_status :
      (node t : Text) (st : TaskStatus) (mask : List Text) (w : c.World)
      → outbox node (c.set_status t st mask w).1 ≡ outbox node w
  pub outbox-revoke :
      (node task holder : Text) (w : c.World)
      → outbox node (c.revoke task holder w).1 ≡ outbox node w
