-- ===== src/Controllers/Server.antt =====
-- The calls of the controllers, answered by the server's own parts: leases by the lease service and
-- its handlers, events by the node sessions. Nodes and tasks, the work queue and the reports are a
-- parameter.
pub mod Answering
use blipblop.Base.{
  ℕ, Text, ◌≡◌, ◌≢◌, refl, sym, ap, ◌∙◌, inl, inr, ◌⊎◌, Bool, true, false, Option, none, some, List,
  [], ◌∷◌, ◌++◌, ◌==◌, list_eq, nat_eq, nat_beq_iff, list_beq_iff, Bool-cases, ltb, length,
  if◌then◌else◌,
}
use blipblop.Dict.{lookup}
use blipblop.Heap.{store, store-cases}
use blipblop.Errs.{
  Err, Result, ok, err, panic, ◌>>=◌, Result-cases, is_not_found, to_status, invalid_holder,
}
use blipblop.Errs.Status.{to_status-classes}
use blipblop.Keys.{Uuids}
use blipblop.Kv.{ScanKv}
use blipblop.Api.{Node, Task, TaskStatus, Lease}
use blipblop.Effect.{Eff}
use blipblop.Leases.{LeaseCodec, Manager, revoke, release_lease, release_checks, may_release, if_ok}
use blipblop.Leases
use blipblop.Leases.Release.{checks_of_get, revoke_succeeds}
use blipblop.Leases.Linking.{IsLinked}
use blipblop.Sessions
use blipblop.Sessions.{is_node_connected, send_to_node, send_found, send}
use blipblop.Services.Leasing.{State, across, get_lease, revoke_lease, stored, across_state}
use blipblop.Services.Leasing
use blipblop.Controllers.Client.{Client, ClientLaws, NoLease, NodeEvent, Work, Report}

-- the calls that other parts answer
pub record Others : Type 1 where
  pub Rest : Type 0
  pub list_nodes : Rest → Result (List Node)
  pub get_node : Text → Rest → Result Node
  pub list_tasks : Rest → Result (List Task)
  pub get_task : Text → Rest → Result Task
  pub set_status : Text → TaskStatus → List Text → Eff Rest (Unit {0})
  pub report : Text → Report → Rest → Rest
  pub enqueue : Text → Text → Work → Option Task → Eff Rest (Unit {0})
  pub pack : Task → Node → Result (Unit {0})

module _ (db : ScanKv) (c : LeaseCodec) (u : Uuids) (mac : Text → Text → Text) (m : Manager)
    (ttl : ℕ) (o : Others) (choice : Bool) where
  open db use {kv}
  open o use {Rest}

  pub record Server : Type 0 where
    pub leasing : State db c u mac m ttl
    pub sessions : Sessions.Manager NodeEvent
    pub rest : Rest

  unfoldable pub of_rest : {A : Type 0} → Server → Result A × Rest → Result A × Server
  of_rest s (r, x) = (r, record s { rest = x })

  unfoldable pub of_sessions :
      Server → Result (Unit {0}) × Sessions.Manager NodeEvent → Result (Unit {0}) × Server
  of_sessions s (r, x) = (r, record s { sessions = x })

  unfoldable pub of_leasing :
      Server → Result (Unit {0}) × State db c u mac m ttl → Result (Unit {0}) × Server
  of_leasing s (r, x) = (r, record s { leasing = x })

  abbrev pub server_client : Client
  server_client = record {
    World = Server;
    list_nodes = λ s. o.list_nodes s.rest;
    get_node = λ uid s. o.get_node uid s.rest;
    list_tasks = λ s. o.list_tasks s.rest;
    get_task = λ uid s. o.get_task uid s.rest;
    get_lease = λ task s. get_lease db c u mac m ttl none task s.leasing;
    revoke =
        λ task holder s. of_leasing s (revoke_lease db c u mac m ttl none task holder s.leasing);
    is_connected = λ node s. is_node_connected NodeEvent node s.sessions;
    send =
        λ node ev s. of_sessions s (send_to_node NodeEvent none choice node (some ev) s.sessions);
    set_status = λ task st mask s. of_rest s (o.set_status task st mask s.rest);
    report = λ task r s. record s { rest = o.report task r s.rest };
    enqueue = λ name uid work task s. of_rest s (o.enqueue name uid work task s.rest);
    pack = o.pack;
  }

  -- the events that wait for a node
  pub waiting : Option ℕ → Sessions.Manager NodeEvent → List NodeEvent
  waiting none sessions = []
  waiting (some p) sessions = (sessions.heap p).out

  pub outbox : Text → Server → List NodeEvent
  unfolding waiting
  outbox node s = waiting (lookup node s.sessions.sessions) s.sessions
