-- ===== src/Lib.antt =====
-- Voiyd, a task orchestrator written in Go: storage, leases, placement and the node's agent.
--
-- The server keeps nodes, tasks, volumes and leases in a key-value store through a generic
-- repository. Nodes take a task by acquiring its lease, and the scheduler chooses a node whose
-- labels match the task's selector. Events reach a connected node through its session, and
-- controllers take their work from a queue with retries. The parts, and the files that model them:
--
--   pkg/errs/errs.go, internal/domain/errors.go      Errs (errors and their gRPC codes)
--   pkg/labels/labels.go                             Labels
--   pkg/keys/keys.go                                 Keys (identifiers and database keys)
--   pkg/repository/inmemory/inmemory.go              Kv.Memory (overlay transactions)
--   pkg/repository/repository.go                     Kv (interfaces Txn and DB), Repo
--   internal/infra/lease_manager.go, lease_secret.go Leases
--   pkg/scheduling/horizontal.go                     Scheduling
--   pkg/queue/queue.go, work.go                      Queue (the work queue and its workers)
--   internal/app/node_sessions.go                    Sessions
--   internal/app/lease.go, internal/transport/grpc   Services.Leasing (and the lease client)
--   internal/app/task.go                             Services.Tasks, Merging
--   internal/app/node.go, volume.go                  Services.Resources, Statuses, Upgrading
--   pkg/protoutils/protoutils.go (MergeSlices)       Merging
--   pkg/controller/scheduler/scheduler.go            Controllers.Scheduler
--   pkg/controller/lease/lease.go                    Controllers.Expiry
--   pkg/controller/node/handler_task.go,
--   handler_runtime.go, node.go                      Controllers.Agent (the node controller)
--   pkg/networking/ports.go, cni.go                  Networking, Networking.Ports
--   pkg/volume, pkg/controller/volume/volume.go      Volumes, Volumes.Control
--   pkg/condition/condition.go, publisher.go         Conditions, Conditions.Publisher
--   pkg/events/exchange.go, log_exchange.go          Events.Exchanges, Events.Logs
--   pkg/cache/cache.go                               Cache
--   api/                                             Api (the fields that the code uses)
--
-- Base has the shared types and lemmas, Dict the Go maps, Heap the objects behind pointers, Effect
-- the calls that change a state and may fail, Examples the theorems at concrete inputs.
--
-- A Go function with an error result is a function into Errs.Result, which also has the panic; a
-- method that changes the store takes the store and returns the result with the store after it.
-- Repo works on any store that has the laws of Kv.ScanKv and on any message type with a codec that
-- reads what it wrote (Repo.Resource); Leases works on the repository of leases. A call of the
-- lease manager holds its mutex, so that it is one step; Leases.Traces runs sequences of calls.
-- Queue and Sessions keep the structs that Go points to in a heap, a function from pointers; the
-- entry that a map's iteration yields, and the ready case that a `select` takes, are arguments.
-- Controllers.Client is the interface through which the scheduler controller calls the server, with
-- the laws that it relies on; Controllers.Server fills it from the lease service and the node
-- sessions. Controllers.Expiry keeps the lease controller's timers in a heap and its goroutines in a
-- list, and is a step relation: a timer fires, a goroutine goes on by one stage, an event comes in,
-- or the clock goes on, in any order. A controller's task and node data come from parameters.
-- Controllers.Agent works on the runtime, the network, the volumes, the API, the work pool and the
-- files of the host through the interfaces of Agent.Hosting, each with a state of its own; its child
-- modules have the operations (Working, Keeping, Watching) and the theorems. Volumes works on a file
-- system and an API in the same way. Conditions.Publisher is a step relation over the goroutines of
-- the publisher, whose channels hold 256 reports; the channels of Events.Logs hold 100 entries.
-- Services.Resources and Services.Statuses are for any message type, with the messages' statuses and
-- masks as a parameter that node_status and volume_status fill. Services.Upgrading sends through the
-- sessions. Services.Tasks asks IsHolder of Leases, on the database that has the tasks.
-- The operations keep their Go names in snake case: Repo.create, Repo.update_resource (Update),
-- Repo.delete, Leases.acquire, renew, release and revoke.
--
-- A string is the list of its bytes, a time is in nanoseconds, and uint64 counters wrap at 2 ^ 64.
-- Every loop is over a finite list, so that there is no fuel, but for the stages of onTimerFired,
-- of which three are enough. Parameters stand for the UUID library, the clock, the random source,
-- HMAC and protobuf, each with the laws that are used, for what Txn.List returns, and for the
-- handlers of Events.Exchanges; an event that waits for ever for a receiver of its error is a call
-- without a result.
--
-- Not modelled: the Badger database behind the interface, network transport, command lines, the
-- container runtime behind the node controller, the controllers of containerd, of upgrades and of
-- container sets, the streams of logs, failures of the storage device, log messages, the export of
-- metrics, two processes that share one database, calls that interleave inside one of these steps,
-- and what works by protobuf reflection: Patch and the field masks of messages.
pub mod Base
pub mod Cache
pub mod Conditions
pub mod Events
pub mod Volumes
pub mod Networking
pub mod Controllers
pub mod Merging
pub mod Services
pub mod Dict
pub mod Effect
pub mod Heap
pub mod Errs
pub mod Examples
pub mod Labels
pub mod Api
pub mod Keys
pub mod Kv
pub mod Queue
pub mod Repo
pub mod Leases
pub mod Scheduling
pub mod Sessions
