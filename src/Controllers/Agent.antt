-- ===== src/Controllers/Agent.antt =====
-- pkg/controller/node (handler_task.go, handler_runtime.go, node.go): the controller of a node,
-- which starts and stops the tasks that are scheduled to it and keeps their leases. A handler runs
-- alone, as one step; log messages and traces are left out.
pub mod Hosting
pub mod Framing
pub mod Releasing
pub mod Halting
pub mod Attaching
pub mod Provisioning
pub mod Leasing
pub mod Working
pub mod Keeping
pub mod Watching
use mathlib.Core.Option.{get_or}
use blipblop.Base.{
  ℕ, Text, ◌%◌, ◌^◌, Bool, true, false, not, Option, none, some, List, [], ◌∷◌, ◌++◌, if◌then◌else◌,
  ◌==◌, list_eq, nat_eq, nat_eq, ltb, codes,
}
use blipblop.Errs.{Err, Result, ok, err, panic, is_not_found, is_conflict, is_permission_denied}
use blipblop.Dict.{Dict, lookup, insert, remove}
use blipblop.Labels.{Label, matches, new_composite_selector_from_map}
use blipblop.Api.{Meta, Node, Task, TaskStatus, Lease, Mount}
use blipblop.Effect.{Eff, run_next, ◌>>=◌, ◌>>◌, pure, fail}
use blipblop.Networking.{parse_cni_port_mappings, default_protocols}
use blipblop.Conditions.{
  Kind, Reason, Report, reason_text, new_for_resource, as_reporter, of_kind, with_metadata, is_true,
  is_false, image_ready, volume_ready, network_ready, task_ready, task_scheduled, pulling, pulled,
  pull_failed, attaching, attached, attach_failed, detaching, detached, detach_failed, starting,
  start_failed, running, stopping, stopped, deleting, deleted, delete_failed, scheduled,
}
use blipblop.Controllers.Agent.Hosting.{Host, Work, start_work, stop_work, kill_work, update_work}

abbrev pub empty_status : TaskStatus
empty_status = record {
  phase = none;
  reason = none;
  node = none;
  ip = none;
  pid = none;
  id = none;
  conditions = [];
}

-- `_ = f()`
abbrev pub quiet : {A : Type 0} → Result A → Result (Unit {0})
quiet (ok _) = ok tt
quiet (err _) = ok tt
quiet panic = panic

-- `if errs.IgnoreNotFound(err) != nil { return err }`
unfoldable pub tolerate : Result (Unit {0}) → Result (Unit {0})
unfolding is_not_found
tolerate (ok x) = ok x
tolerate (err e) = if is_not_found (some e) then ok tt else err e
tolerate panic = panic

unfoldable pub or_missing : {A : Type 0} → Result A → Result (Option A)
unfolding is_not_found
or_missing (ok a) = ok (some a)
or_missing (err e) = if is_not_found (some e) then ok none else err e
or_missing panic = panic

-- `comparable`
unfoldable pub comparable : Task → Task
comparable t = record t { status = empty_status; meta = record t.meta { resource_version = 0 } }

abbrev pub epoch_label : Text
epoch_label = codes "voiyd.io/epoch"

module _ (h : Host) where
  open h use {rt, net, vol, api, tokens, pool, own, err_text, task_equal, print, atoi}

  -- `Controller`, with the task and the report that the running handler works on, which its steps
  -- write to, and the reports that were handed to the publisher.
  pub record State : Type 0 where
    pub operations : Dict Text Reason
    pub epochs : Dict Text ℕ
    pub containers : rt.Containers
    pub links : net.Links
    pub volumes : vol.Volumes
    pub server : api.Server
    pub files : tokens.Files
    pub pending : pool.Pending
    pub task : Task
    pub report : Report
    pub reported : List Report

  abbrev pub on_runtime : {A : Type 0} → Eff rt.Containers A → Eff State A
  on_runtime m s = let r = m s.containers in (r.0, record s { containers = r.1 })

  abbrev pub on_network : {A : Type 0} → Eff net.Links A → Eff State A
  on_network m s = let r = m s.links in (r.0, record s { links = r.1 })

  abbrev pub on_volumes : {A : Type 0} → Eff vol.Volumes A → Eff State A
  on_volumes m s = let r = m s.volumes in (r.0, record s { volumes = r.1 })

  abbrev pub on_server : {A : Type 0} → Eff api.Server A → Eff State A
  on_server m s = let r = m s.server in (r.0, record s { server = r.1 })

  abbrev pub on_files : {A : Type 0} → Eff tokens.Files A → Eff State A
  on_files m s = let r = m s.files in (r.0, record s { files = r.1 })

  abbrev pub on_pool : {A : Type 0} → Eff pool.Pending A → Eff State A
  on_pool m s = let r = m s.pending in (r.0, record s { pending = r.1 })

  abbrev pub tolerating : Eff State (Unit {0}) → Eff State (Unit {0})
  tolerating m s = let r = m s in (tolerate r.0, r.1)

  abbrev pub ignoring : {A : Type 0} → Eff State A → Eff State (Unit {0})
  ignoring m s = let r = m s in (quiet r.0, r.1)

  -- `getNode`
  unfoldable pub node_id : Text
  node_id = if own.meta.uid == [] then own.meta.name else own.meta.uid

  unfoldable pub get_node : Eff State Node
  get_node = on_server (api.get_node node_id)

  -- The report is changed and handed to the publisher.
  abbrev pub tell : (Report → Report) → Eff State (Unit {0})
  tell f s = let r = f s.report in (ok tt, record s { report = r; reported = s.reported ++ r ∷ [] })

  -- An error other than "not found" is reported, and any error is returned.
  unfoldable pub or_told :
      {A : Type 0} → (Text → Report → Report) → Result A × State → Result A × State
  or_told f (ok a, s) = (ok a, s)
  or_told f (err e, s) =
      if is_not_found (some e) then (err e, s) else (err e, (tell (f (err_text e)) s).1)
  or_told f (panic, s) = (panic, s)

  unfoldable pub set_status : Text → TaskStatus → List Text → Eff State (Unit {0})
  set_status uid st mask = ignoring (on_server (api.set_status uid st mask))

  -- `_ = Status().SetPhase(…)` and the like
  abbrev pub set_phase : Text → Reason → Eff State (Unit {0})
  set_phase uid phase =
      set_status uid (record empty_status { phase = some (reason_text phase) }) (codes "phase" ∷ [])

  abbrev pub set_reason : Text → Text → Eff State (Unit {0})
  set_reason uid reason =
      set_status uid (record empty_status { reason = some reason }) (codes "reason" ∷ [])

  abbrev pub network_failed : Reason → Text → Report → Report
  network_failed why text r = is_false why (some text) (of_kind network_ready r)

  -- `ParseCNIPortMappings` of the task's port mappings, in which it sets the default protocol
  unfoldable pub default_ports : Task → Task
  default_ports t = record t {
    config = record t.config { port_mappings = default_protocols t.config.port_mappings };
  }

  unfoldable pub detach_if : ℕ → Eff State (Unit {0})
  detach_if pid s =
      if pid == 0
      then (ok tt, s)
      else or_told (network_failed detach_failed) (
          on_network
            (net.detach s.task.meta.uid pid (parse_cni_port_mappings s.task.config.port_mappings))
            (record s { task = default_ports s.task }))

  unfoldable pub detach_network : Eff State (Unit {0})
  detach_network = do
    tell (λ r. is_false detaching none (of_kind network_ready r))
    pid ← λ s. or_told (network_failed detach_failed) (on_runtime (rt.pid s.task.meta.uid) s)
    detach_if pid
    tell (λ r. is_true detached none (
        with_metadata ((codes "ip_address", []) ∷ (codes "gateway", []) ∷ [])
          (of_kind network_ready r)))

  unfoldable pub link_up : ℕ → Eff State (Text × Text)
  link_up pid s = or_told (network_failed attach_failed) (
      on_network
        (net.attach s.task.meta.uid pid (parse_cni_port_mappings s.task.config.port_mappings))
        (record s { task = default_ports s.task }))

  unfoldable pub attach_network : Eff State (Unit {0})
  attach_network = do
    tell (λ r. is_false attaching none (of_kind network_ready r))
    pid ← λ s. or_told (network_failed attach_failed) (on_runtime (rt.pid s.task.meta.uid) s)
    addr ← link_up pid
    tell (λ r. is_true attached (some []) (
        with_metadata ((codes "ip_address", addr.0) ∷ (codes "gateway", addr.1) ∷ [])
          (of_kind network_ready r)))

  -- After PrepareMounts returned, the task has the mounts that it resolved. It reports any error.
  unfoldable pub prepared : Result (List Mount) × State → Result (Unit {0}) × State
  prepared (ok ms, s) =
      (ok tt, record s { task = record s.task { config = record s.task.config { mounts = ms } } })
  prepared (err e, s) =
      (err e, (tell (λ r. is_false attach_failed (some (err_text e)) (of_kind volume_ready r)) s).1)
  prepared (panic, s) = (panic, s)

  unfoldable pub attach_mounts : Eff State (Unit {0})
  attach_mounts = do
    tell (λ r. is_false attaching none (of_kind volume_ready r))
    λ s. prepared (on_volumes (vol.prepare_mounts own s.task.config.mounts) s)
    tell (λ r. is_true attached (some []) (of_kind volume_ready r))

  unfoldable pub detach_mounts : Eff State (Unit {0})
  detach_mounts = do
    tell (λ r. is_false detaching none (of_kind volume_ready r))
    λ s.
        or_told (λ text r. is_false pull_failed none (of_kind image_ready r))
          (on_volumes (vol.detach_mounts own s.task.config.mounts) s)
    tell (λ r. is_false detached none (of_kind volume_ready r))

  unfoldable pub pull_image : Eff State (Unit {0})
  pull_image = do
    tell (λ r. is_false pulling none (of_kind image_ready r))
    λ s.
        or_told (λ text r. is_false pull_failed (some text) (of_kind image_ready r))
          (on_runtime (rt.pull s.task) s)
    tell (λ r. is_true pulled none (of_kind image_ready r))

  unfoldable pub delete_task : Eff State (Unit {0})
  delete_task = do
    λ s. ignoring (on_runtime (rt.cleanup s.task.meta.uid)) s
    tell (λ r. is_false deleting none (of_kind task_ready r))
    λ s.
        or_told (λ text r. is_false delete_failed (some text) (of_kind task_ready r))
          (on_runtime (rt.remove s.task) s)
    tell (λ r. is_false stopped none (
        with_metadata ((codes "node_name", []) ∷ (codes "node_uid", []) ∷ [])
          (of_kind task_scheduled r)))
    tell (λ r.
        is_false stopped none
          (with_metadata ((codes "pid", []) ∷ (codes "id", []) ∷ []) (of_kind task_ready r)))
