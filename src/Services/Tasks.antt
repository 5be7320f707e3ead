-- ===== src/Services/Tasks.antt =====
-- internal/app/task.go: the task service, on the repository of tasks and the event exchange. `Patch`
-- and its field masks by reflection are left out. The exchange's `Publish` is a parameter, and so is
-- `proto.Equal` of two task configs. The mutex makes each call one step. A stored task has its
-- metadata, its config and its status.
pub mod Updating
use blipblop.Base.{
  ℕ, Text, ◌≡◌, refl, Bool, true, false, not, Option, none, some, List, [], ◌∷◌, if◌then◌else◌,
  ◌==◌, list_eq, nat_eq, codes,
}
use blipblop.Errs.{
  Err, Result, ok, err, panic, Ctx, not_holder, unknown_mask_path, status, invalid_argument,
}
use blipblop.Keys
use blipblop.Keys.{KeyId, Uuids}
use blipblop.Leases
use blipblop.Leases.{LeaseCodec, Manager}
use blipblop.Kv.{ScanKv}
use blipblop.Repo
use blipblop.Repo.Listing
use blipblop.Repo.{Resource, Fresh}
use blipblop.Repo.Prefix.{task_prefixes}
use blipblop.Api.{Condition, Task, TaskConfig, TaskStatus}
use blipblop.Effect.{Eff, run_next, ◌>>=◌, ◌>>◌, pure, fail, lift}
use blipblop.Merging.{merge_conditions}

-- protobuf of a task
pub record TaskCodec : Type 0 where
  pub marshal : Task → Option Text
  pub unmarshal : Text → Option Task
  pub unmarshal-marshal : (x : Task) (b : Text) → marshal x ≡ some b → unmarshal b ≡ some x

abbrev pub task_resource : TaskCodec → Resource
task_resource c = record {
  T = Task;
  meta = λ x. x.meta;
  with_meta = λ x m. record x { meta = m };
  meta-with_meta = λ x m. refl;
  marshal = c.marshal;
  unmarshal = c.unmarshal;
  unmarshal-marshal = c.unmarshal-marshal;
  spec_equal_nil = λ x. false;
  ensure_status = λ x. x;
}

pub data TaskEvent : Type 0 where
  task_create task_delete task_kill task_stop task_start task_update : Task → TaskEvent
  condition_reported : List Condition → TaskEvent

pub record Exchange : Type 1 where
  pub X : Type 0
  pub publish : TaskEvent → X → Result (Unit {0}) × X

unfoldable pub or_kept {ℓ} : {A : Type ℓ} → Option A → Option A → Option A
or_kept none old = old
or_kept (some a) old = some a

-- one path of the mask; a field of the source that is nil is passed over.
pub apply_path : Text → TaskStatus → TaskStatus → Result TaskStatus
unfolding or_kept
apply_path p src dst =
    if p == codes "ip"
    then ok (record dst { ip = or_kept src.ip dst.ip })
    else if p == codes "node"
    then ok (record dst { node = or_kept src.node dst.node })
    else if p == codes "phase"
    then ok (record dst { phase = or_kept src.phase dst.phase })
    else if p == codes "id"
    then ok (record dst { id = or_kept src.id dst.id })
    else if p == codes "reason"
    then ok (record dst { reason = or_kept src.reason dst.reason })
    else if p == codes "pid"
    then ok (record dst { pid = or_kept src.pid dst.pid })
    else if p == codes "conditions"
    then ok (record dst { conditions = merge_if src.conditions dst.conditions })
    else err unknown_mask_path
  where
    merge_if : List Condition → List Condition → List Condition
    merge_if [] old = old
    merge_if (c ∷ cs) old = merge_conditions old (c ∷ cs)

apply_paths : List Text → TaskStatus → TaskStatus → Result TaskStatus
unfolding apply_path
apply_paths [] src dst = ok dst
apply_paths (p ∷ rest) src dst = elim (apply_path p src dst) [
  | ok next ↦ apply_paths rest src next
  | err e ↦ err e
  | panic ↦ panic
]

unfoldable pub apply_masked_status_update : List Text → TaskStatus → TaskStatus → Result TaskStatus
unfolding apply_paths
apply_masked_status_update [] src dst = err (status invalid_argument)
apply_masked_status_update (p ∷ rest) src dst = apply_paths (p ∷ rest) src dst

-- `status.Errorf(codes.InvalidArgument, "bad mask: %v", err)`
unfoldable pub or_bad_mask {ℓ} : {A : Type ℓ} → Result A → Result A
or_bad_mask (ok a) = ok a
or_bad_mask (err e) = err (status invalid_argument)
or_bad_mask panic = panic

module _ (db : ScanKv) (c : TaskCodec) (u : Uuids) (x : Exchange)
    (proto_equal : TaskConfig → TaskConfig → Bool) where
  open db use {kv}
  open x use {X}

  pub record State : Type 0 where
    pub tasks : kv.Store
    pub exchange : X

  -- a call of the repository, and one of the exchange
  pub in_repo : {A : Type 0} → (kv.Store → Result A × kv.Store) → Eff State A
  in_repo f s = let (r, t) = f s.tasks in (r, record s { tasks = t })

  pub publish : TaskEvent → Eff State (Unit {0})
  publish ev s = let (r, y) = x.publish ev s.exchange in (r, record s { exchange = y })

  unfoldable pub get : Ctx → KeyId → Eff State Task
  get ctx id s = (Repo.get db (task_resource c) task_prefixes ctx s.tasks id, s)

  unfoldable pub list : Ctx → Result (List Text) → Eff State (List Task)
  list ctx listed s = (Listing.list (task_resource c) ctx listed, s)

  pub update_repo : Ctx → ℕ → KeyId → Task → Eff State Task
  unfolding in_repo
  update_repo ctx now id task =
      in_repo (λ t. Repo.update_resource db (task_resource c) task_prefixes ctx now t id task)

  as_created : Fresh → Task → Task
  as_created fresh task =
      Repo.prepare db (task_resource c) task_prefixes
        (Repo.stamp db (task_resource c) task_prefixes u fresh task)

  -- The repository's `Create` sets the metadata of the task that it is given, which is the one that
  -- is published.
  unfoldable pub create : Ctx → Fresh → Task → Eff State Task
  unfolding ◌>>=◌ ◌>>◌ in_repo publish as_created
  create ctx fresh task = do
    new_task ← in_repo (λ t. Repo.create db (task_resource c) task_prefixes ctx u fresh t task)
    publish (task_create (as_created fresh task))
    pure new_task

  unfoldable pub delete : Ctx → KeyId → Eff State (Unit {0})
  unfolding ◌>>=◌ ◌>>◌ get in_repo publish
  delete ctx id = do
    task ← get ctx id
    in_repo (λ t. Repo.delete db (task_resource c) task_prefixes ctx t id)
    publish (task_delete task)

  -- `Kill`, `Stop` and `Start` publish an event about the stored task.
  pub signal : (Task → TaskEvent) → Ctx → KeyId → Eff State (Unit {0})
  unfolding ◌>>=◌ get publish
  signal ev ctx id = do task ← get ctx id; publish (ev task)

  unfoldable pub kill : Ctx → KeyId → Eff State (Unit {0})
  unfolding signal
  kill = signal task_kill

  unfoldable pub stop : Ctx → KeyId → Eff State (Unit {0})
  unfolding signal
  stop = signal task_stop

  unfoldable pub start : Ctx → KeyId → Eff State (Unit {0})
  unfolding signal
  start = signal task_start

  -- `updateStatus`
  unfoldable pub set_status : Ctx → ℕ → KeyId → TaskStatus → List Text → Eff State (Unit {0})
  unfolding ◌>>=◌ ◌>>◌ get or_bad_mask update_repo
  set_status ctx now id st mask = do
    existing_task ← get ctx id
    base ← lift (or_bad_mask (apply_masked_status_update mask st existing_task.status))
    update_repo ctx now id (record existing_task { status = base })
    pure tt

  -- Only a call of the lease's holder goes on: an error of `IsHolder` is dropped with its false.
  unfoldable pub if_holder : Result Bool → Eff State (Unit {0}) → Eff State (Unit {0})
  if_holder (ok holds) m s = let done = m s in if holds then done else (err not_holder, s)
  if_holder (err e) m s = (err not_holder, s)
  if_holder panic m s = (panic, s)

  -- `UpdateStatus`: `node` is the one of the request's metadata, if it names one. The server's lease
  -- manager works on the database that has the tasks.
  unfoldable pub update_status :
      LeaseCodec
      → (Text → Text → Text)
      → Manager
      → Ctx
      → ℕ
      → Option Text
      → KeyId
      → TaskStatus
      → List Text
      → Eff State (Unit {0})
  unfolding if_holder set_status
  update_status lc mac m ctx now none id st mask s = set_status ctx now id st mask s
  update_status lc mac m ctx now (some node) id st mask s =
      if_holder (Leases.is_holder db lc u mac m ctx s.tasks (Keys.to_text u id) node)
        (set_status ctx now id st mask) s

  pub publish_unless : Bool → TaskEvent → Eff State (Unit {0})
  unfolding publish
  publish_unless true ev s = (ok tt, s)
  publish_unless false ev s = publish ev s

  unfoldable pub update : Ctx → ℕ → KeyId → Task → Eff State (Unit {0})
  unfolding ◌>>=◌ get update_repo publish_unless
  update ctx now id task = do
    existing_task ← get ctx id
    updated ← update_repo ctx now id (record task { status = existing_task.status })
    publish_unless (proto_equal existing_task.config updated.config) (task_update updated)

  unfoldable pub condition : Ctx → ℕ → KeyId → List Condition → Eff State (Unit {0})
  unfolding ◌>>◌ set_status publish
  condition ctx now id conditions = do
    set_status ctx now id
        (record {
          phase = none;
          reason = none;
          node = none;
          ip = none;
          pid = none;
          id = none;
          conditions = conditions;
        })
        (codes "conditions" ∷ [])
    publish (condition_reported conditions)
