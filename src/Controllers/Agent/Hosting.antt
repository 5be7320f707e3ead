-- ===== src/Controllers/Agent/Hosting.antt =====
-- What the node controller calls: the container runtime, the network manager, the volume attacher,
-- the API's clients, the store of refresh tokens and the work pool. Each keeps a state of its own.
use blipblop.Base.{ℕ, Text, Bool, List}
use blipblop.Errs.{Err, Result}
use blipblop.Labels.{Label}
use blipblop.Api.{Node, Task, TaskStatus, Lease, Mount}
use blipblop.Effect.{Eff}
use blipblop.Networking.{CniPort}

-- the interface of pkg/runtime/runtime.go, as far as the controller calls it
pub record Runtime : Type 1 where
  pub Containers : Type 0
  pub list : Eff Containers (List Task)
  pub find : Text → Eff Containers Task
  pub remove : Task → Eff Containers (Unit {0})
  pub kill : Task → Eff Containers (Unit {0})
  pub stop : Task → Eff Containers (Unit {0})
  pub pull : Task → Eff Containers (Unit {0})
  -- with the labels that are added to the container's
  pub run : Task → Label → Eff Containers (Unit {0})
  pub cleanup : Text → Eff Containers (Unit {0})
  pub labels : Text → Eff Containers Label
  pub name_of : Text → Eff Containers Text
  pub pid : Text → Eff Containers ℕ

-- `networking.Manager`; Attach returns the address and the gateway of eth1, or empty strings
pub record Network : Type 1 where
  pub Links : Type 0
  pub attach : Text → ℕ → List CniPort → Eff Links (Text × Text)
  pub detach : Text → ℕ → List CniPort → Eff Links (Unit {0})

-- `volume.Attacher`; PrepareMounts returns the mounts that the task has after it
pub record Attacher : Type 1 where
  pub Volumes : Type 0
  pub prepare_mounts : Node → List Mount → Eff Volumes (List Mount)
  pub detach_mounts : Node → List Mount → Eff Volumes (Unit {0})

-- The clients of the API; a lease call that succeeds returns the token and the fencing token.
pub record Api : Type 1 where
  pub Server : Type 0
  pub get_node : Text → Eff Server Node
  pub get_task : Text → Eff Server Task
  pub acquire : Text → Text → Eff Server (Lease × Text × ℕ)
  pub renew : Text → Text → Text → Eff Server (Lease × Text × ℕ)
  pub release : Text → Text → Text → Eff Server (Unit {0})
  pub set_status : Text → TaskStatus → List Text → Eff Server (Unit {0})

-- `store.Store`
pub record Tokens : Type 1 where
  pub Files : Type 0
  pub load : Text → Files → Result Text
  pub save : Text → Text → Eff Files (Unit {0})
  pub forget_token : Text → Eff Files (Unit {0})

-- The handlers that the controller puts into the work pool.
pub data Work : Type 0 where
  start_work : Task → Work
  stop_work : Task → Work
  kill_work : Task → Work
  update_work : Node → Work

pub record Pool : Type 1 where
  pub Pending : Type 0
  pub enqueue : Text → Text → Work → Eff Pending (Unit {0})

pub record Host : Type 1 where
  pub rt : Runtime
  pub net : Network
  pub vol : Attacher
  pub api : Api
  pub tokens : Tokens
  pub pool : Pool
  -- the node that the controller runs on, from its configuration
  pub own : Node
  pub err_text : Err → Text
  -- `proto.Equal`
  pub task_equal : Task → Task → Bool
  -- `%d`, and `strconv.Atoi` as an unsigned number
  pub print : ℕ → Text
  pub atoi : Text → Result ℕ
