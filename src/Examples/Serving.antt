-- ===== src/Examples/Serving.antt =====
-- The task service, with one stored task.
use blipblop.Base.{
  ◌++◌, Text, ◌≡◌, refl, Bool, none, some, List, [], ◌∷◌, ◌++◌, codes, list_beq, list_eq, nat_eq,
  ◌==◌,
}
use blipblop.Errs.{Result, ok}
use blipblop.Keys
use blipblop.Keys.{KeyId}
use blipblop.Api.{Task, TaskStatus, TaskConfig}
use blipblop.Repo
use blipblop.Repo.Prefix.{task_prefixes, lease_prefixes}
use blipblop.Leases
use blipblop.Repo.Reading.{uid_id}
use blipblop.Kv.Table.{table_kv, put}
use blipblop.Services.Tasks.{Exchange, TaskEvent, State, update_status, apply_masked_status_update}
use blipblop.Services.Tasks.Updating.{MayTell, StatusSet, update_status-StatusSet}
use blipblop.Examples.TaskFormat.{task, task_codec}
use blipblop.Examples.Setting.{raw_uuids, mac, manager, task_id, node_a}
use blipblop.Examples.Format.{lease_codec}
use blipblop.Examples.Storing.{held_store, lease_bytes}

abbrev pub empty_status : TaskStatus
empty_status = record {
  phase = none;
  reason = none;
  node = none;
  ip = none;
  pid = none;
  id = none;
  conditions = [];
}

abbrev pub some_task : Task
some_task = record {
  meta = record {
    name = task_id;
    uid = task_id;
    labels = [];
    resource_version = 1;
    generation = 1;
    created = 0;
    updated = 0;
  };
  config = record {
    image = codes "img";
    args = [];
    envvars = [];
    mounts = [];
    port_mappings = [];
    node_selector = [];
  };
  status = empty_status;
}

-- an exchange that keeps what it is given
abbrev log : Exchange
log = record { X = List TaskEvent; publish = λ ev l. (ok tt, ev ∷ l) }

abbrev same_image : TaskConfig → TaskConfig → Bool
same_image a b = a.image == b.image

unfoldable pub task_bytes : Task → Text
unfolding task
task_bytes t = task.put t []

abbrev one_task : State table_kv task_codec raw_uuids log same_image
one_task = record {
  tasks = (codes "task/" ++ 1 ∷ task_id, task_bytes some_task) ∷ [];
  exchange = [];
}

abbrev pub new_task : Task
new_task = record some_task { config = record some_task.config { image = codes "new" } }

abbrev running : TaskStatus
running = record empty_status { phase = some (codes "Running"); node = some node_a }

-- the task with its lease, which node a holds
abbrev leased_task : State table_kv task_codec raw_uuids log same_image
leased_task = record one_task { tasks = one_task.tasks ++ held_store }

abbrev phase_set : Result (Unit {0}) × State table_kv task_codec raw_uuids log same_image
phase_set =
    update_status table_kv task_codec raw_uuids log same_image lease_codec mac manager none 7
      (some node_a) (uid_id task_id) running (codes "phase" ∷ []) leased_task

update_status_returns :
    update_status table_kv task_codec raw_uuids log same_image lease_codec mac manager none 7
      (some node_a)
      (uid_id task_id)
      running
      (codes "phase" ∷ [])
      leased_task
    ≡ (ok tt, phase_set.1)
unfolding update_status Keys.to_text Keys.index Keys.name Keys.encode_prefixed Keys.decode
    Leases.is_holder Leases.held_by Repo.get Repo.update_resource put list_beq task_prefixes
    lease_prefixes task_codec task_bytes lease_codec lease_bytes apply_masked_status_update
update_status_returns = refl

update_status-StatusSet_example :
    MayTell table_kv task_codec raw_uuids log same_image lease_codec mac manager leased_task task_id
      node_a
    × StatusSet table_kv task_codec raw_uuids log same_image
        (uid_id task_id)
        running
        (codes "phase" ∷ [])
        leased_task
        phase_set.1
unfolding Keys.to_text
update_status-StatusSet_example =
    update_status-StatusSet table_kv task_codec raw_uuids log same_image lease_codec mac manager 7
      node_a (uid_id task_id) running (codes "phase" ∷ []) leased_task phase_set.1
      update_status_returns
