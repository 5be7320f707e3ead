-- ===== src/Examples/Announcing.antt =====
-- The service of a message type, for tasks with the ranges of volumes and of nodes.
use blipblop.Base.{Bool, List, [], ◌∷◌, ◌++◌, codes, list_eq, nat_eq, ◌==◌}
use blipblop.Errs.{ok}
use blipblop.Api.{Task}
use blipblop.Repo.{Resource}
use blipblop.Repo.Prefix.{task_prefixes}
use blipblop.Kv.Table.{table_kv}
use blipblop.Services.Tasks.{task_resource}
use blipblop.Services.Resources.{Hub, ResourceEvent, State}
use blipblop.Examples.TaskFormat.{task_codec}
use blipblop.Examples.Serving.{some_task, task_bytes}
use blipblop.Examples.Setting.{raw_uuids, task_id}

abbrev pub messages : Resource
messages = task_resource task_codec

-- a hub that keeps what it is given
abbrev pub log : Hub Task
log = record {
  X = List (ResourceEvent Task);
  forward = λ ev l. (ok tt, ev ∷ l);
  set_session = λ uid t l. (ok tt, l);
}

abbrev pub same_image : Task → Task → Bool
same_image a b = a.config.image == b.config.image

abbrev pub one_message : State table_kv messages task_prefixes raw_uuids log same_image
one_message = record {
  stored = (codes "task/" ++ 1 ∷ task_id, task_bytes some_task) ∷ [];
  outside = [];
}
