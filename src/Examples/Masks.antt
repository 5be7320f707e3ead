-- ===== src/Examples/Masks.antt =====
-- internal/app/node.go and internal/app/volume.go: masks and conditions at concrete inputs.
-- A task stands for the message whose status is updated.
use blipblop.Base.{
  ◌≡◌, refl, Option, none, some, List, [], ◌∷◌, codes, list_beq, list_eq, nat_eq, true,
}
use blipblop.Errs.{Result, ok}
use blipblop.Keys
use blipblop.Keys.{KeyId}
use blipblop.Api.{Task, Condition, NodeStatus, IpStatus}
use blipblop.Repo
use blipblop.Repo.Prefix.{task_prefixes, task_prefixes-IsApart}
use blipblop.Repo.Reading.{uid_id}
use blipblop.Kv.Table.{table_kv, put}
use blipblop.Services.Resources.{State}
use blipblop.Services.Statuses.{
  Status, node_status, empty_status, condition, apply_masked_update_node,
}
use blipblop.Services.Statuses.Masking.{
  phase_path, dns_path, masked, apply_masked_update_node-masked,
}
use blipblop.Services.Statuses.Storing.{ConditionStored, condition-ConditionStored}
use blipblop.Examples.Announcing.{messages, log, same_image, one_message}
use blipblop.Examples.TaskFormat.{task_codec}
use blipblop.Examples.Serving.{task_bytes}
use blipblop.Examples.Setting.{raw_uuids, task_id}

abbrev addresses : IpStatus
addresses = record { links = []; addresses = []; dns = some (codes "10.0.0.1") }

abbrev old_addresses : IpStatus
old_addresses = record { links = []; addresses = []; dns = none }

abbrev told : NodeStatus
told = record empty_status {
  phase = some (codes "ready");
  hostname = some (codes "a");
  ip = some addresses;
}

abbrev known : NodeStatus
known = record empty_status { version = some (codes "v1"); ip = some old_addresses }

apply_masked_update_node-masked_example :
    apply_masked_update_node (codes "phase" ∷ codes "ip.dns" ∷ []) told known
    ≡ ok (masked (phase_path ∷ dns_path ∷ []) told addresses known old_addresses)
apply_masked_update_node-masked_example =
    apply_masked_update_node-masked phase_path (dns_path ∷ []) told known addresses old_addresses
      refl refl

-- the result, as it is
masked_status :
    apply_masked_update_node (codes "phase" ∷ codes "ip.dns" ∷ []) told known
    ≡ ok (record known { phase = some (codes "ready"); ip = some addresses })
unfolding apply_masked_update_node list_beq
masked_status = refl

abbrev status_in_task : Status Task
status_in_task =
    node_status
      (λ t. some (record empty_status { phase = t.status.phase; conditions = t.status.conditions }))
      set
  where
    set : Task → Option NodeStatus → Task
    set t none = t
    set t (some st) = record t {
      status = record t.status { phase = st.phase; conditions = st.conditions };
    }

abbrev ready : Condition
ready = record {
  kind = some (codes "Ready");
  status = some true;
  reason = none;
  msg = none;
  last_transition_time = none;
}

abbrev quietly : List Condition → log.X → Result (Unit {0}) × log.X
quietly cs l = (ok tt, l)

abbrev reported : Result (Unit {0}) × State table_kv messages task_prefixes raw_uuids log same_image
reported =
    condition table_kv messages task_prefixes raw_uuids log same_image status_in_task quietly none 7
      (uid_id task_id) (ready ∷ []) one_message

reports :
    condition table_kv messages task_prefixes raw_uuids log same_image status_in_task quietly none 7
      (uid_id task_id)
      (ready ∷ [])
      one_message
    ≡ (ok tt, reported.1)
unfolding condition node_status Keys.encode_prefixed Repo.get Repo.update_resource put list_beq
    task_prefixes task_codec task_bytes
reports = refl

condition-ConditionStored_example :
    ConditionStored table_kv messages task_prefixes task_prefixes-IsApart raw_uuids log same_image
      status_in_task quietly 7
      (uid_id task_id)
      (ready ∷ [])
      one_message
      reported.1
condition-ConditionStored_example =
    condition-ConditionStored table_kv messages task_prefixes task_prefixes-IsApart raw_uuids log
      same_image status_in_task quietly 7 (uid_id task_id) (ready ∷ []) one_message reported.1
      reports
