-- ===== src/Examples/Pure.antt =====
-- Concrete errors, keys, labels, nodes and transactions.
use blipblop.Base.{
  list_eq, nat_eq, Text, ◌≡◌, ◌↔◌, refl, ◌⊎◌, true, none, some, List, [], ◌∷◌, codes, Any,
}
use blipblop.Dict.{Dict, lookup}
use blipblop.Errs.{ok, err, no_matching_node}
use blipblop.Keys.{KeyId, tag_uid, encode_prefixed, parse_bytes}
use blipblop.Keys.Codec.{parse_bytes-encode_prefixed, uuid-IsKeyId}
use blipblop.Labels.{Label, value_at, matches, new_composite_selector_from_map}
use blipblop.Labels.Laws.{new_composite_selector_from_map_iff}
use blipblop.Api.{Node, Task}
use blipblop.Scheduling.{schedule}
use blipblop.Scheduling.Placement.{IsFit, schedule_lem}
use blipblop.Kv.Memory.{Op, sets, deletes, run_update, direct}
use blipblop.Kv.Memory.Overlay.{run_update_lem}
use blipblop.Examples.Setting.{task_id}

abbrev task_key : KeyId
task_key = record { tag = tag_uid; raw = task_id }

parse_bytes-encode_prefixed_example :
    parse_bytes (codes "task/") (encode_prefixed task_key (codes "task/")) ≡ ok task_key
parse_bytes-encode_prefixed_example =
    parse_bytes-encode_prefixed (codes "task/") task_key (uuid-IsKeyId task_id refl)

abbrev zone_a : Label
zone_a = (codes "zone", codes "a") ∷ []

abbrev two_labels : Label
two_labels = (codes "arch", codes "arm") ∷ zone_a

new_composite_selector_from_map_iff_example :
    (matches (new_composite_selector_from_map zone_a) two_labels ≡ true)
    ↔ ((k v : Text) → lookup k zone_a ≡ some v → value_at k two_labels ≡ v)
new_composite_selector_from_map_iff_example =
    new_composite_selector_from_map_iff zone_a two_labels (refl, tt)

abbrev node_of : Text → Label → Node
node_of nm l = record {
  meta = record {
    name = nm;
    uid = [];
    labels = l;
    resource_version = 1;
    generation = 1;
    created = 0;
    updated = 0;
  };
  phase = codes "ready";
}

abbrev nodes : List Node
nodes = node_of (codes "n1") [] ∷ node_of (codes "n2") zone_a ∷ []

abbrev zone_task : Task
zone_task = record {
  meta = record {
    name = codes "t";
    uid = [];
    labels = [];
    resource_version = 1;
    generation = 1;
    created = 0;
    updated = 0;
  };
  config = record {
    image = codes "img";
    args = [];
    envvars = [];
    mounts = [];
    port_mappings = [];
    node_selector = zone_a;
  };
  status = record {
    phase = none;
    reason = none;
    node = none;
    ip = none;
    pid = none;
    id = none;
    conditions = [];
  };
}

schedule_lem_example :
    ((node : Node) × (schedule (λ n. 0) zone_task nodes ≡ ok node)
      × IsFit zone_task node
      × Any (λ m. m ≡ node) nodes)
    ⊎ ((schedule (λ n. 0) zone_task nodes ≡ err no_matching_node) × ¬ Any (IsFit zone_task) nodes)
schedule_lem_example = schedule_lem (λ n. 0) zone_task nodes (λ n h. h)

abbrev some_ops : List Op
some_ops = sets (codes "k") (codes "v") ∷ deletes (codes "j") ∷ sets (codes "j") (codes "w") ∷ []

abbrev some_map : Dict Text Text
some_map = (codes "j", codes "old") ∷ []

run_update_lem_example :
    lookup (codes "j") (run_update none some_ops none some_map).1
    ≡ lookup (codes "j") (direct some_map some_ops)
run_update_lem_example = run_update_lem some_map some_ops none (codes "j")
