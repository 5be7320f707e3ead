-- ===== src/Examples/Controlling.antt =====
-- The scheduler controller on a server with two connected nodes, the first of which holds the lease
-- of the task.
use mathlib.Core.Path.{subst}
use blipblop.Base.{ℕ, Text, ◌≡◌, ◌≢◌, refl, true, false, List, [], ◌∷◌, codes, list_beq, All}
use blipblop.Errs.{Err, Result, ok}
use blipblop.Keys
use blipblop.Api.{Node, Task}
use blipblop.Repo
use blipblop.Repo.Prefix.{lease_prefixes}
use blipblop.Kv.Table.{table_kv, put, drop_key, keys_of, starts_with}
use blipblop.Leases.Linking.{IsLinked}
use blipblop.Leases.Release.{Linked}
use blipblop.Leases
use blipblop.Sessions
use blipblop.Scheduling.{schedule}
use blipblop.Labels.{matches, new_composite_selector_from_map}
use blipblop.Services.Leasing.{get_lease, revoke_lease}
use blipblop.Controllers.Client.{Client, ClientLaws, NodeEvent}
use blipblop.Controllers.Scheduler.{or_nil, start, update_task, reschedule}
use blipblop.Controllers.Scheduler.Starting.{Started, start-Started}
use blipblop.Controllers.Scheduler.Moving.{IsListing, Updated, update_task-Updated}
use blipblop.Controllers.Server.{Others, Server, server_client, of_leasing, of_rest, of_sessions}
use blipblop.Controllers.Server.Answering.{server_laws, sound_of_linked}
use blipblop.Examples.Format.{lease_codec}
use blipblop.Examples.Setting.{raw_uuids, mac, manager, task_id, node_a, node_b}
use blipblop.Examples.Storing.{held_store, get_held, lease_bytes}
use blipblop.Examples.Leasing.{held-Linked}
use blipblop.Examples.Serving.{some_task}

held-IsLinked : IsLinked table_kv lease_codec raw_uuids mac manager held_store task_id
held-IsLinked l h =
    subst (Linked table_kv lease_codec raw_uuids mac manager held_store task_id) (cc (h, get_held))
      held-Linked

abbrev node_in : Text → Text → Node
node_in uid zone = record {
  meta = record {
    name = uid;
    uid = uid;
    labels = (codes "zone", zone) ∷ [];
    resource_version = 1;
    generation = 1;
    created = 0;
    updated = 0;
  };
  phase = codes "ready";
}

abbrev nodes : List Node
nodes = node_in node_a (codes "x") ∷ node_in node_b (codes "y") ∷ []

abbrev others : Others
others = record {
  Rest = Unit {0};
  list_nodes = λ w. ok nodes;
  get_node = λ uid w. ok (node_in node_a (codes "x"));
  list_tasks = λ w. ok [];
  get_task = λ uid w. ok some_task;
  set_status = λ uid st mask w. (ok tt, w);
  report = λ uid r w. w;
  enqueue = λ n uid work t w. (ok tt, w);
  pack = λ t n. ok tt;
}

abbrev the_client : Client
the_client = server_client table_kv lease_codec raw_uuids mac manager 60 others true

abbrev the_laws : ClientLaws the_client
the_laws = server_laws table_kv lease_codec raw_uuids mac manager 60 others true

abbrev both_online : Sessions.Manager NodeEvent
both_online = record {
  sessions = (node_a, 0) ∷ (node_b, 1) ∷ [];
  heap = λ p. record {
    node_uid = node_a;
    node = node_in node_a (codes "x");
    out = [];
    is_closed = false;
  };
  next = 2;
  out_buf = 64;
  published = [];
}

abbrev server : Server table_kv lease_codec raw_uuids mac manager 60 others true
server = record {
  leasing = record { leases = held_store; acquired = [] };
  sessions = both_online;
  rest = tt;
}

-- It may run in zone y only.
abbrev moved_task : Task
moved_task = record some_task {
  config = record some_task.config { node_selector = (codes "zone", codes "y") ∷ [] };
}

abbrev first : ℕ → ℕ
first n = 0

abbrev no_text : Err → Text
no_text e = []

the_Sound : the_laws.Sound server task_id
the_Sound =
    sound_of_linked table_kv lease_codec raw_uuids mac manager 60 others true server task_id
      held-IsLinked

abbrev moved : Result (Unit {0}) × the_client.World
moved = update_task the_client first no_text moved_task server

move_returns : update_task the_client first no_text moved_task server ≡ (ok tt, moved.1)
unfolding update_task start schedule matches get_lease revoke_lease Leases.get Leases.revoke
    Keys.index Keys.encode_prefixed Keys.decode Repo.get Repo.delete put list_beq lease_prefixes
    lease_codec lease_bytes Sessions.send_to_node Sessions.is_node_connected of_sessions of_rest
    of_leasing or_nil reschedule new_composite_selector_from_map Keys.parse_str drop_key keys_of
    starts_with
move_returns = refl

listed-named : (w : the_client.World) → IsListing the_client the_laws first no_text w
listed-named w ns h =
    subst (All (λ m. m.meta.uid ≢ [])) {x = nodes} (cc h) (λ e. cc e, (λ e. cc e, tt))

update_task-Updated_example :
    Updated the_client the_laws first no_text (λ k h. h) listed-named moved_task server moved.1
update_task-Updated_example =
    update_task-Updated the_client the_laws first no_text (λ k h. h) listed-named moved_task server
      moved.1 the_Sound move_returns

abbrev started : Result Node × the_client.World
started = start the_client first no_text moved_task server

start_returns :
    start the_client first no_text moved_task server ≡ (ok (node_in node_b (codes "y")), started.1)
unfolding start schedule matches get_lease revoke_lease Leases.get Leases.revoke Keys.index
    Keys.encode_prefixed Keys.decode Repo.get Repo.delete put list_beq lease_prefixes lease_codec
    lease_bytes Sessions.send_to_node Sessions.is_node_connected of_sessions of_rest of_leasing
    new_composite_selector_from_map Keys.parse_str drop_key keys_of starts_with
start_returns = refl

start-Started_example :
    (ns : List Node) × Started the_client the_laws first no_text moved_task
      (node_in node_b (codes "y"))
      ns
      server
      started.1
start-Started_example =
    start-Started the_client the_laws first no_text moved_task (node_in node_b (codes "y")) server
      started.1 (λ k h. h) (listed-named server) the_Sound start_returns
