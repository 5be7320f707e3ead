-- ===== src/Examples/Agents.antt =====
-- A node's controller on a host whose parts keep lists.
use blipblop.Base.{
  ℕ, Text, ◌≡◌, refl, true, Option, none, some, List, [], ◌∷◌, ◌++◌, ◌||◌, codes, list_beq, list_eq,
  nat_eq, ◌==◌, if◌then◌else◌,
}
use blipblop.Dict.{Dict, lookup, insert, remove}
use blipblop.Errs.{
  Err, Result, ok, err, status, already_exists, os_not_exist, containerd_not_found, is_conflict,
  is_permission_denied,
}
use blipblop.Api.{Node, Task}
use blipblop.Effect.{◌>>=◌, run_next}
use blipblop.Conditions.{new_for_resource, stopping}
use blipblop.Controllers.Agent.{State, get_node}
use blipblop.Controllers.Agent.Hosting.{Host}
use blipblop.Controllers.Agent.Working.{end_task, start_task}
use blipblop.Controllers.Agent.Keeping.{renew_lease, renew_with, process_schedule, renew_one}
use blipblop.Controllers.Agent.Halting.{Wound, at_stop}
use blipblop.Controllers.Agent.Releasing.{Released, end_task-Released}
use blipblop.Controllers.Agent.Provisioning.{Outcome, start_task-Outcome}
use blipblop.Controllers.Agent.Leasing.{Scheduled, process_schedule-Scheduled, renew_one-Released}
use blipblop.Examples.Setting.{node_a}
use blipblop.Examples.Serving.{some_task, new_task}
use blipblop.Examples.Storing.{held_lease}

abbrev or_err : {A : Type 0} → Err → Option A → Result A
or_err e none = err e
or_err e (some a) = ok a

abbrev the_node : Node
the_node = record { meta = record some_task.meta { name = codes "a"; uid = node_a }; phase = [] }

-- The server refuses each renewal.
abbrev host : Host
host = record {
  rt = record {
    Containers = Dict Text Task;
    list = λ c. (ok (some_task ∷ []), c);
    find = λ uid c. (or_err containerd_not_found (lookup uid c), c);
    remove = λ t c. (ok tt, remove t.meta.uid c);
    kill = λ t c. (ok tt, c);
    stop = λ t c. (ok tt, c);
    pull = λ t c. (ok tt, c);
    run = λ t ls c. (ok tt, insert t.meta.uid t c);
    cleanup = λ uid c. (ok tt, c);
    labels = λ uid c. (ok [], c);
    name_of = λ uid c. (ok uid, c);
    pid = λ uid c. (ok 7, c);
  };
  net = record {
    Links = Dict Text ℕ;
    attach = λ uid pid ports l. (ok (codes "10.0.0.2", codes "10.0.0.1"), insert uid pid l);
    detach = λ uid pid ports l. (ok tt, remove uid l);
  };
  vol = record {
    Volumes = ℕ;
    prepare_mounts = λ n ms v. (ok ms, v);
    detach_mounts = λ n ms v. (ok tt, v);
  };
  api = record {
    Server = List Text;
    get_node = λ uid w. (ok the_node, w);
    get_task = λ uid w. (ok some_task, w);
    acquire = λ task node w. (ok (held_lease, codes "token", 1), w ++ codes "acquire" ∷ []);
    renew = λ task node token w. (err (status already_exists), w);
    release = λ task node token w. (ok tt, w ++ codes "release" ∷ []);
    set_status = λ task st mask w. (ok tt, w ++ mask);
  };
  tokens = record {
    Files = Dict Text Text;
    load = λ uid f. or_err os_not_exist (lookup uid f);
    save = λ uid token f. (ok tt, insert uid token f);
    forget_token = λ uid f. (ok tt, remove uid f);
  };
  pool = record { Pending = List Text; enqueue = λ name uid work p. (ok tt, p ++ uid ∷ []) };
  own = the_node;
  err_text = λ e. [];
  task_equal = λ a b. a.config.image == b.config.image;
  print = λ n. codes "1";
  atoi = λ t. ok 1;
}

abbrev at_work : State host
at_work = record {
  operations = (node_a, stopping) ∷ [];
  epochs = (some_task.meta.uid, 1) ∷ [];
  containers = (some_task.meta.uid, some_task) ∷ [];
  links = (some_task.meta.uid, 7) ∷ [];
  volumes = 0;
  server = [];
  files = (some_task.meta.uid, codes "token") ∷ [];
  pending = [];
  task = some_task;
  report = new_for_resource some_task.meta;
  reported = [];
}

got_node : (get_node host at_work).0 ≡ ok the_node
unfolding get_node
got_node = refl

end_task-Released_example :
    Released host some_task.meta.uid node_a at_work (end_task host host.rt.stop some_task at_work).1
end_task-Released_example =
    end_task-Released host host.rt.stop some_task the_node at_work (λ token w n. cc n) got_node

start_task-Outcome_example :
    Outcome host new_task at_work (start_task host new_task at_work)
    × ((k : Text)
        → lookup k (start_task host new_task at_work).1.operations
          ≡ (if new_task.meta.uid == k then none else lookup k at_work.operations))
    × ((start_task host new_task at_work).1.epochs ≡ at_work.epochs)
    × ((start_task host new_task at_work).1.files ≡ at_work.files)
start_task-Outcome_example = start_task-Outcome host new_task at_work

process_schedule-Scheduled_example :
    Scheduled host some_task the_node at_work (process_schedule host some_task the_node at_work).1
process_schedule-Scheduled_example = process_schedule-Scheduled host some_task the_node at_work

refused_so : renew_lease host some_task at_work ≡ (err (status already_exists), at_work)
unfolding renew_lease renew_with get_node ◌>>=◌ run_next list_beq
refused_so = refl

held_so :
    is_conflict (some (status already_exists))
      || is_permission_denied (some (status already_exists))
    ≡ true
unfolding is_conflict is_permission_denied
held_so = refl

renew_one-Released_example :
    Released host some_task.meta.uid node_a at_work (renew_one host some_task at_work).1
    × Wound host host.rt.stop node_a
        (at_stop host some_task at_work)
        (renew_one host some_task at_work).1.containers
renew_one-Released_example =
    renew_one-Released host some_task the_node (status already_exists) at_work at_work refused_so
      held_so (λ token w n. cc n) got_node
