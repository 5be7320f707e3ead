-- ===== src/Examples/TaskFormat.antt =====
-- A byte format of tasks, in place of protobuf.
use blipblop.Base.{
  ℕ, zero, suc, Text, ◌≡◌, refl, ap, Bool, true, false, Option, none, some, List, [], ◌∷◌,
}
use blipblop.Api.{Task, TaskConfig, TaskStatus, Condition, EnvVar, PortMapping, Mount}
use blipblop.Services.Tasks.{TaskCodec}
use blipblop.Examples.Format.{Field, both, by, list, text, number, meta, take_all}

unfoldable pub to_list : {A : Type 0} → Option A → List A
to_list none = []
to_list (some a) = a ∷ []

unfoldable pub of_list : {A : Type 0} → List A → Option A
of_list [] = none
of_list (a ∷ rest) = some a

pub of_list-to_list : {A : Type 0} (o : Option A) → of_list (to_list o) ≡ o
unfolding of_list to_list
of_list-to_list none = refl
of_list-to_list (some a) = refl

unfoldable pub maybe : {A : Type 0} → Field A → Field (Option A)
unfolding by list of_list to_list
maybe f = by (list f) to_list of_list of_list-to_list

unfoldable pub to_number : Bool → ℕ
to_number true = 1
to_number false = 0

unfoldable pub of_number : ℕ → Bool
of_number zero = false
of_number (suc n) = true

pub of_number-to_number : (b : Bool) → of_number (to_number b) ≡ b
unfolding of_number to_number
of_number-to_number true = refl
of_number-to_number false = refl

unfoldable pub flag : Field Bool
unfolding by number of_number to_number
flag = by number to_number of_number of_number-to_number

unfoldable pub condition : Field Condition
unfolding by both text maybe flag number
condition =
    by
      (both (both (maybe text) (maybe flag)) (both (both (maybe text) (maybe text)) (maybe number)))
      (λ x. ((x.kind, x.status), ((x.reason, x.msg), x.last_transition_time)))
      (λ ((kind, status), ((reason, msg), time)). record {
        kind = kind;
        status = status;
        reason = reason;
        msg = msg;
        last_transition_time = time;
      })
      (λ x. refl)

unfoldable pub status : Field TaskStatus
unfolding by both text maybe number list condition
status =
    by
      (both (both (maybe text) (both (maybe text) (maybe text)))
        (both (both (maybe text) (maybe number)) (both (maybe text) (list condition))))
      (λ x. ((x.phase, (x.reason, x.node)), ((x.ip, x.pid), (x.id, x.conditions))))
      (λ ((phase, (reason, node)), ((ip, pid), (uid, conditions))). record {
        phase = phase;
        reason = reason;
        node = node;
        ip = ip;
        pid = pid;
        id = uid;
        conditions = conditions;
      })
      (λ x. refl)

unfoldable pub envvar : Field EnvVar
unfolding by both text
envvar =
    by (both text text) (λ x. (x.name, x.value)) (λ (n, v). record { name = n; value = v })
      (λ x. refl)

unfoldable pub port_mapping : Field PortMapping
unfolding by both text number
port_mapping =
    by (both (both text (both number number)) (both text text))
      (λ x. ((x.name, (x.host_port, x.target_port)), (x.protocol, x.host_ip)))
      (λ ((n, (host, target)), (protocol, ip)). record {
        name = n;
        host_port = host;
        target_port = target;
        protocol = protocol;
        host_ip = ip;
      })
      (λ x. refl)

unfoldable pub mount : Field Mount
unfolding by both text list
mount =
    by (both (both text (both text text)) (both (both text text) (list text)))
      (λ x. ((x.name, (x.destination, x.kind)), ((x.volume, x.source), x.options)))
      (λ ((n, (destination, kind)), ((volume, source), options)). record {
        name = n;
        destination = destination;
        kind = kind;
        volume = volume;
        source = source;
        options = options;
      })
      (λ x. refl)

unfoldable pub config : Field TaskConfig
unfolding by both text list envvar port_mapping mount
config =
    by
      (both (both text (both (list text) (list envvar)))
        (both (both (list mount) (list port_mapping)) (list (both text text))))
      (λ x. ((x.image, (x.args, x.envvars)), ((x.mounts, x.port_mappings), x.node_selector)))
      (λ ((image, (args, envvars)), ((mounts, ports), selector)). record {
        image = image;
        args = args;
        envvars = envvars;
        mounts = mounts;
        port_mappings = ports;
        node_selector = selector;
      })
      (λ x. refl)

unfoldable pub task : Field Task
unfolding by both meta config status
task =
    by (both meta (both config status)) (λ x. (x.meta, (x.config, x.status)))
      (λ (m, (g, s)). record { meta = m; config = g; status = s }) (λ x. refl)

unfoldable pub task_codec : TaskCodec
unfolding take_all task
task_codec = record {
  marshal = λ x. some (task.put x []);
  unmarshal = λ b. take_all (task.take b);
  unmarshal-marshal = λ x b h. rw (← some-injective h) (ap take_all (task.take-put x []));
}
  where
    some-injective : {a b : Text} → some a ≡ some b → a ≡ b
    some-injective h = cc h
