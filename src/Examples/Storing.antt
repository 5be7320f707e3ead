-- ===== src/Examples/Storing.antt =====
-- Stores with one lease, and what the program returned on the way there.
use blipblop.Base.{◌++◌, list_beq, Text, none, ◌≡◌, refl, [], ◌∷◌, codes}
use blipblop.Dict.{Dict}
use blipblop.Errs.{ok}
use blipblop.Api.{Lease}
use blipblop.Keys
use blipblop.Repo
use blipblop.Repo.Prefix.{lease_prefixes}
use blipblop.Kv.Table.{table_kv, put}
use blipblop.Leases.{Env, acquire, get, renew}
use blipblop.Examples.Format.{lease, lease_codec}
use blipblop.Examples.Setting.{raw_uuids, mac, manager, task_id, lease_uuid, node_a, env_at}

-- Node a acquires the task at time 5, with the token "t1".
abbrev pub first_env : Env
first_env = env_at 5 (codes "t1")

abbrev pub held_lease : Lease
held_lease = record {
  version = codes "lease/v1";
  meta = record {
    name = task_id;
    uid = lease_uuid;
    labels = [];
    resource_version = 1;
    generation = 1;
    created = 5;
    updated = 5;
  };
  config = record {
    task_id = task_id;
    node_id = node_a;
    acquired_at = 5;
    renew_time = 5;
    expires_at = 60_000_000_005;
    ttl_seconds = 60;
    fencing_token = 1;
  };
  status = record { token_hash = codes "keyt1" };
}

unfoldable pub lease_bytes : Lease → Text
unfolding lease
lease_bytes l = lease.put l []

abbrev pub held_store : Dict Text Text
held_store =
    (codes "i/lease/" ++ 2 ∷ task_id, 1 ∷ lease_uuid)
    ∷ (codes "i/idx/lease" ++ 3 ∷ task_id, 1 ∷ lease_uuid)
    ∷ (codes "lease/" ++ 1 ∷ lease_uuid, lease_bytes held_lease)
    ∷ []

pub first_acquire :
    acquire table_kv lease_codec raw_uuids mac manager none first_env [] task_id node_a 60
    ≡ (ok (held_lease, codes "t1"), held_store)
unfolding acquire Keys.index Keys.name Keys.encode_prefixed Repo.get Repo.create put list_beq
    lease_prefixes lease_codec lease_bytes
first_acquire = refl

pub get_held :
    get table_kv lease_codec raw_uuids mac manager none held_store task_id ≡ ok held_lease
unfolding get Keys.index Keys.name Keys.encode_prefixed Repo.get Repo.create put list_beq
    lease_prefixes lease_codec lease_bytes Keys.decode
get_held = refl

-- At time 10 it renews the lease, and is given the token "t2".
abbrev pub renew_env : Env
renew_env = env_at 10 (codes "t2")

abbrev pub renewed_lease : Lease
renewed_lease = record held_lease {
  meta = record held_lease.meta { resource_version = 2; generation = 2; updated = 10 };
  config = record held_lease.config {
    acquired_at = 10;
    renew_time = 10;
    expires_at = 60_000_000_010;
  };
  status = record { token_hash = codes "keyt2" };
}

abbrev pub renewed_store : Dict Text Text
renewed_store =
    (codes "lease/" ++ 1 ∷ lease_uuid, lease_bytes renewed_lease)
    ∷ (codes "i/lease/" ++ 2 ∷ task_id, 1 ∷ lease_uuid)
    ∷ (codes "i/idx/lease" ++ 3 ∷ task_id, 1 ∷ lease_uuid)
    ∷ []

pub renew_returns :
    renew table_kv lease_codec raw_uuids mac manager none renew_env held_store task_id node_a 60
      (codes "t1")
    ≡ (ok (renewed_lease, codes "t2"), renewed_store)
unfolding renew Keys.index Keys.encode_prefixed Keys.decode Repo.get Repo.update_resource put
    list_beq lease_prefixes lease_codec lease_bytes
renew_returns = refl
