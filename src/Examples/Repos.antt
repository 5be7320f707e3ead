-- ===== src/Examples/Repos.antt =====
-- The repository on a store with one lease.
use blipblop.Base.{◌++◌, Text, ◌≡◌, refl, none, some, [], ◌∷◌, codes, list_beq}
use blipblop.Dict.{Dict}
use blipblop.Errs.{ok, err, repo_not_found}
use blipblop.Keys
use blipblop.Keys.{KeyId, encode_prefixed, uuid_len}
use blipblop.Repo
use blipblop.Repo.{load, follow, delete_by_uid, carry_meta}
use blipblop.Repo.Prefix.{lease_prefixes, lease_prefixes-IsApart}
use blipblop.Repo.Reading.{idx_id, name_id, uid_id}
use blipblop.Repo.Creating.{create-get}
use blipblop.Repo.Updating.{Updated, update_resource-Updated, update_resource_succeeds}
use blipblop.Api.{Lease}
use blipblop.Kv.Table.{table_kv, put}
use blipblop.Leases.{lease_resource}
use blipblop.Examples.Format.{lease_codec}
use blipblop.Examples.Setting.{raw_uuids, task_id, lease_uuid}
use blipblop.Examples.Storing.{first_env, held_lease, held_store, lease_bytes}

create_held :
    Repo.create table_kv
      (lease_resource lease_codec)
      lease_prefixes
      none
      raw_uuids
      first_env.fresh
      []
      held_lease
    ≡ (ok held_lease, held_store)
unfolding Keys.index Keys.name Keys.encode_prefixed Repo.get Repo.create put list_beq lease_prefixes
    lease_codec lease_bytes
create_held = refl

create-get_example :
    (Repo.get table_kv (lease_resource lease_codec) lease_prefixes none [] (name_id task_id)
      ≡ err repo_not_found)
    × (Repo.get table_kv
          (lease_resource lease_codec)
          lease_prefixes
          none
          held_store
          (uid_id lease_uuid)
        ≡ ok held_lease)
    × (Repo.get table_kv
          (lease_resource lease_codec)
          lease_prefixes
          none
          held_store
          (name_id task_id)
        ≡ ok held_lease)
    × (Repo.get table_kv
          (lease_resource lease_codec)
          lease_prefixes
          none
          held_store
          (idx_id task_id)
        ≡ ok held_lease)
create-get_example =
    create-get table_kv (lease_resource lease_codec) lease_prefixes raw_uuids first_env.fresh
      lease_prefixes-IsApart refl [] held_store held_lease held_lease create_held

abbrev updated_lease : Lease
updated_lease = record held_lease {
  meta = record held_lease.meta { resource_version = 2; generation = 2; updated = 10 };
}

abbrev updated_store : Dict Text Text
unfolding lease_bytes
updated_store =
    (codes "lease/" ++ 1 ∷ lease_uuid, lease_bytes updated_lease)
    ∷ (codes "i/lease/" ++ 2 ∷ task_id, 1 ∷ lease_uuid)
    ∷ (codes "i/idx/lease" ++ 3 ∷ task_id, 1 ∷ lease_uuid)
    ∷ []

update_held :
    Repo.update_resource table_kv
      (lease_resource lease_codec)
      lease_prefixes
      none
      10
      held_store
      (idx_id task_id)
      held_lease
    ≡ (ok updated_lease, updated_store)
unfolding Keys.encode_prefixed Keys.decode Repo.get Repo.update_resource put list_beq lease_prefixes
    lease_codec lease_bytes
update_held = refl

update_resource-Updated_example :
    Updated table_kv
      (lease_resource lease_codec)
      lease_prefixes
      lease_prefixes-IsApart
      10
      held_store
      (idx_id task_id)
      held_lease
      updated_lease
      updated_store
update_resource-Updated_example =
    update_resource-Updated table_kv (lease_resource lease_codec) lease_prefixes
      lease_prefixes-IsApart 10 held_store updated_store (idx_id task_id) held_lease updated_lease
      update_held

update_resource_succeeds_example :
    (uid : KeyId) × (Repo.update_resource table_kv
        (lease_resource lease_codec)
        lease_prefixes
        none
        10
        held_store
        (idx_id task_id)
        held_lease
      ≡ (
        ok (
            carry_meta table_kv
              (lease_resource lease_codec)
              lease_prefixes
              10
              held_lease
              held_lease),
        table_kv.kv.set held_store
            (encode_prefixed uid (codes "lease/"))
            (lease_bytes updated_lease),
      ))
    × (Repo.get table_kv
          (lease_resource lease_codec)
          lease_prefixes
          none
          (table_kv.kv.set held_store
            (encode_prefixed uid (codes "lease/"))
            (lease_bytes updated_lease))
          (idx_id task_id)
        ≡ ok (
            carry_meta table_kv
              (lease_resource lease_codec)
              lease_prefixes
              10
              held_lease
              held_lease))
unfolding carry_meta lease_codec lease_bytes lease_prefixes
update_resource_succeeds_example =
    update_resource_succeeds table_kv (lease_resource lease_codec) lease_prefixes
      lease_prefixes-IsApart 10 held_store (idx_id task_id) held_lease held_lease
      (lease_bytes updated_lease)
      (create-get table_kv (lease_resource lease_codec) lease_prefixes raw_uuids first_env.fresh
        lease_prefixes-IsApart refl [] held_store held_lease held_lease create_held).3
      refl

abbrev entry_key : Text
entry_key = encode_prefixed (idx_id task_id) lease_prefixes.idxprefix

entry_found : table_kv.kv.get held_store entry_key ≡ some (1 ∷ lease_uuid)
unfolding encode_prefixed lease_prefixes list_beq
entry_found = refl

entry_leads : Keys.decode (1 ∷ lease_uuid) ≡ ok (uid_id lease_uuid)
unfolding Keys.decode
entry_leads = refl

held_loads :
    load table_kv
      (lease_resource lease_codec)
      lease_prefixes
      held_store
      (encode_prefixed (uid_id lease_uuid) lease_prefixes.prefix)
    ≡ ok held_lease
unfolding Repo.get
held_loads =
    (create-get table_kv (lease_resource lease_codec) lease_prefixes raw_uuids first_env.fresh
      lease_prefixes-IsApart refl [] held_store held_lease held_lease create_held).1
