-- ===== src/Examples/Leasing.antt =====
-- The theorems on leases at a task that node a holds.
use blipblop.Base.{none, list_beq, Text, ◌≡◌, refl, ◌⊎◌, inr, List, [], ◌∷◌, codes, arith, All}
use blipblop.Dict.{Dict}
use blipblop.Errs.{Err, ok, err, repo_not_found, not_holder, invalid_token}
use blipblop.Keys.{decode, encode_prefixed}
use blipblop.Keys
use blipblop.Repo
use blipblop.Repo.Prefix.{lease_prefixes}
use blipblop.Kv.Table.{table_kv}
use blipblop.Leases.{Env, acquire, get, release}
use blipblop.Leases.Grants.{Granted, acquire-Granted}
use blipblop.Leases.Exclusion.{acquire_held}
use blipblop.Leases.Renewal.{Renewed, renew-Renewed}
use blipblop.Leases.Traces.{Call, acquires, renews, run, Holds, During, run-Holds}
use blipblop.Leases.Release.{Linked, release_refused}
use blipblop.Leases.Linking.{IsLinked, acquire-release, acquire-IsLinked}
use blipblop.Examples.Format.{lease_codec}
use blipblop.Examples.Setting.{raw_uuids, mac, manager, task_id, lease_uuid, node_a, node_b, env_at}
use blipblop.Examples.Storing.{
  first_env, held_store, held_lease, first_acquire, get_held, renew_env, renewed_lease,
  renewed_store, renew_returns,
}

acquire-Granted_example :
    Granted table_kv lease_codec raw_uuids mac manager first_env [] task_id node_a held_lease
      (codes "t1")
      held_store
acquire-Granted_example =
    acquire-Granted table_kv lease_codec raw_uuids mac manager first_env [] held_store task_id
      node_a 60 held_lease (codes "t1") refl first_acquire

acquire_held_example :
    (e : Err) × (acquire table_kv lease_codec raw_uuids mac manager none renew_env held_store
        task_id node_b 60
      ≡ (err e, held_store))
acquire_held_example =
    acquire_held table_kv lease_codec raw_uuids mac manager renew_env held_store task_id node_b 60
      held_lease get_held (omega arith) (λ h. cc h)

renew-Renewed_example :
    Renewed table_kv lease_codec raw_uuids mac manager renew_env held_store task_id
      (codes "t1")
      renewed_lease
      (codes "t2")
      renewed_store
renew-Renewed_example =
    renew-Renewed table_kv lease_codec raw_uuids mac manager renew_env held_store renewed_store
      task_id task_id node_a 60 (codes "t1") renewed_lease (codes "t2") refl refl renew_returns

abbrev later_calls : List (Env × Call)
later_calls =
    (renew_env, acquires node_b 60)
    ∷ (renew_env, renews node_a 60 (codes "t1"))
    ∷ (env_at 59 (codes "t3"), acquires node_a 60)
    ∷ []

abbrev InTime : Env × Call → Type 0
InTime = During table_kv lease_codec raw_uuids mac manager 5 60_000_000_005

later_during : All InTime later_calls
later_during =
    let last : All InTime ((env_at 59 (codes "t3"), acquires node_a 60) ∷ []) =
      ((refl, omega arith, omega arith), tt) in
    let second : All InTime (
        (renew_env, renews node_a 60 (codes "t1"))
        ∷ (env_at 59 (codes "t3"), acquires node_a 60)
        ∷ []) =
      ((refl, omega arith, omega arith), last) in
    ((refl, omega arith, omega arith), second)

run-Holds_example :
    Holds table_kv lease_codec raw_uuids mac manager
      (run table_kv lease_codec raw_uuids mac manager held_store task_id later_calls)
      task_id
      node_a
      60_000_000_005
run-Holds_example =
    run-Holds table_kv lease_codec raw_uuids mac manager held_store task_id task_id node_a 5
      60_000_000_005 later_calls refl refl (omega arith) later_during
      (record { lease = held_lease; stored = get_held; holder_is = refl; lasts = omega arith })

nothing-IsLinked : IsLinked table_kv lease_codec raw_uuids mac manager [] task_id
unfolding get Keys.index Repo.get list_beq
nothing-IsLinked l h = absurd (cc h)

acquire-IsLinked_example :
    IsLinked table_kv lease_codec raw_uuids mac manager
      (acquire table_kv lease_codec raw_uuids mac manager none first_env [] task_id node_a 60).1
      task_id
acquire-IsLinked_example =
    acquire-IsLinked table_kv lease_codec raw_uuids mac manager first_env [] task_id node_a 60 refl
      nothing-IsLinked

acquire-release_example :
    (s : Dict Text Text) × (release table_kv lease_codec raw_uuids mac manager none held_store
        task_id node_a
        (codes "t1")
      ≡ (ok tt, s))
    × (get table_kv lease_codec raw_uuids mac manager none s task_id ≡ err repo_not_found)
acquire-release_example =
    acquire-release table_kv lease_codec raw_uuids mac manager first_env [] held_store task_id
      node_a 60 held_lease (codes "t1") refl (λ h. cc h) nothing-IsLinked first_acquire

release_refused_example :
    (e : Err) × (release table_kv lease_codec raw_uuids mac manager none held_store task_id node_b
        (codes "t1")
      ≡ (err e, held_store))
    × ((e ≡ invalid_token) ⊎ (e ≡ not_holder))
release_refused_example =
    release_refused table_kv lease_codec raw_uuids mac manager held_store task_id node_b
      (codes "t1") held_lease (λ h. cc h) get_held (inr (λ h. cc h))

pub held-Linked : Linked table_kv lease_codec raw_uuids mac manager held_store task_id held_lease
unfolding decode encode_prefixed lease_prefixes list_beq
held-Linked = record {
  uid = lease_uuid;
  item = 1 ∷ lease_uuid;
  entry = refl;
  leads = refl;
  carries = refl;
}
