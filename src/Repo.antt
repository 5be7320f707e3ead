-- ===== src/Repo.antt =====
-- pkg/repository/repository.go: resources in a key-value store, each under the key of its UID, with
-- an entry under its name and one under its index that hold the encoded UID.
-- The store is the parameter `db`; `Resource` is a message type with its codec.
pub mod Prefix
pub mod Reading
pub mod Creating
pub mod Updating
pub mod Deleting
pub mod Listing
use blipblop.Base.{
  ℕ, Text, ◌≡◌, ◌+◌, ◌%◌, ◌^◌, Bool, true, false, not, Option, none, some, List, [], ◌∷◌, ◌++◌,
  if◌then◌else◌, ◌==◌, list_eq, nat_eq,
}
use blipblop.Errs.{
  Err, Result, ok, err, panic, Ctx, ctx_check, ◌>>=◌, ◌>>◌, guard, repo_not_found, idx_exists,
  unsupported_tag, decode_failed, is_not_found,
}
use blipblop.Keys.{KeyId, Uuids, tag_uid, tag_name, tag_idx, encode, encode_prefixed}
use blipblop.Keys
use blipblop.Kv.{Kv, ScanKv, view, update}
use blipblop.Api.{Meta}

-- uint64 arithmetic
abbrev pub u64 : ℕ → ℕ
u64 n = n % 2 ^ 64

-- A message type with its metadata and its protobuf codec. `spec_equal_nil x` is
-- `protoutils.SpecEqual` of a nil message and `x`; `ensure_status x` is
-- `protoutils.EnsureMessageField(x, "status")`.
pub record Resource : Type 1 where
  pub T : Type 0
  pub meta : T → Meta
  pub with_meta : T → Meta → T
  pub meta-with_meta : (x : T) (m : Meta) → meta (with_meta x m) ≡ m
  pub marshal : T → Option Text
  pub unmarshal : Text → Option T
  pub unmarshal-marshal : (x : T) (b : Text) → marshal x ≡ some b → unmarshal b ≡ some x
  pub spec_equal_nil : T → Bool
  pub ensure_status : T → T

-- The prefixes that `NewRepo` is given.
pub record Prefixes : Type 0 where
  pub prefix : Text
  pub iprefix : Text
  pub idxprefix : Text

-- What `Create` takes from outside: `uuid.New()` and the two times read.
pub record Fresh : Type 0 where
  pub uuid : Text
  pub created : ℕ
  pub updated : ℕ

abbrev or_not_found {ℓ} : {A : Type ℓ} → Option A → Result A
or_not_found none = err repo_not_found
or_not_found (some a) = ok a

abbrev or_decode_failed {ℓ} : {A : Type ℓ} → Option A → Result A
or_decode_failed none = err decode_failed
or_decode_failed (some a) = ok a

-- `Create` goes on only if the name is not found.
check_absent {ℓ} : {A : Type ℓ} → Result A → Result (Unit {0})
check_absent (ok x) = err idx_exists
check_absent (err repo_not_found) = ok tt
check_absent (err e) = err e
check_absent panic = panic

-- `if changed { Generation++ }`
bump_if : Bool → Meta → Meta
bump_if true m = record m { generation = u64 (m.generation + 1) }
bump_if false m = m

module _ (db : ScanKv) (r : Resource) (p : Prefixes) where
  open db use {kv}
  open r use {T}

  -- `Txn.Get` and the codec
  pub load : kv.Store → Text → Result T
  load s key = do b ← or_not_found (kv.get s key); or_decode_failed (r.unmarshal b)

  -- the resource that an index entry points to
  pub follow : kv.Store → Text → Result T
  unfolding load
  follow s entry = do
    item ← or_not_found (kv.get s entry)
    uid ← Keys.decode item
    load s (encode_prefixed uid p.prefix)

  unfoldable pub get_by_uid : Ctx → kv.Store → KeyId → Result T
  unfolding load
  get_by_uid ctx s id = view ctx (load s (encode_prefixed id p.prefix))

  unfoldable pub get_by_name : Ctx → kv.Store → KeyId → Result T
  unfolding follow
  get_by_name ctx s id = view ctx (follow s (encode_prefixed id p.iprefix))

  unfoldable pub get_by_index : Ctx → kv.Store → KeyId → Result T
  unfolding follow
  get_by_index ctx s id = view ctx (follow s (encode_prefixed id p.idxprefix))

  unfoldable pub get : Ctx → kv.Store → KeyId → Result T
  unfolding get_by_uid get_by_name get_by_index
  get ctx s id = view ctx (
      if id.tag == tag_uid
      then get_by_uid ctx s id
      else if id.tag == tag_name
      then get_by_name ctx s id
      else if id.tag == tag_idx
      then get_by_index ctx s id
      else err unsupported_tag)

  -- the metadata that `Create` sets on the resource
  unfoldable pub stamp : Uuids → Fresh → T → T
  stamp u fresh x = r.with_meta x (record (r.meta x) {
    uid = u.to_string fresh.uuid;
    created = fresh.created;
    updated = fresh.updated;
    resource_version = 1;
  })

  -- what `Create` writes of it
  unfoldable pub prepare : T → T
  unfolding bump_if
  prepare x = let y = r.ensure_status x in r.with_meta y (bump_if (r.spec_equal_nil x) (r.meta y))

  -- the three entries of one resource
  pub put_entries : kv.Store → KeyId → KeyId → KeyId → Text → kv.Store
  put_entries s uid idx nm b =
      kv.set
        (kv.set (kv.set s (encode_prefixed uid p.prefix) b) (encode_prefixed idx p.idxprefix)
          (encode uid))
        (encode_prefixed nm p.iprefix) (encode uid)

  -- the transaction of `Create`
  pub create_txn : Ctx → KeyId → KeyId → KeyId → T → kv.Store → Result (Unit {0} × kv.Store)
  unfolding check_absent prepare put_entries
  create_txn ctx uid idx nm x s = do
    check_absent (get ctx s nm)
    b ← or_decode_failed (r.marshal (prepare x))
    ok (tt, put_entries s uid idx nm b)

  -- the end of `Create`: the resource is read back if the transaction was committed
  read_back : Ctx → KeyId → Result (Unit {0}) × kv.Store → Result T × kv.Store
  read_back ctx uid (ok _, s) = (get_by_uid ctx s uid, s)
  read_back ctx uid (err e, s) = (err e, s)
  read_back ctx uid (panic, s) = (panic, s)

  -- an error before the transaction
  with_ids :
      kv.Store
      → Result (KeyId × KeyId)
      → (KeyId → KeyId → Result T × kv.Store)
      → Result T × kv.Store
  with_ids s (ok (nm, idx)) k = k nm idx
  with_ids s (err e) k = (err e, s)
  with_ids s panic k = (panic, s)

  unfoldable pub create : Ctx → Uuids → Fresh → kv.Store → T → Result T × kv.Store
  unfolding stamp create_txn read_back with_ids
  create ctx u fresh s resource =
      let x = stamp u fresh resource in
      let uid : KeyId = record { tag = tag_uid; raw = fresh.uuid } in
      with_ids s (do nm ← Keys.name (r.meta x).name; idx ← Keys.index (r.meta x).name; ok (nm, idx))
        λ nm idx. read_back ctx uid (update ctx (create_txn ctx uid idx nm x) s)

  -- The loops of `Delete`: drop the first entry that holds the UID.
  points_to : KeyId → Option Text → Bool
  points_to id none = false
  points_to id (some v) = elim (Keys.decode v) [ ok uid ↦ encode uid == encode id | _ ↦ false ]

  delete_entry : kv.Store → KeyId → List Text → kv.Store
  unfolding points_to
  delete_entry s id [] = s
  delete_entry s id (k ∷ ks) =
      let rest = delete_entry s id ks in if points_to id (kv.get s k) then kv.delete s k else rest

  pub delete_by_uid : kv.Store → KeyId → kv.Store
  unfolding delete_entry
  delete_by_uid s id =
      let s₁ = delete_entry s id (db.keys s p.iprefix) in
      let s₂ = delete_entry s₁ id (db.keys s₁ p.idxprefix) in
      kv.delete s₂ (encode_prefixed id p.prefix)

  delete_by_name : kv.Store → KeyId → Result (Unit {0} × kv.Store)
  delete_by_name s id = do
    item ← or_not_found (kv.get s (encode_prefixed id p.iprefix))
    uid ← Keys.decode item
    ok (tt, kv.delete (kv.delete s (encode_prefixed uid p.prefix)) (encode_prefixed id p.iprefix))

  unfoldable pub delete : Ctx → kv.Store → KeyId → Result (Unit {0}) × kv.Store
  unfolding delete_by_uid delete_by_name
  delete ctx s id =
      update ctx
        (λ t.
          if id.tag == tag_uid
          then ok (tt, delete_by_uid t id)
          else if id.tag == tag_name
          then delete_by_name t id
          else err unsupported_tag)
        s

  -- `updateByUID`, `updateByName` and `updateByIdx`
  update_by_uid : Ctx → kv.Store → KeyId → Text → Result (Unit {0}) × kv.Store
  update_by_uid ctx s id b =
      update ctx
        (λ t. do
          _ ← or_not_found (kv.get t (encode_prefixed id p.prefix))
          ok (tt, kv.set t (encode_prefixed id p.prefix) b))
        s

  pub update_through : Ctx → kv.Store → Text → Text → Result (Unit {0}) × kv.Store
  update_through ctx s entry b =
      update ctx
        (λ t. do
          item ← or_not_found (kv.get t entry)
          uid ← Keys.decode item
          ok (tt, kv.set t (encode_prefixed uid p.prefix) b))
        s

  update_by_name : Ctx → kv.Store → KeyId → Text → Result (Unit {0}) × kv.Store
  unfolding update_through
  update_by_name ctx s id b = update_through ctx s (encode_prefixed id p.iprefix) b

  update_by_idx : Ctx → kv.Store → KeyId → Text → Result (Unit {0}) × kv.Store
  unfolding update_through
  update_by_idx ctx s id b = update_through ctx s (encode_prefixed id p.idxprefix) b

  -- The nested transaction is committed on its own, so that what it wrote stays.
  then_read : (kv.Store → Result T) → Result (Unit {0}) × kv.Store → Result T × kv.Store
  then_read read (ok _, s) = (read s, s)
  then_read read (err e, s) = (err e, s)
  then_read read (panic, s) = (panic, s)

  pub write_by_tag : Ctx → kv.Store → KeyId → Text → Result T × kv.Store
  unfolding update_by_uid update_by_name update_by_idx then_read
  write_by_tag ctx s id b =
      if id.tag == tag_uid
      then then_read (λ t. get_by_uid ctx t id) (update_by_uid ctx s id b)
      else if id.tag == tag_name
      then then_read (λ t. get_by_name ctx t id) (update_by_name ctx s id b)
      else if id.tag == tag_idx
      then then_read (λ t. get_by_index ctx t id) (update_by_idx ctx s id b)
      else (err unsupported_tag, s)

  -- The read-only fields come from the stored resource.
  unfoldable pub carry_meta : ℕ → T → T → T
  carry_meta now existing x = r.with_meta x (record (r.meta x) {
    uid = (r.meta existing).uid;
    created = (r.meta existing).created;
    updated = now;
    resource_version = u64 ((r.meta existing).resource_version + 1);
    generation = u64 ((r.meta existing).generation + 1);
  })

  with_bytes : kv.Store → Result Text → (Text → Result T × kv.Store) → Result T × kv.Store
  with_bytes s (ok b) k = k b
  with_bytes s (err e) k = (err e, s)
  with_bytes s panic k = (panic, s)

  -- `Update`; its own transaction writes nothing.
  unfoldable pub update_resource : Ctx → ℕ → kv.Store → KeyId → T → Result T × kv.Store
  unfolding write_by_tag carry_meta with_bytes
  update_resource ctx now s id resource =
      with_bytes s
        (do
          ctx_check ctx
          existing ← get ctx s id
          or_decode_failed (r.marshal (carry_meta now existing resource)))
        (write_by_tag ctx s id)
