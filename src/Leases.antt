-- ===== src/Leases.antt =====
-- internal/infra/lease_manager.go and lease_secret.go: leases on resources, stored in a repository.
-- The mutex makes each call one step. `mac` is the URL-safe base64 text of HMAC-SHA256, whose
-- writes never fail; `env` holds what a call takes from the clock and the random source. A time is
-- in nanoseconds; a `ttl` argument is made from a uint32, so that it is not negative.
pub mod Grants
pub mod Exclusion
pub mod Renewal
pub mod Traces
pub mod Release
pub mod Linking
use blipblop.Base.{
  ℕ, Text, ◌≡◌, refl, ◌+◌, ◌*◌, Bool, true, false, not, ◌&&◌, ◌||◌, Option, none, some, List, [],
  ◌∷◌, if◌then◌else◌, ◌==◌, list_eq, nat_eq, leb, ltb, codes,
}
use blipblop.Errs.{
  Err, Result, ok, err, panic, Ctx, ctx_check, ◌>>=◌, ◌>>◌, guard, is_not_found, invalid_holder,
  invalid_ttl, invalid_token, not_holder, lease_held, lease_expired, bad_uuid,
}
use blipblop.Keys
use blipblop.Keys.{KeyId, Uuids, tag_uid}
use blipblop.Kv.{Kv, ScanKv}
use blipblop.Repo
use blipblop.Repo.Listing
use blipblop.Repo.{Resource, Prefixes, Fresh, u64}
use blipblop.Repo.Prefix.{lease_prefixes}
use blipblop.Api.{Meta, Lease, LeaseConfig, LeaseStatus}

-- protobuf of a lease
pub record LeaseCodec : Type 0 where
  pub marshal : Lease → Option Text
  pub unmarshal : Text → Option Lease
  pub unmarshal-marshal : (x : Lease) (b : Text) → marshal x ≡ some b → unmarshal b ≡ some x

-- A lease that the manager stores has its config and its status.
abbrev pub lease_resource : LeaseCodec → Resource
lease_resource c = record {
  T = Lease;
  meta = λ x. x.meta;
  with_meta = λ x m. record x { meta = m };
  meta-with_meta = λ x m. refl;
  marshal = c.marshal;
  unmarshal = c.unmarshal;
  unmarshal-marshal = c.unmarshal-marshal;
  spec_equal_nil = λ x. false;
  ensure_status = λ x. x;
}

pub record Env : Type 0 where
  pub now : ℕ
  pub token : Result Text
  pub fresh : Fresh

pub record Manager : Type 0 where
  pub ttl : ℕ  -- uint32, in seconds
  pub key : Text

-- `NewLeaseManager`
unfoldable pub new_lease_manager : Manager
new_lease_manager = record { ttl = 60; key = [] }

abbrev pub second : ℕ
second = 1_000_000_000

abbrev pub lease_version : Text
lease_version = codes "lease/v1"

module _ (mac : Text → Text → Text) where
  unfoldable pub generate_hmac : Text → Text → Result Text
  generate_hmac message secret = ok (mac secret message)

  unfoldable pub validate_hmac : Text → Text → Text → Result Bool
  unfolding generate_hmac
  validate_hmac message expected_hash secret = do
    h ← generate_hmac message secret
    ok (h == expected_hash)

-- What every operation but `List` and `Get` checks first.
abbrev pub check_holder : Ctx → Text → Result (Unit {0})
check_holder ctx holder = do ctx_check ctx; guard (not (holder == [])) invalid_holder

-- the checks at the top of `Acquire`, and the index of the resource
pub acquire_checks : Ctx → Text → Text → ℕ → Result KeyId
acquire_checks ctx resource holder ttl = do
  check_holder ctx holder
  guard (not (leb ttl 0)) invalid_ttl
  Keys.index resource

-- the lease that `Acquire` makes where there is none
pub new_lease : Manager → ℕ → Text → Text → Text → Lease
new_lease m now resource holder token_hash = record {
  version = lease_version;
  meta = record {
    name = resource;
    uid = [];
    labels = [];
    resource_version = 1;
    generation = 1;
    created = 0;
    updated = 0;
  };
  config = record {
    task_id = resource;
    node_id = holder;
    acquired_at = now;
    renew_time = now;
    expires_at = now + m.ttl * second;
    ttl_seconds = m.ttl;
    fencing_token = 1;
  };
  status = record { token_hash = token_hash };
}

-- `Acquire` of an expired lease, or of one that the caller holds
pub taken_over : Manager → ℕ → Text → Text → Lease → Lease
taken_over m now holder token_hash cur = record cur {
  config = record cur.config {
    fencing_token = u64 (fencing_token + 1);
    renew_time = now;
    acquired_at = now;
    expires_at = now + m.ttl * second;
    node_id = holder;
  };
  status = record { token_hash = token_hash };
}
  where
    open cur.config use {fencing_token}

-- `Renew`
pub renewed : Manager → ℕ → Text → Lease → Lease
renewed m now token_hash cur = record cur {
  config = record cur.config {
    renew_time = now;
    acquired_at = now;
    expires_at = now + m.ttl * second;
  };
  status = record { token_hash = token_hash };
}

-- The lease that the store returned, with the token for its holder.
pub with_token {ℓ} : {S : Type ℓ} → Text → Result Lease × S → Result (Lease × Text) × S
with_token token (ok l, s) = (ok (l, token), s)
with_token token (err e, s) = (err e, s)
with_token token (panic, s) = (panic, s)

-- Errors before the store is written leave it as it is.
pub if_ok {ℓ κ} :
    {A : Type ℓ} {B : Type ℓ} {S : Type κ} → S → Result A → (A → Result B × S) → Result B × S
if_ok s (ok a) k = k a
if_ok s (err e) k = (err e, s)
if_ok s panic k = (panic, s)

abbrev pub or_bad_uuid : Option Text → Result Text
or_bad_uuid none = err bad_uuid
or_bad_uuid (some x) = ok x

module _ (db : ScanKv) (c : LeaseCodec) (u : Uuids) (mac : Text → Text → Text) (m : Manager) where
  open db use {kv}

  abbrev pub read : Ctx → kv.Store → KeyId → Result Lease
  read = Repo.get db (lease_resource c) lease_prefixes

  abbrev pub write : Ctx → ℕ → kv.Store → KeyId → Lease → Result Lease × kv.Store
  write = Repo.update_resource db (lease_resource c) lease_prefixes

  -- a new token and its hash
  abbrev pub new_secret : Env → Result (Text × Text)
  new_secret env = do
    token ← env.token
    token_hash ← generate_hmac mac token m.key
    ok (token, token_hash)

  -- the branch of `Acquire` where no lease is found
  pub acquire_new :
      Ctx → Env → kv.Store → Text → Text → Text × Text → Result (Lease × Text) × kv.Store
  unfolding new_lease with_token
  acquire_new ctx env s resource holder (token, token_hash) = with_token token (
      Repo.create db (lease_resource c) lease_prefixes ctx u env.fresh s
        (new_lease m env.now resource holder token_hash))

  pub acquire_over :
      Ctx → Env → kv.Store → KeyId → Text → Lease → Text × Text → Result (Lease × Text) × kv.Store
  unfolding taken_over with_token
  acquire_over ctx env s id holder cur (token, token_hash) =
      with_token token
        (write ctx env.fresh.updated s id (taken_over m env.now holder token_hash cur))

  pub acquire_found :
      Ctx → Env → kv.Store → KeyId → Text → Text → Result Lease → Result (Lease × Text) × kv.Store
  unfolding acquire_new acquire_over is_not_found if_ok generate_hmac
  acquire_found ctx env s id resource holder (err e) =
      if is_not_found (some e)
      then if_ok s (new_secret env) (acquire_new ctx env s resource holder)
      else (err e, s)
  acquire_found ctx env s id resource holder panic = (panic, s)
  acquire_found ctx env s id resource holder (ok cur) =
      if not (ltb env.now cur.config.expires_at) || cur.config.node_id == holder
      then if_ok s (new_secret env) (acquire_over ctx env s id holder cur)
      else (err lease_held, s)

  unfoldable pub acquire : Ctx → Env → kv.Store → Text → Text → ℕ → Result (Lease × Text) × kv.Store
  unfolding acquire_found acquire_checks
  acquire ctx env s resource holder ttl =
      if_ok s (acquire_checks ctx resource holder ttl)
        (λ uid. acquire_found ctx env s uid resource holder (read ctx s uid))

  -- `Get`
  unfoldable pub list : Ctx → Result (List Text) → Result (List Lease)
  list ctx listed = Listing.list (lease_resource c) ctx listed

  unfoldable pub get : Ctx → kv.Store → Text → Result Lease
  get ctx s resource = do ctx_check ctx; uid ← Keys.index resource; read ctx s uid

  -- the checks of `release` on the lease that it found
  pub may_release : Bool → Text → Text → Lease → Result KeyId
  unfolding validate_hmac
  may_release force holder token cur = do
    if force then ok tt else (do
      valid ← validate_hmac mac token cur.status.token_hash m.key
      guard valid invalid_token
      guard (cur.config.node_id == holder) not_holder)
    Keys.parse_str u cur.meta.uid

  -- `release` up to the deletion
  pub release_checks : Ctx → kv.Store → Text → Text → Text → Bool → Result KeyId
  unfolding may_release
  release_checks ctx s resource holder token force = do
    check_holder ctx holder
    uid ← Keys.index resource
    cur ← read ctx s uid
    may_release force holder token cur

  unfoldable pub release_lease :
      Ctx → kv.Store → Text → Text → Text → Bool → Result (Unit {0}) × kv.Store
  unfolding release_checks if_ok
  release_lease ctx s resource holder token force =
      if_ok s (release_checks ctx s resource holder token force)
        (λ uid. Repo.delete db (lease_resource c) lease_prefixes ctx s uid)

  unfoldable pub release : Ctx → kv.Store → Text → Text → Text → Result (Unit {0}) × kv.Store
  unfolding release_lease
  release ctx s resource holder token = release_lease ctx s resource holder token false

  unfoldable pub revoke : Ctx → kv.Store → Text → Text → Result (Unit {0}) × kv.Store
  unfolding release_lease
  revoke ctx s resource holder = release_lease ctx s resource holder [] true

  -- what `Renew` writes, for the lease that it found
  pub renew_found : Env → Text → Lease → Result (Text × Lease)
  unfolding validate_hmac renewed
  renew_found env token cur = do
    valid ← validate_hmac mac token cur.status.token_hash m.key
    guard valid invalid_token
    (new_token, token_hash) ← new_secret env
    ok (new_token, renewed m env.now token_hash cur)

  pub renew_checks : Ctx → Env → kv.Store → Text → Text → ℕ → Text → Result (KeyId × Text × Lease)
  unfolding renew_found
  renew_checks ctx env s resource holder ttl token = do
    check_holder ctx holder
    guard (not (leb ttl 0)) invalid_ttl
    uid ← or_bad_uuid (u.parse resource)
    id ← Keys.index (u.to_string uid)
    cur ← read ctx s id
    (new_token, next) ← renew_found env token cur
    ok (id, new_token, next)

  unfoldable pub renew :
      Ctx → Env → kv.Store → Text → Text → ℕ → Text → Result (Lease × Text) × kv.Store
  unfolding renew_checks if_ok with_token
  renew ctx env s resource holder ttl token =
      if_ok s (renew_checks ctx env s resource holder ttl token)
        (λ (id, new_token, next). with_token new_token (write ctx env.fresh.updated s id next))

  -- `IsHolder`: a resource with no lease is free for everyone.
  unfoldable pub held_by : Text → Result Lease → Result Bool
  unfolding is_not_found
  held_by holder (ok cur) = ok (cur.config.node_id == holder)
  held_by holder (err e) = if is_not_found (some e) then ok true else err e
  held_by holder panic = panic

  unfoldable pub is_holder : Ctx → kv.Store → Text → Text → Result Bool
  unfolding get held_by
  is_holder ctx s resource holder = held_by holder (get ctx s resource)

  unfoldable pub assert_holder : Ctx → ℕ → kv.Store → Text → Text → Result ℕ
  assert_holder ctx now s resource holder = do
    check_holder ctx holder
    uid ← or_bad_uuid (u.parse resource)
    id ← Keys.uuid uid
    cur ← read ctx s id
    guard (ltb now cur.config.expires_at) lease_expired
    guard (cur.config.node_id == holder) not_holder
    ok cur.config.fencing_token
