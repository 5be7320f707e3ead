-- ===== src/Services/Resources.antt =====
-- internal/app/node.go and internal/app/volume.go: the services of nodes and of volumes, on the
-- repository of their messages. The two are alike but for the calls of the session manager, and are
-- written for any message type. The exchange, the session manager and `SpecEqual` of two messages'
-- configs are parameters. UpdateStatus and Condition are in Services.Statuses, Upgrade in
-- Services.Upgrading; Patch and Connect are left out.
pub mod Telling
use blipblop.Base.{
  ℕ, Text, ◌≡◌, refl, Bool, true, false, Option, none, some, List, [], ◌∷◌, if◌then◌else◌,
}
use blipblop.Errs.{Err, Result, ok, err, panic, Ctx, repo_not_found}
use blipblop.Keys.{KeyId, Uuids}
use blipblop.Kv.{ScanKv}
use blipblop.Repo
use blipblop.Repo.Listing
use blipblop.Repo.{Resource, Prefixes, Fresh}
use blipblop.Effect.{Eff, run_next, ◌>>=◌, ◌>>◌, pure, fail}

-- NodeCreate and VolumeCreate, and so on
pub data ResourceEvent (T : Type 0) : Type 0 where
  created deleted updated joined forgotten : T → ResourceEvent T

-- `Exchange.Forward`, and `SessionManager.Set`
pub record Hub (T : Type 0) : Type 1 where
  pub X : Type 0
  pub forward : ResourceEvent T → X → Result (Unit {0}) × X
  pub set_session : Text → T → X → Result (Unit {0}) × X

module _ (db : ScanKv) (r : Resource) (p : Prefixes) (u : Uuids) (hub : Hub r.T)
    (same_config : r.T → r.T → Bool) where
  open db use {kv}
  open r use {T}
  open hub use {X}

  pub record State : Type 0 where
    pub stored : kv.Store
    pub outside : X

  unfoldable pub in_repo : {A : Type 0} → (kv.Store → Result A × kv.Store) → Eff State A
  in_repo f s = let (a, t) = f s.stored in (a, record s { stored = t })

  unfoldable pub in_hub : (X → Result (Unit {0}) × X) → Eff State (Unit {0})
  in_hub f s = let (a, y) = f s.outside in (a, record s { outside = y })

  unfoldable pub get : Ctx → KeyId → Eff State T
  get ctx id s = (Repo.get db r p ctx s.stored id, s)

  unfoldable pub list : Ctx → Result (List Text) → Eff State (List T)
  list ctx listed s = (Listing.list r ctx listed, s)

  -- the caller's message, on which the repository's `Create` has set the metadata
  pub as_created : Fresh → T → T
  as_created fresh x = Repo.prepare db r p (Repo.stamp db r p u fresh x)

  unfoldable pub create_node : Ctx → Fresh → T → Eff State T
  unfolding ◌>>=◌ ◌>>◌ in_repo in_hub
  create_node ctx fresh x = do
    new ← in_repo (λ t. Repo.create db r p ctx u fresh t x)
    in_hub (hub.forward (created new))
    pure new

  unfoldable pub create_volume : Ctx → Fresh → T → Eff State T
  unfolding ◌>>=◌ ◌>>◌ in_repo in_hub as_created
  create_volume ctx fresh x = do
    new ← in_repo (λ t. Repo.create db r p ctx u fresh t x)
    in_hub (hub.forward (created (as_created fresh x)))
    pure new

  -- `Delete` of both and `Forget`, which differ in the event
  pub remove : (T → ResourceEvent T) → Ctx → KeyId → Eff State (Unit {0})
  unfolding ◌>>=◌ ◌>>◌ get in_repo in_hub
  remove ev ctx id = do
    x ← get ctx id
    in_repo (λ t. Repo.delete db r p ctx t id)
    in_hub (hub.forward (ev x))

  unfoldable pub delete : Ctx → KeyId → Eff State (Unit {0})
  unfolding remove
  delete = remove deleted

  unfoldable pub forget : Ctx → KeyId → Eff State (Unit {0})
  unfolding remove
  forget = remove forgotten

  -- `changed` is what `SpecEqual` returns.
  pub forward_if : Bool → ResourceEvent T → Eff State (Unit {0})
  unfolding in_hub
  forward_if true ev s = in_hub (hub.forward ev) s
  forward_if false ev s = (ok tt, s)

  unfoldable pub update_volume : Ctx → ℕ → KeyId → T → Eff State (Unit {0})
  unfolding ◌>>=◌ get in_repo forward_if
  update_volume ctx now id x = do
    existing ← get ctx id
    new ← in_repo (λ t. Repo.update_resource db r p ctx now t id x)
    forward_if (same_config existing new) (updated new)

  -- The session manager is given the caller's message, on which the repository has set the
  -- metadata.
  unfoldable pub update_node : Ctx → ℕ → KeyId → T → Eff State (Unit {0})
  unfolding ◌>>=◌ ◌>>◌ get in_repo in_hub forward_if
  update_node ctx now id x = do
    existing ← get ctx id
    new ← in_repo (λ t. Repo.update_resource db r p ctx now t id x)
    in_hub (hub.set_session (r.meta new).uid (Repo.carry_meta db r p now existing x))
    forward_if (same_config existing new) (updated new)

  -- `Join` of a node that is not there: it is created, and the error of `Get` is returned.
  pub join_missing : Err → Result T × State → Result T × State
  join_missing e (ok new, s) = (err e, s)
  join_missing e (err d, s) = (err d, s)
  join_missing e (panic, s) = (panic, s)

  pub join_found : Ctx → ℕ → KeyId → T → T → Eff State T
  unfolding ◌>>◌ get in_repo in_hub
  join_found ctx now id x existing = do
    in_repo (λ t. Repo.update_resource db r p ctx now t id x)
    in_hub (hub.forward (joined (Repo.carry_meta db r p now existing x)))
    get ctx id

  pub join_by : Ctx → Fresh → ℕ → KeyId → T → Result T → Eff State T
  unfolding create_node join_missing join_found
  join_by ctx fresh now id x (ok existing) s = join_found ctx now id x existing s
  join_by ctx fresh now id x (err repo_not_found) s =
      join_missing repo_not_found (create_node ctx fresh x s)
  join_by ctx fresh now id x (err e) s = (err e, s)
  join_by ctx fresh now id x panic s = (panic, s)

  unfoldable pub join : Ctx → Fresh → ℕ → KeyId → T → Eff State T
  unfolding join_by
  join ctx fresh now id x s = join_by ctx fresh now id x (Repo.get db r p ctx s.stored id) s
