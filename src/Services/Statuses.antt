-- ===== src/Services/Statuses.antt =====
-- internal/app/node.go and internal/app/volume.go: `UpdateStatus` with its mask, and `Condition`. The
-- wrapper messages are options, and an empty list is nil, as it is after a message was decoded. The
-- request has a status.
pub mod Masking
pub mod Storing
use blipblop.Base.{
  ℕ, Text, ◌≡◌, Bool, true, false, Option, none, some, List, [], ◌∷◌, if◌then◌else◌, ◌==◌, list_eq,
  nat_eq, codes,
}
use blipblop.Errs.{Err, Result, ok, err, panic, Ctx, status, invalid_argument, unknown_mask_path}
use blipblop.Keys.{KeyId, Uuids}
use blipblop.Kv.{ScanKv}
use blipblop.Repo
use blipblop.Repo.{Resource, Prefixes}
use blipblop.Api.{Condition, ControllerStatus, Meta, IpStatus, NodeStatus, VolumeStatus}
use blipblop.Effect.{Eff, run_next, ◌>>=◌, ◌>>◌, pure, lift}
use blipblop.Services.Tasks.{or_kept, or_bad_mask}
use blipblop.Services.Resources.{Hub, State, in_repo, in_hub, get}

pub or_kept_list {ℓ} : {A : Type ℓ} → List A → List A → List A
or_kept_list [] old = old
or_kept_list (a ∷ rest) old = a ∷ rest

-- A path into the addresses: they must be there in the source, and in the status if the source has
-- something to write.
pub ip_path :
    (IpStatus → Bool)
    → (IpStatus → IpStatus → IpStatus)
    → Option IpStatus
    → NodeStatus
    → Result NodeStatus
ip_path is_set put none dst = panic
ip_path is_set put (some a) dst = if is_set a then into dst.ip else ok dst
  where
    into : Option IpStatus → Result NodeStatus
    into none = panic
    into (some b) = ok (record dst { ip = some (put a b) })

pub is_there {ℓ} : {A : Type ℓ} → Option A → Bool
is_there none = false
is_there (some a) = true

pub is_filled {ℓ} : {A : Type ℓ} → List A → Bool
is_filled [] = false
is_filled (a ∷ rest) = true

pub apply_node_path : Text → NodeStatus → NodeStatus → Result NodeStatus
unfolding or_kept or_kept_list ip_path is_there is_filled
apply_node_path p src dst =
    if p == codes "phase"
    then ok (record dst { phase = or_kept src.phase dst.phase })
    else if p == codes "status"
    then ok (record dst { status = or_kept src.status dst.status })
    else if p == codes "hostname"
    then ok (record dst { hostname = or_kept src.hostname dst.hostname })
    else if p == codes "runtime"
    then ok (record dst { runtime = or_kept src.runtime dst.runtime })
    else if p == codes "version"
    then ok (record dst { version = or_kept src.version dst.version })
    else if p == codes "conditions"
    then ok (record dst { conditions = or_kept_list src.conditions dst.conditions })
    else if p == codes "ip.dns"
    then ip_path (λ a. is_there a.dns) (λ a b. record b { dns = a.dns }) src.ip dst
    else if p == codes "ip.links"
    then ip_path (λ a. is_filled a.links) (λ a b. record b { links = a.links }) src.ip dst
    else if p == codes "ip.addresses"
    then ip_path (λ a. is_filled a.addresses) (λ a b. record b { addresses = a.addresses }) src.ip
        dst
    else err unknown_mask_path

pub apply_node_paths : List Text → NodeStatus → NodeStatus → Result NodeStatus
unfolding apply_node_path
apply_node_paths [] src dst = ok dst
apply_node_paths (p ∷ rest) src dst = elim (apply_node_path p src dst) [
  | ok next ↦ apply_node_paths rest src next
  | err e ↦ err e
  | panic ↦ panic
]

unfoldable pub apply_masked_update_node : List Text → NodeStatus → NodeStatus → Result NodeStatus
unfolding apply_node_paths
apply_masked_update_node [] src dst = err (status invalid_argument)
apply_masked_update_node (p ∷ rest) src dst = apply_node_paths (p ∷ rest) src dst

-- A status that is nil stays nil as a clone, and an assignment to its field panics.
pub set_controllers : VolumeStatus → Option VolumeStatus → Result (Option VolumeStatus)
unfolding is_filled
set_controllers src dst = if is_filled src.controllers then into dst else ok dst
  where
    into : Option VolumeStatus → Result (Option VolumeStatus)
    into none = panic
    into (some d) = ok (some (record d { controllers = src.controllers }))

pub apply_volume_paths :
    List Text → VolumeStatus → Option VolumeStatus → Result (Option VolumeStatus)
unfolding set_controllers
apply_volume_paths [] src dst = ok dst
apply_volume_paths (p ∷ rest) src dst =
    elim (if p == codes "controllers" then set_controllers src dst else err unknown_mask_path) [
      | ok next ↦ apply_volume_paths rest src next
      | err e ↦ err e
      | panic ↦ panic
    ]

unfoldable pub apply_masked_update_volume :
    List Text → VolumeStatus → Option VolumeStatus → Result (Option VolumeStatus)
unfolding apply_volume_paths
apply_masked_update_volume [] src dst = err (status invalid_argument)
apply_masked_update_volume (p ∷ rest) src dst = apply_volume_paths (p ∷ rest) src dst

-- The status of a message: what is given, what is kept, and the mask's update of it.
pub record Status (T : Type 0) : Type 1 where
  pub Given : Type 0
  pub Kept : Type 0
  pub status_of : T → Kept
  pub with_status : T → Kept → T
  pub apply : List Text → Given → Kept → Result Kept
  pub with_conditions : List Condition → Given

-- A node's status that is nil is taken as an empty one.
abbrev pub empty_status : NodeStatus
empty_status = record {
  phase = none;
  status = none;
  ip = none;
  hostname = none;
  runtime = none;
  version = none;
  conditions = [];
}

abbrev pub or_empty : Option NodeStatus → NodeStatus
or_empty none = empty_status
or_empty (some st) = st

unfoldable pub node_status :
    {T : Type 0} → (T → Option NodeStatus) → (T → Option NodeStatus → T) → Status T
unfolding apply_masked_update_node
node_status of set = record {
  Given = NodeStatus;
  Kept = NodeStatus;
  status_of = λ x. or_empty (of x);
  with_status = λ x st. set x (some st);
  apply = apply_masked_update_node;
  with_conditions = λ cs. record empty_status { conditions = cs };
}

unfoldable pub volume_status :
    {T : Type 0} → (T → Option VolumeStatus) → (T → Option VolumeStatus → T) → Status T
unfolding apply_masked_update_volume
volume_status of set = record {
  Given = VolumeStatus;
  Kept = Option VolumeStatus;
  status_of = of;
  with_status = set;
  apply = apply_masked_update_volume;
  with_conditions = λ cs. record { controllers = []; conditions = cs };
}

module _ (db : ScanKv) (r : Resource) (p : Prefixes) (u : Uuids) (hub : Hub r.T)
    (same_config : r.T → r.T → Bool) (f : Status r.T)
    (report : List Condition → hub.X → Result (Unit {0}) × hub.X) where
  unfoldable pub update_status :
      Ctx → ℕ → KeyId → f.Given → List Text → Eff (State db r p u hub same_config) (Unit {0})
  unfolding ◌>>=◌ ◌>>◌ get in_repo or_bad_mask
  update_status ctx now id st mask = do
    existing ← get db r p u hub same_config ctx id
    base ← lift (or_bad_mask (f.apply mask st (f.status_of existing)))
    in_repo db r p u hub same_config
        (λ t. Repo.update_resource db r p ctx now t id (f.with_status existing base))
    pure tt

  unfoldable pub condition :
      Ctx → ℕ → KeyId → List Condition → Eff (State db r p u hub same_config) (Unit {0})
  unfolding ◌>>◌ update_status in_hub
  condition ctx now id conditions = do
    update_status ctx now id (f.with_conditions conditions) (codes "conditions" ∷ [])
    in_hub db r p u hub same_config (report conditions)
