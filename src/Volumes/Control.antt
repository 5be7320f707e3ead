-- ===== src/Volumes/Control.antt =====
-- pkg/controller/volume/volume.go: the controller that makes the volumes of a node. It has the
-- drivers that its options gave it; log messages are left out.
use blipblop.Base.{Text, Bool, true, false, Option, none, some, List, [], ◌∷◌, if◌then◌else◌}
use blipblop.Errs.{Result, ok, err, panic, volume_driver_not_found}
use blipblop.Labels.{matches, new_composite_selector_from_map}
use blipblop.Api.{Node, Volume, ControllerStatus}
use blipblop.Effect.{Eff, ◌>>=◌, ◌>>◌, pure}
use blipblop.Conditions.{Reason, reason_text, attached, attach_failed, delete_failed}
use blipblop.Volumes.{
  Storage, State, on_server, ignored, Driver, DriverType, unspecified, host_local, template,
  get_driver_type, create, get, delete,
}

pub record Drivers : Type 0 where
  pub host_local_driver : Option Driver
  pub template_driver : Option Driver

or_not_found : Option Driver → Result Driver
or_not_found none = err volume_driver_not_found
or_not_found (some d) = ok d

-- `getVolumeDriver`
unfoldable pub get_volume_driver : Drivers → DriverType → Result Driver
unfolding or_not_found
get_volume_driver ds unspecified = err volume_driver_not_found
get_volume_driver ds host_local = or_not_found ds.host_local_driver
get_volume_driver ds template = or_not_found ds.template_driver

module _ (st : Storage) (drivers : Drivers) (node_name : Text) where
  unfoldable pub told_status : Text → ControllerStatus → Eff (State st) (Unit {0})
  told_status id status = on_server st (st.set_status id node_name status)

  abbrev failed_status : Reason → ControllerStatus
  failed_status why = record { phase = some (reason_text why); ready = some false; location = none }

  -- `return vc.setControllerStatus(…, err)` on an error, whatever comes of the status
  unfoldable pub told_on_error :
      {A : Type 0} → Text → Reason → Result A × State st → Result A × State st
  told_on_error id why (ok a, t) = (ok a, t)
  told_on_error id why (err e, t) = (err e, (told_status id (failed_status why) t).1)
  told_on_error id why (panic, t) = (panic, t)

  abbrev pub or_status : {A : Type 0} → Text → Reason → Eff (State st) A → Eff (State st) A
  or_status id why m s = told_on_error id why (m s)

  unfoldable pub driver_for : Volume → Eff (State st) Driver
  driver_for v s = (get_volume_driver drivers (get_driver_type v), s)

  -- A volume that was created is told with the phase AttachFailed.
  unfoldable pub on_volume_create : Volume → Eff (State st) (Unit {0})
  on_volume_create v = do
    d ← or_status v.meta.name attach_failed (driver_for v)
    local ← or_status v.meta.name attach_failed (create st d v.meta.name)
    told_status local.id (record {
      phase = some (reason_text attach_failed);
      ready = some true;
      location = some local.location;
    })

  unfoldable pub on_volume_delete : Volume → Eff (State st) (Unit {0})
  on_volume_delete v = do
    d ← or_status v.meta.name delete_failed (driver_for v)
    or_status v.meta.name delete_failed (get st d v.meta.name)
    or_status v.meta.name delete_failed (delete st d v.meta.name)
    told_status v.meta.name (record { phase = none; ready = none; location = none })

  -- A failure ends the loop.
  unfoldable pub create_each : List Volume → Eff (State st) (Unit {0})
  create_each [] = pure tt
  create_each (v ∷ vs) = do
    d ← or_status v.meta.name attach_failed (driver_for v)
    or_status v.meta.name attach_failed (create st d v.meta.name)
    create_each vs

  unfoldable pub on_node_join : Eff (State st) (Unit {0})
  on_node_join = do vs ← on_server st st.list_volumes; create_each vs

  unfoldable pub ensure_local : Volume → Eff (State st) (Unit {0})
  ensure_local v = do
    d ← or_status v.meta.name attach_failed (driver_for v)
    local ← or_status v.meta.name attach_failed (create st d v.meta.name)
    λ s.
        let r =
          told_status local.id
            (record {
              phase = some (reason_text attached);
              ready = some true;
              location = some local.location;
            })
            s in
        (ignored st r.0, r.1)

  -- Only host-local volumes are made.
  unfoldable pub reconcile_one : DriverType → Volume → Eff (State st) (Unit {0})
  reconcile_one unspecified v = pure tt
  reconcile_one host_local v = ensure_local v
  reconcile_one template v = pure tt

  unfoldable pub reconcile_each : List Volume → Eff (State st) (Unit {0})
  reconcile_each [] = pure tt
  reconcile_each (v ∷ vs) = do reconcile_one (get_driver_type v) v; reconcile_each vs

  unfoldable pub reconcile : Eff (State st) (Unit {0})
  reconcile = do vs ← on_server st st.list_volumes; reconcile_each vs

  -- `isNodeSelected`
  unfoldable pub selected : Volume → Result Node → Result Bool
  selected v (ok node) =
      ok (matches (new_composite_selector_from_map v.config.node_selector) node.meta.labels)
  selected v (err e) = ok false
  selected v panic = panic

  -- `handleNodeSelector`
  unfoldable pub handle_node_selector :
      (Volume → Eff (State st) (Unit {0})) → Volume → Eff (State st) (Unit {0})
  handle_node_selector f v = do
    here ← λ s. let r = on_server st (st.get_node node_name) s in (selected v r.0, r.1)
    if here then f v else pure tt
