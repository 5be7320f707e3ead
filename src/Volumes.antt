-- ===== src/Volumes.antt =====
-- pkg/volume: the drivers that keep volumes in directories of a node, and the attacher, which gives
-- a task's mounts their paths. The file system, `path.Join` and the API's client are parameters; a
-- driver's mutex makes each call one step.
pub mod Attaching
pub mod Control
use blipblop.Base.{
  ℕ, Text, Bool, true, false, not, Option, none, some, List, [], ◌∷◌, ◌++◌, if◌then◌else◌, ◌==◌,
  list_eq, nat_eq, codes,
}
use blipblop.Errs.{
  Err, Result, ok, err, panic, os_not_exist, driver_not_configured, not_a_directory,
}
use blipblop.Api.{Node, Volume, TemplateVolume, ControllerStatus, Mount}
use blipblop.Effect.{Eff, run_next, ◌>>=◌, ◌>>◌, pure, fail}
use blipblop.Conditions.{Reason, reason_text, attached, detached}

pub record FileInfo : Type 0 where
  pub name : Text
  pub size : ℕ
  pub is_dir : Bool

pub record Storage : Type 1 where
  -- the file system
  pub Disk : Type 0
  pub mkdir_all : Text → Eff Disk (Unit {0})
  pub stat : Text → Disk → Result FileInfo
  pub read_dir : Text → Disk → Result (List FileInfo)
  pub remove_all : Text → Eff Disk (Unit {0})
  pub create_file : Text → Eff Disk (Unit {0})
  pub write_file : Text → Text → Eff Disk (Unit {0})
  pub join : Text → Text → Text
  -- the volumes of the API
  pub Server : Type 0
  pub get_volume : Text → Eff Server Volume
  pub list_volumes : Eff Server (List Volume)
  -- the status of the controller of the named node, under the mask "controllers"
  pub set_status : Text → Text → ControllerStatus → Eff Server (Unit {0})
  pub get_node : Text → Eff Server Node

pub data DriverType : Type 0 where
  unspecified host_local template : DriverType

unfoldable pub driver_name : DriverType → Text
driver_name unspecified = codes "unspecified"
driver_name host_local = codes "host-local"
driver_name template = codes "template"

-- `GetDriverType`
template_type : Option TemplateVolume → DriverType
template_type none = unspecified
template_type (some t) = template

unfoldable pub get_driver_type : Volume → DriverType
unfolding template_type
get_driver_type v = if v.config.host_local then host_local else template_type v.config.template

-- `FSVolume`
pub record FsVolume : Type 0 where
  pub id : Text
  pub size : ℕ
  pub location : Text

-- The implementations of `Driver`, with their root path.
pub data Driver : Type 0 where
  host_local_driver template_driver : Text → Driver

-- The drivers that a node's config has, with their root paths.
pub record DriversConfig : Type 0 where
  pub host_local_root : Option Text
  pub template_root : Option Text

-- A lookup in what `NodeVolumeDrivers` returns.
unfoldable pub node_volume_driver : DriversConfig → DriverType → Option Driver
node_volume_driver c unspecified = none
node_volume_driver c host_local = elim c.host_local_root [
  | none ↦ none
  | some root ↦ some (host_local_driver root)
]
node_volume_driver c template = elim c.template_root [
  | none ↦ none
  | some root ↦ some (template_driver root)
]

unfoldable pub template_name : Volume → Text
template_name v = elim v.config.template [ none ↦ [] | some t ↦ t.name ]

unfoldable pub template_data : Volume → Text
template_data v = elim v.config.template [ none ↦ [] | some t ↦ t.data_text ]

module _ (st : Storage) where
  open st use {Disk, Server, join}

  pub record State : Type 0 where
    pub disk : Disk
    pub server : Server

  abbrev pub on_disk : {A : Type 0} → Eff Disk A → Eff State A
  on_disk m s = let r = m s.disk in (r.0, record s { disk = r.1 })

  abbrev pub on_server : {A : Type 0} → Eff Server A → Eff State A
  on_server m s = let r = m s.server in (r.0, record s { server = r.1 })

  -- `_ = f()`
  abbrev pub ignored : Result (Unit {0}) → Result (Unit {0})
  ignored (ok _) = ok tt
  ignored (err _) = ok tt
  ignored panic = panic

  -- the path of the file of a template volume
  abbrev pub template_path : Text → Volume → Text
  template_path root v = join (join root v.meta.name) (template_name v)

  abbrev pub stat_at : Text → Eff State FileInfo
  stat_at p s = (st.stat p s.disk, s)

  unfoldable pub create : Driver → Text → Eff State FsVolume
  create (host_local_driver root) name = do
    on_disk (st.mkdir_all (join root name))
    info ← stat_at (join root name)
    pure (record { id = name; size = info.size; location = join root name })
  create (template_driver root) name = do
    v ← on_server (st.get_volume name)
    on_disk (st.mkdir_all (join root v.meta.name))
    on_disk (st.create_file (template_path root v))
    on_disk (st.write_file (template_path root v) (template_data v))
    info ← stat_at (template_path root v)
    pure (record { id = name; size = info.size; location = template_path root v })

  unfoldable pub directory_volume : Text → FileInfo → Eff State FsVolume
  directory_volume p info =
      if info.is_dir
      then pure (record { id = info.name; size = info.size; location = p })
      else fail not_a_directory

  unfoldable pub get : Driver → Text → Eff State FsVolume
  get (host_local_driver root) name = do
    info ← stat_at (join root name)
    directory_volume (join root name) info
  get (template_driver root) name = do
    v ← on_server (st.get_volume name)
    info ← stat_at (template_path root v)
    pure (record { id = v.meta.name; size = info.size; location = template_path root v })

  unfoldable pub delete : Driver → Text → Eff State (Unit {0})
  delete (host_local_driver root) name = on_disk (st.remove_all (join root name))
  delete (template_driver root) name = do
    v ← on_server (st.get_volume name)
    on_disk (st.remove_all (join root v.meta.name))

  -- `hostLocalDriver.List` calls `Get` while it holds the mutex that `Get` locks: with a directory
  -- there, it never returns, which is none here.
  unfoldable pub list_local : List FileInfo → Option (List FsVolume)
  list_local [] = some []
  list_local (dir ∷ dirs) = let rest = list_local dirs in if dir.is_dir then none else rest

  unfoldable pub list_templates : Text → List Volume → List FsVolume
  list_templates root [] = []
  list_templates root (v ∷ vs) =
      let rest = list_templates root vs in
      elim (get_driver_type v) [
        | unspecified ↦ rest
        | host_local ↦ rest
        | template ↦ record { id = v.meta.name; size = 0; location = join root v.meta.name } ∷ rest
      ]

  -- the rest of `ensureLocalVolume`
  unfoldable pub or_create : Driver → Text → Result FsVolume × State → Result FsVolume × State
  or_create d name (ok v, s) = (ok v, s)
  or_create d name (err os_not_exist, s) = create d name s
  or_create d name (err e, s) = (err e, s)
  or_create d name (panic, s) = (panic, s)

  unfoldable pub ensure_local_volume : Driver → Text → Eff State FsVolume
  ensure_local_volume d name s = or_create d name (get d name s)

  unfoldable pub need_driver : Option Driver → Eff State Driver
  need_driver none = fail driver_not_configured
  need_driver (some d) = pure d

  module _ (config : DriversConfig) (node_name : Text) where
    unfoldable pub mark_attached : Text → Text → Eff State (Unit {0})
    mark_attached volume location s =
        let r =
          on_server
            (st.set_status volume node_name (record {
              phase = some (reason_text attached);
              ready = some true;
              location = some location;
            }))
            s in
        (ignored r.0, r.1)

    unfoldable pub mark_detached : Text → Eff State (Unit {0})
    mark_detached volume s =
        let r =
          on_server
            (st.set_status volume node_name
              (record { phase = some (reason_text detached); ready = some false; location = none }))
            s in
        (ignored r.0, r.1)

    unfoldable pub resolve_volume : Mount → Eff State Mount
    resolve_volume m = do
      v ← on_server (st.get_volume m.volume)
      d ← need_driver (node_volume_driver config (get_driver_type v))
      local ← ensure_local_volume d m.volume
      mark_attached m.volume local.location
      pure (record m { source = local.location })

    -- the body of the loop of `PrepareMounts`
    unfoldable pub resolve : Mount → Eff State Mount
    resolve m = if m.volume == [] then pure m else resolve_volume m

    unfoldable pub prepare_mounts : List Mount → Eff State (List Mount)
    prepare_mounts [] = pure []
    prepare_mounts (m ∷ ms) = do m' ← resolve m; ms' ← prepare_mounts ms; pure (m' ∷ ms')

    unfoldable pub detach : List Mount → Eff State (Unit {0})
    detach [] = pure tt
    detach (m ∷ ms) = do if m.volume == [] then pure tt else mark_detached m.volume; detach ms

    unfoldable pub reclaim_volume : Mount → Eff State (Unit {0})
    reclaim_volume m = do
      v ← on_server (st.get_volume m.volume)
      d ← need_driver (node_volume_driver config (get_driver_type v))
      delete d m.volume
      mark_detached m.volume

    unfoldable pub reclaim : List Mount → Eff State (Unit {0})
    reclaim [] = pure tt
    reclaim (m ∷ ms) = do if m.volume == [] then pure tt else reclaim_volume m; reclaim ms
