-- ===== src/Examples/Mounting.antt =====
-- A task with a mount of a host-local volume that is not there yet.
use blipblop.Base.{
  ℕ, Text, ◌≡◌, refl, true, Option, none, some, List, [], ◌∷◌, ◌++◌, codes, list_beq, list_eq,
  nat_eq,
}
use blipblop.Dict.{Dict, lookup, insert}
use blipblop.Errs.{Result, ok, err, os_not_exist}
use blipblop.Api.{Volume, Mount}
use blipblop.Effect.{◌>>=◌, ◌>>◌, run_next}
use blipblop.Volumes.{
  Storage, State, FileInfo, DriversConfig, prepare_mounts, node_volume_driver, get_driver_type,
  create, get, directory_volume, or_create, ensure_local_volume, need_driver, resolve_volume,
  resolve, mark_attached,
}
use blipblop.Volumes.Attaching.{Resolved, prepare_mounts-Resolved}
use blipblop.Examples.Setting.{node_a}
use blipblop.Examples.Serving.{some_task}

abbrev or_absent : Option FileInfo → Result FileInfo
or_absent none = err os_not_exist
or_absent (some i) = ok i

abbrev cache_volume : Volume
cache_volume = record {
  meta = record some_task.meta { name = codes "cache" };
  config = record { host_local = true; template = none; node_selector = [] };
}

abbrev storage : Storage
storage = record {
  Disk = Dict Text FileInfo;
  mkdir_all = λ p d. (ok tt, insert p (record { name = p; size = 0; is_dir = true }) d);
  stat = λ p d. or_absent (lookup p d);
  read_dir = λ p d. ok [];
  remove_all = λ p d. (ok tt, d);
  create_file = λ p d. (ok tt, d);
  write_file = λ p t d. (ok tt, d);
  join = λ a b. a ++ codes "/" ++ b;
  Server = ℕ;
  get_volume = λ name w. (ok cache_volume, w);
  list_volumes = λ w. (ok (cache_volume ∷ []), w);
  set_status = λ volume node st w. (ok tt, w);
  get_node = λ name w. (ok (record { meta = some_task.meta; phase = [] }), w);
}

abbrev drivers : DriversConfig
drivers = record { host_local_root = some (codes "/v"); template_root = none }

abbrev mount_of : Text → Text → Mount
mount_of volume source = record {
  name = codes "m";
  destination = codes "/data";
  kind = [];
  volume = volume;
  source = source;
  options = [];
}

abbrev empty_disk : State storage
empty_disk = record { disk = []; server = 0 }

abbrev mounts : List Mount
mounts = mount_of [] (codes "/etc") ∷ mount_of (codes "cache") [] ∷ []

abbrev resolved_mounts : List Mount
resolved_mounts = mount_of [] (codes "/etc") ∷ mount_of (codes "cache") (codes "/v/cache") ∷ []

abbrev after : State storage
after = (prepare_mounts storage drivers node_a mounts empty_disk).1

resolved_so : prepare_mounts storage drivers node_a mounts empty_disk ≡ (ok resolved_mounts, after)
unfolding prepare_mounts resolve resolve_volume need_driver ensure_local_volume or_create get create
    directory_volume node_volume_driver get_driver_type mark_attached ◌>>=◌ ◌>>◌ run_next list_beq
resolved_so = refl

prepare_mounts-Resolved_example : Resolved storage drivers mounts resolved_mounts
prepare_mounts-Resolved_example =
    prepare_mounts-Resolved storage drivers node_a mounts resolved_mounts empty_disk after
      resolved_so
