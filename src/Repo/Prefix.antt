-- ===== src/Repo/Prefix.antt =====
-- pkg/repository/repository.go: the key ranges of the repositories.
use blipblop.Base.{
  Text, ◌≡◌, ◌≢◌, refl, Bool, true, false, [], ◌∷◌, ◌++◌, if◌then◌else◌, ◌==◌, list_eq, nat_eq,
  arith, codes,
}
use blipblop.Repo.{Prefixes}

-- Both texts go on up to a place where they differ.
unfoldable pub differ : Text → Text → Bool
differ [] q = false
differ (x ∷ p) [] = false
differ (x ∷ p) (y ∷ q) = let rest = differ p q in if x == y then rest else true

pub differ_sound : (p q a b : Text) → differ p q ≡ true → p ++ a ≢ q ++ b
unfolding differ
differ_sound [] q a b h e = cc
differ_sound (x ∷ p) [] a b h e = cc
differ_sound (x ∷ p) (y ∷ q) a b h e = ground (arith, differ_sound p q a b)

-- No prefix of a repository begins a key of another range.
pub record IsApart (p : Prefixes) : Type 0 where
  pub name_uid : differ p.iprefix p.prefix ≡ true
  pub idx_uid : differ p.idxprefix p.prefix ≡ true
  pub name_idx : differ p.iprefix p.idxprefix ≡ true

-- The prefixes of `NewTaskRepo`, `NewNodeRepo` and so on.
unfoldable pub task_prefixes : Prefixes
task_prefixes = record {
  prefix = codes "task/";
  iprefix = codes "i/task/";
  idxprefix = codes "i/idx/task";
}

unfoldable pub node_prefixes : Prefixes
node_prefixes = record {
  prefix = codes "node/";
  iprefix = codes "i/node/";
  idxprefix = codes "i/idx/node";
}

unfoldable pub volume_prefixes : Prefixes
volume_prefixes = record {
  prefix = codes "volume/";
  iprefix = codes "i/volume/";
  idxprefix = codes "i/idx/volume";
}

unfoldable pub lease_prefixes : Prefixes
lease_prefixes = record {
  prefix = codes "lease/";
  iprefix = codes "i/lease/";
  idxprefix = codes "i/idx/lease";
}

unfoldable pub event_prefixes : Prefixes
event_prefixes = record {
  prefix = codes "event/";
  iprefix = codes "i/event/";
  idxprefix = codes "i/idx/event";
}

unfoldable pub container_set_prefixes : Prefixes
container_set_prefixes = record {
  prefix = codes "containerset/";
  iprefix = codes "i/containerset/";
  idxprefix = codes "i/idx/containerset";
}

pub event_prefixes-IsApart : IsApart event_prefixes
unfolding event_prefixes differ
event_prefixes-IsApart = record { name_uid = refl; idx_uid = refl; name_idx = refl }

pub container_set_prefixes-IsApart : IsApart container_set_prefixes
unfolding container_set_prefixes differ
container_set_prefixes-IsApart = record { name_uid = refl; idx_uid = refl; name_idx = refl }

pub task_prefixes-IsApart : IsApart task_prefixes
unfolding task_prefixes differ
task_prefixes-IsApart = record { name_uid = refl; idx_uid = refl; name_idx = refl }

pub lease_prefixes-IsApart : IsApart lease_prefixes
unfolding lease_prefixes differ
lease_prefixes-IsApart = record { name_uid = refl; idx_uid = refl; name_idx = refl }

-- The ranges of two repositories that share a database.
pub record AreApart (p q : Prefixes) : Type 0 where
  pub uid_uid : differ p.prefix q.prefix ≡ true
  pub uid_name : differ p.prefix q.iprefix ≡ true
  pub uid_idx : differ p.prefix q.idxprefix ≡ true
  pub name_uid : differ p.iprefix q.prefix ≡ true
  pub name_name : differ p.iprefix q.iprefix ≡ true
  pub name_idx : differ p.iprefix q.idxprefix ≡ true
  pub idx_uid : differ p.idxprefix q.prefix ≡ true
  pub idx_name : differ p.idxprefix q.iprefix ≡ true
  pub idx_idx : differ p.idxprefix q.idxprefix ≡ true
