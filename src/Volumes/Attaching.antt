-- ===== src/Volumes/Attaching.antt =====
-- pkg/volume/attacher.go: the mounts that `PrepareMounts` returns.
use mathlib.Core.Path.{subst}
use blipblop.Base.{
  list_beq_iff, Text, ◌≡◌, refl, sym, ap, ◌∙◌, inl, inr, ◌⊎◌, Bool-cases, Option, none, some, List,
  [], ◌∷◌, ◌==◌, list_eq, nat_eq,
}
use blipblop.Errs.{Result, ok, err, panic, os_not_exist}
use blipblop.Api.{Volume, Mount}
use blipblop.Effect.{bind-ok, seq-ok}
use blipblop.Volumes.{
  Storage, State, FileInfo, FsVolume, Driver, host_local_driver, template_driver, DriversConfig,
  node_volume_driver, get_driver_type, template_path, create, get, directory_volume, or_create,
  ensure_local_volume, need_driver, resolve_volume, resolve, prepare_mounts,
}

location_of : Result FsVolume → Text
location_of (ok v) = v.location
location_of (err e) = []
location_of panic = []

mounts_of : Result (List Mount) → List Mount
mounts_of (ok ms) = ms
mounts_of (err e) = []
mounts_of panic = []

source_of : Result Mount → Mount → Mount
source_of (ok m) other = m
source_of (err e) other = other
source_of panic other = other

module _ (st : Storage) where
  open st use {join}

  -- where a driver keeps a volume; a template volume is the one that the API returned
  pub data Located (name : Text) : Driver → Text → Type 0 where
    in_directory :
        {root location : Text}
        → location ≡ join root name
        → Located name (host_local_driver root) location
    in_file :
        {root location : Text}
        → (v : Volume) (w : st.Server) → (st.get_volume name w).0 ≡ ok v
        → location ≡ template_path st root v
        → Located name (template_driver root) location

  directory_volume-location :
      (p : Text) (info : FileInfo) (l : FsVolume) (s s' : State st)
      → directory_volume st p info s ≡ (ok l, s')
      → l.location ≡ p
  unfolding directory_volume location_of
  directory_volume-location p info l s s' h = elim (Bool-cases info.is_dir) [
    | inl dir ↦ sym (ap (λ r. location_of r.0) (rw dir at h))
    | inr other ↦ absurd (cc (ap (λ r. r.0) (rw other at h)))
  ]

  get-Located :
      (d : Driver) (name : Text) (l : FsVolume) (s s' : State st)
      → get st d name s ≡ (ok l, s')
      → Located name d l.location
  unfolding get location_of
  get-Located (host_local_driver root) name l s s' h =
      let (info, s₁, _, h₁) = bind-ok _ _ s h in
      in_directory (directory_volume-location (join root name) info l s₁ s' h₁)
  get-Located (template_driver root) name l s s' h =
      let (v, s₁, e₁, h₁) = bind-ok _ _ s h in
      let (info, s₂, _, h₂) = bind-ok _ _ s₁ h₁ in
      in_file v s.server (ap (λ r. r.0) e₁) (sym (ap (λ r. location_of r.0) h₂))

  create-Located :
      (d : Driver) (name : Text) (l : FsVolume) (s s' : State st)
      → create st d name s ≡ (ok l, s')
      → Located name d l.location
  unfolding create location_of
  create-Located (host_local_driver root) name l s s' h =
      let (_, s₁, _, h₁) = seq-ok _ _ s h in
      let (info, s₂, _, h₂) = bind-ok _ _ s₁ h₁ in in_directory (sym (ap (λ r. location_of r.0) h₂))
  create-Located (template_driver root) name l s s' h =
      let (v, s₁, e₁, h₁) = bind-ok _ _ s h in
      let (_, s₂, _, h₂) = seq-ok _ _ s₁ h₁ in
      let (_, s₃, _, h₃) = seq-ok _ _ s₂ h₂ in
      let (_, s₄, _, h₄) = seq-ok _ _ s₃ h₃ in
      let (info, s₅, _, h₅) = bind-ok _ _ s₄ h₄ in
      in_file v s.server (ap (λ r. r.0) e₁) (sym (ap (λ r. location_of r.0) h₅))

  -- The volume was there, or it was not and was created.
  or_create-Located :
      (d : Driver) (name : Text) (r : Result FsVolume × State st) (l : FsVolume) (s s' : State st)
      → get st d name s ≡ r
      → or_create st d name r ≡ (ok l, s')
      → Located name d l.location
  unfolding or_create
  or_create-Located d name (ok v, t) l s s' e h = get-Located d name l s s' (e ∙ h)
  or_create-Located d name (err os_not_exist, t) l s s' e h = create-Located d name l t s' h
  or_create-Located d name (err x, t) l s s' e h = absurd (cc h)
  or_create-Located d name (panic, t) l s s' e h = absurd (cc h)

  -- How a mount was resolved: the driver of its volume gave it its path.
  pub record FromVolume (config : DriversConfig) (m m' : Mount) : Type 0 where
    pub volume : Volume
    pub server : st.Server
    pub driver : Driver
    pub location : Text
    pub known : (st.get_volume m.volume server).0 ≡ ok volume
    pub configured : node_volume_driver config (get_driver_type volume) ≡ some driver
    pub located : Located m.volume driver location
    pub source_set : m' ≡ record m { source = location }

  pub Resolved : DriversConfig → List Mount → List Mount → Type 0
  Resolved config [] [] = Unit {0}
  Resolved config (m ∷ ms) (m' ∷ ms') =
      (((m.volume ≡ []) × (m' ≡ m)) ⊎ FromVolume config m m') × Resolved config ms ms'
  Resolved config _ _ = ⊥

  need_driver-ok :
      (o : Option Driver) (d : Driver) (s s' : State st)
      → need_driver st o s ≡ (ok d, s')
      → (o ≡ some d) × (s ≡ s')
  unfolding need_driver
  need_driver-ok none d s s' h = absurd (cc (ap (λ r. r.0) h))
  need_driver-ok (some x) d s s' h = (cc (ap (λ r. r.0) h), ap (λ r. r.1) h)

  resolve_volume-FromVolume :
      (config : DriversConfig) (node : Text) (m m' : Mount) (s s' : State st)
      → resolve_volume st config node m s ≡ (ok m', s')
      → FromVolume config m m'
  unfolding resolve_volume ensure_local_volume source_of
  resolve_volume-FromVolume config node m m' s s' h =
      let (v, s₁, e₁, h₁) = bind-ok _ _ s h in
      let (d, s₂, e₂, h₂) = bind-ok _ _ s₁ h₁ in
      let (l, s₃, e₃, h₃) = bind-ok _ _ s₂ h₂ in
      let (_, s₄, _, h₄) = seq-ok _ _ s₃ h₃ in
      record {
        volume = v;
        server = s.server;
        driver = d;
        location = l.location;
        known = ap (λ r. r.0) e₁;
        configured = (need_driver-ok _ d s₁ s₂ e₂).0;
        located = or_create-Located d m.volume (get st d m.volume s₂) l s₂ s₃ refl e₃;
        source_set = sym (ap (λ r. source_of r.0 m) h₄);
      }

  resolve-ok :
      (config : DriversConfig) (node : Text) (m m' : Mount) (s s' : State st)
      → resolve st config node m s ≡ (ok m', s')
      → ((m.volume ≡ []) × (m' ≡ m)) ⊎ FromVolume config m m'
  unfolding resolve source_of
  resolve-ok config node m m' s s' h = elim (Bool-cases (m.volume == [])) [
    | inl none_named ↦ inl (
      (list_beq_iff m.volume []).0 none_named,
      sym (ap (λ r. source_of r.0 m) (rw none_named at h)),
    )
    | inr named ↦ inr (resolve_volume-FromVolume config node m m' s s' (rw named at h))
  ]

  -- When PrepareMounts returns no error, it returns the mounts in their order: one without a volume
  -- is as it was, and one with a volume has as its source the path at which the driver of the
  -- volume, which the node is configured with, keeps it, and is else as it was.
  pub prepare_mounts-Resolved :
      (config : DriversConfig) (node : Text) (ms ms' : List Mount) (s s' : State st)
      → prepare_mounts st config node ms s ≡ (ok ms', s')
      → Resolved config ms ms'
  unfolding prepare_mounts Resolved mounts_of
  prepare_mounts-Resolved config node [] ms' s s' h =
      subst (Resolved config []) (ap (λ r. mounts_of r.0) h) tt
  prepare_mounts-Resolved config node (m ∷ ms) ms' s s' h =
      let (m₁, s₁, e₁, h₁) = bind-ok _ _ s h in
      let (ms₁, s₂, e₂, h₂) = bind-ok _ _ s₁ h₁ in
      subst (Resolved config (m ∷ ms)) (ap (λ r. mounts_of r.0) h₂)
        (resolve-ok config node m m₁ s s₁ e₁, prepare_mounts-Resolved config node ms ms₁ s₁ s₂ e₂)
