-- ===== src/Services/Resources/Telling.antt =====
-- internal/app/node.go and internal/app/volume.go: what is forwarded after an update, and `Join`.
use mathlib.Core.Path.{subst}
use blipblop.Base.{none, length, ℕ, ◌≡◌, refl, sym, ap, ◌∙◌, Bool, true, false, if◌then◌else◌}
use blipblop.Errs.{Result, ok, err, repo_not_found}
use blipblop.Keys.{KeyId, Uuids, uuid_len}
use blipblop.Kv.{ScanKv}
use blipblop.Repo
use blipblop.Repo.{Resource, Prefixes, Fresh}
use blipblop.Repo.Prefix.{IsApart}
use blipblop.Repo.Reading.{uid_id}
use blipblop.Repo.Creating.{create-get}
use blipblop.Repo.Updating.{update_resource-Updated}
use blipblop.Effect.{◌>>=◌, ◌>>◌, run_next-ok}
use blipblop.Services.Resources.{
  ResourceEvent, created, updated, Hub, State, in_repo, in_hub, get, forward_if, update_volume,
  create_node, join_missing, join_by, join,
}

module _ (db : ScanKv) (r : Resource) (p : Prefixes) (apart : IsApart p) (u : Uuids) (hub : Hub r.T)
    (same_config : r.T → r.T → Bool) where
  open db use {kv}
  open r use {T}
  open hub use {X}

  abbrev pub S : Type 0
  S = State db r p u hub same_config

  -- the hub before and after, when the event is forwarded if `SpecEqual` says so
  abbrev pub Told : Bool → ResourceEvent T → X → X → Type 0
  Told equal ev e e' = if equal then hub.forward ev e ≡ (ok tt, e') else e' ≡ e

  pub record VolumeUpdated (id : KeyId) (x : T) (s s' : S) : Type 0 where
    pub before : T
    pub after : T
    pub found : Repo.get db r p none s.stored id ≡ ok before
    pub stored : Repo.get db r p none s'.stored id ≡ ok after
    pub told : Told (same_config before after) (updated after) s.outside s'.outside

  forward_if-Told :
      (equal : Bool) (ev : ResourceEvent T) (s s' : S)
      → forward_if db r p u hub same_config equal ev s ≡ (ok tt, s')
      → (s'.stored ≡ s.stored) × Told equal ev s.outside s'.outside
  unfolding forward_if in_hub
  forward_if-Told true ev s s' h = (sym (ap (λ q. q.1.stored) h), ap (λ q. (q.0, q.1.outside)) h)
  forward_if-Told false ev s s' h = (sym (ap (λ q. q.1.stored) h), sym (ap (λ q. q.1.outside) h))

  pub in_repo-ok :
      (f : kv.Store → Result T × kv.Store) (y : T) (s s' : S)
      → in_repo db r p u hub same_config f s ≡ (ok y, s')
      → (f s.stored ≡ (ok y, s'.stored)) × (s'.outside ≡ s.outside)
  unfolding in_repo
  in_repo-ok f y s s' h = (ap (λ q. (q.0, q.1.stored)) h, sym (ap (λ q. q.1.outside) h))

  -- When the Update of a volume succeeds, Get returns what the repository stored; the update is
  -- forwarded if SpecEqual finds the new config equal to the one before, and nothing is forwarded
  -- if it does not. The key ranges of the repository do not meet. Contexts are not done.
  pub update_volume-VolumeUpdated :
      (now : ℕ) (id : KeyId) (x : T) (s s' : S)
      → update_volume db r p u hub same_config none now id x s ≡ (ok tt, s')
      → VolumeUpdated id x s s'
  unfolding update_volume ◌>>=◌ get
  update_volume-VolumeUpdated now id x s s' h =
      let (before, s₁, e₁, h₁) = run_next-ok (Repo.get db r p none s.stored id, s) h in
      let write : kv.Store → Result T × kv.Store =
        λ t. Repo.update_resource db r p none now t id x in
      let (y, s₂, e₂, h₂) = run_next-ok (in_repo db r p u hub same_config write s₁) h₁ in
      let same : s ≡ s₁ = ap (λ q. q.1) e₁ in
      let (written, calm) = in_repo-ok write y s₁ s₂ e₂ in
      let w = update_resource-Updated db r p apart now s₁.stored s₂.stored id x y written in
      let (kept, told) = forward_if-Told (same_config before y) (updated y) s₂ s' h₂ in
      record {
        before = before;
        after = y;
        found = ap (λ q. q.0) e₁;
        stored = ap (λ t. Repo.get db r p none t id) kept ∙ w.read;
        told =
            subst (λ e. Told (same_config before y) (updated y) e s'.outside)
              (calm ∙ ap (λ (q : S). q.outside) (sym same)) told;
      }

  create_node-stored :
      (fresh : Fresh) (x new : T) (s s' : S)
      → length fresh.uuid ≡ uuid_len
      → create_node db r p u hub same_config none fresh x s ≡ (ok new, s')
      → Repo.get db r p none s'.stored (uid_id fresh.uuid) ≡ ok new
  unfolding create_node ◌>>=◌ ◌>>◌ in_hub
  create_node-stored fresh x new s s' sized h =
      let make : kv.Store → Result T × kv.Store = λ t. Repo.create db r p none u fresh t x in
      let (y, s₁, e₁, h₁) = run_next-ok (in_repo db r p u hub same_config make s) h in
      let (_, s₂, e₂, h₂) =
        run_next-ok (in_hub db r p u hub same_config (hub.forward (created y)) s₁) h₁ in
      let (written, _) = in_repo-ok make y s s₁ e₁ in
      let (_, read, _, _) = create-get db r p u fresh apart sized s.stored s₁.stored x y written in
      let it : y ≡ new = cc h₂ in
      let kept : s'.stored ≡ s₁.stored = sym (ap (λ q. q.1.stored) e₂ ∙ ap (λ q. q.1.stored) h₂) in
      ap (λ t. Repo.get db r p none t (uid_id fresh.uuid)) kept ∙ read ∙ ap ok it

  -- If Join does not find the node and creates it, it fails with ErrNotFound all the same, and the
  -- node is stored: Get with its new UID returns it. The fresh UUID has 16 bytes and the key ranges
  -- of the repository do not meet. Contexts are not done.
  pub join-created :
      (fresh : Fresh) (now : ℕ) (id : KeyId) (x new : T) (s s' : S)
      → length fresh.uuid ≡ uuid_len
      → Repo.get db r p none s.stored id ≡ err repo_not_found
      → create_node db r p u hub same_config none fresh x s ≡ (ok new, s')
      → (join db r p u hub same_config none fresh now id x s ≡ (err repo_not_found, s'))
        × (Repo.get db r p none s'.stored (uid_id fresh.uuid) ≡ ok new)
  unfolding join join_by join_missing
  join-created fresh now id x new s s' sized gone made =
      (rw (gone, join_by, made, join_missing) refl, create_node-stored fresh x new s s' sized made)
