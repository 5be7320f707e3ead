-- ===== src/Services/Statuses/Storing.antt =====
-- internal/app/node.go and internal/app/volume.go: what `UpdateStatus` and `Condition` store.
use blipblop.Base.{
  ℕ, Text, ◌≡◌, refl, sym, ap, ◌∙◌, Bool, Option, none, List, [], ◌∷◌, list_beq, list_eq, nat_eq,
  codes,
}
use blipblop.Errs.{Result, ok, err, status, invalid_argument}
use blipblop.Keys.{KeyId, Uuids}
use blipblop.Kv.{ScanKv}
use blipblop.Repo
use blipblop.Repo.{Resource, Prefixes}
use blipblop.Repo.Prefix.{IsApart}
use blipblop.Repo.Updating.{update_resource-Updated}
use blipblop.Api.{Condition, VolumeStatus}
use blipblop.Effect.{◌>>=◌, ◌>>◌, lift, run_next-ok}
use blipblop.Services.Tasks.{or_bad_mask}
use blipblop.Services.Tasks.Updating.{or_bad_mask-ok}
use blipblop.Services.Resources.{Hub, State, in_repo, in_hub, get}
use blipblop.Services.Resources.Telling.{in_repo-ok}
use blipblop.Services.Statuses.{Status, volume_status, update_status, condition}

module _ (db : ScanKv) (r : Resource) (p : Prefixes) (apart : IsApart p) (u : Uuids) (hub : Hub r.T)
    (same_config : r.T → r.T → Bool) (f : Status r.T)
    (report : List Condition → hub.X → Result (Unit {0}) × hub.X) where
  open db use {kv}
  open r use {T}

  abbrev pub S : Type 0
  S = State db r p u hub same_config

  -- The stored message is the one before, with the metadata of an update and the status that the mask
  -- makes of its status.
  pub record StatusStored (now : ℕ) (id : KeyId) (st : f.Given) (mask : List Text) (s s' : S)
      : Type 0 where
    pub before : T
    pub base : f.Kept
    pub found : Repo.get db r p none s.stored id ≡ ok before
    pub masked : f.apply mask st (f.status_of before) ≡ ok base
    pub stored :
        Repo.get db r p none s'.stored id
        ≡ ok (Repo.carry_meta db r p now before (f.with_status before base))
    pub quiet : s'.outside ≡ s.outside

  update_status-StatusStored :
      (now : ℕ) (id : KeyId) (st : f.Given) (mask : List Text) (s s' : S)
      → update_status db r p u hub same_config f report none now id st mask s ≡ (ok tt, s')
      → StatusStored now id st mask s s'
  unfolding update_status ◌>>=◌ ◌>>◌ get
  update_status-StatusStored now id st mask s s' h =
      let (before, s₁, e₁, h₁) = run_next-ok (Repo.get db r p none s.stored id, s) h in
      let (base, s₂, e₂, h₂) =
        run_next-ok (lift (or_bad_mask (f.apply mask st (f.status_of before))) s₁) h₁ in
      let write : kv.Store → Result T × kv.Store =
        λ t. Repo.update_resource db r p none now t id (f.with_status before base) in
      let (y, s₃, e₃, h₃) = run_next-ok (in_repo db r p u hub same_config write s₂) h₂ in
      let same : s ≡ s₂ = ap (λ q. q.1) e₁ ∙ ap (λ q. q.1) e₂ in
      let (written, calm) = in_repo-ok db r p apart u hub same_config write y s₂ s₃ e₃ in
      let w = update_resource-Updated db r p apart now s₂.stored s₃.stored id _ y written in
      let ended : s₃ ≡ s' = ap (λ q. q.1) h₃ in
      let found : Repo.get db r p none s.stored id ≡ ok before = ap (λ q. q.0) e₁ in
      let at_start : Repo.get db r p none s₂.stored id ≡ ok before =
        ap (λ (q : S). Repo.get db r p none q.stored id) (sym same) ∙ found in
      let it : w.before ≡ before = cc (w.found, at_start) in
      record {
        before = before;
        base = base;
        found = found;
        masked = or_bad_mask-ok _ base (ap (λ q. q.0) e₂);
        stored =
            ap (λ (q : S). Repo.get db r p none q.stored id) (sym ended)
            ∙ w.read
            ∙ ap ok
                (w.carried ∙ ap (λ b. Repo.carry_meta db r p now b (f.with_status before base)) it);
        quiet = ap (λ (q : S). q.outside) (sym ended) ∙ calm ∙ ap (λ (q : S). q.outside) (sym same);
      }

  -- the status that the conditions make of the one before, and the report
  pub ConditionStored : ℕ → KeyId → List Condition → S → S → Type 0
  ConditionStored now id conditions s s' =
      (s₁ : S) × StatusStored now id (f.with_conditions conditions) (codes "conditions" ∷ []) s s₁
      × (s'.stored ≡ s₁.stored)
      × (report conditions s.outside ≡ (ok tt, s'.outside))

  -- When Condition succeeds, Get returns the message that was stored before, with the metadata of
  -- an update and with the status that the mask "conditions" makes of its status, and the report
  -- was published once. The key ranges of the repository do not meet. Contexts are not done.
  pub condition-ConditionStored :
      (now : ℕ) (id : KeyId) (conditions : List Condition) (s s' : S)
      → condition db r p u hub same_config f report none now id conditions s ≡ (ok tt, s')
      → ConditionStored now id conditions s s'
  unfolding condition ◌>>◌ ConditionStored in_hub
  condition-ConditionStored now id conditions s s' h =
      let (_, s₁, e₁, h₁) =
        run_next-ok
          (update_status db r p u hub same_config f report none now id
            (f.with_conditions conditions) (codes "conditions" ∷ []) s)
          h in
      let w = update_status-StatusStored now id _ _ s s₁ e₁ in
      (
        s₁,
        w,
        sym (ap (λ q. q.1.stored) h₁),
        ap (λ x. report conditions x) (sym w.quiet) ∙ ap (λ q. (q.0, q.1.outside)) h₁,
      )

module _ (db : ScanKv) (r : Resource) (p : Prefixes) (u : Uuids) (hub : Hub r.T)
    (same_config : r.T → r.T → Bool) (of : r.T → Option VolumeStatus)
    (set : r.T → Option VolumeStatus → r.T)
    (report : List Condition → hub.X → Result (Unit {0}) × hub.X) where
  -- Condition of a volume that is there fails with InvalidArgument whatever the conditions are, and
  -- changes and publishes nothing: the mask of a volume has no path for conditions. Contexts are
  -- not done.
  pub condition-refused :
      (now : ℕ) (id : KeyId) (conditions : List Condition) (x : r.T)
      (s : State db r p u hub same_config)
      → Repo.get db r p none s.stored id ≡ ok x
      → condition db r p u hub same_config (volume_status of set) report none now id conditions s
        ≡ (err (status invalid_argument), s)
  unfolding condition update_status ◌>>=◌ ◌>>◌ get volume_status or_bad_mask list_beq
  condition-refused now id conditions x s found = rw found refl
