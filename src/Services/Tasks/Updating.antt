-- ===== src/Services/Tasks/Updating.antt =====
-- internal/app/task.go: `Update`, `UpdateStatus` and `Condition`.
use mathlib.Core.Path.{subst}
use blipblop.Base.{
  ℕ, Text, ◌≡◌, refl, sym, ap, ◌∙◌, inl, inr, ◌⊎◌, ◌==◌, list_beq_iff, Bool, true, false, none,
  some, List, list_eq, nat_eq, if◌then◌else◌, Bool-cases,
}
use blipblop.Errs.{Err, Result, ok, err, panic, is_not_found, Result-cases}
use blipblop.Keys
use blipblop.Keys.{KeyId, Uuids}
use blipblop.Leases
use blipblop.Leases.{LeaseCodec, Manager}
use blipblop.Kv.{ScanKv}
use blipblop.Repo
use blipblop.Repo.{carry_meta}
use blipblop.Repo.Prefix.{task_prefixes, task_prefixes-IsApart}
use blipblop.Repo.Updating.{update_resource-Updated}
use blipblop.Api.{Lease, Task, TaskConfig, TaskStatus}
use blipblop.Effect.{◌>>=◌, ◌>>◌, lift, run_next-ok}
use blipblop.Services.Tasks.{
  TaskCodec, task_resource, TaskEvent, task_update, Exchange, apply_masked_status_update,
  or_bad_mask, State, in_repo, publish, get, update_repo, set_status, if_holder, update_status,
  publish_unless, update,
}

pub or_bad_mask-ok : {A : Type 0} (r : Result A) (a : A) → or_bad_mask r ≡ ok a → r ≡ ok a
unfolding or_bad_mask
or_bad_mask-ok (ok x) a h = h
or_bad_mask-ok (err e) a h = absurd (cc h)
or_bad_mask-ok panic a h = absurd (cc h)

module _ (db : ScanKv) (c : TaskCodec) (u : Uuids) (x : Exchange)
    (proto_equal : TaskConfig → TaskConfig → Bool) where
  open db use {kv}
  open x use {X}

  abbrev S : Type 0
  S = State db c u x proto_equal

  -- the stored task that an identifier names
  abbrev pub read : S → KeyId → Result Task
  read s id = Repo.get db (task_resource c) task_prefixes none s.tasks id

  update_repo-ok :
      (now : ℕ) (id : KeyId) (task y : Task) (s s' : S)
      → update_repo db c u x proto_equal none now id task s ≡ (ok y, s')
      → (Repo.update_resource db (task_resource c) task_prefixes none now s.tasks id task
          ≡ (ok y, s'.tasks))
        × (s'.exchange ≡ s.exchange)
  unfolding update_repo in_repo
  update_repo-ok now id task y s s' h =
      (ap (λ q. (q.0, q.1.tasks)) h, sym (ap (λ q. q.1.exchange) h))

  -- what the repository's `Update` of a task that is there comes to
  record Rewritten (id : KeyId) (old new y : Task) (t' : kv.Store) : Type 0 where
    stored : Repo.get db (task_resource c) task_prefixes none t' id ≡ ok y
    config_is : y.config ≡ new.config
    status_is : y.status ≡ new.status
    name_is : y.meta.name ≡ new.meta.name
    uid_is : y.meta.uid ≡ old.meta.uid

  update_resource-Rewritten :
      (now : ℕ) (id : KeyId) (old new y : Task) (t t' : kv.Store)
      → Repo.get db (task_resource c) task_prefixes none t id ≡ ok old
      → Repo.update_resource db (task_resource c) task_prefixes none now t id new ≡ (ok y, t')
      → Rewritten id old new y t'
  unfolding carry_meta
  update_resource-Rewritten now id old new y t t' found h =
      let w =
        update_resource-Updated db (task_resource c) task_prefixes task_prefixes-IsApart now t t' id
          new y h in
      let same : w.before ≡ old = cc (w.found, found) in
      let carried = w.carried in
      record {
        stored = w.read;
        config_is = ap (λ (z : Task). z.config) carried;
        status_is = ap (λ (z : Task). z.status) carried;
        name_is = w.kept.2;
        uid_is = w.kept.0 ∙ ap (λ (z : Task). z.meta.uid) same;
      }

  -- The stored task has the status that the mask makes of it; its config and its name are the same,
  -- and nothing was published.
  pub record StatusSet (id : KeyId) (st : TaskStatus) (mask : List Text) (s s' : S) : Type 0 where
    pub before : Task
    pub after : Task
    pub found : read s id ≡ ok before
    pub stored : read s' id ≡ ok after
    pub masked : apply_masked_status_update mask st before.status ≡ ok after.status
    pub same_config : after.config ≡ before.config
    pub same_name : (after.meta.name ≡ before.meta.name) × (after.meta.uid ≡ before.meta.uid)
    pub quiet : s'.exchange ≡ s.exchange

  set_status-StatusSet :
      (now : ℕ) (id : KeyId) (st : TaskStatus) (mask : List Text) (s s' : S)
      → set_status db c u x proto_equal none now id st mask s ≡ (ok tt, s')
      → StatusSet id st mask s s'
  unfolding set_status ◌>>=◌ ◌>>◌ get
  set_status-StatusSet now id st mask s s' h =
      let (before, s₁, e₁, h₁) = run_next-ok (read s id, s) h in
      let (base, s₂, e₂, h₂) =
        run_next-ok (lift (or_bad_mask (apply_masked_status_update mask st before.status)) s₁) h₁ in
      let (y, s₃, e₃, h₃) =
        run_next-ok
          (update_repo db c u x proto_equal none now id (record before { status = base }) s₂) h₂ in
      let same : s ≡ s₂ = ap (λ q. q.1) e₁ ∙ ap (λ q. q.1) e₂ in
      let (written, calm) = update_repo-ok now id _ y s₂ s₃ e₃ in
      let at_start : Repo.get db (task_resource c) task_prefixes none s₂.tasks id ≡ ok before =
        ap (λ (q : S). read q id) (sym same) ∙ ap (λ q. q.0) e₁ in
      let w =
        update_resource-Rewritten now id before (record before { status = base }) y s₂.tasks
          s₃.tasks at_start written in
      let ended : s₃ ≡ s' = ap (λ q. q.1) h₃ in
      let result : StatusSet id st mask s s₃ = record {
        before = before;
        after = y;
        found = ap (λ q. q.0) e₁;
        stored = w.stored;
        masked = or_bad_mask-ok _ base (ap (λ q. q.0) e₂) ∙ ap ok (sym w.status_is);
        same_config = w.config_is;
        same_name = (w.name_is, w.uid_is);
        quiet = calm ∙ ap (λ (q : S). q.exchange) (sym same);
      } in
      subst (StatusSet id st mask s) ended result

  module _ (lc : LeaseCodec) (mac : Text → Text → Text) (m : Manager) where
    -- The node holds the lease of a resource in the database, or there is no lease of it.
    pub MayTell : S → Text → Text → Type 0
    MayTell s resource node =
        let r = Leases.get db lc u mac m none s.tasks resource in
        ((lease : Lease) × (r ≡ ok lease) × (lease.config.node_id ≡ node))
        ⊎ ((e : Err) × (r ≡ err e) × (is_not_found (some e) ≡ true))

    is_holder-MayTell :
        (s : S) (resource node : Text)
        → Leases.is_holder db lc u mac m none s.tasks resource node ≡ ok true
        → MayTell s resource node
    unfolding Leases.is_holder Leases.held_by MayTell
    is_holder-MayTell s resource node h =
        elim (Result-cases (Leases.get db lc u mac m none s.tasks resource)) [
          | inl (lease, found) ↦
              let same : (lease.config.node_id == node) ≡ true = cc (rw found at h) in
              inl (lease, found, (list_beq_iff lease.config.node_id node).0 same)
          | inr (inl (e, failed)) ↦ elim (Bool-cases (is_not_found (some e))) [
            | inl missing ↦ inr (e, failed, missing)
            | inr other ↦ absurd (cc (rw (failed, other) at h))
          ]
          | inr (inr failed) ↦ absurd (cc (rw failed at h))
        ]

    if_holder-ok :
        (r : Result Bool) (act : S → Result (Unit {0}) × S) (s s' : S)
        → if_holder db c u x proto_equal r act s ≡ (ok tt, s')
        → (r ≡ ok true) × (act s ≡ (ok tt, s'))
    unfolding if_holder
    if_holder-ok (ok true) act s s' h = (refl, h)
    if_holder-ok (ok false) act s s' h = absurd (cc h)
    if_holder-ok (err e) act s s' h = absurd (cc h)
    if_holder-ok panic act s s' h = absurd (cc h)

    -- When UpdateStatus succeeds for a request that names a node, the node holds the lease of the
    -- resource that the identifier prints as, or there is no such lease, and the stored task has
    -- the status that the mask makes of the one before, the same config, name and UID, and nothing
    -- is published. An identifier by name asks for the lease of the name. Contexts are not done.
    pub update_status-StatusSet :
        (now : ℕ) (node : Text) (id : KeyId) (st : TaskStatus) (mask : List Text) (s s' : S)
        → update_status db c u x proto_equal lc mac m none now (some node) id st mask s
          ≡ (ok tt, s')
        → MayTell s (Keys.to_text u id) node × StatusSet id st mask s s'
    unfolding update_status
    update_status-StatusSet now node id st mask s s' h =
        let (holds, done) = if_holder-ok _ _ s s' h in
        (
          is_holder-MayTell s (Keys.to_text u id) node holds,
          set_status-StatusSet now id st mask s s' done,
        )

  -- the exchange before and after, when the event is published unless the configs are equal
  abbrev pub Told : Bool → TaskEvent → X → X → Type 0
  Told equal ev e e' = if equal then e' ≡ e else x.publish ev e ≡ (ok tt, e')

  -- What an `Update` has done: it published the task if its config is another.
  pub record TaskUpdated (id : KeyId) (task : Task) (s s' : S) : Type 0 where
    pub before : Task
    pub after : Task
    pub found : read s id ≡ ok before
    pub stored : read s' id ≡ ok after
    pub new_config : after.config ≡ task.config
    pub same_status : after.status ≡ before.status
    pub same_uid : after.meta.uid ≡ before.meta.uid
    pub told :
        Told (proto_equal before.config task.config) (task_update after) s.exchange s'.exchange

  publish_unless-Told :
      (equal : Bool) (ev : TaskEvent) (s s' : S)
      → publish_unless db c u x proto_equal equal ev s ≡ (ok tt, s')
      → (s'.tasks ≡ s.tasks) × Told equal ev s.exchange s'.exchange
  unfolding publish_unless publish
  publish_unless-Told true ev s s' h = (sym (ap (λ q. q.1.tasks) h), sym (ap (λ q. q.1.exchange) h))
  publish_unless-Told false ev s s' h =
      (sym (ap (λ q. q.1.tasks) h), ap (λ q. (q.0, q.1.exchange)) h)

  -- When Update succeeds, the stored task has the given config, and the status and the UID that it
  -- had; the task is published as it is stored if proto.Equal tells its config from the one before,
  -- and else nothing is published. Contexts are not done.
  pub update-TaskUpdated :
      (now : ℕ) (id : KeyId) (task : Task) (s s' : S)
      → update db c u x proto_equal none now id task s ≡ (ok tt, s')
      → TaskUpdated id task s s'
  unfolding update ◌>>=◌ get
  update-TaskUpdated now id task s s' h =
      let (before, s₁, e₁, h₁) = run_next-ok (read s id, s) h in
      let new : Task = record task { status = before.status } in
      let (y, s₂, e₂, h₂) = run_next-ok (update_repo db c u x proto_equal none now id new s₁) h₁ in
      let same : s ≡ s₁ = ap (λ q. q.1) e₁ in
      let (written, calm) = update_repo-ok now id new y s₁ s₂ e₂ in
      let at_start : Repo.get db (task_resource c) task_prefixes none s₁.tasks id ≡ ok before =
        ap (λ (q : S). read q id) (sym same) ∙ ap (λ q. q.0) e₁ in
      let w = update_resource-Rewritten now id before new y s₁.tasks s₂.tasks at_start written in
      let (kept, told) =
        publish_unless-Told (proto_equal before.config y.config) (task_update y) s₂ s' h₂ in
      record {
        before = before;
        after = y;
        found = ap (λ q. q.0) e₁;
        stored = ap (λ t. Repo.get db (task_resource c) task_prefixes none t id) kept ∙ w.stored;
        new_config = w.config_is;
        same_status = w.status_is;
        same_uid = w.uid_is;
        told =
            subst (λ e. Told (proto_equal before.config task.config) (task_update y) e s'.exchange)
              (calm ∙ ap (λ (q : S). q.exchange) (sym same))
              (subst
                (λ g. Told (proto_equal before.config g) (task_update y) s₂.exchange s'.exchange)
                w.config_is told);
      }
