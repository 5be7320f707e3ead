-- ===== src/Controllers/Agent/Leasing.antt =====
-- pkg/controller/node (handler_task.go, node.go): a task is put into the work pool with its lease
-- held, and is stopped when the lease is refused.
use blipblop.Base.{
  ℕ, Text, ◌≡◌, ◌≢◌, refl, sym, ap, ◌∙◌, inl, inr, ◌⊎◌, true, false, Bool-cases, ◌||◌, some,
  list_beq_iff, arith, list_eq, nat_eq,
}
use blipblop.Dict.{lookup, lookup-insert}
use blipblop.Errs.{Err, Result, ok, err, panic, is_conflict, is_not_found, is_permission_denied}
use blipblop.Api.{Node, Task, Lease}
use blipblop.Effect.{bind-ok, bind-keeps}
use blipblop.Controllers.Agent.{State, get_node}
use blipblop.Controllers.Agent.Hosting.{Host, start_work}
use blipblop.Controllers.Agent.Working.{stop_task}
use blipblop.Controllers.Agent.Keeping.{
  keep_lease, acquire_lease, renew_with, renew_lease, schedule_conflict, schedule_if,
  process_schedule, after_refusal, after_renewal, renew_one,
}
use blipblop.Controllers.Agent.Releasing.{Released, end_task-Released}
use blipblop.Controllers.Agent.Halting.{Wound, at_stop, end_task-Wound}

-- An error of one class is not of the other.
denied-found : (e : Err) → is_permission_denied (some e) ≡ true → is_not_found (some e) ≡ false
unfolding is_permission_denied is_not_found
denied-found e denied = ground arith

module _ (h : Host) where
  open h use {rt, api, tokens, pool}

  -- The controller has the lease: the server granted it to this node, and its fencing token and its
  -- refresh token were kept.
  pub record Held (t : Task) (s s' : State h) : Type 0 where
    pub node : Node
    pub server_before : api.Server
    pub lease : Lease
    pub token : Text
    pub fencing : ℕ
    pub of_node : (get_node h s).0 ≡ ok node
    pub granted :
        api.acquire t.meta.uid node.meta.uid server_before ≡ (ok (lease, token, fencing), s'.server)
    pub epoch : lookup t.meta.uid s'.epochs ≡ some fencing
    pub saved : tokens.save t.meta.uid token s.files ≡ (ok tt, s'.files)

  acquire_lease-Held : (t : Task) (s s' : State h) → acquire_lease h t s ≡ (ok tt, s') → Held t s s'
  unfolding acquire_lease keep_lease get_node
  acquire_lease-Held t s s' e =
      let (node, s₁, e₁, h₁) = bind-ok _ _ s e in
      let ((lease, token, fencing), s₂, e₂, h₂) = bind-ok _ _ s₁ h₁ in
      let files₂ : s.files ≡ s₂.files = ap (λ r. r.1.files) e₁ ∙ ap (λ r. r.1.files) e₂ in
      record {
        node = node;
        server_before = s₁.server;
        lease = lease;
        token = token;
        fencing = fencing;
        of_node = ap (λ r. r.0) e₁;
        granted =
            ap (λ r. (r.0, r.1.server)) e₂
            ∙ ap (λ w. (ok (lease, token, fencing), w)) (ap (λ r. r.1.server) h₂);
        epoch =
            ap (λ r. lookup t.meta.uid r.1.epochs) (sym h₂)
            ∙ lookup-insert t.meta.uid t.meta.uid fencing s₂.epochs
            ∙ rw ((list_beq_iff t.meta.uid t.meta.uid).1 refl) refl;
        saved = ap (λ f. tokens.save t.meta.uid token f) files₂ ∙ ap (λ r. (r.0, r.1.files)) h₂;
      }

  -- How `processSchedule` ended: with the lease held, what the pool makes of the start of the task is
  -- its new state; or the pool is as it was.
  pub Scheduled : Task → Node → State h → State h → Type 0
  Scheduled t node s s' =
      ((s₁ : State h) × Held t s s₁
        × (s'.epochs ≡ s₁.epochs)
        × (s'.files ≡ s₁.files)
        × (s'.server ≡ s₁.server)
        × (s'.pending ≡ (pool.enqueue node.meta.name node.meta.uid (start_work t) s₁.pending).1))
      ⊎ (s'.pending ≡ s.pending)

  acquire_lease-pending : (t : Task) (s : State h) → (acquire_lease h t s).1.pending ≡ s.pending
  unfolding acquire_lease keep_lease get_node
  acquire_lease-pending t =
      bind-keeps (λ (s : State h). s.pending) _ _ (λ s. refl)
        (λ node. bind-keeps (λ (s : State h). s.pending) _ _ (λ s. refl) (λ got s. refl))

  renew_with-pending :
      (t : Task) (node_uid : Text) (r : Result Text) (s : State h)
      → (renew_with h t node_uid r s).1.pending ≡ s.pending
  unfolding renew_with keep_lease
  renew_with-pending t node_uid (ok token) s =
      bind-keeps (λ (s : State h). s.pending) _ (keep_lease h t.meta.uid) (λ s. refl)
        (λ got s. refl) s
  renew_with-pending t node_uid (err x) s = refl
  renew_with-pending t node_uid panic s = refl

  renew_lease-pending : (t : Task) (s : State h) → (renew_lease h t s).1.pending ≡ s.pending
  unfolding renew_lease get_node
  renew_lease-pending t =
      bind-keeps (λ (s : State h). s.pending) _ _ (λ s. refl)
        (λ node s. renew_with-pending t node.meta.uid (tokens.load t.meta.uid s.files) s)

  schedule_if-Scheduled :
      (t : Task) (node : Node) (s : State h) (r : Result (Unit {0}) × State h)
      → acquire_lease h t s ≡ r
      → Scheduled t node s (schedule_if h t node r).1
  unfolding schedule_if schedule_conflict Scheduled
  schedule_if-Scheduled t node s (ok _, s₁) e =
      inl (s₁, acquire_lease-Held t s s₁ e, refl, refl, refl, refl)
  schedule_if-Scheduled t node s (err x, s₁) e =
      let same : s₁.pending ≡ s.pending =
        sym (ap (λ r. r.1.pending) e) ∙ acquire_lease-pending t s in
      elim (Bool-cases (is_conflict (some x))) [
        | inl held ↦ inr (rw held (renew_lease-pending t s₁ ∙ same))
        | inr other ↦ inr (rw other same)
      ]
  schedule_if-Scheduled t node s (panic, s₁) e =
      inr (sym (ap (λ r. r.1.pending) e) ∙ acquire_lease-pending t s)

  -- processSchedule puts the start of a task into the work pool only with the lease held: then the
  -- server granted the lease to this controller's node, its fencing token is the task's epoch and
  -- its refresh token was saved. Else the pool is as it was, whatever failed.
  pub process_schedule-Scheduled :
      (t : Task) (node : Node) (s : State h) → Scheduled t node s (process_schedule h t node s).1
  unfolding process_schedule
  process_schedule-Scheduled t node s = schedule_if-Scheduled t node s (acquire_lease h t s) refl

  -- If the renewal of a task's lease is refused, because another holds it or the token is not
  -- valid, then the containers are as the runtime's Stop of the task left them and, if Stop
  -- returned no error but not found, as deleteTask did after it; or, where a detach of its network
  -- or of its mounts returned another error or panicked, as that detach did. Whether or not the
  -- task was stopped, its marker and its epoch are gone and no others, and if the store has a
  -- refresh token, Release was called with it and the token was deleted, while else the store is as
  -- it was. The API's client returns the node and does not panic in Release.
  pub renew_one-Released :
      (t : Task) (node : Node) (e : Err) (s s₁ : State h)
      → renew_lease h t s ≡ (err e, s₁)
      → is_conflict (some e) || is_permission_denied (some e) ≡ true
      → ((token : Text) (w : api.Server) → (api.release t.meta.uid node.meta.uid token w).0 ≢ panic)
      → (get_node h s₁).0 ≡ ok node
      → Released h t.meta.uid node.meta.uid s₁ (renew_one h t s).1
        × Wound h rt.stop node.meta.uid (at_stop h t s₁) (renew_one h t s).1.containers
  unfolding renew_one after_renewal after_refusal stop_task
  renew_one-Released t node e s s₁ failed refused calm got =
      let w = end_task-Released h rt.stop t node s₁ calm got in
      let v = end_task-Wound h rt.stop t node s₁ got in
      elim (Bool-cases (is_conflict (some e))) [
        | inl held ↦ rw (failed, held) (w, v)
        | inr other ↦
            let denied : is_permission_denied (some e) ≡ true = rw other at refused in
            rw (failed, other, denied-found e denied, denied) (w, v)
      ]
