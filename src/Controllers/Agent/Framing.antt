-- ===== src/Controllers/Agent/Framing.antt =====
-- pkg/controller/node/handler_task.go: what the steps of a handler leave alone.
use blipblop.Base.{
  ℕ, Text, ◌≡◌, refl, ◌∙◌, inl, inr, Bool-cases, Option, none, some, List, ◌==◌, nat_eq,
}
use blipblop.Errs.{Result, ok, err, panic, is_not_found}
use blipblop.Api.{Task, Mount, TaskStatus}
use blipblop.Effect.{Eff, run_next, ◌>>=◌, ◌>>◌}
use blipblop.Conditions.{
  Reason, Report, detach_failed, attach_failed, pull_failed, delete_failed, image_ready, task_ready,
  is_false, of_kind,
}
use blipblop.Networking.{parse_cni_port_mappings}
use blipblop.Controllers.Agent.{
  State, or_told, set_status, detach_if, detach_network, link_up, attach_network, prepared,
  attach_mounts, detach_mounts, pull_image, delete_task, tolerating, on_runtime, on_volumes,
  on_network, network_failed, default_ports, comparable,
}
use blipblop.Controllers.Agent.Hosting.{Host}
use blipblop.Controllers.Agent.Working.{
  new_task_report, halt, halt_unless, wind_down, provision, provision_unless, start_body,
  start_failed_status,
}

-- `view` is what a task's ports have no part in.
module _ (h : Host) {A : Type 0} (view : Task → A)
    (ports_kept : (t : Task) → view (default_ports h t) ≡ view t) where
  open h use {rt, net, vol, own, task_equal}

  -- The markers, the epochs, the tokens and the view of the task are the same.
  pub record Same (s s' : State h) : Type 0 where
    pub operations_same : s'.operations ≡ s.operations
    pub epochs_same : s'.epochs ≡ s.epochs
    pub files_same : s'.files ≡ s.files
    pub view_same : view s'.task ≡ view s.task

  abbrev pub Keeps : {A : Type 0} → Eff (State h) A → Type 0
  Keeps m = (s : State h) → Same s (m s).1

  Same-refl : (s : State h) → Same s s
  Same-refl s = record {
    operations_same = refl;
    epochs_same = refl;
    files_same = refl;
    view_same = refl;
  }

  pub Same-trans : (s t u : State h) → Same s t → Same t u → Same s u
  Same-trans s t u a b = record {
    operations_same = b.operations_same ∙ a.operations_same;
    epochs_same = b.epochs_same ∙ a.epochs_same;
    files_same = b.files_same ∙ a.files_same;
    view_same = b.view_same ∙ a.view_same;
  }

  run_next-Same :
      {A B : Type 0} (s : State h) (r : Result A × State h) (k : A → Eff (State h) B)
      → Same s r.1
      → ((a : A) → Keeps (k a))
      → Same s (run_next r k).1
  unfolding run_next
  run_next-Same s (ok a, t) k w f = Same-trans s t (k a t).1 w (f a t)
  run_next-Same s (err e, t) k w f = w
  run_next-Same s (panic, t) k w f = w

  seq-Keeps :
      {B : Type 0} (m : Eff (State h) (Unit {0})) (k : Eff (State h) B)
      → Keeps m
      → Keeps k
      → Keeps (m >> k)
  unfolding ◌>>◌
  seq-Keeps m k w v s = run_next-Same s (m s) (λ _. k) (w s) (λ _. v)

  bind-Keeps :
      {A B : Type 0} (m : Eff (State h) A) (k : A → Eff (State h) B)
      → Keeps m
      → ((a : A) → Keeps (k a))
      → Keeps (m >>= k)
  unfolding ◌>>=◌
  bind-Keeps m k w v s = run_next-Same s (m s) k (w s) v

  or_told-Same :
      {A : Type 0} (s : State h) (f : Text → Report → Report) (r : Result A × State h)
      → Same s r.1
      → Same s (or_told h f r).1
  unfolding or_told
  or_told-Same s f (ok a, t) w = w
  or_told-Same s f (err e, t) w = elim (Bool-cases (is_not_found (some e))) [
    | inl missing ↦ rw missing w
    | inr other ↦ rw other (
        Same-trans s t _ w (record {
          operations_same = refl;
          epochs_same = refl;
          files_same = refl;
          view_same = refl;
        }))
  ]
  or_told-Same s f (panic, t) w = w

  -- a step that writes none of the three
  abbrev untouched :
      (s s' : State h)
      → s'.operations ≡ s.operations
      → s'.epochs ≡ s.epochs
      → s'.files ≡ s.files
      → view s'.task ≡ view s.task
      → Same s s'
  untouched s s' a b c d = record {
    operations_same = a;
    epochs_same = b;
    files_same = c;
    view_same = d;
  }

  detach_if-Keeps : (pid : ℕ) → Keeps (detach_if h pid)
  unfolding detach_if
  detach_if-Keeps pid s = elim (Bool-cases (pid == 0)) [
    | inl none_there ↦ rw none_there (Same-refl s)
    | inr there ↦
        let t : State h = record s { task = default_ports h s.task } in
        rw there (
          or_told-Same s (network_failed h detach_failed)
            (on_network h
              (net.detach s.task.meta.uid pid (parse_cni_port_mappings s.task.config.port_mappings))
              t)
            (untouched s _ refl refl refl (ports_kept s.task)))
  ]

  pid-Keeps :
      (why : Reason)
      → Keeps (λ s. or_told h (network_failed h why) (on_runtime h (rt.pid s.task.meta.uid) s))
  pid-Keeps why s =
      or_told-Same s (network_failed h why) (on_runtime h (rt.pid s.task.meta.uid) s)
        (untouched s _ refl refl refl refl)

  pub detach_network-Keeps : Keeps (detach_network h)
  unfolding detach_network
  detach_network-Keeps =
      seq-Keeps _ _ (λ s. untouched s _ refl refl refl refl)
        (bind-Keeps _ _ (pid-Keeps detach_failed)
          (λ pid. seq-Keeps _ _ (detach_if-Keeps pid) (λ s. untouched s _ refl refl refl refl)))

  link_up-Keeps : (pid : ℕ) → Keeps (link_up h pid)
  unfolding link_up
  link_up-Keeps pid s =
      let t : State h = record s { task = default_ports h s.task } in
      or_told-Same s (network_failed h attach_failed)
        (on_network h
          (net.attach s.task.meta.uid pid (parse_cni_port_mappings s.task.config.port_mappings)) t)
        (untouched s _ refl refl refl (ports_kept s.task))

  pub attach_network-Keeps : Keeps (attach_network h)
  unfolding attach_network
  attach_network-Keeps =
      seq-Keeps _ _ (λ s. untouched s _ refl refl refl refl)
        (bind-Keeps _ _ (pid-Keeps attach_failed)
          (λ pid. bind-Keeps _ _ (link_up-Keeps pid) (λ _ s. untouched s _ refl refl refl refl)))

  pub detach_mounts-Keeps : Keeps (detach_mounts h)
  unfolding detach_mounts
  detach_mounts-Keeps =
      seq-Keeps _ _ (λ s. untouched s _ refl refl refl refl)
        (seq-Keeps _ _
          (λ s.
            or_told-Same s (λ text r. is_false pull_failed none (of_kind image_ready r))
              (on_volumes h (vol.detach_mounts own s.task.config.mounts) s)
              (untouched s _ refl refl refl refl))
          (λ s. untouched s _ refl refl refl refl))

  pub pull_image-Keeps : Keeps (pull_image h)
  unfolding pull_image
  pull_image-Keeps =
      seq-Keeps _ _ (λ s. untouched s _ refl refl refl refl)
        (seq-Keeps _ _
          (λ s.
            or_told-Same s (λ text r. is_false pull_failed (some text) (of_kind image_ready r))
              (on_runtime h (rt.pull s.task) s) (untouched s _ refl refl refl refl))
          (λ s. untouched s _ refl refl refl refl))

  pub delete_task-Keeps : Keeps (delete_task h)
  unfolding delete_task
  delete_task-Keeps =
      seq-Keeps _ _ (λ s. untouched s _ refl refl refl refl)
        (seq-Keeps _ _ (λ s. untouched s _ refl refl refl refl)
          (seq-Keeps _ _
            (λ s.
              or_told-Same s (λ text r. is_false delete_failed (some text) (of_kind task_ready r))
                (on_runtime h (rt.remove s.task) s) (untouched s _ refl refl refl refl))
            (seq-Keeps _ _ (λ s. untouched s _ refl refl refl refl)
              (λ s. untouched s _ refl refl refl refl))))

  pub set_status-Keeps :
      (uid : Text) (st : TaskStatus) (mask : List Text) → Keeps (set_status h uid st mask)
  unfolding set_status
  set_status-Keeps uid st mask s = untouched s _ refl refl refl refl

  pub new_task_report-Keeps : (reporter : Text) → Keeps (new_task_report h reporter)
  unfolding new_task_report
  new_task_report-Keeps reporter s = untouched s _ refl refl refl refl

  halt-Keeps : (act : Task → Eff rt.Containers (Unit {0})) → Keeps (halt h act)
  unfolding halt
  halt-Keeps act =
      seq-Keeps _ _ (λ s. untouched s _ refl refl refl refl)
        (seq-Keeps _ _ delete_task-Keeps
          (seq-Keeps _ _ (λ s. set_status-Keeps _ _ _ s) (λ s. set_status-Keeps _ _ _ s)))

  halt_unless-Same :
      (act : Task → Eff rt.Containers (Unit {0})) (s : State h) (r : Result (Unit {0}) × State h)
      → Same s r.1
      → Same s (halt_unless h act r).1
  unfolding halt_unless
  halt_unless-Same act s (ok x, t) w = Same-trans s t _ w (halt-Keeps act t)
  halt_unless-Same act s (err e, t) w = w
  halt_unless-Same act s (panic, t) w = w

  pub wind_down-Keeps :
      (act : Task → Eff rt.Containers (Unit {0})) (node : Text) → Keeps (wind_down h act node)
  unfolding wind_down
  wind_down-Keeps act node = seq-Keeps _ _ (new_task_report-Keeps node) (
      seq-Keeps _ _ detach_network-Keeps
        (λ s. halt_unless-Same act s (tolerating h (detach_mounts h) s) (detach_mounts-Keeps s)))

  -- nor the task's mounts
  abbrev pub MountsKept : Type 0
  MountsKept =
      (t : Task) (ms : List Mount)
      → view (record t { config = record t.config { mounts = ms } }) ≡ view t

  prepared-Same :
      MountsKept
      → (s : State h) (r : Result (List Mount) × State h) → Same s r.1
      → Same s (prepared h r).1
  unfolding prepared
  prepared-Same mounts_kept s (ok ms, t) w =
      untouched s _ w.operations_same w.epochs_same w.files_same
        (mounts_kept t.task ms ∙ w.view_same)
  prepared-Same mounts_kept s (err e, t) w =
      untouched s _ w.operations_same w.epochs_same w.files_same w.view_same
  prepared-Same mounts_kept s (panic, t) w = w

  pub attach_mounts-Keeps : MountsKept → Keeps (attach_mounts h)
  unfolding attach_mounts
  attach_mounts-Keeps mounts_kept =
      seq-Keeps _ _ (λ s. untouched s _ refl refl refl refl)
        (seq-Keeps _ _
          (λ s.
            prepared-Same mounts_kept s
              (on_volumes h (vol.prepare_mounts own s.task.config.mounts) s)
              (untouched s _ refl refl refl refl))
          (λ s. untouched s _ refl refl refl refl))

  provision-Keeps : MountsKept → Keeps (provision h)
  unfolding provision
  provision-Keeps mounts_kept = seq-Keeps _ _ (new_task_report-Keeps own.meta.uid) (
      seq-Keeps _ _ detach_network-Keeps (
        seq-Keeps _ _ delete_task-Keeps (
          seq-Keeps _ _ (attach_mounts-Keeps mounts_kept) (
            seq-Keeps _ _ pull_image-Keeps (
              seq-Keeps _ _ (λ s. untouched s _ refl refl refl refl)
                (seq-Keeps _ _ attach_network-Keeps (
                  seq-Keeps _ _ (λ s. set_status-Keeps _ _ _ s)
                    (λ s. set_status-Keeps _ _ _ s))))))))

  provision_unless-Keeps : MountsKept → (o : Option Task) → Keeps (provision_unless h o)
  unfolding provision_unless
  provision_unless-Keeps mounts_kept none s = provision-Keeps mounts_kept s
  provision_unless-Keeps mounts_kept (some t) s =
      elim (Bool-cases (task_equal (comparable t) (comparable s.task))) [
        | inl same ↦ rw same (Same-refl s)
        | inr other ↦ rw other (provision-Keeps mounts_kept s)
      ]

  pub start_body-Keeps : MountsKept → Keeps (start_body h)
  unfolding start_body
  start_body-Keeps mounts_kept =
      bind-Keeps _ _ (λ s. untouched s _ refl refl refl refl)
        (λ o. provision_unless-Keeps mounts_kept o)

  pub start_failed_status-Same :
      (s : State h) (r : Result (Unit {0}) × State h)
      → Same s r.1
      → Same s (start_failed_status h r).1
  unfolding start_failed_status
  start_failed_status-Same s (ok x, t) w = w
  start_failed_status-Same s (err e, t) w = Same-trans s t _ w (set_status-Keeps _ _ _ t)
  start_failed_status-Same s (panic, t) w = w
