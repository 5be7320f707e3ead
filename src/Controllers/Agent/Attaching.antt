-- ===== src/Controllers/Agent/Attaching.antt =====
-- pkg/controller/node/handler_task.go: what the steps of `startTask` give that returned.
use blipblop.Base.{
  ℕ, Text, ◌≡◌, refl, sym, ap, ◌∙◌, inl, inr, Bool-cases, some, [], List, list_eq, nat_eq,
}
use blipblop.Dict.{Dict, lookup}
use blipblop.Errs.{Result, ok, err, panic, is_not_found}
use blipblop.Api.{Task, Mount}
use blipblop.Effect.{Eff, ◌>>◌, run_next-ok, seq-ok, bind-ok}
use blipblop.Conditions.{Report, attach_failed}
use blipblop.Networking.{parse_cni_port_mappings}
use blipblop.Controllers.Agent.{
  State, default_ports, or_told, link_up, attach_network, prepared, attach_mounts, network_failed,
  on_runtime, on_network,
}
use blipblop.Controllers.Agent.Hosting.{Host}
use blipblop.Controllers.Agent.Working.{epoch_labels}
use blipblop.Controllers.Agent.Framing.{Same, Keeps}

-- a task without its port mappings
abbrev pub without_ports : Task → Task
without_ports t = record t { config = record t.config { port_mappings = [] } }

abbrev pub with_mounts : List Mount → Task → Task
with_mounts ms t = record t { config = record t.config { mounts = ms } }

module _ (h : Host) where
  open h use {rt, net, vol, api, own, task_equal, err_text}

  pub without_ports-default_ports : (t : Task) → without_ports (default_ports h t) ≡ without_ports t
  unfolding default_ports
  without_ports-default_ports t = refl

  pub meta_kept : (t : Task) → (default_ports h t).meta ≡ t.meta
  unfolding default_ports
  meta_kept t = refl

  abbrev Alike : State h → State h → Type 0
  Alike = Same h without_ports without_ports-default_ports

  -- a step that returned, and what it left alone
  pub passed :
      {B : Type 0} {b : B} (m : Eff (State h) (Unit {0})) (k : Eff (State h) B) (s s' : State h)
      → Keeps h without_ports without_ports-default_ports m
      → (m >> k) s ≡ (ok b, s')
      → (s₁ : State h) × (m s ≡ (ok tt, s₁)) × Alike s s₁ × (k s₁ ≡ (ok b, s'))
  unfolding ◌>>◌
  passed m k s s' w e =
      let (_, s₁, first, rest) = run_next-ok (m s) e in
      (s₁, first, rw (ap (λ r. r.1) first) at (w s), rest)

  or_told-ok :
      {A : Type 0} (f : Text → Report → Report) (r : Result A × State h) (a : A) (s : State h)
      → or_told h f r ≡ (ok a, s)
      → r ≡ (ok a, s)
  unfolding or_told
  or_told-ok f (ok x, t) a s e = e
  or_told-ok f (err x, t) a s e = elim (Bool-cases (is_not_found (some x))) [
    | inl missing ↦ absurd (cc (rw missing at e))
    | inr other ↦ absurd (cc (rw other at e))
  ]
  or_told-ok f (panic, t) a s e = absurd (cc e)

  prepared-ok :
      (r : Result (List Mount) × State h) (s : State h)
      → prepared h r ≡ (ok tt, s)
      → (ms : List Mount) × (r.0 ≡ ok ms) × (s ≡ record r.1 { task = with_mounts ms r.1.task })
  unfolding prepared
  prepared-ok (ok ms, t) s e = (ms, refl, sym (ap (λ r. r.1) e))
  prepared-ok (err x, t) s e = absurd (cc e)
  prepared-ok (panic, t) s e = absurd (cc e)

  -- What PrepareMounts made of the task's mounts.
  pub attach_mounts-ok :
      (s s' : State h)
      → attach_mounts h s ≡ (ok tt, s')
      → (ms : List Mount) × ((vol.prepare_mounts own s.task.config.mounts s.volumes).0 ≡ ok ms)
        × (s'.task ≡ with_mounts ms s.task)
        × (s'.volumes ≡ (vol.prepare_mounts own s.task.config.mounts s.volumes).1)
  unfolding attach_mounts
  attach_mounts-ok s s' e =
      let (_, s₁, e₁, h₁) = seq-ok _ _ s e in
      let (_, s₂, e₂, h₂) = seq-ok _ _ s₁ h₁ in
      let start : s₁.task ≡ s.task = sym (ap (λ r. r.1.task) e₁) in
      let vols : s₁.volumes ≡ s.volumes = sym (ap (λ r. r.1.volumes) e₁) in
      let (ms, made, left) = prepared-ok _ s₂ e₂ in
      (
        ms,
        rw (start, vols) at made,
        sym (ap (λ r. r.1.task) h₂) ∙ ap (λ (x : State h). x.task) left ∙ ap (with_mounts ms) start,
        sym (ap (λ r. r.1.volumes) h₂) ∙ ap (λ (x : State h). x.volumes) left ∙ ap2 start vols,
      )
    where
      ap2 :
          {t t' : Task} {v v' : vol.Volumes}
          → t ≡ t'
          → v ≡ v'
          → (vol.prepare_mounts own t.config.mounts v).1
            ≡ (vol.prepare_mounts own t'.config.mounts v').1
      ap2 a b = λ i. (vol.prepare_mounts own (a i).config.mounts (b i)).1

  -- The process that the task has is linked up.
  pub record LinkedUp (t : Task) (c : rt.Containers) (l : net.Links) (s' : State h) : Type 0 where
    pub pid : ℕ
    pub addr : Text × Text
    pub of_process : rt.pid t.meta.uid c ≡ (ok pid, s'.containers)
    pub attached_there :
        net.attach t.meta.uid pid (parse_cni_port_mappings t.config.port_mappings) l
        ≡ (ok addr, s'.links)

  pub attach_network-ok :
      (s s' : State h) → attach_network h s ≡ (ok tt, s') → LinkedUp s.task s.containers s.links s'
  unfolding attach_network link_up
  attach_network-ok s s' e =
      let (_, s₁, e₁, h₁) = seq-ok _ _ s e in
      let (pid, s₂, e₂, h₂) = bind-ok _ _ s₁ h₁ in
      let (addr, s₃, e₃, h₃) = bind-ok _ _ s₂ h₂ in
      let told =
        or_told-ok (network_failed h attach_failed) (on_runtime h (rt.pid s₁.task.meta.uid) s₁) pid
          s₂ e₂ in
      let t₂ : State h = record s₂ { task = default_ports h s₂.task } in
      let linked =
        or_told-ok (network_failed h attach_failed)
          (on_network h
            (net.attach s₂.task.meta.uid pid (parse_cni_port_mappings s₂.task.config.port_mappings))
            t₂)
          addr s₃ e₃ in
      let task₁ : s.task ≡ s₁.task = ap (λ r. r.1.task) e₁ in
      let task₂ : s₁.task ≡ s₂.task = ap (λ r. r.1.task) told in
      let boxes : s.containers ≡ s₁.containers = ap (λ r. r.1.containers) e₁ in
      let nets : s.links ≡ s₂.links = ap (λ r. r.1.links) e₁ ∙ ap (λ r. r.1.links) told in
      let left : s₂.containers ≡ s'.containers =
        ap (λ r. r.1.containers) linked ∙ ap (λ r. r.1.containers) h₃ in
      let tasks = task₁ ∙ task₂ in
      record {
        pid = pid;
        addr = addr;
        of_process =
            (λ i. rt.pid (task₁ i).meta.uid (boxes i))
            ∙ ap (λ r. (r.0, r.1.containers)) told
            ∙ ap (λ c. (ok pid, c)) left;
        attached_there =
            (λ i.
              net.attach (tasks i).meta.uid pid
                (parse_cni_port_mappings (tasks i).config.port_mappings) (nets i))
            ∙ ap (λ r. (r.0, r.1.links)) linked
            ∙ ap (λ l. (ok addr, l)) (ap (λ r. r.1.links) h₃);
      }

  -- What was run for a task: with the mounts that PrepareMounts gave for its mounts, and with the
  -- label of its epoch, if it has one; its process is linked up.
  pub record Provisioned (t : Task) (epochs : Dict Text ℕ) (s' : State h) : Type 0 where
    pub mounts : List Mount
    pub run_task : Task
    pub volumes_before : vol.Volumes
    pub containers_before : rt.Containers
    pub containers_after : rt.Containers
    pub links_before : net.Links
    pub mounted : (vol.prepare_mounts own t.config.mounts volumes_before).0 ≡ ok mounts
    pub same_task : without_ports run_task ≡ without_ports (with_mounts mounts t)
    pub ran :
        rt.run run_task (epoch_labels h (lookup t.meta.uid epochs)) containers_before
        ≡ (ok tt, containers_after)
    pub linked_up : LinkedUp run_task containers_after links_before s'

  pub relinked :
      (t : Task) (c : rt.Containers) (l : net.Links) (s s' : State h)
      → LinkedUp t c l s
      → s.containers ≡ s'.containers
      → s.links ≡ s'.links
      → LinkedUp t c l s'
  relinked t c l s s' w a b = record {
    pid = w.pid;
    addr = w.addr;
    of_process = w.of_process ∙ ap (λ x. (ok w.pid, x)) a;
    attached_there = w.attached_there ∙ ap (λ x. (ok w.addr, x)) b;
  }
