-- ===== src/Controllers/Agent/Provisioning.antt =====
-- pkg/controller/node/handler_task.go: what `startTask` has done when it returns without an error.
use blipblop.Base.{
  Text, ◌≡◌, refl, sym, ap, ◌∙◌, inl, inr, ◌⊎◌, true, Bool-cases, Option, none, some, [], ◌∷◌,
  codes, ◌∷◌, codes, ◌==◌, list_eq, nat_eq, if◌then◌else◌,
}
use blipblop.Dict.{Dict, lookup, insert, lookup-remove}
use blipblop.Errs.{Result, ok, err, panic, is_not_found}
use blipblop.Api.{Meta, Task}
use blipblop.Effect.{seq-ok, bind-ok}
use blipblop.Conditions.{Reason, starting, start_failed, reason_text}
use blipblop.Controllers.Agent.{State, set_status, comparable, empty_status, or_missing}
use blipblop.Controllers.Agent.Hosting.{Host}
use blipblop.Controllers.Agent.Working.{
  mark, unmark, provision, provision_unless, start_body, start_failed_status, start_task,
  epoch_labels,
}
use blipblop.Controllers.Agent.Releasing.{marked}
use blipblop.Controllers.Agent.Framing.{
  Same-trans, start_failed_status-Same, detach_network-Keeps, delete_task-Keeps,
  attach_mounts-Keeps, pull_image-Keeps, new_task_report-Keeps, start_body-Keeps,
}
use blipblop.Controllers.Agent.Attaching.{
  without_ports, with_mounts, without_ports-default_ports, meta_kept, passed, attach_mounts-ok,
  attach_network-ok, Provisioned, relinked,
}

or_missing-some : {A : Type 0} (r : Result A) (a : A) → or_missing r ≡ ok (some a) → r ≡ ok a
unfolding or_missing
or_missing-some (ok x) a e = cc e
or_missing-some (err x) a e = elim (Bool-cases (is_not_found (some x))) [
  | inl missing ↦ absurd (cc (rw missing at e))
  | inr other ↦ absurd (cc (rw other at e))
]
or_missing-some panic a e = absurd (cc e)

module _ (h : Host) where
  open h use {rt, net, vol, api, own, task_equal, err_text}

  provision-Provisioned :
      (s s' : State h) → provision h s ≡ (ok tt, s') → Provisioned h s.task s.epochs s'
  unfolding provision set_status
  provision-Provisioned s s' e =
      let kept = without_ports-default_ports h in
      let (s₁, _, w₁, h₁) = passed h _ _ s s' (new_task_report-Keeps h without_ports kept _) e in
      let (s₂, _, w₂, h₂) = passed h _ _ s₁ s' (detach_network-Keeps h without_ports kept) h₁ in
      let (s₃, _, w₃, h₃) = passed h _ _ s₂ s' (delete_task-Keeps h without_ports kept) h₂ in
      let (_, s₄, e₄, h₄) = seq-ok _ _ s₃ h₃ in
      let (s₅, _, w₅, h₅) = passed h _ _ s₄ s' (pull_image-Keeps h without_ports kept) h₄ in
      let (_, s₆, e₆, h₆) = seq-ok _ _ s₅ h₅ in
      let (_, s₇, e₇, h₇) = seq-ok _ _ s₆ h₆ in
      let (_, s₈, e₈, h₈) = seq-ok _ _ s₇ h₇ in
      let before =
        Same-trans h without_ports kept s s₂ s₃ (Same-trans h without_ports kept s s₁ s₂ w₁ w₂)
          w₃ in
      let (ms, made, mounts_made, _) = attach_mounts-ok h s₃ s₄ e₄ in
      let v₄ =
        rw (ap (λ r. r.1) e₄) at
          (attach_mounts-Keeps h (λ x. x.meta) (meta_kept h) (λ _ _. refl) s₃) in
      let task₆ : s₅.task ≡ s₆.task = ap (λ r. r.1.task) e₆ in
      let whole : without_ports s₆.task ≡ without_ports (with_mounts ms s.task) =
        ap without_ports (sym task₆)
        ∙ w₅.view_same
        ∙ ap without_ports mounts_made
        ∙ ap (with_mounts ms) before.view_same in
      let epochs : s₅.epochs ≡ s.epochs = w₅.epochs_same ∙ v₄.epochs_same ∙ before.epochs_same in
      let metas : s₅.task.meta ≡ s.task.meta = ap (λ x. x.meta) task₆ ∙ ap (λ x. x.meta) whole in
      record {
        mounts = ms;
        run_task = s₆.task;
        volumes_before = s₃.volumes;
        containers_before = s₅.containers;
        containers_after = s₆.containers;
        links_before = s₆.links;
        mounted =
            (λ i. (vol.prepare_mounts own (sym before.view_same i).config.mounts s₃.volumes).0)
            ∙ made;
        same_task = whole;
        ran =
            (λ i.
              rt.run (sym task₆ i) (epoch_labels h (lookup (sym metas i).uid (sym epochs i)))
                s₅.containers)
            ∙ ap (λ r. (r.0, r.1.containers)) e₆;
        linked_up =
            relinked h s₆.task s₆.containers s₆.links s₇ s' (attach_network-ok h s₆ s₇ e₇)
              (ap (λ r. r.1.containers) e₈ ∙ ap (λ r. r.1.containers) h₈)
              (ap (λ r. r.1.links) e₈ ∙ ap (λ r. r.1.links) h₈);
      }

  -- The runtime has a task that `proto.Equal` does not tell from the given one, and every other part
  -- of the state is as it was, but for the task that the handler works on and the markers.
  pub record Present (t : Task) (s s' : State h) : Type 0 where
    pub current : Task
    pub found : rt.find t.meta.uid s.containers ≡ (ok current, s'.containers)
    pub alike : task_equal (comparable current) (comparable t) ≡ true
    pub unchanged :
        s' ≡ record s { containers = s'.containers; task = t; operations = s'.operations }

  -- How a start ended: the container was there or was made, or else the failure was told as the
  -- task's status.
  pub Outcome : Task → State h → Result (Unit {0}) × State h → Type 0
  Outcome t s (ok _, s') = Present t s s' ⊎ Provisioned h t s.epochs s'
  Outcome t s (err e, s') =
      (w : api.Server) × (s'.server
        ≡ (api.set_status t.meta.uid
            (record empty_status {
              phase = some (reason_text start_failed);
              reason = some (err_text e);
            })
            (codes "phase" ∷ codes "reason" ∷ []) w).1)
  Outcome t s (panic, s') = Unit {0}

  provision_unless-Outcome :
      (s s' u : State h) (r : Result Task) (v : rt.Containers)
      → rt.find s.task.meta.uid s.containers ≡ (r, v)
      → (kept : record s { containers = v } ≡ u) → (o : Option Task) → or_missing r ≡ ok o
      → provision_unless h o u ≡ (ok tt, s')
      → Present s.task s s' ⊎ Provisioned h s.task s.epochs s'
  unfolding provision_unless or_missing
  provision_unless-Outcome s s' u r v found kept none e h₁ =
      let d : u.task ≡ s.task = ap (λ (q : State h). q.task) (sym kept) in
      let x : u.epochs ≡ s.epochs = ap (λ (q : State h). q.epochs) (sym kept) in
      inr (rw (d, x) at (provision-Provisioned u s' h₁))
  provision_unless-Outcome s s' u r v found kept (some t) e h₁ =
      let d : u.task ≡ s.task = ap (λ (q : State h). q.task) (sym kept) in
      let x : u.epochs ≡ s.epochs = ap (λ (q : State h). q.epochs) (sym kept) in
      elim (Bool-cases (task_equal (comparable t) (comparable u.task))) [
        | inl same ↦
            let stays : u ≡ s' = ap (λ q. q.1) (rw same at h₁) in
            let whole : record s { containers = v } ≡ s' = kept ∙ stays in
            inl (record {
              current = t;
              found = found ∙ (λ i. (or_missing-some r t e i, (whole i).containers));
              alike = rw d at same;
              unchanged =
                  sym whole
                  ∙ ap
                      (λ (q : State h). record s {
                        containers = q.containers;
                        operations = q.operations;
                      })
                      whole;
            })
        | inr other ↦ inr (rw (d, x) at (provision-Provisioned u s' (rw other at h₁)))
      ]

  start_body-Outcome :
      (s s' : State h)
      → start_body h s ≡ (ok tt, s')
      → Present s.task s s' ⊎ Provisioned h s.task s.epochs s'
  unfolding start_body
  start_body-Outcome s s' e =
      let (o, u, e₁, h₁) = bind-ok _ _ s e in
      let (r, v) = rt.find s.task.meta.uid s.containers in
      provision_unless-Outcome s s' u r v refl (ap (λ q. q.1) e₁) o (ap (λ q. q.0) e₁) h₁

  -- The markers have no part in it.
  remarked :
      (t : Task) (ops left : Dict Text Reason) (s u : State h)
      → Present t (record s { task = t; operations = ops }) u ⊎ Provisioned h t s.epochs u
      → Present t s (record u { operations = left })
        ⊎ Provisioned h t s.epochs (record u { operations = left })
  remarked t ops left s u (inl p) = inl (record {
    current = p.current;
    found = p.found;
    alike = p.alike;
    unchanged = ap (λ (q : State h). record q { operations = left }) p.unchanged;
  })
  remarked t ops left s u (inr p) = inr (record {
    mounts = p.mounts;
    run_task = p.run_task;
    volumes_before = p.volumes_before;
    containers_before = p.containers_before;
    containers_after = p.containers_after;
    links_before = p.links_before;
    mounted = p.mounted;
    same_task = p.same_task;
    ran = p.ran;
    linked_up = relinked h p.run_task p.containers_after p.links_before u _ p.linked_up refl refl;
  })

  finished-Outcome :
      (t : Task) (ops left : Dict Text Reason) (s : State h) (r : Result (Unit {0}) × State h)
      → start_body h (record s { task = t; operations = ops }) ≡ r
      → r.1.task.meta ≡ t.meta
      → let (x, u) = start_failed_status h r in Outcome t s (x, record u { operations = left })
  unfolding Outcome start_failed_status set_status
  finished-Outcome t ops left s (ok _, u) e same =
      remarked t ops left s u (start_body-Outcome (record s { task = t; operations = ops }) u e)
  finished-Outcome t ops left s (err x, u) e same = (u.server, ap status_of same)
    where
      status_of : Meta → api.Server
      status_of m =
          (api.set_status m.uid
            (record empty_status {
              phase = some (reason_text start_failed);
              reason = some (err_text x);
            })
            (codes "phase" ∷ codes "reason" ∷ []) u.server).1
  finished-Outcome t ops left s (panic, u) e same = tt

  -- Whatever the result of startTask, the task's marker is gone and no others, and the epochs and
  -- the tokens are as they were. If it returns no error, either the runtime has a task that
  -- proto.Equal, less status and version, does not tell from the given one, and every other part of
  -- the state is as it was, the links, the volumes, the server, the pool and the reports among
  -- them; or the task was run with the mounts that PrepareMounts gave for its mounts and with the
  -- label of its epoch, and then its process was linked up. If it returns an error, the last change
  -- at the server is the status StartFailed with the error's text.
  pub start_task-Outcome :
      (t : Task) (s : State h)
      → Outcome t s (start_task h t s)
        × ((k : Text)
            → lookup k (start_task h t s).1.operations
              ≡ (if t.meta.uid == k then none else lookup k s.operations))
        × ((start_task h t s).1.epochs ≡ s.epochs)
        × ((start_task h t s).1.files ≡ s.files)
  unfolding start_task mark unmark
  start_task-Outcome t s =
      let uid = t.meta.uid in
      let s₁ : State h = record s { task = t; operations = insert uid starting s.operations } in
      let r = start_body h s₁ in
      let w = start_body-Keeps h (λ x. x.meta) (meta_kept h) (λ _ _. refl) s₁ in
      let v = start_failed_status-Same h (λ x. x.meta) (meta_kept h) s₁ r w in
      (
        finished-Outcome t s₁.operations _ s r refl w.view_same,
        λ k.
            lookup-remove uid k (start_failed_status h r).1.operations
            ∙ ap (λ m. if uid == k then none else lookup k m) v.operations_same
            ∙ marked h uid k starting s,
        v.epochs_same,
        v.files_same,
      )
