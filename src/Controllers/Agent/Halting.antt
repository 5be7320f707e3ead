-- ===== src/Controllers/Agent/Halting.antt =====
-- pkg/controller/node/handler_task.go: what `stopTask` and `killTask` do to the containers.
use blipblop.Base.{
  Text, ◌≡◌, refl, sym, ap, inl, inr, ◌⊎◌, true, false, if◌then◌else◌, list_eq, nat_eq, [],
}
use mathlib.Core.Path.{subst}
use blipblop.Dict.{insert, remove}
use blipblop.Errs.{Result, ok, err, panic, Result-cases}
use blipblop.Api.{Node, Task}
use blipblop.Effect.{Eff, run_next, ◌>>◌}
use blipblop.Conditions.{stopping, stopped}
use blipblop.Controllers.Agent.{
  State, get_node, tolerate, set_phase, set_reason, set_status, detach_network, detach_mounts,
  delete_task,
}
use blipblop.Controllers.Agent.Hosting.{Host}
use blipblop.Controllers.Agent.Working.{
  mark, unmark, drop_epoch, let_go, new_task_report, halt, halt_unless, wind_down, stop_as,
  end_task,
}
use blipblop.Controllers.Agent.Releasing.{is_ok, release_with-maps}

module _ (h : Host) where
  open h use {rt, tokens}

  -- the state with which the handler begins to wind the task down
  abbrev pub at_stop : Task → State h → State h
  at_stop t s = record s {
    task = t;
    server = (get_node h s).1.server;
    operations = insert t.meta.uid stopping s.operations;
  }

  -- What became of the containers: the runtime was not called where a detach failed with another
  -- error than "not found"; else it was called, and what it returned says whether the task was
  -- deleted then.
  pub Wound : (Task → Eff rt.Containers (Unit {0})) → Text → State h → rt.Containers → Type 0
  Wound act node_uid s c =
      let s₁ = (new_task_report h node_uid s).1 in
      let (r₂, s₂) = detach_network h s₁ in
      let (r₃, s₃) = detach_mounts h s₂ in
      let (r₄, c₄) = act s₃.task s₃.containers in
      ((is_ok (tolerate r₂) ≡ false) × (c ≡ s₂.containers))
      ⊎ ((is_ok (tolerate r₂) ≡ true) × (is_ok (tolerate r₃) ≡ false) × (c ≡ s₃.containers))
      ⊎ ((is_ok (tolerate r₂) ≡ true)
          × (is_ok (tolerate r₃) ≡ true)
          × (c ≡ (
              if is_ok (tolerate r₄)
              then (delete_task h (record s₃ { containers = c₄ })).1.containers
              else c₄)))

  next-containers :
      {A B : Type 0} (r : Result A × State h) (k : A → Eff (State h) B)
      → ((a : A) (w : State h) → (k a w).1.containers ≡ w.containers)
      → (run_next r k).1.containers ≡ r.1.containers
  unfolding run_next
  next-containers (ok a, s) k same = same a s
  next-containers (err e, s) k same = refl
  next-containers (panic, s) k same = refl

  halt-containers :
      (act : Task → Eff rt.Containers (Unit {0})) (s : State h)
      → let (r, c) = act s.task s.containers in
        (halt h act s).1.containers ≡ (
          if is_ok (tolerate r)
          then (delete_task h (record s { containers = c })).1.containers
          else c)
  unfolding halt ◌>>◌ run_next is_ok set_status
  halt-containers act s =
      let c = (act s.task s.containers).1 in
      let s₁ : State h = record s { containers = c } in
      elim (Result-cases (tolerate (act s.task s.containers).0)) [
        | inl (_, e) ↦ rw e (
            next-containers (tolerate (delete_task h s₁).0, (delete_task h s₁).1) _ (λ a w. told w))
        | inr (inl (_, e)) ↦ rw e refl
        | inr (inr e) ↦ rw e refl
      ]
    where
      told :
          (w : State h)
          → (((λ (v : State h). set_phase h v.task.meta.uid stopped v)
                >> (λ v. set_reason h v.task.meta.uid [] v))
              w).1.containers
            ≡ w.containers
      told w =
          next-containers (set_phase h w.task.meta.uid stopped w)
            (λ _ v. set_reason h v.task.meta.uid [] v) (λ a v. refl)

  wind_down-Wound :
      (act : Task → Eff rt.Containers (Unit {0})) (node_uid : Text) (s : State h)
      → Wound act node_uid s (wind_down h act node_uid s).1.containers
  unfolding Wound wind_down halt_unless new_task_report ◌>>◌ run_next is_ok
  wind_down-Wound act node_uid s =
      let s₁ = (new_task_report h node_uid s).1 in
      let (r₂, s₂) = detach_network h s₁ in
      let (r₃, s₃) = detach_mounts h s₂ in
      elim (Result-cases (tolerate r₂)) [
        | inl (_, e₂) ↦ elim (Result-cases (tolerate r₃)) [
          | inl (_, e₃) ↦ inr (inr (ap is_ok e₂, ap is_ok e₃, rw (e₂, e₃) (halt-containers act s₃)))
          | inr (inl (_, e₃)) ↦ inr (inl (ap is_ok e₂, ap is_ok e₃, rw (e₂, e₃) refl))
          | inr (inr e₃) ↦ inr (inl (ap is_ok e₂, ap is_ok e₃, rw (e₂, e₃) refl))
        ]
        | inr (inl (_, e₂)) ↦ inl (ap is_ok e₂, rw e₂ refl)
        | inr (inr e₂) ↦ inl (ap is_ok e₂, rw e₂ refl)
      ]

  let_go-containers :
      (uid node_uid : Text) (s : State h) → (let_go h uid node_uid s).1.containers ≡ s.containers
  unfolding let_go run_next ◌>>◌ unmark drop_epoch
  let_go-containers uid node_uid s =
      (release_with-maps h uid node_uid
        (record s { operations = remove uid s.operations; epochs = remove uid s.epochs })
        (tokens.load uid s.files)).2

  -- Once the node was got, what `stopTask` and `killTask` did to the containers is what they do
  -- before the lease is let go of.
  pub end_task-Wound :
      (act : Task → Eff rt.Containers (Unit {0})) (t : Task) (node : Node) (s : State h)
      → (get_node h s).0 ≡ ok node
      → Wound act node.meta.uid (at_stop t s) (end_task h act t s).1.containers
  unfolding end_task run_next get_node stop_as mark
  end_task-Wound act t node s got =
      let uid = node.meta.uid in
      let w = wind_down-Wound act uid (at_stop t s) in
      let kept = let_go-containers t.meta.uid uid (wind_down h act uid (at_stop t s)).1 in
      rw got (subst (Wound act uid (at_stop t s)) (sym kept) w)
