-- ===== src/Controllers/Scheduler/Starting.antt =====
-- pkg/controller/scheduler/scheduler.go: `start`.
use mathlib.Core.Path.{subst}
use blipblop.Base.{
  ℕ, Text, ◌≡◌, ◌≢◌, sym, ap, ◌∙◌, ◌<◌, inl, inr, true, Bool-cases, some, List, [], ◌∷◌, ◌++◌, Any,
  All, All-Any, ◌⊎◌,
}
use blipblop.Errs.{Err, Result, ok, err, panic, is_not_found}
use blipblop.Api.{Node, Task}
use blipblop.Scheduling.{schedule}
use blipblop.Scheduling.Placement.{IsFit, schedule_lem}
use blipblop.Effect.{◌>>=◌, ◌>>◌, lift, run_next-ok}
use blipblop.Controllers.Client.{Client, ClientLaws, NoLease, schedule_event}
use blipblop.Controllers.Scheduler.{
  check_connected, ignoring, revoke_if_held, hand_over, try_start, mark_failed, start,
  set_task_as_scheduled,
}

module _ (c : Client) (laws : ClientLaws c) (intn : ℕ → ℕ) (err_text : Err → Text) where
  open c use {World}

  pub check_connected-ok :
      (node : Text) (w w' : World)
      → check_connected c intn err_text node w ≡ (ok tt, w')
      → (c.is_connected node w ≡ true) × (w ≡ w')
  unfolding check_connected
  check_connected-ok node w w' h = elim (Bool-cases (c.is_connected node w)) [
    | inl e ↦ (e, ap (λ x. x.1) (rw e at h))
    | inr e ↦ absurd (cc (rw e at h))
  ]

  NoLease-of_get :
      (task : Text) (w w' : World)
      → c.get_lease task w' ≡ c.get_lease task w
      → NoLease c w task
      → NoLease c w' task
  NoLease-of_get task w w' e k = record {
    error = k.error;
    missing = e ∙ k.missing;
    is_missing = k.is_missing;
  }

  -- the ways in which `Revoke` lets `start` go on
  ignoring-ok :
      (r : Result (Unit {0}) × World) (w' : World)
      → ignoring c intn err_text r ≡ (ok tt, w')
      → (r ≡ (ok tt, w')) ⊎ ((e : Err) × (r ≡ (err e, w')) × (is_not_found (some e) ≡ true))
  unfolding ignoring
  ignoring-ok (ok x, w) w' h = inl h
  ignoring-ok (err e, w) w' h = elim (Bool-cases (is_not_found (some e))) [
    | inl missing ↦ inr (e, ap (λ (v : World). (err e, v)) (ap (λ x. x.1) h), missing)
    | inr other ↦ absurd (cc (rw other at h))
  ]
  ignoring-ok (panic, w) w' h = absurd (cc h)

  revoke_if_held-NoLease :
      (task node : Text) (w w' : World)
      → node ≢ []
      → laws.Sound w task
      → revoke_if_held c intn err_text task node w ≡ (ok tt, w')
      → NoLease c w' task × (w' ≡ (c.revoke task node w).1)
  unfolding revoke_if_held
  revoke_if_held-NoLease task node w w' named good h =
      elim (ignoring-ok (c.revoke task node w) w' h) [
        | inl e ↦ (laws.revoke-ok task node w w' good e, sym (ap (λ x. x.1) e))
        | inr (x, e, missing) ↦
            (laws.revoke-missing task node w w' x good named e missing, sym (ap (λ x. x.1) e))
      ]

  -- what a successful start has done
  pub record HandedOver (task : Task) (n : Node) (w w' : World) : Type 0 where
    pub reachable : c.is_connected n.meta.uid w ≡ true
    pub unleased : NoLease c w' task.meta.uid
    pub sent : laws.outbox n.meta.uid w' ≡ laws.outbox n.meta.uid w ++ schedule_event task n ∷ []

  hand_over-HandedOver :
      (task : Task) (n n' : Node) (w w' : World)
      → n.meta.uid ≢ []
      → laws.Sound w task.meta.uid
      → hand_over c intn err_text task n w ≡ (ok n', w')
      → (n ≡ n') × HandedOver task n w w'
  unfolding hand_over ◌>>=◌ ◌>>◌ set_task_as_scheduled
  hand_over-HandedOver task n n' w w' named good h =
      let task_id = task.meta.uid in
      let node = n.meta.uid in
      let (_, w₁, e₁, h₁) = run_next-ok (check_connected c intn err_text node w) h in
      let (_, w₂, e₂, h₂) = run_next-ok (lift (c.pack task n) w₁) h₁ in
      let (_, w₃, e₃, h₃) = run_next-ok (revoke_if_held c intn err_text task_id node w₂) h₂ in
      let (_, w₄, e₄, h₄) = run_next-ok (c.send node (schedule_event task n) w₃) h₃ in
      let (_, w₅, e₅, h₅) =
        run_next-ok (set_task_as_scheduled c intn err_text task n.meta.name w₄) h₄ in
      let (up, same₁) = check_connected-ok node w w₁ e₁ in
      let same₂ : w₁ ≡ w₂ = ap (λ x. x.1) e₂ in
      let (gone, same₃) =
        revoke_if_held-NoLease task_id node w₂ w₃ named
          (subst (λ v. laws.Sound v task_id) (same₁ ∙ same₂) good) e₃ in
      let same₄ : (c.send node (schedule_event task n) w₃).1 ≡ w₄ = ap (λ x. x.1) e₄ in
      let same₅ : (set_task_as_scheduled c intn err_text task n.meta.name w₄).1 ≡ w' =
        ap (λ x. x.1) e₅ ∙ ap (λ x. x.1) h₅ in
      let kept : c.get_lease task_id w' ≡ c.get_lease task_id w₃ =
        ap (c.get_lease task_id) (sym same₅)
        ∙ laws.get_lease-set_status task_id task_id _ _ w₄
        ∙ ap (c.get_lease task_id) (sym same₄)
        ∙ laws.get_lease-send task_id node _ w₃ in
      let before : laws.outbox node w₃ ≡ laws.outbox node w =
        ap (laws.outbox node) same₃
        ∙ laws.outbox-revoke node task_id node w₂
        ∙ ap (laws.outbox node) (sym (same₁ ∙ same₂)) in
      let after : laws.outbox node w' ≡ laws.outbox node w₄ =
        ap (laws.outbox node) (sym same₅) ∙ laws.outbox-set_status node task_id _ _ w₄ in
      (
        cc h₅,
        record {
          reachable = up;
          unleased = NoLease-of_get task_id w₃ w' kept gone;
          sent =
              after
              ∙ laws.send-ok node _ w₃ w₄ e₄
              ∙ ap (λ q. q ++ schedule_event task n ∷ []) before;
        },
      )

  mark_failed-ok :
      (task : Task) (r : Result Node × World) (n : Node) (w : World)
      → mark_failed c intn err_text task r ≡ (ok n, w)
      → r ≡ (ok n, w)
  unfolding mark_failed
  mark_failed-ok task (ok x, w₁) n w h = h
  mark_failed-ok task (err e, w₁) n w h = absurd (cc h)
  mark_failed-ok task (panic, w₁) n w h = absurd (cc h)

  -- the node that `start` chose, and what it did there
  pub record Started (task : Task) (n : Node) (nodes : List Node) (w w' : World) : Type 0 where
    pub listed : c.list_nodes w ≡ ok nodes
    pub is_one : Any (λ m. m ≡ n) nodes
    pub fits : IsFit task n
    pub done : HandedOver task n w w'

  -- When start returns a node, that is one of the listed nodes, it has the labels that the task
  -- selects and was connected; the task has no lease then, and the schedule event is the last of
  -- the events that wait for the node, after those that waited before. The random source answers
  -- below its bound, listed nodes have a UID, and the task is sound for what the clients rely on.
  pub start-Started :
      (task : Task) (n : Node) (w w' : World)
      → ((k : ℕ) → 0 < k → intn k < k)
      → ((nodes : List Node) → c.list_nodes w ≡ ok nodes → All (λ m. m.meta.uid ≢ []) nodes)
      → laws.Sound w task.meta.uid
      → start c intn err_text task w ≡ (ok n, w')
      → (nodes : List Node) × Started task n nodes w w'
  unfolding start try_start ◌>>=◌ ◌>>◌
  start-Started task n w w' bound named good h =
      let h' = mark_failed-ok task _ n w' h in
      let (nodes, w₁, e₁, h₁) = run_next-ok (c.list_nodes w, w) h' in
      let (m, w₂, e₂, h₂) = run_next-ok (lift (schedule intn task nodes) w₁) h₁ in
      let same : w ≡ w₂ = ap (λ x. x.1) e₁ ∙ ap (λ x. x.1) e₂ in
      let listed : c.list_nodes w ≡ ok nodes = ap (λ x. x.0) e₁ in
      elim (schedule_lem intn task nodes bound) [
        | inl (p, chosen, fit, here) ↦
            let it : p ≡ m = cc (chosen, ap (λ x. x.0) e₂) in
            let is_one : Any (λ x. x ≡ m) nodes = rw it at here in
            let (it', done) =
              hand_over-HandedOver task m n w₂ w' (All-Any _ m nodes (named nodes listed) is_one)
                (subst (λ v. laws.Sound v task.meta.uid) same good) h₂ in
            let started : Started task m nodes w w' = record {
              listed = listed;
              is_one = is_one;
              fits = rw it at fit;
              done = subst (λ v. HandedOver task m v w') (sym same) done;
            } in
            (nodes, rw it' at started)
        | inr (failed, _) ↦ absurd (cc (failed, ap (λ x. x.0) e₂))
      ]
