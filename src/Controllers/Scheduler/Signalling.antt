-- ===== src/Controllers/Scheduler/Signalling.antt =====
-- pkg/controller/scheduler/scheduler.go: `killTask` and `stopTask`.
use mathlib.Core.Path.{subst}
use blipblop.Base.{
  ℕ, Text, ◌≡◌, refl, sym, ap, ◌∙◌, inl, inr, ◌⊎◌, true, Bool-cases, Option, none, some, [], ◌∷◌,
  ◌++◌,
}
use blipblop.Errs.{Err, Result, ok, err, panic, is_not_found}
use blipblop.Api.{Node, Task, Lease}
use blipblop.Effect.{◌>>=◌, ◌>>◌, run_next-ok}
use blipblop.Controllers.Client.{
  Client, ClientLaws, NoLease, NodeEvent, kill_event, stop_event, Report, scheduling_failed,
  stop_failed,
}
use blipblop.Controllers.Scheduler.{
  check_connected, reporting, signal_leased, kill_task, stop_task, or_nil, set_task_as_scheduled,
}
use blipblop.Controllers.Scheduler.Starting.{check_connected-ok}

-- A missing value, or one that was found.
pub or_nil-ok :
    {A : Type 0} (r : Result A) (o : Option A)
    → or_nil r ≡ ok o
    → ((a : A) × (r ≡ ok a) × (o ≡ some a))
      ⊎ ((e : Err) × (r ≡ err e) × (is_not_found (some e) ≡ true) × (o ≡ none))
unfolding or_nil
or_nil-ok (ok a) o h = inl (a, refl, cc h)
or_nil-ok (err e) o h = elim (Bool-cases (is_not_found (some e))) [
  | inl missing ↦ inr (e, refl, missing, cc (rw missing at h))
  | inr other ↦ absurd (cc (rw other at h))
]
or_nil-ok panic o h = absurd (cc h)

module _ (c : Client) (laws : ClientLaws c) (intn : ℕ → ℕ) (err_text : Err → Text) where
  open c use {World}

  reporting-ok :
      (r : Report) (task : Task) (m : Result (Unit {0}) × World) (w : World)
      → reporting c intn err_text r task m ≡ (ok tt, w)
      → m ≡ (ok tt, w)
  unfolding reporting
  reporting-ok r task (ok x, w₁) w h = h
  reporting-ok r task (err e, w₁) w h = absurd (cc h)
  reporting-ok r task (panic, w₁) w h = absurd (cc h)

  -- The event waits at the node of the lease, which was connected.
  pub record Signalled (ev : NodeEvent) (lease : Lease) (w w' : World) : Type 0 where
    pub node : Node
    pub named : c.get_node lease.config.node_id w ≡ ok node
    pub reachable : c.is_connected node.meta.uid w ≡ true
    pub sent : laws.outbox node.meta.uid w' ≡ laws.outbox node.meta.uid w ++ ev ∷ []

  signal_leased-Signalled :
      (r : Report) (ev : NodeEvent) (task : Task) (lease : Lease) (w w' : World)
      → signal_leased c intn err_text r ev task (some lease) w ≡ (ok tt, w')
      → Signalled ev lease w w'
  unfolding signal_leased ◌>>=◌ ◌>>◌ set_task_as_scheduled
  signal_leased-Signalled r ev task lease w w' h =
      let (node, w₁, e₁, h₁) = run_next-ok (c.get_node lease.config.node_id w, w) h in
      let uid = node.meta.uid in
      let (_, w₂, e₂, h₂) =
        run_next-ok (reporting c intn err_text r task (check_connected c intn err_text uid w₁))
          h₁ in
      let (_, w₃, e₃, h₃) =
        run_next-ok (reporting c intn err_text stop_failed task (c.send uid ev w₂)) h₂ in
      let same₁ : w ≡ w₁ = ap (λ x. x.1) e₁ in
      let (up, same₂) =
        check_connected-ok c laws intn err_text uid w₁ w₂ (reporting-ok r task _ w₂ e₂) in
      let pushed = laws.send-ok uid ev w₂ w₃ (reporting-ok stop_failed task _ w₃ e₃) in
      let after : laws.outbox uid w' ≡ laws.outbox uid w₃ =
        ap (laws.outbox uid) (sym (ap (λ x. x.1) h₃))
        ∙ laws.outbox-set_status uid task.meta.uid _ _ w₃ in
      record {
        node = node;
        named = ap (λ x. x.0) e₁;
        reachable = ap (c.is_connected uid) same₁ ∙ up;
        sent = after ∙ pushed ∙ ap (λ v. laws.outbox uid v ++ ev ∷ []) (sym (same₁ ∙ same₂));
      }

  -- what a call that ended well has done
  pub Ended : NodeEvent → Task → World → World → Type 0
  Ended ev task w w' =
      (NoLease c w task.meta.uid × (w' ≡ w))
      ⊎ ((lease : Lease) × (c.get_lease task.meta.uid w ≡ ok lease) × Signalled ev lease w w')

  signal-Ended :
      (r : Report) (ev : NodeEvent) (task : Task) (w w' : World) (o : Option Lease)
      → or_nil (c.get_lease task.meta.uid w) ≡ ok o
      → signal_leased c intn err_text r ev task o w ≡ (ok tt, w')
      → Ended ev task w w'
  unfolding Ended signal_leased
  signal-Ended r ev task w w' none e h = elim (or_nil-ok _ none e) [
    | inl (_, _, k) ↦ absurd (cc k)
    | inr (x, missing, is, _) ↦
        inl (record { error = x; missing = missing; is_missing = is }, sym (ap (λ x. x.1) h))
  ]
  signal-Ended r ev task w w' (some lease) e h = elim (or_nil-ok _ (some lease) e) [
    | inl (l, found, k) ↦ inr (lease, found ∙ cc k, signal_leased-Signalled r ev task lease w w' h)
    | inr (_, _, _, k) ↦ absurd (cc k)
  ]

  -- the call that ended well, and its event
  abbrev pub Calls : NodeEvent → Task → World → World → Type 0
  Calls ev task w w' =
      ((ev ≡ kill_event task) × (kill_task c intn err_text task w ≡ (ok tt, w')))
      ⊎ ((ev ≡ stop_event task) × (stop_task c intn err_text task w ≡ (ok tt, w')))

  kill_task-Ended :
      (task : Task) (w w' : World)
      → kill_task c intn err_text task w ≡ (ok tt, w')
      → Ended (kill_event task) task w w'
  unfolding kill_task ◌>>=◌
  kill_task-Ended task w w' h =
      let (o, w₁, e, h₁) = run_next-ok (or_nil (c.get_lease task.meta.uid w), w) h in
      signal-Ended scheduling_failed (kill_event task) task w w' o (ap (λ x. x.0) e)
        (rw (← ap (λ x. x.1) e) at h₁)

  stop_task-Ended :
      (task : Task) (w w' : World)
      → stop_task c intn err_text task w ≡ (ok tt, w')
      → Ended (stop_event task) task w w'
  unfolding stop_task ◌>>=◌
  stop_task-Ended task w w' h =
      let (o, w₁, e, h₁) = run_next-ok (or_nil (c.get_lease task.meta.uid w), w) h in
      signal-Ended stop_failed (stop_event task) task w w' o (ap (λ x. x.0) e)
        (rw (← ap (λ x. x.1) e) at h₁)

  -- When killTask or stopTask returns without an error, either the task has no lease and nothing
  -- was changed, or the node that the task's lease names was connected, and the kill or stop event
  -- is the last of the events that wait for it, after those that waited before.
  pub signal_tasks-Ended :
      (ev : NodeEvent) (task : Task) (w w' : World) → Calls ev task w w' → Ended ev task w w'
  signal_tasks-Ended ev task w w' (inl (e, h)) =
      subst (λ v. Ended v task w w') (sym e) (kill_task-Ended task w w' h)
  signal_tasks-Ended ev task w w' (inr (e, h)) =
      subst (λ v. Ended v task w w') (sym e) (stop_task-Ended task w w' h)
