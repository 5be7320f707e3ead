-- ===== src/Controllers/Scheduler/Moving.antt =====
-- pkg/controller/scheduler/scheduler.go: `updateTask` and `reschedule`.
use blipblop.Base.{
  ℕ, Text, ◌≡◌, ◌≢◌, ◌<◌, sym, ap, ◌∙◌, inl, inr, ◌⊎◌, Bool-cases, Option, none, some, List, [],
  All,
}
use blipblop.Errs.{Err, Result, ok, err, panic}
use blipblop.Labels.{matches, new_composite_selector_from_map}
use blipblop.Api.{Node, Task, Lease}
use blipblop.Scheduling.Placement.{IsFit}
use blipblop.Effect.{◌>>=◌, ◌>>◌, fail, run_next-ok}
use blipblop.Controllers.Client.{Client, ClientLaws, NoLease}
use blipblop.Controllers.Scheduler.{
  start, stop, move_unless, reschedule, or_stopped, update_leased, update_task, or_nil,
}
use blipblop.Controllers.Scheduler.Starting.{Started, start-Started}
use blipblop.Controllers.Scheduler.Signalling.{or_nil-ok}

module _ (c : Client) (laws : ClientLaws c) (intn : ℕ → ℕ) (err_text : Err → Text) where
  open c use {World}

  -- A call that failed does not end well after its task was stopped either.
  or_stopped-ok :
      (task : Task) (node : Text) (r : Result (Option Node) × World) (w : World)
      → or_stopped c intn err_text task node r ≡ (ok tt, w)
      → (o : Option Node) × (r ≡ (ok o, w))
  unfolding or_stopped
  or_stopped-ok task node (ok n, w₁) w h = (n, ap (λ (v : World). (ok n, v)) (ap (λ x. x.1) h))
  or_stopped-ok task node (err e, w₁) w h =
      let (_, w₂, _, k) = run_next-ok {k = λ _. fail e} (stop c intn err_text task node w₁) h in
      absurd (cc k)
  or_stopped-ok task node (panic, w₁) w h = absurd (cc h)

  -- The task stays on a node that it fits.
  pub record Stays (task : Task) (lease : Lease) (w w' : World) : Type 0 where
    pub node : Node
    pub named : c.get_node lease.config.node_id w ≡ ok node
    pub fits : IsFit task node
    pub same : w' ≡ w

  -- The node does not fit any more: its lease is revoked, and the task was started again.
  pub record Moves (task : Task) (lease : Lease) (w w' : World) : Type 0 where
    pub old : Node
    pub named : c.get_node lease.config.node_id w ≡ ok old
    pub unfit : ¬ IsFit task old
    pub between : World
    pub revoked : c.revoke task.meta.uid old.meta.uid w ≡ (ok tt, between)
    pub node : Node
    pub nodes : List Node
    pub started : Started c laws intn err_text task node nodes between w'

  abbrev pub IsListing : World → Type 0
  IsListing w = (nodes : List Node) → c.list_nodes w ≡ ok nodes → All (λ m. m.meta.uid ≢ []) nodes

  module _ (bound : (k : ℕ) → 0 < k → intn k < k) (listing : (w : World) → IsListing w) where
    reschedule-cases :
        (task : Task) (lease : Lease) (o : Option Node) (w w' : World)
        → laws.Sound w task.meta.uid
        → reschedule c intn err_text task lease.config.node_id w ≡ (ok o, w')
        → Stays task lease w w' ⊎ Moves task lease w w'
    unfolding reschedule move_unless ◌>>=◌ ◌>>◌ IsListing
    reschedule-cases task lease o w w' good h =
        let (node, w₁, e₁, h₁) = run_next-ok (c.get_node lease.config.node_id w, w) h in
        let same : w ≡ w₁ = ap (λ x. x.1) e₁ in
        let named : c.get_node lease.config.node_id w ≡ ok node = ap (λ x. x.0) e₁ in
        let fit =
          matches (new_composite_selector_from_map task.config.node_selector) node.meta.labels in
        elim (Bool-cases fit) [
          | inl fits ↦ inl (record {
            node = node;
            named = named;
            fits = fits;
            same = sym (same ∙ ap (λ x. x.1) (rw (fits, move_unless) at h₁));
          })
          | inr unfit ↦
              let h₂ = rw (unfit, move_unless) at h₁ in
              let (_, w₂, e₂, h₃) = run_next-ok (c.revoke task.meta.uid node.meta.uid w₁) h₂ in
              let (n, w₃, e₃, h₄) = run_next-ok (start c intn err_text task w₂) h₃ in
              let revoked : c.revoke task.meta.uid node.meta.uid w ≡ (ok tt, w₂) =
                ap (c.revoke task.meta.uid node.meta.uid) same ∙ e₂ in
              let missing =
                laws.Sound-missing w₂ task.meta.uid
                  (laws.revoke-ok task.meta.uid node.meta.uid w w₂ good revoked) in
              let (nodes, started) =
                start-Started c laws intn err_text task n w₂ w' bound (listing w₂) missing
                  (e₃ ∙ ap (λ (v : World). (ok n, v)) (ap (λ x. x.1) h₄)) in
              inr (record {
                old = node;
                named = named;
                unfit = λ fits. cc (fits, unfit);
                between = w₂;
                revoked = revoked;
                node = n;
                nodes = nodes;
                started = started;
              })
        ]

    pub Updated : Task → World → World → Type 0
    Updated task w w' =
        (NoLease c w task.meta.uid × (w' ≡ w))
        ⊎ ((lease : Lease) × (c.get_lease task.meta.uid w ≡ ok lease)
            × (Stays task lease w w' ⊎ Moves task lease w w'))

    -- When updateTask returns without an error, one of these holds: the task has no lease and
    -- nothing was changed; the node of its lease still has the labels that the task selects and
    -- nothing was changed; the node lacks them, its lease was revoked and the task was started on a
    -- connected node that has them, with what a successful start promises. The random source
    -- answers below its bound, listed nodes have a UID, and the task is sound for what the clients
    -- rely on.
    pub update_task-Updated :
        (task : Task) (w w' : World)
        → laws.Sound w task.meta.uid
        → update_task c intn err_text task w ≡ (ok tt, w')
        → Updated task w w'
    unfolding update_task ◌>>=◌ update_leased Updated
    update_task-Updated task w w' good h =
        let (o, w₁, e, h₁) = run_next-ok (or_nil (c.get_lease task.meta.uid w), w) h in
        by_lease o (ap (λ x. x.0) e) (rw (← ap (λ x. x.1) e) at h₁)
      where
        by_lease :
            (o : Option Lease)
            → or_nil (c.get_lease task.meta.uid w) ≡ ok o
            → update_leased c intn err_text task o w ≡ (ok tt, w')
            → Updated task w w'
        by_lease none e k = elim (or_nil-ok _ none e) [
          | inl (_, _, x) ↦ absurd (cc x)
          | inr (x, missing, is, _) ↦
              inl (record { error = x; missing = missing; is_missing = is }, sym (ap (λ x. x.1) k))
        ]
        by_lease (some lease) e k = elim (or_nil-ok _ (some lease) e) [
          | inl (l, found, x) ↦
              let (o, q) = or_stopped-ok task lease.config.node_id _ w' k in
              inr (lease, found ∙ cc x, reschedule-cases task lease o w w' good q)
          | inr (_, _, _, x) ↦ absurd (cc x)
        ]
