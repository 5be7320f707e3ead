-- ===== src/Queue/Invariant.antt =====
-- pkg/queue/queue.go: the well-formedness of the queue, and the changes to items that keep it.
use blipblop.Base.{
  ℕ, Text, ◌≡◌, ◌≢◌, refl, sym, ap, ◌∙◌, ◌⊎◌, inl, inr, Bool, true, none, some, [], ◌∷◌, ◌==◌,
  list_eq, nat_eq, All, All-map, nat_beq_iff, list_beq_iff, Bool-cases, Option-cases, arith,
}
use blipblop.Dict.{Dict, lookup, insert, All-remove}
use blipblop.Errs.{Result, ok, err, panic}
use blipblop.Queue.{
  Item, Heap, Queue, store, cancelled, cancel, touch, requeue_checks, ctx_err, or_kept,
}

-- The pointer is to an item with the identifier, that has a context.
pub record Ready (h : Heap) (k : Text) (p : ℕ) : Type 0 where
  pub named : (h p).resource_id ≡ k
  pub contextual : (h p).context ≢ none

-- so is every entry of the map
abbrev pub AllReady : Heap → Dict Text ℕ → Type 0
AllReady h m = All (λ e. Ready h e.0 e.1) m

pub record IsQueue (q : Queue) : Type 0 where
  pub queued : AllReady q.heap q.items
  pub held : AllReady q.heap q.popped

-- The call did not panic, and what it returned is well formed.
abbrev pub Keeps : (Queue → Type 0) → Result Queue → Type 0
Keeps P (ok q) = P q
Keeps P (err e) = Unit {0}
Keeps P panic = ⊥

pub store-eq :
    (p q : ℕ) (x : Item) (h : Heap)
    → ((p ≡ q) × (store p x h q ≡ x)) ⊎ ((p ≢ q) × (store p x h q ≡ h q))
store-eq p q x h = elim (Bool-cases (p == q)) [
  | inl same ↦ inl ((nat_beq_iff p q).0 same, rw same)
  | inr other ↦ inr (λ e. cc ((nat_beq_iff p q).1 e, other), rw other)
]

-- A change to an item that keeps its identifier, and its context if it had one.
store-Ready :
    (p r : ℕ) (k : Text) (x : Item) (h : Heap)
    → x.resource_id ≡ (h p).resource_id
    → ((h p).context ≢ none → x.context ≢ none)
    → Ready h k r
    → Ready (store p x h) k r
store-Ready p r k x h same alive w = elim (store-eq p r x h) [
  | inl (e, s) ↦
      let old : Ready h k p = rw e w in
      record {
        named = ap (λ (y : Item). y.resource_id) s ∙ same ∙ old.named;
        contextual = λ n. alive old.contextual (sym (ap (λ (y : Item). y.context) s) ∙ n);
      }
  | inr (_, s) ↦ record {
    named = ap (λ (y : Item). y.resource_id) s ∙ w.named;
    contextual = λ n. w.contextual (sym (ap (λ (y : Item). y.context) s) ∙ n);
  }
]

pub store-AllReady :
    (p : ℕ) (x : Item) (h : Heap) (m : Dict Text ℕ)
    → x.resource_id ≡ (h p).resource_id
    → ((h p).context ≢ none → x.context ≢ none)
    → AllReady h m
    → AllReady (store p x h) m
store-AllReady p x h m same alive w = All-map _ _ (λ e. store-Ready p e.1 e.0 x h same alive) m w

pub lookup-Ready :
    (h : Heap) (m : Dict Text ℕ) (k : Text) (p : ℕ)
    → AllReady h m
    → lookup k m ≡ some p
    → Ready h k p
lookup-Ready h [] k p w e = absurd (cc e)
lookup-Ready h ((j, q) ∷ m) k p w e = elim (Bool-cases (j == k)) [
  | inl same ↦
      let at : j ≡ k = (list_beq_iff j k).0 same in
      let to : q ≡ p = cc (rw same at e) in rw (← at, ← to) w.0
  | inr other ↦ lookup-Ready h m k p w.1 (rw other at e)
]

pub insert-AllReady :
    (h : Heap) (m : Dict Text ℕ) (k : Text) (p : ℕ)
    → Ready h k p
    → AllReady h m
    → AllReady h (insert k p m)
insert-AllReady h m k p r w = (r, All-remove _ k m w)

-- `cancel` of an item with a context works, and keeps the rest.
pub cancel-ok :
    (p : ℕ) (h : Heap)
    → (h p).context ≢ none
    → cancel p h ≡ ok (store p (record (h p) { context = some true }) h)
unfolding cancel cancelled
cancel-ok p h alive = elim (Option-cases (h p).context) [
  | inl n ↦ absurd (alive n)
  | inr (b, e) ↦ rw e
]

pub store_self : (p : ℕ) (x : Item) (h : Heap) → store p x h p ≡ x
store_self p x h = elim (store-eq p p x h) [ inl (_, s) ↦ s | inr (other, _) ↦ absurd (other refl) ]

pub touch_parts :
    (now : ℕ) (x : Item)
    → ((touch now x).resource_id ≡ x.resource_id) × ((touch now x).context ≡ x.context)
unfolding touch
touch_parts now x = elim (Option-cases x.enqueued_at) [
  | inl e ↦ rw e (refl, refl)
  | inr (t, e) ↦ rw e (refl, refl)
]

pub requeue_checks_never_panics :
    (parent_done : Bool) (p : ℕ) (q : Queue)
    → (q.heap p).context ≢ none
    → requeue_checks parent_done p q ≢ panic
unfolding requeue_checks ctx_err
requeue_checks_never_panics parent_done p q alive h = elim (Option-cases (q.heap p).context) [
  | inl n ↦ alive n
  | inr (b, e) ↦ ground (arith, e)
]

pub or_kept-Keeps :
    (P : Queue → Type 0) (q : Queue) (m : Result Queue) → P q → Keeps P m → Keeps P (or_kept q m)
unfolding or_kept
or_kept-Keeps P q (ok q') old new = new
or_kept-Keeps P q (err e) old new = old
or_kept-Keeps P q panic old new = new
