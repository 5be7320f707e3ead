-- ===== src/Events/Logs/Subscribing.antt =====
-- pkg/events/log_exchange.go: `Subscribe` and `Unsubscribe`.
use mathlib.Core.Path.{subst}
use mathlib.Core.Option.{get_or}
use blipblop.Base.{
  ℕ, suc, ◌≡◌, refl, sym, ap, ◌∙◌, inl, inr, false, Bool-cases, List, [], ◌∷◌, ◌++◌, ◌<◌,
  if◌then◌else◌, ◌==◌, list_eq, nat_eq, nat_beq_iff, All, All-map, arith,
}
use blipblop.Dict.{Dict, lookup, insert, lookup-insert, lookup-remove}
use blipblop.Heap.{store, store-cases}
use blipblop.Events.Logs.{
  LogKey, same_key, same_key_iff, key_eq, Channel, LogExchange, subs_of, subscribe, without,
  set_topic, unsubscribe,
}
use blipblop.Events.Logs.Walking.{
  contains, IsDistinct, IsOpen, IsSubs, IsExchange, All-contains, first, second,
}

-- the subscribers of a key after those of another one were set
abbrev pub Sets : LogKey → List ℕ → LogExchange → Dict LogKey (List ℕ) → Type 0
Sets k ps lx m = (j : LogKey) → get_or (lookup j m) [] ≡ (if same_key k j then ps else subs_of j lx)

set_topic-Sets :
    (k : LogKey) (ps : List ℕ) (lx : LogExchange) → Sets k ps lx (set_topic k ps lx.topics)
unfolding set_topic
set_topic-Sets k [] lx j = ap (λ o. get_or o []) (lookup-remove k j lx.topics) ∙ ground arith
set_topic-Sets k (p ∷ ps) lx j =
    ap (λ o. get_or o []) (lookup-insert k j (p ∷ ps) lx.topics) ∙ ground arith

-- A property of the subscribers of each key, after those of one were set.
each_key :
    (P : LogKey → List ℕ → Type 0) (subs : LogKey → List ℕ) (k : LogKey) (ps : List ℕ)
    → ((j : LogKey) → P j (subs j))
    → P k ps
    → (j : LogKey) → P j (if same_key k j then ps else subs j)
each_key P subs k ps w h j = elim (Bool-cases (same_key k j)) [
  | inl same ↦ rw same (subst (λ i. P i ps) ((same_key_iff k j).0 same) h)
  | inr other ↦ rw other (w j)
]

without-All : (P : ℕ → Type 0) (ch : ℕ) (ps : List ℕ) → All P ps → All P (without ch ps)
unfolding without
without-All P ch [] w = tt
without-All P ch (p ∷ ps) w = elim (Bool-cases (p == ch)) [
  | inl same ↦ rw same w.1
  | inr other ↦ rw other (w.0, without-All P ch ps w.1)
]

without-fresh :
    (q ch : ℕ) (ps : List ℕ) → contains q ps ≡ false → contains q (without ch ps) ≡ false
unfolding without
without-fresh q ch [] w = refl
without-fresh q ch (p ∷ ps) w = ground (arith, without-fresh q ch ps)

without-IsDistinct : (ch : ℕ) (ps : List ℕ) → IsDistinct ps → IsDistinct (without ch ps)
unfolding without
without-IsDistinct ch [] d = tt
without-IsDistinct ch (p ∷ ps) d = elim (Bool-cases (p == ch)) [
  | inl same ↦ rw same d.1
  | inr other ↦ rw other (without-fresh p ch ps d.0, without-IsDistinct ch ps d.1)
]

set-IsExchange :
    (owner : ℕ → LogKey) (k : LogKey) (ps : List ℕ) (lx : LogExchange) (m : Dict LogKey (List ℕ))
    → Sets k ps lx m
    → IsExchange owner lx
    → IsSubs owner lx.next lx.heap k ps
    → IsExchange owner (record lx { topics = m })
set-IsExchange owner k ps lx m sets w new j =
    subst (IsSubs owner lx.next lx.heap j) (sym (sets j))
      (each_key (IsSubs owner lx.next lx.heap) (λ i. subs_of i lx) k ps w new j)

pub unsubscribe-IsExchange :
    (owner : ℕ → LogKey) (k : LogKey) (ch : ℕ) (lx : LogExchange)
    → IsExchange owner lx
    → IsExchange owner (unsubscribe k ch lx)
unfolding unsubscribe
unsubscribe-IsExchange owner k ch lx w =
    let ps = subs_of k lx in
    set-IsExchange owner k (without ch ps) lx _ (set_topic-Sets k (without ch ps) lx) w
      (without-All _ ch ps (w k).0, without-IsDistinct ch ps (w k).1, without-All _ ch ps (w k).2)

store-IsOpen :
    (n : ℕ) (h : ℕ → Channel) (q : ℕ)
    → IsOpen h q
    → IsOpen (store n (record { buffer = []; is_closed = false }) h) q
store-IsOpen n h q w = elim (store-cases n q (record { buffer = []; is_closed = false }) h) [
  | inl (_, s) ↦ ap (λ (c : Channel). c.is_closed) s
  | inr (_, s) ↦ ap (λ (c : Channel). c.is_closed) s ∙ w
]

own_bound : (n q : ℕ) → n ≡ q → q < n → ⊥
own_bound n q same made = omega arith

owned-store :
    (owner : ℕ → LogKey) (k j : LogKey) (n q : ℕ)
    → (q < n) × (owner q ≡ j)
    → (q < suc n) × (store n k owner q ≡ j)
owned-store owner k j n q (made, own) = elim (store-cases n q k owner) [
  | inl (same, _) ↦ elim (own_bound n q same made) [ ]
  | inr (_, s) ↦ (omega arith, s ∙ own)
]

append-fresh :
    (ps : List ℕ) (p n : ℕ)
    → contains p ps ≡ false
    → (n == p) ≡ false
    → contains p (ps ++ n ∷ []) ≡ false
append-fresh [] p n h apart = rw apart refl
append-fresh (q ∷ ps) p n h apart = elim (Bool-cases (q == p)) [
  | inl same ↦ cc (first (q == p) _ h, same)
  | inr other ↦ rw other (append-fresh ps p n (second (q == p) _ h) apart)
]

other_way : (p n : ℕ) → (p == n) ≡ false → (n == p) ≡ false
other_way p n h = ground (arith, nat_beq_iff p n, nat_beq_iff n p)

-- A channel that is not in the list is added to it.
append-Subs :
    (owner : ℕ → LogKey) (next : ℕ) (h : ℕ → Channel) (k : LogKey) (n : ℕ)
    → n < next
    → IsOpen h n
    → owner n ≡ k
    → (ps : List ℕ) → contains n ps ≡ false
    → IsSubs owner next h k ps
    → IsSubs owner next h k (ps ++ n ∷ [])
append-Subs owner next h k n made o own [] new w = ((o, tt), (refl, tt), ((made, own), tt))
append-Subs owner next h k n made o own (p ∷ ps) new w =
    let (os, ds, ws) =
      append-Subs owner next h k n made o own ps (second (p == n) _ new) (w.0.1, w.1.1, w.2.1) in
    (
      (w.0.0, os),
      (append-fresh ps p n w.1.0 (other_way p n (first (p == n) _ new)), ds),
      (w.2.0, ws),
    )

store-same : {A : Type 0} (n : ℕ) (x : A) (h : ℕ → A) → store n x h n ≡ x
store-same n x h = elim (store-cases n n x h) [
  | inl (_, s) ↦ s
  | inr (apart, _) ↦ elim (apart refl) [ ]
]

not_made :
    (owner : ℕ → LogKey) (n : ℕ) (k : LogKey) (ps : List ℕ)
    → All (λ p. (p < n) × (owner p ≡ k)) ps
    → contains n ps ≡ false
not_made owner n k ps w = elim (Bool-cases (contains n ps)) [
  | inl there ↦ elim (own_bound n n refl (All-contains _ n ps w there).0) [ ]
  | inr other ↦ other
]

pub subscribe-IsExchange :
    (owner : ℕ → LogKey) (k : LogKey) (lx : LogExchange)
    → IsExchange owner lx
    → IsExchange (store lx.next k owner) (subscribe k lx).1
unfolding subscribe
subscribe-IsExchange owner k lx w =
    let n = lx.next in
    let owner₁ = store n k owner in
    let fresh : Channel = record { buffer = []; is_closed = false } in
    let lx₁ : LogExchange = record {
      topics = lx.topics;
      heap = store n fresh lx.heap;
      next = suc n;
    } in
    let w₁ : IsExchange owner₁ lx₁ = λ j. (
      All-map _ _ (store-IsOpen n lx.heap) (subs_of j lx) (w j).0,
      (w j).1,
      All-map _ _ (owned-store owner k j n) (subs_of j lx) (w j).2,
    ) in
    let ps = subs_of k lx in
    set-IsExchange owner₁ k (ps ++ n ∷ []) lx₁ (insert k (ps ++ n ∷ []) lx.topics)
      (λ j. ap (λ o. get_or o []) (lookup-insert k j (ps ++ n ∷ []) lx.topics) ∙ ground arith) w₁
      (append-Subs owner₁ (suc n) lx₁.heap k n (omega arith)
        (ap (λ (c : Channel). c.is_closed) (store-same n fresh lx.heap)) (store-same n k owner) ps
        (not_made owner n k ps (w k).2) (w₁ k))
