-- ===== src/Events/Logs/Walking.antt =====
-- pkg/events/log_exchange.go: what the calls keep true of an exchange, and a loop over its channels.
use mathlib.Core.Path.{subst}
use blipblop.Base.{
  ℕ, ◌≡◌, refl, sym, ap, ◌∙◌, inl, inr, Bool, true, false, Bool-cases, ◌||◌, List, [], ◌∷◌, ◌<◌,
  if◌then◌else◌, ◌==◌, list_eq, nat_eq, nat_beq_iff, All, arith,
}
use blipblop.Heap.{store, store-cases}
use blipblop.Errs.{Result, ok, ◌>>=◌}
use blipblop.Events.Logs.{LogKey, key_eq, Channel, LogExchange, subs_of}

abbrev pub contains : ℕ → List ℕ → Bool
contains q [] = false
contains q (p ∷ ps) = p == q || contains q ps

-- No channel stands twice in the list.
abbrev pub IsDistinct : List ℕ → Type 0
IsDistinct [] = Unit {0}
IsDistinct (p ∷ ps) = (contains p ps ≡ false) × IsDistinct ps

abbrev pub IsOpen : (ℕ → Channel) → ℕ → Type 0
IsOpen h p = (h p).is_closed ≡ false

-- the subscribers of a key, when the channels before `next` were made
abbrev pub IsSubs : (ℕ → LogKey) → ℕ → (ℕ → Channel) → LogKey → List ℕ → Type 0
IsSubs owner next h k ps =
    All (IsOpen h) ps × IsDistinct ps × All (λ p. (p < next) × (owner p ≡ k)) ps

pub All-contains : (P : ℕ → Type 0) (q : ℕ) (ps : List ℕ) → All P ps → contains q ps ≡ true → P q
All-contains P q [] w here = ground arith
All-contains P q (p ∷ ps) w here = elim (Bool-cases (p == q)) [
  | inl same ↦ subst P ((nat_beq_iff p q).0 same) w.0
  | inr other ↦ All-contains P q ps w.1 (rw other at here)
]

pub first : (a b : Bool) → (a || b) ≡ false → a ≡ false
first a b h = ground arith

pub second : (a b : Bool) → (a || b) ≡ false → b ≡ false
second a b h = ground arith

-- The channels of a list are open after another one was changed.
All-store :
    (p : ℕ) (c : Channel) (h : ℕ → Channel) (ps : List ℕ)
    → contains p ps ≡ false
    → All (IsOpen h) ps
    → All (IsOpen (store p c h)) ps
All-store p c h [] fresh w = tt
All-store p c h (q ∷ ps) fresh w = elim (store-cases p q c h) [
  | inl (same, _) ↦ cc ((nat_beq_iff q p).1 (sym same), first (q == p) _ fresh)
  | inr (apart, s) ↦
      (ap (λ (d : Channel). d.is_closed) s ∙ w.0, All-store p c h ps (second (q == p) _ fresh) w.1)
]

-- Each channel in the map was made and is open, and is subscribed once, under the key that owns it.
abbrev pub IsExchange : (ℕ → LogKey) → LogExchange → Type 0
IsExchange owner lx = (k : LogKey) → IsSubs owner lx.next lx.heap k (subs_of k lx)

-- A loop that does something to each channel, and fails at none that is open.
module _ (op : ℕ → (ℕ → Channel) → Result (ℕ → Channel)) (f : Channel → Channel)
    (walk : List ℕ → (ℕ → Channel) → Result (ℕ → Channel))
    (walk-nil : (h : ℕ → Channel) → walk [] h ≡ ok h)
    (walk-cons : (p : ℕ) (ps : List ℕ) (h : ℕ → Channel) → walk (p ∷ ps) h ≡ (op p h >>= walk ps))
    (op-ok : (p : ℕ) (h : ℕ → Channel) → IsOpen h p → op p h ≡ ok (store p (f (h p)) h)) where
  -- The first channel of a list was changed, and the rest of the list has others.
  after_first :
      (p q : ℕ) (ps : List ℕ) (h : ℕ → Channel)
      → contains p ps ≡ false
      → let h₁ = store p (f (h p)) h in
        (if contains q ps then f (h₁ q) else h₁ q)
        ≡ (if p == q || contains q ps then f (h q) else h q)
  after_first p q ps h fresh = elim (Bool-cases (p == q)) [
    | inl same ↦
        let at : p ≡ q = (nat_beq_iff p q).0 same in
        let none_more : contains q ps ≡ false = rw at at fresh in
        rw (same, none_more) (ap (λ r. f (h r)) at)
    | inr other ↦ rw other refl
  ]

  pub walk-ok :
      (ps : List ℕ) (h : ℕ → Channel)
      → All (IsOpen h) ps
      → IsDistinct ps
      → (g : ℕ → Channel) × (walk ps h ≡ ok g)
        × ((q : ℕ) → g q ≡ (if contains q ps then f (h q) else h q))
  walk-ok [] h w d = (h, walk-nil h, λ q. refl)
  walk-ok (p ∷ ps) h w d =
      let h₁ = store p (f (h p)) h in
      let (g, run, at) = walk-ok ps h₁ (All-store p (f (h p)) h ps d.0 w.1) d.1 in
      (
        g,
        walk-cons p ps h ∙ ap (λ m. m >>= walk ps) (op-ok p h w.0) ∙ run,
        λ q. at q ∙ after_first p q ps h d.0,
      )
