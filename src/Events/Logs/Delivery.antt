-- ===== src/Events/Logs/Delivery.antt =====
-- pkg/events/log_exchange.go: which entries wait for a subscriber.
use mathlib.Core.Option.{get_or}
use blipblop.Base.{
  ℕ, ◌≡◌, refl, sym, ap, ◌∙◌, inl, inr, Bool, true, false, Bool-cases, List, [], ◌∷◌, ◌++◌,
  if◌then◌else◌, ◌==◌, list_eq, nat_eq, ltb, length, All, All-map, arith,
}
use blipblop.Dict.{lookup}
use blipblop.Heap.{store}
use blipblop.Errs.{Result, ok, panic, ◌>>=◌}
use blipblop.Events.Logs.Walking.{contains, IsDistinct, IsOpen, IsExchange, All-contains, walk-ok}
use blipblop.Events.Logs.{
  LogKey, LogEntry, key_of, same_key, same_key_iff, key_eq, Channel, room, LogExchange, subs_of,
  offered, offer, deliver, publish,
}

is_closed-offered : (e : LogEntry) (c : Channel) → (offered e c).is_closed ≡ c.is_closed
unfolding offered
is_closed-offered e c = ground arith

offer-ok :
    (e : LogEntry) (p : ℕ) (h : ℕ → Channel)
    → IsOpen h p
    → offer e p h ≡ ok (store p (offered e (h p)) h)
unfolding offer
offer-ok e p h w = ap (λ b. if b then panic else ok (store p (offered e (h p)) h)) w

-- Publish gives the entry to each subscriber once, and panics at none that is open.
deliver-ok :
    (e : LogEntry) (ps : List ℕ) (h : ℕ → Channel)
    → All (IsOpen h) ps
    → IsDistinct ps
    → (g : ℕ → Channel) × (deliver e ps h ≡ ok g)
      × ((q : ℕ) → g q ≡ (if contains q ps then offered e (h q) else h q))
unfolding deliver
deliver-ok e = walk-ok (offer e) (offered e) (deliver e) (λ h. refl) (λ p ps h. refl) (offer-ok e)

given-IsOpen :
    (e : LogEntry) (ps : List ℕ) (q : ℕ) (h g : ℕ → Channel)
    → g q ≡ (if contains q ps then offered e (h q) else h q)
    → IsOpen h q
    → IsOpen g q
given-IsOpen e ps q h g at w = elim (Bool-cases (contains q ps)) [
  | inl there ↦ ap (λ (c : Channel). c.is_closed) (rw there at at) ∙ is_closed-offered e (h q) ∙ w
  | inr other ↦ ap (λ (c : Channel). c.is_closed) (rw other at at) ∙ w
]

pub publish-ok :
    (owner : ℕ → LogKey) (e : LogEntry) (lx : LogExchange)
    → IsExchange owner lx
    → (lx' : LogExchange) × (publish e lx ≡ ok lx')
      × IsExchange owner lx'
      × (lx'.topics ≡ lx.topics)
      × ((q : ℕ)
          → lx'.heap q
            ≡ (if contains q (subs_of (key_of e) lx) then offered e (lx.heap q) else lx.heap q))
unfolding publish
publish-ok owner e lx w =
    let ps = subs_of (key_of e) lx in
    let (g, run, at) = deliver-ok e ps lx.heap (w (key_of e)).0 (w (key_of e)).1 in
    (
      record lx { heap = g },
      rw run refl,
      λ k. (
        All-map _ _ (λ q. given-IsOpen e ps q lx.heap g (at q)) (subs_of k lx) (w k).0,
        (w k).1,
        (w k).2,
      ),
      refl,
      at,
    )

abbrev pub publish_all : List LogEntry → LogExchange → Result LogExchange
publish_all [] lx = ok lx
publish_all (e ∷ es) lx = publish e lx >>= publish_all es

-- The entries of a key, and as many of a list as there is room for.
abbrev pub of_key : LogKey → List LogEntry → List LogEntry
of_key k [] = []
of_key k (e ∷ es) = let rest = of_key k es in if key_of e == k then e ∷ rest else rest

-- what a channel has after it was offered the entries
abbrev pub fill : List LogEntry → List LogEntry → List LogEntry
fill buffer [] = buffer
fill buffer (e ∷ es) =
    let room_left = ltb (length buffer) room in
    fill (if room_left then buffer ++ e ∷ [] else buffer) es

filled :
    (buffer : List LogEntry) (e : LogEntry) (c : Channel)
    → c.buffer ≡ buffer
    → (offered e c).buffer ≡ (if ltb (length buffer) room then buffer ++ e ∷ [] else buffer)
unfolding offered
filled buffer e c same = rw (← same) (ground arith)

-- An entry that is offered comes before what follows.
fill-next :
    (e : LogEntry) (es : List LogEntry) (c c₁ : Channel) (there same : Bool)
    → there ≡ same
    → c₁ ≡ (if there then offered e c else c)
    → fill c₁.buffer es ≡ fill c.buffer (if same then e ∷ es else es)
fill-next e es c c₁ there true h step =
    ap (λ b. fill b es) (ap (λ (d : Channel). d.buffer) (rw h at step) ∙ filled c.buffer e c refl)
fill-next e es c c₁ there false h step =
    ap (λ b. fill b es) (ap (λ (d : Channel). d.buffer) (rw h at step))

-- A channel is given the entries of its own key.
published_to :
    (owner : ℕ → LogKey) (k : LogKey) (q : ℕ) (lx : LogExchange)
    → IsExchange owner lx
    → contains q (subs_of k lx) ≡ true
    → (e : LogEntry) → contains q (subs_of (key_of e) lx) ≡ same_key (key_of e) k
published_to owner k q lx w here e =
    let owns : (j : LogKey) → contains q (subs_of j lx) ≡ true → owner q ≡ j =
      λ j there. (All-contains _ q (subs_of j lx) (w j).2 there).1 in
    elim (Bool-cases (contains q (subs_of (key_of e) lx))) [
      | inl there ↦
          there ∙ sym ((same_key_iff (key_of e) k).1 (sym (owns (key_of e) there) ∙ owns k here))
      | inr other ↦ elim (Bool-cases (same_key (key_of e) k)) [
        | inl same ↦
            ap (λ j. contains q (subs_of j lx)) ((same_key_iff (key_of e) k).0 same)
            ∙ here
            ∙ sym same
        | inr apart ↦ other ∙ sym apart
      ]
    ]

-- On a log exchange in which each channel is open and subscribed once, publishing entries one after
-- another does not panic, and a subscriber that receives nothing in between has then what it had
-- and the entries of its key, in their order, until its channel was full: the others are dropped.
pub publish_all-fill :
    (owner : ℕ → LogKey) (k : LogKey) (q : ℕ) (es : List LogEntry) (lx : LogExchange)
    → IsExchange owner lx
    → contains q (subs_of k lx) ≡ true
    → (lx' : LogExchange) × (publish_all es lx ≡ ok lx')
      × IsExchange owner lx'
      × ((lx'.heap q).buffer ≡ fill (lx.heap q).buffer (of_key k es))
publish_all-fill owner k q [] lx w here = (lx, refl, w, refl)
publish_all-fill owner k q (e ∷ es) lx w here =
    let (lx₁, run, w₁, topics, at) = publish-ok owner e lx w in
    let here₁ : contains q (subs_of k lx₁) ≡ true =
      ap (λ t. contains q (get_or (lookup k t) [])) topics ∙ here in
    let (lx₂, run₂, w₂, full) = publish_all-fill owner k q es lx₁ w₁ here₁ in
    (
      lx₂,
      ap (λ m. m >>= publish_all es) run ∙ run₂,
      w₂,
      full
          ∙ fill-next e (of_key k es) (lx.heap q) (lx₁.heap q) (contains q (subs_of (key_of e) lx))
              (same_key (key_of e) k) (published_to owner k q lx w here e) (at q),
    )
