-- ===== src/Events/Logs/Calling.antt =====
-- pkg/events/log_exchange.go: calls of its methods one after another.
use mathlib.Core.Path.{subst}
use mathlib.Core.Option.{get_or}
use blipblop.Base.{
  ℕ, ◌≡◌, refl, sym, ap, ◌∙◌, inl, inr, true, false, Bool-cases, List, [], ◌∷◌, ◌<◌, if◌then◌else◌,
  list_eq, nat_eq, All, All-map, arith,
}
use blipblop.Dict.{remove, lookup-remove}
use blipblop.Heap.{store}
use blipblop.Errs.{ok, ◌>>=◌}
use blipblop.Events.Logs.{
  LogKey, same_key, same_key_iff, key_eq, Channel, LogExchange, subs_of, subscribe, unsubscribe,
  close_channel, close_channels, close_key, call, Call, subscribing, unsubscribing, publishing,
  closing, calls,
}
use blipblop.Events.Logs.Walking.{
  contains, IsDistinct, IsOpen, IsSubs, IsExchange, All-contains, walk-ok,
}
use blipblop.Events.Logs.Delivery.{publish-ok}
use blipblop.Events.Logs.Subscribing.{Sets, unsubscribe-IsExchange, subscribe-IsExchange}

All-both : (P Q : ℕ → Type 0) (ps : List ℕ) → All P ps → All Q ps → All (λ p. P p × Q p) ps
All-both P Q [] u w = tt
All-both P Q (p ∷ ps) u w = ((u.0, w.0), All-both P Q ps u.1 w.1)

-- Another key's channel is as it was.
not_closed :
    (owner : ℕ → LogKey) (k j : LogKey) (ps : List ℕ) (n : ℕ) (h g : ℕ → Channel)
    → All (λ p. (p < n) × (owner p ≡ k)) ps
    → same_key k j ≡ false
    → ((q : ℕ) → g q ≡ (if contains q ps then record (h q) { is_closed = true } else h q))
    → (q : ℕ) → IsOpen h q × ((q < n) × (owner q ≡ j))
    → IsOpen g q
not_closed owner k j ps n h g w apart at q (o, (made, own)) = elim (Bool-cases (contains q ps)) [
  | inl there ↦
      let owns = (All-contains _ q ps w there).1 in
      cc (apart, (same_key_iff k j).1 (sym owns ∙ own))
  | inr other ↦
      ap (λ (c : Channel). c.is_closed)
        (at q ∙ ap (λ b. if b then record (h q) { is_closed = true } else h q) other)
      ∙ o
]

close_channel-ok :
    (p : ℕ) (h : ℕ → Channel)
    → IsOpen h p
    → close_channel p h ≡ ok (store p (record (h p) { is_closed = true }) h)
unfolding close_channel
close_channel-ok p h w = rw w refl

close_channels-ok :
    (ps : List ℕ) (h : ℕ → Channel)
    → All (IsOpen h) ps
    → IsDistinct ps
    → (g : ℕ → Channel) × (close_channels ps h ≡ ok g)
      × ((q : ℕ) → g q ≡ (if contains q ps then record (h q) { is_closed = true } else h q))
unfolding close_channels
close_channels-ok =
    walk-ok close_channel (λ c. record c { is_closed = true }) close_channels (λ h. refl)
      (λ p ps h. refl) close_channel-ok

close_key-ok :
    (owner : ℕ → LogKey) (k : LogKey) (lx : LogExchange)
    → IsExchange owner lx
    → (lx' : LogExchange) × (close_key k lx ≡ ok lx') × IsExchange owner lx'
unfolding close_key
close_key-ok owner k lx w =
    let (g, run, at) = close_channels-ok (subs_of k lx) lx.heap (w k).0 (w k).1 in
    let gone : Sets k [] lx (remove k lx.topics) =
      λ j. ap (λ o. get_or o []) (lookup-remove k j lx.topics) ∙ ground arith in
    (
      record lx { topics = remove k lx.topics; heap = g },
      rw run refl,
      λ j. elim (Bool-cases (same_key k j)) [
        | inl same ↦
            subst (IsSubs owner lx.next g j)
              (sym (gone j ∙ ap (λ b. if b then [] else subs_of j lx) same)) (tt, tt, tt)
        | inr other ↦
            subst (IsSubs owner lx.next g j)
              (sym (gone j ∙ ap (λ b. if b then [] else subs_of j lx) other))
              (
                All-map _ _ (not_closed owner k j (subs_of k lx) lx.next lx.heap g (w k).2 other at)
                    (subs_of j lx) (All-both _ _ (subs_of j lx) (w j).0 (w j).2),
                (w j).1,
                (w j).2,
              )
      ],
    )

call-ok :
    (owner : ℕ → LogKey) (c : Call) (lx : LogExchange)
    → IsExchange owner lx
    → (owner' : ℕ → LogKey) × (lx' : LogExchange) × (call c lx ≡ ok lx') × IsExchange owner' lx'
unfolding call
call-ok owner (subscribing k) lx w =
    (store lx.next k owner, (subscribe k lx).1, refl, subscribe-IsExchange owner k lx w)
call-ok owner (unsubscribing k ch) lx w =
    (owner, unsubscribe k ch lx, refl, unsubscribe-IsExchange owner k ch lx w)
call-ok owner (publishing e) lx w =
    let (lx', run, w', _, _) = publish-ok owner e lx w in (owner, lx', run, w')
call-ok owner (closing k) lx w =
    let (lx', run, w') = close_key-ok owner k lx w in (owner, lx', run, w')

-- Calls of Subscribe, Unsubscribe, Publish and CloseKey of the log exchange, each of them one step,
-- never panic: from an exchange on which each channel in the map was made and is open, and is
-- subscribed once, under the key that owns it, they lead to one of which this holds.
pub calls-ok :
    (owner : ℕ → LogKey) (cs : List Call) (lx : LogExchange)
    → IsExchange owner lx
    → (owner' : ℕ → LogKey) × (lx' : LogExchange) × (calls cs lx ≡ ok lx') × IsExchange owner' lx'
unfolding calls
calls-ok owner [] lx w = (owner, lx, refl, w)
calls-ok owner (c ∷ cs) lx w =
    let (owner₁, lx₁, run, w₁) = call-ok owner c lx w in
    let (owner₂, lx₂, run₂, w₂) = calls-ok owner₁ cs lx₁ w₁ in
    (owner₂, lx₂, ap (λ m. m >>= calls cs) run ∙ run₂, w₂)
