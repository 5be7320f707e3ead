-- ===== src/Conditions/Publisher/Stranding.antt =====
-- pkg/condition/publisher.go: what is reported to a sub-publisher that is leaving.
use mathlib.Core.Path.{subst}
use blipblop.Base.{
  ℕ, Text, ◌≡◌, ◌≢◌, refl, ap, ◌∙◌, inl, inr, Bool, true, false, Bool-cases, Option, none, some,
  List, [], ◌∷◌, ◌++◌, ◌<◌, ltb, length, arith, list_eq, nat_eq,
}
use mathlib.Core.List.{append_assoc}
use blipblop.Dict.{remove}
use blipblop.Heap.{store, store-cases}
use blipblop.Api.{Condition}
use blipblop.Conditions.Publisher.{
  Phase, waiting, running, leaving, gone, Sub, State, capacity, add_sub, push, report_to, report,
  receive_first, receive, send_all, flush, set_phase, Step, reports, starts, receives, ticks, idles,
  removes, is_cancelled, Steps, still, then_step,
}

-- The sub-publisher's goroutine does not receive any more.
abbrev pub HasLeft : Phase → Type 0
HasLeft waiting = ⊥
HasLeft running = ⊥
HasLeft leaving = Unit {0}
HasLeft gone = Unit {0}

-- The sub-publisher has left, and its channel begins with the conditions.
pub record Strands (p : ℕ) (cs : List Condition) (s : State) : Type 0 where
  pub made : p < s.next
  pub left : HasLeft (s.heap p).phase
  pub rest : List Condition
  pub waits : (s.heap p).channel ≡ cs ++ rest

-- A step that keeps the sub-publisher keeps it stranded.
kept :
    (p : ℕ) (cs : List Condition) (s s' : State)
    → s.next ≡ s'.next
    → s'.heap p ≡ s.heap p
    → Strands p cs s
    → Strands p cs s'
kept p cs s s' n same w = record {
  made = omega (arith, n, w.made);
  left = rw same w.left;
  rest = w.rest;
  waits = ap (λ (x : Sub). x.channel) same ∙ w.waits;
}

-- so does a step of another one
other_kept :
    (p q : ℕ) (x : Sub) (cs : List Condition) (s s' : State)
    → q ≢ p
    → s.next ≡ s'.next
    → s'.heap ≡ store q x s.heap
    → Strands p cs s
    → Strands p cs s'
other_kept p q x cs s s' other n stored w = elim (store-cases q p x s.heap) [
  | inl (same, _) ↦ absurd (other same)
  | inr (_, e) ↦ kept p cs s s' n (ap (λ (g : ℕ → Sub). g p) stored ∙ e) w
]

active_ne :
    (p q : ℕ) (cs : List Condition) (s : State)
    → ¬ HasLeft (s.heap q).phase
    → Strands p cs s
    → q ≢ p
active_ne p q cs s active w e = active (rw e w.left)

flush-Strands :
    (p q : ℕ) (taken : Bool) (cs : List Condition) (s : State)
    → q ≢ p
    → Strands p cs s
    → Strands p cs (flush taken q s)
unfolding flush
flush-Strands p q taken cs s other w = sent_all taken (s.heap q).state
  where
    sent_all : (b : Bool) (xs : List Condition) → Strands p cs (send_all b q xs s)
    sent_all b [] = w
    sent_all true (x ∷ xs) = other_kept p q _ cs s _ other refl refl w
    sent_all false (x ∷ xs) = w

receive-Strands :
    (p q : ℕ) (cs : List Condition) (s : State)
    → q ≢ p
    → Strands p cs s
    → Strands p cs (receive q s)
unfolding receive
receive-Strands p q cs s other w = received (s.heap q).channel
  where
    received : (xs : List Condition) → Strands p cs (receive_first q xs s)
    received [] = w
    received (x ∷ xs) = other_kept p q _ cs s _ other refl refl w

push-Strands :
    (p q : ℕ) (c : Condition) (cs : List Condition) (s s' : State)
    → push q c s ≡ some s'
    → Strands p cs s
    → Strands p cs s'
unfolding push
push-Strands p q c cs s s' h w = elim (Bool-cases (ltb (length (s.heap q).channel) capacity)) [
  | inr full ↦ absurd (cc (rw full at h))
  | inl room ↦
      let x : Sub = record (s.heap q) { channel = (s.heap q).channel ++ c ∷ [] } in
      let made : record s { heap = store q x s.heap } ≡ s' = cc (rw room at h) in
      subst (Strands p cs) made (elim (store-cases q p x s.heap) [
        | inr (other, _) ↦ other_kept p q x cs s _ other refl refl w
        | inl (same, e) ↦ record {
          made = w.made;
          left = rw e (rw same w.left);
          rest = w.rest ++ c ∷ [];
          waits =
              ap (λ (y : Sub). y.channel) e
              ∙ ap (λ r. (s.heap r).channel ++ c ∷ []) same
              ∙ ap (λ l. l ++ c ∷ []) w.waits
              ∙ append_assoc cs w.rest (c ∷ []);
        }
      ])
]

report_to-Strands :
    (p : ℕ) (o : Option ℕ) (id : Text) (c : Condition) (cs : List Condition) (s s' : State)
    → report_to o id c s ≡ some s'
    → Strands p cs s
    → Strands p cs s'
unfolding report_to add_sub
report_to-Strands p (some q) id c cs s s' h w = push-Strands p q c cs s s' h w
report_to-Strands p none id c cs s s' h w =
    let x : Sub = record { id = id; state = []; channel = c ∷ []; phase = waiting } in
    let added : add_sub id c s ≡ s' = cc h in
    subst (Strands p cs) added (elim (store-cases s.next p x s.heap) [
      | inl (same, _) ↦ absurd (omega (arith, same, w.made))
      | inr (_, e) ↦ record {
        made = omega (arith, w.made);
        left = rw e w.left;
        rest = w.rest;
        waits = ap (λ (y : Sub). y.channel) e ∙ w.waits;
      }
    ])

removed-Strands :
    (p q : ℕ) (cs : List Condition) (s : State)
    → Strands p cs s
    → Strands p cs (set_phase q gone (record s { subs = remove (s.heap q).id s.subs }))
removed-Strands p q cs s w = elim (store-cases q p (record (s.heap q) { phase = gone }) s.heap) [
  | inr (other, _) ↦ other_kept p q _ cs s _ other refl refl w
  | inl (same, e) ↦ record {
    made = w.made;
    left = rw e tt;
    rest = w.rest;
    waits = ap (λ (y : Sub). y.channel) e ∙ ap (λ r. (s.heap r).channel) same ∙ w.waits;
  }
]

-- a waiting or a running one
working : (ph ph' : Phase) → ph ≡ ph' → ¬ HasLeft ph' → ¬ HasLeft ph
working ph ph' e n = rw e n

Step-Strands :
    (p : ℕ) (cs : List Condition) (s s' : State) → Step s s' → Strands p cs s → Strands p cs s'
unfolding report
Step-Strands p cs s s' (reports now id status r h) w = report_to-Strands p _ id _ cs s s' h w
Step-Strands p cs s _ (starts q e) w =
    other_kept p q _ cs s _ (active_ne p q cs s (working _ waiting e (λ h. h)) w) refl refl w
Step-Strands p cs s _ (receives q e) w =
    receive-Strands p q cs s (active_ne p q cs s (working _ running e (λ h. h)) w) w
Step-Strands p cs s _ (ticks q taken e) w =
    flush-Strands p q taken cs s (active_ne p q cs s (working _ running e (λ h. h)) w) w
Step-Strands p cs s _ (idles q taken e) w =
    let other = active_ne p q cs s (working _ running e (λ h. h)) w in
    other_kept p q _ cs (flush taken q s) _ other refl refl (flush-Strands p q taken cs s other w)
Step-Strands p cs s _ (removes q e) w = removed-Strands p q cs s w
Step-Strands p cs s _ (is_cancelled q taken e) w =
    let other = active_ne p q cs s (working _ running e (λ h. h)) w in
    other_kept p q _ cs (flush taken q s) _ other refl refl (flush-Strands p q taken cs s other w)

-- From the last flush of a sub-publisher on, whatever happens, the conditions that wait in its
-- channel stay at the front of it, in their order.
pub Steps-Strands :
    (p : ℕ) (cs : List Condition) (s s' : State) → Steps s s' → Strands p cs s → Strands p cs s'
Steps-Strands p cs s _ still w = w
Steps-Strands p cs s s' (then_step {t = t} before last) w =
    Step-Strands p cs t s' last (Steps-Strands p cs s t before w)
