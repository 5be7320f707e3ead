-- ===== src/Merging/Conditions.antt =====
-- internal/app/task.go: `mergeConditions` keeps the newest condition of each type.
use mathlib.Core.Option.{some-injective}
use mathlib.Core.Path.{subst}
use blipblop.Base.{
  ℕ, Text, ◌≡◌, refl, sym, ap, ◌∙◌, inl, inr, ◌⊎◌, ◌≤◌, Option, none, some, List, [], ◌∷◌, ltb,
  list_eq, nat_eq, ◌==◌, if◌then◌else◌, Bool-cases, Option-cases, list_beq_iff, Any, arith,
}
use blipblop.Api.{Condition}
use blipblop.Merging.{nil_condition, condition_type, newer_of, newer, merge_conditions}
use blipblop.Merging.Values.{find, last_of, merge_onto, patched, find-merge_slices}

abbrev value_of_type : Text → List Condition → Option Condition → Option Condition
value_of_type = patched nil_condition condition_type newer

-- The condition is there, and its time is not before `t`.
pub record IsSince (t : ℕ) (o : Option Condition) : Type 0 where
  pub it : Condition
  pub time : ℕ
  pub there : o ≡ some it
  pub timed : it.last_transition_time ≡ some time
  pub late : t ≤ time

newer_of_is : (b p : Condition) (s t : Option ℕ) → (newer_of b p s t ≡ b) ⊎ (newer_of b p s t ≡ p)
unfolding newer_of
newer_of_is b p s none = inl refl
newer_of_is b p none (some t) = inr refl
newer_of_is b p (some s) (some t) = elim (Bool-cases (ltb s t)) [
  | inl later ↦ inr (rw later refl)
  | inr stale ↦ inl (rw stale refl)
]

newer_is : (b p : Condition) → (newer b p ≡ b) ⊎ (newer b p ≡ p)
unfolding newer
newer_is b p = newer_of_is b p b.last_transition_time p.last_transition_time

newer_of-IsSince :
    (b p : Condition) (s u : Option ℕ) (t : ℕ)
    → b.last_transition_time ≡ s
    → p.last_transition_time ≡ u
    → (s ≡ some t) ⊎ (u ≡ some t)
    → IsSince t (some (newer_of b p s u))
unfolding newer_of
newer_of-IsSince b p s none t eb ep (inl e) = record {
  it = b;
  time = t;
  there = refl;
  timed = eb ∙ e;
  late = omega arith;
}
newer_of-IsSince b p s none t eb ep (inr e) = absurd (cc e)
newer_of-IsSince b p none (some u) t eb ep (inl e) = absurd (cc e)
newer_of-IsSince b p none (some u) t eb ep (inr e) = record {
  it = p;
  time = t;
  there = refl;
  timed = ep ∙ e;
  late = omega arith;
}
newer_of-IsSince b p (some s) (some u) t eb ep h =
    let which : (s ≡ t) ⊎ (u ≡ t) = elim h [
      | inl e ↦ inl (some-injective s t e)
      | inr e ↦ inr (some-injective u t e)
    ] in
    elim (Bool-cases (ltb s u)) [
      | inl later ↦ record {
        it = p;
        time = u;
        there = rw later refl;
        timed = ep;
        late = ground (arith, which, later);
      }
      | inr stale ↦ record {
        it = b;
        time = s;
        there = rw stale refl;
        timed = eb;
        late = ground (arith, which, stale);
      }
    ]

-- neither is lost for an older one
newer-IsSince :
    (b p : Condition) (t : ℕ)
    → (b.last_transition_time ≡ some t) ⊎ (p.last_transition_time ≡ some t)
    → IsSince t (some (newer b p))
unfolding newer
newer-IsSince b p t h =
    newer_of-IsSince b p b.last_transition_time p.last_transition_time t refl refl h

IsSince-le : (t v : ℕ) (o : Option Condition) → t ≤ v → IsSince v o → IsSince t o
IsSince-le t v o le w = record {
  it = w.it;
  time = w.time;
  there = w.there;
  timed = w.timed;
  late = omega (arith, le, w.late);
}

-- one more item of the patch
abbrev next_value : Text → Condition → Option Condition → Option Condition
next_value k p o =
    if condition_type p == k then some (merge_onto nil_condition condition_type newer p o) else o

next_value-IsSince :
    (k : Text) (p : Condition) (o : Option Condition) (t : ℕ)
    → IsSince t o
    → IsSince t (next_value k p o)
unfolding merge_onto
next_value-IsSince k p o t w = elim (Bool-cases (condition_type p == k)) [
  | inl same ↦
      rw (same, w.there) (IsSince-le t w.time _ w.late (newer-IsSince w.it p w.time (inl w.timed)))
  | inr other ↦ rw other w
]

here-IsSince :
    (k : Text) (p : Condition) (o : Option Condition) (t : ℕ)
    → condition_type p ≡ k
    → p.last_transition_time ≡ some t
    → IsSince t (next_value k p o)
unfolding merge_onto
here-IsSince k p none t e timed =
    rw ((list_beq_iff (condition_type p) k).1 e)
      (record { it = p; time = t; there = refl; timed = timed; late = omega arith })
here-IsSince k p (some b) t e timed =
    rw ((list_beq_iff (condition_type p) k).1 e) (newer-IsSince b p t (inr timed))

value-IsSince :
    (k : Text) (incoming : List Condition) (o : Option Condition) (t : ℕ)
    → IsSince t o
    → IsSince t (value_of_type k incoming o)
unfolding patched
value-IsSince k [] o t w = w
value-IsSince k (p ∷ rest) o t w =
    value-IsSince k rest (next_value k p o) t (next_value-IsSince k p o t w)

incoming-IsSince :
    (k : Text) (incoming : List Condition) (o : Option Condition) (c : Condition) (t : ℕ)
    → Any (λ i. i ≡ c) incoming
    → condition_type c ≡ k
    → c.last_transition_time ≡ some t
    → IsSince t (value_of_type k incoming o)
unfolding patched
incoming-IsSince k [] o c t h e timed = absurd h
incoming-IsSince k (p ∷ rest) o c t (inl same) e timed = value-IsSince k rest (next_value k p o) t (
    here-IsSince k p o t (ap condition_type same ∙ e)
      (ap (λ x. x.last_transition_time) same ∙ timed))
incoming-IsSince k (p ∷ rest) o c t (inr h) e timed =
    incoming-IsSince k rest (next_value k p o) c t h e timed

next_value-source :
    (k : Text) (p : Condition) (o : Option Condition) (r : Condition)
    → next_value k p o ≡ some r
    → (o ≡ some r) ⊎ (p ≡ r)
unfolding merge_onto
next_value-source k p o r e = elim (Bool-cases (condition_type p == k)) [
  | inr other ↦ inl (rw other at e)
  | inl same ↦ elim (Option-cases o) [
    | inl fresh ↦ inr (some-injective p r (rw (same, fresh) at e))
    | inr (b, there) ↦
        let it : newer b p ≡ r = some-injective (newer b p) r (rw (same, there) at e) in
        elim (newer_is b p) [
          | inl old ↦ inl (there ∙ ap some (sym old ∙ it))
          | inr new ↦ inr (sym new ∙ it)
        ]
  ]
]

-- where a merged condition comes from
value-source :
    (k : Text) (incoming : List Condition) (o : Option Condition) (r : Condition)
    → value_of_type k incoming o ≡ some r
    → (o ≡ some r) ⊎ Any (λ i. i ≡ r) incoming
unfolding patched
value-source k [] o r h = inl h
value-source k (p ∷ rest) o r h = elim (value-source k rest (next_value k p o) r h) [
  | inr later ↦ inr (inr later)
  | inl e ↦ elim (next_value-source k p o r e) [
    | inl before ↦ inl before
    | inr here ↦ inr (inl here)
  ]
]

newer-keeps :
    (b p : Condition)
    → condition_type b ≡ condition_type p
    → condition_type (newer b p) ≡ condition_type p
newer-keeps b p e = elim (newer_is b p) [
  | inl old ↦ ap condition_type old ∙ e
  | inr new ↦ ap condition_type new
]

abbrev find_type : Text → List Condition → Option Condition
find_type = find nil_condition condition_type newer

abbrev last_of_type : Text → List Condition → Option Condition → Option Condition
last_of_type = last_of nil_condition condition_type newer

find-value :
    (k : Text) (existing incoming : List Condition)
    → find_type k (merge_conditions existing incoming)
      ≡ value_of_type k incoming (last_of_type k existing none)
unfolding merge_conditions
find-value k existing incoming =
    find-merge_slices nil_condition condition_type newer newer-keeps k existing incoming

-- the condition is one of those that were there, or came in
abbrev pub IsGiven : Text → List Condition → List Condition → Condition → Type 0
IsGiven k existing incoming c =
    (Any (λ i. i ≡ c) incoming × (condition_type c ≡ k)) ⊎ (last_of_type k existing none ≡ some c)

given-IsSince :
    (k : Text) (existing incoming : List Condition) (c : Condition) (t : ℕ)
    → IsGiven k existing incoming c
    → c.last_transition_time ≡ some t
    → IsSince t (value_of_type k incoming (last_of_type k existing none))
given-IsSince k existing incoming c t (inl (here, same)) timed =
    incoming-IsSince k incoming (last_of_type k existing none) c t here same timed
given-IsSince k existing incoming c t (inr last) timed =
    value-IsSince k incoming (last_of_type k existing none) t
      (record { it = c; time = t; there = last; timed = timed; late = omega arith })

-- For an incoming condition with a time, and for the last existing condition of a type if it has a
-- time, what mergeConditions returns has a condition of that type that is not older; and the first
-- one there is that last existing condition or an incoming one.
pub merge_conditions-newest :
    (k : Text) (existing incoming : List Condition) (c : Condition) (t : ℕ)
    → IsGiven k existing incoming c
    → c.last_transition_time ≡ some t
    → (w : IsSince t (find_type k (merge_conditions existing incoming))) × ((last_of_type k existing
            none
          ≡ some w.it)
        ⊎ Any (λ i. i ≡ w.it) incoming)
merge_conditions-newest k existing incoming c t h timed =
    let e = find-value k existing incoming in
    let w = subst (IsSince t) (sym e) (given-IsSince k existing incoming c t h timed) in
    (w, value-source k incoming (last_of_type k existing none) w.it (sym e ∙ w.there))
