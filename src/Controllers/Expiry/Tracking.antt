-- ===== src/Controllers/Expiry/Tracking.antt =====
-- pkg/controller/lease/lease.go: a lease that is tracked has a timer or a goroutine that looks at it.
use blipblop.Base.{
  ℕ, Text, ◌≡◌, ◌≢◌, refl, sym, ap, ◌∙◌, ◌⊎◌, inl, inr, ◌+◌, ◌-◌, ◌<◌, true, false, Option, none,
  some, List, ◌==◌, list_eq, nat_eq, list_beq_iff, Bool-cases, ==_ne, arith,
}
use blipblop.Dict.{Dict, lookup, insert, remove, lookup-insert, lookup-remove}
use blipblop.Heap.{store, store-cases}
use blipblop.Api.{Lease}
use blipblop.Controllers.Expiry.{
  LeaseApi, Stage, Timer, State, stop_timer, track_lease, stop_tracking, fire,
}

stop_timer-cases :
    (api : LeaseApi) (o : Option ℕ) (heap : ℕ → Timer) (q : ℕ)
    → ((o ≡ some q)
        × ((stop_timer api o heap q).is_armed ≡ false)
        × ((stop_timer api o heap q).task ≡ (heap q).task))
      ⊎ ((o ≢ some q) × (stop_timer api o heap q ≡ heap q))
unfolding stop_timer
stop_timer-cases api none heap q = inr (λ h. cc h, refl)
stop_timer-cases api (some p) heap q =
    elim (store-cases p q (record (heap p) { is_armed = false }) heap) [
      | inl (same, e) ↦ inl (
        ap some same,
        ap (λ (t : Timer). t.is_armed) e,
        ap (λ (t : Timer). t.task) e ∙ ap (λ r. (heap r).task) same,
      )
      | inr (other, e) ↦ inr (λ h. other (cc h), e)
    ]

-- a key of a map without `task` is another, and a key of the map
lookup-remove-some :
    (task t : Text) (p : ℕ) (m : Dict Text ℕ)
    → lookup t (remove task m) ≡ some p
    → (task ≢ t) × (lookup t m ≡ some p)
lookup-remove-some task t p m h = elim (Bool-cases (task == t)) [
  | inl same ↦ absurd (cc (rw same at (sym (lookup-remove task t m) ∙ h)))
  | inr other ↦
      (λ e. cc ((list_beq_iff task t).1 e, other), rw other at (sym (lookup-remove task t m) ∙ h))
]

lookup-remove_ne :
    (task t : Text) (m : Dict Text ℕ) → task ≢ t → lookup t (remove task m) ≡ lookup t m
lookup-remove_ne task t m other = rw (==_ne task t other) at (lookup-remove task t m)

lookup-insert_cases :
    (task t : Text) (p n : ℕ) (m : Dict Text ℕ)
    → lookup t (insert task n m) ≡ some p
    → ((task ≡ t) × (n ≡ p)) ⊎ ((task ≢ t) × (lookup t (remove task m) ≡ some p))
lookup-insert_cases task t p n m h = elim (Bool-cases (task == t)) [
  | inl same ↦
      inl ((list_beq_iff task t).0 same, cc (rw same at (sym (lookup-insert task t n m) ∙ h)))
  | inr other ↦
      let apart : task ≢ t = λ e. cc ((list_beq_iff task t).1 e, other) in
      inr
        (apart, lookup-remove_ne task t m apart ∙ rw other at (sym (lookup-insert task t n m) ∙ h))
]

lookup-insert_same :
    (task : Text) (n : ℕ) (m : Dict Text ℕ) → lookup task (insert task n m) ≡ some n
lookup-insert_same task n m = rw ((list_beq_iff task task).1 refl) refl

lookup-insert_ne :
    (task t : Text) (n : ℕ) (m : Dict Text ℕ)
    → task ≢ t
    → lookup t (insert task n m) ≡ lookup t (remove task m)
lookup-insert_ne task t n m apart = rw (==_ne task t apart) refl

module _ (api : LeaseApi) where
  -- Each task's timer is its own, an armed timer is in the map, and a task in the map has an armed
  -- timer or is `live`.
  pub record IsTracking (live : Text → Type 0) (s : State api) : Type 0 where
    pub of_task :
        (task : Text) (p : ℕ)
        → lookup task s.timers ≡ some p
        → ((s.heap p).task ≡ task) × (p < s.next)
    pub owned : (p : ℕ) → (s.heap p).is_armed ≡ true → lookup (s.heap p).task s.timers ≡ some p
    pub alive :
        (task : Text) (p : ℕ)
        → lookup task s.timers ≡ some p
        → ((s.heap p).is_armed ≡ true) ⊎ live task

  pub stop_tracking-IsTracking :
      (live live' : Text → Type 0) (task : Text) (s : State api)
      → IsTracking live s
      → ((t : Text) → task ≢ t → live t → live' t)
      → IsTracking live' (stop_tracking api task s)
  unfolding stop_tracking
  stop_tracking-IsTracking live live' task s w keep =
      let old = lookup task s.timers in
      let heap' = stop_timer api old s.heap in
      record {
        of_task = λ t p e.
            let (_, before) = lookup-remove-some task t p s.timers e in
            let (named, made) = w.of_task t p before in
            elim (stop_timer-cases api old s.heap p) [
              | inl (_, _, same) ↦ (same ∙ named, made)
              | inr (_, same) ↦ (ap (λ x. x.task) same ∙ named, made)
            ];
        owned = λ p armed. elim (stop_timer-cases api old s.heap p) [
          | inl (_, stopped, _) ↦ absurd (cc (armed, stopped))
          | inr (other, same) ↦
              let before = w.owned p (ap (λ x. x.is_armed) (sym same) ∙ armed) in
              let apart : task ≢ (s.heap p).task =
                λ e. other (ap (λ k. lookup k s.timers) e ∙ before) in
              ap (λ x. lookup x.task (remove task s.timers)) same
              ∙ lookup-remove_ne task (s.heap p).task s.timers apart
              ∙ before
        ];
        alive = λ t p e.
            let (apart, before) = lookup-remove-some task t p s.timers e in
            elim (stop_timer-cases api old s.heap p) [
              | inl (same, _, _) ↦
                  absurd (apart (sym (w.of_task task p same).0 ∙ (w.of_task t p before).0))
              | inr (_, same) ↦ elim (w.alive t p before) [
                | inl armed ↦ inl (ap (λ x. x.is_armed) same ∙ armed)
                | inr l ↦ inr (keep t apart l)
              ]
            ];
      }

  pub track_lease-IsTracking :
      (live live' : Text → Type 0) (task : Text) (expires_at : ℕ) (s : State api)
      → IsTracking live s
      → ((t : Text) → task ≢ t → live t → live' t)
      → IsTracking live' (track_lease api task expires_at s)
  unfolding track_lease stop_tracking
  track_lease-IsTracking live live' task expires_at s w keep =
      let u = stop_tracking-IsTracking live live' task s w keep in
      let heap' = stop_timer api (lookup task s.timers) s.heap in
      let x : Timer = record {
        task = task;
        deadline = s.now + (expires_at - s.now);
        is_armed = true;
      } in
      let fresh : store s.next x heap' s.next ≡ x = elim (store-cases s.next s.next x heap') [
        | inl (_, e) ↦ e
        | inr (other, _) ↦ absurd (other refl)
      ] in
      record {
        of_task = λ t p e. elim (lookup-insert_cases task t p s.next s.timers e) [
          | inl (same, it) ↦ (
            ap (λ r. (store s.next x heap' r).task) (sym it) ∙ ap (λ y. y.task) fresh ∙ same,
            omega (arith, it),
          )
          | inr (_, before) ↦
              let (named, made) = u.of_task t p before in
              elim (store-cases s.next p x heap') [
                | inl (it, _) ↦ absurd (omega (arith, it, made))
                | inr (_, kept) ↦ (ap (λ y. y.task) kept ∙ named, omega (arith, made))
              ]
        ];
        owned = λ p armed. elim (store-cases s.next p x heap') [
          | inl (it, e) ↦
              ap (λ y. lookup y.task (insert task s.next s.timers)) e
              ∙ lookup-insert_same task s.next s.timers
              ∙ ap some it
          | inr (_, kept) ↦
              let before = u.owned p (ap (λ y. y.is_armed) (sym kept) ∙ armed) in
              let apart = (lookup-remove-some task (heap' p).task p s.timers before).0 in
              ap (λ y. lookup y.task (insert task s.next s.timers)) kept
              ∙ lookup-insert_ne task (heap' p).task s.next s.timers apart
              ∙ before
        ];
        alive = λ t p e. elim (lookup-insert_cases task t p s.next s.timers e) [
          | inl (same, it) ↦
              inl
                (ap (λ r. (store s.next x heap' r).is_armed) (sym it) ∙ ap (λ y. y.is_armed) fresh)
          | inr (_, before) ↦ elim (store-cases s.next p x heap') [
            | inl (it, _) ↦ absurd (omega (arith, it, (u.of_task t p before).1))
            | inr (_, kept) ↦ elim (u.alive t p before) [
              | inl armed ↦ inl (ap (λ y. y.is_armed) kept ∙ armed)
              | inr l ↦ inr l
            ]
          ]
        ];
      }

  -- What the timers do not depend on may change.
  pub around :
      (live live' : Text → Type 0) (s : State api)
      → IsTracking live s
      → ((t : Text) → live t → live' t)
      → (world : api.World) (now : ℕ) (pending : List Stage) (forwarded : List (Lease × ℕ))
      → IsTracking live'
          (record s { world = world; now = now; pending = pending; forwarded = forwarded })
  around live live' s w keep world now pending forwarded = record {
    of_task = w.of_task;
    owned = w.owned;
    alive = λ t p e. elim (w.alive t p e) [ inl armed ↦ inl armed | inr l ↦ inr (keep t l) ];
  }

  pub fire-IsTracking :
      (live live' : Text → Type 0) (p : ℕ) (s : State api)
      → (s.heap p).is_armed ≡ true
      → IsTracking live s
      → ((t : Text) → live t → live' t)
      → live' (s.heap p).task
      → IsTracking live' (fire api p s)
  unfolding fire
  fire-IsTracking live live' p s is w keep here =
      let x : Timer = record (s.heap p) { is_armed = false } in
      record {
        of_task = λ t q e.
            let (named, made) = w.of_task t q e in
            elim (store-cases p q x s.heap) [
              | inl (it, y) ↦ (ap (λ z. z.task) y ∙ ap (λ r. (s.heap r).task) it ∙ named, made)
              | inr (_, y) ↦ (ap (λ z. z.task) y ∙ named, made)
            ];
        owned = λ q armed. elim (store-cases p q x s.heap) [
          | inl (_, y) ↦ absurd (cc (armed, ap (λ z. z.is_armed) y))
          | inr (_, y) ↦
              ap (λ z. lookup z.task s.timers) y ∙ w.owned q (ap (λ z. z.is_armed) (sym y) ∙ armed)
        ];
        alive = λ t q e. elim (store-cases p q x s.heap) [
          | inl (it, _) ↦ inr (rw (ap (λ r. (s.heap r).task) it ∙ (w.of_task t q e).0) at here)
          | inr (_, y) ↦ elim (w.alive t q e) [
            | inl armed ↦ inl (ap (λ z. z.is_armed) y ∙ armed)
            | inr l ↦ inr (keep t l)
          ]
        ];
      }
