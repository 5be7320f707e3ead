-- ===== src/Controllers/Expiry/Firing.antt =====
-- pkg/controller/lease/lease.go: `onTimerFired`, when nothing comes between its stages.
use blipblop.Base.{
  ℕ, Text, ◌≡◌, refl, ap, ◌∙◌, ◌⊎◌, inl, inr, ◌≤◌, ◌<◌, true, none, some, ◌∷◌, arith, ltb, list_eq,
  nat_eq, nat_beq_iff, list_beq_iff, Bool-cases, ◌+◌, ◌-◌,
}
use blipblop.Errs.{Err}
use blipblop.Dict.{lookup, lookup-remove}
use blipblop.Api.{Lease}
use blipblop.Controllers.Expiry.{
  LeaseApi, State, track_lease, stop_tracking, look, act, run_stages, on_timer_fired,
}

module _ (api : LeaseApi) where
  -- The task is not tracked any more.
  abbrev pub IsUntracked : Text → State api → Type 0
  IsUntracked task s = lookup task s.timers ≡ none

  -- The task has a timer that waits for the time.
  pub IsWaiting : Text → ℕ → State api → Type 0
  IsWaiting task deadline s =
      (p : ℕ) × (lookup task s.timers ≡ some p)
      × (s.heap p ≡ record { task = task; deadline = deadline; is_armed = true })

  stop_tracking-IsUntracked :
      (task : Text) (s : State api) → IsUntracked task (stop_tracking api task s)
  unfolding stop_tracking
  stop_tracking-IsUntracked task s =
      lookup-remove task task s.timers ∙ rw ((list_beq_iff task task).1 refl) refl

  track_lease-IsWaiting :
      (task : Text) (expires_at : ℕ) (s : State api)
      → s.now ≤ expires_at
      → IsWaiting task expires_at (track_lease api task expires_at s)
  unfolding track_lease IsWaiting
  track_lease-IsWaiting task expires_at s le =
      let deadline : s.now + (expires_at - s.now) ≡ expires_at = omega (arith, le) in
      (
        s.next,
        rw ((list_beq_iff task task).1 refl) refl,
        rw ((nat_beq_iff s.next s.next).1 refl)
            (ap (λ d. record { task = task; deadline = d; is_armed = true }) deadline),
      )

  -- what a call that ran to its end has done
  pub Outcome : Text → State api → State api → Err ⊎ Lease → Type 0
  Outcome task s s' (inl e) = IsUntracked task s' × (s'.forwarded ≡ s.forwarded)
  Outcome task s s' (inr lease) =
      ((s.now < lease.config.expires_at)
        × IsWaiting task lease.config.expires_at s'
        × (s'.forwarded ≡ s.forwarded))
      ⊎ ((lease.config.expires_at ≤ s.now)
          × IsUntracked task s'
          × (s'.forwarded ≡ (lease, s.now) ∷ s.forwarded))

  looked-ends :
      (task : Text) (s : State api) (r : Err ⊎ Lease)
      → (s' : State api) × (run_stages api 2 (some (look api s.now task r)) s ≡ (none, s'))
        × Outcome task s s' r
  unfolding run_stages act look Outcome stop_tracking track_lease
  looked-ends task s (inl e) =
      (stop_tracking api task s, refl, (stop_tracking-IsUntracked task s, refl))
  looked-ends task s (inr lease) = elim (Bool-cases (ltb s.now lease.config.expires_at)) [
    | inl live ↦
        let before : s.now < lease.config.expires_at = ground (arith, live) in
        (
          track_lease api task lease.config.expires_at s,
          rw live refl,
          inl (
            before,
            track_lease-IsWaiting task lease.config.expires_at s (omega (arith, before)),
            refl,
          ),
        )
    | inr over ↦
        let s₁ : State api = record s { forwarded = (lease, s.now) ∷ s.forwarded } in
        (
          stop_tracking api task s₁,
          rw over refl,
          inr (ground (arith, over), stop_tracking-IsUntracked task s₁, refl),
        )
  ]

  -- When nothing comes between its stages, onTimerFired ends after three of them at most. If it
  -- cannot get the lease, the task is not tracked any more; if the lease was renewed, the task has
  -- an armed timer for the lease's expiry; if it ran out, the lease is forwarded with the time, and
  -- the task is not tracked any more.
  pub on_timer_fired-ends :
      (task : Text) (s : State api)
      → (s' : State api) × (on_timer_fired api task s ≡ (none, s'))
        × Outcome task s s' (api.get task s.world)
  unfolding on_timer_fired run_stages act
  on_timer_fired-ends task s = looked-ends task s (api.get task s.world)
