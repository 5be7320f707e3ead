-- ===== src/Controllers/Expiry/Running.antt =====
-- pkg/controller/lease/lease.go: the controller from its start, with calls, timers and goroutines in
-- any order.
use mathlib.Core.Path.{subst}
use blipblop.Base.{ℕ, Text, ◌≡◌, refl, ◌∙◌, ◌⊎◌, inl, inr, List, [], ◌∷◌, ◌++◌, Any, arith}
use blipblop.Errs.{Err}
use blipblop.Dict.{Dict}
use blipblop.Api.{Lease}
use blipblop.Controllers.Expiry.{
  LeaseApi, Stage, fired, renewed_until, ran_out, done_with, task_of, State, track_lease,
  stop_tracking, stop_all, stop_all_timers, look, act, on_lease_acquired, revoke_found,
  on_task_deleted, track_all, recover_listed, recover_timers, fire, advance, Step, acquires,
  deletes, recovers, shuts_down, fires, advances, goes_on, Steps, still, then_step,
}
use blipblop.Controllers.Expiry.Tracking.{
  IsTracking, stop_tracking-IsTracking, track_lease-IsTracking, around, fire-IsTracking,
}

-- One element of a list is replaced, or dropped.
Any-replaced :
    (P : Stage → Type 0) (before : List Stage) (x y : Stage) (after : List Stage)
    → (P x → P y)
    → Any P (before ++ x ∷ after)
    → Any P (before ++ y ∷ after)
Any-replaced P [] x y after f (inl h) = inl (f h)
Any-replaced P [] x y after f (inr h) = inr h
Any-replaced P (b ∷ before) x y after f (inl h) = inl h
Any-replaced P (b ∷ before) x y after f (inr h) = inr (Any-replaced P before x y after f h)

Any-dropped :
    (P : Stage → Type 0) (before : List Stage) (x : Stage) (after : List Stage)
    → ¬ P x
    → Any P (before ++ x ∷ after)
    → Any P (before ++ after)
Any-dropped P [] x after f (inl h) = absurd (f h)
Any-dropped P [] x after f (inr h) = h
Any-dropped P (b ∷ before) x after f (inl h) = inl h
Any-dropped P (b ∷ before) x after f (inr h) = inr (Any-dropped P before x after f h)

module _ (api : LeaseApi) where
  -- A goroutine is at work on the task.
  abbrev pub IsLive : List Stage → Text → Type 0
  IsLive pending task = Any (λ x. task_of x ≡ task) pending

  -- what holds of the controller at any time
  abbrev pub Tracks : State api → Type 0
  Tracks s = IsTracking api (IsLive s.pending) s

  look-task_of : (now : ℕ) (task : Text) (r : Err ⊎ Lease) → task_of (look api now task r) ≡ task
  unfolding look task_of
  look-task_of now task (inl e) = refl
  look-task_of now task (inr lease) = ground arith

  advance-Tracks :
      (before : List Stage) (x : Stage) (after : List Stage) (s : State api)
      → IsTracking api (IsLive (before ++ x ∷ after)) s
      → Tracks (advance api before x after s)
  unfolding advance act task_of
  advance-Tracks before (fired task) after s w =
      let y = look api s.now task (api.get task s.world) in
      around api _ _ s w
        (λ t.
          Any-replaced (λ z. task_of z ≡ t) before (fired task) y after
            (λ e. look-task_of s.now task _ ∙ e))
        s.world s.now _ s.forwarded
  advance-Tracks before (renewed_until task expires_at) after s w =
      let u =
        track_lease-IsTracking api (IsLive (before ++ renewed_until task expires_at ∷ after))
          (IsLive (before ++ after)) task expires_at s w
          (λ t other.
            Any-dropped (λ z. task_of z ≡ t) before (renewed_until task expires_at) after other) in
      around api _ _ _ u (λ t l. l) s.world s.now (before ++ after) s.forwarded
  advance-Tracks before (ran_out task lease seen) after s w =
      around api _ _ s w
        (λ t.
          Any-replaced (λ z. task_of z ≡ t) before (ran_out task lease seen) (done_with task) after
            (λ e. e))
        s.world s.now _ _
  advance-Tracks before (done_with task) after s w =
      let u =
        stop_tracking-IsTracking api (IsLive (before ++ done_with task ∷ after))
          (IsLive (before ++ after)) task s w
          (λ t other. Any-dropped (λ z. task_of z ≡ t) before (done_with task) after other) in
      around api _ _ _ u (λ t l. l) s.world s.now (before ++ after) s.forwarded

  stop_all-Tracks : (m : Dict Text ℕ) (s : State api) → Tracks s → Tracks (stop_all api m s)
  unfolding stop_all stop_tracking
  stop_all-Tracks [] s w = w
  stop_all-Tracks ((task, p) ∷ rest) s w =
      stop_all-Tracks rest (stop_tracking api task s)
        (stop_tracking-IsTracking api (IsLive s.pending) (IsLive s.pending) task s w (λ t _ l. l))

  on_lease_acquired-Tracks :
      (lease : Lease) (s : State api) → Tracks s → Tracks (on_lease_acquired api lease s)
  unfolding on_lease_acquired track_lease
  on_lease_acquired-Tracks lease s w =
      track_lease-IsTracking api (IsLive s.pending) (IsLive s.pending) lease.config.task_id
        lease.config.expires_at s w (λ t _ l. l)

  track_all-Tracks :
      (leases : List Lease) (s : State api) → Tracks s → Tracks (track_all api leases s)
  unfolding track_all
  track_all-Tracks [] s w = w
  track_all-Tracks (lease ∷ rest) s w = track_all-Tracks rest _ (on_lease_acquired-Tracks lease s w)

  recover_listed-Tracks :
      (r : Err ⊎ List Lease) (s : State api) → Tracks s → Tracks (recover_listed api r s)
  unfolding recover_listed
  recover_listed-Tracks (inl e) s w = w
  recover_listed-Tracks (inr leases) s w = track_all-Tracks leases s w

  revoke_found-Tracks :
      (task : Text) (r : Err ⊎ Lease) (s : State api)
      → Tracks s
      → Tracks (revoke_found api task r s).1
  unfolding revoke_found
  revoke_found-Tracks task (inl e) s w = w
  revoke_found-Tracks task (inr lease) s w =
      around api _ _ s w (λ t l. l) _ s.now s.pending s.forwarded

  Step-Tracks : (s t : State api) → Tracks s → Step api s t → Tracks t
  unfolding on_task_deleted recover_timers stop_all_timers fire stop_tracking
  Step-Tracks s _ w (acquires lease) = on_lease_acquired-Tracks lease s w
  Step-Tracks s _ w (deletes task) =
      revoke_found-Tracks task.meta.name (api.get task.meta.name s.world)
        (stop_tracking api task.meta.name s)
        (stop_tracking-IsTracking api (IsLive s.pending) (IsLive s.pending) task.meta.name s w
          (λ t _ l. l))
  Step-Tracks s _ w recovers = recover_listed-Tracks (api.list s.world) s w
  Step-Tracks s _ w shuts_down = stop_all-Tracks s.timers s w
  Step-Tracks s _ w (fires p is due) =
      fire-IsTracking api (IsLive s.pending) (IsLive (fired (s.heap p).task ∷ s.pending)) p s is w
        (λ t l. inr l) (inl (unfold task_of in refl))
  Step-Tracks s _ w (advances before x after e) =
      advance-Tracks before x after s (subst (λ l. IsTracking api (IsLive l) s) e w)
  Step-Tracks s _ w (goes_on later world h) =
      around api _ _ s w (λ t l. l) world later s.pending s.forwarded

  -- Whatever happens, in any order, from a state of which this holds: each task in the timers map
  -- has an armed timer or a goroutine that is at work on it, its timer is its own, and every armed
  -- timer is the one in the map.
  pub Steps-Tracks : (s t : State api) → Tracks s → Steps api s t → Tracks t
  Steps-Tracks s _ w still = w
  Steps-Tracks s _ w (then_step {t = t} {u = u} path last) =
      Step-Tracks t u (Steps-Tracks s t w path) last
