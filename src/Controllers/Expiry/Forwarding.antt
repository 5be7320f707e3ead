-- ===== src/Controllers/Expiry/Forwarding.antt =====
-- pkg/controller/lease/lease.go: which leases are forwarded as expired.
use mathlib.Core.Path.{subst}
use blipblop.Base.{ℕ, Text, ◌⊎◌, inl, inr, ◌≤◌, List, [], ◌∷◌, ◌++◌, All, All-map, arith}
use blipblop.Errs.{Err}
use blipblop.Dict.{Dict}
use blipblop.Api.{Lease}
use blipblop.Controllers.Expiry.{
  LeaseApi, Stage, fired, renewed_until, ran_out, done_with, State, track_lease, stop_tracking,
  stop_all, stop_all_timers, look, act, on_lease_acquired, revoke_found, on_task_deleted, track_all,
  recover_listed, recover_timers, fire, advance, Step, acquires, deletes, recovers, shuts_down,
  fires, advances, goes_on, Steps, still, then_step,
}

-- The lease had run out when the clock showed `seen`, which it has shown.
abbrev pub IsOver : ℕ → Lease × ℕ → Type 0
IsOver now (lease, seen) = (lease.config.expires_at ≤ seen) × (seen ≤ now)

abbrev pub Sees : ℕ → Stage → Type 0
Sees now (ran_out task lease seen) = IsOver now (lease, seen)
Sees now (fired _) = Unit {0}
Sees now (renewed_until _ _) = Unit {0}
Sees now (done_with _) = Unit {0}

All-middle :
    (P : Stage → Type 0) (before : List Stage) (x : Stage) (after : List Stage)
    → All P (before ++ x ∷ after)
    → P x × All P (before ++ after) × ((y : Stage) → P y → All P (before ++ y ∷ after))
All-middle P [] x after (h, rest) = (h, rest, λ y k. (k, rest))
All-middle P (b ∷ before) x after (h, rest) =
    let (here, others, replaced) = All-middle P before x after rest in
    (here, (h, others), λ y k. (h, replaced y k))

Sees-le : (now later : ℕ) → now ≤ later → (x : Stage) → Sees now x → Sees later x
Sees-le now later le (ran_out task lease seen) (a, b) = (a, omega (arith, b, le))
Sees-le now later le (fired _) h = tt
Sees-le now later le (renewed_until _ _) h = tt
Sees-le now later le (done_with _) h = tt

module _ (api : LeaseApi) where
  abbrev pub IsHonest : State api → Type 0
  IsHonest s = All (Sees s.now) s.pending × All (IsOver s.now) s.forwarded

  look-Sees : (now : ℕ) (task : Text) (r : Err ⊎ Lease) → Sees now (look api now task r)
  unfolding look
  look-Sees now task (inl e) = tt
  look-Sees now task (inr lease) = ground arith

  advance-IsHonest :
      (before : List Stage) (x : Stage) (after : List Stage) (s : State api)
      → All (Sees s.now) (before ++ x ∷ after)
      → All (IsOver s.now) s.forwarded
      → IsHonest (advance api before x after s)
  unfolding advance act track_lease stop_tracking
  advance-IsHonest before (fired task) after s w f =
      let (_, _, replaced) = All-middle _ before (fired task) after w in
      (replaced _ (look-Sees s.now task (api.get task s.world)), f)
  advance-IsHonest before (renewed_until task expires_at) after s w f =
      ((All-middle _ before (renewed_until task expires_at) after w).1, f)
  advance-IsHonest before (ran_out task lease seen) after s w f =
      let (over, _, replaced) = All-middle _ before (ran_out task lease seen) after w in
      (replaced (done_with task) tt, (over, f))
  advance-IsHonest before (done_with task) after s w f =
      ((All-middle _ before (done_with task) after w).1, f)

  stop_all-IsHonest : (m : Dict Text ℕ) (s : State api) → IsHonest s → IsHonest (stop_all api m s)
  unfolding stop_all stop_tracking
  stop_all-IsHonest [] s w = w
  stop_all-IsHonest ((task, p) ∷ rest) s w = stop_all-IsHonest rest (stop_tracking api task s) w

  track_all-IsHonest :
      (leases : List Lease) (s : State api) → IsHonest s → IsHonest (track_all api leases s)
  unfolding track_all on_lease_acquired track_lease
  track_all-IsHonest [] s w = w
  track_all-IsHonest (lease ∷ rest) s w = track_all-IsHonest rest (on_lease_acquired api lease s) w

  recover_listed-IsHonest :
      (r : Err ⊎ List Lease) (s : State api) → IsHonest s → IsHonest (recover_listed api r s)
  unfolding recover_listed
  recover_listed-IsHonest (inl e) s w = w
  recover_listed-IsHonest (inr leases) s w = track_all-IsHonest leases s w

  revoke_found-IsHonest :
      (task : Text) (r : Err ⊎ Lease) (s : State api)
      → IsHonest s
      → IsHonest (revoke_found api task r s).1
  unfolding revoke_found
  revoke_found-IsHonest task (inl e) s w = w
  revoke_found-IsHonest task (inr lease) s w = w

  Step-IsHonest : (s t : State api) → IsHonest s → Step api s t → IsHonest t
  unfolding on_task_deleted recover_timers stop_all_timers fire stop_tracking on_lease_acquired
      track_lease
  Step-IsHonest s _ w (acquires lease) = w
  Step-IsHonest s _ w (deletes task) =
      revoke_found-IsHonest task.meta.name (api.get task.meta.name s.world)
        (stop_tracking api task.meta.name s) w
  Step-IsHonest s _ w recovers = recover_listed-IsHonest (api.list s.world) s w
  Step-IsHonest s _ w shuts_down = stop_all-IsHonest s.timers s w
  Step-IsHonest s _ w (fires p is due) = ((tt, w.0), w.1)
  Step-IsHonest s _ w (advances before x after e) =
      advance-IsHonest before x after s (subst (All (Sees s.now)) e w.0) w.1
  Step-IsHonest s _ w (goes_on later world h) = (
    All-map _ _ (Sees-le s.now later h) s.pending w.0,
    All-map _ _ (λ (lease, seen) (a, b). (a, omega (arith, b, h))) s.forwarded w.1,
  )

  -- Whatever happens, in any order, from a state of which this holds: each lease that was forwarded
  -- as expired had run out at the time that its goroutine had read, and the clock has shown that
  -- time; so has each lease that a goroutine is about to forward.
  pub Steps-IsHonest : (s t : State api) → IsHonest s → Steps api s t → IsHonest t
  Steps-IsHonest s _ w still = w
  Steps-IsHonest s _ w (then_step {t = t} {u = u} path last) =
      Step-IsHonest t u (Steps-IsHonest s t w path) last
