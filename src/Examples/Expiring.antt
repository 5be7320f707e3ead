-- ===== src/Examples/Expiring.antt =====
-- A lease that is tracked, whose timer fires after it ran out.
use blipblop.Base.{◌≡◌, refl, false, none, [], ◌∷◌, inr, arith, list_beq}
use blipblop.Controllers.Expiry.{
  LeaseApi, fired, State, on_timer_fired, on_lease_acquired, fire, advance, acquires, fires,
  advances, goes_on, Steps, still, then_step, track_lease,
}
use blipblop.Controllers.Expiry.Running.{Tracks, Steps-Tracks}
use blipblop.Controllers.Expiry.Forwarding.{IsHonest, Steps-IsHonest}
use blipblop.Controllers.Expiry.Firing.{Outcome, on_timer_fired-ends}
use blipblop.Examples.Setting.{task_id}
use blipblop.Examples.Storing.{held_lease}

-- The store has the one lease.
abbrev one_lease : LeaseApi
one_lease = record {
  World = Unit {0};
  get = λ task w. inr held_lease;
  list = λ w. inr (held_lease ∷ []);
  revoke = λ task holder w. (none, w);
}

abbrev at_start : State one_lease
at_start = record {
  world = tt;
  now = 5;
  timers = [];
  heap = λ p. record { task = []; deadline = 0; is_armed = false };
  next = 0;
  pending = [];
  forwarded = [];
}

at_start-Tracks : Tracks one_lease at_start
at_start-Tracks = record {
  of_task = λ t p e. absurd (cc e);
  owned = λ p e. absurd (cc e);
  alive = λ t p e. absurd (cc e);
}

abbrev tracked : State one_lease
tracked = on_lease_acquired one_lease held_lease at_start

abbrev later : State one_lease
later = record tracked { now = 70_000_000_000; world = tt }

abbrev at_work : State one_lease
at_work = fire one_lease 0 later

abbrev looked : State one_lease
looked = advance one_lease [] (fired task_id) [] at_work

run_out : Steps one_lease at_start looked
unfolding on_lease_acquired track_lease fire list_beq
run_out =
    then_step
      (then_step
        (then_step (then_step still (acquires held_lease))
          (goes_on 70_000_000_000 tt (omega arith)))
        (fires 0 refl (omega arith)))
      (advances [] (fired task_id) [] refl)

Steps-Tracks_example : Tracks one_lease looked
Steps-Tracks_example = Steps-Tracks one_lease at_start looked at_start-Tracks run_out

Steps-IsHonest_example : IsHonest one_lease looked
Steps-IsHonest_example = Steps-IsHonest one_lease at_start looked (tt, tt) run_out

on_timer_fired-ends_example :
    (s' : State one_lease) × (on_timer_fired one_lease task_id later ≡ (none, s'))
    × Outcome one_lease task_id later s' (inr held_lease)
on_timer_fired-ends_example = on_timer_fired-ends one_lease task_id later
