-- ===== src/Examples/Publishing.antt =====
-- A condition that is reported while its sub-publisher is leaving.
use blipblop.Base.{
  ℕ, ◌≡◌, refl, true, Option, none, some, [], ◌∷◌, codes, list_beq, list_eq, nat_eq, arith,
}
use blipblop.Api.{Condition}
use blipblop.Conditions.{Report, new_report}
use blipblop.Conditions.Publisher.{State, leaving, report, still, then_step, reports}
use blipblop.Conditions.Publisher.Collecting.{find, newest, absorb_all, find-absorb_all}
use blipblop.Conditions.Publisher.Stranding.{Strands, Steps-Strands}
use blipblop.Examples.Setting.{task_id}

abbrev ready : Report
ready = record (new_report task_id 1) { kind = codes "TaskReady" }

abbrev cond_at : ℕ → Condition
cond_at now = record {
  kind = some (codes "TaskReady");
  status = some true;
  reason = some [];
  msg = some [];
  last_transition_time = some now;
}

abbrev last_flushed : State
last_flushed = record {
  subs = (task_id, 0) ∷ [];
  heap = λ p. record { id = task_id; state = []; channel = cond_at 7 ∷ []; phase = leaving };
  next = 1;
  sent = [];
}

abbrev or_same : Option State → State
or_same none = last_flushed
or_same (some s) = s

abbrev told : State
told = or_same (report 9 task_id true ready last_flushed)

told_so : report 9 task_id true ready last_flushed ≡ some told
unfolding report list_beq
told_so = refl

waits_here : Strands 0 (cond_at 7 ∷ []) last_flushed
waits_here = record { made = omega arith; left = tt; rest = []; waits = refl }

Steps-Strands_example : Strands 0 (cond_at 7 ∷ []) told
Steps-Strands_example =
    Steps-Strands 0 (cond_at 7 ∷ []) last_flushed told
      (then_step still (reports 9 task_id true ready told_so)) waits_here

find-absorb_all_example :
    find (codes "TaskReady") (absorb_all (cond_at 5 ∷ cond_at 3 ∷ []) [])
    ≡ newest (codes "TaskReady") (cond_at 5 ∷ cond_at 3 ∷ []) none
find-absorb_all_example = find-absorb_all (codes "TaskReady") (cond_at 5 ∷ cond_at 3 ∷ []) []
