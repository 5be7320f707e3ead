-- ===== src/Conditions/Publisher.antt =====
-- pkg/condition/publisher.go: the publisher, which collects the conditions of each resource and
-- sends the newest of each type. Its goroutines take turns in any order, as steps; a `SubPublisher`
-- is a pointer. The client and the clock are parameters of the steps.
pub mod Collecting
pub mod Stranding
use mathlib.Core.Option.{get_or}
use blipblop.Base.{
  ℕ, suc, Text, ◌≡◌, Bool, true, false, Option, none, some, List, [], ◌∷◌, ◌++◌, ◌<◌, if◌then◌else◌,
  ◌==◌, list_eq, nat_eq, ltb, length,
}
use blipblop.Dict.{Dict, lookup, insert, remove}
use blipblop.Heap.{store}
use blipblop.Api.{Condition}
use blipblop.Conditions.{Report}

-- `cond.Type.GetValue()`, and the time, which is the epoch for a nil timestamp
abbrev pub type_of : Condition → Text
type_of c = get_or c.kind []

abbrev pub time_of : Condition → ℕ
time_of c = get_or c.last_transition_time 0

unfoldable pub to_condition : ℕ → Bool → Report → Condition
to_condition now status report = record {
  kind = some report.kind;
  status = some status;
  reason = some report.reason;
  msg = some report.msg;
  last_transition_time = some now;
}

-- the deduplication of `runForTask`
unfoldable pub absorb : Condition → List Condition → List Condition
absorb c [] = c ∷ []
absorb c (st ∷ rest) =
    let more = absorb c rest in
    if type_of st == type_of c
    then (if ltb (time_of st) (time_of c) then c else st) ∷ rest
    else st ∷ more

-- Before Run starts its goroutine a sub-publisher is waiting; it is leaving from its last flush until
-- Run took its identifier, and then it is gone.
pub data Phase : Type 0 where
  waiting running leaving gone : Phase

-- `ConditionPublisher`
pub record Sub : Type 0 where
  pub id : Text
  pub state : List Condition
  pub channel : List Condition
  pub phase : Phase

-- `publisher`, and what the client has taken
pub record State : Type 0 where
  pub subs : Dict Text ℕ
  pub heap : ℕ → Sub
  pub next : ℕ
  pub sent : List (Text × List Condition)

abbrev pub capacity : ℕ
capacity = 256

add_sub : Text → Condition → State → State
add_sub id c s = record s {
  subs = insert id s.next s.subs;
  heap = store s.next (record { id = id; state = []; channel = c ∷ []; phase = waiting }) s.heap;
  next = suc s.next;
}

push : ℕ → Condition → State → Option State
push p c s =
    if ltb (length (s.heap p).channel) capacity
    then some (record s {
      heap = store p (record (s.heap p) { channel = (s.heap p).channel ++ c ∷ [] }) s.heap;
    })
    else none

report_to : Option ℕ → Text → Condition → State → Option State
unfolding add_sub push
report_to none id c s = some (add_sub id c s)
report_to (some p) id c s = push p c s

-- `Report`: none while the channel is full.
unfoldable pub report : ℕ → Text → Bool → Report → State → Option State
unfolding report_to
report now id status r s = report_to (lookup id s.subs) id (to_condition now status r) s

receive_first : ℕ → List Condition → State → State
receive_first p [] s = s
receive_first p (c ∷ rest) s = record s {
  heap = store p (record (s.heap p) { channel = rest; state = absorb c (s.heap p).state }) s.heap;
}

-- the case of `runForTask` that receives a condition
unfoldable pub receive : ℕ → State → State
unfolding receive_first
receive p s = receive_first p (s.heap p).channel s

send_all : Bool → ℕ → List Condition → State → State
send_all taken p [] s = s
send_all true p (c ∷ cs) s = record s {
  heap = store p (record (s.heap p) { state = [] }) s.heap;
  sent = s.sent ++ ((s.heap p).id, c ∷ cs) ∷ [];
}
send_all false p (c ∷ cs) s = s

-- `flush`; whether the client takes the conditions is `taken`
unfoldable pub flush : Bool → ℕ → State → State
unfolding send_all
flush taken p s = send_all taken p (s.heap p).state s

abbrev pub set_phase : ℕ → Phase → State → State
set_phase p phase s = record s { heap = store p (record (s.heap p) { phase = phase }) s.heap }

-- What Run, a goroutine of `runForTask` or a client does next.
pub data Step : State → State → Type 0 where
  reports :
      {s s' : State}
      → (now : ℕ) (id : Text) (status : Bool) (r : Report) → report now id status r s ≡ some s'
      → Step s s'
  starts : {s : State} → (p : ℕ) → (s.heap p).phase ≡ waiting → Step s (set_phase p running s)
  receives : {s : State} → (p : ℕ) → (s.heap p).phase ≡ running → Step s (receive p s)
  ticks :
      {s : State} → (p : ℕ) (taken : Bool) → (s.heap p).phase ≡ running → Step s (flush taken p s)
  idles :
      {s : State}
      → (p : ℕ) (taken : Bool) → (s.heap p).phase ≡ running
      → Step s (set_phase p leaving (flush taken p s))
  removes :
      {s : State}
      → (p : ℕ) → (s.heap p).phase ≡ leaving
      → Step s (set_phase p gone (record s { subs = remove (s.heap p).id s.subs }))
  is_cancelled :
      {s : State}
      → (p : ℕ) (taken : Bool) → (s.heap p).phase ≡ running
      → Step s (set_phase p gone (flush taken p s))

pub data Steps : State → State → Type 0 where
  still : {s : State} → Steps s s
  then_step : {s t u : State} → Steps s t → Step t u → Steps s u
