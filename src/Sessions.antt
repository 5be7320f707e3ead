-- ===== src/Sessions.antt =====
-- internal/app/node_sessions.go: the sessions of connected nodes, each with a bounded channel of
-- events. A session is a pointer, so that the structs are in a heap; a reconnect makes a new one
-- before it closes the old one. `published` is what the calls give to the event exchange.
-- The exchange and the nodes of the sessions are there, not nil; a call is one step.
-- A `select` with several ready cases takes any of them: `choice` tells which.
pub mod Delivery
pub mod Sending
use blipblop.Base.{
  map, ℕ, Text, ◌≡◌, ◌+◌, Bool, true, false, not, Option, none, some, List, [], ◌∷◌, ◌++◌,
  if◌then◌else◌, ◌==◌, list_eq, nat_eq, ltb, length,
}
use blipblop.Dict.{Dict, lookup, insert, remove}
use blipblop.Heap.{store}
use blipblop.Errs.{
  Err, Result, ok, err, panic, Ctx, ctx_check, ◌>>=◌, ◌>>◌, guard, status, failed_precondition,
  invalid_argument, node_not_connected, node_queue_full, session_not_found, end_of_stream,
}
use blipblop.Api.{Node}

module _ (Event : Type 0) where
  -- `nodeSession`; `out` is the channel's buffer, the oldest event first, and `is_closed` is whether
  -- `Close` has run, which closes both channels.
  pub record NodeSession : Type 0 where
    pub node_uid : Text
    pub node : Node
    pub out : List Event
    pub is_closed : Bool

  pub data Published : Type 0 where
    node_connect : Node → Published
    node_forget : Node → Published
    forwarded : Event → Published

  -- `NodeSessionManager`; `next` is the first pointer that is not in use.
  pub record Manager : Type 0 where
    pub sessions : Dict Text ℕ
    pub heap : ℕ → NodeSession
    pub next : ℕ
    pub out_buf : ℕ
    pub published : List Published

  abbrev publish : Published → Manager → Manager
  publish e m = record m { published = e ∷ m.published }

  unfoldable pub set : Text → Node → Manager → Result (Unit {0}) × Manager
  set uid node m = elim (lookup uid m.sessions) [
    | none ↦ (err session_not_found, m)
    | some p ↦ (ok tt, record m { heap = store p (record (m.heap p) { node = node }) m.heap })
  ]

  unfoldable pub get : Text → Manager → Result Node
  get uid m = elim (lookup uid m.sessions) [
    | none ↦ err session_not_found
    | some p ↦ ok (m.heap p).node
  ]

  -- `List`: the nodes of the sessions, in an order of the map
  unfoldable pub list : Manager → List Node
  list m = map (λ s. (m.heap s.1).node) m.sessions

  unfoldable pub is_node_connected : Text → Manager → Bool
  is_node_connected uid m = elim (lookup uid m.sessions) [ none ↦ false | some p ↦ true ]

  -- `if cur == s { delete(m.sessions, s.nodeUID) }`
  pub drop_session : ℕ → Text → Option ℕ → Dict Text ℕ → Dict Text ℕ
  drop_session p uid none m = m
  drop_session p uid (some q) m = if q == p then remove uid m else m

  -- the function that `closeOnce` runs
  pub close_once : ℕ → Manager → Manager
  unfolding drop_session
  close_once p m =
      let s = m.heap p in
      publish (node_forget s.node) (record m {
        sessions = drop_session p s.node_uid (lookup s.node_uid m.sessions) m.sessions;
        heap = store p (record s { is_closed = true }) m.heap;
      })

  -- `Close`
  unfoldable pub close : ℕ → Manager → Manager
  unfolding close_once
  close p m = if (m.heap p).is_closed then m else close_once p m

  pub close_old : Option ℕ → Manager → Manager
  unfolding close
  close_old none m = m
  close_old (some p) m = close p m

  -- the new session of `Connect`
  pub open_session : Node → Text → Manager → Manager
  open_session node uid m = record m {
    heap =
        store m.next (record { node_uid = uid; node = node; out = []; is_closed = false }) m.heap;
    next = m.next + 1;
    sessions = insert uid m.next m.sessions;
  }

  pub connect_checks : Ctx → Text → Text → Result (Unit {0})
  connect_checks ctx uid name = do
    ctx_check ctx
    guard (not (uid == [])) (status failed_precondition)
    guard (not (name == [])) (status failed_precondition)

  -- `Connect`, after its checks
  pub connected : Node → Text → Manager → ℕ × Manager
  unfolding close_old open_session
  connected node uid m = (
    m.next,
    publish (node_connect node) (close_old (lookup uid m.sessions) (open_session node uid m)),
  )

  unfoldable pub connect : Ctx → Node → Text → Text → Manager → Result (ℕ × Manager)
  unfolding connect_checks connected
  connect ctx node uid name m = do connect_checks ctx uid name; ok (connected node uid m)

  unfoldable pub disconnect : Text → Manager → Manager
  unfolding close_old
  disconnect uid m = close_old (lookup uid m.sessions) m

  -- the `select` of `SendToNode`: on a closed session both the case of `closed` and the send on the
  -- closed channel, which panics, are ready.
  pub send : Bool → Text → ℕ → Event → Manager → Result (Unit {0}) × Manager
  send choice uid p ev m =
      let s = m.heap p in
      if s.is_closed
      then (if choice then (err node_not_connected, m) else (panic, m))
      else if ltb (length s.out) m.out_buf
      then (ok tt, record m { heap = store p (record s { out = s.out ++ ev ∷ [] }) m.heap })
      else (err node_queue_full, m)

  pub send_found : Bool → Text → Option ℕ → Event → Manager → Result (Unit {0}) × Manager
  unfolding send
  send_found choice uid none ev m = (err node_not_connected, m)
  send_found choice uid (some p) ev m = send choice uid p ev m

  -- `SendToNode`; the event is none for nil.
  unfoldable pub send_to_node :
      Ctx → Bool → Text → Option Event → Manager → Result (Unit {0}) × Manager
  unfolding send_found
  send_to_node (some e) choice uid ev m = (err e, m)
  send_to_node none choice uid none m = (err (status invalid_argument), m)
  send_to_node none choice uid (some ev) m =
      if uid == []
      then (err (status invalid_argument), m)
      else send_found choice uid (lookup uid m.sessions) ev m

  -- `Handle`; `failure` is the error that the exchange's `Publish` returns, or none.
  unfoldable pub handle : Ctx → Option Err → Option Event → Manager → Result (Unit {0}) × Manager
  handle (some e) failure ev m = (err e, m)
  handle none failure none m = (err (status invalid_argument), m)
  handle none none (some ev) m = (ok tt, publish (forwarded ev) m)
  handle none (some e) (some ev) m = (err e, publish (forwarded ev) m)

  pub receive : ℕ → List Event → Manager → Option (Result Event × Manager)
  receive p [] m = none
  receive p (ev ∷ rest) m =
      some (ok ev, record m { heap = store p (record (m.heap p) { out = rest }) m.heap })

  -- `Next`: none while it waits. On a closed session the case of `closed` is ready; so is the
  -- channel, with what is left in it.
  pub next_closed :
      Bool → Option (Result Event × Manager) → Manager → Option (Result Event × Manager)
  next_closed true rest m = some (err end_of_stream, m)
  next_closed false none m = some (err end_of_stream, m)
  next_closed false (some r) m = some r

  pub next_open : Bool → ℕ → Manager → Option (Result Event × Manager)
  unfolding receive next_closed
  next_open choice p m =
      let waiting = receive p (m.heap p).out m in
      if (m.heap p).is_closed then next_closed choice waiting m else waiting

  or_done : Err → Manager → Option (Result Event × Manager) → Option (Result Event × Manager)
  or_done e m none = some (err e, m)
  or_done e m (some r) = some r

  -- When the context is done, its case is ready too: `first` tells whether it is taken.
  unfoldable pub next : Ctx → Bool → Bool → ℕ → Manager → Option (Result Event × Manager)
  unfolding next_open or_done
  next none first choice p m = next_open choice p m
  next (some e) first choice p m =
      let other = or_done e m (next_open choice p m) in if first then some (err e, m) else other
