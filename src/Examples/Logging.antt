-- ===== src/Examples/Logging.antt =====
-- pkg/events at concrete inputs: a subscriber of log entries, and an exchange with handlers.
use blipblop.Base.{
  true, some, ◌==◌, Option, if◌then◌else◌, ℕ, ◌≡◌, refl, false, none, [], ◌∷◌, arith, Bool-cases,
  inl, inr, list_beq, list_eq, nat_eq,
}
use blipblop.Errs.{Err, ok, invalid_token}
use blipblop.Events.Exchanges.{Event, once_of, publish}
use blipblop.Events.Exchanges.Calling.{Note, notes, noted, publish-Called}
use blipblop.Events.Logs.{
  LogKey, LogEntry, same_key, same_key_iff, key_eq, Channel, LogExchange, subscribing, publishing,
  closing, calls,
}
use blipblop.Events.Logs.Walking.{IsExchange}
use blipblop.Events.Logs.Delivery.{publish_all, publish_all-fill}
use blipblop.Events.Logs.Calling.{calls-ok}

abbrev web : LogKey
web = record { node_id = 110 ∷ []; task_id = 119 ∷ []; session_id = 115 ∷ [] }

abbrev of_web : ℕ → LogEntry
of_web b = record {
  node_id = 110 ∷ [];
  task_id = 119 ∷ [];
  session_id = 115 ∷ [];
  timestamp = none;
  line = b ∷ [];
  seq = 7;
}

abbrev of_db : LogEntry
of_db = record {
  node_id = 110 ∷ [];
  task_id = 100 ∷ [];
  session_id = 115 ∷ [];
  timestamp = none;
  line = 120 ∷ [];
  seq = 8;
}

abbrev a_channel : Channel
a_channel = record { buffer = []; is_closed = false }

abbrev no_subscribers : LogExchange
no_subscribers = record { topics = []; heap = λ p. a_channel; next = 0 }

abbrev one_subscriber : LogExchange
one_subscriber = record { topics = (web, 0 ∷ []) ∷ []; heap = λ p. a_channel; next = 1 }

one_subscriber-IsExchange : IsExchange (λ p. web) one_subscriber
one_subscriber-IsExchange k = elim (Bool-cases (same_key web k)) [
  | inl same ↦ rw same ((refl, tt), (refl, tt), ((omega arith, (same_key_iff web k).0 same), tt))
  | inr other ↦ rw other (tt, tt, tt)
]

publish_all-fill_example :
    (lx : LogExchange) × (publish_all (of_web 97 ∷ of_db ∷ of_web 98 ∷ []) one_subscriber ≡ ok lx)
    × IsExchange (λ p. web) lx
    × ((lx.heap 0).buffer ≡ of_web 97 ∷ of_web 98 ∷ [])
unfolding list_beq
publish_all-fill_example =
    publish_all-fill (λ p. web) web 0 (of_web 97 ∷ of_db ∷ of_web 98 ∷ []) one_subscriber
      one_subscriber-IsExchange refl

calls-ok_example :
    (owner' : ℕ → LogKey) × (lx' : LogExchange) × (calls
        (subscribing web ∷ publishing (of_web 97) ∷ closing web ∷ publishing of_db ∷ [])
        no_subscribers
      ≡ ok lx')
    × IsExchange owner' lx'
calls-ok_example =
    calls-ok (λ p. web)
      (subscribing web ∷ publishing (of_web 97) ∷ closing web ∷ publishing of_db ∷ [])
      no_subscribers (λ k. (tt, tt, tt))

abbrev started : Event
started = record {
  version = [];
  meta = record {
    name = 119 ∷ [];
    uid = 117 ∷ [];
    labels = [];
    resource_version = 1;
    generation = 1;
    created = 5;
    updated = 5;
  };
  object_id = 111 ∷ [];
  client_id = 99 ∷ [];
  event_type = 4;
  object = [];
  reason = [];
}

-- Handler 9 is a persistent one, and it fails.
abbrev with_handlers : Note
with_handlers = record {
  exchange = record {
    topics = (4, 5 ∷ []) ∷ [];
    persistent_handlers = (4, 1 ∷ 9 ∷ []) ∷ (6, 7 ∷ []) ∷ [];
    fire_once_handlers = some ((4, 2 ∷ []) ∷ []);
    forwarders = 3 ∷ [];
    sends = [];
    errors = [];
  };
  rest = [];
}

abbrev verdict : ℕ → Option Err
verdict f = if f == 9 then some invalid_token else none

publish-Called_example :
    (w : Note) × (publish
        (λ f ev v. some (verdict f, noted f ev v))
        (λ f ev v. some (none, noted f ev v))
        true
        started
        with_handlers
      ≡ some (none, w))
    × (w.rest ≡ notes started (1 ∷ 9 ∷ 2 ∷ 3 ∷ []))
    × (once_of 4 w.exchange ≡ [])
    × (w.exchange.sends ≡ (5, started) ∷ [])
publish-Called_example =
    publish-Called verdict (λ f. none) (λ f ev v. some (verdict f, noted f ev v))
      (λ f ev v. some (none, noted f ev v)) (λ f ev v. refl) (λ f ev v. refl) started with_handlers
      (refl, tt) (refl, tt)
