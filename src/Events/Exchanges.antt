-- ===== src/Events/Exchanges.antt =====
-- pkg/events/exchange.go: the exchange, which passes events to channels, handlers and forwarders. A
-- handler is a number, and a parameter runs it; it may change the exchange. Nothing receives from the
-- channel of errors, so that a send to it never ends: `none` is a call that does not return.
pub mod Calling
use mathlib.Core.Option
use mathlib.Core.Option.{get_or}
use blipblop.Base.{
  ℕ, Text, ◌≡◌, Bool, true, false, Option, none, some, List, [], ◌∷◌, ◌++◌, map, if◌then◌else◌,
  nat_eq,
}
use blipblop.Api.{Meta}
use blipblop.Dict.{Dict, lookup, insert, remove}
use blipblop.Errs.{Err, Result, ok, err, panic, ◌>>=◌}

pub record Event : Type 0 where
  pub version : Text
  pub meta : Meta
  pub object_id : Text
  pub client_id : Text
  pub event_type : ℕ
  pub object : Text
  pub reason : Text

-- `Exchange`, with the goroutines that it started: those that send an event to a channel, and those
-- that have an error to send. A map that was not made is `none`.
pub record Exchange : Type 0 where
  pub topics : Dict ℕ (List ℕ)
  pub persistent_handlers : Dict ℕ (List ℕ)
  pub fire_once_handlers : Option (Dict ℕ (List ℕ))
  pub forwarders : List ℕ
  pub sends : List (ℕ × Event)
  pub errors : List Err

abbrev pub registered : ℕ → Dict ℕ (List ℕ) → List ℕ
registered t m = get_or (lookup t m) []

unfoldable pub new_exchange : Exchange
new_exchange = record {
  topics = [];
  persistent_handlers = [];
  fire_once_handlers = none;
  forwarders = [];
  sends = [];
  errors = [];
}

unfoldable pub add_forwarder : ℕ → Exchange → Exchange
add_forwarder f e = record e { forwarders = e.forwarders ++ f ∷ [] }

unfoldable pub on : ℕ → ℕ → Exchange → Exchange
on t f e = record e {
  persistent_handlers =
      insert t (registered t e.persistent_handlers ++ f ∷ []) e.persistent_handlers;
}

-- An assignment to an entry of a map that was not made panics.
unfoldable pub add_once : ℕ → ℕ → Option (Dict ℕ (List ℕ)) → Result (Dict ℕ (List ℕ))
add_once t f none = panic
add_once t f (some m) = ok (insert t (registered t m ++ f ∷ []) m)

unfoldable pub once : ℕ → ℕ → Exchange → Result Exchange
once t f e = do m ← add_once t f e.fire_once_handlers; ok (record e { fire_once_handlers = some m })

-- one channel for all the types
unfoldable pub add_channel : ℕ → List ℕ → Dict ℕ (List ℕ) → Dict ℕ (List ℕ)
add_channel ch [] m = m
add_channel ch (t ∷ ts) m = add_channel ch ts (insert t (registered t m ++ ch ∷ []) m)

unfoldable pub subscribe : ℕ → List ℕ → Exchange → Exchange
subscribe ch ts e = record e { topics = add_channel ch ts e.topics }

-- the fire-once handlers of a type, which are nil in a map that was not made
abbrev pub once_of : ℕ → Exchange → List ℕ
once_of t e = get_or (Option.map (registered t) e.fire_once_handlers) []

-- What the first part of publish changes: the fire-once handlers are taken off, and a goroutine
-- sends the event to each channel.
unfoldable pub take : ℕ → Event → Exchange → Exchange
take t ev e = record e {
  fire_once_handlers = Option.map (remove t) e.fire_once_handlers;
  sends = e.sends ++ map (λ ch. (ch, ev)) (registered t e.topics);
}

-- The exchange, and what the handlers work on.
pub record World (X : Type 0) : Type 0 where
  pub exchange : Exchange
  pub rest : X

module _ {X : Type 0} where
  unfoldable pub report : Option Err → World X → World X
  report none w = w
  report (some e) w = record w {
    exchange = record w.exchange { errors = w.exchange.errors ++ e ∷ [] };
  }

  -- The publisher sends the error itself.
  unfoldable pub wait : Option Err → Option (World X) → Option (World X)
  wait none next = next
  wait (some e) next = none

  unfoldable pub or_stop :
      Option Err × World X → Option (Option Err × World X) → Option (Option Err × World X)
  or_stop (none, w) next = next
  or_stop (some e, w) next = some (some e, w)

module _ {X : Type 0} (handle forward : ℕ → Event → World X → Option (Option Err × World X)) where
  unfoldable pub call_persistent : List ℕ → Event → World X → Option (World X)
  call_persistent [] ev w = some w
  call_persistent (f ∷ fs) ev w =
      Option.bind (handle f ev w) (λ r. call_persistent fs ev (report r.0 r.1))

  unfoldable pub call_once : List ℕ → Event → World X → Option (World X)
  call_once [] ev w = some w
  call_once (f ∷ fs) ev w = Option.bind (handle f ev w) (λ r. wait r.0 (call_once fs ev r.1))

  unfoldable pub forward_all : List ℕ → Event → World X → Option (Option Err × World X)
  forward_all [] ev w = some (none, w)
  forward_all (f ∷ fs) ev w = Option.bind (forward f ev w) (λ r. or_stop r (forward_all fs ev r.1))

  unfoldable pub publish : Bool → Event → World X → Option (Option Err × World X)
  publish persist ev w =
      let t = ev.event_type in
      let e = w.exchange in
      Option.bind
        (call_persistent (registered t e.persistent_handlers) ev
          (record w { exchange = take t ev e }))
        (λ w₁.
          Option.bind (call_once (once_of t e) ev w₁)
            (λ w₂. if persist then forward_all e.forwarders ev w₂ else some (none, w₂)))
