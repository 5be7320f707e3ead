-- ===== src/Events/Logs.antt =====
-- pkg/events/log_exchange.go: the exchange, which passes log entries to the subscribers of a key. A
-- channel is a pointer. Each call is one step, also Publish and CloseKey, which send and close after
-- they unlocked the mutex.
pub mod Walking
pub mod Delivery
pub mod Subscribing
pub mod Calling
use mathlib.Core.Option.{get_or}
use blipblop.Base.{
  ◌↔◌, list_beq_iff, arith, ℕ, suc, Text, ◌≡◌, Bool, true, false, not, Option, none, some, List, [],
  ◌∷◌, ◌++◌, if◌then◌else◌, ◌&&◌, ◌==◌, list_eq, nat_eq, ltb, length, Eq,
}
use blipblop.Dict.{Dict, lookup, insert, remove}
use blipblop.Heap.{store}
use blipblop.Errs.{Result, ok, err, panic, ◌>>=◌}

pub record LogKey : Type 0 where
  pub node_id : Text
  pub task_id : Text
  pub session_id : Text

-- `logsv1.LogEntry`, with the time in nanoseconds
pub record LogEntry : Type 0 where
  pub node_id : Text
  pub task_id : Text
  pub session_id : Text
  pub timestamp : Option ℕ
  pub line : Text
  pub seq : ℕ

abbrev pub key_of : LogEntry → LogKey
key_of e = record { node_id = e.node_id; task_id = e.task_id; session_id = e.session_id }

abbrev pub same_key : LogKey → LogKey → Bool
same_key a b = a.node_id == b.node_id && a.task_id == b.task_id && a.session_id == b.session_id

pub same_key_iff : (a b : LogKey) → (same_key a b ≡ true) ↔ (a ≡ b)
same_key_iff a b = ground (
  arith,
  list_beq_iff a.node_id b.node_id,
  list_beq_iff a.task_id b.task_id,
  list_beq_iff a.session_id b.session_id,
)

instance abbrev pub key_eq : Eq LogKey
key_eq = record { beq = same_key; beq_iff = same_key_iff }

-- What a subscriber has not received yet, oldest first.
pub record Channel : Type 0 where
  pub buffer : List LogEntry
  pub is_closed : Bool

abbrev pub room : ℕ
room = 100

-- `LogExchange`
pub record LogExchange : Type 0 where
  pub topics : Dict LogKey (List ℕ)
  pub heap : ℕ → Channel
  pub next : ℕ

-- the subscribers of a key, which are nil for a missing one
abbrev pub subs_of : LogKey → LogExchange → List ℕ
subs_of k lx = get_or (lookup k lx.topics) []

unfoldable pub subscribe : LogKey → LogExchange → ℕ × LogExchange
subscribe k lx = (
  lx.next,
  record {
    topics = insert k (subs_of k lx ++ lx.next ∷ []) lx.topics;
    heap = store lx.next (record { buffer = []; is_closed = false }) lx.heap;
    next = suc lx.next;
  },
)

-- the first occurrence of a channel is left out
unfoldable pub without : ℕ → List ℕ → List ℕ
without ch [] = []
without ch (p ∷ ps) = let rest = without ch ps in if p == ch then ps else p ∷ rest

-- a key without subscribers is deleted
set_topic : LogKey → List ℕ → Dict LogKey (List ℕ) → Dict LogKey (List ℕ)
set_topic k [] m = remove k m
set_topic k (p ∷ ps) m = insert k (p ∷ ps) m

unfoldable pub unsubscribe : LogKey → ℕ → LogExchange → LogExchange
unfolding set_topic without
unsubscribe k ch lx = record lx { topics = set_topic k (without ch (subs_of k lx)) lx.topics }

-- `close(ch)`, which panics on a channel that is closed
unfoldable pub close_channel : ℕ → (ℕ → Channel) → Result (ℕ → Channel)
close_channel p h =
    if (h p).is_closed then panic else ok (store p (record (h p) { is_closed = true }) h)

unfoldable pub close_channels : List ℕ → (ℕ → Channel) → Result (ℕ → Channel)
close_channels [] h = ok h
close_channels (p ∷ ps) h = do h₁ ← close_channel p h; close_channels ps h₁

unfoldable pub close_key : LogKey → LogExchange → Result LogExchange
close_key k lx = do
  h ← close_channels (subs_of k lx) lx.heap
  ok (record lx { topics = remove k lx.topics; heap = h })

-- The `select` of Publish: a full channel drops the entry, and a send on a closed one panics.
unfoldable pub offered : LogEntry → Channel → Channel
offered e c = if ltb (length c.buffer) room then record c { buffer = c.buffer ++ e ∷ [] } else c

unfoldable pub offer : LogEntry → ℕ → (ℕ → Channel) → Result (ℕ → Channel)
offer e p h = if (h p).is_closed then panic else ok (store p (offered e (h p)) h)

unfoldable pub deliver : LogEntry → List ℕ → (ℕ → Channel) → Result (ℕ → Channel)
deliver e [] h = ok h
deliver e (p ∷ ps) h = do h₁ ← offer e p h; deliver e ps h₁

unfoldable pub publish : LogEntry → LogExchange → Result LogExchange
publish e lx = do h ← deliver e (subs_of (key_of e) lx) lx.heap; ok (record lx { heap = h })

-- a call of a method
pub data Call : Type 0 where
  subscribing : LogKey → Call
  unsubscribing : LogKey → ℕ → Call
  publishing : LogEntry → Call
  closing : LogKey → Call

unfoldable pub call : Call → LogExchange → Result LogExchange
call (subscribing k) lx = ok (subscribe k lx).1
call (unsubscribing k ch) lx = ok (unsubscribe k ch lx)
call (publishing e) lx = publish e lx
call (closing k) lx = close_key k lx

unfoldable pub calls : List Call → LogExchange → Result LogExchange
calls [] lx = ok lx
calls (c ∷ cs) lx = do lx₁ ← call c lx; calls cs lx₁
