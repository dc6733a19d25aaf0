-- ===== src/Agent/Runtime/Events.antt =====
-- agent/runtime/events.go: the broker that fans events out to subscribers. A channel is the list of
-- what it buffers; a subscriber that is gone keeps the buffer that its reader may still empty. Each
-- operation is one step, under the broker's lock.
pub mod Order
pub mod Delivery
pub mod History
use liaison.Base.{
  ℕ, zero, suc, String, Bool, true, false, not, ◌||◌, Option, none, some, List, [], ◌∷◌, ◌++◌, ltb,
  if◌then◌else◌,
}
use liaison.Base.Int.{ℤ, pos, negsuc}
use liaison.Base.Eq.{◌==◌, nat_eq, string_eq}
use liaison.Base.Exec.{Result, ok, err, Exec, pure, fail_if, gets, modify, ◌>>=◌, ◌>>◌}
use liaison.Base.Lists.{length}
use liaison.Base.Table.{Table, get, put, remove}
use liaison.Base.Words.{inc64}
use liaison.Agent.Tool.Types.{Bytes, Time}

-- `EventType` is a Go string.
pub record Event : Type 0 where
  pub sequence : ℕ
  pub session_id : String
  pub turn_id : String
  pub step_id : String
  pub type_ : String
  pub payload : Bytes
  pub occurred : Time

-- `eventSubscriber`.
pub record Subscriber : Type 0 where
  pub session_id : String
  pub events : List Event

-- A subscriber whose channels are closed; `slow` tells whether `done` has `ErrEventSubscriberSlow`.
pub record Ended : Type 0 where
  pub subscriber : Subscriber
  pub slow : Bool

pub record EventBroker : Type 0 where
  pub buffer_size : ℕ
  pub next_id : ℕ
  pub subscribers : Table ℕ Subscriber
  pub ended : Table ℕ Ended

pub data EventError : Type 0 where
  context_ended session_and_type_required session_required : EventError

abbrev pub size_or_default : ℤ → ℕ
size_or_default (pos zero) = 64
size_or_default (pos (suc n)) = suc n
size_or_default (negsuc n) = 64

abbrev pub new_event_broker : ℤ → EventBroker
new_event_broker buffer_size = record {
  buffer_size = size_or_default buffer_size;
  next_id = 0;
  subscribers = [];
  ended = [];
}

abbrev pub offered : Event → Subscriber → Subscriber
offered event s = record s { events = s.events ++ event ∷ [] }

-- The loop of `Publish`: the subscribers that stay, and those that it removes since their buffers
-- are full.
unfoldable pub fan_out : ℕ → Event → Table ℕ Subscriber → Table ℕ Subscriber × Table ℕ Ended
fan_out size event [] = ([], [])
fan_out size event ((id, s) ∷ t) =
    let (staying, slow) = fan_out size event t in
    if not (s.session_id == event.session_id)
    then ((id, s) ∷ staying, slow)
    else if ltb (length s.events) size
    then ((id, offered event s) ∷ staying, slow)
    else (staying, (id, record { subscriber = s; slow = true }) ∷ slow)

abbrev pub published : Event → EventBroker → EventBroker
published event b =
    let id = inc64 b.next_id in
    let (staying, slow) = fan_out b.buffer_size (record event { sequence = id }) b.subscribers in
    record b { next_id = id; subscribers = staying; ended = slow ++ b.ended }

-- `Publish`; the first argument is whether the context has ended.
unfoldable pub publish : Bool → Event → Exec EventBroker EventError (Unit {0})
publish ctx_ended event = do
  fail_if ctx_ended context_ended
  fail_if (event.session_id == "" || event.type_ == "") session_and_type_required
  modify (published event)

abbrev pub subscribed : String → EventBroker → EventBroker
subscribed session_id b =
    let id = inc64 b.next_id in
    record b {
      next_id = id;
      subscribers = put id (record { session_id = session_id; events = [] }) b.subscribers;
    }

-- `Subscribe`; the result is the ID of the subscription.
unfoldable pub subscribe : Bool → String → Exec EventBroker EventError ℕ
subscribe ctx_ended session_id = do
  fail_if (session_id == "") session_required
  fail_if ctx_ended context_ended
  modify (subscribed session_id)
  gets (λ b. b.next_id)

abbrev pub closed : ℕ → Bool → Option Subscriber → EventBroker → EventBroker
closed id slow none b = b
closed id slow (some s) b = record b {
  subscribers = remove id b.subscribers;
  ended = (id, record { subscriber = s; slow = slow }) ∷ b.ended;
}

-- `removeSubscriber` without a reason, as `cancel` calls it.
unfoldable pub cancel : ℕ → EventBroker → EventBroker
cancel id b = closed id false (get id b.subscribers) b

abbrev pub without_first : Subscriber → Subscriber
without_first s = record s { events = rest s.events }
  where
    rest : List Event → List Event
    rest [] = []
    rest (e ∷ es) = es

abbrev pub taken : ℕ → Option Subscriber → EventBroker → EventBroker
taken id none b = b
taken id (some s) b = record b { subscribers = put id (without_first s) b.subscribers }

-- The reader of a subscription takes an event from its channel. What the closed channel of a removed
-- subscriber still buffers is not kept.
unfoldable pub receive : ℕ → EventBroker → EventBroker
receive id b = taken id (get id b.subscribers) b
