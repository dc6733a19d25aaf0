-- ===== src/Agent/Runtime/Events/Delivery.antt =====
-- Who gets an event that is published (agent/runtime/events.go).
use liaison.Base.{
  ℕ, ◌≡◌, refl, false, not, ◌||◌, Option, none, some, [], ◌∷◌, arith, ltb, if◌then◌else◌,
  nat_beq_iff,
}
use liaison.Base.Eq.{◌==◌, nat_eq, string_eq}
use liaison.Base.Exec.{ok}
use liaison.Base.Lists.{length}
use liaison.Base.Table.{Table, get}
use liaison.Base.Table.Keys.{IsMap}
use liaison.Base.Words.{inc64}
use liaison.Agent.Runtime.Events.{Event, Subscriber, EventBroker, offered, fan_out, publish}

-- What becomes of a subscriber when an event is published.
abbrev pub outcome : ℕ → Event → Option Subscriber → Option Subscriber
outcome size event none = none
outcome size event (some s) =
    if not (s.session_id == event.session_id)
    then some s
    else if ltb (length s.events) size
    then some (offered event s)
    else none

get-fan_out :
    (size : ℕ) (event : Event) (t : Table ℕ Subscriber)
    → IsMap t
    → (id : ℕ) → get id (fan_out size event t).0 ≡ outcome size event (get id t)
unfolding fan_out get
get-fan_out size event [] h id = refl
get-fan_out size event ((j, s) ∷ t) h id =
    ground (arith, get-fan_out size event t h.1 id, h.0, nat_beq_iff j id)

-- A publication that is not refused leaves the subscribers of other sessions as they are, appends
-- the event, under the next sequence number, to the buffer of each subscriber of its session that
-- has room, and removes those that have none. The map of subscribers has each key once.
pub publish_delivers :
    (event : Event) (b : EventBroker) (id : ℕ)
    → IsMap b.subscribers
    → (event.session_id == "" || event.type_ == "") ≡ false
    → let o = publish false event b in
      (o.0 ≡ ok tt)
      × (get id o.1.subscribers
          ≡ outcome b.buffer_size
              (record event { sequence = inc64 b.next_id })
              (get id b.subscribers))
unfolding publish
publish_delivers event b id single fine = rw fine (
    (
      refl,
      get-fan_out b.buffer_size (record event { sequence = inc64 b.next_id }) b.subscribers single
          id,
    ))
