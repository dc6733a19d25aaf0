-- ===== src/Agent/Runtime/Events/History.antt =====
-- What the buffers of subscribers hold after any history (agent/runtime/events.go).
use liaison.Base.{
  ℕ, ◌+◌, ◌≤◌, ◌<◌, ◌^◌, String, ◌≡◌, refl, Bool, ◌||◌, List, [], ◌∷◌, arith, Option-cases, inl,
  inr,
}
use liaison.Base.Int.{ℤ}
use liaison.Base.Eq.{◌==◌, nat_eq, string_eq}
use liaison.Base.Every.{Every, Every-append, Every-mono}
use liaison.Base.Exec.{Result}
use liaison.Base.Exec.Rules.{fail_if_rule}
use liaison.Base.Lists.{length}
use liaison.Base.Table.{get}
use liaison.Base.Table.Rows.{put-Rows, remove-Rows, get-Rows}
use liaison.Base.Words.{inc64, inc64_exact}
use liaison.Agent.Runtime.Events.{
  Event, EventError, Subscriber, EventBroker, new_event_broker, publish, subscribe, cancel,
  without_first, receive,
}
use liaison.Agent.Runtime.Events.Order.{IsRising, IsStream, IsFanned, later, fan_out-IsStream}

-- The counter has not reached its end.
abbrev pub HasNext : EventBroker → Type 0
HasNext b = b.next_id + 1 < 2 ^ 64

publish-IsFanned :
    (ctx_ended : Bool) (event : Event) (b : EventBroker)
    → HasNext b
    → IsFanned b
    → IsFanned (publish ctx_ended event b).1
unfolding publish
publish-IsFanned ctx_ended event b more h =
    let Q : Result EventError (Unit {0}) × EventBroker → Type 0 = λ o. IsFanned o.1 in
    fail_if_rule Q ctx_ended _ h λ _.
      fail_if_rule Q (event.session_id == "" || event.type_ == "") _ h λ _.
        let n = b.next_id in
        let m = inc64 n in
        let lt : n < m = omega (arith, inc64_exact n more) in
        let (staying, slow) =
          fan_out-IsStream n m b.buffer_size (record event { sequence = m }) b.subscribers lt refl
            h.0 in
        (
          staying,
          Every-append _ _ b.ended slow (
              Every-mono _ (λ row. IsStream m b.buffer_size row.1.subscriber)
                (λ row kept. later n m b.buffer_size (omega (arith, lt)) row.1.subscriber kept)
                b.ended h.1),
        )

subscribe-IsFanned :
    (ctx_ended : Bool) (session_id : String) (b : EventBroker)
    → HasNext b
    → IsFanned b
    → IsFanned (subscribe ctx_ended session_id b).1
unfolding subscribe
subscribe-IsFanned ctx_ended session_id b more h =
    let Q : Result EventError ℕ × EventBroker → Type 0 = λ o. IsFanned o.1 in
    fail_if_rule Q (session_id == "") _ h λ _. fail_if_rule Q ctx_ended _ h λ _.
      let n = b.next_id in
      let m = inc64 n in
      let le : n ≤ m = omega (arith, inc64_exact n more) in
      (
        put-Rows (IsStream m b.buffer_size) m (record { session_id = session_id; events = [] })
            b.subscribers (record { own = tt; rising = tt; short = omega arith })
            (Every-mono _ (λ row. IsStream m b.buffer_size row.1)
              (λ row kept. later n m b.buffer_size le row.1 kept) b.subscribers h.0),
        Every-mono _ (λ row. IsStream m b.buffer_size row.1.subscriber)
            (λ row kept. later n m b.buffer_size le row.1.subscriber kept) b.ended h.1,
      )

cancel-IsFanned : (id : ℕ) (b : EventBroker) → IsFanned b → IsFanned (cancel id b)
unfolding cancel
cancel-IsFanned id b h = elim (Option-cases (get id b.subscribers)) [
  | inl n ↦ rw n h
  | inr (s, n) ↦ rw n (
      (
        remove-Rows (IsStream b.next_id b.buffer_size) id b.subscribers h.0,
        (get-Rows (IsStream b.next_id b.buffer_size) id s b.subscribers h.0 n, h.1),
      ))
]

IsRising-weaken : (low : ℕ) (es : List Event) → IsRising low es → IsRising 0 es
IsRising-weaken low [] h = tt
IsRising-weaken low (e ∷ es) h = (omega (arith, h.0), h.1)

without_first-IsStream :
    (n size : ℕ) (s : Subscriber) → IsStream n size s → IsStream n size (without_first s)
without_first-IsStream n size s h = go s.events h.own h.rising h.short
  where
    go :
        (es : List Event)
        → Every (λ event. (event.session_id ≡ s.session_id) × (event.sequence ≤ n)) es
        → IsRising 0 es
        → length es ≤ size
        → IsStream n size (without_first (record s { events = es }))
    go [] own rising short = record { own = tt; rising = tt; short = omega arith }
    go (e ∷ es) own rising short = record {
      own = own.1;
      rising = IsRising-weaken e.sequence es rising.1;
      short = omega (arith, short);
    }

receive-IsFanned : (id : ℕ) (b : EventBroker) → IsFanned b → IsFanned (receive id b)
unfolding receive
receive-IsFanned id b h = elim (Option-cases (get id b.subscribers)) [
  | inl n ↦ rw n h
  | inr (s, n) ↦
      let P = IsStream b.next_id b.buffer_size in
      rw n (
        (
          put-Rows P id (without_first s) b.subscribers
              (without_first-IsStream b.next_id b.buffer_size s
                (get-Rows P id s b.subscribers h.0 n))
              h.0,
          h.1,
        ))
]

-- The brokers that calls make out of a new one, as long as the counter does not wrap around.
pub data BrokerReach : EventBroker → Type 0 where
  opened : (buffer_size : ℤ) → BrokerReach (new_event_broker buffer_size)
  publishes :
      {b : EventBroker}
      → BrokerReach b
      → HasNext b
      → (ctx_ended : Bool) (event : Event) → BrokerReach (publish ctx_ended event b).1
  subscribes :
      {b : EventBroker}
      → BrokerReach b
      → HasNext b
      → (ctx_ended : Bool) (session_id : String) → BrokerReach (subscribe ctx_ended session_id b).1
  cancels : {b : EventBroker} → BrokerReach b → (id : ℕ) → BrokerReach (cancel id b)
  receives : {b : EventBroker} → BrokerReach b → (id : ℕ) → BrokerReach (receive id b)

-- After any history of publications, subscriptions, cancellations and readings, as long as the
-- counter does not wrap around, the buffer of every subscriber, also of one that is gone, holds
-- events of its session only, in the order of their sequence numbers, and not more than the size.
pub Reach-IsFanned : {b : EventBroker} → BrokerReach b → IsFanned b
Reach-IsFanned (opened buffer_size) = (tt, tt)
Reach-IsFanned (publishes {b} r more ctx_ended event) =
    publish-IsFanned ctx_ended event b more (Reach-IsFanned r)
Reach-IsFanned (subscribes {b} r more ctx_ended session_id) =
    subscribe-IsFanned ctx_ended session_id b more (Reach-IsFanned r)
Reach-IsFanned (cancels {b} r id) = cancel-IsFanned id b (Reach-IsFanned r)
Reach-IsFanned (receives {b} r id) = receive-IsFanned id b (Reach-IsFanned r)
