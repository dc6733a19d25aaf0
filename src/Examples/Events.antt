-- ===== src/Examples/Events.antt =====
-- A broker with a buffer of one event and two subscribers (agent/runtime/events.go).
use liaison.Base.{◌≡◌, refl, false, none, [], arith}
use liaison.Base.Int.{pos}
use liaison.Base.Eq.{nat_eq}
use liaison.Base.Exec.{ok}
use liaison.Base.Table.{get, put}
use liaison.Agent.Runtime.Events.{Event, EventBroker, new_event_broker, publish, subscribe, fan_out}
use liaison.Agent.Runtime.Events.Order.{IsFanned}
use liaison.Agent.Runtime.Events.Delivery.{outcome, publish_delivers}
use liaison.Agent.Runtime.Events.History.{
  BrokerReach, opened, publishes, subscribes, Reach-IsFanned,
}

abbrev started : Event
started = record {
  sequence = 0;
  session_id = "s";
  turn_id = "t";
  step_id = "";
  type_ = "turn.started";
  payload = [];
  occurred = 5;
}

abbrev watched : EventBroker
watched = (subscribe false "other" (subscribe false "s" (new_event_broker (pos 1))).1).1

watched-Reach : BrokerReach watched
unfolding subscribe
watched-Reach =
    subscribes (subscribes (opened (pos 1)) (omega arith) false "s") (omega arith) false "other"

Reach-IsFanned_example : IsFanned (publish false started watched).1
unfolding subscribe
Reach-IsFanned_example = Reach-IsFanned (publishes watched-Reach (omega arith) false started)

-- The first event fits, the second one removes the subscriber.
publish_delivers_example :
    let once = (publish false started watched).1 in
    ((publish false started once).0 ≡ ok tt)
    × (get 1 (publish false started once).1.subscribers
        ≡ outcome 1 (record started { sequence = 4 }) (get 1 once.subscribers))
unfolding subscribe publish fan_out get put
publish_delivers_example =
    publish_delivers started (publish false started watched).1 1 (refl, (refl, tt)) refl

slow_removed : get 1 (publish false started (publish false started watched).1).1.subscribers ≡ none
unfolding subscribe publish fan_out get put
slow_removed = refl
