-- ===== src/Traffic/Flow.antt =====
-- The way of the counted bytes: from the connections (pkg/trafficconn/trafficconn.go) to the
-- gatekeeper (pkg/entry/transport/gatekeeper.go), the collector (traffic/traffic_collector.go) and
-- the database. What a component does outside its lock is a step of its own, so that the steps of
-- connections, timers and database interleave freely.
use liaison.Base.{
  ℕ, String, Bool, true, false, Option, none, some, List, [], ◌∷◌, ◌++◌, if◌then◌else◌,
}
use liaison.Base.Eq.{nat_eq, string_eq}
use liaison.Base.Table.{Table, get, put, values}
use liaison.Agent.Tool.Types.{Time}
use liaison.Traffic.{
  TrafficStats, Meter, Delta, target_conn, flush, read, write, close, record_traffic,
  gate_record_traffic,
}

-- `model.TrafficMetric`.
pub record TrafficMetric : Type 0 where
  pub stats : TrafficStats
  pub timestamp : Time

-- `reported` are the copies of `flushAndReport` that the collector does not have yet, and `batched`
-- those of the collector's `flush` that are not in the database yet.
pub record Flow : Type 0 where
  pub meters : Table ℕ Meter
  pub gate : Table String TrafficStats
  pub has_collector : Bool
  pub reported : List TrafficStats
  pub collected : Table String TrafficStats
  pub batched : List TrafficStats
  pub stored : List TrafficMetric

abbrev pub new_flow : Bool → Flow
new_flow has_collector = record {
  meters = [];
  gate = [];
  has_collector = has_collector;
  reported = [];
  collected = [];
  batched = [];
  stored = [];
}

-- A connection is named by a number, and a number that is in use opens none.
pub data Event : Type 0 where
  connects : ℕ → ℕ → ℕ → Event
  reads writes : ℕ → ℕ → Bool → Event
  ticks closes : ℕ → Event
  reports hands_over flushes : Event
  persists : Time → Bool → Event

abbrev pub connected : ℕ → Option Meter → Option Meter → Flow → Flow
connected c none (some m) f = record f { meters = put c m f.meters }
connected c _ _ f = f

module _ (decimal : ℕ → String) where
  abbrev pub recorded : Delta → Flow → Flow
  recorded none f = f
  recorded (some d) f = record f {
    gate = gate_record_traffic decimal d.proxy_id d.application_id d.bytes_in d.bytes_out f.gate;
  }

  -- What a connection does, and its call of the recorder.
  abbrev pub on_meter : ℕ → (Meter → Meter × Delta) → Option Meter → Flow → Flow
  on_meter c act none f = f
  on_meter c act (some m) f =
      let (m', delta) = act m in recorded delta (record f { meters = put c m' f.meters })

  -- The loop of `flushAndReport` at its next copy; without a collector there is none.
  abbrev pub handed_over : Bool → List TrafficStats → Flow → Flow
  handed_over false _ f = record f { reported = [] }
  handed_over true [] f = f
  handed_over true (s ∷ rest) f = record f {
    reported = rest;
    collected =
        record_traffic decimal s.proxy_id s.application_id s.bytes_in s.bytes_out f.collected;
  }

-- The loop of the collector's `flush` at its next metric, which the database accepts or not.
abbrev pub persisted : Time → Bool → List TrafficStats → Flow → Flow
persisted now accepted [] f = f
persisted now accepted (s ∷ rest) f = record f {
  batched = rest;
  stored = (if accepted then record { stats = s; timestamp = now } ∷ f.stored else f.stored);
}

unfoldable pub advance : (ℕ → String) → Event → Flow → Flow
advance decimal (connects c p a) f = connected c (get c f.meters) (target_conn true true p a) f
advance decimal (reads c n failed) f = on_meter decimal c (read n failed) (get c f.meters) f
advance decimal (writes c n failed) f = on_meter decimal c (write n failed) (get c f.meters) f
advance decimal (ticks c) f = on_meter decimal c flush (get c f.meters) f
advance decimal (closes c) f = on_meter decimal c close (get c f.meters) f
advance decimal reports f = record f { gate = []; reported = f.reported ++ values f.gate }
advance decimal hands_over f = handed_over decimal f.has_collector f.reported f
advance decimal flushes f = record f { collected = []; batched = f.batched ++ values f.collected }
advance decimal (persists now accepted) f = persisted now accepted f.batched f

-- A history of events.
unfoldable pub run : (ℕ → String) → List Event → Flow → Flow
run decimal [] f = f
run decimal (ev ∷ evs) f = run decimal evs (advance decimal ev f)
