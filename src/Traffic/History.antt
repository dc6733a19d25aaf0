-- ===== src/Traffic/History.antt =====
-- Histories of the traffic's events (pkg/trafficconn/trafficconn.go,
-- pkg/entry/transport/gatekeeper.go, traffic/traffic_collector.go): what they bring and drop.
use liaison.Base.{
  ℕ, ◌+◌, ◌%◌, ◌^◌, String, ◌≡◌, Bool, true, false, Option, none, some, List, [], ◌∷◌, arith,
}
use liaison.Base.Eq.{nat_eq, string_eq}
use liaison.Base.Table.{get, put}
use liaison.Traffic.{TrafficStats, Meter, Delta, target_conn, flush, read, write, close}
use liaison.Traffic.Flow.{
  Flow, Event, connects, reads, writes, ticks, closes, reports, hands_over, flushes, persists,
  recorded, on_meter, connected, handed_over, persisted, advance, run, new_flow,
}
use liaison.Traffic.Keys.{IsDecimal, record_traffic-IsBooked, gate_record_traffic-IsBooked}
use liaison.Traffic.Sums.{Direction}
use liaison.Traffic.Conserved.{IsFlow, volume, brought, dropped, advance_conserves}

module _ (decimal : ℕ → String) where
  recorded-IsFlow :
      (o : Delta) (f : Flow) → IsFlow decimal f → IsFlow decimal (recorded decimal o f)
  recorded-IsFlow none f w = w
  recorded-IsFlow (some s) f w = record {
    gate_booked =
        gate_record_traffic-IsBooked decimal s.proxy_id s.application_id s.bytes_in s.bytes_out
          f.gate w.gate_booked;
    collected_booked = w.collected_booked;
  }

  on_meter-IsFlow :
      (c : ℕ) (act : Meter → Meter × Delta) (o : Option Meter) (f : Flow)
      → IsFlow decimal f
      → IsFlow decimal (on_meter decimal c act o f)
  on_meter-IsFlow c act none f w = w
  on_meter-IsFlow c act (some m) f w =
      recorded-IsFlow (act m).1 (record f { meters = put c (act m).0 f.meters })
        (record { gate_booked = w.gate_booked; collected_booked = w.collected_booked })

  connected-IsFlow :
      (c : ℕ) (o n : Option Meter) (f : Flow)
      → IsFlow decimal f
      → IsFlow decimal (connected c o n f)
  connected-IsFlow c none none f w = w
  connected-IsFlow c none (some m) f w = record {
    gate_booked = w.gate_booked;
    collected_booked = w.collected_booked;
  }
  connected-IsFlow c (some m) n f w = w

  handed_over-IsFlow :
      (has : Bool) (left : List TrafficStats) (f : Flow)
      → IsFlow decimal f
      → IsFlow decimal (handed_over decimal has left f)
  handed_over-IsFlow false left f w = record {
    gate_booked = w.gate_booked;
    collected_booked = w.collected_booked;
  }
  handed_over-IsFlow true [] f w = w
  handed_over-IsFlow true (s ∷ rest) f w = record {
    gate_booked = w.gate_booked;
    collected_booked =
        record_traffic-IsBooked decimal s.proxy_id s.application_id s.bytes_in s.bytes_out
          f.collected w.collected_booked;
  }

  persisted-IsFlow :
      (now : ℕ) (accepted : Bool) (left : List TrafficStats) (f : Flow)
      → IsFlow decimal f
      → IsFlow decimal (persisted now accepted left f)
  persisted-IsFlow now accepted [] f w = w
  persisted-IsFlow now accepted (s ∷ rest) f w = record {
    gate_booked = w.gate_booked;
    collected_booked = w.collected_booked;
  }

  advance-IsFlow :
      (ev : Event) (f : Flow) → IsFlow decimal f → IsFlow decimal (advance decimal ev f)
  unfolding advance
  advance-IsFlow (connects c q b) f w =
      connected-IsFlow c (get c f.meters) (target_conn true true q b) f w
  advance-IsFlow (reads c n failed) f w = on_meter-IsFlow c (read n failed) (get c f.meters) f w
  advance-IsFlow (writes c n failed) f w = on_meter-IsFlow c (write n failed) (get c f.meters) f w
  advance-IsFlow (ticks c) f w = on_meter-IsFlow c flush (get c f.meters) f w
  advance-IsFlow (closes c) f w = on_meter-IsFlow c close (get c f.meters) f w
  advance-IsFlow reports f w = record { gate_booked = tt; collected_booked = w.collected_booked }
  advance-IsFlow hands_over f w = handed_over-IsFlow f.has_collector f.reported f w
  advance-IsFlow flushes f w = record { gate_booked = w.gate_booked; collected_booked = tt }
  advance-IsFlow (persists now accepted) f w = persisted-IsFlow now accepted f.batched f w

module _ (decimal : ℕ → String) (d : Direction) (p a : ℕ) where
  -- The bytes that a history of events brings, and those that it drops.
  abbrev pub all_brought : List Event → Flow → ℕ
  all_brought [] f = 0
  all_brought (ev ∷ evs) f = brought d p a ev f + all_brought evs (advance decimal ev f)

  abbrev pub all_dropped : List Event → Flow → ℕ
  all_dropped [] f = 0
  all_dropped (ev ∷ evs) f = dropped d p a ev f + all_dropped evs (advance decimal ev f)

  run_conserves :
      IsDecimal decimal
      → (evs : List Event) (f : Flow) → IsFlow decimal f
      → (volume d p a (run decimal evs f) + all_dropped evs f) % 2 ^ 64
        ≡ (volume d p a f + all_brought evs f) % 2 ^ 64
  unfolding run
  run_conserves sound [] f w = omega arith
  run_conserves sound (ev ∷ evs) f w = omega (
    arith,
    advance_conserves decimal sound d p a ev f w,
    run_conserves sound evs (advance decimal ev f) (advance-IsFlow decimal ev f w),
  )

  -- After any history of connections that read, write, fail, tick and close, of reports, hand-overs
  -- and flushes, and of answers of the database, in any order: for every proxy, application and
  -- direction, the bytes that are on the way or stored, with those that were dropped for want of a
  -- collector or refused by the database, are the bytes that the connections read or wrote, modulo
  -- 2 ^ 64. Numerals have no colon and tell numbers apart.
  pub bytes_conserved :
      IsDecimal decimal
      → (evs : List Event) (has_collector : Bool)
      → let start = new_flow has_collector in
        (volume d p a (run decimal evs start) + all_dropped evs start) % 2 ^ 64
        ≡ all_brought evs start % 2 ^ 64
  bytes_conserved sound evs has_collector = omega (
    arith,
    run_conserves sound evs (new_flow has_collector)
        (record { gate_booked = tt; collected_booked = tt }),
  )
