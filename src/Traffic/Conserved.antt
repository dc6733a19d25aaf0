-- ===== src/Traffic/Conserved.antt =====
-- No byte that a connection counts is lost or counted twice on its way into the database
-- (pkg/trafficconn/trafficconn.go, pkg/entry/transport/gatekeeper.go,
-- traffic/traffic_collector.go), but for what the code drops.
use liaison.Base.{
  ℕ, ◌+◌, ◌%◌, ◌^◌, String, ◌≡◌, refl, Bool, true, false, ◌||◌, Option, none, some, List, [], ◌∷◌,
  arith, if◌then◌else◌, if_rule, Option-cases, inl, inr,
}
use liaison.Base.Eq.{◌==◌, nat_eq, string_eq}
use liaison.Base.Table.{get, put, values}
use liaison.Traffic.{TrafficStats, Meter, Delta, target_conn, flush, read, write, close}
use liaison.Traffic.Flow.{
  Flow, Event, connects, reads, writes, ticks, closes, reports, hands_over, flushes, persists,
  recorded, on_meter, connected, handed_over, persisted, advance,
}
use liaison.Traffic.Keys.{IsDecimal, IsBooked}
use liaison.Traffic.Sums.{Direction, sum, sum-append, sum-put, weight_at, bytes_of}
use liaison.Traffic.Booking.{delta, record_traffic_adds, gate_record_traffic_adds}
use liaison.Traffic.Metering.{
  metered, left_and_sent, nothing_metered, flush_keeps, close_keeps, read_adds, write_adds,
}

-- Both tables of counters have each record under its key.
pub record IsFlow (decimal : ℕ → String) (f : Flow) : Type 0 where
  pub gate_booked : IsBooked decimal f.gate
  pub collected_booked : IsBooked decimal f.collected

module _ (d : Direction) (p a : ℕ) where
  -- All bytes of the proxy and application that are anywhere on the way, or stored.
  abbrev pub volume : Flow → ℕ
  volume f =
      sum (metered d p a) (values f.meters)
      + sum (bytes_of d p a) (values f.gate)
      + sum (bytes_of d p a) f.reported
      + sum (bytes_of d p a) (values f.collected)
      + sum (bytes_of d p a) f.batched
      + sum (λ metric. bytes_of d p a metric.stats) f.stored

  -- The bytes that an event brings: those that a connection reads or writes.
  abbrev pub brought : Event → Flow → ℕ
  brought (reads c n failed) f =
      weight_at (λ m. bytes_of d p a (delta m.proxy_id m.application_id 0 n)) (get c f.meters)
  brought (writes c n failed) f =
      weight_at (λ m. bytes_of d p a (delta m.proxy_id m.application_id n 0)) (get c f.meters)
  brought _ f = 0

  abbrev pub first_of : List TrafficStats → ℕ
  first_of [] = 0
  first_of (s ∷ rest) = bytes_of d p a s

  -- The bytes that an event drops: what is reported without a collector, and what the database
  -- refuses.
  abbrev pub dropped : Event → Flow → ℕ
  dropped hands_over f = if f.has_collector then 0 else sum (bytes_of d p a) f.reported
  dropped (persists now accepted) f = if accepted then 0 else first_of f.batched
  dropped _ f = 0

module _ (decimal : ℕ → String) (sound : IsDecimal decimal) (d : Direction) (p a : ℕ) where
  recorded_adds :
      (o : Delta) (f : Flow)
      → IsFlow decimal f
      → volume d p a (recorded decimal o f) % 2 ^ 64
        ≡ (volume d p a f + weight_at (bytes_of d p a) o) % 2 ^ 64
  recorded_adds none f w = omega arith
  recorded_adds (some s) f w = omega (
    arith,
    gate_record_traffic_adds decimal sound d p a s.proxy_id s.application_id s.bytes_in s.bytes_out
        f.gate w.gate_booked,
  )

  -- What a connection's action adds to its counters and its call, it adds to the volume.
  on_meter_adds :
      (c : ℕ) (act : Meter → Meter × Delta) (extra : Meter → ℕ) (f : Flow)
      → IsFlow decimal f
      → ((m : Meter) → left_and_sent d p a (act m) % 2 ^ 64 ≡ (metered d p a m + extra m) % 2 ^ 64)
      → volume d p a (on_meter decimal c act (get c f.meters) f) % 2 ^ 64
        ≡ (volume d p a f + weight_at extra (get c f.meters)) % 2 ^ 64
  on_meter_adds c act extra f w adds = elim (Option-cases (get c f.meters)) [
    | inl n ↦ rw n (omega arith)
    | inr (m, n) ↦
        let f' : Flow = record f { meters = put c (act m).0 f.meters } in
        let placed = sum-put (metered d p a) c (act m).0 f.meters in
        let old : weight_at (metered d p a) (get c f.meters) ≡ metered d p a m = rw n refl in
        let booked =
          recorded_adds (act m).1 f'
            (record { gate_booked = w.gate_booked; collected_booked = w.collected_booked }) in
        rw n (omega (arith, adds m, placed, old, booked))
  ]

  handed_over_adds :
      (f : Flow)
      → IsFlow decimal f
      → (volume d p a (handed_over decimal f.has_collector f.reported f)
            + dropped d p a hands_over f)
          % 2 ^ 64
        ≡ volume d p a f % 2 ^ 64
  handed_over_adds f w = by_collector f.has_collector f.reported refl
    where
      by_collector :
          (has : Bool) (left : List TrafficStats)
          → f.reported ≡ left
          → (volume d p a (handed_over decimal has left f)
                + (if has then 0 else sum (bytes_of d p a) f.reported))
              % 2 ^ 64
            ≡ volume d p a f % 2 ^ 64
      by_collector false left same = omega arith
      by_collector true [] same = omega arith
      by_collector true (s ∷ rest) same =
          let added =
            record_traffic_adds decimal sound d p a s.proxy_id s.application_id s.bytes_in
              s.bytes_out f.collected w.collected_booked in
          let first : sum (bytes_of d p a) f.reported
              ≡ bytes_of d p a s + sum (bytes_of d p a) rest =
            rw same refl in
          omega (arith, added, first)

  nothing_refused : (accepted : Bool) → ◌≡◌ {A = ℕ} (if accepted then 0 else 0) 0
  nothing_refused true = refl
  nothing_refused false = refl

  persisted_adds :
      (now : ℕ) (accepted : Bool) (f : Flow)
      → (volume d p a (persisted now accepted f.batched f)
          + dropped d p a (persists now accepted) f)
        ≡ volume d p a f
  persisted_adds now accepted f = by_batch accepted f.batched refl
    where
      by_batch :
          (accepted : Bool) (left : List TrafficStats)
          → f.batched ≡ left
          → (volume d p a (persisted now accepted left f)
              + (if accepted then 0 else first_of d p a left))
            ≡ volume d p a f
      by_batch accepted [] same = omega (arith, nothing_refused accepted)
      by_batch true (s ∷ rest) same =
          let first : sum (bytes_of d p a) f.batched
              ≡ bytes_of d p a s + sum (bytes_of d p a) rest =
            rw same refl in
          omega (arith, first)
      by_batch false (s ∷ rest) same =
          let first : sum (bytes_of d p a) f.batched
              ≡ bytes_of d p a s + sum (bytes_of d p a) rest =
            rw same refl in
          omega (arith, first)

  abbrev fresh : ℕ → ℕ → Meter
  fresh q b = record { proxy_id = q; application_id = b; bytes_in = 0; bytes_out = 0; done = false }

  connected_adds :
      (c q b : ℕ) (f : Flow)
      → volume d p a (connected c (get c f.meters) (target_conn true true q b) f) ≡ volume d p a f
  unfolding target_conn
  connected_adds c q b f = elim (Option-cases (get c f.meters)) [
    | inl n ↦ rw n (
        if_rule (λ o. volume d p a (connected c none o f) ≡ volume d p a f) (q == 0 || b == 0) none
          (some (fresh q b)) (λ _. refl)
          λ _. omega (
            arith,
            sum-put (metered d p a) c (fresh q b) f.meters,
            no_row n,
            nothing_metered d p a d (fresh q b) refl refl,
          ))
    | inr (m, n) ↦ rw n (refused m (target_conn true true q b))
  ]
    where
      no_row : get c f.meters ≡ none → weight_at (metered d p a) (get c f.meters) ≡ 0
      no_row n = rw n refl

      refused :
          (m : Meter) (o : Option Meter) → volume d p a (connected c (some m) o f) ≡ volume d p a f
      refused m none = refl
      refused m (some x) = refl

  no_weight : (o : Option Meter) → weight_at (λ m. 0) o ≡ 0
  no_weight none = refl
  no_weight (some m) = refl

  -- One event: the bytes on the way and stored grow by what the event brings, less what it drops.
  pub advance_conserves :
      (ev : Event) (f : Flow)
      → IsFlow decimal f
      → (volume d p a (advance decimal ev f) + dropped d p a ev f) % 2 ^ 64
        ≡ (volume d p a f + brought d p a ev f) % 2 ^ 64
  unfolding advance
  advance_conserves (connects c q b) f w = omega (arith, connected_adds c q b f)
  advance_conserves (reads c n failed) f w = omega (
    arith,
    on_meter_adds c (read n failed) (λ m. bytes_of d p a (delta m.proxy_id m.application_id 0 n)) f
        w (read_adds d p a n failed),
  )
  advance_conserves (writes c n failed) f w = omega (
    arith,
    on_meter_adds c (write n failed) (λ m. bytes_of d p a (delta m.proxy_id m.application_id n 0)) f
        w (write_adds d p a n failed),
  )
  advance_conserves (ticks c) f w = omega (
    arith,
    on_meter_adds c flush (λ m. 0) f w (λ m. omega (arith, flush_keeps d p a m)),
    no_weight (get c f.meters),
  )
  advance_conserves (closes c) f w = omega (
    arith,
    on_meter_adds c close (λ m. 0) f w (λ m. omega (arith, close_keeps d p a m)),
    no_weight (get c f.meters),
  )
  advance_conserves reports f w =
      omega (arith, sum-append (bytes_of d p a) f.reported (values f.gate))
  advance_conserves hands_over f w = omega (arith, handed_over_adds f w)
  advance_conserves flushes f w =
      omega (arith, sum-append (bytes_of d p a) f.batched (values f.collected))
  advance_conserves (persists now accepted) f w = omega (arith, persisted_adds now accepted f)
