-- ===== src/Traffic.antt =====
-- Counting the bytes of connections: pkg/trafficconn/trafficconn.go, the counters of
-- pkg/entry/transport/gatekeeper.go, and traffic/traffic_collector.go. An `int64` is a number below
-- 2 ^ 64 that stands for its two's complement.
pub mod Flow
pub mod Keys
pub mod Sums
pub mod Booking
pub mod Metering
pub mod Conserved
pub mod History
use Prim.Native.String.{◌++◌}
use liaison.Base.{
  ℕ, ◌+◌, ◌%◌, ◌^◌, String, Bool, true, false, not, ◌&&◌, ◌||◌, Option, none, some, List, [], ◌∷◌,
  ltb, if◌then◌else◌,
}
use liaison.Base.Eq.{◌==◌, nat_eq, string_eq}
use liaison.Base.Table.{Table, get, put, values}

pub record TrafficStats : Type 0 where
  pub proxy_id : ℕ
  pub application_id : ℕ
  pub bytes_in : ℕ
  pub bytes_out : ℕ

abbrev pub add64 : ℕ → ℕ → ℕ
add64 a b = (a + b) % 2 ^ 64

-- `bytesIn += n` and so on, on a record.
abbrev pub grown : ℕ → ℕ → TrafficStats → TrafficStats
grown n_in n_out s = record s {
  bytes_in = add64 s.bytes_in n_in;
  bytes_out = add64 s.bytes_out n_out;
}

-- The record that is there, or a new one.
abbrev pub found_or_new : ℕ → ℕ → Option TrafficStats → TrafficStats
found_or_new proxy_id application_id none = record {
  proxy_id = proxy_id;
  application_id = application_id;
  bytes_in = 0;
  bytes_out = 0;
}
found_or_new proxy_id application_id (some s) = s

-- `trafficKey`; `decimal` is how `%d` prints.
unfoldable pub traffic_key : (ℕ → String) → ℕ → ℕ → String
traffic_key decimal proxy_id application_id = decimal proxy_id ++ ":" ++ decimal application_id

-- `TrafficCollector.RecordTraffic`.
unfoldable pub record_traffic :
    (ℕ → String) → ℕ → ℕ → ℕ → ℕ → Table String TrafficStats → Table String TrafficStats
record_traffic decimal proxy_id application_id n_in n_out stats =
    let key = traffic_key decimal proxy_id application_id in
    put key (grown n_in n_out (found_or_new proxy_id application_id (get key stats))) stats

-- `Gatekeeper.recordTraffic`.
unfoldable pub gate_record_traffic :
    (ℕ → String) → ℕ → ℕ → ℕ → ℕ → Table String TrafficStats → Table String TrafficStats
unfolding record_traffic
gate_record_traffic decimal proxy_id application_id n_in n_out stats =
    if n_in == 0 && n_out == 0
    then stats
    else record_traffic decimal proxy_id application_id n_in n_out stats

-- `meteredTargetConn`, without the connection that it wraps. `done` tells that `once` has run.
pub record Meter : Type 0 where
  pub proxy_id : ℕ
  pub application_id : ℕ
  pub bytes_in : ℕ
  pub bytes_out : ℕ
  pub done : Bool

-- `TargetConn`: `none` where the connection is handed back as it is.
unfoldable pub target_conn : Bool → Bool → ℕ → ℕ → Option Meter
target_conn has_conn has_recorder proxy_id application_id =
    if not has_conn || not has_recorder || proxy_id == 0 || application_id == 0
    then none
    else some (record {
      proxy_id = proxy_id;
      application_id = application_id;
      bytes_in = 0;
      bytes_out = 0;
      done = false;
    })

-- A call of the recorder, with the bytes of the call.
abbrev pub Delta : Type 0
Delta = Option TrafficStats

-- `flush`. Its two swaps and the call of the recorder are taken as one step: what is added in between
-- is left for the next one, and no other step sees the counters cleared before the recorder has them.
unfoldable pub flush : Meter → Meter × Delta
flush m = (
  record m { bytes_in = 0; bytes_out = 0 },
  (if m.bytes_in == 0 && m.bytes_out == 0
      then none
      else some (record {
        proxy_id = m.proxy_id;
        application_id = m.application_id;
        bytes_in = m.bytes_in;
        bytes_out = m.bytes_out;
      })),
)

abbrev pub flush_if : Bool → Meter → Meter × Delta
flush_if failed m = if failed then flush m else (m, none)

-- `Read`, where the connection has read `n` bytes, and has failed or not.
unfoldable pub read : ℕ → Bool → Meter → Meter × Delta
read n failed m =
    flush_if failed (if ltb 0 n then record m { bytes_out = add64 m.bytes_out n } else m)

-- `Write`.
unfoldable pub write : ℕ → Bool → Meter → Meter × Delta
write n failed m =
    flush_if failed (if ltb 0 n then record m { bytes_in = add64 m.bytes_in n } else m)

-- `Close`. A recorder that is a function, as the gatekeeper's, is no `Flusher`.
unfoldable pub close : Meter → Meter × Delta
close m = if m.done then (m, none) else flush (record m { done = true })
