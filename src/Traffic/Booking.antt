-- ===== src/Traffic/Booking.antt =====
-- What one call of `RecordTraffic` or `recordTraffic` adds to the counters
-- (traffic/traffic_collector.go, pkg/entry/transport/gatekeeper.go).
use liaison.Base.{
  ℕ, ◌+◌, ◌%◌, ◌^◌, String, ◌≡◌, refl, ◌&&◌, arith, sym, if_rule, Option-cases, inl, inr,
}
use liaison.Base.Eq.{◌==◌, string_eq, nat_eq}
use liaison.Base.Table.{Table, get, put, values}
use liaison.Traffic.{TrafficStats, traffic_key, record_traffic, gate_record_traffic, grown}
use liaison.Traffic.Keys.{IsDecimal, IsBooked, traffic_key_inj, get-IsBooked}
use liaison.Traffic.Sums.{Direction, inward, outward, sum, weight_at, sum-put, bytes_of}

abbrev pub delta : ℕ → ℕ → ℕ → ℕ → TrafficStats
delta p a n_in n_out = record {
  proxy_id = p;
  application_id = a;
  bytes_in = n_in;
  bytes_out = n_out;
}

grown_bytes :
    (d : Direction) (q b p a n_in n_out : ℕ) (s : TrafficStats)
    → s.proxy_id ≡ p
    → s.application_id ≡ a
    → bytes_of d q b (grown n_in n_out s) % 2 ^ 64
      ≡ (bytes_of d q b s + bytes_of d q b (delta p a n_in n_out)) % 2 ^ 64
unfolding bytes_of
grown_bytes inward q b p a n_in n_out s same_p same_a = ground arith
grown_bytes outward q b p a n_in n_out s same_p same_a = ground arith

nothing_in : (d : Direction) (q b p a : ℕ) → bytes_of d q b (delta p a 0 0) ≡ 0
unfolding bytes_of
nothing_in inward q b p a = ground arith
nothing_in outward q b p a = ground arith

module _ (decimal : ℕ → String) (sound : IsDecimal decimal) (d : Direction) (q b : ℕ) where
  -- The record that grows is the one under the key, or a new one, and of the right pair.
  put_adds :
      (p a n_in n_out : ℕ) (key : String) (s : TrafficStats) (t : Table String TrafficStats)
      → s.proxy_id ≡ p
      → s.application_id ≡ a
      → weight_at (bytes_of d q b) (get key t) ≡ bytes_of d q b s
      → sum (bytes_of d q b) (values (put key (grown n_in n_out s) t)) % 2 ^ 64
        ≡ (sum (bytes_of d q b) (values t) + bytes_of d q b (delta p a n_in n_out)) % 2 ^ 64
  put_adds p a n_in n_out key s t same_p same_a same = omega (
    arith,
    same,
    sum-put (bytes_of d q b) key (grown n_in n_out s) t,
    grown_bytes d q b p a n_in n_out s same_p same_a,
  )

  pub record_traffic_adds :
      (p a n_in n_out : ℕ) (t : Table String TrafficStats)
      → IsBooked decimal t
      → sum (bytes_of d q b) (values (record_traffic decimal p a n_in n_out t)) % 2 ^ 64
        ≡ (sum (bytes_of d q b) (values t) + bytes_of d q b (delta p a n_in n_out)) % 2 ^ 64
  unfolding record_traffic
  record_traffic_adds p a n_in n_out t booked =
      let key = traffic_key decimal p a in
      elim (Option-cases (get key t)) [
        | inl n ↦ rw n (
            put_adds p a n_in n_out key (delta p a 0 0) t refl refl
              (rw n (sym (nothing_in d q b p a))))
        | inr (s, n) ↦
            let (same_p, same_a) =
              traffic_key_inj decimal sound p a s.proxy_id s.application_id
                (get-IsBooked decimal key s t booked n) in
            rw n (put_adds p a n_in n_out key s t (sym same_p) (sym same_a) (rw n refl))
      ]

  pub gate_record_traffic_adds :
      (p a n_in n_out : ℕ) (t : Table String TrafficStats)
      → IsBooked decimal t
      → sum (bytes_of d q b) (values (gate_record_traffic decimal p a n_in n_out t)) % 2 ^ 64
        ≡ (sum (bytes_of d q b) (values t) + bytes_of d q b (delta p a n_in n_out)) % 2 ^ 64
  unfolding gate_record_traffic
  gate_record_traffic_adds p a n_in n_out t booked =
      if_rule
        (λ r.
          sum (bytes_of d q b) (values r) % 2 ^ 64
          ≡ (sum (bytes_of d q b) (values t) + bytes_of d q b (delta p a n_in n_out)) % 2 ^ 64)
        (n_in == 0 && n_out == 0) t (record_traffic decimal p a n_in n_out t)
        (λ none_there.
          let no_in : n_in ≡ 0 = ground arith in
          let no_out : n_out ≡ 0 = ground arith in
          rw no_in (rw no_out (omega (arith, nothing_in d q b p a))))
        λ _. record_traffic_adds p a n_in n_out t booked
