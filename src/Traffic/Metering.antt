-- ===== src/Traffic/Metering.antt =====
-- What a connection's counters and its call of the recorder hold together
-- (pkg/trafficconn/trafficconn.go).
use liaison.Base.{
  ℕ, ◌+◌, ◌%◌, ◌^◌, ◌≡◌, Bool, true, false, ◌&&◌, none, some, arith, ltb, if◌then◌else◌, if_rule,
}
use liaison.Base.Eq.{◌==◌, nat_eq}
use liaison.Traffic.{Meter, Delta, flush, flush_if, read, write, close, add64}
use liaison.Traffic.Sums.{Direction, inward, outward, weight_at, stats_of, bytes_of}
use liaison.Traffic.Booking.{delta}

module _ (d : Direction) (p a : ℕ) where
  abbrev pub metered : Meter → ℕ
  metered m = bytes_of d p a (stats_of m)

  -- What is in the counters and in the call afterwards.
  abbrev pub left_and_sent : Meter × Delta → ℕ
  left_and_sent o = metered o.0 + weight_at (bytes_of d p a) o.1

  flush_left : (m : Meter) → metered (flush m).0 ≡ 0
  unfolding bytes_of flush
  flush_left m = bytes_zero d
    where
      bytes_zero :
          (d : Direction) → bytes_of d p a (stats_of (record m { bytes_in = 0; bytes_out = 0 })) ≡ 0
      bytes_zero inward = ground arith
      bytes_zero outward = ground arith

  pub nothing_metered :
      (d : Direction) (m : Meter)
      → m.bytes_in ≡ 0
      → m.bytes_out ≡ 0
      → bytes_of d p a (stats_of m) ≡ 0
  unfolding bytes_of
  nothing_metered inward m h k = ground arith
  nothing_metered outward m h k = ground arith

  pub flush_keeps : (m : Meter) → left_and_sent (flush m) ≡ metered m
  unfolding flush
  flush_keeps m =
      if_rule (λ o. metered (flush m).0 + weight_at (bytes_of d p a) o ≡ metered m)
        (m.bytes_in == 0 && m.bytes_out == 0) none (some (stats_of m))
        (λ empty. omega (arith, flush_left m, nothing_metered d m (ground arith) (ground arith)))
        λ _. omega (arith, flush_left m)

  flush_if_keeps : (failed : Bool) (m : Meter) → left_and_sent (flush_if failed m) ≡ metered m
  flush_if_keeps true m = flush_keeps m
  flush_if_keeps false m = omega arith

  pub close_keeps : (m : Meter) → left_and_sent (close m) ≡ metered m
  unfolding close
  close_keeps m =
      if_rule (λ o. left_and_sent o ≡ metered m) m.done (m, none) (flush (record m { done = true }))
        (λ _. omega arith) λ _. flush_keeps (record m { done = true })

  out_grows :
      (d : Direction) (n : ℕ) (m : Meter)
      → bytes_of d p a
            (stats_of (if ltb 0 n then record m { bytes_out = add64 m.bytes_out n } else m))
          % 2 ^ 64
        ≡ (bytes_of d p a (stats_of m) + bytes_of d p a (delta m.proxy_id m.application_id 0 n))
          % 2 ^ 64
  unfolding bytes_of
  out_grows inward n m = ground arith
  out_grows outward n m = ground arith

  pub read_adds :
      (n : ℕ) (failed : Bool) (m : Meter)
      → left_and_sent (read n failed m) % 2 ^ 64
        ≡ (metered m + bytes_of d p a (delta m.proxy_id m.application_id 0 n)) % 2 ^ 64
  unfolding read
  read_adds n failed m =
      let m' : Meter = if ltb 0 n then record m { bytes_out = add64 m.bytes_out n } else m in
      rw (flush_if_keeps failed m') (out_grows d n m)

  in_grows :
      (d : Direction) (n : ℕ) (m : Meter)
      → bytes_of d p a
            (stats_of (if ltb 0 n then record m { bytes_in = add64 m.bytes_in n } else m))
          % 2 ^ 64
        ≡ (bytes_of d p a (stats_of m) + bytes_of d p a (delta m.proxy_id m.application_id n 0))
          % 2 ^ 64
  unfolding bytes_of
  in_grows inward n m = ground arith
  in_grows outward n m = ground arith

  pub write_adds :
      (n : ℕ) (failed : Bool) (m : Meter)
      → left_and_sent (write n failed m) % 2 ^ 64
        ≡ (metered m + bytes_of d p a (delta m.proxy_id m.application_id n 0)) % 2 ^ 64
  unfolding write
  write_adds n failed m =
      let m' : Meter = if ltb 0 n then record m { bytes_in = add64 m.bytes_in n } else m in
      rw (flush_if_keeps failed m') (in_grows d n m)
