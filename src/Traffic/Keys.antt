-- ===== src/Traffic/Keys.antt =====
-- The keys of the counters name a proxy and an application (`trafficKey` of
-- traffic/traffic_collector.go, and the same in pkg/entry/transport/gatekeeper.go).
use text.Mathlib.TextEquality.{eq_iff}
use liaison.Base.{
  ℕ, String, ◌≡◌, refl, true, ◌&&◌, some, [], ◌∷◌, arith, if_rule, Option-cases, inl, inr,
}
use liaison.Base.Eq.{◌==◌, string_eq, nat_eq}
use liaison.Base.Every.{Every}
use liaison.Base.Table.{Table, get, put}
use liaison.Agent.Tool.Names.{split}
use liaison.Agent.Tool.Names.Splitting.{is_free, split-join}
use liaison.Traffic.{
  TrafficStats, traffic_key, record_traffic, gate_record_traffic, found_or_new, grown,
}

-- What fmt's `%d` does: a numeral has no colon, and distinct numbers have distinct numerals.
pub record IsDecimal (decimal : ℕ → String) : Type 0 where
  pub no_colon : (n : ℕ) → is_free b':' (decimal n) ≡ true
  pub apart : (m n : ℕ) → decimal m ≡ decimal n → m ≡ n

key_parts :
    (decimal : ℕ → String)
    → IsDecimal decimal
    → (p a : ℕ) → split b':' (traffic_key decimal p a) ≡ decimal p ∷ decimal a ∷ []
unfolding traffic_key
key_parts decimal d p a = split-join ":" (decimal p) (decimal a) (d.no_colon p) (d.no_colon a)

-- Two pairs of a proxy and an application never share a key.
pub traffic_key_inj :
    (decimal : ℕ → String)
    → IsDecimal decimal
    → (p a q b : ℕ) → traffic_key decimal p a ≡ traffic_key decimal q b
    → (p ≡ q) × (a ≡ b)
traffic_key_inj decimal d p a q b same =
    let left = key_parts decimal d p a in
    let right = key_parts decimal d q b in
    (d.apart p q (cc (left, right, same)), d.apart a b (cc (left, right, same)))

module _ (decimal : ℕ → String) where
  -- Each record stands under the key of its proxy and application.
  abbrev pub IsBooked : Table String TrafficStats → Type 0
  IsBooked = Every (λ row. row.0 ≡ traffic_key decimal row.1.proxy_id row.1.application_id)

  put-IsBooked :
      (k : String) (s : TrafficStats) (t : Table String TrafficStats)
      → k ≡ traffic_key decimal s.proxy_id s.application_id
      → IsBooked t
      → IsBooked (put k s t)
  unfolding put
  put-IsBooked k s [] h b = (h, tt)
  put-IsBooked k s ((j, w) ∷ t) h b =
      if_rule IsBooked (j == k) _ _ (λ _. (h, b.1)) λ _. (b.0, put-IsBooked k s t h b.1)

  pub get-IsBooked :
      (k : String) (s : TrafficStats) (t : Table String TrafficStats)
      → IsBooked t
      → get k t ≡ some s
      → k ≡ traffic_key decimal s.proxy_id s.application_id
  unfolding get
  get-IsBooked k s [] b h = absurd cc
  get-IsBooked k s ((j, w) ∷ t) b h =
      if_rule (λ o. o ≡ some s → k ≡ traffic_key decimal s.proxy_id s.application_id) (j == k) _ _
        (λ here h. ground (arith, eq_iff j k, b.0)) (λ _ h. get-IsBooked k s t b.1 h) h

  pub record_traffic-IsBooked :
      (p a n_in n_out : ℕ) (t : Table String TrafficStats)
      → IsBooked t
      → IsBooked (record_traffic decimal p a n_in n_out t)
  unfolding record_traffic
  record_traffic-IsBooked p a n_in n_out t b =
      let key = traffic_key decimal p a in
      put-IsBooked key (grown n_in n_out (found_or_new p a (get key t))) t
        (elim (Option-cases (get key t)) [
          | inl n ↦ rw n refl
          | inr (s, n) ↦ rw n (get-IsBooked key s t b n)
        ])
        b

  pub gate_record_traffic-IsBooked :
      (p a n_in n_out : ℕ) (t : Table String TrafficStats)
      → IsBooked t
      → IsBooked (gate_record_traffic decimal p a n_in n_out t)
  unfolding gate_record_traffic
  gate_record_traffic-IsBooked p a n_in n_out t b =
      if_rule IsBooked (n_in == 0 && n_out == 0) _ _ (λ _. b)
        λ _. record_traffic-IsBooked p a n_in n_out t b
