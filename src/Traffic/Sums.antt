-- ===== src/Traffic/Sums.antt =====
-- How many bytes of one proxy and application, in one direction, a list or a table of counters has.
use liaison.Base.{ℕ, ◌+◌, ◌≡◌, ◌&&◌, Option, none, some, List, [], ◌∷◌, ◌++◌, arith, if◌then◌else◌}
use liaison.Base.Eq.{Comparable, ◌==◌, nat_eq}
use liaison.Base.Table.{Table, get, put, values}
use liaison.Traffic.{TrafficStats, Meter}

module _ {ℓ} {A : Type ℓ} (weight : A → ℕ) where
  abbrev pub sum : List A → ℕ
  sum [] = 0
  sum (x ∷ xs) = weight x + sum xs

  pub sum-append : (xs ys : List A) → sum (xs ++ ys) ≡ sum xs + sum ys
  sum-append [] ys = omega arith
  sum-append (x ∷ xs) ys = omega (arith, sum-append xs ys)

  abbrev pub weight_at : Option A → ℕ
  weight_at none = 0
  weight_at (some x) = weight x

-- A row that is written takes the place of the one that was there.
pub sum-put {ℓ κ} :
    {K : Type ℓ} {V : Type κ} ⦃e : Comparable K⦄ (weight : V → ℕ) (k : K) (v : V) (t : Table K V)
    → sum weight (values (put k v t)) + weight_at weight (get k t)
      ≡ sum weight (values t) + weight v
unfolding put get
sum-put weight k v [] = omega arith
sum-put weight k v ((j, w) ∷ t) = ground (arith, sum-put weight k v t)

pub data Direction : Type 0 where
  inward outward : Direction

abbrev pub bytes : Direction → TrafficStats → ℕ
bytes inward s = s.bytes_in
bytes outward s = s.bytes_out

abbrev pub stats_of : Meter → TrafficStats
stats_of m = record {
  proxy_id = m.proxy_id;
  application_id = m.application_id;
  bytes_in = m.bytes_in;
  bytes_out = m.bytes_out;
}

-- The bytes of a record, if it is of this proxy and application.
unfoldable pub bytes_of : Direction → ℕ → ℕ → TrafficStats → ℕ
bytes_of d p a s = if s.proxy_id == p && s.application_id == a then bytes d s else 0
