-- ===== src/Base/Table.antt =====
-- Go's maps: finite tables over a key with decidable equality. `values` is one iteration order.
pub mod Keys
pub mod Rows
use mathlib.Core.Path.{◌≡◌, refl}
use mathlib.Core.Bool.{false}
use mathlib.Core.Option.{Option, none, some}
use mathlib.Core.List.{List, [], ◌∷◌, map}
use native.Mathlib.Omega.{arith}
use liaison.Base.Tests.{if◌then◌else◌}
use liaison.Base.Eq.{Comparable, ◌==◌}

abbrev pub Table {ℓ κ} : Type ℓ → Type κ → Type (ℓ ⊔ κ)
Table K V = List (K × V)

module _ {ℓ κ} {K : Type ℓ} {V : Type κ} ⦃e : Comparable K⦄ where
  unfoldable pub get : K → Table K V → Option V
  get k [] = none
  get k ((j, v) ∷ t) = if j == k then some v else get k t

  unfoldable pub put : K → V → Table K V → Table K V
  put k v [] = (k, v) ∷ []
  put k v ((j, w) ∷ t) = if j == k then (k, v) ∷ t else (j, w) ∷ put k v t

  unfoldable pub remove : K → Table K V → Table K V
  remove k [] = []
  remove k ((j, v) ∷ t) = let rest = remove k t in if j == k then rest else (j, v) ∷ rest

  pub get-put :
      (k j : K) (v : V) (t : Table K V) → get j (put k v t) ≡ (if k == j then some v else get j t)
  unfolding get put
  get-put k j v [] = refl
  get-put k j v ((i, w) ∷ t) =
      ground (arith, e.same_iff k j, e.same_iff i k, e.same_iff i j, get-put k j v t)

  pub get-remove :
      (k j : K) (t : Table K V) → get j (remove k t) ≡ (if k == j then none else get j t)
  unfolding get remove
  get-remove k j [] = ground arith
  get-remove k j ((i, v) ∷ t) =
      ground (arith, e.same_iff k j, e.same_iff i k, e.same_iff i j, get-remove k j t)

  pub get-put_self : (k : K) (v : V) (t : Table K V) → get k (put k v t) ≡ some v
  get-put_self k v t = ground (arith, get-put k k v t, e.same_iff k k)

  pub get-put_ne :
      (k j : K) (v : V) (t : Table K V) → (k == j) ≡ false → get j (put k v t) ≡ get j t
  get-put_ne k j v t h = ground (arith, get-put k j v t)

module _ {ℓ κ} {K : Type ℓ} {V : Type κ} where
  abbrev pub values : Table K V → List V
  values = map (λ p. p.1)
