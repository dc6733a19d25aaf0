-- ===== src/Base/Table/Rows.antt =====
-- What holds of every value of a table, after each operation on it.
use mathlib.Core.Path.{◌≡◌, sym}
use mathlib.Core.Option.{some}
use mathlib.Core.List.{[], ◌∷◌}
use liaison.Base.Tests.{if_rule}
use liaison.Base.Eq.{Comparable, ◌==◌}
use liaison.Base.Every.{Every}
use liaison.Base.Table.{Table, get, put, remove}

module _ {ℓ κ} {K : Type ℓ} {V : Type κ} ⦃e : Comparable K⦄ (P : V → Type 0) where
  abbrev pub Rows : Table K V → Type 0
  Rows = Every (λ row. P row.1)

  pub put-Rows : (k : K) (v : V) (t : Table K V) → P v → Rows t → Rows (put k v t)
  unfolding put
  put-Rows k v [] p h = (p, tt)
  put-Rows k v ((j, w) ∷ t) p h =
      if_rule Rows (j == k) ((k, v) ∷ t) ((j, w) ∷ put k v t) (λ _. (p, h.1))
        λ _. (h.0, put-Rows k v t p h.1)

  pub remove-Rows : (k : K) (t : Table K V) → Rows t → Rows (remove k t)
  unfolding remove
  remove-Rows k [] h = tt
  remove-Rows k ((j, w) ∷ t) h =
      if_rule Rows (j == k) (remove k t) ((j, w) ∷ remove k t) (λ _. remove-Rows k t h.1)
        λ _. (h.0, remove-Rows k t h.1)

  pub get-Rows : (k : K) (v : V) (t : Table K V) → Rows t → get k t ≡ some v → P v
  unfolding get
  get-Rows k v [] h = λ at. absurd cc
  get-Rows k v ((j, w) ∷ t) h =
      if_rule (λ o. o ≡ some v → P v) (j == k) (some w) (get k t)
        (λ _ at. let same : w ≡ v = cc in rw (sym same) h.0) λ _. get-Rows k v t h.1
