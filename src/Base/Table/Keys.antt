-- ===== src/Base/Table/Keys.antt =====
-- Tables in which a key stands once, as in Go's maps.
use mathlib.Core.Path.{◌≡◌, refl}
use mathlib.Core.Option.{none, some}
use mathlib.Core.List.{[], ◌∷◌}
use native.Mathlib.Omega.{arith}
use liaison.Base.Tests.{if_rule}
use liaison.Base.Eq.{Comparable, ◌==◌}
use liaison.Base.Every.{Every, Every-mono}
use liaison.Base.Table.{Table, get, put, remove, get-put, get-remove}

module _ {ℓ κ} {K : Type ℓ} {V : Type κ} ⦃e : Comparable K⦄ where
  abbrev pub IsMap : Table K V → Type (ℓ ⊔ κ)
  IsMap [] = Unit
  IsMap ((k, v) ∷ t) = (get k t ≡ none) × IsMap t

  pub put-IsMap : (k : K) (v : V) (t : Table K V) → IsMap t → IsMap (put k v t)
  unfolding put get
  put-IsMap k v [] h = (refl, tt)
  put-IsMap k v ((j, w) ∷ t) h =
      if_rule IsMap (j == k) ((k, v) ∷ t) ((j, w) ∷ put k v t)
        (λ same. (ground (arith, e.same_iff j k, h.0), h.1))
        λ other. (
          ground (arith, get-put k j v t, e.same_iff j k, e.same_iff k j, h.0),
          put-IsMap k v t h.1,
        )

  pub remove-IsMap : (k : K) (t : Table K V) → IsMap t → IsMap (remove k t)
  unfolding remove get
  remove-IsMap k [] h = tt
  remove-IsMap k ((j, w) ∷ t) h =
      if_rule IsMap (j == k) (remove k t) ((j, w) ∷ remove k t) (λ _. remove-IsMap k t h.1)
        λ other. (ground (arith, get-remove k j t, e.same_iff k j, h.0), remove-IsMap k t h.1)

  -- Each row is what a lookup of its key finds.
  pub rows_found : (t : Table K V) → IsMap t → Every (λ row. get row.0 t ≡ some row.1) t
  unfolding get
  rows_found [] h = tt
  rows_found ((k, v) ∷ t) h = (
    ground (arith, e.same_iff k k),
    Every-mono _ (λ row. get row.0 ((k, v) ∷ t) ≡ some row.1)
        (λ row found. ground (arith, e.same_iff k row.0, h.0)) t (rows_found t h.1),
  )
