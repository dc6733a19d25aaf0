-- ===== src/Base/Every.antt =====
-- What holds of every element of a list.
use mathlib.Core.Bool.{Bool}
use mathlib.Core.List.{List, [], ◌∷◌, ◌++◌, map}
use liaison.Base.Tests.{if_rule}
use liaison.Base.Sort.{insert_by, sort_by}

module _ {ℓ κ} {A : Type ℓ} where
  abbrev pub Every : (A → Type κ) → List A → Type κ
  Every P [] = Unit
  Every P (x ∷ xs) = P x × Every P xs

  pub Every-concat :
      (P : A → Type κ) (xs : List A) (y : A) → Every P xs → P y → Every P (xs ++ y ∷ [])
  Every-concat P [] y h p = (p, tt)
  Every-concat P (x ∷ xs) y h p = (h.0, Every-concat P xs y h.1 p)

  pub Every-append :
      (P : A → Type κ) (xs ys : List A) → Every P xs → Every P ys → Every P (xs ++ ys)
  Every-append P [] ys h k = k
  Every-append P (x ∷ xs) ys h k = (h.0, Every-append P xs ys h.1 k)

  pub Every-intro : (P : A → Type κ) → ((x : A) → P x) → (xs : List A) → Every P xs
  Every-intro P f [] = tt
  Every-intro P f (x ∷ xs) = (f x, Every-intro P f xs)

module _ {ℓ κ} {A : Type ℓ} (P : A → Type κ) (less : A → A → Bool) where
  Every-insert_by : (x : A) (xs : List A) → P x → Every P xs → Every P (insert_by less x xs)
  unfolding insert_by
  Every-insert_by x [] p h = (p, tt)
  Every-insert_by x (y ∷ ys) p h =
      if_rule (Every P) (less x y) _ _ (λ _. (p, h)) λ _. (h.0, Every-insert_by x ys p h.1)

  pub Every-sort_by : (xs : List A) → Every P xs → Every P (sort_by less xs)
  unfolding sort_by
  Every-sort_by [] h = tt
  Every-sort_by (x ∷ xs) h = Every-insert_by x (sort_by less xs) h.0 (Every-sort_by xs h.1)

pub Every-mono {ℓ κ μ} :
    {A : Type ℓ} (P : A → Type κ) (Q : A → Type μ)
    → ((x : A) → P x → Q x)
    → (xs : List A) → Every P xs
    → Every Q xs
Every-mono P Q f [] h = tt
Every-mono P Q f (x ∷ xs) h = (f x h.0, Every-mono P Q f xs h.1)

pub Every-map {ℓ κ μ} :
    {A : Type ℓ} {B : Type μ} (P : B → Type κ) (f : A → B) (xs : List A)
    → Every (λ x. P (f x)) xs
    → Every P (map f xs)
Every-map P f [] h = tt
Every-map P f (x ∷ xs) h = (h.0, Every-map P f xs h.1)
