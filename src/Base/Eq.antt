-- ===== src/Base/Eq.antt =====
-- Go's `==` on the keys of maps, as an interface, for numbers and texts.
use Prim.Native.Nat.{ℕ}
use Prim.Native.String.{String}
use mathlib.Core.Path.{◌≡◌}
use mathlib.Core.Logic.{◌↔◌}
use mathlib.Core.Bool.{Bool, true}
use text.Mathlib.Text
use text.Mathlib.TextEquality.{eq_iff}
use liaison.Base.Tests.{nat_beq, nat_beq_iff}

-- The test decides equality.
pub record Comparable {ℓ} (K : Type ℓ) : Type ℓ where
  pub is_same : K → K → Bool
  pub same_iff : (k j : K) → (is_same k j ≡ true) ↔ (k ≡ j)

instance abbrev pub string_eq : Comparable String
string_eq = record { is_same = Text.◌==◌; same_iff = eq_iff }

instance abbrev pub nat_eq : Comparable ℕ
nat_eq = record { is_same = nat_beq; same_iff = nat_beq_iff }

module _ {ℓ} {K : Type ℓ} ⦃c : Comparable K⦄ where
  infix 50 ◌==◌
  abbrev pub ◌==◌ : K → K → Bool
  k == j = c.is_same k j
