-- ===== src/Base/Exec/Rules.antt =====
-- Case rules for handlers: one for each way in which a handler's next step may end it.
-- `Q` speaks of the result and the state together.
use mathlib.Core.Path.{◌≡◌, refl}
use mathlib.Core.Bool.{Bool, true, false}
use mathlib.Core.Option.{Option, none, some}
use liaison.Base.Exec.{Result, ok, err, Exec, or_fail, fail_if, lift, continue, ◌>>=◌, ◌>>◌}

module _ {ℓ κ} {S E B : Type ℓ} (Q : Result E B × S → Type κ) {s : S} where
  pub fail_if_rule :
      (b : Bool) {e : E} (m : Exec S E B)
      → Q (err e, s)
      → (b ≡ false → Q (m s))
      → Q ((fail_if b e >>= λ _. m) s)
  fail_if_rule true m refused done = refused
  fail_if_rule false m refused done = done refl

  pub or_fail_rule :
      {A : Type ℓ} (o : Option A) {e : E} (f : A → Exec S E B)
      → Q (err e, s)
      → ((a : A) → o ≡ some a → Q (f a s))
      → Q ((or_fail o e >>= f) s)
  or_fail_rule none f refused done = refused
  or_fail_rule (some a) f refused done = done a refl

  pub lift_rule :
      {A : Type ℓ} (r : Result E A) (f : A → Exec S E B)
      → ((x : E) → Q (err x, s))
      → ((a : A) → r ≡ ok a → Q (f a s))
      → Q ((lift r >>= f) s)
  lift_rule (ok a) f refused done = done a refl
  lift_rule (err x) f refused done = refused x

-- A step that succeeds leaves the rest to do, on the state that it has made.
pub then_lem {ℓ} :
    {S E A B : Type ℓ} (m : Exec S E A) (n : Exec S E B) (s : S) {a : A}
    → (m s).0 ≡ ok a
    → (m >> n) s ≡ n (m s).1
then_lem m n s h = rw h refl

-- What every outcome of an action keeps of the state.
abbrev pub Keeps {ℓ κ} : {S E A : Type ℓ} → (S → Type κ) → Exec S E A → Type (ℓ ⊔ κ)
Keeps Q m = (s : _) → Q s → Q (m s).1

module _ {ℓ κ} {S E : Type ℓ} (Q : S → Type κ) where
  pub bind-Keeps :
      {A B : Type ℓ} (m : Exec S E A) (f : A → Exec S E B)
      → Keeps Q m
      → ((a : A) → Keeps Q (f a))
      → Keeps Q (m >>= f)
  bind-Keeps m f kept after s q = go (m s).0 (m s).1 (kept s q)
    where
      go : (r : Result E _) (s' : S) → Q s' → Q (continue r f s').1
      go (ok a) s' q' = after a s' q'
      go (err x) s' q' = q'

  pub then-Keeps :
      {A B : Type ℓ} (m : Exec S E A) (n : Exec S E B) → Keeps Q m → Keeps Q n → Keeps Q (m >> n)
  then-Keeps m n kept after = bind-Keeps m (λ _. n) kept λ _. after

  pub fail_if-Keeps : (b : Bool) (x : E) → Keeps Q (fail_if b x)
  fail_if-Keeps true x s q = q
  fail_if-Keeps false x s q = q
