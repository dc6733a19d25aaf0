-- ===== src/Agent/Tool/Names/Splitting.antt =====
-- `strings.Split` at a character (tool/types.go): what it makes of a text put together, and back.
use Prim.Native.Char.{Char, code}
use Prim.Native.String as Native
use Prim.Native.String.append
use Prim.Native.String.{◌++◌}
use text.Mathlib.TextLemmas.{append-nil}
use text.Mathlib.TextEquality.{Char-path}
use liaison.Base.{
  ℕ, String, ◌≡◌, refl, Bool, true, false, not, ◌&&◌, List, [], ◌∷◌, arith, Bool-cases, inl, inr,
}
use liaison.Base.Tests.{nat_beq_iff}
use liaison.Agent.Tool.Names.{split, all_chars, is_code}

-- The text has no character of this number.
abbrev pub is_free : ℕ → String → Bool
is_free at s = all_chars (λ c. not (is_code at c)) s

-- The character ends a part that is empty so far.
split_here :
    (at : ℕ) (c : Char) (s : String)
    → is_code at c ≡ true
    → split at (Native.◌∷◌ c s) ≡ Native.[] ∷ split at s
unfolding split
split_here at c s here = rw here refl

-- Any other character comes in front of the first part.
split_away :
    (at : ℕ) (c : Char) (s : String) {p : String} {ps : List String}
    → is_code at c ≡ false
    → split at s ≡ p ∷ ps
    → split at (Native.◌∷◌ c s) ≡ Native.◌∷◌ c p ∷ ps
unfolding split
split_away at c s away h = rw away (rw h refl)

-- There is always a first part.
split-cons : (at : ℕ) (s : String) → (p : String) × (ps : List String) × (split at s ≡ p ∷ ps)
unfolding split
split-cons at Native.[] = (Native.[], [], refl)
split-cons at (Native.◌∷◌ c s) =
    let (p, ps, h) = split-cons at s in
    elim (Bool-cases (is_code at c)) [
      | inl here ↦ (Native.[], split at s, split_here at c s here)
      | inr away ↦ (Native.◌∷◌ c p, ps, split_away at c s away h)
    ]

pub split_free : (at : ℕ) (s : String) → is_free at s ≡ true → split at s ≡ s ∷ []
unfolding split all_chars
split_free at Native.[] h = refl
split_free at (Native.◌∷◌ c s) h = ground (arith, split_free at s)

-- A text without the character becomes part of the first part of what follows.
pub split-append_free :
    (at : ℕ) (s t p : String) (ps : List String)
    → is_free at s ≡ true
    → split at t ≡ p ∷ ps
    → split at (s ++ t) ≡ (s ++ p) ∷ ps
unfolding all_chars
split-append_free at Native.[] t p ps free h = rw append.nil (rw append.nil h)
split-append_free at (Native.◌∷◌ c s) t p ps free h = rw append.cons (
    rw append.cons
      (split_away at c (s ++ t) (ground arith) (split-append_free at s t p ps (ground arith) h)))

-- The character itself ends the first part.
pub split_sep :
    (c : Char) (t : String)
    → split (code c) (Native.◌∷◌ c Native.[] ++ t) ≡ Native.[] ∷ split (code c) t
split_sep c t =
    rw append.cons
      (rw append.nil (split_here (code c) c t (ground (arith, nat_beq_iff (code c) (code c)))))

-- Two texts without the character, and the character between them.
pub split-join :
    (c : Char) (a b : String)
    → is_free (code c) a ≡ true
    → is_free (code c) b ≡ true
    → split (code c) (a ++ (Native.◌∷◌ c Native.[] ++ b)) ≡ a ∷ b ∷ []
split-join c a b free_a free_b =
    let tail : split (code c) (Native.◌∷◌ c Native.[] ++ b) ≡ Native.[] ∷ b ∷ [] =
      rw split_sep (rw (split_free (code c) b free_b) refl) in
    let whole = split-append_free (code c) a (Native.◌∷◌ c Native.[] ++ b) _ _ free_a tail in
    cc (whole, append-nil a)

pub all_chars-append :
    (p : Char → Bool) (s t : String) → all_chars p (s ++ t) ≡ (all_chars p s && all_chars p t)
unfolding all_chars
all_chars-append p Native.[] t = rw append.nil refl
all_chars-append p (Native.◌∷◌ c s) t = rw append.cons (ground (arith, all_chars-append p s t))

-- A single part is the text.
split_one : (at : ℕ) (s a : String) → split at s ≡ a ∷ [] → s ≡ a
unfolding split
split_one at Native.[] a h = cc
split_one at (Native.◌∷◌ c s) a h =
    let (p, ps, e) = split-cons at s in
    elim (Bool-cases (is_code at c)) [
      | inl here ↦ absurd (cc (h, e, split_here at c s here))
      | inr away ↦
          let first = split_away at c s away e in
          let same : s ≡ p = split_one at s p (cc (h, first, e)) in cc (h, first, same)
    ]

-- Two parts and the character between them are the text.
pub split_two :
    (d : Char) (s a b : String)
    → split (code d) s ≡ a ∷ b ∷ []
    → s ≡ a ++ (Native.◌∷◌ d Native.[] ++ b)
unfolding split
split_two d Native.[] a b h = absurd cc
split_two d (Native.◌∷◌ c s) a b h =
    let (p, ps, e) = split-cons (code d) s in
    elim (Bool-cases (is_code (code d) c)) [
      | inl here ↦
          let first = split_here (code d) c s here in
          let rest : s ≡ b = split_one (code d) s b (cc (h, first)) in
          let same : c ≡ d = Char-path c d (ground arith) in
          let empty : a ≡ Native.[] = cc (h, first) in
          rw empty (rw append.nil (rw append.cons (rw append.nil (cc (rest, same)))))
      | inr away ↦
          let first = split_away (code d) c s away e in
          let front : a ≡ Native.◌∷◌ c p = cc (h, first) in
          let rest : s ≡ p ++ (Native.◌∷◌ d Native.[] ++ b) =
            split_two d s p b (cc (h, first, e)) in
          rw front (rw append.cons (cc rest))
    ]
