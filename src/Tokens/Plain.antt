-- ===== src/Tokens/Plain.antt =====
-- A new token has no white space, so `GetUserByPAT` reads what `CreatePAT` has shown
-- (pkg/liaison/manager/iam/pat.go).
use Prim.Native.Nat.{zero, suc}
use liaison.Base.{
  ℕ, ◌+◌, ◌*◌, ◌/◌, ◌<◌, ◌≡◌, refl, ap, ◌∙◌, Bool, true, false, List, [], ◌∷◌, ◌++◌, arith, if_rule,
}
use liaison.Base.Every.{Every, Every-append, Every-concat, Every-intro, Every-map, Every-mono}
use liaison.Base.Eq.{◌==◌, nat_eq}
use liaison.Base.Lists.{take}
use liaison.Tokens.{plaintext_of, pat_plaintext_prefix}
use liaison.Tokens.Text.{
  Bytes, width, drop_spaces, reverse, trim_space, drop_while, trim_right, lower, to_lower, letter,
  letters, pad, base32, has_prefix, same_bytes,
}

-- A visible character of one byte.
abbrev IsPlain : ℕ → Type 0
IsPlain b = (32 < b) × (b < 128)

width_plain : (swap : Bool) (b : ℕ) (s : Bytes) → IsPlain b → width swap b s ≡ 0
unfolding width
width_plain true b [] h = ground arith
width_plain true b (c ∷ []) h = ground arith
width_plain true b (c ∷ d ∷ s) h = ground arith
width_plain false b [] h = ground arith
width_plain false b (c ∷ []) h = ground arith
width_plain false b (c ∷ d ∷ s) h = ground arith

drop_spaces_plain : (swap : Bool) (s : Bytes) → Every IsPlain s → drop_spaces swap 0 s ≡ s
unfolding drop_spaces
drop_spaces_plain swap [] h = refl
drop_spaces_plain swap (b ∷ s) h = rw (width_plain swap b s h.0) refl

reverse-concat : (s : Bytes) (b : ℕ) → reverse (s ++ b ∷ []) ≡ b ∷ reverse s
unfolding reverse
reverse-concat [] b = refl
reverse-concat (c ∷ s) b = rw (reverse-concat s b) refl

reverse-reverse : (s : Bytes) → reverse (reverse s) ≡ s
unfolding reverse
reverse-reverse [] = refl
reverse-reverse (b ∷ s) = reverse-concat (reverse s) b ∙ ap (λ t. b ∷ t) (reverse-reverse s)

reverse-Every : (P : ℕ → Type 0) (s : Bytes) → Every P s → Every P (reverse s)
unfolding reverse
reverse-Every P [] h = tt
reverse-Every P (b ∷ s) h = Every-concat P (reverse s) b (reverse-Every P s h.1) h.0

trim_space_plain : (s : Bytes) → Every IsPlain s → trim_space s ≡ s
unfolding trim_space
trim_space_plain s h =
    rw (drop_spaces_plain false s h)
      (rw (drop_spaces_plain true (reverse s) (reverse-Every IsPlain s h)) (reverse-reverse s))

drop_while-Every :
    (P : ℕ → Type 0) (p : ℕ → Bool) (s : Bytes) → Every P s → Every P (drop_while p s)
unfolding drop_while
drop_while-Every P p [] h = tt
drop_while-Every P p (b ∷ s) h =
    if_rule (Every P) (p b) _ _ (λ _. drop_while-Every P p s h.1) λ _. h

trim_right-Every :
    (P : ℕ → Type 0) (p : ℕ → Bool) (s : Bytes) → Every P s → Every P (trim_right p s)
unfolding trim_right
trim_right-Every P p s h = reverse-Every P _ (drop_while-Every P p _ (reverse-Every P s h))

take-Every : (P : ℕ → Type 0) (n : ℕ) (s : Bytes) → Every P s → Every P (take n s)
unfolding take
take-Every P zero s h = tt
take-Every P (suc n) [] h = tt
take-Every P (suc n) (b ∷ s) h = (h.0, take-Every P n s h.1)

-- A letter of the encoding, or the sign.
abbrev IsLetter : ℕ → Type 0
IsLetter b = (32 < b) × (b < 91)

letter-IsLetter : (v : ℕ) → IsLetter (letter v)
letter-IsLetter v = ground arith

letters-IsLetter : (a b c d e : ℕ) → Every IsLetter (letters a b c d e)
letters-IsLetter a b c d e =
    let groups =
      (a / 8
        ∷ (a * 4 + b / 64)
        ∷ b / 2
        ∷ (b * 16 + c / 16)
        ∷ (c * 2 + d / 128)
        ∷ d / 4
        ∷ (d * 8 + e / 32)
        ∷ e
        ∷ []) in
    Every-map IsLetter letter groups (Every-intro (λ v. IsLetter (letter v)) letter-IsLetter groups)

pad-IsLetter : Every IsLetter pad
pad-IsLetter = ground arith

-- Some letters, and the signs for the others.
padded-IsLetter : (n m a b c d e : ℕ) → Every IsLetter (take n (letters a b c d e) ++ take m pad)
padded-IsLetter n m a b c d e =
    Every-append IsLetter _ _ (take-Every IsLetter n _ (letters-IsLetter a b c d e))
      (take-Every IsLetter m _ pad-IsLetter)

base32-IsLetter : (raw : List ℕ) → Every IsLetter (base32 raw)
unfolding base32
base32-IsLetter [] = tt
base32-IsLetter (a ∷ []) =
    Every-append IsLetter _ _ (take-Every IsLetter 2 _ (letters-IsLetter a 0 0 0 0)) pad-IsLetter
base32-IsLetter (a ∷ b ∷ []) = padded-IsLetter 4 4 a b 0 0 0
base32-IsLetter (a ∷ b ∷ c ∷ []) = padded-IsLetter 5 3 a b c 0 0
base32-IsLetter (a ∷ b ∷ c ∷ d ∷ []) = padded-IsLetter 7 1 a b c d 0
base32-IsLetter (a ∷ b ∷ c ∷ d ∷ e ∷ rest) =
    Every-append IsLetter (letters a b c d e) (base32 rest) (letters-IsLetter a b c d e)
      (base32-IsLetter rest)

lower-IsPlain : (b : ℕ) → IsLetter b → IsPlain (lower b)
lower-IsPlain b h = ground arith

prefix-IsPlain : Every IsPlain pat_plaintext_prefix
prefix-IsPlain = ground arith

plaintext-IsPlain : (raw : List ℕ) → Every IsPlain (plaintext_of raw)
plaintext-IsPlain raw =
    let letters_of = trim_right (λ b. b == b'=') (base32 raw) in
    Every-append IsPlain pat_plaintext_prefix (to_lower letters_of) prefix-IsPlain (
      Every-map IsPlain lower letters_of (
        Every-mono IsLetter (λ b. IsPlain (lower b)) lower-IsPlain letters_of
          (trim_right-Every IsLetter (λ b. b == b'=') (base32 raw) (base32-IsLetter raw))))

-- `GetUserByPAT` trims nothing off a new token.
pub trim_space-plaintext : (raw : List ℕ) → trim_space (plaintext_of raw) ≡ plaintext_of raw
trim_space-plaintext raw = trim_space_plain (plaintext_of raw) (plaintext-IsPlain raw)

pub has_prefix-plaintext :
    (raw : List ℕ) → has_prefix pat_plaintext_prefix (plaintext_of raw) ≡ true
unfolding has_prefix
has_prefix-plaintext raw = refl

pub same_bytes_refl : (s : Bytes) → same_bytes s s ≡ true
unfolding same_bytes
same_bytes_refl [] = refl
same_bytes_refl (b ∷ s) = ground (arith, same_bytes_refl s)
