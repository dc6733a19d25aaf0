-- ===== src/Tokens/Text.antt =====
-- What pkg/liaison/manager/iam/pat.go uses of Go's texts, on bytes: `strings.TrimSpace`, `TrimRight`,
-- `ToLower`, `HasPrefix`, slices from the front, and `base32.StdEncoding`.
use Prim.Native.Nat.{zero, suc}
use liaison.Base.{
  ℕ, ◌+◌, ◌-◌, ◌*◌, ◌/◌, ◌%◌, Bool, true, false, ◌&&◌, ◌||◌, List, [], ◌∷◌, ◌++◌, map, ltb, leb,
  if◌then◌else◌,
}
use liaison.Base.Eq.{◌==◌, nat_eq}
use liaison.Base.Lists.{length, take}

abbrev pub Bytes : Type 0
Bytes = List ℕ

abbrev pub between : ℕ → ℕ → ℕ → Bool
between lo hi b = leb lo b && leb b hi

-- The white space of one byte.
abbrev pub is_space : ℕ → Bool
is_space b = between 9 13 b || (b == 32)

-- U+0085 and U+00A0.
abbrev pub is_space2 : ℕ → ℕ → Bool
is_space2 a b = (a == 194) && ((b == 133) || (b == 160))

-- U+1680, U+2000 to U+200A, U+2028, U+2029, U+202F, U+205F and U+3000.
abbrev pub is_space3 : ℕ → ℕ → ℕ → Bool
is_space3 a b c =
    (a == 225 && b == 154 && c == 128)
    || (a == 226 && b == 128 && (between 128 138 c || c == 168 || c == 169 || c == 175))
    || (a == 226 && b == 129 && c == 159)
    || (a == 227 && b == 128 && c == 128)

-- The tests of the first bytes of a text; `swap` says that it is read from its end.
abbrev pub starts_two : Bool → ℕ → Bytes → Bool
starts_two swap a (b ∷ s) = if swap then is_space2 b a else is_space2 a b
starts_two swap a [] = false

abbrev pub starts_three : Bool → ℕ → Bytes → Bool
starts_three swap a (b ∷ c ∷ s) = if swap then is_space3 c b a else is_space3 a b c
starts_three swap a _ = false

-- How many bytes the white space takes that the text starts with.
unfoldable pub width : Bool → ℕ → Bytes → ℕ
width swap a s =
    if is_space a
    then 1
    else if starts_two swap a s
    then 2
    else if starts_three swap a s
    then 3
    else 0

-- The white space at the front is dropped, behind so many bytes that are part of one.
unfoldable pub drop_spaces : Bool → ℕ → Bytes → Bytes
drop_spaces swap k [] = []
drop_spaces swap (suc k) (b ∷ s) = drop_spaces swap k s
drop_spaces swap zero (b ∷ s) =
    let rest = drop_spaces swap (width swap b s - 1) s in
    if width swap b s == 0 then b ∷ s else rest

unfoldable pub reverse : Bytes → Bytes
reverse [] = []
reverse (b ∷ s) = reverse s ++ b ∷ []

-- `strings.TrimSpace`.
unfoldable pub trim_space : Bytes → Bytes
trim_space s = reverse (drop_spaces true 0 (reverse (drop_spaces false 0 s)))

unfoldable pub drop_while : (ℕ → Bool) → Bytes → Bytes
drop_while p [] = []
drop_while p (b ∷ s) = let rest = drop_while p s in if p b then rest else b ∷ s

-- `strings.TrimRight` at one character.
unfoldable pub trim_right : (ℕ → Bool) → Bytes → Bytes
trim_right p s = reverse (drop_while p (reverse s))

-- `strings.ToLower` of a letter without an accent.
abbrev pub lower : ℕ → ℕ
lower b = if between b'A' b'Z' b then b + 32 else b

-- `strings.ToLower` on texts of one byte for each character.
abbrev pub to_lower : Bytes → Bytes
to_lower = map lower

-- `strings.HasPrefix`, the prefix first.
unfoldable pub has_prefix : Bytes → Bytes → Bool
has_prefix [] s = true
has_prefix (p ∷ ps) [] = false
has_prefix (p ∷ ps) (b ∷ s) = (p == b) && has_prefix ps s

-- `s[:n]` where `s` is longer than that, else `s`.
abbrev pub front : ℕ → Bytes → Bytes
front n s = if ltb n (length s) then take n s else s

-- The letter of the lower five bits.
abbrev pub letter : ℕ → ℕ
letter v = if ltb (v % 32) 26 then b'A' + v % 32 else b'2' + (v % 32 - 26)

-- The eight letters of five bytes.
abbrev pub letters : ℕ → ℕ → ℕ → ℕ → ℕ → Bytes
letters a b c d e =
    letter (a / 8)
    ∷ letter (a * 4 + b / 64)
    ∷ letter (b / 2)
    ∷ letter (b * 16 + c / 16)
    ∷ letter (c * 2 + d / 128)
    ∷ letter (d / 4)
    ∷ letter (d * 8 + e / 32)
    ∷ letter e
    ∷ []

-- A sign for each letter that is missing.
abbrev pub pad : Bytes
pad = b'=' ∷ b'=' ∷ b'=' ∷ b'=' ∷ b'=' ∷ b'=' ∷ []

-- `base32.StdEncoding.EncodeToString`.
unfoldable pub base32 : List ℕ → Bytes
base32 [] = []
base32 (a ∷ []) = take 2 (letters a 0 0 0 0) ++ pad
base32 (a ∷ b ∷ []) = take 4 (letters a b 0 0 0) ++ take 4 pad
base32 (a ∷ b ∷ c ∷ []) = take 5 (letters a b c 0 0) ++ take 3 pad
base32 (a ∷ b ∷ c ∷ d ∷ []) = take 7 (letters a b c d 0) ++ take 1 pad
base32 (a ∷ b ∷ c ∷ d ∷ e ∷ rest) = letters a b c d e ++ base32 rest

-- `=` on texts.
unfoldable pub same_bytes : Bytes → Bytes → Bool
same_bytes [] [] = true
same_bytes (a ∷ s) (b ∷ t) = (a == b) && same_bytes s t
same_bytes _ _ = false
