-- ===== src/Examples/Tokens.antt =====
-- Personal access tokens (pkg/liaison/manager/iam/pat.go) at small inputs. The hash of a text is the
-- text with one byte in front, so that a text fits a hash just where that is so.
use liaison.Base.{ℕ, ◌≤◌, ◌≡◌, refl, true, none, some, List, [], ◌∷◌}
use liaison.Base.Lists.{keep, take}
use liaison.Base.Exec.{ok, err}
use liaison.Tokens.{
  Minting, PatCreateResult, pat_invalid, new_tokens, create_pat, create_named, revoke_pat,
  touch_user_api_token, count_user_api_tokens, plaintext_of,
}
use liaison.Tokens.Text.{Bytes, base32, drop_spaces, reverse, same_bytes, trim_space, width}
use liaison.Tokens.Sessions.{Checking, get_user_by_pat}
use liaison.Tokens.Limit.{made_table, mints, revokes, touches, at_most_50_tokens}
use liaison.Tokens.Granting.{Granted, let_in_by_own_token, shown_lets_owner_in}
use liaison.Tokens.Revoking.{revoked_lets_nobody_in}
use liaison.Tokens.Creating.{result_of}
use liaison.Tokens.Plain.{same_bytes_refl}

abbrev random_bytes : List ℕ
random_bytes = 1 ∷ 2 ∷ 3 ∷ 255 ∷ 0 ∷ 17 ∷ []

abbrev minting : Minting
minting = record {
  count_fails = none;
  random = ok random_bytes;
  generate = λ text. ok (b'$' ∷ text);
  create_fails = none;
}

-- User 4 is there under that number.
abbrev checking : Checking ℕ
checking = record {
  compare = λ hash text. same_bytes hash (b'$' ∷ text);
  list_fails = none;
  get_user_by_id = λ id. ok (some id);
  now = 90;
}

-- ` ci `
abbrev name : Bytes
name = b' ' ∷ b'c' ∷ b'i' ∷ b' ' ∷ []

abbrev made : PatCreateResult
made =
    result_of 4 (b'c' ∷ b'i' ∷ []) (some 100) random_bytes (b'$' ∷ plaintext_of random_bytes)
      new_tokens

created : (create_pat minting 4 name (some 100) new_tokens).0 ≡ ok made
unfolding create_named trim_space count_user_api_tokens keep reverse drop_spaces width
created = refl

-- `foobar` is `MZXW6YTBOI======`.
foobar : base32 (102 ∷ 111 ∷ 111 ∷ 98 ∷ 97 ∷ 114 ∷ []) ≡ (
    b'M' ∷ b'Z' ∷ b'X' ∷ b'W' ∷ b'6' ∷ b'Y' ∷ b'T' ∷ b'B' ∷ b'O' ∷ b'I' ∷ b'=' ∷ b'=' ∷ b'=' ∷ b'='
    ∷ b'=' ∷ b'=' ∷ [])
unfolding base32 take
foobar = refl

fits : (text hash : Bytes) → minting.generate text ≡ ok hash → checking.compare hash text ≡ true
fits text hash h = let same : hash ≡ b'$' ∷ text = cc in rw same (same_bytes_refl (b'$' ∷ text))

shown_lets_owner_in_example :
    get_user_by_pat checking made.token (create_pat minting 4 name (some 100) new_tokens).1 ≡ ok 4
shown_lets_owner_in_example =
    shown_lets_owner_in checking minting 4 name (some 100) new_tokens made 4 created fits tt refl
      refl

let_in_by_own_token_example :
    Granted checking (trim_space made.token) (create_pat minting 4 name (some 100) new_tokens).1 4
let_in_by_own_token_example =
    let_in_by_own_token checking made.token (create_pat minting 4 name (some 100) new_tokens).1 4 (
      shown_lets_owner_in checking minting 4 name (some 100) new_tokens made 4 created fits tt refl
        refl)

revoked_lets_nobody_in_example :
    get_user_by_pat checking made.token
      (revoke_pat 4 1 93 (create_pat minting 4 name (some 100) new_tokens).1)
    ≡ err pat_invalid
revoked_lets_nobody_in_example =
    revoked_lets_nobody_in checking minting 4 name (some 100) new_tokens made 93 created tt refl

at_most_50_tokens_example :
    count_user_api_tokens 4
      (touch_user_api_token 1 [] 95
        (revoke_pat 4 1 93 (create_pat minting 4 name (some 100) new_tokens).1)).rows
    ≤ 50
at_most_50_tokens_example =
    at_most_50_tokens 4
      (touches (revokes (mints made_table minting 4 name (some 100)) 4 1 93) 1 [] 95)
