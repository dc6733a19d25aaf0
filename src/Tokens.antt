-- ===== src/Tokens.antt =====
-- Personal access tokens (pkg/liaison/manager/iam/pat.go) on their table
-- (pkg/liaison/repo/dao/dao_user_api_token.go). Texts are lists of bytes, and times are numbers.
-- bcrypt, the random source and the failures of the database are arguments; a call is one step.
pub mod Text
pub mod Sessions
pub mod Plain
pub mod Creating
pub mod Limit
pub mod Granting
pub mod Revoking
use liaison.Base.{
  ℕ, suc, ◌+◌, Bool, true, false, not, ◌&&◌, Option, none, some, List, [], ◌∷◌, ◌++◌, map, ltb, leb,
  if◌then◌else◌,
}
use liaison.Base.Eq.{◌==◌, nat_eq}
use liaison.Base.Lists.{length, is_empty, keep}
use liaison.Base.Exec.{Result, ok, err, Exec, fail_if, gets, lift, ◌>>=◌, ◌>>◌}
use liaison.Tokens.Text.{Bytes, trim_space, trim_right, to_lower, base32, front}

-- `model.UserAPIToken`. No operation deletes a row.
pub record UserApiToken : Type 0 where
  pub id : ℕ
  pub user_id : ℕ
  pub name : Bytes
  pub token_prefix : Bytes
  pub token_hash : Bytes
  pub scope : Bytes
  pub last_used_at : Option ℕ
  pub last_used_ip : Bytes
  pub expires_at : Option ℕ
  pub revoked_at : Option ℕ

-- The rows by ascending ID, and the ID of the next one.
pub record Tokens : Type 0 where
  pub next_id : ℕ
  pub rows : List UserApiToken

abbrev pub new_tokens : Tokens
new_tokens = record { next_id = 1; rows = [] }

-- The errors of the database, of the random source and of bcrypt are numbers.
pub data PatError : Type 0 where
  pat_name_required : PatError
  pat_name_too_long : PatError
  pat_too_many : PatError
  pat_invalid : PatError
  pat_expired : PatError
  failed : ℕ → PatError

abbrev pub pat_max_per_user : ℕ
pat_max_per_user = 50

abbrev pub pat_max_name_len : ℕ
pat_max_name_len = 64

-- `PATPlaintextPrefix`, `liaison_pat_`.
abbrev pub pat_plaintext_prefix : Bytes
pat_plaintext_prefix =
    b'l' ∷ b'i' ∷ b'a' ∷ b'i' ∷ b's' ∷ b'o' ∷ b'n' ∷ b'_' ∷ b'p' ∷ b'a' ∷ b't' ∷ b'_' ∷ []

-- `patPrefixTotalLen`.
abbrev pub pat_prefix_total_len : ℕ
pat_prefix_total_len = length pat_plaintext_prefix + 8

-- `full_access`
abbrev pub full_access : Bytes
full_access = b'f' ∷ b'u' ∷ b'l' ∷ b'l' ∷ b'_' ∷ b'a' ∷ b'c' ∷ b'c' ∷ b'e' ∷ b's' ∷ b's' ∷ []

-- `revoked_at IS NULL`
abbrev pub is_null : Option ℕ → Bool
is_null none = true
is_null (some at) = false

-- The condition of `CountUserAPITokens`.
abbrev pub is_live : ℕ → UserApiToken → Bool
is_live user_id t = (t.user_id == user_id) && is_null t.revoked_at

-- `CountUserAPITokens`.
unfoldable pub count_user_api_tokens : ℕ → List UserApiToken → ℕ
count_user_api_tokens user_id rows = length (keep (is_live user_id) rows)

-- `CreateUserAPIToken`, which numbers the row.
abbrev pub create_user_api_token : UserApiToken → Tokens → Tokens
create_user_api_token t db = record {
  next_id = suc db.next_id;
  rows = db.rows ++ record t { id = db.next_id } ∷ [];
}

abbrev pub revoke_row : ℕ → ℕ → ℕ → UserApiToken → UserApiToken
revoke_row user_id id now t =
    if (t.id == id) && is_live user_id t then record t { revoked_at = some now } else t

-- `RevokePAT`, which is `RevokeUserAPIToken`, where its update succeeds. One that fails leaves the
-- table, so it is no step.
unfoldable pub revoke_pat : ℕ → ℕ → ℕ → Tokens → Tokens
revoke_pat user_id id now db = record db { rows = map (revoke_row user_id id now) db.rows }

abbrev pub touch_row : ℕ → Bytes → ℕ → UserApiToken → UserApiToken
touch_row id ip now t =
    if t.id == id then record t { last_used_at = some now; last_used_ip = ip } else t

-- `TouchUserAPIToken`, which `GetUserByPAT` starts beside its own answer.
unfoldable pub touch_user_api_token : ℕ → Bytes → ℕ → Tokens → Tokens
touch_user_api_token id ip now db = record db { rows = map (touch_row id ip now) db.rows }

-- What the calls of other code answer while a token is made: whether the count fails, the random
-- bytes, bcrypt at the salt of this call, and whether the insertion fails.
pub record Minting : Type 0 where
  pub count_fails : Option ℕ
  pub random : Result ℕ (List ℕ)
  pub generate : Bytes → Result ℕ Bytes
  pub create_fails : Option ℕ

abbrev pub plaintext_of : List ℕ → Bytes
plaintext_of raw = pat_plaintext_prefix ++ to_lower (trim_right (λ b. b == b'=') (base32 raw))

-- `PATCreateResult`.
pub record PatCreateResult : Type 0 where
  pub model : UserApiToken
  pub token : Bytes

abbrev pub new_row : ℕ → Bytes → Option ℕ → Bytes → Bytes → UserApiToken
new_row user_id name expires_at plaintext hash = record {
  id = 0;
  user_id = user_id;
  name = name;
  token_prefix = front pat_prefix_total_len plaintext;
  token_hash = hash;
  scope = full_access;
  last_used_at = none;
  last_used_ip = [];
  expires_at = expires_at;
  revoked_at = none;
}

-- `CreatePAT` from the insertion on: whether that fails, the row and the plaintext.
abbrev pub inserted : Option ℕ → UserApiToken → Bytes → Exec Tokens PatError PatCreateResult
inserted (some x) t plaintext db = (err (failed x), db)
inserted none t plaintext db = (
  ok (record { model = record t { id = db.next_id }; token = plaintext }),
  create_user_api_token t db,
)

module _ (calls : Minting) (user_id : ℕ) (name : Bytes) (expires_at : Option ℕ) where
  -- From the answer of bcrypt on.
  abbrev pub hashed : Bytes → Result ℕ Bytes → Exec Tokens PatError PatCreateResult
  hashed plaintext (err x) db = (err (failed x), db)
  hashed plaintext (ok hash) db =
      inserted calls.create_fails (new_row user_id name expires_at plaintext hash) plaintext db

  -- From the answer of the random source on.
  abbrev pub mint : Result ℕ (List ℕ) → Exec Tokens PatError PatCreateResult
  mint (err x) db = (err (failed x), db)
  mint (ok raw) db = hashed (plaintext_of raw) (calls.generate (plaintext_of raw)) db

  -- From the count on.
  abbrev pub counted : Option ℕ → Exec Tokens PatError PatCreateResult
  counted (some x) db = (err (failed x), db)
  counted none db =
      if leb pat_max_per_user (count_user_api_tokens user_id db.rows)
      then (err pat_too_many, db)
      else mint calls.random db

  -- `CreatePAT` at the trimmed name.
  unfoldable pub create_named : Exec Tokens PatError PatCreateResult
  create_named db =
      if is_empty name
      then (err pat_name_required, db)
      else if ltb pat_max_name_len (length name)
      then (err pat_name_too_long, db)
      else counted calls.count_fails db

-- `CreatePAT`.
abbrev pub create_pat : Minting → ℕ → Bytes → Option ℕ → Exec Tokens PatError PatCreateResult
create_pat calls user_id name expires_at = create_named calls user_id (trim_space name) expires_at
