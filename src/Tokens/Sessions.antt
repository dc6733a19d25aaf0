-- ===== src/Tokens/Sessions.antt =====
-- `GetUserByPAT` (pkg/liaison/manager/iam/pat.go): the user whom a token lets in. The users' table
-- and `bcrypt.CompareHashAndPassword` are arguments.
use liaison.Base.{ℕ, Bool, false, ◌&&◌, Option, none, some, List, ltb, if◌then◌else◌}
use liaison.Base.Lists.{find, keep}
use liaison.Base.Exec.{Result, ok, err}
use liaison.Tokens.{
  UserApiToken, Tokens, PatError, pat_invalid, pat_expired, failed, is_null, pat_plaintext_prefix,
  pat_prefix_total_len,
}
use liaison.Tokens.Text.{Bytes, trim_space, has_prefix, front, same_bytes}

-- The condition of `GetUserAPITokensByPrefix`.
abbrev pub is_candidate : Bytes → UserApiToken → Bool
is_candidate prefix t = same_bytes t.token_prefix prefix && is_null t.revoked_at

-- `GetUserAPITokensByPrefix`.
abbrev pub get_user_api_tokens_by_prefix : Bytes → Tokens → List UserApiToken
get_user_api_tokens_by_prefix prefix db = keep (is_candidate prefix) db.rows

abbrev pub is_past : ℕ → Option ℕ → Bool
is_past now none = false
is_past now (some at) = ltb at now

-- The answers of other code: the comparison of a hash with a plaintext, whether the listing fails,
-- the users, and the time.
pub record Checking (U : Type 0) : Type 0 where
  pub compare : Bytes → Bytes → Bool
  pub list_fails : Option ℕ
  pub get_user_by_id : ℕ → Result ℕ (Option U)
  pub now : ℕ

module _ {U : Type 0} (calls : Checking U) where
  abbrev pub of_owner : Option U → Result PatError U
  of_owner none = err pat_invalid
  of_owner (some user) = ok user

  abbrev pub of_user : Result ℕ (Option U) → Result PatError U
  of_user (err x) = err (failed x)
  of_user (ok user) = of_owner user

  abbrev pub of_match : Option UserApiToken → Result PatError U
  of_match none = err pat_invalid
  of_match (some t) =
      if is_past calls.now t.expires_at
      then err pat_expired
      else of_user (calls.get_user_by_id t.user_id)

  abbrev pub matching : Bytes → Tokens → Option UserApiToken
  matching plaintext db =
      find (λ t. calls.compare t.token_hash plaintext)
        (get_user_api_tokens_by_prefix (front pat_prefix_total_len plaintext) db)

  abbrev pub unless_listing : Option ℕ → Bytes → Tokens → Result PatError U
  unless_listing (some x) plaintext db = err (failed x)
  unless_listing none plaintext db = of_match (matching plaintext db)

  -- At the trimmed text.
  unfoldable pub user_of : Bytes → Tokens → Result PatError U
  user_of plaintext db =
      if has_prefix pat_plaintext_prefix plaintext
      then unless_listing calls.list_fails plaintext db
      else err pat_invalid

  -- `GetUserByPAT`, but for the note of its use.
  abbrev pub get_user_by_pat : Bytes → Tokens → Result PatError U
  get_user_by_pat plaintext db = user_of (trim_space plaintext) db
