-- ===== src/Tokens/Limit.antt =====
-- The number of tokens that a user may have (pkg/liaison/manager/iam/pat.go), over histories of
-- calls that follow one another.
use liaison.Base.{
  ℕ, ◌+◌, ◌≤◌, ◌≡◌, refl, false, Option, List, [], ◌∷◌, ◌++◌, map, arith, leb, if◌then◌else◌,
  Bool-cases, inl, inr, nat_beq_iff,
}
use liaison.Base.Eq.{◌==◌, nat_eq}
use liaison.Base.Lists.{keep}
use liaison.Tokens.{
  UserApiToken, Tokens, Minting, new_tokens, is_live, count_user_api_tokens, create_user_api_token,
  new_row, revoke_row, revoke_pat, touch_row, touch_user_api_token, create_named, create_pat,
  plaintext_of,
}
use liaison.Tokens.Creating.{create_named_rule}
use liaison.Tokens.Text.{Bytes, trim_space}

-- What a history of calls makes of an empty table.
pub data TokensReach : Tokens → Type 0 where
  made_table : TokensReach new_tokens
  mints :
      {db : Tokens}
      → TokensReach db
      → (calls : Minting) (user_id : ℕ) (name : Bytes) (expires_at : Option ℕ)
      → TokensReach (create_pat calls user_id name expires_at db).1
  revokes :
      {db : Tokens}
      → TokensReach db
      → (user_id id now : ℕ) → TokensReach (revoke_pat user_id id now db)
  touches :
      {db : Tokens}
      → TokensReach db
      → (id : ℕ) (ip : Bytes) (now : ℕ) → TokensReach (touch_user_api_token id ip now db)

-- One row more counts for its user, and for nobody else.
count-concat :
    (u : ℕ) (t : UserApiToken) (rows : List UserApiToken)
    → count_user_api_tokens u (rows ++ t ∷ [])
      ≡ (if is_live u t then count_user_api_tokens u rows + 1 else count_user_api_tokens u rows)
unfolding count_user_api_tokens keep
count-concat u t [] = ground arith
count-concat u t (x ∷ rows) = ground (arith, count-concat u t rows)

-- A change of the rows that makes none live leaves no more of them.
count-map :
    (u : ℕ) (f : UserApiToken → UserApiToken)
    → ((t : UserApiToken) → is_live u t ≡ false → is_live u (f t) ≡ false)
    → (rows : List UserApiToken)
    → count_user_api_tokens u (map f rows) ≤ count_user_api_tokens u rows
unfolding count_user_api_tokens keep
count-map u f dead [] = ground arith
count-map u f dead (x ∷ rows) = ground (arith, count-map u f dead rows, dead x)

revoke_row-dead :
    (u user_id id now : ℕ) (t : UserApiToken)
    → is_live u t ≡ false
    → is_live u (revoke_row user_id id now t) ≡ false
revoke_row-dead u user_id id now t h = ground arith

touch_row-dead :
    (u id : ℕ) (ip : Bytes) (now : ℕ) (t : UserApiToken)
    → is_live u t ≡ false
    → is_live u (touch_row id ip now t) ≡ false
touch_row-dead u id ip now t h = ground arith

abbrev IsLimited : ℕ → Tokens → Type 0
IsLimited u db = count_user_api_tokens u db.rows ≤ 50

created-IsLimited :
    (u user_id : ℕ) (t : UserApiToken) (db : Tokens)
    → t.user_id ≡ user_id
    → IsLimited u db
    → leb 50 (count_user_api_tokens user_id db.rows) ≡ false
    → IsLimited u (create_user_api_token t db)
created-IsLimited u user_id t db e h room =
    rw (count-concat u _ db.rows) (elim (Bool-cases (t.user_id == u)) [
      | inl here ↦ let same = (nat_beq_iff t.user_id u).0 here in ground (arith, same)
      | inr away ↦ ground (arith, away)
    ])

create_named-IsLimited :
    (u : ℕ) (calls : Minting) (user_id : ℕ) (name : Bytes) (expires_at : Option ℕ) (db : Tokens)
    → IsLimited u db
    → IsLimited u (create_named calls user_id name expires_at db).1
create_named-IsLimited u calls user_id name expires_at db h =
    create_named_rule (λ o. IsLimited u o.1) calls user_id name expires_at db (λ _. h)
      λ raw hash _ room.
        created-IsLimited u user_id (new_row user_id name expires_at (plaintext_of raw) hash) db
          refl h room

-- A change of the rows that makes none live keeps the limit.
map-IsLimited :
    (u : ℕ) (f : UserApiToken → UserApiToken)
    → ((t : UserApiToken) → is_live u t ≡ false → is_live u (f t) ≡ false)
    → (db : Tokens) → IsLimited u db
    → IsLimited u (record db { rows = map f db.rows })
map-IsLimited u f dead db h = let fewer = count-map u f dead db.rows in omega arith

-- After any history of calls that follow one another, whatever other code answers to them, no user
-- has more than 50 tokens that are not revoked.
pub at_most_50_tokens :
    {db : Tokens} (u : ℕ) → TokensReach db → count_user_api_tokens u db.rows ≤ 50
unfolding count_user_api_tokens keep revoke_pat touch_user_api_token
at_most_50_tokens u made_table = ground arith
at_most_50_tokens u (mints r calls user_id name expires_at) =
    create_named-IsLimited u calls user_id (trim_space name) expires_at _ (at_most_50_tokens u r)
at_most_50_tokens u (revokes {db} r user_id id now) =
    map-IsLimited u (revoke_row user_id id now) (revoke_row-dead u user_id id now) db
      (at_most_50_tokens u r)
at_most_50_tokens u (touches {db} r id ip now) =
    map-IsLimited u (touch_row id ip now) (touch_row-dead u id ip now) db (at_most_50_tokens u r)
