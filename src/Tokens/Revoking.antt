-- ===== src/Tokens/Revoking.antt =====
-- What the revocation of a token comes to (`RevokePAT`, pkg/liaison/manager/iam/pat.go).
use mathlib.Core.Path.{subst}
use liaison.Base.{
  ℕ, ◌≡◌, refl, sym, ap, ◌∙◌, Bool, false, Option, none, List, [], ◌∷◌, ◌++◌, map, arith,
}
use liaison.Base.Eq.{nat_eq}
use liaison.Base.Every.{Every, Every-concat, Every-map, Every-mono}
use liaison.Base.Exec.{ok, err}
use liaison.Tokens.{
  UserApiToken, Tokens, PatCreateResult, Minting, pat_invalid, plaintext_of, revoke_row, revoke_pat,
  create_pat, create_user_api_token, new_row,
}
use liaison.Tokens.Text.{Bytes, trim_space}
use liaison.Tokens.Sessions.{Checking, of_match, get_user_by_pat}
use liaison.Tokens.Creating.{create_named_rule}
use liaison.Tokens.Granting.{is_key, find-none, shown-find}

module _ (compare : Bytes → Bytes → Bool) (user_id id now : ℕ) where
  -- A row that is no key does not become one.
  still_no_key :
      (text : Bytes) (t : UserApiToken)
      → is_key compare text t ≡ false
      → is_key compare text (revoke_row user_id id now t) ≡ false
  still_no_key text t h = ground arith

  -- A row of the user with this ID is no key of anything any more.
  revoked_no_key :
      (text : Bytes) (t : UserApiToken)
      → t.id ≡ id
      → t.user_id ≡ user_id
      → is_key compare text (revoke_row user_id id now t) ≡ false
  revoked_no_key text t at own = ground arith

  -- If no other row is a key, none is left.
  no_key_left :
      (text : Bytes) (rows : List UserApiToken) (t : UserApiToken)
      → Every (λ x. is_key compare text x ≡ false) rows
      → t.id ≡ id
      → t.user_id ≡ user_id
      → Every
          (λ x. is_key compare text x ≡ false)
          (map (revoke_row user_id id now) (rows ++ t ∷ []))
  no_key_left text rows t others at own =
      let IsNone = λ (x : UserApiToken). is_key compare text x ≡ false in
      let After = λ (x : UserApiToken). is_key compare text (revoke_row user_id id now x) ≡ false in
      Every-map IsNone (revoke_row user_id id now) (rows ++ t ∷ []) (
        Every-concat After rows t (Every-mono IsNone After (still_no_key text) rows others)
          (revoked_no_key text t at own))

module _ {U : Type 0} (calls : Checking U) where
  revoked_concat :
      (raw : List ℕ) (user_id now : ℕ) (t : UserApiToken) (db : Tokens)
      → calls.list_fails ≡ none
      → Every (λ x. is_key calls.compare (plaintext_of raw) x ≡ false) db.rows
      → t.user_id ≡ user_id
      → get_user_by_pat calls
          (plaintext_of raw)
          (revoke_pat user_id db.next_id now (create_user_api_token t db))
        ≡ err pat_invalid
  unfolding revoke_pat
  revoked_concat raw user_id now t db listed others own =
      let left =
        no_key_left calls.compare user_id db.next_id now (plaintext_of raw) db.rows
          (record t { id = db.next_id }) others refl own in
      shown-find calls raw _ listed ∙ ap (of_match calls) (find-none _ _ left)

  -- If a token is made, no other row is a key of the new text, and the listing succeeds, then the
  -- text lets nobody in once its owner has revoked it under the ID that the creation has returned.
  pub revoked_lets_nobody_in :
      (minting : Minting) (user_id : ℕ) (name : Bytes) (expires_at : Option ℕ) (db : Tokens)
      (made : PatCreateResult) (now : ℕ)
      → (create_pat minting user_id name expires_at db).0 ≡ ok made
      → Every (λ t. is_key calls.compare made.token t ≡ false) db.rows
      → calls.list_fails ≡ none
      → get_user_by_pat calls made.token
          (revoke_pat user_id made.model.id now (create_pat minting user_id name expires_at db).1)
        ≡ err pat_invalid
  revoked_lets_nobody_in minting user_id name expires_at db made now h others listed =
      create_named_rule
        (λ o.
          o.0 ≡ ok made
          → get_user_by_pat calls made.token (revoke_pat user_id made.model.id now o.1)
            ≡ err pat_invalid)
        minting user_id (trim_space name) expires_at db (λ x e. absurd cc)
        (λ raw hash at _ e.
          let t = new_row user_id (trim_space name) expires_at (plaintext_of raw) hash in
          let same : plaintext_of raw ≡ made.token = cc in
          let numbered : db.next_id ≡ made.model.id = cc in
          let alone =
            subst (λ text. Every (λ x. is_key calls.compare text x ≡ false) db.rows) (sym same)
              others in
          subst
            (λ id.
              get_user_by_pat calls made.token
                (revoke_pat user_id id now (create_user_api_token t db))
              ≡ err pat_invalid)
            numbered
            (subst
              (λ text.
                get_user_by_pat calls text
                  (revoke_pat user_id db.next_id now (create_user_api_token t db))
                ≡ err pat_invalid)
              same (revoked_concat raw user_id now t db listed alone refl)))
        h
