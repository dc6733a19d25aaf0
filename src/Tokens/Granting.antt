-- ===== src/Tokens/Granting.antt =====
-- Whom a personal access token lets in (pkg/liaison/manager/iam/pat.go).
use mathlib.Core.Path.{subst}
use liaison.Base.{
  ℕ, ◌≡◌, refl, sym, ap, ◌∙◌, Bool, true, false, ◌&&◌, Option, none, some, List, [], ◌∷◌, ◌++◌,
  arith, if◌then◌else◌, Bool-cases, Option-cases, inl, inr,
}
use liaison.Base.Every.{Every}
use liaison.Base.Lists.{find, keep}
use liaison.Base.Exec.{Result, ok, err}
use liaison.Tokens.{
  UserApiToken, Tokens, PatCreateResult, Minting, pat_expired, pat_prefix_total_len,
  pat_plaintext_prefix, plaintext_of, is_null, create_pat, create_user_api_token, new_row,
}
use liaison.Tokens.Text.{Bytes, trim_space, front, has_prefix}
use liaison.Tokens.Sessions.{
  Checking, is_candidate, is_past, of_user, of_match, user_of, get_user_by_pat,
}
use liaison.Tokens.Creating.{create_named_rule}
use liaison.Tokens.Plain.{trim_space-plaintext, has_prefix-plaintext, same_bytes_refl}

-- A row that may let the text in: it has its prefix, is not revoked, and its hash fits.
abbrev pub is_key : (Bytes → Bytes → Bool) → Bytes → UserApiToken → Bool
is_key compare plaintext t =
    is_candidate (front pat_prefix_total_len plaintext) t && compare t.token_hash plaintext

-- Two searches in one.
find-keep :
    (p q : UserApiToken → Bool) (rows : List UserApiToken)
    → find p (keep q rows) ≡ find (λ t. q t && p t) rows
unfolding find keep
find-keep p q [] = refl
find-keep p q (t ∷ rows) = ground (arith, find-keep p q rows)

-- What a search finds is a row that passes.
find_passes :
    (p : UserApiToken → Bool) (rows : List UserApiToken) (t : UserApiToken)
    → find p rows ≡ some t
    → (p t ≡ true)
      × (before : List UserApiToken) × (after : List UserApiToken) × (rows ≡ before ++ t ∷ after)
unfolding find
find_passes p [] t h = absurd cc
find_passes p (x ∷ rows) t h = elim (Bool-cases (p x)) [
  | inl here ↦ let same : x ≡ t = ground arith in (cc, [], rows, ap (λ y. y ∷ rows) same)
  | inr away ↦
      let (passes, before, after, split) = find_passes p rows t (ground arith) in
      (passes, x ∷ before, after, ap (λ l. x ∷ l) split)
]

pub find-none :
    (p : UserApiToken → Bool) (rows : List UserApiToken)
    → Every (λ x. p x ≡ false) rows
    → find p rows ≡ none
unfolding find
find-none p [] h = refl
find-none p (x ∷ rows) h = rw h.0 (find-none p rows h.1)

-- A row at the end is found if no other passes.
find-concat :
    (p : UserApiToken → Bool) (rows : List UserApiToken) (t : UserApiToken)
    → Every (λ x. p x ≡ false) rows
    → p t ≡ true
    → find p (rows ++ t ∷ []) ≡ some t
unfolding find
find-concat p [] t h passes = rw passes refl
find-concat p (x ∷ rows) t h passes = rw h.0 (find-concat p rows t h.1 passes)

-- `revoked_at IS NULL` is what it says.
is_null_lem : (at : Option ℕ) → is_null at ≡ true → at ≡ none
is_null_lem none h = refl
is_null_lem (some x) h = absurd cc

module _ {U : Type 0} (calls : Checking U) where
  -- The answer is that of the first row that may let the text in.
  user_of-find :
      (plaintext : Bytes) (db : Tokens)
      → has_prefix pat_plaintext_prefix plaintext ≡ true
      → calls.list_fails ≡ none
      → user_of calls plaintext db ≡ of_match calls (find (is_key calls.compare plaintext) db.rows)
  unfolding user_of
  user_of-find plaintext db h listed =
      rw h (rw listed (ap (of_match calls) (find-keep _ _ db.rows)))

  -- What `CreatePAT` has shown is looked up as it is.
  pub shown-find :
      (raw : List ℕ) (db : Tokens)
      → calls.list_fails ≡ none
      → get_user_by_pat calls (plaintext_of raw) db
        ≡ of_match calls (find (is_key calls.compare (plaintext_of raw)) db.rows)
  shown-find raw db listed =
      rw (trim_space-plaintext raw)
        (user_of-find (plaintext_of raw) db (has_prefix-plaintext raw) listed)

  -- Why a text is let in, if it is: some row is its key.
  abbrev pub Granted : Bytes → Tokens → U → Type 0
  Granted plaintext db user =
      (t : UserApiToken) × (before : List UserApiToken) × (after : List UserApiToken) × (db.rows
        ≡ before ++ t ∷ after)
      × (t.revoked_at ≡ none)
      × (is_past calls.now t.expires_at ≡ false)
      × (calls.compare t.token_hash plaintext ≡ true)
      × (calls.get_user_by_id t.user_id ≡ ok (some user))

  of_user_ok :
      (answer : Result ℕ (Option U)) (user : U)
      → of_user calls answer ≡ ok user
      → answer ≡ ok (some user)
  of_user_ok (ok (some u)) user h = cc
  of_user_ok (ok none) user h = absurd cc
  of_user_ok (err x) user h = absurd cc

  of_match_ok :
      (t : UserApiToken) (user : U)
      → of_match calls (some t) ≡ ok user
      → (is_past calls.now t.expires_at ≡ false) × (calls.get_user_by_id t.user_id ≡ ok (some user))
  of_match_ok t user h = elim (Bool-cases (is_past calls.now t.expires_at)) [
    | inl past ↦ absurd cc
    | inr fresh ↦ (fresh, of_user_ok (calls.get_user_by_id t.user_id) user (ground arith))
  ]

  of_find_ok :
      (plaintext : Bytes) (db : Tokens) (user : U) (found : Option UserApiToken)
      → find (is_key calls.compare plaintext) db.rows ≡ found
      → of_match calls found ≡ ok user
      → Granted plaintext db user
  of_find_ok plaintext db user none at h = absurd cc
  of_find_ok plaintext db user (some t) at h =
      let (passes, before, after, split) = find_passes _ db.rows t at in
      let (fresh, owner) = of_match_ok t user h in
      (t, before, after, split, is_null_lem t.revoked_at (ground arith), fresh, ground arith, owner)

  user_of_ok :
      (plaintext : Bytes) (db : Tokens) (user : U)
      → user_of calls plaintext db ≡ ok user
      → Granted plaintext db user
  unfolding user_of
  user_of_ok plaintext db user h = elim (Bool-cases (has_prefix pat_plaintext_prefix plaintext)) [
    | inl starts ↦ elim (Option-cases calls.list_fails) [
      | inl listed ↦
          of_find_ok plaintext db user _ refl (sym (user_of-find plaintext db starts listed) ∙ h)
      | inr (x, fails) ↦ absurd cc
    ]
    | inr other ↦ absurd cc
  ]

  -- If a text lets a user in, then, but for white space around it, it fits the hash of a stored
  -- token that is not revoked, has not expired and is that user's.
  pub let_in_by_own_token :
      (text : Bytes) (db : Tokens) (user : U)
      → get_user_by_pat calls text db ≡ ok user
      → Granted (trim_space text) db user
  let_in_by_own_token text db user h = user_of_ok (trim_space text) db user h

  -- The row of a new token is a key of it.
  new_row-is_key :
      (user_id : ℕ) (name : Bytes) (expires_at : Option ℕ) (raw : List ℕ) (hash : Bytes) (id : ℕ)
      → calls.compare hash (plaintext_of raw) ≡ true
      → is_key calls.compare
          (plaintext_of raw)
          (record (new_row user_id name expires_at (plaintext_of raw) hash) { id = id })
        ≡ true
  new_row-is_key user_id name expires_at raw hash id fits =
      rw (same_bytes_refl (front pat_prefix_total_len (plaintext_of raw))) (rw fits refl)

  -- The text of a row at the end that is a key of it, and that no other row is a key of.
  shown-concat :
      (raw : List ℕ) (t : UserApiToken) (db : Tokens)
      → calls.list_fails ≡ none
      → Every (λ x. is_key calls.compare (plaintext_of raw) x ≡ false) db.rows
      → is_key calls.compare (plaintext_of raw) t ≡ true
      → get_user_by_pat calls (plaintext_of raw) (create_user_api_token t db)
        ≡ of_match calls (some (record t { id = db.next_id }))
  shown-concat raw t db listed others key =
      shown-find raw _ listed
      ∙ ap (of_match calls) (
          find-concat (is_key calls.compare (plaintext_of raw)) db.rows
            (record t { id = db.next_id }) others key)

  -- If a token is made, bcrypt knows its hashes again, no other row is a key of the new text, and
  -- the listing and the reading of its owner succeed, then the text that was shown lets the owner
  -- in until it expires, and is refused as expired from then on.
  pub shown_lets_owner_in :
      (minting : Minting) (user_id : ℕ) (name : Bytes) (expires_at : Option ℕ) (db : Tokens)
      (made : PatCreateResult) (user : U)
      → (create_pat minting user_id name expires_at db).0 ≡ ok made
      → ((text hash : Bytes) → minting.generate text ≡ ok hash → calls.compare hash text ≡ true)
      → Every (λ t. is_key calls.compare made.token t ≡ false) db.rows
      → calls.list_fails ≡ none
      → calls.get_user_by_id user_id ≡ ok (some user)
      → get_user_by_pat calls made.token (create_pat minting user_id name expires_at db).1
        ≡ (if is_past calls.now expires_at then err pat_expired else ok user)
  shown_lets_owner_in minting user_id name expires_at db made user h fits others listed owner =
      create_named_rule
        (λ o.
          o.0 ≡ ok made
          → get_user_by_pat calls made.token o.1
            ≡ (if is_past calls.now expires_at then err pat_expired else ok user))
        minting user_id (trim_space name) expires_at db (λ x e. absurd cc)
        (λ raw hash at _ e.
          let t = new_row user_id (trim_space name) expires_at (plaintext_of raw) hash in
          let same : made.token ≡ plaintext_of raw = cc in
          let alone =
            subst (λ text. Every (λ x. is_key calls.compare text x ≡ false) db.rows) same others in
          let key =
            new_row-is_key user_id (trim_space name) expires_at raw hash 0
              (fits (plaintext_of raw) hash at) in
          subst
            (λ text.
              get_user_by_pat calls text (create_user_api_token t db)
              ≡ (if is_past calls.now expires_at then err pat_expired else ok user))
            (sym same) (shown-concat raw t db listed alone key ∙ rw owner refl))
        h
