-- ===== src/Tokens/Creating.antt =====
-- What `CreatePAT` may come to (pkg/liaison/manager/iam/pat.go).
use liaison.Base.{ℕ, ◌≡◌, refl, false, Option, none, some, List, leb, ltb, if_rule}
use liaison.Base.Exec.{Result, ok, err}
use liaison.Base.Lists.{length, is_empty}
use liaison.Tokens.{
  UserApiToken, Tokens, PatError, PatCreateResult, Minting, count_user_api_tokens,
  create_user_api_token, new_row, plaintext_of, failed, inserted, hashed, mint, counted,
  create_named,
}
use liaison.Tokens.Text.{Bytes}

abbrev pub result_of : ℕ → Bytes → Option ℕ → List ℕ → Bytes → Tokens → PatCreateResult
result_of user_id name expires_at raw hash db = record {
  model = record (new_row user_id name expires_at (plaintext_of raw) hash) { id = db.next_id };
  token = plaintext_of raw;
}

module _ (Q : Result PatError PatCreateResult × Tokens → Type 0) (calls : Minting) (user_id : ℕ)
    (name : Bytes) (expires_at : Option ℕ) (db : Tokens)
    (refused : (x : PatError) → Q (err x, db)) where
  inserted_rule :
      (fails : Option ℕ) (t : UserApiToken) (plaintext : Bytes)
      → Q (
        ok (record { model = record t { id = db.next_id }; token = plaintext }),
        create_user_api_token t db,
      )
      → Q (inserted fails t plaintext db)
  inserted_rule none t plaintext done = done
  inserted_rule (some x) t plaintext done = refused (failed x)

  hashed_rule :
      (raw : List ℕ) (answer : Result ℕ Bytes)
      → ((hash : Bytes)
          → answer ≡ ok hash
          → Q (
            ok (result_of user_id name expires_at raw hash db),
            create_user_api_token (new_row user_id name expires_at (plaintext_of raw) hash) db,
          ))
      → Q (hashed calls user_id name expires_at (plaintext_of raw) answer db)
  hashed_rule raw (err x) done = refused (failed x)
  hashed_rule raw (ok hash) done = inserted_rule calls.create_fails _ _ (done hash refl)

  mint_rule :
      (random : Result ℕ (List ℕ))
      → ((raw : List ℕ) (hash : Bytes)
          → calls.generate (plaintext_of raw) ≡ ok hash
          → Q (
            ok (result_of user_id name expires_at raw hash db),
            create_user_api_token (new_row user_id name expires_at (plaintext_of raw) hash) db,
          ))
      → Q (mint calls user_id name expires_at random db)
  mint_rule (err x) done = refused (failed x)
  mint_rule (ok raw) done =
      hashed_rule raw (calls.generate (plaintext_of raw)) λ hash at. done raw hash at

  counted_rule :
      (fails : Option ℕ)
      → ((raw : List ℕ) (hash : Bytes)
          → calls.generate (plaintext_of raw) ≡ ok hash
          → leb 50 (count_user_api_tokens user_id db.rows) ≡ false
          → Q (
            ok (result_of user_id name expires_at raw hash db),
            create_user_api_token (new_row user_id name expires_at (plaintext_of raw) hash) db,
          ))
      → Q (counted calls user_id name expires_at fails db)
  counted_rule (some x) done = refused (failed x)
  counted_rule none done =
      if_rule Q (leb 50 (count_user_api_tokens user_id db.rows)) _ _ (λ _. refused _)
        λ room. mint_rule calls.random λ raw hash at. done raw hash at room

  -- It fails and leaves the table, or there was room, and a row is added for the hash of its token.
  pub create_named_rule :
      ((raw : List ℕ) (hash : Bytes)
        → calls.generate (plaintext_of raw) ≡ ok hash
        → leb 50 (count_user_api_tokens user_id db.rows) ≡ false
        → Q (
          ok (result_of user_id name expires_at raw hash db),
          create_user_api_token (new_row user_id name expires_at (plaintext_of raw) hash) db,
        ))
      → Q (create_named calls user_id name expires_at db)
  unfolding create_named
  create_named_rule done =
      if_rule Q (is_empty name) _ _ (λ _. refused _)
        λ _.
          if_rule Q (ltb 64 (length name)) _ _ (λ _. refused _)
            λ _. counted_rule calls.count_fails done
