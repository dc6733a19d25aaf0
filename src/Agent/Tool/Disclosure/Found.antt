-- ===== src/Agent/Tool/Disclosure/Found.antt =====
-- What a search of the tools finds (`Search` of tool/disclosure.go).
use liaison.Base.{
  ℕ, suc, String, ◌≤◌, ◌≡◌, refl, true, false, not, ◌&&◌, some, List, [], ◌∷◌, map, arith, if_rule,
  sym,
}
use liaison.Base.Eq.{◌==◌, nat_eq, string_eq}
use liaison.Base.Exec.{Result, ok, err}
use liaison.Base.Every.{Every, Every-sort_by, Every-mono, Every-map}
use liaison.Base.Lists.{length, take}
use liaison.Base.Sort.{sort_by}
use liaison.Base.Table.{get, values}
use liaison.Base.Table.Keys.{IsMap}
use liaison.Agent.Tool.Types.{ToolId, tool_id_eq}
use liaison.Agent.Tool.Catalog.{CatalogEntry, Catalog}
use liaison.Agent.Tool.Engine.Agreement.{keyed}
use liaison.Agent.Tool.Disclosure.{
  DisclosureRequest, DisclosureError, ToolSummary, normalize_budget,
}
use liaison.Agent.Tool.Disclosure.Scoring.{GoTexts, descriptor_match_score, normal_query}
use liaison.Agent.Tool.Disclosure.Candidates.{AllowTool, gather}
use liaison.Agent.Tool.Disclosure.Gathering.{IsOffered, gather_rule, tested_inv, entries_listed}
use liaison.Agent.Tool.Disclosure.Search.{
  ScoredSummary, summary_of, scores_before, scored, hit, summarized, search,
}

module _ {ℓ} {A : Type ℓ} where
  length-take : (n : ℕ) (xs : List A) → length (take n xs) ≤ n
  unfolding take
  length-take (suc n) (x ∷ xs) = omega (arith, length-take n xs)
  length-take _ _ = omega arith

  length-map : {B : Type 0} (f : A → B) (xs : List A) → length (map f xs) ≡ length xs
  length-map f [] = refl
  length-map f (x ∷ xs) = omega (arith, length-map f xs)

  take-Every : (P : A → Type 0) (n : ℕ) (xs : List A) → Every P xs → Every P (take n xs)
  unfolding take
  take-Every P (suc n) (x ∷ xs) h = (h.0, take-Every P n xs h.1)
  take-Every P _ _ h = tt

module _ (go : GoTexts) (allow_tool : AllowTool) (request : DisclosureRequest) (catalog : Catalog)
    (query : String) where
  -- The summary is of a listed entry that passes the tests and matches a query that is not blank.
  pub record IsFound (summary : ToolSummary) : Type 0 where
    pub entry : CatalogEntry
    pub listed : get summary.id catalog.entries ≡ some entry
    pub summarizes : summary ≡ summary_of entry.descriptor
    pub offered : IsOffered allow_tool request entry
    pub matching :
        (not (go.trim_space query == "")
          && descriptor_match_score go entry.descriptor (normal_query go query) == 0)
        ≡ false

  hit-IsFound :
      (entry : CatalogEntry)
      → get entry.descriptor.id catalog.entries ≡ some entry
      → (s : ScoredSummary) → hit go allow_tool request query entry ≡ ok (some s)
      → IsFound s.summary
  unfolding hit
  hit-IsFound entry listed s h =
      let (offered, made) = tested_inv allow_tool request entry (scored go query entry) s h in
      if_rule (λ o. o ≡ some s → IsFound s.summary)
        (not (go.trim_space query == "")
          && descriptor_match_score go entry.descriptor (normal_query go query) == 0)
        _ _ (λ _ h. absurd cc)
        (λ matching h.
          let same : s.summary ≡ summary_of entry.descriptor = cc in
          rw same (record {
            entry = entry;
            listed = listed;
            summarizes = refl;
            offered = offered;
            matching = matching;
          }))
        made

  -- A search that succeeds finds at most as many tools as the budget allows, and only tools that the
  -- catalog lists as active, that fit the kind of session and the attachment, that the filter
  -- allows, and that match the query unless it is blank. The catalog's map has each key once, the
  -- ID of its entry.
  pub search_finds_offered :
      (summaries : List ToolSummary)
      → IsMap catalog.entries
      → ((id : ToolId) → keyed id (get id catalog.entries) ≡ true)
      → search go allow_tool request catalog query ≡ ok summaries
      → (length summaries ≤ (normalize_budget request.budget).max_candidates)
        × Every IsFound summaries
  unfolding search
  search_finds_offered summaries single key =
      summarized_finds (gather (hit go allow_tool request query) (values catalog.entries)) λ found.
        gather_rule (λ s. IsFound s.summary) (hit go allow_tool request query)
          (values catalog.entries) found
          (Every-mono _ _ hit-IsFound (values catalog.entries)
            (entries_listed catalog.entries single key))
    where
      summarized_finds :
          (g : Result DisclosureError (List ScoredSummary))
          → ((found : List ScoredSummary) → g ≡ ok found → Every (λ s. IsFound s.summary) found)
          → summarized (normalize_budget request.budget) g ≡ ok summaries
          → (length summaries ≤ (normalize_budget request.budget).max_candidates)
            × Every IsFound summaries
      summarized_finds (err x) every h = absurd cc
      summarized_finds (ok found) every h =
          let n = (normalize_budget request.budget).max_candidates in
          let best = take n (sort_by scores_before found) in
          let same : map (λ s. s.summary) best ≡ summaries = cc h in
          rw (sym same) (
            (
              rw length-map (length-take n (sort_by scores_before found)),
              Every-map IsFound (λ s. s.summary) best
                  (take-Every (λ s. IsFound s.summary) n (sort_by scores_before found)
                    (Every-sort_by (λ s. IsFound s.summary) scores_before found
                      (every found refl))),
            ))
