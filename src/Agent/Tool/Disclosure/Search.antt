-- ===== src/Agent/Tool/Disclosure/Search.antt =====
-- `Search` (tool/disclosure.go): summaries of the tools that a query finds.
use liaison.Base.{ℕ, String, Bool, not, ◌&&◌, Option, none, some, List, map, ltb, if◌then◌else◌}
use liaison.Base.Eq.{◌==◌, nat_eq, string_eq}
use liaison.Base.Exec.{Result, ok, err}
use liaison.Base.Lists.{take}
use liaison.Base.Sort.{sort_by, str_ltb}
use liaison.Base.Table.{values}
use liaison.Agent.Tool.Types.{ToolDescriptor}
use liaison.Agent.Tool.Catalog.{CatalogEntry, Catalog}
use liaison.Agent.Tool.Disclosure.{
  Budget, normalize_budget, DisclosureRequest, DisclosureError, ToolSummary,
}
use liaison.Agent.Tool.Disclosure.Scoring.{GoTexts, descriptor_match_score, normal_query}
use liaison.Agent.Tool.Names.{id_text}
use liaison.Agent.Tool.Disclosure.Candidates.{AllowTool, tested, gather}

pub record ScoredSummary : Type 0 where
  pub score : ℕ
  pub summary : ToolSummary

abbrev pub summary_of : ToolDescriptor → ToolSummary
summary_of d = record {
  id = d.id;
  display_name = d.display_name;
  description = d.description;
  protocols = d.protocols;
  risk = d.risk;
  tags = d.tags;
}

unfoldable pub scores_before : ScoredSummary → ScoredSummary → Bool
scores_before a b =
    if not (a.score == b.score)
    then ltb b.score a.score
    else str_ltb (id_text a.summary.id) (id_text b.summary.id)

-- The end of the loop's body: a query that is not blank passes over what it does not match.
abbrev pub scored : GoTexts → String → CatalogEntry → Option ScoredSummary
scored go query entry =
    let score = descriptor_match_score go entry.descriptor (normal_query go query) in
    if not (go.trim_space query == "") && score == 0
    then none
    else some (record { score = score; summary = summary_of entry.descriptor })

-- The best results, as many as the budget allows.
abbrev pub summarized :
    Budget → Result DisclosureError (List ScoredSummary) → Result DisclosureError (List ToolSummary)
summarized budget (err x) = err x
summarized budget (ok results) =
    ok (map (λ r. r.summary) (take budget.max_candidates (sort_by scores_before results)))

module _ (go : GoTexts) (allow_tool : AllowTool) where
  unfoldable pub hit :
      DisclosureRequest → String → CatalogEntry → Result DisclosureError (Option ScoredSummary)
  hit request query entry = tested allow_tool request entry (scored go query entry)

  unfoldable pub search :
      DisclosureRequest → Catalog → String → Result DisclosureError (List ToolSummary)
  search request catalog query =
      summarized (normalize_budget request.budget)
        (gather (hit request query) (values catalog.entries))
