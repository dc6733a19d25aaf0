-- ===== src/Agent/Tool/Disclosure/Loop.antt =====
-- Rules for the second loop of `BuildSnapshot` (tool/disclosure.go).
use liaison.Base.{String, ◌≡◌, refl, ℕ, suc, ◌+◌, not, ◌&&◌, List, [], ◌∷◌, ◌++◌, ltb, leb, if_rule}
use liaison.Base.Exec.{Result, ok, err}
use liaison.Base.Sort.{sort_by}
use liaison.Base.Table.{values}
use liaison.Base.Every.{Every}
use liaison.Agent.Tool.Types.{Bytes, Time, ToolSetSnapshot, always_shown, deferred, ExposedTool}
use liaison.Agent.Tool.Catalog.{Catalog}
use liaison.Agent.Tool.Disclosure.{Budget, normalize_budget, DisclosureRequest, DisclosureError}
use liaison.Agent.Tool.Disclosure.Scoring.{GoTexts, same_mode, estimate_descriptor_tokens}
use liaison.Agent.Tool.Disclosure.Candidates.{
  AllowTool, RankedTool, candidate, gather, ranks_before,
}
use liaison.Base.Lists.{length}
use liaison.Agent.Tool.Disclosure.Snapshot.{
  Spent, Turn, onward, broken_off, exposed_of, expose, spend, disclose, after, nothing_spent,
  build_snapshot, on_candidates,
}

-- What holds of the variables where an iteration ends.
abbrev pub Ends : (Spent → Type 0) → Turn → Type 0
Ends P (onward s) = P s
Ends P (broken_off s) = P s

-- What every iteration keeps, the loop keeps.
pub disclose_rule :
    (P : Spent → Type 0) (budget : Budget) (cs : List RankedTool) (s : Spent)
    → Every (λ c. (s : Spent) → P s → Ends P (spend budget c s)) cs
    → P s
    → P (disclose budget cs s)
unfolding disclose
disclose_rule P budget [] s kept p = p
disclose_rule P budget (c ∷ cs) s kept p =
    ends_rule (spend budget c s) (disclose budget cs)
      (λ s' p'. disclose_rule P budget cs s' kept.1 p') (kept.0 s p)
  where
    ends_rule :
        (t : Turn) (rest : Spent → Spent)
        → ((s : Spent) → P s → P (rest s))
        → Ends P t
        → P (after t rest)
    ends_rule (onward s) rest kept p = kept s p
    ends_rule (broken_off s) rest kept p = p

-- An iteration leaves the tools, or appends its candidate.
pub spend_rule :
    (P : List ExposedTool → Type 0) (budget : Budget) (c : RankedTool) (s : Spent)
    → P s.tools
    → P (s.tools ++ exposed_of c ∷ [])
    → Ends (λ s. P s.tools) (spend budget c s)
unfolding spend expose
spend_rule P budget c s left appended =
    let Q = Ends (λ s. P s.tools) in
    if_rule Q (same_mode c.entry.descriptor.disclosure always_shown) _ _
      (λ _.
        if_rule Q (leb budget.max_always_visible s.always_visible) _ _ (λ _. left)
          λ _. exposed (record s { always_visible = suc s.always_visible }) left appended)
      λ _.
        if_rule Q (same_mode c.entry.descriptor.disclosure deferred && not c.promoted) _ _
          (λ _.
            if_rule Q (leb budget.max_candidates s.deferred_candidates) _ _ (λ _. left)
              λ _.
                exposed (record s { deferred_candidates = suc s.deferred_candidates }) left
                  appended)
          λ _. exposed s left appended
  where
    exposed :
        (s : Spent)
        → P s.tools
        → P (s.tools ++ exposed_of c ∷ [])
        → Ends (λ s. P s.tools) (expose budget c s)
    exposed s left appended =
        let Q = Ends (λ s. P s.tools) in
        if_rule Q (leb budget.max_schemas (length s.tools)) _ _ (λ _. left)
          λ _.
            if_rule Q
              (ltb budget.max_tokens (s.tokens + estimate_descriptor_tokens c.entry.descriptor)) _ _
              (λ _. left) λ _. appended

-- A snapshot that is built has the tools of the loop over the candidates.
pub build_snapshot_inv :
    (go : GoTexts) (allow_tool : AllowTool) (hex : Bytes → String) (request : DisclosureRequest)
    (catalog : Catalog) (random : Result ℕ Bytes) (now : Time) (snapshot : ToolSetSnapshot)
    → build_snapshot go allow_tool hex request catalog random now ≡ ok snapshot
    → (candidates : List RankedTool) × (gather
          (candidate allow_tool request go)
          (values catalog.entries)
        ≡ ok candidates)
      × (snapshot.tools
          ≡ (disclose
              (normalize_budget request.budget)
              (sort_by ranks_before candidates)
              nothing_spent).tools)
unfolding build_snapshot
build_snapshot_inv go allow_tool hex request catalog random now snapshot =
    inv (gather (candidate allow_tool request go) (values catalog.entries)) random
  where
    inv :
        (g : Result DisclosureError (List RankedTool)) (random : Result ℕ Bytes)
        → on_candidates go allow_tool hex request catalog random now g ≡ ok snapshot
        → (candidates : List RankedTool) × (g ≡ ok candidates)
          × (snapshot.tools
              ≡ (disclose
                  (normalize_budget request.budget)
                  (sort_by ranks_before candidates)
                  nothing_spent).tools)
    inv (ok candidates) (ok bytes) h = (candidates, refl, cc)
    inv (ok candidates) (err x) h = absurd cc
    inv (err x) random h = absurd cc
