-- ===== src/Agent/Tool/Disclosure/Limits.antt =====
-- The second loop of `BuildSnapshot` (tool/disclosure.go) stays within the budget.
use liaison.Base.{
  String, ℕ, suc, ◌+◌, ◌≤◌, ◌≡◌, refl, true, not, ◌&&◌, List, [], ◌∷◌, ◌++◌, arith, ltb, leb,
  if◌then◌else◌, if_rule,
}
use liaison.Base.Exec.{Result, ok}
use liaison.Base.Sort.{sort_by}
use liaison.Base.Every.{Every-intro}
use liaison.Agent.Tool.Types.{Bytes, Time, ToolSetSnapshot, always_shown, deferred, ExposedTool}
use liaison.Agent.Tool.Catalog.{Catalog}
use liaison.Agent.Tool.Disclosure.{Budget, normalize_budget, DisclosureRequest}
use liaison.Agent.Tool.Disclosure.Scoring.{GoTexts, same_mode, estimate_descriptor_tokens}
use liaison.Agent.Tool.Disclosure.Candidates.{AllowTool, RankedTool, ranks_before}
use liaison.Agent.Tool.Disclosure.Loop.{Ends, disclose_rule, build_snapshot_inv}
use liaison.Base.Lists.{length}
use liaison.Agent.Tool.Disclosure.Snapshot.{Spent, expose, spend, nothing_spent, build_snapshot}

abbrev pub tokens_of : List ExposedTool → ℕ
tokens_of [] = 0
tokens_of (t ∷ ts) = t.estimated_tokens + tokens_of ts

abbrev pub always_of : List ExposedTool → ℕ
always_of [] = 0
always_of (t ∷ ts) =
    (if same_mode t.descriptor.disclosure always_shown then 1 else 0) + always_of ts

-- The counters count what has been taken, and do not pass the budget.
pub record IsWithin (budget : Budget) (s : Spent) : Type 0 where
  pub few : length s.tools ≤ budget.max_schemas
  pub priced : tokens_of s.tools ≡ s.tokens
  pub cheap : s.tokens ≤ budget.max_tokens
  pub counted : always_of s.tools ≤ s.always_visible
  pub rare : s.always_visible ≤ budget.max_always_visible

length-concat : (ts : List ExposedTool) (t : ExposedTool) → length (ts ++ t ∷ []) ≡ suc (length ts)
length-concat [] t = refl
length-concat (x ∷ ts) t = omega (arith, length-concat ts t)

tokens_of-concat :
    (ts : List ExposedTool) (t : ExposedTool)
    → tokens_of (ts ++ t ∷ []) ≡ tokens_of ts + t.estimated_tokens
tokens_of-concat [] t = omega arith
tokens_of-concat (x ∷ ts) t = omega (arith, tokens_of-concat ts t)

always_of-concat :
    (ts : List ExposedTool) (t : ExposedTool)
    → always_of (ts ++ t ∷ [])
      ≡ always_of ts + (if same_mode t.descriptor.disclosure always_shown then 1 else 0)
always_of-concat [] t = omega arith
always_of-concat (x ∷ ts) t = omega (arith, always_of-concat ts t)

module _ (budget : Budget) (c : RankedTool) where
  -- A tool that is always shown has been counted before.
  expose-IsWithin :
      (s : Spent)
      → IsWithin budget s
      → (same_mode c.entry.descriptor.disclosure always_shown ≡ true
          → suc (always_of s.tools) ≤ s.always_visible)
      → Ends (IsWithin budget) (expose budget c s)
  unfolding expose
  expose-IsWithin s w booked =
      let estimated = estimate_descriptor_tokens c.entry.descriptor in
      if_rule (Ends (IsWithin budget)) (leb budget.max_schemas (length s.tools)) _ _ (λ _. w)
        λ room.
          if_rule (Ends (IsWithin budget)) (ltb budget.max_tokens (s.tokens + estimated)) _ _
            (λ _. w)
            λ cheap. record {
              few = rw length-concat (ground arith);
              priced = rw tokens_of-concat (ground (arith, w.priced));
              cheap = ground arith;
              counted = rw always_of-concat (ground (arith, w.counted));
              rare = w.rare;
            }

  spend-IsWithin : (s : Spent) → IsWithin budget s → Ends (IsWithin budget) (spend budget c s)
  unfolding spend
  spend-IsWithin s w =
      if_rule (Ends (IsWithin budget)) (same_mode c.entry.descriptor.disclosure always_shown) _ _
        (λ shown.
          if_rule (Ends (IsWithin budget)) (leb budget.max_always_visible s.always_visible) _ _
            (λ _. w)
            λ room.
              expose-IsWithin (record s { always_visible = suc s.always_visible })
                (record {
                  few = w.few;
                  priced = w.priced;
                  cheap = w.cheap;
                  counted = ground (arith, w.counted);
                  rare = ground arith;
                })
                λ _. ground (arith, w.counted))
        λ hidden.
          if_rule (Ends (IsWithin budget))
            (same_mode c.entry.descriptor.disclosure deferred && not c.promoted) _ _
            (λ _.
              if_rule (Ends (IsWithin budget)) (leb budget.max_candidates s.deferred_candidates) _ _
                (λ _. w)
                λ _.
                  expose-IsWithin (record s { deferred_candidates = suc s.deferred_candidates })
                    (record {
                      few = w.few;
                      priced = w.priced;
                      cheap = w.cheap;
                      counted = w.counted;
                      rare = w.rare;
                    })
                    λ shown. absurd (ground arith))
            λ _. expose-IsWithin s w λ shown. absurd (ground arith)

nothing-IsWithin : (budget : Budget) → IsWithin budget nothing_spent
nothing-IsWithin budget = record {
  few = omega arith;
  priced = refl;
  cheap = omega arith;
  counted = omega arith;
  rare = omega arith;
}

-- The tools of a snapshot stay within the budget of the request, defaults filled in: their number,
-- the sum of their estimated tokens, and the number of those that are always shown.
pub snapshot_within_budget :
    (go : GoTexts) (allow_tool : AllowTool) (hex : Bytes → String) (request : DisclosureRequest)
    (catalog : Catalog) (random : Result ℕ Bytes) (now : Time) (snapshot : ToolSetSnapshot)
    → build_snapshot go allow_tool hex request catalog random now ≡ ok snapshot
    → let budget = normalize_budget request.budget in
      (length snapshot.tools ≤ budget.max_schemas)
      × (tokens_of snapshot.tools ≤ budget.max_tokens)
      × (always_of snapshot.tools ≤ budget.max_always_visible)
snapshot_within_budget go allow_tool hex request catalog random now snapshot built =
    let budget = normalize_budget request.budget in
    let (candidates, gathered, tools) =
      build_snapshot_inv go allow_tool hex request catalog random now snapshot built in
    let w =
      disclose_rule (IsWithin budget) budget (sort_by ranks_before candidates) nothing_spent
        (Every-intro _ (spend-IsWithin budget) (sort_by ranks_before candidates))
        (nothing-IsWithin budget) in
    rw tools (w.few, rw w.priced w.cheap, omega (arith, w.counted, w.rare))
