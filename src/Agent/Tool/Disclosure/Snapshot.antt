-- ===== src/Agent/Tool/Disclosure/Snapshot.antt =====
-- `BuildSnapshot` (tool/disclosure.go): the tools that fit into the budget, in the order of their
-- rank. The random bytes, their hexadecimal text and the clock are arguments.
use liaison.Base.{ℕ, suc, ◌+◌, String, not, ◌&&◌, List, [], ◌∷◌, ◌++◌, ltb, leb, if◌then◌else◌}
use liaison.Base.Exec.{Result, ok, err}
use liaison.Base.Eq.{string_eq}
use liaison.Base.Lists.{length}
use liaison.Base.Sort.{sort_by}
use liaison.Base.Table.{Table, put, values}
use liaison.Agent.Tool.Types.{
  Bytes, Time, AttachmentSnapshot, always_shown, deferred, ExposedTool, ToolSetSnapshot,
}
use liaison.Agent.Tool.Catalog.{Catalog}
use liaison.Agent.Tool.Disclosure.{
  Budget, normalize_budget, DisclosureRequest, DisclosureError, new_snapshot_id,
}
use liaison.Agent.Tool.Disclosure.Scoring.{GoTexts, same_mode, estimate_descriptor_tokens}
use liaison.Agent.Tool.Disclosure.Candidates.{
  AllowTool, RankedTool, candidate, gather, ranks_before,
}

-- The variables of the second loop.
pub record Spent : Type 0 where
  pub tools : List ExposedTool
  pub tokens : ℕ
  pub always_visible : ℕ
  pub deferred_candidates : ℕ

abbrev pub nothing_spent : Spent
nothing_spent = record { tools = []; tokens = 0; always_visible = 0; deferred_candidates = 0 }

-- How an iteration ends: the loop goes on, or `break`.
pub data Turn : Type 0 where
  onward : Spent → Turn
  broken_off : Spent → Turn

abbrev pub exposed_of : RankedTool → ExposedTool
exposed_of c = record {
  descriptor = c.entry.descriptor;
  registration_generation = c.entry.registration_generation;
  estimated_tokens = estimate_descriptor_tokens c.entry.descriptor;
}

-- The end of an iteration, after the counters.
unfoldable pub expose : Budget → RankedTool → Spent → Turn
expose budget c s =
    let estimated = estimate_descriptor_tokens c.entry.descriptor in
    if leb budget.max_schemas (length s.tools)
    then broken_off s
    else if ltb budget.max_tokens (s.tokens + estimated)
    then onward s
    else onward (record s { tools = s.tools ++ exposed_of c ∷ []; tokens = s.tokens + estimated })

-- One iteration.
unfoldable pub spend : Budget → RankedTool → Spent → Turn
spend budget c s =
    let mode = c.entry.descriptor.disclosure in
    if same_mode mode always_shown
    then (if leb budget.max_always_visible s.always_visible
        then onward s
        else expose budget c (record s { always_visible = suc s.always_visible }))
    else if same_mode mode deferred && not c.promoted
    then (if leb budget.max_candidates s.deferred_candidates
        then onward s
        else expose budget c (record s { deferred_candidates = suc s.deferred_candidates }))
    else expose budget c s

abbrev pub after : Turn → (Spent → Spent) → Spent
after (onward s) rest = rest s
after (broken_off s) rest = s

unfoldable pub disclose : Budget → List RankedTool → Spent → Spent
disclose budget [] s = s
disclose budget (c ∷ cs) s = after (spend budget c s) (disclose budget cs)

unfoldable pub attachment_generations : List AttachmentSnapshot → Table String ℕ → Table String ℕ
attachment_generations [] t = t
attachment_generations (a ∷ rest) t = attachment_generations rest (put a.id a.generation t)

module _ (go : GoTexts) (allow_tool : AllowTool) (hex : Bytes → String) where
  abbrev pub assembled :
      DisclosureRequest
      → Catalog
      → Time
      → List RankedTool
      → Result DisclosureError String
      → Result DisclosureError ToolSetSnapshot
  assembled request catalog now candidates (err x) = err x
  assembled request catalog now candidates (ok id) =
      let budget = normalize_budget request.budget in
      ok (record {
        id = id;
        catalog_generation = catalog.generation;
        policy_revision = request.policy_revision;
        attachment_generation = attachment_generations request.attachments [];
        tools = (disclose budget (sort_by ranks_before candidates) nothing_spent).tools;
        created_at = now;
      })

  abbrev pub on_candidates :
      DisclosureRequest
      → Catalog
      → Result ℕ Bytes
      → Time
      → Result DisclosureError (List RankedTool)
      → Result DisclosureError ToolSetSnapshot
  on_candidates request catalog random now (err x) = err x
  on_candidates request catalog random now (ok candidates) =
      assembled request catalog now candidates (new_snapshot_id hex random)

  unfoldable pub build_snapshot :
      DisclosureRequest → Catalog → Result ℕ Bytes → Time → Result DisclosureError ToolSetSnapshot
  build_snapshot request catalog random now =
      on_candidates request catalog random now
        (gather (candidate allow_tool request go) (values catalog.entries))
