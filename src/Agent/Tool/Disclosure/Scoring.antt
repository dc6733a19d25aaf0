-- ===== src/Agent/Tool/Disclosure/Scoring.antt =====
-- The texts of tools, the score of a tool for a query (`descriptorMatchScore` of tool/catalog.go,
-- `disclosureScore` of tool/disclosure.go), and the size of a tool in tokens.
use Prim.Native.String.{len, ◌++◌}
use Prim.Native.Nat.{max}
use text.Mathlib.Text.{find?}
use liaison.Base.{ℕ, ◌+◌, ◌/◌, String, Bool, true, false, ◌&&◌, ◌||◌, List, [], ◌∷◌, if◌then◌else◌}
use liaison.Base.Eq.{◌==◌, string_eq}
use liaison.Base.Lists.{any, length}
use liaison.Agent.Tool.Types.{DisclosureMode, always_shown, on_attachment, deferred, ToolDescriptor}
use liaison.Agent.Tool.Registry.{is_in}
use liaison.Agent.Tool.Names.{model_name}

-- What is used of package strings and depends on Unicode's tables.
pub record GoTexts : Type 0 where
  pub to_lower : String → String
  pub trim_space : String → String
  pub fields : String → List String

-- `strings.Contains`.
abbrev pub contains : String → String → Bool
contains text part = is_in (find? text part)

-- `strings.Join(texts, " ")`.
abbrev pub joined : List String → String
joined [] = ""
joined (t ∷ []) = t
joined (t ∷ u ∷ ts) = t ++ " " ++ joined (u ∷ ts)

abbrev pub asks_for_all : String → Bool
asks_for_all query =
    any (λ phrase. phrase == query)
      ("list all available tools" ∷ "list tools" ∷ "all tools" ∷ "available tools" ∷ "全部工具" ∷ "可用工具"
        ∷ "列出所有工具" ∷ [])

abbrev pub same_mode : DisclosureMode → DisclosureMode → Bool
same_mode deferred deferred = true
same_mode on_attachment on_attachment = true
same_mode always_shown always_shown = true
same_mode _ _ = false

-- The weights of the texts that contain the part.
unfoldable pub hits : String → List (String × ℕ) → ℕ
hits part [] = 0
hits part ((text, weight) ∷ rest) = (if contains text part then weight else 0) + hits part rest

-- The loop over the parts of the query: a part that is nowhere ends it with 0.
unfoldable pub match_parts : List (String × ℕ) → List String → ℕ → ℕ
match_parts haystacks [] score = score
match_parts haystacks (part ∷ parts) score =
    let rest = match_parts haystacks parts (score + hits part haystacks) in
    if any (λ haystack. contains haystack.0 part) haystacks then rest else 0

module _ (go : GoTexts) where
  abbrev pub normal_query : String → String
  normal_query query = go.to_lower (go.trim_space query)

  abbrev pub haystacks_of : ToolDescriptor → List (String × ℕ)
  haystacks_of d =
      (go.to_lower (model_name d.id), 8)
      ∷ (go.to_lower d.display_name, 6)
      ∷ (go.to_lower (joined d.tags), 4)
      ∷ (go.to_lower d.when_to_use, 3)
      ∷ (go.to_lower d.description, 2)
      ∷ []

  unfoldable pub descriptor_match_score : ToolDescriptor → String → ℕ
  descriptor_match_score d query =
      let query' = normal_query query in
      if asks_for_all query' || query' == ""
      then 1
      else match_parts (haystacks_of d) (go.fields query') 0

  unfoldable pub disclosure_score : ToolDescriptor → String → Bool → Bool → Bool → ℕ
  disclosure_score d query promoted recent attachment_matched =
      descriptor_match_score d (normal_query query)
      + (if same_mode d.disclosure always_shown then 100 else 0)
      + (if same_mode d.disclosure on_attachment && attachment_matched then 60 else 0)
      + (if promoted then 1000 else 0)
      + (if recent then 20 else 0)

unfoldable pub total_size : List String → ℕ
total_size [] = 0
total_size (t ∷ ts) = len t + total_size ts

unfoldable pub estimate_descriptor_tokens : ToolDescriptor → ℕ
estimate_descriptor_tokens d =
    let bytes =
      len (model_name d.id)
      + len d.display_name
      + len d.description
      + len d.when_to_use
      + length d.input_schema
      + total_size d.tags in
    max 1 ((bytes + 3) / 4)
