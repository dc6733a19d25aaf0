-- ===== src/Agent/Runtime/Context/Window.antt =====
-- Which part of the history the model is given (agent/runtime/context.go).
use liaison.Base.{
  ℕ, zero, suc, ◌+◌, ◌-◌, ◌*◌, ◌≤◌, ◌<◌, String, ◌≡◌, refl, not, ◌⊎◌, inl, inr, Option, List, [],
  ◌∷◌, arith, ltb, if_rule, sym,
}
use liaison.Base.Eq.{string_eq}
use liaison.Base.Exec.{Result, ok, err}
use liaison.Base.Lists.{length}
use liaison.Agent.Runtime.Types.{CtxError, Error, Turn, Message, ModelMessage}
use liaison.Agent.Runtime.Store.{Store}
use liaison.Agent.Runtime.Store.Turns.{list_turns}
use liaison.Agent.Runtime.Store.Messages.{list_session_messages}
use liaison.Agent.Runtime.Context.{
  ContextError, Group, group_size, nth, size_at, go_back, drop, flatten, recent, is_completed,
  regroup_all, of_groups, of_turns, completed_history,
}

abbrev pub sizes : List Group → ℕ
sizes [] = 0
sizes (g ∷ gs) = group_size g + sizes gs

length-drop : (n : ℕ) (gs : List Group) → length (drop n gs) ≡ length gs - n
unfolding drop
length-drop zero gs = omega arith
length-drop (suc n) [] = omega arith
length-drop (suc n) (g ∷ gs) = omega (arith, length-drop n gs)

sizes-drop :
    (n : ℕ) (gs : List Group)
    → n < length gs
    → sizes (drop n gs) ≡ size_at (nth n gs) + sizes (drop (suc n) gs)
unfolding drop nth
sizes-drop n [] h = absurd (omega arith)
sizes-drop zero (g ∷ gs) h = refl
sizes-drop (suc n) (g ∷ gs) h = sizes-drop n gs (omega (arith, h))

sizes-drop_all : (gs : List Group) → sizes (drop (length gs) gs) ≡ 0
unfolding drop
sizes-drop_all [] = refl
sizes-drop_all (g ∷ gs) = sizes-drop_all gs

-- The window that starts here has at most 16 groups and 64 KiB, and one group more would be too
-- much, if there is one.
pub record IsWindow (groups : List Group) (start : ℕ) : Type 0 where
  pub inside : start ≤ length groups
  pub few : length (drop start groups) ≤ 16
  pub small : sizes (drop start groups) ≤ 64 * 1024
  pub full :
      (k : ℕ)
      → start ≡ suc k
      → (length (drop start groups) ≡ 16)
        ⊎ (64 * 1024 < size_at (nth k groups) + sizes (drop start groups))

go_back-IsWindow :
    (groups : List Group) (start : ℕ)
    → start ≤ length groups
    → length groups - start ≤ 16
    → sizes (drop start groups) ≤ 64 * 1024
    → IsWindow groups (go_back groups start (sizes (drop start groups)))
unfolding go_back
go_back-IsWindow groups zero le few small = record {
  inside = le;
  few = rw length-drop few;
  small = small;
  full = λ k h. absurd (omega (arith, h));
}
go_back-IsWindow groups (suc start) le few small =
    let size = sizes (drop (suc start) groups) in
    let before = sizes-drop start groups (omega (arith, le)) in
    let same : size + size_at (nth start groups) ≡ sizes (drop start groups) =
      omega (arith, before) in
    if_rule (IsWindow groups) (not (ltb (length groups - suc start) 16)) _ _
      (λ enough. record {
        inside = le;
        few = rw length-drop few;
        small = small;
        full = λ k h. inl (rw length-drop (ground (arith, few)));
      })
      λ more.
        if_rule (IsWindow groups) (ltb (64 * 1024) (size + size_at (nth start groups))) _ _
          (λ large. record {
            inside = le;
            few = rw length-drop few;
            small = small;
            full = λ k h.
                let same_k : start ≡ k = omega (arith, h) in rw (sym same_k) (inr (ground arith));
          })
          λ fits. rw same (
            go_back-IsWindow groups start (omega (arith, le)) (ground (arith, few, le))
              (ground (arith, same)))

-- The loop goes back from the last group to the start of a window.
recent-IsWindow : (groups : List Group) → IsWindow groups (go_back groups (length groups) 0)
recent-IsWindow groups = rw (sym (sizes-drop_all groups)) (
    go_back-IsWindow groups (length groups) (omega arith) (omega arith)
      (rw sizes-drop_all (omega arith)))

of_groups_inv :
    (g : Result ContextError (List Group)) (history : List ModelMessage)
    → of_groups g ≡ ok history
    → (groups : List Group) × (g ≡ ok groups)
      × (history ≡ flatten (drop (go_back groups (length groups) 0) groups))
unfolding recent
of_groups_inv (ok groups) history h = (groups, refl, cc)
of_groups_inv (err x) history h = absurd cc

-- The history is made of a window of the groups of the listed messages.
abbrev pub IsRecent :
    String → Result Error (List Turn) → Result Error (List Message) → List ModelMessage → Type 0
IsRecent current t m history =
    (turns : List Turn) × (stored : List Message) × (groups : List Group) × (start : ℕ) × (t
      ≡ ok turns)
    × (m ≡ ok stored)
    × (regroup_all (is_completed current turns) stored ([], "") ≡ ok groups)
    × IsWindow groups start
    × (history ≡ flatten (drop start groups))

of_turns-IsRecent :
    (current : String) (t : Result Error (List Turn)) (m : Result Error (List Message))
    (history : List ModelMessage)
    → of_turns current t m ≡ ok history
    → IsRecent current t m history
of_turns-IsRecent current (err x) m history h = absurd cc
of_turns-IsRecent current (ok turns) (err x) history h = absurd cc
of_turns-IsRecent current (ok turns) (ok stored) history h =
    let (groups, made, same) =
      of_groups_inv (regroup_all (is_completed current turns) stored ([], "")) history h in
    let start = go_back groups (length groups) 0 in
    (turns, stored, groups, start, refl, refl, made, recent-IsWindow groups, same)

-- A history that is returned consists of whole groups, the last ones of those that the stored
-- messages of completed turns make: at most 16 of them, of at most 64 KiB together, and with one
-- group more, if there is one, they would be more than that.
pub completed_history-IsRecent :
    (ctx : Option CtxError) (session_id current : String) (s s' : Store)
    (history : List ModelMessage)
    → completed_history ctx session_id current s s' ≡ ok history
    → IsRecent current
        (list_turns ctx session_id s).0
        (list_session_messages ctx session_id s').0
        history
unfolding completed_history
completed_history-IsRecent ctx session_id current s s' history =
    of_turns-IsRecent current (list_turns ctx session_id s).0
      (list_session_messages ctx session_id s').0 history
