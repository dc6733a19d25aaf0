-- ===== src/Agent/Runtime/Context.antt =====
-- `completedHistory` (agent/runtime/context.go): the messages of earlier turns that the model is
-- given. The texts that head the context are left out.
pub mod Window
pub mod Grouping
use Prim.Native.String.{len}
use liaison.Base.{
  ℕ, zero, suc, ◌+◌, ◌-◌, ◌*◌, String, Bool, true, false, not, ◌&&◌, ◌||◌, Option, none, some, List,
  [], ◌∷◌, ◌++◌, ltb, if◌then◌else◌,
}
use liaison.Base.Eq.{◌==◌, string_eq}
use liaison.Base.Exec.{Result, ok, err}
use liaison.Base.Lists.{length, any}
use liaison.Agent.Runtime.Status.{TurnStatus, same_turn_status}
use liaison.Agent.Runtime.Types.{CtxError, Error, Turn, Message, ModelMessage, ModelToolCall}
use liaison.Agent.Runtime.Store.{Store}
use liaison.Agent.Runtime.Store.Turns.{list_turns}
use liaison.Agent.Runtime.Store.Messages.{list_session_messages}

-- `out_of_range` is Go's panic at an index.
pub data ContextError : Type 0 where
  list_turns_failed list_messages_failed : Error → ContextError
  out_of_range : ContextError

abbrev pub Group : Type 0
Group = List ModelMessage

-- Whether the map `completed` has the turn.
unfoldable pub is_completed : String → List Turn → String → Bool
is_completed current_turn_id turns id =
    any
      (λ turn.
        turn.id == id
        && not (turn.id == current_turn_id)
        && same_turn_status turn.status TurnStatus.completed)
      turns

-- `groups[len(groups)-1] = append(...)`.
unfoldable pub append_to_last : ModelMessage → List Group → Result ContextError (List Group)
append_to_last m [] = err out_of_range
append_to_last m (g ∷ []) = ok ((g ++ m ∷ []) ∷ [])
append_to_last m (g ∷ h ∷ gs) = behind (append_to_last m (h ∷ gs))
  where
    behind : Result ContextError (List Group) → Result ContextError (List Group)
    behind (err x) = err x
    behind (ok groups) = ok (g ∷ groups)

abbrev pub noted :
    String → Result ContextError (List Group) → Result ContextError (List Group × String)
noted last (err x) = err x
noted last (ok groups) = ok (groups, last)

-- One message: the groups, and the turn of the last one.
unfoldable pub regroup :
    (String → Bool) → Message → List Group × String → Result ContextError (List Group × String)
regroup completed message (groups, last) =
    if not (completed message.turn_id) || message.value.role == "system"
    then ok (groups, last)
    else noted message.turn_id (
        append_to_last message.value
          (if not (message.turn_id == last) then groups ++ [] ∷ [] else groups))

abbrev pub onward :
    Result ContextError (List Group × String)
    → (List Group × String → Result ContextError (List Group))
    → Result ContextError (List Group)
onward (err x) rest = err x
onward (ok state) rest = rest state

unfoldable pub regroup_all :
    (String → Bool) → List Message → List Group × String → Result ContextError (List Group)
regroup_all completed [] (groups, last) = ok groups
regroup_all completed (message ∷ messages) state =
    onward (regroup completed message state) (regroup_all completed messages)

unfoldable pub input_size : List ModelToolCall → ℕ
input_size [] = 0
input_size (call ∷ calls) = length call.input + input_size calls

unfoldable pub group_size : Group → ℕ
group_size [] = 0
group_size (message ∷ messages) =
    len message.content + input_size message.tool_calls + group_size messages

unfoldable pub nth : {A : Type 0} → ℕ → List A → Option A
nth n [] = none
nth zero (x ∷ xs) = some x
nth (suc n) (x ∷ xs) = nth n xs

-- `groups[start-1]` is always there (Context.Window).
abbrev pub size_at : Option Group → ℕ
size_at none = 0
size_at (some g) = group_size g

-- The loop that goes back from the last group.
unfoldable pub go_back : List Group → ℕ → ℕ → ℕ
go_back groups zero size = zero
go_back groups (suc start) size =
    let grown = size + size_at (nth start groups) in
    let further = go_back groups start grown in
    if not (ltb (length groups - suc start) 16)
    then suc start
    else if ltb (64 * 1024) grown
    then suc start
    else further

-- `l[n:]`
unfoldable pub drop : {A : Type 0} → ℕ → List A → List A
drop zero xs = xs
drop (suc n) [] = []
drop (suc n) (x ∷ xs) = drop n xs

abbrev pub flatten : List Group → List ModelMessage
flatten [] = []
flatten (g ∷ gs) = g ++ flatten gs

-- The messages of the groups that fit.
unfoldable pub recent : List Group → List ModelMessage
recent groups = flatten (drop (go_back groups (length groups) 0) groups)

abbrev pub of_groups : Result ContextError (List Group) → Result ContextError (List ModelMessage)
of_groups (err x) = err x
of_groups (ok groups) = ok (recent groups)

abbrev pub of_messages :
    (String → Bool) → Result Error (List Message) → Result ContextError (List ModelMessage)
of_messages completed (err x) = err (list_messages_failed x)
of_messages completed (ok stored) = of_groups (regroup_all completed stored ([], ""))

abbrev pub of_turns :
    String
    → Result Error (List Turn)
    → Result Error (List Message)
    → Result ContextError (List ModelMessage)
of_turns current (err x) messages = err (list_turns_failed x)
of_turns current (ok turns) messages = of_messages (is_completed current turns) messages

-- The store may change between the listing of the turns and that of the messages.
unfoldable pub completed_history :
    Option CtxError → String → String → Store → Store → Result ContextError (List ModelMessage)
completed_history ctx session_id current_turn_id s s' =
    of_turns current_turn_id (list_turns ctx session_id s).0
      (list_session_messages ctx session_id s').0
