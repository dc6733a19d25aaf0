-- ===== src/Agent/Runtime/Context/Grouping.antt =====
-- The grouping of the stored messages never indexes out of range (agent/runtime/context.go).
use text.Mathlib.TextEquality.{eq_iff}
use liaison.Base.{
  String, ◌≡◌, refl, Bool, false, not, ◌&&◌, ◌||◌, Option, List, [], ◌∷◌, ◌++◌, arith,
  if◌then◌else◌, if_rule,
}
use liaison.Base.Eq.{◌==◌, string_eq}
use liaison.Base.Exec.{ok}
use liaison.Base.Lists.{is_empty}
use liaison.Agent.Runtime.Types.{CtxError, Turn, Message, ModelMessage}
use liaison.Agent.Runtime.Store.{Store}
use liaison.Agent.Runtime.Store.Turns.{list_turns}
use liaison.Agent.Runtime.Store.Messages.{list_session_messages}
use liaison.Agent.Runtime.Context.{
  Group, is_completed, append_to_last, regroup, regroup_all, recent, completed_history,
}

-- A list that is not empty has a last group.
last_there :
    (m : ModelMessage) (groups : List Group)
    → is_empty groups ≡ false
    → (groups' : List Group) × (append_to_last m groups ≡ ok groups') × (is_empty groups' ≡ false)
unfolding append_to_last
last_there m [] h = absurd cc
last_there m (g ∷ []) h = (_, refl, refl)
last_there m (g ∷ h ∷ gs) some_there =
    let (groups', done, there) = last_there m (h ∷ gs) refl in (g ∷ groups', rw done refl, refl)

-- Before the first group is made, no turn is noted.
abbrev IsStarted : List Group × String → Type 0
IsStarted (groups, last) = (is_empty groups && not (last == "")) ≡ false

appended_there : (groups : List Group) (g : Group) → is_empty (groups ++ g ∷ []) ≡ false
appended_there [] g = refl
appended_there (h ∷ groups) g = refl

regroup-IsStarted :
    (completed : String → Bool) (m : Message) (state : List Group × String)
    → completed "" ≡ false
    → IsStarted state
    → (state' : List Group × String) × (regroup completed m state ≡ ok state') × IsStarted state'
unfolding regroup
regroup-IsStarted completed m (groups, last) named started =
    if_rule (λ o. (state' : List Group × String) × (o ≡ ok state') × IsStarted state')
      (not (completed m.turn_id) || m.value.role == "system") _ _
      (λ _. ((groups, last), refl, started))
      λ taken.
        let opened : List Group = if not (m.turn_id == last) then groups ++ [] ∷ [] else groups in
        let there : is_empty opened ≡ false =
          if_rule (λ o. is_empty o ≡ false) (not (m.turn_id == last)) (groups ++ [] ∷ []) groups
            (λ _. appended_there groups [])
            λ same. ground (arith, named, taken, started, eq_iff m.turn_id last, eq_iff last "") in
        let (groups', done, there') = last_there m.value opened there in
        ((groups', m.turn_id), rw done refl, ground arith)

regroup_all_returns :
    (completed : String → Bool) (messages : List Message) (state : List Group × String)
    → completed "" ≡ false
    → IsStarted state
    → (groups : List Group) × (regroup_all completed messages state ≡ ok groups)
unfolding regroup_all
regroup_all_returns completed [] (groups, last) named started = (groups, refl)
regroup_all_returns completed (m ∷ messages) (groups, last) named started =
    let (state, made, started') = regroup-IsStarted completed m (groups, last) named started in
    let (groups', rest) = regroup_all_returns completed messages state named started' in
    (groups', rw made rest)

-- If both listings succeed, and no listed turn has an empty ID, a history is returned: no group is
-- looked for where there is none.
pub history_returned :
    (ctx : Option CtxError) (session_id current : String) (s s' : Store) (turns : List Turn)
    (stored : List Message)
    → (list_turns ctx session_id s).0 ≡ ok turns
    → (list_session_messages ctx session_id s').0 ≡ ok stored
    → is_completed current turns "" ≡ false
    → (history : List ModelMessage) × (completed_history ctx session_id current s s' ≡ ok history)
unfolding completed_history
history_returned ctx session_id current s s' turns stored listed kept named =
    let (groups, made) =
      regroup_all_returns (is_completed current turns) stored ([], "") named refl in
    (recent groups, rw listed (rw kept (rw made refl)))
