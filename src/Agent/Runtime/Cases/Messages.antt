-- ===== src/Agent/Runtime/Cases/Messages.antt =====
-- The cases of the message and tool snapshot operations of the store.
use liaison.Base.{String, ◌≡◌, false, ◌||◌, Option, [], ◌∷◌, ◌++◌}
use liaison.Base.Eq.{◌==◌, string_eq}
use liaison.Base.Exec.{Result, ok, err}
use liaison.Base.Exec.Rules.{fail_if_rule}
use liaison.Base.Lists.{any}
use liaison.Base.Table.{get, put}
use liaison.Agent.Tool.Types.{Time, ToolSetSnapshot}
use liaison.Agent.Runtime.Types.{CtxError, Error, Message, is_some}
use liaison.Agent.Runtime.Store.{Store}
use liaison.Agent.Runtime.Store.Messages.{
  append_message, save_tool_snapshot, turn_messages, numbered_message,
}
use liaison.Agent.Runtime.Cases.{check_ctx_rule}

module _ (ctx : Option CtxError) (s : Store) where
  pub append_message_cases {ℓ} :
      (Q : Result Error Message × Store → Type ℓ) (now : Time) (message : Message)
      → ((e : Error) → Q (err e, s))
      → (any (λ current. current.id == message.id) (turn_messages message.turn_id s) ≡ false
          → let sent = numbered_message now (turn_messages message.turn_id s) message in
            Q (
              ok sent,
              record s {
                messages =
                    put message.turn_id (turn_messages message.turn_id s ++ sent ∷ []) s.messages;
              },
            ))
      → Q (append_message ctx now message s)
  unfolding append_message
  append_message_cases Q now message refused done = check_ctx_rule Q ctx _ refused (
      fail_if_rule Q (message.id == "" || message.agent_session_id == "" || message.turn_id == "") _
        (refused _)
        λ named.
          fail_if_rule Q
            (any (λ current. current.id == message.id) (turn_messages message.turn_id s)) _
            (refused _) done)

  pub save_tool_snapshot_cases {ℓ} :
      (Q : Result Error (Unit {0}) × Store → Type ℓ) (turn_id model_step_id : String)
      (snapshot : ToolSetSnapshot)
      → ((e : Error) → Q (err e, s))
      → (is_some (get snapshot.id s.snapshots) ≡ false
          → Q (ok tt, record s { snapshots = put snapshot.id snapshot s.snapshots }))
      → Q (save_tool_snapshot ctx turn_id model_step_id snapshot s)
  unfolding save_tool_snapshot
  save_tool_snapshot_cases Q turn_id model_step_id snapshot refused done =
      check_ctx_rule Q ctx _ refused (
        fail_if_rule Q (turn_id == "" || model_step_id == "" || snapshot.id == "") _ (refused _)
          λ named. fail_if_rule Q (is_some (get snapshot.id s.snapshots)) _ (refused _) done)
