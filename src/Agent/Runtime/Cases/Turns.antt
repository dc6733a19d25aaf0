-- ===== src/Agent/Runtime/Cases/Turns.antt =====
-- The cases of the turn operations of the store.
use liaison.Base.{ℕ, String, ◌≡◌, false, not, Option, some, arith}
use liaison.Base.Eq.{◌==◌, string_eq, nat_eq}
use liaison.Base.Exec.{Result, ok, err}
use liaison.Base.Exec.Rules.{fail_if_rule, or_fail_rule}
use liaison.Base.Table.{get, put}
use liaison.Agent.Tool.Types.{Time}
use liaison.Agent.Runtime.Status.{TurnStatus, valid_turn_transition}
use liaison.Agent.Runtime.Types.{CtxError, Error, Session, Turn, is_archived, is_some}
use liaison.Agent.Runtime.Store.{Store}
use liaison.Agent.Runtime.Store.Turns.{
  start_turn, transition_turn, queued_turn, busy_session, moved_turn, free_session, put_turn,
}
use liaison.Agent.Runtime.Cases.{check_ctx_rule}

module _ (ctx : Option CtxError) (now : Time) (s : Store) where
  pub start_turn_cases {ℓ} :
      (Q : Result Error (Session × Turn) × Store → Type ℓ) (session_id : String) (turn : Turn)
      → ((e : Error) → Q (err e, s))
      → ((session : Session)
          → (turn.id == "") ≡ false
          → get session_id s.sessions ≡ some session
          → is_archived session.status ≡ false
          → not (session.active_turn_id == "") ≡ false
          → is_some (get turn.id s.turns) ≡ false
          → Q (
            ok (busy_session now turn.id session, queued_turn now session_id turn),
            record s {
              turns = put turn.id (queued_turn now session_id turn) s.turns;
              sessions = put session_id (busy_session now turn.id session) s.sessions;
            },
          ))
      → Q (start_turn ctx now session_id turn s)
  unfolding start_turn
  start_turn_cases Q session_id turn refused done = check_ctx_rule Q ctx _ refused (
      fail_if_rule Q (turn.id == "") _ (refused _) λ named.
        or_fail_rule Q (get session_id s.sessions) _ (refused _) λ session found.
          fail_if_rule Q (is_archived session.status) _ (refused _) λ open_.
            fail_if_rule Q (not (session.active_turn_id == "")) _ (refused _) λ idle.
              fail_if_rule Q (is_some (get turn.id s.turns)) _ (refused _)
                λ fresh. done session named found open_ idle fresh)

  pub transition_turn_cases {ℓ} :
      (Q : Result Error Turn × Store → Type ℓ) (turn_id : String) (expected_version : ℕ)
      (to : TurnStatus) (code message : String)
      → ((e : Error) → Q (err e, s))
      → ((turn : Turn)
          → get turn_id s.turns ≡ some turn
          → not (turn.version == expected_version) ≡ false
          → not (valid_turn_transition turn.status to) ≡ false
          → Q (
            ok (moved_turn now to code message turn),
            put_turn turn_id (moved_turn now to code message turn) (free_session now to turn s),
          ))
      → Q (transition_turn ctx now turn_id expected_version to code message s)
  unfolding transition_turn
  transition_turn_cases Q turn_id expected_version to code message refused done =
      check_ctx_rule Q ctx _ refused (
        or_fail_rule Q (get turn_id s.turns) _ (refused _) λ turn found.
          fail_if_rule Q (not (turn.version == expected_version)) _ (refused _) λ current.
            fail_if_rule Q (not (valid_turn_transition turn.status to)) _ (refused _)
              λ allowed. done turn found current allowed)

-- Freeing a session writes to the sessions alone.
module _ (now : Time) (to : TurnStatus) (turn : Turn) (s : Store) where
  pub turns-free_session : (free_session now to turn s).turns ≡ s.turns
  unfolding free_session
  turns-free_session = ground arith

  pub steps-free_session : (free_session now to turn s).steps ≡ s.steps
  unfolding free_session
  steps-free_session = ground arith
