-- ===== src/Agent/Runtime/Cases/Steps.antt =====
-- The cases of the step operations of the store.
use liaison.Base.{ℕ, String, ◌≡◌, false, not, Option, some}
use liaison.Base.Eq.{◌==◌, string_eq, nat_eq}
use liaison.Base.Exec.{Result, ok, err}
use liaison.Base.Exec.Rules.{fail_if_rule, or_fail_rule}
use liaison.Base.Table.{get, put}
use liaison.Agent.Tool.Types.{Time, Bytes}
use liaison.Agent.Runtime.Status.{StepStatus, is_terminal, valid_step_transition}
use liaison.Agent.Runtime.Types.{CtxError, Error, Turn, Step, is_some}
use liaison.Agent.Runtime.Store.{Store}
use liaison.Agent.Runtime.Store.Steps.{
  append_step, transition_step, write_step_error, appended_step, stepped_turn, moved_step, put_step,
  with_error, next_step_sequence,
}
use liaison.Agent.Runtime.Cases.{check_ctx_rule}

module _ (ctx : Option CtxError) (now : Time) (s : Store) where
  pub append_step_cases {ℓ} :
      (Q : Result Error (Turn × Step) × Store → Type ℓ) (turn_id : String) (expected : ℕ)
      (step : Step)
      → ((e : Error) → Q (err e, s))
      → ((turn : Turn)
          → (step.id == "") ≡ false
          → get turn_id s.turns ≡ some turn
          → not (turn.version == expected) ≡ false
          → is_terminal turn.status ≡ false
          → is_some (get step.id s.steps) ≡ false
          → Q (
            ok (
              stepped_turn now step.id turn,
              appended_step now turn_id (next_step_sequence turn_id s) step,
            ),
            record s {
              steps =
                  put step.id
                    (appended_step now turn_id (next_step_sequence turn_id s) step)
                    s.steps;
              turns = put turn_id (stepped_turn now step.id turn) s.turns;
            },
          ))
      → Q (append_step ctx now turn_id expected step s)
  unfolding append_step
  append_step_cases Q turn_id expected step refused done = check_ctx_rule Q ctx _ refused (
      fail_if_rule Q (step.id == "") _ (refused _) λ named.
        or_fail_rule Q (get turn_id s.turns) _ (refused _) λ turn found.
          fail_if_rule Q (not (turn.version == expected)) _ (refused _) λ current.
            fail_if_rule Q (is_terminal turn.status) _ (refused _) λ live.
              fail_if_rule Q (is_some (get step.id s.steps)) _ (refused _)
                λ fresh. done turn named found current live fresh)

  pub transition_step_cases {ℓ} :
      (Q : Result Error Step × Store → Type ℓ) (step_id : String) (to : StepStatus) (output : Bytes)
      → ((e : Error) → Q (err e, s))
      → ((step : Step)
          → get step_id s.steps ≡ some step
          → not (valid_step_transition step.status to) ≡ false
          → Q (
            ok (moved_step now to output step),
            put_step step_id (moved_step now to output step) s,
          ))
      → Q (transition_step ctx now step_id to output s)
  unfolding transition_step
  transition_step_cases Q step_id to output refused done = check_ctx_rule Q ctx _ refused (
      or_fail_rule Q (get step_id s.steps) _ (refused _) λ step found.
        fail_if_rule Q (not (valid_step_transition step.status to)) _ (refused _)
          λ allowed. done step found allowed)

pub write_step_error_cases {ℓ} :
    (s : Store) (Q : Result Error Step × Store → Type ℓ) (step_id code message : String)
    → ((e : Error) → Q (err e, s))
    → ((step : Step)
        → get step_id s.steps ≡ some step
        → Q (ok (with_error code message step), put_step step_id (with_error code message step) s))
    → Q (write_step_error step_id code message s)
unfolding write_step_error
write_step_error_cases s Q step_id code message refused done =
    or_fail_rule Q (get step_id s.steps) _ (refused _) done
