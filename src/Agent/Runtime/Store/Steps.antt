-- ===== src/Agent/Runtime/Store/Steps.antt =====
-- The step operations of `MemoryStore` (runtime/store.go).
use liaison.Base.{
  ℕ, String, Bool, not, ◌&&◌, Option, some, List, [], ◌∷◌, if◌then◌else◌, nat_beq, ltb, leb,
}
use liaison.Base.Eq.{◌==◌, string_eq, nat_eq}
use liaison.Base.Exec.{pure, gets, or_fail, fail_if, modify, ◌>>=◌, ◌>>◌}
use liaison.Base.Lists.{keep, any, is_empty}
use liaison.Base.Sort.{sort_by, str_ltb}
use liaison.Base.Table.{get, put, values}
use liaison.Base.Words.{inc32, inc64}
use liaison.Agent.Tool.Types.{Bytes, Time}
use liaison.Agent.Runtime.Status.{
  StepStatus, is_terminal, is_final, same_step_status, valid_step_transition,
}
use liaison.Agent.Runtime.Types
use liaison.Agent.Runtime.Types.{CtxError, Turn, Step, is_some}
use liaison.Agent.Runtime.Store.{Store, Action, check_ctx}

abbrev pub put_step : String → Step → Store → Store
put_step k v s = record s { steps = put k v s.steps }

-- The loop of `nextStepSequenceLocked`, over one iteration order of the map.
unfoldable pub next_sequence_from : ℕ → String → List Step → ℕ
next_sequence_from next turn_id [] = next
next_sequence_from next turn_id (step ∷ steps) =
    next_sequence_from
      (if step.turn_id == turn_id && leb next step.sequence then inc32 step.sequence else next)
      turn_id steps

unfoldable pub next_step_sequence : String → Store → ℕ
unfolding next_sequence_from
next_step_sequence turn_id s = next_sequence_from 1 turn_id (values s.steps)

-- The step that `AppendStep` stores, and the turn that it leaves.
abbrev pub appended_step : Time → String → ℕ → Step → Step
appended_step now turn_id sequence step = record step {
  turn_id = turn_id;
  sequence = sequence;
  version = 1;
  created_at = now;
  updated_at = now;
  started_at =
      if same_step_status step.status StepStatus.running then some now else step.started_at;
}

abbrev pub stepped_turn : Time → String → Turn → Turn
stepped_turn now step_id turn = record turn {
  active_step_id = step_id;
  version = inc64 turn.version;
  updated_at = now;
}

unfoldable pub append_step : Option CtxError → Time → String → ℕ → Step → Action (Turn × Step)
unfolding is_terminal
append_step ctx now turn_id expected_turn_version step = do
  check_ctx ctx
  fail_if (step.id == "") Types.missing_id
  store ← gets (λ s. s)
  turn ← or_fail (get turn_id store.turns) Types.turn_not_found
  fail_if (not (turn.version == expected_turn_version)) Types.version_conflict
  fail_if (is_terminal turn.status) Types.invalid_transition
  fail_if (is_some (get step.id store.steps)) Types.already_exists
  let step' = appended_step now turn_id (next_step_sequence turn_id store) step
  let turn' = stepped_turn now step.id turn
  modify (put_step step.id step')
  modify (λ s. record s { turns = put turn_id turn' s.turns })
  pure (turn', step')

-- The step after `transitionStep`.
unfoldable pub moved_step : Time → StepStatus → Bytes → Step → Step
unfolding is_final
moved_step now to output step = record step {
  status = to;
  version = inc64 step.version;
  updated_at = now;
  output = if is_empty output then step.output else output;
  completed_at = if is_final to then some now else step.completed_at;
}

unfoldable pub transition_step : Option CtxError → Time → String → StepStatus → Bytes → Action Step
unfolding valid_step_transition
transition_step ctx now step_id to output = do
  check_ctx ctx
  store ← gets (λ s. s)
  step ← or_fail (get step_id store.steps) Types.step_not_found
  fail_if (not (valid_step_transition step.status to)) Types.invalid_transition
  modify (put_step step_id (moved_step now to output step))
  pure (moved_step now to output step)

unfoldable pub complete_step : Option CtxError → Time → String → Bytes → Action Step
unfolding transition_step
complete_step ctx now step_id output = transition_step ctx now step_id StepStatus.completed output

unfoldable pub wait_step_approval : Option CtxError → Time → String → Action Step
unfolding transition_step
wait_step_approval ctx now step_id = transition_step ctx now step_id StepStatus.waiting_approval []

unfoldable pub resume_step : Option CtxError → Time → String → Action Step
unfolding transition_step
resume_step ctx now step_id = transition_step ctx now step_id StepStatus.running []

abbrev pub with_error : String → String → Step → Step
with_error code message step = record step { error_code = code; error_message = message }

-- The lock is released between the transition and the write of the error: two steps.
-- At a missing key Go reads a zero step; that key was found one step before.
unfoldable pub write_step_error : String → String → String → Action Step
write_step_error step_id code message = do
  store ← gets (λ s. s)
  current ← or_fail (get step_id store.steps) Types.step_not_found
  modify (put_step step_id (with_error code message current))
  pure (with_error code message current)

unfoldable pub finish_step :
    Option CtxError → Time → String → StepStatus → String → String → Action Step
unfolding transition_step write_step_error
finish_step ctx now step_id status code message = do
  transition_step ctx now step_id status []
  write_step_error step_id code message

unfoldable pub cancel_step : Option CtxError → Time → String → String → String → Action Step
unfolding finish_step
cancel_step ctx now step_id code message =
    finish_step ctx now step_id StepStatus.cancelled code message

unfoldable pub fail_step : Option CtxError → Time → String → String → String → Action Step
unfolding finish_step
fail_step ctx now step_id code message = finish_step ctx now step_id StepStatus.failed code message

unfoldable pub get_step : Option CtxError → String → Action Step
get_step ctx step_id = do
  check_ctx ctx
  store ← gets (λ s. s)
  or_fail (get step_id store.steps) Types.step_not_found

-- The `less` of `ListSessionSteps`: by time, then by turn, then by sequence.
abbrev pub earlier_step : Step → Step → Bool
earlier_step a b =
    if nat_beq a.created_at b.created_at
    then (if a.turn_id == b.turn_id then ltb a.sequence b.sequence else str_ltb a.turn_id b.turn_id)
    else ltb a.created_at b.created_at

unfoldable pub list_session_steps : Option CtxError → String → Action (List Step)
unfolding any
list_session_steps ctx session_id = do
  check_ctx ctx
  store ← gets (λ s. s)
  fail_if (not (is_some (get session_id store.sessions))) Types.session_not_found
  let turns = keep (λ t. t.agent_session_id == session_id) (values store.turns)
  pure (
      sort_by earlier_step
        (keep (λ step. any (λ t. t.id == step.turn_id) turns) (values store.steps)))
