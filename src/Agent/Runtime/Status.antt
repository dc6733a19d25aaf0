-- ===== src/Agent/Runtime/Status.antt =====
-- The states of turns and steps (runtime/types.go), their transition tests, and what these allow.
-- The two types hold the declared constants: the `default` branches of the source, for other
-- values of the `uint8`, are not reached.
use liaison.Base.{Bool, true, false, ◌||◌}

pub data TurnStatus : Type 0 where
  queued running waiting_approval completed cancelled failed : TurnStatus

pub data StepStatus : Type 0 where
  pending running waiting_approval completed cancelled failed : StepStatus

pub data StepKind : Type 0 where
  model tool approval : StepKind

-- `TurnStatus.Terminal`.
unfoldable pub is_terminal : TurnStatus → Bool
is_terminal TurnStatus.completed = true
is_terminal TurnStatus.cancelled = true
is_terminal TurnStatus.failed = true
is_terminal _ = false

-- The steps whose completion time is set.
unfoldable pub is_final : StepStatus → Bool
is_final StepStatus.completed = true
is_final StepStatus.cancelled = true
is_final StepStatus.failed = true
is_final _ = false

-- `from == to` of the source, for the two types.
abbrev pub same_turn_status : TurnStatus → TurnStatus → Bool
same_turn_status TurnStatus.queued TurnStatus.queued = true
same_turn_status TurnStatus.running TurnStatus.running = true
same_turn_status TurnStatus.waiting_approval TurnStatus.waiting_approval = true
same_turn_status TurnStatus.completed TurnStatus.completed = true
same_turn_status TurnStatus.cancelled TurnStatus.cancelled = true
same_turn_status TurnStatus.failed TurnStatus.failed = true
same_turn_status _ _ = false

abbrev pub same_step_status : StepStatus → StepStatus → Bool
same_step_status StepStatus.pending StepStatus.pending = true
same_step_status StepStatus.running StepStatus.running = true
same_step_status StepStatus.waiting_approval StepStatus.waiting_approval = true
same_step_status StepStatus.completed StepStatus.completed = true
same_step_status StepStatus.cancelled StepStatus.cancelled = true
same_step_status StepStatus.failed StepStatus.failed = true
same_step_status _ _ = false

-- The `switch` of `validTurnTransition`.
abbrev turn_switch : TurnStatus → TurnStatus → Bool
turn_switch TurnStatus.queued to =
    same_turn_status to TurnStatus.running
    || same_turn_status to TurnStatus.cancelled
    || same_turn_status to TurnStatus.failed
turn_switch TurnStatus.running to =
    same_turn_status to TurnStatus.waiting_approval
    || same_turn_status to TurnStatus.completed
    || same_turn_status to TurnStatus.cancelled
    || same_turn_status to TurnStatus.failed
turn_switch TurnStatus.waiting_approval to =
    same_turn_status to TurnStatus.running
    || same_turn_status to TurnStatus.cancelled
    || same_turn_status to TurnStatus.failed
turn_switch _ to = false

unfoldable pub valid_turn_transition : TurnStatus → TurnStatus → Bool
valid_turn_transition from to = same_turn_status from to || turn_switch from to

-- The `switch` of `validStepTransition`.
abbrev step_switch : StepStatus → StepStatus → Bool
step_switch StepStatus.pending to =
    same_step_status to StepStatus.running
    || same_step_status to StepStatus.cancelled
    || same_step_status to StepStatus.failed
step_switch StepStatus.running to =
    same_step_status to StepStatus.waiting_approval
    || same_step_status to StepStatus.completed
    || same_step_status to StepStatus.cancelled
    || same_step_status to StepStatus.failed
step_switch StepStatus.waiting_approval to =
    same_step_status to StepStatus.running
    || same_step_status to StepStatus.cancelled
    || same_step_status to StepStatus.failed
step_switch _ to = false

unfoldable pub valid_step_transition : StepStatus → StepStatus → Bool
valid_step_transition from to = same_step_status from to || step_switch from to
