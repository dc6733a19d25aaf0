-- ===== src/Agent/Runtime/Calls/Progress.antt =====
-- How turns and steps move under calls: along the allowed transitions only, and for ever ended.
use text.Mathlib.TextEquality.{eq_iff}
use liaison.Base.{String, ◌≡◌, refl, Bool, true, false, ◌&&◌, Option, none, some, arith}
use liaison.Base.Eq.{◌==◌, string_eq}
use liaison.Base.Exec.{Result}
use liaison.Base.Table.{get, get-put}
use liaison.Agent.Tool.Types.{Time}
use liaison.Agent.Runtime.Status.{valid_turn_transition, valid_step_transition}
use liaison.Agent.Runtime.Types.{CtxError, Error, Turn, Step}
use liaison.Agent.Runtime.Store.{Store}
use liaison.Agent.Runtime.Store.Turns.{queued_turn, moved_turn}
use liaison.Agent.Runtime.Store.Steps.{
  appended_step, stepped_turn, moved_step, with_error, next_step_sequence,
}
use liaison.Agent.Runtime.Cases.Sessions.{
  create_session_cases, create_session_with_attachment_cases, archive_session_cases,
  set_active_attachment_cases,
}
use liaison.Agent.Runtime.Cases.Attachments.{create_attachment_cases, update_attachment_cases}
use liaison.Agent.Runtime.Cases.Turns.{
  start_turn_cases, transition_turn_cases, turns-free_session, steps-free_session,
}
use liaison.Agent.Runtime.Cases.Steps.{
  append_step_cases, transition_step_cases, write_step_error_cases,
}
use liaison.Agent.Runtime.Cases.Messages.{append_message_cases, save_tool_snapshot_cases}
use liaison.Agent.Runtime.Calls.{
  Call, creates, creates_with, archives, activates, attaches, updates, starts, moves, appends,
  moves_step, writes_error, sends, saves, perform,
}

-- A turn stays in the map, in its session, and takes an allowed transition.
abbrev pub turn_follows : Option Turn → Option Turn → Bool
turn_follows none after = true
turn_follows (some t) none = false
turn_follows (some t) (some u) =
    valid_turn_transition t.status u.status && u.agent_session_id == t.agent_session_id

abbrev pub step_follows : Option Step → Option Step → Bool
step_follows none after = true
step_follows (some p) none = false
step_follows (some p) (some q) = valid_step_transition p.status q.status && q.turn_id == p.turn_id

same_turn : (o : Option Turn) → turn_follows o o ≡ true
unfolding valid_turn_transition
same_turn none = refl
same_turn (some t) = ground (arith, eq_iff t.agent_session_id t.agent_session_id)

same_step : (o : Option Step) → step_follows o o ≡ true
unfolding valid_step_transition
same_step none = refl
same_step (some p) = ground (arith, eq_iff p.turn_id p.turn_id)

module _ (k : String) (s : Store) where
  abbrev TurnFollows : {A : Type 0} → Result Error A × Store → Type 0
  TurnFollows r = turn_follows (get k s.turns) (get k r.1.turns) ≡ true

  -- Every call leaves every turn in its session, with the status that it had or one to which the
  -- transition is allowed; no call removes a turn.
  pub perform_turn :
      (ctx : Option CtxError) (now : Time) (c : Call)
      → turn_follows (get k s.turns) (get k (perform ctx now c s).1.turns) ≡ true
  unfolding perform moved_turn
  perform_turn ctx now (starts id turn) =
      start_turn_cases ctx now s TurnFollows id turn (λ e. same_turn _)
        λ session named found live idle fresh. ground (
          arith,
          get-put turn.id k (queued_turn now id turn) s.turns,
          eq_iff turn.id k,
          same_turn (get k s.turns),
        )
  perform_turn ctx now (moves id version to code message) =
      transition_turn_cases ctx now s TurnFollows id version to code message (λ e. same_turn _)
        λ turn found current allowed. rw turns-free_session (
          ground (
            arith,
            get-put id k (moved_turn now to code message turn) s.turns,
            eq_iff id k,
            eq_iff turn.agent_session_id turn.agent_session_id,
            same_turn (get k s.turns),
          ))
  perform_turn ctx now (appends id version step) =
      append_step_cases ctx now s TurnFollows id version step (λ e. same_turn _)
        λ turn named found current live fresh. ground (
          arith,
          get-put id k (stepped_turn now step.id turn) s.turns,
          eq_iff id k,
          same_turn (get k s.turns),
        )
  perform_turn ctx now (creates session) =
      create_session_cases ctx now s TurnFollows session (λ e. same_turn _) λ _ _. same_turn _
  perform_turn ctx now (creates_with session attachment) =
      create_session_with_attachment_cases ctx now s TurnFollows session attachment
        (λ e. same_turn _) λ _ _ _ _ _ _. same_turn _
  perform_turn ctx now (archives id version) =
      archive_session_cases ctx now s TurnFollows id version (λ e. same_turn _)
        λ _ _ _ _. same_turn _
  perform_turn ctx now (activates id attachment_id version) =
      set_active_attachment_cases ctx now s TurnFollows id attachment_id version (λ e. same_turn _)
        λ _ _ _ _ _ _. same_turn _
  perform_turn ctx now (attaches attachment) =
      create_attachment_cases ctx now s TurnFollows attachment (λ e. same_turn _)
        λ _ _ _ _ _ _. same_turn _
  perform_turn ctx now (updates attachment generation) =
      update_attachment_cases ctx now s TurnFollows attachment generation (λ e. same_turn _)
        λ _ _ _ _ _ _. same_turn _
  perform_turn ctx now (moves_step id to output) =
      transition_step_cases ctx now s TurnFollows id to output (λ e. same_turn _)
        λ _ _ _. same_turn _
  perform_turn ctx now (writes_error id code message) =
      write_step_error_cases s TurnFollows id code message (λ e. same_turn _) λ _ _. same_turn _
  perform_turn ctx now (sends message) =
      append_message_cases ctx s TurnFollows now message (λ e. same_turn _) λ _. same_turn _
  perform_turn ctx now (saves turn_id step_id snapshot) =
      save_tool_snapshot_cases ctx s TurnFollows turn_id step_id snapshot (λ e. same_turn _)
        λ _. same_turn _

  abbrev StepFollows : {A : Type 0} → Result Error A × Store → Type 0
  StepFollows r = step_follows (get k s.steps) (get k r.1.steps) ≡ true

  -- Every call leaves every step in its turn, with the status that it had or one to which the
  -- transition is allowed; no call removes a step.
  perform_step :
      (ctx : Option CtxError) (now : Time) (c : Call)
      → step_follows (get k s.steps) (get k (perform ctx now c s).1.steps) ≡ true
  unfolding perform moved_step
  perform_step ctx now (starts id turn) =
      start_turn_cases ctx now s StepFollows id turn (λ e. same_step _) λ _ _ _ _ _ _. same_step _
  perform_step ctx now (moves id version to code message) =
      transition_turn_cases ctx now s StepFollows id version to code message (λ e. same_step _)
        λ turn found current allowed. rw steps-free_session (same_step _)
  perform_step ctx now (appends id version step) =
      append_step_cases ctx now s StepFollows id version step (λ e. same_step _)
        λ turn named found current live fresh. ground (
          arith,
          get-put step.id k (appended_step now id (next_step_sequence id s) step) s.steps,
          eq_iff step.id k,
          same_step (get k s.steps),
        )
  perform_step ctx now (moves_step id to output) =
      transition_step_cases ctx now s StepFollows id to output (λ e. same_step _)
        λ step found allowed. ground (
          arith,
          get-put id k (moved_step now to output step) s.steps,
          eq_iff id k,
          eq_iff step.turn_id step.turn_id,
          same_step (get k s.steps),
        )
  perform_step ctx now (writes_error id code message) =
      write_step_error_cases s StepFollows id code message (λ e. same_step _)
        λ step found. ground (
          arith,
          get-put id k (with_error code message step) s.steps,
          eq_iff id k,
          same_step (get k s.steps),
        )
  perform_step ctx now (creates session) =
      create_session_cases ctx now s StepFollows session (λ e. same_step _) λ _ _. same_step _
  perform_step ctx now (creates_with session attachment) =
      create_session_with_attachment_cases ctx now s StepFollows session attachment
        (λ e. same_step _) λ _ _ _ _ _ _. same_step _
  perform_step ctx now (archives id version) =
      archive_session_cases ctx now s StepFollows id version (λ e. same_step _)
        λ _ _ _ _. same_step _
  perform_step ctx now (activates id attachment_id version) =
      set_active_attachment_cases ctx now s StepFollows id attachment_id version (λ e. same_step _)
        λ _ _ _ _ _ _. same_step _
  perform_step ctx now (attaches attachment) =
      create_attachment_cases ctx now s StepFollows attachment (λ e. same_step _)
        λ _ _ _ _ _ _. same_step _
  perform_step ctx now (updates attachment generation) =
      update_attachment_cases ctx now s StepFollows attachment generation (λ e. same_step _)
        λ _ _ _ _ _ _. same_step _
  perform_step ctx now (sends message) =
      append_message_cases ctx s StepFollows now message (λ e. same_step _) λ _. same_step _
  perform_step ctx now (saves turn_id step_id snapshot) =
      save_tool_snapshot_cases ctx s StepFollows turn_id step_id snapshot (λ e. same_step _)
        λ _. same_step _
