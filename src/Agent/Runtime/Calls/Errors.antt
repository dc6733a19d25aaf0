-- ===== src/Agent/Runtime/Calls/Errors.antt =====
-- A call that returns an error has changed nothing.
use liaison.Base.{◌≡◌, refl, Option, some}
use liaison.Base.Exec.{Result}
use liaison.Agent.Tool.Types.{Time}
use liaison.Agent.Runtime.Types.{CtxError, Error}
use liaison.Agent.Runtime.Store.{Store}
use liaison.Agent.Runtime.Cases.Sessions.{
  create_session_cases, create_session_with_attachment_cases, archive_session_cases,
  set_active_attachment_cases,
}
use liaison.Agent.Runtime.Cases.Attachments.{create_attachment_cases, update_attachment_cases}
use liaison.Agent.Runtime.Cases.Turns.{start_turn_cases, transition_turn_cases}
use liaison.Agent.Runtime.Cases.Steps.{
  append_step_cases, transition_step_cases, write_step_error_cases,
}
use liaison.Agent.Runtime.Cases.Messages.{append_message_cases, save_tool_snapshot_cases}
use liaison.Agent.Runtime.Calls.{
  Call, creates, creates_with, archives, activates, attaches, updates, starts, moves, appends,
  moves_step, writes_error, sends, saves, perform, error_of,
}

module _ (s : Store) (x : Error) where
  abbrev Unchanged : {A : Type 0} → Result Error A × Store → Type 0
  Unchanged r = error_of r.0 ≡ some x → r.1 ≡ s

  -- Whatever call is made, in whatever context: if it returns an error, the store is as it was.
  pub error_unchanged :
      (ctx : Option CtxError) (now : Time) (c : Call)
      → (perform ctx now c s).0 ≡ some x
      → (perform ctx now c s).1 ≡ s
  unfolding perform
  error_unchanged ctx now (creates session) =
      create_session_cases ctx now s Unchanged session (λ e h. refl) λ _ _ h. cc
  error_unchanged ctx now (creates_with session attachment) =
      create_session_with_attachment_cases ctx now s Unchanged session attachment (λ e h. refl)
        λ _ _ _ _ _ _ h. cc
  error_unchanged ctx now (archives id version) =
      archive_session_cases ctx now s Unchanged id version (λ e h. refl) λ _ _ _ _ h. cc
  error_unchanged ctx now (activates id attachment_id version) =
      set_active_attachment_cases ctx now s Unchanged id attachment_id version (λ e h. refl)
        λ _ _ _ _ _ _ h. cc
  error_unchanged ctx now (attaches attachment) =
      create_attachment_cases ctx now s Unchanged attachment (λ e h. refl) λ _ _ _ _ _ _ h. cc
  error_unchanged ctx now (updates attachment generation) =
      update_attachment_cases ctx now s Unchanged attachment generation (λ e h. refl)
        λ _ _ _ _ _ _ h. cc
  error_unchanged ctx now (starts id turn) =
      start_turn_cases ctx now s Unchanged id turn (λ e h. refl) λ _ _ _ _ _ _ h. cc
  error_unchanged ctx now (moves id version to code message) =
      transition_turn_cases ctx now s Unchanged id version to code message (λ e h. refl)
        λ _ _ _ _ h. cc
  error_unchanged ctx now (appends id version step) =
      append_step_cases ctx now s Unchanged id version step (λ e h. refl) λ _ _ _ _ _ _ h. cc
  error_unchanged ctx now (moves_step id to output) =
      transition_step_cases ctx now s Unchanged id to output (λ e h. refl) λ _ _ _ h. cc
  error_unchanged ctx now (writes_error id code message) =
      write_step_error_cases s Unchanged id code message (λ e h. refl) λ _ _ h. cc
  error_unchanged ctx now (sends message) =
      append_message_cases ctx s Unchanged now message (λ e h. refl) λ _ h. cc
  error_unchanged ctx now (saves turn_id step_id snapshot) =
      save_tool_snapshot_cases ctx s Unchanged turn_id step_id snapshot (λ e h. refl) λ _ h. cc
