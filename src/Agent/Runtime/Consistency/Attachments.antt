-- ===== src/Agent/Runtime/Consistency/Attachments.antt =====
-- The attachment operations keep the references of the store intact.
use text.Mathlib.TextEquality.{eq_iff}
use liaison.Base.{ℕ, String, ◌≡◌, ◌≢◌, true, Option, arith}
use liaison.Base.Eq.{string_eq}
use liaison.Base.Table.{get, get-put}
use liaison.Agent.Tool.Types.{Time}
use liaison.Agent.Runtime.Types.{CtxError, Attachment, validate_attachment}
use liaison.Agent.Runtime.Store.{Store}
use liaison.Agent.Runtime.Store.Attachments.{
  create_attachment, update_attachment, put_attachment, new_attachment, next_attachment,
}
use liaison.Agent.Runtime.Cases.Attachments.{create_attachment_cases, update_attachment_cases}
use liaison.Agent.Runtime.Consistency.{IsConsistent, takes_attachments, attached_to}

module _ {s : Store} (c : IsConsistent s) (a' : Attachment) (named : a'.id ≢ "")
    (owner : takes_attachments (get a'.agent_session_id s.sessions) ≡ true)
    (kept : (k : String)
      → attached_to k (get a'.id s.attachments) ≡ true
      → a'.agent_session_id ≡ k) where
  put_attachment-IsConsistent : IsConsistent (put_attachment a'.id a' s)
  put_attachment-IsConsistent = record {
    session_key = c.session_key;
    turn_key = c.turn_key;
    attachment_key = λ k a h.
        ground (arith, get-put a'.id k a' s.attachments, eq_iff a'.id k, c.attachment_key k a);
    step_key = c.step_key;
    running_active = c.running_active;
    active_runs = c.active_runs;
    archived_idle = c.archived_idle;
    attachment_owner = λ k a h.
        ground (arith, get-put a'.id k a' s.attachments, eq_iff a'.id k, c.attachment_owner k a);
    active_attached = λ k x h r. ground (
      arith,
      get-put a'.id x.active_attachment_id a' s.attachments,
      eq_iff a'.id x.active_attachment_id,
      eq_iff a'.agent_session_id k,
      c.active_attached k x,
      kept k,
    );
    step_turn = c.step_turn;
  }

module _ (ctx : Option CtxError) (now : Time) {s : Store} (c : IsConsistent s) where
  pub create_attachment-IsConsistent :
      (attachment : Attachment) → IsConsistent (create_attachment ctx now attachment s).1
  unfolding validate_attachment
  create_attachment-IsConsistent attachment =
      create_attachment_cases ctx now s (λ r. IsConsistent r.1) attachment (λ _. c)
        λ session valid found access live fresh.
          put_attachment-IsConsistent c (new_attachment now attachment)
            (λ h. ground (arith, eq_iff attachment.id "")) (ground arith) (λ k h. ground arith)

  pub update_attachment-IsConsistent :
      (attachment : Attachment) (expected_generation : ℕ)
      → IsConsistent (update_attachment ctx now attachment expected_generation s).1
  update_attachment-IsConsistent attachment expected_generation =
      update_attachment_cases ctx now s (λ r. IsConsistent r.1) attachment expected_generation
        (λ _. c)
        λ current valid found same bound live.
          put_attachment-IsConsistent c (next_attachment now expected_generation current attachment)
            (λ h. ground (arith, c.attachment_key attachment.id current))
            (ground (
              arith,
              eq_iff current.agent_session_id attachment.agent_session_id,
              c.attachment_owner attachment.id current,
            ))
            (λ k h. ground (
              arith,
              eq_iff current.agent_session_id attachment.agent_session_id,
              eq_iff current.agent_session_id k,
            ))
