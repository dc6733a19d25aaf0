-- ===== src/Agent/Runtime/Consistency/Sessions.antt =====
-- The session operations keep the references of the store intact.
use text.Mathlib.TextEquality.{eq_iff}
use liaison.Base.{ℕ, String, ◌≡◌, refl, true, false, not, Option, none, some, arith}
use liaison.Base.Eq.{◌==◌, string_eq}
use liaison.Base.Table.{get, put, get-put}
use liaison.Agent.Tool.Types.{Time, is_management}
use liaison.Agent.Runtime.Types.{
  CtxError, Session, Attachment, is_archived, is_some, validate_attachment,
}
use liaison.Agent.Runtime.Store.{Store}
use liaison.Agent.Runtime.Store.Sessions.{
  create_session, create_session_with_attachment, archive_session, set_active_attachment,
  put_session, new_session, bound_session, new_attachment, archived_session, attached_session,
}
use liaison.Agent.Runtime.Cases.Sessions.{
  create_session_cases, create_session_with_attachment_cases, archive_session_cases,
  set_active_attachment_cases,
}
use liaison.Agent.Runtime.Consistency.{
  IsConsistent, active_turn_of, runs_for, takes_attachments, attached_to,
}

-- A session is written under its ID. `old` is what the map held there: nothing, or the session
-- before the change.
module _ {s : Store} (c : IsConsistent s) (id : String) (old : Option Session) (x' : Session)
    (found : get id s.sessions ≡ old) (key : x'.id ≡ id)
    (turns : x'.active_turn_id ≡ active_turn_of old)
    (runs : (x'.active_turn_id == "") ≡ false → runs_for id (get x'.active_turn_id s.turns) ≡ true)
    (archived : is_archived x'.status ≡ true → x'.active_turn_id ≡ "")
    (kind : takes_attachments old ≡ true → is_management x'.kind ≡ false)
    (attached : (x'.active_attachment_id == "") ≡ false
      → attached_to id (get x'.active_attachment_id s.attachments) ≡ true) where
  put_session-IsConsistent : IsConsistent (put_session id x' s)
  put_session-IsConsistent = record {
    session_key =
        λ k x h. ground (arith, get-put id k x' s.sessions, eq_iff id k, c.session_key k x);
    turn_key = c.turn_key;
    attachment_key = c.attachment_key;
    step_key = c.step_key;
    running_active = λ k t h r. ground (
      arith,
      get-put id t.agent_session_id x' s.sessions,
      eq_iff id t.agent_session_id,
      c.running_active k t,
    );
    active_runs =
        λ k x h r. ground (arith, get-put id k x' s.sessions, eq_iff id k, c.active_runs k x);
    archived_idle =
        λ k x h r. ground (arith, get-put id k x' s.sessions, eq_iff id k, c.archived_idle k x);
    attachment_owner = λ k a h. ground (
      arith,
      get-put id a.agent_session_id x' s.sessions,
      eq_iff id a.agent_session_id,
      c.attachment_owner k a,
    );
    active_attached =
        λ k x h r. ground (arith, get-put id k x' s.sessions, eq_iff id k, c.active_attached k x);
    step_turn = c.step_turn;
  }

module _ (ctx : Option CtxError) (now : Time) {s : Store} (c : IsConsistent s) where
  -- A created session must not claim an active turn or an active attachment.
  pub create_session-IsConsistent :
      (session : Session)
      → session.active_turn_id ≡ ""
      → session.active_attachment_id ≡ ""
      → IsConsistent (create_session ctx now session s).1
  create_session-IsConsistent session no_turn no_attachment =
      create_session_cases ctx now s (λ r. IsConsistent r.1) session (λ _. c)
        λ valid fresh.
          let free : get session.id s.sessions ≡ none = ground arith in
          put_session-IsConsistent c session.id none (new_session now session) free refl no_turn
            (λ h. ground (arith, eq_iff session.active_turn_id "")) (λ _. no_turn) (λ h. cc)
            (λ h. ground (arith, eq_iff session.active_attachment_id ""))

  pub archive_session-IsConsistent :
      (session_id : String) (expected_version : ℕ)
      → IsConsistent (archive_session ctx now session_id expected_version s).1
  archive_session-IsConsistent session_id expected_version =
      archive_session_cases ctx now s (λ r. IsConsistent r.1) session_id expected_version (λ _. c)
        λ session found current idle.
          put_session-IsConsistent c session_id (some session) (archived_session now session) found
            (c.session_key session_id session found) refl (c.active_runs session_id session found)
            (λ _. ground (arith, eq_iff session.active_turn_id "")) (λ h. ground arith)
            (c.active_attached session_id session found)

  pub set_active_attachment-IsConsistent :
      (session_id attachment_id : String) (expected_version : ℕ)
      → IsConsistent (set_active_attachment ctx now session_id attachment_id expected_version s).1
  set_active_attachment-IsConsistent session_id attachment_id expected_version =
      set_active_attachment_cases ctx now s (λ r. IsConsistent r.1) session_id attachment_id
        expected_version (λ _. c)
        λ session found current access live own.
          put_session-IsConsistent c session_id (some session)
            (attached_session now attachment_id session) found
            (c.session_key session_id session found) refl (c.active_runs session_id session found)
            (c.archived_idle session_id session found) (λ h. ground arith) (λ h. ground arith)

-- The store after a session and its first attachment are created together.
module _ {s : Store} (c : IsConsistent s) (now : Time) (session : Session) (attachment : Attachment)
    (access : is_management session.kind ≡ false)
    (owned : not (attachment.agent_session_id == session.id) ≡ false)
    (complete : validate_attachment attachment ≡ none)
    (fresh : is_some (get session.id s.sessions) ≡ false)
    (new : is_some (get attachment.id s.attachments) ≡ false)
    (no_turn : session.active_turn_id ≡ "") where
  abbrev x' : Session
  x' = bound_session now attachment.id session

  abbrev a' : Attachment
  a' = new_attachment now attachment

  abbrev created : Store
  created = record s {
    sessions = put session.id x' s.sessions;
    attachments = put attachment.id a' s.attachments;
  }

  created-IsConsistent : IsConsistent created
  unfolding validate_attachment
  created-IsConsistent = record {
    session_key = λ k x h.
        ground (arith, get-put session.id k x' s.sessions, eq_iff session.id k, c.session_key k x);
    turn_key = c.turn_key;
    attachment_key = λ k a h. ground (
      arith,
      get-put attachment.id k a' s.attachments,
      eq_iff attachment.id k,
      eq_iff attachment.id "",
      c.attachment_key k a,
    );
    step_key = c.step_key;
    running_active = λ k t h r. ground (
      arith,
      get-put session.id t.agent_session_id x' s.sessions,
      eq_iff session.id t.agent_session_id,
      c.running_active k t,
    );
    active_runs = λ k x h r. ground (
      arith,
      get-put session.id k x' s.sessions,
      eq_iff session.id k,
      eq_iff session.active_turn_id "",
      c.active_runs k x,
    );
    archived_idle = λ k x h r.
        ground
          (arith, get-put session.id k x' s.sessions, eq_iff session.id k, c.archived_idle k x);
    attachment_owner = λ k a h. ground (
      arith,
      get-put attachment.id k a' s.attachments,
      get-put session.id a.agent_session_id x' s.sessions,
      eq_iff attachment.agent_session_id session.id,
      eq_iff session.id a.agent_session_id,
      c.attachment_owner k a,
    );
    active_attached = λ k x h r. ground (
      arith,
      get-put session.id k x' s.sessions,
      get-put attachment.id x.active_attachment_id a' s.attachments,
      eq_iff attachment.id x.active_attachment_id,
      eq_iff session.id k,
      eq_iff attachment.agent_session_id session.id,
      eq_iff attachment.agent_session_id k,
      c.active_attached k x,
    );
    step_turn = c.step_turn;
  }

pub create_session_with_attachment-IsConsistent :
    (ctx : Option CtxError) (now : Time) (s : Store) (session : Session) (attachment : Attachment)
    → IsConsistent s
    → session.active_turn_id ≡ ""
    → IsConsistent (create_session_with_attachment ctx now session attachment s).1
create_session_with_attachment-IsConsistent ctx now s session attachment c no_turn =
    create_session_with_attachment_cases ctx now s (λ r. IsConsistent r.1) session attachment
      (λ _. c)
      λ access valid owned complete fresh new.
        created-IsConsistent c now session attachment access owned complete fresh new no_turn
