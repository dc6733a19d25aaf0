-- ===== src/Agent/Runtime/Store/Sessions.antt =====
-- The session operations of `MemoryStore` (runtime/store.go).
use liaison.Base.{
  ℕ, String, Bool, false, not, ◌&&◌, ◌||◌, Option, none, some, List, if◌then◌else◌, nat_beq, ltb,
}
use liaison.Base.Eq.{◌==◌, string_eq, nat_eq}
use liaison.Base.Exec.{pure, gets, or_fail, fail_if, modify, ◌>>=◌, ◌>>◌}
use liaison.Base.Lists.{keep}
use liaison.Base.Sort.{sort_by, str_ltb}
use liaison.Base.Table.{get, put, values}
use liaison.Base.Words.{inc64}
use liaison.Agent.Tool.Types.{Time, is_management}
use liaison.Agent.Runtime.Types
use liaison.Agent.Runtime.Types.{
  CtxError, Session, Attachment, is_archived, is_removed, is_some, validate_session,
  validate_attachment,
}
use liaison.Agent.Runtime.Store.{Store, Action, check_ctx, check}

-- A map insertion into each table.
abbrev pub put_session : String → Session → Store → Store
put_session k v s = record s { sessions = put k v s.sessions }

-- The session and the attachment that a creation stores.
abbrev pub new_session : Time → Session → Session
new_session now session = record session { version = 1; created_at = now; updated_at = now }

abbrev pub bound_session : Time → String → Session → Session
bound_session now attachment_id session = record session {
  version = 1;
  created_at = now;
  updated_at = now;
  active_attachment_id = attachment_id;
}

abbrev pub new_attachment : Time → Attachment → Attachment
new_attachment now attachment = record attachment {
  created_at = now;
  updated_at = now;
  generation = if attachment.generation == 0 then 1 else attachment.generation;
}

unfoldable pub create_session : Option CtxError → Time → Session → Action (Unit {0})
create_session ctx now session = do
  check_ctx ctx
  check (validate_session session)
  store ← gets (λ s. s)
  fail_if (is_some (get session.id store.sessions)) Types.already_exists
  modify (put_session session.id (new_session now session))
  pure tt

unfoldable pub create_session_with_attachment :
    Option CtxError → Time → Session → Attachment → Action (Session × Attachment)
create_session_with_attachment ctx now session attachment = do
  fail_if (is_management session.kind) Types.management_attachment
  check_ctx ctx
  check (validate_session session)
  fail_if (not (attachment.agent_session_id == session.id)) Types.attachment_mismatch
  check (validate_attachment attachment)
  store ← gets (λ s. s)
  fail_if (is_some (get session.id store.sessions)) Types.already_exists
  fail_if (is_some (get attachment.id store.attachments)) Types.already_exists
  let session' = bound_session now attachment.id session
  let attachment' = new_attachment now attachment
  modify (put_session session.id session')
  modify (λ s. record s { attachments = put attachment.id attachment' s.attachments })
  pure (session', attachment')

unfoldable pub get_session : Option CtxError → String → Action Session
get_session ctx session_id = do
  check_ctx ctx
  store ← gets (λ s. s)
  or_fail (get session_id store.sessions) Types.session_not_found

-- The `less` of `ListSessions`: newest first, then by ID.
abbrev pub newer_session : Session → Session → Bool
newer_session a b =
    if nat_beq a.updated_at b.updated_at then str_ltb a.id b.id else ltb b.updated_at a.updated_at

abbrev pub listed_for : ℕ → Session → Bool
listed_for created_by session = created_by == 0 || session.created_by == created_by

unfoldable pub list_sessions : Option CtxError → ℕ → Action (List Session)
list_sessions ctx created_by = do
  check_ctx ctx
  store ← gets (λ s. s)
  pure (sort_by newer_session (keep (listed_for created_by) (values store.sessions)))

abbrev pub archived_session : Time → Session → Session
archived_session now session = record session {
  status = Types.SessionStatus.archived;
  version = inc64 session.version;
  updated_at = now;
}

unfoldable pub archive_session : Option CtxError → Time → String → ℕ → Action Session
archive_session ctx now session_id expected_version = do
  check_ctx ctx
  store ← gets (λ s. s)
  session ← or_fail (get session_id store.sessions) Types.session_not_found
  fail_if (not (session.version == expected_version)) Types.version_conflict
  fail_if (not (session.active_turn_id == "")) Types.turn_already_active
  let session' = archived_session now session
  modify (put_session session_id session')
  pure session'

-- The attachment exists, belongs to the session and is not removed.
abbrev pub may_activate : String → Option Attachment → Bool
may_activate session_id none = false
may_activate session_id (some a) = a.agent_session_id == session_id && not (is_removed a.state)

abbrev pub attached_session : Time → String → Session → Session
attached_session now attachment_id session = record session {
  active_attachment_id = attachment_id;
  version = inc64 session.version;
  updated_at = now;
}

unfoldable pub set_active_attachment : Option CtxError → Time → String → String → ℕ → Action Session
set_active_attachment ctx now session_id attachment_id expected_version = do
  check_ctx ctx
  store ← gets (λ s. s)
  session ← or_fail (get session_id store.sessions) Types.session_not_found
  fail_if (not (session.version == expected_version)) Types.version_conflict
  fail_if (is_management session.kind && not (attachment_id == "")) Types.management_attachment
  fail_if (is_archived session.status) Types.session_archived
  fail_if
      (not (attachment_id == "")
        && not (may_activate session_id (get attachment_id store.attachments)))
      Types.attachment_not_found
  let session' = attached_session now attachment_id session
  modify (put_session session_id session')
  pure session'
