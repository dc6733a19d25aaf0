-- ===== src/Agent/Runtime/Store/Attachments.antt =====
-- The attachment operations of `MemoryStore` (runtime/store.go).
use liaison.Base.{ℕ, String, Bool, not, ◌&&◌, Option, List, if◌then◌else◌, nat_beq, ltb}
use liaison.Base.Eq.{◌==◌, string_eq, nat_eq}
use liaison.Base.Exec.{pure, gets, or_fail, fail_if, modify, ◌>>=◌, ◌>>◌}
use liaison.Base.Lists.{keep}
use liaison.Base.Sort.{sort_by, str_ltb}
use liaison.Base.Table.{get, put, values}
use liaison.Base.Words.{inc64}
use liaison.Agent.Tool.Types.{Time, is_management}
use liaison.Agent.Runtime.Types
use liaison.Agent.Runtime.Types.{
  CtxError, Attachment, is_archived, is_removed, is_some, validate_attachment,
}
use liaison.Agent.Runtime.Store.{Store, Action, check_ctx, check}

abbrev pub put_attachment : String → Attachment → Store → Store
put_attachment k v s = record s { attachments = put k v s.attachments }

abbrev pub new_attachment : Time → Attachment → Attachment
new_attachment now attachment = record attachment {
  generation = if attachment.generation == 0 then 1 else attachment.generation;
  created_at = now;
  updated_at = now;
}

unfoldable pub create_attachment : Option CtxError → Time → Attachment → Action Attachment
create_attachment ctx now attachment = do
  check_ctx ctx
  check (validate_attachment attachment)
  store ← gets (λ s. s)
  session ← or_fail (get attachment.agent_session_id store.sessions) Types.session_not_found
  fail_if (is_management session.kind) Types.management_attachment
  fail_if (is_archived session.status) Types.session_archived
  fail_if (is_some (get attachment.id store.attachments)) Types.already_exists
  let attachment' = new_attachment now attachment
  modify (put_attachment attachment.id attachment')
  pure attachment'

unfoldable pub get_attachment : Option CtxError → String → Action Attachment
get_attachment ctx attachment_id = do
  check_ctx ctx
  store ← gets (λ s. s)
  or_fail (get attachment_id store.attachments) Types.attachment_not_found

-- The `less` of `ListAttachments`: oldest first, then by ID.
abbrev pub older_attachment : Attachment → Attachment → Bool
older_attachment a b =
    if nat_beq a.created_at b.created_at then str_ltb a.id b.id else ltb a.created_at b.created_at

unfoldable pub list_attachments : Option CtxError → String → Action (List Attachment)
list_attachments ctx session_id = do
  check_ctx ctx
  store ← gets (λ s. s)
  fail_if (not (is_some (get session_id store.sessions))) Types.session_not_found
  pure (
      sort_by older_attachment
        (keep (λ a. a.agent_session_id == session_id) (values store.attachments)))

-- Session, access, application and protocol of the stored attachment are those of the new one.
abbrev pub same_binding : Attachment → Attachment → Bool
same_binding a b =
    a.agent_session_id == b.agent_session_id
    && a.access_id == b.access_id
    && a.application_id == b.application_id
    && a.protocol == b.protocol

abbrev pub next_attachment : Time → ℕ → Attachment → Attachment → Attachment
next_attachment now expected_generation current attachment = record attachment {
  generation = inc64 expected_generation;
  created_at = current.created_at;
  updated_at = now;
}

unfoldable pub update_attachment : Option CtxError → Time → Attachment → ℕ → Action Attachment
update_attachment ctx now attachment expected_generation = do
  check_ctx ctx
  check (validate_attachment attachment)
  store ← gets (λ s. s)
  current ← or_fail (get attachment.id store.attachments) Types.attachment_not_found
  fail_if (not (current.generation == expected_generation)) Types.version_conflict
  fail_if (not (same_binding current attachment)) Types.immutable_binding
  fail_if (is_removed current.state) Types.invalid_transition
  let attachment' = next_attachment now expected_generation current attachment
  modify (put_attachment attachment.id attachment')
  pure attachment'
