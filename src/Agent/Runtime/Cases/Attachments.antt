-- ===== src/Agent/Runtime/Cases/Attachments.antt =====
-- The cases of the attachment operations of the store.
use liaison.Base.{ℕ, ◌≡◌, false, not, Option, none, some}
use liaison.Base.Eq.{◌==◌, string_eq, nat_eq}
use liaison.Base.Exec.{Result, ok, err}
use liaison.Base.Exec.Rules.{fail_if_rule, or_fail_rule}
use liaison.Base.Table.{get}
use liaison.Agent.Tool.Types.{Time, is_management}
use liaison.Agent.Runtime.Types.{
  CtxError, Error, Session, Attachment, is_archived, is_removed, is_some, validate_attachment,
}
use liaison.Agent.Runtime.Store.{Store}
use liaison.Agent.Runtime.Store.Attachments.{
  create_attachment, update_attachment, put_attachment, new_attachment, next_attachment,
  same_binding,
}
use liaison.Agent.Runtime.Cases.{check_ctx_rule, check_rule}

module _ (ctx : Option CtxError) (now : Time) (s : Store) where
  pub create_attachment_cases {ℓ} :
      (Q : Result Error Attachment × Store → Type ℓ) (attachment : Attachment)
      → ((e : Error) → Q (err e, s))
      → ((session : Session)
          → validate_attachment attachment ≡ none
          → get attachment.agent_session_id s.sessions ≡ some session
          → is_management session.kind ≡ false
          → is_archived session.status ≡ false
          → is_some (get attachment.id s.attachments) ≡ false
          → Q (
            ok (new_attachment now attachment),
            put_attachment attachment.id (new_attachment now attachment) s,
          ))
      → Q (create_attachment ctx now attachment s)
  unfolding create_attachment
  create_attachment_cases Q attachment refused done = check_ctx_rule Q ctx _ refused (
      check_rule Q (validate_attachment attachment) _ refused λ valid.
        or_fail_rule Q (get attachment.agent_session_id s.sessions) _ (refused _) λ session found.
          fail_if_rule Q (is_management session.kind) _ (refused _) λ access.
            fail_if_rule Q (is_archived session.status) _ (refused _) λ live.
              fail_if_rule Q (is_some (get attachment.id s.attachments)) _ (refused _)
                λ fresh. done session valid found access live fresh)

  pub update_attachment_cases {ℓ} :
      (Q : Result Error Attachment × Store → Type ℓ) (attachment : Attachment)
      (expected_generation : ℕ)
      → ((e : Error) → Q (err e, s))
      → ((current : Attachment)
          → validate_attachment attachment ≡ none
          → get attachment.id s.attachments ≡ some current
          → not (current.generation == expected_generation) ≡ false
          → not (same_binding current attachment) ≡ false
          → is_removed current.state ≡ false
          → Q (
            ok (next_attachment now expected_generation current attachment),
            put_attachment attachment.id
                (next_attachment now expected_generation current attachment)
                s,
          ))
      → Q (update_attachment ctx now attachment expected_generation s)
  unfolding update_attachment
  update_attachment_cases Q attachment expected_generation refused done =
      check_ctx_rule Q ctx _ refused (
        check_rule Q (validate_attachment attachment) _ refused λ valid.
          or_fail_rule Q (get attachment.id s.attachments) _ (refused _) λ current found.
            fail_if_rule Q (not (current.generation == expected_generation)) _ (refused _) λ same.
              fail_if_rule Q (not (same_binding current attachment)) _ (refused _) λ bound.
                fail_if_rule Q (is_removed current.state) _ (refused _)
                  λ live. done current valid found same bound live)
