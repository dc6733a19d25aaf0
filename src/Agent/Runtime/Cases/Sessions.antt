-- ===== src/Agent/Runtime/Cases/Sessions.antt =====
-- The cases of the session operations of the store.
use liaison.Base.{ℕ, String, ◌≡◌, false, not, ◌&&◌, Option, none, some}
use liaison.Base.Eq.{◌==◌, string_eq, nat_eq}
use liaison.Base.Exec.{Result, ok, err}
use liaison.Base.Exec.Rules.{fail_if_rule, or_fail_rule}
use liaison.Base.Table.{get, put}
use liaison.Agent.Tool.Types.{Time, is_management}
use liaison.Agent.Runtime.Types.{
  CtxError, Error, Session, Attachment, is_archived, is_some, validate_session, validate_attachment,
}
use liaison.Agent.Runtime.Store.{Store}
use liaison.Agent.Runtime.Store.Sessions.{
  create_session, create_session_with_attachment, archive_session, set_active_attachment,
  put_session, new_session, bound_session, new_attachment, archived_session, attached_session,
  may_activate,
}
use liaison.Agent.Runtime.Cases.{check_ctx_rule, check_rule}

module _ (ctx : Option CtxError) (now : Time) (s : Store) where
  pub create_session_cases {ℓ} :
      (Q : Result Error (Unit {0}) × Store → Type ℓ) (session : Session)
      → ((e : Error) → Q (err e, s))
      → (validate_session session ≡ none
          → is_some (get session.id s.sessions) ≡ false
          → Q (ok tt, put_session session.id (new_session now session) s))
      → Q (create_session ctx now session s)
  unfolding create_session
  create_session_cases Q session refused done = check_ctx_rule Q ctx _ refused (
      check_rule Q (validate_session session) _ refused λ valid.
        fail_if_rule Q (is_some (get session.id s.sessions)) _ (refused _)
          λ fresh. done valid fresh)

  pub create_session_with_attachment_cases {ℓ} :
      (Q : Result Error (Session × Attachment) × Store → Type ℓ) (session : Session)
      (attachment : Attachment)
      → ((e : Error) → Q (err e, s))
      → (is_management session.kind ≡ false
          → validate_session session ≡ none
          → not (attachment.agent_session_id == session.id) ≡ false
          → validate_attachment attachment ≡ none
          → is_some (get session.id s.sessions) ≡ false
          → is_some (get attachment.id s.attachments) ≡ false
          → Q (
            ok (bound_session now attachment.id session, new_attachment now attachment),
            record s {
              sessions = put session.id (bound_session now attachment.id session) s.sessions;
              attachments = put attachment.id (new_attachment now attachment) s.attachments;
            },
          ))
      → Q (create_session_with_attachment ctx now session attachment s)
  unfolding create_session_with_attachment
  create_session_with_attachment_cases Q session attachment refused done =
      fail_if_rule Q (is_management session.kind) _ (refused _) λ access.
        check_ctx_rule Q ctx _ refused (
          check_rule Q (validate_session session) _ refused λ valid.
            fail_if_rule Q (not (attachment.agent_session_id == session.id)) _ (refused _) λ owned.
              check_rule Q (validate_attachment attachment) _ refused λ complete.
                fail_if_rule Q (is_some (get session.id s.sessions)) _ (refused _) λ fresh.
                  fail_if_rule Q (is_some (get attachment.id s.attachments)) _ (refused _)
                    λ new. done access valid owned complete fresh new)

  pub archive_session_cases {ℓ} :
      (Q : Result Error Session × Store → Type ℓ) (session_id : String) (expected_version : ℕ)
      → ((e : Error) → Q (err e, s))
      → ((session : Session)
          → get session_id s.sessions ≡ some session
          → not (session.version == expected_version) ≡ false
          → not (session.active_turn_id == "") ≡ false
          → Q (
            ok (archived_session now session),
            put_session session_id (archived_session now session) s,
          ))
      → Q (archive_session ctx now session_id expected_version s)
  unfolding archive_session
  archive_session_cases Q session_id expected_version refused done =
      check_ctx_rule Q ctx _ refused (
        or_fail_rule Q (get session_id s.sessions) _ (refused _) λ session found.
          fail_if_rule Q (not (session.version == expected_version)) _ (refused _) λ current.
            fail_if_rule Q (not (session.active_turn_id == "")) _ (refused _)
              λ idle. done session found current idle)

  pub set_active_attachment_cases {ℓ} :
      (Q : Result Error Session × Store → Type ℓ) (session_id attachment_id : String)
      (expected_version : ℕ)
      → ((e : Error) → Q (err e, s))
      → ((session : Session)
          → get session_id s.sessions ≡ some session
          → not (session.version == expected_version) ≡ false
          → (is_management session.kind && not (attachment_id == "")) ≡ false
          → is_archived session.status ≡ false
          → (not (attachment_id == "")
              && not (may_activate session_id (get attachment_id s.attachments)))
            ≡ false
          → Q (
            ok (attached_session now attachment_id session),
            put_session session_id (attached_session now attachment_id session) s,
          ))
      → Q (set_active_attachment ctx now session_id attachment_id expected_version s)
  unfolding set_active_attachment
  set_active_attachment_cases Q session_id attachment_id expected_version refused done =
      check_ctx_rule Q ctx _ refused (
        or_fail_rule Q (get session_id s.sessions) _ (refused _) λ session found.
          fail_if_rule Q (not (session.version == expected_version)) _ (refused _) λ current.
            fail_if_rule Q (is_management session.kind && not (attachment_id == "")) _ (refused _)
              λ access. fail_if_rule Q (is_archived session.status) _ (refused _) λ live.
                fail_if_rule Q
                  (not (attachment_id == "")
                    && not (may_activate session_id (get attachment_id s.attachments)))
                  _ (refused _) λ own. done session found current access live own)
