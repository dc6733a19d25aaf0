-- ===== src/Agent/Runtime/Cases.antt =====
-- What each operation of the store (runtime/store.go) returns and leaves behind: an error and the
-- store as it was, or a result and the store that it writes, with what its guards established.
-- The rules of this file are for the two checks at the head of an operation.
pub mod Turns
pub mod Sessions
pub mod Attachments
pub mod Steps
pub mod Messages
use liaison.Base.{◌≡◌, refl, Option, none, some}
use liaison.Base.Exec.{Result, err, ◌>>=◌}
use liaison.Agent.Runtime.Types.{CtxError, Error}
use liaison.Agent.Runtime.Store.{Store, Action, check_ctx, check}

module _ {ℓ} {B : Type 0} (Q : Result Error B × Store → Type ℓ) {s : Store} where
  pub check_ctx_rule :
      (ctx : Option CtxError) (m : Action B)
      → ((e : Error) → Q (err e, s))
      → Q (m s)
      → Q ((check_ctx ctx >>= λ _. m) s)
  check_ctx_rule none m refused done = done
  check_ctx_rule (some e) m refused done = refused _

  pub check_rule :
      (verdict : Option Error) (m : Action B)
      → ((e : Error) → Q (err e, s))
      → (verdict ≡ none → Q (m s))
      → Q ((check verdict >>= λ _. m) s)
  check_rule none m refused done = done refl
  check_rule (some e) m refused done = refused e
