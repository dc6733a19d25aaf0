-- ===== src/Agent/Runtime/Consistency/Steps.antt =====
-- The step operations keep the references of the store intact.
use text.Mathlib.TextEquality.{eq_iff}
use liaison.Base.{ℕ, String, ◌≡◌, refl, true, Option, some, arith}
use liaison.Base.Eq.{string_eq}
use liaison.Base.Table.{get, put, get-put}
use liaison.Agent.Tool.Types.{Time, Bytes}
use liaison.Agent.Runtime.Status.{StepStatus}
use liaison.Agent.Runtime.Types.{CtxError, Turn, Step, is_some}
use liaison.Agent.Runtime.Store.{Store}
use liaison.Agent.Runtime.Store.Steps.{
  append_step, transition_step, write_step_error, appended_step, stepped_turn, moved_step, put_step,
  with_error, next_step_sequence,
}
use liaison.Agent.Runtime.Cases.Steps.{
  append_step_cases, transition_step_cases, write_step_error_cases,
}
use liaison.Agent.Runtime.Consistency.{IsConsistent}

-- A step is written under its ID, for a turn that is there.
module _ {s : Store} (c : IsConsistent s) (id : String) (p' : Step) (key : p'.id ≡ id)
    (turn : is_some (get p'.turn_id s.turns) ≡ true) where
  put_step-IsConsistent : IsConsistent (put_step id p' s)
  put_step-IsConsistent = record {
    session_key = c.session_key;
    turn_key = c.turn_key;
    attachment_key = c.attachment_key;
    step_key = λ k p h. ground (arith, get-put id k p' s.steps, eq_iff id k, c.step_key k p);
    running_active = c.running_active;
    active_runs = c.active_runs;
    archived_idle = c.archived_idle;
    attachment_owner = c.attachment_owner;
    active_attached = c.active_attached;
    step_turn = λ k p h. ground (arith, get-put id k p' s.steps, c.step_turn k p);
  }

-- A turn is rewritten with the status and the session that it has.
module _ {s : Store} (c : IsConsistent s) (turn_id : String) (turn t' : Turn)
    (found : get turn_id s.turns ≡ some turn) (id : t'.id ≡ turn.id)
    (session : t'.agent_session_id ≡ turn.agent_session_id) (status : t'.status ≡ turn.status) where
  rewrite_turn-IsConsistent : IsConsistent (record s { turns = put turn_id t' s.turns })
  rewrite_turn-IsConsistent = record {
    session_key = c.session_key;
    turn_key = λ k t h. ground (
      arith,
      get-put turn_id k t' s.turns,
      eq_iff turn_id k,
      c.turn_key k t,
      c.turn_key turn_id turn,
    );
    attachment_key = c.attachment_key;
    step_key = c.step_key;
    running_active = λ k t h r. ground (
      arith,
      get-put turn_id k t' s.turns,
      eq_iff turn_id k,
      c.running_active k t,
      c.running_active turn_id turn,
    );
    active_runs = λ k x h r. ground (
      arith,
      get-put turn_id x.active_turn_id t' s.turns,
      eq_iff turn_id x.active_turn_id,
      c.active_runs k x,
    );
    archived_idle = c.archived_idle;
    attachment_owner = c.attachment_owner;
    active_attached = c.active_attached;
    step_turn = λ k p h. ground (arith, get-put turn_id p.turn_id t' s.turns, c.step_turn k p);
  }

module _ (ctx : Option CtxError) (now : Time) {s : Store} (c : IsConsistent s) where
  pub append_step-IsConsistent :
      (turn_id : String) (expected : ℕ) (step : Step)
      → IsConsistent (append_step ctx now turn_id expected step s).1
  append_step-IsConsistent turn_id expected step =
      append_step_cases ctx now s (λ r. IsConsistent r.1) turn_id expected step (λ _. c)
        λ turn named found current live fresh.
          let p' = appended_step now turn_id (next_step_sequence turn_id s) step in
          rewrite_turn-IsConsistent (put_step-IsConsistent c step.id p' refl (ground arith)) turn_id
            turn (stepped_turn now step.id turn) found refl refl refl

  pub transition_step-IsConsistent :
      (step_id : String) (to : StepStatus) (output : Bytes)
      → IsConsistent (transition_step ctx now step_id to output s).1
  unfolding moved_step
  transition_step-IsConsistent step_id to output =
      transition_step_cases ctx now s (λ r. IsConsistent r.1) step_id to output (λ _. c)
        λ step found allowed.
          put_step-IsConsistent c step_id (moved_step now to output step)
            (c.step_key step_id step found) (c.step_turn step_id step found)

pub write_step_error-IsConsistent :
    {s : Store} (step_id code message : String)
    → IsConsistent s
    → IsConsistent (write_step_error step_id code message s).1
write_step_error-IsConsistent {s} step_id code message c =
    write_step_error_cases s (λ r. IsConsistent r.1) step_id code message (λ _. c)
      λ step found.
        put_step-IsConsistent c step_id (with_error code message step)
          (c.step_key step_id step found) (c.step_turn step_id step found)
