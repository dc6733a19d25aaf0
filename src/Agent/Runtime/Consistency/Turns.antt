-- ===== src/Agent/Runtime/Consistency/Turns.antt =====
-- Starting a turn and moving one keep the references of the store intact.
use text.Mathlib.TextEquality.{eq_iff}
use liaison.Base.{ℕ, String, ◌≡◌, true, false, not, ◌&&◌, Option, some, arith, if◌then◌else◌}
use liaison.Base.Eq.{◌==◌, string_eq}
use liaison.Base.Table.{Table, get, put, get-put}
use liaison.Agent.Tool.Types.{Time}
use liaison.Agent.Runtime.Status.{TurnStatus, is_terminal, valid_turn_transition}
use liaison.Agent.Runtime.Types.{CtxError, Session, Turn, is_archived, is_some}
use liaison.Agent.Runtime.Store.{Store}
use liaison.Agent.Runtime.Store.Turns.{
  start_turn, transition_turn, queued_turn, busy_session, moved_turn, free_session, put_turn,
  session_or_zero, idle_session,
}
use liaison.Agent.Runtime.Cases.Turns.{start_turn_cases, transition_turn_cases}
use liaison.Agent.Runtime.Consistency.{IsConsistent}

module _ {s : Store} (c : IsConsistent s) (now : Time) (session_id : String) (turn : Turn)
    (session : Session) (named : (turn.id == "") ≡ false)
    (found : get session_id s.sessions ≡ some session) (live : is_archived session.status ≡ false)
    (idle : not (session.active_turn_id == "") ≡ false)
    (fresh : is_some (get turn.id s.turns) ≡ false) where
  abbrev started : Store
  started = record s {
    turns = put turn.id (queued_turn now session_id turn) s.turns;
    sessions = put session_id (busy_session now turn.id session) s.sessions;
  }

  start-IsConsistent : IsConsistent started
  unfolding is_terminal
  start-IsConsistent = record {
    session_key = λ k x h. ground (
      arith,
      get-put session_id k (busy_session now turn.id session) s.sessions,
      eq_iff session_id k,
      c.session_key k x,
      c.session_key session_id session,
    );
    turn_key = λ k t h. ground (
      arith,
      get-put turn.id k (queued_turn now session_id turn) s.turns,
      eq_iff turn.id k,
      eq_iff turn.id "",
      c.turn_key k t,
    );
    attachment_key = c.attachment_key;
    step_key = c.step_key;
    running_active = λ k t h r. ground (
      arith,
      get-put turn.id k (queued_turn now session_id turn) s.turns,
      get-put session_id t.agent_session_id (busy_session now turn.id session) s.sessions,
      eq_iff turn.id k,
      eq_iff session_id t.agent_session_id,
      eq_iff session.active_turn_id "",
      c.turn_key k t,
      c.running_active k t,
    );
    active_runs = λ k x h r. ground (
      arith,
      get-put session_id k (busy_session now turn.id session) s.sessions,
      get-put turn.id x.active_turn_id (queued_turn now session_id turn) s.turns,
      eq_iff turn.id x.active_turn_id,
      eq_iff session_id k,
      c.active_runs k x,
    );
    archived_idle = λ k x h r. ground (
      arith,
      get-put session_id k (busy_session now turn.id session) s.sessions,
      eq_iff session_id k,
      c.archived_idle k x,
    );
    attachment_owner = λ k a h. ground (
      arith,
      get-put session_id a.agent_session_id (busy_session now turn.id session) s.sessions,
      eq_iff session_id a.agent_session_id,
      c.attachment_owner k a,
    );
    active_attached = λ k x h r. ground (
      arith,
      get-put session_id k (busy_session now turn.id session) s.sessions,
      eq_iff session_id k,
      c.active_attached k x,
      c.active_attached session_id session,
    );
    step_turn = λ k p h. ground (
      arith,
      get-put turn.id p.turn_id (queued_turn now session_id turn) s.turns,
      c.step_turn k p,
    );
  }

pub start_turn-IsConsistent :
    (ctx : Option CtxError) (now : Time) (s : Store) (session_id : String) (turn : Turn)
    → IsConsistent s
    → IsConsistent (start_turn ctx now session_id turn s).1
start_turn-IsConsistent ctx now s session_id turn c =
    start_turn_cases ctx now s (λ r. IsConsistent r.1) session_id turn (λ _. c)
      (start-IsConsistent c now session_id turn)

module _ {s : Store} (c : IsConsistent s) (now : Time) (turn_id : String) (to : TurnStatus)
    (code message : String) (turn : Turn) (found : get turn_id s.turns ≡ some turn)
    (allowed : not (valid_turn_transition turn.status to) ≡ false) where
  abbrev freed : Table String Session
  freed = (free_session now to turn s).sessions

  abbrev moved : Store
  moved = record s {
    sessions = freed;
    turns = put turn_id (moved_turn now to code message turn) s.turns;
  }

  -- `free_session` writes to the sessions alone.
  moved_lem :
      put_turn turn_id (moved_turn now to code message turn) (free_session now to turn s) ≡ moved
  unfolding free_session
  moved_lem = ground arith

  abbrev owner : Session
  owner = session_or_zero (get turn.agent_session_id s.sessions)

  -- The sessions of `free_session`: the owner is idle if the turn was its active one and ends.
  get-free :
      (k : String)
      → get k freed ≡ (
          if is_terminal to && owner.active_turn_id == turn.id && owner.id == k
          then some (idle_session now owner)
          else get k s.sessions)
  unfolding free_session
  get-free k = ground (arith, get-put owner.id k (idle_session now owner) s.sessions)

  -- Ended turns stay ended.
  stays_ended : is_terminal turn.status ≡ true → is_terminal to ≡ true
  unfolding valid_turn_transition is_terminal
  stays_ended h = ground arith

  -- The owner is the session under the turn's session ID, if it is to be freed.
  owner_found :
      (owner.active_turn_id == turn.id) ≡ true
      → (get turn.agent_session_id s.sessions ≡ some owner) × (owner.id ≡ turn.agent_session_id)
  owner_found h =
      ground (
        arith,
        eq_iff "" turn.id,
        c.turn_key turn_id turn,
        c.session_key turn.agent_session_id owner,
      )

  move-IsConsistent : IsConsistent moved
  unfolding moved_turn
  move-IsConsistent = record {
    session_key = λ k x h. ground (arith, get-free k, eq_iff owner.id k, c.session_key k x);
    turn_key = λ k t h. ground (
      arith,
      get-put turn_id k (moved_turn now to code message turn) s.turns,
      eq_iff turn_id k,
      c.turn_key k t,
      c.turn_key turn_id turn,
    );
    attachment_key = c.attachment_key;
    step_key = c.step_key;
    running_active = λ k t h r. ground (
      arith,
      get-put turn_id k (moved_turn now to code message turn) s.turns,
      get-free t.agent_session_id,
      stays_ended,
      eq_iff turn_id k,
      eq_iff owner.id t.agent_session_id,
      eq_iff owner.active_turn_id turn.id,
      owner_found,
      c.turn_key turn_id turn,
      c.running_active k t,
      c.running_active turn_id turn,
    );
    active_runs = λ k x h r. ground (
      arith,
      get-free k,
      get-put turn_id x.active_turn_id (moved_turn now to code message turn) s.turns,
      stays_ended,
      eq_iff turn_id x.active_turn_id,
      eq_iff x.active_turn_id "",
      eq_iff owner.id k,
      eq_iff turn.agent_session_id k,
      eq_iff owner.active_turn_id turn.id,
      owner_found,
      c.turn_key turn_id turn,
      c.active_runs k x,
    );
    archived_idle = λ k x h r. ground (arith, get-free k, eq_iff owner.id k, c.archived_idle k x);
    attachment_owner = λ k a h. ground (
      arith,
      get-free a.agent_session_id,
      eq_iff owner.id a.agent_session_id,
      eq_iff owner.active_turn_id turn.id,
      owner_found,
      c.attachment_owner k a,
    );
    active_attached = λ k x h r. ground (
      arith,
      get-free k,
      eq_iff owner.id k,
      eq_iff owner.active_turn_id turn.id,
      owner_found,
      c.active_attached k x,
      c.active_attached k owner,
    );
    step_turn = λ k p h. ground (
      arith,
      get-put turn_id p.turn_id (moved_turn now to code message turn) s.turns,
      c.step_turn k p,
    );
  }

pub transition_turn-IsConsistent :
    (ctx : Option CtxError) (now : Time) (s : Store) (turn_id : String) (expected_version : ℕ)
    (to : TurnStatus) (code message : String)
    → IsConsistent s
    → IsConsistent (transition_turn ctx now turn_id expected_version to code message s).1
transition_turn-IsConsistent ctx now s turn_id expected_version to code message c =
    transition_turn_cases ctx now s (λ r. IsConsistent r.1) turn_id expected_version to code message
      (λ _. c)
      λ turn found current allowed.
        rw (moved_lem c now turn_id to code message turn found allowed)
          (move-IsConsistent c now turn_id to code message turn found allowed)
