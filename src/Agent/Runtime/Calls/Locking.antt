-- ===== src/Agent/Runtime/Calls/Locking.antt =====
-- Versions as optimistic locks, and what becomes possible when a turn ends.
use text.Mathlib.TextEquality.{eq_iff}
use liaison.Base.{
  ℕ, ◌^◌, ◌<◌, String, ◌≡◌, refl, true, false, not, Option, none, some, arith, inl, inr,
  Option-cases,
}
use liaison.Base.Eq.{◌==◌, string_eq, nat_eq}
use liaison.Base.Exec.{Result, ok, err}
use liaison.Base.Table.{get, get-put, get-put_self}
use liaison.Agent.Tool.Types.{Time}
use liaison.Agent.Runtime.Status.{TurnStatus, is_terminal, valid_turn_transition}
use liaison.Agent.Runtime.Types.{
  CtxError, Error, Session, Turn, Step, version_conflict, turn_already_active, is_archived, is_some,
}
use liaison.Agent.Runtime.Store.{Store}
use liaison.Agent.Runtime.Store.Turns.{
  start_turn, transition_turn, moved_turn, free_session, put_turn, idle_session,
}
use liaison.Agent.Runtime.Store.Steps.{append_step}
use liaison.Agent.Runtime.Cases.Turns.{transition_turn_cases, turns-free_session}
use liaison.Agent.Runtime.Consistency.{IsConsistent}
use liaison.Agent.Runtime.Calls.{error_of}

-- Another version than the stored one is refused.
module _ (now : Time) (s : Store) (turn_id : String) (turn : Turn)
    (found : get turn_id s.turns ≡ some turn) (v : ℕ) (other : (turn.version == v) ≡ false) where
  transition_conflict :
      (to : TurnStatus) (code message : String)
      → (transition_turn none now turn_id v to code message s).0 ≡ err version_conflict
  unfolding transition_turn
  transition_conflict to code message = rw found (rw other refl)

  append_conflict :
      (step : Step)
      → (step.id == "") ≡ false
      → (append_step none now turn_id v step s).0 ≡ err version_conflict
  unfolding append_step
  append_conflict step named = rw named (rw found (rw other refl))

-- The version that a transition writes is not the one that it expected.
moved_version :
    (now : Time) (to : TurnStatus) (code message : String) (turn : Turn) (v : ℕ)
    → not (turn.version == v) ≡ false
    → v < 2 ^ 64
    → ((moved_turn now to code message turn).version == v) ≡ false
unfolding moved_turn
moved_version now to code message turn v current small = ground arith

-- If a transition of a turn succeeds at a version v of 64 bits, then on the store that it leaves
-- another transition, or the append of a named step, that still expects v fails with a version
-- conflict.
pub second_writer_loses :
    (ctx : Option CtxError) (now later : Time) (s : Store) (turn_id : String) (v : ℕ)
    (to to' : TurnStatus) (code message code' message' : String) (step : Step) (t : Turn)
    → v < 2 ^ 64
    → (step.id == "") ≡ false
    → (transition_turn ctx now turn_id v to code message s).0 ≡ ok t
    → let s' = (transition_turn ctx now turn_id v to code message s).1 in
      ((transition_turn none later turn_id v to' code' message' s').0 ≡ err version_conflict)
      × ((append_step none later turn_id v step s').0 ≡ err version_conflict)
second_writer_loses ctx now later s turn_id v to to' code message code' message' step t small
      named =
    transition_turn_cases ctx now s
      (λ r.
        r.0 ≡ ok t
        → ((transition_turn none later turn_id v to' code' message' r.1).0 ≡ err version_conflict)
          × ((append_step none later turn_id v step r.1).0 ≡ err version_conflict))
      turn_id v to code message (λ e h. absurd (cc))
      λ turn found current allowed h.
        let next = moved_turn now to code message turn in
        let s' : Store = put_turn turn_id next (free_session now to turn s) in
        let here : get turn_id s'.turns ≡ some next =
          get-put_self turn_id next (free_session now to turn s).turns in
        let stale : (next.version == v) ≡ false =
          moved_version now to code message turn v current small in
        (
          transition_conflict later s' turn_id next here v stale to' code' message',
          append_conflict later s' turn_id next here v stale step named,
        )

-- The end of a turn at its current version succeeds, and the session has no active turn then.
module _ {s : Store} (c : IsConsistent s) (now : Time) (turn_id : String) (turn : Turn)
    (to : TurnStatus) (code message : String) (found : get turn_id s.turns ≡ some turn)
    (allowed : valid_turn_transition turn.status to ≡ true) (ends : is_terminal to ≡ true)
    (live : is_terminal turn.status ≡ false) where
  abbrev ended : Result Error Turn × Store
  ended = transition_turn none now turn_id turn.version to code message s

  ended_lem : ended ≡ (
    ok (moved_turn now to code message turn),
    put_turn turn_id (moved_turn now to code message turn) (free_session now to turn s),
  )
  unfolding transition_turn
  ended_lem = rw found (rw ((nat_eq.same_iff turn.version turn.version).1 refl) (rw allowed refl))

  -- The session of the turn, which the invariant provides.
  owner : (session : Session) × (get turn.agent_session_id s.sessions ≡ some session)
  owner = elim (Option-cases (get turn.agent_session_id s.sessions)) [
    | inl e ↦ absurd (ground (arith, c.running_active turn_id turn, c.turn_key turn_id turn))
    | inr o ↦ o
  ]

  -- It runs the turn and is not archived.
  busy :
      (owner.0.active_turn_id ≡ turn_id)
      × ((owner.0.active_turn_id == "") ≡ false)
      × (is_archived owner.0.status ≡ false)
  busy = ground (
    arith,
    owner.1,
    eq_iff owner.0.active_turn_id "",
    c.running_active turn_id turn,
    c.turn_key turn_id turn,
    c.archived_idle turn.agent_session_id owner.0,
  )

  freed :
      get turn.agent_session_id (free_session now to turn s).sessions
      ≡ some (idle_session now owner.0)
  unfolding free_session
  freed = ground (
    arith,
    owner.1,
    busy,
    eq_iff owner.0.active_turn_id turn.id,
    c.turn_key turn_id turn,
    c.session_key turn.agent_session_id owner.0,
    get-put_self owner.0.id (idle_session now owner.0) s.sessions,
  )

  start_refused :
      (later : Time) (next : Turn)
      → (next.id == "") ≡ false
      → (start_turn none later turn.agent_session_id next s).0 ≡ err turn_already_active
  unfolding start_turn
  start_refused later next named = rw named (rw owner.1 (rw busy.2 (rw busy.1 refl)))

  start_accepted :
      (later : Time) (next : Turn)
      → (next.id == "") ≡ false
      → is_some (get next.id s.turns) ≡ false
      → error_of (start_turn none later turn.agent_session_id next ended.1).0 ≡ none
  unfolding start_turn
  start_accepted later next named fresh = rw ended_lem (
      rw named (
        rw freed (
          rw busy.2 (
            ground (
              arith,
              turns-free_session now to turn s,
              get-put turn_id next.id (moved_turn now to code message turn) s.turns,
              eq_iff turn_id next.id,
            )))))

  -- In a consistent store, while a turn of a session has not ended, a named turn cannot be started
  -- in that session: the error is that a turn is already active. The call that ends the turn at its
  -- stored version, by an allowed transition, succeeds, and after it a turn under a fresh name can
  -- be started in that session.
  pub session_freed :
      (later : Time) (next : Turn)
      → (next.id == "") ≡ false
      → is_some (get next.id s.turns) ≡ false
      → ((start_turn none later turn.agent_session_id next s).0 ≡ err turn_already_active)
        × (error_of ended.0 ≡ none)
        × (error_of (start_turn none later turn.agent_session_id next ended.1).0 ≡ none)
  session_freed later next named fresh =
      (start_refused later next named, rw ended_lem, start_accepted later next named fresh)
