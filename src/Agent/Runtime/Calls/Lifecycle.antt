-- ===== src/Agent/Runtime/Calls/Lifecycle.antt =====
-- The life of a session, as a machine of four phases that calls drive, and that the store
-- (runtime/store.go) refines it.
use text.Mathlib.TextEquality.{eq_iff}
use liaison.Base.{
  String, ◌≡◌, ◌≢◌, refl, ◌&&◌, Bool, true, false, Option, none, some, List, [], ◌∷◌, arith,
  if◌then◌else◌, Option-cases, inl, inr,
}
use liaison.Base.Eq.{◌==◌, string_eq}
use liaison.Base.Exec.{Result}
use liaison.Base.Table.{get, get-put}
use liaison.Agent.Tool.Types.{Time}
use liaison.Agent.Runtime.Status.{TurnStatus, is_terminal}
use liaison.Agent.Runtime.Types.{CtxError, Error, Session, Turn, is_archived}
use liaison.Agent.Runtime.Store.{Store}
use liaison.Agent.Runtime.Store.Sessions.{
  new_session, bound_session, archived_session, attached_session,
}
use liaison.Agent.Runtime.Store.Turns.{busy_session, free_session, idle_session}
use liaison.Agent.Runtime.Cases.Sessions.{
  create_session_cases, create_session_with_attachment_cases, archive_session_cases,
  set_active_attachment_cases,
}
use liaison.Agent.Runtime.Cases.Attachments.{create_attachment_cases, update_attachment_cases}
use liaison.Agent.Runtime.Cases.Turns.{start_turn_cases, transition_turn_cases}
use liaison.Agent.Runtime.Cases.Steps.{
  append_step_cases, transition_step_cases, write_step_error_cases,
}
use liaison.Agent.Runtime.Cases.Messages.{append_message_cases, save_tool_snapshot_cases}
use liaison.Agent.Runtime.Consistency.{IsConsistent}
use liaison.Agent.Runtime.Calls.{
  Call, creates, creates_with, archives, activates, attaches, updates, starts, moves, appends,
  moves_step, writes_error, sends, saves, perform, error_of, IsAdmissible, Reach, start, call,
}
use liaison.Agent.Runtime.Calls.History.{Reach-IsConsistent}

-- The specification: a session that is not there, one that takes turns, one that runs the named
-- turn, and one that is archived.
pub data Phase : Type 0 where
  absent idle archived : Phase
  running : String → Phase

-- What happens to a session. A session may be archived from the start. That a turn ends is told to
-- every session.
pub data Event : Type 0 where
  appears : Bool → Event
  begins : String → Event
  ends : String → Event
  retires : Event

abbrev pub opening : Bool → Phase
opening true = archived
opening false = idle

-- The step of the specification, `none` where the event must not happen: a session appears once and
-- without a turn, a turn begins where none runs, and a session is archived for ever, while no turn
-- runs.
abbrev pub react : Event → Phase → Option Phase
react (appears closed) absent = some (opening closed)
react (appears closed) _ = none
react (begins turn) idle = some (running turn)
react (begins turn) _ = none
react (ends turn) (running other) = some (if other == turn then idle else running other)
react (ends turn) p = some p
react retires idle = some archived
react retires archived = some archived
react retires _ = none

abbrev pub react_if : Option Event → Phase → Option Phase
react_if none p = some p
react_if (some e) p = react e p

abbrev pub react_after : Option Phase → Event → Option Phase
react_after none e = none
react_after (some p) e = react e p

-- The run of the specification on events, the last one first.
unfoldable pub after : List Event → Option Phase
after [] = some absent
after (e ∷ earlier) = react_after (after earlier) e

-- What a call tells the session under the key, by its arguments alone.
abbrev pub event : String → Call → Option Event
event k (creates session) =
    if session.id == k then some (appears (is_archived session.status)) else none
event k (creates_with session attachment) =
    if session.id == k then some (appears (is_archived session.status)) else none
event k (archives id version) = if id == k then some retires else none
event k (starts id turn) = if id == k then some (begins turn.id) else none
event k (moves id version to code message) = if is_terminal to then some (ends id) else none
event k _ = none

-- A call that fails tells nothing.
abbrev pub told : Option Error → Option Event → Option Event
told none e = e
told (some x) e = none

abbrev pub note : Option Event → List Event → List Event
note none earlier = earlier
note (some e) earlier = e ∷ earlier

-- What the calls of a history have told the session, the last event first, by their arguments and
-- by whether they have failed.
unfoldable pub log : {s : Store} → String → Reach s → List Event
log k start = []
log k (call {s} r ctx now c a) = note (told (perform ctx now c s).0 (event k c)) (log k r)

-- What a session of the store is for the specification.
abbrev pub phase : Option Session → Phase
phase none = absent
phase (some session) =
    if is_archived session.status
    then archived
    else if session.active_turn_id == ""
    then idle
    else running session.active_turn_id

-- The session after a turn that has ended, or not.
abbrev freed_if : Bool → String → Time → Option Session → Option Session
freed_if ended turn_id now none = none
freed_if ended turn_id now (some x) =
    if ended && x.active_turn_id == turn_id then some (idle_session now x) else some x

module _ (k : String) (s : Store) (i : IsConsistent s) where
  -- The outcome of a call is what the specification makes of its event.
  abbrev Follows : {A : Type 0} → Option Event → Result Error A × Store → Type 0
  Follows e r =
      react_if (told (error_of r.0) e) (phase (get k s.sessions))
      ≡ some (phase (get k r.1.sessions))

  -- The session of which a turn is the active one is the turn's own.
  active_own :
      (turn_id : String) (turn : Turn) (x : Session)
      → get turn_id s.turns ≡ some turn
      → get k s.sessions ≡ some x
      → x.active_turn_id ≡ turn_id
      → turn.agent_session_id ≡ k
  active_own turn_id turn x found at same = ground (
    arith,
    i.active_runs k x at,
    i.turn_key turn_id turn found,
    eq_iff x.active_turn_id "",
    eq_iff turn.agent_session_id k,
  )

  -- What the end of a turn leaves of the session that stands under the key: it is freed if the turn
  -- is its active one.
  freed_lem :
      (now : Time) (to : TurnStatus) (turn_id : String) (turn : Turn)
      → get turn_id s.turns ≡ some turn
      → get k (free_session now to turn s).sessions
        ≡ freed_if (is_terminal to) turn_id now (get k s.sessions)
  unfolding free_session
  freed_lem now to turn_id turn found = elim (Option-cases (get turn.agent_session_id s.sessions)) [
    | inl m ↦ elim (Option-cases (get k s.sessions)) [
      | inl n ↦ ground (arith, m, n, i.turn_key turn_id turn found, eq_iff "" turn.id)
      | inr (x, n) ↦ ground (
        arith,
        m,
        n,
        i.turn_key turn_id turn found,
        eq_iff "" turn.id,
        eq_iff x.active_turn_id turn_id,
        active_own turn_id turn x found n,
      )
    ]
    | inr (y, m) ↦
        let key = i.session_key turn.agent_session_id y m in
        let freed = get-put y.id k (idle_session now y) s.sessions in
        elim (Option-cases (get k s.sessions)) [
          | inl n ↦ ground (arith, m, n, freed, eq_iff y.id k, key)
          | inr (x, n) ↦ ground (
            arith,
            m,
            n,
            freed,
            eq_iff y.id k,
            key,
            i.turn_key turn_id turn found,
            eq_iff y.active_turn_id turn.id,
            eq_iff x.active_turn_id turn_id,
            active_own turn_id turn x found n,
          )
        ]
  ]

  freed_phase :
      (ended : Bool) (turn_id : String) (now : Time) (o : Option Session)
      → get k s.sessions ≡ o
      → (turn_id ≢ "")
      → react_if (if ended then some (ends turn_id) else none) (phase o)
        ≡ some (phase (freed_if ended turn_id now o))
  freed_phase ended turn_id now none at named = ground arith
  freed_phase ended turn_id now (some x) at named =
      ground
        (arith, i.archived_idle k x at, eq_iff x.active_turn_id turn_id, eq_iff x.active_turn_id "")

  freed-follows :
      (now : Time) (to : TurnStatus) (turn_id : String) (turn : Turn)
      → get turn_id s.turns ≡ some turn
      → react_if (if is_terminal to then some (ends turn_id) else none) (phase (get k s.sessions))
        ≡ some (phase (get k (free_session now to turn s).sessions))
  freed-follows now to turn_id turn found = rw (freed_lem now to turn_id turn found) (
      freed_phase (is_terminal to) turn_id now (get k s.sessions) refl
        (i.turn_key turn_id turn found).1)

  pub perform-phase :
      (ctx : Option CtxError) (now : Time) (c : Call)
      → IsAdmissible c
      → react_if (told (perform ctx now c s).0 (event k c)) (phase (get k s.sessions))
        ≡ some (phase (get k (perform ctx now c s).1.sessions))
  unfolding perform
  perform-phase ctx now (starts id turn) a =
      start_turn_cases ctx now s (Follows (event k (starts id turn))) id turn (λ e. refl)
        λ session named found live idle fresh.
          ground (arith, get-put id k (busy_session now turn.id session) s.sessions, eq_iff id k)
  perform-phase ctx now (moves id version to code message) a =
      transition_turn_cases ctx now s (Follows (event k (moves id version to code message))) id
        version to code message (λ e. refl)
        λ turn found current allowed. freed-follows now to id turn found
  perform-phase ctx now (appends id version step) a =
      append_step_cases ctx now s (Follows none) id version step (λ e. refl) λ _ _ _ _ _ _. refl
  perform-phase ctx now (creates session) a =
      create_session_cases ctx now s (Follows (event k (creates session))) session (λ e. refl)
        λ valid fresh. ground (
          arith,
          get-put session.id k (new_session now session) s.sessions,
          eq_iff session.id k,
          eq_iff session.active_turn_id "",
          a,
        )
  perform-phase ctx now (creates_with session attachment) a =
      create_session_with_attachment_cases ctx now s
        (Follows (event k (creates_with session attachment))) session attachment (λ e. refl)
        λ access valid owned complete fresh new. ground (
          arith,
          get-put session.id k (bound_session now attachment.id session) s.sessions,
          eq_iff session.id k,
          eq_iff session.active_turn_id "",
          a,
        )
  perform-phase ctx now (archives id version) a =
      archive_session_cases ctx now s (Follows (event k (archives id version))) id version
        (λ e. refl)
        λ session found current idle.
          ground (arith, get-put id k (archived_session now session) s.sessions, eq_iff id k)
  perform-phase ctx now (activates id attachment_id version) a =
      set_active_attachment_cases ctx now s (Follows none) id attachment_id version (λ e. refl)
        λ session found current access live own.
          ground (
            arith,
            get-put id k (attached_session now attachment_id session) s.sessions,
            eq_iff id k,
          )
  perform-phase ctx now (attaches attachment) a =
      create_attachment_cases ctx now s (Follows none) attachment (λ e. refl) λ _ _ _ _ _ _. refl
  perform-phase ctx now (updates attachment generation) a =
      update_attachment_cases ctx now s (Follows none) attachment generation (λ e. refl)
        λ _ _ _ _ _ _. refl
  perform-phase ctx now (moves_step id to output) a =
      transition_step_cases ctx now s (Follows none) id to output (λ e. refl) λ _ _ _. refl
  perform-phase ctx now (writes_error id code message) a =
      write_step_error_cases s (Follows none) id code message (λ e. refl) λ _ _. refl
  perform-phase ctx now (sends message) a =
      append_message_cases ctx s (Follows none) now message (λ e. refl) λ _. refl
  perform-phase ctx now (saves turn_id step_id snapshot) a =
      save_tool_snapshot_cases ctx s (Follows none) turn_id step_id snapshot (λ e. refl) λ _. refl

-- One more event, if there is one.
after-note :
    (e : Option Event) (earlier : List Event) {p q : Phase}
    → after earlier ≡ some p
    → react_if e p ≡ some q
    → after (note e earlier) ≡ some q
unfolding after
after-note none earlier before reacts = cc
after-note (some e) earlier before reacts = rw before reacts

-- After any history of admissible calls, the specification has taken the event of every call that
-- succeeded, in their order, and refused none, and its phase is that of the stored session. So a
-- session appears once; a turn begins only in a session that is there, runs no turn and is not
-- archived; a session is archived only while it runs no turn, and for ever; and it runs the turn that
-- began last until that turn ends.
pub after-log :
    {s : Store} (k : String) (r : Reach s) → after (log k r) ≡ some (phase (get k s.sessions))
unfolding after log get
after-log k start = refl
after-log k (call {s} r ctx now c a) =
    after-note (told (perform ctx now c s).0 (event k c)) (log k r) (after-log k r)
      (perform-phase k s (Reach-IsConsistent r) ctx now c a)
