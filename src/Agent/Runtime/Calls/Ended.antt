-- ===== src/Agent/Runtime/Calls/Ended.antt =====
-- A turn that has ended keeps its status for ever.
use liaison.Base.{String, ◌≡◌, true, Option, none, some, arith}
use liaison.Base.Eq.{string_eq}
use liaison.Base.Table.{get}
use liaison.Agent.Tool.Types.{Time}
use liaison.Agent.Runtime.Status.{TurnStatus, is_terminal, valid_turn_transition}
use liaison.Agent.Runtime.Types.{CtxError, Turn}
use liaison.Agent.Runtime.Store.{Store}
use liaison.Agent.Runtime.Calls.{Call, perform}
use liaison.Agent.Runtime.Calls.Progress.{turn_follows, perform_turn}

-- The stores that calls make out of a given one, whatever the calls.
pub data Later (s : Store) : Store → Type 0 where
  same : Later s s
  after :
      {u : Store}
      → Later s u
      → (ctx : Option CtxError) (now : Time) (c : Call) → Later s (perform ctx now c u).1

abbrev pub status_of : Option Turn → Option TurnStatus
status_of none = none
status_of (some t) = some t.status

ended_stays :
    (o u : Option Turn) (e : TurnStatus)
    → turn_follows o u ≡ true
    → is_terminal e ≡ true
    → status_of o ≡ some e
    → status_of u ≡ some e
unfolding valid_turn_transition is_terminal
ended_stays o u e f t h = ground arith

-- Whatever calls follow, a turn that has completed, failed or been cancelled is still there with
-- that status.
pub ended_for_ever :
    {s u : Store} (k : String) (e : TurnStatus)
    → Later s u
    → is_terminal e ≡ true
    → status_of (get k s.turns) ≡ some e
    → status_of (get k u.turns) ≡ some e
ended_for_ever k e same t h = h
ended_for_ever k e (after {u} l ctx now c) t h =
    ended_stays (get k u.turns) (get k (perform ctx now c u).1.turns) e (perform_turn k u ctx now c)
      t (ended_for_ever k e l t h)
