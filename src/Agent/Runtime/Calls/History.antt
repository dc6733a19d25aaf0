-- ===== src/Agent/Runtime/Calls/History.antt =====
-- What holds of the store after any history of calls.
use liaison.Base.{String, ◌≡◌, ◌∙◌, sym, ap, false, Option, some, arith}
use liaison.Base.Eq.{string_eq}
use liaison.Base.Table.{get}
use liaison.Agent.Tool.Types.{Time}
use liaison.Agent.Runtime.Status.{is_terminal}
use liaison.Agent.Runtime.Types.{CtxError, Turn}
use liaison.Agent.Runtime.Store.{Store, new_memory_store}
use liaison.Agent.Runtime.Consistency.{IsConsistent, active_turn_of}
use liaison.Agent.Runtime.Consistency.Sessions.{
  create_session-IsConsistent, create_session_with_attachment-IsConsistent,
  archive_session-IsConsistent, set_active_attachment-IsConsistent,
}
use liaison.Agent.Runtime.Consistency.Attachments.{
  create_attachment-IsConsistent, update_attachment-IsConsistent,
}
use liaison.Agent.Runtime.Consistency.Turns.{start_turn-IsConsistent, transition_turn-IsConsistent}
use liaison.Agent.Runtime.Consistency.Steps.{
  append_step-IsConsistent, transition_step-IsConsistent, write_step_error-IsConsistent,
}
use liaison.Agent.Runtime.Consistency.Messages.{
  append_message-IsConsistent, save_tool_snapshot-IsConsistent,
}
use liaison.Agent.Runtime.Calls.{
  Call, creates, creates_with, archives, activates, attaches, updates, starts, moves, appends,
  moves_step, writes_error, sends, saves, perform, IsAdmissible, Reach, start, call,
}

-- Every call, failing or not, keeps the references between sessions, turns, steps and attachments.
pub perform-IsConsistent :
    (ctx : Option CtxError) (now : Time) (c : Call) (s : Store)
    → IsAdmissible c
    → IsConsistent s
    → IsConsistent (perform ctx now c s).1
unfolding perform
perform-IsConsistent ctx now (creates session) s a i =
    create_session-IsConsistent ctx now i session a.0 a.1
perform-IsConsistent ctx now (creates_with session attachment) s a i =
    create_session_with_attachment-IsConsistent ctx now s session attachment i a
perform-IsConsistent ctx now (archives id version) s a i =
    archive_session-IsConsistent ctx now i id version
perform-IsConsistent ctx now (activates id attachment_id version) s a i =
    set_active_attachment-IsConsistent ctx now i id attachment_id version
perform-IsConsistent ctx now (attaches attachment) s a i =
    create_attachment-IsConsistent ctx now i attachment
perform-IsConsistent ctx now (updates attachment generation) s a i =
    update_attachment-IsConsistent ctx now i attachment generation
perform-IsConsistent ctx now (starts id turn) s a i = start_turn-IsConsistent ctx now s id turn i
perform-IsConsistent ctx now (moves id version to code message) s a i =
    transition_turn-IsConsistent ctx now s id version to code message i
perform-IsConsistent ctx now (appends id version step) s a i =
    append_step-IsConsistent ctx now i id version step
perform-IsConsistent ctx now (moves_step id to output) s a i =
    transition_step-IsConsistent ctx now i id to output
perform-IsConsistent ctx now (writes_error id code message) s a i =
    write_step_error-IsConsistent id code message i
perform-IsConsistent ctx now (sends message) s a i = append_message-IsConsistent i ctx now message
perform-IsConsistent ctx now (saves turn_id step_id snapshot) s a i =
    save_tool_snapshot-IsConsistent i ctx turn_id step_id snapshot

new-IsConsistent : IsConsistent new_memory_store
unfolding get
new-IsConsistent = record {
  session_key = λ k x h. cc;
  turn_key = λ k t h. ground arith;
  attachment_key = λ k a h. ground arith;
  step_key = λ k p h. cc;
  running_active = λ k t h r. cc;
  active_runs = λ k x h r. cc;
  archived_idle = λ k x h r. cc;
  attachment_owner = λ k a h. cc;
  active_attached = λ k x h r. cc;
  step_turn = λ k p h. cc;
}

-- After any history of admissible calls on a new store, whatever their order, contexts and results,
-- the store is consistent: every record stands under its ID, a turn that has not ended is the active
-- turn of its session and an active turn has not ended, an archived session has none, and every
-- attachment, active attachment and step belongs to a session or a turn that is there.
pub Reach-IsConsistent : {s : Store} → Reach s → IsConsistent s
Reach-IsConsistent start = new-IsConsistent
Reach-IsConsistent (call {s} r ctx now c a) =
    perform-IsConsistent ctx now c s a (Reach-IsConsistent r)

-- After any history of admissible calls, two turns of one session that have not ended are one turn.
pub one_running_turn :
    {s : Store} (k j : String) (t u : Turn)
    → Reach s
    → get k s.turns ≡ some t
    → get j s.turns ≡ some u
    → is_terminal t.status ≡ false
    → is_terminal u.status ≡ false
    → t.agent_session_id ≡ u.agent_session_id
    → k ≡ j
one_running_turn {s} k j t u r ht hu lt lu same =
    let c = Reach-IsConsistent r in
    sym (c.running_active k t ht lt)
    ∙ (ap (λ id. active_turn_of (get id s.sessions)) same ∙ c.running_active j u hu lu)
