-- ===== src/Agent/Runtime/Events/Order.antt =====
-- What the buffers of subscribers hold, and the loop of `Publish` (agent/runtime/events.go).
use text.Mathlib.TextEquality.{eq_iff}
use liaison.Base.{ℕ, suc, ◌≤◌, ◌<◌, ◌≡◌, refl, not, List, [], ◌∷◌, ◌++◌, arith, ltb, if_rule}
use liaison.Base.Eq.{◌==◌, nat_eq, string_eq}
use liaison.Base.Every.{Every, Every-concat, Every-mono}
use liaison.Base.Lists.{length}
use liaison.Base.Table.{Table}
use liaison.Base.Table.Rows.{Rows}
use liaison.Agent.Runtime.Events.{Event, Subscriber, Ended, EventBroker, offered, fan_out}

-- Each sequence number is greater than the one before it.
abbrev pub IsRising : ℕ → List Event → Type 0
IsRising low [] = Unit
IsRising low (e ∷ es) = (low < e.sequence) × IsRising e.sequence es

-- The buffer has events of the subscriber's session, numbered up to `n`, in the order in which they
-- were published, and at most `size` of them.
pub record IsStream (n size : ℕ) (s : Subscriber) : Type 0 where
  pub own : Every (λ event. (event.session_id ≡ s.session_id) × (event.sequence ≤ n)) s.events
  pub rising : IsRising 0 s.events
  pub short : length s.events ≤ size

abbrev pub IsFanned : EventBroker → Type 0
IsFanned b =
    Rows (IsStream b.next_id b.buffer_size) b.subscribers
    × Rows (λ gone. IsStream b.next_id b.buffer_size gone.subscriber) b.ended

IsRising-concat :
    (low n : ℕ) (es : List Event) (event : Event)
    → IsRising low es
    → low ≤ n
    → Every (λ e. e.sequence ≤ n) es
    → n < event.sequence
    → IsRising low (es ++ event ∷ [])
IsRising-concat low n [] event h le below lt = (omega (arith, le, lt), tt)
IsRising-concat low n (e ∷ es) event h le below lt =
    (h.0, IsRising-concat e.sequence n es event h.1 below.0 below.1 lt)

length-concat : (es : List Event) (event : Event) → length (es ++ event ∷ []) ≡ suc (length es)
length-concat [] event = refl
length-concat (e ∷ es) event = omega (arith, length-concat es event)

-- The numbers go on.
pub later : (n m size : ℕ) → n ≤ m → (s : Subscriber) → IsStream n size s → IsStream m size s
later n m size le s h = record {
  own =
      Every-mono _ (λ event. (event.session_id ≡ s.session_id) × (event.sequence ≤ m))
        (λ event own. (own.0, omega (arith, own.1, le))) s.events h.own;
  rising = h.rising;
  short = h.short;
}

offered-IsStream :
    (n m size : ℕ) (event : Event) (s : Subscriber)
    → IsStream n size s
    → event.session_id ≡ s.session_id
    → n < m
    → event.sequence ≡ m
    → length s.events < size
    → IsStream m size (offered event s)
offered-IsStream n m size event s h same lt next room = record {
  own =
      Every-concat _ s.events event (later n m size (omega (arith, lt)) s h).own
        (same, omega (arith, next));
  rising =
      IsRising-concat 0 n s.events event h.rising (omega arith)
        (Every-mono _ (λ e. e.sequence ≤ n) (λ e own. own.1) s.events h.own)
        (omega (arith, lt, next));
  short = rw length-concat (omega (arith, room));
}

pub fan_out-IsStream :
    (n m size : ℕ) (event : Event) (t : Table ℕ Subscriber)
    → n < m
    → event.sequence ≡ m
    → Rows (IsStream n size) t
    → let o = fan_out size event t in
      Rows (IsStream m size) o.0 × Rows (λ gone. IsStream m size gone.subscriber) o.1
unfolding fan_out
fan_out-IsStream n m size event [] lt next h = (tt, tt)
fan_out-IsStream n m size event ((id, s) ∷ t) lt next h =
    let (staying, slow) = fan_out-IsStream n m size event t lt next h.1 in
    let kept = later n m size (omega (arith, lt)) s h.0 in
    let P : Table ℕ Subscriber × Table ℕ Ended → Type 0 =
      λ o. Rows (IsStream m size) o.0 × Rows (λ gone. IsStream m size gone.subscriber) o.1 in
    if_rule P (not (s.session_id == event.session_id)) _ _ (λ _. ((kept, staying), slow))
      λ own.
        if_rule P (ltb (length s.events) size) _ _
          (λ room. (
            (
              offered-IsStream n m size event s h.0
                  (ground (arith, eq_iff s.session_id event.session_id)) lt next (ground arith),
              staying,
            ),
            slow,
          ))
          λ _. (staying, (kept, slow))
