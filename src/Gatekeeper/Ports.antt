-- ===== src/Gatekeeper/Ports.antt =====
-- Proxies and ports name each other (pkg/entry/transport/gatekeeper.go), in every state before the
-- gatekeeper is closed.
use liaison.Base.{
  ℕ, ◌≡◌, refl, Bool, false, Option, none, some, arith, if◌then◌else◌, if_rule, Option-cases,
  Bool-cases, sym, ap, ◌∙◌, inl, inr, nat_beq_iff,
}
use liaison.Base.Eq.{◌==◌, nat_eq}
use liaison.Base.Exec.{Result, ok, err}
use liaison.Base.Exec.Rules.{fail_if_rule, lift_rule}
use liaison.Base.Table.{get, get-put, get-remove}
use liaison.Agent.Tool.Registry.{is_in}
use liaison.Firewall.{Manager}
use liaison.Gatekeeper.{
  ProtoProxy, Proxy, Gatekeeper, GateError, new_gatekeeper, set_traffic_collector, set_firewall,
  port_conflict, Listen, listened, relayed, enter, create_proxy, delete_proxy, is_conflict,
}

abbrev pub port_of : Option Proxy → Option ℕ
port_of none = none
port_of (some p) = some p.port

-- A port has the ID of a proxy just where the proxy has the port.
pub record IsIndexed (m : Gatekeeper) : Type 0 where
  pub back :
      (id port : ℕ) → port_of (get id m.proxies) ≡ some port → get port m.proxies_idx_port ≡ some id
  pub forth :
      (id port : ℕ) → get port m.proxies_idx_port ≡ some id → port_of (get id m.proxies) ≡ some port

-- What the operating system does: it gives the port that is asked for, and where it is left to choose
-- one, it chooses none that has an open listener.
pub record Grants (listen : Listen) (m : Gatekeeper) : Type 0 where
  pub as_asked : (port actual : ℕ) → (port == 0) ≡ false → listen port ≡ ok actual → actual ≡ port
  pub unheld : (actual id : ℕ) → listen 0 ≡ ok actual → port_of (get id m.proxies) ≡ some actual → ⊥

enter-IsIndexed :
    (proxy : ProtoProxy) (port : ℕ) (m : Gatekeeper)
    → IsIndexed m
    → get proxy.id m.proxies ≡ none
    → ((id : ℕ) → port_of (get id m.proxies) ≡ some port → ⊥)
    → IsIndexed (enter proxy port m)
enter-IsIndexed proxy port m i absent unheld = record {
  back = λ id at h. ground (
    arith,
    get-put proxy.id id (record { port = port }) m.proxies,
    get-put port at proxy.id m.proxies_idx_port,
    i.back id at,
    i.forth id at,
    unheld id,
    absent,
    nat_beq_iff proxy.id id,
    nat_beq_iff port at,
  );
  forth = λ id at h. ground (
    arith,
    get-put proxy.id id (record { port = port }) m.proxies,
    get-put port at proxy.id m.proxies_idx_port,
    i.back id at,
    i.forth id at,
    unheld id,
    absent,
    nat_beq_iff proxy.id id,
    nat_beq_iff port at,
  );
}

delete_proxy-IsIndexed : (id : ℕ) (m : Gatekeeper) → IsIndexed m → IsIndexed (delete_proxy id m)
unfolding delete_proxy
delete_proxy-IsIndexed id m i = elim (Option-cases (get id m.proxies)) [
  | inl n ↦ rw n i
  | inr (p, n) ↦ rw n (record {
    back = λ j at h. ground (
      arith,
      get-remove id j m.proxies,
      get-remove p.port at m.proxies_idx_port,
      i.back j at,
      i.back id at,
      nat_beq_iff id j,
      nat_beq_iff p.port at,
    );
    forth = λ j at h. ground (
      arith,
      get-remove id j m.proxies,
      get-remove p.port at m.proxies_idx_port,
      i.forth j at,
      nat_beq_iff id j,
      nat_beq_iff p.port at,
    );
  })
]

absent_of : (o : Option Proxy) → is_in o ≡ false → o ≡ none
absent_of none h = refl
absent_of (some p) h = absurd cc

-- The proxy as `CreateProxy` leaves it.
abbrev pub with_port : ProtoProxy → ℕ → ProtoProxy
with_port proxy actual =
    if proxy.proxy_port == 0 then record proxy { proxy_port = actual } else proxy

listened_inv : (r : Result ℕ ℕ) (port : ℕ) → listened r ≡ ok port → r ≡ ok port
listened_inv (ok p) port h = cc h
listened_inv (err x) port h = absurd cc

-- What `CreateProxy` comes to: nothing is done for a proxy that is there, an error changes nothing,
-- or the proxy is entered at the port that the system gave, behind the test for a conflict.
pub create_proxy_rule {κ} :
    (Q : Result GateError ProtoProxy × Gatekeeper → Type κ) (listen : Listen) (relay : Option ℕ)
    (proxy : ProtoProxy) (m : Gatekeeper)
    → Q (ok proxy, m)
    → ((x : GateError) → Q (err x, m))
    → ((actual : ℕ)
        → get proxy.id m.proxies ≡ none
        → is_conflict proxy m ≡ false
        → listen proxy.proxy_port ≡ ok actual
        → Q (ok (with_port proxy actual), enter proxy actual m))
    → Q (create_proxy listen relay proxy m)
unfolding create_proxy
create_proxy_rule Q listen relay proxy m there refused entered =
    if_rule Q (is_in (get proxy.id m.proxies)) _ _ (λ _. there)
      λ missing. fail_if_rule Q (is_conflict proxy m) _ (refused port_conflict) λ free.
        lift_rule Q (listened (listen proxy.proxy_port)) _ refused λ actual given.
          lift_rule Q (relayed relay) _ refused λ _ _.
            entered actual (absent_of (get proxy.id m.proxies) missing) free
              (listened_inv (listen proxy.proxy_port) actual given)

-- Behind the test no proxy has the port that is asked for: the index would lead to it, and so to the
-- new proxy's own ID, which has no proxy yet.
asked_unheld :
    (proxy : ProtoProxy) (m : Gatekeeper) (id : ℕ)
    → IsIndexed m
    → get proxy.id m.proxies ≡ none
    → is_conflict proxy m ≡ false
    → (proxy.proxy_port == 0) ≡ false
    → port_of (get id m.proxies) ≡ some proxy.proxy_port
    → ⊥
asked_unheld proxy m id i absent free asked held =
    ground (arith, i.back id proxy.proxy_port held, nat_beq_iff id proxy.id)

-- No proxy has the port that `CreateProxy` comes to enter.
given_unheld :
    (listen : Listen) (proxy : ProtoProxy) (m : Gatekeeper) (actual id : ℕ)
    → Grants listen m
    → IsIndexed m
    → get proxy.id m.proxies ≡ none
    → is_conflict proxy m ≡ false
    → listen proxy.proxy_port ≡ ok actual
    → port_of (get id m.proxies) ≡ some actual
    → ⊥
given_unheld listen proxy m actual id g i absent free given held =
    elim (Bool-cases (proxy.proxy_port == 0)) [
      | inl chosen ↦
          let zero : proxy.proxy_port ≡ 0 = (nat_beq_iff proxy.proxy_port 0).0 chosen in
          g.unheld actual id (ap listen (sym zero) ∙ given) held
      | inr asked ↦
          asked_unheld proxy m id i absent free asked
            (held ∙ ap some (g.as_asked proxy.proxy_port actual asked given))
    ]

pub create_proxy-IsIndexed :
    (listen : Listen) (relay : Option ℕ) (proxy : ProtoProxy) (m : Gatekeeper)
    → Grants listen m
    → IsIndexed m
    → IsIndexed (create_proxy listen relay proxy m).1
create_proxy-IsIndexed listen relay proxy m g i =
    create_proxy_rule (λ o. IsIndexed o.1) listen relay proxy m i (λ _. i)
      λ actual absent free given.
        enter-IsIndexed proxy actual m i absent
          λ id. given_unheld listen proxy m actual id g i absent free given

-- The gatekeepers that creations, deletions and settings make out of a new one.
pub data GateReach : Gatekeeper → Type 0 where
  opened : GateReach new_gatekeeper
  creates :
      {m : Gatekeeper}
      → GateReach m
      → (listen : Listen) (relay : Option ℕ) (proxy : ProtoProxy) → Grants listen m
      → GateReach (create_proxy listen relay proxy m).1
  deletes : {m : Gatekeeper} → GateReach m → (id : ℕ) → GateReach (delete_proxy id m)
  guards : {m : Gatekeeper} → GateReach m → (f : Option Manager) → GateReach (set_firewall f m)
  collects : {m : Gatekeeper} → GateReach m → (c : Bool) → GateReach (set_traffic_collector c m)

-- After any history of creations, deletions and settings, in which the system gives the port that is
-- asked for, and where it chooses one, none that has an open listener, the index has the ID of a proxy at a port just where the proxy has that port.
pub Reach-IsIndexed : {m : Gatekeeper} → GateReach m → IsIndexed m
unfolding get
Reach-IsIndexed opened = record { back = λ id at h. absurd cc; forth = λ id at h. absurd cc }
Reach-IsIndexed (creates {m} r listen relay proxy g) =
    create_proxy-IsIndexed listen relay proxy m g (Reach-IsIndexed r)
Reach-IsIndexed (deletes {m} r id) = delete_proxy-IsIndexed id m (Reach-IsIndexed r)
Reach-IsIndexed (guards r f) =
    let i = Reach-IsIndexed r in record { back = i.back; forth = i.forth }
Reach-IsIndexed (collects r c) =
    let i = Reach-IsIndexed r in record { back = i.back; forth = i.forth }

-- After any history of creations, deletions and settings, in which the system gives the port that is
-- asked for, and where it chooses one, none that has an open listener, no two proxies have one port.
pub one_proxy_per_port :
    {m : Gatekeeper} (a b : ℕ) (p q : Proxy)
    → GateReach m
    → get a m.proxies ≡ some p
    → get b m.proxies ≡ some q
    → p.port ≡ q.port
    → a ≡ b
one_proxy_per_port {m} a b p q r at_a at_b same =
    let i = Reach-IsIndexed r in
    let named_a = i.back a p.port (rw at_a refl) in
    let named_b = i.back b p.port (rw at_b (cc same)) in cc (named_a, named_b)
