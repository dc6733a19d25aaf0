-- ===== src/Examples/Carrying.antt =====
-- Ports, the address ahead of a connection, and counted bytes (pkg/entry/transport/gatekeeper.go,
-- pkg/edge/proxy/proxy.go, pkg/trafficconn/trafficconn.go, traffic/traffic_collector.go) at small
-- inputs.
use Prim.Native.Nat.{zero, suc}
use Prim.Native.String as Native
use liaison.Base.{
  ℕ, ◌+◌, ◌%◌, ◌^◌, String, ◌≡◌, refl, true, false, none, some, List, [], ◌∷◌, ◌++◌, arith, ap,
}
use liaison.Base.Eq.{nat_eq, string_eq}
use liaison.Base.Exec.{ok}
use liaison.Base.Table.{get, put, remove}
use liaison.Agent.Tool.Names.{all_chars}
use liaison.Agent.Tool.Names.Splitting.{is_free}
use liaison.Gatekeeper.{ProtoProxy, Gatekeeper, Listen, new_gatekeeper, create_proxy, delete_proxy}
use liaison.Gatekeeper.Ports.{
  IsIndexed, Grants, GateReach, opened, creates, deletes, Reach-IsIndexed, one_proxy_per_port,
}
use liaison.Gatekeeper.Reuse.{deleted_port_reused}
use liaison.Framing.{Dst, DstJson, written, pre_write, read_dst}
use liaison.Framing.RoundTrip.{read_dst-pre_write}
use liaison.Traffic.Flow.{
  Event, connects, writes, ticks, reports, hands_over, flushes, persists, run, new_flow,
}
use liaison.Traffic.Keys.{IsDecimal}
use liaison.Traffic.Sums.{inward}
use liaison.Traffic.Conserved.{volume}
use liaison.Traffic.History.{all_brought, all_dropped, bytes_conserved}

abbrev web : ProtoProxy
web = record { id = 3; proxy_port = 8080; edge_id = 1; dst = "10.0.0.1:80"; application_id = 5 }

abbrev other : ProtoProxy
other = record { id = 4; proxy_port = 8080; edge_id = 1; dst = "10.0.0.2:80"; application_id = 6 }

abbrev listen : Listen
listen port = ok port

new-Grants : Grants listen new_gatekeeper
unfolding get
new-Grants = record {
  as_asked = λ port actual h given. cc;
  unheld = λ actual id given at. absurd cc;
}

abbrev serving : Gatekeeper
serving = (create_proxy listen none web new_gatekeeper).1

serving-Reach : GateReach serving
serving-Reach = creates opened listen none web new-Grants

Reach-IsIndexed_example : IsIndexed (delete_proxy 3 serving)
Reach-IsIndexed_example = Reach-IsIndexed (deletes serving-Reach 3)

one_proxy_per_port_example : ◌≡◌ {A = ℕ} 3 3
unfolding create_proxy get put
one_proxy_per_port_example =
    one_proxy_per_port 3 3 (record { port = 8080 }) (record { port = 8080 }) serving-Reach refl refl
      refl

deleted_port_reused_example :
    let created = create_proxy listen none other (delete_proxy 3 serving) in
    (created.0 ≡ ok other)
    × (get 4 created.1.proxies ≡ some (record { port = 8080 }))
    × (get 8080 created.1.proxies_idx_port ≡ some 4)
unfolding create_proxy delete_proxy get put remove
deleted_port_reused_example =
    deleted_port_reused 3 (record { port = 8080 }) listen other serving refl refl refl refl refl

abbrev address : Dst
address = record { addr = "10.0.0.1:80"; application_id = 5; proxy_id = 3 }

-- The encoding of one address.
abbrev json : DstJson
json = record { marshal = λ d. ok (1 ∷ 2 ∷ []); unmarshal = λ b. some address }

read_dst-pre_write_example :
    let sent = pre_write json written written address [] in
    (sent.0 ≡ ok tt)
    × (read_dst json ((pre_write json written written address []).1 ++ (7 ∷ []))
        ≡ some (address, 7 ∷ []))
read_dst-pre_write_example =
    read_dst-pre_write json address (1 ∷ 2 ∷ []) (7 ∷ []) refl refl (omega arith)

-- Numerals in base one.
tally : ℕ → String
tally zero = ""
tally (suc n) = Native.◌∷◌ "1" (tally n)

tally_free : (n : ℕ) → is_free b':' (tally n) ≡ true
unfolding tally all_chars
tally_free zero = refl
tally_free (suc n) = ground (arith, tally_free n)

tally_apart : (m n : ℕ) → tally m ≡ tally n → m ≡ n
unfolding tally
tally_apart zero zero h = refl
tally_apart zero (suc n) h = absurd cc
tally_apart (suc m) zero h = absurd cc
tally_apart (suc m) (suc n) h = ap suc (tally_apart m n cc)

tally-IsDecimal : IsDecimal tally
tally-IsDecimal = record { no_colon = tally_free; apart = tally_apart }

-- The bytes of a write are reported and stored, and a later write is still counted.
abbrev history : List Event
history =
    connects 0 3 5
    ∷ writes 0 100 false
    ∷ ticks 0
    ∷ reports
    ∷ writes 0 20 true
    ∷ hands_over
    ∷ flushes
    ∷ persists 9 true
    ∷ []

bytes_conserved_example :
    (volume inward 3 5 (run tally history (new_flow true))
        + all_dropped tally inward 3 5 history (new_flow true))
      % 2 ^ 64
    ≡ all_brought tally inward 3 5 history (new_flow true) % 2 ^ 64
bytes_conserved_example = bytes_conserved tally inward 3 5 tally-IsDecimal history true
