-- ===== src/Gatekeeper.antt =====
-- pkg/entry/transport/gatekeeper.go: the TCP listeners of the proxies. `net.Listen` and the relay of
-- connections (rproxy) are not code of this repository: what they answer is an argument. IDs and
-- ports are `int`s that are not negative. Each operation is one step, under the gatekeeper's lock.
pub mod Ports
pub mod Reuse
use liaison.Base.{
  ℕ, suc, String, Bool, true, false, not, ◌&&◌, Option, none, some, List, [], ◌∷◌, ltb,
  if◌then◌else◌,
}
use liaison.Base.Eq.{◌==◌, nat_eq}
use liaison.Base.Exec.{Result, ok, err, Exec, pure, fail_if, gets, lift, modify, ◌>>=◌, ◌>>◌}
use liaison.Base.Table.{Table, get, put, remove}
use liaison.Agent.Tool.Registry.{is_in}
use liaison.Firewall.{Net, Manager, check_addr}
use liaison.Traffic.{TrafficStats}

-- `proto.Proxy`, what is used of it.
pub record ProtoProxy : Type 0 where
  pub id : ℕ
  pub proxy_port : ℕ
  pub edge_id : ℕ
  pub dst : String
  pub application_id : ℕ

-- `proxy`, with the relay and its goroutine left to the arguments.
pub record Proxy : Type 0 where
  pub port : ℕ

pub record Gatekeeper : Type 0 where
  pub proxies : Table ℕ Proxy
  pub proxies_idx_port : Table ℕ ℕ
  pub proxy_app_map : Table ℕ ℕ
  -- `none` is no firewall.
  pub firewall : Option Manager
  -- Whether there is a collector.
  pub traffic_collector : Bool
  pub traffic_stats : Table String TrafficStats

abbrev pub new_gatekeeper : Gatekeeper
new_gatekeeper = record {
  proxies = [];
  proxies_idx_port = [];
  proxy_app_map = [];
  firewall = none;
  traffic_collector = false;
  traffic_stats = [];
}

-- The errors of `net.Listen` and of rproxy are numbers.
pub data GateError : Type 0 where
  port_conflict : GateError
  listen_failed : ℕ → GateError
  relay_failed : ℕ → GateError

abbrev pub set_traffic_collector : Bool → Gatekeeper → Gatekeeper
set_traffic_collector collector m = record m { traffic_collector = collector }

abbrev pub set_firewall : Option Manager → Gatekeeper → Gatekeeper
set_firewall firewall m = record m { firewall = firewall }

-- The port is another proxy's.
abbrev pub is_taken : ℕ → Option ℕ → Bool
is_taken id none = false
is_taken id (some other) = not (other == id)

-- The test of `CreateProxy` for another proxy at the port that is asked for.
abbrev pub is_conflict : ProtoProxy → Gatekeeper → Bool
is_conflict proxy m =
    not (proxy.proxy_port == 0) && is_taken proxy.id (get proxy.proxy_port m.proxies_idx_port)

-- What `net.Listen` gives for a port: the port of its listener.
abbrev pub Listen : Type 0
Listen = ℕ → Result ℕ ℕ

abbrev pub listened : Result ℕ ℕ → Result GateError ℕ
listened (ok port) = ok port
listened (err x) = err (listen_failed x)

-- Whether `rproxy.NewRProxy` fails, and how.
abbrev pub relayed : Option ℕ → Result GateError (Unit {0})
relayed none = ok tt
relayed (some x) = err (relay_failed x)

abbrev pub enter : ProtoProxy → ℕ → Gatekeeper → Gatekeeper
enter proxy port m = record m {
  proxies = put proxy.id (record { port = port }) m.proxies;
  proxies_idx_port = put port proxy.id m.proxies_idx_port;
  proxy_app_map =
      (if ltb 0 proxy.application_id
        then put proxy.id proxy.application_id m.proxy_app_map
        else m.proxy_app_map);
}

-- `CreateProxy` behind the test that the proxy is not there. The result is the proxy, whose port is
-- written back where the system has chosen it; where the relay then fails, the caller's record has
-- that port too, which is left out here.
abbrev pub open_proxy : Listen → Option ℕ → ProtoProxy → Exec Gatekeeper GateError ProtoProxy
open_proxy listen relay proxy = do
  m ← gets (λ m. m)
  fail_if (is_conflict proxy m) port_conflict
  actual_port ← lift (listened (listen proxy.proxy_port))
  lift (relayed relay)
  modify (enter proxy actual_port)
  pure (if proxy.proxy_port == 0 then record proxy { proxy_port = actual_port } else proxy)

unfoldable pub create_proxy : Listen → Option ℕ → ProtoProxy → Exec Gatekeeper GateError ProtoProxy
create_proxy listen relay proxy m =
    if is_in (get proxy.id m.proxies) then (ok proxy, m) else open_proxy listen relay proxy m

abbrev pub left : ℕ → Option Proxy → Gatekeeper → Gatekeeper
left id none m = m
left id (some p) m = record m {
  proxies = remove id m.proxies;
  proxies_idx_port = remove p.port m.proxies_idx_port;
  proxy_app_map = remove id m.proxy_app_map;
}

-- `DeleteProxy`, which never fails.
unfoldable pub delete_proxy : ℕ → Gatekeeper → Gatekeeper
delete_proxy id m = left id (get id m.proxies) m

-- `Close`.
unfoldable pub close_all : Gatekeeper → Gatekeeper
close_all m = record m { proxies = [] }

-- The test of `postAccept`: whether a client of this address is let in.
unfoldable pub post_accept : Net → ℕ → Option String → Gatekeeper → Bool
post_accept net id client m = passes m.firewall
  where
    passes : Option Manager → Bool
    passes none = true
    passes (some rules) = check_addr net id client rules
