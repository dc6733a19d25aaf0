-- ===== src/Gatekeeper/Reuse.antt =====
-- A deleted proxy leaves its port to others (pkg/entry/transport/gatekeeper.go).
use liaison.Base.{ℕ, ◌≡◌, refl, false, none, some, arith, if◌then◌else◌, nat_beq_iff}
use liaison.Base.Eq.{◌==◌, nat_eq}
use liaison.Base.Exec.{ok}
use liaison.Base.Table.{get, get-remove, get-put_self}
use liaison.Gatekeeper.{ProtoProxy, Proxy, Gatekeeper, Listen, enter, create_proxy, delete_proxy}
use liaison.Gatekeeper.Ports.{with_port}

-- What a lookup of the proxies and of the index finds after a deletion.
pub get-delete_proxy :
    (id : ℕ) (m : Gatekeeper) (p : Proxy) (j port : ℕ)
    → get id m.proxies ≡ some p
    → (get j (delete_proxy id m).proxies ≡ (if id == j then none else get j m.proxies))
      × (get port (delete_proxy id m).proxies_idx_port
          ≡ (if p.port == port then none else get port m.proxies_idx_port))
unfolding delete_proxy
get-delete_proxy id m p j port at =
    rw at (get-remove id j m.proxies, get-remove p.port port m.proxies_idx_port)

-- `CreateProxy` where nothing is in its way.
create_fresh :
    (listen : Listen) (proxy : ProtoProxy) (m : Gatekeeper) (actual : ℕ)
    → get proxy.id m.proxies ≡ none
    → get proxy.proxy_port m.proxies_idx_port ≡ none
    → listen proxy.proxy_port ≡ ok actual
    → create_proxy listen none proxy m ≡ (ok (with_port proxy actual), enter proxy actual m)
unfolding create_proxy
create_fresh listen proxy m actual absent free given = rw absent (rw free (rw given (ground arith)))

-- Once a proxy has been deleted, another one that is not there can be created at its port, if the
-- system gives that port and the relay starts, and it then has the port.
pub deleted_port_reused :
    (id : ℕ) (p : Proxy) (listen : Listen) (proxy : ProtoProxy) (m : Gatekeeper)
    → get id m.proxies ≡ some p
    → get proxy.id (delete_proxy id m).proxies ≡ none
    → proxy.proxy_port ≡ p.port
    → (proxy.proxy_port == 0) ≡ false
    → listen proxy.proxy_port ≡ ok proxy.proxy_port
    → let created = create_proxy listen none proxy (delete_proxy id m) in
      (created.0 ≡ ok proxy)
      × (get proxy.id created.1.proxies ≡ some (record { port = proxy.proxy_port }))
      × (get proxy.proxy_port created.1.proxies_idx_port ≡ some proxy.id)
deleted_port_reused id p listen proxy m at absent same asked given =
    let m' = delete_proxy id m in
    let free : get proxy.proxy_port m'.proxies_idx_port ≡ none = ground (
      arith,
      get-delete_proxy id m p id proxy.proxy_port at,
      nat_beq_iff p.port proxy.proxy_port,
    ) in
    rw (create_fresh listen proxy m' proxy.proxy_port absent free given) (
      (
        rw asked refl,
        get-put_self proxy.id (record { port = proxy.proxy_port }) m'.proxies,
        get-put_self proxy.proxy_port proxy.id m'.proxies_idx_port,
      ))
