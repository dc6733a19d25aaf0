-- ===== src/Firewall.antt =====
-- pkg/entry/firewall/firewall.go: the allowlist of source addresses of each proxy. Go's `net` is the
-- record `Net`, over its own networks and addresses. Each operation is one step, under the
-- manager's lock.
pub mod Rules
use liaison.Base.{ℕ, String, Bool, true, false, Option, none, some, List, [], ◌∷◌, if◌then◌else◌}
use liaison.Base.Eq.{Comparable, nat_eq}
use liaison.Base.Exec.{Result, ok, err, Exec, lift, modify, ◌>>=◌, ◌>>◌}
use liaison.Base.Lists.{any}
use liaison.Base.Table.{Table, get, put, remove}

-- What is used of Go's `net`: `none` where parsing fails. Networks and addresses are numbers.
pub record Net : Type 0 where
  pub parse_cidr : String → Option ℕ
  pub contains : ℕ → ℕ → Bool
  pub split_host : String → Option String
  pub parse_ip : String → Option ℕ

-- `rules` of `Manager`.
abbrev pub Manager : Type 0
Manager = Table ℕ (List ℕ)

-- The CIDR that does not parse.
pub data FirewallError : Type 0 where
  invalid_cidr : String → FirewallError

abbrev pub add_parsed :
    String → Option ℕ → Result FirewallError (List ℕ) → Result FirewallError (List ℕ)
add_parsed cidr none rest = err (invalid_cidr cidr)
add_parsed cidr (some network) (ok networks) = ok (network ∷ networks)
add_parsed cidr (some network) (err x) = err x

-- The loop of `Allow`: the networks, or the first text that is none.
unfoldable pub parse_all : Net → List String → Result FirewallError (List ℕ)
parse_all net [] = ok []
parse_all net (cidr ∷ cidrs) = add_parsed cidr (net.parse_cidr cidr) (parse_all net cidrs)

unfoldable pub allow_only : Net → ℕ → List String → Exec Manager FirewallError (Unit {0})
allow_only net proxy_id cidrs = do parsed ← lift (parse_all net cidrs); modify (put proxy_id parsed)

unfoldable pub revoke : ℕ → Manager → Manager
revoke proxy_id m = remove proxy_id m

abbrev pub admits : Net → Option (List ℕ) → ℕ → Bool
admits net none ip = true
admits net (some networks) ip = any (λ network. net.contains network ip) networks

-- `none` is a `nil` address.
unfoldable pub check_ip : Net → ℕ → Option ℕ → Manager → Bool
check_ip net proxy_id none m = true
check_ip net proxy_id (some ip) m = admits net (get proxy_id m) ip

abbrev pub check_host : Net → ℕ → Option String → Manager → Bool
check_host net proxy_id none m = true
check_host net proxy_id (some host) m = check_ip net proxy_id (net.parse_ip host) m

-- `CheckAddr` on the text of the address, `none` for `nil`.
unfoldable pub check_addr : Net → ℕ → Option String → Manager → Bool
check_addr net proxy_id none m = true
check_addr net proxy_id (some addr) m = check_host net proxy_id (net.split_host addr) m
