-- ===== src/Examples/Addresses.antt =====
-- An allowlist of one network in pkg/entry/firewall.
use liaison.Base.{if◌then◌else◌, ◌≡◌, refl, true, none, some, [], ◌∷◌}
use liaison.Base.Eq.{nat_eq, string_eq}
use liaison.Base.Exec.{ok}
use liaison.Base.Lists.{any, all}
use liaison.Firewall.{Net, allow_only, check_ip}
use liaison.Firewall.Rules.{allowed_iff}

-- The one network holds the address 7.
abbrev net : Net
net = record {
  parse_cidr = λ s. if string_eq.is_same s "10.0.0.0/8" then some 10 else none;
  contains = λ network ip. nat_eq.is_same ip 7;
  split_host = λ s. none;
  parse_ip = λ s. none;
}

allowed_iff_example :
    ((allow_only net 3 ("10.0.0.0/8" ∷ []) []).0 ≡ ok tt)
    × (check_ip net 3 (some 7) (allow_only net 3 ("10.0.0.0/8" ∷ []) []).1 ≡ true)
unfolding all any
allowed_iff_example = allowed_iff net 3 3 7 ("10.0.0.0/8" ∷ []) [] refl
