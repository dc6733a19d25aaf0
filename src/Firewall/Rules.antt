-- ===== src/Firewall/Rules.antt =====
-- What an allowlist admits after each change (pkg/entry/firewall/firewall.go).
use liaison.Base.{
  ℕ, String, ◌≡◌, refl, Bool, true, false, ◌||◌, Option, none, some, List, [], ◌∷◌, arith,
  if◌then◌else◌, if_rule, Option-cases, inl, inr,
}
use liaison.Base.Eq.{◌==◌, nat_eq}
use liaison.Base.Exec.{Result, ok, err}
use liaison.Base.Lists.{any, all}
use liaison.Base.Table.{get, get-put, get-remove}
use liaison.Firewall.{
  Net, Manager, FirewallError, invalid_cidr, parse_all, allow_only, revoke, admits, check_ip,
}

abbrev pub is_failure : Result FirewallError (Unit {0}) → Bool
is_failure (ok u) = false
is_failure (err x) = true

abbrev pub is_network : Option ℕ → Bool
is_network none = false
is_network (some network) = true

-- Whether the text is a network with the address in it.
abbrev pub covers : Net → Option ℕ → ℕ → Bool
covers net none ip = false
covers net (some network) ip = net.contains network ip

module _ (net : Net) where
  abbrev pub parses : String → Bool
  parses cidr = is_network (net.parse_cidr cidr)

  abbrev pub is_within : ℕ → String → Bool
  is_within ip cidr = covers net (net.parse_cidr cidr) ip

  parsed :
      (cidrs : List String)
      → all parses cidrs ≡ true
      → (networks : List ℕ) × (parse_all net cidrs ≡ ok networks)
        × ((ip : ℕ) → any (λ network. net.contains network ip) networks ≡ any (is_within ip) cidrs)
  unfolding parse_all all any
  parsed [] h = ([], refl, λ ip. refl)
  parsed (cidr ∷ cidrs) h = elim (Option-cases (net.parse_cidr cidr)) [
    | inl n ↦ absurd (ground arith)
    | inr (network, n) ↦
        let (networks, done, same) = parsed cidrs (ground arith) in
        (network ∷ networks, rw n (rw done refl), λ ip. rw n (rw (same ip) refl))
  ]

  unparsed :
      (cidrs : List String)
      → all parses cidrs ≡ false
      → (x : FirewallError) × (parse_all net cidrs ≡ err x)
  unfolding parse_all all
  unparsed [] h = absurd (cc)
  unparsed (cidr ∷ cidrs) h = elim (Option-cases (net.parse_cidr cidr)) [
    | inl n ↦ (invalid_cidr cidr, rw n refl)
    | inr (network, n) ↦
        let (x, failed) = unparsed cidrs (ground arith) in (x, rw n (rw failed refl))
  ]

  -- If every text is a network, `Allow` succeeds: the proxy then admits just the addresses in one
  -- of the networks, none for an empty list, and every other proxy admits what it did.
  pub allowed_iff :
      (proxy_id q ip : ℕ) (cidrs : List String) (m : Manager)
      → all parses cidrs ≡ true
      → ((allow_only net proxy_id cidrs m).0 ≡ ok tt)
        × (check_ip net q (some ip) (allow_only net proxy_id cidrs m).1
            ≡ (if proxy_id == q then any (is_within ip) cidrs else check_ip net q (some ip) m))
  unfolding allow_only check_ip
  allowed_iff proxy_id q ip cidrs m h =
      let (networks, done, same) = parsed cidrs h in
      rw done (
        refl,
        rw get-put (
            if_rule
              (λ o.
                admits net o ip
                ≡ (if proxy_id == q then any (is_within ip) cidrs else admits net (get q m) ip))
              (proxy_id == q) _ _ (λ e. rw e (same ip)) λ e. rw e refl),
      )

  -- If some text is no network, `Allow` fails and leaves every rule as it was.
  bad_rule_changes_nothing :
      (proxy_id : ℕ) (cidrs : List String) (m : Manager)
      → all parses cidrs ≡ false
      → (is_failure (allow_only net proxy_id cidrs m).0 ≡ true)
        × ((allow_only net proxy_id cidrs m).1 ≡ m)
  unfolding allow_only
  bad_rule_changes_nothing proxy_id cidrs m h =
      let (x, failed) = unparsed cidrs h in rw failed (refl, refl)

  -- After `Revoke` the proxy admits every address, and every other proxy what it did.
  revoked_admits_all :
      (proxy_id q ip : ℕ) (m : Manager)
      → check_ip net q (some ip) (revoke proxy_id m) ≡ (proxy_id == q || check_ip net q (some ip) m)
  unfolding check_ip revoke
  revoked_admits_all proxy_id q ip m = rw get-remove (
      if_rule (λ o. admits net o ip ≡ (proxy_id == q || admits net (get q m) ip)) (proxy_id == q) _
        _ (λ e. rw e refl) λ e. rw e refl)
