-- ===== src/Dnsmasq/Order.antt =====
-- What `NormalizeDnsHosts` returns, and where `compareIP` is an order.
use mathlib.Core.List.{Mem, Perm, mem-map}
use mathlib.Core.Logic.{∥∥₁_elim}
use homelab_operator.Prelude.{
  Text, ◌≡◌, ◌≢◌, refl, ◌↔◌, ap, subst, Option, none, some, List, map, codes, arith, compare,
}
use homelab_operator.Prelude.Sort.{
  IsOrder, IsSorted, compare_on, compare_on-IsOrder, sort_func_congr, sort_func-IsSorted,
  sort_func-perm,
}
use homelab_operator.Dnsmasq.{
  DnsHostEntry, DnsHostsSpec, compare_ip, compare_entry, normalize_entry, normalize_dns_hosts,
}
use homelab_operator.Dnsmasq.Netip.{Addr, addr_compare, addr_compare-IsOrder, parse_addr}
use homelab_operator.Dnsmasq.Hostnames.{IsStrict, SameSet, normal-IsStrict, mem-normal, normal_iff}

-- Two entries with one address have one normal form exactly when they name the same hosts.
pub normalize_entry_iff :
    (a b : DnsHostEntry)
    → a.ip ≡ b.ip
    → (normalize_entry a ≡ normalize_entry b) ↔ SameSet a.hostnames b.hostnames
unfolding normalize_entry
normalize_entry_iff a b h = (
  (λ p. (normal_iff a.hostnames b.hostnames).0 (ap (λ (e : DnsHostEntry). e.hostnames) p)),
  (λ s i. record { ip = h i; hostnames = (normal_iff a.hostnames b.hostnames).1 s i }),
)

-- The hostnames of a normal entry ascend strictly, and are those that were there.
pub normalize_entry-IsStrict :
    (e : DnsHostEntry)
    → IsStrict (normalize_entry e).hostnames × SameSet (normalize_entry e).hostnames e.hostnames
unfolding normalize_entry
normalize_entry-IsStrict e = (normal-IsStrict e.hostnames, mem-normal e.hostnames)

abbrev no_addr : Addr
no_addr = record { bit_len = 0; value = 0; zone = codes "" }

-- The address that an entry's text stands for; one that is no address is below all.
abbrev pub address : (Text → Option Addr) → DnsHostEntry → Addr
address v6 e = elim (parse_addr v6 e.ip) [ none ↦ no_addr | some a ↦ a ]

-- Every entry's text parses.
abbrev pub AllParse : (Text → Option Addr) → List DnsHostEntry → Type 0
AllParse v6 hosts = (e : DnsHostEntry) → Mem e hosts → parse_addr v6 e.ip ≢ none

module _ (v6 : Text → Option Addr) where
  compare_entry-address :
      (a b : DnsHostEntry)
      → parse_addr v6 a.ip ≢ none
      → parse_addr v6 b.ip ≢ none
      → compare_entry v6 a b ≡ compare_on addr_compare (address v6) a b
  unfolding compare_ip
  compare_entry-address a b h k = ground arith

  -- Normal entries keep their addresses.
  AllParse-normal :
      (hosts : List DnsHostEntry) → AllParse v6 hosts → AllParse v6 (map normalize_entry hosts)
  unfolding normalize_entry
  AllParse-normal hosts h e m =
      ∥∥₁_elim (mem-map.0 m) (hlevel)
        λ p. subst (λ (x : DnsHostEntry). parse_addr v6 x.ip ≢ none) p.2 (h p.0 p.1)

  -- If every address parses, the hosts come out in the order of their addresses.
  pub normalize_dns_hosts-IsSorted :
      (spec : DnsHostsSpec)
      → AllParse v6 spec.hosts
      → IsSorted (compare_on addr_compare (address v6)) (normalize_dns_hosts v6 spec).hosts
  unfolding normalize_dns_hosts
  normalize_dns_hosts-IsSorted spec h =
      let all = AllParse-normal spec.hosts h in
      rw
        (sort_func_congr (compare_entry v6) (compare_on addr_compare (address v6))
          (map normalize_entry spec.hosts)
          λ a b ma mb. compare_entry-address a b (all a ma) (all b mb))
        (sort_func-IsSorted (compare_on-IsOrder (address v6) addr_compare-IsOrder) _)

  -- No host is lost, invented or merged.
  pub normalize_dns_hosts-perm :
      (spec : DnsHostsSpec)
      → Perm (normalize_dns_hosts v6 spec).hosts (map normalize_entry spec.hosts)
  unfolding normalize_dns_hosts
  normalize_dns_hosts-perm spec = sort_func-perm (compare_entry v6) _

  -- `compareIP` is no strict weak ordering: 10.0.0.9 is below 10.0.0.10 as an address, which is
  -- below the unparsable 10.0.0.5/24 as a text, which is below 10.0.0.9 as a text.
  pub compare_ip-not-IsOrder : ¬ IsOrder (compare_ip v6)
  unfolding compare_ip parse_addr addr_compare compare
  compare_ip-not-IsOrder o =
      o.trans (codes "10.0.0.9") (codes "10.0.0.10") (codes "10.0.0.5/24") (λ e. cc) (λ e. cc) refl
