-- ===== src/Tests/Dnsmasq.antt =====
-- Examples for the normal form of the DNS hosts.
use mathlib.Core.List.{mem-cons, not-mem-nil}
use mathlib.Core.Logic.Or
use homelab_operator.Prelude.{Text, none, ◌≢◌, ◌↔◌, subst, sym, [], ◌∷◌, codes}
use homelab_operator.Prelude.Sort.{IsOrder, IsSorted, compare_on}
use homelab_operator.Dnsmasq.{DnsHostEntry, DnsHostsSpec, compare_ip, normalize_dns_hosts}
use homelab_operator.Dnsmasq.Netip.{addr_compare, parse_addr, no_ipv6}
use homelab_operator.Dnsmasq.Order.{
  normalize_dns_hosts-IsSorted, compare_ip-not-IsOrder, address, AllParse,
}
use homelab_operator.Dnsmasq.Resolve.{Resolves, Resolves-normalize}

abbrev high : DnsHostEntry
high = record { ip = codes "10.0.0.10"; hostnames = codes "b" ∷ codes "a" ∷ codes "b" ∷ [] }

abbrev low : DnsHostEntry
low = record { ip = codes "10.0.0.9"; hostnames = codes "c" ∷ [] }

abbrev spec : DnsHostsSpec
spec = record { controller = []; hosts = high ∷ low ∷ [] }

parse_high : parse_addr no_ipv6 high.ip ≢ none
unfolding parse_addr
parse_high e = cc

parse_low : parse_addr no_ipv6 low.ip ≢ none
unfolding parse_addr
parse_low e = cc

ip_text : DnsHostEntry → Text
ip_text e = e.ip

spec-AllParse : AllParse no_ipv6 spec.hosts
unfolding ip_text
spec-AllParse e m =
    Or.elim (hlevel) (mem-cons.0 m)
      (λ p. subst (λ (x : DnsHostEntry). parse_addr no_ipv6 x.ip ≢ none) (sym p) parse_high)
      (λ k.
        Or.elim (hlevel) (mem-cons.0 k)
          (λ p. subst (λ (x : DnsHostEntry). parse_addr no_ipv6 x.ip ≢ none) (sym p) parse_low)
          (λ j. absurd (not-mem-nil j)))

normalize_dns_hosts-IsSorted_example :
    IsSorted (compare_on addr_compare (address no_ipv6)) (normalize_dns_hosts no_ipv6 spec).hosts
normalize_dns_hosts-IsSorted_example = normalize_dns_hosts-IsSorted no_ipv6 spec spec-AllParse

compare_ip-not-IsOrder_example : ¬ IsOrder (compare_ip no_ipv6)
compare_ip-not-IsOrder_example = compare_ip-not-IsOrder no_ipv6

Resolves-normalize_example :
    Resolves (normalize_dns_hosts no_ipv6 spec) (codes "a") (codes "10.0.0.10")
    ↔ Resolves spec (codes "a") (codes "10.0.0.10")
Resolves-normalize_example = Resolves-normalize no_ipv6 spec (codes "a") (codes "10.0.0.10")
