-- ===== src/Dnsmasq.antt =====
-- internal/dnsmasq/spec.go: the specs of the dnsmasq resources and their normal form.
-- `slices.SortFunc` is `sort_func`, `slices.Compact` is `compact`, `netip.ParseAddr` is
-- `Netip.parse_addr`, whose IPv6 branch is the parameter `v6`.
pub mod Netip
pub mod Hostnames
pub mod Order
pub mod Resolve
pub mod Unstructured
pub mod Parse
use homelab_operator.Prelude.{Text, Ordering, Option, none, some, List, map, codes, compare}
use homelab_operator.Prelude.Sort.{sort_func}
use Netip.{Addr, addr_compare, parse_addr}
use Hostnames.{compact}

pub record DnsHostEntry : Type 0 where
  pub ip : Text
  pub hostnames : List Text

pub record DnsHostsSpec : Type 0 where
  pub controller : Text
  pub hosts : List DnsHostEntry

abbrev pub dhcp_lease_time_infinite : Text
dhcp_lease_time_infinite = codes "infinite"

pub record DhcpHostEntry : Type 0 where
  pub macs : List Text
  pub ip : Text
  pub hostname : Text
  pub set_tags : List Text
  pub lease_time : Text

pub record DhcpHostsSpec : Type 0 where
  pub controller : Text
  pub hosts : List DhcpHostEntry

pub record DhcpOption : Type 0 where
  pub key : Text
  pub values : List Text
  pub tags : List Text

pub record DhcpOptionsSpec : Type 0 where
  pub controller : Text
  pub options : List DhcpOption

-- By address where both texts parse, by text where one does not.
unfoldable pub compare_ip : (Text → Option Addr) → Text → Text → Ordering
compare_ip v6 a b = elim (parse_addr v6 a) [
  | none ↦ compare a b
  | some pa ↦ elim (parse_addr v6 b) [ none ↦ compare a b | some pb ↦ addr_compare pa pb ]
]

unfoldable pub normalize_entry : DnsHostEntry → DnsHostEntry
normalize_entry e = record e { hostnames = compact (sort_func compare e.hostnames) }

abbrev pub compare_entry : (Text → Option Addr) → DnsHostEntry → DnsHostEntry → Ordering
compare_entry v6 a b = compare_ip v6 a.ip b.ip

unfoldable pub normalize_dns_hosts : (Text → Option Addr) → DnsHostsSpec → DnsHostsSpec
normalize_dns_hosts v6 spec = record spec {
  hosts = sort_func (compare_entry v6) (map normalize_entry spec.hosts);
}
