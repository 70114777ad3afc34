-- ===== src/Desired/LoadBalancerBased.antt =====
-- internal/desired/loadbalancer.go: the DNS hosts of the LoadBalancer services.
pub mod Order
pub mod Resolve
use homelab_operator.Prelude.{
  Text, Option, List, [], ◌∷◌, ◌++◌, ◌==◌, Ordering, codes, compare, is_empty, if◌then◌else◌,
}
use homelab_operator.Prelude.Sort.{compare_on, sort_func}
use homelab_operator.Prelude.Dict.{Dict}
use homelab_operator.Api.{Service, service_type_load_balancer}
use homelab_operator.Dnsmasq.{DnsHostEntry, DnsHostsSpec, normalize_dns_hosts}
use homelab_operator.Dnsmasq.Netip.{Addr}
use homelab_operator.Desired.Grouping.{append_hostnames, sorted_hosts}

abbrev pub load_balancer_based_name : Text
load_balancer_based_name = codes "load-balancer-based"

-- `svc.Namespace + "/" + svc.Name`
abbrev pub service_key : Service → Text
service_key svc = svc.namespace ++ (codes "/" ++ svc.name)

abbrev first : List Text → Text
first [] = []
first (x ∷ l) = x

-- The address that the status reports first, or else the one that the spec requests.
unfoldable pub service_ip : Service → Text
service_ip svc =
    let reported = first svc.load_balancer_ingress in
    if is_empty reported then svc.load_balancer_ip else reported

-- The body of the loop over the services.
unfoldable pub add_service : Text → Dict DnsHostEntry → Service → Dict DnsHostEntry
add_service suffix by_ip svc =
    if svc.type == service_type_load_balancer
    then (let ip = service_ip svc in
        if is_empty ip then by_ip else append_hostnames ip ip ((svc.name ++ suffix) ∷ []) by_ip)
    else by_ip

unfoldable pub add_services : Text → Dict DnsHostEntry → List Service → Dict DnsHostEntry
add_services suffix by_ip [] = by_ip
add_services suffix by_ip (s ∷ ss) = add_services suffix (add_service suffix by_ip s) ss

abbrev pub by_service_key : Service → Service → Ordering
by_service_key = compare_on compare service_key

unfoldable pub build_load_balancer_based : (Text → Option Addr) → List Service → Text → DnsHostsSpec
build_load_balancer_based v6 services suffix =
    let by_ip = add_services suffix [] (sort_func by_service_key services) in
    normalize_dns_hosts v6 (record { controller = []; hosts = sorted_hosts by_ip })
