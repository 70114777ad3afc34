-- ===== src/Desired/IngressBased.antt =====
-- internal/desired/ingress.go: the DNS hosts of the ingress routers, from Ingresses and HTTPRoutes.
pub mod Routers
pub mod Resolve
use homelab_operator.Prelude.{
  Text, not, Option, none, some, List, [], ◌∷◌, ◌++◌, Ordering, codes, compare, is_empty,
  if◌then◌else◌,
}
use homelab_operator.Prelude.Lists.{keep}
use homelab_operator.Prelude.Sort.{compare_on, sort_func}
use homelab_operator.Prelude.Dict.{Dict, get, put}
use homelab_operator.Api.{IngressRouter, Ingress}
use homelab_operator.Dnsmasq.{DnsHostEntry, DnsHostsSpec, normalize_dns_hosts}
use homelab_operator.Dnsmasq.Netip.{Addr}
use homelab_operator.Desired.Grouping.{append_hostnames, sorted_hosts}

abbrev pub ingress_based_name : Text
ingress_based_name = codes "ingress-based"

-- The part of an HTTPRoute that is used: the first parent's name, and the hostnames.
pub record HttpRouteLike : Type 0 where
  pub gateway : Text
  pub hostnames : List Text

-- The loop that fills `routerByClass`: a later router takes over the class of an earlier one.
unfoldable pub router_by_class : List IngressRouter → Dict IngressRouter → Dict IngressRouter
router_by_class [] m = m
router_by_class (ir ∷ irs) m =
    router_by_class irs
      (if is_empty ir.spec.ingress_class then m else put ir.spec.ingress_class ir m)

abbrev pub class_annotation : Text
class_annotation = codes "kubernetes.io/ingress.class"

-- A missing annotation reads as the empty text.
unfoldable pub ingress_class : Ingress → Text
ingress_class ing = elim ing.ingress_class_name [
  | some c ↦ c
  | none ↦ elim (get class_annotation ing.annotations) [ none ↦ [] | some c ↦ c ]
]

-- Hostnames under the router of a class; a class without a router is passed over.
unfoldable pub add_to_class :
    Dict IngressRouter → Text → List Text → Dict DnsHostEntry → Dict DnsHostEntry
add_to_class routers class hostnames m = elim (get class routers) [
  | none ↦ m
  | some ir ↦ append_hostnames ir.name ir.spec.ip_address hostnames m
]

-- The loop over the ingresses; rules without a host are passed over.
unfoldable pub add_ingresses :
    Dict IngressRouter → List Ingress → Dict DnsHostEntry → Dict DnsHostEntry
add_ingresses routers [] m = m
add_ingresses routers (ing ∷ ings) m =
    add_ingresses routers ings
      (add_to_class routers (ingress_class ing) (keep (λ h. not (is_empty h)) ing.rules) m)

-- The loop over the routes.
unfoldable pub add_routes :
    Dict IngressRouter → List HttpRouteLike → Dict DnsHostEntry → Dict DnsHostEntry
add_routes routers [] m = m
add_routes routers (hr ∷ hrs) m =
    add_routes routers hrs (add_to_class routers hr.gateway hr.hostnames m)

abbrev pub by_router_name : IngressRouter → IngressRouter → Ordering
by_router_name = compare_on compare (λ (ir : IngressRouter). ir.name)

-- `a.Namespace + "/" + a.Name`
abbrev pub ingress_key : Ingress → Text
ingress_key ing = ing.namespace ++ (codes "/" ++ ing.name)

abbrev pub by_ingress_key : Ingress → Ingress → Ordering
by_ingress_key = compare_on compare ingress_key

abbrev pub by_gateway : HttpRouteLike → HttpRouteLike → Ordering
by_gateway = compare_on compare (λ (hr : HttpRouteLike). hr.gateway)

unfoldable pub build_ingress_based :
    (Text → Option Addr) → List IngressRouter → List Ingress → List HttpRouteLike → DnsHostsSpec
build_ingress_based v6 routers ingresses routes =
    let by_class = router_by_class (sort_func by_router_name routers) [] in
    let from_ingresses = add_ingresses by_class (sort_func by_ingress_key ingresses) [] in
    let hosts_by_router = add_routes by_class (sort_func by_gateway routes) from_ingresses in
    normalize_dns_hosts v6 (record { controller = []; hosts = sorted_hosts hosts_by_router })
