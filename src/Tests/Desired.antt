-- ===== src/Tests/Desired.antt =====
-- Examples for the objects that are built from devices, networks and services.
use mathlib.Core.List.{
  Mem, Mem-prop, flat_map, mem-cons_of_mem, mem-cons_self, not-mem-nil, mem-cons,
}
use mathlib.Core.List.Perm
use mathlib.Core.Logic.Or
use mathlib.Core.Option
use homelab_operator.Prelude.{
  Text, none, some, ◌≡◌, ◌≢◌, refl, sym, ◌∙◌, ◌↔◌, ap, List, [], ◌∷◌, ◌++◌, map, codes,
  if◌then◌else◌,
}
use homelab_operator.Prelude.Dict.{get}
use homelab_operator.Prelude.Sort.{sort_func}
use homelab_operator.Api.{IngressRouter, Device, Network, Service}
use homelab_operator.Dnsmasq.{normalize_dns_hosts}
use homelab_operator.Dnsmasq.Netip.{no_ipv6}
use homelab_operator.Dnsmasq.Resolve.{Resolves}
use homelab_operator.Desired.DeviceBased.{
  build_device_based, device_based_network_name, by_network_name, dns_entry, dhcp_entry,
}
use homelab_operator.Desired.DeviceBased.Hosts.{get-dns_hosts, dns_spec, of_network, has_ip}
use homelab_operator.Desired.DeviceBased.Leases.{get-dhcp_hosts, dhcp_spec, has_dhcp}
use homelab_operator.Desired.DeviceBased.FreeRadius.{get-free_radius, is_radius, radius_spec}
use homelab_operator.Desired.DeviceBased.Order.{
  build_device_based_perm, DeviceNamesDiffer, NetworkNamesDiffer,
}
use homelab_operator.Desired.DeviceBased.Options.{
  settings_options, options-build_device_based, options_of,
}
use homelab_operator.Desired.LoadBalancerBased.{build_load_balancer_based}
use homelab_operator.Desired.LoadBalancerBased.Order.{SameServices, build_load_balancer_based_same}
use homelab_operator.Desired.LoadBalancerBased.Resolve.{
  Publishes, Resolves-build_load_balancer_based,
}
use homelab_operator.Desired.IngressBased.{HttpRouteLike, build_ingress_based}
use homelab_operator.Desired.IngressBased.Resolve.{Routes, Resolves-build_ingress_based}
use homelab_operator.Tests.Data.{nas, printer, lan, iot, web, mail, traefik, wiki, settings}

abbrev devices : List Device
devices = printer ∷ nas ∷ []

abbrev networks : List Network
networks = lan ∷ []

Device-set : IsSet Device
Device-set = hlevel

Service-set : IsSet Service
Service-set = hlevel

mem_one : {A : Type 0} → IsSet A → {a x : A} → Mem x (a ∷ []) → x ≡ a
mem_one s {a} {x} m = Or.elim (s x a) (mem-cons.0 m) (λ e. e) (λ k. absurd (not-mem-nil k))

get-dns_hosts_example :
    get
      (device_based_network_name (codes "lan"))
      (build_device_based no_ipv6 devices networks settings).dns_hosts
    ≡ Option.map
        (normalize_dns_hosts no_ipv6)
        (dns_spec (map (dns_entry settings) (of_network networks (codes "lan") has_ip devices)))
get-dns_hosts_example = get-dns_hosts no_ipv6 devices networks settings (codes "lan")

get-dhcp_hosts_example :
    get
      (device_based_network_name (codes "lan"))
      (build_device_based no_ipv6 devices networks settings).dhcp_hosts
    ≡ dhcp_spec (map dhcp_entry (of_network networks (codes "lan") has_dhcp devices))
get-dhcp_hosts_example = get-dhcp_hosts no_ipv6 devices networks settings (codes "lan")

clash : printer.name ≢ nas.name
clash e = cc

name : Device → Text
name d = d.name

devices-DeviceNamesDiffer : DeviceNamesDiffer devices
unfolding name
devices-DeviceNamesDiffer a b ma mb e =
    Or.elim (Device-set a b) (mem-cons.0 ma)
      (λ pa.
        Or.elim (Device-set a b) (mem-cons.0 mb) (λ pb. pa ∙ sym pb)
          λ kb. absurd (clash (sym (ap name pa) ∙ e ∙ ap name (mem_one Device-set kb))))
      (λ ka.
        Or.elim (Device-set a b) (mem-cons.0 mb)
          (λ pb. absurd (clash (sym (ap name pb) ∙ sym e ∙ ap name (mem_one Device-set ka))))
          λ kb. mem_one Device-set ka ∙ sym (mem_one Device-set kb))

Network-set : IsSet Network
Network-set = hlevel

networks-NetworkNamesDiffer : NetworkNamesDiffer networks
networks-NetworkNamesDiffer a b ma mb e = mem_one Network-set ma ∙ sym (mem_one Network-set mb)

get-free_radius_example :
    get (codes "nas") (build_device_based no_ipv6 devices networks settings).free_radius
    ≡ (if is_radius settings nas then some (radius_spec nas lan) else none)
get-free_radius_example =
    get-free_radius no_ipv6 devices networks settings nas lan
      (mem-cons_of_mem printer mem-cons_self) mem-cons_self devices-DeviceNamesDiffer
      networks-NetworkNamesDiffer refl refl

build_device_based_perm_example :
    build_device_based no_ipv6 devices networks settings
    ≡ build_device_based no_ipv6 (nas ∷ printer ∷ []) networks settings
build_device_based_perm_example =
    build_device_based_perm no_ipv6 settings (Perm.swap nas printer []) (Perm.refl networks)
      devices-DeviceNamesDiffer networks-NetworkNamesDiffer

options-build_device_based_example :
    (build_device_based no_ipv6 devices (lan ∷ iot ∷ []) settings).dhcp_options.options
    ≡ settings_options settings
      ++ flat_map (options_of settings) (sort_func by_network_name (lan ∷ iot ∷ []))
options-build_device_based_example =
    options-build_device_based no_ipv6 devices (lan ∷ iot ∷ []) settings

Resolves-build_load_balancer_based_example :
    Resolves
      (build_load_balancer_based no_ipv6 (web ∷ mail ∷ []) (codes ".lb"))
      (codes "web.lb")
      (codes "10.0.0.50")
    ↔ Publishes (codes ".lb") (web ∷ mail ∷ []) (codes "web.lb") (codes "10.0.0.50")
Resolves-build_load_balancer_based_example =
    Resolves-build_load_balancer_based no_ipv6 (web ∷ mail ∷ []) (codes ".lb") (codes "web.lb")
      (codes "10.0.0.50")

twice : SameServices (web ∷ mail ∷ []) (mail ∷ web ∷ web ∷ [])
twice s = (
  (λ m.
      Or.elim Mem-prop (mem-cons.0 m) (λ e. rw e (mem-cons_of_mem mail mem-cons_self))
        λ k. rw (mem_one Service-set k) mem-cons_self),
  (λ m.
      Or.elim Mem-prop (mem-cons.0 m) (λ e. rw e (mem-cons_of_mem web mem-cons_self))
        λ k.
          Or.elim Mem-prop (mem-cons.0 k) (λ e. rw e mem-cons_self)
            λ j. rw (mem_one Service-set j) mem-cons_self),
)

build_load_balancer_based_same_example :
    build_load_balancer_based no_ipv6 (web ∷ mail ∷ []) (codes ".lb")
    ≡ build_load_balancer_based no_ipv6 (mail ∷ web ∷ web ∷ []) (codes ".lb")
build_load_balancer_based_same_example =
    build_load_balancer_based_same no_ipv6 (web ∷ mail ∷ []) (mail ∷ web ∷ web ∷ []) (codes ".lb")
      twice

Router-set : IsSet IngressRouter
Router-set = hlevel

abbrev docs : HttpRouteLike
docs = record { gateway = codes "traefik"; hostnames = codes "docs.example" ∷ [] }

Resolves-build_ingress_based_example :
    Resolves
      (build_ingress_based no_ipv6 (traefik ∷ []) (wiki ∷ []) (docs ∷ []))
      (codes "wiki.example")
      (codes "10.0.0.60")
    ↔ Routes (traefik ∷ []) (wiki ∷ []) (docs ∷ []) (codes "wiki.example") (codes "10.0.0.60")
Resolves-build_ingress_based_example =
    Resolves-build_ingress_based no_ipv6 (traefik ∷ []) (wiki ∷ []) (docs ∷ [])
      (codes "wiki.example") (codes "10.0.0.60")
      (λ a b ma mb e. mem_one Router-set ma ∙ sym (mem_one Router-set mb))
      (λ a b ma mb n e. mem_one Router-set ma ∙ sym (mem_one Router-set mb))
