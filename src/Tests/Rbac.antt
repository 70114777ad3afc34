-- ===== src/Tests/Rbac.antt =====
-- Examples for the markers: kinds are mapped by their names.
use homelab_operator.Prelude.{Text, [], ◌≡◌, refl, ◌==◌, codes, if◌then◌else◌}
use homelab_operator.Prelude.Dict.{Dict}
use homelab_operator.Cluster.{Gvk, other}
use homelab_operator.Dnsmasq.Netip.{no_ipv6}
use homelab_operator.Controller.Device.{reconcile_namespace}
use homelab_operator.Controller.Dns.{reconcile_ingress, reconcile_load_balancer}
use homelab_operator.Controller.Rbac.{
  device_rules, ingress_rules, load_balancer_rules, guarded, MapsKinds,
}
use homelab_operator.Controller.Rbac.Device.{reconcile_namespace-guarded}
use homelab_operator.Controller.Rbac.Dns.{reconcile_dns-guarded}
use homelab_operator.Tests.Data.{settings}
use homelab_operator.Tests.Server.{api_server}
use homelab_operator.Tests.ServerLaws.{api_server-ListSelects}

abbrev in_order : (V : Type 0) → Dict V → Dict V
in_order V m = m

abbrev resource_of : Gvk → Text
resource_of gvk =
    if gvk.kind == codes "DnsHosts"
    then codes "dnshosts"
    else (if gvk.kind == codes "DhcpHosts"
        then codes "dhcphosts"
        else (if gvk.kind == codes "DhcpOptions" then codes "dhcpoptions" else codes "devices"))

resource_of-MapsKinds : MapsKinds resource_of
unfolding ◌==◌
resource_of-MapsKinds = record {
  dns_hosts = refl;
  dhcp_hosts = refl;
  dhcp_options = refl;
  free_radius_devices = refl;
}

reconcile_namespace-guarded_example :
    reconcile_namespace
      (guarded api_server resource_of device_rules (other (codes "forbidden")))
      settings
      in_order
      no_ipv6
      (codes "home")
      []
    ≡ reconcile_namespace api_server settings in_order no_ipv6 (codes "home") []
reconcile_namespace-guarded_example =
    reconcile_namespace-guarded api_server resource_of (other (codes "forbidden")) settings in_order
      no_ipv6 (codes "home") [] resource_of-MapsKinds api_server-ListSelects

reconcile_dns-guarded_example :
    (reconcile_ingress
        (guarded api_server resource_of ingress_rules (other (codes "forbidden")))
        settings
        no_ipv6
        (codes "home")
        []
      ≡ reconcile_ingress api_server settings no_ipv6 (codes "home") [])
    × (reconcile_load_balancer
          (guarded api_server resource_of load_balancer_rules (other (codes "forbidden")))
          settings
          no_ipv6
          (codes "home")
          []
        ≡ reconcile_load_balancer api_server settings no_ipv6 (codes "home") [])
reconcile_dns-guarded_example =
    reconcile_dns-guarded api_server resource_of (other (codes "forbidden")) settings no_ipv6
      (codes "home") [] resource_of-MapsKinds
