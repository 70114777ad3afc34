-- ===== src/Tests/Wiring.antt =====
-- Examples for the events, the errors and the Parse functions.
use homelab_operator.Prelude.{
  true, not, ◌&&◌, none, ◌≡◌, refl, [], ◌∷◌, eq_refl, codes, arith, if◌then◌else◌,
}
use homelab_operator.Prelude.Lists.{All}
use homelab_operator.Config.{is_nil}
use homelab_operator.Labels.{managed}
use homelab_operator.Cluster.{Gvk, Client, ConfigMap, Error, other, ok, err}
use homelab_operator.Dnsmasq.{DnsHostsSpec, DhcpHostsSpec, DhcpOptionsSpec}
use homelab_operator.Dnsmasq.Netip.{no_ipv6}
use homelab_operator.Dnsmasq.Unstructured.{
  new_dns_hosts, new_dhcp_hosts, new_dhcp_options, dhcp_options_gvk, dhcp_hosts_gvk,
}
use homelab_operator.Cluster.Laws.{same_kind}
use homelab_operator.Cluster.Exec.{Keeps}
use homelab_operator.Api.{Device}
use homelab_operator.Controller.Status.Marked.{IsMarked}
use homelab_operator.Controller.Status.Conditions.{SetsCondition}
use homelab_operator.Dnsmasq.Parse.{
  parse_dns_hosts_spec, parse_dhcp_hosts_spec, parse_dhcp_options_spec,
}
use homelab_operator.Dnsmasq.Parse.RoundTrip.{parse-new}
use homelab_operator.Desired.DeviceBased.{DeviceBasedOutput, build_device_based}
use homelab_operator.Controller.Device.{device_based, reconcile_namespace}
use homelab_operator.Controller.Device.Errors.{RefusesOptions, reconcile_namespace_refused}
use homelab_operator.Controller.Dns.{ingress_anchor_name, lb_anchor_name}
use homelab_operator.Controller.Watch.{canonical_network_request}
use homelab_operator.Controller.Watch.Events.{
  device, anchor_request, device_requests, ingress_requests, load_balancer_requests,
}
use homelab_operator.Controller.Watch.Events.Canonical.{
  seen_namespace, is_device_event, All-requests,
}
use homelab_operator.Tests.Data.{nas, lan, settings}
use homelab_operator.Tests.Server.{Cluster, api_server}
use homelab_operator.Tests.ServerLaws.{api_server-IsLawful, api_server-SetsCondition}

All-requests_example :
    All
      (λ r. r ≡ canonical_network_request api_server (seen_namespace (device nas)) [])
      (device_requests api_server settings (device nas) [] []).0
    × (is_nil (device_requests api_server settings (device nas) [] []).0
        ≡ not (settings.enable_device_based_hosts && is_device_event (device nas)))
    × All
        (λ r. r ≡ anchor_request settings ingress_anchor_name)
        (ingress_requests settings (device nas))
    × All
        (λ r. r ≡ anchor_request settings lb_anchor_name)
        (load_balancer_requests settings (device nas))
All-requests_example = All-requests api_server settings [] [] (device nas)

abbrev desired : DeviceBasedOutput
desired = build_device_based no_ipv6 (nas ∷ []) (lan ∷ []) settings

abbrev hosts : DnsHostsSpec
hosts = record {
  controller = [];
  hosts = record { ip = codes "10.0.0.9"; hostnames = codes "nas" ∷ [] } ∷ [];
}

abbrev leases : DhcpHostsSpec
leases = record { controller = codes "main"; hosts = [] }

abbrev dhcp : DhcpOptionsSpec
dhcp = desired.dhcp_options

parse-new_example :
    (parse_dns_hosts_spec api_server (other []) (new_dns_hosts (codes "a") (codes "b") hosts)
      ≡ ok hosts)
    × (parse_dhcp_hosts_spec api_server (other []) (new_dhcp_hosts (codes "a") (codes "b") leases)
        ≡ ok leases)
    × (parse_dhcp_options_spec api_server (other []) (new_dhcp_options (codes "a") (codes "b") dhcp)
        ≡ ok dhcp)
parse-new_example =
    parse-new api_server (other []) (codes "a") (codes "b") hosts leases dhcp
      api_server-IsLawful.nested_map_obj

-- An API server that refuses the DHCP options.
abbrev refusing : Client Cluster
refusing = record api_server {
  create_or_update = λ o f w.
      if same_kind o.gvk dhcp_options_gvk
      then (err (other []), w)
      else api_server.create_or_update o f w;
}

same_kind_refl : (g : Gvk) → same_kind g g ≡ true
same_kind_refl g = ground (arith, eq_refl g.kind, eq_refl g.group, eq_refl g.version)

refusing-RefusesOptions : RefusesOptions refusing
refusing-RefusesOptions = record {
  refused = λ o f w e. (other [], rw (e, same_kind_refl dhcp_options_gvk) refl);
}

-- A DHCP hosts object of a network that is no longer there.
abbrev stale : Cluster
stale =
    record {
      gvk = dhcp_hosts_gvk;
      namespace = codes "dnsmasq";
      name = codes "device-based-old";
      labels = managed device_based [];
      owners = [];
      spec = none;
    }
    ∷ []

refusing-SetsCondition : SetsCondition refusing
refusing-SetsCondition = record { sets = api_server-SetsCondition.sets }

abbrev IsThere : Cluster → Type 0
IsThere w =
    refusing.get w dhcp_hosts_gvk (codes "dnsmasq") (codes "device-based-old")
    ≡ refusing.get stale dhcp_hosts_gvk (codes "dnsmasq") (codes "device-based-old")

anchors :
    (cm : ConfigMap) (f : ConfigMap → ConfigMap)
    → Keeps IsThere (refusing.create_or_update_config_map cm f)
anchors cm f = record { at = λ w h. h }

marks : (d : Device) → IsMarked d → Keeps IsThere (refusing.update_device_status d)
marks d m = record { at = λ w h. h }

reconcile_namespace_refused_example :
    ((e : Error) × ((reconcile_namespace refusing settings
          (λ V m. m)
          no_ipv6
          (codes "homelab")
          stale).0
        ≡ err e))
    × IsThere (reconcile_namespace refusing settings (λ V m. m) no_ipv6 (codes "homelab") stale).1
reconcile_namespace_refused_example =
    reconcile_namespace_refused refusing settings (λ V m. m) no_ipv6 (codes "homelab") stale IsThere
      refusing-SetsCondition refusing-RefusesOptions refl anchors marks refl
