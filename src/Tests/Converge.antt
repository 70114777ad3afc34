-- ===== src/Tests/Converge.antt =====
-- Examples for what a reconcile leaves in the cluster.
use homelab_operator.Prelude.{Text, true, none, ◌≡◌, refl, List, [], ◌∷◌, codes}
use homelab_operator.Prelude.Dict.{Dict}
use homelab_operator.Cluster.{Object, ok}
use homelab_operator.Ensure.{ApplyPlan, plan_with, unchanged, plan_unstructured}
use homelab_operator.Dnsmasq.Netip.{no_ipv6}
use homelab_operator.Dnsmasq.Unstructured.{new_dns_hosts, new_dhcp_options}
use homelab_operator.Desired.DeviceBased.{build_device_based, dhcp_options_name}
use homelab_operator.Desired.IngressBased.{build_ingress_based, ingress_based_name}
use homelab_operator.Desired.LoadBalancerBased.{build_load_balancer_based, load_balancer_based_name}
use homelab_operator.Controller.Dns.{routes_of, reconcile_ingress, reconcile_load_balancer}
use homelab_operator.Controller.Dns.Established.{
  reconcile_ingress_converges, reconcile_load_balancer_converges,
}
use homelab_operator.Controller.Dns.Steady.{of_services, reconcile_dns_steady}
use homelab_operator.Api.{Device}
use homelab_operator.Controller.Status.{device_status}
use homelab_operator.Controller.Status.Conditions.{IsStatus, device_status_lem}
use homelab_operator.Controller.Device.{reconcile_namespace}
use homelab_operator.Prelude.Lists.{All}
use homelab_operator.Controller.Device.Steady.{reconcile_namespace_steady}
use homelab_operator.Controller.Device.Succeeds.{Succeeds-reconcile_namespace}
use homelab_operator.Controller.Device.Established.{
  plan_unstructured-reconcile_namespace, reconcile_namespace_converges,
}
use homelab_operator.Controller.Device.Established.Loops.{VisitsAll}
use homelab_operator.Controller.Device.Established.Objects.{options}
use homelab_operator.Tests.Data.{nas, lan, web, traefik, wiki, settings}
use homelab_operator.Tests.Server.{Cluster, api_server}
use homelab_operator.Tests.ServerLaws.{
  api_server-IsLawful, api_server-IsUp, api_server-KeepsLists, api_server-ListSelects,
  api_server-SetsCondition,
}

abbrev in_order : (V : Type 0) → Dict V → Dict V
in_order V m = m

in_order-VisitsAll : VisitsAll in_order
in_order-VisitsAll = record { once = λ V m u. u; same = λ V m k. refl }

-- One object that the operator does not manage.
abbrev stale : Cluster
stale =
    record {
      gvk = record { group = codes "apps"; version = codes "v1"; kind = codes "Deployment" };
      namespace = codes "dnsmasq";
      name = codes "dnsmasq";
      labels = [];
      owners = [];
      spec = none;
    }
    ∷ []

abbrev wanted_options : Object
wanted_options =
    new_dhcp_options dhcp_options_name (codes "dnsmasq")
      (build_device_based no_ipv6 (nas ∷ []) (lan ∷ []) settings).dhcp_options

reconcile_namespace_converges_example :
    (plans : List ApplyPlan) × (((reconcile_namespace api_server settings in_order no_ipv6
          (codes "homelab")
          stale).0
        ≡ ok plans)
      × (plan_unstructured api_server wanted_options
            (reconcile_namespace api_server settings in_order no_ipv6 (codes "homelab") stale).1
          ≡ ok (plan_with api_server wanted_options unchanged)))
reconcile_namespace_converges_example =
    reconcile_namespace_converges api_server settings in_order no_ipv6 (codes "homelab") stale
      (nas ∷ []) (lan ∷ []) wanted_options api_server-IsUp api_server-IsLawful
      api_server-ListSelects in_order-VisitsAll refl refl refl options

succeeds :
    (plans : List ApplyPlan) × ((reconcile_namespace api_server settings in_order no_ipv6
        (codes "homelab")
        stale).0
      ≡ ok plans)
succeeds =
    (Succeeds-reconcile_namespace api_server settings api_server-IsUp in_order no_ipv6
        (codes "homelab")).at
      stale

plan_unstructured-reconcile_namespace_example :
    plan_unstructured api_server wanted_options
      (reconcile_namespace api_server settings in_order no_ipv6 (codes "homelab") stale).1
    ≡ ok (plan_with api_server wanted_options unchanged)
plan_unstructured-reconcile_namespace_example =
    plan_unstructured-reconcile_namespace api_server settings in_order no_ipv6 (codes "homelab")
      stale (nas ∷ []) (lan ∷ []) succeeds.0 wanted_options api_server-IsLawful
      api_server-ListSelects in_order-VisitsAll refl refl refl succeeds.1 options

abbrev wanted_services : Object
wanted_services =
    new_dns_hosts load_balancer_based_name (codes "dnsmasq")
      (build_load_balancer_based no_ipv6 (web ∷ []) settings.load_balancer_based_suffix)

reconcile_load_balancer_converges_example :
    (plans : List ApplyPlan) × (((reconcile_load_balancer api_server settings no_ipv6
          (codes "dnsmasq")
          stale).0
        ≡ ok plans)
      × (plan_unstructured api_server wanted_services
            (reconcile_load_balancer api_server settings no_ipv6 (codes "dnsmasq") stale).1
          ≡ ok (plan_with api_server wanted_services unchanged)))
reconcile_load_balancer_converges_example =
    reconcile_load_balancer_converges api_server settings no_ipv6 (codes "dnsmasq") stale (web ∷ [])
      api_server-IsUp api_server-IsLawful api_server-KeepsLists refl refl

abbrev wanted_routers : Object
wanted_routers =
    new_dns_hosts ingress_based_name (codes "dnsmasq")
      (build_ingress_based no_ipv6 (traefik ∷ []) (wiki ∷ []) (routes_of api_server []))

reconcile_ingress_converges_example :
    (plans : List ApplyPlan) × (((reconcile_ingress api_server settings no_ipv6
          (codes "dnsmasq")
          stale).0
        ≡ ok plans)
      × (plan_unstructured api_server wanted_routers
            (reconcile_ingress api_server settings no_ipv6 (codes "dnsmasq") stale).1
          ≡ ok (plan_with api_server wanted_routers unchanged)))
reconcile_ingress_converges_example =
    reconcile_ingress_converges api_server settings no_ipv6 (codes "dnsmasq") stale (traefik ∷ [])
      (wiki ∷ []) [] api_server-IsUp api_server-IsLawful api_server-KeepsLists refl refl refl refl

abbrev target : Text
target = codes "dnsmasq"

-- The cluster after a reconcile of ingresses, then one of services, and then one of ingresses.
abbrev after_ingress : Cluster
after_ingress = (reconcile_ingress api_server settings no_ipv6 target stale).1

abbrev after_services : Cluster
after_services = (reconcile_load_balancer api_server settings no_ipv6 target after_ingress).1

abbrev after_both : Cluster
after_both = (reconcile_ingress api_server settings no_ipv6 target after_services).1

reconcile_dns_steady_example :
    ((reconcile_ingress api_server settings no_ipv6 target after_services).0
      ≡ ok (plan_with api_server wanted_routers unchanged ∷ []))
    × ((reconcile_load_balancer api_server settings no_ipv6 target after_both).0
        ≡ ok (plan_with api_server (of_services settings no_ipv6 target (web ∷ [])) unchanged ∷ []))
reconcile_dns_steady_example =
    reconcile_dns_steady api_server settings no_ipv6 target stale after_ingress after_services
      after_both (traefik ∷ []) (traefik ∷ []) (wiki ∷ []) (wiki ∷ []) [] [] (web ∷ []) (web ∷ [])
      api_server-IsUp api_server-IsLawful api_server-KeepsLists refl
      (record { as_routers = refl; as_ingresses = refl; as_items = refl }) refl refl refl
      (record { as_routers = refl; as_ingresses = refl; as_items = refl }) refl refl refl refl

abbrev status_after : Device
status_after = device_status api_server settings (lan ∷ []) true [] nas stale

device_status_lem_example : IsStatus (lan ∷ []) true nas (api_server.now stale) status_after.status
device_status_lem_example =
    device_status_lem api_server settings api_server-SetsCondition (lan ∷ []) true [] nas stale

-- The cluster after one reconcile.
abbrev settled : Cluster
settled = (reconcile_namespace api_server settings in_order no_ipv6 (codes "homelab") stale).1

reconcile_namespace_steady_example :
    (plans : List ApplyPlan) × (((reconcile_namespace api_server settings in_order no_ipv6
          (codes "homelab")
          settled).0
        ≡ ok plans)
      × All (λ (p : ApplyPlan). p.action ≡ unchanged) plans)
reconcile_namespace_steady_example =
    reconcile_namespace_steady api_server settings in_order no_ipv6 (codes "homelab") stale settled
      (nas ∷ []) (nas ∷ []) (lan ∷ []) (lan ∷ []) api_server-IsUp api_server-IsLawful
      api_server-ListSelects in_order-VisitsAll refl refl refl refl refl refl refl
