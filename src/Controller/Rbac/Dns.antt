-- ===== src/Controller/Rbac/Dns.antt =====
-- The markers of the two DNS controllers grant all that these call.
use homelab_operator.Prelude.{Text, Bool, ◌≡◌, refl, ap, Option, List, [], ◌∷◌, ◌==◌, if◌then◌else◌}
use homelab_operator.Api.{IngressRouter}
use homelab_operator.Config.{Config}
use homelab_operator.Labels.{managed}
use homelab_operator.Cluster.{Gvk, Object, ConfigMap, Error, Client}
use homelab_operator.Cluster.Exec.{pure}
use homelab_operator.Ensure.{apply}
use homelab_operator.Dnsmasq.{DnsHostsSpec}
use homelab_operator.Dnsmasq.Netip.{Addr}
use homelab_operator.Dnsmasq.Unstructured.{dns_hosts_gvk, new_object, new_dns_hosts}
use homelab_operator.Controller.Status.{ready_condition, update_router, update_router_statuses}
use homelab_operator.Controller.Device.{ensure_anchor, plan_and_apply}
use homelab_operator.Controller.Dns.{
  route_of, routes_of, list_http_routes, plan_and_apply_dns, reconcile_ingress,
  reconcile_load_balancer,
}
use homelab_operator.Controller.Rbac.{
  Rule, ingress_rules, load_balancer_rules, guarded, IsGranted, MapsKinds,
}
use homelab_operator.Controller.Rbac.Calls.{bind_cong, IsGranted_of, plan_and_apply-guarded}

module _ {W : Type 0} (c : Client W) (resource_of : Gvk → Text) (forbidden : Error)
    (maps : MapsKinds resource_of) (cfg : Config) where
  plan_and_apply_dns-guarded :
      (rules : List Rule)
      → IsGranted c resource_of rules forbidden dns_hosts_gvk
      → (name namespace : Text) (spec : DnsHostsSpec) (aggregate : Text) (anchor : ConfigMap)
      → plan_and_apply_dns
          (guarded c resource_of rules forbidden)
          cfg
          (new_dns_hosts name namespace spec)
          aggregate
          anchor
        ≡ plan_and_apply_dns c cfg (new_dns_hosts name namespace spec) aggregate anchor
  unfolding plan_and_apply_dns plan_and_apply new_dns_hosts new_object
  plan_and_apply_dns-guarded rules h name namespace spec aggregate anchor =
      plan_and_apply-guarded c resource_of rules forbidden cfg (new_dns_hosts name namespace spec)
        (managed aggregate []) anchor h

  abbrev of_ingress : Client W
  of_ingress = guarded c resource_of ingress_rules forbidden

  update_router_statuses-guarded :
      (ok_ : Bool) (msg : Text) (rs : List IngressRouter)
      → update_router_statuses of_ingress cfg ok_ msg rs ≡ update_router_statuses c cfg ok_ msg rs
  unfolding update_router_statuses update_router ready_condition ingress_rules ◌==◌
  update_router_statuses-guarded ok_ msg [] = refl
  update_router_statuses-guarded ok_ msg (r ∷ rs) =
      bind_cong refl λ _. update_router_statuses-guarded ok_ msg rs

  routes_of-guarded : (items : List Object) → routes_of of_ingress items ≡ routes_of c items
  unfolding routes_of route_of
  routes_of-guarded [] = refl
  routes_of-guarded (item ∷ items) =
      ap (λ rest. elim (route_of c item) [ [] ↦ rest | hr ∷ _ ↦ hr ∷ rest ])
        (routes_of-guarded items)

  reconcile_ingress-guarded :
      (v6 : Text → Option Addr) (namespace : Text)
      → reconcile_ingress of_ingress cfg v6 namespace ≡ reconcile_ingress c cfg v6 namespace
  unfolding reconcile_ingress list_http_routes ensure_anchor apply ingress_rules ◌==◌
  reconcile_ingress-guarded v6 namespace = bind_cong refl λ anchor. bind_cong refl λ routers.
      bind_cong refl λ ingresses.
        bind_cong
          (ap (λ m. if cfg.use_http_routes_for_ingress then m else pure [])
            (bind_cong refl λ items. ap pure (routes_of-guarded items)))
          λ routes.
            bind_cong
              (plan_and_apply_dns-guarded ingress_rules
                (IsGranted_of c resource_of ingress_rules forbidden _ _ maps.dns_hosts
                  (refl, (refl, (refl, (refl, (refl, (refl, (refl, tt))))))))
                _ _ _ _ anchor)
              λ plan. bind_cong (update_router_statuses-guarded _ _ _) λ _. refl

  reconcile_load_balancer-guarded :
      (v6 : Text → Option Addr) (namespace : Text)
      → reconcile_load_balancer
          (guarded c resource_of load_balancer_rules forbidden)
          cfg
          v6
          namespace
        ≡ reconcile_load_balancer c cfg v6 namespace
  unfolding reconcile_load_balancer ensure_anchor apply load_balancer_rules ◌==◌
  reconcile_load_balancer-guarded v6 namespace = bind_cong refl λ anchor. bind_cong refl λ services.
      bind_cong
        (plan_and_apply_dns-guarded load_balancer_rules
          (IsGranted_of c resource_of load_balancer_rules forbidden _ _ maps.dns_hosts
            (refl, (refl, (refl, (refl, (refl, (refl, (refl, tt))))))))
          _ _ _ _ anchor)
        λ plan. refl

-- An API server that enforces the markers of IngressDNSReconciler refuses nothing that a reconcile of
-- ingresses asks for, and one that enforces those of LoadBalancerDNSReconciler nothing that a
-- reconcile of services asks for: the runs are the same as without the rules, in their results and
-- in what they write. The kind DnsHosts is mapped to the resource of its definition.
pub reconcile_dns-guarded :
    {W : Type 0} (c : Client W) (resource_of : Gvk → Text) (forbidden : Error) (cfg : Config)
    → (v6 : Text → Option Addr) (namespace : Text) (w : W) → MapsKinds resource_of
    → (reconcile_ingress (guarded c resource_of ingress_rules forbidden) cfg v6 namespace w
        ≡ reconcile_ingress c cfg v6 namespace w)
      × (reconcile_load_balancer
            (guarded c resource_of load_balancer_rules forbidden)
            cfg
            v6
            namespace
            w
          ≡ reconcile_load_balancer c cfg v6 namespace w)
reconcile_dns-guarded c resource_of forbidden cfg v6 namespace w maps = (
  ap (λ m. m w) (reconcile_ingress-guarded c resource_of forbidden maps cfg v6 namespace),
  ap (λ m. m w) (reconcile_load_balancer-guarded c resource_of forbidden maps cfg v6 namespace),
)
