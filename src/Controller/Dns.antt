-- ===== src/Controller/Dns.antt =====
-- internal/controller/ingressdns_controller.go and loadbalancerdns_controller.go: the reconcilers
-- that write one DNS hosts object each.
pub mod DryRun
pub mod Established
pub mod Succeeds
pub mod Steady
use homelab_operator.Prelude.{
  Text, Bool, true, false, Option, none, some, List, [], ◌∷◌, codes, if◌then◌else◌,
}
use homelab_operator.Prelude.Sort.{sort_func}
use homelab_operator.Config.{Config}
use homelab_operator.Labels.{managed}
use homelab_operator.Cluster.{Client, Object, ConfigMap, Result, ok, Json, obj}
use homelab_operator.Cluster.Exec.{Exec, pure, reads, ◌>>=◌, ◌>>◌}
use homelab_operator.Ensure.{ApplyPlan, plan_unstructured, apply_unstructured}
use homelab_operator.Ensure.Describe.{str_field}
use homelab_operator.Dnsmasq.Netip.{Addr}
use homelab_operator.Dnsmasq.Unstructured.{new_dns_hosts}
use homelab_operator.Desired.IngressBased.{
  HttpRouteLike, by_router_name, build_ingress_based, ingress_based_name,
}
use homelab_operator.Desired.LoadBalancerBased.{build_load_balancer_based, load_balancer_based_name}
use homelab_operator.Controller.Device.{ensure_anchor}
use homelab_operator.Controller.Status.{update_router_statuses}

abbrev pub ingress_anchor_name : Text
ingress_anchor_name = codes "homelab-operator-anchor-ingress-based"

abbrev pub lb_anchor_name : Text
lb_anchor_name = codes "homelab-operator-anchor-loadbalancer-based"

abbrev pub ingress_based : Text
ingress_based = codes "ingress-based"

abbrev pub load_balancer_based : Text
load_balancer_based = codes "load-balancer-based"

-- `p0["name"].(string)` of the first parent, which is nil where it is no map.
abbrev pub gateway_name : Json → Text
gateway_name (obj p0) = str_field (codes "name") p0
gateway_name _ = []

abbrev or_empty : Option (List Text) → List Text
or_empty none = []
or_empty (some l) = l

module _ {W : Type 0} (c : Client W) where
  -- What one item of the list gives; a route without parents is passed over.
  unfoldable pub route_of : Object → List HttpRouteLike
  route_of item = elim (c.nested_slice item (codes "parentRefs")) [
    | some (p0 ∷ parents) ↦
        record {
          gateway = gateway_name p0;
          hostnames = or_empty (c.nested_string_slice item (codes "hostnames"));
        }
        ∷ []
    | _ ↦ []
  ]

  unfoldable pub routes_of : List Object → List HttpRouteLike
  routes_of [] = []
  routes_of (item ∷ items) = elim (route_of item) [
    | [] ↦ routes_of items
    | hr ∷ _ ↦ hr ∷ routes_of items
  ]

  unfoldable pub list_http_routes : Exec W (List HttpRouteLike)
  list_http_routes = reads c.list_http_routes >>= λ items. pure (routes_of items)

module _ {W : Type 0} (c : Client W) (cfg : Config) where
  -- `PlanUnstructured`, and outside a dry run `ApplyUnstructured`: the same lines in both
  -- reconcilers.
  unfoldable pub plan_and_apply_dns : Object → Text → ConfigMap → Exec W ApplyPlan
  plan_and_apply_dns object aggregate anchor = do
    plan ← reads (plan_unstructured c object)
    if cfg.dry_run then pure tt else apply_unstructured c object false (managed aggregate []) anchor
    pure plan

module _ {W : Type 0} (c : Client W) (cfg : Config) (v6 : Text → Option Addr) where
  unfoldable pub reconcile_ingress : Text → Exec W (List ApplyPlan)
  reconcile_ingress target_ns = do
    anchor ← ensure_anchor c cfg target_ns ingress_anchor_name (managed ingress_based [])
    routers ← reads c.list_routers
    ingresses ← reads c.list_ingresses
    routes ← (if cfg.use_http_routes_for_ingress then list_http_routes c else pure [])
    plan ←
        plan_and_apply_dns c cfg
          (new_dns_hosts ingress_based_name target_ns
            (build_ingress_based v6 routers ingresses routes))
          ingress_based anchor
    update_router_statuses c cfg true [] (sort_func by_router_name routers)
    pure (plan ∷ [])

  unfoldable pub reconcile_load_balancer : Text → Exec W (List ApplyPlan)
  reconcile_load_balancer target_ns = do
    anchor ← ensure_anchor c cfg target_ns lb_anchor_name (managed load_balancer_based [])
    services ← reads c.list_services
    plan ←
        plan_and_apply_dns c cfg
          (new_dns_hosts load_balancer_based_name target_ns
            (build_load_balancer_based v6 services cfg.load_balancer_based_suffix))
          load_balancer_based anchor
    pure (plan ∷ [])
