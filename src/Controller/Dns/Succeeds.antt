-- ===== src/Controller/Dns/Succeeds.antt =====
-- The two DNS reconcilers succeed where the API server answers their calls.
use homelab_operator.Prelude.{Text, Option, []}
use homelab_operator.Config.{Config}
use homelab_operator.Labels.{managed}
use homelab_operator.Cluster.{Client, Object, ConfigMap}
use homelab_operator.Cluster.Exec.{Succeeds, Succeeds-pure, Succeeds-if, Succeeds-bind}
use homelab_operator.Cluster.Laws.{IsUp}
use homelab_operator.Dnsmasq.Netip.{Addr}
use homelab_operator.Controller.Status.Succeeds.{Succeeds-update_router_statuses}
use homelab_operator.Controller.Device.{plan_and_apply}
use homelab_operator.Controller.Device.Succeeds.{
  Succeeds-reads, Succeeds-ensure_anchor, Succeeds-plan_and_apply,
}
use homelab_operator.Controller.Dns.{
  list_http_routes, plan_and_apply_dns, reconcile_ingress, reconcile_load_balancer,
}

module _ {W : Type 0} (c : Client W) (cfg : Config) (up : IsUp c) where
  Succeeds-plan_and_apply_dns :
      (o : Object) (aggregate : Text) (anchor : ConfigMap)
      → Succeeds (plan_and_apply_dns c cfg o aggregate anchor)
  unfolding plan_and_apply_dns plan_and_apply
  Succeeds-plan_and_apply_dns o aggregate anchor =
      Succeeds-plan_and_apply c cfg up o (managed aggregate []) anchor

  Succeeds-list_http_routes : Succeeds (list_http_routes c)
  unfolding list_http_routes
  Succeeds-list_http_routes =
      Succeeds-bind _ _ (Succeeds-reads _ up.lists_http_routes) λ items. Succeeds-pure _

  pub Succeeds-reconcile_ingress :
      (v6 : Text → Option Addr) (ns : Text) → Succeeds (reconcile_ingress c cfg v6 ns)
  unfolding reconcile_ingress
  Succeeds-reconcile_ingress v6 ns =
      Succeeds-bind _ _ (Succeeds-ensure_anchor c cfg up _ _ _) λ anchor.
        Succeeds-bind _ _ (Succeeds-reads _ up.lists_routers) λ routers.
          Succeeds-bind _ _ (Succeeds-reads _ up.lists_ingresses) λ ingresses.
            Succeeds-bind _ _ (Succeeds-if _ _ _ Succeeds-list_http_routes (Succeeds-pure _))
              λ routes. Succeeds-bind _ _ (Succeeds-plan_and_apply_dns _ _ anchor) λ plan.
                Succeeds-bind _ _ (Succeeds-update_router_statuses c cfg _ _ _) λ _. Succeeds-pure _

  pub Succeeds-reconcile_load_balancer :
      (v6 : Text → Option Addr) (ns : Text) → Succeeds (reconcile_load_balancer c cfg v6 ns)
  unfolding reconcile_load_balancer
  Succeeds-reconcile_load_balancer v6 ns =
      Succeeds-bind _ _ (Succeeds-ensure_anchor c cfg up _ _ _) λ anchor.
        Succeeds-bind _ _ (Succeeds-reads _ up.lists_services) λ services.
          Succeeds-bind _ _ (Succeeds-plan_and_apply_dns _ _ anchor) λ plan. Succeeds-pure _
