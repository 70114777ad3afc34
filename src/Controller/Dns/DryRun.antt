-- ===== src/Controller/Dns/DryRun.antt =====
-- A dry run of the two DNS reconcilers writes nothing.
use homelab_operator.Prelude.{Text, true, ◌≡◌, refl, Option, []}
use homelab_operator.Config.{Config}
use homelab_operator.Cluster.{Client, Object, ConfigMap}
use homelab_operator.Cluster.Exec.{
  Keeps, Keeps-pure, Keeps-reads, Keeps-if, Keeps-bind, keeps_rules,
}
use homelab_operator.Dnsmasq.Netip.{Addr}
use homelab_operator.Controller.Device.DryRun.{never}
use homelab_operator.Controller.Device.Keeps.{Keeps-ensure_anchor}
use homelab_operator.Controller.Status.Keeps.{Keeps-update_router_statuses}
use homelab_operator.Controller.Dns.{
  list_http_routes, plan_and_apply_dns, reconcile_ingress, reconcile_load_balancer,
}

module _ {W : Type 0} (c : Client W) (cfg : Config) (P : W → Type 0)
    (dry : cfg.dry_run ≡ true) where
  Keeps-list_http_routes : Keeps P (list_http_routes c)
  unfolding list_http_routes
  Keeps-list_http_routes = Keeps-bind _ _ (Keeps-reads _) λ items. Keeps-pure _

  Keeps-plan_and_apply_dns :
      (o : Object) (aggregate : Text) (anchor : ConfigMap)
      → Keeps P (plan_and_apply_dns c cfg o aggregate anchor)
  unfolding plan_and_apply_dns
  Keeps-plan_and_apply_dns o aggregate anchor = rw dry (search keeps_rules)

  Keeps-reconcile_ingress :
      (v6 : Text → Option Addr) (ns : Text) → Keeps P (reconcile_ingress c cfg v6 ns)
  unfolding reconcile_ingress
  Keeps-reconcile_ingress v6 ns =
      Keeps-bind _ _ (Keeps-ensure_anchor c cfg P (λ cm f. never c cfg P dry _) _ _ _) λ anchor.
        Keeps-bind _ _ (Keeps-reads _) λ routers. Keeps-bind _ _ (Keeps-reads _) λ ingresses.
          Keeps-bind _ _ (Keeps-if _ _ _ Keeps-list_http_routes (Keeps-pure _)) λ routes.
            Keeps-bind _ _ (Keeps-plan_and_apply_dns _ _ anchor) λ plan.
              Keeps-bind _ _
                (Keeps-update_router_statuses c cfg P (λ r. never c cfg P dry _) true [] _)
                λ _. Keeps-pure _

  Keeps-reconcile_load_balancer :
      (v6 : Text → Option Addr) (ns : Text) → Keeps P (reconcile_load_balancer c cfg v6 ns)
  unfolding reconcile_load_balancer
  Keeps-reconcile_load_balancer v6 ns =
      Keeps-bind _ _ (Keeps-ensure_anchor c cfg P (λ cm f. never c cfg P dry _) _ _ _) λ anchor.
        Keeps-bind _ _ (Keeps-reads _)
          λ services. Keeps-bind _ _ (Keeps-plan_and_apply_dns _ _ anchor) λ plan. Keeps-pure _

-- With `DryRun` set, a reconcile of ingresses and one of services leave the cluster as it was,
-- whether they succeed or fail, for every behaviour of the API server.
pub reconcile_dns_dry_run :
    {W : Type 0} (c : Client W) (cfg : Config) (v6 : Text → Option Addr) (ns : Text) (w : W)
    → cfg.dry_run ≡ true
    → ((reconcile_ingress c cfg v6 ns w).1 ≡ w) × ((reconcile_load_balancer c cfg v6 ns w).1 ≡ w)
reconcile_dns_dry_run c cfg v6 ns w dry = (
  (Keeps-reconcile_ingress c cfg (λ w'. w' ≡ w) dry v6 ns).at w refl,
  (Keeps-reconcile_load_balancer c cfg (λ w'. w' ≡ w) dry v6 ns).at w refl,
)
