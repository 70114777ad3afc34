-- ===== src/Controller/Dns/Established.antt =====
-- What a successful reconcile of ingresses, or of services, leaves in the cluster.
use homelab_operator.Prelude.{
  Text, Bool, true, false, Option, ◌≡◌, refl, ap, ◌∙◌, List, [], ◌==◌, if◌then◌else◌,
}
use homelab_operator.Api.{IngressRouter, Ingress, Service}
use homelab_operator.Config.{Config}
use homelab_operator.Labels.{managed}
use homelab_operator.Cluster.{Client, Object, ConfigMap, ok}
use homelab_operator.Cluster.Exec.{
  pure, ◌>>=◌, Keeps, Keeps-pure, Keeps-bind, Leads, Leads-keeps, Leads-bind, Leads-known,
}
use homelab_operator.Cluster.Laws.{HasSpec, IsLawful, IsUp, KeepsLists, is_external}
use homelab_operator.Ensure.{ApplyPlan, plan_with, unchanged, plan_unstructured}
use homelab_operator.Ensure.Stored.{Stored, Keeps-Stored, plan_unstructured-Stored}
use homelab_operator.Dnsmasq.Netip.{Addr}
use homelab_operator.Dnsmasq.Unstructured.{new_object, new_dns_hosts}
use homelab_operator.Desired.IngressBased.{HttpRouteLike, build_ingress_based, ingress_based_name}
use homelab_operator.Desired.LoadBalancerBased.{build_load_balancer_based, load_balancer_based_name}
use homelab_operator.Controller.Status.Keeps.{Keeps-update_router_statuses}
use homelab_operator.Controller.Status.{update_router_statuses}
use homelab_operator.Controller.Device.{plan_and_apply}
use homelab_operator.Controller.Device.Keeps.{Keeps-ensure_anchor}
use homelab_operator.Controller.Device.Established.Steps.{stores}
use homelab_operator.Controller.Dns.Succeeds.{
  Succeeds-reconcile_ingress, Succeeds-reconcile_load_balancer,
}
use homelab_operator.Controller.Dns.{
  routes_of, list_http_routes, plan_and_apply_dns, reconcile_ingress, reconcile_load_balancer,
}

module _ {W : Type 0} (c : Client W) (law : IsLawful c) (cfg : Config) where
  pub Keeps-statuses :
      (o : Object)
      → is_external o.gvk ≡ true
      → (rs : List IngressRouter) → Keeps (Stored c o) (update_router_statuses c cfg true [] rs)
  Keeps-statuses o ext rs =
      Keeps-update_router_statuses c cfg (Stored c o)
        (λ r _. Keeps-Stored c law o _ λ w. law.get-router_status r w _ _ _ ext) true [] rs

-- The lists, before the run, that the ingress reconciler reads.
module _ {W : Type 0} (c : Client W) (cfg : Config) (routers : List IngressRouter)
    (ingresses : List Ingress) (items : List Object) where
  abbrev pub routes : List HttpRouteLike
  routes = if cfg.use_http_routes_for_ingress then routes_of c items else []

  pub record Listed (w : W) : Type 0 where
    pub as_routers : c.list_routers w ≡ ok routers
    pub as_ingresses : c.list_ingresses w ≡ ok ingresses
    pub as_items : c.list_http_routes w ≡ ok items

  pub read_routes :
      (w : W) (b : Bool)
      → Listed w
      → (if b then list_http_routes c else pure []) w
        ≡ (ok (if b then routes_of c items else []), w)
  unfolding list_http_routes ◌>>=◌
  read_routes w true h = rw h.as_items refl
  read_routes w false h = refl

  -- A write of a ConfigMap leaves them as they are.
  pub Keeps-Listed :
      KeepsLists c
      → (cm : ConfigMap) (f : ConfigMap → ConfigMap)
      → Keeps Listed (c.create_or_update_config_map cm f)
  Keeps-Listed lists cm f = record {
    at = λ w h. record {
      as_routers = lists.routers cm f w ∙ h.as_routers;
      as_ingresses = lists.ingresses cm f w ∙ h.as_ingresses;
      as_items = lists.http_routes cm f w ∙ h.as_items;
    };
  }

module _ {W : Type 0} (c : Client W) (law : IsLawful c) (lists : KeepsLists c) (cfg : Config)
    (wet : cfg.dry_run ≡ false) where
  -- The object is stored whatever held before.
  stores_dns :
      {P : W → Type 0} (o : Object)
      → HasSpec o
      → (aggregate : Text) (anchor : ConfigMap)
      → Leads P (plan_and_apply_dns c cfg o aggregate anchor) (Stored c o)
  unfolding plan_and_apply_dns plan_and_apply
  stores_dns o spec aggregate anchor = stores c law cfg o spec wet (managed aggregate []) anchor

  pub Leads-reconcile_load_balancer :
      (v6 : Text → Option Addr) (ns : Text) (services : List Service)
      → Leads
          (λ w. c.list_services w ≡ ok services)
          (reconcile_load_balancer c cfg v6 ns)
          (Stored c (
            new_dns_hosts load_balancer_based_name ns
              (build_load_balancer_based v6 services cfg.load_balancer_based_suffix)))
  unfolding reconcile_load_balancer new_dns_hosts new_object
  Leads-reconcile_load_balancer v6 ns services =
      Leads-bind
        (Leads-keeps (
          Keeps-ensure_anchor c cfg (λ w. c.list_services w ≡ ok services)
            (λ cm f _. record { at = λ w h. lists.services cm f w ∙ h }) _ _ _))
        λ anchor.
          Leads-known _ _ services (λ w h. ap (λ r. (r, w)) h)
            (Leads-bind (stores_dns _ (_, refl) _ anchor) λ plan. Leads-keeps (Keeps-pure _))

  module _ (routers : List IngressRouter) (ingresses : List Ingress) (items : List Object) where
    abbrev Now : W → Type 0
    Now = Listed c cfg routers ingresses items

    pub Leads-reconcile_ingress :
        (v6 : Text → Option Addr) (ns : Text)
        → Leads Now (reconcile_ingress c cfg v6 ns) (
            Stored c (
              new_dns_hosts ingress_based_name ns
                (build_ingress_based v6 routers ingresses (routes c cfg routers ingresses items))))
    unfolding reconcile_ingress new_dns_hosts new_object ◌==◌
    Leads-reconcile_ingress v6 ns =
        Leads-bind
          (Leads-keeps (
            Keeps-ensure_anchor c cfg Now
              (λ cm f _. Keeps-Listed c cfg routers ingresses items lists cm f) _ _ _))
          λ anchor.
            Leads-known _ _ routers (λ w h. ap (λ r. (r, w)) h.as_routers)
              (Leads-known _ _ ingresses (λ w h. ap (λ r. (r, w)) h.as_ingresses)
                (Leads-known _ _ (routes c cfg routers ingresses items)
                  (λ w h.
                    read_routes c cfg routers ingresses items w cfg.use_http_routes_for_ingress h)
                  (Leads-bind (stores_dns _ (_, refl) _ anchor) λ plan.
                    Leads-keeps
                      (Keeps-bind _ _ (Keeps-statuses c law cfg _ refl _) λ _. Keeps-pure _))))

-- Where the API server answers every call, a reconcile of services outside a dry run succeeds, and
-- the object of the load balancers is in the cluster then: a plan for it leaves it unchanged. The
-- services are those listed before the run; the API server obeys the laws of `IsLawful`, and a write
-- of a ConfigMap does not change the list of the services.
pub reconcile_load_balancer_converges :
    {W : Type 0} (c : Client W) (cfg : Config) (v6 : Text → Option Addr) (namespace : Text) (w : W)
    → (services : List Service) → IsUp c
    → IsLawful c
    → KeepsLists c
    → cfg.dry_run ≡ false
    → c.list_services w ≡ ok services
    → let o =
        new_dns_hosts load_balancer_based_name namespace
          (build_load_balancer_based v6 services cfg.load_balancer_based_suffix) in
      (plans : List ApplyPlan) × (((reconcile_load_balancer c cfg v6 namespace w).0 ≡ ok plans)
        × (plan_unstructured c o (reconcile_load_balancer c cfg v6 namespace w).1
            ≡ ok (plan_with c o unchanged)))
unfolding new_dns_hosts new_object
reconcile_load_balancer_converges c cfg v6 namespace w services up law lists wet listed =
    let (plans, done) = (Succeeds-reconcile_load_balancer c cfg up v6 namespace).at w in
    let leads = Leads-reconcile_load_balancer c law lists cfg wet v6 namespace services in
    (plans, (done, plan_unstructured-Stored c law _ (_, refl) _ (leads.at w plans listed done)))

-- Where the API server answers every call, a reconcile of ingresses outside a dry run succeeds, and
-- the object of the routers is in the cluster then: a plan for it leaves it unchanged, after the
-- statuses of the routers are written as well. The routers, the ingresses and the HTTPRoutes are
-- those listed before the run; the API server obeys the laws of `IsLawful`, and a write of a
-- ConfigMap does not change these lists.
pub reconcile_ingress_converges :
    {W : Type 0} (c : Client W) (cfg : Config) (v6 : Text → Option Addr) (namespace : Text) (w : W)
    → (routers : List IngressRouter) (ingresses : List Ingress) (items : List Object) → IsUp c
    → IsLawful c
    → KeepsLists c
    → cfg.dry_run ≡ false
    → c.list_routers w ≡ ok routers
    → c.list_ingresses w ≡ ok ingresses
    → c.list_http_routes w ≡ ok items
    → let o = new_dns_hosts ingress_based_name namespace (
        build_ingress_based v6 routers ingresses
          (if cfg.use_http_routes_for_ingress then routes_of c items else [])) in
      (plans : List ApplyPlan) × (((reconcile_ingress c cfg v6 namespace w).0 ≡ ok plans)
        × (plan_unstructured c o (reconcile_ingress c cfg v6 namespace w).1
            ≡ ok (plan_with c o unchanged)))
unfolding new_dns_hosts new_object
reconcile_ingress_converges c cfg v6 namespace w routers ingresses items up law lists wet r i h =
    let (plans, done) = (Succeeds-reconcile_ingress c cfg up v6 namespace).at w in
    let leads = Leads-reconcile_ingress c law lists cfg wet routers ingresses items v6 namespace in
    (
      plans,
      (
        done,
        plan_unstructured-Stored c law _ (_, refl) _
            (leads.at w plans (record { as_routers = r; as_ingresses = i; as_items = h }) done),
      ),
    )
