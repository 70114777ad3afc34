-- ===== src/Controller/Dns/Steady.antt =====
-- The reconcilers of ingresses and of services one after the other, and once more.
mod Values
use homelab_operator.Prelude.{
  Text, true, false, Option, ◌≡◌, refl, sym, subst, ap, ◌∙◌, List, [], ◌∷◌, ◌==◌, if◌then◌else◌,
}
use homelab_operator.Api.{IngressRouter, Ingress, Service}
use homelab_operator.Config.{Config}
use homelab_operator.Labels.{managed}
use homelab_operator.Cluster.{Client, Object, ConfigMap, Result, ok, err}
use homelab_operator.Cluster.Exec.{
  Exec, pure, ◌>>=◌, Keeps, Keeps-pure, Keeps-reads, Keeps-if, Keeps-bind, Leads, Leads-keeps,
}
use homelab_operator.Cluster.Laws.{HasSpec, IsLawful, IsUp, KeepsLists, is_external}
use homelab_operator.Ensure.{plan_with, unchanged, apply_unstructured}
use homelab_operator.Ensure.Stored.{Stored, Keeps-Stored, plan_unstructured-Stored}
use homelab_operator.Dnsmasq.Netip.{Addr}
use homelab_operator.Dnsmasq.Unstructured.{new_object, new_dns_hosts}
use homelab_operator.Desired.IngressBased.{build_ingress_based, ingress_based_name}
use homelab_operator.Desired.LoadBalancerBased.{build_load_balancer_based, load_balancer_based_name}
use homelab_operator.Controller.Device.{plan_and_apply}
use homelab_operator.Controller.Device.Keeps.{Keeps-ensure_anchor}
use homelab_operator.Controller.Device.Established.Steps.{Anywhere, Leads-Anywhere, named_apart}
use homelab_operator.Controller.Device.Steady.Steps.{value-then}
use homelab_operator.Controller.Dns.Established.{
  Listed, Keeps-Listed, Keeps-statuses, read_routes, Leads-reconcile_ingress,
  Leads-reconcile_load_balancer,
}
use homelab_operator.Controller.Dns.Steady.Values.{
  Gives, Gives-pure, Gives-weaken, Gives-bind, Gives-value, Gives-known,
}
use homelab_operator.Controller.Dns.Succeeds.{
  Succeeds-reconcile_ingress, Succeeds-reconcile_load_balancer,
}
use homelab_operator.Controller.Dns.{
  routes_of, list_http_routes, plan_and_apply_dns, reconcile_ingress, reconcile_load_balancer,
}

module _ {W : Type 0} (c : Client W) (law : IsLawful c) (cfg : Config) where
  Gives-plan_and_apply_dns :
      (o : Object)
      → HasSpec o
      → (aggregate : Text) (anchor : ConfigMap)
      → Gives
          (Stored c o)
          (plan_and_apply_dns c cfg o aggregate anchor)
          (λ p. p ≡ plan_with c o unchanged)
  unfolding plan_and_apply_dns plan_and_apply ◌>>=◌
  Gives-plan_and_apply_dns o spec aggregate anchor = record {
    at = λ w p s e.
        value-then
          (if cfg.dry_run
            then pure tt
            else apply_unstructured c o false (managed aggregate []) anchor)
          (plan_with c o unchanged) p w (rw (plan_unstructured-Stored c law o spec w s) at e);
  }

  Keeps-config_map :
      (o : Object)
      → is_external o.gvk ≡ true
      → (cm : ConfigMap) (f : ConfigMap → ConfigMap)
      → Keeps (Stored c o) (c.create_or_update_config_map cm f)
  Keeps-config_map o ext cm f = Keeps-Stored c law o _ λ w. law.get-config_map cm f w _ _ _ ext

  module _ (o : Object) (ext : is_external o.gvk ≡ true) (v6 : Text → Option Addr) (ns : Text) where
    -- An object of another name than that of the services.
    Keeps-reconcile_load_balancer :
        (load_balancer_based_name == o.name) ≡ false
        → Keeps (Stored c o) (reconcile_load_balancer c cfg v6 ns)
    unfolding reconcile_load_balancer plan_and_apply_dns plan_and_apply new_dns_hosts new_object
    Keeps-reconcile_load_balancer d =
        Keeps-bind _ _
          (Keeps-ensure_anchor c cfg (Stored c o) (λ cm f _. Keeps-config_map o ext cm f) _ _ _)
          λ anchor. Keeps-bind _ _ (Keeps-reads _) λ services.
            Keeps-bind _ _ (named_apart c law cfg o _ (managed _ []) anchor d) λ plan. Keeps-pure _

    -- An object of another name than that of the routers.
    Keeps-reconcile_ingress :
        (ingress_based_name == o.name) ≡ false → Keeps (Stored c o) (reconcile_ingress c cfg v6 ns)
    unfolding reconcile_ingress list_http_routes plan_and_apply_dns plan_and_apply new_dns_hosts
        new_object
    Keeps-reconcile_ingress d =
        Keeps-bind _ _
          (Keeps-ensure_anchor c cfg (Stored c o) (λ cm f _. Keeps-config_map o ext cm f) _ _ _)
          λ anchor. Keeps-bind _ _ (Keeps-reads _) λ routers.
            Keeps-bind _ _ (Keeps-reads _) λ ingresses.
              Keeps-bind _ _
                (Keeps-if _ _ _ (Keeps-bind _ _ (Keeps-reads _) λ items. Keeps-pure _)
                  (Keeps-pure _))
                λ routes.
                  Keeps-bind _ _ (named_apart c law cfg o _ (managed _ []) anchor d)
                    λ plan. Keeps-bind _ _ (Keeps-statuses c law cfg o ext _) λ _. Keeps-pure _

-- The object of the services, and that of the routers.
abbrev pub of_services : Config → (Text → Option Addr) → Text → List Service → Object
of_services cfg v6 ns services =
    new_dns_hosts load_balancer_based_name ns
      (build_load_balancer_based v6 services cfg.load_balancer_based_suffix)

abbrev pub of_routers :
    {W : Type 0}
    → Client W
    → Config
    → (Text → Option Addr)
    → Text
    → List IngressRouter
    → List Ingress
    → List Object
    → Object
of_routers c cfg v6 ns routers ingresses items = new_dns_hosts ingress_based_name ns (
    build_ingress_based v6 routers ingresses
      (if cfg.use_http_routes_for_ingress then routes_of c items else []))

module _ {W : Type 0} (c : Client W) (law : IsLawful c) (lists : KeepsLists c) (cfg : Config)
    (v6 : Text → Option Addr) (ns : Text) where
  record WithServices (services : List Service) (w : W) : Type 0 where
    pub stored : Stored c (of_services cfg v6 ns services) w
    pub listed : c.list_services w ≡ ok services

  -- The plan of a run of services whose object is in the cluster.
  Gives-reconcile_load_balancer :
      (services : List Service)
      → Gives
          (WithServices services)
          (reconcile_load_balancer c cfg v6 ns)
          (λ plans. plans ≡ plan_with c (of_services cfg v6 ns services) unchanged ∷ [])
  unfolding reconcile_load_balancer new_dns_hosts new_object ◌==◌
  Gives-reconcile_load_balancer services =
      Gives-bind
        (Leads-keeps (
          Keeps-ensure_anchor c cfg (WithServices services)
            (λ cm f _. record {
              at = λ w h. record {
                stored = (Keeps-config_map c law cfg _ refl cm f).at w h.stored;
                listed = lists.services cm f w ∙ h.listed;
              };
            })
            _ _ _))
        λ anchor.
          Gives-known _ _ services (λ w h. ap (λ r. (r, w)) h.listed)
            (Gives-value
              (Gives-weaken (λ w h. h.stored)
                (Gives-plan_and_apply_dns c law cfg _ (_, refl) _ anchor))
              λ plan e. Gives-pure _ (ap (λ p. p ∷ []) e))

  module _ (routers : List IngressRouter) (ingresses : List Ingress) (items : List Object) where
    record WithRouters (w : W) : Type 0 where
      pub stored : Stored c (of_routers c cfg v6 ns routers ingresses items) w
      pub listed : Listed c cfg routers ingresses items w

    -- The plan of a run of ingresses whose object is in the cluster.
    Gives-reconcile_ingress : Gives WithRouters (reconcile_ingress c cfg v6 ns) (λ plans.
        plans ≡ plan_with c (of_routers c cfg v6 ns routers ingresses items) unchanged ∷ [])
    unfolding reconcile_ingress new_dns_hosts new_object ◌==◌
    Gives-reconcile_ingress =
        Gives-bind
          (Leads-keeps (
            Keeps-ensure_anchor c cfg WithRouters
              (λ cm f _. record {
                at = λ w h. record {
                  stored = (Keeps-config_map c law cfg _ refl cm f).at w h.stored;
                  listed = (Keeps-Listed c cfg routers ingresses items lists cm f).at w h.listed;
                };
              })
              _ _ _))
          λ anchor.
            Gives-known _ _ routers (λ w h. ap (λ r. (r, w)) h.listed.as_routers)
              (Gives-known _ _ ingresses (λ w h. ap (λ r. (r, w)) h.listed.as_ingresses)
                (Gives-known _ _ _
                  (λ w h.
                    read_routes c cfg routers ingresses items w cfg.use_http_routes_for_ingress
                      h.listed)
                  (Gives-value
                    (Gives-weaken (λ w h. h.stored)
                      (Gives-plan_and_apply_dns c law cfg _ (_, refl) _ anchor))
                    λ plan e.
                      Gives-bind (Leads-Anywhere _) λ _. Gives-pure _ (ap (λ p. p ∷ []) e))))

-- A reconcile of ingresses, one of services, and then one of each again, with nothing else at work,
-- outside a dry run and where the API server answers every call: the third and the fourth succeed
-- and plan to leave their object unchanged, so neither controller undoes what the other wrote. What
-- is listed for the third and the fourth is supposed to ask for the same objects as for the first and
-- the second; the API server obeys the laws of `IsLawful`, and a write of a ConfigMap does not change
-- the lists.
pub reconcile_dns_steady :
    {W : Type 0} (c : Client W) (cfg : Config) (v6 : Text → Option Addr) (ns : Text)
    → (w w1 w2 w3 : W) (routers routers' : List IngressRouter) (ingresses ingresses' : List Ingress)
    → (items items' : List Object) (services services' : List Service) → IsUp c
    → IsLawful c
    → KeepsLists c
    → cfg.dry_run ≡ false
    → Listed c cfg routers ingresses items w
    → (reconcile_ingress c cfg v6 ns w).1 ≡ w1
    → c.list_services w1 ≡ ok services
    → (reconcile_load_balancer c cfg v6 ns w1).1 ≡ w2
    → Listed c cfg routers' ingresses' items' w2
    → (reconcile_ingress c cfg v6 ns w2).1 ≡ w3
    → c.list_services w3 ≡ ok services'
    → of_routers c cfg v6 ns routers' ingresses' items'
      ≡ of_routers c cfg v6 ns routers ingresses items
    → of_services cfg v6 ns services' ≡ of_services cfg v6 ns services
    → ((reconcile_ingress c cfg v6 ns w2).0
        ≡ ok (plan_with c (of_routers c cfg v6 ns routers ingresses items) unchanged ∷ []))
      × ((reconcile_load_balancer c cfg v6 ns w3).0
          ≡ ok (plan_with c (of_services cfg v6 ns services) unchanged ∷ []))
unfolding new_dns_hosts new_object ◌==◌
reconcile_dns_steady c cfg v6 ns w w1 w2 w3 routers routers' ingresses ingresses' items items'
      services services' up law lists wet l e1 s e2 l' e3 s' same_i same_s =
    let (p, done) = (Succeeds-reconcile_ingress c cfg up v6 ns).at w in
    let (q, done1) = (Succeeds-reconcile_load_balancer c cfg up v6 ns).at w1 in
    let (p', done2) = (Succeeds-reconcile_ingress c cfg up v6 ns).at w2 in
    let (q', done3) = (Succeeds-reconcile_load_balancer c cfg up v6 ns).at w3 in
    let o = of_routers c cfg v6 ns routers ingresses items in
    let x = of_services cfg v6 ns services in
    let o1 =
      (Leads-reconcile_ingress c law lists cfg wet routers ingresses items v6 ns).at w p l done in
    let o2 =
      (Keeps-reconcile_load_balancer c law cfg o refl v6 ns refl).at w1
        (subst (Stored c o) e1 o1) in
    let x2 = (Leads-reconcile_load_balancer c law lists cfg wet v6 ns services).at w1 q s done1 in
    let x3 =
      (Keeps-reconcile_ingress c law cfg x refl v6 ns refl).at w2 (subst (Stored c x) e2 x2) in
    (
      done2
          ∙ ap ok (
              (Gives-reconcile_ingress c law lists cfg v6 ns routers' ingresses' items').at w2 p'
                (record {
                  stored = subst (λ y. Stored c y w2) (sym same_i) (subst (Stored c o) e2 o2);
                  listed = l';
                })
                done2)
          ∙ ap (λ y. ok (plan_with c y unchanged ∷ [])) same_i,
      done3
          ∙ ap ok (
              (Gives-reconcile_load_balancer c law lists cfg v6 ns services').at w3 q'
                (record {
                  stored = subst (λ y. Stored c y w3) (sym same_s) (subst (Stored c x) e3 x3);
                  listed = s';
                })
                done3)
          ∙ ap (λ y. ok (plan_with c y unchanged ∷ [])) same_s,
    )
