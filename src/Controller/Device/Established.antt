-- ===== src/Controller/Device/Established.antt =====
-- What a successful reconcile leaves in the cluster: every wanted object, with the wanted spec.
pub mod Steps
pub mod Loops
pub mod Sync
pub mod Objects
pub mod Unique
use mathlib.Core.List.{Nodup}
use homelab_operator.Prelude.{
  Text, Bool, true, false, ◌&&◌, ◌||◌, Option, some, ◌≡◌, refl, sym, ap, ◌∙◌, ◌⊎◌, inl, inr, List,
  [], ◌∷◌, ◌==◌, eq_iff, eq_refl, if◌then◌else◌, arith,
}
use homelab_operator.Prelude.Lists.{any}
use homelab_operator.Prelude.Dict.{Dict, get, keys}
use homelab_operator.Prelude.Keys.{is_some, any-keys}
use homelab_operator.Prelude.Sort.{sort_func}
use homelab_operator.Api.{Device, Network}
use homelab_operator.Config.{Config}
use homelab_operator.Cluster.{Client, Object, ConfigMap, Result, ok}
use homelab_operator.Cluster.Exec.{
  ◌>>=◌, Keeps, Keeps-pure, Keeps-if, Keeps-bind, Leads, Leads-keeps, Leads-if_true, Leads-bind,
}
use homelab_operator.Cluster.Laws.{HasSpec, IsLawful, IsUp, is_at, is_external, same_kind}
use homelab_operator.Ensure.{ApplyPlan, plan_with, unchanged, plan_unstructured}
use homelab_operator.Ensure.Stored.{Stored, Keeps-Stored, plan_unstructured-Stored}
use homelab_operator.Dnsmasq.{DhcpHostsSpec, DnsHostsSpec}
use homelab_operator.Dnsmasq.Netip.{Addr}
use homelab_operator.Dnsmasq.Unstructured.{
  new_object, new_dns_hosts, new_dhcp_hosts, new_dhcp_options, free_radius_device_gvk,
}
use homelab_operator.Desired.DeviceBased.{
  FreeRadiusSpec, DeviceBasedOutput, dhcp_options_name, by_device_name, by_network_name,
  build_device_based,
}
use homelab_operator.Desired.DeviceBased.Keys.{NodupKeys, build_device_based-NodupKeys}
use homelab_operator.Controller.Prune.Safety.{ListSelects}
use homelab_operator.Controller.Device.{
  apply_each, add_names, desired_names, apply_dhcp_options, apply_dhcp_hosts, apply_dns_hosts,
  apply_free_radius, apply_radius_devices, free_radius_object, sync, reconcile_namespace,
}
use homelab_operator.Controller.Device.Keeps.{Keeps-apply_each, Keeps-free_radius_owner}
use homelab_operator.Controller.Device.Succeeds.{Succeeds-reconcile_namespace}
use homelab_operator.Controller.Device.Labelling.{get-add_names, is_some-desired_names}
use homelab_operator.Controller.Device.Established.Steps.{
  Anywhere, Leads-Anywhere, stores, apart, named_apart, Leads-options_or_mark,
}
use homelab_operator.Controller.Device.Established.Loops.{VisitsAll, Leads-apply_each}
use homelab_operator.Controller.Device.Established.Objects.{
  Wanted, options, lease, host, radius, HasSpec-Wanted, IsKept-Wanted,
}
use homelab_operator.Controller.Device.Established.Sync.{Chain, IsKept, Leads-sync}

module _ {W : Type 0} (c : Client W) (law : IsLawful c) (cfg : Config) (wet : cfg.dry_run ≡ false)
    (range : (V : Type 0) → Dict V → Dict V) (visits : VisitsAll range) (out : DeviceBasedOutput)
    (nodup : NodupKeys out) (ds : List Device) (ns : List Network) where
  -- The loops that come after the one that stores the object.
  module _ (o : Object) where
    Keeps-leases :
        ((k : Text) (spec : DhcpHostsSpec)
          → is_at o.gvk o.namespace o.name (new_dhcp_hosts k cfg.dnsmasq_resources_namespace spec)
            ≡ false)
        → (anchor : ConfigMap)
        → Keeps (Stored c o) (
            apply_each c cfg
              (apply_dhcp_hosts c cfg cfg.dnsmasq_resources_namespace anchor)
              (range DhcpHostsSpec out.dhcp_hosts))
    unfolding apply_dhcp_hosts
    Keeps-leases far anchor =
        Keeps-apply_each c cfg (Stored c o) _ _ λ k spec. apart c law cfg o _ _ anchor (far k spec)

    Keeps-hosts :
        ((k : Text) (spec : DnsHostsSpec)
          → is_at o.gvk o.namespace o.name (new_dns_hosts k cfg.dnsmasq_resources_namespace spec)
            ≡ false)
        → (anchor : ConfigMap)
        → Keeps (Stored c o) (
            apply_each c cfg
              (apply_dns_hosts c cfg cfg.dnsmasq_resources_namespace anchor)
              (range DnsHostsSpec out.dns_hosts))
    unfolding apply_dns_hosts
    Keeps-hosts far anchor =
        Keeps-apply_each c cfg (Stored c o) _ _ λ k spec. apart c law cfg o _ _ anchor (far k spec)

    Keeps-radius :
        is_external o.gvk ≡ true
        → ((k : Text) (spec : FreeRadiusSpec)
            → is_at o.gvk o.namespace o.name
                (free_radius_object cfg.free_radius_devices_namespace k spec)
              ≡ false)
        → (anchor : ConfigMap) → Keeps (Stored c o) (apply_radius_devices c cfg range out anchor)
    unfolding apply_radius_devices apply_free_radius
    Keeps-radius ext far anchor =
        Keeps-if _ _ _
          (Keeps-bind _ _
            (Keeps-free_radius_owner c cfg (Stored c o)
              (λ cm f _. Keeps-Stored c law o _ λ w. law.get-config_map cm f w _ _ _ ext) anchor)
            λ owner.
              Keeps-apply_each c cfg (Stored c o) _ _
                λ k spec. apart c law cfg o _ _ owner (far k spec))
          (Keeps-pure _)

  -- What leads to a wanted object.
  pub Leads-Wanted :
      (lists : ListSelects c) (o : Object)
      → Wanted cfg out o
      → Leads Anywhere (sync c cfg range out ds ns) (Stored c o)
  unfolding new_dhcp_options new_dhcp_hosts new_dns_hosts free_radius_object new_object
      apply_dhcp_options apply_dhcp_hosts apply_dns_hosts apply_free_radius apply_radius_devices
      ◌==◌
  Leads-Wanted lists o options =
      Leads-sync c law cfg range out ds ns lists _ refl
        (IsKept-Wanted cfg out c law range ds ns lists _ options)
        (record {
          options = λ anchor.
              Leads-options_or_mark c cfg ds ns _ (stores c law cfg _ (_, refl) wet _ anchor);
          leases = λ anchor. Leads-keeps (Keeps-leases _ (λ k spec. refl) anchor);
          hosts = λ anchor. Leads-keeps (Keeps-hosts _ (λ k spec. refl) anchor);
          radius = λ anchor. Leads-keeps (Keeps-radius _ refl (λ k spec. refl) anchor);
        })
  Leads-Wanted lists o (lease k spec e) =
      Leads-sync c law cfg range out ds ns lists _ {A = Anywhere} refl
        (IsKept-Wanted cfg out c law range ds ns lists _ (lease k spec e))
        (record {
          options = λ anchor. Leads-Anywhere _;
          leases = λ anchor.
              Leads-apply_each c cfg k _ _ (λ j u d. named_apart c law cfg _ _ _ anchor d) spec
                (λ R. stores c law cfg _ (_, refl) wet _ anchor) _ (visits.once _ _ nodup.dhcp)
                (visits.same _ _ k ∙ e);
          hosts = λ anchor. Leads-keeps (Keeps-hosts _ (λ k spec. refl) anchor);
          radius = λ anchor. Leads-keeps (Keeps-radius _ refl (λ k spec. refl) anchor);
        })
  Leads-Wanted lists o (host k spec e) =
      Leads-sync c law cfg range out ds ns lists _ {A = Anywhere} {B = Anywhere} refl
        (IsKept-Wanted cfg out c law range ds ns lists _ (host k spec e))
        (record {
          options = λ anchor. Leads-Anywhere _;
          leases = λ anchor. Leads-Anywhere _;
          hosts = λ anchor.
              Leads-apply_each c cfg k _ _ (λ j u d. named_apart c law cfg _ _ _ anchor d) spec
                (λ R. stores c law cfg _ (_, refl) wet _ anchor) _ (visits.once _ _ nodup.dns)
                (visits.same _ _ k ∙ e);
          radius = λ anchor. Leads-keeps (Keeps-radius _ refl (λ k spec. refl) anchor);
        })
  Leads-Wanted lists o (radius k spec e on) =
      Leads-sync c law cfg range out ds ns lists _ {A = Anywhere} {B = Anywhere} {C = Anywhere} refl
        (IsKept-Wanted cfg out c law range ds ns lists _ (radius k spec e on))
        (record {
          options = λ anchor. Leads-Anywhere _;
          leases = λ anchor. Leads-Anywhere _;
          hosts = λ anchor. Leads-Anywhere _;
          radius = λ anchor. Leads-if_true _ _ _ on (
              Leads-bind {Q = Anywhere} (Leads-Anywhere _) λ owner.
                Leads-apply_each c cfg k _ _ (λ j u d. named_apart c law cfg _ _ _ owner d) spec
                  (λ R. stores c law cfg _ (_, refl) wet _ owner) _ (visits.once _ _ nodup.radius)
                  (visits.same _ _ k ∙ e));
        })

-- A successful reconcile of a namespace outside a dry run establishes the desired state: for every
-- object that `BuildDeviceBased` asks for (the DHCP options, each DHCP and DNS hosts object, and each
-- FreeRADIUS device where those are enabled), the plan at the end is to leave it unchanged. The
-- loops, the prune and the statuses that come after an object's write do not undo it, in whatever
-- order Go visits the maps. The reads and the writes of the API server obey the laws of `IsLawful`
-- and of `ListSelects`, and Go visits each entry of a map once.
pub plan_unstructured-reconcile_namespace :
    {W : Type 0} (c : Client W) (cfg : Config) (range : (V : Type 0) → Dict V → Dict V)
    → (v6 : Text → Option Addr) (namespace : Text) (w : W) (devices : List Device)
    → (networks : List Network) (plans : List ApplyPlan) (o : Object) → IsLawful c
    → ListSelects c
    → VisitsAll range
    → cfg.dry_run ≡ false
    → c.list_devices w namespace ≡ ok devices
    → c.list_networks w namespace ≡ ok networks
    → (reconcile_namespace c cfg range v6 namespace w).0 ≡ ok plans
    → Wanted cfg (build_device_based v6 devices networks cfg) o
    → plan_unstructured c o (reconcile_namespace c cfg range v6 namespace w).1
      ≡ ok (plan_with c o unchanged)
unfolding reconcile_namespace ◌>>=◌
plan_unstructured-reconcile_namespace c cfg range v6 namespace w devices networks plans o law lists
      visits wet d n done wanted =
    let out = build_device_based v6 devices networks cfg in
    let leads =
      Leads-Wanted c law cfg wet range visits out
        (build_device_based-NodupKeys v6 devices networks cfg) (sort_func by_device_name devices)
        (sort_func by_network_name networks) lists o wanted in
    plan_unstructured-Stored c law o (HasSpec-Wanted cfg out o wanted) _
      (rw (d, n) (leads.at w plans tt (rw (d, n) at done)))

-- Where the API server answers every call, a reconcile of a namespace outside a dry run succeeds, and
-- every object of the desired state is in the cluster then: a plan for it leaves it unchanged. The
-- laws of the API server and of the order of a map are `IsLawful`, `ListSelects` and `VisitsAll`.
pub reconcile_namespace_converges :
    {W : Type 0} (c : Client W) (cfg : Config) (range : (V : Type 0) → Dict V → Dict V)
    → (v6 : Text → Option Addr) (namespace : Text) (w : W) (devices : List Device)
    → (networks : List Network) (o : Object) → IsUp c
    → IsLawful c
    → ListSelects c
    → VisitsAll range
    → cfg.dry_run ≡ false
    → c.list_devices w namespace ≡ ok devices
    → c.list_networks w namespace ≡ ok networks
    → Wanted cfg (build_device_based v6 devices networks cfg) o
    → (plans : List ApplyPlan) × (((reconcile_namespace c cfg range v6 namespace w).0 ≡ ok plans)
        × (plan_unstructured c o (reconcile_namespace c cfg range v6 namespace w).1
            ≡ ok (plan_with c o unchanged)))
reconcile_namespace_converges c cfg range v6 namespace w devices networks o up law lists visits wet
      d n wanted =
    let (plans, done) = (Succeeds-reconcile_namespace c cfg up range v6 namespace).at w in
    (
      plans,
      (
        done,
        plan_unstructured-reconcile_namespace c cfg range v6 namespace w devices networks plans o
            law lists visits wet d n done wanted,
      ),
    )
