-- ===== src/Controller/Device/Foreign.antt =====
-- The DnsHosts objects of the other controllers, and of others, through a reconcile of devices.
use mathlib.Core.List.{Mem}
use homelab_operator.Prelude.{
  Text, true, false, Option, some, ◌≡◌, ◌≢◌, refl, sym, ap, ◌∙◌, inl, inr, Bool-cases, List, [],
  ◌∷◌, ◌==◌, eq_iff, arith,
}
use homelab_operator.Prelude.Dict.{Dict, get}
use homelab_operator.Prelude.Keys.{is_some}
use homelab_operator.Api.{Device, Network}
use homelab_operator.Config.{Config}
use homelab_operator.Labels.{aggregate_key}
use homelab_operator.Cluster.{Gvk, Client, Object, ConfigMap, ok}
use homelab_operator.Cluster.Exec.{◌>>=◌, Keeps, Keeps-pure, Keeps-reads-from, Keeps-if, Keeps-bind}
use homelab_operator.Cluster.Laws.{IsLawful, is_at}
use homelab_operator.Cluster.Laws.Keys.{get-is_at}
use homelab_operator.Ensure.{apply_unstructured}
use homelab_operator.Dnsmasq.{DnsHostsSpec}
use homelab_operator.Dnsmasq.Netip.{Addr}
use homelab_operator.Dnsmasq.Unstructured.{
  dns_hosts_gvk, new_object, new_dns_hosts, new_dhcp_hosts, new_dhcp_options,
}
use homelab_operator.Desired.DeviceBased.{DeviceBasedOutput, build_device_based}
use homelab_operator.Controller.Status.Keeps.{
  Keeps-update_device_statuses, Keeps-update_network_statuses,
}
use homelab_operator.Controller.Prune.{NameSet, prune_kinds, prune_managed}
use homelab_operator.Controller.Prune.Safety.{Keeps-delete_stale}
use homelab_operator.Controller.Device.{
  device_based, plan_and_apply, apply_each, apply_dhcp_options, apply_dhcp_hosts, apply_dns_hosts,
  apply_free_radius, free_radius_object, apply_radius_devices, prune_all, sync, reconcile_namespace,
}
use homelab_operator.Controller.Device.Established.Loops.{VisitsAll, Keeps-others}
use homelab_operator.Controller.Device.Keeps.{
  Keeps-ensure_anchor, Keeps-plan_and_apply, Keeps-apply_each, Keeps-options_or_mark,
  Keeps-free_radius_owner,
}

-- What stands under the key of an object that a list by labels returns has the label of the aggregate.
pub record ListsStored {W : Type 0} (c : Client W) : Type 0 where
  pub stored :
      (w : W) (gvk : Gvk) (namespace aggregate : Text) (items : List Object)
      → c.list_managed w gvk namespace aggregate ≡ ok items
      → (item : Object) → Mem item items
      → (x : Object) → c.get w item.gvk item.namespace item.name ≡ ok x
      → get aggregate_key x.labels ≡ some aggregate

module _ {W : Type 0} (c : Client W) (law : IsLawful c) (cfg : Config) (x : Object)
    (namespace name : Text) where
  -- The object stands under the kind DnsHosts, the namespace and the name.
  abbrev Holds : W → Type 0
  Holds w = c.get w dns_hosts_gvk namespace name ≡ ok x

  Keeps-apart :
      (o : Object) (lbl : Dict Text) (owner : ConfigMap)
      → is_at dns_hosts_gvk namespace name o ≡ false
      → Keeps Holds (plan_and_apply c cfg o lbl owner)
  unfolding apply_unstructured
  Keeps-apart o lbl owner e =
      Keeps-plan_and_apply c cfg Holds o lbl owner
        λ _. record { at = λ w h. law.get-create_or_update _ _ w _ _ _ e ∙ h }

  Keeps-config_map :
      (cm : ConfigMap) (f : ConfigMap → ConfigMap)
      → Keeps Holds (c.create_or_update_config_map cm f)
  unfolding ◌==◌
  Keeps-config_map cm f = record { at = λ w h. law.get-config_map cm f w _ _ _ refl ∙ h }

  module _ (stored : ListsStored c) (other : get aggregate_key x.labels ≢ some device_based) where
    -- What is listed for the devices is another object.
    Keeps-delete_listed :
        (w : W) (gvk : Gvk) (ns : Text) (items : List Object)
        → Holds w
        → c.list_managed w gvk ns device_based ≡ ok items
        → (item : Object) → Mem item items
        → Keeps Holds (c.delete item)
    Keeps-delete_listed w gvk ns items h e item m =
        elim (Bool-cases (is_at dns_hosts_gvk namespace name item)) [
          | inl a ↦ absurd (
              other (
                stored.stored w gvk ns device_based items e item m x
                  (sym (get-is_at c w dns_hosts_gvk namespace name item a) ∙ h)))
          | inr a ↦ record { at = λ v k. law.get-delete item v _ _ _ a ∙ k }
        ]

    Keeps-prune_kinds :
        (ns : Text) (names : NameSet) (gvks : List Gvk)
        → Keeps Holds (prune_kinds c cfg ns device_based names gvks)
    unfolding prune_kinds
    Keeps-prune_kinds ns names [] = Keeps-pure _
    Keeps-prune_kinds ns names (gvk ∷ gvks) =
        let rest = Keeps-prune_kinds ns names gvks in
        Keeps-reads-from _ _ λ w items h e.
          Keeps-bind _ _
            (Keeps-delete_stale c cfg Holds names ns device_based items
              λ item m _. Keeps-delete_listed w gvk ns items h e item m)
            λ _. rest

    Keeps-prune_all :
        (range : (V : Type 0) → Dict V → Dict V) (out : DeviceBasedOutput)
        → Keeps Holds (prune_all c cfg range out)
    unfolding prune_all prune_managed
    Keeps-prune_all range out = Keeps-if cfg.dry_run _ _ (Keeps-pure _) (
        Keeps-bind _ _ (Keeps-prune_kinds _ _ _)
          λ _. Keeps-if _ _ _ (Keeps-prune_kinds _ _ _) (Keeps-pure _))

    module _ (range : (V : Type 0) → Dict V → Dict V) (visits : VisitsAll range)
        (out : DeviceBasedOutput) (absent : is_some (get name out.dns_hosts) ≡ false) where
      Keeps-hosts :
          (anchor : ConfigMap)
          → Keeps Holds (
              apply_each c cfg
                (apply_dns_hosts c cfg cfg.dnsmasq_resources_namespace anchor)
                (range DnsHostsSpec out.dns_hosts))
      unfolding apply_dns_hosts new_dns_hosts new_object ◌==◌
      Keeps-hosts anchor =
          Keeps-others c cfg name _ Holds
            (λ k spec d. Keeps-apart _ _ anchor (ground (arith, d, eq_iff k name, eq_iff name k)))
            (range DnsHostsSpec out.dns_hosts)
            (ap is_some (visits.same _ out.dns_hosts name) ∙ absent)

      Keeps-radius :
          (anchor : ConfigMap) → Keeps Holds (apply_radius_devices c cfg range out anchor)
      unfolding apply_radius_devices apply_free_radius free_radius_object new_object ◌==◌
      Keeps-radius anchor =
          Keeps-if _ _ _
            (Keeps-bind _ _
              (Keeps-free_radius_owner c cfg Holds (λ cm f _. Keeps-config_map cm f) anchor)
              λ owner. Keeps-apply_each c cfg Holds _ _ λ k spec. Keeps-apart _ _ owner refl)
            (Keeps-pure _)

      Keeps-status : (d : Device) → Keeps Holds (c.update_device_status d)
      unfolding ◌==◌
      Keeps-status d = record { at = λ w h. law.get-device_status d w _ _ _ refl ∙ h }

      Keeps-network : (n : Network) → Keeps Holds (c.update_network_status n)
      unfolding ◌==◌
      Keeps-network n = record { at = λ w h. law.get-network_status n w _ _ _ refl ∙ h }

      Keeps-sync : (ds : List Device) (ns : List Network) → Keeps Holds (sync c cfg range out ds ns)
      unfolding sync apply_dhcp_options apply_dhcp_hosts new_dhcp_options new_dhcp_hosts new_object
          ◌==◌
      Keeps-sync ds ns =
          Keeps-bind _ _ (Keeps-ensure_anchor c cfg Holds (λ cm f _. Keeps-config_map cm f) _ _ _)
            λ anchor.
              Keeps-bind _ _
                (Keeps-options_or_mark c cfg Holds (λ d _. Keeps-status d) ds ns _
                  (Keeps-apart _ _ anchor refl))
                λ plan.
                  Keeps-bind _ _
                    (Keeps-apply_each c cfg Holds _ _ λ k spec. Keeps-apart _ _ anchor refl)
                    λ leases. Keeps-bind _ _ (Keeps-hosts anchor) λ hosts.
                      Keeps-bind _ _ (Keeps-radius anchor) λ radius.
                        Keeps-bind _ _ (Keeps-prune_all range out) λ _.
                          Keeps-bind _ _
                            (Keeps-update_device_statuses c cfg Holds (λ d _. Keeps-status d) ns
                              true [] ds)
                            λ _.
                              Keeps-bind _ _
                                (Keeps-update_network_statuses c cfg Holds (λ n _. Keeps-network n)
                                  true [] ns)
                                λ _. Keeps-pure _

-- A reconcile of devices leaves a DnsHosts object of another aggregate, such as those of the ingress and
-- of the load balancer controllers, as it is, on every path, the prune included: its labels name
-- another aggregate than that of the devices, or none, and its name is not that of an object that the
-- devices ask for. What stands under the key of an object that a list by labels returns has the label
-- of the aggregate; the API server obeys the laws of `IsLawful`, and Go visits each entry of a map once.
pub get-reconcile_namespace :
    {W : Type 0} (c : Client W) (cfg : Config) (range : (V : Type 0) → Dict V → Dict V)
    → (v6 : Text → Option Addr) (ns : Text) (w : W) (devices : List Device)
      (networks : List Network)
    → (x : Object) (namespace name : Text) → IsLawful c
    → ListsStored c
    → VisitsAll range
    → c.list_devices w ns ≡ ok devices
    → c.list_networks w ns ≡ ok networks
    → get aggregate_key x.labels ≢ some device_based
    → is_some (get name (build_device_based v6 devices networks cfg).dns_hosts) ≡ false
    → c.get w dns_hosts_gvk namespace name ≡ ok x
    → c.get (reconcile_namespace c cfg range v6 ns w).1 dns_hosts_gvk namespace name ≡ ok x
unfolding reconcile_namespace ◌>>=◌
get-reconcile_namespace c cfg range v6 ns w devices networks x namespace name law stored visits d n
      other absent h =
    rw (d, n)
      ((Keeps-sync c law cfg x namespace name stored other range visits
          (build_device_based v6 devices networks cfg) absent _ _).at
        w h)
