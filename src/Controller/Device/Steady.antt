-- ===== src/Controller/Device/Steady.antt =====
-- A reconcile that follows a successful one has nothing left to change.
pub mod Steps
use mathlib.Core.List.{Nodup, Nodup-cons}
use homelab_operator.Prelude.{
  Text, Bool, true, false, Option, some, ◌≡◌, refl, sym, subst, ap, ◌∙◌, inl, inr, Bool-cases, List,
  [], ◌∷◌, ◌++◌, ◌==◌, eq_iff, eq_refl, if◌then◌else◌, arith,
}
use homelab_operator.Prelude.Lists.{All, All-append}
use homelab_operator.Prelude.Dict.{Dict, get, keys}
use homelab_operator.Prelude.Keys.{is_some, mem-keys_of_is_some}
use homelab_operator.Prelude.Sort.{sort_func}
use homelab_operator.Api.{Device, Network}
use homelab_operator.Config.{Config}
use homelab_operator.Cluster.{Client, Object, ConfigMap, Result, ok, err}
use homelab_operator.Cluster.Exec.{
  Exec, pure, ◌>>=◌, ◌>>◌, Keeps, Keeps-pure, Keeps-if, Keeps-bind, Leads, Leads-keeps, Returns,
  Returns-pure, Returns-if, Returns-keeps, Returns-bind,
}
use homelab_operator.Cluster.Laws.{IsLawful, IsUp, is_at, is_external}
use homelab_operator.Ensure.{ApplyPlan, plan_with, unchanged, plan_unstructured, apply_unstructured}
use homelab_operator.Ensure.Stored.{Stored, Keeps-Stored, plan_unstructured-Stored}
use homelab_operator.Dnsmasq.{DhcpHostsSpec, DnsHostsSpec}
use homelab_operator.Dnsmasq.Netip.{Addr}
use homelab_operator.Desired.DeviceBased.{
  FreeRadiusSpec, DeviceBasedOutput, by_device_name, by_network_name, build_device_based,
}
use homelab_operator.Desired.DeviceBased.Keys.{NodupKeys, build_device_based-NodupKeys}
use homelab_operator.Controller.Prune.Safety.{ListSelects}
use homelab_operator.Controller.Device.{
  plan_and_apply, apply_each, ensure_anchor, options_or_mark, on_options_error, apply_dhcp_options,
  apply_dhcp_hosts, apply_dns_hosts, apply_free_radius, apply_radius_devices, free_radius_owner,
  prune_all, sync, reconcile_namespace,
}
use homelab_operator.Controller.Status.Keeps.{
  Keeps-update_device_statuses, Keeps-update_network_statuses,
}
use homelab_operator.Controller.Status.{update_device_statuses, update_network_statuses}
use homelab_operator.Controller.Device.Keeps.{Keeps-ensure_anchor, Keeps-free_radius_owner}
use homelab_operator.Controller.Device.Established.Sync.{Keeps-prune_all}
use homelab_operator.Controller.Device.Established.{Leads-Wanted}
use homelab_operator.Controller.Device.Succeeds.{Succeeds-reconcile_namespace}
use homelab_operator.Controller.Device.Established.Steps.{stores, apart, raise-fails}
use homelab_operator.Controller.Device.Established.Loops.{VisitsAll}
use homelab_operator.Controller.Device.Established.Objects.{
  Wanted, options, lease, host, radius, HasSpec-Wanted, is_external-Wanted, IsKept-Wanted,
}
use homelab_operator.Controller.Device.Established.Unique.{same_object}
use homelab_operator.Controller.Device.Steady.Steps.{
  AllStored, IsUnchanged, Keeps-AllStored, Returns-plan_and_apply, Returns-apply_each,
  Returns-options_or_mark, Keeps-config_map,
}

module _ {W : Type 0} (c : Client W) (law : IsLawful c) (cfg : Config) (wet : cfg.dry_run ≡ false)
    (out : DeviceBasedOutput) where
  module _ (range : (V : Type 0) → Dict V → Dict V) (visits : VisitsAll range)
      (nodup : NodupKeys out) (ds : List Device) (ns : List Network) (lists : ListSelects c) where
    Returns-apply_radius_devices :
        (anchor : ConfigMap)
        → Returns
            (AllStored c cfg out)
            (apply_radius_devices c cfg range out anchor)
            (All IsUnchanged)
    unfolding apply_radius_devices apply_free_radius
    Returns-apply_radius_devices anchor =
        Returns-if cfg.enable_free_radius_devices _ _
          (λ on.
            Returns-bind
              (Returns-keeps (
                Keeps-free_radius_owner c cfg (AllStored c cfg out)
                  (λ cm f _. Keeps-config_map c law cfg wet out cm f) anchor))
              λ owner _.
                Returns-apply_each c law cfg wet out _ _ (visits.once _ _ nodup.radius) λ k spec e.
                  Returns-plan_and_apply c law cfg wet out _
                    (radius k spec (sym (visits.same _ _ k) ∙ e) on) _ owner)
          (λ off. Returns-pure [] tt)

    Keeps-pruned : Keeps (AllStored c cfg out) (prune_all c cfg range out)
    Keeps-pruned = Keeps-AllStored c law cfg wet out _ λ o wanted.
        Keeps-prune_all c law cfg range out ds ns lists o
          (IsKept-Wanted cfg out c law range ds ns lists o wanted)

    Keeps-devices : Keeps (AllStored c cfg out) (update_device_statuses c cfg ns true [] ds)
    Keeps-devices = Keeps-AllStored c law cfg wet out _ λ o wanted.
        Keeps-update_device_statuses c cfg (Stored c o)
          (λ d _.
            Keeps-Stored c law o _
              λ w. law.get-device_status d w _ _ _ (is_external-Wanted cfg out o wanted))
          ns true [] ds

    Keeps-networks : Keeps (AllStored c cfg out) (update_network_statuses c cfg true [] ns)
    Keeps-networks = Keeps-AllStored c law cfg wet out _ λ o wanted.
        Keeps-update_network_statuses c cfg (Stored c o)
          (λ n _.
            Keeps-Stored c law o _
              λ w. law.get-network_status n w _ _ _ (is_external-Wanted cfg out o wanted))
          true [] ns

    Returns-sync : Returns (AllStored c cfg out) (sync c cfg range out ds ns) (All IsUnchanged)
    unfolding sync apply_dhcp_options apply_dhcp_hosts apply_dns_hosts
    Returns-sync =
        Returns-bind
          (Returns-keeps (
            Keeps-ensure_anchor c cfg (AllStored c cfg out)
              (λ cm f _. Keeps-config_map c law cfg wet out cm f) _ _ _))
          λ anchor _.
            Returns-bind
              (Returns-options_or_mark c law cfg wet out ds ns _
                (Returns-plan_and_apply c law cfg wet out _ options _ anchor))
              λ plan p.
                Returns-bind
                  (Returns-apply_each c law cfg wet out _ _ (visits.once _ _ nodup.dhcp) λ k spec e.
                    Returns-plan_and_apply c law cfg wet out _
                      (lease k spec (sym (visits.same _ _ k) ∙ e)) _ anchor)
                  λ leases ls.
                    Returns-bind
                      (Returns-apply_each c law cfg wet out _ _ (visits.once _ _ nodup.dns)
                        λ k spec e.
                          Returns-plan_and_apply c law cfg wet out _
                            (host k spec (sym (visits.same _ _ k) ∙ e)) _ anchor)
                      λ hosts hs. Returns-bind (Returns-apply_radius_devices anchor) λ radius rs.
                        Returns-bind (Returns-keeps Keeps-pruned) λ _ _.
                          Returns-bind (Returns-keeps Keeps-devices) λ _ _.
                            Returns-bind (Returns-keeps Keeps-networks) λ _ _. Returns-pure _ (
                              p,
                              All-append IsUnchanged leases (hosts ++ radius) ls
                                  (All-append IsUnchanged hosts radius hs rs),
                            )

-- Where the API server answers every call, the reconcile of a namespace that follows a reconcile of it
-- outside a dry run succeeds and finds nothing to change: all its plans, of the DHCP options, the DHCP
-- and DNS hosts objects and the FreeRADIUS devices, are to leave the object unchanged. The devices
-- and networks that are listed then are supposed to ask for the same objects as before; the laws of
-- the API server and of the order of a map are `IsLawful`, `ListSelects` and `VisitsAll`.
pub reconcile_namespace_steady :
    {W : Type 0} (c : Client W) (cfg : Config) (range : (V : Type 0) → Dict V → Dict V)
    → (v6 : Text → Option Addr) (namespace : Text) (w w' : W) (devices devices' : List Device)
    → (networks networks' : List Network) → IsUp c
    → IsLawful c
    → ListSelects c
    → VisitsAll range
    → cfg.dry_run ≡ false
    → c.list_devices w namespace ≡ ok devices
    → c.list_networks w namespace ≡ ok networks
    → (reconcile_namespace c cfg range v6 namespace w).1 ≡ w'
    → c.list_devices w' namespace ≡ ok devices'
    → c.list_networks w' namespace ≡ ok networks'
    → build_device_based v6 devices' networks' cfg ≡ build_device_based v6 devices networks cfg
    → (plans : List ApplyPlan) × (((reconcile_namespace c cfg range v6 namespace w').0 ≡ ok plans)
        × All (λ (p : ApplyPlan). p.action ≡ unchanged) plans)
unfolding reconcile_namespace ◌>>=◌
reconcile_namespace_steady c cfg range v6 namespace w w' devices devices' networks networks' up law
      lists visits wet d n after d' n' same =
    let out = build_device_based v6 devices networks cfg in
    let nodup = build_device_based-NodupKeys v6 devices networks cfg in
    let (plans, done) = (Succeeds-reconcile_namespace c cfg up range v6 namespace).at w in
    let (plans', done') = (Succeeds-reconcile_namespace c cfg up range v6 namespace).at w' in
    let stored : AllStored c cfg out w' = record {
      all = λ o wanted. subst (Stored c o) after (
          rw (d, n)
            ((Leads-Wanted c law cfg wet range visits out nodup (sort_func by_device_name devices)
                (sort_func by_network_name networks) lists o wanted).at
              w plans tt (rw (d, n) at done)));
    } in
    let returns =
      Returns-sync c law cfg wet out range visits nodup (sort_func by_device_name devices')
        (sort_func by_network_name networks') lists in
    (plans', (done', (returns.at w' plans' stored (rw (d', n', same) at done')).0))
