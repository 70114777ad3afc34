-- ===== src/Controller/Rbac/Device.antt =====
-- The markers of the device controller grant all that it calls.
use homelab_operator.Prelude.{
  Text, Bool, true, false, ◌≡◌, refl, ap, ap₂, fun_ext, ◌∙◌, Option, List, [], ◌∷◌, ◌==◌,
  if◌then◌else◌,
}
use homelab_operator.Prelude.Dict.{Dict}
use homelab_operator.Api.{Device, Network}
use homelab_operator.Config.{Config}
use homelab_operator.Cluster.{Gvk, ConfigMap, Error, Result, ok, err, Client}
use homelab_operator.Cluster.Exec.{Exec, pure, raise, ◌>>◌}
use homelab_operator.Ensure.{ApplyPlan, apply}
use homelab_operator.Dnsmasq.{DhcpHostsSpec, DhcpOptionsSpec, DnsHostsSpec}
use homelab_operator.Dnsmasq.Netip.{Addr}
use homelab_operator.Dnsmasq.Unstructured.{
  dns_hosts_gvk, dhcp_hosts_gvk, dhcp_options_gvk, free_radius_device_gvk, new_object,
  new_dns_hosts, new_dhcp_hosts, new_dhcp_options,
}
use homelab_operator.Desired.DeviceBased.{DeviceBasedOutput, FreeRadiusSpec}
use homelab_operator.Controller.Status.{
  device_status, availability, readiness, update_device, update_device_statuses, ready_condition,
  update_network, update_network_statuses,
}
use homelab_operator.Controller.Prune.{prune_managed}
use homelab_operator.Controller.Prune.Safety.{ListSelects}
use homelab_operator.Controller.Device.{
  ensure_anchor, on_options_error, options_or_mark, apply_dhcp_options, apply_dhcp_hosts,
  apply_dns_hosts, apply_free_radius, free_radius_object, free_radius_owner, apply_radius_devices,
  prune_all, sync, reconcile_namespace,
}
use homelab_operator.Controller.Rbac.{device_rules, guarded, IsGranted, MapsKinds}
use homelab_operator.Controller.Rbac.Calls.{
  bind_cong, IsGranted_of, plan_and_apply-guarded, apply_each-guarded, prune_kinds-guarded,
}

module _ {W : Type 0} (c : Client W) (resource_of : Gvk → Text) (forbidden : Error)
    (maps : MapsKinds resource_of) where
  abbrev g : Client W
  g = guarded c resource_of device_rules forbidden

  abbrev Granted : Gvk → Type 0
  Granted = IsGranted c resource_of device_rules forbidden

  dns_hosts : Granted dns_hosts_gvk
  unfolding device_rules ◌==◌
  dns_hosts =
      IsGranted_of c resource_of device_rules forbidden _ _ maps.dns_hosts
        (refl, (refl, (refl, (refl, (refl, (refl, (refl, tt)))))))

  dhcp_hosts : Granted dhcp_hosts_gvk
  unfolding device_rules ◌==◌
  dhcp_hosts =
      IsGranted_of c resource_of device_rules forbidden _ _ maps.dhcp_hosts
        (refl, (refl, (refl, (refl, (refl, (refl, (refl, tt)))))))

  dhcp_options : Granted dhcp_options_gvk
  unfolding device_rules ◌==◌
  dhcp_options =
      IsGranted_of c resource_of device_rules forbidden _ _ maps.dhcp_options
        (refl, (refl, (refl, (refl, (refl, (refl, (refl, tt)))))))

  radius_devices : Granted free_radius_device_gvk
  unfolding device_rules ◌==◌
  radius_devices =
      IsGranted_of c resource_of device_rules forbidden _ _ maps.free_radius_devices
        (refl, (refl, (refl, (refl, (refl, (refl, (refl, tt)))))))

  module _ (cfg : Config) where
    ensure_anchor-guarded :
        (namespace name : Text) (lbl : Dict Text)
        → ensure_anchor g cfg namespace name lbl ≡ ensure_anchor c cfg namespace name lbl
    unfolding ensure_anchor apply device_rules ◌==◌
    ensure_anchor-guarded namespace name lbl = refl

    update_device_statuses-guarded :
        (ns : List Network) (ok_ : Bool) (msg : Text) (ds : List Device)
        → update_device_statuses g cfg ns ok_ msg ds ≡ update_device_statuses c cfg ns ok_ msg ds
    unfolding update_device_statuses update_device device_status availability readiness device_rules
        ◌==◌
    update_device_statuses-guarded ns ok_ msg [] = refl
    update_device_statuses-guarded ns ok_ msg (d ∷ ds) =
        bind_cong refl λ _. update_device_statuses-guarded ns ok_ msg ds

    update_network_statuses-guarded :
        (ok_ : Bool) (msg : Text) (ns : List Network)
        → update_network_statuses g cfg ok_ msg ns ≡ update_network_statuses c cfg ok_ msg ns
    unfolding update_network_statuses update_network ready_condition device_rules ◌==◌
    update_network_statuses-guarded ok_ msg [] = refl
    update_network_statuses-guarded ok_ msg (n ∷ ns) =
        bind_cong refl λ _. update_network_statuses-guarded ok_ msg ns

    options_or_mark-guarded :
        (ds : List Device) (ns : List Network) (m m' : Exec W ApplyPlan)
        → m ≡ m'
        → options_or_mark g cfg ds ns m ≡ options_or_mark c cfg ds ns m'
    unfolding options_or_mark on_options_error
    options_or_mark-guarded ds ns m m' e =
        fun_ext λ w. ap (λ n. options_or_mark g cfg ds ns n w) e ∙ from (m' w).0 (m' w).1
      where
        from :
            (r : Result ApplyPlan) (w : W)
            → on_options_error g cfg ds ns r w ≡ on_options_error c cfg ds ns r w
        from (ok plan) w = refl
        from (err x) w =
            ap (λ (n : Exec W (Unit {0})). (n >> raise x) w)
              (update_device_statuses-guarded ns false (c.error_text x) ds)

    dhcp_options_step :
        (namespace : Text) (spec : DhcpOptionsSpec) (owner : ConfigMap)
        → apply_dhcp_options g cfg namespace spec owner
          ≡ apply_dhcp_options c cfg namespace spec owner
    unfolding apply_dhcp_options new_dhcp_options new_object
    dhcp_options_step namespace spec owner =
        plan_and_apply-guarded c resource_of device_rules forbidden cfg _ _ owner dhcp_options

    leases_step :
        (namespace : Text) (owner : ConfigMap) (k : Text) (spec : DhcpHostsSpec)
        → apply_dhcp_hosts g cfg namespace owner k spec
          ≡ apply_dhcp_hosts c cfg namespace owner k spec
    unfolding apply_dhcp_hosts new_dhcp_hosts new_object
    leases_step namespace owner k spec =
        plan_and_apply-guarded c resource_of device_rules forbidden cfg _ _ owner dhcp_hosts

    hosts_step :
        (namespace : Text) (owner : ConfigMap) (k : Text) (spec : DnsHostsSpec)
        → apply_dns_hosts g cfg namespace owner k spec
          ≡ apply_dns_hosts c cfg namespace owner k spec
    unfolding apply_dns_hosts new_dns_hosts new_object
    hosts_step namespace owner k spec =
        plan_and_apply-guarded c resource_of device_rules forbidden cfg _ _ owner dns_hosts

    radius_step :
        (namespace : Text) (owner : ConfigMap) (k : Text) (spec : FreeRadiusSpec)
        → apply_free_radius g cfg namespace owner k spec
          ≡ apply_free_radius c cfg namespace owner k spec
    unfolding apply_free_radius free_radius_object new_object
    radius_step namespace owner k spec =
        plan_and_apply-guarded c resource_of device_rules forbidden cfg _ _ owner radius_devices

    module _ (lists : ListSelects c) (range : (V : Type 0) → Dict V → Dict V) where
      prune_all-guarded :
          (out : DeviceBasedOutput) → prune_all g cfg range out ≡ prune_all c cfg range out
      unfolding prune_all prune_managed
      prune_all-guarded out =
          ap₂
            (λ m n.
              if cfg.dry_run
              then pure tt
              else m >> (if cfg.enable_free_radius_devices then n else pure tt))
            (prune_kinds-guarded c resource_of device_rules forbidden cfg _ _ _ _ lists
              (dhcp_hosts, (dns_hosts, tt)))
            (prune_kinds-guarded c resource_of device_rules forbidden cfg _ _ _ _ lists
              (radius_devices, tt))

      apply_radius_devices-guarded :
          (out : DeviceBasedOutput) (anchor : ConfigMap)
          → apply_radius_devices g cfg range out anchor
            ≡ apply_radius_devices c cfg range out anchor
      unfolding apply_radius_devices free_radius_owner
      apply_radius_devices-guarded out anchor =
          ap (λ m. if cfg.enable_free_radius_devices then m else pure [])
            (bind_cong
              (ap
                (λ m.
                  if cfg.free_radius_devices_namespace == cfg.dnsmasq_resources_namespace
                  then pure anchor
                  else m)
                (ensure_anchor-guarded _ _ _))
              λ owner.
                apply_each-guarded c resource_of device_rules forbidden cfg _ _ _
                  (radius_step _ owner))

      sync-guarded :
          (out : DeviceBasedOutput) (ds : List Device) (ns : List Network)
          → sync g cfg range out ds ns ≡ sync c cfg range out ds ns
      unfolding sync
      sync-guarded out ds ns = bind_cong (ensure_anchor-guarded _ _ _) λ anchor.
          bind_cong (options_or_mark-guarded ds ns _ _ (dhcp_options_step _ _ anchor)) λ plan.
            bind_cong
              (apply_each-guarded c resource_of device_rules forbidden cfg _ _ _
                (leases_step _ anchor))
              λ leases.
                bind_cong
                  (apply_each-guarded c resource_of device_rules forbidden cfg _ _ _
                    (hosts_step _ anchor))
                  λ hosts. bind_cong (apply_radius_devices-guarded out anchor) λ radius.
                    bind_cong (prune_all-guarded out) λ _.
                      bind_cong (update_device_statuses-guarded ns true [] ds)
                        λ _. bind_cong (update_network_statuses-guarded true [] ns) λ _. refl

-- An API server that enforces the role, as far as the markers of DeviceReconciler make it, refuses
-- nothing that a reconcile of a namespace asks for: the run is the same as without the rules, in its
-- result and in what it writes, on every path. Kinds are mapped to the resources of their
-- definitions, and a list by labels returns objects of the kind and with the labels asked for.
pub reconcile_namespace-guarded :
    {W : Type 0} (c : Client W) (resource_of : Gvk → Text) (forbidden : Error) (cfg : Config)
    → (range : (V : Type 0) → Dict V → Dict V) (v6 : Text → Option Addr) (namespace : Text) (w : W)
    → MapsKinds resource_of
    → ListSelects c
    → reconcile_namespace (guarded c resource_of device_rules forbidden) cfg range v6 namespace w
      ≡ reconcile_namespace c cfg range v6 namespace w
unfolding reconcile_namespace device_rules ◌==◌
reconcile_namespace-guarded c resource_of forbidden cfg range v6 namespace w maps lists =
    ap (λ m. m w)
      (bind_cong refl
        λ ds. bind_cong refl λ ns. sync-guarded c resource_of forbidden maps cfg lists range _ _ _)
