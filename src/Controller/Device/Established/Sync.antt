-- ===== src/Controller/Device/Established/Sync.antt =====
-- What a run of `sync` leads to, from what its steps lead to.
use homelab_operator.Prelude.{true, false, ◌≡◌, ◌⊎◌, List, [], ◌∷◌}
use homelab_operator.Prelude.Dict.{Dict, get, keys}
use homelab_operator.Prelude.Keys.{is_some}
use homelab_operator.Api.{Device, Network}
use homelab_operator.Config.{Config}
use homelab_operator.Dnsmasq.{DhcpHostsSpec, DnsHostsSpec}
use homelab_operator.Dnsmasq.Unstructured.{dhcp_hosts_gvk, dns_hosts_gvk, free_radius_device_gvk}
use homelab_operator.Desired.DeviceBased.{DeviceBasedOutput}
use homelab_operator.Cluster.{Client, Object, ConfigMap}
use homelab_operator.Cluster.Exec.{
  Keeps, Keeps-pure, Keeps-if, Keeps-bind, Leads, Leads-keeps, Leads-bind,
}
use homelab_operator.Cluster.Laws.{IsLawful, is_external, same_kind}
use homelab_operator.Ensure.Stored.{Stored, Keeps-Stored}
use homelab_operator.Controller.Prune.Safety.{ListSelects, Keeps-prune_managed}
use homelab_operator.Controller.Status.Keeps.{
  Keeps-update_device_statuses, Keeps-update_network_statuses,
}
use homelab_operator.Controller.Device.{
  device_based, add_names, desired_names, apply_dhcp_options, apply_dhcp_hosts, apply_dns_hosts,
  apply_each, apply_radius_devices, options_or_mark, prune_all, sync,
}
use homelab_operator.Controller.Device.Established.Steps.{Anywhere, Leads-Anywhere, pruned_apart}

module _ {W : Type 0} (c : Client W) (law : IsLawful c) (cfg : Config)
    (range : (V : Type 0) → Dict V → Dict V) (out : DeviceBasedOutput) (ds : List Device)
    (ns : List Network) where
  -- Each step takes one condition on the cluster to the next.
  pub record Chain (A B C P : W → Type 0) : Type 1 where
    pub options :
        (anchor : ConfigMap)
        → Leads Anywhere
            (options_or_mark c cfg ds ns
              (apply_dhcp_options c cfg cfg.dnsmasq_resources_namespace out.dhcp_options anchor))
            A
    pub leases :
        (anchor : ConfigMap)
        → Leads A
            (apply_each c cfg
              (apply_dhcp_hosts c cfg cfg.dnsmasq_resources_namespace anchor)
              (range DhcpHostsSpec out.dhcp_hosts))
            B
    pub hosts :
        (anchor : ConfigMap)
        → Leads B
            (apply_each c cfg
              (apply_dns_hosts c cfg cfg.dnsmasq_resources_namespace anchor)
              (range DnsHostsSpec out.dns_hosts))
            C
    pub radius : (anchor : ConfigMap) → Leads C (apply_radius_devices c cfg range out anchor) P

  module _ (lists : ListSelects c) (o : Object) where
    -- The prune keeps the object.
    pub record IsKept : Type 0 where
      pub as_lease :
          (same_kind o.gvk dhcp_hosts_gvk ≡ false)
          ⊎ (is_some (get o.name (desired_names out)) ≡ true)
      pub as_host :
          (same_kind o.gvk dns_hosts_gvk ≡ false)
          ⊎ (is_some (get o.name (desired_names out)) ≡ true)
      pub as_radius :
          (same_kind o.gvk free_radius_device_gvk ≡ false)
          ⊎ (is_some (get o.name (add_names (keys out.free_radius) [])) ≡ true)

    pub Keeps-prune_all : IsKept → Keeps (Stored c o) (prune_all c cfg range out)
    unfolding prune_all
    Keeps-prune_all k = Keeps-if cfg.dry_run _ _ (Keeps-pure _) (
        Keeps-bind _ _
          (Keeps-prune_managed c cfg (Stored c o) (desired_names out)
            cfg.dnsmasq_resources_namespace device_based lists []
            (
              pruned_apart c law cfg o _ _ _ _ k.as_lease,
              (pruned_apart c law cfg o _ _ _ _ k.as_host, tt),
            ))
          λ _.
            Keeps-if cfg.enable_free_radius_devices _ _
              (Keeps-prune_managed c cfg (Stored c o) (add_names (keys out.free_radius) [])
                cfg.free_radius_devices_namespace device_based lists (free_radius_device_gvk ∷ [])
                (pruned_apart c law cfg o _ _ _ _ k.as_radius, tt))
              (Keeps-pure _))

    -- A chain that ends with the object stored.
    pub Leads-sync :
        {A B C : W → Type 0}
        → is_external o.gvk ≡ true
        → IsKept
        → Chain A B C (Stored c o)
        → Leads Anywhere (sync c cfg range out ds ns) (Stored c o)
    unfolding sync
    Leads-sync ext k chain = Leads-bind {Q = Anywhere} (Leads-Anywhere _) λ anchor.
        Leads-bind (chain.options anchor) λ plan. Leads-bind (chain.leases anchor) λ leases.
          Leads-bind (chain.hosts anchor) λ hosts. Leads-bind (chain.radius anchor) λ radius.
            Leads-keeps (
              Keeps-bind _ _ (Keeps-prune_all k) λ _.
                Keeps-bind _ _
                  (Keeps-update_device_statuses c cfg (Stored c o)
                    (λ d _. Keeps-Stored c law o _ λ w. law.get-device_status d w _ _ _ ext) ns true
                    [] ds)
                  λ _.
                    Keeps-bind _ _
                      (Keeps-update_network_statuses c cfg (Stored c o)
                        (λ n _. Keeps-Stored c law o _ λ w. law.get-network_status n w _ _ _ ext)
                        true [] ns)
                      λ _. Keeps-pure _)
