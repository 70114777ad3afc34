-- ===== src/Controller/Device.antt =====
-- internal/controller/device_controller.go: the reconciler of devices and networks.
-- `range` is the order in which Go runs over a map, which is not specified; `v6` parses IPv6 texts.
pub mod Keeps
pub mod DryRun
pub mod Errors
pub mod Established
pub mod Foreign
pub mod Labelling
pub mod Succeeds
pub mod Steady
use homelab_operator.Prelude.{
  Text, Bool, true, false, ◌&&◌, Option, none, some, List, [], ◌∷◌, ◌++◌, ◌==◌, codes, is_empty,
  ltb, not, if◌then◌else◌,
}
use homelab_operator.Prelude.Lists.{length, take, drop}
use homelab_operator.Prelude.Sort.{sort_func}
use homelab_operator.Prelude.Dict.{Dict, put, keys}
use homelab_operator.Api.{Device, Network}
use homelab_operator.Config.{Config}
use homelab_operator.Labels.{managed}
use homelab_operator.Cluster.{
  Client, Object, ConfigMap, Error, Result, ok, err, Json, arr, int, obj, end, field,
}
use homelab_operator.Cluster.Exec.{Exec, pure, raise, reads, ◌>>=◌, ◌>>◌}
use homelab_operator.Ensure.{ApplyPlan, plan_unstructured, apply, apply_unstructured}
use homelab_operator.Dnsmasq.{DhcpHostsSpec, DhcpOptionsSpec, DnsHostsSpec}
use homelab_operator.Dnsmasq.Netip.{Addr}
use homelab_operator.Dnsmasq.Unstructured.{
  new_object, new_dns_hosts, new_dhcp_hosts, new_dhcp_options, text_items, free_radius_device_gvk,
}
use homelab_operator.Desired.DeviceBased.{
  FreeRadiusSpec, DeviceBasedOutput, dhcp_options_name, by_device_name, by_network_name,
  build_device_based,
}
use homelab_operator.Controller.Status.{update_device_statuses, update_network_statuses}
use homelab_operator.Controller.Prune.{NameSet, prune_managed}

abbrev pub device_aggregate_name : Text
device_aggregate_name = codes "homelab-operator-anchor-device-based"

abbrev pub device_based : Text
device_based = codes "device-based"

abbrev network_prefix : Text
network_prefix = codes "device-based-"

unfoldable pub network_from_resource_name : Text → Text
network_from_resource_name name =
    if ltb (length network_prefix) (length name)
      && take (length network_prefix) name == network_prefix
    then drop (length network_prefix) name
    else []

abbrev anchor_data : Dict Text
anchor_data = (codes "purpose", codes "homelab-operator anchor") ∷ []

-- The function that `ensureAnchor` hands to `Apply`.
abbrev label_anchor : Dict Text → ConfigMap → ConfigMap
label_anchor lbl cm = record cm {
  labels = lbl;
  contents = elim cm.contents [ none ↦ some anchor_data | some d ↦ some d ];
}

-- `for name := range m { set[name] = struct{}{} }`
unfoldable pub add_names : List Text → NameSet → NameSet
add_names [] s = s
add_names (k ∷ ks) s = add_names ks (put k tt s)

-- The names that the prune of DHCP and DNS hosts keeps.
unfoldable pub desired_names : DeviceBasedOutput → NameSet
unfolding add_names
desired_names out =
    add_names (keys out.dns_hosts) (add_names (keys out.dhcp_hosts) (put dhcp_options_name tt []))

unfoldable pub free_radius_object : Text → Text → FreeRadiusSpec → Object
free_radius_object namespace name spec = new_object free_radius_device_gvk name namespace (
    field (codes "macAddresses") (arr (text_items spec.mac_addresses))
      (field (codes "vlan") (int spec.vlan) end))

module _ {W : Type 0} (c : Client W) (cfg : Config) where
  unfoldable pub ensure_anchor : Text → Text → Dict Text → Exec W ConfigMap
  ensure_anchor namespace name lbl =
      let cm : ConfigMap = record {
        namespace = namespace;
        name = name;
        labels = lbl;
        contents = some anchor_data;
      } in
      if cfg.dry_run then pure cm else apply c cm false (label_anchor lbl)

  unfoldable pub plan_and_apply : Object → Dict Text → ConfigMap → Exec W ApplyPlan
  plan_and_apply object lbl owner = do
    plan ← reads (plan_unstructured c object)
    if cfg.dry_run then pure tt else apply_unstructured c object false lbl owner
    pure plan

  unfoldable pub apply_dhcp_options : Text → DhcpOptionsSpec → ConfigMap → Exec W ApplyPlan
  apply_dhcp_options namespace spec owner =
      plan_and_apply (new_dhcp_options dhcp_options_name namespace spec) (managed device_based [])
        owner

  unfoldable pub apply_dhcp_hosts : Text → ConfigMap → Text → DhcpHostsSpec → Exec W ApplyPlan
  apply_dhcp_hosts namespace owner name spec =
      plan_and_apply (new_dhcp_hosts name namespace spec)
        (managed device_based (network_from_resource_name name)) owner

  unfoldable pub apply_dns_hosts : Text → ConfigMap → Text → DnsHostsSpec → Exec W ApplyPlan
  apply_dns_hosts namespace owner name spec =
      plan_and_apply (new_dns_hosts name namespace spec)
        (managed device_based (network_from_resource_name name)) owner

  unfoldable pub apply_free_radius : Text → ConfigMap → Text → FreeRadiusSpec → Exec W ApplyPlan
  apply_free_radius namespace owner name spec =
      plan_and_apply (free_radius_object namespace name spec) (managed device_based []) owner

  -- A loop over the objects of one kind; the first error ends it.
  unfoldable pub apply_each :
      {V : Type 0} → (Text → V → Exec W ApplyPlan) → Dict V → Exec W (List ApplyPlan)
  apply_each f [] = pure []
  apply_each f ((name, spec) ∷ m) = do
    plan ← f name spec
    plans ← apply_each f m
    pure (plan ∷ plans)

  -- The error branch of the DHCP options: the devices are marked, and the error is returned.
  unfoldable pub on_options_error : List Device → List Network → Result ApplyPlan → Exec W ApplyPlan
  on_options_error devices networks (ok plan) = pure plan
  on_options_error devices networks (err e) =
      update_device_statuses c cfg networks false (c.error_text e) devices >> raise e

  unfoldable pub options_or_mark : List Device → List Network → Exec W ApplyPlan → Exec W ApplyPlan
  unfolding on_options_error
  options_or_mark devices networks m w = let (r, w') = m w in on_options_error devices networks r w'

  -- The owner of the FreeRADIUS objects: an anchor of their own namespace, where that is another.
  unfoldable pub free_radius_owner : ConfigMap → Exec W ConfigMap
  free_radius_owner anchor =
      if cfg.free_radius_devices_namespace == cfg.dnsmasq_resources_namespace
      then pure anchor
      else ensure_anchor cfg.free_radius_devices_namespace device_aggregate_name
          (managed device_based [])

  module _ (range : (V : Type 0) → Dict V → Dict V) where
    unfoldable pub apply_radius_devices : DeviceBasedOutput → ConfigMap → Exec W (List ApplyPlan)
    apply_radius_devices out anchor =
        if cfg.enable_free_radius_devices
        then (do
          owner ← free_radius_owner anchor
          apply_each (apply_free_radius cfg.free_radius_devices_namespace owner)
              (range FreeRadiusSpec out.free_radius))
        else pure []

    unfoldable pub prune_all : DeviceBasedOutput → Exec W (Unit {0})
    prune_all out =
        if cfg.dry_run
        then pure tt
        else (prune_managed c cfg cfg.dnsmasq_resources_namespace device_based (desired_names out)
              []
            >> (if cfg.enable_free_radius_devices
                then prune_managed c cfg cfg.free_radius_devices_namespace device_based
                    (add_names (keys out.free_radius) []) (free_radius_device_gvk ∷ [])
                else pure tt))

    -- What follows the lists: the objects, the prune and the statuses. The value is the list of
    -- plans that goes to the log.
    unfoldable pub sync : DeviceBasedOutput → List Device → List Network → Exec W (List ApplyPlan)
    unfolding apply_radius_devices free_radius_owner
    sync out devices networks = do
      anchor ←
          ensure_anchor cfg.dnsmasq_resources_namespace device_aggregate_name
            (managed device_based [])
      plan ←
          options_or_mark devices networks
            (apply_dhcp_options cfg.dnsmasq_resources_namespace out.dhcp_options anchor)
      leases ←
          apply_each (apply_dhcp_hosts cfg.dnsmasq_resources_namespace anchor)
            (range DhcpHostsSpec out.dhcp_hosts)
      hosts ←
          apply_each (apply_dns_hosts cfg.dnsmasq_resources_namespace anchor)
            (range DnsHostsSpec out.dns_hosts)
      radius ← apply_radius_devices out anchor
      prune_all out
      update_device_statuses c cfg networks true [] devices
      update_network_statuses c cfg true [] networks
      pure (plan ∷ (leases ++ (hosts ++ radius)))

    -- `BuildDeviceBased` sorts the two lists in place, so what follows sees them sorted.
    unfoldable pub reconcile_namespace : (Text → Option Addr) → Text → Exec W (List ApplyPlan)
    reconcile_namespace v6 ns = do
      devices ← reads (λ w. c.list_devices w ns)
      networks ← reads (λ w. c.list_networks w ns)
      sync (build_device_based v6 devices networks cfg) (sort_func by_device_name devices)
          (sort_func by_network_name networks)
