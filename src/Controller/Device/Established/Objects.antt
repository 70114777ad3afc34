-- ===== src/Controller/Device/Established/Objects.antt =====
-- The objects that the desired state of the devices asks for, and what the prune makes of them.
use homelab_operator.Prelude.{Text, true, some, ◌≡◌, refl, ap, inl, inr, List, [], ◌==◌, arith}
use homelab_operator.Prelude.Dict.{Dict, get, keys}
use homelab_operator.Prelude.Keys.{is_some, any-keys}
use homelab_operator.Api.{Device, Network}
use homelab_operator.Config.{Config}
use homelab_operator.Cluster.{Client, Object}
use homelab_operator.Cluster.Laws.{HasSpec, IsLawful, is_external}
use homelab_operator.Dnsmasq.{DhcpHostsSpec, DnsHostsSpec}
use homelab_operator.Dnsmasq.Unstructured.{
  new_object, new_dns_hosts, new_dhcp_hosts, new_dhcp_options,
}
use homelab_operator.Desired.DeviceBased.{FreeRadiusSpec, DeviceBasedOutput, dhcp_options_name}
use homelab_operator.Controller.Prune.Safety.{ListSelects}
use homelab_operator.Controller.Device.{add_names, free_radius_object}
use homelab_operator.Controller.Device.Labelling.{get-add_names, is_some-desired_names}
use homelab_operator.Controller.Device.Established.Sync.{IsKept}

-- The objects that the desired state asks for.
pub data Wanted (cfg : Config) (out : DeviceBasedOutput) : Object → Type 0 where
  options :
      Wanted cfg out
        (new_dhcp_options dhcp_options_name cfg.dnsmasq_resources_namespace out.dhcp_options)
  lease :
      (k : Text) (spec : DhcpHostsSpec)
      → get k out.dhcp_hosts ≡ some spec
      → Wanted cfg out (new_dhcp_hosts k cfg.dnsmasq_resources_namespace spec)
  host :
      (k : Text) (spec : DnsHostsSpec)
      → get k out.dns_hosts ≡ some spec
      → Wanted cfg out (new_dns_hosts k cfg.dnsmasq_resources_namespace spec)
  radius :
      (k : Text) (spec : FreeRadiusSpec)
      → get k out.free_radius ≡ some spec
      → cfg.enable_free_radius_devices ≡ true
      → Wanted cfg out (free_radius_object cfg.free_radius_devices_namespace k spec)

module _ (cfg : Config) (out : DeviceBasedOutput) where
  pub HasSpec-Wanted : (o : Object) → Wanted cfg out o → HasSpec o
  unfolding new_dhcp_options new_dhcp_hosts new_dns_hosts free_radius_object new_object
  HasSpec-Wanted o options = (_, refl)
  HasSpec-Wanted o (lease k spec e) = (_, refl)
  HasSpec-Wanted o (host k spec e) = (_, refl)
  HasSpec-Wanted o (radius k spec e on) = (_, refl)

  pub is_external-Wanted : (o : Object) → Wanted cfg out o → is_external o.gvk ≡ true
  unfolding new_dhcp_options new_dhcp_hosts new_dns_hosts free_radius_object new_object ◌==◌
  is_external-Wanted o options = refl
  is_external-Wanted o (lease k spec e) = refl
  is_external-Wanted o (host k spec e) = refl
  is_external-Wanted o (radius k spec e on) = refl

  is_some-add_names :
      {V : Type 0} (k : Text) (v : V) (m : Dict V)
      → get k m ≡ some v
      → is_some (get k (add_names (keys m) [])) ≡ true
  is_some-add_names k v m e =
      ground (arith, get-add_names k (keys m) [], any-keys k m, ap is_some e)

  pub IsKept-Wanted :
      {W : Type 0} (c : Client W) (law : IsLawful c) (range : (V : Type 0) → Dict V → Dict V)
      → (ds : List Device) (ns : List Network) (lists : ListSelects c) (o : Object)
      → Wanted cfg out o
      → IsKept c law cfg range out ds ns lists o
  unfolding new_dhcp_options new_dhcp_hosts new_dns_hosts free_radius_object new_object ◌==◌
  IsKept-Wanted c law range ds ns lists o options = record {
    as_lease = inl refl;
    as_host = inl refl;
    as_radius = inl refl;
  }
  IsKept-Wanted c law range ds ns lists o (lease k spec e) = record {
    as_lease = inr (ground (arith, is_some-desired_names k out, ap is_some e));
    as_host = inl refl;
    as_radius = inl refl;
  }
  IsKept-Wanted c law range ds ns lists o (host k spec e) = record {
    as_lease = inl refl;
    as_host = inr (ground (arith, is_some-desired_names k out, ap is_some e));
    as_radius = inl refl;
  }
  IsKept-Wanted c law range ds ns lists o (radius k spec e on) = record {
    as_lease = inl refl;
    as_host = inl refl;
    as_radius = inr (is_some-add_names k spec _ e);
  }
