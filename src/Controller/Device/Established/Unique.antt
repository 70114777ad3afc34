-- ===== src/Controller/Device/Established/Unique.antt =====
-- Two wanted objects under one key are wanted with one spec.
use homelab_operator.Prelude.{Text, true, some, ◌≡◌, refl, sym, ◌==◌, eq_iff, arith}
use homelab_operator.Prelude.Dict.{Dict, get}
use homelab_operator.Config.{Config}
use homelab_operator.Cluster.{Object}
use homelab_operator.Cluster.Laws.{is_at}
use homelab_operator.Dnsmasq.Unstructured.{
  new_object, new_dns_hosts, new_dhcp_hosts, new_dhcp_options,
}
use homelab_operator.Desired.DeviceBased.{DeviceBasedOutput}
use homelab_operator.Controller.Device.{free_radius_object}
use homelab_operator.Controller.Device.Established.Objects.{Wanted, options, lease, host, radius}

same_value :
    {V : Type 0} (m : Dict V) (k j : Text) (u v : V)
    → (k == j) ≡ true
    → get k m ≡ some u
    → get j m ≡ some v
    → v ≡ u
same_value m k j u v e p q = cc ((eq_iff k j).0 e, p, q)

pub same_object :
    (cfg : Config) (out : DeviceBasedOutput) (o o' : Object)
    → Wanted cfg out o
    → Wanted cfg out o'
    → is_at o.gvk o.namespace o.name o' ≡ true
    → o' ≡ o
unfolding new_dhcp_options new_dhcp_hosts new_dns_hosts free_radius_object new_object ◌==◌
same_object cfg out o o' options options e = refl
same_object cfg out o o' (lease k spec p) (lease j spec' q) e =
    let d : (k == j) ≡ true = ground (arith, e) in
    rw (sym ((eq_iff k j).0 d), same_value out.dhcp_hosts k j spec spec' d p q) refl
same_object cfg out o o' (host k spec p) (host j spec' q) e =
    let d : (k == j) ≡ true = ground (arith, e) in
    rw (sym ((eq_iff k j).0 d), same_value out.dns_hosts k j spec spec' d p q) refl
same_object cfg out o o' (radius k spec p on) (radius j spec' q on') e =
    let d : (k == j) ≡ true = ground (arith, e) in
    rw (sym ((eq_iff k j).0 d), same_value out.free_radius k j spec spec' d p q) refl
same_object cfg out o o' options (lease j spec' q) e = absurd (cc)
same_object cfg out o o' options (host j spec' q) e = absurd (cc)
same_object cfg out o o' options (radius j spec' q on') e = absurd (cc)
same_object cfg out o o' (lease k spec p) options e = absurd (cc)
same_object cfg out o o' (lease k spec p) (host j spec' q) e = absurd (cc)
same_object cfg out o o' (lease k spec p) (radius j spec' q on') e = absurd (cc)
same_object cfg out o o' (host k spec p) options e = absurd (cc)
same_object cfg out o o' (host k spec p) (lease j spec' q) e = absurd (cc)
same_object cfg out o o' (host k spec p) (radius j spec' q on') e = absurd (cc)
same_object cfg out o o' (radius k spec p on) options e = absurd (cc)
same_object cfg out o o' (radius k spec p on) (lease j spec' q) e = absurd (cc)
same_object cfg out o o' (radius k spec p on) (host j spec' q) e = absurd (cc)
