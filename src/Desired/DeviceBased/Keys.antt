-- ===== src/Desired/DeviceBased/Keys.antt =====
-- Each of the three maps of the output has an object once.
use mathlib.Core.List.{Nodup, Nodup-nil}
use homelab_operator.Prelude.{
  Text, Bool, true, false, Option, none, some, ◌≡◌, refl, ap, subst, sym, inl, inr, Option-cases,
  List, [], ◌∷◌, is_empty, if◌then◌else◌,
}
use homelab_operator.Prelude.Dict.{Dict, get, keys}
use homelab_operator.Prelude.Keys.{Nodup-keys-put}
use homelab_operator.Prelude.Sort.{sort_func}
use homelab_operator.Api.{Device, Network}
use homelab_operator.Config.{Config}
use homelab_operator.Dnsmasq.{DnsHostEntry, DnsHostsSpec, DhcpHostEntry, DhcpHostsSpec}
use homelab_operator.Dnsmasq.Netip.{Addr}
use homelab_operator.Desired.DeviceBased.{
  DeviceBasedOutput, net_by_name, append_dns, append_dhcp, add_known, add_device, add_devices,
  normalize_all, initial_output, build_device_based, by_device_name, by_network_name,
}

pub record NodupKeys (out : DeviceBasedOutput) : Type 0 where
  pub dns : Nodup (keys out.dns_hosts)
  pub dhcp : Nodup (keys out.dhcp_hosts)
  pub radius : Nodup (keys out.free_radius)

Nodup-keys-append_dns :
    (k : Text) (e : DnsHostEntry) (m : Dict DnsHostsSpec)
    → Nodup (keys m)
    → Nodup (keys (append_dns k e m))
unfolding append_dns
Nodup-keys-append_dns k e m h = elim (Option-cases (get k m)) [
  | inl n ↦ rw (n, append_dns) (Nodup-keys-put k _ m h)
  | inr (s, n) ↦ rw (n, append_dns) (Nodup-keys-put k _ m h)
]

Nodup-keys-append_dhcp :
    (k : Text) (e : DhcpHostEntry) (m : Dict DhcpHostsSpec)
    → Nodup (keys m)
    → Nodup (keys (append_dhcp k e m))
unfolding append_dhcp
Nodup-keys-append_dhcp k e m h = elim (Option-cases (get k m)) [
  | inl n ↦ rw (n, append_dhcp) (Nodup-keys-put k _ m h)
  | inr (s, n) ↦ rw (n, append_dhcp) (Nodup-keys-put k _ m h)
]

Nodup-if :
    {V : Type 0} (b : Bool) (m n : Dict V)
    → Nodup (keys m)
    → Nodup (keys n)
    → Nodup (keys (if b then m else n))
Nodup-if true m n hm hn = hm
Nodup-if false m n hm hn = hn

add_known-NodupKeys :
    (cfg : Config) (d : Device) (n : Network) (out : DeviceBasedOutput)
    → NodupKeys out
    → NodupKeys (add_known cfg d n out)
unfolding add_known
add_known-NodupKeys cfg d n out h = record {
  dns = Nodup-if _ _ _ h.dns (Nodup-keys-append_dns _ _ _ h.dns);
  dhcp = Nodup-if _ _ _ (Nodup-keys-append_dhcp _ _ _ h.dhcp) h.dhcp;
  radius = Nodup-if _ _ _ (Nodup-keys-put _ _ _ h.radius) h.radius;
}

add_device-NodupKeys :
    (cfg : Config) (nets : Dict Network) (d : Device) (out : DeviceBasedOutput)
    → NodupKeys out
    → NodupKeys (add_device cfg nets d out)
unfolding add_device
add_device-NodupKeys cfg nets d out h = by_network d.spec.network (get d.spec.network nets)
  where
    by_network :
        (name : Text) (o : Option Network)
        → NodupKeys (
            if is_empty name
            then out
            else elim o [ none ↦ out | some network ↦ add_known cfg d network out ])
    by_network [] o = h
    by_network (x ∷ name) none = h
    by_network (x ∷ name) (some n) = add_known-NodupKeys cfg d n out h

add_devices-NodupKeys :
    (cfg : Config) (nets : Dict Network) (ds : List Device) (out : DeviceBasedOutput)
    → NodupKeys out
    → NodupKeys (add_devices cfg nets ds out)
unfolding add_devices
add_devices-NodupKeys cfg nets [] out h = h
add_devices-NodupKeys cfg nets (d ∷ ds) out h =
    add_devices-NodupKeys cfg nets ds _ (add_device-NodupKeys cfg nets d out h)

keys-normalize_all :
    (v6 : Text → Option Addr) (m : Dict DnsHostsSpec) → keys (normalize_all v6 m) ≡ keys m
unfolding normalize_all
keys-normalize_all v6 [] = refl
keys-normalize_all v6 ((k, s) ∷ m) = ap (◌∷◌ k) (keys-normalize_all v6 m)

pub build_device_based-NodupKeys :
    (v6 : Text → Option Addr) (devices : List Device) (networks : List Network) (cfg : Config)
    → NodupKeys (build_device_based v6 devices networks cfg)
unfolding build_device_based
build_device_based-NodupKeys v6 devices networks cfg =
    let ns = sort_func by_network_name networks in
    let h =
      add_devices-NodupKeys cfg (net_by_name ns []) (sort_func by_device_name devices)
        (initial_output cfg ns)
        (record { dns = Nodup-nil; dhcp = Nodup-nil; radius = Nodup-nil }) in
    record {
      dns = subst Nodup (sym (keys-normalize_all v6 _)) h.dns;
      dhcp = h.dhcp;
      radius = h.radius;
    }
