-- ===== src/Desired/DeviceBased/Hosts.antt =====
-- The DNS and DHCP hosts of a network, against a direct description: the devices that name the
-- network, in the order of their names.
use mathlib.Core.List.{append_assoc}
use mathlib.Core.Option
use homelab_operator.Prelude.{
  Text, Bool, not, ◌&&◌, Option, none, some, ◌≡◌, refl, ap, fun_ext, ◌∙◌, inl, inr, Bool-cases,
  Option-cases, List, [], ◌∷◌, ◌++◌, map, ◌==◌, eq_iff, is_empty, if◌then◌else◌, arith,
}
use homelab_operator.Prelude.Lists.{keep}
use homelab_operator.Prelude.Dict.{Dict, get, get-put}
use homelab_operator.Prelude.Keys.{is_some}
use homelab_operator.Prelude.Sort.{sort_func}
use homelab_operator.Api.{Device, Network}
use homelab_operator.Config.{Config}
use homelab_operator.Dnsmasq.{DnsHostEntry, DnsHostsSpec, normalize_dns_hosts}
use homelab_operator.Dnsmasq.Netip.{Addr}
use homelab_operator.Desired.DeviceBased.{
  DeviceBasedOutput, device_based_network_name, by_device_name, by_network_name, net_by_name,
  dns_entry, append_dns, add_device, add_devices, normalize_all, initial_output, build_device_based,
}
use homelab_operator.Desired.DeviceBased.Names.{
  device_based_network_name_inj, is_attached, is_some-get-net_by_name,
}

-- The spec after more entries are appended; no entry makes no spec.
abbrev dns_after : Option DnsHostsSpec → List DnsHostEntry → Option DnsHostsSpec
dns_after o [] = o
dns_after none (e ∷ es) = some (record { controller = []; hosts = e ∷ es })
dns_after (some s) (e ∷ es) = some (record s { hosts = s.hosts ++ (e ∷ es) })

dns_after-cons :
    (o : Option DnsHostsSpec) (e : DnsHostEntry) (es : List DnsHostEntry)
    → dns_after (dns_after o (e ∷ [])) es ≡ dns_after o (e ∷ es)
dns_after-cons none e [] = refl
dns_after-cons none e (f ∷ fs) = refl
dns_after-cons (some s) e [] = refl
dns_after-cons (some s) e (f ∷ fs) =
    ap (λ (l : List DnsHostEntry). some (record s { hosts = l }))
      (append_assoc s.hosts (e ∷ []) (f ∷ fs))

get-append_dns :
    (k j : Text) (e : DnsHostEntry) (m : Dict DnsHostsSpec)
    → get j (append_dns k e m) ≡ (if k == j then dns_after (get k m) (e ∷ []) else get j m)
unfolding append_dns
get-append_dns k j e m = elim (Option-cases (get k m)) [
  | inl h ↦ rw (h, append_dns) (get-put k j (record { controller = []; hosts = e ∷ [] }) m)
  | inr (s, h) ↦ rw (h, append_dns) (get-put k j (record s { hosts = s.hosts ++ (e ∷ []) }) m)
]

-- The device has a host entry of its own among the DNS hosts of network `n`.
abbrev in_dns : Dict Network → Text → Device → Bool
in_dns nets n d =
    not (is_empty d.spec.network)
    && is_some (get d.spec.network nets)
    && d.spec.network == n
    && not (is_empty d.spec.ip)

get-dns-add_device :
    (cfg : Config) (nets : Dict Network) (n : Text) (d : Device) (out : DeviceBasedOutput)
    → get (device_based_network_name n) (add_device cfg nets d out).dns_hosts ≡ (
        if in_dns nets n d
        then dns_after (get (device_based_network_name n) out.dns_hosts) (dns_entry cfg d ∷ [])
        else get (device_based_network_name n) out.dns_hosts)
unfolding add_device
get-dns-add_device cfg nets n d out = ground (
  arith,
  eq_iff d.spec.network n,
  device_based_network_name_inj d.spec.network n,
  get-append_dns (device_based_network_name d.spec.network) (device_based_network_name n)
      (dns_entry cfg d) out.dns_hosts,
)

get-dns-add_devices :
    (cfg : Config) (nets : Dict Network) (n : Text) (ds : List Device) (out : DeviceBasedOutput)
    → get (device_based_network_name n) (add_devices cfg nets ds out).dns_hosts
      ≡ dns_after
          (get (device_based_network_name n) out.dns_hosts)
          (map (dns_entry cfg) (keep (in_dns nets n) ds))
unfolding add_devices
get-dns-add_devices cfg nets n [] out = refl
get-dns-add_devices cfg nets n (d ∷ ds) out =
    get-dns-add_devices cfg nets n ds (add_device cfg nets d out)
    ∙ elim (Bool-cases (in_dns nets n d)) [
      | inl h ↦ rw (get-dns-add_device cfg nets n d out, h) (dns_after-cons _ _ _)
      | inr h ↦ rw (get-dns-add_device cfg nets n d out, h)
    ]

get-normalize_all :
    (v6 : Text → Option Addr) (k : Text) (m : Dict DnsHostsSpec)
    → get k (normalize_all v6 m) ≡ Option.map (normalize_dns_hosts v6) (get k m)
unfolding get normalize_all
get-normalize_all v6 k [] = refl
get-normalize_all v6 k ((j, s) ∷ m) = ground (arith, get-normalize_all v6 k m)

-- Of the devices in the order of their names, those that are attached to network `n` and pass `p`.
abbrev pub of_network : List Network → Text → (Device → Bool) → List Device → List Device
of_network networks n p devices =
    keep (λ d. is_attached networks d && d.spec.network == n && p d)
      (sort_func by_device_name devices)

-- One entry and more make a spec; none makes no object.
abbrev pub dns_spec : List DnsHostEntry → Option DnsHostsSpec
dns_spec [] = none
dns_spec (e ∷ es) = some (record { controller = []; hosts = e ∷ es })

abbrev pub has_ip : Device → Bool
has_ip d = not (is_empty d.spec.ip)

in_dns-net_by_name :
    (networks : List Network) (n : Text)
    → in_dns (net_by_name (sort_func by_network_name networks) []) n
      ≡ (λ d. is_attached networks d && d.spec.network == n && has_ip d)
in_dns-net_by_name networks n =
    fun_ext λ d. ground (arith, is_some-get-net_by_name d.spec.network networks)

dns_after-none : (es : List DnsHostEntry) → dns_after none es ≡ dns_spec es
dns_after-none [] = refl
dns_after-none (e ∷ es) = refl

-- The DNS object of network `n` holds, in normal form, one entry for each device that is attached
-- to `n` and has an address, in the order of the device names; with no such device it is not there.
pub get-dns_hosts :
    (v6 : Text → Option Addr) (devices : List Device) (networks : List Network) (cfg : Config)
    (n : Text)
    → get (device_based_network_name n) (build_device_based v6 devices networks cfg).dns_hosts
      ≡ Option.map
          (normalize_dns_hosts v6)
          (dns_spec (map (dns_entry cfg) (of_network networks n has_ip devices)))
unfolding build_device_based get
get-dns_hosts v6 devices networks cfg n =
    let ns = sort_func by_network_name networks in
    let ds = sort_func by_device_name devices in
    let key = device_based_network_name n in
    get-normalize_all v6 key _
    ∙ ap (Option.map (normalize_dns_hosts v6)) (
        get-dns-add_devices cfg (net_by_name ns []) n ds (initial_output cfg ns)
        ∙ dns_after-none _
        ∙ ap (λ p. dns_spec (map (dns_entry cfg) (keep p ds))) (in_dns-net_by_name networks n))
