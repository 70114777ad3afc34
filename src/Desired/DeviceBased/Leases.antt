-- ===== src/Desired/DeviceBased/Leases.antt =====
-- The DHCP hosts of a network, against a direct description, as for the DNS hosts.
use mathlib.Core.List.{append_assoc}
use homelab_operator.Prelude.{
  Text, Bool, not, ◌&&◌, Option, none, some, ◌≡◌, refl, ap, fun_ext, ◌∙◌, inl, inr, Bool-cases,
  Option-cases, List, [], ◌∷◌, ◌++◌, map, ◌==◌, eq_iff, is_empty, if◌then◌else◌, arith,
}
use homelab_operator.Prelude.Lists.{keep}
use homelab_operator.Prelude.Dict.{Dict, get, get-put}
use homelab_operator.Prelude.Keys.{is_some}
use homelab_operator.Prelude.Sort.{sort_func}
use homelab_operator.Api.{Device, Network}
use homelab_operator.Config.{Config}
use homelab_operator.Dnsmasq.{DhcpHostEntry, DhcpHostsSpec}
use homelab_operator.Dnsmasq.Netip.{Addr}
use homelab_operator.Desired.DeviceBased.{
  DeviceBasedOutput, device_based_network_name, by_device_name, by_network_name, net_by_name,
  dhcp_entry, append_dhcp, add_device, add_devices, initial_output, build_device_based,
}
use homelab_operator.Desired.DeviceBased.Names.{
  device_based_network_name_inj, is_attached, is_some-get-net_by_name,
}
use homelab_operator.Desired.DeviceBased.Hosts.{of_network}

-- The spec after more entries are appended; no entry makes no spec.
abbrev dhcp_after : Option DhcpHostsSpec → List DhcpHostEntry → Option DhcpHostsSpec
dhcp_after o [] = o
dhcp_after none (e ∷ es) = some (record { controller = []; hosts = e ∷ es })
dhcp_after (some s) (e ∷ es) = some (record s { hosts = s.hosts ++ (e ∷ es) })

dhcp_after-cons :
    (o : Option DhcpHostsSpec) (e : DhcpHostEntry) (es : List DhcpHostEntry)
    → dhcp_after (dhcp_after o (e ∷ [])) es ≡ dhcp_after o (e ∷ es)
dhcp_after-cons none e [] = refl
dhcp_after-cons none e (f ∷ fs) = refl
dhcp_after-cons (some s) e [] = refl
dhcp_after-cons (some s) e (f ∷ fs) =
    ap (λ (l : List DhcpHostEntry). some (record s { hosts = l }))
      (append_assoc s.hosts (e ∷ []) (f ∷ fs))

get-append_dhcp :
    (k j : Text) (e : DhcpHostEntry) (m : Dict DhcpHostsSpec)
    → get j (append_dhcp k e m) ≡ (if k == j then dhcp_after (get k m) (e ∷ []) else get j m)
unfolding append_dhcp
get-append_dhcp k j e m = elim (Option-cases (get k m)) [
  | inl h ↦ rw (h, append_dhcp) (get-put k j (record { controller = []; hosts = e ∷ [] }) m)
  | inr (s, h) ↦ rw (h, append_dhcp) (get-put k j (record s { hosts = s.hosts ++ (e ∷ []) }) m)
]

-- The device has a host entry of its own among the DHCP hosts of network `n`.
abbrev in_dhcp : Dict Network → Text → Device → Bool
in_dhcp nets n d =
    not (is_empty d.spec.network)
    && is_some (get d.spec.network nets)
    && d.spec.network == n
    && d.spec.dhcp

get-dhcp-add_device :
    (cfg : Config) (nets : Dict Network) (n : Text) (d : Device) (out : DeviceBasedOutput)
    → get (device_based_network_name n) (add_device cfg nets d out).dhcp_hosts ≡ (
        if in_dhcp nets n d
        then dhcp_after (get (device_based_network_name n) out.dhcp_hosts) (dhcp_entry d ∷ [])
        else get (device_based_network_name n) out.dhcp_hosts)
unfolding add_device
get-dhcp-add_device cfg nets n d out = ground (
  arith,
  eq_iff d.spec.network n,
  device_based_network_name_inj d.spec.network n,
  get-append_dhcp (device_based_network_name d.spec.network) (device_based_network_name n)
      (dhcp_entry d) out.dhcp_hosts,
)

get-dhcp-add_devices :
    (cfg : Config) (nets : Dict Network) (n : Text) (ds : List Device) (out : DeviceBasedOutput)
    → get (device_based_network_name n) (add_devices cfg nets ds out).dhcp_hosts
      ≡ dhcp_after
          (get (device_based_network_name n) out.dhcp_hosts)
          (map dhcp_entry (keep (in_dhcp nets n) ds))
unfolding add_devices
get-dhcp-add_devices cfg nets n [] out = refl
get-dhcp-add_devices cfg nets n (d ∷ ds) out =
    get-dhcp-add_devices cfg nets n ds (add_device cfg nets d out)
    ∙ elim (Bool-cases (in_dhcp nets n d)) [
      | inl h ↦ rw (get-dhcp-add_device cfg nets n d out, h) (dhcp_after-cons _ _ _)
      | inr h ↦ rw (get-dhcp-add_device cfg nets n d out, h)
    ]

-- One entry and more make a spec; none makes no object.
abbrev pub dhcp_spec : List DhcpHostEntry → Option DhcpHostsSpec
dhcp_spec [] = none
dhcp_spec (e ∷ es) = some (record { controller = []; hosts = e ∷ es })

abbrev pub has_dhcp : Device → Bool
has_dhcp d = d.spec.dhcp

in_dhcp-net_by_name :
    (networks : List Network) (n : Text)
    → in_dhcp (net_by_name (sort_func by_network_name networks) []) n
      ≡ (λ d. is_attached networks d && d.spec.network == n && has_dhcp d)
in_dhcp-net_by_name networks n =
    fun_ext λ d. ground (arith, is_some-get-net_by_name d.spec.network networks)

dhcp_after-none : (es : List DhcpHostEntry) → dhcp_after none es ≡ dhcp_spec es
dhcp_after-none [] = refl
dhcp_after-none (e ∷ es) = refl

-- The DHCP object of network `n` holds one entry for each device that is attached to `n` and asks
-- for DHCP, in the order of the device names; with no such device it is not there.
pub get-dhcp_hosts :
    (v6 : Text → Option Addr) (devices : List Device) (networks : List Network) (cfg : Config)
    (n : Text)
    → get (device_based_network_name n) (build_device_based v6 devices networks cfg).dhcp_hosts
      ≡ dhcp_spec (map dhcp_entry (of_network networks n has_dhcp devices))
unfolding build_device_based get
get-dhcp_hosts v6 devices networks cfg n =
    let ns = sort_func by_network_name networks in
    let ds = sort_func by_device_name devices in
    get-dhcp-add_devices cfg (net_by_name ns []) n ds (initial_output cfg ns)
    ∙ dhcp_after-none _
    ∙ ap (λ p. dhcp_spec (map dhcp_entry (keep p ds))) (in_dhcp-net_by_name networks n)
