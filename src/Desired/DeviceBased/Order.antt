-- ===== src/Desired/DeviceBased/Order.antt =====
-- The order in which the API server lists devices and networks does not show in the output.
use mathlib.Core.List.{Mem, Perm}
use homelab_operator.Prelude.{Text, ◌≡◌, Option, List, compare-IsOrder, path_of_compare}
use homelab_operator.Prelude.Sort.{compare_on-IsOrder, sort_func, sort_func-eq_of_perm}
use homelab_operator.Api.{Device, Network}
use homelab_operator.Config.{Config}
use homelab_operator.Dnsmasq.Netip.{Addr}
use homelab_operator.Desired.DeviceBased.{by_device_name, by_network_name, build_device_based}

-- No two devices of the list share a name, as within one namespace.
abbrev pub DeviceNamesDiffer : List Device → Type 0
DeviceNamesDiffer l = (a b : Device) → Mem a l → Mem b l → a.name ≡ b.name → a ≡ b

-- No two networks of the list share a name.
abbrev pub NetworkNamesDiffer : List Network → Type 0
NetworkNamesDiffer l = (a b : Network) → Mem a l → Mem b l → a.name ≡ b.name → a ≡ b

sort_devices :
    {l r : List Device}
    → Perm l r
    → DeviceNamesDiffer l
    → sort_func by_device_name l ≡ sort_func by_device_name r
sort_devices p h =
    sort_func-eq_of_perm (compare_on-IsOrder (λ (d : Device). d.name) compare-IsOrder) p
      λ a b ma mb e. h a b ma mb (path_of_compare a.name b.name e)

sort_networks :
    {l r : List Network}
    → Perm l r
    → NetworkNamesDiffer l
    → sort_func by_network_name l ≡ sort_func by_network_name r
sort_networks p h =
    sort_func-eq_of_perm (compare_on-IsOrder (λ (n : Network). n.name) compare-IsOrder) p
      λ a b ma mb e. h a b ma mb (path_of_compare a.name b.name e)

-- The same devices and networks, listed in any order, give the same objects, if no two devices and
-- no two networks share a name.
pub build_device_based_perm :
    (v6 : Text → Option Addr) (cfg : Config) {devices devices' : List Device}
    {networks networks' : List Network}
    → Perm devices devices'
    → Perm networks networks'
    → DeviceNamesDiffer devices
    → NetworkNamesDiffer networks
    → build_device_based v6 devices networks cfg ≡ build_device_based v6 devices' networks' cfg
unfolding build_device_based
build_device_based_perm v6 cfg pd pn hd hn = rw (sort_devices pd hd, sort_networks pn hn)
