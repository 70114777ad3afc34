-- ===== src/Desired/DeviceBased/FreeRadius.antt =====
-- The FreeRADIUS devices of the output.
use mathlib.Core.List.{Mem}
use homelab_operator.Prelude.{
  Text, Bool, true, false, not, ◌&&◌, Option, none, some, ◌≡◌, refl, ap, ◌∙◌, List, [], ◌∷◌, eq_iff,
  eq_refl, is_empty, if◌then◌else◌, arith,
}
use homelab_operator.Prelude.Dict.{Dict, get, put}
use homelab_operator.Prelude.Lookup.{
  put_all, put_some, has_key, get-put_all, any_of_mem, any_of_unique,
}
use homelab_operator.Prelude.Sort.{sort_func, mem-sort_func}
use homelab_operator.Api.{Device, Network}
use homelab_operator.Config.{Config}
use homelab_operator.Dnsmasq.Netip.{Addr}
use homelab_operator.Desired.DeviceBased.{
  DeviceBasedOutput, FreeRadiusSpec, by_device_name, by_network_name, net_by_name, add_device,
  add_devices, free_radius_device_spec, initial_output, build_device_based,
}
use homelab_operator.Desired.DeviceBased.Order.{DeviceNamesDiffer, NetworkNamesDiffer}

abbrev by_name : Network → Option (Text × Network)
by_name n = some (n.name, n)

net_by_name-put_all :
    (ns : List Network) (m : Dict Network) → net_by_name ns m ≡ put_all by_name ns m
unfolding net_by_name put_all
net_by_name-put_all [] m = refl
net_by_name-put_all (n ∷ ns) m = net_by_name-put_all ns (put n.name n m)

-- `netByName` finds each network under its name.
pub get-net_by_name :
    (networks : List Network) (n : Network)
    → Mem n networks
    → NetworkNamesDiffer networks
    → get n.name (net_by_name (sort_func by_network_name networks) []) ≡ some n
get-net_by_name networks n m differ =
    let sorted = sort_func by_network_name networks in
    ap (get n.name) (net_by_name-put_all sorted [])
    ∙ get-put_all by_name n.name n sorted []
        (λ x k w e. found x w e (differ x n ((mem-sort_func by_network_name x networks).0 k) m))
    ∙ rw (
        any_of_mem (λ x. has_key by_name n.name (by_name x)) n sorted
          ((mem-sort_func by_network_name n networks).1 m) (eq_refl n.name))
  where
    found : (x w : Network) → by_name x ≡ some (n.name, w) → (x.name ≡ n.name → x ≡ n) → w ≡ n
    found x w e h = cc (h (cc))

-- Whether the settings let the device have a FreeRADIUS object.
abbrev pub is_radius : Config → Device → Bool
is_radius cfg d =
    cfg.enable_free_radius_devices
    && not (cfg.free_radius_devices_wireless_only && not d.spec.wireless)

-- The MAC addresses of the device and the VLAN of its network.
abbrev pub radius_spec : Device → Network → FreeRadiusSpec
radius_spec d n = record { mac_addresses = d.spec.mac_addresses; vlan = n.spec.vlan }

abbrev radius_item : Config → Dict Network → Device → Option (Text × FreeRadiusSpec)
radius_item cfg nets d = if is_empty d.spec.network then none else elim (get d.spec.network nets) [
  | none ↦ none
  | some n ↦ if is_radius cfg d then some (d.name, radius_spec d n) else none
]

radius-add_device :
    (cfg : Config) (nets : Dict Network) (d : Device) (out : DeviceBasedOutput)
    → (add_device cfg nets d out).free_radius ≡ put_some (radius_item cfg nets d) out.free_radius
unfolding add_device put_some free_radius_device_spec
radius-add_device cfg nets d out = ground arith

radius-add_devices :
    (cfg : Config) (nets : Dict Network) (ds : List Device) (out : DeviceBasedOutput)
    → (add_devices cfg nets ds out).free_radius ≡ put_all (radius_item cfg nets) ds out.free_radius
unfolding add_devices put_all
radius-add_devices cfg nets [] out = refl
radius-add_devices cfg nets (d ∷ ds) out =
    radius-add_devices cfg nets ds (add_device cfg nets d out)
    ∙ ap (put_all (radius_item cfg nets) ds) (radius-add_device cfg nets d out)

module _ (cfg : Config) (nets : Dict Network) (d : Device) (n : Network)
    (named : is_empty d.spec.network ≡ false) (there : get d.spec.network nets ≡ some n) where
  radius_item_known :
      radius_item cfg nets d ≡ (if is_radius cfg d then some (d.name, radius_spec d n) else none)
  radius_item_known = rw (named, there)

  radius_item_spec :
      (x : Device) (w : FreeRadiusSpec)
      → x ≡ d
      → radius_item cfg nets x ≡ some (d.name, w)
      → w ≡ radius_spec d n
  radius_item_spec x w e h = ground (arith, ap (radius_item cfg nets) e, radius_item_known)

item_name :
    (cfg : Config) (nets : Dict Network) (x : Device) (k : Text)
    → has_key (radius_item cfg nets) k (radius_item cfg nets x) ≡ true
    → x.name ≡ k
item_name cfg nets x k h = ground (arith, eq_iff x.name k)

-- A device that is attached to the network `n` has a FreeRADIUS object, with its MAC addresses and
-- the VLAN of `n`, exactly when the settings let it have one; the names of the devices, and those of
-- the networks, are supposed to differ.
pub get-free_radius :
    (v6 : Text → Option Addr) (devices : List Device) (networks : List Network) (cfg : Config)
    (d : Device) (n : Network)
    → Mem d devices
    → Mem n networks
    → DeviceNamesDiffer devices
    → NetworkNamesDiffer networks
    → d.spec.network ≡ n.name
    → is_empty d.spec.network ≡ false
    → get d.name (build_device_based v6 devices networks cfg).free_radius
      ≡ (if is_radius cfg d then some (radius_spec d n) else none)
unfolding build_device_based get
get-free_radius v6 devices networks cfg d n md mn dd dn e named =
    let ns = sort_func by_network_name networks in
    let ds = sort_func by_device_name devices in
    let nets = net_by_name ns [] in
    let there : get d.spec.network nets ≡ some n =
      ap (λ k. get k nets) e ∙ get-net_by_name networks n mn dn in
    let item = radius_item cfg nets in
    let same =
      λ (x : Device) (k : Mem x ds). dd x d ((mem-sort_func by_device_name x devices).0 k) md in
    ap (get d.name) (radius-add_devices cfg nets ds (initial_output cfg ns))
    ∙ get-put_all item d.name (radius_spec d n) ds [] (λ x k w h.
      radius_item_spec cfg nets d n named there x w
        (same x k (item_name cfg nets x d.name (ground (arith, eq_refl d.name)))) h)
    ∙ rw
        (any_of_unique (λ x. has_key item d.name (item x)) d ds
          ((mem-sort_func by_device_name d devices).1 md)
          (λ x k h. same x k (item_name cfg nets x d.name h)))
        (ground (arith, radius_item_known cfg nets d n named there, eq_refl d.name))
