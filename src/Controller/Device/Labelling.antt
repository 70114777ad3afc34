-- ===== src/Controller/Device/Labelling.antt =====
-- The network label of an object, and the names that the prune keeps.
use homelab_operator.Prelude.{Text, ◌||◌, ◌≡◌, refl, List, [], ◌∷◌, ◌==◌, arith}
use homelab_operator.Prelude.Lists.{any}
use homelab_operator.Prelude.Dict.{get, put, keys, get-put}
use homelab_operator.Prelude.Keys.{is_some, any-keys}
use homelab_operator.Controller.Prune.{NameSet}
use homelab_operator.Desired.DeviceBased.{
  DeviceBasedOutput, dhcp_options_name, device_based_network_name,
}
use homelab_operator.Controller.Device.{network_from_resource_name, add_names, desired_names}

-- The label of an object that is named after a network names that network.
pub network_from_resource_name-device_based :
    (n : Text) → network_from_resource_name (device_based_network_name n) ≡ n
unfolding network_from_resource_name device_based_network_name ◌==◌
network_from_resource_name-device_based [] = refl
network_from_resource_name-device_based (x ∷ n) = ground arith

pub get-add_names :
    (k : Text) (ks : List Text) (s : NameSet)
    → is_some (get k (add_names ks s)) ≡ (any (λ j. j == k) ks || is_some (get k s))
unfolding add_names
get-add_names k [] s = refl
get-add_names k (j ∷ ks) s = ground (arith, get-add_names k ks (put j tt s), get-put j k tt s)

-- The prune keeps the name of the DHCP options, and every name of a DHCP or of a DNS hosts object:
-- one set of names for both kinds.
pub is_some-desired_names :
    (k : Text) (out : DeviceBasedOutput)
    → is_some (get k (desired_names out))
      ≡ (is_some (get k out.dns_hosts) || is_some (get k out.dhcp_hosts) || dhcp_options_name == k)
unfolding desired_names get
is_some-desired_names k out = ground (
  arith,
  any-keys k out.dns_hosts,
  any-keys k out.dhcp_hosts,
  get-add_names k (keys out.dns_hosts)
      (add_names (keys out.dhcp_hosts) (put dhcp_options_name tt [])),
  get-add_names k (keys out.dhcp_hosts) (put dhcp_options_name tt []),
  get-put {V = Unit {0}} dhcp_options_name k tt [],
)
