-- ===== src/Desired/DeviceBased.antt =====
-- internal/desired/devicebased.go: DHCP and DNS objects of each network, and FreeRADIUS devices,
-- from the devices and the networks of one namespace.
pub mod Names
pub mod Keys
pub mod Order
pub mod Hosts
pub mod Leases
pub mod Options
pub mod FreeRadius
use homelab_operator.Prelude.{
  ℤ, Text, Bool, not, ◌&&◌, ◌||◌, Option, none, some, List, [], ◌∷◌, ◌++◌, Ordering, codes, compare,
  is_empty, if◌then◌else◌,
}
use homelab_operator.Prelude.Sort.{compare_on, sort_func}
use homelab_operator.Prelude.Dict.{Dict, get, put}
use homelab_operator.Api.{Device, Network}
use homelab_operator.Config.{Config, is_nil}
use homelab_operator.Dnsmasq.{
  DnsHostEntry, DnsHostsSpec, DhcpHostEntry, DhcpHostsSpec, DhcpOption, DhcpOptionsSpec,
  dhcp_lease_time_infinite, normalize_dns_hosts,
}
use homelab_operator.Dnsmasq.Netip.{Addr}

abbrev pub dhcp_options_name : Text
dhcp_options_name = codes "device-based-hosts"

unfoldable pub device_based_network_name : Text → Text
device_based_network_name network = codes "device-based-" ++ network

-- The spec map of a FreeRADIUS device.
pub record FreeRadiusSpec : Type 0 where
  pub mac_addresses : List Text
  pub vlan : ℤ

pub record DeviceBasedOutput : Type 0 where
  pub dhcp_options : DhcpOptionsSpec
  pub dhcp_hosts : Dict DhcpHostsSpec
  pub dns_hosts : Dict DnsHostsSpec
  pub free_radius : Dict FreeRadiusSpec

abbrev pub by_device_name : Device → Device → Ordering
by_device_name = compare_on compare (λ (d : Device). d.name)

abbrev pub by_network_name : Network → Network → Ordering
by_network_name = compare_on compare (λ (n : Network). n.name)

-- The loop that fills `netByName`.
unfoldable pub net_by_name : List Network → Dict Network → Dict Network
net_by_name [] m = m
net_by_name (n ∷ ns) m = net_by_name ns (put n.name n m)

-- The options that stand before those of the networks.
unfoldable pub global_options : Config → List DhcpOption
global_options cfg =
    (if is_empty cfg.dnsmasq_domain_name
      then []
      else record {
        key = codes "option:domain-name";
        values = cfg.dnsmasq_domain_name ∷ [];
        tags = [];
      }
        ∷ [])
    ++ (if is_nil cfg.dnsmasq_domain_search
        then []
        else record {
          key = codes "option:domain-search";
          values = cfg.dnsmasq_domain_search;
          tags = [];
        }
          ∷ [])

abbrev pub dns_server_option : Text → Text → DhcpOption
dns_server_option server tag = record {
  key = codes "option:dns-server";
  values = server ∷ [];
  tags = tag ∷ [];
}

abbrev pub router_option : Text → Text → DhcpOption
router_option router tag = record {
  key = codes "option:router";
  values = router ∷ [];
  tags = tag ∷ [];
}

-- The body of the loop over the networks.
unfoldable pub add_network_options : Config → List DhcpOption → Network → List DhcpOption
add_network_options cfg opts network =
    if not network.spec.serve_dhcp || is_empty network.spec.router
    then opts
    else (if not (is_empty network.spec.dns_server)
        then opts ++ (dns_server_option network.spec.dns_server network.name ∷ [])
        else (if not (is_empty cfg.dnsmasq_dns_server)
            then opts ++ (dns_server_option cfg.dnsmasq_dns_server network.name ∷ [])
            else opts))
      ++ (router_option network.spec.router network.name ∷ [])

unfoldable pub network_options : Config → List DhcpOption → List Network → List DhcpOption
network_options cfg opts [] = opts
network_options cfg opts (n ∷ ns) = network_options cfg (add_network_options cfg opts n) ns

-- The closure `add` of `hostnamesForDevice`.
add_hostname : Config → List Text → Text → List Text
add_hostname cfg names h =
    let short = (if cfg.enable_device_short_name then names ++ (h ∷ []) else names) in
    if is_empty cfg.device_suffix then short else short ++ ((h ++ cfg.device_suffix) ∷ [])

add_hostnames : Config → List Text → List Text → List Text
add_hostnames cfg names [] = names
add_hostnames cfg names (h ∷ hs) = add_hostnames cfg (add_hostname cfg names h) hs

unfoldable pub hostnames_for_device : Device → Config → List Text
unfolding add_hostname add_hostnames
hostnames_for_device device cfg =
    add_hostnames cfg (add_hostname cfg [] device.name) device.spec.additional_hostnames

abbrev pub dns_entry : Config → Device → DnsHostEntry
dns_entry cfg device = record { ip = device.spec.ip; hostnames = hostnames_for_device device cfg }

abbrev pub dhcp_entry : Device → DhcpHostEntry
dhcp_entry device = record {
  macs = device.spec.mac_addresses;
  ip = device.spec.ip;
  hostname = device.name;
  set_tags = device.spec.network ∷ [];
  lease_time = dhcp_lease_time_infinite;
}

-- `append` to the entries under a name, which are made if they are not there.
unfoldable pub append_dns : Text → DnsHostEntry → Dict DnsHostsSpec → Dict DnsHostsSpec
append_dns res_name entry m = elim (get res_name m) [
  | none ↦ put res_name (record { controller = []; hosts = entry ∷ [] }) m
  | some s ↦ put res_name (record s { hosts = s.hosts ++ (entry ∷ []) }) m
]

unfoldable pub append_dhcp : Text → DhcpHostEntry → Dict DhcpHostsSpec → Dict DhcpHostsSpec
append_dhcp res_name entry m = elim (get res_name m) [
  | none ↦ put res_name (record { controller = []; hosts = entry ∷ [] }) m
  | some s ↦ put res_name (record s { hosts = s.hosts ++ (entry ∷ []) }) m
]

unfoldable pub free_radius_device_spec : List Text → ℤ → FreeRadiusSpec
free_radius_device_spec mac_addresses vlan = record { mac_addresses = mac_addresses; vlan = vlan }

-- What the loop body does for a device whose network is there.
add_known : Config → Device → Network → DeviceBasedOutput → DeviceBasedOutput
add_known cfg device network out =
    let res_name = device_based_network_name device.spec.network in
    record out {
      dns_hosts =
          if is_empty device.spec.ip
          then out.dns_hosts
          else append_dns res_name (dns_entry cfg device) out.dns_hosts;
      dhcp_hosts =
          if device.spec.dhcp
          then append_dhcp res_name (dhcp_entry device) out.dhcp_hosts
          else out.dhcp_hosts;
      free_radius =
          if cfg.enable_free_radius_devices
            && not (cfg.free_radius_devices_wireless_only && not device.spec.wireless)
          then put device.name (free_radius_device_spec device.spec.mac_addresses network.spec.vlan)
              out.free_radius
          else out.free_radius;
    }

-- The body of the loop over the devices.
unfoldable pub add_device : Config → Dict Network → Device → DeviceBasedOutput → DeviceBasedOutput
unfolding add_known
add_device cfg nets device out =
    if is_empty device.spec.network then out else elim (get device.spec.network nets) [
      | none ↦ out
      | some network ↦ add_known cfg device network out
    ]

unfoldable pub add_devices :
    Config → Dict Network → List Device → DeviceBasedOutput → DeviceBasedOutput
add_devices cfg nets [] out = out
add_devices cfg nets (d ∷ ds) out = add_devices cfg nets ds (add_device cfg nets d out)

-- The last loop: each value is replaced by its normal form.
unfoldable pub normalize_all : (Text → Option Addr) → Dict DnsHostsSpec → Dict DnsHostsSpec
normalize_all v6 [] = []
normalize_all v6 ((k, s) ∷ m) = (k, normalize_dns_hosts v6 s) ∷ normalize_all v6 m

abbrev pub initial_output : Config → List Network → DeviceBasedOutput
initial_output cfg ns = record {
  dhcp_options = record { controller = []; options = network_options cfg (global_options cfg) ns };
  dhcp_hosts = [];
  dns_hosts = [];
  free_radius = [];
}

unfoldable pub build_device_based :
    (Text → Option Addr) → List Device → List Network → Config → DeviceBasedOutput
build_device_based v6 devices networks cfg =
    let ds = sort_func by_device_name devices in
    let ns = sort_func by_network_name networks in
    let out = add_devices cfg (net_by_name ns []) ds (initial_output cfg ns) in
    record out { dns_hosts = normalize_all v6 out.dns_hosts }
