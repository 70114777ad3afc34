-- ===== src/Desired/DeviceBased/Options.antt =====
-- The DHCP options of the output, against a table of what each network contributes.
use mathlib.Core.List.{append_assoc, append-nil, flat_map}
use homelab_operator.Prelude.{
  Text, not, ◌&&◌, Option, ◌≡◌, refl, ap, ◌∙◌, sym, List, [], ◌∷◌, ◌++◌, is_empty, if◌then◌else◌,
  codes, arith,
}
use homelab_operator.Prelude.Lists.{keep}
use homelab_operator.Prelude.Dict.{Dict}
use homelab_operator.Prelude.Sort.{sort_func}
use homelab_operator.Api.{Device, Network}
use homelab_operator.Config.{Config, is_nil}
use homelab_operator.Dnsmasq.{DhcpOption, DhcpOptionsSpec}
use homelab_operator.Dnsmasq.Netip.{Addr}
use homelab_operator.Desired.DeviceBased.{
  DeviceBasedOutput, by_device_name, by_network_name, net_by_name, add_device, add_devices,
  global_options, dns_server_option, router_option, add_network_options, network_options,
  initial_output, build_device_based,
}

abbrev pub named : Text → List Text → List Text → DhcpOption
named key values tags = record { key = key; values = values; tags = tags }

-- The value, or none where it is empty.
abbrev pub present : Text → List Text
present t = if is_empty t then [] else t ∷ []

-- The options that have a value.
abbrev pub valued : List DhcpOption → List DhcpOption
valued l = keep (λ (o : DhcpOption). not (is_nil o.values)) l

-- The domain name and the search list of the settings, as far as they are set, for all networks.
abbrev pub settings_options : Config → List DhcpOption
settings_options cfg = valued (
    named (codes "option:domain-name") (present cfg.dnsmasq_domain_name) []
    ∷ named (codes "option:domain-search") cfg.dnsmasq_domain_search []
    ∷ [])

-- The DNS server that a network announces: its own, or else that of the settings.
abbrev pub announced_server : Config → Network → Text
announced_server cfg n =
    if is_empty n.spec.dns_server then cfg.dnsmasq_dns_server else n.spec.dns_server

-- What one network contributes, under its name as the tag: nothing unless it serves DHCP and has a
-- router.
abbrev pub options_of : Config → Network → List DhcpOption
options_of cfg n =
    if n.spec.serve_dhcp && not (is_empty n.spec.router)
    then valued (
        named (codes "option:dns-server") (present (announced_server cfg n)) (n.name ∷ [])
        ∷ named (codes "option:router") (n.spec.router ∷ []) (n.name ∷ [])
        ∷ [])
    else []

global_options_lem : (cfg : Config) → global_options cfg ≡ settings_options cfg
unfolding global_options
global_options_lem cfg = ground arith

add_network_options_lem :
    (cfg : Config) (opts : List DhcpOption) (n : Network)
    → add_network_options cfg opts n ≡ opts ++ options_of cfg n
unfolding add_network_options
add_network_options_lem cfg opts n = ground (
  arith,
  append-nil opts,
  append_assoc opts (dns_server_option n.spec.dns_server n.name ∷ [])
      (router_option n.spec.router n.name ∷ []),
  append_assoc opts (dns_server_option cfg.dnsmasq_dns_server n.name ∷ [])
      (router_option n.spec.router n.name ∷ []),
)

network_options_lem :
    (cfg : Config) (opts : List DhcpOption) (ns : List Network)
    → network_options cfg opts ns ≡ opts ++ flat_map (options_of cfg) ns
unfolding network_options flat_map
network_options_lem cfg opts [] = sym (append-nil opts)
network_options_lem cfg opts (n ∷ ns) =
    network_options_lem cfg (add_network_options cfg opts n) ns
    ∙ ap (λ l. l ++ flat_map (options_of cfg) ns) (add_network_options_lem cfg opts n)
    ∙ append_assoc opts (options_of cfg n) (flat_map (options_of cfg) ns)

options-add_device :
    (cfg : Config) (nets : Dict Network) (d : Device) (out : DeviceBasedOutput)
    → (add_device cfg nets d out).dhcp_options ≡ out.dhcp_options
unfolding add_device
options-add_device cfg nets d out = ground arith

options-add_devices :
    (cfg : Config) (nets : Dict Network) (ds : List Device) (out : DeviceBasedOutput)
    → (add_devices cfg nets ds out).dhcp_options ≡ out.dhcp_options
unfolding add_devices
options-add_devices cfg nets [] out = refl
options-add_devices cfg nets (d ∷ ds) out =
    options-add_devices cfg nets ds (add_device cfg nets d out) ∙ options-add_device cfg nets d out

-- The options are the domain name and the search list of the settings, where they are set, and then,
-- network by network in the order of the names and under the network's name as the tag, the DNS server,
-- where the network or the settings have one, and the router of each network that serves DHCP and has
-- a router. No device changes them.
pub options-build_device_based :
    (v6 : Text → Option Addr) (devices : List Device) (networks : List Network) (cfg : Config)
    → (build_device_based v6 devices networks cfg).dhcp_options.options
      ≡ settings_options cfg ++ flat_map (options_of cfg) (sort_func by_network_name networks)
unfolding build_device_based
options-build_device_based v6 devices networks cfg =
    let ns = sort_func by_network_name networks in
    ap (λ (s : DhcpOptionsSpec). s.options)
      (options-add_devices cfg (net_by_name ns []) (sort_func by_device_name devices)
        (initial_output cfg ns))
    ∙ network_options_lem cfg (global_options cfg) ns
    ∙ ap (λ l. l ++ flat_map (options_of cfg) ns) (global_options_lem cfg)
