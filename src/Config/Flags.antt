-- ===== src/Config/Flags.antt =====
-- internal/config/flags.go and the call sequence of cmd/main.go: `Load`, `BindFlags`, `flag.Parse`,
-- `ApplyCSVFlags`. `flag.Parse` is a list of settings, the later ones over the earlier ones.
use homelab_operator.Prelude.{Text, Bool, Option, List, [], ◌∷◌}
use homelab_operator.Config.{Config, split_comma_list, finalize, load}
use homelab_operator.Config.Strings.{join}

pub record CsvFlags : Type 0 where
  pub dnsmasq_domain_search : Text
  pub watch_namespaces : Text

-- The values that `BindFlags` returns; the other flags write to the configuration itself.
unfoldable pub bind_flags : Config → CsvFlags
bind_flags cfg = record {
  dnsmasq_domain_search = join cfg.dnsmasq_domain_search;
  watch_namespaces = join cfg.watch_namespaces;
}

-- One flag of the command line: `fs.BoolVar` and `fs.StringVar`.
pub data Flag : Type 0 where
  dry_run : Bool → Flag
  dnsmasq_resources_namespace : Text → Flag
  dnsmasq_dns_server : Text → Flag
  dnsmasq_domain_name : Text → Flag
  dnsmasq_domain_search : Text → Flag
  enable_device_based_hosts : Bool → Flag
  enable_device_short_name : Bool → Flag
  device_suffix : Text → Flag
  enable_free_radius_devices : Bool → Flag
  free_radius_devices_namespace : Text → Flag
  free_radius_devices_wireless_only : Bool → Flag
  enable_ingress_based_dns_hosts : Bool → Flag
  use_http_routes_for_ingress : Bool → Flag
  enable_load_balancer_based_dns_hosts : Bool → Flag
  load_balancer_based_suffix : Text → Flag
  homelab_watch_namespaces : Text → Flag

unfoldable pub set_flag : Flag → Config × CsvFlags → Config × CsvFlags
set_flag (dry_run b) (c, f) = (record c { dry_run = b }, f)
set_flag (dnsmasq_resources_namespace s) (c, f) = (record c { dnsmasq_resources_namespace = s }, f)
set_flag (dnsmasq_dns_server s) (c, f) = (record c { dnsmasq_dns_server = s }, f)
set_flag (dnsmasq_domain_name s) (c, f) = (record c { dnsmasq_domain_name = s }, f)
set_flag (dnsmasq_domain_search s) (c, f) = (c, record f { dnsmasq_domain_search = s })
set_flag (enable_device_based_hosts b) (c, f) = (record c { enable_device_based_hosts = b }, f)
set_flag (enable_device_short_name b) (c, f) = (record c { enable_device_short_name = b }, f)
set_flag (device_suffix s) (c, f) = (record c { device_suffix = s }, f)
set_flag (enable_free_radius_devices b) (c, f) = (record c { enable_free_radius_devices = b }, f)
set_flag (free_radius_devices_namespace s) (c, f) =
    (record c { free_radius_devices_namespace = s }, f)
set_flag (free_radius_devices_wireless_only b) (c, f) =
    (record c { free_radius_devices_wireless_only = b }, f)
set_flag (enable_ingress_based_dns_hosts b) (c, f) =
    (record c { enable_ingress_based_dns_hosts = b }, f)
set_flag (use_http_routes_for_ingress b) (c, f) = (record c { use_http_routes_for_ingress = b }, f)
set_flag (enable_load_balancer_based_dns_hosts b) (c, f) =
    (record c { enable_load_balancer_based_dns_hosts = b }, f)
set_flag (load_balancer_based_suffix s) (c, f) = (record c { load_balancer_based_suffix = s }, f)
set_flag (homelab_watch_namespaces s) (c, f) = (c, record f { watch_namespaces = s })

pub set_flags : List Flag → Config × CsvFlags → Config × CsvFlags
set_flags [] p = p
set_flags (x ∷ l) p = set_flags l (set_flag x p)

unfoldable pub apply_csv_flags : Config → CsvFlags → Config
apply_csv_flags cfg cf = finalize (record cfg {
  dnsmasq_domain_search = split_comma_list cf.dnsmasq_domain_search;
  watch_namespaces = split_comma_list cf.watch_namespaces;
})

-- The configuration with which `main` starts the controllers.
unfoldable pub configure : (Text → Option Text) → List Flag → Config
unfolding set_flags set_flag apply_csv_flags bind_flags
configure env flags =
    let cfg = load env in
    let (cfg', cf) = set_flags flags (cfg, bind_flags cfg) in apply_csv_flags cfg' cf
