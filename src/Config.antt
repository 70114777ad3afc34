-- ===== src/Config.antt =====
-- internal/config: the settings, from the environment (`Load`), from the command line
-- (`BindFlags`, `ApplyCSVFlags`), and the defaults derived from them (`finalize`).
-- `os.LookupEnv` is the argument `env`.
pub mod Strings
pub mod CommaList
pub mod Derive
pub mod Flags
pub mod Override
use homelab_operator.Prelude.{
  Text, Bool, true, false, not, ◌&&◌, ◌||◌, Option, none, some, List, [], ◌∷◌, ◌++◌, ◌==◌, codes,
  is_empty, if◌then◌else◌,
}
use Strings.{trim_space, trim_dot, split, join, contains}

pub record Config : Type 0 where
  pub dry_run : Bool
  pub dnsmasq_resources_namespace : Text
  pub dnsmasq_dns_server : Text
  pub dnsmasq_domain_name : Text
  pub dnsmasq_domain_search : List Text
  pub enable_device_based_hosts : Bool
  pub enable_device_short_name : Bool
  pub device_suffix : Text
  pub enable_free_radius_devices : Bool
  pub free_radius_devices_namespace : Text
  pub free_radius_devices_wireless_only : Bool
  pub enable_ingress_based_dns_hosts : Bool
  pub use_http_routes_for_ingress : Bool
  pub enable_load_balancer_based_dns_hosts : Bool
  pub load_balancer_based_suffix : Text
  pub watch_namespaces : List Text

abbrev pub is_nil {ℓ} : {A : Type ℓ} → List A → Bool
is_nil [] = true
is_nil (x ∷ l) = false

-- The loop of `splitCommaList`, which `Load` repeats for the watched namespaces: the parts, trimmed,
-- without the empty ones.
keep_parts : List Text → List Text
keep_parts [] = []
keep_parts (part ∷ parts) =
    let rest = keep_parts parts in
    let trimmed = trim_space part in if is_empty trimmed then rest else trimmed ∷ rest

unfoldable pub split_comma_list : Text → List Text
unfolding keep_parts
split_comma_list s = if is_empty s then [] else keep_parts (split s)

-- The closure `add` of `deriveDomainSearch`.
add_domain : List Text → Text → List Text
add_domain out raw =
    let d = trim_dot (trim_space raw) in
    if is_empty d then out else (if contains out d then out else out ++ (d ∷ []))

-- The list that `deriveDomainSearch` builds.
unfoldable pub derived_domains : Config → List Text
unfolding add_domain
derived_domains cfg =
    add_domain (add_domain (add_domain [] cfg.dnsmasq_domain_name) cfg.load_balancer_based_suffix)
      cfg.device_suffix

unfoldable pub derive_domain_search : Config → Config
unfolding derived_domains
derive_domain_search cfg =
    if not (is_nil cfg.dnsmasq_domain_search) || is_empty cfg.dnsmasq_domain_name
    then cfg
    else (if is_empty cfg.device_suffix && is_empty cfg.load_balancer_based_suffix
        then cfg
        else record cfg { dnsmasq_domain_search = derived_domains cfg })

default_free_radius : Config → Config
default_free_radius cfg =
    if cfg.enable_free_radius_devices && is_empty cfg.free_radius_devices_namespace
    then record cfg { free_radius_devices_namespace = cfg.dnsmasq_resources_namespace }
    else cfg

unfoldable pub finalize : Config → Config
unfolding derive_domain_search default_free_radius
finalize cfg = derive_domain_search (default_free_radius cfg)

-- `os.Getenv`: an unset variable reads as the empty text.
abbrev os_getenv : (Text → Option Text) → Text → Text
os_getenv env key = elim (env key) [ none ↦ [] | some v ↦ v ]

-- `getenv`
getenv : (Text → Option Text) → Text → Text → Text
getenv env key def = let v = os_getenv env key in if is_empty v then def else v

unfoldable pub env_bool : (Text → Option Text) → Text → Bool → Bool
env_bool env key default_val = elim (env key) [
  | none ↦ default_val
  | some v ↦ not (v == codes "false") && not (v == codes "0")
]

-- `Load` before its call of `finalize`.
unfoldable pub load_raw : (Text → Option Text) → Config
unfolding split_comma_list getenv env_bool
load_raw env = record {
  dry_run = env_bool env (codes "DRY_RUN") false;
  dnsmasq_resources_namespace = getenv env (codes "DNSMASQ_RESOURCES_NAMESPACE") (codes "default");
  dnsmasq_dns_server = os_getenv env (codes "DNSMASQ_DNS_SERVER");
  dnsmasq_domain_name = os_getenv env (codes "DNSMASQ_DOMAIN_NAME");
  dnsmasq_domain_search = split_comma_list (os_getenv env (codes "DNSMASQ_DOMAIN_SEARCH"));
  enable_device_based_hosts = env_bool env (codes "ENABLE_DEVICE_BASED_HOSTS") true;
  enable_device_short_name = env_bool env (codes "ENABLE_DEVICE_SHORT_NAME") true;
  device_suffix = os_getenv env (codes "DEVICE_SUFFIX");
  enable_free_radius_devices = env_bool env (codes "ENABLE_FREERADIUS_DEVICES") false;
  free_radius_devices_namespace = os_getenv env (codes "FREERADIUS_DEVICES_NAMESPACE");
  free_radius_devices_wireless_only = env_bool env (codes "FREERADIUS_DEVICES_WIRELESS_ONLY") true;
  enable_ingress_based_dns_hosts = env_bool env (codes "ENABLE_INGRESS_BASED_DNS_HOSTS") true;
  use_http_routes_for_ingress = env_bool env (codes "USE_HTTP_ROUTES_FOR_INGRESS") true;
  enable_load_balancer_based_dns_hosts =
      env_bool env (codes "ENABLE_LOAD_BALANCER_BASED_DNS_HOSTS") true;
  load_balancer_based_suffix = getenv env (codes "LOAD_BALANCER_BASED_SUFFIX") [];
  watch_namespaces = split_comma_list (os_getenv env (codes "HOMELAB_WATCH_NAMESPACES"));
}

unfoldable pub load : (Text → Option Text) → Config
unfolding finalize load_raw
load env = finalize (load_raw env)
