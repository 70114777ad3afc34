-- ===== src/Controller/Rbac.antt =====
-- The kubebuilder markers of internal/controller, which become the rules of the manager's role, and an
-- API server that refuses a call that no rule grants. Which resource a kind stands for is up to the
-- RESTMapper: it is the parameter `resource_of`.
pub mod Calls
pub mod Device
pub mod Dns
use homelab_operator.Prelude.{
  Text, Bool, true, false, ◌&&◌, ◌||◌, List, [], ◌∷◌, ◌≡◌, ◌==◌, codes, if◌then◌else◌,
}
use homelab_operator.Prelude.Lists.{any}
use homelab_operator.Cluster.{Gvk, Object, Error, Result, ok, err, Client}
use homelab_operator.Dnsmasq.Unstructured.{
  dns_hosts_gvk, dhcp_hosts_gvk, dhcp_options_gvk, free_radius_device_gvk,
}

-- One marker.
pub record Rule : Type 0 where
  pub group : Text
  pub resources : List Text
  pub verbs : List Text

abbrev has : Text → List Text → Bool
has t l = any (λ s. s == t) l

abbrev pub permits : List Rule → Text → Text → Text → Bool
permits rules group resource verb =
    any (λ (r : Rule). r.group == group && (has resource r.resources && has verb r.verbs)) rules

abbrev pub homelab_group : Text
homelab_group = codes "homelab.valdron.ca"

abbrev pub dnsmasq_group : Text
dnsmasq_group = codes "dnsmasq.kvaps.cf"

abbrev read_verbs : List Text
read_verbs = codes "get" ∷ codes "list" ∷ codes "watch" ∷ []

abbrev write_verbs : List Text
write_verbs =
    codes "get"
    ∷ codes "list"
    ∷ codes "watch"
    ∷ codes "create"
    ∷ codes "update"
    ∷ codes "patch"
    ∷ []

abbrev pub all_verbs : List Text
all_verbs =
    codes "get"
    ∷ codes "list"
    ∷ codes "watch"
    ∷ codes "create"
    ∷ codes "update"
    ∷ codes "patch"
    ∷ codes "delete"
    ∷ []

abbrev status_verbs : List Text
status_verbs = codes "get" ∷ codes "update" ∷ codes "patch" ∷ []

abbrev rule : Text → List Text → List Text → Rule
rule group resources verbs = record { group = group; resources = resources; verbs = verbs }

-- The markers of DeviceReconciler.
unfoldable pub device_rules : List Rule
device_rules =
    rule homelab_group (codes "devices" ∷ [])
      (codes "get" ∷ codes "list" ∷ codes "watch" ∷ codes "update" ∷ codes "patch" ∷ [])
    ∷ rule homelab_group (codes "devices/status" ∷ []) status_verbs
    ∷ rule homelab_group (codes "networks" ∷ []) read_verbs
    ∷ rule homelab_group (codes "networks/status" ∷ []) status_verbs
    ∷ rule dnsmasq_group (codes "dnshosts" ∷ codes "dhcphosts" ∷ codes "dhcpoptions" ∷ []) all_verbs
    ∷ rule (codes "freeradius.valdron.ca") (codes "devices" ∷ []) all_verbs
    ∷ rule [] (codes "configmaps" ∷ []) write_verbs
    ∷ rule (codes "coordination.k8s.io") (codes "leases" ∷ []) all_verbs
    ∷ []

-- The markers of IngressDNSReconciler.
unfoldable pub ingress_rules : List Rule
ingress_rules =
    rule homelab_group (codes "ingressrouters" ∷ []) read_verbs
    ∷ rule homelab_group (codes "ingressrouters/status" ∷ []) status_verbs
    ∷ rule (codes "networking.k8s.io") (codes "ingresses" ∷ []) read_verbs
    ∷ rule (codes "gateway.networking.k8s.io") (codes "httproutes" ∷ []) read_verbs
    ∷ rule dnsmasq_group (codes "dnshosts" ∷ []) all_verbs
    ∷ rule [] (codes "configmaps" ∷ []) write_verbs
    ∷ []

-- The markers of LoadBalancerDNSReconciler.
unfoldable pub load_balancer_rules : List Rule
load_balancer_rules =
    rule [] (codes "services" ∷ []) read_verbs
    ∷ rule dnsmasq_group (codes "dnshosts" ∷ []) all_verbs
    ∷ rule [] (codes "configmaps" ∷ []) write_verbs
    ∷ []

-- The resources of the kinds that the operator writes, as their definitions name them.
pub record MapsKinds (resource_of : Gvk → Text) : Type 0 where
  pub dns_hosts : resource_of dns_hosts_gvk ≡ codes "dnshosts"
  pub dhcp_hosts : resource_of dhcp_hosts_gvk ≡ codes "dhcphosts"
  pub dhcp_options : resource_of dhcp_options_gvk ≡ codes "dhcpoptions"
  pub free_radius_devices : resource_of free_radius_device_gvk ≡ codes "devices"

module _ {W : Type 0} (c : Client W) (resource_of : Gvk → Text) (rules : List Rule)
    (forbidden : Error) where
  abbrev pub grants : Gvk → Text → Bool
  grants gvk verb = permits rules gvk.group (resource_of gvk) verb

  -- Typed objects, which ConfigMaps are, are read from a cache, which lists and watches.
  abbrev caches : Text → Text → Bool
  caches group resource =
      permits rules group resource (codes "list") && permits rules group resource (codes "watch")

  -- `CreateOrUpdate` reads, and then creates or updates.
  abbrev upserts : Text → Text → Bool
  upserts group resource =
      permits rules group resource (codes "get")
      && (permits rules group resource (codes "create")
          && permits rules group resource (codes "update"))

  abbrev pub checked : {A : Type 0} → Bool → Result A → Result A
  checked granted r = if granted then r else err forbidden

  abbrev pub checked_write : {A : Type 0} → Bool → W → Result A × W → Result A × W
  checked_write granted w r = if granted then r else (err forbidden, w)

  -- The API server with the rules: a call that they do not grant fails and changes nothing.
  abbrev pub guarded : Client W
  guarded = record c {
    get = λ w gvk ns name. checked (grants gvk (codes "get")) (c.get w gvk ns name);
    list_managed = λ w gvk ns aggregate.
        checked (grants gvk (codes "list")) (c.list_managed w gvk ns aggregate);
    list_devices = λ w ns. checked (caches homelab_group (codes "devices")) (c.list_devices w ns);
    list_networks =
        λ w ns. checked (caches homelab_group (codes "networks")) (c.list_networks w ns);
    list_routers = λ w. checked (caches homelab_group (codes "ingressrouters")) (c.list_routers w);
    list_ingresses =
        λ w. checked (caches (codes "networking.k8s.io") (codes "ingresses")) (c.list_ingresses w);
    list_http_routes = λ w.
        checked
          (permits rules (codes "gateway.networking.k8s.io") (codes "httproutes") (codes "list"))
          (c.list_http_routes w);
    list_services = λ w. checked (caches [] (codes "services")) (c.list_services w);
    create_or_update = λ o f w.
        checked_write (upserts o.gvk.group (resource_of o.gvk)) w (c.create_or_update o f w);
    create_or_update_config_map = λ cm f w.
        checked_write (caches [] (codes "configmaps") && upserts [] (codes "configmaps")) w
          (c.create_or_update_config_map cm f w);
    delete = λ o w. checked_write (grants o.gvk (codes "delete")) w (c.delete o w);
    update_device_status = λ d w.
        checked_write (permits rules homelab_group (codes "devices/status") (codes "update")) w
          (c.update_device_status d w);
    update_network_status = λ n w.
        checked_write (permits rules homelab_group (codes "networks/status") (codes "update")) w
          (c.update_network_status n w);
    update_router_status = λ r w.
        checked_write (permits rules homelab_group (codes "ingressrouters/status") (codes "update"))
          w (c.update_router_status r w);
  }

  -- What the operator does to the objects of a kind is granted.
  pub record IsGranted (gvk : Gvk) : Type 0 where
    pub get : grants gvk (codes "get") ≡ true
    pub list : grants gvk (codes "list") ≡ true
    pub create : grants gvk (codes "create") ≡ true
    pub update : grants gvk (codes "update") ≡ true
    pub delete : grants gvk (codes "delete") ≡ true
