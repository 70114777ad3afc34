-- ===== src/Dnsmasq/Unstructured.antt =====
-- internal/dnsmasq/gvk.go and unstructured.go: specs as unstructured objects. `json.Marshal` followed
-- by `json.Unmarshal` is the value that the struct tags describe: a field with `omitempty` is left
-- out where it is empty.
use homelab_operator.Prelude.{Text, some, List, [], ◌∷◌, codes, is_empty, if◌then◌else◌}
use homelab_operator.Cluster.{Gvk, str, arr, obj, Items, nil, cons, Fields, end, field, Object}
use homelab_operator.Dnsmasq.{
  DnsHostEntry, DnsHostsSpec, DhcpHostEntry, DhcpHostsSpec, DhcpOption, DhcpOptionsSpec,
}

abbrev dnsmasq_gvk : Text → Gvk
dnsmasq_gvk kind = record {
  group = codes "dnsmasq.kvaps.cf";
  version = codes "v1beta1";
  kind = kind;
}

abbrev pub dns_hosts_gvk : Gvk
dns_hosts_gvk = dnsmasq_gvk (codes "DnsHosts")

abbrev pub dhcp_hosts_gvk : Gvk
dhcp_hosts_gvk = dnsmasq_gvk (codes "DhcpHosts")

abbrev pub dhcp_options_gvk : Gvk
dhcp_options_gvk = dnsmasq_gvk (codes "DhcpOptions")

abbrev pub free_radius_device_gvk : Gvk
free_radius_device_gvk = record {
  group = codes "freeradius.valdron.ca";
  version = codes "v1";
  kind = codes "Device";
}

unfoldable pub text_items : List Text → Items
text_items [] = nil
text_items (x ∷ l) = cons (str x) (text_items l)

-- A text with `omitempty`, before the other fields.
unfoldable pub text_field : Text → Text → Fields → Fields
text_field key value rest = if is_empty value then rest else field key (str value) rest

-- A list with `omitempty`.
unfoldable pub items_field : Text → Items → Fields → Fields
items_field key nil rest = rest
items_field key (cons v vs) rest = field key (arr (cons v vs)) rest

unfoldable pub dns_items : List DnsHostEntry → Items
dns_items [] = nil
dns_items (e ∷ es) =
    cons
      (obj (
        field (codes "ip") (str e.ip)
          (items_field (codes "hostnames") (text_items e.hostnames) end)))
      (dns_items es)

unfoldable pub dhcp_items : List DhcpHostEntry → Items
dhcp_items [] = nil
dhcp_items (e ∷ es) =
    cons
      (obj (
        items_field (codes "macs") (text_items e.macs) (
          text_field (codes "ip") e.ip (
            text_field (codes "hostname") e.hostname (
              items_field (codes "setTags") (text_items e.set_tags)
                (text_field (codes "leaseTime") e.lease_time end))))))
      (dhcp_items es)

unfoldable pub option_items : List DhcpOption → Items
option_items [] = nil
option_items (o ∷ os) =
    cons
      (obj (
        field (codes "key") (str o.key) (
          field (codes "values") (arr (text_items o.values))
            (items_field (codes "tags") (text_items o.tags) end))))
      (option_items os)

unfoldable pub new_object : Gvk → Text → Text → Fields → Object
new_object gvk name namespace spec = record {
  gvk = gvk;
  namespace = namespace;
  name = name;
  labels = [];
  owners = [];
  spec = some (obj spec);
}

unfoldable pub new_dns_hosts : Text → Text → DnsHostsSpec → Object
unfolding new_object dns_items text_items text_field items_field
new_dns_hosts name namespace spec = new_object dns_hosts_gvk name namespace (
    text_field (codes "controller") spec.controller
      (items_field (codes "hosts") (dns_items spec.hosts) end))

unfoldable pub new_dhcp_hosts : Text → Text → DhcpHostsSpec → Object
unfolding new_object dhcp_items text_items text_field items_field
new_dhcp_hosts name namespace spec = new_object dhcp_hosts_gvk name namespace (
    text_field (codes "controller") spec.controller
      (items_field (codes "hosts") (dhcp_items spec.hosts) end))

unfoldable pub new_dhcp_options : Text → Text → DhcpOptionsSpec → Object
unfolding new_object option_items text_items text_field items_field
new_dhcp_options name namespace spec = new_object dhcp_options_gvk name namespace (
    text_field (codes "controller") spec.controller
      (items_field (codes "options") (option_items spec.options) end))
