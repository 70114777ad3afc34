-- ===== src/Dnsmasq/Parse.antt =====
-- internal/dnsmasq/unstructured.go: the Parse functions. `json.Unmarshal` of what `json.Marshal`
-- made of the map is the reading of the map by the struct tags: a field that is absent or null keeps
-- its zero value, and one of another type is an error, which is the parameter `mismatch`. Keys are
-- compared as they are written, and a value that comes with an error is not looked at.
pub mod RoundTrip
use homelab_operator.Prelude.{Text, Option, none, some, List, [], ◌∷◌, codes}
use homelab_operator.Cluster.{
  Json, null, bool, int, str, arr, obj, Items, nil, cons, Fields, end, lookup_field, Object, Error,
  Result, ok, err, Client,
}
use homelab_operator.Dnsmasq.{
  DnsHostEntry, DnsHostsSpec, DhcpHostEntry, DhcpHostsSpec, DhcpOption, DhcpOptionsSpec,
}

module _ {A B : Type 0} where
  infixl 5 ◌>>=◌
  abbrev ◌>>=◌ : Option A → (A → Option B) → Option B
  none >>= f = none
  some a >>= f = f a

-- A field of type `string`.
abbrev pub as_text : Option Json → Option Text
as_text none = some []
as_text (some null) = some []
as_text (some (str s)) = some s
as_text (some _) = none

unfoldable pub read_texts : Items → Option (List Text)
read_texts nil = some []
read_texts (cons v vs) = do s ← as_text (some v); l ← read_texts vs; some (s ∷ l)

-- A field of type `[]string`.
abbrev pub as_texts : Option Json → Option (List Text)
as_texts none = some []
as_texts (some null) = some []
as_texts (some (arr vs)) = read_texts vs
as_texts (some _) = none

module _ {E : Type 0} (read : Fields → Option E) where
  -- A struct; null leaves the zero value.
  abbrev as_struct : Json → Option E
  as_struct null = read end
  as_struct (obj fs) = read fs
  as_struct _ = none

  unfoldable pub read_structs : Items → Option (List E)
  read_structs nil = some []
  read_structs (cons v vs) = do e ← as_struct v; l ← read_structs vs; some (e ∷ l)

  -- A field whose type is a slice of structs.
  abbrev pub as_structs : Option Json → Option (List E)
  as_structs none = some []
  as_structs (some null) = some []
  as_structs (some (arr vs)) = read_structs vs
  as_structs (some _) = none

unfoldable pub read_dns_entry : Fields → Option DnsHostEntry
read_dns_entry fs = do
  ip ← as_text (lookup_field (codes "ip") fs)
  hostnames ← as_texts (lookup_field (codes "hostnames") fs)
  some (record { ip = ip; hostnames = hostnames })

unfoldable pub read_dhcp_entry : Fields → Option DhcpHostEntry
read_dhcp_entry fs = do
  macs ← as_texts (lookup_field (codes "macs") fs)
  ip ← as_text (lookup_field (codes "ip") fs)
  hostname ← as_text (lookup_field (codes "hostname") fs)
  set_tags ← as_texts (lookup_field (codes "setTags") fs)
  lease_time ← as_text (lookup_field (codes "leaseTime") fs)
  some (record {
    macs = macs;
    ip = ip;
    hostname = hostname;
    set_tags = set_tags;
    lease_time = lease_time;
  })

unfoldable pub read_option : Fields → Option DhcpOption
read_option fs = do
  key ← as_text (lookup_field (codes "key") fs)
  values ← as_texts (lookup_field (codes "values") fs)
  tags ← as_texts (lookup_field (codes "tags") fs)
  some (record { key = key; values = values; tags = tags })

unfoldable pub read_dns_hosts : Fields → Option DnsHostsSpec
read_dns_hosts fs = do
  controller ← as_text (lookup_field (codes "controller") fs)
  hosts ← as_structs read_dns_entry (lookup_field (codes "hosts") fs)
  some (record { controller = controller; hosts = hosts })

unfoldable pub read_dhcp_hosts : Fields → Option DhcpHostsSpec
read_dhcp_hosts fs = do
  controller ← as_text (lookup_field (codes "controller") fs)
  hosts ← as_structs read_dhcp_entry (lookup_field (codes "hosts") fs)
  some (record { controller = controller; hosts = hosts })

unfoldable pub read_dhcp_options : Fields → Option DhcpOptionsSpec
read_dhcp_options fs = do
  controller ← as_text (lookup_field (codes "controller") fs)
  options ← as_structs read_option (lookup_field (codes "options") fs)
  some (record { controller = controller; options = options })

module _ {W : Type 0} (c : Client W) (mismatch : Error) where
  -- The zero value of a spec stands for `read end`.
  unfoldable pub parse_spec : {T : Type 0} → (Fields → Option T) → T → Object → Result T
  parse_spec read zero_value u = elim (c.nested_map u) [
    | err e ↦ err e
    | ok none ↦ ok zero_value
    | ok (some (obj m)) ↦ elim (read m) [ none ↦ err mismatch | some out ↦ ok out ]
    | ok (some _) ↦ err mismatch
  ]

  unfoldable pub parse_dns_hosts_spec : Object → Result DnsHostsSpec
  parse_dns_hosts_spec = parse_spec read_dns_hosts (record { controller = []; hosts = [] })

  unfoldable pub parse_dhcp_hosts_spec : Object → Result DhcpHostsSpec
  parse_dhcp_hosts_spec = parse_spec read_dhcp_hosts (record { controller = []; hosts = [] })

  unfoldable pub parse_dhcp_options_spec : Object → Result DhcpOptionsSpec
  parse_dhcp_options_spec = parse_spec read_dhcp_options (record { controller = []; options = [] })
