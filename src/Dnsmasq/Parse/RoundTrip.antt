-- ===== src/Dnsmasq/Parse/RoundTrip.antt =====
-- What the New functions write, the Parse functions read.
use homelab_operator.Prelude.{
  Text, false, Option, none, some, ◌≡◌, refl, ap, ◌∙◌, List, [], ◌∷◌, ◌==◌, eq_refl, codes,
}
use homelab_operator.Cluster.{
  str, arr, obj, Items, nil, cons, Fields, end, field, lookup_field, Object, Error, ok, Client,
}
use homelab_operator.Dnsmasq.{
  DnsHostEntry, DnsHostsSpec, DhcpHostEntry, DhcpHostsSpec, DhcpOption, DhcpOptionsSpec,
}
use homelab_operator.Dnsmasq.Unstructured.{
  text_items, text_field, items_field, dns_items, dhcp_items, option_items, new_object,
  new_dns_hosts, new_dhcp_hosts, new_dhcp_options,
}
use homelab_operator.Dnsmasq.Parse.{
  as_text, as_texts, as_structs, read_texts, read_structs, read_dns_entry, read_dhcp_entry,
  read_option, read_dns_hosts, read_dhcp_hosts, read_dhcp_options, parse_spec, parse_dns_hosts_spec,
  parse_dhcp_hosts_spec, parse_dhcp_options_spec,
}

-- A field is not looked for under another key.
skip_text :
    (k key v : Text) (rest : Fields)
    → (key == k) ≡ false
    → lookup_field k (text_field key v rest) ≡ lookup_field k rest
unfolding lookup_field text_field
skip_text k key [] rest d = refl
skip_text k key (x ∷ v) rest d = rw d refl

hit_text :
    (key v : Text) (rest : Fields)
    → lookup_field key rest ≡ none
    → as_text (lookup_field key (text_field key v rest)) ≡ some v
unfolding lookup_field text_field
hit_text key [] rest d = ap as_text d
hit_text key (x ∷ v) rest d = rw (eq_refl key) refl

read_texts-text_items : (l : List Text) → read_texts (text_items l) ≡ some l
unfolding read_texts text_items
read_texts-text_items [] = refl
read_texts-text_items (x ∷ l) = rw (read_texts-text_items l) refl

skip_items :
    (k key : Text) (vs : Items) (rest : Fields)
    → (key == k) ≡ false
    → lookup_field k (items_field key vs rest) ≡ lookup_field k rest
unfolding lookup_field items_field
skip_items k key nil rest d = refl
skip_items k key (cons v vs) rest d = rw d refl

hit_texts :
    (key : Text) (l : List Text) (rest : Fields)
    → lookup_field key rest ≡ none
    → as_texts (lookup_field key (items_field key (text_items l) rest)) ≡ some l
unfolding lookup_field items_field text_items
hit_texts key [] rest d = ap as_texts d
hit_texts key (x ∷ l) rest d = rw (eq_refl key) (read_texts-text_items (x ∷ l))

hit_structs :
    {E : Type 0} (read : Fields → Option E) (key : Text) (vs : Items) (l : List E) (rest : Fields)
    → lookup_field key rest ≡ none
    → read_structs read vs ≡ some l
    → as_structs read (lookup_field key (items_field key vs rest)) ≡ some l
unfolding lookup_field items_field read_structs
hit_structs read key nil l rest d e = ap (as_structs read) d ∙ e
hit_structs read key (cons v vs) l rest d e = rw (eq_refl key) e

-- The entries.
read_dns_entry-lem :
    (e : DnsHostEntry)
    → read_dns_entry (
        field
          (codes "ip")
          (str e.ip)
          (items_field (codes "hostnames") (text_items e.hostnames) end))
      ≡ some e
unfolding read_dns_entry lookup_field ◌==◌
read_dns_entry-lem e = rw (hit_texts (codes "hostnames") e.hostnames end refl) refl

read_structs-dns_items :
    (es : List DnsHostEntry) → read_structs read_dns_entry (dns_items es) ≡ some es
unfolding read_structs dns_items
read_structs-dns_items [] = refl
read_structs-dns_items (e ∷ es) = rw (read_dns_entry-lem e, read_structs-dns_items es) refl

read_option-lem :
    (o : DhcpOption)
    → read_option (
        field (codes "key") (str o.key) (
          field
            (codes "values")
            (arr (text_items o.values))
            (items_field (codes "tags") (text_items o.tags) end)))
      ≡ some o
unfolding read_option lookup_field ◌==◌
read_option-lem o =
    rw (read_texts-text_items o.values, hit_texts (codes "tags") o.tags end refl) refl

read_structs-option_items :
    (os : List DhcpOption) → read_structs read_option (option_items os) ≡ some os
unfolding read_structs option_items
read_structs-option_items [] = refl
read_structs-option_items (o ∷ os) = rw (read_option-lem o, read_structs-option_items os) refl

read_dhcp_entry-lem :
    (e : DhcpHostEntry)
    → read_dhcp_entry (
        items_field (codes "macs") (text_items e.macs) (
          text_field (codes "ip") e.ip (
            text_field (codes "hostname") e.hostname (
              items_field
                (codes "setTags")
                (text_items e.set_tags)
                (text_field (codes "leaseTime") e.lease_time end)))))
      ≡ some e
unfolding read_dhcp_entry ◌==◌ lookup_field
read_dhcp_entry-lem e = simp (skip_text, skip_items, hit_text, hit_texts)

read_structs-dhcp_items :
    (es : List DhcpHostEntry) → read_structs read_dhcp_entry (dhcp_items es) ≡ some es
unfolding read_structs dhcp_items
read_structs-dhcp_items [] = refl
read_structs-dhcp_items (e ∷ es) = rw (read_dhcp_entry-lem e, read_structs-dhcp_items es) refl

read_dns_hosts-lem :
    (spec : DnsHostsSpec)
    → read_dns_hosts (
        text_field
          (codes "controller")
          spec.controller
          (items_field (codes "hosts") (dns_items spec.hosts) end))
      ≡ some spec
unfolding read_dns_hosts lookup_field ◌==◌
read_dns_hosts-lem spec = simp (
  skip_text,
  hit_text (codes "controller") spec.controller
      (items_field (codes "hosts") (dns_items spec.hosts) end)
      (skip_items (codes "controller") (codes "hosts") (dns_items spec.hosts) end refl),
  hit_structs read_dns_entry (codes "hosts") (dns_items spec.hosts) spec.hosts end refl
      (read_structs-dns_items spec.hosts),
)

read_dhcp_hosts-lem :
    (spec : DhcpHostsSpec)
    → read_dhcp_hosts (
        text_field
          (codes "controller")
          spec.controller
          (items_field (codes "hosts") (dhcp_items spec.hosts) end))
      ≡ some spec
unfolding read_dhcp_hosts lookup_field ◌==◌
read_dhcp_hosts-lem spec = simp (
  skip_text,
  hit_text (codes "controller") spec.controller
      (items_field (codes "hosts") (dhcp_items spec.hosts) end)
      (skip_items (codes "controller") (codes "hosts") (dhcp_items spec.hosts) end refl),
  hit_structs read_dhcp_entry (codes "hosts") (dhcp_items spec.hosts) spec.hosts end refl
      (read_structs-dhcp_items spec.hosts),
)

read_dhcp_options-lem :
    (spec : DhcpOptionsSpec)
    → read_dhcp_options (
        text_field
          (codes "controller")
          spec.controller
          (items_field (codes "options") (option_items spec.options) end))
      ≡ some spec
unfolding read_dhcp_options lookup_field ◌==◌
read_dhcp_options-lem spec = simp (
  skip_text,
  hit_text (codes "controller") spec.controller
      (items_field (codes "options") (option_items spec.options) end)
      (skip_items (codes "controller") (codes "options") (option_items spec.options) end refl),
  hit_structs read_option (codes "options") (option_items spec.options) spec.options end refl
      (read_structs-option_items spec.options),
)

parse_spec-read :
    {W T : Type 0} (c : Client W) (mismatch : Error) (read : Fields → Option T)
    (zero_value spec : T)
    → (u : Object) (fs : Fields) → c.nested_map u ≡ ok (some (obj fs))
    → read fs ≡ some spec
    → parse_spec c mismatch read zero_value u ≡ ok spec
unfolding parse_spec
parse_spec-read c mismatch read zero_value spec u fs n e = rw (parse_spec, n, e) refl

-- A spec that `NewDnsHosts`, `NewDhcpHosts` or `NewDhcpOptions` puts into an object is read back by
-- the Parse function of its kind as it was, whatever the name and the namespace. `NestedMap` is
-- supposed to return a spec that is a map.
pub parse-new :
    {W : Type 0} (c : Client W) (mismatch : Error) (name namespace : Text)
    → (hosts : DnsHostsSpec) (leases : DhcpHostsSpec) (options : DhcpOptionsSpec)
    → ((o : Object) (fs : Fields) → o.spec ≡ some (obj fs) → c.nested_map o ≡ ok (some (obj fs)))
    → (parse_dns_hosts_spec c mismatch (new_dns_hosts name namespace hosts) ≡ ok hosts)
      × (parse_dhcp_hosts_spec c mismatch (new_dhcp_hosts name namespace leases) ≡ ok leases)
      × (parse_dhcp_options_spec c mismatch (new_dhcp_options name namespace options) ≡ ok options)
unfolding parse_dns_hosts_spec parse_dhcp_hosts_spec parse_dhcp_options_spec new_dns_hosts
    new_dhcp_hosts new_dhcp_options new_object
parse-new c mismatch name namespace hosts leases options law = (
  parse_spec-read c mismatch _ _ hosts _ _ (law _ _ refl) (read_dns_hosts-lem hosts),
  parse_spec-read c mismatch _ _ leases _ _ (law _ _ refl) (read_dhcp_hosts-lem leases),
  parse_spec-read c mismatch _ _ options _ _ (law _ _ refl) (read_dhcp_options-lem options),
)
