-- ===== src/Ensure/Describe.antt =====
-- The summary of a spec for the log: internal/ensure/plan.go, `summarizeSpec`. The verbs `%d` and `%v` of
-- fmt are parameters.
use homelab_operator.Prelude.{
  ◌-◌, Text, Option, none, some, List, [], ◌∷◌, ◌++◌, codes, is_empty, ltb, if◌then◌else◌,
}
use homelab_operator.Prelude.Lists.{length, take}
use homelab_operator.Cluster.{Json, str, arr, obj, cons, Fields, lookup_field, Object, Client}

-- `m[key].(string)`, which is empty where there is no such text.
unfoldable pub str_field : Text → Fields → Text
str_field key m = elim (lookup_field key m) [ some (str s) ↦ s | _ ↦ [] ]

-- The first of `m["hostnames"]`, where that is a text.
first_hostname : Option Json → Option Text
first_hostname (some (arr (cons (str s) r))) = some s
first_hostname _ = none

-- What one host entry adds to the summary.
unfoldable pub host_label : Json → Option Text
unfolding first_hostname str_field lookup_field
host_label (obj m) =
    let ip = str_field (codes "ip") m in
    let hostname = str_field (codes "hostname") m in
    elim (first_hostname (lookup_field (codes "hostnames") m)) [
      | some s ↦ some (s ++ (codes "@" ++ ip))
      | none ↦
          if is_empty hostname
          then (if is_empty ip then none else some ip)
          else some (hostname ++ (codes "@" ++ ip))
    ]
host_label _ = none

host_labels : List Json → List Text
host_labels [] = []
host_labels (h ∷ hs) =
    let rest = host_labels hs in elim (host_label h) [ none ↦ rest | some l ↦ l ∷ rest ]

-- `strings.Join(l, ", ")`
join_shown : List Text → Text
join_shown [] = []
join_shown (x ∷ []) = x
join_shown (x ∷ y ∷ l) = x ++ (codes ", " ++ join_shown (y ∷ l))

-- `, …+`, where the ellipsis is three bytes of UTF-8.
abbrev more_mark : Text
more_mark = codes ", " ++ (0xe2 ∷ 0x80 ∷ 0xa6 ∷ codes "+")

unfoldable pub summarize_host_entries : {W : Type 0} → Client W → List Json → Text
unfolding host_label host_labels join_shown
summarize_host_entries c hosts =
    let names = host_labels hosts in
    let suffix =
      (if ltb 8 (length names) then more_mark ++ c.show_length (length names - 8) else []) in
    elim (take 8 names) [
      | [] ↦ c.show_length (length hosts) ++ codes " entries"
      | n ∷ ns ↦
          c.show_length (length hosts)
          ++ (codes " entries (" ++ (join_shown (n ∷ ns) ++ (suffix ++ codes ")")))
    ]

-- `spec.vlan`, by `NestedFieldNoCopy`.
vlan_of : Option Json → Option Json
vlan_of (some (obj m)) = lookup_field (codes "vlan") m
vlan_of _ = none

unfoldable pub summarize_spec : {W : Type 0} → Client W → Object → Text
unfolding summarize_host_entries vlan_of
summarize_spec c u = elim (c.nested_slice u (codes "hosts")) [
  | some hosts ↦ summarize_host_entries c hosts
  | none ↦ elim (c.nested_slice u (codes "options")) [
    | some options ↦ c.show_length (length options) ++ codes " dhcp options"
    | none ↦ elim (c.nested_string_slice u (codes "macAddresses")) [
      | some macs ↦
          codes "freeradius device vlan="
          ++ (c.show_value (vlan_of u.spec) ++ (codes " macs=" ++ c.show_length (length macs)))
      | none ↦ codes "empty spec"
    ]
  ]
]
