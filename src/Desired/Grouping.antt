-- ===== src/Desired/Grouping.antt =====
-- What `BuildIngressBased` and `BuildLoadBalancerBased` share: host entries are collected under a
-- key, and listed in the order of the keys.
pub mod Laws
use homelab_operator.Prelude.{Text, none, some, List, [], ◌∷◌, ◌++◌, compare}
use homelab_operator.Prelude.Sort.{sort_func}
use homelab_operator.Prelude.Dict.{Dict, get, put, keys}
use homelab_operator.Dnsmasq.{DnsHostEntry}

-- The entry under the key, made with the address `ip` if it is not there, gets more hostnames.
unfoldable pub append_hostnames : Text → Text → List Text → Dict DnsHostEntry → Dict DnsHostEntry
append_hostnames key ip hostnames m = elim (get key m) [
  | none ↦ put key (record { ip = ip; hostnames = hostnames }) m
  | some e ↦ put key (record e { hostnames = e.hostnames ++ hostnames }) m
]

-- `hosts[k]` for each key of the list; every key that is asked for is there.
collect : Dict DnsHostEntry → List Text → List DnsHostEntry
collect m [] = []
collect m (k ∷ ks) = let rest = collect m ks in elim (get k m) [ none ↦ rest | some e ↦ e ∷ rest ]

-- The entries in the order of the sorted keys.
unfoldable pub sorted_hosts : Dict DnsHostEntry → List DnsHostEntry
unfolding collect
sorted_hosts m = collect m (sort_func compare (keys m))
