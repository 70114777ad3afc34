-- ===== src/Desired/LoadBalancerBased/Order.antt =====
-- What `BuildLoadBalancerBased` publishes, and that the order of the services does not matter.
use mathlib.Core.Option
use mathlib.Core.Logic.{∥∥₁_elim, ∥∥₁_map}
use mathlib.Core.List.{
  Mem, Mem-prop, Nodup, Nodup-nil, append_assoc, mem-map, mem-map_of_mem, mem-cons_self,
  not-mem-nil,
}
use homelab_operator.Prelude.{
  Text, Bool, true, not, ◌&&◌, Option, none, some, ◌≡◌, refl, ap, ◌∙◌, subst, ◌↔◌, inl, inr,
  Bool-cases, List, [], ◌∷◌, ◌++◌, map, ◌==◌, eq_iff, is_empty, if◌then◌else◌, arith,
}
use homelab_operator.Prelude.Lists.{keep}
use homelab_operator.Prelude.Lookup.{mem-keep}
use homelab_operator.Prelude.Sort.{sort_func, mem-sort_func}
use homelab_operator.Prelude.Dict.{Dict, get, keys}
use homelab_operator.Api.{Service, service_type_load_balancer}
use homelab_operator.Dnsmasq.{DnsHostEntry, compare_entry, normalize_entry, normalize_dns_hosts}
use homelab_operator.Dnsmasq.Netip.{Addr}
use homelab_operator.Dnsmasq.Hostnames.{SameSet}
use homelab_operator.Dnsmasq.Order.{normalize_entry_iff}
use homelab_operator.Desired.Grouping.Laws.{
  extended, get-append_hostnames, Nodup-append_hostnames, sorted_hosts_same,
}
use homelab_operator.Desired.LoadBalancerBased.{
  service_ip, add_service, add_services, by_service_key, build_load_balancer_based,
}

-- The service is of type LoadBalancer, and has the address `ip`, which is not empty.
abbrev pub serves : Text → Service → Bool
serves ip svc =
    svc.type == service_type_load_balancer
    && not (is_empty (service_ip svc))
    && service_ip svc == ip

abbrev pub hostname : Text → Service → Text
hostname suffix svc = svc.name ++ suffix

-- The entry of an address after a list of hostnames is appended to what was there.
abbrev pub entry_after : Text → Option DnsHostEntry → List Text → Option DnsHostEntry
entry_after ip o [] = o
entry_after ip none (h ∷ hs) = some (record { ip = ip; hostnames = h ∷ hs })
entry_after ip (some e) (h ∷ hs) = some (record e { hostnames = e.hostnames ++ (h ∷ hs) })

entry_after-extended :
    (ip h : Text) (o : Option DnsHostEntry) (hs : List Text)
    → entry_after ip (extended ip (h ∷ []) o) hs ≡ entry_after ip o (h ∷ hs)
entry_after-extended ip h none [] = refl
entry_after-extended ip h none (g ∷ gs) = refl
entry_after-extended ip h (some e) [] = refl
entry_after-extended ip h (some e) (g ∷ gs) =
    ap (λ (l : List Text). some (record e { hostnames = l }))
      (append_assoc e.hostnames (h ∷ []) (g ∷ gs))

get-add_service :
    (suffix ip : Text) (m : Dict DnsHostEntry) (svc : Service)
    → get ip (add_service suffix m svc)
      ≡ (if serves ip svc then extended ip (hostname suffix svc ∷ []) (get ip m) else get ip m)
unfolding add_service
get-add_service suffix ip m svc = ground (
  arith,
  eq_iff (service_ip svc) ip,
  get-append_hostnames (service_ip svc) ip (service_ip svc) (hostname suffix svc ∷ []) m,
)

pub get-add_services :
    (suffix ip : Text) (m : Dict DnsHostEntry) (ss : List Service)
    → get ip (add_services suffix m ss)
      ≡ entry_after ip (get ip m) (map (hostname suffix) (keep (serves ip) ss))
unfolding add_services
get-add_services suffix ip m [] = refl
get-add_services suffix ip m (s ∷ ss) =
    get-add_services suffix ip (add_service suffix m s) ss ∙ elim (Bool-cases (serves ip s)) [
      | inl h ↦ rw (get-add_service suffix ip m s, h) (entry_after-extended _ _ _ _)
      | inr h ↦ rw (get-add_service suffix ip m s, h)
    ]

Nodup-add_service :
    (suffix : Text) (m : Dict DnsHostEntry) (s : Service)
    → Nodup (keys m)
    → Nodup (keys (add_service suffix m s))
unfolding add_service
Nodup-add_service suffix m s h = elim (Bool-cases (s.type == service_type_load_balancer)) [
  | inl t ↦ elim (Bool-cases (is_empty (service_ip s))) [
    | inl e ↦ rw (t, e) h
    | inr e ↦ rw (t, e) (Nodup-append_hostnames (service_ip s) (service_ip s) _ m h)
  ]
  | inr f ↦ rw f h
]

Nodup-add_services :
    (suffix : Text) (m : Dict DnsHostEntry) (ss : List Service)
    → Nodup (keys m)
    → Nodup (keys (add_services suffix m ss))
unfolding add_services
Nodup-add_services suffix m [] h = h
Nodup-add_services suffix m (s ∷ ss) h =
    Nodup-add_services suffix (add_service suffix m s) ss (Nodup-add_service suffix m s h)

-- The hostnames that the services publish for the address.
abbrev pub published : Text → Text → List Service → List Text
published suffix ip ss = map (hostname suffix) (keep (serves ip) ss)

pub mem-published :
    (suffix ip h : Text) (ss : List Service)
    → Mem h (published suffix ip ss)
      ↔ ∥ ((s : Service) × Mem s ss × (serves ip s ≡ true) × (hostname suffix s ≡ h)) ∥₁
mem-published suffix ip h ss = (
  (λ m. ∥∥₁_map (mem-map.0 m) λ (s, k, e).
      (s, ((mem-keep (serves ip) s ss).0 k).0, ((mem-keep (serves ip) s ss).0 k).1, e)),
  (λ t. ∥∥₁_elim t Mem-prop λ (s, k, v, e).
      subst (λ x. Mem x (published suffix ip ss)) e
        (mem-map_of_mem (hostname suffix) ((mem-keep (serves ip) s ss).1 (k, v)))),
)

-- The two lists hold the same services.
abbrev pub SameServices : List Service → List Service → Type 0
SameServices ss ss' = (s : Service) → Mem s ss ↔ Mem s ss'

published_same :
    (suffix ip : Text) (ss ss' : List Service)
    → SameServices ss ss'
    → SameSet (published suffix ip ss) (published suffix ip ss')
published_same suffix ip ss ss' same h = (
  (λ m.
      (mem-published suffix ip h ss').1
        (∥∥₁_map ((mem-published suffix ip h ss).0 m) λ (s, k, v, e). (s, (same s).0 k, v, e))),
  (λ m.
      (mem-published suffix ip h ss).1
        (∥∥₁_map ((mem-published suffix ip h ss').0 m) λ (s, k, v, e). (s, (same s).1 k, v, e))),
)

entry_same :
    (ip : Text) (hs hs' : List Text)
    → SameSet hs hs'
    → Option.map normalize_entry (entry_after ip none hs)
      ≡ Option.map normalize_entry (entry_after ip none hs')
entry_same ip [] [] same = refl
entry_same ip [] (h ∷ hs) same = absurd (not-mem-nil ((same h).1 mem-cons_self))
entry_same ip (h ∷ hs) [] same = absurd (not-mem-nil ((same h).0 mem-cons_self))
entry_same ip (h ∷ hs) (h' ∷ hs') same = ap some ((normalize_entry_iff _ _ refl).1 same)

sorted_same :
    (ss ss' : List Service)
    → SameServices ss ss'
    → SameServices (sort_func by_service_key ss) (sort_func by_service_key ss')
sorted_same ss ss' same s = (
  (λ m.
      (mem-sort_func by_service_key s ss').1
        ((same s).0 ((mem-sort_func by_service_key s ss).0 m))),
  (λ m.
      (mem-sort_func by_service_key s ss).1
        ((same s).1 ((mem-sort_func by_service_key s ss').0 m))),
)

-- Two lists of the same services, in any order and with any repetitions, give the same object.
pub build_load_balancer_based_same :
    (v6 : Text → Option Addr) (services services' : List Service) (suffix : Text)
    → SameServices services services'
    → build_load_balancer_based v6 services suffix ≡ build_load_balancer_based v6 services' suffix
unfolding build_load_balancer_based normalize_dns_hosts get
build_load_balancer_based_same v6 services services' suffix same =
    let ss = sort_func by_service_key services in
    let ss' = sort_func by_service_key services' in
    ap
      (λ (l : List DnsHostEntry). record {
        controller = [];
        hosts = sort_func (compare_entry v6) l;
      })
      (sorted_hosts_same (add_services suffix [] ss) (add_services suffix [] ss')
        (λ ip.
          rw (get-add_services suffix ip [] ss, get-add_services suffix ip [] ss')
            (entry_same ip _ _
              (published_same suffix ip ss ss' (sorted_same services services' same))))
        (Nodup-add_services suffix [] ss Nodup-nil) (Nodup-add_services suffix [] ss' Nodup-nil))
