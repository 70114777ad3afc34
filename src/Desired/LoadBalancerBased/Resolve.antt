-- ===== src/Desired/LoadBalancerBased/Resolve.antt =====
-- Which names the object load-balancer-based publishes.
use mathlib.Core.Logic.{∥∥₁_elim, ∥∥₁_map}
use mathlib.Core.List.{Mem, not-mem-nil}
use native.Mathlib.Omega.{arith}
use homelab_operator.Prelude.{
  Text, true, Option, none, some, ◌≡◌, refl, sym, ◌∙◌, subst, ◌↔◌, List, [], ◌∷◌,
}
use homelab_operator.Prelude.Sort.{sort_func, mem-sort_func}
use homelab_operator.Prelude.Dict.{get}
use homelab_operator.Api.{Service}
use homelab_operator.Dnsmasq.{DnsHostEntry, DnsHostsSpec}
use homelab_operator.Dnsmasq.Netip.{Addr}
use homelab_operator.Dnsmasq.Resolve.{Resolves, Resolves-normalize}
use homelab_operator.Desired.Grouping.{sorted_hosts}
use homelab_operator.Desired.Grouping.Laws.{mem-sorted_hosts}
use homelab_operator.Desired.LoadBalancerBased.{
  add_services, by_service_key, build_load_balancer_based,
}
use homelab_operator.Desired.LoadBalancerBased.Order.{
  serves, hostname, entry_after, published, get-add_services, mem-published,
}

-- Some service of the list publishes the hostname for the address.
abbrev pub Publishes : Text → List Service → Text → Text → Type 0
Publishes suffix ss host ip =
    ∥ ((s : Service) × Mem s ss × (serves ip s ≡ true) × (hostname suffix s ≡ host)) ∥₁

entry_after-some :
    (ip : Text) (hs : List Text) (e : DnsHostEntry)
    → entry_after ip none hs ≡ some e
    → (e.ip ≡ ip) × (e.hostnames ≡ hs)
entry_after-some ip [] e h = absurd (cc)
entry_after-some ip (x ∷ hs) e h = (ground arith, ground arith)

entry_of_mem :
    (ip host : Text) (hs : List Text)
    → Mem host hs
    → entry_after ip none hs ≡ some (record { ip = ip; hostnames = hs })
entry_of_mem ip host [] m = absurd (not-mem-nil m)
entry_of_mem ip host (x ∷ hs) m = refl

-- The object resolves a hostname to an address exactly when some service of type LoadBalancer has
-- that address, which is not empty, and its name with the suffix is the hostname.
pub Resolves-build_load_balancer_based :
    (v6 : Text → Option Addr) (services : List Service) (suffix host ip : Text)
    → Resolves (build_load_balancer_based v6 services suffix) host ip
      ↔ Publishes suffix services host ip
unfolding build_load_balancer_based get
Resolves-build_load_balancer_based v6 services suffix host ip =
    let ss = sort_func by_service_key services in
    let m = add_services suffix [] ss in
    let spec : DnsHostsSpec = record { controller = []; hosts = sorted_hosts m } in
    (
      (λ t. ∥∥₁_elim ((Resolves-normalize v6 spec host ip).0 t) squash₁ λ (e, k, p, h).
          ∥∥₁_elim ((mem-sorted_hosts m e).0 k) squash₁ λ (j, g).
            let parts =
              entry_after-some j (published suffix j ss) e
                (sym (get-add_services suffix j [] ss) ∙ g) in
            ∥∥₁_map ((mem-published suffix j host ss).0 (subst (Mem host) parts.1 h))
              λ (s, i, v, n). (
                s,
                (mem-sort_func by_service_key s services).0 i,
                subst (λ x. serves x s ≡ true) (sym parts.0 ∙ p) v,
                n,
              )),
      (λ t. (Resolves-normalize v6 spec host ip).1 (
          ∥∥₁_elim t squash₁ λ (s, i, v, n).
            let there : Mem host (published suffix ip ss) =
              (mem-published suffix ip host ss).1
                ∣ (s, (mem-sort_func by_service_key s services).1 i, v, n) ∣₁ in
            ∣ (
              record { ip = ip; hostnames = published suffix ip ss },
              (mem-sorted_hosts m _).1
                  ∣ (ip, get-add_services suffix ip [] ss ∙ entry_of_mem ip host _ there) ∣₁,
              refl,
              there,
            ) ∣₁)),
    )
