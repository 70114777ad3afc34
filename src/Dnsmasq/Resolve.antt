-- ===== src/Dnsmasq/Resolve.antt =====
-- What a DNS hosts object says: which hostname stands for which address.
use mathlib.Core.Logic.{∥∥₁_elim, ∥∥₁_map}
use mathlib.Core.List.{Mem, mem-map, mem-map_of_mem}
use mathlib.Core.List.Perm
use homelab_operator.Prelude.{Text, ◌≡◌, refl, sym, ap, ◌∙◌, subst, ◌↔◌, Option}
use homelab_operator.Dnsmasq.{DnsHostEntry, DnsHostsSpec, normalize_entry, normalize_dns_hosts}
use homelab_operator.Dnsmasq.Netip.{Addr}
use homelab_operator.Dnsmasq.Order.{normalize_entry-IsStrict, normalize_dns_hosts-perm}

-- Some entry of the object has the address and names the host.
abbrev pub Resolves : DnsHostsSpec → Text → Text → Type 0
Resolves spec host ip =
    ∥ ((e : DnsHostEntry) × Mem e spec.hosts × (e.ip ≡ ip) × Mem host e.hostnames) ∥₁

ip-normalize_entry : (e : DnsHostEntry) → (normalize_entry e).ip ≡ e.ip
unfolding normalize_entry
ip-normalize_entry e = refl

-- Normalising changes nothing of what an object says.
pub Resolves-normalize :
    (v6 : Text → Option Addr) (spec : DnsHostsSpec) (host ip : Text)
    → Resolves (normalize_dns_hosts v6 spec) host ip ↔ Resolves spec host ip
Resolves-normalize v6 spec host ip = (
  (λ t. ∥∥₁_elim t squash₁ λ (e, m, p, h).
      ∥∥₁_map (mem-map.0 ((Perm.mem_iff (normalize_dns_hosts-perm v6 spec)).0 m)) λ (a, k, q). (
        a,
        k,
        sym (ip-normalize_entry a) ∙ ap (λ (x : DnsHostEntry). x.ip) q ∙ p,
        ((normalize_entry-IsStrict a).1 host).0
            (subst (λ (x : DnsHostEntry). Mem host x.hostnames) (sym q) h),
      )),
  (λ t. ∥∥₁_map t λ (e, m, p, h). (
    normalize_entry e,
    (Perm.mem_iff (normalize_dns_hosts-perm v6 spec)).1 (mem-map_of_mem normalize_entry m),
    ip-normalize_entry e ∙ p,
    ((normalize_entry-IsStrict e).1 host).1 h,
  )),
)
