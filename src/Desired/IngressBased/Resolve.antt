-- ===== src/Desired/IngressBased/Resolve.antt =====
-- Which names the object ingress-based publishes.
use mathlib.Core.Logic.{∥∥₁_elim, ∥∥₁_map}
use mathlib.Core.List.{Mem, mem-cons_self, mem-cons_of_mem}
use homelab_operator.Prelude.{
  Text, Bool, true, false, not, ◌&&◌, ◌||◌, Option, none, some, ◌≡◌, ◌↔◌, refl, sym, ap, subst,
  fun_ext, ◌∙◌, inl, inr, Bool-cases, Option-cases, List, [], ◌∷◌, ◌++◌, ◌==◌, eq_iff, eq_refl,
  is_empty, if◌then◌else◌, arith,
}
use homelab_operator.Prelude.Lists.{any, keep}
use homelab_operator.Prelude.Lookup.{any_of_mem}
use homelab_operator.Prelude.Sort.{sort_func, any-sort_func}
use homelab_operator.Prelude.Dict.{Dict, get}
use homelab_operator.Api.{IngressRouter, Ingress}
use homelab_operator.Dnsmasq.{DnsHostEntry, DnsHostsSpec}
use homelab_operator.Dnsmasq.Netip.{Addr}
use homelab_operator.Dnsmasq.Resolve.{Resolves, Resolves-normalize}
use homelab_operator.Desired.Grouping.{sorted_hosts}
use homelab_operator.Desired.Grouping.Laws.{extended, get-append_hostnames, mem-sorted_hosts}
use homelab_operator.Desired.IngressBased.{
  HttpRouteLike, ingress_class, add_to_class, add_ingresses, add_routes, by_ingress_key, by_gateway,
  build_ingress_based,
}
use homelab_operator.Desired.IngressBased.Routers.{
  RouterNamesDiffer, ClassesDiffer, of_class, by_class, by_class-holds, owner_named,
  owner_named-by_class,
}

abbrev has : Text → List Text → Bool
has h l = any (λ x. x == h) l

any-append : (h : Text) (l m : List Text) → has h (l ++ m) ≡ (has h l || has h m)
any-append h [] m = refl
any-append h (x ∷ l) m = ground (arith, any-append h l m)

has_of_mem : (h : Text) (l : List Text) → Mem h l → has h l ≡ true
has_of_mem h l m = any_of_mem (λ x. x == h) h l m (eq_refl h)

mem_of_has : (h : Text) (l : List Text) → has h l ≡ true → Mem h l
mem_of_has h [] e = absurd (cc)
mem_of_has h (x ∷ l) e = elim (Bool-cases (x == h)) [
  | inl q ↦ rw (sym ((eq_iff x h).0 q)) mem-cons_self
  | inr q ↦ mem-cons_of_mem x (mem_of_has h l (ground arith))
]

-- The entry under the name has the host.
abbrev entry_has : Text → Option DnsHostEntry → Bool
entry_has h none = false
entry_has h (some e) = has h e.hostnames

abbrev says : Text → Text → Dict DnsHostEntry → Bool
says k h m = entry_has h (get k m)

entry_has-extended :
    (h ip : Text) (hs : List Text) (o : Option DnsHostEntry)
    → entry_has h (extended ip hs o) ≡ (entry_has h o || has h hs)
entry_has-extended h ip hs none = refl
entry_has-extended h ip hs (some e) = any-append h e.hostnames hs

says-add_to_class :
    (rs : Dict IngressRouter) (cl : Text) (hs : List Text) (m : Dict DnsHostEntry) (k h : Text)
    → says k h (add_to_class rs cl hs m) ≡ (says k h m || owner_named rs cl k && has h hs)
unfolding add_to_class
says-add_to_class rs cl hs m k h = elim (Option-cases (get cl rs)) [
  | inl n ↦ rw (n, add_to_class, owner_named) (or_false (says k h m))
  | inr (ir, g) ↦
      rw (g, add_to_class, owner_named)
        (ap (entry_has h) (get-append_hostnames ir.name k ir.spec.ip_address hs m) ∙ at_name ir)
]
  where
    or_false : (b : Bool) → b ≡ (b || false)
    or_false b = ground arith

    at_name :
        (ir : IngressRouter)
        → entry_has h
            (if ir.name == k then extended ir.spec.ip_address hs (get ir.name m) else get k m)
          ≡ (says k h m || ir.name == k && has h hs)
    at_name ir = elim (Bool-cases (ir.name == k)) [
      | inl q ↦
          rw (q, (eq_iff ir.name k).0 q) (entry_has-extended h ir.spec.ip_address hs (get k m))
      | inr q ↦ rw q (or_false (says k h m))
    ]

-- A rule of the ingress names the host.
abbrev pub rule_names : Text → Ingress → Bool
rule_names h ing = not (is_empty h) && has h ing.rules

has-keep :
    (h : Text) (l : List Text)
    → has h (keep (λ x. not (is_empty x)) l) ≡ (not (is_empty h) && has h l)
has-keep h [] = ground arith
has-keep h (x ∷ l) = ground (arith, has-keep h l, eq_iff x h)

says-add_ingresses :
    (rs : Dict IngressRouter) (ings : List Ingress) (m : Dict DnsHostEntry) (k h : Text)
    → says k h (add_ingresses rs ings m)
      ≡ (says k h m || any (λ ing. owner_named rs (ingress_class ing) k && rule_names h ing) ings)
unfolding add_ingresses
says-add_ingresses rs [] m k h = ground arith
says-add_ingresses rs (ing ∷ ings) m k h =
    says-add_ingresses rs ings _ k h
    ∙ ground (
      arith,
      has-keep h ing.rules,
      says-add_to_class rs (ingress_class ing) (keep (λ x. not (is_empty x)) ing.rules) m k h,
    )

says-add_routes :
    (rs : Dict IngressRouter) (hrs : List HttpRouteLike) (m : Dict DnsHostEntry) (k h : Text)
    → says k h (add_routes rs hrs m)
      ≡ (says k h m || any (λ hr. owner_named rs hr.gateway k && has h hr.hostnames) hrs)
unfolding add_routes
says-add_routes rs [] m k h = ground arith
says-add_routes rs (hr ∷ hrs) m k h =
    says-add_routes rs hrs _ k h
    ∙ ground (arith, says-add_to_class rs hr.gateway hr.hostnames m k h)

-- Some router has the name and the address of the entry.
abbrev Backs : List IngressRouter → Text → DnsHostEntry → Type 0
Backs routers k e =
    ∥ ((ir : IngressRouter) × Mem ir routers × (ir.name ≡ k) × (ir.spec.ip_address ≡ e.ip)) ∥₁

abbrev Backed : List IngressRouter → Dict DnsHostEntry → Type 0
Backed routers m = (k : Text) (e : DnsHostEntry) → get k m ≡ some e → Backs routers k e

abbrev ip_of : Option DnsHostEntry → Text
ip_of none = []
ip_of (some e) = e.ip

Backs-extended :
    (routers : List IngressRouter) (ir : IngressRouter) (hs : List Text) (o : Option DnsHostEntry)
    (e : DnsHostEntry)
    → Mem ir routers
    → ((e0 : DnsHostEntry) → o ≡ some e0 → Backs routers ir.name e0)
    → extended ir.spec.ip_address hs o ≡ some e
    → Backs routers ir.name e
Backs-extended routers ir hs none e i h q = ∣ (ir, i, refl, ap ip_of q) ∣₁
Backs-extended routers ir hs (some e0) e i h q =
    ∥∥₁_map (h e0 refl) λ (x, j, n, p). (x, j, n, p ∙ ap ip_of q)

module _ (routers : List IngressRouter) (rs : Dict IngressRouter)
    (holds : (cl : Text) (ir : IngressRouter) → get cl rs ≡ some ir → Mem ir routers) where
  Backed-add_to_class :
      (cl : Text) (hs : List Text) (m : Dict DnsHostEntry)
      → Backed routers m
      → Backed routers (add_to_class rs cl hs m)
  unfolding add_to_class
  Backed-add_to_class cl hs m h = elim (Option-cases (get cl rs)) [
    | inl n ↦ rw (n, add_to_class) h
    | inr (ir, g) ↦
        rw (g, add_to_class)
          (λ k e q.
            at_name ir k e (holds cl ir g)
              (sym (get-append_hostnames ir.name k ir.spec.ip_address hs m) ∙ q))
  ]
    where
      at_name :
          (ir : IngressRouter) (k : Text) (e : DnsHostEntry)
          → Mem ir routers
          → (if ir.name == k then extended ir.spec.ip_address hs (get ir.name m) else get k m)
            ≡ some e
          → Backs routers k e
      at_name ir k e i q = elim (Bool-cases (ir.name == k)) [
        | inl b ↦
            subst (λ j. Backs routers j e) ((eq_iff ir.name k).0 b)
              (Backs-extended routers ir hs (get ir.name m) e i (h ir.name) (rw b at q))
        | inr b ↦ h k e (rw b at q)
      ]

  Backed-add_ingresses :
      (ings : List Ingress) (m : Dict DnsHostEntry)
      → Backed routers m
      → Backed routers (add_ingresses rs ings m)
  unfolding add_ingresses
  Backed-add_ingresses [] m h = h
  Backed-add_ingresses (ing ∷ ings) m h =
      Backed-add_ingresses ings _ (Backed-add_to_class (ingress_class ing) _ m h)

  Backed-add_routes :
      (hrs : List HttpRouteLike) (m : Dict DnsHostEntry)
      → Backed routers m
      → Backed routers (add_routes rs hrs m)
  unfolding add_routes
  Backed-add_routes [] m h = h
  Backed-add_routes (hr ∷ hrs) m h =
      Backed-add_routes hrs _ (Backed-add_to_class hr.gateway hr.hostnames m h)

-- An ingress or a route of the router's class names the host.
abbrev pub is_routed : List Ingress → List HttpRouteLike → Text → IngressRouter → Bool
is_routed ingresses routes h ir =
    any (λ ing. of_class (ingress_class ing) ir && rule_names h ing) ingresses
    || any (λ hr. of_class hr.gateway ir && any (λ x. x == h) hr.hostnames) routes

abbrev hosts_by_router : List IngressRouter → List Ingress → List HttpRouteLike → Dict DnsHostEntry
hosts_by_router routers ingresses routes =
    add_routes (by_class routers) (sort_func by_gateway routes)
      (add_ingresses (by_class routers) (sort_func by_ingress_key ingresses) [])

module _ (routers : List IngressRouter) (names : RouterNamesDiffer routers)
    (classes : ClassesDiffer routers) (ingresses : List Ingress) (routes : List HttpRouteLike) where
  says-hosts_by_router :
      (ir : IngressRouter) (h : Text)
      → Mem ir routers
      → says ir.name h (hosts_by_router routers ingresses routes) ≡ is_routed ingresses routes h ir
  unfolding get
  says-hosts_by_router ir h i =
      let rs = by_class routers in
      let owner : (λ cl. owner_named rs cl ir.name) ≡ (λ cl. of_class cl ir) =
        fun_ext λ cl. owner_named-by_class routers cl ir names classes i in
      says-add_routes rs (sort_func by_gateway routes) _ ir.name h
      ∙ ap
          (λ b.
            b
            || any (λ hr. owner_named rs hr.gateway ir.name && has h hr.hostnames)
                (sort_func by_gateway routes))
          (says-add_ingresses rs (sort_func by_ingress_key ingresses) [] ir.name h)
      ∙ ap
          (λ f.
            any (λ ing. f (ingress_class ing) && rule_names h ing)
              (sort_func by_ingress_key ingresses)
            || any (λ hr. f hr.gateway && has h hr.hostnames) (sort_func by_gateway routes))
          owner
      ∙ rw
          (
            any-sort_func by_ingress_key
                (λ ing. of_class (ingress_class ing) ir && rule_names h ing) ingresses,
            any-sort_func by_gateway (λ hr. of_class hr.gateway ir && has h hr.hostnames) routes,
          )
          refl

  Backed-hosts_by_router : Backed routers (hosts_by_router routers ingresses routes)
  unfolding get
  Backed-hosts_by_router =
      let holds = λ (cl : Text) (ir : IngressRouter) (g : get cl (by_class routers) ≡ some ir).
        (by_class-holds routers cl ir g).0 in
      Backed-add_routes routers (by_class routers) holds (sort_func by_gateway routes) _ (
        Backed-add_ingresses routers (by_class routers) holds (sort_func by_ingress_key ingresses)
          [] (λ k e q. absurd (cc)))

-- Some router of the list has the address, and an ingress or a route of its class names the host.
abbrev pub Routes : List IngressRouter → List Ingress → List HttpRouteLike → Text → Text → Type 0
Routes routers ingresses routes host ip = ∥ (
    (ir : IngressRouter) × Mem ir routers
    × (ir.spec.ip_address ≡ ip)
    × (is_routed ingresses routes host ir ≡ true)) ∥₁

entry_has-some :
    (h : Text) (o : Option DnsHostEntry)
    → entry_has h o ≡ true
    → (e : DnsHostEntry) × (o ≡ some e) × Mem h e.hostnames
entry_has-some h none q = absurd (cc)
entry_has-some h (some e) q = (e, refl, mem_of_has h e.hostnames q)

-- If no two routers share a name or a class, the object resolves a hostname to an address exactly
-- when some router has the address, and an ingress or a route of the router's class, which is not
-- empty, names the host; a rule of an ingress without a host names none.
pub Resolves-build_ingress_based :
    (v6 : Text → Option Addr) (routers : List IngressRouter) (ingresses : List Ingress)
    (routes : List HttpRouteLike) (host ip : Text)
    → RouterNamesDiffer routers
    → ClassesDiffer routers
    → Resolves (build_ingress_based v6 routers ingresses routes) host ip
      ↔ Routes routers ingresses routes host ip
unfolding build_ingress_based
Resolves-build_ingress_based v6 routers ingresses routes host ip names classes =
    let m = hosts_by_router routers ingresses routes in
    let spec : DnsHostsSpec = record { controller = []; hosts = sorted_hosts m } in
    let says_routed = says-hosts_by_router routers names classes ingresses routes in
    let backed = Backed-hosts_by_router routers names classes ingresses routes in
    (
      (λ t. ∥∥₁_elim ((Resolves-normalize v6 spec host ip).0 t) squash₁ λ (e, i, p, h).
          ∥∥₁_elim ((mem-sorted_hosts m e).0 i) squash₁ λ (k, g).
            ∥∥₁_map (backed k e g) λ (ir, j, n, q). (
              ir,
              j,
              q ∙ p,
              sym (says_routed ir host j) ∙ rw (n, g) (has_of_mem host e.hostnames h),
            )),
      (λ t. (Resolves-normalize v6 spec host ip).1 (
          ∥∥₁_elim t squash₁ λ (ir, i, p, r).
            let (e, g, h) = entry_has-some host (get ir.name m) (says_routed ir host i ∙ r) in
            ∥∥₁_map (backed ir.name e g) λ (x, j, n, q). (
              e,
              (mem-sorted_hosts m e).1 ∣ (ir.name, g) ∣₁,
              sym q ∙ ap (λ (y : IngressRouter). y.spec.ip_address) (names x ir j i n) ∙ p,
              h,
            ))),
    )
