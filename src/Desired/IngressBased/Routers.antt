-- ===== src/Desired/IngressBased/Routers.antt =====
-- Which router stands for a class.
use mathlib.Core.List.{Mem, mem-cons_self, mem-cons_of_mem}
use homelab_operator.Prelude.{
  Text, Bool, true, false, not, ◌&&◌, Option, none, some, ◌≡◌, refl, sym, ap, subst, ◌∙◌, inl, inr,
  Bool-cases, Option-cases, List, [], ◌∷◌, ◌==◌, eq_iff, eq_refl, is_empty, if◌then◌else◌, arith,
}
use homelab_operator.Prelude.Sort.{sort_func, mem-sort_func}
use homelab_operator.Prelude.Dict.{Dict, get, put, get-put}
use homelab_operator.Prelude.Lookup.{any_of_mem, has_key, put_all, put_some, get-put_all}
use homelab_operator.Api.{IngressRouter}
use homelab_operator.Desired.IngressBased.{router_by_class, by_router_name}

-- No two routers of the list share a name.
abbrev pub RouterNamesDiffer : List IngressRouter → Type 0
RouterNamesDiffer l = (a b : IngressRouter) → Mem a l → Mem b l → a.name ≡ b.name → a ≡ b

-- No two routers of the list share a class that is not empty.
abbrev pub ClassesDiffer : List IngressRouter → Type 0
ClassesDiffer l =
    (a b : IngressRouter)
    → Mem a l
    → Mem b l
    → is_empty b.spec.ingress_class ≡ false
    → a.spec.ingress_class ≡ b.spec.ingress_class
    → a ≡ b

-- The router is of the class.
abbrev pub of_class : Text → IngressRouter → Bool
of_class cl ir = not (is_empty cl) && ir.spec.ingress_class == cl

abbrev class_item : IngressRouter → Option (Text × IngressRouter)
class_item ir = if is_empty ir.spec.ingress_class then none else some (ir.spec.ingress_class, ir)

router_by_class-put_all :
    (irs : List IngressRouter) (m : Dict IngressRouter)
    → router_by_class irs m ≡ put_all class_item irs m
unfolding router_by_class put_all put_some
router_by_class-put_all [] m = refl
router_by_class-put_all (ir ∷ irs) m = elim (Bool-cases (is_empty ir.spec.ingress_class)) [
  | inl e ↦ rw e (router_by_class-put_all irs m)
  | inr e ↦ rw e (router_by_class-put_all irs (put ir.spec.ingress_class ir m))
]

abbrev pub by_class : List IngressRouter → Dict IngressRouter
by_class routers = router_by_class (sort_func by_router_name routers) []

-- What is found under a class is a router of the class.
abbrev Holds : List IngressRouter → Dict IngressRouter → Type 0
Holds routers m =
    (cl : Text) (ir : IngressRouter) → get cl m ≡ some ir → Mem ir routers × (of_class cl ir ≡ true)

abbrev or_else : IngressRouter → Option IngressRouter → IngressRouter
or_else d none = d
or_else d (some ir) = ir

Holds-put :
    (routers : List IngressRouter) (x : IngressRouter) (m : Dict IngressRouter)
    → Mem x routers
    → is_empty x.spec.ingress_class ≡ false
    → Holds routers m
    → Holds routers (put x.spec.ingress_class x m)
Holds-put routers x m i e h cl ir g =
    let g' = sym (get-put x.spec.ingress_class cl x m) ∙ g in
    elim (Bool-cases (x.spec.ingress_class == cl)) [
      | inl q ↦
          let same : x ≡ ir = ap (or_else x) (rw q at g') in
          let cls : x.spec.ingress_class ≡ cl = (eq_iff x.spec.ingress_class cl).0 q in
          (
            subst (λ r. Mem r routers) same i,
            subst (λ r. of_class cl r ≡ true) same
                (rw (sym cls) (rw (e, eq_refl x.spec.ingress_class) refl)),
          )
      | inr q ↦ h cl ir (rw q at g')
    ]

Holds-router_by_class :
    (routers irs : List IngressRouter) (m : Dict IngressRouter)
    → ((ir : IngressRouter) → Mem ir irs → Mem ir routers)
    → Holds routers m
    → Holds routers (router_by_class irs m)
unfolding router_by_class
Holds-router_by_class routers [] m sub h = h
Holds-router_by_class routers (x ∷ irs) m sub h =
    elim (Bool-cases (is_empty x.spec.ingress_class)) [
      | inl e ↦ rw e (Holds-router_by_class routers irs m (λ ir i. sub ir (mem-cons_of_mem x i)) h)
      | inr e ↦ rw e (
          Holds-router_by_class routers irs _ (λ ir i. sub ir (mem-cons_of_mem x i))
            (Holds-put routers x m (sub x mem-cons_self) e h))
    ]

pub by_class-holds :
    (routers : List IngressRouter) (cl : Text) (ir : IngressRouter)
    → get cl (by_class routers) ≡ some ir
    → Mem ir routers × (of_class cl ir ≡ true)
unfolding get
by_class-holds routers =
    Holds-router_by_class routers (sort_func by_router_name routers) []
      (λ ir i. (mem-sort_func by_router_name ir routers).0 i) (λ cl ir g. absurd (cc))

-- The router of a class is found under it.
pub get-by_class :
    (routers : List IngressRouter) (ir : IngressRouter)
    → ClassesDiffer routers
    → Mem ir routers
    → is_empty ir.spec.ingress_class ≡ false
    → get ir.spec.ingress_class (by_class routers) ≡ some ir
get-by_class routers ir differ m e =
    let sorted = sort_func by_router_name routers in
    let cl = ir.spec.ingress_class in
    ap (get cl) (router_by_class-put_all sorted [])
    ∙ get-put_all class_item cl ir sorted []
        (λ x k w q. found x w q (differ x ir ((mem-sort_func by_router_name x routers).0 k) m e))
    ∙ rw (
        any_of_mem (λ x. has_key class_item cl (class_item x)) ir sorted
          ((mem-sort_func by_router_name ir routers).1 m) (rw e (eq_refl cl)))
  where
    found :
        (x w : IngressRouter)
        → class_item x ≡ some (ir.spec.ingress_class, w)
        → (x.spec.ingress_class ≡ ir.spec.ingress_class → x ≡ ir)
        → w ≡ ir
    found x w q h = elim (Bool-cases (is_empty x.spec.ingress_class)) [
      | inl b ↦ absurd (ground arith)
      | inr b ↦ taken (rw b at q)
    ]
      where
        taken :
            ◌≡◌ {A = Option (Text × IngressRouter)}
              (some (x.spec.ingress_class, x))
              (some (ir.spec.ingress_class, w))
            → w ≡ ir
        taken p = cc (h (cc))

-- The name of the router that stands for the class is `name`.
abbrev pub owner_named : Dict IngressRouter → Text → Text → Bool
owner_named m cl name = elim (get cl m) [ none ↦ false | some ir ↦ ir.name == name ]

-- If neither names nor classes are shared, the router that stands for a class is the router of it.
pub owner_named-by_class :
    (routers : List IngressRouter) (cl : Text) (ir : IngressRouter)
    → RouterNamesDiffer routers
    → ClassesDiffer routers
    → Mem ir routers
    → owner_named (by_class routers) cl ir.name ≡ of_class cl ir
owner_named-by_class routers cl ir names classes m = elim (Bool-cases (of_class cl ir)) [
  | inl t ↦ rw (t, found t, owner_named) (eq_refl ir.name)
  | inr f ↦ rw f (elim (Option-cases (get cl (by_class routers))) [
    | inl n ↦ rw (n, owner_named) refl
    | inr (x, g) ↦ rw (g, owner_named) (other x (by_class-holds routers cl x g) f)
  ])
]
  where
    found : of_class cl ir ≡ true → get cl (by_class routers) ≡ some ir
    found t =
        subst (λ k. get k (by_class routers) ≡ some ir)
          ((eq_iff ir.spec.ingress_class cl).0 (ground arith))
          (get-by_class routers ir classes m
            (rw ((eq_iff ir.spec.ingress_class cl).0 (ground arith)) (ground arith)))

    other :
        (x : IngressRouter)
        → Mem x routers × (of_class cl x ≡ true)
        → of_class cl ir ≡ false
        → (x.name == ir.name) ≡ false
    other x (i, t) f = elim (Bool-cases (x.name == ir.name)) [
      | inl q ↦
          absurd
            (ground (arith, t, f, ap (of_class cl) (names x ir i m ((eq_iff x.name ir.name).0 q))))
      | inr q ↦ q
    ]
