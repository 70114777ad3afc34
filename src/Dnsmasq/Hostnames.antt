-- ===== src/Dnsmasq/Hostnames.antt =====
-- `slices.Compact`, and the normal form of a list of hostnames as the image of its set.
use mathlib.Core.Logic.Or
use mathlib.Core.List.{
  Mem, Mem-prop, Pairwise, Pairwise-cons, mem-cons, mem-cons_self, mem-cons_of_mem, not-mem-nil,
  Pairwise-singleton,
}
use homelab_operator.Prelude.{
  Text, false, Ordering, ◌≡◌, refl, sym, ◌∙◌, subst, ◌↔◌, ap, ap₂, inl, inr, Bool-cases, List, [],
  ◌∷◌, ◌==◌, eq_iff, if◌then◌else◌, arith, compare, compare-IsOrder, compare_refl, path_of_compare,
}
use homelab_operator.Prelude.Sort.{sort_func, Le, IsSorted, sort_func-IsSorted, sort_func-perm}
use mathlib.Core.List.Perm
use mathlib.Core.List.Pairwise

-- `slices.Compact` keeps the first of each run of equal elements.
unfoldable pub compact : List Text → List Text
compact [] = []
compact (x ∷ []) = x ∷ []
compact (x ∷ y ∷ r) = let rest = compact (y ∷ r) in if x == y then rest else x ∷ rest

abbrev pub Lt : Text → Text → Type 0
Lt s t = compare s t ≡ Ordering.lt

abbrev pub IsStrict : List Text → Type 0
IsStrict = Pairwise Lt

-- Two lists with the same elements.
abbrev pub SameSet : List Text → List Text → Type 0
SameSet xs ys = (a : Text) → Mem a xs ↔ Mem a ys

Lt-prop : (s t : Text) → IsProp (Lt s t)
Lt-prop s t = hlevel

Text-set : IsSet Text
Text-set = hlevel

Lt_irrefl : (s : Text) → ¬ Lt s s
Lt_irrefl s h = ground (arith, compare_refl s)

Lt_asymm : (s t : Text) → Lt s t → ¬ Lt t s
Lt_asymm s t h k = ground (arith, compare-IsOrder.flips s t)

Lt-Le-trans : (s t u : Text) → Lt s t → Le compare t u → Lt s u
Lt-Le-trans s t u h k = ground (
  arith,
  compare-IsOrder.trans s t u,
  path_of_compare s u,
  compare-IsOrder.flips s t,
  compare-IsOrder.flips t u,
  ap (λ (v : Text). compare t v),
)

mem-compact : (a : Text) (l : List Text) → Mem a (compact l) ↔ Mem a l
unfolding compact
mem-compact a [] = ((λ m. m), (λ m. m))
mem-compact a (x ∷ []) = ((λ m. m), (λ m. m))
mem-compact a (x ∷ y ∷ r) = elim (Bool-cases (x == y)) [
  | inl e ↦ rw e (
    (λ m. mem-cons_of_mem x ((mem-compact a (y ∷ r)).0 m)),
    (λ m.
        (mem-compact a (y ∷ r)).1
          (Or.elim Mem-prop (mem-cons.0 m) (λ p. rw (p, (eq_iff x y).0 e) mem-cons_self) (λ k. k))),
  )
  | inr e ↦ rw e (
    (λ m.
        Or.elim Mem-prop (mem-cons.0 m) (λ p. rw p mem-cons_self)
          (λ k. mem-cons_of_mem x ((mem-compact a (y ∷ r)).0 k))),
    (λ m.
        Or.elim Mem-prop (mem-cons.0 m) (λ p. rw p mem-cons_self)
          (λ k. mem-cons_of_mem x ((mem-compact a (y ∷ r)).1 k))),
  )
]

compact-IsStrict : {l : List Text} → IsSorted compare l → IsStrict (compact l)
unfolding compact
compact-IsStrict {l = []} s = Pairwise.nil
compact-IsStrict {l = x ∷ []} s = Pairwise-singleton _ x
compact-IsStrict {l = x ∷ y ∷ r} s = elim (Bool-cases (x == y)) [
  | inl e ↦ rw e (compact-IsStrict (Pairwise.of_cons s))
  | inr e ↦ rw e (
      Pairwise.cons
        (λ c m. below (Pairwise.of_cons s) (Le-ne (le_head x s) e) ((mem-compact c (y ∷ r)).0 m))
        (compact-IsStrict (Pairwise.of_cons s)))
]
  where
    Le-ne : Le compare x y → (x == y) ≡ false → Lt x y
    Le-ne h e = ground (arith, eq_iff x y, path_of_compare x y)

    le_head : (x : Text) → IsSorted compare (x ∷ y ∷ r) → Le compare x y
    le_head x s = (Pairwise-cons.0 s).0 y mem-cons_self

    below : IsSorted compare (y ∷ r) → Lt x y → {c : Text} → Mem c (y ∷ r) → Lt x c
    below s h {c} m =
        Or.elim (Lt-prop x c) (mem-cons.0 m) (λ p. rw p h)
          λ k. Lt-Le-trans x y c h ((Pairwise-cons.0 s).0 c k)

above : {x a : Text} {xs : List Text} → IsStrict (x ∷ xs) → Mem a xs → Lt x a
above {a} s m = (Pairwise-cons.0 s).0 a m

-- Of two strict lists with the same elements, each head is the least element.
same_head :
    {x y : Text} {xs ys : List Text}
    → IsStrict (x ∷ xs)
    → IsStrict (y ∷ ys)
    → Mem x (y ∷ ys)
    → Mem y (x ∷ xs)
    → x ≡ y
same_head {x} {y} sx sy mx my =
    Or.elim (Text-set x y) (mem-cons.0 mx) (λ p. p)
      λ kx.
        Or.elim (Text-set x y) (mem-cons.0 my) (λ p. sym p)
          λ ky. absurd (Lt_asymm x y (above sx ky) (above sy kx))

tail_mem : {x y a : Text} {ys : List Text} → Lt x a → x ≡ y → Mem a (y ∷ ys) → Mem a ys
tail_mem {x} {y} {a} h e m =
    Or.elim Mem-prop (mem-cons.0 m) (λ p. absurd (Lt_irrefl x (subst (Lt x) (p ∙ sym e) h)))
      (λ k. k)

-- A set of texts has one strictly ascending list.
IsStrict-unique : (xs ys : List Text) → IsStrict xs → IsStrict ys → SameSet xs ys → xs ≡ ys
IsStrict-unique [] [] sx sy e = refl
IsStrict-unique [] (y ∷ ys) sx sy e = absurd (not-mem-nil ((e y).1 mem-cons_self))
IsStrict-unique (x ∷ xs) [] sx sy e = absurd (not-mem-nil ((e x).0 mem-cons_self))
IsStrict-unique (x ∷ xs) (y ∷ ys) sx sy e =
    let heads : x ≡ y = same_head sx sy ((e x).0 mem-cons_self) ((e y).1 mem-cons_self) in
    ap₂ ◌∷◌ heads (
      IsStrict-unique xs ys (Pairwise.of_cons sx) (Pairwise.of_cons sy) (λ a. (
        (λ m. tail_mem (above sx m) heads ((e a).0 (mem-cons_of_mem x m))),
        (λ m. tail_mem (above sy m) (sym heads) ((e a).1 (mem-cons_of_mem y m))),
      )))

module _ (l : List Text) where
  sorted : IsSorted compare (sort_func compare l)
  sorted = sort_func-IsSorted compare-IsOrder l

  pub normal-IsStrict : IsStrict (compact (sort_func compare l))
  normal-IsStrict = compact-IsStrict sorted

  pub mem-normal : (a : Text) → Mem a (compact (sort_func compare l)) ↔ Mem a l
  mem-normal a =
      let kept = mem-compact a (sort_func compare l) in
      let same = Perm.mem_iff (sort_func-perm compare l) in
      ((λ m. same.0 (kept.0 m)), (λ m. kept.1 (same.1 m)))

-- Sorting and compacting forgets the order and the repetitions, and nothing else.
pub normal_iff :
    (xs ys : List Text)
    → (compact (sort_func compare xs) ≡ compact (sort_func compare ys)) ↔ SameSet xs ys
normal_iff xs ys = (
  (λ p a. (
    (λ m. (mem-normal ys a).0 (subst (Mem a) p ((mem-normal xs a).1 m))),
    (λ m. (mem-normal xs a).0 (subst (Mem a) (sym p) ((mem-normal ys a).1 m))),
  )),
  (λ e. IsStrict-unique _ _ (normal-IsStrict xs) (normal-IsStrict ys) λ a. (
    (λ m. (mem-normal ys a).1 ((e a).0 ((mem-normal xs a).0 m))),
    (λ m. (mem-normal xs a).1 ((e a).1 ((mem-normal ys a).0 m))),
  )),
)
