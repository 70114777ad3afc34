-- ===== src/Prelude/Sort.antt =====
-- `slices.SortFunc`: a stable insertion sort by a comparison function, and what it returns when the
-- comparison is a total preorder.
use mathlib.Core.Logic.Or
use mathlib.Core.HLevel.{¬_prop}
use mathlib.Core.List.{
  Mem, Perm, Pairwise, Pairwise-cons, Pairwise-singleton, mem-cons, mem-cons_self, mem-cons_of_mem,
}
use mathlib.Core.List.Perm
use mathlib.Core.List.Pairwise
use Prim.Native.Nat.{Ordering}
use mathlib.Core.Path.{◌≡◌, refl, ap, ap₂, ◌∙◌}
use mathlib.Core.Bool.{Bool, ◌||◌}
use package.homelab_operator.Prelude.Lists.{any}
use mathlib.Core.Logic.{◌≢◌, ◌↔◌}
use mathlib.Core.List.{List, [], ◌∷◌}
use native.Mathlib.Omega.{arith}

abbrev pub flip : Ordering → Ordering
flip Ordering.lt = Ordering.gt
flip Ordering.eq = Ordering.eq
flip Ordering.gt = Ordering.lt

module _ {ℓ} {A : Type ℓ} where
  abbrev pub Le : (A → A → Ordering) → A → A → Type 0
  Le cmp a b = cmp a b ≢ Ordering.gt

  abbrev pub IsSorted : (A → A → Ordering) → List A → Type ℓ
  IsSorted cmp = Pairwise (Le cmp)

  insert_sorted : (A → A → Ordering) → A → List A → List A
  insert_sorted cmp x [] = x ∷ []
  insert_sorted cmp x (y ∷ ys) =
      let rest = insert_sorted cmp x ys in
      elim (cmp x y) [ Ordering.gt ↦ y ∷ rest | _ ↦ x ∷ y ∷ ys ]

  unfoldable pub sort_func : (A → A → Ordering) → List A → List A
  unfolding insert_sorted
  sort_func cmp [] = []
  sort_func cmp (x ∷ xs) = insert_sorted cmp x (sort_func cmp xs)

-- What `slices.SortFunc` asks of its comparison: a strict weak ordering.
pub record IsOrder {ℓ} {A : Type ℓ} (cmp : A → A → Ordering) : Type ℓ where
  pub flips : (a b : A) → cmp b a ≡ flip (cmp a b)
  pub trans : (a b c : A) → Le cmp a b → Le cmp b c → Le cmp a c

module _ {ℓ} {A : Type ℓ} (cmp : A → A → Ordering) where
  insert_sorted-perm : (x : A) (l : List A) → Perm (insert_sorted cmp x l) (x ∷ l)
  unfolding insert_sorted
  insert_sorted-perm x [] = Perm.rfl
  insert_sorted-perm x (y ∷ ys) =
      elim (cmp x y)
        as (λ o.
          Perm (elim o [ Ordering.gt ↦ y ∷ insert_sorted cmp x ys | _ ↦ x ∷ y ∷ ys ])
            (x ∷ y ∷ ys)) [
              | Ordering.lt ↦ Perm.rfl
              | Ordering.eq ↦ Perm.rfl
              | Ordering.gt ↦ Perm.trans (Perm.cons y (insert_sorted-perm x ys)) (Perm.swap x y ys)
            ]

  -- Sorting loses and invents nothing.
  pub sort_func-perm : (l : List A) → Perm (sort_func cmp l) l
  unfolding sort_func
  sort_func-perm [] = Perm.rfl
  sort_func-perm (x ∷ xs) =
      Perm.trans (insert_sorted-perm x (sort_func cmp xs)) (Perm.cons x (sort_func-perm xs))

  pub mem-sort_func : (a : A) (l : List A) → Mem a (sort_func cmp l) ↔ Mem a l
  mem-sort_func a l = Perm.mem_iff (sort_func-perm l)

module _ {ℓ} {A : Type ℓ} {cmp : A → A → Ordering} (o : IsOrder cmp) where
  le_of_gt : (a b : A) → cmp a b ≡ Ordering.gt → Le cmp b a
  le_of_gt a b h = ground (arith, o.flips a b)

  IsBelow-head :
      {a b : A} {l : List A}
      → Le cmp a b
      → IsSorted cmp (b ∷ l)
      → (c : A) → Mem c (b ∷ l)
      → Le cmp a c
  IsBelow-head {a} {b} h s c m =
      Or.elim (¬_prop) (mem-cons.0 m) (λ e. rw e h) λ k. o.trans a b c h ((Pairwise-cons.0 s).0 c k)

  IsBelow-insert :
      {x y : A} (ys : List A)
      → Le cmp y x
      → ((c : A) → Mem c ys → Le cmp y c)
      → (c : A) → Mem c (insert_sorted cmp x ys)
      → Le cmp y c
  IsBelow-insert {x} ys h below c m =
      Or.elim (¬_prop) (mem-cons.0 ((Perm.mem_iff (insert_sorted-perm cmp x ys)).0 m)) (λ e. rw e h)
        (below c)

  insert_sorted-IsSorted :
      (x : A) {l : List A} → IsSorted cmp l → IsSorted cmp (insert_sorted cmp x l)
  unfolding insert_sorted
  insert_sorted-IsSorted x Pairwise.nil = Pairwise-singleton _ x
  insert_sorted-IsSorted x (Pairwise.cons {a = y} {l = ys} below s) =
      by_cmp (cmp x y) refl (insert_sorted-IsSorted x s)
    where
      by_cmp :
          (r : Ordering)
          → cmp x y ≡ r
          → IsSorted cmp (insert_sorted cmp x ys)
          → IsSorted cmp (elim r [ Ordering.gt ↦ y ∷ insert_sorted cmp x ys | _ ↦ x ∷ y ∷ ys ])
      by_cmp Ordering.gt e ih = Pairwise.cons (IsBelow-insert ys (le_of_gt x y e) below) ih
      by_cmp _ e ih =
          let whole = Pairwise.cons below s in
          Pairwise.cons (IsBelow-head (ground arith) whole) whole

  -- Under a strict weak ordering the result is in order.
  pub sort_func-IsSorted : (l : List A) → IsSorted cmp (sort_func cmp l)
  unfolding sort_func
  sort_func-IsSorted [] = Pairwise.nil
  sort_func-IsSorted (x ∷ xs) = insert_sorted-IsSorted x (sort_func-IsSorted xs)

-- Elements of the list that compare equal are equal.
abbrev pub Separates {ℓ} : {A : Type ℓ} → (A → A → Ordering) → List A → Type ℓ
Separates {A = A} cmp l = (a b : A) → Mem a l → Mem b l → cmp a b ≡ Ordering.eq → a ≡ b

module _ {ℓ} {A : Type ℓ} {cmp : A → A → Ordering} (o : IsOrder cmp) where
  pub refl_le : (a : A) → Le cmp a a
  refl_le a = ground (arith, o.flips a a)

  pub heads_le : {a b : A} {l : List A} → IsSorted cmp (a ∷ l) → Mem b (a ∷ l) → Le cmp a b
  heads_le {a} {b} s m = IsBelow-head o (refl_le a) s b m

  -- A list has only one order that is sorted, if no two of its elements compare equal.
  pub IsSorted-unique :
      {l r : List A} → IsSorted cmp l → IsSorted cmp r → Perm l r → Separates cmp l → l ≡ r
  IsSorted-unique {l = []} _ _ p sep = Perm.nil-eq p
  IsSorted-unique {l = a ∷ l} {r = []} _ _ p sep = Perm.eq-nil p
  IsSorted-unique {l = a ∷ l} {r = b ∷ r} sl sr p sep =
      let b_in = (Perm.mem_iff p).1 mem-cons_self in
      let a_in = (Perm.mem_iff p).0 mem-cons_self in
      let heads : a ≡ b =
        sep a b mem-cons_self b_in
          (ground (arith, o.flips a b, heads_le sl b_in, heads_le sr a_in)) in
      let tails = Perm.cons_inv (Perm.trans p (Perm.symm (Perm.cons' heads Perm.rfl))) in
      ap₂ ◌∷◌ heads (
        IsSorted-unique {l = l} (Pairwise.of_cons sl) (Pairwise.of_cons sr) tails
          λ x y mx my. sep x y (mem-cons_of_mem a mx) (mem-cons_of_mem a my))

  -- The order in which the elements arrive does not show in the result.
  pub sort_func-eq_of_perm :
      {l r : List A} → Perm l r → Separates cmp l → sort_func cmp l ≡ sort_func cmp r
  sort_func-eq_of_perm {l} {r} p sep =
      IsSorted-unique (sort_func-IsSorted o l) (sort_func-IsSorted o r)
        (Perm.trans (sort_func-perm cmp l) (Perm.trans p (Perm.symm (sort_func-perm cmp r))))
        λ a b ma mb.
          sep a b ((Perm.mem_iff (sort_func-perm cmp l)).0 ma)
            ((Perm.mem_iff (sort_func-perm cmp l)).0 mb)

-- The same comparison of a field of the elements.
abbrev pub compare_on {ℓ κ} :
    {A : Type ℓ} {B : Type κ} → (B → B → Ordering) → (A → B) → A → A → Ordering
compare_on cmp f a b = cmp (f a) (f b)

pub compare_on-IsOrder {ℓ κ} :
    {A : Type ℓ} {B : Type κ} {cmp : B → B → Ordering} (f : A → B)
    → IsOrder cmp
    → IsOrder (compare_on cmp f)
compare_on-IsOrder f o = record {
  flips = λ a b. o.flips (f a) (f b);
  trans = λ a b c. o.trans (f a) (f b) (f c);
}

module _ {ℓ} {A : Type ℓ} (cmp cmp' : A → A → Ordering) where
  insert_sorted_congr :
      (x : A) (l : List A)
      → ((a : A) → Mem a l → cmp x a ≡ cmp' x a)
      → insert_sorted cmp x l ≡ insert_sorted cmp' x l
  unfolding insert_sorted
  insert_sorted_congr x [] h = refl
  insert_sorted_congr x (y ∷ ys) h =
      ground (arith, h y mem-cons_self, insert_sorted_congr x ys (λ a m. h a (mem-cons_of_mem y m)))

  -- Only the comparisons between elements of the list matter.
  pub sort_func_congr :
      (l : List A)
      → ((a b : A) → Mem a l → Mem b l → cmp a b ≡ cmp' a b)
      → sort_func cmp l ≡ sort_func cmp' l
  unfolding sort_func
  sort_func_congr [] h = refl
  sort_func_congr (x ∷ xs) h =
      rw (sort_func_congr xs (λ a b ma mb. h a b (mem-cons_of_mem x ma) (mem-cons_of_mem x mb))) (
        insert_sorted_congr x (sort_func cmp' xs) λ a m.
          h x a mem-cons_self (mem-cons_of_mem x ((Perm.mem_iff (sort_func-perm cmp' xs)).0 m)))

module _ {ℓ} {A : Type ℓ} (cmp : A → A → Ordering) (p : A → Bool) where
  any-insert_sorted : (x : A) (l : List A) → any p (insert_sorted cmp x l) ≡ (p x || any p l)
  unfolding insert_sorted
  any-insert_sorted x [] = refl
  any-insert_sorted x (y ∷ ys) = ground (arith, any-insert_sorted x ys)

  pub any-sort_func : (l : List A) → any p (sort_func cmp l) ≡ any p l
  unfolding sort_func
  any-sort_func [] = refl
  any-sort_func (x ∷ xs) =
      any-insert_sorted x (sort_func cmp xs) ∙ ap (◌||◌ (p x)) (any-sort_func xs)
