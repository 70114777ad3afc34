-- ===== src/Prelude/Lookup.antt =====
-- A dictionary that a loop fills, and lookups in it by membership in what the loop ran over.
use mathlib.Core.Logic.Or
use mathlib.Core.Path.{◌≡◌, refl, sym, ap, ◌∙◌}
use mathlib.Core.Bool.{Bool, true, false}
use mathlib.Core.Logic.{◌↔◌, inl, inr}
use mathlib.Core.Option.{Option, none, some}
use mathlib.Core.List.{
  List, [], ◌∷◌, Mem, Mem-prop, mem-cons, mem-cons_self, mem-cons_of_mem, not-mem-nil,
}
use native.Mathlib.Omega.{arith}
use package.homelab_operator.Prelude.Tests.{if◌then◌else◌, Bool-cases}
use package.homelab_operator.Prelude.Bytes.{Text, ◌==◌, eq_iff}
use package.homelab_operator.Prelude.Lists.{any, keep}
use package.homelab_operator.Prelude.Dict.{Dict, get, put, get-put}

-- If an element of the list passes the test, so does the list.
pub any_of_mem {ℓ} :
    {A : Type ℓ} (p : A → Bool) (a : A) (l : List A) → Mem a l → p a ≡ true → any p l ≡ true
any_of_mem p a [] m h = absurd (not-mem-nil m)
any_of_mem p a (x ∷ l) m h =
    Or.elim (hlevel) (mem-cons.0 m) (λ e. ground (arith, ap p e))
      λ k. ground (arith, any_of_mem p a l k h)

-- If no element passes the test, the list does not.
pub any_of_none {ℓ} :
    {A : Type ℓ} (p : A → Bool) (l : List A) → ((x : A) → Mem x l → p x ≡ false) → any p l ≡ false
any_of_none p [] h = refl
any_of_none p (x ∷ l) h =
    ground (arith, h x mem-cons_self, any_of_none p l (λ y m. h y (mem-cons_of_mem x m)))

-- A test that only one element can pass is decided by that element.
pub any_of_unique {ℓ} :
    {A : Type ℓ} (p : A → Bool) (a : A) (l : List A)
    → Mem a l
    → ((x : A) → Mem x l → p x ≡ true → x ≡ a)
    → any p l ≡ p a
any_of_unique p a l m h = elim (Bool-cases (p a)) [
  | inl e ↦ any_of_mem p a l m e ∙ sym e
  | inr e ↦
      any_of_none p l (λ x k. elim (Bool-cases (p x)) [
        | inl t ↦ absurd (ground (arith, ap p (h x k t)))
        | inr f ↦ f
      ])
      ∙ sym e
]

unfoldable pub put_some {ℓ} : {V : Type ℓ} → Option (Text × V) → Dict V → Dict V
put_some none m = m
put_some (some (k, v)) m = put k v m

module _ {ℓ κ} {A : Type ℓ} {V : Type κ} (f : A → Option (Text × V)) where
  -- `for _, x := range l { m[key(x)] = value(x) }`, where some elements may be passed over.
  unfoldable pub put_all : List A → Dict V → Dict V
  unfolding put_some
  put_all [] m = m
  put_all (x ∷ l) m = put_all l (put_some (f x) m)

  abbrev pub has_key : Text → Option (Text × V) → Bool
  has_key k none = false
  has_key k (some (j, v)) = j == k

  put_some-lem :
      (k : Text) (v : V) (o : Option (Text × V)) (m : Dict V)
      → ((w : V) → o ≡ some (k, w) → w ≡ v)
      → get k (put_some o m) ≡ (if has_key k o then some v else get k m)
  unfolding put_some
  put_some-lem k v none m h = refl
  put_some-lem k v (some (j, w)) m h = elim (Bool-cases (j == k)) [
    | inl e ↦
        rw (get-put j k w m, e) (ap some (h w (ap (λ (t : Text). some (t, w)) ((eq_iff j k).0 e))))
    | inr e ↦ rw (get-put j k w m, e)
  ]

  -- A lookup finds the value that all elements with the key agree on, and else what was there.
  pub get-put_all :
      (k : Text) (v : V) (l : List A) (m : Dict V)
      → ((x : A) → Mem x l → (w : V) → f x ≡ some (k, w) → w ≡ v)
      → get k (put_all l m) ≡ (if any (λ x. has_key k (f x)) l then some v else get k m)
  unfolding put_all
  get-put_all k v [] m h = refl
  get-put_all k v (x ∷ l) m h = ground (
    arith,
    get-put_all k v l (put_some (f x) m) (λ y k. h y (mem-cons_of_mem x k)),
    put_some-lem k v (f x) m (h x mem-cons_self),
  )

pub mem-keep {ℓ} :
    {A : Type ℓ} (p : A → Bool) (a : A) (l : List A) → Mem a (keep p l) ↔ (Mem a l × (p a ≡ true))
mem-keep p a [] = ((λ h. absurd (not-mem-nil h)), (λ h. absurd (not-mem-nil h.0)))
mem-keep p a (x ∷ l) = elim (Bool-cases (p x)) [
  | inl e ↦ rw e (
    (λ h.
        Or.elim both_prop (mem-cons.0 h) (λ q. (rw q mem-cons_self, rw q e))
          λ k. (mem-cons_of_mem x ((mem-keep p a l).0 k).0, ((mem-keep p a l).0 k).1)),
    (λ (h, t).
        Or.elim Mem-prop (mem-cons.0 h) (λ q. rw q mem-cons_self)
          λ k. mem-cons_of_mem x ((mem-keep p a l).1 (k, t))),
  )
  | inr e ↦ rw e (
    (λ h. (mem-cons_of_mem x ((mem-keep p a l).0 h).0, ((mem-keep p a l).0 h).1)),
    (λ (h, t).
        Or.elim Mem-prop (mem-cons.0 h) (λ q. absurd (ground (arith, ap p q)))
          λ k. (mem-keep p a l).1 (k, t)),
  )
]
  where
    both_prop : IsProp (Mem a (x ∷ l) × (p a ≡ true))
    both_prop = hlevel Mem-prop
