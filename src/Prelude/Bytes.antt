-- ===== src/Prelude/Bytes.antt =====
-- Go strings: sequences of bytes. `==` is Go's `==`, `compare` is `cmp.Compare` and
-- `strings.Compare` (bytewise, lexicographic), `++` is `+`.
use Prim.Native.Nat.{ℕ, Ordering, compare as compare_ℕ}
use Prim.Native.Char.{code}
use Prim.Native.String.{String}
use mathlib.Core.Path.{◌≡◌, refl}
use mathlib.Core.Logic.{◌↔◌, ◌≢◌}
use mathlib.Core.Bool.{Bool, true, false, ◌&&◌}
use mathlib.Core.List.{List, [], ◌∷◌, ◌++◌}
use native.Mathlib.Omega.{arith}
use package.homelab_operator.Prelude.Tests.{nat_eq}
use package.homelab_operator.Prelude.Sort.{flip, IsOrder}

abbrev pub Text : Type 0
Text = List ℕ

-- The bytes of an ASCII literal.
abbrev pub codes : String → Text
codes String.[] = []
codes (String.◌∷◌ c s) = code c ∷ codes s

infix 50 ◌==◌
unfoldable pub ◌==◌ : Text → Text → Bool
[] == [] = true
(x ∷ s) == (y ∷ t) = nat_eq x y && s == t
_ == _ = false

eq→path : (s t : Text) → (s == t) ≡ true → s ≡ t
unfolding ◌==◌
eq→path [] [] h = refl
eq→path (x ∷ s) (y ∷ t) h = ground (arith, eq→path s t)
eq→path [] (y ∷ t) h = ground arith
eq→path (x ∷ s) [] h = ground arith

pub eq_refl : (s : Text) → (s == s) ≡ true
unfolding ◌==◌
eq_refl [] = refl
eq_refl (x ∷ s) = ground (arith, eq_refl s)

path→eq : (s t : Text) → s ≡ t → (s == t) ≡ true
path→eq s t p = rw p (eq_refl t)

pub eq_iff : (s t : Text) → ((s == t) ≡ true) ↔ (s ≡ t)
eq_iff s t = (eq→path s t, path→eq s t)

abbrev pub is_empty : Text → Bool
is_empty [] = true
is_empty (x ∷ s) = false

unfoldable pub compare : Text → Text → Ordering
compare [] [] = Ordering.eq
compare [] (y ∷ t) = Ordering.lt
compare (x ∷ s) [] = Ordering.gt
compare (x ∷ s) (y ∷ t) = elim (compare_ℕ x y) [
  | Ordering.lt ↦ Ordering.lt
  | Ordering.gt ↦ Ordering.gt
  | Ordering.eq ↦ compare s t
]

pub compare_refl : (s : Text) → compare s s ≡ Ordering.eq
unfolding compare
compare_refl [] = refl
compare_refl (x ∷ s) = ground (arith, compare_refl s)

pub path_of_compare : (s t : Text) → compare s t ≡ Ordering.eq → s ≡ t
unfolding compare
path_of_compare [] [] h = refl
path_of_compare [] (y ∷ t) h = ground arith
path_of_compare (x ∷ s) [] h = ground arith
path_of_compare (x ∷ s) (y ∷ t) h = ground (arith, path_of_compare s t)

compare-flips : (s t : Text) → compare t s ≡ flip (compare s t)
unfolding compare
compare-flips [] [] = refl
compare-flips [] (y ∷ t) = refl
compare-flips (x ∷ s) [] = refl
compare-flips (x ∷ s) (y ∷ t) = ground (arith, compare-flips s t)

compare_trans :
    (s t u : Text)
    → compare s t ≢ Ordering.gt
    → compare t u ≢ Ordering.gt
    → compare s u ≢ Ordering.gt
unfolding compare
compare_trans [] _ [] h k = ground arith
compare_trans [] _ (z ∷ u) h k = ground arith
compare_trans (x ∷ s) [] u h k = ground arith
compare_trans (x ∷ s) (y ∷ t) [] h k = ground arith
compare_trans (x ∷ s) (y ∷ t) (z ∷ u) h k = ground (arith, compare_trans s t u)

pub compare-IsOrder : IsOrder compare
compare-IsOrder = record { flips = compare-flips; trans = compare_trans }

pub append_cancel : (p s t : Text) → p ++ s ≡ p ++ t → s ≡ t
append_cancel [] s t h = h
append_cancel (x ∷ p) s t h = append_cancel p s t (cc)
