-- ===== src/Config/CommaList.antt =====
-- Comma-separated settings: what `splitCommaList` returns, and that it undoes `strings.Join`.
use homelab_operator.Prelude.{
  ℕ, Text, false, ◌&&◌, ◌≡◌, ◌≢◌, refl, ap, ◌∙◌, inl, inr, Bool-cases, List, [], ◌∷◌, ◌++◌,
  is_empty, nat_eq, arith,
}
use homelab_operator.Prelude.Lists.{All}
use homelab_operator.Config.{keep_parts, split_comma_list}
use homelab_operator.Config.Strings.{
  comma, is_space, trim_left, trim_right, trim_space, split, extend, join,
}

abbrev pub NoComma : Text → Type 0
NoComma = All (λ c. c ≢ comma)

-- What an item of a comma-separated list is: not empty, without a comma, and trimmed.
abbrev pub IsClean : Text → Type 0
IsClean x = (is_empty x ≡ false) × NoComma x × (trim_space x ≡ x)

trim_right_idem : (s : Text) → trim_right (trim_right s) ≡ trim_right s
unfolding trim_right
trim_right_idem [] = refl
trim_right_idem (c ∷ s) = ground (arith, trim_right_idem s)

trim_left-trim_right : (s : Text) → trim_left (trim_right (trim_left s)) ≡ trim_right (trim_left s)
unfolding trim_right trim_left
trim_left-trim_right [] = refl
trim_left-trim_right (c ∷ s) = ground (arith, trim_left-trim_right s)

pub trim_space_idem : (s : Text) → trim_space (trim_space s) ≡ trim_space s
unfolding trim_space
trim_space_idem s = ap trim_right (trim_left-trim_right s) ∙ trim_right_idem (trim_left s)

NoComma-trim_left : (s : Text) → NoComma s → NoComma (trim_left s)
unfolding trim_left
NoComma-trim_left [] h = h
NoComma-trim_left (c ∷ s) h = elim (Bool-cases (is_space c)) [
  | inl e ↦ rw e (NoComma-trim_left s h.1)
  | inr e ↦ rw e h
]

NoComma-trim_right : (s : Text) → NoComma s → NoComma (trim_right s)
unfolding trim_right
NoComma-trim_right [] h = h
NoComma-trim_right (c ∷ s) h = elim (Bool-cases (is_space c && is_empty (trim_right s))) [
  | inl e ↦ rw e tt
  | inr e ↦ rw e (h.0, NoComma-trim_right s h.1)
]

NoComma-trim_space : (s : Text) → NoComma s → NoComma (trim_space s)
unfolding trim_space
NoComma-trim_space s h = NoComma-trim_right (trim_left s) (NoComma-trim_left s h)

NoComma-extend : (c : ℕ) (l : List Text) → c ≢ comma → All NoComma l → All NoComma (extend c l)
unfolding extend
NoComma-extend c [] h k = ((h, tt), tt)
NoComma-extend c (x ∷ l) h k = ((h, k.0), k.1)

NoComma-split : (s : Text) → All NoComma (split s)
unfolding split
NoComma-split [] = (tt, tt)
NoComma-split (c ∷ s) = elim (Bool-cases (nat_eq c comma)) [
  | inl e ↦ rw e (tt, NoComma-split s)
  | inr e ↦ rw e (NoComma-extend c (split s) (ground arith) (NoComma-split s))
]

IsClean-keep_parts : (l : List Text) → All NoComma l → All IsClean (keep_parts l)
unfolding keep_parts
IsClean-keep_parts [] h = tt
IsClean-keep_parts (x ∷ l) h = elim (Bool-cases (is_empty (trim_space x))) [
  | inl e ↦ rw e (IsClean-keep_parts l h.1)
  | inr e ↦ rw e ((e, NoComma-trim_space x h.0, trim_space_idem x), IsClean-keep_parts l h.1)
]

-- Every item that `splitCommaList` returns is non-empty, trimmed and free of commas.
pub IsClean-split_comma_list : (s : Text) → All IsClean (split_comma_list s)
unfolding split_comma_list
IsClean-split_comma_list [] = tt
IsClean-split_comma_list (c ∷ s) = IsClean-keep_parts (split (c ∷ s)) (NoComma-split (c ∷ s))

keep_parts-IsClean : (l : List Text) → All IsClean l → keep_parts l ≡ l
unfolding keep_parts
keep_parts-IsClean [] h = refl
keep_parts-IsClean (x ∷ l) h = rw (h.0.2, h.0.0) (ap (◌∷◌ x) (keep_parts-IsClean l h.1))

split-last : (x : Text) → NoComma x → split x ≡ x ∷ []
unfolding split extend
split-last [] h = refl
split-last (c ∷ s) h = ground (arith, split-last s h.1)

split-next : (x r : Text) → NoComma x → split (x ++ (comma ∷ r)) ≡ x ∷ split r
unfolding split extend
split-next [] r h = refl
split-next (c ∷ s) r h = ground (arith, split-next s r h.1)

split-join : (x : Text) (l : List Text) → All NoComma (x ∷ l) → split (join (x ∷ l)) ≡ x ∷ l
unfolding join
split-join x [] h = split-last x h.0
split-join x (y ∷ l) h = split-next x (join (y ∷ l)) h.0 ∙ ap (◌∷◌ x) (split-join y l h.1)

All-NoComma : (l : List Text) → All IsClean l → All NoComma l
All-NoComma [] h = tt
All-NoComma (x ∷ l) h = (h.0.1, All-NoComma l h.1)

join-ne-nil : (x : Text) (l : List Text) → is_empty x ≡ false → is_empty (join (x ∷ l)) ≡ false
unfolding join
join-ne-nil [] l h = cc
join-ne-nil (c ∷ x) [] h = refl
join-ne-nil (c ∷ x) (y ∷ l) h = refl

-- `splitCommaList` undoes `strings.Join` on clean items.
pub split_comma_list-join : (l : List Text) → All IsClean l → split_comma_list (join l) ≡ l
unfolding split_comma_list
split_comma_list-join [] h = unfold join in refl
split_comma_list-join (x ∷ l) h =
    rw (join-ne-nil x l h.0.0, split-join x l (All-NoComma (x ∷ l) h))
      (keep_parts-IsClean (x ∷ l) h)
