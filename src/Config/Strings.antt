-- ===== src/Config/Strings.antt =====
-- The functions of Go's strings package that internal/config uses, on ASCII white space.
use homelab_operator.Prelude.{
  ℕ, Text, Bool, false, ◌&&◌, ◌||◌, List, [], ◌∷◌, ◌++◌, ◌==◌, nat_eq, is_empty, if◌then◌else◌,
}

-- `\t`, `\n`, `\v`, `\f`, `\r` and the space.
unfoldable pub is_space : ℕ → Bool
is_space c = nat_eq c 9 || nat_eq c 10 || nat_eq c 11 || nat_eq c 12 || nat_eq c 13 || nat_eq c 32

unfoldable pub trim_left : Text → Text
trim_left [] = []
trim_left (c ∷ s) = if is_space c then trim_left s else c ∷ s

unfoldable pub trim_right : Text → Text
trim_right [] = []
trim_right (c ∷ s) = let rest = trim_right s in if is_space c && is_empty rest then [] else c ∷ rest

-- `strings.TrimSpace`
unfoldable pub trim_space : Text → Text
unfolding trim_left trim_right is_space
trim_space s = trim_right (trim_left s)

-- `strings.TrimPrefix(s, ".")`
unfoldable pub trim_dot : Text → Text
trim_dot [] = []
trim_dot (c ∷ s) = if nat_eq c b'.' then s else c ∷ s

abbrev pub comma : ℕ
comma = b','

-- A character before the first part.
unfoldable pub extend : ℕ → List Text → List Text
extend c [] = (c ∷ []) ∷ []
extend c (part ∷ parts) = (c ∷ part) ∷ parts

-- `strings.SplitSeq(s, ",")`
unfoldable pub split : Text → List Text
unfolding extend
split [] = [] ∷ []
split (c ∷ s) = let rest = split s in if nat_eq c comma then [] ∷ rest else extend c rest

-- `strings.Join(l, ",")`
unfoldable pub join : List Text → Text
join [] = []
join (x ∷ []) = x
join (x ∷ y ∷ l) = x ++ (comma ∷ join (y ∷ l))

-- `slices.Contains`
unfoldable pub contains : List Text → Text → Bool
contains [] x = false
contains (y ∷ l) x = y == x || contains l x
