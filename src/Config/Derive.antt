-- ===== src/Config/Derive.antt =====
-- The derived defaults of `finalize`, and the configuration that `main` ends up with.
use homelab_operator.Prelude.{
  Text, false, not, ◌&&◌, ◌||◌, ◌≡◌, refl, inl, inr, Bool-cases, List, [], ◌∷◌, ◌++◌, ◌==◌, eq_iff,
  is_empty, arith,
}
use homelab_operator.Config.{Config, add_domain, derived_domains, finalize}
use homelab_operator.Config.Strings.{trim_space, trim_dot, contains}

-- A domain as it goes into the search list: trimmed, without its leading dot.
abbrev pub bare : Text → Text
bare raw = trim_dot (trim_space raw)

-- Every text occurs at most once.
abbrev pub IsDistinct : List Text → Type 0
IsDistinct [] = Unit
IsDistinct (x ∷ l) = (contains l x ≡ false) × IsDistinct l

contains-append :
    (l m : List Text) (d : Text) → contains (l ++ m) d ≡ (contains l d || contains m d)
unfolding contains
contains-append [] m d = refl
contains-append (x ∷ l) m d = ground (arith, contains-append l m d)

contains-add_domain :
    (out : List Text) (raw d : Text)
    → contains (add_domain out raw) d
      ≡ (contains out d || not (is_empty (bare raw)) && bare raw == d)
unfolding add_domain contains
contains-add_domain out raw d =
    ground (arith, contains-append out (bare raw ∷ []) d, eq_iff (bare raw) d)

any_bare :
    (a b c d : Text)
    → (((false || not (is_empty a) && a == d) || not (is_empty b) && b == d)
        || not (is_empty c) && c == d)
      ≡ (not (is_empty d) && (a == d || b == d || c == d))
any_bare a b c d = ground (arith, eq_iff a d, eq_iff b d, eq_iff c d)

-- A derived search list holds exactly the bare forms of the domain name and the two suffixes,
-- without the empty ones.
pub contains-derived_domains :
    (cfg : Config) (d : Text)
    → contains (derived_domains cfg) d ≡ (
        not (is_empty d)
        && (bare cfg.dnsmasq_domain_name == d
            || bare cfg.load_balancer_based_suffix == d
            || bare cfg.device_suffix == d))
unfolding derived_domains contains
contains-derived_domains cfg d =
    let a = bare cfg.dnsmasq_domain_name in
    let b = bare cfg.load_balancer_based_suffix in
    let c = bare cfg.device_suffix in
    let l = add_domain [] cfg.dnsmasq_domain_name in
    let m = add_domain l cfg.load_balancer_based_suffix in
    rw
      (
        contains-add_domain m cfg.device_suffix d,
        contains-add_domain l cfg.load_balancer_based_suffix d,
        contains-add_domain [] cfg.dnsmasq_domain_name d,
      )
      (any_bare a b c d)

IsDistinct-snoc :
    (l : List Text) (d : Text) → IsDistinct l → contains l d ≡ false → IsDistinct (l ++ (d ∷ []))
unfolding contains
IsDistinct-snoc [] d h k = (refl, tt)
IsDistinct-snoc (x ∷ l) d h k = (
  ground (arith, contains-append l (d ∷ []) x, eq_iff x d, eq_iff d x),
  IsDistinct-snoc l d h.1 (ground arith),
)

add_domain-IsDistinct :
    (out : List Text) (raw : Text) → IsDistinct out → IsDistinct (add_domain out raw)
unfolding add_domain
add_domain-IsDistinct out raw h = elim (Bool-cases (is_empty (bare raw))) [
  | inl e ↦ rw e h
  | inr e ↦ elim (Bool-cases (contains out (bare raw))) [
    | inl k ↦ rw (e, k) h
    | inr k ↦ rw (e, k) (IsDistinct-snoc out (bare raw) h k)
  ]
]

-- A derived search list has no repetition.
pub derived_domains-IsDistinct : (cfg : Config) → IsDistinct (derived_domains cfg)
unfolding derived_domains contains
derived_domains-IsDistinct cfg = add_domain-IsDistinct _ cfg.device_suffix (
    add_domain-IsDistinct _ cfg.load_balancer_based_suffix
      (add_domain-IsDistinct [] cfg.dnsmasq_domain_name tt))

-- Deriving the defaults a second time changes nothing.
pub finalize_idem : (cfg : Config) → finalize (finalize cfg) ≡ finalize cfg
unfolding finalize
finalize_idem cfg = ground arith
