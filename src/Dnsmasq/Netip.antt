-- ===== src/Dnsmasq/Netip.antt =====
-- The part of Go's net/netip that `compareIP` uses: `Addr`, `Addr.Compare` and `ParseAddr`.
-- The parser of dotted quads is written out; that of IPv6 texts is a parameter.
use homelab_operator.Prelude.{
  ℕ, ◌+◌, ◌-◌, ◌*◌, ◌≡◌, refl, Ordering, Text, ◌&&◌, ◌||◌, Option, none, some, [], ◌∷◌, codes, leb,
  ltb, nat_eq, if◌then◌else◌, arith, compare, compare-IsOrder,
}
use homelab_operator.Prelude.Sort.{IsOrder}
use Prim.Native.Nat.{compare as compare_ℕ}

-- `value` is the address as a number, `bit_len` 32 or 128, `zone` the IPv6 zone.
pub record Addr : Type 0 where
  pub bit_len : ℕ
  pub value : ℕ
  pub zone : Text

-- `Addr.Compare`: by bit length, then by address, then by zone.
unfoldable pub addr_compare : Addr → Addr → Ordering
addr_compare a b = elim (compare_ℕ a.bit_len b.bit_len) [
  | Ordering.lt ↦ Ordering.lt
  | Ordering.gt ↦ Ordering.gt
  | Ordering.eq ↦ elim (compare_ℕ a.value b.value) [
    | Ordering.lt ↦ Ordering.lt
    | Ordering.gt ↦ Ordering.gt
    | Ordering.eq ↦ compare a.zone b.zone
  ]
]

pub addr_compare-IsOrder : IsOrder addr_compare
unfolding addr_compare
addr_compare-IsOrder = record {
  flips = λ a b. ground (arith, compare-IsOrder.flips a.zone b.zone);
  trans = λ a b c. ground (arith, compare-IsOrder.trans a.zone b.zone c.zone);
}

-- One octet's value and number of digits, the octets before it and their number.
parse_fields : Text → ℕ → ℕ → ℕ → ℕ → Option ℕ
parse_fields [] val dig_len pos acc =
    if nat_eq dig_len 0 || ltb pos 3 then none else some (acc * 256 + val)
parse_fields (c ∷ s) val dig_len pos acc =
    let digit = parse_fields s (val * 10 + (c - b'0')) (dig_len + 1) pos acc in
    let dot = parse_fields s 0 0 (pos + 1) (acc * 256 + val) in
    if leb b'0' c && leb c b'9'
    then (if nat_eq dig_len 1 && nat_eq val 0 || ltb 255 (val * 10 + (c - b'0'))
        then none
        else digit)
    else (if nat_eq c b'.' then (if nat_eq dig_len 0 || nat_eq pos 3 then none else dot) else none)

unfoldable pub parse_ipv4 : Text → Option Addr
unfolding parse_fields
parse_ipv4 s = elim (parse_fields s 0 0 0 0) [
  | none ↦ none
  | some v ↦ some (record { bit_len = 32; value = v; zone = [] })
]

-- The first of `.`, `:` and `%` decides which parser reads the whole text.
dispatch : (Text → Option Addr) → Text → Text → Option Addr
dispatch v6 whole [] = none
dispatch v6 whole (c ∷ s) =
    let rest = dispatch v6 whole s in
    if nat_eq c b'.'
    then parse_ipv4 whole
    else (if nat_eq c b':' then v6 whole else (if nat_eq c b'%' then none else rest))

-- `netip.ParseAddr`, with `v6` for the parser of IPv6 texts.
unfoldable pub parse_addr : (Text → Option Addr) → Text → Option Addr
unfolding dispatch parse_ipv4
parse_addr v6 s = dispatch v6 s s

-- A stand-in for the parser of IPv6 texts in tests: it refuses every text.
abbrev pub no_ipv6 : Text → Option Addr
no_ipv6 s = none

parse_quad :
    parse_addr no_ipv6 (codes "10.1.21.5")
    ≡ some (record { bit_len = 32; value = 167843077; zone = [] })
unfolding parse_addr
parse_quad = refl

parse_leading_zero : parse_addr no_ipv6 (codes "10.01.2.3") ≡ none
unfolding parse_addr
parse_leading_zero = refl

parse_short : parse_addr no_ipv6 (codes "10.1.2.") ≡ none
unfolding parse_addr
parse_short = refl
