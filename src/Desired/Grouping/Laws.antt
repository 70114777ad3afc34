-- ===== src/Desired/Grouping/Laws.antt =====
-- Collected hosts in normal form depend only on what stands under each key, up to the order and the
-- repetition of hostnames.
use mathlib.Core.Option
use mathlib.Core.Logic.Or
use mathlib.Core.Logic.{∥∥₁_elim}
use mathlib.Core.List.{
  Mem, Mem-prop, Nodup, perm_ext_iff_of_Nodup, mem-cons, mem-cons_self, mem-cons_of_mem,
  not-mem-nil,
}
use homelab_operator.Prelude.{
  Text, Option, none, some, ◌≡◌, ◌↔◌, refl, sym, ap, ◌∙◌, inl, inr, Option-cases, List, [], ◌∷◌,
  ◌++◌, map, compare, compare-IsOrder, path_of_compare, ◌==◌, if◌then◌else◌, arith,
}
use homelab_operator.Prelude.Sort.{sort_func, mem-sort_func, sort_func-eq_of_perm}
use homelab_operator.Prelude.Dict.{Dict, get, keys, get-put}
use homelab_operator.Prelude.Keys.{
  is_some, is_some_of_mem-keys, mem-keys_of_is_some, Nodup-keys-put,
}
use homelab_operator.Dnsmasq.{DnsHostEntry, normalize_entry}
use homelab_operator.Desired.Grouping.{append_hostnames, collect, sorted_hosts}

-- Under each key both have the same entry in normal form, or none.
abbrev pub SameNormal : Dict DnsHostEntry → Dict DnsHostEntry → Type 0
SameNormal m m' =
    (k : Text) → Option.map normalize_entry (get k m) ≡ Option.map normalize_entry (get k m')

is_some-map : (o : Option DnsHostEntry) → is_some (Option.map normalize_entry o) ≡ is_some o
is_some-map none = refl
is_some-map (some e) = refl

module _ (m m' : Dict DnsHostEntry) (same : SameNormal m m') where
  mem-keys_same : (k : Text) → Mem k (keys m) → Mem k (keys m')
  mem-keys_same k h = mem-keys_of_is_some k m' (
      sym (is_some-map (get k m'))
      ∙ ap is_some (sym (same k))
      ∙ is_some-map (get k m)
      ∙ is_some_of_mem-keys k m h)

  collect_same :
      (ks : List Text) → map normalize_entry (collect m ks) ≡ map normalize_entry (collect m' ks)
  unfolding collect
  collect_same [] = refl
  collect_same (k ∷ ks) = ground (arith, same k, collect_same ks)

-- Dictionaries with the same normal entries list the same normal hosts.
pub sorted_hosts_same :
    (m m' : Dict DnsHostEntry)
    → SameNormal m m'
    → Nodup (keys m)
    → Nodup (keys m')
    → map normalize_entry (sorted_hosts m) ≡ map normalize_entry (sorted_hosts m')
unfolding sorted_hosts
sorted_hosts_same m m' same nm nm' =
    collect_same m m' same (sort_func compare (keys m))
    ∙ ap (λ ks. map normalize_entry (collect m' ks))
        (sort_func-eq_of_perm compare-IsOrder
          ((perm_ext_iff_of_Nodup nm nm').1
            λ k. (mem-keys_same m m' same k, mem-keys_same m' m (λ j. sym (same j)) k))
          λ a b _ _ e. path_of_compare a b e)

pub Nodup-append_hostnames :
    (k ip : Text) (hs : List Text) (m : Dict DnsHostEntry)
    → Nodup (keys m)
    → Nodup (keys (append_hostnames k ip hs m))
unfolding append_hostnames
Nodup-append_hostnames k ip hs m h = elim (Option-cases (get k m)) [
  | inl e ↦ rw (e, append_hostnames) (Nodup-keys-put k _ m h)
  | inr (s, e) ↦ rw (e, append_hostnames) (Nodup-keys-put k _ m h)
]

-- The entry after hostnames are appended to what was there.
abbrev pub extended : Text → List Text → Option DnsHostEntry → Option DnsHostEntry
extended ip hs none = some (record { ip = ip; hostnames = hs })
extended ip hs (some e) = some (record e { hostnames = e.hostnames ++ hs })

pub get-append_hostnames :
    (k j ip : Text) (hs : List Text) (m : Dict DnsHostEntry)
    → get j (append_hostnames k ip hs m) ≡ (if k == j then extended ip hs (get k m) else get j m)
unfolding append_hostnames
get-append_hostnames k j ip hs m = elim (Option-cases (get k m)) [
  | inl e ↦ rw (e, append_hostnames) (get-put k j _ m)
  | inr (s, e) ↦ rw (e, append_hostnames) (get-put k j _ m)
]

mem-collect :
    (m : Dict DnsHostEntry) (e : DnsHostEntry) (ks : List Text)
    → Mem e (collect m ks)
    → ∥ ((k : Text) × (get k m ≡ some e)) ∥₁
unfolding collect
mem-collect m e [] h = absurd (not-mem-nil h)
mem-collect m e (k ∷ ks) h = elim (Option-cases (get k m)) [
  | inl n ↦ mem-collect m e ks (rw (n, collect) at h)
  | inr (a, n) ↦
      Or.elim squash₁ (mem-cons.0 (rw (n, collect) at h)) (λ p. ∣ (k, n ∙ ap some (sym p)) ∣₁)
        (mem-collect m e ks)
]

collect-mem :
    (m : Dict DnsHostEntry) (e : DnsHostEntry) (k : Text) (ks : List Text)
    → get k m ≡ some e
    → Mem k ks
    → Mem e (collect m ks)
unfolding collect
collect-mem m e k [] h i = absurd (not-mem-nil i)
collect-mem m e k (j ∷ ks) h i =
    Or.elim Mem-prop (mem-cons.0 i) (λ p. rw (sym p, h, collect) mem-cons_self)
      (λ q. elim (Option-cases (get j m)) [
        | inl n ↦ rw (n, collect) (collect-mem m e k ks h q)
        | inr (a, n) ↦ rw (n, collect) (mem-cons_of_mem a (collect-mem m e k ks h q))
      ])

-- The entries that are listed are those that stand under the keys.
pub mem-sorted_hosts :
    (m : Dict DnsHostEntry) (e : DnsHostEntry)
    → Mem e (sorted_hosts m) ↔ ∥ ((k : Text) × (get k m ≡ some e)) ∥₁
unfolding sorted_hosts
mem-sorted_hosts m e = (
  mem-collect m e (sort_func compare (keys m)),
  (λ t. ∥∥₁_elim t Mem-prop λ (k, h).
      collect-mem m e k _ h
        ((mem-sort_func compare k (keys m)).1 (mem-keys_of_is_some k m (rw h)))),
)
