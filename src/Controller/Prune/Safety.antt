-- ===== src/Controller/Prune/Safety.antt =====
-- What the prune deletes, and what it never touches.
use mathlib.Core.List.{Mem, mem-cons_self, mem-cons_of_mem}
use homelab_operator.Prelude.{
  Text, false, not, some, ◌≡◌, refl, ap, List, [], ◌∷◌, inl, inr, Bool-cases,
}
use homelab_operator.Prelude.Lists.{keep, All}
use homelab_operator.Prelude.Dict.{get}
use homelab_operator.Prelude.Keys.{is_some}
use homelab_operator.Labels.{managed_by, managed_by_value, aggregate_key}
use homelab_operator.Cluster.{Gvk, Object, Client, ok}
use homelab_operator.Cluster.Exec.{
  Exec, pure, ◌>>◌, Keeps, Keeps-pure, Keeps-if, Keeps-bind, Keeps-reads-bind,
}
use homelab_operator.Dnsmasq.Unstructured.{dhcp_hosts_gvk, dns_hosts_gvk}
use homelab_operator.Config.{Config}
use homelab_operator.Controller.Prune.{NameSet, delete_stale, prune_kinds, prune_managed}

-- An object of the kind and the namespace that carries the operator's label and that of the aggregate.
pub record IsManaged (gvk : Gvk) (namespace aggregate : Text) (item : Object) : Type 0 where
  pub of_kind : item.gvk ≡ gvk
  pub in_namespace : item.namespace ≡ namespace
  pub by_operator : get managed_by item.labels ≡ some managed_by_value
  pub of_aggregate : get aggregate_key item.labels ≡ some aggregate

-- `List` with `InNamespace` and `MatchingLabels` returns only objects that match.
pub record ListSelects {W : Type 0} (c : Client W) : Type 0 where
  pub selects :
      (w : W) (gvk : Gvk) (namespace aggregate : Text) (items : List Object)
      → c.list_managed w gvk namespace aggregate ≡ ok items
      → (item : Object) → Mem item items
      → IsManaged gvk namespace aggregate item

-- The kinds that are pruned, where none is given.
abbrev pub pruned_kinds : List Gvk → List Gvk
pruned_kinds [] = dhcp_hosts_gvk ∷ dns_hosts_gvk ∷ []
pruned_kinds (gvk ∷ gvks) = gvk ∷ gvks

module _ {W : Type 0} (c : Client W) (P : W → Type 0) (names : NameSet)
    (namespace aggregate : Text) where
  -- The deletion of an object of the kind that the operator manages and whose name is not kept
  -- leaves a state with `P` in a state with `P`.
  abbrev pub Survives : Gvk → Type 0
  Survives gvk =
      (item : Object) (w : W)
      → IsManaged gvk namespace aggregate item
      → is_some (get item.name names) ≡ false
      → P w
      → P (c.delete item w).1

module _ {W : Type 0} (c : Client W) (cfg : Config) (P : W → Type 0) (names : NameSet)
    (namespace aggregate : Text) where
  pub Keeps-delete_stale :
      (items : List Object)
      → ((item : Object)
          → Mem item items
          → is_some (get item.name names) ≡ false
          → Keeps P (c.delete item))
      → Keeps P (delete_stale c cfg names items)
  unfolding delete_stale
  Keeps-delete_stale [] safe = Keeps-pure _
  Keeps-delete_stale (item ∷ items) safe =
      let rest = Keeps-delete_stale items (λ x m. safe x (mem-cons_of_mem item m)) in
      elim (Bool-cases (is_some (get item.name names))) [
        | inl e ↦ rw e rest
        | inr e ↦
            rw e
              (Keeps-if cfg.dry_run _ _ rest (Keeps-bind _ _ (safe item mem-cons_self e) λ _. rest))
      ]

  Keeps-prune_kinds :
      ListSelects c
      → (gvks : List Gvk) → All (Survives c P names namespace aggregate) gvks
      → Keeps P (prune_kinds c cfg namespace aggregate names gvks)
  unfolding prune_kinds
  Keeps-prune_kinds l [] safe = Keeps-pure _
  Keeps-prune_kinds l (gvk ∷ gvks) safe =
      let rest = Keeps-prune_kinds l gvks safe.1 in
      Keeps-reads-bind _ _ λ w items e.
        Keeps-bind _ _
          (Keeps-delete_stale items λ item m h. record {
            at = λ v. safe.0 item v (l.selects w gvk namespace aggregate items e item m) h;
          })
          λ _. rest

  -- Whatever survives each deletion of an object of the pruned kinds, in the namespace, that the
  -- operator manages for the aggregate and whose name is not kept, survives the prune, whether it
  -- succeeds or fails: nothing else is written. The list by labels is supposed to return objects
  -- that have them.
  pub Keeps-prune_managed :
      ListSelects c
      → (gvks : List Gvk) → All (Survives c P names namespace aggregate) (pruned_kinds gvks)
      → Keeps P (prune_managed c cfg namespace aggregate names gvks)
  unfolding prune_managed
  Keeps-prune_managed l [] safe = Keeps-prune_kinds l _ safe
  Keeps-prune_managed l (gvk ∷ gvks) safe = Keeps-prune_kinds l (gvk ∷ gvks) safe

-- The items one after the other.
unfoldable pub delete_all : {W : Type 0} → Client W → List Object → Exec W (Unit {0})
delete_all c [] = pure tt
delete_all c (item ∷ items) = c.delete item >> delete_all c items

-- Outside a dry run exactly the items whose names are not kept are deleted, in their order, until
-- the first error.
pub delete_stale_lem :
    {W : Type 0} (c : Client W) (cfg : Config) (names : NameSet) (items : List Object)
    → cfg.dry_run ≡ false
    → delete_stale c cfg names items
      ≡ delete_all c (keep (λ o. not (is_some (get o.name names))) items)
unfolding delete_stale delete_all
delete_stale_lem c cfg names [] h = refl
delete_stale_lem c cfg names (item ∷ items) h = elim (Bool-cases (is_some (get item.name names))) [
  | inl e ↦ rw e (delete_stale_lem c cfg names items h)
  | inr e ↦ rw (e, h) (ap (λ m. c.delete item >> m) (delete_stale_lem c cfg names items h))
]
