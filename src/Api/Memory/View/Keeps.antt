-- ===== src/Api/Memory/View/Keeps.antt =====
-- A struct whose addresses are all in use reads the same on a heap that agrees there, and its addresses
-- stay in use on a heap that grew.
use homelab_operator.Prelude.{
  ℕ, zero, ◌≤◌, ◌<◌, ◌≡◌, refl, sym, subst, ap, ap₂, ◌∙◌, none, some, List, [], ◌∷◌, map, arith,
}
use homelab_operator.Prelude.Lists.{All}
use homelab_operator.Prelude.{Text, Option}
use homelab_operator.Prelude.Dict.{Dict}
use homelab_operator.Api.Memory.{
  Ptr, MetaStruct, ListMetaStruct, StatusStruct, Kind, device, network, ingress_router, SpecStruct,
  ResourceStruct, Heap,
}
use homelab_operator.Api.Memory.Agree.{Agrees, Extends}
use homelab_operator.Api.Memory.View.{
  read, Below, SpecView, StatusView, view_meta, view_list_meta, MetaWithin, ListMetaWithin,
  view_spec, view_status, view_resource, view_items, SpecWithin, StatusWithin, ResourceWithin,
  ItemsWithin,
}

pub read_eq :
    {A : Type 0} (f g : ℕ → A) (n : ℕ) (p : Ptr)
    → ((q : ℕ) → q < n → f q ≡ g q)
    → Below n p
    → read g p ≡ read f p
read_eq f g n none e b = refl
read_eq f g n (some p) e b = cc (e p b)

pub Below-weaken : {n m : ℕ} → n ≤ m → (p : Ptr) → Below n p → Below m p
Below-weaken x none b = tt
Below-weaken x (some p) b = omega (arith, x, b)

module _ {T : Type 0} {h g : Heap T} where
  pub view_meta-Agrees :
      (m : MetaStruct) → MetaWithin h m → Agrees zero h.next h g → view_meta g m ≡ view_meta h m
  unfolding view_meta MetaWithin
  view_meta-Agrees m (labels, annotations, finalizers) a =
      ap₂
        (λ u (v : Option (Dict Text) × Option (List Text)).
          (record m { labels = none; annotations = none; finalizers = none }, u, v.0, v.1))
        (read_eq h.maps g.maps h.next _ (λ q b. (a q (omega arith) b).maps) labels)
        (ap₂ (λ u v. (u, v))
          (read_eq h.maps g.maps h.next _ (λ q b. (a q (omega arith) b).maps) annotations)
          (read_eq h.texts g.texts h.next _ (λ q b. (a q (omega arith) b).texts) finalizers))

  pub view_list_meta-Agrees :
      (m : ListMetaStruct)
      → ListMetaWithin h m
      → Agrees zero h.next h g
      → view_list_meta g m ≡ view_list_meta h m
  unfolding view_list_meta ListMetaWithin
  view_list_meta-Agrees m count a =
      ap (λ u. (record m { remaining_item_count = none }, u))
        (read_eq h.counts g.counts h.next _ (λ q b. (a q (omega arith) b).counts) count)

  pub view_spec-Agrees :
      (k : Kind) (s : SpecStruct k)
      → SpecWithin k h s
      → Agrees zero h.next h g
      → view_spec k g s ≡ view_spec k h s
  unfolding view_spec SpecWithin
  view_spec-Agrees device s (macs, hosts) a =
      ap₂ (λ m n. (record s { mac_addresses = none; additional_hostnames = none }, m, n))
        (read_eq h.texts g.texts h.next _ (λ q b. (a q (omega arith) b).texts) macs)
        (read_eq h.texts g.texts h.next _ (λ q b. (a q (omega arith) b).texts) hosts)
  view_spec-Agrees network s w a = refl
  view_spec-Agrees ingress_router s w a = refl

  pub view_status-Agrees :
      (s : StatusStruct)
      → StatusWithin h s
      → Agrees zero h.next h g
      → view_status g s ≡ view_status h s
  unfolding view_status StatusWithin
  view_status-Agrees s (time, conditions) a =
      ap₂ (λ m n. (record s { last_sync_time = none; conditions = none }, m, n))
        (read_eq h.times g.times h.next _ (λ q b. (a q (omega arith) b).times) time)
        (read_eq h.conditions g.conditions h.next _ (λ q b. (a q (omega arith) b).conditions)
          conditions)

  pub view_resource-Agrees :
      (k : Kind) (r : ResourceStruct T k)
      → ResourceWithin k h r
      → Agrees zero h.next h g
      → view_resource k g r ≡ view_resource k h r
  unfolding view_resource ResourceWithin
  view_resource-Agrees k r (meta, spec, status) a =
      ap₂ (λ u (v : SpecView k × StatusView). (r.type_meta, u, v.0, v.1))
        (view_meta-Agrees r.meta meta a)
        (ap₂ (λ m n. (m, n)) (view_spec-Agrees k r.spec spec a)
          (view_status-Agrees r.status status a))

  pub view_each-Agrees :
      (k : Kind) (l : List (ResourceStruct T k))
      → All (ResourceWithin k h) l
      → Agrees zero h.next h g
      → map (view_resource k g) l ≡ map (view_resource k h) l
  view_each-Agrees k [] w a = refl
  view_each-Agrees k (r ∷ l) (w, ws) a =
      ap₂ ◌∷◌ (view_resource-Agrees k r w a) (view_each-Agrees k l ws a)

  pub view_items-Agrees :
      (k : Kind) (p : Ptr)
      → ItemsWithin k h p
      → Agrees zero h.next h g
      → view_items k g p ≡ view_items k h p
  unfolding view_items ItemsWithin
  view_items-Agrees k none w a = refl
  view_items-Agrees k (some p) (b, ws) a =
      ap (λ l. some (map (view_resource k g) l)) (sym ((a p (omega arith) b).items k))
      ∙ ap some (view_each-Agrees k (h.items k p) ws a)

  pub MetaWithin-Extends : (m : MetaStruct) → Extends h g → MetaWithin h m → MetaWithin g m
  unfolding MetaWithin
  MetaWithin-Extends m x (labels, annotations, finalizers) = (
    Below-weaken x.grows _ labels,
    Below-weaken x.grows _ annotations,
    Below-weaken x.grows _ finalizers,
  )

  pub SpecWithin-Extends :
      (k : Kind) (s : SpecStruct k) → Extends h g → SpecWithin k h s → SpecWithin k g s
  unfolding SpecWithin
  SpecWithin-Extends device s x (macs, hosts) =
      (Below-weaken x.grows _ macs, Below-weaken x.grows _ hosts)
  SpecWithin-Extends network s x w = tt
  SpecWithin-Extends ingress_router s x w = tt

  pub StatusWithin-Extends : (s : StatusStruct) → Extends h g → StatusWithin h s → StatusWithin g s
  unfolding StatusWithin
  StatusWithin-Extends s x (time, conditions) =
      (Below-weaken x.grows _ time, Below-weaken x.grows _ conditions)

  pub ResourceWithin-Extends :
      (k : Kind) (r : ResourceStruct T k)
      → Extends h g
      → ResourceWithin k h r
      → ResourceWithin k g r
  unfolding ResourceWithin
  ResourceWithin-Extends k r x (meta, spec, status) = (
    MetaWithin-Extends r.meta x meta,
    SpecWithin-Extends k r.spec x spec,
    StatusWithin-Extends r.status x status,
  )

  pub All-ResourceWithin-Extends :
      (k : Kind) (l : List (ResourceStruct T k))
      → Extends h g
      → All (ResourceWithin k h) l
      → All (ResourceWithin k g) l
  All-ResourceWithin-Extends k [] x ws = tt
  All-ResourceWithin-Extends k (r ∷ l) x (w, ws) =
      (ResourceWithin-Extends k r x w, All-ResourceWithin-Extends k l x ws)

  pub ItemsWithin-Extends :
      (k : Kind) (p : Ptr) → Extends h g → ItemsWithin k h p → ItemsWithin k g p
  unfolding ItemsWithin
  ItemsWithin-Extends k none x w = tt
  ItemsWithin-Extends k (some p) x (b, ws) = (
    omega (arith, b, x.grows),
    subst (All (ResourceWithin k g)) ((x.keeps p (omega arith) b).items k)
        (All-ResourceWithin-Extends k (h.items k p) x ws),
  )
