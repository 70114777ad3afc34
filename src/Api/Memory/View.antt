-- ===== src/Api/Memory/View.antt =====
-- What a struct reads as on a heap, with nothing of the addresses left: a nil slice is apart from an
-- empty one.
pub mod Keeps
use homelab_operator.Prelude.{
  ℕ, zero, ◌<◌, ◌≡◌, refl, ap, ap₂, ℤ, Text, Option, none, some, List, map, arith,
}
use homelab_operator.Prelude.Lists.{All}
use homelab_operator.Prelude.Dict.{Dict}
use homelab_operator.Api.{Condition, NetworkSpec, IngressRouterSpec}
use homelab_operator.Api.Memory.{
  Ptr, MetaStruct, ListMetaStruct, StatusStruct, DeviceSpecStruct, Kind, device, network,
  ingress_router, SpecStruct, ResourceStruct, Heap, ListStruct,
}
use homelab_operator.Api.Memory.Agree.{Agrees}

abbrev pub read : {A : Type 0} → (ℕ → A) → Ptr → Option A
read f none = none
read f (some p) = some (f p)

-- The address is in use.
abbrev pub Below : ℕ → Ptr → Type 0
Below n none = Unit {0}
Below n (some p) = p < n

abbrev pub SpecView : Kind → Type 0
SpecView device = DeviceSpecStruct × Option (List Text) × Option (List Text)
SpecView network = NetworkSpec
SpecView ingress_router = IngressRouterSpec

abbrev pub MetaView : Type 0
MetaView = MetaStruct × Option (Dict Text) × Option (Dict Text) × Option (List Text)

abbrev pub ListMetaView : Type 0
ListMetaView = ListMetaStruct × Option ℤ

abbrev pub StatusView : Type 0
StatusView = StatusStruct × Option ℕ × Option (List Condition)

abbrev pub ResourceView : Type 0 → Kind → Type 0
ResourceView T k = T × MetaView × SpecView k × StatusView

module _ {T : Type 0} where
  unfoldable pub view_meta : Heap T → MetaStruct → MetaView
  view_meta h m = (
    record m { labels = none; annotations = none; finalizers = none },
    read h.maps m.labels,
    read h.maps m.annotations,
    read h.texts m.finalizers,
  )

  unfoldable pub view_list_meta : Heap T → ListMetaStruct → ListMetaView
  view_list_meta h m =
      (record m { remaining_item_count = none }, read h.counts m.remaining_item_count)

  unfoldable pub view_spec : (k : Kind) → Heap T → SpecStruct k → SpecView k
  view_spec device h s = (
    record s { mac_addresses = none; additional_hostnames = none },
    read h.texts s.mac_addresses,
    read h.texts s.additional_hostnames,
  )
  view_spec network h s = s
  view_spec ingress_router h s = s

  unfoldable pub view_status : Heap T → StatusStruct → StatusView
  view_status h s = (
    record s { last_sync_time = none; conditions = none },
    read h.times s.last_sync_time,
    read h.conditions s.conditions,
  )

  unfoldable pub view_resource : (k : Kind) → Heap T → ResourceStruct T k → ResourceView T k
  view_resource k h r =
      (r.type_meta, view_meta h r.meta, view_spec k h r.spec, view_status h r.status)

  unfoldable pub view_items : (k : Kind) → Heap T → Ptr → Option (List (ResourceView T k))
  view_items k h none = none
  view_items k h (some p) = some (map (view_resource k h) (h.items k p))

  unfoldable pub view_list :
      (k : Kind) → Heap T → ListStruct T → T × ListMetaView × Option (List (ResourceView T k))
  view_list k h l = (l.type_meta, view_list_meta h l.list_meta, view_items k h l.items)

  -- All that a struct leads to is in use.
  unfoldable pub MetaWithin : Heap T → MetaStruct → Type 0
  MetaWithin h m = Below h.next m.labels × Below h.next m.annotations × Below h.next m.finalizers

  unfoldable pub ListMetaWithin : Heap T → ListMetaStruct → Type 0
  ListMetaWithin h m = Below h.next m.remaining_item_count

  unfoldable pub SpecWithin : (k : Kind) → Heap T → SpecStruct k → Type 0
  SpecWithin device h s = Below h.next s.mac_addresses × Below h.next s.additional_hostnames
  SpecWithin network h s = Unit {0}
  SpecWithin ingress_router h s = Unit {0}

  unfoldable pub StatusWithin : Heap T → StatusStruct → Type 0
  StatusWithin h s = Below h.next s.last_sync_time × Below h.next s.conditions

  unfoldable pub ResourceWithin : (k : Kind) → Heap T → ResourceStruct T k → Type 0
  ResourceWithin k h r = MetaWithin h r.meta × SpecWithin k h r.spec × StatusWithin h r.status

  unfoldable pub ItemsWithin : (k : Kind) → Heap T → Ptr → Type 0
  ItemsWithin k h none = Unit {0}
  ItemsWithin k h (some p) = (p < h.next) × All (ResourceWithin k h) (h.items k p)

  unfoldable pub ListWithin : (k : Kind) → Heap T → ListStruct T → Type 0
  ListWithin k h l = ListMetaWithin h l.list_meta × ItemsWithin k h l.items
