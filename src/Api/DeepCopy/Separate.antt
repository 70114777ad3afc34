-- ===== src/Api/DeepCopy/Separate.antt =====
-- A copy shares no memory with what it was copied from.
use homelab_operator.Prelude.{zero, ◌≡◌, refl, ap₂, Option, none, some, arith}
use homelab_operator.Api.Memory.{Kind, ResourceStruct, Heap, ListStruct}
use homelab_operator.Api.Memory.Agree.{Agrees, Agrees-trans}
use homelab_operator.Api.Memory.View.{view_resource, view_list, ResourceWithin, ListWithin}
use homelab_operator.Api.Memory.View.Keeps.{
  view_list_meta-Agrees, view_resource-Agrees, view_items-Agrees,
}
use homelab_operator.Api.DeepCopy.{
  Foreign, resource_deep_copy_into, list_deep_copy_into, deep_copy_object,
}
use homelab_operator.Api.DeepCopy.Made.{CopiesDeeply}
use homelab_operator.Api.DeepCopy.Resource.{Made-resource_deep_copy_into}
use homelab_operator.Api.DeepCopy.Items.{Made-list_deep_copy_into}

-- The interface `o` holds a pointer, to a struct that reads as `v`.
abbrev pub HoldsCopy : {E V : Type 0} → (E → V) → V → Option (Option E) → Type 0
HoldsCopy view v none = ⊥
HoldsCopy view v (some none) = ⊥
HoldsCopy view v (some (some y)) = view y ≡ v

module _ {T : Type 0} where
  -- The copy of a Device, a Network or an IngressRouter, as of their lists below.
  pub deep_copy_object-resource :
      (k : Foreign T) (j : Kind) (h : Heap T) (r : ResourceStruct T j) (g g' : Heap T)
      → CopiesDeeply k
      → ResourceWithin j h r
      → Agrees zero h.next (deep_copy_object (resource_deep_copy_into k j) (some r) h).1 g
      → Agrees h.next
          (deep_copy_object (resource_deep_copy_into k j) (some r) h).1.next
          (deep_copy_object (resource_deep_copy_into k j) (some r) h).1
          g'
      → (view_resource j g r ≡ view_resource j h r)
        × HoldsCopy
            (view_resource j g')
            (view_resource j h r)
            (deep_copy_object (resource_deep_copy_into k j) (some r) h).0
        × (deep_copy_object (resource_deep_copy_into k j) none h ≡ (none, h))
  deep_copy_object-resource k j h r g g' law w a b =
      let m = Made-resource_deep_copy_into k law h.next j h r (omega arith) w in
      (view_resource-Agrees j r w (Agrees-trans m.extends.keeps a), m.reads g' b, refl)

  -- `DeepCopyObject` of a DeviceList, a NetworkList or an IngressRouterList (the kind j) gives an interface
  -- that holds a list, and from then on the two are separate, with their metadata, their items and the
  -- slices, the times, the labels, the annotations and the finalizers that these lead to. As long as the
  -- addresses that were in use before hold what they do after the call (on the heap g), whatever is
  -- written through the copy, the original reads as before the call. As long as the addresses that the
  -- call took hold what they do after it (on the heap g'), whatever is written through the original, the
  -- copy reads as the original did before the call: each field is equal, a nil slice is nil and an empty
  -- one is empty. A nil pointer gives the nil interface, and not one that holds a nil pointer, and
  -- allocates nothing. What the list leads to is in use before the call, and the copies that
  -- k8s.io/apimachinery makes of its own types are deep.
  pub deep_copy_object-list :
      (k : Foreign T) (j : Kind) (h : Heap T) (l : ListStruct T) (g g' : Heap T)
      → CopiesDeeply k
      → ListWithin j h l
      → Agrees zero h.next (deep_copy_object (list_deep_copy_into k j) (some l) h).1 g
      → Agrees h.next
          (deep_copy_object (list_deep_copy_into k j) (some l) h).1.next
          (deep_copy_object (list_deep_copy_into k j) (some l) h).1
          g'
      → (view_list j g l ≡ view_list j h l)
        × HoldsCopy
            (view_list j g')
            (view_list j h l)
            (deep_copy_object (list_deep_copy_into k j) (some l) h).0
        × (deep_copy_object (list_deep_copy_into k j) none h ≡ (none, h))
  unfolding view_list ListWithin
  deep_copy_object-list k j h l g g' law w a b =
      let m = Made-list_deep_copy_into k law j h l w in
      (
        ap₂ (λ u v. (l.type_meta, u, v))
            (view_list_meta-Agrees l.list_meta w.0 (Agrees-trans m.extends.keeps a))
            (view_items-Agrees j l.items w.1 (Agrees-trans m.extends.keeps a)),
        m.reads g' b,
        refl,
      )
