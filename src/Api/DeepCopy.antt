-- ===== src/Api/DeepCopy.antt =====
-- api/v1/zz_generated.deepcopy.go. `*out = *in` copies the fields, and what a pointer or a slice leads
-- to is copied to a new place. A struct that is copied into is given as the result.
pub mod Made
pub mod Resource
pub mod Items
pub mod Separate
pub mod Types
use homelab_operator.Prelude.{ℕ, Option, none, some, List, [], ◌∷◌, map}
use homelab_operator.Api.{Condition, NetworkSpec, IngressRouterSpec}
use homelab_operator.Api.Memory.{
  Ptr, MetaStruct, ListMetaStruct, StatusStruct, DeviceSpecStruct, Kind, device, network,
  ingress_router, SpecStruct, ResourceStruct, Heap, Mem, ListStruct, set_at, set_items, pure, ◌>>=◌,
  reserve,
}

-- The functions that k8s.io/apimachinery generates for its own types.
pub record Foreign (T : Type 0) : Type 0 where
  pub copy_meta : MetaStruct → Mem T MetaStruct
  pub copy_list_meta : ListMetaStruct → Mem T ListMetaStruct
  pub copy_condition : Condition → Condition
  pub copy_time : ℕ → ℕ

module _ {T : Type 0} where
  -- `*out = make([]string, len(*in)); copy(*out, *in)` where the slice is not nil.
  unfoldable pub copy_texts : Ptr → Mem T Ptr
  copy_texts none = pure none
  copy_texts (some p) = do
    q ← reserve
    λ h. (some q, record h { texts = set_at h.texts q (h.texts p) })

  unfoldable pub device_spec_deep_copy_into : DeviceSpecStruct → Mem T DeviceSpecStruct
  unfolding copy_texts
  device_spec_deep_copy_into spec = do
    macs ← copy_texts spec.mac_addresses
    hostnames ← copy_texts spec.additional_hostnames
    pure (record spec { mac_addresses = macs; additional_hostnames = hostnames })

  -- `*out = *in`, which is all for these two.
  abbrev pub network_spec_deep_copy_into : NetworkSpec → Mem T NetworkSpec
  network_spec_deep_copy_into spec = pure spec

  abbrev pub ingress_router_spec_deep_copy_into : IngressRouterSpec → Mem T IngressRouterSpec
  ingress_router_spec_deep_copy_into spec = pure spec

  unfoldable pub spec_deep_copy_into : (j : Kind) → SpecStruct j → Mem T (SpecStruct j)
  spec_deep_copy_into device = device_spec_deep_copy_into
  spec_deep_copy_into network = network_spec_deep_copy_into
  spec_deep_copy_into ingress_router = ingress_router_spec_deep_copy_into

module _ {T : Type 0} (k : Foreign T) where
  -- `*out = (*in).DeepCopy()`
  unfoldable pub copy_time_ptr : Ptr → Mem T Ptr
  copy_time_ptr none = pure none
  copy_time_ptr (some p) = do
    q ← reserve
    λ h. (some q, record h { times = set_at h.times q (k.copy_time (h.times p)) })

  -- The loop over the conditions.
  unfoldable pub copy_conditions : Ptr → Mem T Ptr
  copy_conditions none = pure none
  copy_conditions (some p) = do
    q ← reserve
    λ h. (
      some q,
      record h { conditions = set_at h.conditions q (map k.copy_condition (h.conditions p)) },
    )

  unfoldable pub status_deep_copy_into : StatusStruct → Mem T StatusStruct
  unfolding copy_time_ptr copy_conditions
  status_deep_copy_into status = do
    time ← copy_time_ptr status.last_sync_time
    conditions ← copy_conditions status.conditions
    pure (record status { last_sync_time = time; conditions = conditions })

  unfoldable pub resource_deep_copy_into :
      (j : Kind) → ResourceStruct T j → Mem T (ResourceStruct T j)
  unfolding spec_deep_copy_into status_deep_copy_into
  resource_deep_copy_into j r = do
    meta ← k.copy_meta r.meta
    spec ← spec_deep_copy_into j r.spec
    status ← status_deep_copy_into r.status
    pure (record r { meta = meta; spec = spec; status = status })

  -- The loop over the items: each is copied into its place.
  unfoldable pub copy_each :
      (j : Kind) → List (ResourceStruct T j) → Mem T (List (ResourceStruct T j))
  unfolding resource_deep_copy_into
  copy_each j [] = pure []
  copy_each j (x ∷ l) = do y ← resource_deep_copy_into j x; m ← copy_each j l; pure (y ∷ m)

  unfoldable pub items_deep_copy : (j : Kind) → Ptr → Mem T Ptr
  unfolding copy_each
  items_deep_copy j none = pure none
  items_deep_copy j (some p) = do
    q ← reserve
    copies ← λ h. copy_each j (h.items j p) h
    λ h. (some q, record h { items = set_items j q copies h })

  unfoldable pub list_deep_copy_into : Kind → ListStruct T → Mem T (ListStruct T)
  unfolding items_deep_copy
  list_deep_copy_into j l = do
    meta ← k.copy_list_meta l.list_meta
    items ← items_deep_copy j l.items
    pure (record l { list_meta = meta; items = items })

module _ {T : Type 0} where
  -- `DeepCopy`: a nil receiver gives nil.
  abbrev pub deep_copy : {A : Type 0} → (A → Mem T A) → Option A → Mem T (Option A)
  deep_copy copy none = pure none
  deep_copy copy (some x) = do y ← copy x; pure (some y)

  -- `runtime.Object` holds nothing or a pointer, which may be nil. `DeepCopyObject` gives an interface
  -- without a pointer where the receiver is nil.
  abbrev pub deep_copy_object : {A : Type 0} → (A → Mem T A) → Option A → Mem T (Option (Option A))
  deep_copy_object copy x = do
    c ← deep_copy copy x
    elim c [ none ↦ pure none | some y ↦ pure (some (some y)) ]
