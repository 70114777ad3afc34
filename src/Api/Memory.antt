-- ===== src/Api/Memory.antt =====
-- api/v1 as structs in memory: a slice, a map or a pointer is an address or nil. `metav1.TypeMeta`,
-- two texts in k8s.io/apimachinery, is the parameter T. Of `metav1.ObjectMeta` and `metav1.ListMeta`
-- the structs have the fields of Api and, of those that lead to memory, the labels, the annotations,
-- the finalizers and the count of the remaining items.
pub mod Agree
pub mod View
use homelab_operator.Prelude.{
  ℕ, suc, ℤ, Text, Bool, Option, none, some, List, [], nat_eq, if◌then◌else◌,
}
use homelab_operator.Prelude.Dict.{Dict}
use homelab_operator.Api.{Condition, NetworkSpec, IngressRouterSpec}

abbrev pub Ptr : Type 0
Ptr = Option ℕ

pub record MetaStruct : Type 0 where
  pub name : Text
  pub namespace : Text
  pub generation : ℤ
  pub labels : Ptr
  pub annotations : Ptr
  pub finalizers : Ptr

pub record ListMetaStruct : Type 0 where
  pub resource_version : Text
  pub remaining_item_count : Ptr

pub record StatusStruct : Type 0 where
  pub observed_generation : ℤ
  pub last_sync_time : Ptr
  pub conditions : Ptr

pub record DeviceSpecStruct : Type 0 where
  pub network : Text
  pub ip : Text
  pub mac_addresses : Ptr
  pub dhcp : Bool
  pub additional_hostnames : Ptr
  pub trunked : Bool
  pub wired : Bool
  pub wireless : Bool
  pub usb : Bool
  pub location : Text
  pub position : ℤ
  pub pdu : Text
  pub switch : Text
  pub side : Text
  pub manufacturer : Text
  pub model : Text
  pub serial_number : Text

-- The three kinds of resources, and the spec of each.
pub data Kind : Type 0 where
  device : Kind
  network : Kind
  ingress_router : Kind

abbrev pub SpecStruct : Kind → Type 0
SpecStruct device = DeviceSpecStruct
SpecStruct network = NetworkSpec
SpecStruct ingress_router = IngressRouterSpec

module _ (T : Type 0) where
  -- `Device`, `Network` and `IngressRouter`. DeviceStatus, NetworkStatus and IngressRouterStatus embed
  -- HomelabStatus and have no other field.
  pub record ResourceStruct (k : Kind) : Type 0 where
    pub type_meta : T
    pub meta : MetaStruct
    pub spec : SpecStruct k
    pub status : StatusStruct

  -- What stands behind the addresses. A pointer that is not nil is valid, so there is something behind
  -- each; `next` is the first address that is free.
  pub record Heap : Type 0 where
    pub next : ℕ
    pub texts : ℕ → List Text
    pub maps : ℕ → Dict Text
    pub counts : ℕ → ℤ
    pub times : ℕ → ℕ
    pub conditions : ℕ → List Condition
    pub items : (k : Kind) → ℕ → List (ResourceStruct k)

  -- A computation that allocates.
  abbrev pub Mem : Type 0 → Type 0
  Mem A = Heap → A × Heap

-- The list types have the same fields.
pub record ListStruct (T : Type 0) : Type 0 where
  pub type_meta : T
  pub list_meta : ListMetaStruct
  pub items : Ptr

abbrev pub DeviceListStruct : Type 0 → Type 0
DeviceListStruct T = ListStruct T

abbrev pub NetworkListStruct : Type 0 → Type 0
NetworkListStruct T = ListStruct T

abbrev pub IngressRouterListStruct : Type 0 → Type 0
IngressRouterListStruct T = ListStruct T

abbrev pub set_at : {A : Type 0} → (ℕ → A) → ℕ → A → ℕ → A
set_at f p a q = if nat_eq p q then a else f q

module _ {T : Type 0} where
  abbrev pub set_items :
      (k : Kind)
      → ℕ
      → List (ResourceStruct T k)
      → Heap T
      → (j : Kind) → ℕ
      → List (ResourceStruct T j)
  set_items device p l h device = set_at (h.items device) p l
  set_items network p l h network = set_at (h.items network) p l
  set_items ingress_router p l h ingress_router = set_at (h.items ingress_router) p l
  set_items k p l h j = h.items j

  abbrev pub pure : {A : Type 0} → A → Mem T A
  pure a h = (a, h)

  infixl 5 ◌>>=◌
  abbrev pub ◌>>=◌ : {A B : Type 0} → Mem T A → (A → Mem T B) → Mem T B
  ◌>>=◌ m f h = let (a, h') = m h in f a h'

  -- The next free address, which is taken.
  abbrev pub reserve : Mem T ℕ
  reserve h = (h.next, record h { next = suc h.next })
