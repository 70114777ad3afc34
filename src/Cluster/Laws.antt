-- ===== src/Cluster/Laws.antt =====
-- What the operator relies on of the API server's reads and writes, as far as they are documented.
pub mod Keys
use homelab_operator.Prelude.{
  Text, Bool, true, false, ◌&&◌, ◌||◌, codes, Option, some, ◌≡◌, ◌⊎◌, List, ◌==◌,
}
use homelab_operator.Api.{Device, Network, IngressRouter, Ingress, Service}
use homelab_operator.Cluster.{
  Gvk, Json, obj, Fields, Object, ConfigMap, Result, ok, err, not_found, Client,
}

abbrev pub same_kind : Gvk → Gvk → Bool
same_kind g h = g.kind == h.kind && (g.group == h.group && g.version == h.version)

-- The kinds of dnsmasq and FreeRADIUS, which the operator writes.
abbrev pub is_external : Gvk → Bool
is_external g = g.group == codes "dnsmasq.kvaps.cf" || g.group == codes "freeradius.valdron.ca"

-- The object stands under the kind, the namespace and the name.
abbrev pub is_at : Gvk → Text → Text → Object → Bool
is_at gvk namespace name o = same_kind gvk o.gvk && (namespace == o.namespace && name == o.name)

-- The object has a map for its spec.
abbrev pub HasSpec : Object → Type 0
HasSpec o = (fs : Fields) × (o.spec ≡ some (obj fs))

-- What `CreateOrUpdate` leaves behind when it succeeds: the object that it got, or else the one that
-- it was given, after the function.
pub record Written {W : Type 0} (c : Client W) (o : Object) (f : Object → Result Object) (w : W)
    : Type 0 where
  pub before : Object
  pub after : Object
  pub mutated : f before ≡ ok after
  pub got : c.get w o.gvk o.namespace o.name ≡ ok after

-- A write changes what is read under its own key, and nothing under another key. A ConfigMap and the
-- status of a resource of the operator's own group are not read under an external kind.
pub record IsLawful {W : Type 0} (c : Client W) : Type 0 where
  pub written :
      (o : Object) (f : Object → Result Object) (w : W)
      → (c.create_or_update o f w).0 ≡ ok tt
      → Written c o f (c.create_or_update o f w).1
  pub get-create_or_update :
      (o : Object) (f : Object → Result Object) (w : W) (gvk : Gvk) (namespace name : Text)
      → is_at gvk namespace name o ≡ false
      → c.get (c.create_or_update o f w).1 gvk namespace name ≡ c.get w gvk namespace name
  pub get-delete :
      (o : Object) (w : W) (gvk : Gvk) (namespace name : Text)
      → is_at gvk namespace name o ≡ false
      → c.get (c.delete o w).1 gvk namespace name ≡ c.get w gvk namespace name
  pub get-config_map :
      (cm : ConfigMap) (f : ConfigMap → ConfigMap) (w : W) (gvk : Gvk) (namespace name : Text)
      → is_external gvk ≡ true
      → c.get (c.create_or_update_config_map cm f w).1 gvk namespace name
        ≡ c.get w gvk namespace name
  pub get-device_status :
      (d : Device) (w : W) (gvk : Gvk) (namespace name : Text)
      → is_external gvk ≡ true
      → c.get (c.update_device_status d w).1 gvk namespace name ≡ c.get w gvk namespace name
  pub get-network_status :
      (n : Network) (w : W) (gvk : Gvk) (namespace name : Text)
      → is_external gvk ≡ true
      → c.get (c.update_network_status n w).1 gvk namespace name ≡ c.get w gvk namespace name
  pub get-router_status :
      (r : IngressRouter) (w : W) (gvk : Gvk) (namespace name : Text)
      → is_external gvk ≡ true
      → c.get (c.update_router_status r w).1 gvk namespace name ≡ c.get w gvk namespace name
  -- NestedMap, SetOwnerReference and DeepEqual
  pub nested_map_obj :
      (o : Object) (fs : Fields) → o.spec ≡ some (obj fs) → c.nested_map o ≡ ok (some (obj fs))
  pub owner_keeps_spec :
      (cm : ConfigMap) (o o' : Object) → c.set_owner_reference cm o ≡ ok o' → o'.spec ≡ o.spec
  pub deep_equal_refl : (v : Option Json) → c.deep_equal v v ≡ true

-- A write of a ConfigMap does not change the lists that the two DNS reconcilers read.
pub record KeepsLists {W : Type 0} (c : Client W) : Type 0 where
  pub routers :
      (cm : ConfigMap) (f : ConfigMap → ConfigMap) (w : W)
      → c.list_routers (c.create_or_update_config_map cm f w).1 ≡ c.list_routers w
  pub ingresses :
      (cm : ConfigMap) (f : ConfigMap → ConfigMap) (w : W)
      → c.list_ingresses (c.create_or_update_config_map cm f w).1 ≡ c.list_ingresses w
  pub http_routes :
      (cm : ConfigMap) (f : ConfigMap → ConfigMap) (w : W)
      → c.list_http_routes (c.create_or_update_config_map cm f w).1 ≡ c.list_http_routes w
  pub services :
      (cm : ConfigMap) (f : ConfigMap → ConfigMap) (w : W)
      → c.list_services (c.create_or_update_config_map cm f w).1 ≡ c.list_services w

-- The two objects stand under the same kind, namespace and name.
pub record SameKey (o o' : Object) : Type 0 where
  pub gvk : o'.gvk ≡ o.gvk
  pub namespace : o'.namespace ≡ o.namespace
  pub name : o'.name ≡ o.name

-- The API server answers every call that a reconcile makes, and writes what does not change its key;
-- an object may be missing, and the spec of one that is there is a map, or it has none.
pub record IsUp {W : Type 0} (c : Client W) : Type 0 where
  pub get_answers :
      (w : W) (gvk : Gvk) (namespace name : Text)
      → ((o : Object) × (c.get w gvk namespace name ≡ ok o))
        ⊎ (c.get w gvk namespace name ≡ err not_found)
  pub lists_managed :
      (w : W) (gvk : Gvk) (namespace aggregate : Text)
      → (items : List Object) × (c.list_managed w gvk namespace aggregate ≡ ok items)
  pub lists_devices : (w : W) (ns : Text) → (ds : List Device) × (c.list_devices w ns ≡ ok ds)
  pub lists_networks : (w : W) (ns : Text) → (ns' : List Network) × (c.list_networks w ns ≡ ok ns')
  pub lists_routers : (w : W) → (rs : List IngressRouter) × (c.list_routers w ≡ ok rs)
  pub lists_ingresses : (w : W) → (is : List Ingress) × (c.list_ingresses w ≡ ok is)
  pub lists_http_routes : (w : W) → (items : List Object) × (c.list_http_routes w ≡ ok items)
  pub lists_services : (w : W) → (ss : List Service) × (c.list_services w ≡ ok ss)
  pub writes :
      (o : Object) (f : Object → Result Object)
      → ((x : Object) → (y : Object) × ((f x ≡ ok y) × SameKey x y))
      → (w : W) → (c.create_or_update o f w).0 ≡ ok tt
  pub writes_config_map :
      (cm : ConfigMap) (f : ConfigMap → ConfigMap) (w : W)
      → (cm' : ConfigMap) × ((c.create_or_update_config_map cm f w).0 ≡ ok cm')
  pub deletes : (o : Object) (w : W) → (c.delete o w).0 ≡ ok tt
  pub owner_set :
      (cm : ConfigMap) (o : Object)
      → (o' : Object) × ((c.set_owner_reference cm o ≡ ok o') × SameKey o o')
  pub nested_map_ok : (o : Object) → (v : Option Json) × (c.nested_map o ≡ ok v)
