-- ===== src/Cluster.antt =====
-- The API server as the operator sees it: objects, and the calls of sigs.k8s.io/controller-runtime
-- and k8s.io/apimachinery that the operator makes. `W` is the state of the cluster; a read returns a
-- value, a write also a new state. What these calls do is not under the repository: they are the
-- fields of `Client`, which the definitions take as an argument.
pub mod Exec
pub mod Laws
use homelab_operator.Prelude.{
  ℕ, ℤ, Text, Bool, true, false, Option, none, some, List, [], ◌∷◌, ◌==◌, codes, if◌then◌else◌,
}
use homelab_operator.Prelude.Dict.{Dict}
use homelab_operator.Api.{Condition, Device, Network, IngressRouter, Ingress, Service}

-- `schema.GroupVersionKind`.
pub record Gvk : Type 0 where
  pub group : Text
  pub version : Text
  pub kind : Text

-- The values of a `map[string]any`.
mutual
  pub data Json : Type 0 where
    null : Json
    bool : Bool → Json
    int : ℤ → Json
    str : Text → Json
    arr : Items → Json
    obj : Fields → Json

  pub data Items : Type 0 where
    nil : Items
    cons : Json → Items → Items

  pub data Fields : Type 0 where
    end : Fields
    field : Text → Json → Fields → Fields

-- `m[key]`
unfoldable pub lookup_field : Text → Fields → Option Json
lookup_field key end = none
lookup_field key (field k v fs) = if k == key then some v else lookup_field key fs

-- The metadata that the operator gives an object, and its `spec`, where it has one.
pub record Object : Type 0 where
  pub gvk : Gvk
  pub namespace : Text
  pub name : Text
  pub labels : Dict Text
  pub owners : List Text
  pub spec : Option Json

-- The ConfigMap that owns the objects of an aggregate.
pub record ConfigMap : Type 0 where
  pub namespace : Text
  pub name : Text
  pub labels : Dict Text
  pub contents : Option (Dict Text)

pub data Error : Type 0 where
  not_found no_match : Error
  other : Text → Error

pub data Result {ℓ} (A : Type ℓ) : Type ℓ where
  ok : A → Result A
  err : Error → Result A

pub record Client (W : Type 0) : Type 0 where
  -- client.Reader
  pub get : W → Gvk → Text → Text → Result Object
  pub list_managed : W → Gvk → Text → Text → Result (List Object)
  pub list_devices : W → Text → Result (List Device)
  pub list_networks : W → Text → Result (List Network)
  pub list_routers : W → Result (List IngressRouter)
  pub list_ingresses : W → Result (List Ingress)
  pub list_http_routes : W → Result (List Object)
  pub list_services : W → Result (List Service)
  -- client.Writer, client.StatusWriter and controllerutil.CreateOrUpdate
  pub create_or_update : Object → (Object → Result Object) → W → Result (Unit {0}) × W
  pub create_or_update_config_map : ConfigMap → (ConfigMap → ConfigMap) → W → Result ConfigMap × W
  pub delete : Object → W → Result (Unit {0}) × W
  pub update_device_status : Device → W → Result (Unit {0}) × W
  pub update_network_status : Network → W → Result (Unit {0}) × W
  pub update_router_status : IngressRouter → W → Result (Unit {0}) × W
  -- metav1.Now, meta.SetStatusCondition, equality.Semantic.DeepEqual, controllerutil.SetOwnerReference
  pub now : W → ℕ
  pub set_status_condition : List Condition → Condition → List Condition
  pub deep_equal : Option Json → Option Json → Bool
  pub set_owner_reference : ConfigMap → Object → Result Object
  -- err.Error()
  pub error_text : Error → Text
  -- fmt.Sprintf with `%d` of a length, and with `%v` of a value, which may be nil
  pub show_length : ℕ → Text
  pub show_value : Option Json → Text
  -- unstructured.NestedMap, NestedSlice and NestedStringSlice under `spec`
  pub nested_map : Object → Result (Option Json)
  pub nested_slice : Object → Text → Option (List Json)
  pub nested_string_slice : Object → Text → Option (List Text)
