-- ===== src/Api.antt =====
-- api/v1: the custom resources Device, Network and IngressRouter with their status, and the fields
-- that the operator reads of the Kubernetes types (metadata, Ingress, HTTPRoute, Service).
-- A time is a number of seconds. A nil slice and an empty one are both `[]`.
pub mod Memory
pub mod DeepCopy
use homelab_operator.Prelude.{ℕ, ℤ, Text, Bool, Option, List, codes}
use homelab_operator.Prelude.Dict.{Dict}

-- `metav1.ObjectMeta`, as far as it is read or written here.
pub record ObjectMeta : Type 0 where
  pub name : Text
  pub namespace : Text
  pub annotations : Dict Text
  pub generation : ℤ

-- `metav1.Condition`.
pub record Condition : Type 0 where
  pub type : Text
  pub status : Text
  pub reason : Text
  pub message : Text
  pub last_transition_time : ℕ

pub record HomelabStatus : Type 0 where
  pub observed_generation : ℤ
  pub last_sync_time : Option ℕ
  pub conditions : List Condition

abbrev pub condition_ready : Text
condition_ready = codes "Ready"

abbrev pub condition_network_available : Text
condition_network_available = codes "NetworkAvailable"

pub record DeviceSpec : Type 0 where
  pub network : Text
  pub ip : Text
  pub mac_addresses : List Text
  pub dhcp : Bool
  pub additional_hostnames : List Text
  pub trunked : Bool
  pub wired : Bool
  pub wireless : Bool
  pub usb : Bool
  pub location : Text
  pub position : ℤ
  pub pdu : Text
  pub switch : Text
  pub side : Text
  pub manufacturer : Text
  pub model : Text
  pub serial_number : Text

pub record Device : Type 0 where
  pub meta : ObjectMeta
  pub open meta use *
  pub spec : DeviceSpec
  pub status : HomelabStatus

pub record NetworkSpec : Type 0 where
  pub role : Text
  pub vlan : ℤ
  pub cidr_block : Text
  pub serve_dhcp : Bool
  pub router : Text
  pub dns_server : Text

pub record Network : Type 0 where
  pub meta : ObjectMeta
  pub open meta use *
  pub spec : NetworkSpec
  pub status : HomelabStatus

pub record IngressRouterSpec : Type 0 where
  pub ingress_class : Text
  pub ip_address : Text

pub record IngressRouter : Type 0 where
  pub meta : ObjectMeta
  pub open meta use *
  pub spec : IngressRouterSpec
  pub status : HomelabStatus

-- `networkingv1.Ingress`: the class pointer, and the host of each rule.
pub record Ingress : Type 0 where
  pub meta : ObjectMeta
  pub open meta use *
  pub ingress_class_name : Option Text
  pub rules : List Text

abbrev pub service_type_load_balancer : Text
service_type_load_balancer = codes "LoadBalancer"

-- `corev1.Service`: the type, the requested address, and the addresses of
-- `status.loadBalancer.ingress`.
pub record Service : Type 0 where
  pub meta : ObjectMeta
  pub open meta use *
  pub type : Text
  pub load_balancer_ip : Text
  pub load_balancer_ingress : List Text
