-- ===== src/Api/DeepCopy/Types.antt =====
-- The functions of api/v1/zz_generated.deepcopy.go, one for each type, from those of the kinds.
use homelab_operator.Prelude.{Option}
use homelab_operator.Api.{NetworkSpec, IngressRouterSpec}
use homelab_operator.Api.Memory.{
  StatusStruct, DeviceSpecStruct, device, network, ingress_router, ResourceStruct, Mem,
  DeviceListStruct, NetworkListStruct, IngressRouterListStruct,
}
use homelab_operator.Api.DeepCopy.{
  Foreign, device_spec_deep_copy_into, network_spec_deep_copy_into,
  ingress_router_spec_deep_copy_into, status_deep_copy_into, resource_deep_copy_into,
  list_deep_copy_into, deep_copy, deep_copy_object,
}

module _ {T : Type 0} where
  abbrev pub device_spec_deep_copy : Option DeviceSpecStruct → Mem T (Option DeviceSpecStruct)
  device_spec_deep_copy = deep_copy device_spec_deep_copy_into

  abbrev pub network_spec_deep_copy : Option NetworkSpec → Mem T (Option NetworkSpec)
  network_spec_deep_copy = deep_copy network_spec_deep_copy_into

  abbrev pub ingress_router_spec_deep_copy :
      Option IngressRouterSpec → Mem T (Option IngressRouterSpec)
  ingress_router_spec_deep_copy = deep_copy ingress_router_spec_deep_copy_into

module _ {T : Type 0} (k : Foreign T) where
  abbrev pub homelab_status_deep_copy : Option StatusStruct → Mem T (Option StatusStruct)
  homelab_status_deep_copy = deep_copy (status_deep_copy_into k)

  -- The status embeds HomelabStatus and has no other field.
  abbrev pub device_status_deep_copy_into : StatusStruct → Mem T StatusStruct
  device_status_deep_copy_into = status_deep_copy_into k

  abbrev pub device_status_deep_copy : Option StatusStruct → Mem T (Option StatusStruct)
  device_status_deep_copy = deep_copy (status_deep_copy_into k)

  abbrev pub device_deep_copy_into : ResourceStruct T device → Mem T (ResourceStruct T device)
  device_deep_copy_into = resource_deep_copy_into k device

  abbrev pub device_deep_copy :
      Option (ResourceStruct T device) → Mem T (Option (ResourceStruct T device))
  device_deep_copy = deep_copy (resource_deep_copy_into k device)

  abbrev pub device_deep_copy_object :
      Option (ResourceStruct T device) → Mem T (Option (Option (ResourceStruct T device)))
  device_deep_copy_object = deep_copy_object (resource_deep_copy_into k device)

  abbrev pub device_list_deep_copy_into : DeviceListStruct T → Mem T (DeviceListStruct T)
  device_list_deep_copy_into = list_deep_copy_into k device

  abbrev pub device_list_deep_copy :
      Option (DeviceListStruct T) → Mem T (Option (DeviceListStruct T))
  device_list_deep_copy = deep_copy (list_deep_copy_into k device)

  abbrev pub device_list_deep_copy_object :
      Option (DeviceListStruct T) → Mem T (Option (Option (DeviceListStruct T)))
  device_list_deep_copy_object = deep_copy_object (list_deep_copy_into k device)

  -- The status embeds HomelabStatus and has no other field.
  abbrev pub network_status_deep_copy_into : StatusStruct → Mem T StatusStruct
  network_status_deep_copy_into = status_deep_copy_into k

  abbrev pub network_status_deep_copy : Option StatusStruct → Mem T (Option StatusStruct)
  network_status_deep_copy = deep_copy (status_deep_copy_into k)

  abbrev pub network_deep_copy_into : ResourceStruct T network → Mem T (ResourceStruct T network)
  network_deep_copy_into = resource_deep_copy_into k network

  abbrev pub network_deep_copy :
      Option (ResourceStruct T network) → Mem T (Option (ResourceStruct T network))
  network_deep_copy = deep_copy (resource_deep_copy_into k network)

  abbrev pub network_deep_copy_object :
      Option (ResourceStruct T network) → Mem T (Option (Option (ResourceStruct T network)))
  network_deep_copy_object = deep_copy_object (resource_deep_copy_into k network)

  abbrev pub network_list_deep_copy_into : NetworkListStruct T → Mem T (NetworkListStruct T)
  network_list_deep_copy_into = list_deep_copy_into k network

  abbrev pub network_list_deep_copy :
      Option (NetworkListStruct T) → Mem T (Option (NetworkListStruct T))
  network_list_deep_copy = deep_copy (list_deep_copy_into k network)

  abbrev pub network_list_deep_copy_object :
      Option (NetworkListStruct T) → Mem T (Option (Option (NetworkListStruct T)))
  network_list_deep_copy_object = deep_copy_object (list_deep_copy_into k network)

  -- The status embeds HomelabStatus and has no other field.
  abbrev pub ingress_router_status_deep_copy_into : StatusStruct → Mem T StatusStruct
  ingress_router_status_deep_copy_into = status_deep_copy_into k

  abbrev pub ingress_router_status_deep_copy : Option StatusStruct → Mem T (Option StatusStruct)
  ingress_router_status_deep_copy = deep_copy (status_deep_copy_into k)

  abbrev pub ingress_router_deep_copy_into :
      ResourceStruct T ingress_router → Mem T (ResourceStruct T ingress_router)
  ingress_router_deep_copy_into = resource_deep_copy_into k ingress_router

  abbrev pub ingress_router_deep_copy :
      Option (ResourceStruct T ingress_router) → Mem T (Option (ResourceStruct T ingress_router))
  ingress_router_deep_copy = deep_copy (resource_deep_copy_into k ingress_router)

  abbrev pub ingress_router_deep_copy_object :
      Option (ResourceStruct T ingress_router)
      → Mem T (Option (Option (ResourceStruct T ingress_router)))
  ingress_router_deep_copy_object = deep_copy_object (resource_deep_copy_into k ingress_router)

  abbrev pub ingress_router_list_deep_copy_into :
      IngressRouterListStruct T → Mem T (IngressRouterListStruct T)
  ingress_router_list_deep_copy_into = list_deep_copy_into k ingress_router

  abbrev pub ingress_router_list_deep_copy :
      Option (IngressRouterListStruct T) → Mem T (Option (IngressRouterListStruct T))
  ingress_router_list_deep_copy = deep_copy (list_deep_copy_into k ingress_router)

  abbrev pub ingress_router_list_deep_copy_object :
      Option (IngressRouterListStruct T) → Mem T (Option (Option (IngressRouterListStruct T)))
  ingress_router_list_deep_copy_object = deep_copy_object (list_deep_copy_into k ingress_router)
