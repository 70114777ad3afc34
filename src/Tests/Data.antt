-- ===== src/Tests/Data.antt =====
-- The data of the examples: two networks, three devices, two services and settings.
use homelab_operator.Prelude.{pos, Text, true, false, none, some, [], ◌∷◌, codes}
use homelab_operator.Api.{
  ObjectMeta, HomelabStatus, Device, Network, Service, IngressRouter, Ingress,
  service_type_load_balancer,
}
use homelab_operator.Config.{Config}

abbrev pub meta : Text → ObjectMeta
meta name = record {
  name = name;
  namespace = codes "homelab";
  annotations = [];
  generation = pos 1;
}

abbrev pub no_status : HomelabStatus
no_status = record { observed_generation = pos 0; last_sync_time = none; conditions = [] }

abbrev pub device : Text → Text → Text → Device
device name network ip = record {
  meta = meta name;
  spec = record {
    network = network;
    ip = ip;
    mac_addresses = codes "aa:bb:cc:dd:ee:ff" ∷ [];
    dhcp = true;
    additional_hostnames = [];
    trunked = false;
    wired = true;
    wireless = false;
    usb = false;
    location = [];
    position = pos 0;
    pdu = [];
    switch = [];
    side = [];
    manufacturer = [];
    model = [];
    serial_number = [];
  };
  status = no_status;
}

abbrev pub lan : Network
lan = record {
  meta = meta (codes "lan");
  spec = record {
    role = codes "trusted";
    vlan = pos 10;
    cidr_block = codes "10.0.0.0/24";
    serve_dhcp = true;
    router = codes "10.0.0.1";
    dns_server = [];
  };
  status = no_status;
}

abbrev pub iot : Network
iot = record {
  meta = meta (codes "iot");
  spec = record {
    role = codes "iot";
    vlan = pos 20;
    cidr_block = codes "10.0.1.0/24";
    serve_dhcp = false;
    router = [];
    dns_server = [];
  };
  status = no_status;
}

abbrev pub nas : Device
nas = device (codes "nas") (codes "lan") (codes "10.0.0.9")

abbrev pub printer : Device
printer = device (codes "printer") (codes "lan") (codes "10.0.0.10")

abbrev pub bulb : Device
bulb = device (codes "bulb") (codes "iot") []

abbrev pub service : Text → Text → Service
service name ip = record {
  meta = meta name;
  type = service_type_load_balancer;
  load_balancer_ip = [];
  load_balancer_ingress = ip ∷ [];
}

abbrev pub web : Service
web = service (codes "web") (codes "10.0.0.50")

abbrev pub mail : Service
mail = service (codes "mail") (codes "10.0.0.50")

abbrev pub traefik : IngressRouter
traefik = record {
  meta = meta (codes "traefik");
  spec = record { ingress_class = codes "traefik"; ip_address = codes "10.0.0.60" };
  status = no_status;
}

abbrev pub wiki : Ingress
wiki = record {
  meta = meta (codes "wiki");
  ingress_class_name = some (codes "traefik");
  rules = codes "wiki.example" ∷ [] ∷ [];
}

abbrev pub settings : Config
settings = record {
  dry_run = false;
  dnsmasq_resources_namespace = codes "dnsmasq";
  dnsmasq_dns_server = codes "10.0.0.2";
  dnsmasq_domain_name = codes "home.example";
  dnsmasq_domain_search = [];
  enable_device_based_hosts = true;
  enable_device_short_name = true;
  device_suffix = codes ".home.example";
  enable_free_radius_devices = true;
  free_radius_devices_namespace = codes "dnsmasq";
  free_radius_devices_wireless_only = false;
  enable_ingress_based_dns_hosts = true;
  use_http_routes_for_ingress = true;
  enable_load_balancer_based_dns_hosts = true;
  load_balancer_based_suffix = codes ".lb.example";
  watch_namespaces = codes "homelab" ∷ [];
}
