-- ===== src/Tests/Api.antt =====
-- Examples for the deep copies and for the registration of the types.
use homelab_operator.Prelude.{
  ℕ, pos, Text, Bool, true, false, ◌||◌, ◌≡◌, refl, ap, ◌∙◌, none, some, List, [], ◌∷◌, ◌++◌, map,
  codes, arith,
}
use homelab_operator.Prelude.Lists.{any}
use homelab_operator.Cluster.{Gvk}
use homelab_operator.Cluster.Laws.{same_kind}
use homelab_operator.Api.Memory.{
  Kind, device, network, ingress_router, ResourceStruct, Heap, ListStruct,
}
use homelab_operator.Api.Memory.Agree.{Agrees-refl}
use homelab_operator.Api.Memory.View.{
  view_list, MetaWithin, ListMetaWithin, SpecWithin, StatusWithin, ResourceWithin, ItemsWithin,
  ListWithin,
}
use homelab_operator.Api.DeepCopy.Separate.{HoldsCopy, deep_copy_object-list}
use homelab_operator.Api.DeepCopy.Types.{device_list_deep_copy_object}
use homelab_operator.Scheme.{is_listed, external_gvks}
use homelab_operator.Scheme.Own.{
  GroupVersion, with_kind, scheme_group_version, is_type, Registry, FillsScheme, init_scheme,
  own_types, recognizes-init_scheme,
}
use homelab_operator.Tests.Copies.{copies, copies-CopiesDeeply}

-- A device with labels and one MAC address at the address 0, a nil slice of hostnames, and a time at the
-- address 1.
abbrev nas : ResourceStruct Text device
nas = record {
  type_meta = codes "Device";
  meta = record {
    name = codes "nas";
    namespace = codes "homelab";
    generation = pos 1;
    labels = some 0;
    annotations = some 1;
    finalizers = none;
  };
  spec = record {
    network = codes "lan";
    ip = codes "10.0.0.2";
    mac_addresses = some 0;
    dhcp = true;
    additional_hostnames = none;
    trunked = false;
    wired = true;
    wireless = false;
    usb = false;
    location = [];
    position = pos 0;
    pdu = [];
    switch = [];
    side = [];
    manufacturer = [];
    model = [];
    serial_number = [];
  };
  status = record { observed_generation = pos 1; last_sync_time = some 1; conditions = none };
}

abbrev items : List (ResourceStruct Text device)
items = nas ∷ nas ∷ []

abbrev stored : (j : Kind) → ℕ → List (ResourceStruct Text j)
stored device p = items
stored network p = []
stored ingress_router p = []

abbrev heap : Heap Text
heap = record {
  next = 3;
  maps = λ p. (codes "team", codes "infra") ∷ [];
  counts = λ p. pos 0;
  texts = λ p. codes "aa:bb:cc:dd:ee:ff" ∷ [];
  times = λ p. 7;
  conditions = λ p. [];
  items = stored;
}

abbrev devices : ListStruct Text
devices = record {
  type_meta = codes "DeviceList";
  list_meta = record { resource_version = codes "12"; remaining_item_count = some 2 };
  items = some 2;
}

nas-ResourceWithin : ResourceWithin device heap nas
unfolding ResourceWithin MetaWithin SpecWithin StatusWithin
nas-ResourceWithin = ((omega arith, omega arith, tt), (omega arith, tt), (omega arith, tt))

devices-ListWithin : ListWithin device heap devices
unfolding ListWithin ItemsWithin ResourceWithin MetaWithin ListMetaWithin SpecWithin StatusWithin
devices-ListWithin = (omega arith, (omega arith, (nas-ResourceWithin, (nas-ResourceWithin, tt))))

deep_copy_object-list_example :
    (view_list device (device_list_deep_copy_object copies (some devices) heap).1 devices
      ≡ view_list device heap devices)
    × HoldsCopy
        (view_list device (device_list_deep_copy_object copies (some devices) heap).1)
        (view_list device heap devices)
        (device_list_deep_copy_object copies (some devices) heap).0
    × (device_list_deep_copy_object copies none heap ≡ (none, heap))
deep_copy_object-list_example =
    deep_copy_object-list copies device heap devices
      (device_list_deep_copy_object copies (some devices) heap).1
      (device_list_deep_copy_object copies (some devices) heap).1 copies-CopiesDeeply
      devices-ListWithin (Agrees-refl _ _ _) (Agrees-refl _ _ _)

-- A scheme as the list of its kinds.
abbrev knows : List Gvk → Gvk → Bool
knows s h = any (λ g. same_kind g h) s

knows-append : (gs s : List Gvk) (h : Gvk) → knows (gs ++ s) h ≡ (knows gs h || knows s h)
knows-append [] s h = refl
knows-append (g ∷ gs) s h = ground (arith, knows-append gs s h)

knows-map :
    (gv : GroupVersion) (names : List Text) (h : Gvk)
    → knows (map (with_kind gv) names) h ≡ is_type gv names h
knows-map gv [] h = refl
knows-map gv (name ∷ names) h =
    ap (λ b. same_kind (with_kind gv name) h || b) (knows-map gv names h)

abbrev watch_event : Text
watch_event = codes "WatchEvent"

abbrev config_map : Gvk
config_map = record { group = []; version = codes "v1"; kind = codes "ConfigMap" }

abbrev run : List (List Gvk → List Gvk) → List Gvk → List Gvk
run [] s = s
run (f ∷ fs) s = run fs (f s)

abbrev registry : Registry (List Gvk)
registry = record {
  types = record { add_known_type = λ s g. g ∷ s; recognizes = knows };
  add_known_types = λ s gv names. map (with_kind gv) names ++ s;
  add_to_group_version = λ s gv. with_kind gv watch_event ∷ s;
  run_builder = run;
  add_client_go = λ s. config_map ∷ s;
}

registry-FillsScheme :
    FillsScheme registry (λ gv. same_kind (with_kind gv watch_event)) (same_kind config_map)
registry-FillsScheme = record {
  registers = record { registers = λ s g h. refl };
  known_types = λ s gv names h.
      knows-append (map (with_kind gv) names) s h ∙ ap (λ b. b || knows s h) (knows-map gv names h);
  group_version = λ s gv h. refl;
  builder_empty = λ s. refl;
  builder_step = λ f fs s. refl;
  client_go_kinds = λ s h. refl;
}

abbrev device_list : Gvk
device_list = with_kind scheme_group_version (codes "DeviceList")

recognizes-init_scheme_example : registry.types.recognizes (init_scheme registry []) device_list ≡ (
    is_listed device_list external_gvks
    || (is_type scheme_group_version own_types device_list
        || (same_kind (with_kind scheme_group_version watch_event) device_list
            || (same_kind config_map device_list || registry.types.recognizes [] device_list))))
recognizes-init_scheme_example =
    recognizes-init_scheme registry (λ gv. same_kind (with_kind gv watch_event))
      (same_kind config_map) registry-FillsScheme [] device_list
