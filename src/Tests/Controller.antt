-- ===== src/Tests/Controller.antt =====
-- Examples for the controllers.
use mathlib.Core.List.{Mem, mem-cons_self}
use homelab_operator.Api.{Network}
use homelab_operator.Controller.Dns.{reconcile_ingress, reconcile_load_balancer}
use homelab_operator.Controller.Dns.DryRun.{reconcile_dns_dry_run}
use homelab_operator.Controller.Reconcile.{reconcile_device, get-reconcile_device}
use homelab_operator.Controller.Watch.{is_canonical, is_canonical_iff}
use homelab_operator.Prelude.{
  Ordering, compare, inl, inr, ◌≢◌, ◌↔◌, ◌≤◌, Text, true, not, ◌||◌, none, ◌≡◌, refl, List, [], ◌∷◌,
  ◌==◌, codes, if◌then◌else◌, nat_eq,
}
use homelab_operator.Prelude.Lists.{keep}
use homelab_operator.Prelude.Dict.{get, put}
use homelab_operator.Prelude.Keys.{is_some}
use homelab_operator.Labels.{managed}
use homelab_operator.Cluster.{Gvk, Object}
use homelab_operator.Cluster.Exec.{Keeps}
use homelab_operator.Ensure.{ApplyPlan, create, update, unchanged}
use homelab_operator.Config.{Config}
use homelab_operator.Dnsmasq.Netip.{no_ipv6}
use homelab_operator.Dnsmasq.Unstructured.{dhcp_hosts_gvk}
use homelab_operator.Controller.Gate.{
  State, call, Reach, start, next, count, enter, run_fn, requeue_after, Reach-exclusive,
}
use homelab_operator.Controller.Trigger.{Event, note_all, consume, latest, consume-note_all}
use homelab_operator.Controller.Summary.{dedupe_apply_plans, log_reconcile_summary}
use homelab_operator.Controller.Summary.Counts.{IsSummary, IsSummary-log_reconcile_summary}
use homelab_operator.Controller.Summary.Dedupe.{
  plans_of, to_list, last_plan, plans_of-dedupe_apply_plans,
}
use homelab_operator.Controller.Prune.{delete_stale, prune_managed}
use homelab_operator.Controller.Prune.Safety.{
  Survives, Keeps-prune_managed, delete_all, delete_stale_lem,
}
use homelab_operator.Controller.Device.{device_based, desired_names, reconcile_namespace}
use homelab_operator.Controller.Device.DryRun.{reconcile_namespace_dry_run}
use homelab_operator.Controller.Device.Labelling.{is_some-desired_names}
use homelab_operator.Desired.DeviceBased.{build_device_based, dhcp_options_name}
use homelab_operator.Tests.Data.{nas, lan, settings}
use homelab_operator.Tests.Server.{api_server}
use homelab_operator.Tests.ServerLaws.{
  api_server-ListSelects, kept_names, HoldsKept, HoldsKept-delete,
}

abbrev key : Text
key = codes "homelab"

abbrev one_running : State
one_running = record { gate = (key, tt) ∷ []; running = key ∷ [] }

one_running-Reach : Reach one_running
unfolding get put enter
one_running-Reach = next start (call key ((key, tt) ∷ []) refl)

Reach-exclusive_example :
    (count key one_running.running ≤ 1)
    × ((enter key one_running.gate).0
        ≡ (if nat_eq (count key one_running.running) 0 then run_fn else requeue_after 500))
Reach-exclusive_example = Reach-exclusive key one_running-Reach

abbrev events : List Event
events =
    record { key = key; kind = codes "Device"; name = codes "nas" }
    ∷ record { key = key; kind = codes "Network"; name = codes "lan" }
    ∷ []

consume-note_all_example :
    ((consume key (note_all events [])).0 ≡ latest key events (get key []))
    × (get (codes "other") (consume key (note_all events [])).1
        ≡ (if key == codes "other" then none else get (codes "other") (note_all events [])))
consume-note_all_example = consume-note_all key (codes "other") events []

abbrev plan : Text → ApplyPlan
plan action = record {
  action = action;
  group_kind = codes "Hosts";
  namespace = codes "dnsmasq";
  name = codes "lan";
  summary = [];
}

IsSummary-log_reconcile_summary_example :
    IsSummary (plan create ∷ plan update ∷ plan unchanged ∷ []) (
      log_reconcile_summary true
        (codes "device-based")
        (plan create ∷ plan update ∷ plan unchanged ∷ []))
IsSummary-log_reconcile_summary_example =
    IsSummary-log_reconcile_summary true (codes "device-based")
      (plan create ∷ plan update ∷ plan unchanged ∷ [])
      (inl refl, (inr (inl refl), (inr (inr refl), tt)))

plans_of-dedupe_apply_plans_example :
    plans_of (codes "Hosts/dnsmasq/lan") (dedupe_apply_plans (plan create ∷ plan update ∷ []))
    ≡ to_list (last_plan (codes "Hosts/dnsmasq/lan") (plan create ∷ plan update ∷ []) none)
plans_of-dedupe_apply_plans_example =
    plans_of-dedupe_apply_plans (codes "Hosts/dnsmasq/lan") (plan create ∷ plan update ∷ [])

abbrev safe :
    {gvk : Gvk} → Survives api_server HoldsKept kept_names (codes "dnsmasq") device_based gvk
safe item w m n h = HoldsKept-delete item w n h

Keeps-prune_managed_example :
    Keeps HoldsKept (prune_managed api_server settings (codes "dnsmasq") device_based kept_names [])
Keeps-prune_managed_example =
    Keeps-prune_managed api_server settings HoldsKept kept_names (codes "dnsmasq") device_based
      api_server-ListSelects [] (safe, (safe, tt))

abbrev object : Text → Object
object name = record {
  gvk = dhcp_hosts_gvk;
  namespace = codes "dnsmasq";
  name = name;
  labels = managed device_based [];
  owners = [];
  spec = none;
}

abbrev objects : List Object
objects = object (codes "device-based-old") ∷ object (codes "device-based-lan") ∷ []

delete_stale_lem_example :
    delete_stale api_server settings kept_names objects
    ≡ delete_all api_server (keep (λ o. not (is_some (get o.name kept_names))) objects)
delete_stale_lem_example = delete_stale_lem api_server settings kept_names objects refl

abbrev dry_settings : Config
dry_settings = record settings { dry_run = true }

reconcile_namespace_dry_run_example :
    (reconcile_namespace api_server dry_settings (λ V m. m) no_ipv6 key objects).1 ≡ objects
reconcile_namespace_dry_run_example =
    reconcile_namespace_dry_run api_server dry_settings (λ V m. m) no_ipv6 key objects refl

reconcile_dns_dry_run_example :
    ((reconcile_ingress api_server dry_settings no_ipv6 key objects).1 ≡ objects)
    × ((reconcile_load_balancer api_server dry_settings no_ipv6 key objects).1 ≡ objects)
reconcile_dns_dry_run_example =
    reconcile_dns_dry_run api_server dry_settings no_ipv6 key objects refl

get-reconcile_device_example :
    get key (reconcile_device api_server settings no_ipv6 (λ V m. m) key [] ([], ([], objects))).1.0
    ≡ get key []
get-reconcile_device_example =
    get-reconcile_device api_server settings no_ipv6 (λ V m. m) key [] [] ([], objects) key

is_canonical_iff_example :
    (is_canonical api_server lan objects ≡ true)
    ↔ ((m : Network) → Mem m (lan ∷ []) → compare lan.name m.name ≢ Ordering.gt)
is_canonical_iff_example = is_canonical_iff api_server objects (lan ∷ []) lan refl mem-cons_self

is_some-desired_names_example :
    is_some (
      get
        (codes "device-based-lan")
        (desired_names (build_device_based no_ipv6 (nas ∷ []) (lan ∷ []) settings)))
    ≡ (is_some (
          get
            (codes "device-based-lan")
            (build_device_based no_ipv6 (nas ∷ []) (lan ∷ []) settings).dns_hosts)
        || is_some (
            get
              (codes "device-based-lan")
              (build_device_based no_ipv6 (nas ∷ []) (lan ∷ []) settings).dhcp_hosts)
        || dhcp_options_name == codes "device-based-lan")
is_some-desired_names_example =
    is_some-desired_names (codes "device-based-lan")
      (build_device_based no_ipv6 (nas ∷ []) (lan ∷ []) settings)
