-- ===== src/Entry.antt =====
-- cmd/main.go: from the command line and the settings to the manager, its controllers and the exit
-- code. The manager is controller-runtime's: `Runtime` holds the calls that main makes of it.
use homelab_operator.Prelude.{
  ℕ, ℤ, pos, Text, Bool, true, false, not, ◌||◌, ◌≡◌, refl, List, [], ◌∷◌, ◌==◌, codes, is_empty,
  if◌then◌else◌, arith,
}
use homelab_operator.Prelude.Lists.{any}
use homelab_operator.Prelude.Dict.{Dict, get, put, get-put}
use homelab_operator.Prelude.Keys.{is_some}
use homelab_operator.Config.{Config, is_nil}
use homelab_operator.Cluster.{Result, ok, err}
use homelab_operator.Cluster.Exec.{Exec, pure, ◌>>◌}

-- The variables of main that the flags write to.
pub record Options : Type 0 where
  pub metrics_addr : Text
  pub probe_addr : Text
  pub enable_leader_election : Bool
  pub leader_election_namespace : Text
  pub secure_metrics : Bool
  pub webhook_cert_path : Text
  pub webhook_cert_name : Text
  pub webhook_cert_key : Text
  pub webhook_port : ℤ
  pub metrics_cert_path : Text
  pub metrics_cert_name : Text
  pub metrics_cert_key : Text
  pub enable_http2 : Bool

-- Their values where no flag is given.
abbrev pub default_options : Options
default_options = record {
  metrics_addr = codes "0";
  probe_addr = codes ":8081";
  enable_leader_election = true;
  leader_election_namespace = [];
  secure_metrics = true;
  webhook_cert_path = [];
  webhook_cert_name = codes "tls.crt";
  webhook_cert_key = codes "tls.key";
  webhook_port = pos 9443;
  metrics_cert_path = [];
  metrics_cert_name = codes "tls.crt";
  metrics_cert_key = codes "tls.key";
  enable_http2 = false;
}

-- The protocols that a TLS option sets, where it sets any.
abbrev pub next_protos : Options → List (List Text)
next_protos o = if not o.enable_http2 then (codes "http/1.1" ∷ []) ∷ [] else []

-- `webhook.Options`
pub record WebhookOptions : Type 0 where
  pub tls_opts : List (List Text)
  pub port : ℤ
  pub cert_dir : Text
  pub cert_name : Text
  pub key_name : Text

abbrev pub webhook_options : Options → WebhookOptions
webhook_options o = record {
  tls_opts = next_protos o;
  port = o.webhook_port;
  cert_dir = o.webhook_cert_path;
  cert_name = o.webhook_cert_name;
  key_name = o.webhook_cert_key;
}

-- `metricsserver.Options`; the filter provider is there or not.
pub record MetricsOptions : Type 0 where
  pub bind_address : Text
  pub secure_serving : Bool
  pub tls_opts : List (List Text)
  pub is_filtered : Bool
  pub cert_dir : Text
  pub cert_name : Text
  pub key_name : Text

unfoldable pub metrics_options : Options → MetricsOptions
metrics_options o =
    let base : MetricsOptions = record {
      bind_address = o.metrics_addr;
      secure_serving = o.secure_metrics;
      tls_opts = next_protos o;
      is_filtered = o.secure_metrics;
      cert_dir = [];
      cert_name = [];
      key_name = [];
    } in
    if is_empty o.metrics_cert_path then base else record base {
      cert_dir = o.metrics_cert_path;
      cert_name = o.metrics_cert_name;
      key_name = o.metrics_cert_key;
    }

-- `for _, ns := range cfg.WatchNamespaces { … }`
unfoldable pub add_namespaces : List Text → Dict (Unit {0}) → Dict (Unit {0})
add_namespaces [] m = m
add_namespaces (ns ∷ l) m = add_namespaces l (put ns tt m)

-- `cache.Options.DefaultNamespaces`; the cache reads a nil map as all namespaces.
unfoldable pub default_namespaces : Config → Dict (Unit {0})
unfolding add_namespaces
default_namespaces cfg =
    if is_nil cfg.watch_namespaces then [] else add_namespaces cfg.watch_namespaces []

-- `ctrl.Options`
pub record ManagerOptions : Type 0 where
  pub namespaces : Dict (Unit {0})
  pub metrics : MetricsOptions
  pub webhook : WebhookOptions
  pub health_probe_bind_address : Text
  pub leader_election : Bool
  pub leader_election_id : Text
  pub leader_election_namespace : Text

unfoldable pub manager_options : Config → Options → ManagerOptions
unfolding default_namespaces metrics_options
manager_options cfg o = record {
  namespaces = default_namespaces cfg;
  metrics = metrics_options o;
  webhook = webhook_options o;
  health_probe_bind_address = o.probe_addr;
  leader_election = o.enable_leader_election;
  leader_election_id = codes "homelab-operator.valdron.ca";
  leader_election_namespace = o.leader_election_namespace;
}

-- The calls of the manager: `NewManager`, the builder's `Complete` of a named controller, the two
-- checks by name, and `Start`.
pub record Runtime (M : Type 0) : Type 0 where
  pub new_manager : ManagerOptions → Exec M (Unit {0})
  pub complete : Text → Exec M (Unit {0})
  pub add_healthz_check : Text → Exec M (Unit {0})
  pub add_readyz_check : Text → Exec M (Unit {0})
  pub start : Exec M (Unit {0})

module _ {M : Type 0} (r : Runtime M) (cfg : Config) where
  -- The guard of a SetupWithManager; what the watches are is in Controller.Watch.Events.
  abbrev set_up : Bool → Text → Exec M (Unit {0})
  set_up enabled name = if not enabled then pure tt else r.complete name

  unfoldable pub set_up_all : Exec M (Unit {0})
  set_up_all =
      set_up cfg.enable_device_based_hosts (codes "device")
      >> (set_up cfg.enable_ingress_based_dns_hosts (codes "ingressdns")
          >> set_up cfg.enable_load_balancer_based_dns_hosts (codes "loadbalancerdns"))

  unfoldable pub start_up : Options → Exec M (Unit {0})
  unfolding manager_options set_up_all
  start_up o =
      r.new_manager (manager_options cfg o)
      >> (set_up_all
          >> (r.add_healthz_check (codes "healthz")
              >> (r.add_readyz_check (codes "readyz") >> r.start)))

  -- `os.Exit(1)` after each error.
  abbrev exit_code : Result (Unit {0}) → ℕ
  exit_code (ok a) = 0
  exit_code (err e) = 1

  -- The exit code of the process, where `Start` returns.
  unfoldable pub main_exit : Options → M → ℕ × M
  unfolding start_up
  main_exit o w = let (result, w') = start_up o w in (exit_code result, w')

get-add_namespaces :
    (ns : Text) (l : List Text) (m : Dict (Unit {0}))
    → is_some (get ns (add_namespaces l m)) ≡ (any (λ j. j == ns) l || is_some (get ns m))
unfolding add_namespaces
get-add_namespaces ns [] m = refl
get-add_namespaces ns (j ∷ l) m =
    ground (arith, get-add_namespaces ns l (put j tt m), get-put j ns tt m)

-- A map that is not nil does not become so.
is_nil-put : (ns : Text) (m : Dict (Unit {0})) → is_nil (put ns tt m) ≡ false
unfolding put
is_nil-put ns [] = refl
is_nil-put ns ((j, u) ∷ m) = ground arith

is_nil-add_namespaces :
    (l : List Text) (m : Dict (Unit {0})) → is_nil m ≡ false → is_nil (add_namespaces l m) ≡ false
unfolding add_namespaces
is_nil-add_namespaces [] m h = h
is_nil-add_namespaces (ns ∷ l) m h = is_nil-add_namespaces l (put ns tt m) (is_nil-put ns m)

-- The manager's cache is limited to the namespaces of the setting and to no other, and it is without
-- a limit exactly where the setting is empty: an empty map, which would stand for all namespaces, is
-- not made out of one that names some.
pub get-manager_options :
    (cfg : Config) (o : Options) (ns : Text)
    → (is_some (get ns (manager_options cfg o).namespaces)
        ≡ any (λ j. j == ns) cfg.watch_namespaces)
      × (is_nil (manager_options cfg o).namespaces ≡ is_nil cfg.watch_namespaces)
unfolding manager_options default_namespaces get add_namespaces put
get-manager_options cfg o ns = from cfg.watch_namespaces
  where
    from :
        (l : List Text)
        → let m = if is_nil l then [] else add_namespaces l [] in
          (is_some (get ns m) ≡ any (λ j. j == ns) l) × (is_nil m ≡ is_nil l)
    from [] = (refl, refl)
    from (n ∷ l) = (
      ground (arith, get-add_namespaces ns (n ∷ l) []),
      is_nil-add_namespaces l ((n, tt) ∷ []) refl,
    )
