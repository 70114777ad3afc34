-- ===== src/Scheme.antt =====
-- internal/scheme/external.go: the kinds of other projects that the client may read and write.
-- `runtime.Scheme` is not in the repository: `Types` holds the two calls of it that count here.
pub mod Own
use homelab_operator.Prelude.{
  Bool, true, false, ◌||◌, ◌≡◌, refl, List, [], ◌∷◌, ◌++◌, ◌==◌, codes, arith,
}
use homelab_operator.Config.{Config}
use homelab_operator.Cluster.{Gvk, Object}
use homelab_operator.Cluster.Laws.{same_kind}
use homelab_operator.Dnsmasq.Unstructured.{
  dns_hosts_gvk, dhcp_hosts_gvk, dhcp_options_gvk, free_radius_device_gvk, new_object,
  new_dns_hosts, new_dhcp_hosts, new_dhcp_options,
}
use homelab_operator.Desired.DeviceBased.{DeviceBasedOutput}
use homelab_operator.Controller.Device.{free_radius_object}
use homelab_operator.Controller.Device.Established.Objects.{Wanted, options, lease, host, radius}

-- `AddKnownTypeWithName` with an unstructured object or list, and `Recognizes`.
pub record Types (S : Type 0) : Type 0 where
  pub add_known_type : S → Gvk → S
  pub recognizes : S → Gvk → Bool

-- A scheme recognizes a kind that was added, and still what it did before.
pub record Registers {S : Type 0} (t : Types S) : Type 0 where
  pub registers :
      (s : S) (g h : Gvk)
      → t.recognizes (t.add_known_type s g) h ≡ (same_kind g h || t.recognizes s h)

abbrev pub http_route_gvk : Gvk
http_route_gvk = record {
  group = codes "gateway.networking.k8s.io";
  version = codes "v1";
  kind = codes "HTTPRoute";
}

abbrev pub list_gvk : Gvk → Gvk
list_gvk gvk = record gvk { kind = gvk.kind ++ codes "List" }

abbrev pub external_gvks : List Gvk
external_gvks =
    dns_hosts_gvk ∷ dhcp_hosts_gvk ∷ dhcp_options_gvk ∷ free_radius_device_gvk ∷ http_route_gvk ∷ []

module _ {S : Type 0} (t : Types S) where
  -- The loop over the kinds.
  unfoldable pub add_kinds : List Gvk → S → S
  add_kinds [] s = s
  add_kinds (gvk ∷ gvks) s =
      add_kinds gvks (t.add_known_type (t.add_known_type s gvk) (list_gvk gvk))

  unfoldable pub add_external : S → S
  unfolding add_kinds
  add_external s = add_kinds external_gvks s

-- The kind, or that of its lists, is one of these.
abbrev pub is_listed : Gvk → List Gvk → Bool
is_listed h [] = false
is_listed h (g ∷ gvks) = same_kind g h || (same_kind (list_gvk g) h || is_listed h gvks)

module _ {S : Type 0} (t : Types S) (law : Registers t) where
  recognizes-add_kinds :
      (gvks : List Gvk) (s : S) (h : Gvk)
      → t.recognizes (add_kinds t gvks s) h ≡ (is_listed h gvks || t.recognizes s h)
  unfolding add_kinds
  recognizes-add_kinds [] s h = refl
  recognizes-add_kinds (g ∷ gvks) s h = ground (
    arith,
    recognizes-add_kinds gvks (t.add_known_type (t.add_known_type s g) (list_gvk g)) h,
    law.registers (t.add_known_type s g) (list_gvk g) h,
    law.registers s g h,
  )

  pub recognizes-add_external :
      (s : S) (h : Gvk)
      → t.recognizes (add_external t s) h ≡ (is_listed h external_gvks || t.recognizes s h)
  unfolding add_external
  recognizes-add_external s h = recognizes-add_kinds external_gvks s h

  recognized :
      (s : S) (h : Gvk)
      → is_listed h external_gvks ≡ true
      → t.recognizes (add_external t s) h ≡ true
  recognized s h e = ground (arith, recognizes-add_external s h, e)

  -- After `AddExternal` the scheme recognizes the kind of every object that the device controller
  -- wants, and the kind of its lists, which the prune lists, and those of HTTPRoutes, which the
  -- ingress controller lists. A scheme is supposed to recognize what was added and what it recognized before.
  pub recognizes-Wanted :
      (s : S) (cfg : Config) (out : DeviceBasedOutput) (o : Object)
      → Wanted cfg out o
      → (t.recognizes (add_external t s) o.gvk ≡ true)
        × (t.recognizes (add_external t s) (list_gvk o.gvk) ≡ true)
        × (t.recognizes (add_external t s) http_route_gvk ≡ true)
        × (t.recognizes (add_external t s) (list_gvk http_route_gvk) ≡ true)
  unfolding new_dhcp_options new_dhcp_hosts new_dns_hosts free_radius_object new_object ◌==◌
  recognizes-Wanted s cfg out o options =
      (recognized s _ refl, recognized s _ refl, recognized s _ refl, recognized s _ refl)
  recognizes-Wanted s cfg out o (lease k spec e) =
      (recognized s _ refl, recognized s _ refl, recognized s _ refl, recognized s _ refl)
  recognizes-Wanted s cfg out o (host k spec e) =
      (recognized s _ refl, recognized s _ refl, recognized s _ refl, recognized s _ refl)
  recognizes-Wanted s cfg out o (radius k spec e on) =
      (recognized s _ refl, recognized s _ refl, recognized s _ refl, recognized s _ refl)
