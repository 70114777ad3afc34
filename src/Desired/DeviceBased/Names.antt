-- ===== src/Desired/DeviceBased/Names.antt =====
-- The names of the objects of a network, and the networks that devices are attached to.
use homelab_operator.Prelude.{
  Text, Bool, false, not, ◌&&◌, ◌||◌, ◌≡◌, refl, ◌∙◌, List, [], ◌∷◌, ◌==◌, eq_iff, append_cancel,
  is_empty, codes, arith,
}
use homelab_operator.Prelude.Lists.{any}
use homelab_operator.Prelude.Dict.{Dict, get, put, get-put}
use homelab_operator.Prelude.Keys.{is_some}
use homelab_operator.Prelude.Sort.{sort_func, any-sort_func}
use homelab_operator.Api.{Device, Network}
use homelab_operator.Desired.DeviceBased.{device_based_network_name, net_by_name, by_network_name}

pub device_based_network_name_inj :
    (a b : Text) → (device_based_network_name a == device_based_network_name b) ≡ (a == b)
unfolding device_based_network_name
device_based_network_name_inj a b = ground (
  arith,
  eq_iff a b,
  eq_iff (device_based_network_name a) (device_based_network_name b),
  append_cancel (codes "device-based-") a b,
)

-- A network of the list has the name.
abbrev pub named : Text → List Network → Bool
named name = any (λ (n : Network). n.name == name)

-- The device names a network of the list.
abbrev pub is_attached : List Network → Device → Bool
is_attached networks d = not (is_empty d.spec.network) && named d.spec.network networks

is_some-net_by_name :
    (k : Text) (ns : List Network) (m : Dict Network)
    → is_some (get k (net_by_name ns m)) ≡ (named k ns || is_some (get k m))
unfolding net_by_name
is_some-net_by_name k [] m = refl
is_some-net_by_name k (n ∷ ns) m =
    ground (arith, is_some-net_by_name k ns (put n.name n m), get-put n.name k n m, eq_iff n.name k)

-- The lookup in `netByName` succeeds exactly for the names of networks.
pub is_some-get-net_by_name :
    (k : Text) (networks : List Network)
    → is_some (get k (net_by_name (sort_func by_network_name networks) [])) ≡ named k networks
unfolding get
is_some-get-net_by_name k networks =
    is_some-net_by_name k (sort_func by_network_name networks) []
    ∙ or_false _
    ∙ any-sort_func by_network_name (λ n. n.name == k) networks
  where
    or_false : (b : Bool) → (b || false) ≡ b
    or_false b = ground arith
