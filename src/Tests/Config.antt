-- ===== src/Tests/Config.antt =====
-- Examples for the settings and what the manager makes of them.
use homelab_operator.Prelude.{
  Text, Option, none, some, ◌≡◌, List, [], ◌∷◌, ◌==◌, codes, if◌then◌else◌,
}
use homelab_operator.Prelude.Lists.{any}
use homelab_operator.Prelude.Dict.{get}
use homelab_operator.Prelude.Keys.{is_some}
use homelab_operator.Entry.{default_options, manager_options, get-manager_options}
use homelab_operator.Tests.Data.{settings}
use homelab_operator.Config.{is_nil}

abbrev items : List Text
items = codes "home" ∷ codes "lab" ∷ []

abbrev env : Text → Option Text
env key =
    if key == codes "ENABLE_FREERADIUS_DEVICES"
    then some (codes "true")
    else (if key == codes "DNSMASQ_DOMAIN_SEARCH" then some (codes "home,lab") else none)

get-manager_options_example :
    (is_some (get (codes "homelab") (manager_options settings default_options).namespaces)
      ≡ any (λ j. j == codes "homelab") settings.watch_namespaces)
    × (is_nil (manager_options settings default_options).namespaces
        ≡ is_nil settings.watch_namespaces)
get-manager_options_example = get-manager_options settings default_options (codes "homelab")
