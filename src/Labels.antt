-- ===== src/Labels.antt =====
-- internal/labels/labels.go: the labels of the objects that the operator manages.
use homelab_operator.Prelude.{Text, [], ◌∷◌, codes, is_empty, if◌then◌else◌}
use homelab_operator.Prelude.Dict.{Dict, put}

abbrev pub managed_by : Text
managed_by = codes "app.kubernetes.io/managed-by"

abbrev pub managed_by_value : Text
managed_by_value = codes "homelab-operator"

abbrev pub aggregate_key : Text
aggregate_key = codes "homelab.valdron.ca/aggregate"

abbrev pub network_key : Text
network_key = codes "homelab.valdron.ca/network"

unfoldable pub managed : Text → Text → Dict Text
managed aggregate network =
    let m = (managed_by, managed_by_value) ∷ (aggregate_key, aggregate) ∷ [] in
    if is_empty network then m else put network_key network m
