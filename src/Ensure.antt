-- ===== src/Ensure.antt =====
-- internal/ensure: `PlanUnstructured` compares the wanted spec with that of the cluster, `Apply` and
-- `ApplyUnstructured` write it.
pub mod Describe
pub mod Stored
pub mod Succeeds
use homelab_operator.Prelude.{
  Text, Bool, Option, none, some, List, [], ◌∷◌, ◌++◌, codes, if◌then◌else◌,
}
use homelab_operator.Prelude.Dict.{Dict, put}
use homelab_operator.Cluster.{
  Object, ConfigMap, Json, Error, not_found, no_match, other, Result, ok, err, Client,
}
use homelab_operator.Cluster.Exec.{Exec, pure}
use Describe.{summarize_spec}

abbrev pub create : Text
create = codes "create"

abbrev pub update : Text
update = codes "update"

abbrev pub unchanged : Text
unchanged = codes "unchanged"

pub record ApplyPlan : Type 0 where
  pub action : Text
  pub group_kind : Text
  pub namespace : Text
  pub name : Text
  pub summary : Text

module _ {W : Type 0} (c : Client W) where
  -- The plan for an object, with its action.
  abbrev pub plan_with : Object → Text → ApplyPlan
  plan_with desired action = record {
    action = action;
    group_kind = desired.gvk.kind ++ (codes "." ++ desired.gvk.group);
    namespace = desired.namespace;
    name = desired.name;
    summary = summarize_spec c desired;
  }

  -- The comparison of the specs of an object that was found.
  unfoldable pub compare_specs : Object → Object → Result ApplyPlan
  compare_specs desired current = elim (c.nested_map desired) [
    | err e ↦ err e
    | ok desired_spec ↦ elim (c.nested_map current) [
      | err e ↦ err e
      | ok current_spec ↦
          ok (
            plan_with desired
              (if c.deep_equal desired_spec current_spec then unchanged else update))
    ]
  ]

  -- What the answer to the `Get` means; a missing object or kind is one to create.
  unfoldable pub plan_from : Object → Result Object → Result ApplyPlan
  plan_from desired (ok current) = compare_specs desired current
  plan_from desired (err not_found) = ok (plan_with desired create)
  plan_from desired (err no_match) = ok (plan_with desired create)
  plan_from desired (err (other m)) = err (other m)

  unfoldable pub plan_unstructured : Object → W → Result ApplyPlan
  unfolding plan_from compare_specs
  plan_unstructured desired w =
      plan_from desired (c.get w desired.gvk desired.namespace desired.name)

  -- `Apply`; the operation's result is not used by any caller.
  unfoldable pub apply : ConfigMap → Bool → (ConfigMap → ConfigMap) → Exec W ConfigMap
  apply cm dry_run mutate = if dry_run then pure cm else c.create_or_update_config_map cm mutate

  -- `maps.Copy(labels, extraLabels)`
  unfoldable pub copy_labels : Dict Text → Dict Text → Dict Text
  copy_labels [] labels = labels
  copy_labels ((k, v) ∷ extra) labels = copy_labels extra (put k v labels)

  -- The function that `ApplyUnstructured` hands to `CreateOrUpdate`.
  unfoldable pub mutate_object : Object → Dict Text → ConfigMap → Object → Result Object
  unfolding copy_labels
  mutate_object desired extra_labels owner current = elim (c.nested_map desired) [
    | err e ↦ err e
    | ok spec ↦
        let labels = copy_labels extra_labels current.labels in
        c.set_owner_reference owner (elim spec [
          | none ↦ record current { labels = labels }
          | some s ↦ record current { spec = some s; labels = labels }
        ])
  ]

  abbrev bare_object : Object → Object
  bare_object desired = record desired { labels = []; owners = []; spec = none }

  unfoldable pub apply_unstructured : Object → Bool → Dict Text → ConfigMap → Exec W (Unit {0})
  apply_unstructured desired dry_run extra_labels owner =
      if dry_run
      then pure tt
      else c.create_or_update (bare_object desired) (mutate_object desired extra_labels owner)
