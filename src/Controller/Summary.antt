-- ===== src/Controller/Summary.antt =====
-- internal/controller/reconcile_log.go: the plans of a reconcile, one for each resource, and the
-- lines that go to the log.
pub mod Dedupe
pub mod Counts
use homelab_operator.Prelude.{
  ℕ, ◌+◌, Text, Bool, not, ◌&&◌, Option, none, some, List, [], ◌∷◌, ◌++◌, ◌==◌, codes,
  if◌then◌else◌,
}
use homelab_operator.Prelude.Lists.{length}
use homelab_operator.Prelude.Dict.{Dict, get, put}
use homelab_operator.Prelude.Keys.{is_some}
use homelab_operator.Ensure.{ApplyPlan, create, update, unchanged}

abbrev pub plan_key : ApplyPlan → Text
plan_key p = p.group_kind ++ (codes "/" ++ (p.namespace ++ (codes "/" ++ p.name)))

-- The state of the first loop: `byResource`, and `order`.
pub collect_plans : List ApplyPlan → Dict ApplyPlan → List Text → Dict ApplyPlan × List Text
collect_plans [] by_resource order = (by_resource, order)
collect_plans (p ∷ ps) by_resource order =
    collect_plans ps (put (plan_key p) p by_resource)
      (if is_some (get (plan_key p) by_resource) then order else order ++ (plan_key p ∷ []))

-- The second loop; each key of `order` is there.
in_order : Dict ApplyPlan → List Text → List ApplyPlan
in_order m [] = []
in_order m (k ∷ ks) = let rest = in_order m ks in elim (get k m) [ none ↦ rest | some p ↦ p ∷ rest ]

unfoldable pub dedupe_apply_plans : List ApplyPlan → List ApplyPlan
unfolding collect_plans in_order
dedupe_apply_plans plans =
    let (by_resource, order) = collect_plans plans [] [] in in_order by_resource order

-- A line of the log: the debug line of an aggregate without resources, the debug line with the
-- counts, and a line for a resource that changed, or would change.
pub data LogLine : Type 0 where
  no_resources : Text → LogLine
  counts : Bool → Text → ℕ → ℕ → ℕ → ℕ → LogLine
  changed : Bool → Text → Text → Text → Text → LogLine

count_action : (ApplyPlan → Bool) → List ApplyPlan → ℕ
count_action f [] = 0
count_action f (p ∷ ps) = (if f p then 1 else 0) + count_action f ps

is_create : ApplyPlan → Bool
is_create p = p.action == create

is_update : ApplyPlan → Bool
is_update p = p.action == update

-- The `default` of the switch.
is_other : ApplyPlan → Bool
is_other p = not (p.action == create) && not (p.action == update)

change_lines : Bool → Text → List ApplyPlan → List LogLine
change_lines dry_run aggregate [] = []
change_lines dry_run aggregate (p ∷ ps) =
    let rest = change_lines dry_run aggregate ps in
    if p.action == unchanged
    then rest
    else changed dry_run aggregate (plan_key p) p.action p.summary ∷ rest

summary_lines : Bool → Text → List ApplyPlan → List LogLine
summary_lines dry_run aggregate [] = no_resources aggregate ∷ []
summary_lines dry_run aggregate (p ∷ ps) =
    counts dry_run aggregate (length (p ∷ ps)) (count_action is_create (p ∷ ps))
      (count_action is_update (p ∷ ps)) (count_action is_other (p ∷ ps))
    ∷ change_lines dry_run aggregate (p ∷ ps)

-- The lines of one call.
unfoldable pub log_reconcile_summary : Bool → Text → List ApplyPlan → List LogLine
unfolding dedupe_apply_plans summary_lines change_lines count_action is_create is_update is_other
log_reconcile_summary dry_run aggregate plans =
    summary_lines dry_run aggregate (dedupe_apply_plans plans)
