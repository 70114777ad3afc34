-- ===== src/Controller/Summary/Counts.antt =====
-- The counts and the lines of the summary in the log.
use homelab_operator.Prelude.{
  ℕ, ◌+◌, ◌≤◌, ◌<◌, Text, Bool, true, false, Option, none, some, ◌≡◌, ◌≢◌, ◌⊎◌, subst, inl, inr,
  refl, sym, ap, ◌∙◌, List, [], ◌∷◌, ◌++◌, ◌==◌, eq_iff, if◌then◌else◌, codes, arith,
}
use homelab_operator.Prelude.Lists.{keep, length, length-append, All}
use homelab_operator.Prelude.Dict.{Dict, get, put}
use homelab_operator.Prelude.Keys.{is_some}
use homelab_operator.Ensure.{ApplyPlan, create, update, unchanged}
use homelab_operator.Controller.Summary.{
  plan_key, collect_plans, in_order, dedupe_apply_plans, LogLine, no_resources, counts, changed,
  count_action, is_create, is_update, is_other, change_lines, summary_lines, log_reconcile_summary,
}
use homelab_operator.Controller.Summary.Dedupe.{
  last_plan, get-collect_plans, plans_of, to_list, plans_of-dedupe_apply_plans,
}

-- The actions of `PlanUnstructured`.
abbrev pub IsKnown : ApplyPlan → Type 0
IsKnown p = (p.action ≡ create) ⊎ (p.action ≡ update) ⊎ (p.action ≡ unchanged)

last_plan-All :
    (P : ApplyPlan → Type 0) (k : Text) (ps : List ApplyPlan) (before : Option ApplyPlan)
    (p : ApplyPlan)
    → All P ps
    → ((q : ApplyPlan) → before ≡ some q → P q)
    → last_plan k ps before ≡ some p
    → P p
last_plan-All P k [] before p all h e = h p e
last_plan-All P k (x ∷ ps) before p (hx, all) h e =
    last_plan-All P k ps _ p all (from (plan_key x == k)) e
  where
    from : (b : Bool) (q : ApplyPlan) → (if b then some x else before) ≡ some q → P q
    from true q i = subst P (cc i) hx
    from false q i = h q i

last_plan_present :
    (k : Text) (ps : List ApplyPlan) (b : ApplyPlan) → last_plan k ps (some b) ≢ none
last_plan_present k [] b = λ e. absurd (cc e)
last_plan_present k (x ∷ ps) b =
    elim (plan_key x == k) as (λ t. last_plan k ps (if t then some x else some b) ≢ none) [
      | true ↦ last_plan_present k ps x
      | false ↦ last_plan_present k ps b
    ]

All-in_order :
    (P : ApplyPlan → Type 0) (m : Dict ApplyPlan) (ks : List Text)
    → ((k : Text) (p : ApplyPlan) → get k m ≡ some p → P p)
    → All P (in_order m ks)
unfolding in_order
All-in_order P m [] h = tt
All-in_order P m (k ∷ ks) h = from (get k m) refl (All-in_order P m ks h)
  where
    from :
        (o : Option ApplyPlan)
        → get k m ≡ o
        → All P (in_order m ks)
        → All P (elim o [ none ↦ in_order m ks | some p ↦ p ∷ in_order m ks ])
    from none e all = all
    from (some p) e all = (h k p e, all)

-- What all plans have, those of the summary have.
All-dedupe_apply_plans :
    (P : ApplyPlan → Type 0) (ps : List ApplyPlan) → All P ps → All P (dedupe_apply_plans ps)
unfolding dedupe_apply_plans get
All-dedupe_apply_plans P ps all = All-in_order P _ _ λ k p e.
    last_plan-All P k ps none p all (λ q i. absurd (cc)) (sym (get-collect_plans k ps [] []) ∙ e)

length-in_order : (m : Dict ApplyPlan) (ks : List Text) → length (in_order m ks) ≤ length ks
unfolding in_order
length-in_order m [] = omega arith
length-in_order m (k ∷ ks) = ground (arith, length-in_order m ks)

length-collect_plans :
    (ps : List ApplyPlan) (m : Dict ApplyPlan) (order : List Text)
    → length (collect_plans ps m order).1 ≤ length ps + length order
unfolding collect_plans
length-collect_plans [] m order = omega arith
length-collect_plans (p ∷ ps) m order = ground (
  arith,
  length-collect_plans ps (put (plan_key p) p m)
      (if is_some (get (plan_key p) m) then order else order ++ (plan_key p ∷ [])),
  length-append order (plan_key p ∷ []),
)

length-dedupe_apply_plans : (ps : List ApplyPlan) → length (dedupe_apply_plans ps) ≤ length ps
unfolding dedupe_apply_plans
length-dedupe_apply_plans ps = omega (
  arith,
  length-in_order (collect_plans ps [] []).0 (collect_plans ps [] []).1,
  length-collect_plans ps [] [],
)

of_empty : (o : Option ApplyPlan) → to_list o ≡ [] → o ≡ none
of_empty none e = refl
of_empty (some p) e = absurd (cc e)

dedupe_present : (p : ApplyPlan) (ps : List ApplyPlan) → dedupe_apply_plans (p ∷ ps) ≢ []
dedupe_present p ps e = last_plan_present (plan_key p) ps p (
    ap (λ b. last_plan (plan_key p) ps (if b then some p else none))
      (sym ((eq_iff (plan_key p) (plan_key p)).1 refl))
    ∙ of_empty _
        (sym (plans_of-dedupe_apply_plans (plan_key p) (p ∷ ps)) ∙ ap (plans_of (plan_key p)) e))

create_not_update : (a : Text) → (a == create) ≡ true → (a == update) ≡ false
unfolding ◌==◌
create_not_update a e = subst (λ t. (t == update) ≡ false) (sym ((eq_iff a create).0 e)) refl

count_action-sum :
    (ps : List ApplyPlan)
    → count_action is_create ps + (count_action is_update ps + count_action is_other ps) ≡ length ps
unfolding count_action is_create is_update is_other
count_action-sum [] = refl
count_action-sum (p ∷ ps) = ground (arith, count_action-sum ps, create_not_update p.action)

-- Of the three tests for a known action, one holds.
known_action :
    (p : ApplyPlan)
    → IsKnown p
    → (if is_create p then 1 else 0)
        + ((if is_update p then 1 else 0) + (if p.action == unchanged then 1 else 0))
      ≡ 1
unfolding is_create is_update ◌==◌
known_action p (inl e) = rw e refl
known_action p (inr (inl e)) = rw e refl
known_action p (inr (inr e)) = rw e refl

length-change_lines :
    (dry_run : Bool) (aggregate : Text) (ps : List ApplyPlan)
    → All IsKnown ps
    → length (change_lines dry_run aggregate ps)
      ≡ count_action is_create ps + count_action is_update ps
unfolding change_lines count_action is_create is_update
length-change_lines dry_run aggregate [] all = refl
length-change_lines dry_run aggregate (p ∷ ps) (h, all) =
    ground (arith, length-change_lines dry_run aggregate ps all, known_action p h)

-- How many of the plans have an action.
abbrev pub number_of : Text → List ApplyPlan → ℕ
number_of action ps = length (keep (λ (p : ApplyPlan). p.action == action) ps)

count_create : (ps : List ApplyPlan) → count_action is_create ps ≡ number_of (codes "create") ps
unfolding count_action is_create
count_create [] = refl
count_create (p ∷ ps) = ground (arith, count_create ps)

count_update : (ps : List ApplyPlan) → count_action is_update ps ≡ number_of (codes "update") ps
unfolding count_action is_update
count_update [] = refl
count_update (p ∷ ps) = ground (arith, count_update ps)

-- The lines of a summary of these plans, of which the log keeps the last of each resource.
abbrev pub IsSummary : List ApplyPlan → List LogLine → Type 0
IsSummary ps [] = ⊥
IsSummary ps (no_resources a ∷ rest) = (ps ≡ []) × (rest ≡ [])
IsSummary ps (counts d a resources creates updates others ∷ rest) =
    (0 < resources)
    × (resources ≤ length ps)
    × (creates ≡ number_of (codes "create") (dedupe_apply_plans ps))
    × (updates ≡ number_of (codes "update") (dedupe_apply_plans ps))
    × (creates + (updates + others) ≡ resources)
    × (length rest ≡ creates + updates)
IsSummary ps (changed d a r x s ∷ rest) = ⊥

-- The first line of the summary says that there are no resources, and is the only line, where nothing
-- was planned. Otherwise it has the counts: at least one resource and no more than there were plans,
-- of which the created, the updated and the others are the sum, where the created are as many as the
-- last plans of the resources with the action create, and the updated as many as those with update;
-- and as many lines follow as were created or updated. The action of each plan is one that
-- `PlanUnstructured` gives.
pub IsSummary-log_reconcile_summary :
    (dry_run : Bool) (aggregate : Text) (plans : List ApplyPlan)
    → All IsKnown plans
    → IsSummary plans (log_reconcile_summary dry_run aggregate plans)
unfolding log_reconcile_summary summary_lines
IsSummary-log_reconcile_summary dry_run aggregate [] all =
    unfold dedupe_apply_plans collect_plans in_order in (refl, refl)
IsSummary-log_reconcile_summary dry_run aggregate (p ∷ ps) all =
    from (dedupe_apply_plans (p ∷ ps)) refl (dedupe_present p ps)
      (length-dedupe_apply_plans (p ∷ ps)) (All-dedupe_apply_plans IsKnown (p ∷ ps) all)
  where
    from :
        (l : List ApplyPlan)
        → l ≡ dedupe_apply_plans (p ∷ ps)
        → l ≢ []
        → length l ≤ length (p ∷ ps)
        → All IsKnown l
        → IsSummary (p ∷ ps) (summary_lines dry_run aggregate l)
    from [] e present short known = absurd (present refl)
    from (x ∷ l) e present short known = (
      omega arith,
      short,
      count_create (x ∷ l) ∙ ap (number_of (codes "create")) e,
      count_update (x ∷ l) ∙ ap (number_of (codes "update")) e,
      count_action-sum (x ∷ l),
      length-change_lines dry_run aggregate (x ∷ l) known,
    )
