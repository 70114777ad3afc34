-- ===== src/Controller/Summary/Dedupe.antt =====
-- One plan for each resource.
use mathlib.Core.List.{Mem, Nodup, Nodup-nil, Nodup-cons}
use homelab_operator.Prelude.{
  Text, true, false, Option, none, some, ◌≡◌, ◌≢◌, subst, refl, sym, ap, ◌∙◌, inl, inr,
  Option-cases, Bool-cases, List, [], ◌∷◌, ◌++◌, ◌==◌, eq_iff, if◌then◌else◌, arith,
}
use homelab_operator.Prelude.Lists.{keep, any}
use homelab_operator.Prelude.Lookup.{any_of_none}
use homelab_operator.Prelude.Dict.{Dict, get, put, keys, get-put}
use homelab_operator.Prelude.Keys.{is_some, Nodup-keys-put, any-keys}
use homelab_operator.Ensure.{ApplyPlan}
use homelab_operator.Controller.Summary.{plan_key, collect_plans, in_order, dedupe_apply_plans}

-- The last plan of a resource.
abbrev pub last_plan : Text → List ApplyPlan → Option ApplyPlan → Option ApplyPlan
last_plan k [] before = before
last_plan k (p ∷ ps) before = last_plan k ps (if plan_key p == k then some p else before)

pub get-collect_plans :
    (k : Text) (ps : List ApplyPlan) (m : Dict ApplyPlan) (order : List Text)
    → get k (collect_plans ps m order).0 ≡ last_plan k ps (get k m)
unfolding collect_plans
get-collect_plans k [] m order = refl
get-collect_plans k (p ∷ ps) m order =
    get-collect_plans k ps (put (plan_key p) p m) _
    ∙ ap (last_plan k ps) (get-put (plan_key p) k p m)

keys-put :
    (k : Text) (p : ApplyPlan) (m : Dict ApplyPlan)
    → keys (put k p m) ≡ (if is_some (get k m) then keys m else keys m ++ (k ∷ []))
unfolding put get
keys-put k p [] = refl
keys-put k p ((j, w) ∷ m) = ground (arith, keys-put k p m, eq_iff j k)

-- `order` lists the keys of `byResource`.
order-collect_plans :
    (ps : List ApplyPlan) (m : Dict ApplyPlan) (order : List Text)
    → order ≡ keys m
    → (collect_plans ps m order).1 ≡ keys (collect_plans ps m order).0
unfolding collect_plans
order-collect_plans [] m order e = e
order-collect_plans (p ∷ ps) m order e =
    order-collect_plans ps (put (plan_key p) p m) _ (rw e (sym (keys-put (plan_key p) p m)))

Nodup-collect_plans :
    (ps : List ApplyPlan) (m : Dict ApplyPlan) (order : List Text)
    → Nodup (keys m)
    → Nodup (keys (collect_plans ps m order).0)
unfolding collect_plans
Nodup-collect_plans [] m order h = h
Nodup-collect_plans (p ∷ ps) m order h =
    Nodup-collect_plans ps (put (plan_key p) p m) _ (Nodup-keys-put (plan_key p) p m h)

-- Each value stands under its own key.
abbrev OwnKeys : Dict ApplyPlan → Type 0
OwnKeys m = (k : Text) (p : ApplyPlan) → get k m ≡ some p → plan_key p ≡ k

last_plan-own :
    (k : Text) (ps : List ApplyPlan) (before : Option ApplyPlan) (p : ApplyPlan)
    → ((q : ApplyPlan) → before ≡ some q → plan_key q ≡ k)
    → last_plan k ps before ≡ some p
    → plan_key p ≡ k
last_plan-own k [] before p h e = h p e
last_plan-own k (x ∷ ps) before p h e =
    last_plan-own k ps (if plan_key x == k then some x else before) p
      (λ q i. ground (arith, eq_iff (plan_key x) k, h q)) e

OwnKeys-collect_plans : (ps : List ApplyPlan) → OwnKeys (collect_plans ps [] []).0
unfolding get
OwnKeys-collect_plans ps k p e =
    last_plan-own k ps none p (λ q i. absurd (cc)) (sym (get-collect_plans k ps [] []) ∙ e)

abbrev pub plans_of : Text → List ApplyPlan → List ApplyPlan
plans_of k ps = keep (λ p. plan_key p == k) ps

abbrev pub to_list : Option ApplyPlan → List ApplyPlan
to_list none = []
to_list (some p) = p ∷ []

abbrev push : Option ApplyPlan → List ApplyPlan → List ApplyPlan
push none ps = ps
push (some p) ps = p ∷ ps

push-nil : (o : Option ApplyPlan) → push o [] ≡ to_list o
push-nil none = refl
push-nil (some p) = refl

plans_of-front :
    (k j : Text) (m : Dict ApplyPlan) (ks : List Text)
    → OwnKeys m
    → plans_of k (in_order m (j ∷ ks))
      ≡ (if j == k then push (get k m) (plans_of k (in_order m ks)) else plans_of k (in_order m ks))
unfolding in_order
plans_of-front k j m ks o = elim (Option-cases (get j m)) [
  | inl e ↦ rw (e, in_order) (ground (arith, eq_iff j k, e))
  | inr (p, e) ↦ rw (e, in_order) (ground (arith, eq_iff j k, eq_iff (plan_key p) k, o j p e, e))
]

plans_of-absent :
    (k : Text) (m : Dict ApplyPlan) (ks : List Text)
    → OwnKeys m
    → any (λ j. j == k) ks ≡ false
    → plans_of k (in_order m ks) ≡ []
plans_of-absent k m [] o h = unfold in_order in refl
plans_of-absent k m (j ∷ ks) o h =
    plans_of-front k j m ks o ∙ ground (arith, plans_of-absent k m ks o (ground arith))

plans_of-in_order :
    (k : Text) (m : Dict ApplyPlan) (ks : List Text)
    → OwnKeys m
    → Nodup ks
    → plans_of k (in_order m ks) ≡ (if any (λ j. j == k) ks then to_list (get k m) else [])
plans_of-in_order k m [] o h = unfold in_order in refl
plans_of-in_order k m (j ∷ ks) o h = plans_of-front k j m ks o ∙ elim (Bool-cases (j == k)) [
  | inl e ↦ rw (e, plans_of-absent k m ks o (alone e)) (push-nil (get k m))
  | inr e ↦ rw e (plans_of-in_order k m ks o (Nodup-cons.0 h).1)
]
  where
    alone : (j == k) ≡ true → any (λ i. i == k) ks ≡ false
    alone e =
        any_of_none (λ i. i == k) ks λ i mi. ground (arith, eq_iff i k, eq_iff j k, differ i mi)
      where
        differ : (i : Text) → Mem i ks → i ≢ j
        differ i mi p = (Nodup-cons.0 h).0 (subst (λ x. Mem x ks) p mi)

-- The summary holds one plan for each resource that was planned: the last one.
pub plans_of-dedupe_apply_plans :
    (k : Text) (ps : List ApplyPlan)
    → plans_of k (dedupe_apply_plans ps) ≡ to_list (last_plan k ps none)
unfolding dedupe_apply_plans get
plans_of-dedupe_apply_plans k ps =
    let m = (collect_plans ps [] []).0 in
    ap (λ ks. plans_of k (in_order m ks)) (order-collect_plans ps [] [] refl)
    ∙ plans_of-in_order k m (keys m) (OwnKeys-collect_plans ps)
        (Nodup-collect_plans ps [] [] Nodup-nil)
    ∙ ground (arith, any-keys k m, get-collect_plans k ps [] [])
