-- ===== src/Controller/Rbac/Calls.antt =====
-- The steps that all controllers share do not notice the rules, where those grant their calls.
use mathlib.Core.List.{Mem, mem-cons_self, mem-cons_of_mem}
use homelab_operator.Prelude.{
  Text, Bool, true, false, ◌≡◌, refl, sym, subst, ap, ap₂, fun_ext, ◌∙◌, List, [], ◌∷◌,
  if◌then◌else◌,
}
use homelab_operator.Prelude.Lists.{All}
use homelab_operator.Prelude.Dict.{Dict, get}
use homelab_operator.Prelude.Keys.{is_some}
use homelab_operator.Config.{Config}
use homelab_operator.Cluster.{Gvk, Object, ConfigMap, Error, Result, ok, err, Client}
use homelab_operator.Cluster.Exec.{Exec, pure, reads, ◌>>=◌, ◌>>◌}
use homelab_operator.Ensure.{
  ApplyPlan, plan_unstructured, mutate_object, copy_labels, apply_unstructured, plan_from,
  compare_specs,
}
use homelab_operator.Ensure.Describe.{summarize_spec}
use homelab_operator.Controller.Prune.{NameSet, delete_stale, prune_kinds}
use homelab_operator.Controller.Prune.Safety.{ListSelects}
use homelab_operator.Controller.Device.{plan_and_apply, apply_each}
use homelab_operator.Controller.Rbac.{Rule, permits, all_verbs, guarded, IsGranted}

-- Steps that agree, one after the other, agree.
pub bind_cong :
    {W A B : Type 0} {m m' : Exec W A} {f f' : A → Exec W B}
    → m ≡ m'
    → ((a : A) → f a ≡ f' a)
    → (m >>= f) ≡ (m' >>= f')
bind_cong p q = ap₂ ◌>>=◌ p (fun_ext q)

-- After a read, they need to agree on what was read.
pub reads_cong :
    {W A B : Type 0} (f : W → Result A) (k k' : A → Exec W B)
    → ((w : W) (a : A) → f w ≡ ok a → k a ≡ k' a)
    → (reads f >>= k) ≡ (reads f >>= k')
unfolding ◌>>=◌
reads_cong {W} {A} {B} f k k' h = fun_ext λ w. from w (f w) refl
  where
    from :
        (w : W) (r : Result A)
        → f w ≡ r
        → ((λ (v : W). (r, v)) >>= k) w ≡ ((λ (v : W). (r, v)) >>= k') w
    from w (ok a) e = ap (λ (m : Exec W B). m w) (h w a e)
    from w (err x) e = refl

module _ {W : Type 0} (c : Client W) (resource_of : Gvk → Text) (rules : List Rule)
    (forbidden : Error) where
  abbrev pub g : Client W
  g = guarded c resource_of rules forbidden

  abbrev pub Granted : Gvk → Type 0
  Granted = IsGranted c resource_of rules forbidden

  -- A kind whose resource has all the verbs.
  pub IsGranted_of :
      (gvk : Gvk) (resource : Text)
      → resource_of gvk ≡ resource
      → All (λ verb. permits rules gvk.group resource verb ≡ true) all_verbs
      → Granted gvk
  IsGranted_of gvk resource e (read, (list, (watch, (create, (update, (patch, (delete, _))))))) =
      let at : (verb : Text)
          → permits rules gvk.group resource verb ≡ true
          → permits rules gvk.group (resource_of gvk) verb ≡ true =
        λ verb h. subst (λ r. permits rules gvk.group r verb ≡ true) (sym e) h in
      record {
        get = at _ read;
        list = at _ list;
        create = at _ create;
        update = at _ update;
        delete = at _ delete;
      }

  plan_unstructured-guarded :
      (o : Object) (w : W) → Granted o.gvk → plan_unstructured g o w ≡ plan_unstructured c o w
  unfolding plan_unstructured plan_from compare_specs summarize_spec
  plan_unstructured-guarded o w h = rw h.get refl

  apply_unstructured-guarded :
      (o : Object) (dry : Bool) (lbl : Dict Text) (owner : ConfigMap)
      → Granted o.gvk
      → apply_unstructured g o dry lbl owner ≡ apply_unstructured c o dry lbl owner
  unfolding apply_unstructured mutate_object copy_labels
  apply_unstructured-guarded o true lbl owner h = refl
  apply_unstructured-guarded o false lbl owner h = fun_ext λ w. rw (h.get, h.create, h.update) refl

  pub plan_and_apply-guarded :
      (cfg : Config) (o : Object) (lbl : Dict Text) (owner : ConfigMap)
      → Granted o.gvk
      → plan_and_apply g cfg o lbl owner ≡ plan_and_apply c cfg o lbl owner
  unfolding plan_and_apply
  plan_and_apply-guarded cfg o lbl owner h =
      bind_cong (fun_ext λ w. ap (λ r. (r, w)) (plan_unstructured-guarded o w h)) λ plan.
        bind_cong
          (ap (λ m. if cfg.dry_run then pure tt else m)
            (apply_unstructured-guarded o false lbl owner h))
          λ _. refl

  pub apply_each-guarded :
      {V : Type 0} (cfg : Config) (f f' : Text → V → Exec W ApplyPlan) (m : Dict V)
      → ((k : Text) (v : V) → f k v ≡ f' k v)
      → apply_each g cfg f m ≡ apply_each c cfg f' m
  unfolding apply_each
  apply_each-guarded cfg f f' [] h = refl
  apply_each-guarded cfg f f' ((k, v) ∷ m) h =
      bind_cong (h k v) λ plan. bind_cong (apply_each-guarded cfg f f' m h) λ plans. refl

  delete-guarded : (o : Object) → Granted o.gvk → g.delete o ≡ c.delete o
  delete-guarded o h = fun_ext λ w. rw h.delete refl

  delete_stale-guarded :
      (cfg : Config) (names : NameSet) (gvk : Gvk) (items : List Object)
      → Granted gvk
      → ((item : Object) → Mem item items → item.gvk ≡ gvk)
      → delete_stale g cfg names items ≡ delete_stale c cfg names items
  unfolding delete_stale
  delete_stale-guarded cfg names gvk [] h kinds = refl
  delete_stale-guarded cfg names gvk (item ∷ items) h kinds =
      let rest =
        delete_stale-guarded cfg names gvk items h (λ x m. kinds x (mem-cons_of_mem item m)) in
      ap₂ (λ d r. if is_some (get item.name names) then r else (if cfg.dry_run then r else d >> r))
        (delete-guarded item (rw (kinds item mem-cons_self) h)) rest

  pub prune_kinds-guarded :
      (cfg : Config) (namespace aggregate : Text) (names : NameSet) (gvks : List Gvk)
      → ListSelects c
      → All Granted gvks
      → prune_kinds g cfg namespace aggregate names gvks
        ≡ prune_kinds c cfg namespace aggregate names gvks
  unfolding prune_kinds
  prune_kinds-guarded cfg namespace aggregate names [] l h = refl
  prune_kinds-guarded cfg namespace aggregate names (gvk ∷ gvks) l h =
      bind_cong (fun_ext λ w. rw h.0.list refl) (λ items. refl)
      ∙ reads_cong (λ w. c.list_managed w gvk namespace aggregate) _ _
          λ w items e.
            bind_cong
              (delete_stale-guarded cfg names gvk items h.0
                λ item m. (l.selects w gvk namespace aggregate items e item m).of_kind)
              λ _. prune_kinds-guarded cfg namespace aggregate names gvks l h.1
