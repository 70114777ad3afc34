-- ===== src/Controller/Status/Conditions.antt =====
-- The conditions that a device ends up with.
use mathlib.Core.List.{Mem, mem-cons_self, mem-cons_of_mem}
use homelab_operator.Prelude.Lookup.{any_of_mem}
use homelab_operator.Prelude.{
  ℕ, ◌↔◌, ◌⊎◌, ap, eq_iff, arith, Text, Bool, true, false, not, ◌&&◌, Option, none, some, ◌≡◌, refl,
  ◌∙◌, inl, inr, Bool-cases, List, [], ◌∷◌, ◌==◌, codes, is_empty, if◌then◌else◌,
}
use homelab_operator.Api.{
  Condition, HomelabStatus, Device, Network, condition_ready, condition_network_available,
}
use homelab_operator.Cluster.{Client}
use homelab_operator.Config.{Config}
use homelab_operator.Controller.Status.{
  network_exists, is_ready, availability, readiness, device_status,
}

-- The status of the first condition of a type.
abbrev pub status_of : Text → List Condition → Option Text
status_of t [] = none
status_of t (x ∷ cs) = if x.type == t then some x.status else status_of t cs

-- `meta.SetStatusCondition` gives the condition of its type the status, and leaves the conditions of
-- the other types as they are.
pub record SetsCondition {W : Type 0} (c : Client W) : Type 0 where
  pub sets :
      (t : Text) (cs : List Condition) (x : Condition)
      → status_of t (c.set_status_condition cs x)
        ≡ (if x.type == t then some x.status else status_of t cs)

abbrev pub truth : Bool → Text
truth b = if b then codes "True" else codes "False"

abbrev pub says_true : Option Text → Bool
says_true none = false
says_true (some t) = t == codes "True"

-- The device names a network, and the network is in the list.
abbrev pub NetworkListed : List Network → Device → Type 0
NetworkListed networks dev =
    (is_empty dev.spec.network ≡ false)
    × (n : Network) × Mem n networks
    × (n.name ≡ dev.spec.network)

says_truth : (b : Bool) → b ≡ says_true (some (truth b))
unfolding ◌==◌
says_truth true = refl
says_truth false = refl

truth_iff : (b : Bool) → (some (truth b) ≡ some (codes "True")) ↔ (b ≡ true)
unfolding ◌==◌
truth_iff b = (λ e. says_truth b ∙ ap says_true e, λ e. rw e refl)

either :
    (b : Bool) → (some (truth b) ≡ some (codes "True")) ⊎ (some (truth b) ≡ some (codes "False"))
either true = inl refl
either false = inr refl

trans_iff : {A B C : Type 0} → A ↔ B → B ↔ C → A ↔ C
trans_iff (f, g) (h, k) = (λ a. h (f a), λ x. g (k x))

find_network :
    (networks : List Network) (dev : Device)
    → network_exists networks dev ≡ true
    → (n : Network) × Mem n networks × (n.name ≡ dev.spec.network)
find_network [] dev e = absurd (cc e)
find_network (n ∷ networks) dev e = elim (Bool-cases (n.name == dev.spec.network)) [
  | inl q ↦ (n, mem-cons_self, (eq_iff n.name dev.spec.network).0 q)
  | inr q ↦
      let (x, m, same) = find_network networks dev (ground (arith, e, q)) in
      (x, mem-cons_of_mem n m, same)
]

listed_iff :
    (networks : List Network) (dev : Device)
    → ((not (is_empty dev.spec.network) && network_exists networks dev) ≡ true)
      ↔ NetworkListed networks dev
listed_iff networks dev = (
  (λ e.
      let (n, m, same) = find_network networks dev (ground (arith, e)) in
      (ground (arith, e), n, m, same)),
  (λ (named, n, m, same).
      let there : network_exists networks dev ≡ true =
        any_of_mem (λ (x : Network). x.name == dev.spec.network) n networks m
          ((eq_iff n.name dev.spec.network).1 same) in
      ground (arith, named, there)),
)

ready_iff :
    (networks : List Network) (ok_ : Bool) (dev : Device)
    → (is_ready networks ok_ dev ≡ true) ↔ ((ok_ ≡ true) × NetworkListed networks dev)
ready_iff networks ok_ dev = (
  (λ e. (ground (arith, e), (listed_iff networks dev).0 (ground (arith, e)))),
  (λ (k, l). ground (arith, k, (listed_iff networks dev).1 l)),
)

-- The status of a device after a run of which `ok_` tells whether the objects were applied, at the
-- time `now`.
pub record IsStatus (networks : List Network) (ok_ : Bool) (dev : Device) (now : ℕ)
    (after : HomelabStatus) : Type 0 where
  pub ready :
      (status_of condition_ready after.conditions ≡ some (codes "True"))
      ↔ ((ok_ ≡ true) × NetworkListed networks dev)
  pub not_ready :
      (status_of condition_ready after.conditions ≡ some (codes "True"))
      ⊎ (status_of condition_ready after.conditions ≡ some (codes "False"))
  pub available :
      (status_of condition_network_available after.conditions ≡ some (codes "True"))
      ↔ NetworkListed networks dev
  pub generation : after.observed_generation ≡ dev.generation
  pub sync_time : after.last_sync_time ≡ (
      if says_true (status_of condition_ready after.conditions)
      then some now
      else dev.status.last_sync_time)

module _ {W : Type 0} (c : Client W) (cfg : Config) (law : SetsCondition c) where
  status_of-readiness :
      (t : Text) (ready : Bool) (msg : Text) (cs : List Condition)
      → status_of t (readiness c cfg ready msg cs)
        ≡ (if condition_ready == t then some (truth ready) else status_of t cs)
  unfolding readiness
  status_of-readiness t true msg cs = law.sets t cs _
  status_of-readiness t false msg cs = law.sets t cs _

  status_of-set-set :
      (t : Text) (cs : List Condition) (x y : Condition)
      → x.type ≡ y.type
      → status_of t (c.set_status_condition (c.set_status_condition cs x) y)
        ≡ (if y.type == t then some y.status else status_of t cs)
  status_of-set-set t cs x y e =
      law.sets t (c.set_status_condition cs x) y ∙ elim (Bool-cases (y.type == t)) [
        | inl b ↦ rw b refl
        | inr b ↦ rw b (law.sets t cs x ∙ rw (e, b) refl)
      ]

  status_of-availability :
      (t : Text) (networks : List Network) (dev : Device) (cs : List Condition)
      → status_of t (availability c cfg networks dev cs) ≡ (
          if condition_network_available == t
          then some (truth (not (is_empty dev.spec.network) && network_exists networks dev))
          else status_of t cs)
  unfolding availability
  status_of-availability t networks dev cs = elim (Bool-cases (is_empty dev.spec.network)) [
    | inl e ↦ simp (e, status_of-set-set t cs)
    | inr e ↦ elim (Bool-cases (network_exists networks dev)) [
      | inl x ↦ simp (e, x, status_of-set-set t cs)
      | inr x ↦ simp (e, x, law.sets t cs)
    ]
  ]

  -- The status that is computed for a device says that it is ready exactly when the objects were applied
  -- and the device names a network that is listed, and otherwise that it is not; it says that the
  -- network is available exactly when the device names a network that is listed. It is about the
  -- current generation, and the sync time becomes the present one where it says that the device is
  -- ready, and stays where it does not. `SetStatusCondition` is supposed to set the condition of its
  -- type alone.
  pub device_status_lem :
      (networks : List Network) (ok_ : Bool) (msg : Text) (dev : Device) (w : W)
      → IsStatus networks ok_ dev (c.now w) (device_status c cfg networks ok_ msg dev w).status
  unfolding device_status ◌==◌
  device_status_lem networks ok_ msg dev w =
      let ready = is_ready networks ok_ dev in
      let there = not (is_empty dev.spec.network) && network_exists networks dev in
      let r =
        status_of-readiness condition_ready ready msg
          (availability c cfg networks dev dev.status.conditions) in
      let n =
        status_of-readiness condition_network_available ready msg
          (availability c cfg networks dev dev.status.conditions)
        ∙ status_of-availability condition_network_available networks dev dev.status.conditions in
      record {
        ready = rw r (trans_iff (truth_iff ready) (ready_iff networks ok_ dev));
        not_ready = rw r (either ready);
        available = rw n (trans_iff (truth_iff there) (listed_iff networks dev));
        generation = refl;
        sync_time =
            rw r (
              ap (λ b. if b then some (c.now w) else dev.status.last_sync_time) (says_truth ready));
      }
