-- ===== src/Controller/Gate.antt =====
-- internal/controller/reconcile_gate.go: at most one reconcile runs for a key. A call of `run` has
-- two steps under the mutex, with the function in between; other goroutines run meanwhile.
use homelab_operator.Prelude.{
  ℕ, ◌+◌, ◌-◌, ◌≤◌, ◌<◌, Text, ◌≡◌, refl, ap, List, [], ◌∷◌, ◌==◌, eq_iff, if◌then◌else◌, nat_eq,
  arith,
}
use homelab_operator.Prelude.Dict.{Dict, get, put, remove, get-put, get-remove}
use homelab_operator.Prelude.Keys.{is_some}

-- The keys of the running reconciles, as the map `keys`.
abbrev pub Gate : Type 0
Gate = Dict (Unit {0})

-- What `run` does: it asks to be called again in 500 milliseconds, or it runs the function.
pub data Decision : Type 0 where
  requeue_after : ℕ → Decision
  run_fn : Decision

-- The first critical section of `run`.
unfoldable pub enter : Text → Gate → Decision × Gate
enter key g = if is_some (get key g) then (requeue_after 500, g) else (run_fn, put key tt g)

-- The deferred one, which runs when the function returns or panics.
unfoldable pub leave : Text → Gate → Gate
leave key g = remove key g

-- The gate and the keys of the goroutines that are inside the function.
pub record State : Type 0 where
  pub gate : Gate
  pub running : List Text

-- Take one goroutine with the key out of those that run.
unfoldable pub finish : Text → List Text → List Text
finish key [] = []
finish key (k ∷ ks) = let rest = finish key ks in if k == key then ks else k ∷ rest

-- How many goroutines run for the key.
abbrev pub count : Text → List Text → ℕ
count key [] = 0
count key (k ∷ ks) = (if k == key then 1 else 0) + count key ks

-- The interleavings: any goroutine may call `run` with any key, and any that is inside may finish.
pub data Step (s : State) : State → Type 0 where
  call :
      (key : Text) (g : Gate)
      → enter key s.gate ≡ (run_fn, g)
      → Step s (record { gate = g; running = key ∷ s.running })
  bounce :
      (key : Text) (g : Gate) (ms : ℕ)
      → enter key s.gate ≡ (requeue_after ms, g)
      → Step s (record { gate = g; running = s.running })
  done :
      (key : Text)
      → 0 < count key s.running
      → Step s (record { gate = leave key s.gate; running = finish key s.running })

pub data Reach : State → Type 0 where
  start : Reach (record { gate = []; running = [] })
  next : {s t : State} → Reach s → Step s t → Reach t

-- For each key, the gate holds it exactly while one goroutine runs for it.
pub record IsGuarded (s : State) : Type 0 where
  pub exact : (key : Text) → count key s.running ≡ (if is_some (get key s.gate) then 1 else 0)

count-finish :
    (key k : Text) (ks : List Text)
    → 0 < count key ks
    → count k (finish key ks) ≡ (if key == k then count k ks - 1 else count k ks)
unfolding finish
count-finish key k [] h = absurd (omega arith)
count-finish key k (j ∷ ks) h =
    ground (arith, eq_iff j key, eq_iff j k, eq_iff key k, count-finish key k ks)

gate_kept :
    {s : Gate} (key : Text) (g : Gate) (ms : ℕ) → enter key s ≡ (requeue_after ms, g) → g ≡ s
unfolding enter
gate_kept key g ms e = ground arith

Step-IsGuarded : {s t : State} → Step s t → IsGuarded s → IsGuarded t
unfolding enter leave
Step-IsGuarded {s} (call key g e) h = record {
  exact = λ k. ground (arith, h.exact k, h.exact key, get-put key k tt s.gate, eq_iff key k);
}
Step-IsGuarded {s} (bounce key g ms e) h = record {
  exact = λ k. ground (arith, h.exact k, ap (λ (d : Gate). get k d) (gate_kept key g ms e));
}
Step-IsGuarded {s} (done key r) h = record {
  exact = λ k. ground (
    arith,
    h.exact k,
    h.exact key,
    get-remove key k s.gate,
    count-finish key k s.running,
    eq_iff key k,
  );
}

Reach-IsGuarded : {s : State} → Reach s → IsGuarded s
unfolding get
Reach-IsGuarded start = record { exact = λ key. refl }
Reach-IsGuarded (next r st) = Step-IsGuarded st (Reach-IsGuarded r)

-- In every reachable state at most one goroutine runs for a key, and the next call with the key runs
-- the function if none does and asks for another call in 500 milliseconds if one does.
pub Reach-exclusive :
    {s : State} (key : Text)
    → Reach s
    → (count key s.running ≤ 1)
      × ((enter key s.gate).0
          ≡ (if nat_eq (count key s.running) 0 then run_fn else requeue_after 500))
unfolding enter
Reach-exclusive {s} key r = let h = (Reach-IsGuarded r).exact key in (ground arith, ground arith)
