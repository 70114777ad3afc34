-- ===== src/Controller/Trigger.antt =====
-- internal/controller/reconcile_trigger.go: the watch event that is named in the log.
use homelab_operator.Prelude.{
  Text, Option, none, some, ◌≡◌, refl, List, [], ◌∷◌, ◌==◌, eq_iff, codes, is_empty, if◌then◌else◌,
  arith,
}
use homelab_operator.Prelude.Dict.{Dict, get, put, remove, get-put, get-remove}

pub record ReconcileTrigger : Type 0 where
  pub kind : Text
  pub name : Text

-- The map `byKey`.
abbrev pub TriggerRecorder : Type 0
TriggerRecorder = Dict ReconcileTrigger

unfoldable pub note : Text → Text → Text → TriggerRecorder → TriggerRecorder
note key kind name t = put key (record { kind = kind; name = name }) t

unfoldable pub consume : Text → TriggerRecorder → Option ReconcileTrigger × TriggerRecorder
consume key t = elim (get key t) [ none ↦ (none, t) | some tr ↦ (some tr, remove key t) ]

-- The key-value pairs that go to the log.
unfoldable pub trigger_log_values : ReconcileTrigger → List Text
trigger_log_values tr =
    if is_empty tr.kind then [] else codes "triggerKind" ∷ tr.kind ∷ codes "trigger" ∷ tr.name ∷ []

-- A watch event: the key, the kind and the name that `note` is called with.
pub record Event : Type 0 where
  pub key : Text
  pub kind : Text
  pub name : Text

unfoldable pub note_all : List Event → TriggerRecorder → TriggerRecorder
note_all [] t = t
note_all (e ∷ es) t = note_all es (note e.key e.kind e.name t)

-- The last event of the key, or else what was recorded before.
abbrev pub latest : Text → List Event → Option ReconcileTrigger → Option ReconcileTrigger
latest key [] before = before
latest key (e ∷ es) before =
    latest key es (if e.key == key then some (record { kind = e.kind; name = e.name }) else before)

get-note_all :
    (key : Text) (es : List Event) (t : TriggerRecorder)
    → get key (note_all es t) ≡ latest key es (get key t)
unfolding note_all note
get-note_all key [] t = refl
get-note_all key (e ∷ es) t = rw (
  get-note_all key es (put e.key (record { kind = e.kind; name = e.name }) t),
  get-put e.key key (record { kind = e.kind; name = e.name }) t,
)

-- After any events, `consume` returns the last one of its key; it takes that away, and leaves the
-- other keys as they are.
pub consume-note_all :
    (key other : Text) (es : List Event) (t : TriggerRecorder)
    → ((consume key (note_all es t)).0 ≡ latest key es (get key t))
      × (get other (consume key (note_all es t)).1
          ≡ (if key == other then none else get other (note_all es t)))
unfolding consume
consume-note_all key other es t = (
  ground (arith, get-note_all key es t),
  ground (arith, get-remove key other (note_all es t), eq_iff key other),
)
