-- ===== src/Replay/Tests.antt =====
-- services/integration/replay: two small states whose leaves are numbers.
use vision_virtual_intellige.Prelude.{
  ℕ, ◌≡◌, refl, String, true, ◌↔◌, Option, none, some, List, [], ◌∷◌, nat_eq, is_some, map, sorted,
  decimal,
}
use vision_virtual_intellige.Replay.{
  Value, Entries, Items, FieldChange, StateDiff, ℤ, get_elem?, ReplayStep, LabeledState, walk_pair,
  walk_keys, walk_items, walk_value, height, diff_states, build_trace, diff_between_steps,
  diff_artifact_versions,
}
use vision_virtual_intellige.Replay.Same.{Same}
use vision_virtual_intellige.Replay.Identical.{diff_states-identical}
use vision_virtual_intellige.Replay.Steps.{build_trace-diff_between_steps}

abbrev tasks : ℕ → ℕ → Items ℕ
tasks a b = Items.item (Value.leaf a) (Items.item (Value.leaf b) Items.no_items)

abbrev first : Entries ℕ
first =
    Entries.entry "phase" (Value.leaf 1)
      (Entries.entry "tasks" (Value.seq (tasks 5 6)) Entries.no_entries)

-- The same keys in another order, and one other task.
abbrev second : Entries ℕ
second =
    Entries.entry "tasks" (Value.seq (tasks 5 7))
      (Entries.entry "phase" (Value.leaf 1) Entries.no_entries)

abbrev paths_of : Option (StateDiff ℕ) → List String
paths_of none = []
paths_of (some d) = map (λ (c : FieldChange ℕ). c.path) d.changed

program : Unit {0}
unfolding diff_states walk_value walk_keys walk_items walk_pair height sorted decimal
    diff_artifact_versions
program = tt

one_change : paths_of (diff_states 0 nat_eq (Value.dict first) (Value.dict second)) ≡ "tasks.1" ∷ []
unfolding program
one_change = refl

no_version : diff_artifact_versions 0 nat_eq (λ version. none) "p" "prd" 1 2 ≡ none
unfolding program
no_version = refl

diff_states-identical_example :
    (d : StateDiff ℕ) × (diff_states 0 nat_eq (Value.dict first) (Value.dict second) ≡ some d)
    × ((d.identical ≡ true) ↔ Same nat_eq (Value.dict first) (Value.dict second))
diff_states-identical_example =
    diff_states-identical 0 nat_eq (Value.dict first) (Value.dict second)

abbrev recorded : Entries ℕ → LabeledState ℕ
recorded state = record { label = "saved"; ts = none; state = state }

abbrev states : List (LabeledState ℕ)
states = recorded first ∷ recorded second ∷ []

build_trace-diff_between_steps_example :
    let trace = build_trace 0 nat_eq "t1" "checkpoint" states in
    (step : ReplayStep ℕ) × (get_elem? trace.steps 1 ≡ some step)
    × (step.index ≡ 1)
    × (is_some step.diff_from_previous ≡ true)
    × (step.diff_from_previous ≡ diff_between_steps 0 nat_eq trace (ℤ.pos 0) (ℤ.pos 1))
build_trace-diff_between_steps_example =
    build_trace-diff_between_steps 0 nat_eq "t1" "checkpoint" states 0 (recorded first)
      (recorded second) refl refl
