-- ===== src/Replay/Steps.antt =====
-- services/integration/replay/replay_engine.py: the steps of a trace are the recorded states, in order.
use vision_virtual_intellige.Prelude.{
  ℕ, zero, suc, ◌+◌, ◌≡◌, refl, sym, ap, ◌∙◌, String, Bool, true, Option, none, some, List, [], ◌∷◌,
  arith, is_some, Option-cases, inl, inr,
}
use vision_virtual_intellige.Replay.{
  Value, Entries, ℤ, get_elem?, ReplayStep, LabeledState, replay_step, build_steps, build_trace,
  state_at_step, diff_both, diff_between_steps,
}
use vision_virtual_intellige.Replay.Identical.{diff_states-identical}

module _ {L : Type 0} (null : L) (same : L → L → Bool) where
  -- The state before the item number `i`.
  previous_of : Option (Entries L) → List (LabeledState L) → ℕ → Option (Entries L)
  previous_of previous items zero = previous
  previous_of previous [] (suc i) = none
  previous_of previous (item ∷ items) (suc i) = previous_of (some item.state) items i

  get_elem?-build_steps :
      (source : String) (j : ℕ) (previous : Option (Entries L)) (items : List (LabeledState L))
      (i : ℕ) (item : LabeledState L)
      → get_elem? items i ≡ some item
      → get_elem? (build_steps null same source j previous items) i
        ≡ some (replay_step null same source (j + i) (previous_of previous items i) item)
  unfolding build_steps previous_of
  get_elem?-build_steps source j previous [] i item e = cc
  get_elem?-build_steps source j previous (x ∷ items) zero item e =
      let this : x ≡ item = cc in
      let at : j ≡ j + 0 = omega arith in
      ap (λ y. some (replay_step null same source j previous y)) this
      ∙ ap (λ k. some (replay_step null same source k previous item)) at
  get_elem?-build_steps source j previous (x ∷ items) (suc i) item e =
      let at : suc j + i ≡ j + suc i = omega arith in
      get_elem?-build_steps source (suc j) (some x.state) items i item e
      ∙ ap (λ k. some (replay_step null same source k (previous_of (some x.state) items i) item)) at

  previous_of-suc :
      (previous : Option (Entries L)) (items : List (LabeledState L)) (i : ℕ)
      (item : LabeledState L)
      → get_elem? items i ≡ some item
      → previous_of previous items (suc i) ≡ some item.state
  unfolding previous_of
  previous_of-suc previous [] i item e = cc
  previous_of-suc previous (x ∷ items) zero item e =
      let this : x ≡ item = cc in ap (λ (y : LabeledState L). some y.state) this
  previous_of-suc previous (x ∷ items) (suc i) item e =
      previous_of-suc (some x.state) items i item e

  get_elem?-none :
      (source : String) (j : ℕ) (previous : Option (Entries L)) (items : List (LabeledState L))
      (i : ℕ)
      → get_elem? items i ≡ none
      → get_elem? (build_steps null same source j previous items) i ≡ none
  unfolding build_steps
  get_elem?-none source j previous [] i e = refl
  get_elem?-none source j previous (x ∷ items) zero e = cc
  get_elem?-none source j previous (x ∷ items) (suc i) e =
      get_elem?-none source (suc j) (some x.state) items i e

  abbrev labeled_state : Option (LabeledState L) → Option (Entries L)
  labeled_state none = none
  labeled_state (some item) = some item.state

  -- A jump to a step of a trace gives the recorded state with this number, and None beyond the last
  -- one and at a negative number.
  pub state_at_step-build_trace :
      (subject source : String) (items : List (LabeledState L)) (i : ℕ)
      → let trace = build_trace null same subject source items in
        (state_at_step null same trace (ℤ.pos i) ≡ labeled_state (get_elem? items i))
        × (state_at_step null same trace (ℤ.negsuc i) ≡ none)
  unfolding state_at_step build_trace
  state_at_step-build_trace subject source items i = (
    elim (Option-cases (get_elem? items i)) [
      | inl out ↦ rw (out, get_elem?-none source 0 none items i out) refl
      | inr (item, at) ↦ rw (at, get_elem?-build_steps source 0 none items i item at) refl
    ],
    refl,
  )

  -- The step after a recorded state, if there is one, keeps a diff, and it is the one that
  -- `diff_between_steps` computes for these two steps.
  pub build_trace-diff_between_steps :
      (subject source : String) (items : List (LabeledState L)) (i : ℕ) (item next : LabeledState L)
      → get_elem? items i ≡ some item
      → get_elem? items (suc i) ≡ some next
      → let trace = build_trace null same subject source items in
        (step : ReplayStep L) × (get_elem? trace.steps (suc i) ≡ some step)
        × (step.index ≡ suc i)
        × (is_some step.diff_from_previous ≡ true)
        × (step.diff_from_previous ≡ diff_between_steps null same trace (ℤ.pos i) (ℤ.pos (suc i)))
  unfolding diff_between_steps build_trace
  build_trace-diff_between_steps subject source items i item next at then =
      let trace = build_trace null same subject source items in
      let previous = previous_of-suc none items i item at in
      let step = get_elem?-build_steps source 0 none items (suc i) next then in
      let numbered : 0 + suc i ≡ suc i = omega arith in
      let before : state_at_step null same trace (ℤ.pos i) ≡ some item.state =
        (state_at_step-build_trace subject source items i).0 ∙ ap labeled_state at in
      let after : state_at_step null same trace (ℤ.pos (suc i)) ≡ some next.state =
        (state_at_step-build_trace subject source items (suc i)).0 ∙ ap labeled_state then in
      let (d, made, exact) =
        diff_states-identical null same (Value.dict item.state) (Value.dict next.state) in
      (
        replay_step null same source (suc i) (some item.state) next,
        step
            ∙ ap (λ k. some (replay_step null same source k (previous_of none items (suc i)) next))
                numbered
            ∙ ap (λ p. some (replay_step null same source (suc i) p next)) previous,
        refl,
        ap is_some made,
        sym (
            ap (λ x. diff_both null same x (state_at_step null same trace (ℤ.pos (suc i)))) before
            ∙ ap (λ y. diff_both null same (some item.state) y) after),
      )
