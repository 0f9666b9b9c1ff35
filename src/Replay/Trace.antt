-- ===== src/Replay/Trace.antt =====
-- services/integration/replay: replay_engine.py, traces of recorded states, and artifact_diff.py. The
-- summaries of the checkpoints, their details and the rows of the database are arguments.
use vision_virtual_intellige.Prelude.{
  ℕ, zero, suc, String, ◌==◌, Bool, not, Option, none, some, List, [], ◌∷◌, length, or_default,
}
use vision_virtual_intellige.Replay.Diff.{Value, Entries, StateDiff, diff_states}

pub data ℤ : Type 0 where
  pos negsuc : ℕ → ℤ

-- `xs[i]`, if `i` is in range
abbrev pub get_elem? {ℓ} : {A : Type ℓ} → List A → ℕ → Option A
get_elem? [] i = none
get_elem? (x ∷ xs) zero = some x
get_elem? (x ∷ xs) (suc i) = get_elem? xs i

pub record ReplayStep (L : Type 0) : Type 0 where
  pub index : ℕ
  pub label : String
  pub source : String
  pub ts : Option String
  pub state : Entries L
  pub diff_from_previous : Option (StateDiff L)

pub record ReplayTrace (L : Type 0) : Type 0 where
  pub subject_id : String
  pub source : String
  pub step_count : ℕ
  pub steps : List (ReplayStep L)

-- An item of `labeled_states`.
pub record LabeledState (L : Type 0) : Type 0 where
  pub label : String
  pub ts : Option String
  pub state : Entries L

-- What a trace reads of an audit event; the time stamp is its text.
pub record AuditEvent (L : Type 0) : Type 0 where
  pub event_type : String
  pub recorded_at : String
  pub payload : Option (Entries L)

pub record ArtifactSnapshot : Type 0 where
  pub version : ℕ
  pub status : String
  pub created_by : String
  pub created_at : Option String
  pub approved_by : Option String

-- A row of the artifacts: what `_to_snapshot` reads, and the content.
pub record ArtifactRow (L : Type 0) : Type 0 where
  pub version : ℕ
  pub status : String
  pub created_by : String
  pub created_at : Option String
  pub approved_by : Option String
  pub content : Option (Entries L)

pub record ArtifactDiff (L : Type 0) : Type 0 where
  pub project_id : String
  pub artifact_type : String
  pub from_version : ℕ
  pub to_version : ℕ
  pub from_snapshot : ArtifactSnapshot
  pub to_snapshot : ArtifactSnapshot
  pub status_changed : Bool
  pub content_diff : Option (StateDiff L)

module _ {L : Type 0} (null : L) (same : L → L → Bool) where
  abbrev pub diff_from : Option (Entries L) → Entries L → Option (StateDiff L)
  diff_from none state = none
  diff_from (some previous) state = diff_states null same (Value.dict previous) (Value.dict state)

  abbrev pub replay_step : String → ℕ → Option (Entries L) → LabeledState L → ReplayStep L
  replay_step source i previous item = record {
    index = i;
    label = item.label;
    source = source;
    ts = item.ts;
    state = item.state;
    diff_from_previous = diff_from previous item.state;
  }

  -- The loop from the item number `i`, after the state of the item before it.
  unfoldable pub build_steps :
      String → ℕ → Option (Entries L) → List (LabeledState L) → List (ReplayStep L)
  build_steps source i previous [] = []
  build_steps source i previous (item ∷ items) =
      replay_step source i previous item ∷ build_steps source (suc i) (some item.state) items

  unfoldable pub build_trace : String → String → List (LabeledState L) → ReplayTrace L
  unfolding build_steps
  build_trace subject_id source labeled_states =
      let steps = build_steps source 0 none labeled_states in
      record { subject_id = subject_id; source = source; step_count = length steps; steps = steps }

  -- `dict(ev.payload or {})`
  abbrev labeled_events : List (AuditEvent L) → List (LabeledState L)
  labeled_events [] = []
  labeled_events (ev ∷ events) =
      record {
        label = ev.event_type;
        ts = some ev.recorded_at;
        state = or_default ev.payload Entries.no_entries;
      }
      ∷ labeled_events events

  unfoldable pub build_trace_from_audit_trail : String → List (AuditEvent L) → ReplayTrace L
  unfolding build_trace
  build_trace_from_audit_trail project_id events =
      build_trace project_id "audit_trail" (labeled_events events)

  -- A checkpoint is its id and time stamp; `detail` gives its channel values, if they are there.
  abbrev labeled_checkpoints :
      (String → Option (Entries L)) → List (String × Option String) → List (LabeledState L)
  labeled_checkpoints detail [] = []
  labeled_checkpoints detail ((checkpoint_id, ts) ∷ summaries) =
      record {
        label = checkpoint_id;
        ts = ts;
        state = or_default (detail checkpoint_id) Entries.no_entries;
      }
      ∷ labeled_checkpoints detail summaries

  unfoldable pub build_trace_from_checkpoints :
      (String → Option (Entries L)) → Option String → List (String × Option String) → ReplayTrace L
  unfolding build_trace
  build_trace_from_checkpoints detail thread_id summaries =
      build_trace (or_default thread_id "unknown") "checkpoint"
        (labeled_checkpoints detail summaries)

  abbrev pub state_of : Option (ReplayStep L) → Option (Entries L)
  state_of none = none
  state_of (some step) = some step.state

  unfoldable pub state_at_step : ReplayTrace L → ℤ → Option (Entries L)
  state_at_step trace (ℤ.negsuc n) = none
  state_at_step trace (ℤ.pos i) = state_of (get_elem? trace.steps i)

  -- `None` if either state is.
  abbrev pub diff_both : Option (Entries L) → Option (Entries L) → Option (StateDiff L)
  diff_both none to_state = none
  diff_both (some from_state) none = none
  diff_both (some from_state) (some to_state) =
      diff_states null same (Value.dict from_state) (Value.dict to_state)

  unfoldable pub diff_between_steps : ReplayTrace L → ℤ → ℤ → Option (StateDiff L)
  unfolding state_at_step
  diff_between_steps trace from_index to_index =
      diff_both (state_at_step trace from_index) (state_at_step trace to_index)

  unfoldable pub diff_artifact_snapshots :
      String
      → String
      → ℕ
      → ℕ
      → Entries L
      → Entries L
      → ArtifactSnapshot
      → ArtifactSnapshot
      → ArtifactDiff L
  diff_artifact_snapshots project_id artifact_type from_version to_version from_content to_content
        from_meta to_meta =
      record {
        project_id = project_id;
        artifact_type = artifact_type;
        from_version = from_version;
        to_version = to_version;
        from_snapshot = from_meta;
        to_snapshot = to_meta;
        status_changed = not (from_meta.status == to_meta.status);
        content_diff = diff_states null same (Value.dict from_content) (Value.dict to_content);
      }

  abbrev to_snapshot : ArtifactRow L → ArtifactSnapshot
  to_snapshot row = record {
    version = row.version;
    status = row.status;
    created_by = row.created_by;
    created_at = row.created_at;
    approved_by = row.approved_by;
  }

  -- `get_version` is the repository's query for the project and the artifact type.
  unfoldable pub diff_artifact_versions :
      (ℕ → Option (ArtifactRow L)) → String → String → ℕ → ℕ → Option (ArtifactDiff L)
  unfolding diff_artifact_snapshots
  diff_artifact_versions get_version project_id artifact_type from_version to_version =
      elim (get_version from_version) [
        | none ↦ none
        | some from_row ↦ elim (get_version to_version) [
          | none ↦ none
          | some to_row ↦ some (
              diff_artifact_snapshots project_id artifact_type from_version to_version
                (or_default from_row.content Entries.no_entries)
                (or_default to_row.content Entries.no_entries) (to_snapshot from_row)
                (to_snapshot to_row))
        ]
      ]
