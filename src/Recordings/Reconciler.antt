-- ===== src/Recordings/Reconciler.antt =====
-- src/recordings/recordings-reconciler.service.ts: the pass of every minute over recordings that are not
-- finished. The rows that a query returns are the first ones of the list that it matches.
use livetich_api.Prelude.{
  ℕ, zero, suc, ◌+◌, ◌-◌, ◌*◌, ltb, leb, if◌then◌else◌, Text, codes, Bool, true, false, ◌&&◌, ◌||◌,
  Option, none, some, List, [], ◌∷◌, filter, is_some,
}
use livetich_api.Recordings.{
  RecordingStatus, processing, starting, recording, ready, failed, is_active, RecordingRow,
  update_row, to_processing, to_failed,
}
use livetich_api.Recordings.Taking.{Measured, apply_egress_result}
use livetich_api.Recordings.Gallery.{key_of}

abbrev pub settle_ms : ℕ
settle_ms = 60000

abbrev pub abandon_ms : ℕ
abandon_ms = 6 * 60 * 60 * 1000

abbrev pub batch : ℕ
batch = 25

-- `take`
unfoldable pub first {ℓ} : {A : Type ℓ} → ℕ → List A → List A
first zero xs = []
first (suc n) [] = []
first (suc n) (x ∷ xs) = x ∷ first n xs

-- What `describe` answers for an egress, or that it throws.
pub data Described : Type 0 where
  unreachable no_record unfinished : Described
  finished : Bool → Option ℕ → Option ℕ → Option Text → Described

-- What the world answers during a pass: LiveKit on an egress, the storage on the size of the object of
-- an egress (or that it throws), whether LiveKit takes a stop, which sessions have ended, and the ceiling of a workspace.
pub record World : Type 0 where
  pub describe : Text → Described
  pub measured : Text → Measured
  pub stops : Text → Bool
  pub has_ended : Text → Bool
  pub max_recording_minutes : Text → Option ℕ

abbrev pub is_unfinished : RecordingStatus → Bool
is_unfinished s = is_active s || is_processing s
  where
    is_processing : RecordingStatus → Bool
    is_processing processing = true
    is_processing starting = false
    is_processing recording = false
    is_processing ready = false
    is_processing failed = false

-- `lt: now - SETTLE_MS`
abbrev pub is_stuck : ℕ → RecordingRow → Bool
is_stuck now r = is_unfinished r.status && ltb (r.created_at + settle_ms) now

abbrev pub never_started : Text
never_started = codes "Recording never started"

abbrev pub forgotten : Text
forgotten = codes "LiveKit has no record of this recording"

-- One turn of the main loop. What throws in it is caught: `describe`, or the size of the object.
unfoldable pub reconcile_one : World → ℕ → RecordingRow → List RecordingRow → List RecordingRow
reconcile_one w now r rows = elim (key_of r.egress_id) [
  | none ↦ update_row r.id (to_failed never_started) rows
  | some egress_id ↦ elim (w.describe egress_id) [
    | unreachable ↦ rows
    | no_record ↦
        if ltb abandon_ms (now - r.created_at)
        then update_row r.id (to_failed forgotten) rows
        else rows
    | unfinished ↦ rows
    | finished complete size_bytes duration_sec error ↦
        apply_egress_result
          (record {
            egress_id = egress_id;
            complete = complete;
            size_bytes = size_bytes;
            duration_sec = duration_sec;
            error = error;
          })
          (w.measured egress_id) now rows
  ]
]

unfoldable pub reconcile_each :
    World → ℕ → List RecordingRow → List RecordingRow → List RecordingRow
reconcile_each w now [] rows = rows
reconcile_each w now (r ∷ stuck) rows = reconcile_each w now stuck (reconcile_one w now r rows)

-- A stop by the reconciler: only of a row with an egress, and only if LiveKit takes it.
unfoldable pub stop_egress : World → RecordingRow → List RecordingRow → List RecordingRow
stop_egress w r rows = elim (key_of r.egress_id) [
  | none ↦ rows
  | some egress_id ↦ if w.stops egress_id then update_row r.id to_processing rows else rows
]

unfoldable pub stop_each : World → List RecordingRow → List RecordingRow → List RecordingRow
stop_each w [] rows = rows
stop_each w (r ∷ running) rows = stop_each w running (stop_egress w r rows)

abbrev pub is_orphaned : World → RecordingRow → Bool
is_orphaned w r = is_active r.status && w.has_ended r.session_id

unfoldable pub stop_recordings_for_ended_classes : World → List RecordingRow → List RecordingRow
stop_recordings_for_ended_classes w rows =
    stop_each w (first batch (filter (is_orphaned w) rows)) rows

abbrev pub has_ceiling : World → RecordingRow → Bool
has_ceiling w r = is_active r.status && is_some (w.max_recording_minutes r.organization_id)

-- A ceiling of nothing is none; `runningMin < cap` on minutes that are not whole.
abbrev pub is_overrunning : World → ℕ → RecordingRow → Bool
is_overrunning w now r = elim (w.max_recording_minutes r.organization_id) [
  | none ↦ false
  | some cap ↦ ltb 0 cap && leb (cap * 60000) (now - r.created_at)
]

unfoldable pub stop_overrunning_recordings : World → ℕ → List RecordingRow → List RecordingRow
stop_overrunning_recordings w now rows =
    stop_each w (filter (is_overrunning w now) (first batch (filter (has_ceiling w) rows))) rows

-- The pass; it does nothing where LiveKit is not configured.
unfoldable pub reconcile : Bool → World → ℕ → List RecordingRow → List RecordingRow
reconcile false w now rows = rows
reconcile true w now rows =
    let stopped = stop_overrunning_recordings w now (stop_recordings_for_ended_classes w rows) in
    reconcile_each w now (first batch (filter (is_stuck now) stopped)) stopped
