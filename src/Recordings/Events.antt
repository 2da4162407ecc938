-- ===== src/Recordings/Events.antt =====
-- src/recordings/recordings.service.ts, src/recordings/recordings-reconciler.service.ts: recordings
-- through whatever happens to them, one event after another. The two halves of `start` are events of
-- their own, so that anything may come between.
use livetich_api.Prelude.{ℕ, Text, Bool, Option, none, some, List, [], ◌∷◌, ◌++◌}
use livetich_api.Prelude.Results.{Result, ok, err}
use livetich_api.Identity.{JwtPayload}
use livetich_api.Recordings.{RecordingRow}
use livetich_api.Recordings.Taking.{
  StartWorld, start_checks, new_row, EgressStart, start_finish, stop, EgressResult, Measured,
  apply_egress_result,
}
use livetich_api.Recordings.Gallery.{share, unshare, remove}
use livetich_api.Recordings.Reconciler.{World, reconcile}
use livetich_api.Recordings.Retention.{sweep_expired_recordings}

-- What neither begins a recording, nor answers a start, nor hands out a link.
pub data Quiet : Type 0 where
  was_stopped : JwtPayload → Text → Bool → Quiet
  reported : EgressResult → Measured → ℕ → Quiet
  was_unshared : JwtPayload → Text → Quiet
  was_removed : JwtPayload → Text → Quiet
  minute : Bool → World → ℕ → Quiet
  night : (Text → Bool) → ℕ → ℕ → List (Text × Option ℕ) → Quiet

pub data Event : Type 0 where
  began : JwtPayload → Text → StartWorld → Text → ℕ → Event
  answered : Text → EgressStart → Event
  was_shared : JwtPayload → Text → Option ℕ → Text → ℕ → Event
  quiet : Quiet → Event

abbrev or_same : List RecordingRow → Result (List RecordingRow) → List RecordingRow
or_same rows (ok next) = next
or_same rows (err e) = rows

abbrev after_stop : List RecordingRow → Result (Option (List RecordingRow)) → List RecordingRow
after_stop rows (ok (some next)) = next
after_stop rows (ok none) = rows
after_stop rows (err e) = rows

abbrev after_remove : List RecordingRow → Result (List RecordingRow × List Text) → List RecordingRow
after_remove rows (ok removed) = removed.0
after_remove rows (err e) = rows

abbrev after_checks : Text → Text → ℕ → List RecordingRow → Result Text → List RecordingRow
after_checks id session_id now rows (ok organization_id) =
    rows ++ new_row id session_id organization_id now ∷ []
after_checks id session_id now rows (err e) = rows

unfoldable pub pass : Quiet → List RecordingRow → List RecordingRow
pass (was_stopped user session_id stopped) rows =
    after_stop rows (stop user session_id stopped rows)
pass (reported result measured now) rows = apply_egress_result result measured now rows
pass (was_unshared user id) rows = or_same rows (unshare user id rows)
pass (was_removed user id) rows = after_remove rows (remove user id rows)
pass (minute configured w now) rows = reconcile configured w now rows
pass (night deletes limit now orgs) rows =
    (sweep_expired_recordings deletes limit now orgs rows).rows

unfoldable pub happen : Event → List RecordingRow → List RecordingRow
happen (began user session_id w id now) rows =
    after_checks id session_id now rows (start_checks user session_id w rows)
happen (answered id answer) rows = start_finish id answer rows
happen (was_shared user id days token now) rows = or_same rows (share user id days token now rows)
happen (quiet q) rows = pass q rows

unfoldable pub happen_all : List Event → List RecordingRow → List RecordingRow
happen_all [] rows = rows
happen_all (e ∷ es) rows = happen_all es (happen e rows)
