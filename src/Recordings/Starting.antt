-- ===== src/Recordings/Starting.antt =====
-- src/recordings/recordings.service.ts (start), cut where other requests may come in between: after its
-- checks, and after its row is created.
use livetich_api.Prelude.{ℕ, inl, inr, ◌≡◌, Text, Bool, true, false, List, [], ◌∷◌, ◌++◌, arith}
use livetich_api.Prelude.Results.{Result-cases, HttpError, ok, err}
use livetich_api.Identity.{JwtPayload}
use livetich_api.Recordings.{RecordingRow}
use livetich_api.Recordings.Taking.{
  StartWorld, start_checks, new_row, EgressStart, is_taken, start_finish,
}
use livetich_api.Recordings.Single.{running, checks_lem, running-new_row}

-- A request, what the checks are told, and the id, the time and the answer of LiveKit that await it.
pub record StartRequest : Type 0 where
  pub user : JwtPayload
  pub session_id : Text
  pub world : StartWorld
  pub id : Text
  pub now : ℕ
  pub answer : EgressStart

-- How far it is.
pub data Starting : Type 0 where
  before_checks before_egress : Starting
  before_create : Text → Starting
  was_refused : HttpError → Starting
  was_answered : Bool → Starting

-- One part of `start`, on the rows as it finds them. The row is created whatever they are by then.
unfoldable pub start_step :
    StartRequest → Starting → List RecordingRow → Starting × List RecordingRow
start_step q before_checks rows = (
  elim (start_checks q.user q.session_id q.world rows) [
    | ok organization_id ↦ before_create organization_id
    | err e ↦ was_refused e
  ],
  rows,
)
start_step q (before_create organization_id) rows =
    (before_egress, rows ++ new_row q.id q.session_id organization_id q.now ∷ [])
start_step q before_egress rows =
    (was_answered (is_taken q.answer), start_finish q.id q.answer rows)
start_step q (was_refused e) rows = (was_refused e, rows)
start_step q (was_answered taken) rows = (was_answered taken, rows)

-- Two requests whose parts come in the order given: `true` for one of the first.
unfoldable pub start_both :
    List Bool
    → StartRequest
    → Starting
    → StartRequest
    → Starting
    → List RecordingRow
    → List RecordingRow
start_both [] q s p t rows = rows
start_both (true ∷ turns) q s p t rows =
    let next = start_step q s rows in start_both turns q next.0 p t next.1
start_both (false ∷ turns) q s p t rows =
    let next = start_step p t rows in start_both turns q s p next.0 next.1

-- Two requests to start a recording of one class, each of which may start one on the rows as they
-- are: when both make their checks before either creates its row, both rows are created, and the class
-- has two recordings at once; when the first creates its row before the second makes its checks, the
-- second creates none, and the class has one.
pub two_starts :
    (q p : StartRequest) (rows : List RecordingRow) (org second_org : Text)
    → p.session_id ≡ q.session_id
    → start_checks q.user q.session_id q.world rows ≡ ok org
    → start_checks p.user p.session_id p.world rows ≡ ok second_org
    → (running q.session_id
          (start_both (true ∷ false ∷ true ∷ false ∷ []) q before_checks p before_checks rows)
        ≡ 2)
      × (running q.session_id
            (start_both (true ∷ true ∷ false ∷ false ∷ []) q before_checks p before_checks rows)
          ≡ 1)
unfolding start_both start_step
two_starts q p rows org second_org one_class h k =
    let next = rows ++ new_row q.id q.session_id org q.now ∷ [] in
    let none_yet = checks_lem q.user q.session_id q.world rows org h in
    let one_now = running-new_row q.session_id q.id org q.now rows in
    (
      ground (
        arith,
        h,
        k,
        one_class,
        checks_lem q.user q.session_id q.world rows org h,
        running-new_row q.session_id q.id org q.now rows,
        running-new_row q.session_id p.id second_org p.now
            (rows ++ new_row q.id q.session_id org q.now ∷ []),
      ),
      elim (Result-cases (start_checks p.user p.session_id p.world next)) [
        | inl (e, a) ↦ ground (arith, h, one_class, a, none_yet, one_now)
        | inr (o, a) ↦
            absurd
              (ground (arith, one_class, one_now, checks_lem p.user p.session_id p.world next o a))
      ],
    )
