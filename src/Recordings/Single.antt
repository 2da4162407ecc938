-- ===== src/Recordings/Single.antt =====
-- src/recordings/recordings.service.ts (start): one recording at a time for a class.
use livetich_api.Prelude.{
  Option, ℕ, suc, ◌+◌, ◌≤◌, ◌≡◌, inl, inr, refl, if◌then◌else◌, Text, same, same_refl, Bool, true,
  false, not, ◌&&◌, List, [], ◌∷◌, ◌++◌, any, all, arith,
}
use livetich_api.Prelude.Results.{Result, Result-cases, ok, err}
use livetich_api.Identity.{JwtPayload}
use livetich_api.Recordings.{
  RecordingRow, update_row, delete_row, to_processing, to_failed, assert_staff,
}
use livetich_api.Recordings.Taking.{
  StartWorld, is_running, start_checks, new_row, EgressStart, start, to_ready,
}
use livetich_api.Recordings.Gallery.{share, with_share}
use livetich_api.Recordings.Events.{Quiet, pass}
use livetich_api.Recordings.Writes.{
  Write, creates, records, processes, fails, readies, shares, drops, write, write_all, is_plain,
  Plain,
}

-- How many recordings of a session are being made.
unfoldable pub running : Text → List RecordingRow → ℕ
running session_id [] = 0
running session_id (r ∷ rows) = (if is_running session_id r then 1 else 0) + running session_id rows

pub running-append :
    (session_id : Text) (rows : List RecordingRow) (r : RecordingRow)
    → running session_id (rows ++ r ∷ [])
      ≡ running session_id rows + (if is_running session_id r then 1 else 0)
unfolding running
running-append session_id [] r = ground arith
running-append session_id (q ∷ rows) r = ground (arith, running-append session_id rows r)

running_none :
    (session_id : Text) (rows : List RecordingRow)
    → any (is_running session_id) rows ≡ false
    → running session_id rows ≡ 0
unfolding running
running_none session_id [] h = refl
running_none session_id (r ∷ rows) h =
    ground (arith, h, running_none session_id rows (ground (arith, h)))

-- A change of a row that does not set it running.
abbrev Calms : Text → (RecordingRow → RecordingRow) → Type 0
Calms session_id f =
    (r : RecordingRow) → (is_running session_id (f r) && not (is_running session_id r)) ≡ false

one_or :
    (b : Bool) (f : RecordingRow → RecordingRow) (session_id : Text) (r : RecordingRow)
    → Calms session_id f
    → (if is_running session_id (if b then f r else r) then 1 else 0)
      ≤ (if is_running session_id r then 1 else 0)
one_or true f session_id r k = ground (arith, k r)
one_or false f session_id r k = ground arith

pub running-update_row :
    (session_id id : Text) (f : RecordingRow → RecordingRow) (rows : List RecordingRow)
    → Calms session_id f
    → running session_id (update_row id f rows) ≤ running session_id rows
unfolding running update_row
running-update_row session_id id f [] k = ground arith
running-update_row session_id id f (r ∷ rows) k =
    omega (arith, one_or (same r.id id) f session_id r k, running-update_row session_id id f rows k)

running-delete_row :
    (session_id id : Text) (rows : List RecordingRow)
    → running session_id (delete_row id rows) ≤ running session_id rows
unfolding running delete_row
running-delete_row session_id id [] = ground arith
running-delete_row session_id id (r ∷ rows) = ground (arith, running-delete_row session_id id rows)

running-write :
    (session_id : Text) (w : Write) (rows : List RecordingRow)
    → is_plain w ≡ true
    → running session_id (write w rows) ≤ running session_id rows
unfolding write
running-write session_id (creates id s org now) rows h = absurd (ground (arith, h))
running-write session_id (records id egress_id) rows h = absurd (ground (arith, h))
running-write session_id (processes id) rows h =
    running-update_row session_id id to_processing rows (λ r. ground arith)
running-write session_id (fails id message) rows h =
    running-update_row session_id id (to_failed message) rows (λ r. ground arith)
running-write session_id (readies id result measured now) rows h =
    running-update_row session_id id (to_ready result measured now) rows (λ r. ground arith)
running-write session_id (shares id token expires_at) rows h =
    running-update_row session_id id (with_share token expires_at) rows (λ r. ground arith)
running-write session_id (drops id) rows h = running-delete_row session_id id rows

running-write_all :
    (session_id : Text) (ws : List Write) (rows : List RecordingRow)
    → all is_plain ws ≡ true
    → running session_id (write_all ws rows) ≤ running session_id rows
unfolding write_all
running-write_all session_id [] rows h = omega arith
running-write_all session_id (w ∷ ws) rows h = omega (
  arith,
  running-write session_id w rows (ground (arith, h)),
  running-write_all session_id ws (write w rows) (ground (arith, h)),
)

pub running-Plain :
    (session_id : Text) (rows next : List RecordingRow)
    → Plain rows next
    → running session_id next ≤ running session_id rows
running-Plain session_id rows next (ws, (p, e)) = rw e (running-write_all session_id ws rows p)

pub checks_lem :
    (user : JwtPayload) (session_id : Text) (w : StartWorld) (rows : List RecordingRow) (org : Text)
    → start_checks user session_id w rows ≡ ok org
    → running session_id rows ≡ 0
unfolding start_checks
checks_lem user session_id w rows org h = elim (Result-cases (assert_staff user)) [
  | inl (e, a) ↦ absurd (ground (arith, a, h))
  | inr (o, a) ↦ running_none session_id rows (ground (arith, a, h))
]

pub running-new_row :
    (session_id id org : Text) (now : ℕ) (rows : List RecordingRow)
    → running session_id (rows ++ new_row id session_id org now ∷ [])
      ≡ suc (running session_id rows)
running-new_row session_id id org now rows =
    ground
      (arith, same_refl session_id, running-append session_id rows (new_row id session_id org now))

-- The update of a row that has just been created, under an id that no other row has.
pub update_row-new :
    (id : Text) (f : RecordingRow → RecordingRow) (rows : List RecordingRow) (r : RecordingRow)
    → any (λ q. same q.id id) rows ≡ false
    → r.id ≡ id
    → update_row id f (rows ++ r ∷ []) ≡ rows ++ f r ∷ []
unfolding update_row
update_row-new id f [] r h e = ground (arith, e, same_refl id)
update_row-new id f (q ∷ rows) r h e =
    ground (arith, h, update_row-new id f rows r (ground (arith, h)) e)

-- Whole requests and quiet events, one after another. The database refuses an id that is taken.
pub data Call : Type 0 where
  starts : JwtPayload → Text → StartWorld → Text → ℕ → EgressStart → Call
  gives_link : JwtPayload → Text → Option ℕ → Text → ℕ → Call
  other : Quiet → Call

abbrev after_start : List RecordingRow → Result (List RecordingRow × Bool) → List RecordingRow
after_start rows (ok next) = next.0
after_start rows (err e) = rows

abbrev after_share : List RecordingRow → Result (List RecordingRow) → List RecordingRow
after_share rows (ok next) = next
after_share rows (err e) = rows

unfoldable pub call : Call → List RecordingRow → List RecordingRow
call (starts user session_id w id now answer) rows =
    if any (λ q. same q.id id) rows
    then rows
    else after_start rows (start user session_id w id now answer rows)
call (gives_link user id days token now) rows = after_share rows (share user id days token now rows)
call (other q) rows = pass q rows

unfoldable pub call_all : List Call → List RecordingRow → List RecordingRow
call_all [] rows = rows
call_all (c ∷ cs) rows = call_all cs (call c rows)
