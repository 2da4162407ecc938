-- ===== src/Recordings/Calls.antt =====
-- src/recordings/recordings.service.ts: one recording at a time for a class, when requests are not served
-- at once.
use livetich_api.Prelude.{
  ℕ, ◌≤◌, ◌≡◌, inl, inr, refl, Text, same, same_iff, sym, Bool, false, Option, some, List, [], ◌∷◌,
  ◌++◌, any, arith, Bool-cases,
}
use livetich_api.Prelude.Results.{Result-cases, ok}
use livetich_api.Identity.{JwtPayload}
use livetich_api.Recordings.{RecordingRow, to_failed}
use livetich_api.Recordings.Taking.{
  StartWorld, start_checks, new_row, EgressStart, taken, thrown, to_recording, start_finish, start,
}
use livetich_api.Recordings.Gallery.{with_share, expiry, share}
use livetich_api.Recordings.Events.{pass}
use livetich_api.Recordings.Writes.{write}
use livetich_api.Recordings.Plainly.{pass-Plain, share_lem}
use livetich_api.Recordings.Single.{
  running, running-append, running-update_row, running-Plain, checks_lem, update_row-new, Call,
  starts, other, call, call_all, gives_link,
}

-- One more recording in a session, or none.
abbrev AtMostOne : Text → List RecordingRow → Type 0
AtMostOne session_id rows = running session_id rows ≤ 1

other_sessions :
    (session_id s : Text) (rows : List RecordingRow) (r : RecordingRow)
    → r.session_id ≡ s
    → running s rows ≡ 0
    → AtMostOne session_id rows
    → AtMostOne session_id (rows ++ r ∷ [])
other_sessions session_id s rows r e none_there h = elim (Bool-cases (same s session_id)) [
  | inl a ↦
      let at : s ≡ session_id = ground (arith, a, same_iff s session_id) in
      let nothing : running session_id rows ≡ 0 = rw (sym at) none_there in
      ground (arith, nothing, running-append session_id rows r)
  | inr a ↦ ground (arith, a, e, h, running-append session_id rows r)
]

finished_lem :
    (user : JwtPayload) (s : Text) (w : StartWorld) (id : Text) (now : ℕ) (answer : EgressStart)
    (rows : List RecordingRow) (next : List RecordingRow × Bool)
    → start user s w id now answer rows ≡ ok next
    → any (λ q. same q.id id) rows ≡ false
    → (running s rows ≡ 0) × ((r : RecordingRow) × ((r.session_id ≡ s) × (next.0 ≡ rows ++ r ∷ [])))
unfolding start start_finish
finished_lem user s w id now (taken egress_id) rows next h free =
    elim (Result-cases (start_checks user s w rows)) [
      | inl (e, a) ↦ absurd (ground (arith, a, h))
      | inr (org, a) ↦
          let r = new_row id s org now in
          (
            checks_lem user s w rows org a,
            (
              to_recording egress_id r,
              (
                refl,
                ground (arith, a, h, update_row-new id (to_recording egress_id) rows r free refl),
              ),
            ),
          )
    ]
finished_lem user s w id now (thrown message) rows next h free =
    elim (Result-cases (start_checks user s w rows)) [
      | inl (e, a) ↦ absurd (ground (arith, a, h))
      | inr (org, a) ↦
          let r = new_row id s org now in
          (
            checks_lem user s w rows org a,
            (
              to_failed message r,
              (refl, ground (arith, a, h, update_row-new id (to_failed message) rows r free refl)),
            ),
          )
    ]

shared_lem :
    (session_id : Text) (user : JwtPayload) (id : Text) (days : Option ℕ) (token : Text) (now : ℕ)
    (rows : List RecordingRow)
    → AtMostOne session_id rows
    → AtMostOne session_id (call (gives_link user id days token now) rows)
unfolding call write
shared_lem session_id user id days token now rows k =
    elim (Result-cases (share user id days token now rows)) [
      | inl (e, a) ↦ rw a k
      | inr (next, a) ↦
          rw (a, share_lem user id days token now rows next a)
            (omega (
              arith,
              k,
              running-update_row session_id id (with_share (some token) (expiry days now)) rows
                  (λ r. ground arith),
            ))
    ]

call-AtMostOne :
    (session_id : Text) (c : Call) (rows : List RecordingRow)
    → AtMostOne session_id rows
    → AtMostOne session_id (call c rows)
unfolding call
call-AtMostOne session_id (starts user s w id now answer) rows k =
    elim (Bool-cases (any (λ q. same q.id id) rows)) [
      | inl a ↦ rw a k
      | inr a ↦ elim (Result-cases (start user s w id now answer rows)) [
        | inl (e, b) ↦ rw (a, b) k
        | inr (next, b) ↦
            let (none_there, (r, (of_session, at))) =
              finished_lem user s w id now answer rows next b a in
            rw (a, b, at) (other_sessions session_id s rows r of_session none_there k)
      ]
    ]
call-AtMostOne session_id (gives_link user id days token now) rows k =
    shared_lem session_id user id days token now rows k
call-AtMostOne session_id (other q) rows k =
    omega (arith, k, running-Plain session_id rows (pass q rows) (pass-Plain q rows))

-- Where no two requests to start are served at once, no class ever has more than one recording being
-- made, whatever else is requested, reported by LiveKit, or done by the passes of every minute and night.
pub running-call_all :
    (cs : List Call) (session_id : Text) → running session_id (call_all cs []) ≤ 1
unfolding call_all running
running-call_all cs session_id = go cs [] (ground arith)
  where
    go :
        (cs : List Call) (rows : List RecordingRow)
        → AtMostOne session_id rows
        → AtMostOne session_id (call_all cs rows)
    go [] rows k = k
    go (c ∷ cs) rows k = go cs (call c rows) (call-AtMostOne session_id c rows k)
