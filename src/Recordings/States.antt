-- ===== src/Recordings/States.antt =====
-- src/recordings/recordings.service.ts, src/recordings/recordings-reconciler.service.ts: what the status
-- of a recording says of its other columns.
use livetich_api.Prelude.{
  ◌≡◌, inl, inr, refl, if◌then◌else◌, Text, same, Bool, true, false, not, ◌&&◌, ◌||◌, some, List,
  [], ◌∷◌, ◌++◌, All, is_some, arith, Bool-cases,
}
use livetich_api.Prelude.Results.{Result-cases}
use livetich_api.Recordings.{
  starting, recording, processing, ready, failed, RecordingRow, update_row, delete_row,
  to_processing, to_failed,
}
use livetich_api.Recordings.Taking.{
  start_checks, new_row, taken, thrown, to_recording, start_finish, to_ready,
}
use livetich_api.Recordings.Gallery.{share, with_share, expiry}
use livetich_api.Recordings.Events.{
  Event, began, answered, was_shared, quiet, pass, happen, happen_all,
}
use livetich_api.Recordings.Writes.{
  Write, creates, records, processes, fails, readies, shares, drops, write, write_all, Plain,
}
use livetich_api.Recordings.Plainly.{pass-Plain, share_lem}

-- A recording that runs has an egress and an object, one that failed has a reason, one that is ready
-- says when it became so and has no error; and an egress and an object come together.
abbrev pub is_sound : RecordingRow → Bool
is_sound r =
    (is_some r.egress_id && is_some r.storage_key
      || not (is_some r.egress_id || is_some r.storage_key))
    && elim r.status [
      | starting ↦ true
      | recording ↦ is_some r.egress_id
      | processing ↦ true
      | ready ↦ is_some r.ready_at && not (is_some r.error)
      | failed ↦ is_some r.error
    ]

abbrev IsSound : RecordingRow → Type 0
IsSound r = is_sound r ≡ true

AllSound-append :
    (rows : List RecordingRow) (r : RecordingRow)
    → All IsSound rows
    → IsSound r
    → All IsSound (rows ++ r ∷ [])
AllSound-append [] r h k = (k, tt)
AllSound-append (q ∷ rows) r (p, h) k = (p, AllSound-append rows r h k)

one_of : (b : Bool) (r q : RecordingRow) → IsSound r → IsSound q → IsSound (if b then r else q)
one_of true r q h k = h
one_of false r q h k = k

update_row-IsSound :
    (id : Text) (f : RecordingRow → RecordingRow) (rows : List RecordingRow)
    → ((r : RecordingRow) → IsSound r → IsSound (f r))
    → All IsSound rows
    → All IsSound (update_row id f rows)
unfolding update_row
update_row-IsSound id f [] k h = tt
update_row-IsSound id f (r ∷ rows) k (p, h) =
    (one_of (same r.id id) (f r) r (k r p) p, update_row-IsSound id f rows k h)

delete_row-IsSound :
    (id : Text) (rows : List RecordingRow) → All IsSound rows → All IsSound (delete_row id rows)
unfolding delete_row
delete_row-IsSound id [] h = tt
delete_row-IsSound id (r ∷ rows) (p, h) = elim (Bool-cases (same r.id id)) [
  | inl e ↦ rw e (delete_row-IsSound id rows h)
  | inr e ↦ rw e (p, delete_row-IsSound id rows h)
]

write-IsSound :
    (w : Write) (rows : List RecordingRow) → All IsSound rows → All IsSound (write w rows)
unfolding write
write-IsSound (creates id session_id organization_id now) rows h =
    AllSound-append rows (new_row id session_id organization_id now) h refl
write-IsSound (records id egress_id) rows h =
    update_row-IsSound id (to_recording egress_id) rows (λ r p. refl) h
write-IsSound (processes id) rows h =
    update_row-IsSound id to_processing rows (λ r p. ground (arith, p)) h
write-IsSound (fails id message) rows h =
    update_row-IsSound id (to_failed message) rows (λ r p. ground (arith, p)) h
write-IsSound (readies id result measured now) rows h =
    update_row-IsSound id (to_ready result measured now) rows (λ r p. ground (arith, p)) h
write-IsSound (shares id token expires_at) rows h =
    update_row-IsSound id (with_share token expires_at) rows (λ r p. p) h
write-IsSound (drops id) rows h = delete_row-IsSound id rows h

write_all-IsSound :
    (ws : List Write) (rows : List RecordingRow)
    → All IsSound rows
    → All IsSound (write_all ws rows)
unfolding write_all
write_all-IsSound [] rows h = h
write_all-IsSound (w ∷ ws) rows h = write_all-IsSound ws (write w rows) (write-IsSound w rows h)

Plain-IsSound :
    (rows next : List RecordingRow) → Plain rows next → All IsSound rows → All IsSound next
Plain-IsSound rows next (ws, (p, e)) h = rw e (write_all-IsSound ws rows h)

happen-IsSound :
    (e : Event) (rows : List RecordingRow) → All IsSound rows → All IsSound (happen e rows)
unfolding happen start_finish
happen-IsSound (began user session_id w id now) rows h =
    elim (Result-cases (start_checks user session_id w rows)) [
      | inl (e, a) ↦ rw a h
      | inr (org, a) ↦ rw a (AllSound-append rows (new_row id session_id org now) h refl)
    ]
happen-IsSound (answered id (taken egress_id)) rows h =
    update_row-IsSound id (to_recording egress_id) rows (λ r p. refl) h
happen-IsSound (answered id (thrown message)) rows h =
    update_row-IsSound id (to_failed message) rows (λ r p. ground (arith, p)) h
happen-IsSound (was_shared user id days token now) rows h =
    elim (Result-cases (share user id days token now rows)) [
      | inl (e, a) ↦ rw a h
      | inr (next, a) ↦
          rw (a, share_lem user id days token now rows next a)
            (write-IsSound (shares id (some token) (expiry days now)) rows h)
    ]
happen-IsSound (quiet q) rows h = Plain-IsSound rows (pass q rows) (pass-Plain q rows) h

-- Whatever happens to the recordings of the platform, in any order, and with anything between the two
-- halves of a start: every row is sound for its status.
pub happen_all-IsSound : (es : List Event) → All (λ r. is_sound r ≡ true) (happen_all es [])
unfolding happen_all
happen_all-IsSound es = go es [] tt
  where
    go :
        (es : List Event) (rows : List RecordingRow)
        → All IsSound rows
        → All IsSound (happen_all es rows)
    go [] rows h = h
    go (e ∷ es) rows h = go es (happen e rows) (happen-IsSound e rows h)
