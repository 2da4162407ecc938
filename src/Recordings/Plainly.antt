-- ===== src/Recordings/Plainly.antt =====
-- src/recordings/recordings.service.ts: the requests and other events of recordings, as writes of single
-- rows.
use livetich_api.Prelude.{
  ℕ, ◌≡◌, inl, inr, refl, Text, Bool, not, ◌&&◌, Option, none, some, List, is_some, arith,
  Bool-cases, Option-cases,
}
use livetich_api.Prelude.Results.{Result-cases, ok}
use livetich_api.Identity.{JwtPayload}
use livetich_api.Recordings.{RecordingRow, find_row, assert_staff}
use livetich_api.Recordings.Taking.{stop, is_stoppable}
use livetich_api.Recordings.Gallery.{unshare, remove, is_here, share, expiry}
use livetich_api.Recordings.Writes.{
  processes, shares, drops, write, Plain, Plain-refl, Plain-one, apply_egress_result-Plain,
}
use livetich_api.Recordings.Events.{
  Quiet, was_stopped, reported, was_unshared, was_removed, minute, night, pass,
}
use livetich_api.Recordings.Passes.{reconcile-Plain, sweep-Plain}

stop-Plain :
    (user : JwtPayload) (session_id : Text) (stopped : Bool) (rows : List RecordingRow)
    → Plain rows (pass (was_stopped user session_id stopped) rows)
unfolding pass stop write
stop-Plain user session_id stopped rows =
    let next = pass (was_stopped user session_id stopped) rows in
    elim (Result-cases (assert_staff user)) [
      | inl (e, a) ↦ Plain-refl rows next (ground (arith, a))
      | inr (org, a) ↦ elim (Option-cases (find_row (is_stoppable org session_id) rows)) [
        | inl b ↦ Plain-refl rows next (ground (arith, a, b))
        | inr (r, b) ↦ elim (Bool-cases (is_some r.egress_id && not stopped)) [
          | inl c ↦ Plain-refl rows next (ground (arith, a, b, c))
          | inr c ↦ Plain-one (processes r.id) rows next refl (ground (arith, a, b, c))
        ]
      ]
    ]

unshare-Plain :
    (user : JwtPayload) (id : Text) (rows : List RecordingRow)
    → Plain rows (pass (was_unshared user id) rows)
unfolding pass unshare write
unshare-Plain user id rows =
    let next = pass (was_unshared user id) rows in
    elim (Result-cases (unshare user id rows)) [
      | inl (e, a) ↦ Plain-refl rows next (ground (arith, a))
      | inr (left, a) ↦ Plain-one (shares id none none) rows next refl (ground (arith, a))
    ]

remove-Plain :
    (user : JwtPayload) (id : Text) (rows : List RecordingRow)
    → Plain rows (pass (was_removed user id) rows)
unfolding pass remove write
remove-Plain user id rows =
    let next = pass (was_removed user id) rows in
    elim (Result-cases (remove user id rows)) [
      | inl (e, a) ↦ Plain-refl rows next (ground (arith, a))
      | inr (left, a) ↦ elim (Result-cases (assert_staff user)) [
        | inl (e, b) ↦ absurd (ground (arith, a, b))
        | inr (org, b) ↦ elim (Option-cases (find_row (is_here org id) rows)) [
          | inl c ↦ absurd (ground (arith, a, b, c))
          | inr (r, c) ↦ Plain-one (drops id) rows next refl (ground (arith, a, b, c))
        ]
      ]
    ]

pub pass-Plain : (q : Quiet) (rows : List RecordingRow) → Plain rows (pass q rows)
unfolding pass
pass-Plain (was_stopped user session_id stopped) rows = stop-Plain user session_id stopped rows
pass-Plain (reported result measured now) rows = apply_egress_result-Plain result measured now rows
pass-Plain (was_unshared user id) rows = unshare-Plain user id rows
pass-Plain (was_removed user id) rows = remove-Plain user id rows
pass-Plain (minute configured w now) rows = reconcile-Plain configured w now rows
pass-Plain (night deletes limit now orgs) rows = sweep-Plain deletes limit now orgs rows

-- A sharing that is carried out is one write.
pub share_lem :
    (user : JwtPayload) (id : Text) (days : Option ℕ) (token : Text) (now : ℕ)
    (rows next : List RecordingRow)
    → share user id days token now rows ≡ ok next
    → next ≡ write (shares id (some token) (expiry days now)) rows
unfolding share write
share_lem user id days token now rows next h = elim (Result-cases (assert_staff user)) [
  | inl (e, a) ↦ absurd (ground (arith, a, h))
  | inr (org, a) ↦ elim (Option-cases (find_row (is_here org id) rows)) [
    | inl b ↦ absurd (ground (arith, a, b, h))
    | inr (r, b) ↦ ground (arith, a, b, h)
  ]
]
