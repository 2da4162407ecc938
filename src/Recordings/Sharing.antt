-- ===== src/Recordings/Sharing.antt =====
-- src/recordings/recordings.service.ts (share, unshare, bySharedToken): a link that is withdrawn.
use livetich_api.Prelude.{
  ℕ, ◌≡◌, inl, inr, refl, Text, same, same_iff, Bool, true, false, Option, none, some, List, [],
  ◌∷◌, ◌++◌, any, all, arith, Bool-cases,
}
use livetich_api.Prelude.Results.{Result-cases, ok}
use livetich_api.Identity.{JwtPayload}
use livetich_api.Recordings.{RecordingRow, update_row, delete_row, to_processing, to_failed}
use livetich_api.Recordings.Taking.{
  start_checks, new_row, taken, thrown, to_recording, start_finish, to_ready,
}
use livetich_api.Recordings.Gallery.{with_share, expiry, share}
use livetich_api.Recordings.Events.{Event, began, answered, was_shared, quiet, pass, happen}
use livetich_api.Recordings.Writes.{
  Write, creates, records, processes, fails, readies, shares, drops, write, write_all, is_plain,
  Plain,
}
use livetich_api.Recordings.Plainly.{pass-Plain, share_lem}

-- A test of a row's id and link that no row without a link passes.
module _ (g : Text → Option Text → Bool) (no_link : (id : Text) → g id none ≡ false) where
  abbrev pub fits : RecordingRow → Bool
  fits r = g r.id r.share_token

  any-update_row :
      (id : Text) (f : RecordingRow → RecordingRow) (rows : List RecordingRow)
      → ((r : RecordingRow) → r.id ≡ id → fits r ≡ false → fits (f r) ≡ false)
      → any fits rows ≡ false
      → any fits (update_row id f rows) ≡ false
  unfolding update_row
  any-update_row id f [] k h = refl
  any-update_row id f (r ∷ rows) k h = elim (Bool-cases (same r.id id)) [
    | inl e ↦
        let own : r.id ≡ id = ground (arith, e, same_iff r.id id) in
        ground
          (arith, e, k r own (ground (arith, h)), any-update_row id f rows k (ground (arith, h)))
    | inr e ↦ ground (arith, e, h, any-update_row id f rows k (ground (arith, h)))
  ]

  any-delete_row :
      (id : Text) (rows : List RecordingRow)
      → any fits rows ≡ false
      → any fits (delete_row id rows) ≡ false
  unfolding delete_row
  any-delete_row id [] h = refl
  any-delete_row id (r ∷ rows) h = ground (arith, h, any-delete_row id rows (ground (arith, h)))

  any-append :
      (rows : List RecordingRow) (r : RecordingRow)
      → any fits rows ≡ false
      → fits r ≡ false
      → any fits (rows ++ r ∷ []) ≡ false
  any-append [] r h k = ground (arith, k)
  any-append (q ∷ rows) r h k = ground (arith, h, any-append rows r (ground (arith, h)) k)

  any-write :
      (w : Write) (rows : List RecordingRow)
      → is_plain w ≡ true
      → any fits rows ≡ false
      → any fits (write w rows) ≡ false
  unfolding write
  any-write (creates id s org now) rows h k = absurd (ground (arith, h))
  any-write (records id egress_id) rows h k = absurd (ground (arith, h))
  any-write (processes id) rows h k = any-update_row id to_processing rows (λ r e q. q) k
  any-write (fails id message) rows h k = any-update_row id (to_failed message) rows (λ r e q. q) k
  any-write (readies id result measured now) rows h k =
      any-update_row id (to_ready result measured now) rows (λ r e q. q) k
  any-write (shares id none expires_at) rows h k =
      any-update_row id (with_share none expires_at) rows (λ r e q. no_link r.id) k
  any-write (shares id (some token) expires_at) rows h k = absurd (ground (arith, h))
  any-write (drops id) rows h k = any-delete_row id rows k

  any-write_all :
      (ws : List Write) (rows : List RecordingRow)
      → all is_plain ws ≡ true
      → any fits rows ≡ false
      → any fits (write_all ws rows) ≡ false
  unfolding write_all
  any-write_all [] rows h k = k
  any-write_all (w ∷ ws) rows h k =
      any-write_all ws (write w rows) (ground (arith, h)) (any-write w rows (ground (arith, h)) k)

  any-Plain :
      (rows next : List RecordingRow)
      → Plain rows next
      → any fits rows ≡ false
      → any fits next ≡ false
  any-Plain rows next (ws, (p, e)) k = rw e (any-write_all ws rows p k)

  pub any-shared :
      (user : JwtPayload) (id : Text) (days : Option ℕ) (token : Text) (now : ℕ)
      (rows next : List RecordingRow)
      → share user id days token now rows ≡ ok next
      → g id (some token) ≡ false
      → any fits rows ≡ false
      → any fits next ≡ false
  unfolding write
  any-shared user id days token now rows next h q k =
      rw (share_lem user id days token now rows next h) (
        any-update_row id (with_share (some token) (expiry days now)) rows
          (λ r e p. ground (arith, e, q)) k)

  -- Events whose links do not pass the test.
  abbrev pub Misses : Event → Type 0
  Misses (was_shared user id days token now) = g id (some token) ≡ false
  Misses (began user session_id w id now) = Unit
  Misses (answered id answer) = Unit
  Misses (quiet q) = Unit

  pub any-happen :
      (e : Event) (rows : List RecordingRow)
      → Misses e
      → any fits rows ≡ false
      → any fits (happen e rows) ≡ false
  unfolding happen start_finish
  any-happen (began user session_id w id now) rows m k =
      elim (Result-cases (start_checks user session_id w rows)) [
        | inl (e, a) ↦ rw a k
        | inr (org, a) ↦ rw a (any-append rows (new_row id session_id org now) k (no_link id))
      ]
  any-happen (answered id (taken egress_id)) rows m k =
      any-update_row id (to_recording egress_id) rows (λ r e q. q) k
  any-happen (answered id (thrown message)) rows m k =
      any-update_row id (to_failed message) rows (λ r e q. q) k
  any-happen (was_shared user id days token now) rows m k =
      elim (Result-cases (share user id days token now rows)) [
        | inl (e, a) ↦ rw a k
        | inr (next, a) ↦ rw a (any-shared user id days token now rows next a m k)
      ]
  any-happen (quiet q) rows m k = any-Plain rows (pass q rows) (pass-Plain q rows) k
