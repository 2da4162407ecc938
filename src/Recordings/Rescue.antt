-- ===== src/Recordings/Rescue.antt =====
-- src/recordings/recordings-reconciler.service.ts (reconcile): a recording whose report never came.
use livetich_api.Prelude.{
  is_some, not, ◌||◌, ℕ, ◌≡◌, inl, inr, refl, Text, same, same_iff, true, false, none, some, List,
  [], ◌∷◌, ◌++◌, filter, arith, Option-cases,
}
use livetich_api.Recordings.{RecordingRow, update_row, find_row, to_failed}
use livetich_api.Recordings.Taking.{
  Measured, bytes_or_null, is_thrown, EgressResult, to_ready, has_egress, or_text, livekit_failed,
  apply_egress_result,
}
use livetich_api.Recordings.Gallery.{key_of}
use livetich_api.Recordings.Reconciler.{
  World, Described, unreachable, no_record, unfinished, finished, first, batch, is_stuck,
  never_started, forgotten, reconcile, reconcile_one, reconcile_each,
  stop_recordings_for_ended_classes, stop_overrunning_recordings,
}
use livetich_api.Recordings.Ending.{
  is_done, is_decided, is_found, result_of, ended-update_row, done-one, found-one,
}

decided-report :
    (result : EgressResult) (measured : Measured) (now : ℕ) (id : Text) (rows : List RecordingRow)
    → (not result.complete || (is_some result.size_bytes || not (is_thrown measured))) ≡ true
    → elim (find_row (has_egress result.egress_id) rows) [ none ↦ false | some q ↦ same q.id id ]
      ≡ true
    → is_done id (apply_egress_result result measured now rows) ≡ true
unfolding apply_egress_result
decided-report result measured now id rows k h =
    elim (Option-cases (find_row (has_egress result.egress_id) rows)) [
      | inl a ↦ absurd (ground (arith, a, h))
      | inr (q, a) ↦
          let own : q.id ≡ id = ground (arith, a, h, same_iff q.id id) in
          let message = or_text result.error livekit_failed in
          ground (
            arith,
            a,
            k,
            own,
            ended-update_row id (to_ready result (bytes_or_null measured) now) rows
                (λ p. (refl, refl, refl)),
            ended-update_row id (to_failed message) rows (λ p. (refl, refl, refl)),
          )
    ]

decided-one :
    (w : World) (now : ℕ) (r : RecordingRow) (rows : List RecordingRow)
    → is_decided w now r ≡ true
    → is_found r rows ≡ true
    → is_done r.id (reconcile_one w now r rows) ≡ true
unfolding reconcile_one
decided-one w now r rows d h = elim (Option-cases (key_of r.egress_id)) [
  | inl a ↦
      let at : reconcile_one w now r rows ≡ update_row r.id (to_failed never_started) rows =
        ground (arith, a) in
      rw at (ended-update_row r.id (to_failed never_started) rows (λ q. (refl, refl, refl)))
  | inr (e, a) ↦ go e (w.describe e) a refl
]
  where
    go :
        (e : Text) (k : Described)
        → key_of r.egress_id ≡ some e
        → w.describe e ≡ k
        → is_done r.id (reconcile_one w now r rows) ≡ true
    go e unreachable a b = absurd (ground (arith, a, b, d))
    go e unfinished a b = absurd (ground (arith, a, b, d))
    go e no_record a b =
        let at : reconcile_one w now r rows ≡ update_row r.id (to_failed forgotten) rows =
          ground (arith, a, b, d) in
        rw at (ended-update_row r.id (to_failed forgotten) rows (λ q. (refl, refl, refl)))
    go e (finished complete size_bytes duration_sec error) a b =
        let result = result_of e complete size_bytes duration_sec error in
        let at : reconcile_one w now r rows ≡ apply_egress_result result (w.measured e) now rows =
          ground (arith, a, b) in
        rw at (
          decided-report result (w.measured e) now r.id rows (ground (arith, a, b, d))
            (ground (arith, a, h)))

done-each :
    (id : Text) (w : World) (now : ℕ) (stuck rows : List RecordingRow)
    → is_done id rows ≡ true
    → is_done id (reconcile_each w now stuck rows) ≡ true
unfolding reconcile_each
done-each id w now [] rows h = h
done-each id w now (r ∷ stuck) rows h =
    done-each id w now stuck (reconcile_one w now r rows) (done-one id w now r rows h)

decided-each :
    (w : World) (now : ℕ) (r : RecordingRow) (before after rows : List RecordingRow)
    → is_decided w now r ≡ true
    → is_found r rows ≡ true
    → is_done r.id (reconcile_each w now (before ++ r ∷ after) rows) ≡ true
unfolding reconcile_each
decided-each w now r [] after rows d h =
    done-each r.id w now after (reconcile_one w now r rows) (decided-one w now r rows d h)
decided-each w now r (q ∷ before) after rows d h =
    decided-each w now r before after (reconcile_one w now q rows) d (found-one r w now q rows h)

-- In a pass whose batch holds it, a recording is made ready or failed, whatever the rest of the batch
-- comes to, where the row that has its egress is its own and it has no egress, or LiveKit has not known
-- it for six hours, or LiveKit says that its egress has ended, and that it failed, or what its size is,
-- or the storage does not throw on the question for its size.
pub reconcile_rescue :
    (w : World) (now : ℕ) (r : RecordingRow) (before after rows stopped : List RecordingRow)
    → stop_overrunning_recordings w now (stop_recordings_for_ended_classes w rows) ≡ stopped
    → first batch (filter (is_stuck now) stopped) ≡ before ++ r ∷ after
    → is_decided w now r ≡ true
    → is_found r stopped ≡ true
    → is_done r.id (reconcile true w now rows) ≡ true
unfolding reconcile
reconcile_rescue w now r before after rows stopped e b d h =
    rw (e, b) (decided-each w now r before after stopped d h)
