-- ===== src/Recordings/Passes.antt =====
-- src/recordings/recordings.service.ts, src/recordings/recordings-reconciler.service.ts: the pass of every
-- minute and the other events, as writes of single rows.
use livetich_api.Prelude.{
  ℕ, leb, max, ◌-◌, ltb, ◌≡◌, inl, inr, refl, Text, Bool, true, false, not, ◌&&◌, Option, none,
  some, List, [], ◌∷◌, filter, arith, Bool-cases, Option-cases,
}
use livetich_api.Recordings.{RecordingRow}
use livetich_api.Recordings.Taking.{EgressResult, apply_egress_result}
use livetich_api.Recordings.Gallery.{key_of}
use livetich_api.Recordings.Reconciler.{
  World, Described, unreachable, no_record, unfinished, finished, first, batch, reconcile,
  reconcile_one, reconcile_each, stop_egress, stop_each, never_started, forgotten, abandon_ms,
  is_orphaned, has_ceiling, is_overrunning, is_stuck, stop_recordings_for_ended_classes,
  stop_overrunning_recordings,
}
use livetich_api.Recordings.Retention.{
  Swept, sweep_one, delete_each, is_expired, sweep_organization, sweep_organizations, is_skipped,
  sweep_expired_recordings,
}
use livetich_api.Recordings.Writes.{
  processes, fails, drops, write, Plain, Plain-refl, Plain-trans, Plain-one,
  apply_egress_result-Plain,
}

reconcile_one-Plain :
    (w : World) (now : ℕ) (r : RecordingRow) (rows : List RecordingRow)
    → Plain rows (reconcile_one w now r rows)
unfolding reconcile_one write
reconcile_one-Plain w now r rows = go (key_of r.egress_id) refl
  where
    next : List RecordingRow
    next = reconcile_one w now r rows

    described :
        (egress_id : Text) (d : Described)
        → key_of r.egress_id ≡ some egress_id
        → w.describe egress_id ≡ d
        → Plain rows next
    described e unreachable a b = Plain-refl rows next (ground (arith, a, b))
    described e unfinished a b = Plain-refl rows next (ground (arith, a, b))
    described e no_record a b = elim (Bool-cases (ltb abandon_ms (now - r.created_at))) [
      | inl c ↦ Plain-one (fails r.id forgotten) rows next refl (ground (arith, a, b, c))
      | inr c ↦ Plain-refl rows next (ground (arith, a, b, c))
    ]
    described e (finished complete size_bytes duration_sec error) a b =
        let result : EgressResult = record {
          egress_id = e;
          complete = complete;
          size_bytes = size_bytes;
          duration_sec = duration_sec;
          error = error;
        } in
        let at : next ≡ apply_egress_result result (w.measured e) now rows = ground (arith, a, b) in
        rw at (apply_egress_result-Plain result (w.measured e) now rows)

    go : (o : Option Text) → key_of r.egress_id ≡ o → Plain rows next
    go none a = Plain-one (fails r.id never_started) rows next refl (ground (arith, a))
    go (some egress_id) a = described egress_id (w.describe egress_id) a refl

reconcile_each-Plain :
    (w : World) (now : ℕ) (stuck rows : List RecordingRow)
    → Plain rows (reconcile_each w now stuck rows)
unfolding reconcile_each
reconcile_each-Plain w now [] rows = Plain-refl rows rows refl
reconcile_each-Plain w now (r ∷ stuck) rows =
    Plain-trans rows (reconcile_one w now r rows)
      (reconcile_each w now stuck (reconcile_one w now r rows)) (reconcile_one-Plain w now r rows)
      (reconcile_each-Plain w now stuck (reconcile_one w now r rows))

stop_egress-Plain :
    (w : World) (r : RecordingRow) (rows : List RecordingRow) → Plain rows (stop_egress w r rows)
unfolding stop_egress write
stop_egress-Plain w r rows = elim (Option-cases (key_of r.egress_id)) [
  | inl a ↦ Plain-refl rows (stop_egress w r rows) (ground (arith, a))
  | inr (e, a) ↦ elim (Bool-cases (w.stops e)) [
    | inl b ↦ Plain-one (processes r.id) rows (stop_egress w r rows) refl (ground (arith, a, b))
    | inr b ↦ Plain-refl rows (stop_egress w r rows) (ground (arith, a, b))
  ]
]

stop_each-Plain :
    (w : World) (running rows : List RecordingRow) → Plain rows (stop_each w running rows)
unfolding stop_each
stop_each-Plain w [] rows = Plain-refl rows rows refl
stop_each-Plain w (r ∷ running) rows =
    Plain-trans rows (stop_egress w r rows) (stop_each w running (stop_egress w r rows))
      (stop_egress-Plain w r rows) (stop_each-Plain w running (stop_egress w r rows))

stopped-Plain :
    (w : World) (now : ℕ) (rows : List RecordingRow)
    → Plain rows (stop_overrunning_recordings w now (stop_recordings_for_ended_classes w rows))
unfolding stop_overrunning_recordings stop_recordings_for_ended_classes
stopped-Plain w now rows =
    let orphaned = first batch (filter (is_orphaned w) rows) in
    let left = stop_each w orphaned rows in
    let running = filter (is_overrunning w now) (first batch (filter (has_ceiling w) left)) in
    Plain-trans rows left (stop_each w running left) (stop_each-Plain w orphaned rows)
      (stop_each-Plain w running left)

pub reconcile-Plain :
    (configured : Bool) (w : World) (now : ℕ) (rows : List RecordingRow)
    → Plain rows (reconcile configured w now rows)
unfolding reconcile
reconcile-Plain false w now rows = Plain-refl rows rows refl
reconcile-Plain true w now rows =
    let left = stop_overrunning_recordings w now (stop_recordings_for_ended_classes w rows) in
    let stuck = first batch (filter (is_stuck now) left) in
    Plain-trans rows left (reconcile_each w now stuck left) (stopped-Plain w now rows)
      (reconcile_each-Plain w now stuck left)

delete_each-Plain :
    (deletes : Text → Bool) (expired : List RecordingRow) (s : Swept)
    → Plain s.rows (delete_each deletes expired s).rows
unfolding delete_each sweep_one write
delete_each-Plain deletes [] s = Plain-refl s.rows s.rows refl
delete_each-Plain deletes (r ∷ expired) s =
    let next = sweep_one deletes r s in
    let one : Plain s.rows next.rows = elim (Bool-cases (deletes r.id)) [
      | inl e ↦ Plain-one (drops r.id) s.rows next.rows refl (ground (arith, e))
      | inr e ↦ Plain-refl s.rows next.rows (ground (arith, e))
    ] in
    Plain-trans s.rows next.rows (delete_each deletes expired next).rows one
      (delete_each-Plain deletes expired next)

sweep_organization-Plain :
    (deletes : Text → Bool) (limit now : ℕ) (org : Text × Option ℕ) (s : Swept)
    → Plain s.rows (sweep_organization deletes limit now org s).rows
unfolding sweep_organization
sweep_organization-Plain deletes limit now (id, none) s = Plain-refl s.rows s.rows refl
sweep_organization-Plain deletes limit now (id, some days) s = elim (Bool-cases (leb days 0)) [
  | inl e ↦ rw e (Plain-refl s.rows s.rows refl)
  | inr e ↦ rw e (
      delete_each-Plain deletes
        (first (max 1 (limit - s.deleted)) (filter (is_expired id days now) s.rows)) s)
]

sweep_organizations-Plain :
    (deletes : Text → Bool) (limit now : ℕ) (orgs : List (Text × Option ℕ)) (s : Swept)
    → Plain s.rows (sweep_organizations deletes limit now orgs s).rows
unfolding sweep_organizations
sweep_organizations-Plain deletes limit now [] s = Plain-refl s.rows s.rows refl
sweep_organizations-Plain deletes limit now (org ∷ orgs) s =
    let next = sweep_organization deletes limit now org s in
    let one : Plain s.rows next.rows = sweep_organization-Plain deletes limit now org s in
    elim (Bool-cases (leb limit next.deleted && not (is_skipped org.1))) [
      | inl e ↦ rw e one
      | inr e ↦ rw e (
          Plain-trans s.rows next.rows (sweep_organizations deletes limit now orgs next).rows one
            (sweep_organizations-Plain deletes limit now orgs next))
    ]

pub sweep-Plain :
    (deletes : Text → Bool) (limit now : ℕ) (orgs : List (Text × Option ℕ))
    (rows : List RecordingRow)
    → Plain rows (sweep_expired_recordings deletes limit now orgs rows).rows
unfolding sweep_expired_recordings
sweep-Plain deletes limit now orgs rows =
    sweep_organizations-Plain deletes limit now orgs
      (record { rows = rows; deleted = 0; purged = [] })
